-- ===== src/Archive/Tests.antt =====
-- A file with two entries.
use log_aggregator_c.Base.{ℕ, refl, [], ◌∷◌, pos, arith, replicate}
use log_aggregator_c.CString.{c_str}
use log_aggregator_c.LogEntry.{LogEntry}
use log_aggregator_c.Db.Fill.{IsSized}
use log_aggregator_c.Archive.Line.{IsPlain}
use log_aggregator_c.Archive.RoundTrip.{ReadBack, storage_read_last-write_news}

abbrev entry : ℕ → LogEntry
entry n = record { level = 73 ∷ 0 ∷ []; message = 109 ∷ 32 ∷ 110 ∷ 0 ∷ []; timestamp = pos n }

entry_1-IsPlain : IsPlain (entry 1)
unfolding c_str
entry_1-IsPlain = record {
  time = refl;
  one_word = (refl, tt);
  level_size = omega arith;
  level_some = omega arith;
  one_line = (refl, (refl, (refl, tt)));
  message_size = omega arith;
  begins = record { first = 109; others = 32 ∷ 110 ∷ []; split = refl; dark = refl };
}

entry_2-IsPlain : IsPlain (entry 2)
unfolding c_str
entry_2-IsPlain = record {
  time = refl;
  one_word = (refl, tt);
  level_size = omega arith;
  level_some = omega arith;
  one_line = (refl, (refl, (refl, tt)));
  message_size = omega arith;
  begins = record { first = 109; others = 32 ∷ 110 ∷ []; split = refl; dark = refl };
}

abbrev blank : LogEntry
blank = record { level = replicate 16 0; message = replicate 256 0; timestamp = pos 0 }

blank-IsSized : IsSized blank
blank-IsSized = record { level_size = refl; message_size = refl }

storage_read_last-write_news_example : ReadBack 1 (entry 2) (entry 1 ∷ []) (blank ∷ blank ∷ [])
storage_read_last-write_news_example =
    storage_read_last-write_news 1 (entry 2) (entry 1 ∷ []) (blank ∷ blank ∷ [])
      (entry_2-IsPlain, (entry_1-IsPlain, tt)) (blank-IsSized, (blank-IsSized, tt)) (omega arith)
