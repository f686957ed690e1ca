-- ===== src/Archive/Line.antt =====
-- sscanf reads from a line of the file what storage_write printed.
use log_aggregator_c.Base.{
  ℕ, ◌≤◌, ◌<◌, ◌≡◌, refl, ap₂, ◌∙◌, false, not, ◌==◌, Option, some, List, [], ◌∷◌, ◌++◌, arith,
  length, length-append, AllTrue,
}
use log_aggregator_c.CString.{c_str, strtol, FitsLong, is_space}
use log_aggregator_c.CString.Decimal.{number_of, strtol-number_of}
use log_aggregator_c.LogEntry.{LogEntry}
use log_aggregator_c.Db.Fill.{IsSized}
use log_aggregator_c.Handlers.Fetch.{item_of}
use log_aggregator_c.Archive.{printed_line, scan_message, scan_level, scan_line}
use log_aggregator_c.Archive.Fields.{
  scan_while-AllTrue, skip_space-blank, c_str-printed_line, printed_line-number_of,
  write_string-Written, Begins, skip_space-Begins, Begins-non_empty, Begins-AllTrue,
  number_of-Number,
}

-- The bytes up to one that the test refuses.
-- of one line that does not start with white space, neither of them empty.
pub record IsPlain (e : LogEntry) : Type 0 where
  pub time : FitsLong e.timestamp
  pub one_word : AllTrue (λ c. not (is_space c)) (c_str e.level)
  pub level_size : length (c_str e.level) ≤ 15
  pub level_some : 0 < length (c_str e.level)
  pub one_line : AllTrue (λ c. not (c == 10)) (c_str e.message)
  pub message_size : length (c_str e.message) ≤ 255
  pub begins : Begins (c_str e.message)

pub record Scanned (e : LogEntry) (o : Option LogEntry) : Type 0 where
  pub entry : LogEntry
  pub result : o ≡ some entry
  pub same : item_of entry ≡ item_of e

module _ (e old : LogEntry) (p : IsPlain e) (v : IsSized old) where
  scan_message-Scanned :
      (l : List ℕ)
      → c_str l ≡ c_str e.level
      → Scanned e (
          scan_message
            (b' ' ∷ (c_str e.message ++ (10 ∷ [])))
            (record { level = l; message = old.message; timestamp = e.timestamp }))
  scan_message-Scanned l h =
      let s = c_str e.message in
      let line = s ++ (10 ∷ []) in
      let w =
        write_string-Written old.message e.message
          (omega (arith, p.message_size, v.message_size)) in
      let cut =
        scan_while-AllTrue (length (b' ' ∷ line)) (λ c. not (c == 10)) s 10 [] p.one_line refl
          (omega (arith, length-append s (10 ∷ []))) in
      let n : (length s == 0) ≡ false = ground (arith, Begins-non_empty p.begins) in
      record {
        entry = record { level = l; message = w.array; timestamp = e.timestamp };
        result =
            rw (skip_space-blank line, skip_space-Begins s (10 ∷ []) p.begins)
              (rw cut (rw n (rw w.result refl)));
        same = ap₂ (λ a b. record { timestamp = e.timestamp; level = a; message = b }) h w.holds;
      }

  scan_level-Scanned : Scanned e (
      scan_level
        (b' ' ∷ (c_str e.level ++ (b' ' ∷ (c_str e.message ++ (10 ∷ [])))))
        (record { level = old.level; message = old.message; timestamp = e.timestamp }))
  scan_level-Scanned =
      let s = c_str e.level in
      let rest = b' ' ∷ (c_str e.message ++ (10 ∷ [])) in
      let w = write_string-Written old.level e.level (omega (arith, p.level_size, v.level_size)) in
      let cut =
        scan_while-AllTrue 15 (λ c. not (is_space c)) s (b' ') (c_str e.message ++ (10 ∷ []))
          p.one_word refl p.level_size in
      let n : (length s == 0) ≡ false = ground (arith, p.level_some) in
      let m = scan_message-Scanned w.array w.holds in
      record {
        entry = m.entry;
        result =
            rw
              (
                skip_space-blank (s ++ rest),
                skip_space-Begins s rest (Begins-AllTrue s p.one_word p.level_some),
              )
              (rw cut (rw n (rw w.result m.result)));
        same = m.same;
      }

  -- The line that storage_write printed gives back the entry, up to what its arrays hold behind
  -- the ends of their strings.
  pub scan_line-Scanned : Scanned e (scan_line (printed_line e) old)
  unfolding scan_line
  scan_line-Scanned =
      let rest = c_str e.level ++ (b' ' ∷ (c_str e.message ++ (10 ∷ []))) in
      let line = number_of e.timestamp ++ (b' ' ∷ rest) in
      let split : c_str (printed_line e) ≡ line = c_str-printed_line e ∙ printed_line-number_of e in
      let d =
        number_of-Number e.timestamp (length line) rest
          (omega (arith, length-append (number_of e.timestamp) (b' ' ∷ rest))) in
      let n : (length d.digits == 0) ≡ false = ground (arith, d.some_digits) in
      let t : strtol line ≡ e.timestamp = strtol-number_of e.timestamp (b' ') rest p.time refl in
      let l = scan_level-Scanned in
      record {
        entry = l.entry;
        result = rw split (rw d.result (rw n (rw t l.result)));
        same = l.same;
      }
