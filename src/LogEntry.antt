-- ===== src/LogEntry.antt =====
-- include/server/log_entry.h
use log_aggregator_c.Base.{ℕ, ℤ, pos, List, []}

pub record LogEntry : Type 0 where
  pub level : List ℕ  -- char[16]
  pub message : List ℕ  -- char[256]
  pub timestamp : ℤ  -- time_t

-- What an index outside of an array would read: no access of a valid state does.
abbrev pub no_entry : LogEntry
no_entry = record { level = []; message = []; timestamp = pos 0 }
