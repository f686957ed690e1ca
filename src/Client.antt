-- ===== src/Client.antt =====
-- The load generator, src/client/: its command line, its threads and their report. libcurl, the
-- clock, rand and the file system are arguments.
pub mod Args
pub mod Clock
pub mod Requests
pub mod Worker
pub mod Loadgen
mod Tests
use log_aggregator_c.Base.{ℕ, Option, List, ℤ}

-- include/client/loadgen.h: `none` is NULL
pub record LoadgenConfig : Type 0 where
  pub threads : ℤ
  pub duration_sec : ℤ
  pub url : Option (List ℕ)
  pub csv_path : Option (List ℕ)
  pub workload : List ℕ
