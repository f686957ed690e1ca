-- ===== src/Client/Args.antt =====
-- src/client/main.c: the command line of the load generator.
pub mod Settings
use log_aggregator_c.Base.{
  ℕ, Bool, ◌||◌, Option, none, some, List, [], ◌∷◌, ℤ, pos, negsuc, leb_ℤ, failed, if◌then◌else◌,
}
use log_aggregator_c.CString.{codes, str_eq, atoi}
use log_aggregator_c.Client.{LoadgenConfig}

-- The values of `cfg` before the loop.
abbrev pub default_config : LoadgenConfig
default_config = record {
  threads = pos 0;
  duration_sec = pos 0;
  url = none;
  csv_path = none;
  workload = codes "mixed";
}

-- The if-else chain of the loop's body for an argument with another one behind it. `none` is the
-- last branch.
unfoldable pub set_option : (arg value : List ℕ) → LoadgenConfig → Option LoadgenConfig
set_option arg value cfg =
    if str_eq arg (codes "--url")
    then some (record cfg { url = some value })
    else if str_eq arg (codes "--threads")
    then some (record cfg { threads = atoi value })
    else if str_eq arg (codes "--duration")
    then some (record cfg { duration_sec = atoi value })
    else if str_eq arg (codes "--csv")
    then some (record cfg { csv_path = some value })
    else if str_eq arg (codes "--workload")
    then some (record cfg { workload = value })
    else none

-- The loop over argv[1] to argv[argc - 1]. `none` is `return 1` in its last branch, which an
-- argument with none behind it always takes.
unfoldable pub parse_args : List (List ℕ) → LoadgenConfig → Option LoadgenConfig
parse_args [] cfg = some cfg
parse_args (arg ∷ []) cfg = none
parse_args (arg ∷ value ∷ rest) cfg = elim (set_option arg value cfg) [
  | none ↦ none
  | some cfg' ↦ parse_args rest cfg'
]

abbrev pub is_null : Option (List ℕ) → Bool
is_null none = Bool.true
is_null (some s) = Bool.false

-- The test behind the loop.
unfoldable pub incomplete : LoadgenConfig → Bool
incomplete cfg =
    is_null cfg.url
    || leb_ℤ cfg.threads (pos 0)
    || leb_ℤ cfg.duration_sec (pos 0)
    || is_null cfg.csv_path

-- main: its exit status. `run_loadgen` is run at most once, and the model shows its argument.
unfoldable pub client_main :
    (args : List (List ℕ)) → (run_loadgen : LoadgenConfig → ℤ) → ℤ × Option LoadgenConfig
client_main args run_loadgen = elim (parse_args args default_config) [
  | none ↦ (pos 1, none)
  | some cfg ↦
      if incomplete cfg
      then (pos 1, none)
      else (if failed (run_loadgen cfg) then pos 1 else pos 0, some cfg)
]
