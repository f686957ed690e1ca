-- ===== src/Client/Args/Settings.antt =====
-- What a command line says: the settings that its words spell, one behind the other.
use log_aggregator_c.Base.{
  pos_part, ℕ, ◌^◌, ◌<◌, ◌≡◌, refl, ap, ◌∙◌, true, false, Bool-cases, inl, inr, Option, none, some,
  List, [], ◌∷◌, arith, ℤ, pos, failed, if◌then◌else◌, lt→ltb, wrap32, wrap32-pos,
}
use log_aggregator_c.CString.{codes, str_eq, atoi, FitsLong, print_int}
use log_aggregator_c.CString.Decimal.{strtol-print_int}
use log_aggregator_c.Client.{LoadgenConfig}
use log_aggregator_c.Client.Args.{
  default_config, set_option, parse_args, is_null, incomplete, client_main,
}

-- A setting is an option with the word behind it.
pub data Field : Type 0 where
  url threads duration csv workload : Field

pub record Setting : Type 0 where
  pub field : Field
  pub value : List ℕ

abbrev pub option_name : Field → List ℕ
option_name url = codes "--url"
option_name threads = codes "--threads"
option_name duration = codes "--duration"
option_name csv = codes "--csv"
option_name workload = codes "--workload"

abbrev pub assign : Field → List ℕ → LoadgenConfig → LoadgenConfig
assign url v cfg = record cfg { url = some v }
assign threads v cfg = record cfg { threads = atoi v }
assign duration v cfg = record cfg { duration_sec = atoi v }
assign csv v cfg = record cfg { csv_path = some v }
assign workload v cfg = record cfg { workload = v }

-- The settings in turn: of two for one field, the later one stands.
abbrev pub assign_all : List Setting → LoadgenConfig → LoadgenConfig
assign_all [] cfg = cfg
assign_all (s ∷ ss) cfg = assign_all ss (assign s.field s.value cfg)

-- The words of `args` spell the settings.
pub data Spells : List (List ℕ) → List Setting → Type 0 where
  end : Spells [] []
  pair :
      {name value : List ℕ} {f : Field} {args : List (List ℕ)} {ss : List Setting}
      → str_eq name (option_name f) ≡ true
      → Spells args ss
      → Spells (name ∷ value ∷ args) (record { field = f; value = value } ∷ ss)

-- Behind some settings the words go wrong: a last word with no value, or no option's name.
pub data Wrong : List (List ℕ) → Type 0 where
  lone : {name : List ℕ} → Wrong (name ∷ [])
  unknown :
      {name value : List ℕ} {args : List (List ℕ)}
      → ((f : Field) → str_eq name (option_name f) ≡ false)
      → Wrong (name ∷ value ∷ args)
  later :
      {name value : List ℕ} {args : List (List ℕ)} (f : Field)
      → str_eq name (option_name f) ≡ true
      → Wrong args
      → Wrong (name ∷ value ∷ args)

pub data Parsed (args : List (List ℕ)) (cfg : LoadgenConfig) (o : Option LoadgenConfig)
    : Type 0 where
  accepted : (ss : List Setting) → Spells args ss → o ≡ some (assign_all ss cfg) → Parsed args cfg o
  rejected : Wrong args → o ≡ none → Parsed args cfg o

data Chosen (name value : List ℕ) (cfg : LoadgenConfig) (o : Option LoadgenConfig) : Type 0 where
  chosen :
      (f : Field)
      → str_eq name (option_name f) ≡ true
      → o ≡ some (assign f value cfg)
      → Chosen name value cfg o
  no_option :
      ((f : Field) → str_eq name (option_name f) ≡ false) → o ≡ none → Chosen name value cfg o

set_option-Chosen :
    (name value : List ℕ) (cfg : LoadgenConfig) → Chosen name value cfg (set_option name value cfg)
unfolding set_option
set_option-Chosen name value cfg = elim (Bool-cases (str_eq name (option_name url))) [
  | inl a ↦ chosen url a (rw a refl)
  | inr a ↦ elim (Bool-cases (str_eq name (option_name threads))) [
    | inl b ↦ chosen threads b (rw (a, b) refl)
    | inr b ↦ elim (Bool-cases (str_eq name (option_name duration))) [
      | inl c ↦ chosen duration c (rw (a, b, c) refl)
      | inr c ↦ elim (Bool-cases (str_eq name (option_name csv))) [
        | inl d ↦ chosen csv d (rw (a, b, c, d) refl)
        | inr d ↦ elim (Bool-cases (str_eq name (option_name workload))) [
          | inl e ↦ chosen workload e (rw (a, b, c, d, e) refl)
          | inr e ↦ no_option (none_of a b c d e) (rw (a, b, c, d, e) refl)
        ]
      ]
    ]
  ]
]
  where
    none_of :
        str_eq name (option_name url) ≡ false
        → str_eq name (option_name threads) ≡ false
        → str_eq name (option_name duration) ≡ false
        → str_eq name (option_name csv) ≡ false
        → str_eq name (option_name workload) ≡ false
        → (f : Field) → str_eq name (option_name f) ≡ false
    none_of a b c d e url = a
    none_of a b c d e threads = b
    none_of a b c d e duration = c
    none_of a b c d e csv = d
    none_of a b c d e workload = e

-- parse_args on any words: if they spell settings, it accepts them and makes these assignments in
-- their order; if somewhere behind settings there is a last word with no value, or a word that is
-- no option's name, it rejects them.
pub parse_args_lem :
    (args : List (List ℕ)) (cfg : LoadgenConfig) → Parsed args cfg (parse_args args cfg)
unfolding parse_args
parse_args_lem [] cfg = accepted [] end refl
parse_args_lem (name ∷ []) cfg = rejected lone refl
parse_args_lem (name ∷ value ∷ args) cfg = elim (set_option-Chosen name value cfg) [
  | no_option u e ↦ rejected (unknown u) (rw (e, parse_args) refl)
  | chosen f n e ↦ elim (parse_args_lem args (assign f value cfg)) [
    | accepted ss sp r ↦
        accepted (record { field = f; value = value } ∷ ss) (pair n sp) (rw (e, parse_args) r)
    | rejected w r ↦ rejected (later f n w) (rw (e, parse_args) r)
  ]
]

-- The command line for a configuration.
unfoldable pub command_line :
    (url_text : List ℕ) (thread_count seconds : ℕ) (csv_text workload_text : List ℕ) → List (List ℕ)
command_line u t d c w =
    option_name url
    ∷ u
    ∷ option_name threads
    ∷ print_int (pos t)
    ∷ option_name duration
    ∷ print_int (pos d)
    ∷ option_name csv
    ∷ c
    ∷ option_name workload
    ∷ w
    ∷ []

FitsLong-pos : (n : ℕ) → n < 2 ^ 31 → FitsLong (pos n)
FitsLong-pos n h = rw (lt→ltb n (2 ^ 63) (omega arith)) refl

atoi-print_int : (n : ℕ) → n < 2 ^ 31 → atoi (print_int (pos n)) ≡ pos n
unfolding atoi
atoi-print_int n h = ap wrap32 (strtol-print_int (pos n) (FitsLong-pos n h)) ∙ wrap32-pos n h

-- main, given the words that spell a configuration with a positive number of threads and of
-- seconds, both below 2^31, runs the load generator with exactly this configuration, and its exit
-- status tells whether that succeeded.
pub client_main-command_line :
    (u : List ℕ) (t d : ℕ) (c w : List ℕ) (run_loadgen : LoadgenConfig → ℤ)
    → 0 < t
    → t < 2 ^ 31
    → 0 < d
    → d < 2 ^ 31
    → let cfg : LoadgenConfig = record {
      threads = pos t;
      duration_sec = pos d;
      url = some u;
      csv_path = some c;
      workload = w;
    } in
      client_main (command_line u t d c w) run_loadgen
      ≡ (if failed (run_loadgen cfg) then pos 1 else pos 0, some cfg)
unfolding client_main parse_args set_option str_eq incomplete command_line
client_main-command_line u t d c w run_loadgen t0 t1 d0 d1 =
    rw (atoi-print_int t t1, atoi-print_int d d1) (ground arith)

pub record IsComplete (cfg : LoadgenConfig) : Type 0 where
  pub has_url : is_null cfg.url ≡ false
  pub has_csv : is_null cfg.csv_path ≡ false
  pub some_threads : 0 < pos_part cfg.threads
  pub some_seconds : 0 < pos_part cfg.duration_sec

pub data Main (args : List (List ℕ)) (run_loadgen : LoadgenConfig → ℤ)
    (r : ℤ × Option LoadgenConfig) : Type 0 where
  refuses : r ≡ (pos 1, none) → Main args run_loadgen r
  runs :
      (ss : List Setting)
      → Spells args ss
      → IsComplete (assign_all ss default_config)
      → r ≡ (
        if failed (run_loadgen (assign_all ss default_config)) then pos 1 else pos 0,
        some (assign_all ss default_config),
      )
      → Main args run_loadgen r

not_incomplete : (cfg : LoadgenConfig) → incomplete cfg ≡ false → IsComplete cfg
unfolding incomplete
not_incomplete cfg i = ground arith

-- main, on any words, either exits with status 1 and runs nothing, or the words spell settings that
-- give a URL, a file, and positive numbers of threads and seconds, and it runs the load generator
-- with these, its status telling whether that succeeded.
pub client_main_lem :
    (args : List (List ℕ)) (run_loadgen : LoadgenConfig → ℤ)
    → Main args run_loadgen (client_main args run_loadgen)
unfolding client_main
client_main_lem args run_loadgen = elim (parse_args_lem args default_config) [
  | rejected w e ↦ refuses (rw (e, client_main) refl)
  | accepted ss sp e ↦ elim (Bool-cases (incomplete (assign_all ss default_config))) [
    | inl i ↦ refuses (rw (e, client_main) (rw i refl))
    | inr i ↦ runs ss sp (not_incomplete _ i) (rw (e, client_main) (rw i refl))
  ]
]
