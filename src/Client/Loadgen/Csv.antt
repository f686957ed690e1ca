-- ===== src/Client/Loadgen/Csv.antt =====
-- run_loadgen on every branch, and the file that it adds a line to.
use log_aggregator_c.Base.{
  ◌≡◌, refl, ap, sym, ◌⊎◌, Bool, true, false, Bool-cases, inl, inr, Option, none, some, List, [],
  ◌∷◌, ◌++◌, map, ℤ, pos, negsuc,
}
use mathlib.Core.List.{map-append}
use log_aggregator_c.Client.{LoadgenConfig}
use log_aggregator_c.Client.Worker.{WorkerMetrics}
use log_aggregator_c.Client.Loadgen.{
  Floats, Line, CsvLine, header, row, collect, first_totals, sum_metrics, line_of, append_line,
  run_loadgen,
}

-- A file that does not exist, or that holds one header with rows behind it.
pub data IsCsv {f : Floats} (file : Option (List (CsvLine f))) (rows : List (Line f)) : Type 0 where
  absent : file ≡ none → rows ≡ [] → IsCsv file rows
  present : file ≡ some (header ∷ map row rows) → IsCsv file rows

abbrev pub HasNull : List (Option WorkerMetrics) → Type 0
HasNull [] = ⊥
HasNull (none ∷ ms) = Unit {0}
HasNull (some m ∷ ms) = HasNull ms

pub data Ran (f : Floats) (cfg : LoadgenConfig) (got_memory : Bool)
    (joined : Option (List (Option WorkerMetrics))) (can_append can_read : Bool)
    (file : Option (List (CsvLine f))) (rows : List (Line f))
    (o : Option (ℤ × Option (List (CsvLine f)))) : Type 0 where
  no_memory :
      got_memory ≡ false
      → o ≡ some (negsuc 0, file)
      → Ran f cfg got_memory joined can_append can_read file rows o
  undefined_thread :
      got_memory ≡ true
      → joined ≡ none
      → o ≡ none
      → Ran f cfg got_memory joined can_append can_read file rows o
  reads_null :
      (returned : List (Option WorkerMetrics))
      → got_memory ≡ true
      → joined ≡ some returned
      → HasNull returned
      → o ≡ none
      → Ran f cfg got_memory joined can_append can_read file rows o
  no_file :
      (ms : List WorkerMetrics)
      → got_memory ≡ true
      → joined ≡ some (map some ms)
      → can_append ≡ false
      → o ≡ some (negsuc 0, file)
      → Ran f cfg got_memory joined can_append can_read file rows o
  written :
      (ms : List WorkerMetrics) (lines : List (CsvLine f))
      → got_memory ≡ true
      → joined ≡ some (map some ms)
      → can_append ≡ true
      → (file ≡ none) ⊎ (can_read ≡ true)
      → o ≡ some (pos 0, some lines)
      → IsCsv (some lines) (rows ++ (line_of f cfg (sum_metrics f ms (first_totals f)) ∷ []))
      → Ran f cfg got_memory joined can_append can_read file rows o
  second_header :
      (ms : List WorkerMetrics)
      → got_memory ≡ true
      → joined ≡ some (map some ms)
      → can_append ≡ true
      → can_read ≡ false
      → file ≡ some (header ∷ map row rows)
      → o
        ≡ some (
          pos 0,
          some (
              header ∷ map row rows
              ++ (header ∷ row (line_of f cfg (sum_metrics f ms (first_totals f))) ∷ [])),
        )
      → Ran f cfg got_memory joined can_append can_read file rows o

data Collected (joined : List (Option WorkerMetrics)) (o : Option (List WorkerMetrics))
    : Type 0 where
  all_there : (ms : List WorkerMetrics) → joined ≡ map some ms → o ≡ some ms → Collected joined o
  null : HasNull joined → o ≡ none → Collected joined o

collect-Collected : (joined : List (Option WorkerMetrics)) → Collected joined (collect joined)
unfolding collect
collect-Collected [] = all_there [] refl refl
collect-Collected (none ∷ ms) = null tt refl
collect-Collected (some m ∷ ms) = elim (collect-Collected ms) [
  | null h e ↦ null h (rw e refl)
  | all_there rest h e ↦ all_there (m ∷ rest) (ap (λ l. some m ∷ l) h) (rw e refl)
]

append_line-IsCsv :
    {f : Floats} (l : Line f) (rows : List (Line f))
    → IsCsv (some (append_line f l true (some (header ∷ map row rows)))) (rows ++ (l ∷ []))
append_line-IsCsv {f} l rows =
    present (ap (λ ls. some (header ∷ ls)) (sym (map-append row rows (l ∷ []))))

-- run_loadgen on a file that is absent or holds one header and rows, in each of six cases that
-- exclude each other: without memory it returns -1 with the file as before; if a thread or its join
-- is undefined, so is the run; if a thread returned NULL it reads through it; if the file cannot be
-- opened to append, it returns -1 with the file as before; else it returns 0. If then the file was
-- absent, or can be read, it now holds one header, the rows, and the line of the totals; if it is
-- there and cannot be read, a second header is written before that line.
pub run_loadgen_lem :
    (f : Floats) (cfg : LoadgenConfig) (got_memory : Bool)
    (joined : Option (List (Option WorkerMetrics))) (can_append can_read : Bool)
    (file : Option (List (CsvLine f))) (rows : List (Line f))
    → IsCsv file rows
    → Ran f cfg got_memory joined can_append can_read file rows
        (run_loadgen f cfg got_memory joined can_append can_read file)
unfolding run_loadgen
run_loadgen_lem f cfg false joined can_append can_read file rows c = no_memory refl refl
run_loadgen_lem f cfg true none can_append can_read file rows c = undefined_thread refl refl refl
run_loadgen_lem f cfg true (some returned) can_append can_read file rows c =
    elim (collect-Collected returned) [
      | null h e ↦ reads_null returned refl refl h (rw e refl)
      | all_there ms h e ↦ elim (Bool-cases can_append) [
        | inr n ↦ no_file ms refl (ap some h) n (rw (e, n) refl)
        | inl y ↦ appended ms h e y (Bool-cases can_read) c
      ]
    ]
  where
    appended :
        (ms : List WorkerMetrics)
        → returned ≡ map some ms
        → collect returned ≡ some ms
        → can_append ≡ true
        → (can_read ≡ true) ⊎ (can_read ≡ false)
        → IsCsv file rows
        → Ran f cfg true
            (some returned)
            can_append
            can_read
            file
            rows
            (run_loadgen f cfg true (some returned) can_append can_read file)
    appended ms h e y reads (absent a r) =
        let l = line_of f cfg (sum_metrics f ms (first_totals f)) in
        written ms (header ∷ row l ∷ []) refl (ap some h) y (inl a) (rw (e, y, a) refl)
          (rw r (present refl))
    appended ms h e y (inl reads) (present a) =
        let l = line_of f cfg (sum_metrics f ms (first_totals f)) in
        written ms (header ∷ map row rows ++ (row l ∷ [])) refl (ap some h) y (inr reads)
          (rw (e, y, a, reads) refl) (append_line-IsCsv l rows)
    appended ms h e y (inr hidden) (present a) =
        second_header ms refl (ap some h) y hidden a (rw (e, y, a, hidden) refl)
