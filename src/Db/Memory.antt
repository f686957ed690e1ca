-- ===== src/Db/Memory.antt =====
-- A database in memory: it meets what the properties assume of libpq and PostgreSQL.
use Prim.Native.String.{String}
use text.Mathlib.Text.{◌==◌ as text_eq}
use log_aggregator_c.Base.{
  ℕ, zero, suc, ◌+◌, ◌-◌, ◌≡◌, refl, ap, ap₂, ◌∙◌, sym, Bool, true, false, Option, none, some, List,
  [], ◌∷◌, arith, length, get_or, take, drop, drop-cons, drop_all, filter_if, if◌then◌else◌, ◌&&◌,
  pos, pos_part, ◌==◌,
}
use log_aggregator_c.CString.{c_str, read_int, print_int}
use log_aggregator_c.CString.Decimal.{read_int-print_int}
use log_aggregator_c.Db.{Libpq, insert_query, select_query, select_level_query}
use log_aggregator_c.Db.Rows.{Row, in_level, decoded, Table, Inserts, Reads}
use log_aggregator_c.Db.Connections.{Counts}

-- `up` is whether queries succeed. A connection is whether it still stands.
pub record Store : Type 0 where
  pub opened : ℕ
  pub rows : List Row
  pub up : Bool

abbrev pub no_row : Row
no_row = record { timestamp = []; level = []; message = [] }

abbrev column : Row → ℕ → List ℕ
column r n = if n == 0 then r.timestamp else if n == 1 then r.level else r.message

abbrev page : List ℕ → List ℕ → List Row → List Row
page limit offset rows = take (pos_part (read_int limit)) (drop (pos_part (read_int offset)) rows)

pub data Query : Type 0 where
  insert select select_level other : Query

abbrev query_of : String → Query
query_of sql =
    if text_eq sql insert_query
    then insert
    else if text_eq sql select_query
    then select
    else if text_eq sql select_level_query
    then select_level
    else other

abbrev alive : Option Bool → Bool
alive none = false
alive (some stands) = stands

abbrev answer : Query → List (List ℕ) → Store → List Row × Store
answer insert (t ∷ l ∷ m ∷ []) s = (
  [],
  record s { rows = record { timestamp = c_str t; level = c_str l; message = c_str m } ∷ s.rows },
)
answer select (limit ∷ offset ∷ []) s = (page limit offset s.rows, s)
answer select_level (level ∷ limit ∷ offset ∷ []) s =
    (page limit offset (filter_if (in_level (some level)) s.rows), s)
answer _ _ s = ([], s)

abbrev executed : Bool → Query → List (List ℕ) → Store → Option (List Row) × Store
executed false q params s = (none, s)
executed true q params s = (some (answer q params s).0, (answer q params s).1)

abbrev pub memory_pq : Libpq
memory_pq = record {
  World = Store;
  Conn = Bool;
  Result = List Row;
  connectdb = λ info s. (true, record s { opened = s.opened + 1 });
  status_ok = λ conn s. true;
  finish = λ conn s. record s { opened = s.opened - 1 };
  exec_params = λ conn sql params s. executed (s.up && alive conn) (query_of sql) params s;
  command_ok = λ res. true;
  tuples_ok = λ res. true;
  ntuples = length;
  getvalue = λ res i n. column (get_or res i no_row) n;
}

decoded-drop :
    (res : List Row) (n i : ℕ) → i + n ≡ length res → decoded memory_pq res n i ≡ drop i res
unfolding decoded
decoded-drop res zero i h = sym (drop_all i res (omega arith))
decoded-drop res (suc n) i h =
    ap₂ ◌∷◌ refl (decoded-drop res n (i + 1) (omega arith))
    ∙ sym (drop-cons i res no_row (omega arith))

page-print_int :
    (limit offset : ℕ) (rows : List Row)
    → page (print_int (pos limit)) (print_int (pos offset)) rows ≡ take limit (drop offset rows)
page-print_int limit offset rows =
    ap₂ (λ l o. take (pos_part l) (drop (pos_part o) rows)) (read_int-print_int (pos limit))
      (read_int-print_int (pos offset))

-- A query that succeeds gives what `answer` says.
executed-some :
    (up : Bool) (q : Query) (params : List (List ℕ)) (s s' : Store) (res : List Row)
    → ◌≡◌ {A = Option (List Row) × Store} (executed up q params s) (some res, s')
    → res ≡ (answer q params s).0
executed-some false q params s s' res e = let e' = ap (λ p. p.0) e in cc
executed-some true q params s s' res e = let e' = ap (λ p. p.0) e in cc

pub executed-same :
    (up : Bool) (q : Query) (params : List (List ℕ)) (s : Store)
    → (executed up q params s).1.opened ≡ s.opened
executed-same false q params s = refl
executed-same true q params s = answer-same q params s
  where
    answer-same :
        (q : Query) (params : List (List ℕ)) (s : Store) → (answer q params s).1.opened ≡ s.opened
    answer-same insert [] s = refl
    answer-same insert (t ∷ []) s = refl
    answer-same insert (t ∷ l ∷ []) s = refl
    answer-same insert (t ∷ l ∷ m ∷ []) s = refl
    answer-same insert (t ∷ l ∷ m ∷ x ∷ r) s = refl
    answer-same select [] s = refl
    answer-same select (l ∷ []) s = refl
    answer-same select (l ∷ o ∷ []) s = refl
    answer-same select (l ∷ o ∷ x ∷ r) s = refl
    answer-same select_level [] s = refl
    answer-same select_level (l ∷ []) s = refl
    answer-same select_level (l ∷ o ∷ []) s = refl
    answer-same select_level (l ∷ o ∷ x ∷ []) s = refl
    answer-same select_level (l ∷ o ∷ x ∷ y ∷ r) s = refl
    answer-same other params s = refl

module _ (up : Bool) (limit offset : ℕ) (s s' : Store) (res : List Row) where
  pub memory_selects :
      ◌≡◌ {A = Option (List Row) × Store}
        (executed up select (print_int (pos limit) ∷ print_int (pos offset) ∷ []) s)
        (some res, s')
      → decoded memory_pq res (length res) 0 ≡ take limit (drop offset s.rows)
  memory_selects e =
      decoded-drop res (length res) 0 (omega arith)
      ∙ executed-some up select (print_int (pos limit) ∷ print_int (pos offset) ∷ []) s s' res e
      ∙ page-print_int limit offset s.rows

  pub memory_selects_level :
      (level : List ℕ)
      → ◌≡◌ {A = Option (List Row) × Store}
          (executed up select_level (level ∷ print_int (pos limit) ∷ print_int (pos offset) ∷ []) s)
          (some res, s')
      → decoded memory_pq res (length res) 0
        ≡ take limit (drop offset (filter_if (in_level (some level)) s.rows))
  memory_selects_level level e =
      decoded-drop res (length res) 0 (omega arith)
      ∙ executed-some up select_level (level ∷ print_int (pos limit) ∷ print_int (pos offset) ∷ [])
          s s' res e
      ∙ page-print_int limit offset (filter_if (in_level (some level)) s.rows)

unfoldable pub memory_table : Table memory_pq
memory_table = record {
  rows = λ s. s.rows;
  rows-connectdb = λ info s. refl;
  selects =
      λ conn limit offset s s' res e ok. memory_selects (s.up && conn) limit offset s s' res e;
  selects_level = λ conn level limit offset s s' res e ok.
      memory_selects_level (s.up && conn) limit offset s s' res level e;
}

executed-inserts :
    (up : Bool) (t l m : List ℕ) (s s' : Store) (res : List Row)
    → ◌≡◌ {A = Option (List Row) × Store} (executed up insert (t ∷ l ∷ m ∷ []) s) (some res, s')
    → s'.rows ≡ record { timestamp = c_str t; level = c_str l; message = c_str m } ∷ s.rows
executed-inserts false t l m s s' res e = let e' = ap (λ p. p.0) e in cc
executed-inserts true t l m s s' res e = ap (λ p. p.1.rows) (sym e)

pub memory-Inserts : Inserts memory_table
unfolding memory_table
memory-Inserts = record {
  inserts = λ conn e s s' res q ok.
      executed-inserts (s.up && alive conn) (print_int e.timestamp) e.level e.message s s' res q;
}

select_keeps :
    (up : Bool) (params : List (List ℕ)) (s : Store) → (executed up select params s).1.rows ≡ s.rows
select_keeps false params s = refl
select_keeps true [] s = refl
select_keeps true (l ∷ []) s = refl
select_keeps true (l ∷ o ∷ []) s = refl
select_keeps true (l ∷ o ∷ x ∷ r) s = refl

select_level_keeps :
    (up : Bool) (params : List (List ℕ)) (s : Store)
    → (executed up select_level params s).1.rows ≡ s.rows
select_level_keeps false params s = refl
select_level_keeps true [] s = refl
select_level_keeps true (l ∷ []) s = refl
select_level_keeps true (l ∷ o ∷ []) s = refl
select_level_keeps true (l ∷ o ∷ x ∷ []) s = refl
select_level_keeps true (l ∷ o ∷ x ∷ y ∷ r) s = refl

pub memory-Reads : Reads memory_table
unfolding memory_table
memory-Reads = record {
  rows-finish = λ conn s. refl;
  rows-select = λ conn params s. select_keeps (s.up && alive conn) params s;
  rows-select_level = λ conn params s. select_level_keeps (s.up && alive conn) params s;
}

unfoldable pub memory_counts : Counts memory_pq
memory_counts = record {
  open_count = λ s. s.opened;
  open_count-connectdb = λ info s. refl;
  open_count-finish = λ conn s. refl;
  open_count-exec = λ conn sql params s. executed-same (s.up && alive conn) (query_of sql) params s;
}
