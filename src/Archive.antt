-- ===== src/Archive.antt =====
-- archive/storage.c: a log in a text file, a line for each entry. The lock makes each call of
-- storage_write one step; what fopen finds is an argument, and messages to stderr are left out.
pub mod Fields
pub mod Line
pub mod Search
pub mod Lines
pub mod ReadLast
pub mod Body
pub mod RoundTrip
mod Tests
use log_aggregator_c.Base.{
  ℕ, zero, suc, ◌+◌, ◌-◌, Bool, true, false, not, ◌&&◌, ◌||◌, Option, none, some, List, [], ◌∷◌,
  ◌++◌, ℤ, pos, negsuc, length, get_or, drop, ltb_ℤ, ◌==◌, if◌then◌else◌, ◌>>=◌, load, store,
}
use log_aggregator_c.CString.{c_str, print_int, strtol, is_digit, is_space}
use log_aggregator_c.LogEntry.{LogEntry}

-- `text` is what the file named storage_filename holds, and `is_open` whether storage_file is a
-- stream.
pub record Storage : Type 0 where
  pub is_open : Bool
  pub text : List ℕ

-- `found` is what the file holds, if it can be opened to append to it.
unfoldable pub storage_init : (found : Option (List ℕ)) → Storage → ℤ × Storage
storage_init none s = (negsuc 0, record s { is_open = false })
storage_init (some text) s = (pos 0, record { is_open = true; text = text })

-- "%ld %s %s\n"
unfoldable pub printed_line : LogEntry → List ℕ
printed_line e =
    c_str (print_int e.timestamp)
    ++ (b' ' ∷ (c_str e.level ++ (b' ' ∷ (c_str e.message ++ (10 ∷ [])))))

unfoldable pub storage_write : LogEntry → Storage → Option (ℤ × Storage)
storage_write entry s =
    if s.is_open then some (pos 0, record s { text = s.text ++ printed_line entry }) else none

unfoldable pub storage_close : Storage → Option Storage
storage_close s = if s.is_open then some (record s { is_open = false }) else none

-- while (pos > 0): from `pos` back over newlines.
unfoldable pub skip_newlines : List ℕ → (pos : ℕ) → ℕ
skip_newlines text zero = zero
skip_newlines text (suc p) =
    let rest = skip_newlines text p in if get_or text (suc p) 0 == 10 then rest else suc p

-- while (pos >= 0 && entries_found < limit), on pos + 1 and entries_found.
unfoldable pub find_lines : List ℕ → (limit : ℤ) → (next found : ℕ) → ℕ × ℕ
find_lines text limit zero found = (zero, found)
find_lines text limit (suc p) found =
    let rest = find_lines text limit p (if get_or text p 0 == 10 then found + 1 else found) in
    if ltb_ℤ (pos found) limit then rest else (suc p, found)

-- if (pos < 0) pos = 0; else pos += 2;
abbrev pub start_of : (next : ℕ) → ℕ
start_of zero = 0
start_of (suc p) = suc p + 1

-- fgets with room for `n` bytes and the 0: the line, and what is left of the file.
unfoldable pub fgets : (n : ℕ) → List ℕ → List ℕ × List ℕ
fgets zero text = ([], text)
fgets (suc n) [] = ([], [])
fgets (suc n) (c ∷ cs) =
    let (line, rest) = fgets n cs in if c == 10 then (c ∷ [], cs) else (c ∷ line, rest)

-- Of sscanf: the bytes in front that `test` accepts, at most `n`; and what is behind them.
unfoldable pub scan_while : (n : ℕ) → (test : ℕ → Bool) → List ℕ → List ℕ × List ℕ
scan_while zero test s = ([], s)
scan_while (suc n) test [] = ([], [])
scan_while (suc n) test (c ∷ cs) =
    let (front, rest) = scan_while n test cs in if test c then (c ∷ front, rest) else ([], c ∷ cs)

unfoldable pub skip_space : List ℕ → List ℕ
skip_space [] = []
skip_space (c ∷ cs) = let rest = skip_space cs in if is_space c then rest else c ∷ cs

abbrev pub skip_sign : List ℕ → List ℕ
skip_sign [] = []
skip_sign (c ∷ cs) = if c == b'-' || c == b'+' then cs else c ∷ cs

-- A string and its 0, written to an array.
unfoldable pub write_string : List ℕ → List ℕ → Option (List ℕ)
write_string [] s = none
write_string (d ∷ dst) [] = some (0 ∷ dst)
write_string (d ∷ dst) (c ∷ cs) = write_string dst cs >>= λ rest. some (c ∷ rest)

abbrev pub scan_message : List ℕ → LogEntry → Option LogEntry
scan_message s old =
    let (message, rest) = scan_while (length s) (λ c. not (c == 10)) (skip_space s) in
    if length message == 0
    then some old
    else (write_string old.message message >>= λ m. some (record old { message = m }))

abbrev pub scan_level : List ℕ → LogEntry → Option LogEntry
scan_level s old =
    let (level, rest) = scan_while 15 (λ c. not (is_space c)) (skip_space s) in
    if length level == 0
    then some old
    else (write_string old.level level >>= λ l. scan_message rest (record old { level = l }))

-- sscanf(line, "%ld %15s %[^\n]", ...), which leaves the fields behind the first mismatch as they
-- are. The message has no bound: one that does not fit its array is a fault.
unfoldable pub scan_line : (line : List ℕ) → (old : LogEntry) → Option LogEntry
scan_line line old =
    let s = c_str line in
    let (digits, rest) = scan_while (length s) is_digit (skip_sign (skip_space s)) in
    if length digits == 0 then some old else scan_level rest (record old { timestamp = strtol s })

-- while (count < entries_found && fgets(...)), with `left` entries to go.
unfoldable pub read_lines :
    (left : ℕ) → List ℕ → List LogEntry → (count : ℕ) → Option (ℤ × List LogEntry)
read_lines zero text buffer count = some (pos count, buffer)
read_lines (suc left) [] buffer count = some (pos count, buffer)
read_lines (suc left) (c ∷ cs) buffer count = do
  let (line, rest) = fgets 511 (c ∷ cs)
  old ← load buffer (pos count)
  entry ← scan_line line old
  buffer' ← store buffer count entry
  read_lines left rest buffer' (count + 1)

-- `found` is what the file holds, if it can be opened to read it. Returns what `buffer` holds then.
unfoldable pub storage_read_last :
    (limit : ℤ) → (found : Option (List ℕ)) → List LogEntry → Option (ℤ × List LogEntry)
storage_read_last limit none buffer = some (negsuc 0, buffer)
storage_read_last limit (some []) buffer = some (pos 0, buffer)
storage_read_last limit (some (c ∷ cs)) buffer =
    let text = c ∷ cs in
    let (next, found) = find_lines text limit (skip_newlines text (length cs) + 1) 0 in
    read_lines found (drop (start_of next) text) buffer 0
