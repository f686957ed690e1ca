-- ===== src/CString.antt =====
-- What the program uses of <string.h>, <ctype.h>, <stdlib.h> and <stdio.h>, over `char` arrays as
-- lists of bytes: a string is what stands before the first 0. An array with no 0 ends its string
-- where it ends.
pub mod Copy
pub mod Decimal
mod Tests
use Prim.Native.Char.{code}
use Prim.Native.String.{String}
use log_aggregator_c.Base.{
  ℕ, zero, suc, ◌+◌, ◌-◌, ◌*◌, ◌/◌, ◌%◌, ◌^◌, Bool, true, false, ◌&&◌, ◌||◌, List, [], ◌∷◌, ◌++◌, ℤ,
  pos, negsuc, leb, ltb, ◌==◌, if◌then◌else◌, wrap32, set, ◌≡◌,
}

-- The bytes of a string literal, without the 0 behind them.
abbrev pub codes : String → List ℕ
codes String.[] = []
codes (String.◌∷◌ c s) = code c ∷ codes s

-- the string that an array holds
unfoldable pub c_str : List ℕ → List ℕ
c_str [] = []
c_str (c ∷ cs) = if c == 0 then [] else c ∷ c_str cs

-- strcmp(a, b) == 0
unfoldable pub str_eq : List ℕ → List ℕ → Bool
str_eq [] [] = true
str_eq [] (d ∷ ds) = d == 0
str_eq (c ∷ cs) [] = c == 0
str_eq (c ∷ cs) (d ∷ ds) = if c == 0 then d == 0 else c == d && str_eq cs ds

-- strncpy(dst, src, n): the first n bytes, filled up with 0; what stands behind them stays.
unfoldable pub strncpy : List ℕ → List ℕ → ℕ → List ℕ
strncpy [] src n = []
strncpy (d ∷ dst) src zero = d ∷ dst
strncpy (d ∷ dst) [] (suc n) = 0 ∷ strncpy dst [] n
strncpy (d ∷ dst) (c ∷ cs) (suc n) = if c == 0 then 0 ∷ strncpy dst [] n else c ∷ strncpy dst cs n

-- toupper in the C locale
unfoldable pub toupper : ℕ → ℕ
toupper c = if leb b'a' c && leb c b'z' then c - 32 else c

-- for (char *p = s; *p; p++) *p = toupper(*p);
unfoldable pub upcase : List ℕ → List ℕ
unfolding toupper
upcase [] = []
upcase (c ∷ cs) = if c == 0 then c ∷ cs else toupper c ∷ upcase cs

-- strncpy(dst, src, n); dst[n] = 0;
unfoldable pub copy_field : List ℕ → List ℕ → ℕ → List ℕ
unfolding strncpy
copy_field dst src n = set (strncpy dst src n) n 0

abbrev pub is_digit : ℕ → Bool
is_digit c = leb b'0' c && leb c b'9'

-- isspace in the C locale
abbrev pub is_space : ℕ → Bool
is_space c = c == 32 || (leb 9 c && leb c 13)

-- The value of the digits in front, after those read into `acc`.
unfoldable pub digits_value : ℕ → List ℕ → ℕ
digits_value acc [] = acc
digits_value acc (c ∷ cs) =
    let rest = digits_value (acc * 10 + (c - b'0')) cs in if is_digit c then rest else acc

abbrev pub negate : ℕ → ℤ
negate zero = pos 0
negate (suc n) = negsuc n

-- The number that a text spells, of any size.
unfoldable pub read_int : List ℕ → ℤ
unfolding digits_value
read_int [] = pos 0
read_int (c ∷ cs) =
    let rest = read_int cs in
    if is_space c
    then rest
    else if c == b'-'
    then negate (digits_value 0 cs)
    else if c == b'+'
    then pos (digits_value 0 cs)
    else pos (digits_value 0 (c ∷ cs))

-- The nearest `long`.
abbrev pub saturate : ℤ → ℤ
saturate (pos n) = pos (if ltb n (2 ^ 63) then n else 2 ^ 63 - 1)
saturate (negsuc n) = negsuc (if ltb n (2 ^ 63) then n else 2 ^ 63 - 1)

-- A number that is a `long`.
abbrev pub FitsLong : ℤ → Type 0
FitsLong z = saturate z ≡ z

-- strtol(s, NULL, 10), and atoll as the GNU C library has it.
unfoldable pub strtol : List ℕ → ℤ
unfolding read_int
strtol s = saturate (read_int s)

-- atoi, as the GNU C library has it: the low 32 bits of the `long` that strtol reads.
unfoldable pub atoi : List ℕ → ℤ
unfolding strtol wrap32
atoi s = wrap32 (strtol s)

-- The decimal digits of a number, with fuel.
unfoldable pub digits_of : ℕ → ℕ → List ℕ
digits_of zero n = []
digits_of (suc fuel) n =
    let front = digits_of fuel (n / 10) in
    if ltb n 10 then (b'0' + n) ∷ [] else front ++ ((b'0' + n % 10) ∷ [])

-- What snprintf prints for "%d" and "%ld", with the 0 behind it. The longest, of 20 characters,
-- fits the buffers that the program prints into.
unfoldable pub print_int : ℤ → List ℕ
unfolding digits_of
print_int (pos n) = digits_of (suc n) n ++ (0 ∷ [])
print_int (negsuc n) = b'-' ∷ (digits_of (suc (suc n)) (suc n) ++ (0 ∷ []))
