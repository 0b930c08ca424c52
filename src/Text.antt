-- ===== src/Text.antt =====
-- Rust's `str` as its list of code points, and the parts of its standard library that the headers
-- are parsed with. A byte test on an ASCII class answers the same on the code points.
pub mod Split
pub mod Decimal
use Prim.Native.Char.{code}
use Prim.Native.String.{String}
use downpour.Prelude.{
  ℕ, zero, suc, ◌+◌, ◌-◌, ◌*◌, ◌/◌, ◌%◌, Bool, true, false, not, ◌&&◌, ◌||◌, Option, none, some,
  List, [], ◌∷◌, ◌++◌, ltb, leb, ◌==◌, if◌then◌else◌, max_u64,
}

abbrev pub Text : Type 0
Text = List ℕ

-- A literal's code points.
abbrev pub lit : String → Text
lit String.[] = []
lit (String.◌∷◌ c s) = code c ∷ lit s

abbrev pub is_nil : Text → Bool
is_nil [] = true
is_nil (c ∷ s) = false

-- `==` on `str`.
unfoldable pub text_eq : Text → Text → Bool
text_eq [] [] = true
text_eq (a ∷ s) (b ∷ t) = a == b && text_eq s t
text_eq _ _ = false

abbrev pub is_ascii_digit : ℕ → Bool
is_ascii_digit c = leb b'0' c && leb c b'9'

-- `u8::is_ascii_whitespace`: space, tab, line feed, form feed, carriage return.
unfoldable pub is_ascii_whitespace : ℕ → Bool
is_ascii_whitespace c = c == 32 || c == 9 || c == 10 || c == 12 || c == 13

-- `char::is_whitespace`: the Unicode property White_Space.
unfoldable pub is_whitespace : ℕ → Bool
is_whitespace c =
    (leb 9 c && leb c 13)
    || c == 32
    || c == 0x85
    || c == 0xa0
    || c == 0x1680
    || (leb 0x2000 c && leb c 0x200a)
    || c == 0x2028
    || c == 0x2029
    || c == 0x202f
    || c == 0x205f
    || c == 0x3000

unfoldable pub any : (ℕ → Bool) → Text → Bool
any test [] = false
any test (c ∷ s) = test c || any test s

unfoldable pub all : (ℕ → Bool) → Text → Bool
all test [] = true
all test (c ∷ s) = test c && all test s

unfoldable pub trim_start_matches : (ℕ → Bool) → Text → Text
trim_start_matches test [] = []
trim_start_matches test (c ∷ s) = if test c then trim_start_matches test s else c ∷ s

unfoldable pub trim_end_matches : (ℕ → Bool) → Text → Text
trim_end_matches test [] = []
trim_end_matches test (c ∷ s) =
    let rest = trim_end_matches test s in if is_nil rest && test c then [] else c ∷ rest

-- `str::trim`
unfoldable pub trim : Text → Text
unfolding trim_start_matches trim_end_matches is_whitespace
trim s = trim_end_matches is_whitespace (trim_start_matches is_whitespace s)

abbrev pub to_ascii_lowercase : ℕ → ℕ
to_ascii_lowercase c = if leb b'A' c && leb c b'Z' then c + 32 else c

unfoldable pub eq_ignore_ascii_case : Text → Text → Bool
eq_ignore_ascii_case [] [] = true
eq_ignore_ascii_case (a ∷ s) (b ∷ t) =
    to_ascii_lowercase a == to_ascii_lowercase b && eq_ignore_ascii_case s t
eq_ignore_ascii_case _ _ = false

-- `str::split_once`: the parts before and after the first `sep`.
unfoldable pub split_once : ℕ → Text → Option (Text × Text)
split_once sep [] = none
split_once sep (c ∷ s) =
    if c == sep
    then some ([], s)
    else elim (split_once sep s) [ none ↦ none | some (before, after) ↦ some (c ∷ before, after) ]

-- `str::parse::<u64>` on digits: `checked_mul(10)` and `checked_add(digit)` in turn.
unfoldable pub scan_u64 : ℕ → Text → Option ℕ
scan_u64 n [] = some n
scan_u64 n (c ∷ s) =
    let rest = scan_u64 (n * 10 + (c - b'0')) s in
    if ltb max_u64 (n * 10) || ltb max_u64 (n * 10 + (c - b'0')) then none else rest

-- `Display` of an integer below `10 ^ places`, with no leading zero.
unfoldable pub show_places : ℕ → ℕ → Text
show_places zero n = []
show_places (suc places) n =
    let front = show_places places (n / 10) in
    if ltb n 10 then (b'0' + n) ∷ [] else front ++ (b'0' + n % 10) ∷ []

-- A u64 has at most twenty digits.
unfoldable pub show_u64 : ℕ → Text
unfolding show_places
show_u64 n = show_places 20 n

-- `str::split(sep)`: the parts between the separators, one more than there are separators.
unfoldable pub split : ℕ → Text → List Text
split sep [] = [] ∷ []
split sep (c ∷ s) =
    let rest = split sep s in
    if c == sep
    then [] ∷ rest
    else elim rest [ [] ↦ (c ∷ []) ∷ [] | part ∷ parts ↦ (c ∷ part) ∷ parts ]

abbrev pub lower : Text → Text
lower [] = []
lower (c ∷ s) = to_ascii_lowercase c ∷ lower s

-- `strip_prefix` and `strip_suffix` of one character.
abbrev pub strip_prefix : ℕ → Text → Option Text
strip_prefix c [] = none
strip_prefix c (d ∷ s) = if d == c then some s else none

unfoldable pub strip_suffix : ℕ → Text → Option Text
strip_suffix c [] = none
strip_suffix c (d ∷ s) = elim (strip_suffix c s) [
  | some front ↦ some (d ∷ front)
  | none ↦ if is_nil s && d == c then some [] else none
]
