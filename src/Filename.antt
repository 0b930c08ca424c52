-- ===== src/Filename.antt =====
-- crates/downpour-types/src/filename.rs: reducing a name from the web to one safe path component. A
-- `str` is its list of code points, and a byte offset at a character boundary a split of the list.
pub mod Header
pub mod Safe
pub mod Shape
pub mod Stable
use downpour.Prelude.{
  ℕ, zero, suc, ◌+◌, ◌-◌, Bool, true, false, ◌||◌, ◌&&◌, Option, none, some, List, [], ◌∷◌, ◌++◌,
  ltb, leb, ◌==◌, if◌then◌else◌,
}
use downpour.Text.{
  Text, lit, is_nil, any, trim_start_matches, trim_end_matches, eq_ignore_ascii_case,
}

abbrev pub default_name : Text
default_name = lit "download"

abbrev pub max_name_bytes : ℕ
max_name_bytes = 255

-- `".dppart".len()`
abbrev pub part_suffix_bytes : ℕ
part_suffix_bytes = 7

abbrev pub max_truncated_bytes : ℕ
max_truncated_bytes = max_name_bytes - 1 - part_suffix_bytes

abbrev pub reserved_stems : List Text
reserved_stems =
    lit "CON"
    ∷ lit "PRN"
    ∷ lit "AUX"
    ∷ lit "NUL"
    ∷ lit "COM1"
    ∷ lit "COM2"
    ∷ lit "COM3"
    ∷ lit "COM4"
    ∷ lit "COM5"
    ∷ lit "COM6"
    ∷ lit "COM7"
    ∷ lit "COM8"
    ∷ lit "COM9"
    ∷ lit "LPT1"
    ∷ lit "LPT2"
    ∷ lit "LPT3"
    ∷ lit "LPT4"
    ∷ lit "LPT5"
    ∷ lit "LPT6"
    ∷ lit "LPT7"
    ∷ lit "LPT8"
    ∷ lit "LPT9"
    ∷ []

-- `['<', '>', ':', '"', '|', '?', '*', '/', '\\'].contains(&c)`
abbrev pub is_illegal : ℕ → Bool
is_illegal c =
    c == 60 || c == 62 || c == 58 || c == 34 || c == 124 || c == 63 || c == 42 || c == 47 || c == 92

-- `char::is_control`: the Unicode category Cc.
abbrev pub is_control : ℕ → Bool
is_control c = ltb c 32 || (leb 127 c && leb c 159)

abbrev pub is_separator : ℕ → Bool
is_separator c = c == b'/' || c == 92

abbrev pub is_bad : ℕ → Bool
is_bad c = is_control c || is_illegal c

abbrev pub is_space : ℕ → Bool
is_space c = c == b' '

abbrev pub is_dot_or_space : ℕ → Bool
is_dot_or_space c = c == b'.' || c == b' '

-- The bytes of a character in UTF-8, and `str::len`.
abbrev pub width : ℕ → ℕ
width c = if ltb c 0x80 then 1 else if ltb c 0x800 then 2 else if ltb c 0x10000 then 3 else 4

unfoldable pub byte_len : Text → ℕ
byte_len [] = 0
byte_len (c ∷ s) = width c + byte_len s

-- What stands behind the last separator.
unfoldable pub after_separator : Text → Option Text
after_separator [] = none
after_separator (c ∷ s) = elim (after_separator s) [
  | some base ↦ some base
  | none ↦ if is_separator c then some s else none
]

abbrev pub option_or : Option Text → Text → Text
option_or none s = s
option_or (some t) s = t

-- `raw.rsplit(['/', '\\']).next()`
unfoldable pub last_component : Text → Text
unfolding after_separator
last_component raw = option_or (after_separator raw) raw

abbrev pub neutralise : ℕ → ℕ
neutralise c = if is_bad c then b'_' else c

unfoldable pub neutralise_all : Text → Text
neutralise_all [] = []
neutralise_all (c ∷ s) = neutralise c ∷ neutralise_all s

-- The longest prefix of at most so many bytes that splits no character.
unfoldable pub truncate_at_char_boundary : Text → ℕ → Text
truncate_at_char_boundary [] max_bytes = []
truncate_at_char_boundary (c ∷ s) max_bytes =
    let rest = truncate_at_char_boundary s (max_bytes - width c) in
    if leb (width c) max_bytes then c ∷ rest else []

-- `rfind('.')`: the parts in front of and behind the last dot.
unfoldable pub rfind_dot : Text → Option (Text × Text)
rfind_dot [] = none
rfind_dot (c ∷ s) = elim (rfind_dot s) [
  | some (before, group) ↦ some (c ∷ before, group)
  | none ↦ if c == b'.' then some ([], s) else none
]

-- A group that is not kept: the dot is the first character, or the group is empty, too long or has a
-- space.
abbrev pub ends_extension : Text → Text → Bool
ends_extension before group =
    is_nil before || is_nil group || ltb 8 (byte_len group) || any is_space group

-- The rounds of the loop, on the head and the extension; what is answered is the split that `start`
-- stands for.
unfoldable pub keep_groups : ℕ → Text → Text → Text × Text
keep_groups zero head extension = (head, extension)
keep_groups (suc n) head extension = elim (rfind_dot head) [
  | none ↦ (head, extension)
  | some (before, group) ↦
      let longer = keep_groups n before (b'.' ∷ (group ++ extension)) in
      if ends_extension before group then (head, extension) else longer
]

unfoldable pub extension_to_keep : Text → Text × Text
extension_to_keep name = keep_groups 2 name []

-- Behind the choice of the extension. The subtraction saturates.
unfoldable pub shorten : Text → Text → Text
shorten head extension =
    trim_end_matches is_dot_or_space
      (truncate_at_char_boundary head (max_truncated_bytes - byte_len extension))
    ++ extension

unfoldable pub truncate_keeping_extension : Text → Text
truncate_keeping_extension name =
    let (head, extension) = extension_to_keep name in shorten head extension

-- `name.split('.').next()`
unfoldable pub stem : Text → Text
stem [] = []
stem (c ∷ s) = if c == b'.' then [] else c ∷ stem s

unfoldable pub any_stem : List Text → Text → Bool
any_stem [] s = false
any_stem (reserved ∷ l) s = eq_ignore_ascii_case s reserved || any_stem l s

unfoldable pub is_reserved_stem : Text → Bool
is_reserved_stem name = any_stem reserved_stems (stem name)

-- Steps 1 to 3.
unfoldable pub trimmed_base : Text → Text
trimmed_base raw =
    trim_end_matches is_dot_or_space
      (trim_start_matches is_space (neutralise_all (last_component raw)))

-- Step 4.
unfoldable pub fit_budget : Text → Text
fit_budget trimmed =
    if ltb max_name_bytes (byte_len trimmed) then truncate_keeping_extension trimmed else trimmed

-- Step 5.
unfoldable pub finish_name : Text → Option Text
finish_name sized =
    if is_nil sized then none else some (if is_reserved_stem sized then b'_' ∷ sized else sized)

unfoldable pub clean : Text → Option Text
clean raw = finish_name (fit_budget (trimmed_base raw))

unfoldable pub sanitise : Text → Text
sanitise raw = option_or (clean raw) default_name
