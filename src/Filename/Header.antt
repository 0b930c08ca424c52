-- ===== src/Filename/Header.antt =====
-- crates/downpour-types/src/filename.rs: the sources of a file's name, the Content-Disposition header
-- and the URL. The percent_encoding and url crates are arguments.
use downpour.Prelude.{
  ℕ, zero, suc, ◌+◌, ◌-◌, ◌*◌, Bool, true, false, not, ◌&&◌, Option, none, some, List, [], ◌∷◌, ltb,
  leb, ◌==◌, if◌then◌else◌,
}
use downpour.Filename.{clean, option_or, default_name}
use downpour.Filename.Safe.{IsSafe, Safely, clean-Safely, default_name-IsSafe}
use downpour.Journal.{Bytes}
use downpour.Text.{
  Text, lit, is_nil, trim, eq_ignore_ascii_case, split_once, strip_prefix, strip_suffix,
}

-- What a byte that is not escaped does in the loop: the quotes and whether the next one is escaped.
abbrev escapes : Bool → ℕ → Bool
escapes in_quotes byte = byte == 92 && in_quotes

abbrev toggled : Bool → ℕ → Bool
toggled in_quotes byte = if byte == 34 then not in_quotes else in_quotes

abbrev glue : ℕ → List Text → List Text
glue c [] = (c ∷ []) ∷ []
glue c (part ∷ parts) = (c ∷ part) ∷ parts

-- The loop with `in_quotes` and `escaped`; what is answered starts at `start`.
unfoldable pub split_quoted : Bool → Bool → Text → List Text
split_quoted in_quotes escaped [] = [] ∷ []
split_quoted in_quotes true (c ∷ s) = glue c (split_quoted in_quotes false s)
split_quoted in_quotes false (c ∷ s) =
    let rest = split_quoted (toggled in_quotes c) (escapes in_quotes c) s in
    if c == b';' && not in_quotes then [] ∷ rest else glue c rest

unfoldable pub split_parameters : Text → List Text
split_parameters header = split_quoted false false header

unfoldable pub unescape : Text → Text
unescape [] = []
unescape (c ∷ []) = if c == 92 then [] else c ∷ []
unescape (c ∷ d ∷ s) =
    let taken = unescape s in let rest = unescape (d ∷ s) in if c == 92 then d ∷ taken else c ∷ rest

abbrev inner_text : Option Text → Option Text
inner_text none = none
inner_text (some v) = strip_suffix 34 v

abbrev unquoted : Text → Option Text → Text
unquoted value none = value
unquoted value (some inner) = unescape inner

unfoldable pub unquote : Text → Text
unquote value = unquoted value (inner_text (strip_prefix 34 value))

-- A lead byte of UTF-8: how many bytes follow, its bits, and the least and the greatest next byte.
abbrev lead_byte : ℕ → Option (ℕ × ℕ × ℕ × ℕ)
lead_byte a =
    if ltb a 0x80
    then some (0, a, 0, 0)
    else if leb 0xc2 a && leb a 0xdf
    then some (1, a - 0xc0, 0x80, 0xbf)
    else if a == 0xe0
    then some (2, 0, 0xa0, 0xbf)
    else if a == 0xed
    then some (2, 13, 0x80, 0x9f)
    else if leb 0xe1 a && leb a 0xef
    then some (2, a - 0xe0, 0x80, 0xbf)
    else if a == 0xf0
    then some (3, 0, 0x90, 0xbf)
    else if leb 0xf1 a && leb a 0xf3
    then some (3, a - 0xf0, 0x80, 0xbf)
    else if a == 0xf4
    then some (3, 4, 0x80, 0x8f)
    else none

abbrev prepend : ℕ → Option Text → Option Text
prepend c none = none
prepend c (some s) = some (c ∷ s)

-- `String::from_utf8`: the bytes that the character still has, its bits so far, and the bounds of the
-- next byte.
unfoldable pub scan_utf8 : ℕ → ℕ → ℕ → ℕ → Bytes → Option Text
scan_utf8 zero bits lo hi [] = some []
scan_utf8 (suc n) bits lo hi [] = none
scan_utf8 zero bits lo hi (a ∷ s) = elim (lead_byte a) [
  | none ↦ none
  | some (n, high, least, greatest) ↦
      let rest = scan_utf8 n high least greatest s in if n == 0 then prepend high rest else rest
]
scan_utf8 (suc n) bits lo hi (a ∷ s) =
    let now = bits * 64 + (a - 0x80) in
    let rest = scan_utf8 n now 0x80 0xbf s in
    if leb lo a && leb a hi then (if n == 0 then prepend now rest else rest) else none

unfoldable pub from_utf8 : Bytes → Option Text
from_utf8 s = scan_utf8 0 0 0 0 s

-- The first argument is percent_decode_str; a byte of ISO 8859-1 is its code point.
unfoldable pub decode_bytes : Text → Bytes → Option Text
decode_bytes charset bytes =
    if eq_ignore_ascii_case charset (lit "utf-8")
    then from_utf8 bytes
    else if eq_ignore_ascii_case charset (lit "iso-8859-1")
    then some bytes
    else none

-- `splitn(3, '\'')`: the third part is what follows the second quote.
unfoldable pub decode_extended_value : (Text → Bytes) → Text → Option Text
decode_extended_value percent_decode value = elim (split_once 39 value) [
  | none ↦ none
  | some (charset, behind) ↦ elim (split_once 39 behind) [
    | none ↦ none
    | some (language, encoded) ↦ decode_bytes charset (percent_decode encoded)
  ]
]

abbrev or_else : Option Text → Option Text → Option Text
or_else none other = other
or_else (some s) other = some s

abbrev if_none : Option Text → Option Text → Option Text
if_none none value = value
if_none (some s) value = some s

-- One parameter of the header: the plain and the extended name so far.
unfoldable pub read_parameter :
    (Text → Bytes) → Option Text → Option Text → Text → Option Text × Option Text
read_parameter percent_decode plain extended parameter = elim (split_once b'=' parameter) [
  | none ↦ (plain, extended)
  | some (name, raw) ↦
      let value = unquote (trim raw) in
      if eq_ignore_ascii_case (trim name) (lit "filename*")
      then (plain, if_none extended (decode_extended_value percent_decode value))
      else if eq_ignore_ascii_case (trim name) (lit "filename")
      then (if_none plain (some value), extended)
      else (plain, extended)
]

unfoldable pub read_parameters :
    (Text → Bytes) → Option Text → Option Text → List Text → Option Text
read_parameters percent_decode plain extended [] = or_else extended plain
read_parameters percent_decode plain extended (p ∷ ps) =
    let (plain', extended') = read_parameter percent_decode plain extended p in
    read_parameters percent_decode plain' extended' ps

unfoldable pub from_content_disposition : (Text → Bytes) → Text → Option Text
from_content_disposition percent_decode header =
    read_parameters percent_decode none none (split_parameters header)

abbrev last_segment : List Text → Option Text
last_segment [] = none
last_segment (segment ∷ []) = if is_nil segment then none else some segment
last_segment (segment ∷ next ∷ l) = last_segment (next ∷ l)

abbrev and_then : Option Text → (Text → Option Text) → Option Text
and_then none k = none
and_then (some s) k = k s

abbrev in_path : Option (List Text) → Option Text
in_path none = none
in_path (some segments) = last_segment segments

-- `decode_utf8` of a percent-encoded text, and `Url::path_segments`, are the crates'.
module _ {Url : Type 0} (percent_decode : Text → Bytes) (decode_utf8 : Text → Option Text)
    (path_segments : Url → Option (List Text)) where
  unfoldable pub from_url_path : Url → Option Text
  from_url_path url = and_then (in_path (path_segments url)) decode_utf8

  abbrev suggested : Option Text → Option Text
  suggested content_disposition =
      and_then content_disposition
        λ header. and_then (from_content_disposition percent_decode header) clean

  unfoldable pub resolve : Option Text → Url → Text
  resolve content_disposition url =
      option_or (or_else (suggested content_disposition) (and_then (from_url_path url) clean))
        default_name

  and_then-Safely : (o : Option Text) → Safely (and_then o clean)
  and_then-Safely none = tt
  and_then-Safely (some s) = clean-Safely s

  suggested-Safely : (header : Option Text) → Safely (suggested header)
  suggested-Safely none = tt
  suggested-Safely (some header) = and_then-Safely (from_content_disposition percent_decode header)

  chosen :
      (first second : Option Text)
      → Safely first
      → Safely second
      → IsSafe (option_or (or_else first second) default_name)
  chosen none none h k = default_name-IsSafe
  chosen none (some s) h k = k
  chosen (some s) second h k = h

  -- Whatever header and URL a server sends and whatever percent-decoding answers, the name that
  -- `resolve` gives the download is not empty, has no control character, no separator and no other
  -- character that Windows forbids, no space in front and no dot or space behind, its part in front of
  -- the first dot is no device name of Windows in any case, and it has at most 256 bytes.
  pub resolve-IsSafe : (header : Option Text) (url : Url) → IsSafe (resolve header url)
  unfolding resolve
  resolve-IsSafe header url =
      chosen (suggested header) (and_then (from_url_path url) clean) (suggested-Safely header)
        (and_then-Safely (from_url_path url))
