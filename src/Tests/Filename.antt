-- ===== src/Tests/Filename.antt =====
-- Names as servers send them, and two long names.
use downpour.Prelude.{ℕ, zero, suc, ◌+◌, ◌≤◌, ◌≡◌, refl, arith, Option, some, List, [], ◌∷◌, ◌++◌}
use downpour.Journal.{Bytes}
use downpour.Text.{
  Text, lit, any, trim, trim_start_matches, trim_end_matches, eq_ignore_ascii_case, split_once,
  strip_suffix,
}
use downpour.Filename.{
  byte_len, last_component, neutralise_all, trimmed_base, fit_budget, is_reserved_stem, any_stem,
  stem, finish_name, clean, sanitise, max_name_bytes, part_suffix_bytes, truncate_keeping_extension,
  extension_to_keep, keep_groups, rfind_dot, shorten, truncate_at_char_boundary,
}
use downpour.Filename.Header.{
  split_parameters, split_quoted, unescape, unquote, scan_utf8, from_utf8, decode_bytes,
  decode_extended_value, read_parameter, read_parameters, from_content_disposition, from_url_path,
  resolve, resolve-IsSafe,
}
use downpour.Filename.Safe.{IsSafe}
use downpour.Filename.Stable.{sanitise-sanitise}

traversal_stripped : sanitise (lit "..\\../etc/passwd. ") ≡ lit "passwd"
unfolding sanitise clean trimmed_base last_component neutralise_all trim_start_matches
    trim_end_matches fit_budget byte_len finish_name is_reserved_stem any_stem stem
    eq_ignore_ascii_case
traversal_stripped = refl

device_prefixed : sanitise (lit "con.txt") ≡ lit "_con.txt"
unfolding sanitise clean trimmed_base last_component neutralise_all trim_start_matches
    trim_end_matches fit_budget byte_len finish_name is_reserved_stem any_stem stem
    eq_ignore_ascii_case
device_prefixed = refl

repeated : ℕ → Text → Text
repeated zero s = s
repeated (suc n) s = b'a' ∷ repeated n s

-- 300 letters and an extension are cut to 247 bytes with the extension.
long_name_cut : sanitise (repeated 300 (lit ".tar.gz")) ≡ repeated 240 (lit ".tar.gz")
unfolding sanitise clean trimmed_base last_component neutralise_all trim_start_matches
    trim_end_matches fit_budget byte_len finish_name is_reserved_stem any_stem stem
    eq_ignore_ascii_case repeated truncate_keeping_extension extension_to_keep keep_groups rfind_dot
    shorten truncate_at_char_boundary any
long_name_cut = refl

-- A device name of 255 bytes gets 256, and is sanitised to another name the second time.
device_name_grows : byte_len (sanitise (lit "con." ++ repeated 251 [])) ≡ 256
unfolding sanitise clean trimmed_base last_component neutralise_all trim_start_matches
    trim_end_matches fit_budget byte_len finish_name is_reserved_stem any_stem stem
    eq_ignore_ascii_case repeated
device_name_grows = refl

device_name_drifts : byte_len (sanitise (sanitise (lit "con." ++ repeated 251 []))) ≡ 247
unfolding sanitise clean trimmed_base last_component neutralise_all trim_start_matches
    trim_end_matches fit_budget byte_len finish_name is_reserved_stem any_stem stem
    eq_ignore_ascii_case repeated truncate_keeping_extension extension_to_keep keep_groups rfind_dot
    shorten truncate_at_char_boundary any
device_name_drifts = refl

-- A name of 250 bytes stays, and with the suffix of the part file it has more than 255.
part_suffix_forgotten :
    max_name_bytes + 1 ≤ byte_len (sanitise (repeated 250 [])) + part_suffix_bytes
unfolding sanitise clean trimmed_base last_component neutralise_all trim_start_matches
    trim_end_matches fit_budget byte_len finish_name is_reserved_stem any_stem stem
    eq_ignore_ascii_case repeated
part_suffix_forgotten = omega arith

sanitise-sanitise_example : sanitise (sanitise (lit "con.txt")) ≡ sanitise (lit "con.txt")
unfolding sanitise clean trimmed_base last_component neutralise_all trim_start_matches
    trim_end_matches fit_budget byte_len finish_name is_reserved_stem any_stem stem
    eq_ignore_ascii_case
sanitise-sanitise_example = sanitise-sanitise (lit "con.txt") (omega arith)

-- A percent-encoded text with no escapes.
abbrev plain_bytes : Text → Bytes
plain_bytes s = s

abbrev plain_text : Text → Option Text
plain_text s = some s

abbrev segments : Text → Option (List Text)
segments s = some (lit "dl" ∷ s ∷ [])

abbrev disposition : Option Text
disposition = some (lit "attachment; filename=b.bin; filename*=UTF-8'en'../x;y.zip")

prefers_extended : resolve plain_bytes plain_text segments disposition (lit "file.zip") ≡ lit "x"
unfolding resolve from_content_disposition split_parameters split_quoted read_parameters
    read_parameter unquote unescape decode_extended_value decode_bytes from_utf8 scan_utf8
    from_url_path clean trimmed_base last_component neutralise_all trim_start_matches
    trim_end_matches fit_budget byte_len finish_name is_reserved_stem any_stem stem
    eq_ignore_ascii_case split_once trim strip_suffix
prefers_extended = refl

falls_through :
    resolve plain_bytes plain_text segments
      (some (lit "attachment; filename=\"..\""))
      (lit "file.zip")
    ≡ lit "file.zip"
unfolding resolve from_content_disposition split_parameters split_quoted read_parameters
    read_parameter unquote unescape decode_extended_value decode_bytes from_utf8 scan_utf8
    from_url_path clean trimmed_base last_component neutralise_all trim_start_matches
    trim_end_matches fit_budget byte_len finish_name is_reserved_stem any_stem stem
    eq_ignore_ascii_case split_once trim strip_suffix
falls_through = refl

resolve-IsSafe_example :
    IsSafe (resolve plain_bytes plain_text segments disposition (lit "file.zip"))
resolve-IsSafe_example = resolve-IsSafe plain_bytes plain_text segments disposition (lit "file.zip")
