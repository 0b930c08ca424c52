-- ===== src/Remote/Digest.antt =====
-- Which member of a digest header is kept.
use downpour.Prelude.{
  ◌≡◌, ◌∙◌, refl, arith, Bool, true, false, not, Option, none, some, List, [], ◌∷◌, if◌then◌else◌,
}
use downpour.Text.{Text, split}
use downpour.Remote.{
  ContentDigest, is_sha512, keep_stronger, read_member, parse_members, parse_digest,
}

abbrev has_strength : Bool → ContentDigest → Bool
has_strength true d = is_sha512 d.algorithm
has_strength false d = not (is_sha512 d.algorithm)

abbrev pick : Bool → Option ContentDigest → Option ContentDigest → Option ContentDigest
pick strong none rest = rest
pick strong (some d) rest = if has_strength strong d then some d else rest

-- The first readable member of an algorithm: SHA-512 for `true`, SHA-256 for `false`.
unfoldable pub first_with : Bool → List Text → Option ContentDigest
first_with strong [] = none
first_with strong (member ∷ members) = pick strong (read_member member) (first_with strong members)

abbrev pub or_else : Option ContentDigest → Option ContentDigest → Option ContentDigest
or_else none other = other
or_else (some d) other = some d

abbrev kept : Option ContentDigest → List Text → Option ContentDigest
kept none members = or_else (first_with true members) (first_with false members)
kept (some d) members =
    if is_sha512 d.algorithm then some d else or_else (first_with true members) (some d)

keeps :
    (best read : Option ContentDigest) (members : List Text)
    → kept (keep_stronger best read) members ≡ elim best [
      | none ↦
          or_else
            (pick true read (first_with true members))
            (pick false read (first_with false members))
      | some d ↦
          if is_sha512 d.algorithm
          then some d
          else or_else (pick true read (first_with true members)) (some d)
    ]
keeps none none members = refl
keeps none (some r) members = ground arith
keeps (some d) none members = ground arith
keeps (some d) (some r) members = ground arith

parse_members-kept :
    (best : Option ContentDigest) (members : List Text)
    → parse_members best members ≡ kept best members
unfolding parse_members first_with
parse_members-kept none [] = refl
parse_members-kept (some d) [] = ground arith
parse_members-kept none (m ∷ ms) =
    parse_members-kept (keep_stronger none (read_member m)) ms ∙ keeps none (read_member m) ms
parse_members-kept (some d) (m ∷ ms) =
    parse_members-kept (keep_stronger (some d) (read_member m)) ms
    ∙ keeps (some d) (read_member m) ms

-- Of a digest header `parse` keeps the first readable member with SHA-512, and where there is none
-- the first readable member with SHA-256, whatever else the header holds.
pub parse_digest-strongest :
    (raw : Text)
    → parse_digest raw
      ≡ or_else (first_with true (split b',' raw)) (first_with false (split b',' raw))
unfolding parse_digest
parse_digest-strongest raw = parse_members-kept none (split b',' raw)
