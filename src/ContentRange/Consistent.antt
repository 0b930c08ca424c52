-- ===== src/ContentRange/Consistent.antt =====
-- What `is_consistent_with` accepts, in terms of the bytes that the response encloses.
use downpour.Prelude.{ℕ, ◌-◌, ◌≤◌, ◌<◌, none, some, ◌≡◌, ◌↔◌, arith, max_u64, ok}
use downpour.ContentRange.{
  ByteRangeSpec, from_to, from, suffix, ContentRange, bytes, unsatisfied, is_consistent_with, len,
  requested_len,
}

-- What a parsed header satisfies: the positions are in order and below the stated length.
abbrev pub IsValid : ContentRange → Type 0
IsValid (bytes first last none) = (first ≤ last) × (last < max_u64)
IsValid (bytes first last (some complete)) =
    (first ≤ last) × (last < max_u64) × (last < complete) × (complete ≤ max_u64)
IsValid (unsatisfied complete) = complete ≤ max_u64

-- The response may be written at the requested offset.
abbrev pub IsConsistent : ContentRange → ByteRangeSpec → Type 0
IsConsistent (bytes first last complete) (from_to want_first want_last) =
    (first ≡ want_first) × (last ≤ want_last)
IsConsistent (bytes first last complete) (from want_first) = first ≡ want_first
IsConsistent (bytes first last none) (suffix n) = ⊥
IsConsistent (bytes first last (some complete)) (suffix n) =
    (first ≡ complete - n) × (last ≡ complete - 1)
IsConsistent (unsatisfied complete) requested = ⊥

-- For a parsed header, `is_consistent_with` answers ok exactly if the response starts where the
-- request does and ends no later than a bounded request, or is the whole requested suffix of a
-- representation of stated length: an end that falls short is accepted for a range with a start, and
-- refused for a suffix. An unsatisfied range and a suffix of unknown length are refused.
pub is_consistent_with_iff :
    (r : ContentRange) (requested : ByteRangeSpec)
    → IsValid r
    → (is_consistent_with r requested ≡ ok tt) ↔ IsConsistent r requested
unfolding is_consistent_with
is_consistent_with_iff (bytes first last none) (from_to a b) v = ground arith
is_consistent_with_iff (bytes first last (some c)) (from_to a b) v = ground arith
is_consistent_with_iff (bytes first last none) (from a) v = ground arith
is_consistent_with_iff (bytes first last (some c)) (from a) v = ground arith
is_consistent_with_iff (bytes first last none) (suffix n) v = ground arith
is_consistent_with_iff (bytes first last (some c)) (suffix n) v = ground arith
is_consistent_with_iff (unsatisfied c) requested v = ground arith

-- A consistent response never encloses more bytes than were asked for, and no sum in either
-- length wraps around.
pub len-le-requested :
    (r : ContentRange) (requested : ByteRangeSpec) (n k : ℕ)
    → IsValid r
    → is_consistent_with r requested ≡ ok tt
    → len r ≡ some n
    → requested_len requested ≡ some k
    → (n ≤ k) × (0 < n) × (n ≤ max_u64)
unfolding len requested_len
len-le-requested (bytes first last none) (from_to a b) n k v h p q =
    ground (arith, is_consistent_with_iff (bytes first last none) (from_to a b) v)
len-le-requested (bytes first last (some c)) (from_to a b) n k v h p q =
    ground (arith, is_consistent_with_iff (bytes first last (some c)) (from_to a b) v)
len-le-requested (bytes first last c) (from a) n k v h p q = absurd (ground arith)
len-le-requested (bytes first last none) (suffix m) n k v h p q =
    ground (arith, is_consistent_with_iff (bytes first last none) (suffix m) v)
len-le-requested (bytes first last (some c)) (suffix m) n k v h p q =
    ground (arith, is_consistent_with_iff (bytes first last (some c)) (suffix m) v)
len-le-requested (unsatisfied c) requested n k v h p q = absurd (ground arith)
