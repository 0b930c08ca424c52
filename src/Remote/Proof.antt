-- ===== src/Remote/Proof.antt =====
-- When a response proves that ranges are supported.
use downpour.Prelude.{
  ℕ, ◌+◌, ◌-◌, ◌≡◌, ◌≤◌, ◌<◌, ◌⊎◌, ◌↔◌, inl, inr, refl, arith, Bool, true, false, ◌||◌, [], ◌∷◌,
  ◌==◌, ==_iff, Option, none, some, Result, ok, err, ◌>>◌, ◌>>=◌, max_u64, ap, ◌∙◌,
}
use downpour.Text.{Text, lit, is_nil, trim, eq_ignore_ascii_case}
use downpour.ContentRange.{
  ByteRangeSpec, ContentRange, bytes, unsatisfied, parse, len, RangeMismatch, ContentRangeError,
}
use downpour.ContentRange.Consistent.{IsValid, IsConsistent, is_consistent_with_iff}
use downpour.ContentRange.Valid.{parse-IsValid}
use downpour.Remote.{
  RangeObservation, RangeProof, from_observed_response, check_encoding, prove_range, require,
  RangeProofError, unexpected_content_encoding, consistent, body_length_mismatch, ok_or, parsed,
  content_range_absent, Observed, status_not_206,
}

-- The body is not encoded.
abbrev pub IsIdentity : Option Text → Type 0
IsIdentity none = Unit
IsIdentity (some encoding) =
    (trim encoding ≡ []) ⊎ (eq_ignore_ascii_case (trim encoding) (lit "identity") ≡ true)

-- The header names a range of a representation of stated length that answers the request, and the
-- body has the bytes of that range.
abbrev pub Encloses : ByteRangeSpec → Option Text → ℕ → RangeProof → Type 0
Encloses requested none body_len p = ⊥
Encloses requested (some header) body_len p =
    (first : ℕ) × (last : ℕ) × (parse header ≡ ok (bytes first last (some p.total_length)))
    × IsConsistent (bytes first last (some p.total_length)) requested
    × (body_len ≡ last - first + 1)
    × (p.observed ≡ bytes first last (some p.total_length))

-- The observation that a response is recorded as.
abbrev pub observation_of : ByteRangeSpec → ℕ → Option Text → Option Text → ℕ → RangeObservation
observation_of requested status content_range content_encoding body_len = record {
  requested = requested;
  status = status;
  content_range = content_range;
  content_encoding = content_encoding;
  body_len = body_len;
}

require_nil :
    (t : Text) (b : Bool) (e : RangeProofError)
    → (require (is_nil t || b) e ≡ ok tt) ↔ ((t ≡ []) ⊎ (b ≡ true))
require_nil [] b e = (λ h. inl refl, λ h. refl)
require_nil (c ∷ t) true e = (λ h. inr refl, λ h. refl)
require_nil (c ∷ t) false e = (λ h. cc, λ h. elim h [ inl n ↦ cc | inr n ↦ cc ])

check_encoding_iff :
    (encoding : Option Text) → (check_encoding encoding ≡ ok tt) ↔ IsIdentity encoding
unfolding check_encoding
check_encoding_iff none = (λ h. tt, λ h. refl)
check_encoding_iff (some e) =
    require_nil (trim e) (eq_ignore_ascii_case (trim e) (lit "identity"))
      (unexpected_content_encoding (trim e))

-- What the checks behind the header answer for a range that it named.
abbrev Answers : RangeObservation → ContentRange → RangeProof → Type 0
Answers o range p =
    (first : ℕ) × (last : ℕ) × (range ≡ bytes first last (some p.total_length))
    × IsConsistent (bytes first last (some p.total_length)) o.requested
    × (o.body_len ≡ last - first + 1)
    × (p.observed ≡ bytes first last (some p.total_length))
    × (p.requested ≡ o.requested)
    × (p.observation ≡ o)

-- What the checks behind the header let through, for a range of stated length.
passed :
    (o : RangeObservation) (first last total : ℕ) (r : Result (Unit {0}) RangeMismatch)
    (p : RangeProof)
    → (consistent r >> ok total >>= λ stated.
        require
          (o.body_len == last - first + 1)
          (body_length_mismatch (last - first + 1) o.body_len)
        >> ok (record {
          total_length = stated;
          observed = bytes first last (some total);
          requested = o.requested;
          observation = o;
        }))
      ≡ ok p
    → (r ≡ ok tt)
      × (o.body_len ≡ last - first + 1)
      × (p ≡ record {
        total_length = total;
        observed = bytes first last (some total);
        requested = o.requested;
        observation = o;
      })
passed o first last total (err e) p h = cc
passed o first last total (ok tt) p h = ground arith

prove_range-Answers :
    (o : RangeObservation) (range : ContentRange) (p : RangeProof)
    → IsValid range
    → prove_range o range ≡ ok p
    → Answers o range p
unfolding prove_range len
prove_range-Answers o (unsatisfied complete) p v h =
    absurd (ground (arith, is_consistent_with_iff (unsatisfied complete) o.requested v))
prove_range-Answers o (bytes first last none) p v h = absurd (ground arith)
prove_range-Answers o (bytes first last (some total)) p v h =
    let (consistent, sized, e) = passed o first last total _ p h in
    rw e (
      first,
      last,
      refl,
      (is_consistent_with_iff (bytes first last (some total)) o.requested v).0 consistent,
      sized,
      refl,
      refl,
      refl,
    )

Answers-prove_range :
    (o : RangeObservation) (range : ContentRange) (p : RangeProof)
    → IsValid range
    → Answers o range p
    → prove_range o range ≡ ok p
unfolding prove_range len
Answers-prove_range o range p v (first, last, e, c, b, s, r, k) =
    rw
      (
        e,
        (is_consistent_with_iff (bytes first last (some p.total_length)) o.requested (rw e at v)).1
            c,
      )
      (ground arith)

-- What stands behind the checks of the status, the encoding and the header.
guarded :
    (b : Bool) (encoding : Observed (Unit {0})) (header : Text) (k : Text → Observed RangeProof)
    (e : RangeProofError) (p : RangeProof)
    → require b e >> encoding >> ok header >>= k ≡ ok p
    → (b ≡ true) × (encoding ≡ ok tt) × (k header ≡ ok p)
guarded false encoding header k e p h = cc
guarded true (err f) header k e p h = cc
guarded true (ok tt) header k e p h = (refl, refl, h)

no_header :
    (b : Bool) (encoding : Observed (Unit {0})) (k : Text → Observed RangeProof)
    (e : RangeProofError) (p : RangeProof)
    → ¬ (require b e >> encoding >> ok_or content_range_absent none >>= k ≡ ok p)
no_header false encoding k e p h = cc
no_header true (err f) k e p h = cc
no_header true (ok tt) k e p h = cc

parsed-ok :
    (r : Result ContentRange ContentRangeError) (k : ContentRange → Observed RangeProof)
    (p : RangeProof)
    → parsed r >>= k ≡ ok p
    → (range : ContentRange) × (r ≡ ok range) × (k range ≡ ok p)
parsed-ok (err e) k p h = cc
parsed-ok (ok range) k p h = (range, refl, h)

-- `from_observed_response` answers a proof exactly if the status is 206, the body is not encoded, the
-- header parses to a range of a representation of stated length that answers the request, and the
-- body has as many bytes as that range; the proof then has this length and range, the request and
-- the response as observed.
pub from_observed_response_iff :
    (requested : ByteRangeSpec) (status : ℕ) (content_range content_encoding : Option Text)
    (body_len : ℕ) (p : RangeProof)
    → (from_observed_response requested status content_range content_encoding body_len ≡ ok p) ↔ (
        (status ≡ 206)
        × IsIdentity content_encoding
        × Encloses requested content_range body_len p
        × (p.requested ≡ requested)
        × (p.observation ≡ observation_of requested status content_range content_encoding body_len))
unfolding from_observed_response
from_observed_response_iff requested status none encoding body_len p = (
  λ h. absurd (
      no_header (status == 206) (check_encoding encoding)
        (λ x. parsed (parse x) >>= λ range.
          prove_range (observation_of requested status none encoding body_len) range)
        (status_not_206 status) p h),
  λ h. absurd h.2,
)
from_observed_response_iff requested status (some header) encoding body_len p = (
  λ h.
      let (reached, plain, rest) = guarded _ _ header _ _ p h in
      let (range, read, answered) = parsed-ok (parse header) _ p rest in
      let (first, last, e, c, b, s, r, k) =
        prove_range-Answers (observation_of requested status (some header) encoding body_len) range
          p (parse-IsValid header range read) answered in
      (
        (==_iff status 206).0 reached,
        (check_encoding_iff encoding).0 plain,
        (first, last, rw (← e) read, c, b, s),
        r,
        k,
      ),
  λ h.
      rw (h.0, (check_encoding_iff encoding).1 h.1, h.2.2)
        (rw h.0 at (
          Answers-prove_range (observation_of requested status (some header) encoding body_len)
            (bytes h.2.0 h.2.1 (some p.total_length)) p (parse-IsValid header _ h.2.2)
            (h.2.0, h.2.1, refl, h.2.3, h.2.4, h.2.5, h.3, h.4))),
)

-- The response as a proof records it, which storage keeps, is proved again.
abbrev pub prove_again : RangeObservation → Observed RangeProof
prove_again o =
    from_observed_response o.requested o.status o.content_range o.content_encoding o.body_len

enclosed_length :
    (requested : ByteRangeSpec) (content_range : Option Text) (body_len : ℕ) (p : RangeProof)
    → Encloses requested content_range body_len p
    → (0 < body_len) × (body_len ≤ p.total_length) × (p.total_length ≤ max_u64)
enclosed_length requested none body_len p h = absurd h
enclosed_length requested (some header) body_len p (first, last, read, c, b, s) =
    let v = parse-IsValid header (bytes first last (some p.total_length)) read in
    (omega arith, omega arith, omega arith)

-- A proof of range support is proved again from the response that it records, and the body that it
-- was proved by is not empty and no longer than the proven length, which is a u64.
pub proof-prove_again :
    (requested : ByteRangeSpec) (status : ℕ) (content_range content_encoding : Option Text)
    (body_len : ℕ) (p : RangeProof)
    → from_observed_response requested status content_range content_encoding body_len ≡ ok p
    → (prove_again p.observation ≡ ok p)
      × (0 < body_len)
      × (body_len ≤ p.total_length)
      × (p.total_length ≤ max_u64)
proof-prove_again requested status range encoding body_len p h =
    let facts = (from_observed_response_iff requested status range encoding body_len p).0 h in
    let (lower_, upper, bounded) = enclosed_length requested range body_len p facts.2 in
    (ap prove_again facts.4 ∙ h, lower_, upper, bounded)
