-- ===== src/Intervals/Split.antt =====
-- `split_in_progress`, on every branch.
use mathlib.Core.Path.{subst}
use downpour.Prelude.{
  ℕ, zero, ◌-◌, ◌≤◌, ◌<◌, suc, none, some, ◌∷◌, ◌++◌, ◌≡◌, refl, sym, ◌∙◌, ◌⊎◌, ap, arith, ◌==◌,
  if◌then◌else◌, within, ◌≢◌, Bool-cases, Option-cases, ◌≢◌, ==_iff, inl, inr, ok, err, set,
  insert_at, insert_at-set,
}
use downpour.Intervals.{
  Interval, IntervalMap, WorkerId, position, splits_at, split_in_progress, normalise, in_progress,
  split_point_unavailable, split_worker_unchanged,
}
use downpour.Intervals.Partition.{
  IsCanonical, IsMerged, Covers, Covers-append, Covers-append_inv, byte_state, byte_state-append,
  state_eq_iff, byte_state_outside_high,
}
use downpour.Intervals.Merge.{normalise-IsCanonical, byte_state-normalise}
use downpour.Intervals.Position.{
  Found, position-Found, position-ne-none, IsMerged-Differs, byte_state-end,
}
use downpour.Intervals.Match.{AllIn}
use downpour.Intervals.Assign.{Assigned}

-- The right part of a grant, from `at` up to the end of the source's run of bytes, went to
-- `recipient`.
pub record SplitOff (before : IntervalMap) (at : ℕ) (source recipient : WorkerId)
    (after : IntervalMap) : Type 0 where
  pub end : ℕ
  pub not_empty : at < end
  pub owned : AllIn (record { start = at; end = end }) (in_progress source) before.intervals
  pub maximal : byte_state before.intervals end ≢ some (in_progress source)
  pub assigned : Assigned before (record { start = at; end = end }) (in_progress recipient) after

module _ (m : IntervalMap) (at : ℕ) (source recipient : WorkerId) (c : IsCanonical m) (k : ℕ)
    (i : Interval) (f : Found (splits_at at source) m.intervals k i) where
  abbrev left : Interval
  left = record { start = i.start; end = at; state = in_progress source }

  abbrev right : Interval
  right = record { start = at; end = i.end; state = in_progress recipient }

  bounds : (i.start < at) × (at < i.end) × (i.state ≡ in_progress source)
  unfolding splits_at
  bounds = ground (arith, f.passes, state_eq_iff i.state (in_progress source))

  parts : (b : ℕ) × Covers 0 f.pre b × Covers b (i ∷ f.post) m.total_length
  parts =
      Covers-append_inv 0 f.pre (i ∷ f.post) m.total_length
        (subst (λ l. Covers 0 l m.total_length) f.splits c.covers)

  split_list : insert_at (set m.intervals k left) (suc k) right ≡ f.pre ++ left ∷ right ∷ f.post
  split_list = rw (f.splits, f.index) (insert_at-set f.pre i left right f.post)

  split-Covers : Covers 0 (f.pre ++ left ∷ right ∷ f.post) m.total_length
  split-Covers =
      let (b, before, after) = parts in
      Covers-append 0 f.pre b (left ∷ right ∷ f.post) m.total_length before
        (after.0, bounds.0, (refl, bounds.1, after.2))

  before_at : (x : ℕ) → i.start ≤ x → byte_state f.pre x ≡ none
  before_at x le =
      let (b, before, after) = parts in byte_state_outside_high 0 f.pre b x before (omega arith)

  old_bytes : (x : ℕ) → byte_state m.intervals x ≡ byte_state (f.pre ++ i ∷ f.post) x
  old_bytes x = ap (λ l. byte_state l x) f.splits

  split_bytes :
      (x : ℕ)
      → byte_state (f.pre ++ left ∷ right ∷ f.post) x
        ≡ (if within at i.end x then some (in_progress recipient) else byte_state m.intervals x)
  split_bytes x = ground (
    arith,
    bounds,
    old_bytes x,
    before_at x,
    byte_state-append f.pre (i ∷ f.post) x,
    byte_state-append f.pre (left ∷ right ∷ f.post) x,
  )

  run_end : byte_state m.intervals i.end ≢ some (in_progress source)
  run_end e =
      let (b, before, after) = parts in
      byte_state-end i f.post m.total_length after.2
        (IsMerged-Differs f.pre i f.post (subst IsMerged f.splits c.merged))
        (ground (
          arith,
          bounds,
          old_bytes i.end,
          before_at i.end,
          byte_state-append f.pre (i ∷ f.post) i.end,
        ))

  run_owned :
      (x : ℕ) → i.start ≤ x → x < i.end → byte_state m.intervals x ≡ some (in_progress source)
  run_owned x lo hi =
      ground (arith, bounds, old_bytes x, before_at x, byte_state-append f.pre (i ∷ f.post) x)

  split_map : IntervalMap
  split_map = record m { intervals = insert_at (set m.intervals k left) (suc k) right }

  split-SplitOff : SplitOff m at source recipient (normalise split_map)
  unfolding split_map
  split-SplitOff =
      let cover = subst (λ l. Covers 0 l m.total_length) (sym split_list) split-Covers in
      record {
        end = i.end;
        not_empty = bounds.1;
        owned = λ x lo hi. run_owned x (omega (arith, bounds)) hi;
        maximal = run_end;
        assigned = record {
          same_length = unfold normalise in refl;
          canonical = normalise-IsCanonical split_map cover;
          bytes = λ x.
              byte_state-normalise split_map x cover
              ∙ ap (λ l. byte_state l x) split_list
              ∙ split_bytes x;
        };
      }

-- The two bytes at the sides of the split point.
abbrev pub OwnsSides : IntervalMap → ℕ → WorkerId → Type 0
OwnsSides m at source =
    (0 < at)
    × (byte_state m.intervals (at - 1) ≡ some (in_progress source))
    × (byte_state m.intervals at ≡ some (in_progress source))

not-OwnsSides :
    (m : IntervalMap) (at : ℕ) (source : WorkerId)
    → IsCanonical m
    → position (splits_at at source) m.intervals ≡ none
    → ¬ OwnsSides m at source
not-OwnsSides m zero source c h owns = absurd (omega arith)
not-OwnsSides m (suc at) source c h owns =
    position-ne-none source at 0 m.intervals m.total_length c.covers c.merged
      (subst (λ x. byte_state m.intervals x ≡ some (in_progress source)) (omega arith) owns.1)
      owns.2 h

module _ (m : IntervalMap) (at : ℕ) (source recipient : WorkerId) (c : IsCanonical m) where
  -- `split_in_progress` on every branch: equal workers are refused; a split point that does not have
  -- a byte of the source on both sides is refused; both leave the map as it was; at any other
  -- point the recipient gets the source's bytes from there to the end of the source's run.
  pub split_in_progress_lem :
      ((source ≡ recipient)
        × (split_in_progress m at source recipient ≡ (err (split_worker_unchanged source), m)))
      ⊎ ((source ≢ recipient)
          × (¬ OwnsSides m at source)
          × (split_in_progress m at source recipient
              ≡ (err (split_point_unavailable at source), m)))
      ⊎ ((source ≢ recipient)
          × OwnsSides m at source
          × ((split_in_progress m at source recipient).0 ≡ ok tt)
          × SplitOff m at source recipient (split_in_progress m at source recipient).1)
  unfolding split_in_progress
  split_in_progress_lem = elim (Bool-cases (source == recipient)) [
    | inl same ↦ inl ((==_iff source recipient).0 same, rw same)
    | inr differ ↦ elim (Option-cases (position (splits_at at source) m.intervals)) [
      | inl nowhere ↦
          inr (inl (ground arith, not-OwnsSides m at source c nowhere, rw (differ, nowhere)))
      | inr (found, e) ↦
          let f = position-Found (splits_at at source) m.intervals found e in
          let b = bounds m at source recipient c found.0 found.1 f in
          let owned = run_owned m at source recipient c found.0 found.1 f in
          inr (
            inr (
              ground arith,
              (omega arith, owned (at - 1) (omega arith) (omega arith), owned at (omega arith) b.1),
              rw (differ, e),
              rw (differ, e)
                  (unfold split_map in split-SplitOff m at source recipient c found.0 found.1 f),
            ))
    ]
  ]
