-- ===== src/Intervals.antt =====
-- crates/downpour-intervals/src/lib.rs: the canonical interval map of one download. A method that
-- takes `&mut self` returns its result beside the map that it leaves. The proofs are in the
-- modules below.
pub mod Partition
pub mod Merge
pub mod Match
pub mod Assign
pub mod Position
pub mod Members
pub mod Split
pub mod Unique
pub mod Abandon
pub mod Reach
pub mod Lifecycle
pub mod Replace
use downpour.Prelude.{
  ℕ, suc, ◌+◌, ◌-◌, min, max, Bool, true, false, not, ◌&&◌, ◌||◌, Option, none, some, List, [], ◌∷◌,
  ltb, leb, ◌==◌, if◌then◌else◌, Result, ok, err, set, insert_at,
}

abbrev pub WorkerId : Type 0
WorkerId = ℕ

pub data IntervalState : Type 0 where
  pending : IntervalState
  in_progress : WorkerId → IntervalState
  complete : IntervalState

pub record Interval : Type 0 where
  pub start : ℕ
  pub end : ℕ
  pub state : IntervalState

-- `Range<u64>`, half-open.
pub record Range : Type 0 where
  pub start : ℕ
  pub end : ℕ

pub data IntervalMapError : Type 0 where
  invalid_range : ℕ → ℕ → ℕ → IntervalMapError
  range_not_pending : ℕ → ℕ → IntervalMapError
  range_not_owned : ℕ → ℕ → WorkerId → IntervalMapError
  split_point_unavailable : ℕ → WorkerId → IntervalMapError
  split_worker_unchanged : WorkerId → IntervalMapError

pub record IntervalMap : Type 0 where
  pub total_length : ℕ
  pub intervals : List Interval

-- The derived `PartialEq`.
unfoldable pub state_eq : IntervalState → IntervalState → Bool
state_eq pending pending = true
state_eq (in_progress v) (in_progress w) = v == w
state_eq complete complete = true
state_eq _ _ = false

abbrev pub len : Interval → ℕ
len i = i.end - i.start

abbrev pub is_empty : Interval → Bool
is_empty i = i.start == i.end

unfoldable pub new : ℕ → IntervalMap
new total_length = record {
  total_length = total_length;
  intervals =
      if total_length == 0
      then []
      else record { start = 0; end = total_length; state = pending } ∷ [];
}

-- `last_mut`: only the last interval may grow.
unfoldable pub push_merged : List Interval → Interval → List Interval
push_merged [] i = i ∷ []
push_merged (previous ∷ []) i =
    if previous.end == i.start && state_eq previous.state i.state
    then record previous { end = i.end } ∷ []
    else previous ∷ i ∷ []
push_merged (first ∷ second ∷ rest) i = first ∷ push_merged (second ∷ rest) i

merge_all : List Interval → List Interval → List Interval
merge_all next [] = next
merge_all next (i ∷ old) = merge_all (push_merged next i) old

unfoldable pub normalise : IntervalMap → IntervalMap
unfolding merge_all push_merged
normalise m = record m { intervals = merge_all [] m.intervals }

-- One round of the loop of `replace_range`.
unfoldable pub replace_round : Range → IntervalState → List Interval → Interval → List Interval
replace_round r replacement next i =
    if leb i.end r.start || leb r.end i.start
    then push_merged next i
    else let before =
        if ltb i.start r.start
        then push_merged next (record { start = i.start; end = r.start; state = i.state })
        else next in
      let covered =
        push_merged before
          (record { start = max i.start r.start; end = min i.end r.end; state = replacement }) in
      if ltb r.end i.end
      then push_merged covered (record { start = r.end; end = i.end; state = i.state })
      else covered

replace_loop : Range → IntervalState → List Interval → List Interval → List Interval
replace_loop r replacement next [] = next
replace_loop r replacement next (i ∷ old) =
    replace_loop r replacement (replace_round r replacement next i) old

unfoldable pub replace_range : IntervalMap → Range → IntervalState → IntervalMap
unfolding replace_loop replace_round push_merged
replace_range m r replacement = record m { intervals = replace_loop r replacement [] m.intervals }

unfoldable pub validate_range : IntervalMap → Range → Result (Unit {0}) IntervalMapError
validate_range m r =
    if leb r.end r.start || ltb m.total_length r.end
    then err (invalid_range r.start r.end m.total_length)
    else ok tt

matches_all : Range → (IntervalState → Bool) → List Interval → Bool
matches_all r predicate [] = true
matches_all r predicate (i ∷ rest) =
    if ltb i.start r.end && ltb r.start i.end
    then predicate i.state && matches_all r predicate rest
    else matches_all r predicate rest

unfoldable pub range_matches : IntervalMap → Range → (IntervalState → Bool) → Bool
unfolding matches_all
range_matches m r predicate = matches_all r predicate m.intervals

abbrev pub is_pending : IntervalState → Bool
is_pending pending = true
is_pending _ = false

-- What a mutation returns, and the map that it leaves.
abbrev pub Mutation : Type 0
Mutation = Result (Unit {0}) IntervalMapError × IntervalMap

grant_valid : IntervalMap → Range → WorkerId → Result (Unit {0}) IntervalMapError → Mutation
grant_valid m r worker (err e) = (err e, m)
grant_valid m r worker (ok _) =
    if not (range_matches m r is_pending)
    then (err (range_not_pending r.start r.end), m)
    else (ok tt, replace_range m r (in_progress worker))

unfoldable pub grant : IntervalMap → Range → WorkerId → Mutation
unfolding grant_valid
grant m r worker = grant_valid m r worker (validate_range m r)

complete_valid : IntervalMap → Range → WorkerId → Result (Unit {0}) IntervalMapError → Mutation
complete_valid m r worker (err e) = (err e, m)
complete_valid m r worker (ok _) =
    if not (range_matches m r (λ s. state_eq s (in_progress worker)))
    then (err (range_not_owned r.start r.end worker), m)
    else (ok tt, replace_range m r complete)

unfoldable pub complete_range : IntervalMap → Range → WorkerId → Mutation
unfolding complete_valid
complete_range m r worker = complete_valid m r worker (validate_range m r)

-- `iter().position(..)`, with the interval that stands at the index.
unfoldable pub position : (Interval → Bool) → List Interval → Option (ℕ × Interval)
position test [] = none
position test (i ∷ rest) =
    if test i
    then some (0, i)
    else elim (position test rest) [ none ↦ none | some (k, j) ↦ some (suc k, j) ]

unfoldable pub splits_at : ℕ → WorkerId → Interval → Bool
unfolding state_eq
splits_at at source i = ltb i.start at && ltb at i.end && state_eq i.state (in_progress source)

split_found : IntervalMap → ℕ → WorkerId → WorkerId → Option (ℕ × Interval) → Mutation
split_found m at source recipient none = (err (split_point_unavailable at source), m)
split_found m at source recipient (some (index, original)) =
    let left : Interval = record { start = original.start; end = at; state = in_progress source } in
    let right : Interval = record {
      start = at;
      end = original.end;
      state = in_progress recipient;
    } in
    (
      ok tt,
      normalise (record m { intervals = insert_at (set m.intervals index left) (suc index) right }),
    )

unfoldable pub split_in_progress : IntervalMap → ℕ → WorkerId → WorkerId → Mutation
unfolding split_found
split_in_progress m at source recipient =
    if source == recipient
    then (err (split_worker_unchanged source), m)
    else split_found m at source recipient (position (splits_at at source) m.intervals)

-- The loop of `abandon`: the bytes released so far, and the intervals with the grants returned.
unfoldable pub release : WorkerId → List Interval → ℕ × List Interval
release worker [] = (0, [])
release worker (i ∷ rest) =
    let (released, freed) = release worker rest in
    if state_eq i.state (in_progress worker)
    then (len i + released, record i { state = pending } ∷ freed)
    else (released, i ∷ freed)

unfoldable pub abandon : IntervalMap → WorkerId → ℕ × IntervalMap
abandon m worker =
    let (released, freed) = release worker m.intervals in
    (released, normalise (record m { intervals = freed }))

-- The loop of `invariants_hold`: `cursor` and `previous_state` are its variables.
scan_invariants : ℕ → ℕ → Option IntervalState → List Interval → Bool
scan_invariants total cursor previous [] = cursor == total
scan_invariants total cursor previous (i ∷ rest) =
    if not (i.start == cursor) || leb i.end i.start
    then false
    else if elim previous [ none ↦ false | some s ↦ state_eq s i.state ]
    then false
    else scan_invariants total i.end (some i.state) rest

unfoldable pub invariants_hold : IntervalMap → Bool
unfolding scan_invariants
invariants_hold m =
    if m.total_length == 0
    then elim m.intervals [ [] ↦ true | _ ∷ _ ↦ false ]
    else scan_invariants m.total_length 0 none m.intervals
