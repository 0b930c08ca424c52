-- ===== src/Reprobe.antt =====
-- crates/downpour-http/src/probe.rs: when cached capability evidence must be established again. The
-- Url of the url crate is a parameter with its `==`; times and durations are nanoseconds. A sum that no
-- Duration holds panics, which is `none`.
use Prim.Native.String.{String}
use downpour.Prelude.{
  ℕ, ◌+◌, ◌-◌, ◌*◌, ◌<◌, ◌≤◌, ap, Bool, true, false, ◌&&◌, ◌||◌, ◌≡◌, ◌≢◌, ◌↔◌, ◌⊎◌, inl, inr, refl,
  arith, Option, none, some, List, [], ◌∷◌, ◌++◌, ltb, leb, ◌==◌, if◌then◌else◌, Bool-cases,
}
use downpour.Retry.{max_duration}
use downpour.Remote.{RemoteObject, RangeSupport, is_proven}

-- Fifteen minutes.
abbrev pub capability_freshness : ℕ
capability_freshness = 15 * 60 * 1000000000

pub data ReprobeTrigger (Url : Type 0) : Type 0 where
  refreshed_url_supplied : Url → ReprobeTrigger Url
  final_url_changed : Url → Url → ReprobeTrigger Url
  status_contradicts_capabilities : ℕ → String → ReprobeTrigger Url
  freshness_window_elapsed : ℕ → ℕ → ReprobeTrigger Url

pub record ResumePlan (Url Mime : Type 0) : Type 0 where
  pub recorded : RemoteObject Url Mime
  pub now : ℕ
  pub planned_url : Url
  pub refreshed_url : Option Url
  pub last_observed_status : Option ℕ

unfoldable pub contradiction : ℕ → RangeSupport → Option String
contradiction status range_support =
    if status == 200 && is_proven range_support
    then some "range support was proven but the server answered a ranged request with 200"
    else if status == 416
    then some "the server rejected a range the recorded length says exists"
    else if status == 401 || status == 403 || status == 410
    then some "the URL or credential that produced the recorded evidence no longer applies"
    else none

-- `freshness + Duration::from_nanos(1)`, which is computed whether it is needed or not.
abbrev pub add_nano : ℕ → Option ℕ
add_nano freshness = if ltb max_duration (freshness + 1) then none else some (freshness + 1)

-- `now.duration_since(probed_at).unwrap_or(fallback)`
abbrev pub elapsed_since : ℕ → ℕ → ℕ → ℕ
elapsed_since fallback probed_at now = if leb probed_at now then now - probed_at else fallback

module _ {Url : Type 0} where
  abbrev pub refreshed : Option Url → List (ReprobeTrigger Url)
  refreshed none = []
  refreshed (some url) = refreshed_url_supplied url ∷ []

  abbrev pub contradicted : Option ℕ → RangeSupport → List (ReprobeTrigger Url)
  contradicted none support = []
  contradicted (some status) support = elim (contradiction status support) [
    | none ↦ []
    | some reason ↦ status_contradicts_capabilities status reason ∷ []
  ]

  abbrev pub stale : ℕ → ℕ → List (ReprobeTrigger Url)
  stale freshness elapsed =
      if ltb freshness elapsed then freshness_window_elapsed elapsed freshness ∷ [] else []

-- `!is_empty()`
abbrev pub holds_any {ℓ} : {A : Type ℓ} → List A → Bool
holds_any [] = false
holds_any (a ∷ l) = true

-- `!is_empty()`, behind what may have panicked.
abbrev pub any_found {ℓ} : {A : Type ℓ} → Option (List A) → Option Bool
any_found none = none
any_found (some found) = some (holds_any found)

-- `same` is `==` on Url, and the number the policy's freshness window.
module _ {Url Mime : Type 0} (same : Url → Url → Bool) where
  abbrev pub moved : ResumePlan Url Mime → List (ReprobeTrigger Url)
  moved plan =
      if same plan.planned_url plan.recorded.final_url
      then []
      else final_url_changed plan.recorded.final_url plan.planned_url ∷ []

  abbrev pub found_with : ℕ → ResumePlan Url Mime → ℕ → List (ReprobeTrigger Url)
  found_with freshness plan fallback =
      refreshed plan.refreshed_url
      ++ (moved plan
          ++ (contradicted plan.last_observed_status plan.recorded.range_support
              ++ stale freshness (elapsed_since fallback plan.recorded.probed_at plan.now)))

  abbrev pub triggers_from : ℕ → ResumePlan Url Mime → Option ℕ → Option (List (ReprobeTrigger Url))
  triggers_from freshness plan none = none
  triggers_from freshness plan (some fallback) = some (found_with freshness plan fallback)

  unfoldable pub triggers : ℕ → ResumePlan Url Mime → Option (List (ReprobeTrigger Url))
  triggers freshness plan = triggers_from freshness plan (add_nano freshness)

  unfoldable pub is_required : ℕ → ResumePlan Url Mime → Option Bool
  unfolding triggers
  is_required freshness plan = any_found (triggers freshness plan)

-- The statuses that say something about the recorded capabilities.
abbrev pub Contradicts : Option ℕ → RangeSupport → Type 0
Contradicts none support = ⊥
Contradicts (some status) support =
    ((status ≡ 200) × (is_proven support ≡ true))
    ⊎ ((status ≡ 416) ⊎ ((status ≡ 401) ⊎ ((status ≡ 403) ⊎ (status ≡ 410))))

-- The probe lies in the future, or further back than the window.
abbrev pub IsStale : ℕ → ℕ → ℕ → Type 0
IsStale freshness probed_at now = (now < probed_at) ⊎ (probed_at + freshness < now)

-- Two lists are not both empty exactly if one of their conditions holds.
holds_any-append :
    {A P Q : Type 0} (l m : List A)
    → ((holds_any l ≡ true) ↔ P)
    → ((holds_any m ≡ true) ↔ Q)
    → (holds_any (l ++ m) ≡ true) ↔ (P ⊎ Q)
holds_any-append [] m p q = (λ h. inr (q.0 h), λ h. elim h [ inl e ↦ cc (p.1 e) | inr e ↦ q.1 e ])
holds_any-append (a ∷ l) m p q = (λ h. inl (p.0 refl), λ h. refl)

module _ (Url : Type 0) where
  refreshed_iff : (url : Option Url) → (holds_any (refreshed url) ≡ true) ↔ (url ≢ none)
  refreshed_iff none = (λ h. cc, λ h. absurd (h refl))
  refreshed_iff (some url) = (λ h e. cc, λ h. refl)

  contradicted_iff :
      (status : Option ℕ) (support : RangeSupport)
      → (holds_any (contradicted {Url = Url} status support) ≡ true) ↔ Contradicts status support
  unfolding contradiction
  contradicted_iff none support = (λ h. cc, λ h. absurd h)
  contradicted_iff (some n) support = ground arith

  stale_iff :
      (freshness probed_at now : ℕ)
      → (holds_any (stale {Url = Url} freshness (elapsed_since (freshness + 1) probed_at now))
          ≡ true)
        ↔ IsStale freshness probed_at now
  stale_iff freshness probed_at now = ground arith

-- The evidence is to be established again: a refreshed URL is supplied, the URL to be fetched is not
-- the recorded one, the last status contradicts what is recorded, or the probe is stale.
abbrev pub NeedsProbe : {Url Mime : Type 0} → ℕ → ResumePlan Url Mime → Type 0
NeedsProbe freshness plan =
    (plan.refreshed_url ≢ none)
    ⊎ ((plan.planned_url ≢ plan.recorded.final_url)
        ⊎ (Contradicts plan.last_observed_status plan.recorded.range_support
            ⊎ IsStale freshness plan.recorded.probed_at plan.now))

module _ {Url Mime : Type 0} (same : Url → Url → Bool)
    (same_iff : (u v : Url) → (same u v ≡ true) ↔ (u ≡ v)) where
  moved_iff :
      (plan : ResumePlan Url Mime)
      → (holds_any (moved same plan) ≡ true) ↔ (plan.planned_url ≢ plan.recorded.final_url)
  moved_iff plan = elim (Bool-cases (same plan.planned_url plan.recorded.final_url)) [
    | inl e ↦ rw e (λ h. cc, λ h. absurd (h ((same_iff _ _).0 e)))
    | inr e ↦ rw e (λ h k. cc ((same_iff _ _).1 k), λ h. refl)
  ]

  found_with_iff :
      (freshness : ℕ) (plan : ResumePlan Url Mime)
      → (holds_any (found_with same freshness plan (freshness + 1)) ≡ true)
        ↔ NeedsProbe freshness plan
  found_with_iff freshness plan =
      holds_any-append (refreshed plan.refreshed_url) _ (refreshed_iff Url plan.refreshed_url) (
        holds_any-append (moved same plan) _ (moved_iff plan) (
          holds_any-append (contradicted plan.last_observed_status plan.recorded.range_support) _
            (contradicted_iff Url plan.last_observed_status plan.recorded.range_support)
            (stale_iff Url freshness plan.recorded.probed_at plan.now)))

  -- What is asked of the answer: no panic below the largest Duration.
  abbrev pub Asked : ℕ → ResumePlan Url Mime → Option Bool → Type 0
  Asked freshness plan answer =
      ((answer ≡ none) ↔ (freshness ≡ max_duration))
      × ((answer ≡ some true) ↔ ((freshness < max_duration) × NeedsProbe freshness plan))

  -- For a `==` on URLs that tells equal from unequal ones, asking whether a re-probe is required panics
  -- exactly for the largest Duration as the freshness window. For any other window a re-probe is
  -- required exactly if a refreshed URL is supplied, or the URL to be fetched is not the recorded one,
  -- or the last observed status is 416, 401, 403 or 410, or is 200 where ranges were proven, or the
  -- probe lies in the future or further back than the freshness window.
  pub is_required_iff :
      (freshness : ℕ) (plan : ResumePlan Url Mime)
      → freshness ≤ max_duration
      → Asked freshness plan (is_required same freshness plan)
  unfolding is_required
  is_required_iff freshness plan h = elim (Bool-cases (ltb max_duration (freshness + 1))) [
    | inl over ↦
        let largest : freshness ≡ max_duration = is_largest freshness h over in
        rw over ((λ e. largest, λ e. refl), (λ e. cc, λ e. absurd (below freshness e.0 over)))
    | inr fits ↦
        let iff = found_with_iff freshness plan in
        rw fits (
          (λ e. cc, λ e. absurd (not_largest freshness e fits)),
          (λ e. (is_below freshness fits, iff.0 (cc e)), λ e. ap some (iff.1 e.1)),
        )
  ]
    where
      is_largest : (n : ℕ) → n ≤ max_duration → ltb max_duration (n + 1) ≡ true → n ≡ max_duration
      is_largest n h k = ground arith

      below : (n : ℕ) → n < max_duration → ¬ (ltb max_duration (n + 1) ≡ true)
      below n h k = ground arith

      not_largest : (n : ℕ) → n ≡ max_duration → ¬ (ltb max_duration (n + 1) ≡ false)
      not_largest n h k = ground arith

      is_below : (n : ℕ) → ltb max_duration (n + 1) ≡ false → n < max_duration
      is_below n h = ground arith
