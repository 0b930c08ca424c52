-- ===== src/Writer/Reach.antt =====
-- A download: the supervisor's changes of the interval map and the calls of the writer, in any order,
-- with any arguments and whatever the storage answers.
use mathlib.Core.Path.{subst}
use downpour.Prelude.{
  ℕ, arith, Bool, some, List, [], ◌∷◌, ◌≡◌, ap, sym, ok, err, All, if◌then◌else◌, true, false, not,
  ◌==◌,
}
use downpour.Intervals.{IntervalMap, Range, WorkerId, complete, new}
use downpour.Intervals.Partition.{IsCanonical, byte_state, new-IsCanonical}
use downpour.Intervals.Reach.{
  Call, grant_call, split_call, abandon_call, complete_call, perform, perform-Kept,
}
use downpour.Intervals.Lifecycle.{perform-ByteStep, complete_step, only_complete_step}
use downpour.Journal.{Bytes}
use downpour.Writer.Batch.{DurableData, DurableJournal, DurableWriter, WriterError}
use downpour.Writer.{try_new, stage, flush, flush_if_due}
use downpour.Writer.Laws.{DataLaws, JournalLaws}
use downpour.Writer.Honest.{Held, Backed, Backed-moved, IsHonest}
use downpour.Writer.Flush.{flush-LeavesHonest, flush_if_due-LeavesHonest}
use downpour.Writer.Stage.{stage-LeavesHonest}

-- The supervisor grants, splits and abandons; only the writer completes.
pub data Event : Type 0 where
  grant_event : Range → WorkerId → Event
  split_event : ℕ → WorkerId → WorkerId → Event
  abandon_event : WorkerId → Event
  stage_event : WorkerId → ℕ → Bytes → ℕ → Event
  flush_event : Event
  flush_if_due_event : ℕ → Event

unless-ok {ℓ} :
    {A : Type ℓ} (test : Bool) (e : WriterError) (x y : A)
    → (if not test then err e else ok x) ≡ ok y
    → x ≡ y
unless-ok true e x y h = cc
unless-ok false e x y h = cc

module _ {D J : Type 0} (files : DurableData D) (journals : DurableJournal J) (hash : Bytes → Bytes)
    (unix : Bool) where
  abbrev pub happen : DurableWriter D J → IntervalMap → Event → DurableWriter D J × IntervalMap
  happen w m (grant_event r v) = (w, perform m (grant_call r v))
  happen w m (split_event at u v) = (w, perform m (split_call at u v))
  happen w m (abandon_event v) = (w, perform m (abandon_call v))
  happen w m (stage_event v offset bytes now) =
      let out = stage files journals hash unix w m v offset bytes now in (out.1, out.2)
  happen w m flush_event = let out = flush files journals w m in (out.1, out.2)
  happen w m (flush_if_due_event now) =
      let out = flush_if_due files journals w m now in (out.1, out.2)

  abbrev pub happen_all :
      DurableWriter D J → IntervalMap → List Event → DurableWriter D J × IntervalMap
  happen_all w m [] = (w, m)
  happen_all w m (e ∷ es) = let (v, n) = happen w m e in happen_all v n es

  module _ (dl : DataLaws files) (jl : JournalLaws journals) where
    abbrev Honest : DurableWriter D J × IntervalMap → Type 0
    Honest (w, m) = IsHonest files journals hash dl jl w.file w.journal w.staged m

    supervisor-IsHonest :
        (w : DurableWriter D J) (m : IntervalMap) (c : Call)
        → ((r : Range) (v : WorkerId) → c ≡ complete_call r v → ⊥)
        → Honest (w, m)
        → Honest (w, perform m c)
    supervisor-IsHonest w m c other h = record {
      canonical = (perform-Kept m c h.canonical).canonical;
      held = h.held;
      backed = λ x e.
          Backed-moved files journals hash dl jl w.file w.file w.journal w.journal m (perform m c) x
            (λ at others full whole k. k) (λ r k. k)
            (λ y k. complete_step c _ _ (perform-ByteStep m c y h.canonical) k)
            (h.backed x (only_complete_step c _ _ other (perform-ByteStep m c x h.canonical) e));
    }

    happen-IsHonest :
        (w : DurableWriter D J) (m : IntervalMap) (e : Event)
        → Honest (w, m)
        → Honest (happen w m e)
    happen-IsHonest w m (grant_event r v) h =
        supervisor-IsHonest w m (grant_call r v) (λ r x e. absurd (ground arith)) h
    happen-IsHonest w m (split_event at u v) h =
        supervisor-IsHonest w m (split_call at u v) (λ r x e. absurd (ground arith)) h
    happen-IsHonest w m (abandon_event v) h =
        supervisor-IsHonest w m (abandon_call v) (λ r x e. absurd (ground arith)) h
    happen-IsHonest w m (stage_event v offset bytes now) h =
        stage-LeavesHonest files journals hash dl jl unix w m v offset bytes now h
    happen-IsHonest w m flush_event h = flush-LeavesHonest files journals hash dl jl w m h
    happen-IsHonest w m (flush_if_due_event now) h =
        flush_if_due-LeavesHonest files journals hash dl jl w m now h

    pub happen_all-IsHonest :
        (w : DurableWriter D J) (m : IntervalMap) (es : List Event)
        → Honest (w, m)
        → Honest (happen_all w m es)
    happen_all-IsHonest w m [] h = h
    happen_all-IsHonest w m (e ∷ es) h =
        let s = happen w m e in happen_all-IsHonest s.0 s.1 es (happen-IsHonest w m e h)

    new_none_complete : (n x : ℕ) → byte_state (new n).intervals x ≡ some complete → ⊥
    unfolding new
    new_none_complete n x h = ground arith

    new-IsHonest : (w : DurableWriter D J) (n : ℕ) → w.staged ≡ [] → Honest (w, new n)
    new-IsHonest w n none_staged = record {
      canonical = new-IsCanonical n;
      held = subst (All (Held files journals hash dl jl w.file)) (sym none_staged) tt;
      backed = λ x e. absurd (new_none_complete n x e);
    }

    try_new-staged :
        (file : D) (journal : J) (sequence : ℕ) (w : DurableWriter D J)
        → try_new files journals file journal sequence ≡ ok w
        → w.staged ≡ []
    unfolding try_new
    try_new-staged file journal sequence w start =
        ap (λ (v : DurableWriter D J). v.staged)
          (sym (unless-ok (files.total_length file == journals.total_length journal) _ _ w start))

    -- The map of a download is canonical.
    pub reached-IsCanonical :
        (file : D) (journal : J) (sequence : ℕ) (w : DurableWriter D J) (n : ℕ) (es : List Event)
        → try_new files journals file journal sequence ≡ ok w
        → IsCanonical (happen_all w (new n) es).1
    reached-IsCanonical file journal sequence w n es start =
        (happen_all-IsHonest w (new n) es
          (new-IsHonest w n (try_new-staged file journal sequence w start))).canonical

    -- A download that starts with an empty map, in which the supervisor grants, splits and abandons
    -- and the writer stages and flushes, in any order, with any arguments and whatever the storage
    -- answers: every byte that is complete stands in a block whose journal record, of the digest of
    -- the block's bytes, survives a crash, and the file holds those bytes after a crash, too.
    pub complete-Backed :
        (file : D) (journal : J) (sequence : ℕ) (w : DurableWriter D J) (n x : ℕ) (es : List Event)
        → try_new files journals file journal sequence ≡ ok w
        → byte_state (happen_all w (new n) es).1.intervals x ≡ some complete
        → let (v, m) = happen_all w (new n) es in
          Backed files journals hash dl jl v.file v.journal m x
    complete-Backed file journal sequence w n x es start =
        (happen_all-IsHonest w (new n) es
            (new-IsHonest w n (try_new-staged file journal sequence w start))).backed
          x
