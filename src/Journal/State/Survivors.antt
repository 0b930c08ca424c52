-- ===== src/Journal/State/Survivors.antt =====
-- Which recorded blocks the fold keeps, and when it reports a seal.
use downpour.Prelude.{
  ℕ, suc, ◌+◌, ◌≤◌, Bool, true, List, [], ◌∷◌, ◌++◌, ◌≡◌, ◌↔◌, ◌⊎◌, arith, inl, inr, leb, max_u64,
  length, All, In, here, there, In-cons, In-skip, In-swap, sym, not-In-nil, Bool-cases, ok, ok-bind,
}
use downpour.Journal.{
  FileHeader, JournalRecord, block_complete, checkpoint, identity_update, truncate, sealed,
  FramedRecord,
}
use downpour.Journal.State.{
  CompletedBlock, EffectiveState, retain, ends_by, apply, apply_all, insert_by_offset,
  sort_by_offset, initial, effective_state,
}
use downpour.Journal.State.Blocks.{Applied, apply-Applied, effective_state-ok}

-- The record says that the block is complete.
abbrev pub Records : CompletedBlock → JournalRecord → Type 0
Records b (block_complete offset len blake3) =
    b ≡ record { offset = offset; len = len; blake3 = blake3 }
Records b _ = ⊥

-- The record is no truncation in front of the block's end.
abbrev pub Spares : CompletedBlock → JournalRecord → Type 0
Spares b (truncate new_length) = b.offset + b.len ≤ new_length
Spares b _ = Unit

-- A record completes the block and no later one truncates it.
abbrev pub Survives : CompletedBlock → List FramedRecord → Type 0
Survives b [] = ⊥
Survives b (framed ∷ rest) =
    (Records b framed.record_ × All (λ later. Spares b later.record_) rest) ⊎ Survives b rest

module _ {ℓ} {A : Type ℓ} where
  In-append-left : {x : A} (l r : List A) → In x l → In x (l ++ r)
  In-append-left [] r h = absurd (not-In-nil h)
  In-append-left (y ∷ l) r (here e) = here e
  In-append-left (y ∷ l) r (there h) = there (In-append-left l r h)

  In-append-right : {x : A} (l r : List A) → In x r → In x (l ++ r)
  In-append-right [] r h = h
  In-append-right (y ∷ l) r h = there (In-append-right l r h)

  In-append : {x : A} (l r : List A) → In x (l ++ r) → In x l ⊎ In x r
  In-append [] r h = inr h
  In-append (y ∷ l) r (here e) = inl (here e)
  In-append (y ∷ l) r (there h) = elim (In-append l r h) [ inl k ↦ inl (there k) | inr k ↦ inr k ]

-- The blocks that stay.
In-retain :
    (keep : CompletedBlock → Bool) (b : CompletedBlock) (bs : List CompletedBlock)
    → In b (retain keep bs)
    → In b bs × (keep b ≡ true)
In-retain keep b [] h = absurd (not-In-nil h)
In-retain keep b (c ∷ cs) h = elim (Bool-cases (keep c)) [
  | inl kept ↦ elim (In-cons (rw kept at h)) [
    | inl e ↦ (here e, rw e kept)
    | inr k ↦ let (there_, also) = In-retain keep b cs k in (there there_, also)
  ]
  | inr dropped ↦ let (there_, also) = In-retain keep b cs (rw dropped at h) in (there there_, also)
]

retain-In :
    (keep : CompletedBlock → Bool) (b : CompletedBlock) (bs : List CompletedBlock)
    → In b bs
    → keep b ≡ true
    → In b (retain keep bs)
retain-In keep b [] h k = absurd (not-In-nil h)
retain-In keep b (c ∷ cs) h k = elim (In-cons h) [
  | inl e ↦ let kept : keep c ≡ true = rw (sym e) k in rw kept (here e)
  | inr deeper ↦ elim (Bool-cases (keep c)) [
    | inl kept ↦ rw kept (there (retain-In keep b cs deeper k))
    | inr dropped ↦ rw dropped (retain-In keep b cs deeper k)
  ]
]

In-insert_by_offset :
    (x b : CompletedBlock) (bs : List CompletedBlock) → In x (insert_by_offset b bs) ↔ In x (b ∷ bs)
unfolding insert_by_offset
In-insert_by_offset x b [] = (λ h. h, λ h. h)
In-insert_by_offset x b (c ∷ cs) = elim (Bool-cases (leb b.offset c.offset)) [
  | inl le ↦ rw le (λ h. h, λ h. h)
  | inr gt ↦ rw gt (
    λ h. elim (In-cons h) [
      | inl e ↦ there (here e)
      | inr k ↦ In-skip ((In-insert_by_offset x b cs).0 k)
    ],
    λ h. elim (In-cons (In-swap b c h)) [
      | inl e ↦ here e
      | inr k ↦ there ((In-insert_by_offset x b cs).1 k)
    ],
  )
]

-- Sorting keeps the blocks.
In-sort_by_offset :
    (x : CompletedBlock) (bs : List CompletedBlock) → In x (sort_by_offset bs) ↔ In x bs
unfolding sort_by_offset
In-sort_by_offset x [] = (λ h. h, λ h. h)
In-sort_by_offset x (b ∷ bs) = (
  λ h. elim (In-cons ((In-insert_by_offset x b (sort_by_offset bs)).0 h)) [
    | inl e ↦ here e
    | inr k ↦ there ((In-sort_by_offset x bs).0 k)
  ],
  λ h.
      (In-insert_by_offset x b (sort_by_offset bs)).1
        (elim (In-cons h) [ inl e ↦ here e | inr k ↦ there ((In-sort_by_offset x bs).1 k) ]),
)

-- A round keeps the blocks that its record spares, and adds the one that it records.
apply-In :
    (b : CompletedBlock) (count index : ℕ) (st next : EffectiveState) (r : JournalRecord)
    → st.effective_length ≤ max_u64
    → Applied count index st r next
    → In b next.blocks ↔ ((In b st.blocks × Spares b r) ⊎ Records b r)
apply-In b count index st next (block_complete offset len blake3) u e = rw e.2 (
  λ h. elim (In-append st.blocks _ h) [
    | inl k ↦ inl (k, tt)
    | inr k ↦ elim (In-cons k) [
      | inl same ↦ inr same
      | inr none_left ↦ absurd (not-In-nil none_left)
    ]
  ],
  λ h. elim h [
    | inl k ↦ In-append-left st.blocks _ k.0
    | inr same ↦ In-append-right st.blocks _ (here same)
  ],
)
apply-In b count index st next (checkpoint a c) u e =
    rw e (λ h. inl (h, tt), λ h. elim h [ inl k ↦ k.0 | inr k ↦ absurd k ])
apply-In b count index st next (identity_update cbor) u e =
    rw e (λ h. inl (h, tt), λ h. elim h [ inl k ↦ k.0 | inr k ↦ absurd k ])
apply-In b count index st next (truncate new_length) u e = rw e.1 (
  λ h.
      let (k, kept) = In-retain (ends_by new_length) b st.blocks h in inl (k, ground (arith, kept)),
  λ h. elim h [
    | inl k ↦
        retain-In (ends_by new_length) b st.blocks k.0 (let fits = k.1 in ground (arith, fits))
    | inr k ↦ absurd k
  ],
)
apply-In b count index st next (sealed d) u e =
    rw e.2 (λ h. inl (h, tt), λ h. elim h [ inl k ↦ k.0 | inr k ↦ absurd k ])

apply-effective_length :
    (count index : ℕ) (st next : EffectiveState) (r : JournalRecord)
    → Applied count index st r next
    → next.effective_length ≤ st.effective_length
apply-effective_length count index st next (block_complete offset len blake3) e =
    rw e.2 (omega arith)
apply-effective_length count index st next (checkpoint a b) e = rw e (omega arith)
apply-effective_length count index st next (identity_update cbor) e = rw e (omega arith)
apply-effective_length count index st next (truncate new_length) e = rw e.1 e.0
apply-effective_length count index st next (sealed d) e = rw e.2 (omega arith)

-- The blocks at the end of the loop.
apply_all-In :
    (b : CompletedBlock) (count index : ℕ) (st last : EffectiveState) (records : List FramedRecord)
    → st.effective_length ≤ max_u64
    → apply_all count index st records ≡ ok last
    → In b last.blocks
      ↔ ((In b st.blocks × All (λ later. Spares b later.record_) records) ⊎ Survives b records)
unfolding apply_all
apply_all-In b count index st last [] u h =
    let same : last ≡ st = cc in
    rw same (λ k. inl (k, tt), λ k. elim k [ inl l ↦ l.0 | inr l ↦ absurd l ])
apply_all-In b count index st last (framed ∷ rest) u h =
    let (next, h₁, h₂) =
      ok-bind (apply count index st framed.record_) (λ next. apply_all count (suc index) next rest)
        last h in
    let applied = apply-Applied count index st next framed.record_ h₂ in
    let here_ = apply-In b count index st next framed.record_ u applied in
    let shrunk = apply-effective_length count index st next framed.record_ applied in
    let later = apply_all-In b count (suc index) next last rest (omega arith) h₁ in
    (
      λ k. elim (later.0 k) [
        | inl l ↦ elim (here_.0 l.0) [ inl m ↦ inl (m.0, (m.1, l.1)) | inr m ↦ inr (inl (m, l.1)) ]
        | inr l ↦ inr (inr l)
      ],
      λ k. later.1 (elim k [
        | inl l ↦ inl (here_.1 (inl (l.0, l.1.0)), l.1.1)
        | inr l ↦ elim l [ inl m ↦ inl (here_.1 (inr m.0), m.1) | inr m ↦ inr m ]
      ]),
    )

-- In an accepted journal of a u64 length, the completed blocks are exactly those that some record
-- completes and no later record truncates in front of their end.
pub effective_state-Survives :
    (header : FileHeader) (records : List FramedRecord) (st : EffectiveState) (b : CompletedBlock)
    → header.total_length ≤ max_u64
    → effective_state header records ≡ ok st
    → In b st.blocks ↔ Survives b records
effective_state-Survives header records st b u h =
    let (last, e, _, same) = effective_state-ok header records st h in
    let loop = apply_all-In b (length records) 0 (initial header) last records u e in
    rw same (
      λ k. elim (loop.0 ((In-sort_by_offset b last.blocks).0 k)) [
        | inl l ↦ absurd (not-In-nil l.0)
        | inr l ↦ l
      ],
      λ k. (In-sort_by_offset b last.blocks).1 (loop.1 (inr k)),
    )
