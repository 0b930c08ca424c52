-- ===== src/Recovery/Merge.antt =====
-- `merge_adjacent` on the blocks that the fold answers: they become ranges in order, of the same bytes.

use downpour.Prelude.{
  ℕ, ◌+◌, ◌-◌, ◌≤◌, ◌<◌, Bool, true, false, ◌||◌, List, [], ◌∷◌, ◌≡◌, refl, ap, ◌∙◌, arith, within,
  max_u64, All, ok,
}
use downpour.Intervals.{Range}
use downpour.Journal.State.{CompletedBlock, end}
use downpour.Journal.State.Blocks.{Within, Apart}
use downpour.Recovery.{push_block, merge_blocks}

-- Non-empty ranges in order, from `lo` on and up to `hi`.
abbrev pub Chain : ℕ → List Range → ℕ → Type 0
Chain lo [] hi = lo ≤ hi
Chain lo (r ∷ rs) hi = (lo ≤ r.start) × (r.start < r.end) × Chain r.end rs hi

abbrev pub covered_by : ℕ → List Range → Bool
covered_by x [] = false
covered_by x (r ∷ rs) = within r.start r.end x || covered_by x rs

abbrev pub in_blocks : ℕ → List CompletedBlock → Bool
in_blocks x [] = false
in_blocks x (b ∷ bs) = within b.offset (b.offset + b.len) x || in_blocks x bs

abbrev pub total_size : List Range → ℕ
total_size [] = 0
total_size (r ∷ rs) = (r.end - r.start) + total_size rs

abbrev pub total_len : List CompletedBlock → ℕ
total_len [] = 0
total_len (b ∷ bs) = b.len + total_len bs

pub Chain-le : (lo : ℕ) (rs : List Range) (hi : ℕ) → Chain lo rs hi → lo ≤ hi
Chain-le lo [] hi h = h
Chain-le lo (r ∷ rs) hi h = omega (arith, h.0, h.1, Chain-le r.end rs hi h.2)

push_block-Chain :
    (lo : ℕ) (rs : List Range) (hi offset e : ℕ)
    → Chain lo rs hi
    → hi ≤ offset
    → offset < e
    → Chain lo (push_block rs offset e) e
unfolding push_block
push_block-Chain lo [] hi offset e c low full = (omega arith, full, omega arith)
push_block-Chain lo (r ∷ []) hi offset e c low full = ground arith
push_block-Chain lo (r ∷ s ∷ rest) hi offset e c low full =
    (c.0, c.1, push_block-Chain r.end (s ∷ rest) hi offset e c.2 low full)

push_block-covered_by :
    (lo : ℕ) (rs : List Range) (hi offset e x : ℕ)
    → Chain lo rs hi
    → hi ≤ offset
    → offset < e
    → covered_by x (push_block rs offset e) ≡ covered_by x rs || within offset e x
unfolding push_block
push_block-covered_by lo [] hi offset e x c low full = ground arith
push_block-covered_by lo (r ∷ []) hi offset e x c low full = ground arith
push_block-covered_by lo (r ∷ s ∷ rest) hi offset e x c low full =
    let later = push_block-covered_by r.end (s ∷ rest) hi offset e x c.2 low full in ground arith

push_block-size :
    (lo : ℕ) (rs : List Range) (hi offset e : ℕ)
    → Chain lo rs hi
    → hi ≤ offset
    → offset < e
    → total_size (push_block rs offset e) ≡ total_size rs + (e - offset)
unfolding push_block
push_block-size lo [] hi offset e c low full = ground arith
push_block-size lo (r ∷ []) hi offset e c low full = ground arith
push_block-size lo (r ∷ s ∷ rest) hi offset e c low full =
    let later = push_block-size r.end (s ∷ rest) hi offset e c.2 low full in omega (arith, later)

-- What the loop answers, with the ranges so far.
pub record Merged (lo : ℕ) (acc : List Range) (bs : List CompletedBlock) (limit : ℕ)
    (merged : List Range) : Type 0 where
  pub top : ℕ
  pub chain : Chain lo merged top
  pub below : top ≤ limit
  pub bytes : (x : ℕ) → covered_by x merged ≡ covered_by x acc || in_blocks x bs
  pub size : total_size merged ≡ total_size acc + total_len bs

end-ok : (b : CompletedBlock) → b.offset + b.len ≤ max_u64 → end b ≡ ok (b.offset + b.len)
end-ok b h = ground arith

merge_blocks-ok :
    (acc : List Range) (b : CompletedBlock) (bs : List CompletedBlock) (e : ℕ)
    → end b ≡ ok e
    → merge_blocks acc (b ∷ bs) ≡ merge_blocks (push_block acc b.offset e) bs
unfolding merge_blocks
merge_blocks-ok acc b bs e h = rw (h, merge_blocks)

merge_blocks-nil : (acc : List Range) → merge_blocks acc [] ≡ ok acc
unfolding merge_blocks
merge_blocks-nil acc = refl

or_assoc : (a b c : Bool) → (a || b) || c ≡ a || (b || c)
or_assoc true b c = refl
or_assoc false b c = refl

or_false : (a : Bool) → a ≡ a || false
or_false true = refl
or_false false = refl

pub merge_blocks-Merged :
    (lo hi limit : ℕ) (acc : List Range) (bs : List CompletedBlock)
    → limit ≤ max_u64
    → hi ≤ limit
    → Chain lo acc hi
    → All (λ b. hi ≤ b.offset) bs
    → All (Within limit) bs
    → Apart bs
    → (merged : List Range) × (merge_blocks acc bs ≡ ok merged) × Merged lo acc bs limit merged
merge_blocks-Merged lo hi limit acc [] small below c behind w apart = (
  acc,
  merge_blocks-nil acc,
  record {
    top = hi;
    chain = c;
    below = below;
    bytes = λ x. or_false (covered_by x acc);
    size = omega arith;
  },
)
merge_blocks-Merged lo hi limit acc (b ∷ bs) small below c behind w apart =
    let e : ℕ = b.offset + b.len in
    let full : b.offset < b.offset + b.len = omega (arith, w.0.0) in
    let acc_next = push_block acc b.offset (b.offset + b.len) in
    let (merged, same, rest) =
      merge_blocks-Merged lo (b.offset + b.len) limit acc_next bs small w.0.1
        (push_block-Chain lo acc hi b.offset (b.offset + b.len) c behind.0 full) apart.0 w.1
        apart.1 in
    (
      merged,
      merge_blocks-ok acc b bs (b.offset + b.len) (end-ok b (omega (arith, w.0.1, small))) ∙ same,
      record {
        top = rest.top;
        chain = rest.chain;
        below = rest.below;
        bytes = λ x.
            rest.bytes x
            ∙ ap (λ t. t || in_blocks x bs)
                (push_block-covered_by lo acc hi b.offset (b.offset + b.len) x c behind.0 full)
            ∙ or_assoc (covered_by x acc) (within b.offset (b.offset + b.len) x) (in_blocks x bs);
        size = omega (
          arith,
          rest.size,
          push_block-size lo acc hi b.offset (b.offset + b.len) c behind.0 full,
        );
      },
    )
