-- ===== src/Journal/Format/Header.antt =====
-- A header is read back from its bytes.
use downpour.Prelude.{
  ℕ, ◌+◌, ◌^◌, ◌≤◌, ◌<◌, true, ◌++◌, append_assoc, ◌≡◌, refl, sym, ◌∙◌, arith, ◌==◌, length,
  length-append, take, take-length, ok,
}
use downpour.Text.{text_eq}
use downpour.Journal.{Bytes, FileHeader}
use downpour.Journal.Format.{
  to_le_bytes, magic, header_body, encode_header, decode_fields, decode_version, decode_header,
  require_len,
}
use downpour.Journal.Format.Reads.{
  HasAt, HasAt-front, HasAt-skip, array_at-HasAt, read_uint-HasAt, length-to_le_bytes,
}

-- The ranges of the source's types: arrays of 16 and 32 bytes, a u64 and a u32.
abbrev pub IsHeader : FileHeader → Type 0
IsHeader h =
    (length h.transfer_id ≡ 16)
    × (h.total_length < 256 ^ 8)
    × (h.block_size < 256 ^ 4)
    × (length h.validator_hash ≡ 32)

-- A checksum is a u32.
abbrev pub IsChecksum : (Bytes → ℕ) → Type 0
IsChecksum crc = (s : Bytes) → crc s < 256 ^ 4

module _ (h : FileHeader) (v : IsHeader h) (rest : Bytes) where
  laid_out :
      header_body h ++ rest
      ≡ magic
        ++ (to_le_bytes 2 1
            ++ (to_le_bytes 2 0
                ++ (h.transfer_id
                    ++ (to_le_bytes 8 h.total_length
                        ++ (to_le_bytes 4 h.block_size ++ (h.validator_hash ++ rest))))))
  unfolding header_body
  laid_out = simp append_assoc

  -- A field of the laid out header is one of its bytes.
  at :
      (offset : ℕ) (field : Bytes)
      → HasAt
          (magic
            ++ (to_le_bytes 2 1
                ++ (to_le_bytes 2 0
                    ++ (h.transfer_id
                        ++ (to_le_bytes 8 h.total_length
                            ++ (to_le_bytes 4 h.block_size ++ (h.validator_hash ++ rest)))))))
          offset
          field
      → HasAt (header_body h ++ rest) offset field
  at offset field (before, after, e, k) = (before, after, laid_out ∙ e, k)

  magic_at : HasAt (header_body h ++ rest) 0 magic
  magic_at = at 0 magic (HasAt-front magic _)

  version_at : HasAt (header_body h ++ rest) 4 (to_le_bytes 2 1)
  version_at = at 4 _ (HasAt-skip magic _ 0 4 _ refl (HasAt-front (to_le_bytes 2 1) _))

  flags_at : HasAt (header_body h ++ rest) 6 (to_le_bytes 2 0)
  flags_at = at 6 _ (
      HasAt-skip magic _ 2 6 _ refl (
        HasAt-skip (to_le_bytes 2 1) _ 0 2 _ (omega (arith, length-to_le_bytes 2 1))
          (HasAt-front (to_le_bytes 2 0) _)))

  -- Behind the first eight bytes.
  tail_at :
      (offset total : ℕ) (field : Bytes)
      → 8 + offset ≡ total
      → HasAt
          (h.transfer_id
            ++ (to_le_bytes 8 h.total_length
                ++ (to_le_bytes 4 h.block_size ++ (h.validator_hash ++ rest))))
          offset
          field
      → HasAt (header_body h ++ rest) total field
  tail_at offset total field e k = at total field (
      HasAt-skip magic _ (4 + offset) total _ (omega arith) (
        HasAt-skip (to_le_bytes 2 1) _ (2 + offset) (4 + offset) _
          (omega (arith, length-to_le_bytes 2 1))
          (HasAt-skip (to_le_bytes 2 0) _ offset (2 + offset) _
            (omega (arith, length-to_le_bytes 2 0)) k)))

  transfer_id_at : HasAt (header_body h ++ rest) 8 h.transfer_id
  transfer_id_at = tail_at 0 8 _ refl (HasAt-front h.transfer_id _)

  total_length_at : HasAt (header_body h ++ rest) 24 (to_le_bytes 8 h.total_length)
  total_length_at =
      tail_at 16 24 _ refl
        (HasAt-skip h.transfer_id _ 0 16 _ (omega (arith, v.0)) (HasAt-front _ _))

  block_size_at : HasAt (header_body h ++ rest) 32 (to_le_bytes 4 h.block_size)
  block_size_at = tail_at 24 32 _ refl (
      HasAt-skip h.transfer_id _ 8 24 _ (omega (arith, v.0)) (
        HasAt-skip (to_le_bytes 8 h.total_length) _ 0 8 _
          (omega (arith, length-to_le_bytes 8 h.total_length)) (HasAt-front _ _)))

  -- Behind the block size.
  end_at :
      (offset : ℕ) (field : Bytes)
      → HasAt (h.validator_hash ++ rest) offset field
      → HasAt (header_body h ++ rest) (36 + offset) field
  end_at offset field k = tail_at (28 + offset) (36 + offset) _ (omega arith) (
      HasAt-skip h.transfer_id _ (12 + offset) (28 + offset) _ (omega (arith, v.0)) (
        HasAt-skip (to_le_bytes 8 h.total_length) _ (4 + offset) (12 + offset) _
          (omega (arith, length-to_le_bytes 8 h.total_length))
          (HasAt-skip (to_le_bytes 4 h.block_size) _ offset (4 + offset) _
            (omega (arith, length-to_le_bytes 4 h.block_size)) k)))

  validator_hash_at : HasAt (header_body h ++ rest) 36 h.validator_hash
  validator_hash_at = end_at 0 _ (HasAt-front h.validator_hash rest)

  decode_fields-header_body : decode_fields (header_body h ++ rest) ≡ ok h
  unfolding decode_fields
  decode_fields-header_body = rw (
    array_at-HasAt 16 _ 8 h.transfer_id transfer_id_at v.0 (omega arith),
    read_uint-HasAt 8 _ 24 h.total_length total_length_at v.1 (omega arith),
    read_uint-HasAt 4 _ 32 h.block_size block_size_at v.2 (omega arith),
    array_at-HasAt 32 _ 36 h.validator_hash validator_hash_at v.3 (omega arith),
  )

  decode_version-header_body : decode_version (header_body h ++ rest) ≡ ok h
  unfolding decode_version
  decode_version-header_body =
      rw
        (
          read_uint-HasAt 2 _ 4 1 version_at (omega arith) (omega arith),
          read_uint-HasAt 2 _ 6 0 flags_at (omega arith) (omega arith),
        )
        decode_fields-header_body

pub length-header_body : (h : FileHeader) → IsHeader h → length (header_body h) ≡ 68
unfolding header_body
length-header_body h v = simp (
  length-append,
  length-to_le_bytes 2 1,
  length-to_le_bytes 2 0,
  v.0,
  length-to_le_bytes 8 h.total_length,
  length-to_le_bytes 4 h.block_size,
  v.3,
)

pub same_sum : (n : ℕ) → (n == n) ≡ true
same_sum n = ground arith

text_eq-magic : text_eq magic magic ≡ true
unfolding text_eq
text_eq-magic = refl

pub require_len-ok : (s : Bytes) (needed : ℕ) → needed ≤ length s → require_len s needed ≡ ok tt
unfolding require_len
require_len-ok s needed h = ground arith

-- A header whose fields are in the ranges of their types is read back from its own bytes, whatever
-- bytes follow it, for every checksum function with u32 values.
pub decode_header-encode_header :
    (crc : Bytes → ℕ) (h : FileHeader) (rest : Bytes)
    → IsChecksum crc
    → IsHeader h
    → decode_header crc (encode_header crc h ++ rest) ≡ ok h
unfolding decode_header encode_header
decode_header-encode_header crc h rest c v =
    let tail = to_le_bytes 4 (crc (header_body h)) ++ rest in
    let len = length-header_body h v in
    let shape = append_assoc (header_body h) (to_le_bytes 4 (crc (header_body h))) rest in
    let protected : take 68 (header_body h ++ tail) ≡ header_body h =
      rw (sym len) (take-length (header_body h) tail) in
    let sum_at : HasAt (header_body h ++ tail) 68 (to_le_bytes 4 (crc (header_body h))) =
      (header_body h, rest, refl, len) in
    let enough : 72 ≤ length (header_body h ++ tail) = omega (
      arith,
      length-append (header_body h) tail,
      len,
      length-append (to_le_bytes 4 (crc (header_body h))) rest,
      length-to_le_bytes 4 (crc (header_body h)),
    ) in
    rw
      (
        shape,
        require_len-ok (header_body h ++ tail) 72 enough,
        array_at-HasAt 4 _ 0 magic (magic_at h v tail) refl (omega arith),
        text_eq-magic,
        read_uint-HasAt 4 _ 68 (crc (header_body h)) sum_at (c (header_body h)) (omega arith),
        protected,
        same_sum (crc (header_body h)),
      )
      (decode_version-header_body h v tail)
