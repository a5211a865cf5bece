-- ===== src/ByteArray/Varint/Zigzag.antt =====
-- The zigzag code of dwframe/bytearray.cc.
use dwframe.Base.{
  ℕ, ◌+◌, ◌-◌, ◌*◌, ◌^◌, ◌<◌, ◌≡◌, ap, ◌∙◌, inl, inr, Bool-cases, leb, leb→le, leb→lt, arith,
}
use dwframe.Base.Bits.{bit_and_one, bit_xor_zero, bit_xor_ones}
use dwframe.ByteArray.Varint.{encode_zigzag32, encode_zigzag64, decode_zigzag32, decode_zigzag64}

-- The zigzag codes of 0, -1, 1, -2 and so on are 0, 1, 2, 3 and so on, at 32 and at 64 bits, over
-- all values of the type.
encode_zigzag_values :
    (v w : ℕ)
    → v < 2 ^ 31
    → w < 2 ^ 63
    → (encode_zigzag32 v ≡ 2 * v)
      × (encode_zigzag32 (2 ^ 32 - 1 - v) ≡ 2 * v + 1)
      × (encode_zigzag64 w ≡ 2 * w)
      × (encode_zigzag64 (2 ^ 64 - 1 - w) ≡ 2 * w + 1)
unfolding encode_zigzag32 encode_zigzag64
encode_zigzag_values v w h k = (ground arith, ground arith, ground arith, ground arith)

-- An even code is the value itself, and an odd one its complement.
decode32_even : (v : ℕ) → decode_zigzag32 (2 * v) ≡ v
unfolding decode_zigzag32
decode32_even v = ground (arith, bit_and_one (2 * v), bit_xor_zero v)

decode32_odd : (v : ℕ) → v < 2 ^ 32 → decode_zigzag32 (2 * v + 1) ≡ 2 ^ 32 - 1 - v
unfolding decode_zigzag32
decode32_odd v h = ground (arith, bit_and_one (2 * v + 1), bit_xor_ones 32 v)

decode64_even : (v : ℕ) → decode_zigzag64 (2 * v) ≡ v
unfolding decode_zigzag64
decode64_even v = ground (arith, bit_and_one (2 * v), bit_xor_zero v)

decode64_odd : (v : ℕ) → v < 2 ^ 64 → decode_zigzag64 (2 * v + 1) ≡ 2 ^ 64 - 1 - v
unfolding decode_zigzag64
decode64_odd v h = ground (arith, bit_and_one (2 * v + 1), bit_xor_ones 64 v)

-- Decoding the zigzag code of a 32-bit pattern gives the pattern back.
pub decode-encode32 : (v : ℕ) → v < 2 ^ 32 → decode_zigzag32 (encode_zigzag32 v) ≡ v
unfolding encode_zigzag32
decode-encode32 v h = elim (Bool-cases (leb (2 ^ 31) v)) [
  | inl t ↦
      let le = leb→le _ _ t in
      rw t (
        ap decode_zigzag32 {y = 2 * (2 ^ 32 - 1 - v) + 1} (omega arith)
        ∙ decode32_odd (2 ^ 32 - 1 - v) (omega arith)
        ∙ omega arith)
  | inr t ↦
      let lt = leb→lt _ _ t in rw t (ap decode_zigzag32 {y = 2 * v} (omega arith) ∙ decode32_even v)
]

-- Decoding the zigzag code of a 64-bit pattern gives the pattern back.
pub decode-encode64 : (v : ℕ) → v < 2 ^ 64 → decode_zigzag64 (encode_zigzag64 v) ≡ v
unfolding encode_zigzag64
decode-encode64 v h = elim (Bool-cases (leb (2 ^ 63) v)) [
  | inl t ↦
      let le = leb→le _ _ t in
      rw t (
        ap decode_zigzag64 {y = 2 * (2 ^ 64 - 1 - v) + 1} (omega arith)
        ∙ decode64_odd (2 ^ 64 - 1 - v) (omega arith)
        ∙ omega arith)
  | inr t ↦
      let lt = leb→lt _ _ t in rw t (ap decode_zigzag64 {y = 2 * v} (omega arith) ∙ decode64_even v)
]

pub encode_zigzag-lt : (v w : ℕ) → (encode_zigzag32 v < 2 ^ 32) × (encode_zigzag64 w < 2 ^ 64)
unfolding encode_zigzag32 encode_zigzag64
encode_zigzag-lt v w = (ground arith, ground arith)

-- Decoding the zigzag code of a 32-bit pattern, and that of a 64-bit pattern, gives the pattern
-- back.
decode-encode :
    (v w : ℕ)
    → v < 2 ^ 32
    → w < 2 ^ 64
    → (decode_zigzag32 (encode_zigzag32 v) ≡ v) × (decode_zigzag64 (encode_zigzag64 w) ≡ w)
decode-encode v w h k = (decode-encode32 v h, decode-encode64 w k)
