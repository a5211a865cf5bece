-- ===== src/ByteArray/Varint.antt =====
-- dwframe/bytearray.cc: integers of variable length, in groups of seven bits with the lowest first,
-- and the zigzag code that makes a signed value unsigned. A signed value is its two's complement
-- pattern below 2 ^ 32 or 2 ^ 64; the arithmetic that C++ does on `int32_t` and `int64_t` wraps.
pub mod Zigzag
pub mod Groups
pub mod RoundTrip
use Prim.Native.Nat.{bit_and, bit_or, bit_xor}
use dwframe.Base.{
  ℕ, zero, suc, ◌+◌, ◌-◌, ◌*◌, ◌/◌, ◌%◌, ◌^◌, Bool, true, false, List, [], ◌∷◌, ltb, leb,
  if◌then◌else◌,
}
use dwframe.ByteArray.{ByteArray, Result, ok, fault, ◌>>=◌, Endian, write}
use dwframe.ByteArray.Fixed.{read_fuint8}

-- `-v`, in `bits` bits.
abbrev pub negate : ℕ → ℕ → ℕ
negate bits v = (2 ^ bits - v) % 2 ^ bits

-- `v * 2` and `-v` overflow for large values, which C++ leaves undefined; as compilers do it, they wrap.
unfoldable pub encode_zigzag32 : ℕ → ℕ
encode_zigzag32 v =
    if leb (2 ^ 31) v then (negate 32 v * 2 + 2 ^ 32 - 1) % 2 ^ 32 else v * 2 % 2 ^ 32

unfoldable pub encode_zigzag64 : ℕ → ℕ
encode_zigzag64 v =
    if leb (2 ^ 63) v then (negate 64 v * 2 + 2 ^ 64 - 1) % 2 ^ 64 else v * 2 % 2 ^ 64

unfoldable pub decode_zigzag32 : ℕ → ℕ
decode_zigzag32 v = bit_xor (v / 2) (negate 32 (bit_and v 1))

unfoldable pub decode_zigzag64 : ℕ → ℕ
decode_zigzag64 v = bit_xor (v / 2) (negate 64 (bit_and v 1))

-- The loop that fills `tmp`: `room` is how many bytes are left of the array, and a store behind its
-- end is a fault.
unfoldable pub fill_groups : ℕ → ℕ → Result (List ℕ)
fill_groups zero value = fault
fill_groups (suc room) value =
    let rest = fill_groups room (value / 2 ^ 7) in
    if leb 0x80 value
    then (rest >>= λ r. ok (bit_or (bit_and value 0x7f) 0x80 ∷ r))
    else ok (value ∷ [])

unfoldable pub write_uint32 : ℕ → ByteArray → Result ByteArray
write_uint32 value b = fill_groups 5 value >>= λ tmp. write tmp b

unfoldable pub write_uint64 : ℕ → ByteArray → Result ByteArray
write_uint64 value b = fill_groups 10 value >>= λ tmp. write tmp b

unfoldable pub write_int32 : ℕ → ByteArray → Result ByteArray
write_int32 value b = write_uint32 (encode_zigzag32 value) b

unfoldable pub write_int64 : ℕ → ByteArray → Result ByteArray
write_int64 value b = write_uint64 (encode_zigzag64 value) b

module _ (host : Endian) where
  -- `for(int i = shift; i < bits; i += 7)`, with `rounds` rounds to go.
  unfoldable pub gather_groups : ℕ → ℕ → ℕ → ℕ → ByteArray → Result (ℕ × ByteArray)
  gather_groups bits zero shift result b = ok (result, b)
  gather_groups bits (suc rounds) shift result b = read_fuint8 host b >>= λ r.
      let byte = r.0 in
      let last = bit_or result (byte * 2 ^ shift % 2 ^ bits) in
      let inner = bit_or result (bit_and byte 0x7f * 2 ^ shift % 2 ^ bits) in
      let more = gather_groups bits rounds (shift + 7) inner r.1 in
      if ltb byte 0x80 then ok (last, r.1) else more

  -- `i` takes the values 0, 7, …, 28, and 0, 7, …, 63.
  unfoldable pub read_uint32 : ByteArray → Result (ℕ × ByteArray)
  read_uint32 b = gather_groups 32 5 0 0 b

  unfoldable pub read_uint64 : ByteArray → Result (ℕ × ByteArray)
  read_uint64 b = gather_groups 64 10 0 0 b

  unfoldable pub read_int32 : ByteArray → Result (ℕ × ByteArray)
  read_int32 b = read_uint32 b >>= λ r. ok (decode_zigzag32 r.0, r.1)

  unfoldable pub read_int64 : ByteArray → Result (ℕ × ByteArray)
  read_int64 b = read_uint64 b >>= λ r. ok (decode_zigzag64 r.0, r.1)
