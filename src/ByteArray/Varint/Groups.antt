-- ===== src/ByteArray/Varint/Groups.antt =====
-- The groups of seven bits of dwframe/bytearray.cc in plain arithmetic, and their round trip.
use Prim.Native.Nat.{bit_and, bit_or}
use native.Mathlib.Nat.{pow-suc, mod-eq_of_lt}
use native.Mathlib.Numerals.{towards_suc}
use dwframe.Base.{
  ℕ, zero, suc, ◌+◌, ◌*◌, ◌/◌, ◌%◌, ◌^◌, ◌≤◌, ◌<◌, ◌≡◌, ap, ◌∙◌, inl, inr, Bool-cases, true, false,
  List, [], ◌∷◌, length, ltb, leb, leb→le, leb→lt, lt→leb, le→leb, arith, if◌then◌else◌,
}
use dwframe.Base.Bits.{bit_and_7f, bit_or_80, bit_or_above}
use dwframe.ByteArray.{ByteArray, ok, Endian, little_endian, big_endian}
use dwframe.ByteArray.Invariant.{IsValid}
use dwframe.ByteArray.Readable.{Readable, read-Consumed}
use dwframe.ByteArray.Fixed.{of_memory, of_le_bytes, read_fuint8}
use dwframe.ByteArray.Varint.{fill_groups, gather_groups}

-- The groups of `v` below 128 ^ k, lowest first; all but the last have the top bit set.
pub groups : ℕ → ℕ → List ℕ
groups zero v = []
groups (suc k) v =
    let rest = groups k (v / 128) in if leb 128 v then (v % 128 + 128) ∷ rest else v ∷ []

-- The array `tmp` is large enough: the loop ends, within `k` rounds, with the groups.
pub fill_groups-groups : (k v : ℕ) → v < 128 ^ suc k → fill_groups (suc k) v ≡ ok (groups (suc k) v)
unfolding fill_groups groups
fill_groups-groups zero v h = rw (lt→leb 128 v (omega arith))
fill_groups-groups (suc k) v h = elim (Bool-cases (leb 128 v)) [
  | inl t ↦
      rw (t, fill_groups-groups k (v / 128) (omega (arith, pow-suc 128 (suc k))), bit_and_7f v)
        (ap (λ x. ok (x ∷ groups (suc k) (v / 128))) (bit_or_80 (v % 128) (omega arith)))
  | inr t ↦ rw t
]

pub length-groups :
    (k v : ℕ) → (0 < length (groups (suc k) v)) × (length (groups (suc k) v) ≤ suc k)
unfolding groups
length-groups zero v = ground arith
length-groups (suc k) v = ground (arith, length-groups k (v / 128))

-- One byte of a readable buffer.
read_fuint8-Consumed :
    (host : Endian) (x : ℕ) (xs : List ℕ) (b : ByteArray)
    → Readable (x ∷ xs) b
    → (c : ByteArray) × (read_fuint8 host b ≡ ok (x, c)) × Readable xs c
unfolding read_fuint8
read_fuint8-Consumed host x xs b r =
    let c = read-Consumed (x ∷ []) xs b (omega arith) r in
    (c.result, rw c.returns (ap (λ v. ok (v, c.result)) (one host)), c.rest)
  where
    one : (host : Endian) → of_memory host (x ∷ []) ≡ x
    one little_endian = unfold of_memory of_le_bytes in omega arith
    one big_endian = unfold of_memory of_le_bytes in omega arith

-- A group that fits is or-ed in as a sum.
or_group :
    (bits shift result q : ℕ)
    → result < 2 ^ shift
    → result + q * 2 ^ shift < 2 ^ bits
    → bit_or result (q * 2 ^ shift % 2 ^ bits) ≡ result + q * 2 ^ shift
or_group bits shift result q low fits =
    ap (bit_or result) (mod-eq_of_lt {n = q * 2 ^ shift} {m = 2 ^ bits} (omega arith))
    ∙ bit_or_above shift q result low

shift_by_7 : (s : ℕ) → 2 ^ (s + 7) ≡ 128 * 2 ^ s
shift_by_7 s = simp towards_suc (omega arith)

lowest_group : (v s : ℕ) → v % 128 * 2 ^ s + v / 128 * 2 ^ (s + 7) ≡ v * 2 ^ s
lowest_group v s =
    let split : v ≡ v % 128 + 128 * (v / 128) = omega arith in
    omega (arith, ap (λ (t : ℕ). t * 2 ^ s) split, ap (λ (t : ℕ). v / 128 * t) (shift_by_7 s))

group_below : (q s r : ℕ) → q < 128 → r < 2 ^ s → r + q * 2 ^ s < 2 ^ (s + 7)
group_below q s r hq hr =
    let top : q * 2 ^ s ≤ 127 * 2 ^ s = at_most q 127 (2 ^ s) (omega arith) in
    omega (arith, shift_by_7 s, top)
  where
    at_most : (a b p : ℕ) → a ≤ b → a * p ≤ b * p
    at_most a b p h = grind arith

-- One round on a last byte, and on another.
gather_last :
    (host : Endian) (bits k shift result x : ℕ) (b c : ByteArray)
    → read_fuint8 host b ≡ ok (x, c)
    → x < 128
    → result < 2 ^ shift
    → result + x * 2 ^ shift < 2 ^ bits
    → gather_groups host bits (suc k) shift result b ≡ ok (result + x * 2 ^ shift, c)
unfolding gather_groups
gather_last host bits k shift result x b c e small low fits =
    let t : ltb x 0x80 ≡ true = ground arith in
    rw (e, t) (ap (λ v. ok (v, c)) (or_group bits shift result x low fits))

gather_inner :
    (host : Endian) (bits k shift result q : ℕ) (b c : ByteArray)
    → read_fuint8 host b ≡ ok (q + 128, c)
    → q < 128
    → result < 2 ^ shift
    → result + q * 2 ^ shift < 2 ^ bits
    → gather_groups host bits (suc k) shift result b
      ≡ gather_groups host bits k (shift + 7) (result + q * 2 ^ shift) c
unfolding gather_groups
gather_inner host bits k shift result q b c e small low fits =
    let t : ltb (q + 128) 0x80 ≡ false = ground arith in
    let mask : bit_and (q + 128) 0x7f ≡ q = omega (arith, bit_and_7f (q + 128)) in
    rw (e, t, mask)
      (ap (λ v. gather_groups host bits k (shift + 7) v c) (or_group bits shift result q low fits))

groups_last : (k v : ℕ) → v < 128 → groups (suc k) v ≡ v ∷ []
unfolding groups
groups_last k v h = rw (lt→leb 128 v h)

groups_inner : (k v : ℕ) → 128 ≤ v → groups (suc k) v ≡ (v % 128 + 128) ∷ groups k (v / 128)
unfolding groups
groups_inner k v h = rw (le→leb 128 v h)

-- The value that a loop of `k` rounds gathers, and the buffer behind it.
abbrev pub Gathers : Endian → ℕ → ℕ → ℕ → ℕ → ℕ → ByteArray → Type 0
Gathers host bits k shift result v b =
    (c : ByteArray) × (gather_groups host bits k shift result b ≡ ok (result + v * 2 ^ shift, c))
    × IsValid c

gather_end :
    (host : Endian) (bits k v shift result : ℕ) (b : ByteArray)
    → v < 128
    → result < 2 ^ shift
    → result + v * 2 ^ shift < 2 ^ bits
    → Readable (groups (suc k) v) b
    → Gathers host bits (suc k) shift result v b
gather_end host bits k v shift result b small low fits r =
    let (c, e, rest) = read_fuint8-Consumed host v [] b (rw (groups_last k v small) at r) in
    (c, gather_last host bits k shift result v b c e small low fits, rest.valid)

pub gather_groups-groups :
    (host : Endian) (bits k v shift result : ℕ) (b : ByteArray)
    → v < 128 ^ suc k
    → result < 2 ^ shift
    → result + v * 2 ^ shift < 2 ^ bits
    → Readable (groups (suc k) v) b
    → Gathers host bits (suc k) shift result v b
gather_groups-groups host bits zero v shift result b h low fits r =
    gather_end host bits 0 v shift result b (omega arith) low fits r
gather_groups-groups host bits (suc k) v shift result b h low fits r =
    elim (Bool-cases (leb 128 v)) [
      | inl t ↦
          let q = v % 128 in
          let whole = lowest_group v shift in
          let (c, e, rest) =
            read_fuint8-Consumed host (q + 128) (groups (suc k) (v / 128)) b
              (rw (groups_inner (suc k) v (leb→le 128 v t)) at r) in
          let (d, f, valid) =
            gather_groups-groups host bits k (v / 128) (shift + 7) (result + q * 2 ^ shift) c
              (omega (arith, pow-suc 128 (suc k))) (group_below q shift result (omega arith) low)
              (omega (arith, whole)) rest in
          (
            d,
            gather_inner host bits (suc k) shift result q b c e (omega arith) low
                  (omega (arith, whole))
                ∙ f
                ∙ ap (λ x. ok (x, d)) (omega (arith, whole)),
            valid,
          )
      | inr t ↦ gather_end host bits (suc k) v shift result b (leb→lt 128 v t) low fits r
    ]
