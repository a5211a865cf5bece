-- ===== src/ByteArray/Fixed/Order.antt =====
-- Byte orders of dwframe/endian.h, and the memory of the fixed-width values of dwframe/bytearray.cc.
use mathlib.Core.List.{reverse, reverse-reverse, reverse-cons}
use dwframe.Base.{
  ℕ, zero, suc, ◌+◌, ◌*◌, ◌/◌, ◌%◌, ◌^◌, ◌<◌, ◌≡◌, refl, sym, ap, ◌∙◌, true, false, List, [], ◌∷◌,
  length, All, arith, All-append, length-append, Bool, if◌then◌else◌,
}
use native.Mathlib.Nat.{pow-suc}
use dwframe.ByteArray.{ByteArray, Endian, little_endian, big_endian}
use dwframe.ByteArray.Fixed.{
  le_bytes, of_le_bytes, to_memory, of_memory, byteswap, same_order, ordered,
}

abbrev pub IsByte : ℕ → Type 0
IsByte x = x < 256

length-le_bytes : (w v : ℕ) → length (le_bytes w v) ≡ w
unfolding le_bytes
length-le_bytes zero v = refl
length-le_bytes (suc w) v = ap suc (length-le_bytes w (v / 256))

le_bytes-IsByte : (w v : ℕ) → All IsByte (le_bytes w v)
unfolding le_bytes
le_bytes-IsByte zero v = tt
le_bytes-IsByte (suc w) v = (omega arith, le_bytes-IsByte w (v / 256))

of_le_bytes-le_bytes : (w v : ℕ) → v < 256 ^ w → of_le_bytes (le_bytes w v) ≡ v
unfolding le_bytes of_le_bytes
of_le_bytes-le_bytes zero v h = omega arith
of_le_bytes-le_bytes (suc w) v h =
    omega (arith, of_le_bytes-le_bytes w (v / 256) (omega (arith, pow-suc 256 w)))

le_bytes-of_le_bytes : (xs : List ℕ) → All IsByte xs → le_bytes (length xs) (of_le_bytes xs) ≡ xs
unfolding le_bytes of_le_bytes
le_bytes-of_le_bytes [] h = refl
le_bytes-of_le_bytes (x ∷ xs) h =
    let low : (x + 256 * of_le_bytes xs) % 256 ≡ x = omega arith in
    let high : (x + 256 * of_le_bytes xs) / 256 ≡ of_le_bytes xs = omega arith in
    rw (low, high) (ap (◌∷◌ x) (le_bytes-of_le_bytes xs h.1))

reverse-IsByte : (xs : List ℕ) → All IsByte xs → All IsByte (reverse xs)
reverse-IsByte [] h = tt
reverse-IsByte (x ∷ xs) h =
    rw (reverse-cons x xs)
      (All-append IsByte (reverse xs) (x ∷ []) (reverse-IsByte xs h.1) (h.0, tt))

length-reverse : (xs : List ℕ) → length (reverse xs) ≡ length xs
length-reverse [] = refl
length-reverse (x ∷ xs) =
    ap length (reverse-cons x xs)
    ∙ omega (arith, length-append (reverse xs) (x ∷ []), length-reverse xs)

of_le_bytes-lt : (xs : List ℕ) → All IsByte xs → of_le_bytes xs < 256 ^ length xs
unfolding of_le_bytes
of_le_bytes-lt [] h = omega arith
of_le_bytes-lt (x ∷ xs) h = omega (arith, of_le_bytes-lt xs h.1, pow-suc 256 (length xs), h.0)

pub length-to_memory : (host : Endian) (w v : ℕ) → length (to_memory host w v) ≡ w
unfolding to_memory
length-to_memory little_endian w v = length-le_bytes w v
length-to_memory big_endian w v = length-reverse (le_bytes w v) ∙ length-le_bytes w v

pub of_memory-to_memory :
    (host : Endian) (w v : ℕ) → v < 256 ^ w → of_memory host (to_memory host w v) ≡ v
unfolding of_memory to_memory
of_memory-to_memory little_endian w v h = of_le_bytes-le_bytes w v h
of_memory-to_memory big_endian w v h =
    ap of_le_bytes (reverse-reverse (le_bytes w v)) ∙ of_le_bytes-le_bytes w v h

-- The bytes of a value in reverse order, as a value.
le_bytes-byteswap : (w v : ℕ) → le_bytes w (byteswap w v) ≡ reverse (le_bytes w v)
unfolding byteswap
le_bytes-byteswap w v =
    let xs = reverse (le_bytes w v) in
    let len : length xs ≡ w = length-reverse (le_bytes w v) ∙ length-le_bytes w v in
    ap (λ k. le_bytes k (of_le_bytes xs)) (sym len)
    ∙ le_bytes-of_le_bytes xs (reverse-IsByte (le_bytes w v) (le_bytes-IsByte w v))

byteswap-lt : (w v : ℕ) → byteswap w v < 256 ^ w
unfolding byteswap
byteswap-lt w v =
    let xs = reverse (le_bytes w v) in
    let len : length xs ≡ w = length-reverse (le_bytes w v) ∙ length-le_bytes w v in
    rw len at (of_le_bytes-lt xs (reverse-IsByte (le_bytes w v) (le_bytes-IsByte w v)))

-- Swapping the bytes of a value that fits its width twice gives the value back, at every width.
byteswap-byteswap : (w v : ℕ) → v < 256 ^ w → byteswap w (byteswap w v) ≡ v
byteswap-byteswap w v h =
    unfold byteswap in
    ap (λ xs. of_le_bytes (reverse xs)) (le_bytes-byteswap w v)
    ∙ ap of_le_bytes (reverse-reverse (le_bytes w v))
    ∙ of_le_bytes-le_bytes w v h

-- Whether the orders agree or not, the value in memory is the one that was stored.
pub restored :
    (host : Endian) (same : Bool) (w v : ℕ)
    → v < 256 ^ w
    → (if same
        then of_memory host (to_memory host w (if same then v else byteswap w v))
        else byteswap w (of_memory host (to_memory host w (if same then v else byteswap w v))))
      ≡ v
restored host true w v h = of_memory-to_memory host w v h
restored host false w v h =
    ap (byteswap w) (of_memory-to_memory host w (byteswap w v) (byteswap-lt w v))
    ∙ byteswap-byteswap w v h

-- The order of the bytes in the buffer does not depend on the machine: the lowest byte comes first
-- exactly when the buffer is little-endian.
stored_bytes :
    (host : Endian) (w v : ℕ) (b : ByteArray)
    → to_memory host w (ordered host w v b)
      ≡ (if same_order b.endian little_endian then le_bytes w v else reverse (le_bytes w v))
stored_bytes host w v b = go host b.endian
  where
    go :
        (host e : Endian)
        → to_memory host w (if same_order e host then v else byteswap w v)
          ≡ (if same_order e little_endian then le_bytes w v else reverse (le_bytes w v))
    go little_endian little_endian = unfold to_memory in refl
    go little_endian big_endian = unfold to_memory in le_bytes-byteswap w v
    go big_endian little_endian =
        unfold to_memory in (ap reverse (le_bytes-byteswap w v) ∙ reverse-reverse (le_bytes w v))
    go big_endian big_endian = unfold to_memory in refl
