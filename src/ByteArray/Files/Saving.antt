-- ===== src/ByteArray/Files/Saving.antt =====
-- What `writeToFile` of dwframe/bytearray.cc puts into a file.
use dwframe.Base.{
  ℕ, zero, suc, ◌+◌, ◌-◌, ◌*◌, ◌%◌, ◌^◌, ◌≤◌, ◌<◌, ◌≡◌, ◌⊎◌, inl, inr, refl, sym, ap, ◌∙◌,
  Bool-cases, true, false, min, Bool, if◌then◌else◌, drop_all, drop-append, drop-take, none, some,
  List, [], ◌∷◌, ◌++◌, flatten, length, take, drop, ltb, leb, ◌||◌, ◌==◌, leb→le, leb→lt, All-drop,
  arith, length-append, length-drop, length-take, take-append, take-append_le, drop-append_le,
  take_all, append-nil,
}
use dwframe.ByteArray.{ByteArray, ok, get_read_size, blocks_from}
use dwframe.ByteArray.Loops.{Blocks}
use dwframe.ByteArray.Invariant.{
  IsValid, contents, unread, npos_lem, inside, cut, back_room, pointer-some, mod_of_bounds,
}
use dwframe.ByteArray.Files.{save_loop, write_to_file}

save_nothing : (base pos : ℕ) (back : List (List ℕ)) → save_loop base back pos 0 ≡ ok []
unfolding save_loop
save_nothing base pos [] = refl
save_nothing base pos (n ∷ rest) = refl

-- A turn that writes `len` bytes of a block, and the turns after it.
save_step :
    (base pos npos len size : ℕ) (n : List ℕ) (rest : List (List ℕ)) (bytes : List ℕ)
    → 0 < size
    → pos % base ≡ npos
    → min size base ≡ npos + len
    → npos < 2 ^ 31
    → save_loop base rest (pos + len) (size - len) ≡ ok bytes
    → save_loop base (n ∷ rest) pos size ≡ ok (take len (drop npos n) ++ bytes)
unfolding save_loop
save_step base pos npos len size n rest bytes some_left e m small later =
    let none_yet : (size == 0) ≡ false = ground arith in
    let whole : npos % 2 ^ 32 ≡ npos = omega arith in
    let goes_on : (leb (2 ^ 31) npos || ltb (npos + len) npos) ≡ false = ground arith in
    let count : npos + len - npos ≡ len = omega arith in
    rw (none_yet, e, whole, m, goes_on, count, later) refl

save_loop-flatten :
    (base q npos pos size : ℕ) (back : List (List ℕ))
    → pos ≡ q * base + npos
    → npos < base
    → base ≤ 2 ^ 31
    → Blocks base back
    → npos + size ≤ length (flatten back)
    → (npos ≡ 0) ⊎ (base ≤ size)
    → 0 < size
    → save_loop base back pos size ≡ ok (take size (drop npos (flatten back)))
unfolding flatten
save_loop-flatten base q npos pos size [] e lt small h fits whole more = absurd (omega arith)
save_loop-flatten base q npos pos size (n ∷ rest) e lt small h fits whole more =
    let at_npos : pos % base ≡ npos =
      mod_of_bounds q pos base (omega arith) (omega arith) ∙ omega arith in
    let sizes = length-append n (flatten rest) in
    let left = length-drop npos n in
    let start = drop-append_le npos n (flatten rest) (omega (arith, h.0)) in
    elim (Bool-cases (leb (npos + size) base)) [
      | inl t ↦
          let short = leb→le (npos + size) base t in
          let aligned : npos ≡ 0 = ground arith in
          let step =
            save_step base pos npos size size n rest [] more at_npos (omega arith) (omega arith) (
              ap (save_loop base rest (pos + size)) {y = 0} (omega arith)
              ∙ save_nothing base (pos + size) rest) in
          step
          ∙ ap ok (
              append-nil (take size (drop npos n))
              ∙ sym (
                  ap (take size) start
                  ∙ take-append_le size (drop npos n) (flatten rest) (omega (arith, left, h.0))))
      | inr t ↦
          let long = leb→lt (npos + size) base t in
          let full : min size base ≡ npos + (base - npos) = ground arith in
          let next =
            save_loop-flatten base (suc q) 0 (pos + (base - npos)) (size - (base - npos)) rest
              (omega arith) (omega arith) small h.1 (omega (arith, sizes, h.0)) (inl refl)
              (omega arith) in
          save_step base pos npos (base - npos) size n rest _ more at_npos full (omega arith) next
          ∙ ap ok (
              ap (λ l. l ++ take (size - (base - npos)) (flatten rest))
                (take_all (base - npos) (drop npos n) (omega (arith, left, h.0)))
              ∙ ap (λ j. drop npos n ++ take j (flatten rest)) {y = size - length (drop npos n)}
                  (omega (arith, left, h.0))
              ∙ sym (
                  ap (take size) start
                  ∙ take-append size (drop npos n) (flatten rest) (omega (arith, left, h.0))))
    ]

-- On a valid buffer with blocks of at most 2 ^ 31 bytes and less than 2 ^ 63 bytes in all, whose
-- position is at the start of a block, or that has at least a block to read, `writeToFile` puts
-- the bytes still to be read into a file that opens, and answers none for one that does not.
pub write_to_file-Saved :
    (opens : Bool) (b : ByteArray)
    → IsValid b
    → b.base_size ≤ 2 ^ 31
    → b.size < 2 ^ 63
    → (b.position % b.base_size ≡ 0) ⊎ (b.base_size ≤ get_read_size b)
    → write_to_file opens b ≡ (if opens then ok (some (unread b)) else ok none)
unfolding write_to_file
write_to_file-Saved opens b v small bound whole_block =
    let positive : ltb (get_read_size b) (2 ^ 63) ≡ true = ground arith in
    rw (positive, saved (get_read_size b) refl) refl
  where
    saved :
        (n : ℕ)
        → get_read_size b ≡ n
        → save_loop b.base_size (blocks_from b.nodes b.cur) b.position n ≡ ok (unread b)
    saved zero e =
        save_nothing b.base_size b.position (blocks_from b.nodes b.cur)
        ∙ ap ok (
            sym (
              drop_all b.position (contents b)
                (omega (arith, e, length-take b.size (flatten b.nodes)))))
    saved (suc n) e =
        let some_left : 0 < suc n = omega arith in
        let fits : b.position + suc n ≤ b.capacity = omega (arith, e, v.fits, v.within) in
        let c = cut (suc n) b v some_left fits in
        let npos = npos_lem b v in
        let here : b.cur ≡ some v.index =
          v.cursor ∙ pointer-some b.nodes v.index (inside (suc n) b v some_left fits) in
        let loop =
          save_loop-flatten b.base_size v.index (b.position % b.base_size) b.position (suc n)
            (drop v.index b.nodes) (omega (arith, npos, v.lower)) (omega (arith, npos, v.upper))
            small (All-drop _ v.index b.nodes v.blocks)
            (omega (arith, npos, back_room (suc n) b v some_left fits)) (rw e at whole_block)
            some_left in
        rw here (
          loop
          ∙ ap ok (
              ap (take (suc n)) (
                sym (
                  drop-append b.position (b.position % b.base_size) (flatten (take v.index b.nodes))
                    (flatten (drop v.index b.nodes)) (omega (arith, npos, c.front, v.lower)))
                ∙ ap (drop b.position) (sym c.joined))
              ∙ ap (λ k. take k (drop b.position (flatten b.nodes))) (sym e)
              ∙ sym (drop-take b.position b.size (flatten b.nodes))))
