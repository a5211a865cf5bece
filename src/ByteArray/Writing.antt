-- ===== src/ByteArray/Writing.antt =====
-- What `write` of dwframe/bytearray.cc does to the bytes that a buffer holds.
use dwframe.Base.{
  [], ◌∷◌, overwrite_none, ◌==◌, false, refl, ℕ, ◌+◌, ◌*◌, ◌%◌, ◌≤◌, ◌<◌, ◌≡◌, sym, ap, ◌∙◌, none,
  some, List, ◌++◌, flatten, length, take, drop, overwrite, ltb, if◌then◌else◌, arith, max,
  length-append, length-take, length-drop, flatten-append, All-append, All-take, All-drop,
  overwrite_front, take-overwrite,
}
use dwframe.ByteArray.{add_capacity, write, ByteArray, ok, pointer, write}
use dwframe.ByteArray.Loops.{Written, write_loop-Written}
use dwframe.ByteArray.Invariant.{
  npos_lem, inside, cut, whole, back_room, add_capacity-Grown, pointer-some, IsValid, contents,
}

-- What `write` promises of its result.
pub record Wrote (buf : List ℕ) (b : ByteArray) : Type 0 where
  pub result : ByteArray
  pub returns : write buf b ≡ ok result
  pub valid : IsValid result
  pub new_contents : contents result ≡ overwrite b.position buf (contents b)
  pub new_position : result.position ≡ b.position + length buf
  pub same_base : result.base_size ≡ b.base_size
  pub same_endian : result.endian ≡ b.endian

-- The buffer that `write` leaves, over what `write_loop` returned.
abbrev rewritten : List ℕ → ByteArray → ℕ → List (List ℕ) → ℕ → ByteArray
rewritten buf c i ns moved =
    let pos = c.position + length buf in
    record c {
      nodes = take i c.nodes ++ ns;
      cur = pointer c.nodes (i + moved);
      position = pos;
      size = if ltb c.size pos then pos else c.size;
    }

new_size : (s p : ℕ) → (if ltb s p then p else s) ≡ max s p
new_size s p = ground arith

module _ (buf : List ℕ) (c : ByteArray) (v : IsValid c) (pos : 0 < length buf)
    (room : c.position + length buf ≤ c.capacity) where
  wrote : Written c.base_size (c.position % c.base_size) buf (drop v.index c.nodes)
  wrote =
      write_loop-Written c.base_size (c.position % c.base_size) buf (drop v.index c.nodes)
        (omega (arith, npos_lem c v, v.upper, v.base_pos)) (All-drop _ v.index c.nodes v.blocks) pos
        (omega (arith, npos_lem c v, back_room (length buf) c v pos room))

  chain_length : length (take v.index c.nodes ++ wrote.nodes) ≡ length c.nodes
  chain_length = omega (
    arith,
    length-append (take v.index c.nodes) wrote.nodes,
    length-take v.index c.nodes,
    length-drop v.index c.nodes,
    wrote.count,
    inside (length buf) c v pos room,
  )

  new_bytes :
      flatten (take v.index c.nodes ++ wrote.nodes) ≡ overwrite c.position buf (flatten c.nodes)
  new_bytes =
      flatten-append (take v.index c.nodes) wrote.nodes
      ∙ ap (◌++◌ (flatten (take v.index c.nodes))) wrote.bytes
      ∙ sym (
          overwrite_front c.position (c.position % c.base_size) buf (flatten (take v.index c.nodes))
            (flatten (drop v.index c.nodes))
            (omega (arith, npos_lem c v, (cut (length buf) c v pos room).front, v.lower)))
      ∙ ap (overwrite c.position buf) (sym (cut (length buf) c v pos room).joined)

  rewritten-IsValid : IsValid (rewritten buf c v.index wrote.nodes wrote.moved)
  rewritten-IsValid = record {
    index = v.index + wrote.moved;
    base_pos = v.base_pos;
    blocks =
        All-append _ (take v.index c.nodes) wrote.nodes (All-take _ v.index c.nodes v.blocks)
          wrote.blocks;
    has_root = omega (arith, chain_length, v.has_root);
    total = v.total ∙ ap (λ k. k * c.base_size) (sym chain_length);
    cursor =
        ap (λ n. if ltb (v.index + wrote.moved) n then some (v.index + wrote.moved) else none)
          (sym chain_length);
    lower = omega (arith, npos_lem c v, wrote.lower, v.lower);
    upper = omega (arith, npos_lem c v, wrote.upper, v.lower);
    within = omega (arith, new_size c.size (c.position + length buf));
    fits = omega (arith, new_size c.size (c.position + length buf), v.fits);
  }

  rewritten-contents :
      contents (rewritten buf c v.index wrote.nodes wrote.moved)
      ≡ overwrite c.position buf (contents c)
  rewritten-contents =
      rw (new_size c.size (c.position + length buf), new_bytes)
        (take-overwrite c.position c.size buf (flatten c.nodes) v.within
          (omega (arith, whole c v, v.fits)) (omega (arith, whole c v)))

write_some : (buf : List ℕ) (b : ByteArray) → 0 < length buf → IsValid b → Wrote buf b
unfolding write
write_some buf b pos v =
    let c = add_capacity (length buf) b in
    let g = add_capacity-Grown (length buf) b v in
    let w = wrote buf c g.valid pos g.room in
    let nonempty : (length buf == 0) ≡ false = ground arith in
    let here : c.cur ≡ some g.valid.index =
      g.valid.cursor
      ∙ pointer-some c.nodes g.valid.index (inside (length buf) c g.valid pos g.room) in
    record {
      result = rewritten buf c g.valid.index w.nodes w.moved;
      returns = rw (nonempty, here, w.returns);
      valid = rewritten-IsValid buf c g.valid pos g.room;
      new_contents =
          rewritten-contents buf c g.valid pos g.room ∙ rw (g.same_position, g.same_contents);
      new_position = ap (λ p. p + length buf) g.same_position;
      same_base = g.same_base;
      same_endian = g.same_endian;
    }

-- On a valid buffer `write` returns normally for any bytes: it grows the chain as far as needed,
-- leaves a valid buffer, and puts the bytes at the position of the old content, which it extends
-- if they run over its end.
pub write-Wrote : (buf : List ℕ) (b : ByteArray) → IsValid b → Wrote buf b
unfolding write
write-Wrote [] b v = record {
  result = b;
  returns = refl;
  valid = v;
  new_contents = sym (overwrite_none b.position (contents b));
  new_position = omega arith;
  same_base = refl;
  same_endian = refl;
}
write-Wrote (x ∷ xs) b v = write_some (x ∷ xs) b (omega arith) v
