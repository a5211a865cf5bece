-- ===== src/ByteArray/Loops.antt =====
-- What the block loops of dwframe/bytearray.cc do to the bytes that the blocks hold end to end.
use dwframe.Base.{
  ℕ, suc, ◌+◌, ◌-◌, ◌*◌, ◌≤◌, ◌<◌, ◌≡◌, refl, sym, ap, ◌∙◌, inl, inr, Bool-cases, true, false, List,
  [], ◌∷◌, ◌++◌, flatten, length, take, drop, overwrite, All, leb, ltb, ◌==◌, if◌then◌else◌, leb→le,
  leb→lt, ltb→lt, arith, length-append, length-take, length-drop, length-overwrite,
  overwrite-append, overwrite_split, take-append, take-append_le, drop-append_le,
}
use dwframe.ByteArray.{ok, write_loop, read_loop, seek}

abbrev pub Blocks : ℕ → List (List ℕ) → Type 0
Blocks base ns = All (λ n. length n ≡ base) ns

pub length-flatten :
    (base : ℕ) (ns : List (List ℕ)) → Blocks base ns → length (flatten ns) ≡ length ns * base
unfolding flatten
length-flatten base [] h = omega arith
length-flatten base (n ∷ ns) h =
    omega (arith, length-append n (flatten ns), length-flatten base ns h.1)

pub record Written (base npos : ℕ) (buf : List ℕ) (back : List (List ℕ)) : Type 0 where
  pub nodes : List (List ℕ)
  pub moved : ℕ
  pub returns : write_loop back npos buf ≡ ok (nodes, moved)
  pub bytes : flatten nodes ≡ overwrite npos buf (flatten back)
  pub blocks : Blocks base nodes
  pub count : length nodes ≡ length back
  pub lower : moved * base ≤ npos + length buf
  pub upper : npos + length buf < moved * base + base

-- The copy ends in its first block.
write_last :
    (base npos : ℕ) (buf n : List ℕ) (rest : List (List ℕ))
    → npos < base
    → length n ≡ base
    → Blocks base rest
    → leb (length buf) (length n - npos) ≡ true
    → Written base npos buf (n ∷ rest)
unfolding write_loop flatten
write_last base npos buf n rest lt len h t = record {
  nodes = overwrite npos buf n ∷ rest;
  moved = if length n == npos + length buf then 1 else 0;
  returns = rw t;
  bytes = sym (overwrite-append npos buf n (flatten rest) (omega (arith, leb→le)));
  blocks = (length-overwrite npos buf n (omega (arith, leb→le)) ∙ len, h);
  count = refl;
  lower = ground arith;
  upper = ground arith;
}

write_more :
    (base npos : ℕ) (buf n : List ℕ) (rest : List (List ℕ))
    → npos < base
    → length n ≡ base
    → leb (length buf) (length n - npos) ≡ false
    → Written base 0 (drop (length n - npos) buf) rest
    → Written base npos buf (n ∷ rest)
unfolding write_loop flatten
write_more base npos buf n rest lt len t w =
    let c = length n - npos in
    let cut = length-drop c buf in
    let first = length-take c buf in
    record {
      nodes = overwrite npos (take c buf) n ∷ w.nodes;
      moved = suc w.moved;
      returns = rw (t, w.returns);
      bytes =
          ap (◌++◌ (overwrite npos (take c buf) n)) w.bytes
          ∙ sym (overwrite_split npos c buf n (flatten rest) (omega arith) (omega (arith, leb→lt)));
      blocks = (length-overwrite npos (take c buf) n (omega (arith, first)) ∙ len, w.blocks);
      count = ap suc w.count;
      lower = omega (arith, leb→lt, w.lower);
      upper = omega (arith, leb→lt, w.upper);
    }

pub write_loop-Written :
    (base npos : ℕ) (buf : List ℕ) (back : List (List ℕ))
    → npos < base
    → Blocks base back
    → 0 < length buf
    → npos + length buf ≤ length (flatten back)
    → Written base npos buf back
write_loop-Written base npos buf [] lt h pos room = absurd (unfold flatten in omega arith)
write_loop-Written base npos buf (n ∷ rest) lt h pos room =
    elim (Bool-cases (leb (length buf) (length n - npos))) [
      | inl t ↦ write_last base npos buf n rest lt h.0 h.1 t
      | inr t ↦ write_more base npos buf n rest lt h.0 t (
          write_loop-Written base 0 (drop (length n - npos) buf) rest (omega arith) h.1
            (omega (arith, leb→lt, length-drop (length n - npos) buf))
            (unfold flatten in
              omega
                (arith, leb→lt, length-drop (length n - npos) buf, length-append n (flatten rest))))
    ]

pub record Obtained (base npos size : ℕ) (back : List (List ℕ)) : Type 0 where
  pub bytes : List ℕ
  pub moved : ℕ
  pub returns : read_loop back npos size ≡ ok (bytes, moved)
  pub content : bytes ≡ take size (drop npos (flatten back))
  pub lower : moved * base ≤ npos + size
  pub upper : npos + size < moved * base + base

read_last :
    (base npos size : ℕ) (n : List ℕ) (rest : List (List ℕ))
    → npos < base
    → length n ≡ base
    → 0 < size
    → leb size (length n - npos) ≡ true
    → Obtained base npos size (n ∷ rest)
unfolding read_loop flatten
read_last base npos size n rest lt len pos t = record {
  bytes = take size (drop npos n);
  moved = if length n == npos + size then 1 else 0;
  returns = ground arith;
  content = sym (
      ap (take size) (drop-append_le npos n (flatten rest) (omega arith))
      ∙ take-append_le size (drop npos n) (flatten rest)
          (omega (arith, leb→le, length-drop npos n)));
  lower = ground arith;
  upper = ground arith;
}

read_more :
    (base npos size : ℕ) (n : List ℕ) (rest : List (List ℕ))
    → npos < base
    → length n ≡ base
    → leb size (length n - npos) ≡ false
    → Obtained base 0 (size - (length n - npos)) rest
    → Obtained base npos size (n ∷ rest)
unfolding read_loop flatten
read_more base npos size n rest lt len t o = record {
  bytes = drop npos n ++ o.bytes;
  moved = suc o.moved;
  returns = ground (arith, o.returns);
  content =
      ap (◌++◌ (drop npos n)) o.content
      ∙ sym (
          ap (take size) (drop-append_le npos n (flatten rest) (omega arith))
          ∙ take-append size (drop npos n) (flatten rest)
              (omega (arith, leb→lt, length-drop npos n))
          ∙ ap (λ k. drop npos n ++ take k (flatten rest))
              (ap (λ k. size - k) (length-drop npos n)));
  lower = omega (arith, leb→lt, o.lower);
  upper = omega (arith, leb→lt, o.upper);
}

pub read_loop-Obtained :
    (base npos size : ℕ) (back : List (List ℕ))
    → npos < base
    → Blocks base back
    → 0 < size
    → npos + size ≤ length (flatten back)
    → Obtained base npos size back
read_loop-Obtained base npos size [] lt h pos room = absurd (unfold flatten in omega arith)
read_loop-Obtained base npos size (n ∷ rest) lt h pos room =
    elim (Bool-cases (leb size (length n - npos))) [
      | inl t ↦ read_last base npos size n rest lt h.0 pos t
      | inr t ↦ read_more base npos size n rest lt h.0 t (
          read_loop-Obtained base 0 (size - (length n - npos)) rest (omega arith) h.1
            (omega (arith, leb→lt))
            (unfold flatten in omega (arith, leb→lt, length-append n (flatten rest))))
    ]

-- `seek` finds the block of position `v`, and null for the end of the last block.
pub record Sought (base v : ℕ) (ns : List (List ℕ)) : Type 0 where
  pub moved : ℕ
  pub returns : seek ns v ≡ ok moved
  pub lower : moved * base ≤ v
  pub upper : v < moved * base + base

seek_here :
    (base v : ℕ) (n : List ℕ) (ns : List (List ℕ))
    → 0 < base
    → length n ≡ base
    → ltb (length n) v ≡ false
    → Sought base v (n ∷ ns)
unfolding seek
seek_here base v n ns pos len t = record {
  moved = if v == length n then 1 else 0;
  returns = rw t;
  lower = ground arith;
  upper = ground arith;
}

pub seek-Sought :
    (base v : ℕ) (n : List ℕ) (ns : List (List ℕ))
    → 0 < base
    → Blocks base (n ∷ ns)
    → v ≤ length (flatten (n ∷ ns))
    → Sought base v (n ∷ ns)
unfolding seek flatten
seek-Sought base v n [] pos h room =
    seek_here base v n [] pos h.0 (ground (arith, length-append n []))
seek-Sought base v n (m ∷ ns) pos h room = elim (Bool-cases (ltb (length n) v)) [
  | inl t ↦
      let ih =
        seek-Sought base (v - length n) m ns pos h.1
          (omega (arith, length-append n (flatten (m ∷ ns)))) in
      record {
        moved = suc ih.moved;
        returns = rw (t, ih.returns);
        lower = omega (arith, ltb→lt, ih.lower, h.0);
        upper = omega (arith, ltb→lt, ih.upper, h.0);
      }
  | inr t ↦ seek_here base v n (m ∷ ns) pos h.0 t
]
