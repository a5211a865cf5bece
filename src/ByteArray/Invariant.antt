-- ===== src/ByteArray/Invariant.antt =====
-- The invariant of the block chain of dwframe/bytearray.cc, the chain cut at its cursor, and growth
-- by `addCapacity`.
use dwframe.Base.{
  ℕ, zero, suc, ◌+◌, ◌-◌, ◌*◌, ◌%◌, ◌≤◌, ◌<◌, ◌≡◌, refl, sym, ap, ◌∙◌, ◌⊎◌, inl, inr, Bool-cases,
  some, List, ◌++◌, flatten, length, take, drop, replicate, leb, ◌==◌, if◌then◌else◌, leb→le,
  leb→lt, arith, length-append, length-take, length-drop, length-replicate, flatten-append,
  take-append-drop, take-append_le, All-append, All-take, All-drop,
}
use dwframe.ByteArray.{ByteArray, pointer, new_node, get_capacity, ceil_div, add_capacity}
use dwframe.ByteArray.Loops.{Blocks, length-flatten}

-- The bytes that a buffer holds, and those that are still to be read.
abbrev pub contents : ByteArray → List ℕ
contents b = take b.size (flatten b.nodes)

abbrev pub unread : ByteArray → List ℕ
unread b = drop b.position (contents b)

-- All blocks have the base size, `m_capacity` is their total, and `m_cur` is the block of
-- `m_position`, null at the very end.
pub record IsValid (b : ByteArray) : Type 0 where
  pub index : ℕ
  pub base_pos : 0 < b.base_size
  pub blocks : Blocks b.base_size b.nodes
  pub has_root : 0 < length b.nodes
  pub total : b.capacity ≡ length b.nodes * b.base_size
  pub cursor : b.cur ≡ pointer b.nodes index
  pub lower : index * b.base_size ≤ b.position
  pub upper : b.position < index * b.base_size + b.base_size
  pub within : b.position ≤ b.size
  pub fits : b.size ≤ b.capacity

pub mod_of_bounds : (q p b : ℕ) → q * b ≤ p → p < q * b + b → p % b ≡ p - q * b
mod_of_bounds q p b lo hi = grind arith

ceil_div_enough : (n d : ℕ) → 0 < d → n ≤ ceil_div n d * d
ceil_div_enough n d h = grind arith

Blocks-replicate : (base k : ℕ) → Blocks base (replicate k (new_node base))
Blocks-replicate base zero = tt
Blocks-replicate base (suc k) = (length-replicate base 0, Blocks-replicate base k)

-- The chain cut before block `i`.
pub record Cut (base i : ℕ) (ns : List (List ℕ)) : Type 0 where
  pub joined : flatten ns ≡ flatten (take i ns) ++ flatten (drop i ns)
  pub front : length (flatten (take i ns)) ≡ i * base
  pub back : length (flatten (drop i ns)) ≡ (length ns - i) * base

chain-Cut : (base i : ℕ) (ns : List (List ℕ)) → Blocks base ns → i ≤ length ns → Cut base i ns
chain-Cut base i ns h le = record {
  joined = ap flatten (sym (take-append-drop i ns)) ∙ flatten-append (take i ns) (drop i ns);
  front =
      length-flatten base (take i ns) (All-take _ i ns h)
      ∙ ap (λ k. k * base) {y = i} (omega (arith, length-take i ns));
  back =
      length-flatten base (drop i ns) (All-drop _ i ns h) ∙ ap (λ k. k * base) (length-drop i ns);
}

index_in_chain :
    (b : ByteArray) (v : IsValid b) → b.position < b.capacity → v.index < length b.nodes
index_in_chain b v h = below v.index (length b.nodes) b.base_size v.lower (rw v.total at h)
  where
    below : (i n d : ℕ) → i * d ≤ b.position → b.position < n * d → i < n
    below i n d lo hi = grind arith

pub pointer-some : (ns : List (List ℕ)) (i : ℕ) → i < length ns → pointer ns i ≡ some i
pointer-some ns i h = ground arith

pub record Grown (n : ℕ) (b c : ByteArray) : Type 0 where
  pub valid : IsValid c
  pub room : c.position + n ≤ c.capacity
  pub same_contents : contents c ≡ contents b
  pub same_position : c.position ≡ b.position
  pub same_size : c.size ≡ b.size
  pub same_base : c.base_size ≡ b.base_size
  pub same_endian : c.endian ≡ b.endian

abbrev pub enlarged : ℕ → ByteArray → ByteArray
enlarged count b = record b {
  nodes = b.nodes ++ replicate count (new_node b.base_size);
  capacity = b.capacity + count * b.base_size;
  cur = if get_capacity b == 0 then some (length b.nodes) else b.cur;
}

add_capacity_cases :
    (n : ℕ) (b : ByteArray)
    → ((add_capacity n b ≡ b) × (n ≤ get_capacity b))
      ⊎ ((add_capacity n b ≡ enlarged (ceil_div (n - get_capacity b) b.base_size) b)
          × (get_capacity b < n))
unfolding add_capacity
add_capacity_cases n b = elim (Bool-cases (n == 0)) [
  | inl z ↦ inl (rw z, ground arith)
  | inr z ↦ elim (Bool-cases (leb n (get_capacity b))) [
    | inl t ↦ inl (rw (z, t), leb→le _ _ t)
    | inr t ↦ inr (rw (z, t), leb→lt _ _ t)
  ]
]

full_index : (i n p d : ℕ) → 0 < d → i * d ≤ p → p < i * d + d → p ≡ n * d → i ≡ n
full_index i n p d pos lo hi e = grind arith

below_full : (i n p d : ℕ) → 0 < d → i * d ≤ p → p < n * d → i < n
below_full i n p d pos lo hi = grind arith

enlarged_cursor :
    (count : ℕ) (b : ByteArray) (v : IsValid b)
    → 0 < count
    → (enlarged count b).cur ≡ pointer (enlarged count b).nodes v.index
enlarged_cursor count b v pos =
    let fresh = replicate count (new_node b.base_size) in
    let longer = length-append b.nodes fresh in
    let more = length-replicate count (new_node b.base_size) in
    elim (Bool-cases (get_capacity b == 0)) [
      | inl full ↦
          let at_end : v.index ≡ length b.nodes =
            full_index v.index (length b.nodes) b.position b.base_size v.base_pos v.lower v.upper
              (ground (arith, v.total, v.fits, v.within)) in
          rw (full, at_end)
            (sym (pointer-some (b.nodes ++ fresh) (length b.nodes) (omega (arith, longer, more))))
      | inr left ↦
          let inside = index_in_chain b v (ground arith) in
          rw left (
            v.cursor
            ∙ pointer-some b.nodes v.index inside
            ∙ sym (pointer-some (b.nodes ++ fresh) v.index (omega (arith, longer, inside))))
    ]

enlarged_total :
    (capacity n m count k d : ℕ)
    → capacity ≡ n * d
    → k ≡ n + m
    → m ≡ count
    → capacity + count * d ≡ k * d
enlarged_total capacity n m count k d p q r = grind arith

count_pos : (n count d : ℕ) → 0 < n → n ≤ count * d → 0 < count
count_pos n count d pos h = grind arith

enlarged-Grown :
    (n : ℕ) (b : ByteArray)
    → IsValid b
    → get_capacity b < n
    → Grown n b (enlarged (ceil_div (n - get_capacity b) b.base_size) b)
enlarged-Grown n b v short =
    let count = ceil_div (n - get_capacity b) b.base_size in
    let fresh = replicate count (new_node b.base_size) in
    let enough = ceil_div_enough (n - get_capacity b) b.base_size v.base_pos in
    let size_of = length-append b.nodes fresh in
    record {
      valid = record {
        index = v.index;
        base_pos = v.base_pos;
        blocks = All-append _ b.nodes fresh v.blocks (Blocks-replicate b.base_size count);
        has_root = omega (arith, size_of, v.has_root);
        total =
            enlarged_total b.capacity (length b.nodes) (length fresh) count
              (length (b.nodes ++ fresh)) b.base_size v.total size_of
              (length-replicate count (new_node b.base_size));
        cursor =
            enlarged_cursor count b v
              (count_pos (n - get_capacity b) count b.base_size (omega arith) enough);
        lower = v.lower;
        upper = v.upper;
        within = v.within;
        fits = omega (arith, v.fits);
      };
      room = omega (arith, v.fits, v.within);
      same_contents =
          ap (take b.size) (flatten-append b.nodes fresh)
          ∙ take-append_le b.size (flatten b.nodes) (flatten fresh)
              (omega (arith, length-flatten b.base_size b.nodes v.blocks, v.fits, v.total));
      same_position = refl;
      same_size = refl;
      same_base = refl;
      same_endian = refl;
    }

pub add_capacity-Grown : (n : ℕ) (b : ByteArray) → IsValid b → Grown n b (add_capacity n b)
add_capacity-Grown n b v = elim (add_capacity_cases n b) [
  | inl (e, h) ↦ rw e (record {
    valid = v;
    room = omega (arith, v.fits, v.within);
    same_contents = refl;
    same_position = refl;
    same_size = refl;
    same_base = refl;
    same_endian = refl;
  })
  | inr (e, h) ↦ rw e (enlarged-Grown n b v h)
]

module _ (c : ByteArray) (v : IsValid c) where
  pub npos_lem : c.position % c.base_size ≡ c.position - v.index * c.base_size
  npos_lem = mod_of_bounds v.index c.position c.base_size v.lower v.upper

  pub whole : length (flatten c.nodes) ≡ c.capacity
  whole = length-flatten c.base_size c.nodes v.blocks ∙ sym v.total

-- `n` bytes from the position on lie in the chain.
module _ (n : ℕ) (c : ByteArray) (v : IsValid c) (pos : 0 < n)
    (room : c.position + n ≤ c.capacity) where
  pub inside : v.index < length c.nodes
  inside = index_in_chain c v (omega arith)

  pub cut : Cut c.base_size v.index c.nodes
  cut = chain-Cut c.base_size v.index c.nodes v.blocks (omega (arith, inside))

  pub back_room : c.position - v.index * c.base_size + n ≤ length (flatten (drop v.index c.nodes))
  back_room = omega (
    arith,
    whole c v,
    ap length cut.joined,
    length-append (flatten (take v.index c.nodes)) (flatten (drop v.index c.nodes)),
    cut.front,
    v.lower,
  )
