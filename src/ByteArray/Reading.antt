-- ===== src/ByteArray/Reading.antt =====
-- What `read`, `setPosition` and `clear` of dwframe/bytearray.cc do to the bytes of a buffer.
use dwframe.Base.{
  ℕ, ◌+◌, ◌-◌, ◌*◌, ◌%◌, ◌^◌, ◌≤◌, ◌<◌, ◌≡◌, refl, sym, ap, ◌∙◌, inl, inr, Bool-cases, false, none,
  some, List, [], ◌∷◌, flatten, length, take, drop, ltb, ◌==◌, if◌then◌else◌, arith, max, All-drop,
  All-take, drop_all, length-take, length-drop, drop-append, drop-take, take-take, take_all,
  length-replicate,
}
use dwframe.ByteArray.{
  ByteArray, ok, out_of_range, fault, pointer, get_read_size, new_byte_array, read, set_position,
  clear, read_loop, read_at, to_string,
}
use dwframe.ByteArray.Loops.{
  Blocks, Obtained, read_loop-Obtained, seek-Sought, Sought, length-flatten,
}
use dwframe.ByteArray.Invariant.{
  IsValid, contents, unread, npos_lem, inside, cut, back_room, pointer-some,
}

-- What `read` promises.
pub record Fetched (size : ℕ) (b : ByteArray) : Type 0 where
  pub bytes : List ℕ
  pub result : ByteArray
  pub returns : read size b ≡ ok (bytes, result)
  pub next_bytes : bytes ≡ take size (unread b)
  pub valid : IsValid result
  pub same_contents : contents result ≡ contents b
  pub new_position : result.position ≡ b.position + size
  pub same_size : result.size ≡ b.size
  pub same_base : result.base_size ≡ b.base_size
  pub same_endian : result.endian ≡ b.endian

module _ (size : ℕ) (b : ByteArray) (v : IsValid b) (pos : 0 < size)
    (enough : size ≤ get_read_size b) where
  room : b.position + size ≤ b.capacity
  room = omega (arith, v.fits, v.within)

  obtained : Obtained b.base_size (b.position % b.base_size) size (drop v.index b.nodes)
  obtained =
      read_loop-Obtained b.base_size (b.position % b.base_size) size (drop v.index b.nodes)
        (omega (arith, npos_lem b v, v.upper, v.base_pos)) (All-drop _ v.index b.nodes v.blocks) pos
        (omega (arith, npos_lem b v, back_room size b v pos room))

  obtained-unread : obtained.bytes ≡ take size (unread b)
  obtained-unread =
      obtained.content
      ∙ ap (take size) (
          sym (
            drop-append b.position (b.position % b.base_size) (flatten (take v.index b.nodes))
              (flatten (drop v.index b.nodes))
              (omega (arith, npos_lem b v, (cut size b v pos room).front, v.lower)))
          ∙ ap (drop b.position) (sym (cut size b v pos room).joined))
      ∙ sym (take-take size (b.size - b.position) (drop b.position (flatten b.nodes)) enough)
      ∙ ap (take size) (sym (drop-take b.position b.size (flatten b.nodes)))

  -- On a valid buffer, a read of at least one byte and no more than are left gives the next bytes
  -- of the content and moves the position behind them; the content stays, and the buffer stays
  -- valid.
  pub read-Fetched : Fetched size b
  unfolding read
  read-Fetched =
      let o = obtained in
      let here : b.cur ≡ some v.index =
        v.cursor ∙ pointer-some b.nodes v.index (inside size b v pos room) in
      let allowed : ltb (get_read_size b) size ≡ false = ground arith in
      record {
        bytes = o.bytes;
        result = record b {
          position = b.position + size;
          cur = pointer b.nodes (v.index + o.moved);
        };
        returns = rw (allowed, here, o.returns);
        next_bytes = obtained-unread;
        valid = record {
          index = v.index + o.moved;
          base_pos = v.base_pos;
          blocks = v.blocks;
          has_root = v.has_root;
          total = v.total;
          cursor = refl;
          lower = omega (arith, npos_lem b v, o.lower, v.lower);
          upper = omega (arith, npos_lem b v, o.upper, v.lower);
          within = omega arith;
          fits = v.fits;
        };
        same_contents = refl;
        new_position = refl;
        same_size = refl;
        same_base = refl;
        same_endian = refl;
      }

-- A read of more bytes than are left throws, whatever the buffer.
read_beyond : (size : ℕ) (b : ByteArray) → get_read_size b < size → read size b ≡ out_of_range
unfolding read
read_beyond size b h = ground arith

-- The cursor of a valid buffer whose position is its capacity is null.
cursor_at_end : (b : ByteArray) (v : IsValid b) → b.position ≡ b.capacity → b.cur ≡ none
cursor_at_end b v e =
    let at_end : length b.nodes ≤ v.index =
      beyond v.index (length b.nodes) b.base_size (omega (arith, v.upper, v.total)) in
    v.cursor ∙ (ground arith)
  where
    beyond : (i n d : ℕ) → n * d < i * d + d → n ≤ i
    beyond i n d h = grind arith

-- On a valid buffer whose position is its capacity, a read of no bytes goes through the null
-- cursor.
read_none_at_end : (b : ByteArray) → IsValid b → b.position ≡ b.capacity → read 0 b ≡ fault
unfolding read read_loop
read_none_at_end b v e =
    let allowed : ltb (get_read_size b) 0 ≡ false = ground arith in
    rw (allowed, cursor_at_end b v e)

-- What `setPosition` promises of its result.
pub record Positioned (p : ℕ) (b : ByteArray) : Type 0 where
  pub result : ByteArray
  pub returns : set_position p b ≡ ok result
  pub valid : IsValid result
  pub new_position : result.position ≡ p
  pub new_contents : contents result ≡ take (max b.size p) (flatten b.nodes)
  pub same_base : result.base_size ≡ b.base_size
  pub same_endian : result.endian ≡ b.endian

new_size : (s p : ℕ) → (if ltb s p then p else s) ≡ max s p
new_size s p = ground arith

seek_valid : (p : ℕ) (b : ByteArray) → IsValid b → p ≤ b.capacity → Sought b.base_size p b.nodes
seek_valid p b v h =
    go b.nodes v.blocks v.has_root
      (omega (arith, v.total, length-flatten b.base_size b.nodes v.blocks))
  where
    go :
        (ns : List (List ℕ))
        → Blocks b.base_size ns
        → 0 < length ns
        → p ≤ length (flatten ns)
        → Sought b.base_size p ns
    go [] h pos le = absurd (omega arith)
    go (n ∷ ns) h pos le = seek-Sought b.base_size p n ns v.base_pos h le

-- On a valid buffer `setPosition` accepts any position up to the capacity and leaves a valid
-- buffer; one behind the content makes what the blocks hold up to it part of the content.
pub set_position-Positioned : (p : ℕ) (b : ByteArray) → IsValid b → p ≤ b.capacity → Positioned p b
unfolding set_position
set_position-Positioned p b v h =
    let s = seek_valid p b v h in
    let allowed : ltb b.capacity p ≡ false = ground arith in
    record {
      result = record b {
        position = p;
        size = if ltb b.size p then p else b.size;
        cur = pointer b.nodes s.moved;
      };
      returns = rw (allowed, s.returns);
      valid = record {
        index = s.moved;
        base_pos = v.base_pos;
        blocks = v.blocks;
        has_root = v.has_root;
        total = v.total;
        cursor = refl;
        lower = s.lower;
        upper = s.upper;
        within = omega (arith, new_size b.size p);
        fits = omega (arith, new_size b.size p, v.fits);
      };
      new_position = refl;
      new_contents = ap (λ k. take k (flatten b.nodes)) (new_size b.size p);
      same_base = refl;
      same_endian = refl;
    }

set_position_beyond : (p : ℕ) (b : ByteArray) → b.capacity < p → set_position p b ≡ out_of_range
unfolding set_position
set_position_beyond p b h = ground arith

-- A new buffer is valid and empty.
new_byte_array-IsValid : (base : ℕ) → 0 < base → IsValid (new_byte_array base)
unfolding new_byte_array
new_byte_array-IsValid base pos = record {
  index = 0;
  base_pos = pos;
  blocks = (length-replicate base 0, tt);
  has_root = omega arith;
  total = omega arith;
  cursor = refl;
  lower = omega arith;
  upper = omega arith;
  within = omega arith;
  fits = omega arith;
}

-- `clear` of a valid buffer leaves the root block alone: the buffer is valid and empty, at
-- position 0, with the capacity of one block.
clear-IsValid :
    (b : ByteArray)
    → IsValid b
    → IsValid (clear b)
      × (contents (clear b) ≡ [])
      × ((clear b).position ≡ 0)
      × ((clear b).capacity ≡ b.base_size)
unfolding clear
clear-IsValid b v =
    let one : length (take 1 b.nodes) ≡ 1 = omega (arith, length-take 1 b.nodes, v.has_root) in
    (
      record {
        index = 0;
        base_pos = v.base_pos;
        blocks = All-take _ 1 b.nodes v.blocks;
        has_root = omega (arith, one);
        total = omega (arith, ap (λ (k : ℕ). k * b.base_size) one);
        cursor = sym (pointer-some (take 1 b.nodes) 0 (omega (arith, one)));
        lower = omega arith;
        upper = omega (arith, v.base_pos);
        within = omega arith;
        fits = omega arith;
      },
      refl,
      refl,
      refl,
    )

-- On a valid buffer of less than 2 ^ 64 bytes, `toString` gives the bytes that are still to be
-- read.
to_string-unread : (b : ByteArray) → IsValid b → b.size < 2 ^ 64 → to_string b ≡ ok (unread b)
unfolding to_string read_at
to_string-unread b v bound = elim (Bool-cases (get_read_size b == 0)) [
  | inl done ↦ rw done (
      ap ok (
        sym (
          drop_all b.position (contents b) (ground (arith, length-take b.size (flatten b.nodes))))))
  | inr more ↦
      let left : 0 < get_read_size b = ground arith in
      let o = obtained (get_read_size b) b v left (omega arith) in
      let here : b.cur ≡ some v.index =
        v.cursor
        ∙ pointer-some b.nodes v.index
            (inside (get_read_size b) b v left (room (get_read_size b) b v left (omega arith))) in
      let all : take (get_read_size b) (unread b) ≡ unread b =
        take_all (get_read_size b) (unread b) (
          omega
            (arith, length-drop b.position (contents b), length-take b.size (flatten b.nodes))) in
      let allowed : ltb ((b.size + 2 ^ 64 - b.position) % 2 ^ 64) (get_read_size b) ≡ false =
        ground arith in
      rw (more, allowed, here, o.returns)
        (ap ok (obtained-unread (get_read_size b) b v left (omega arith) ∙ all))
]
