-- ===== src/ByteArray.antt =====
-- dwframe/bytearray.h and dwframe/bytearray.cc: the chain of memory blocks, its cursor, and the
-- operations that move bytes. A block is the list of its bytes; `m_root` is the head of `nodes`,
-- and `m_cur` is the number of blocks before the one that it points to, or `none` if it is null.
-- `size_t` is a plain number: the sizes of a buffer stay below 2 ^ 64.
-- The typed reads and writes stand in Fixed, Varint and Text.

pub mod Loops
pub mod Invariant
pub mod Writing
pub mod Reading
pub mod RoundTrip
pub mod Readable
pub mod Fixed
pub mod Varint
pub mod Text
pub mod Scatter
pub mod Files
use dwframe.Base.{
  ℕ, suc, ◌+◌, ◌-◌, ◌*◌, ◌/◌, ◌%◌, ◌^◌, Bool, true, false, Option, none, some, List, [], ◌∷◌, ◌++◌,
  length, take, drop, replicate, overwrite, ltb, leb, ◌==◌, if◌then◌else◌, ◌&&◌,
}

-- A normal return, the exception `std::out_of_range`, or a read through a null pointer.
pub data Result {ℓ} (A : Type ℓ) : Type ℓ where
  ok : A → Result A
  out_of_range : Result A
  fault : Result A

infixl 5 ◌>>=◌
abbrev pub ◌>>=◌ {ℓ κ} : {A : Type ℓ} {B : Type κ} → Result A → (A → Result B) → Result B
ok a >>= f = f a
out_of_range >>= f = out_of_range
fault >>= f = fault

-- The values 1 and 2 of `m_endian`.
pub data Endian : Type 0 where
  little_endian big_endian : Endian

pub record ByteArray : Type 0 where
  pub base_size : ℕ
  pub position : ℕ
  pub capacity : ℕ
  pub size : ℕ
  pub endian : Endian
  pub nodes : List (List ℕ)
  pub cur : Option ℕ

-- What `new char[s]` holds is not specified; here it is zeros.
abbrev pub new_node : ℕ → List ℕ
new_node s = replicate s 0

unfoldable pub new_byte_array : ℕ → ByteArray
new_byte_array base_size = record {
  base_size = base_size;
  position = 0;
  capacity = base_size;
  size = 0;
  endian = big_endian;
  nodes = new_node base_size ∷ [];
  cur = some 0;
}

-- The pointer to block `k` of the chain: null behind the last.
abbrev pub pointer : List (List ℕ) → ℕ → Option ℕ
pointer ns k = if ltb k (length ns) then some k else none

-- The blocks from a pointer on, and those before it.
abbrev pub blocks_from : List (List ℕ) → Option ℕ → List (List ℕ)
blocks_from ns none = []
blocks_from ns (some k) = drop k ns

abbrev pub blocks_before : List (List ℕ) → Option ℕ → List (List ℕ)
blocks_before ns none = ns
blocks_before ns (some k) = take k ns

-- `moved` steps along `next`.
abbrev pub advance : List (List ℕ) → Option ℕ → ℕ → Option ℕ
advance ns none moved = none
advance ns (some k) moved = pointer ns (k + moved)

abbrev pub get_read_size : ByteArray → ℕ
get_read_size b = b.size - b.position

abbrev pub get_capacity : ByteArray → ℕ
get_capacity b = b.capacity - b.position

unfoldable pub clear : ByteArray → ByteArray
clear b = record b {
  position = 0;
  size = 0;
  capacity = b.base_size;
  nodes = take 1 b.nodes;
  cur = some 0;
}

-- `ceil(1.0 * size / m_baseSize)`.
abbrev pub ceil_div : ℕ → ℕ → ℕ
ceil_div n d = (n + (d - 1)) / d

unfoldable pub add_capacity : ℕ → ByteArray → ByteArray
add_capacity n b =
    if n == 0
    then b
    else if leb n (get_capacity b)
    then b
    else let count = ceil_div (n - get_capacity b) b.base_size in
      record b {
        nodes = b.nodes ++ replicate count (new_node b.base_size);
        capacity = b.capacity + count * b.base_size;
        cur = if get_capacity b == 0 then some (length b.nodes) else b.cur;
      }

-- The loop of `write` over the blocks from `m_cur` on: the blocks after it, and how far it moved.
unfoldable pub write_loop : List (List ℕ) → ℕ → List ℕ → Result (List (List ℕ) × ℕ)
write_loop [] npos buf = fault
write_loop (n ∷ rest) npos buf =
    let ncap = length n - npos in
    let later = write_loop rest 0 (drop ncap buf) in
    if leb (length buf) ncap
    then ok (overwrite npos buf n ∷ rest, if length n == npos + length buf then 1 else 0)
    else later >>= λ r. ok (overwrite npos (take ncap buf) n ∷ r.0, suc r.1)

unfoldable pub write : List ℕ → ByteArray → Result ByteArray
write buf b =
    if length buf == 0
    then ok b
    else let c = add_capacity (length buf) b in
      write_loop (blocks_from c.nodes c.cur) (c.position % c.base_size) buf >>= λ r.
      let pos = c.position + length buf in
      ok (record c {
        nodes = blocks_before c.nodes c.cur ++ r.0;
        cur = advance c.nodes c.cur r.1;
        position = pos;
        size = if ltb c.size pos then pos else c.size;
      })

-- The loop of `read` over the blocks from `m_cur` on: the bytes, and how far it moved.
unfoldable pub read_loop : List (List ℕ) → ℕ → ℕ → Result (List ℕ × ℕ)
read_loop [] npos size = fault
read_loop (n ∷ rest) npos size =
    let ncap = length n - npos in
    let later = read_loop rest 0 (size - ncap) in
    if size == 0
    then ok ([], 0)
    else if leb size ncap
    then ok (take size (drop npos n), if length n == npos + size then 1 else 0)
    else later >>= λ r. ok (drop npos n ++ r.0, suc r.1)

unfoldable pub read : ℕ → ByteArray → Result (List ℕ × ByteArray)
read size b =
    if ltb (get_read_size b) size
    then out_of_range
    else read_loop (blocks_from b.nodes b.cur) (b.position % b.base_size) size >>= λ r.
        ok (r.0, record b { position = b.position + size; cur = advance b.nodes b.cur r.1 })

-- The `const` overload starts from `m_cur` whatever `position` is; `m_size - position` wraps.
unfoldable pub read_at : ℕ → ℕ → ByteArray → Result (List ℕ)
read_at size position b =
    if ltb ((b.size + 2 ^ 64 - position) % 2 ^ 64) size
    then out_of_range
    else read_loop (blocks_from b.nodes b.cur) (position % b.base_size) size >>= λ r. ok r.0

-- `m_cur = m_root; while(v > m_cur->size) ...`
unfoldable pub seek : List (List ℕ) → ℕ → Result ℕ
seek [] v = fault
seek (n ∷ rest) v =
    let later = seek rest (v - length n) in
    if ltb (length n) v then (later >>= λ k. ok (suc k)) else ok (if v == length n then 1 else 0)

unfoldable pub set_position : ℕ → ByteArray → Result ByteArray
set_position v b =
    if ltb b.capacity v
    then out_of_range
    else seek b.nodes v >>= λ k. ok (record b {
      position = v;
      size = if ltb b.size v then v else b.size;
      cur = pointer b.nodes k;
    })

unfoldable pub is_little_endian : ByteArray → Bool
is_little_endian b = elim b.endian [ little_endian ↦ true | big_endian ↦ false ]

unfoldable pub set_is_little_endian : Bool → ByteArray → ByteArray
set_is_little_endian val b = record b { endian = if val then little_endian else big_endian }

unfoldable pub to_string : ByteArray → Result (List ℕ)
to_string b = if get_read_size b == 0 then ok [] else read_at (get_read_size b) b.position b

-- A digit of `std::hex`.
abbrev hex_digit : ℕ → ℕ
hex_digit d = if ltb d 10 then b'0' + d else b'a' + (d - 10)

-- `std::endl` is one newline character.
unfoldable pub hex_from : ℕ → List ℕ → List ℕ
hex_from i [] = []
hex_from i (c ∷ cs) =
    (if ltb 0 i && i % 32 == 0 then 10 ∷ [] else [])
    ++ (hex_digit (c / 16) ∷ hex_digit (c % 16) ∷ b' ' ∷ hex_from (i + 1) cs)

unfoldable pub to_hex_string : ByteArray → Result (List ℕ)
to_hex_string b = to_string b >>= λ s. ok (hex_from 0 s)
