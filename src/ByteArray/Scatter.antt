-- ===== src/ByteArray/Scatter.antt =====
-- `getReadBuffers` and `getWriteBuffers` of dwframe/bytearray.cc: the pieces of blocks that a system call
-- reads from or writes to. An `iovec` is the number of its block, an offset in it and a length.
pub mod Spans
use dwframe.Base.{
  ℕ, suc, ◌+◌, ◌-◌, ◌/◌, ◌%◌, Option, none, some, List, [], ◌∷◌, ◌++◌, length, get_elem?, take,
  drop, ltb, leb, ◌==◌, if◌then◌else◌,
}
use dwframe.ByteArray.{
  ByteArray, Result, ok, fault, ◌>>=◌, blocks_from, get_read_size, add_capacity,
}

pub record Iovec : Type 0 where
  pub block : ℕ
  pub offset : ℕ
  pub len : ℕ

-- The loops over the blocks from number `k` on, for `len` bytes, which are more than none.
unfoldable pub buffers_loop : List (List ℕ) → ℕ → ℕ → ℕ → Result (List Iovec)
buffers_loop [] k npos len = fault
buffers_loop (n ∷ rest) k npos len =
    let ncap = length n - npos in
    let later = buffers_loop rest (suc k) 0 (len - ncap) in
    if leb len ncap
    then ok (record { block = k; offset = npos; len = len } ∷ [])
    else later >>= λ r. ok (record { block = k; offset = npos; len = ncap } ∷ r)

-- The loop from a block on; a null pointer is read through.
unfoldable pub buffers_from : List (List ℕ) → Option ℕ → ℕ → ℕ → Result (List Iovec)
buffers_from nodes none npos len = fault
buffers_from nodes (some k) npos len = buffers_loop (drop k nodes) k npos len

abbrev pub shorter : ℕ → ℕ → ℕ
shorter len left = if ltb left len then left else len

-- `getReadBuffers`: its answer and the pieces.
unfoldable pub get_read_buffers : ℕ → ByteArray → Result (ℕ × List Iovec)
get_read_buffers len b =
    let n = shorter len (get_read_size b) in
    if n == 0
    then ok (0, [])
    else buffers_from b.nodes b.cur (b.position % b.base_size) n >>= λ iovs. ok (n, iovs)

-- The overload with a position, which limits the length by what is left behind `m_position`.
unfoldable pub get_read_buffers_at : ℕ → ℕ → ByteArray → Result (ℕ × List Iovec)
get_read_buffers_at len position b =
    let n = shorter len (get_read_size b) in
    let count = position / b.base_size in
    if n == 0
    then ok (0, [])
    else buffers_from b.nodes (some count) (position % b.base_size) n >>= λ iovs. ok (n, iovs)

-- `getWriteBuffers`: its answer, the pieces and the buffer, which it has enlarged.
unfoldable pub get_write_buffers : ℕ → ByteArray → Result (ℕ × List Iovec × ByteArray)
get_write_buffers len b =
    if len == 0
    then ok (0, [], b)
    else let c = add_capacity len b in
      buffers_from c.nodes c.cur (c.position % c.base_size) len >>= λ iovs. ok (len, iovs, c)

-- The bytes of a piece, and of all in their order, as `writev` takes them.
abbrev pub slice : List (List ℕ) → Iovec → List ℕ
slice nodes v = elim (get_elem? nodes v.block) [ none ↦ [] | some n ↦ take v.len (drop v.offset n) ]

abbrev pub gather : List (List ℕ) → List Iovec → List ℕ
gather nodes [] = []
gather nodes (v ∷ iovs) = slice nodes v ++ gather nodes iovs
