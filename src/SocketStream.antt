-- ===== src/SocketStream.antt =====
-- dwframe/socket_stream.h and dwframe/socket_stream.cc: a Stream on a socket. The socket is a parameter:
-- whether it is connected, and what `recv`, `send` and `close` do. The calls with pieces of a buffer
-- read into them, and write from them, in their order.
pub mod Sending
pub mod Filling
pub mod Receiving
use dwframe.Base.{
  ℕ, zero, suc, ◌+◌, Bool, Option, none, some, List, [], ◌∷◌, if◌then◌else◌, length, get_elem?, set,
  take, drop, overwrite,
}
use dwframe.ByteArray.{ByteArray, Result, ok, ◌>>=◌, set_position}
use dwframe.ByteArray.Scatter.{Iovec, get_read_buffers, get_write_buffers, gather}
use dwframe.Stream.{Input, got, failed, Output, put, refused}

-- The bytes of a piece in its block, and of all pieces in their order, as `readv` puts them.
abbrev pub fill : List (List ℕ) → Iovec → List ℕ → List (List ℕ)
fill nodes v bytes = elim (get_elem? nodes v.block) [
  | none ↦ nodes
  | some n ↦ set nodes v.block (overwrite v.offset (take v.len bytes) n)
]

abbrev pub scatter : List (List ℕ) → List Iovec → List ℕ → List (List ℕ)
scatter nodes [] bytes = nodes
scatter nodes (v ∷ iovs) bytes = scatter (fill nodes v bytes) iovs (drop v.len bytes)

-- The position after a call that has moved a number of bytes.
unfoldable pub moved_by {ℓ} :
    {S : Type ℓ} → Output → S → ByteArray → Result (Output × ByteArray × S)
moved_by refused t b = ok (refused, b, t)
moved_by (put zero) t b = ok (put 0, b, t)
moved_by (put (suc k)) t b = set_position (b.position + suc k) b >>= λ c. ok (put (suc k), c, t)

-- What `recv` into pieces does to the blocks, and the number of bytes.
unfoldable pub received_in : Input → List Iovec → ByteArray → Output × ByteArray
received_in failed iovs b = (refused, b)
received_in (got bytes) iovs b =
    (put (length bytes), record b { nodes = scatter b.nodes iovs bytes })

module _ {ℓ} {S : Type ℓ} (is_connected : S → Bool) (recv : ℕ → S → Input × S) where
  -- `read` into memory.
  unfoldable pub read : ℕ → S → Input × S
  read length s = if is_connected s then recv length s else (failed, s)

  -- `read` into a ByteArray.
  unfoldable pub read_byte_array : ℕ → ByteArray → S → Result (Output × ByteArray × S)
  read_byte_array len b s =
      if is_connected s
      then get_write_buffers len b
        >>= (λ r. let (o, c) = received_in (recv r.0 s).0 r.1 r.2 in moved_by o (recv r.0 s).1 c)
      else ok (refused, b, s)

module _ {ℓ} {S : Type ℓ} (is_connected : S → Bool) (send : List ℕ → S → Output × S) where
  -- `write` from memory.
  unfoldable pub write : List ℕ → S → Output × S
  write bytes s = if is_connected s then send bytes s else (refused, s)

  -- `write` from a ByteArray.
  unfoldable pub write_byte_array : ℕ → ByteArray → S → Result (Output × ByteArray × S)
  write_byte_array len b s =
      if is_connected s
      then get_read_buffers len b
        >>= (λ r. moved_by (send (gather b.nodes r.1) s).0 (send (gather b.nodes r.1) s).1 b)
      else ok (refused, b, s)
