-- ===== src/SocketStream/Receiving.antt =====
-- Where the bytes go that dwframe/socket_stream.cc receives into a ByteArray.
use dwframe.Base.{ℕ, ◌+◌, ◌≡◌, Bool, List, ◌++◌, flatten, length, take, max, overwrite}
use dwframe.ByteArray.{ByteArray, ok}
use dwframe.ByteArray.Invariant.{IsValid, contents}
use dwframe.Stream.{Output, put, refused}
use dwframe.Stream.Transfer.{Feeds}
use dwframe.SocketStream.{read_byte_array}

-- A buffer after bytes were put into pieces of it: valid, with the bytes at the position.
record Scattered (bytes : List ℕ) (c d : ByteArray) : Type 0 where
  valid : IsValid d
  bytes_at : flatten d.nodes ≡ overwrite c.position bytes (flatten c.nodes)

-- The buffer after its position was moved over `k` bytes.
record Over (k : ℕ) (d e : ByteArray) : Type 0 where
  valid : IsValid e
  content : contents e ≡ take (max d.size (d.position + k)) (flatten d.nodes)
  position : e.position ≡ d.position + k

-- The buffer after `bytes` were received into it: they stand at the position, over what was there, and
-- the position is behind them.
pub record Stored (bytes : List ℕ) (b e : ByteArray) : Type 0 where
  pub valid : IsValid e
  pub content : contents e ≡ overwrite b.position bytes (contents b)
  pub position : e.position ≡ b.position + length bytes

module _ {ℓ} {S : Type ℓ} (is_connected : S → Bool) (socket : Feeds S) where
  -- A run of `read` of `len` bytes into a buffer.
  pub record ReceivedInto (len : ℕ) (b : ByteArray) (s : S) : Type ℓ where
    pub answer : Output
    pub result : ByteArray
    pub next : S
    pub returns : read_byte_array is_connected socket.read len b s ≡ ok (answer, result, next)
    pub got_bytes :
        (k : ℕ)
        → answer ≡ put k
        → (bytes : List ℕ) × (length bytes ≡ k)
          × (socket.feed s ≡ bytes ++ socket.feed next)
          × Stored bytes b result
    pub kept :
        answer ≡ refused
        → IsValid result × (contents result ≡ contents b) × (socket.feed next ≡ socket.feed s)
