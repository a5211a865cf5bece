-- ===== src/SocketStream/Sending.antt =====
-- The bytes that the calls of dwframe/socket_stream.cc with a ByteArray send and receive.
use dwframe.Base.{ℕ, ◌≤◌, ◌≡◌, Bool, ◌++◌, take, drop}
use dwframe.ByteArray.{ByteArray, ok}
use dwframe.ByteArray.Invariant.{IsValid, contents, unread}
use dwframe.Stream.{Output, put, refused}
use dwframe.Stream.Transfer.{Takes}
use dwframe.SocketStream.{write_byte_array}

-- The buffer after `k` of its bytes were taken.
pub record Taken (k : ℕ) (b c : ByteArray) : Type 0 where
  pub valid : IsValid c
  pub same_contents : contents c ≡ contents b
  pub rest : unread c ≡ drop k (unread b)

module _ {ℓ} {S : Type ℓ} (is_connected : S → Bool) (socket : Takes S) where
  -- A run of `write` with `len` bytes of a buffer: of the next ones that there are, a front was sent, as
  -- many as it answers, and they are no longer to be read.
  pub record Sent (len : ℕ) (b : ByteArray) (s : S) : Type ℓ where
    pub answer : Output
    pub result : ByteArray
    pub next : S
    pub returns : write_byte_array is_connected socket.write len b s ≡ ok (answer, result, next)
    pub taken :
        (k : ℕ)
        → answer ≡ put k
        → Taken k b result
          × (socket.sent next ≡ socket.sent s ++ take k (take len (unread b)))
          × (k ≤ len)
    pub kept : answer ≡ refused → (result ≡ b) × (socket.sent next ≡ socket.sent s)
