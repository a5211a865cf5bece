-- ===== src/Http/Session/Receiving.antt =====
-- The bytes that `recvRequest` of dwframe/http/http_session.cc takes from a connection.
use dwframe.Base.{
  ℕ, ◌-◌, ◌^◌, ◌≤◌, ◌<◌, ◌≡◌, ◌≢◌, ◌⊎◌, Bool, false, ◌&&◌, Option, List, [], ◌++◌, if◌then◌else◌,
  ltb, length,
}
use dwframe.Base.Text.{Text}
use dwframe.Stream.{whole, read_fix_size}
use dwframe.Stream.Transfer.{Feeds}
use dwframe.Http.Request.{HttpRequest, init}
use dwframe.Http.Parser.{
  Event, Machine, HttpRequestParser, new_http_request_parser, get_content_length,
}
use dwframe.Http.Session.{
  Head, head_read, head_closed, Reception, received, dropped, thrown, exhausted, positive_int,
}
use dwframe.Http.Session.Turns.{Turns}

-- The bytes that a content length stands for: none for one that is below 0 as an `int64_t`.
abbrev pub body_size : ℕ → ℕ
body_size n = if ltb 0 n && ltb n (2 ^ 63) then n else 0

module _ {ℓ κ} {S : Type ℓ} {M : Type κ} (to_uint64 : Text → Option ℕ) (can_hold : ℕ → Bool)
    (stream : Feeds S) (close : S → S) (buff_size : ℕ) (machine : Machine M Event) where
  -- The turns of the loop of `recvRequest` that starts on a connection with a new parser.
  abbrev pub HeadFrom : S → Head M → S → Type (ℓ ⊔ κ)
  HeadFrom start head s =
      Turns buff_size machine stream close [] (new_http_request_parser machine) start head s

  -- A request that was received from a connection: the turns of the loop end with a complete head and
  -- with `held` in the buffer; the body is what follows the head, of the length that the head declares,
  -- and `lost` is what was in the buffer after it. The peer has the others.
  pub record Message (start : S) (r : HttpRequest) (s : S) : Type (ℓ ⊔ κ) where
    pub head : List ℕ
    pub held : Text
    pub at_head : S
    pub lost : List ℕ
    pub parser : HttpRequestParser M
    pub turns : HeadFrom start (head_read held parser) at_head
    pub front : stream.feed start ≡ head ++ (held ++ stream.feed at_head)
    pub behind : held ++ stream.feed at_head ≡ r.body ++ (lost ++ stream.feed s)
    pub split : stream.feed start ≡ head ++ (r.body ++ (lost ++ stream.feed s))
    pub made : r ≡ init (record (parser.message) { body = r.body })
    pub size : length r.body ≡ body_size (get_content_length to_uint64 parser)
    pub fits : length lost ≤ buff_size
    pub fewer : length (stream.feed s) < length (stream.feed start)

  -- A body that the peer does not send as a whole, or that is longer than an `int` can tell.
  pub record Cut (start u : S) : Type (ℓ ⊔ κ) where
    pub held : Text
    pub parser : HttpRequestParser M
    pub at_head : S
    pub turns : HeadFrom start (head_read held parser) at_head
    pub short : length held < body_size (get_content_length to_uint64 parser)
    pub incomplete :
        let left = get_content_length to_uint64 parser - length held in
        ((read_fix_size stream.read left at_head).0 ≢ whole) ⊎ (positive_int left ≡ false)
    pub closed :
        let left = get_content_length to_uint64 parser - length held in
        u ≡ close (read_fix_size stream.read left at_head).2

  -- A body that cannot be made as long as the head declares.
  pub record TooLong (start u : S) : Type (ℓ ⊔ κ) where
    pub held : Text
    pub parser : HttpRequestParser M
    pub turns : HeadFrom start (head_read held parser) u
    pub declared : 0 < body_size (get_content_length to_uint64 parser)
    pub refuses : can_hold (get_content_length to_uint64 parser) ≡ false

  -- A run of `recvRequest`: a null pointer comes with a stream that it has closed, after a head that does
  -- not come or a body that is cut.
  pub record RecvRun (start : S) (fuel : ℕ) (run : Reception × S) : Type (ℓ ⊔ κ) where
    pub ends : length (stream.feed start) < fuel → run.0 ≢ exhausted
    pub closes : run.0 ≡ dropped → (t : S) × (run.1 ≡ close t)
    pub null : run.0 ≡ dropped → HeadFrom start head_closed run.1 ⊎ Cut start run.1
    pub throws : run.0 ≡ thrown → TooLong start run.1
    pub message : (r : HttpRequest) → run.0 ≡ received r → Message start r run.1
