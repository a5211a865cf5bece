-- ===== src/Http/Session.antt =====
-- dwframe/http/http_session.cc, on the SocketStream of dwframe/socket_stream.cc: reading one request and
-- sending one response. The calls on the stream are parameters, from a state of the connection to
-- their answer and the next state, and so are the machine of the parser and `boost::lexical_cast`.
pub mod Turns
pub mod Heads
pub mod Receiving
use dwframe.Base.{
  ℕ, zero, suc, ◌+◌, ◌-◌, ◌%◌, ◌^◌, not, Bool, ◌&&◌, Option, List, [], ◌∷◌, ◌++◌, if◌then◌else◌,
  ◌==◌, ltb, leb, length, take,
}
use dwframe.Base.Text.{Text}
use dwframe.Stream.{Input, got, failed, Output, Answer, whole, read_fix_size, write_fix_size}
use dwframe.Http.Request.{HttpRequest, init}
use dwframe.Http.Response.{HttpResponse}
use dwframe.Http.Dump.{dump_response}
use dwframe.Http.Parser.{
  Event, Machine, HttpRequestParser, new_http_request_parser, execute, has_error, is_finished,
  get_content_length,
}

-- What the loop of `recvRequest` ends with: the bytes in the buffer after the head and the parser, or
-- a stream that it has closed. `head_exhausted` is no end of the code.
pub data Head {ℓ} (M : Type ℓ) : Type ℓ where
  head_read : Text → HttpRequestParser M → Head M
  head_closed head_exhausted : Head M

-- What `recvRequest` gives: a request, a null pointer, or the exception of a body that cannot be made as
-- long as the head declares. `exhausted` is no end of the code.
pub data Reception : Type 0 where
  received : HttpRequest → Reception
  dropped thrown exhausted : Reception

-- Whether `readFixSize` of `n` bytes, which answers `n` as an `int`, answers more than 0.
abbrev pub positive_int : ℕ → Bool
positive_int n = ltb 0 (n % 2 ^ 32) && ltb (n % 2 ^ 32) (2 ^ 31)

module _ {ℓ κ} {S : Type ℓ} {M : Type κ} (buff_size : ℕ) (machine : Machine M Event)
    (read : ℕ → S → Input × S) (close : S → S) where
  -- The loop of `recvRequest`, which has `held` in the buffer, so that `offset` is its length.
  unfoldable pub recv_loop : ℕ → Text → HttpRequestParser M → S → Head M × S
  recv_loop zero held parser s = (head_exhausted, s)
  recv_loop (suc fuel) held parser s = elim (read (buff_size - length held) s).0 [
    | failed ↦ (head_closed, close (read (buff_size - length held) s).1)
    | got [] ↦ (head_closed, close (read (buff_size - length held) s).1)
    | got (b ∷ bs) ↦
        let next = (read (buff_size - length held) s).1 in
        let len = length (held ++ (b ∷ bs)) in
        let (nparse, moved, p) = execute machine (held ++ (b ∷ bs)) parser in
        let offset = len - nparse in
        let again = recv_loop fuel (take offset moved) p next in
        if has_error machine p
        then (head_closed, close next)
        else if offset == buff_size
        then (head_closed, close next)
        else if is_finished machine p
        then (head_read (take offset moved) p, next)
        else again
  ]

-- The request as it is given back.
unfoldable pub finish_request : HttpRequest → Reception
finish_request r = received (init r)

module _ {ℓ κ} {S : Type ℓ} {M : Type κ} (to_uint64 : Text → Option ℕ) (can_hold : ℕ → Bool)
    (read : ℕ → S → Input × S) (close : S → S) where
  -- The part of `recvRequest` after the loop. A content length of 2 ^ 63 or more is below 0; `can_hold`
  -- says whether a string can be resized to a length.
  unfoldable pub recv_body : Text → HttpRequestParser M → S → Reception × S
  unfolding finish_request
  recv_body held parser s =
      let n = get_content_length to_uint64 parser in
      let left = n - length held in
      let (answer, bytes, next) = read_fix_size read left s in
      if ltb 0 n && ltb n (2 ^ 63)
      then if not (can_hold n)
        then (thrown, s)
        else if leb (length held) n
        then if ltb 0 left
          then elim answer [
            | whole ↦
                if positive_int left
                then (finish_request (record (parser.message) { body = held ++ bytes }), next)
                else (dropped, close next)
            | _ ↦ (dropped, close next)
          ]
          else (finish_request (record (parser.message) { body = held }), s)
        else (finish_request (record (parser.message) { body = take n held }), s)
      else (finish_request parser.message, s)

  -- `recvRequest`.
  unfoldable pub recv_request : ℕ → Machine M Event → ℕ → S → Reception × S
  unfolding recv_loop recv_body
  recv_request buff_size machine fuel s =
      let (head, next) =
        recv_loop buff_size machine read close fuel [] (new_http_request_parser machine) s in
      elim head [
        | head_read held parser ↦ recv_body held parser next
        | head_closed ↦ (dropped, next)
        | head_exhausted ↦ (exhausted, next)
      ]

-- `sendResponse`.
unfoldable pub send_response {ℓ} :
    {S : Type ℓ} → (List ℕ → S → Output × S) → HttpResponse → S → Answer × S
send_response write rsp s = write_fix_size write (dump_response rsp) s
