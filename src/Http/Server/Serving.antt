-- ===== src/Http/Server/Serving.antt =====
-- The conversation of `handleClient` in dwframe/http/http_server.cc with one client.
use dwframe.Base.{ℕ, ◌≡◌, Bool, true, false, not, ◌||◌, Option, List, [], ◌∷◌}
use dwframe.Base.Text.{Text, codes}
use dwframe.Stream.{Answer}
use dwframe.Stream.Transfer.{Feeds, Takes, WriteFix}
use dwframe.Servlet.{Uri, get_matched_servlet}
use dwframe.Http.Request.{HttpRequest}
use dwframe.Http.Response.{HttpResponse, new_http_response, set_response_header}
use dwframe.Http.Dump.{dump_response}
use dwframe.Http.Parser.{Event, Machine}
use dwframe.Http.Session.{received, dropped, thrown, recv_request}
use dwframe.Http.Session.Receiving.{Message}
use dwframe.Http.Server.{HttpServer, Ending, hung_up, answered_last, threw}

-- A connection: what is read is what the peer feeds, what is written is what the peer is sent, and
-- writing takes nothing from what the peer feeds.
pub record Connection {ℓ} (S : Type ℓ) : Type ℓ where
  pub feeds : Feeds S
  pub takes : Takes S
  pub quiet : (bs : List ℕ) (s : S) → feeds.feed (takes.write bs s).1 ≡ feeds.feed s

module _ {ℓ κ ι} {S : Type ℓ} {M : Type κ} {A : Type ι} (to_uint64 : Text → Option ℕ)
    (can_hold : ℕ → Bool) (peer : Connection S) (close : S → S) (buff_size : ℕ)
    (machine : Machine M Event) (fnmatch : Uri → Uri → Bool)
    (serve : A → HttpRequest × HttpResponse × S → HttpRequest × HttpResponse × S)
    (server : HttpServer A) where
  -- What a request and a blank response become: what the servlet chosen for the path makes of them, or
  -- themselves where there is none. The response has the version of the request, the name of the server,
  -- and closes if the request or the server does.
  abbrev pub served_by : Option A → HttpRequest → S → HttpRequest × HttpResponse × S
  served_by o req s =
      let rsp =
        set_response_header (codes "Server") server.name
          (new_http_response req.version (req.close || not server.is_keepalive)) in
      elim o [ Option.none ↦ (req, rsp, s) | Option.some a ↦ serve a (req, rsp, s) ]

  -- One request that `recvRequest` gives with `turns` of fuel on the connection `s`, what its servlet made
  -- of it, and the response that was sent as far as the peer took it, with the connection `t` before the
  -- servlet and `u` after the response.
  pub record Exchange (turns : ℕ) (s : S) (after : HttpRequest) (rsp : HttpResponse) (t u : S)
      : Type (ℓ ⊔ κ) where
    pub req : HttpRequest
    pub came :
        recv_request to_uint64 can_hold peer.feeds.read close buff_size machine turns s
        ≡ (received req, t)
    pub message : Message to_uint64 can_hold peer.feeds close buff_size machine s req t
    pub sending : S
    pub answer : Answer
    pub served :
        served_by (get_matched_servlet fnmatch req.path server.dispatch) req t
        ≡ (after, rsp, sending)
    pub written : WriteFix peer.takes (dump_response rsp) sending (answer, u)

  -- The connection in the end: closed, but where an exception goes by.
  abbrev pub left_by : Ending → S → S
  left_by threw t = t
  left_by _ t = close t

  -- A conversation from one connection to another, with each request and response in order: it ends
  -- with an exception, where no request comes and the connection is closed, or with a response after which the server
  -- or the request closes, and goes on after any other.
  pub data Conversation (turns : ℕ)
      : S → List (HttpRequest × HttpResponse) → Ending → S → Type (ℓ ⊔ κ) where
    silent :
        (s u : S)
        → recv_request to_uint64 can_hold peer.feeds.read close buff_size machine turns s
          ≡ (dropped, close u)
        → Conversation turns s [] hung_up (close u)
    broken :
        (s u : S)
        → recv_request to_uint64 can_hold peer.feeds.read close buff_size machine turns s
          ≡ (thrown, u)
        → Conversation turns s [] threw u
    last :
        (s t u : S) (after : HttpRequest) (rsp : HttpResponse)
        → Exchange turns s after rsp t u
        → (not server.is_keepalive || after.close) ≡ true
        → Conversation turns s ((after, rsp) ∷ []) answered_last u
    next :
        (s t u v : S) (after : HttpRequest) (rsp : HttpResponse)
        (log : List (HttpRequest × HttpResponse)) (ending : Ending)
        → Exchange turns s after rsp t u
        → (not server.is_keepalive || after.close) ≡ false
        → Conversation turns u log ending v
        → Conversation turns s ((after, rsp) ∷ log) ending v
