-- ===== src/Http/Server.antt =====
-- dwframe/http/http_server.h and dwframe/http/http_server.cc: one client of the server, from the first
-- request to the end of the session. What a servlet does to the request, the response and the session
-- is a parameter, as are the calls on the connection. Logging is left out.
pub mod Serving
use dwframe.Base.{
  ℕ, zero, suc, Bool, true, false, not, ◌||◌, Option, some, List, [], ◌∷◌, if◌then◌else◌,
}
use dwframe.Base.Text.{Text, codes}
use dwframe.Stream.{Input, Output}
use dwframe.Servlet.{Uri, ServletDispatch, new_servlet_dispatch, handle}
use dwframe.Http.Request.{HttpRequest}
use dwframe.Http.Response.{HttpResponse, new_http_response, set_response_header}
use dwframe.Http.Parser.{Event, Machine}
use dwframe.Http.Session.{
  Reception, received, dropped, thrown, exhausted, recv_request, send_response,
}

pub record HttpServer {ℓ} (A : Type ℓ) : Type ℓ where
  pub name : Text
  pub is_keepalive : Bool
  pub dispatch : ServletDispatch A

-- The constructor, with the servlet that `NotFoundServlet` is for a name, and the name that
-- dwframe/Tcp_server.cc gives.
abbrev pub new_http_server {ℓ} : {A : Type ℓ} → (Text → A) → Bool → HttpServer A
new_http_server not_found keepalive = record {
  name = codes "dwframe/1.0.0";
  is_keepalive = keepalive;
  dispatch = new_servlet_dispatch (not_found (codes "dwframe/1.0"));
}

unfoldable pub set_name {ℓ} : {A : Type ℓ} → (Text → A) → Text → HttpServer A → HttpServer A
set_name not_found v server = record server {
  name = v;
  dispatch = record (server.dispatch) { default = some (not_found v) };
}

-- How `handleClient` was left, also by an exception of `recvRequest`. `no_end` is no end of the code.
pub data Ending : Type 0 where
  hung_up answered_last threw no_end : Ending

module _ {ℓ κ ι} {S : Type ℓ} {M : Type κ} {A : Type ι} (to_uint64 : Text → Option ℕ)
    (can_hold : ℕ → Bool) (read : ℕ → S → Input × S) (write : List ℕ → S → Output × S)
    (close : S → S) (buff_size : ℕ) (machine : Machine M Event) (fnmatch : Uri → Uri → Bool)
    (serve : A → HttpRequest × HttpResponse × S → HttpRequest × HttpResponse × S) where
  -- The response that the servlet is given.
  unfoldable pub blank_response : HttpServer A → HttpRequest → HttpResponse
  blank_response server req =
      set_response_header (codes "Server") server.name
        (new_http_response req.version (req.close || not server.is_keepalive))

  -- The request, the response and the connection after the servlet.
  unfoldable pub dispatched : HttpServer A → HttpRequest → S → HttpRequest × HttpResponse × S
  unfolding blank_response
  dispatched server req s =
      handle fnmatch serve req.path server.dispatch (req, blank_response server req, s)

  -- The loop of `handleClient`: how it is left, and each request and response as the servlet left
  -- them.
  unfoldable pub client_loop :
      HttpServer A → ℕ → ℕ → S → Ending × List (HttpRequest × HttpResponse) × S
  unfolding dispatched
  client_loop server turns zero s = (no_end, [], s)
  client_loop server turns (suc fuel) s =
      elim (recv_request to_uint64 can_hold read close buff_size machine turns s).0 [
        | dropped ↦
            (hung_up, [], (recv_request to_uint64 can_hold read close buff_size machine turns s).1)
        | thrown ↦
            (threw, [], (recv_request to_uint64 can_hold read close buff_size machine turns s).1)
        | exhausted ↦
            (no_end, [], (recv_request to_uint64 can_hold read close buff_size machine turns s).1)
        | received req ↦
            let (after, rsp, t) =
              dispatched server req
                (recv_request to_uint64 can_hold read close buff_size machine turns s).1 in
            let (answer, u) = send_response write rsp t in
            let (ending, rest, v) = client_loop server turns fuel u in
            if not server.is_keepalive || after.close
            then (answered_last, (after, rsp) ∷ [], u)
            else (ending, (after, rsp) ∷ rest, v)
      ]

  -- The session is closed behind the loop, which an exception does not reach.
  abbrev pub closed_by : Ending → S → S
  closed_by threw t = t
  closed_by _ t = close t

  -- `handleClient`.
  unfoldable pub handle_client :
      HttpServer A → ℕ → ℕ → S → Ending × List (HttpRequest × HttpResponse) × S
  unfolding client_loop
  handle_client server turns fuel s =
      let (ending, log, t) = client_loop server turns fuel s in (ending, log, closed_by ending t)
