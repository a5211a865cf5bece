-- ===== src/Tests/Sessions.antt =====
-- A peer, a machine and a server for dwframe/http/http_session.cc and dwframe/http/http_server.cc. A
-- request is what stands before a full stop, with a body of two bytes after it.
use dwframe.Base.{
  ℕ, suc, ◌-◌, ◌≤◌, ◌≡◌, refl, sym, Bool, true, false, Option, some, none, List, [], ◌∷◌, ◌++◌,
  length, take, drop, min, arith, take-append-drop, length-take, take_all, if◌then◌else◌, ◌==◌,
}
use dwframe.Base.Text.{Text, codes}
use dwframe.Stream.{Input, got, Output, put}
use dwframe.Stream.Transfer.{Feeds, Takes}
use dwframe.Servlet.{Uri}
use dwframe.Http.Method.{chars_to_http_method, first_method}
use dwframe.Http.Fields.{find, assign}
use dwframe.Http.Request.{HttpRequest, get_header_as, set_header}
use dwframe.Http.Response.{HttpResponse}
use dwframe.Http.Parser.{
  Event, method_event, path_event, field_event, Machine, new_http_request_parser, execute,
  on_events, on_event, on_request_method, on_request_http_field, set_method, has_error, is_finished,
  get_content_length,
}
use dwframe.Http.Parser.Calls.{Executed, execute-Executed}
use dwframe.Http.Session.{recv_request, recv_loop, recv_body, finish_request}
use dwframe.Http.Server.{HttpServer, new_http_server}
use dwframe.Http.Server.Serving.{Connection}

-- What the peer still has to send, what it was sent, and whether the socket is open.
abbrev Peer : Type 0
Peer = List ℕ × List ℕ × Bool

abbrev read_four : ℕ → Peer → Input × Peer
read_four n (fed, sent, connected) =
    (got (take (min n 4) fed), (drop (min n 4) fed, sent, connected))

abbrev write_all : List ℕ → Peer → Output × Peer
write_all bs (fed, sent, connected) = (put (length bs), (fed, sent ++ bs, connected))

abbrev close_peer : Peer → Peer
close_peer (fed, sent, connected) = (fed, sent, false)

abbrev peer_feeds : Feeds Peer
peer_feeds = record {
  read = read_four;
  feed = λ s. s.0;
  in_order = λ n s bs e.
      let same : take (min n 4) s.0 ≡ bs = cc in
      (
        rw (sym same) (sym (take-append-drop (min n 4) s.0)),
        rw (sym same) (omega (arith, length-take (min n 4) s.0)),
      );
  no_loss = λ n s e. absurd (cc);
}

whole_taken : (bs : List ℕ) → take (length bs) bs ≡ bs
whole_taken bs = take_all (length bs) bs (omega arith)

abbrev peer_takes : Takes Peer
peer_takes = record {
  write = write_all;
  sent = λ s. s.1;
  in_order = λ bs s k e.
      let same : length bs ≡ k = cc in (rw (sym same, whole_taken bs) refl, omega (arith, same));
  no_gain = λ bs s e. absurd (cc);
}

abbrev peer : Connection Peer
peer = record { feeds = peer_feeds; takes = peer_takes; quiet = λ bs s. refl }

-- The number of bytes up to a full stop.
abbrev stop : List ℕ → Option ℕ
stop [] = none
stop (c ∷ s) =
    let rest = stop s in
    if c == b'.' then some 1 else elim rest [ none ↦ none | some k ↦ some (suc k) ]

abbrev run_machine : Text → Bool → ℕ × List Event × Bool
run_machine buffer m = elim (stop buffer) [
  | none ↦ (length buffer, [], false)
  | some k ↦ (
    min k (length buffer),
    method_event (codes "GET")
        ∷ path_event (codes "/x")
        ∷ field_event (codes "content-length") (codes "2")
        ∷ [],
    true,
  )
]

run_machine-bounded : (buffer : Text) (m : Bool) → (run_machine buffer m).0 ≤ length buffer
run_machine-bounded buffer m = go (stop buffer) refl
  where
    go : (o : Option ℕ) → stop buffer ≡ o → (run_machine buffer m).0 ≤ length buffer
    go none e = rw (e, run_machine) (omega arith)
    go (some k) e = rw (e, run_machine) (omega arith)

abbrev machine : Machine Bool Event
machine = record {
  initial = false;
  run = run_machine;
  failed = λ m. false;
  finished = λ m. m;
  bounded = run_machine-bounded;
}

execute-Executed_example :
    Executed machine
      (codes "ab.cd")
      (new_http_request_parser machine)
      (execute machine (codes "ab.cd") (new_http_request_parser machine))
execute-Executed_example =
    execute-Executed machine (codes "ab.cd") (new_http_request_parser machine)

abbrev to_uint64 : Text → Option ℕ
to_uint64 [] = none
to_uint64 (d ∷ s) = some (d - 48)

abbrev can_hold : ℕ → Bool
can_hold n = true

abbrev waiting : Peer
waiting = (codes "ab.cdef.gh", [], true)

-- A servlet answers with its number as the status.
abbrev serve : ℕ → HttpRequest × HttpResponse × Peer → HttpRequest × HttpResponse × Peer
serve a (req, rsp, s) = (req, record rsp { status = a }, s)

abbrev never : Uri → Uri → Bool
never pattern path = false

abbrev server : HttpServer ℕ
server = new_http_server (λ name. 404) true

-- Two requests that arrive in one piece: the second one is gone with the first.
abbrev read_all : ℕ → Peer → Input × Peer
read_all n (fed, sent, connected) = (got (take n fed), (drop n fed, sent, connected))

second_lost :
    (recv_request to_uint64 can_hold read_all close_peer 64 machine 3
      (codes "a.bcd.ef", [], true)).1.0
    ≡ []
unfolding recv_request execute on_events on_event on_request_method on_request_http_field set_method
    chars_to_http_method first_method has_error is_finished get_content_length get_header_as find
    set_header assign recv_loop recv_body finish_request
second_lost = refl
