-- ===== src/Http/Parser/Calls.antt =====
-- What the callbacks of dwframe/http/http_parser.cc do to the parser, and `execute` to the buffer.
use dwframe.Base.{
  ℕ, ◌-◌, ◌≡◌, ◌≢◌, refl, sym, ◌∙◌, Option, none, some, List, [], ◌∷◌, ◌++◌, length, take, drop,
  overwrite, arith, length-drop, take-append_le, take_all, take-append-drop, length-take,
  length-overwrite,
}
use dwframe.Base.Text.{Text}
use dwframe.Http.Method.{HttpMethod, invalid_method, chars_to_http_method}
use dwframe.Http.Fields.Laws.{Sorted, assign-Sorted}
use dwframe.Http.Request.{set_header}
use dwframe.Http.Parser.Steps.{AllCalled, on_events-AllCalled}
use dwframe.Http.Parser.{
  Event, method_event, version_event, fragment_event, path_event, query_event, field_event,
  uri_event, header_done_event, Machine, HttpRequestParser, version_of, set_method, set_version,
  on_request_method, on_request_version, on_request_http_field, on_event, on_events, execute,
}

-- What no callback undoes: an error stays, the body is left alone, and the headers keep their order.
pub record Kept {ℓ} {M : Type ℓ} (p q : HttpRequestParser M) : Type 0 where
  pub sticky : p.error ≢ 0 → q.error ≢ 0
  pub body : q.message.body ≡ p.message.body
  pub sorted : Sorted p.message.headers → Sorted q.message.headers

module _ {ℓ} {M : Type ℓ} where
  refl-Kept : (p : HttpRequestParser M) → Kept p p
  refl-Kept p = record { sticky = λ e. e; body = refl; sorted = λ s. s }

  then-Kept : (p q r : HttpRequestParser M) → Kept p q → Kept q r → Kept p r
  then-Kept p q r a b = record {
    sticky = λ e. b.sticky (a.sticky e);
    body = b.body ∙ a.body;
    sorted = λ s. b.sorted (a.sorted s);
  }

  set_method-Kept : (m : HttpMethod) (p : HttpRequestParser M) → Kept p (set_method m p)
  unfolding set_method
  set_method-Kept invalid_method p = record {
    sticky = λ e r. absurd (omega (arith, r));
    body = refl;
    sorted = λ s. s;
  }
  set_method-Kept m p = record { sticky = λ e. e; body = refl; sorted = λ s. s }

  set_version-Kept : (v : Option ℕ) (p : HttpRequestParser M) → Kept p (set_version v p)
  unfolding set_version
  set_version-Kept none p = record {
    sticky = λ e r. absurd (omega (arith, r));
    body = refl;
    sorted = λ s. s;
  }
  set_version-Kept (some v) p = record { sticky = λ e. e; body = refl; sorted = λ s. s }

  on_event-Kept : (e : Event) (p : HttpRequestParser M) → Kept p (on_event e p)
  unfolding on_event on_request_method on_request_version on_request_http_field set_header
  on_event-Kept (method_event at) p = set_method-Kept (chars_to_http_method at) p
  on_event-Kept (version_event at n) p = set_version-Kept (version_of at n) p
  on_event-Kept (fragment_event s) p = record { sticky = λ e. e; body = refl; sorted = λ s. s }
  on_event-Kept (path_event s) p = record { sticky = λ e. e; body = refl; sorted = λ s. s }
  on_event-Kept (query_event s) p = record { sticky = λ e. e; body = refl; sorted = λ s. s }
  on_event-Kept (field_event [] value) p = refl-Kept p
  on_event-Kept (field_event (c ∷ field) value) p = record {
    sticky = λ e. e;
    body = refl;
    sorted = λ s. assign-Sorted (c ∷ field) value p.message.headers s;
  }
  on_event-Kept uri_event p = refl-Kept p
  on_event-Kept header_done_event p = refl-Kept p

  on_events-Kept : (es : List Event) (p : HttpRequestParser M) → Kept p (on_events es p)
  unfolding on_events
  on_events-Kept [] p = refl-Kept p
  on_events-Kept (e ∷ es) p =
      then-Kept p (on_event e p) (on_events es (on_event e p)) (on_event-Kept e p)
        (on_events-Kept es (on_event e p))

  -- A run of `execute`: the number is that of the machine and its calls are made in order, and then its
  -- state is stored; the bytes it has read are the front of the buffer, the others have been moved
  -- to its start, an error stays, and the headers stay in order.
  pub record Executed (machine : Machine M Event) (buffer : Text) (p : HttpRequestParser M)
      (run : ℕ × Text × HttpRequestParser M) : Type ℓ where
    pub count : run.0 ≡ (machine.run buffer p.parser).0
    pub called : HttpRequestParser M
    pub calls : AllCalled (machine.run buffer p.parser).1 p called
    pub result : run.2 ≡ record called { parser = (machine.run buffer p.parser).2 }
    pub front : List ℕ
    pub split : buffer ≡ front ++ take (length buffer - run.0) run.1
    pub read : length front ≡ run.0
    pub room : length run.1 ≡ length buffer
    pub sticky : p.error ≢ 0 → run.2.error ≢ 0
    pub body : run.2.message.body ≡ p.message.body
    pub sorted : Sorted p.message.headers → Sorted run.2.message.headers

  -- For a machine that reads no more than the buffer, `execute` answers the number of bytes the
  -- machine has read and moves the others to the start of a buffer of the same size; each callback
  -- the machine calls takes its step on the parser, in order, and then the state of the machine is
  -- stored; an error stays, the body is left alone, and the headers stay in order.
  pub execute-Executed :
      (machine : Machine M Event) (buffer : Text) (p : HttpRequestParser M)
      → Executed machine buffer p (execute machine buffer p)
  unfolding execute
  execute-Executed machine buffer p =
      let n = (machine.run buffer p.parser).0 in
      let size = length-drop n buffer in
      let moved : take (length buffer - n) (overwrite 0 (drop n buffer) buffer) ≡ drop n buffer =
        take-append_le (length buffer - n) (drop n buffer) _ (omega (arith, size))
        ∙ take_all (length buffer - n) (drop n buffer) (omega (arith, size)) in
      let k = on_events-Kept (machine.run buffer p.parser).1 p in
      record {
        count = refl;
        called = on_events (machine.run buffer p.parser).1 p;
        calls = on_events-AllCalled (machine.run buffer p.parser).1 p;
        result = refl;
        front = take n buffer;
        split = rw moved (sym (take-append-drop n buffer));
        read = omega (arith, length-take n buffer, machine.bounded buffer p.parser);
        room = length-overwrite 0 (drop n buffer) buffer (omega (arith, size));
        sticky = k.sticky;
        body = k.body;
        sorted = k.sorted;
      }
