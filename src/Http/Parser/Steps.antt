-- ===== src/Http/Parser/Steps.antt =====
-- The callbacks of dwframe/http/http_parser.cc as steps of the request parser.
use dwframe.Base.{ℕ, ◌≡◌, ◌≢◌, refl, inl, inr, Bool-cases, true, false, List, [], ◌∷◌}
use dwframe.Base.Text.{Text, codes}
use dwframe.Http.Method.{HttpMethod, invalid_method, chars_to_http_method}
use dwframe.Http.Request.{set_header}
use dwframe.Http.Parser.{
  Event, method_event, version_event, fragment_event, path_event, query_event, field_event,
  uri_event, header_done_event, HttpRequestParser, strncmp_same, version_of, set_method,
  set_version, on_request_method, on_request_version, on_request_http_field, on_event, on_events,
}

-- The step of one call: a method or a version is stored, or is an error; a part of the uri is stored, a
-- header with a name is set, and the other calls do nothing.
pub data Called {ℓ} {M : Type ℓ} : Event → HttpRequestParser M → HttpRequestParser M → Type ℓ where
  method_set :
      (at : Text) (m : HttpMethod) (p : HttpRequestParser M)
      → chars_to_http_method at ≡ m
      → m ≢ invalid_method
      → Called (method_event at) p (record p { message = record (p.message) { method = m } })
  method_unknown :
      (at : Text) (p : HttpRequestParser M)
      → chars_to_http_method at ≡ invalid_method
      → Called (method_event at) p (record p { error = 1000 })
  http_1_1 :
      (at : Text) (n : ℕ) (p : HttpRequestParser M)
      → strncmp_same n at (codes "HTTP/1.1") ≡ true
      → Called (version_event at n) p (record p { message = record (p.message) { version = 17 } })
  http_1_0 :
      (at : Text) (n : ℕ) (p : HttpRequestParser M)
      → strncmp_same n at (codes "HTTP/1.1") ≡ false
      → strncmp_same n at (codes "HTTP/1.0") ≡ true
      → Called (version_event at n) p (record p { message = record (p.message) { version = 16 } })
  version_unknown :
      (at : Text) (n : ℕ) (p : HttpRequestParser M)
      → strncmp_same n at (codes "HTTP/1.1") ≡ false
      → strncmp_same n at (codes "HTTP/1.0") ≡ false
      → Called (version_event at n) p (record p { error = 1001 })
  fragment_set :
      (s : Text) (p : HttpRequestParser M)
      → Called (fragment_event s) p (record p { message = record (p.message) { fragment = s } })
  path_set :
      (s : Text) (p : HttpRequestParser M)
      → Called (path_event s) p (record p { message = record (p.message) { path = s } })
  query_set :
      (s : Text) (p : HttpRequestParser M)
      → Called (query_event s) p (record p { message = record (p.message) { query = s } })
  nameless : (v : Text) (p : HttpRequestParser M) → Called (field_event [] v) p p
  header_set :
      (c : ℕ) (f v : Text) (p : HttpRequestParser M)
      → Called (field_event (c ∷ f) v) p (record p { message = set_header (c ∷ f) v p.message })
  uri_seen : (p : HttpRequestParser M) → Called uri_event p p
  header_ended : (p : HttpRequestParser M) → Called header_done_event p p

-- The steps of calls in their order.
pub data AllCalled {ℓ} {M : Type ℓ}
    : List Event → HttpRequestParser M → HttpRequestParser M → Type ℓ where
  no_call : (p : HttpRequestParser M) → AllCalled [] p p
  call :
      (e : Event) (es : List Event) (p q r : HttpRequestParser M)
      → Called e p q
      → AllCalled es q r
      → AllCalled (e ∷ es) p r

module _ {ℓ} {M : Type ℓ} where
  set_method-Called :
      (at : Text) (m : HttpMethod) (p : HttpRequestParser M)
      → chars_to_http_method at ≡ m
      → Called (method_event at) p (set_method m p)
  unfolding set_method
  set_method-Called at invalid_method p e = method_unknown at p e
  set_method-Called at m p e = method_set at m p e (λ q. absurd (cc))

  version-Called :
      (at : Text) (n : ℕ) (p : HttpRequestParser M)
      → Called (version_event at n) p (on_request_version at n p)
  unfolding on_request_version version_of set_version
  version-Called at n p = elim (Bool-cases (strncmp_same n at (codes "HTTP/1.1"))) [
    | inl t ↦ rw t (http_1_1 at n p t)
    | inr t ↦ elim (Bool-cases (strncmp_same n at (codes "HTTP/1.0"))) [
      | inl u ↦ rw (t, u) (http_1_0 at n p t u)
      | inr u ↦ rw (t, u) (version_unknown at n p t u)
    ]
  ]

  on_event-Called : (e : Event) (p : HttpRequestParser M) → Called e p (on_event e p)
  unfolding on_event on_request_method on_request_http_field
  on_event-Called (method_event at) p = set_method-Called at (chars_to_http_method at) p refl
  on_event-Called (version_event at n) p = version-Called at n p
  on_event-Called (fragment_event s) p = fragment_set s p
  on_event-Called (path_event s) p = path_set s p
  on_event-Called (query_event s) p = query_set s p
  on_event-Called (field_event [] v) p = nameless v p
  on_event-Called (field_event (c ∷ f) v) p = header_set c f v p
  on_event-Called uri_event p = uri_seen p
  on_event-Called header_done_event p = header_ended p

  pub on_events-AllCalled :
      (es : List Event) (p : HttpRequestParser M) → AllCalled es p (on_events es p)
  unfolding on_events
  on_events-AllCalled [] p = no_call p
  on_events-AllCalled (e ∷ es) p =
      call e es p (on_event e p) (on_events es (on_event e p)) (on_event-Called e p)
        (on_events-AllCalled es (on_event e p))
