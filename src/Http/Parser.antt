-- ===== src/Http/Parser.antt =====
-- dwframe/http/http_parser.h and dwframe/http/http_parser.cc: the parsers around the two generated
-- machines of dwframe/http/http11_parser.rl and dwframe/http/httpclient_parser.rl. The machines are a
-- copy of another project's and a parameter here: for a buffer they give the calls of the callbacks,
-- in order, and the number of bytes that they have read. Logging is left out.
pub mod Steps
pub mod Calls
use dwframe.Base.{
  ℕ, zero, suc, ◌≤◌, Bool, true, ◌&&◌, ◌||◌, not, Option, List, [], ◌∷◌, if◌then◌else◌, ◌==◌,
  length, drop, overwrite,
}
use dwframe.Base.Text.{Text, codes}
use dwframe.Http.Method.{HttpMethod, invalid_method, chars_to_http_method}
use dwframe.Http.Request.{HttpRequest, new_http_request, set_header, get_header_as}
use dwframe.Http.Response.{HttpResponse, new_http_response, set_response_header}

-- A call of a callback: for `at` and `length`, what stands from `at` on and the length, or the text
-- of that length where the callback reads no more than that.
pub data Event : Type 0 where
  method_event : Text → Event
  version_event : Text → ℕ → Event
  fragment_event path_event query_event : Text → Event
  field_event : Text → Text → Event
  uri_event header_done_event : Event

-- A generated machine: what `..._init` makes, what `..._execute` does on a buffer, whether
-- `..._has_error` holds and whether `..._finish` is not 0 then.
pub record Machine {ℓ} (M : Type ℓ) (E : Type 0) : Type ℓ where
  pub initial : M
  pub run : Text → M → ℕ × List E × M
  pub failed : M → Bool
  pub finished : M → Bool
  pub bounded : (buffer : Text) (m : M) → (run buffer m).0 ≤ length buffer

pub record HttpRequestParser {ℓ} (M : Type ℓ) : Type ℓ where
  pub parser : M
  pub message : HttpRequest
  pub error : ℕ

abbrev pub new_http_request_parser {ℓ} : {M : Type ℓ} → Machine M Event → HttpRequestParser M
new_http_request_parser machine = record {
  parser = machine.initial;
  message = new_http_request 17 true;
  error = 0;
}

-- `strncmp(at, text, n) == 0`, where the end of a text is a 0.
abbrev pub strncmp_same : ℕ → Text → Text → Bool
strncmp_same zero at text = true
strncmp_same (suc n) [] [] = true
strncmp_same (suc n) [] (y ∷ text) = y == 0
strncmp_same (suc n) (x ∷ at) [] = x == 0
strncmp_same (suc n) (x ∷ at) (y ∷ text) =
    let rest = strncmp_same n at text in x == y && (x == 0 || rest)

-- The version that the two callbacks on it find, or none.
unfoldable pub version_of : Text → ℕ → Option ℕ
version_of at length =
    if strncmp_same length at (codes "HTTP/1.1")
    then Option.some 17
    else if strncmp_same length at (codes "HTTP/1.0")
    then Option.some 16
    else Option.none

module _ {ℓ} {M : Type ℓ} where
  -- The method that was found, or the error.
  unfoldable pub set_method : HttpMethod → HttpRequestParser M → HttpRequestParser M
  set_method invalid_method p = record p { error = 1000 }
  set_method m p = record p { message = record (p.message) { method = m } }

  unfoldable pub on_request_method : Text → HttpRequestParser M → HttpRequestParser M
  unfolding set_method
  on_request_method at p = set_method (chars_to_http_method at) p

  -- The version that was found, or the error.
  unfoldable pub set_version : Option ℕ → HttpRequestParser M → HttpRequestParser M
  set_version Option.none p = record p { error = 1001 }
  set_version (Option.some v) p = record p { message = record (p.message) { version = v } }

  unfoldable pub on_request_version : Text → ℕ → HttpRequestParser M → HttpRequestParser M
  unfolding version_of set_version
  on_request_version at length p = set_version (version_of at length) p

  unfoldable pub on_request_http_field : Text → Text → HttpRequestParser M → HttpRequestParser M
  on_request_http_field [] value p = p
  on_request_http_field (c ∷ field) value p = record p {
    message = set_header (c ∷ field) value p.message;
  }

  -- The callback of each event.
  unfoldable pub on_event : Event → HttpRequestParser M → HttpRequestParser M
  unfolding on_request_method on_request_version on_request_http_field
  on_event (method_event at) p = on_request_method at p
  on_event (version_event at length) p = on_request_version at length p
  on_event (fragment_event s) p = record p { message = record (p.message) { fragment = s } }
  on_event (path_event s) p = record p { message = record (p.message) { path = s } }
  on_event (query_event s) p = record p { message = record (p.message) { query = s } }
  on_event (field_event field value) p = on_request_http_field field value p
  on_event uri_event p = p
  on_event header_done_event p = p

  unfoldable pub on_events : List Event → HttpRequestParser M → HttpRequestParser M
  on_events [] p = p
  on_events (e ∷ es) p = on_events es (on_event e p)

  -- `execute`: the number of bytes read, the buffer, where the others are moved to the front, and the
  -- parser.
  unfoldable pub execute :
      Machine M Event → Text → HttpRequestParser M → ℕ × Text × HttpRequestParser M
  unfolding on_events
  execute machine buffer p =
      let (offset, events, m) = machine.run buffer p.parser in
      (offset, overwrite 0 (drop offset buffer) buffer, record (on_events events p) { parser = m })

  unfoldable pub is_finished : Machine M Event → HttpRequestParser M → Bool
  is_finished machine p = machine.finished p.parser

  unfoldable pub has_error : Machine M Event → HttpRequestParser M → Bool
  has_error machine p = not (p.error == 0) || machine.failed p.parser

  -- `getContentLength`, with `boost::lexical_cast` to `uint64_t` as a parameter.
  unfoldable pub get_content_length : (Text → Option ℕ) → HttpRequestParser M → ℕ
  get_content_length to_uint64 p = get_header_as to_uint64 (codes "content-length") 0 p.message

-- A call of a callback of the response parser; the calls for chunks and for the end of the headers do
-- nothing.
pub data ResponseEvent : Type 0 where
  reason_event status_event : Text → ResponseEvent
  response_version_event : Text → ℕ → ResponseEvent
  response_field_event : Text → Text → ResponseEvent
  chunk_event last_chunk_event response_header_done_event : ResponseEvent

pub record HttpResponseParser {ℓ} (M : Type ℓ) : Type ℓ where
  pub parser : M
  pub message : HttpResponse
  pub error : ℕ

abbrev pub new_http_response_parser {ℓ} :
    {M : Type ℓ} → Machine M ResponseEvent → HttpResponseParser M
new_http_response_parser machine = record {
  parser = machine.initial;
  message = new_http_response 17 true;
  error = 0;
}

module _ {ℓ} {M : Type ℓ} where
  unfoldable pub on_response_version : Text → ℕ → HttpResponseParser M → HttpResponseParser M
  unfolding version_of
  on_response_version at length p = elim (version_of at length) [
    | Option.none ↦ record p { error = 1001 }
    | Option.some v ↦ record p { message = record (p.message) { version = v } }
  ]

  unfoldable pub on_response_http_field : Text → Text → HttpResponseParser M → HttpResponseParser M
  on_response_http_field [] value p = p
  on_response_http_field (c ∷ field) value p = record p {
    message = set_response_header (c ∷ field) value p.message;
  }

  unfoldable pub is_response_finished : Machine M ResponseEvent → HttpResponseParser M → Bool
  is_response_finished machine p = machine.finished p.parser

  unfoldable pub has_response_error : Machine M ResponseEvent → HttpResponseParser M → Bool
  has_response_error machine p = not (p.error == 0) || machine.failed p.parser

module _ {ℓ} {M : Type ℓ} (atoi : Text → ℕ) where
  -- The callback of each event of a response, with `atoi` of the C library as a parameter.
  unfoldable pub on_response_event : ResponseEvent → HttpResponseParser M → HttpResponseParser M
  unfolding on_response_version on_response_http_field
  on_response_event (reason_event s) p = record p { message = record (p.message) { reason = s } }
  on_response_event (status_event at) p = record p {
    message = record (p.message) { status = atoi at };
  }
  on_response_event (response_version_event at length) p = on_response_version at length p
  on_response_event (response_field_event field value) p = on_response_http_field field value p
  on_response_event chunk_event p = p
  on_response_event last_chunk_event p = p
  on_response_event response_header_done_event p = p

  unfoldable pub on_response_events :
      List ResponseEvent → HttpResponseParser M → HttpResponseParser M
  on_response_events [] p = p
  on_response_events (e ∷ es) p = on_response_events es (on_response_event e p)

  -- `HttpResponseParser::execute`, which starts the machine again for a chunk.
  unfoldable pub execute_response :
      Machine M ResponseEvent → Text → Bool → HttpResponseParser M → ℕ × Text × HttpResponseParser M
  unfolding on_response_events
  execute_response machine buffer chunck p =
      let (offset, events, m) = machine.run buffer (if chunck then machine.initial else p.parser) in
      (
        offset,
        overwrite 0 (drop offset buffer) buffer,
        record (on_response_events events p) { parser = m },
      )
