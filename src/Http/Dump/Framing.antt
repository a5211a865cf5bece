-- ===== src/Http/Dump/Framing.antt =====
-- A reader of lines on the texts that dwframe/http/http.cc writes.
use dwframe.Base.{
  ℕ, ◌/◌, ◌%◌, ◌≡◌, refl, inl, inr, Bool-cases, Bool, true, false, not, ◌&&◌, some, List, [], ◌∷◌,
  ◌++◌, ◌==◌, length,
}
use dwframe.Base.Text.{Text, codes, decimal, and_true, fold_case, same_text}
use dwframe.Http.Method.{HttpMethod, invalid_method, http_method_to_string}
use dwframe.Http.Status.{http_status_to_string, message_of, http_status_map}
use dwframe.Http.Fields.{Fields}
use dwframe.Http.Request.{HttpRequest}
use dwframe.Http.Response.{HttpResponse}
use dwframe.Http.Dump.{field_text, dump_request, dump_response}
use dwframe.Http.Dump.Lines.{
  clean, read_head, is_line, are_lines, read_head-lines, are_lines-append, clean-append,
  is_line-append, clean-decimal,
}
use dwframe.Http.Dump.Layout.{
  header_lines, connection_lines, length_lines, cookie_lines, request_lines, response_lines,
  version_said, query_said, fragment_said, first_line, reason_said, answer_line, dump_request-lines,
  dump_response-lines,
}

-- No key and no value has a CR.
abbrev pub clean_fields : Fields → Bool
clean_fields [] = true
clean_fields (f ∷ m) = (clean f.0 && clean f.1) && clean_fields m

abbrev pub clean_texts : List Text → Bool
clean_texts [] = true
clean_texts (t ∷ ts) = clean t && clean_texts ts

-- What a request has in its first line and its headers has no CR.
pub record CleanRequest (r : HttpRequest) : Type 0 where
  pub path : clean r.path ≡ true
  pub query : clean r.query ≡ true
  pub fragment : clean r.fragment ≡ true
  pub headers : clean_fields r.headers ≡ true

pub record CleanResponse (r : HttpResponse) : Type 0 where
  pub reason : clean r.reason ≡ true
  pub headers : clean_fields r.headers ≡ true
  pub cookies : clean_texts r.cookies ≡ true

are_lines-header_lines :
    (w : Bool) (m : Fields) → clean_fields m ≡ true → are_lines (header_lines w m) ≡ true
are_lines-header_lines w [] h = refl
are_lines-header_lines w (f ∷ m) h =
    let (p, q) = and_true (clean f.0 && clean f.1) (clean_fields m) h in
    let (x, y) = and_true (clean f.0) (clean f.1) p in
    let rest = are_lines-header_lines w m q in
    elim (Bool-cases (not w && same_text (fold_case f.0) (codes "connection"))) [
      | inl t ↦ rw t rest
      | inr t ↦ rw (t, is_line-field f.0 f.1 x y) rest
    ]
  where
    is_line-field :
        (k v : Text) → clean k ≡ true → clean v ≡ true → is_line (field_text (k, v)) ≡ true
    is_line-field [] v x y = y
    is_line-field (c ∷ k) v x y =
        is_line-append ((c ∷ k) ++ codes ": ") v (is_line-append (c ∷ k) (codes ": ") x refl) y

are_lines-connection : (w c : Bool) → are_lines (connection_lines w c) ≡ true
are_lines-connection true c = refl
are_lines-connection false true = refl
are_lines-connection false false = refl

are_lines-length : (body : Text) → are_lines (length_lines body) ≡ true
are_lines-length [] = refl
are_lines-length (b ∷ body) =
    rw (is_line-append (codes "content-length: ") _ refl (clean-decimal (length (b ∷ body))))

are_lines-cookies : (cs : List Text) → clean_texts cs ≡ true → are_lines (cookie_lines cs) ≡ true
are_lines-cookies [] h = refl
are_lines-cookies (c ∷ cs) h =
    let (p, q) = and_true (clean c) (clean_texts cs) h in rw p (are_lines-cookies cs q)

is_line-method : (m : HttpMethod) → is_line (http_method_to_string m) ≡ true
is_line-method invalid_method = refl
is_line-method m = refl

is_line-version : (v : ℕ) → is_line (version_said v) ≡ true
is_line-version v =
    is_line-append (codes "HTTP/" ++ decimal (v / 16) ++ codes ".") (decimal (v % 16))
      (is_line-append (codes "HTTP/" ++ decimal (v / 16)) (codes ".")
        (is_line-append (codes "HTTP/") (decimal (v / 16)) refl (clean-decimal (v / 16))) refl)
      (clean-decimal (v % 16))

clean-query : (s : Text) → clean s ≡ true → clean (query_said s) ≡ true
clean-query [] q = refl
clean-query (c ∷ s) q = clean-append (codes "?") (c ∷ s) refl q

clean-fragment : (s : Text) → clean s ≡ true → clean (fragment_said s) ≡ true
clean-fragment [] q = refl
clean-fragment (c ∷ s) q = clean-append (codes "#") (c ∷ s) refl q

is_line-request : (r : HttpRequest) → CleanRequest r → is_line (first_line r) ≡ true
is_line-request r c =
    let method = http_method_to_string r.method in
    let a = is_line-append method (codes " ") (is_line-method r.method) refl in
    let s = method ++ codes " " ++ r.path in
    let b = is_line-append (method ++ codes " ") r.path a c.path in
    let query = query_said r.query in
    let d = is_line-append s query b (clean-query r.query c.query) in
    let fragment = fragment_said r.fragment in
    let clean_fragment = clean-fragment r.fragment c.fragment in
    let e = is_line-append (s ++ query) fragment d clean_fragment in
    let t = s ++ query ++ fragment in
    is_line-append (t ++ codes " ") (version_said r.version) (is_line-append t (codes " ") e refl)
      (is_line-version r.version)

abbrev clean_messages : List (ℕ × Text) → Bool
clean_messages [] = true
clean_messages (e ∷ es) = clean e.1 && clean_messages es

clean-message_of :
    (s : ℕ) (es : List (ℕ × Text)) → clean_messages es ≡ true → clean (message_of s es) ≡ true
unfolding message_of
clean-message_of s [] h = refl
clean-message_of s (e ∷ es) h =
    let (p, q) = and_true (clean e.1) (clean_messages es) h in
    elim (Bool-cases (e.0 == s)) [ inl t ↦ rw t p | inr t ↦ rw t (clean-message_of s es q) ]

clean-reason : (s : ℕ) (reason : Text) → clean reason ≡ true → clean (reason_said s reason) ≡ true
unfolding http_status_to_string
clean-reason s [] h = clean-message_of s http_status_map refl
clean-reason s (c ∷ reason) h = h

is_line-response : (r : HttpResponse) → CleanResponse r → is_line (answer_line r) ≡ true
is_line-response r c =
    let v = version_said r.version in
    let a = is_line-append v (codes " ") (is_line-version r.version) refl in
    let b = is_line-append (v ++ codes " ") (decimal r.status) a (clean-decimal r.status) in
    let s = v ++ codes " " ++ decimal r.status in
    let reason = reason_said r.status r.reason in
    is_line-append (s ++ codes " ") reason (is_line-append s (codes " ") b refl)
      (clean-reason r.status r.reason c.reason)

-- A reader of lines finds, in the dump of a request without a CR in its first line and its
-- headers, the first line, `connection` unless it is a websocket, every other header in order, and
-- the length of a body that is not empty, up to the first empty line, and the body behind it.
pub read_head-dump_request :
    (r : HttpRequest)
    → CleanRequest r
    → read_head false [] (dump_request r) ≡ some (request_lines r, r.body)
read_head-dump_request r c =
    let cl = connection_lines r.websocket r.close in
    let hl = header_lines r.websocket r.headers in
    rw (dump_request-lines r) (
      read_head-lines (request_lines r) r.body (
        rw (is_line-request r c) (
          are_lines-append (cl ++ hl) (length_lines r.body)
            (are_lines-append cl hl (are_lines-connection r.websocket r.close)
              (are_lines-header_lines r.websocket r.headers c.headers))
            (are_lines-length r.body))))

-- A reader of lines finds, in the dump of a response without a CR in its reason, headers and
-- cookies, the status line, the headers but `connection` unless it is a websocket, the cookies,
-- `connection` unless it is one, and the length of a body that is not empty, up to the first empty
-- line, and the body behind it.
pub read_head-dump_response :
    (r : HttpResponse)
    → CleanResponse r
    → read_head false [] (dump_response r) ≡ some (response_lines r, r.body)
read_head-dump_response r c =
    let hl = header_lines r.websocket r.headers in
    let kl = cookie_lines r.cookies in
    let cl = connection_lines r.websocket r.close in
    rw (dump_response-lines r) (
      read_head-lines (response_lines r) r.body (
        rw (is_line-response r c) (
          are_lines-append (hl ++ kl ++ cl) (length_lines r.body)
            (are_lines-append (hl ++ kl) cl
              (are_lines-append hl kl (are_lines-header_lines r.websocket r.headers c.headers)
                (are_lines-cookies r.cookies c.cookies))
              (are_lines-connection r.websocket r.close))
            (are_lines-length r.body))))
