-- ===== src/Http/Dump/Layout.antt =====
-- The lines of the texts that dwframe/http/http.cc writes.
use dwframe.Base.{
  ℕ, ◌/◌, ◌%◌, not, ◌&&◌, length, ◌≡◌, refl, ap, ◌∙◌, inl, inr, Bool-cases, Bool, true, false, List,
  [], ◌∷◌, ◌++◌, append_assoc, append-nil, if◌then◌else◌,
}
use dwframe.Base.Text.{Text, codes, fold_case, same_text, decimal}
use dwframe.Http.Method.{http_method_to_string}
use dwframe.Http.Status.{http_status_to_string}
use dwframe.Http.Fields.{Fields}
use dwframe.Http.Request.{HttpRequest}
use dwframe.Http.Response.{HttpResponse}
use dwframe.Http.Dump.{
  crlf, connection_line, skipped, field_text, length_text, dump_headers, dump_cookies, dump_body,
  part, reason_or, request_line, dump_request, status_line, dump_response,
}
use dwframe.Http.Dump.Lines.{ended, ended-append}

-- The line that says whether the connection is kept.
abbrev pub connection_said : Bool → Text
connection_said true = codes "connection: close"
connection_said false = codes "connection: keep-alive"

-- The header lines that are written: all for a websocket, else all but `connection` in any case.
abbrev pub header_lines : Bool → Fields → List Text
header_lines websocket [] = []
header_lines websocket (f ∷ m) =
    if not websocket && same_text (fold_case f.0) (codes "connection")
    then header_lines websocket m
    else (f.0 ++ codes ": " ++ f.1) ∷ header_lines websocket m

abbrev pub connection_lines : Bool → Bool → List Text
connection_lines websocket close = if websocket then [] else connection_said close ∷ []

abbrev pub length_lines : Text → List Text
length_lines [] = []
length_lines (b ∷ body) = (codes "content-length: " ++ decimal (length (b ∷ body))) ∷ []

abbrev pub cookie_lines : List Text → List Text
cookie_lines [] = []
cookie_lines (c ∷ cs) = (codes "Set-Cookie: " ++ c) ∷ cookie_lines cs

-- The version of the protocol, whose halves are the two numbers of a byte.
abbrev pub version_said : ℕ → Text
version_said v = codes "HTTP/" ++ decimal (v / 16) ++ codes "." ++ decimal (v % 16)

-- A query stands behind a question mark and a fragment behind a number sign, where they are not empty.
abbrev pub query_said : Text → Text
query_said [] = []
query_said (c ∷ s) = codes "?" ++ (c ∷ s)

abbrev pub fragment_said : Text → Text
fragment_said [] = []
fragment_said (c ∷ s) = codes "#" ++ (c ∷ s)

abbrev pub first_line : HttpRequest → Text
first_line r =
    http_method_to_string r.method
    ++ codes " "
    ++ r.path
    ++ query_said r.query
    ++ fragment_said r.fragment
    ++ codes " "
    ++ version_said r.version

-- The reason of a response is its own, or the one of the table for its status.
abbrev pub reason_said : ℕ → Text → Text
reason_said status [] = http_status_to_string status
reason_said status (c ∷ s) = c ∷ s

abbrev pub answer_line : HttpResponse → Text
answer_line r =
    version_said r.version
    ++ codes " "
    ++ decimal r.status
    ++ codes " "
    ++ reason_said r.status r.reason

first_line_lem : (r : HttpRequest) → request_line r ≡ first_line r
first_line_lem r = rw (query r.query, fragment r.fragment) refl
  where
    query : (q : Text) → part (codes "?") q ≡ query_said q
    query [] = refl
    query (c ∷ q) = refl

    fragment : (q : Text) → part (codes "#") q ≡ fragment_said q
    fragment [] = refl
    fragment (c ∷ q) = refl

reason_lem :
    (status : ℕ) (s : Text) → reason_or (http_status_to_string status) s ≡ reason_said status s
reason_lem status [] = refl
reason_lem status (c ∷ s) = refl

answer_line_lem : (r : HttpResponse) → status_line r ≡ answer_line r
answer_line_lem r = rw (reason_lem r.status r.reason) refl

-- The lines of a request: the first one, `connection` unless it is a websocket, each header but
-- `connection`, and the length of the body where there is one.
abbrev pub request_lines : HttpRequest → List Text
request_lines r =
    first_line r
    ∷ (connection_lines r.websocket r.close
        ++ header_lines r.websocket r.headers
        ++ length_lines r.body)

-- The lines of a response, in the order it has them.
abbrev pub response_lines : HttpResponse → List Text
response_lines r =
    answer_line r
    ∷ (header_lines r.websocket r.headers
        ++ cookie_lines r.cookies
        ++ connection_lines r.websocket r.close
        ++ length_lines r.body)

ended-headers : (w : Bool) (m : Fields) → dump_headers w m ≡ ended (header_lines w m)
unfolding dump_headers
ended-headers w [] = refl
ended-headers w (f ∷ m) = elim (Bool-cases (skipped w f.0)) [
  | inl t ↦ rw t (ended-headers w m)
  | inr t ↦ rw (t, ended-headers w m) (append_assoc (field_text f) crlf (ended (header_lines w m)))
]

ended-connection : (w c : Bool) → connection_line w c ≡ ended (connection_lines w c)
ended-connection true c = refl
ended-connection false true = refl
ended-connection false false = refl

ended-cookies : (cs : List Text) → dump_cookies cs ≡ ended (cookie_lines cs)
unfolding dump_cookies
ended-cookies [] = refl
ended-cookies (c ∷ cs) =
    rw (ended-cookies cs) (append_assoc (codes "Set-Cookie: " ++ c) crlf (ended (cookie_lines cs)))

ended-length : (body : Text) → dump_body body ≡ ended (length_lines body) ++ (crlf ++ body)
unfolding dump_body
ended-length [] = refl
ended-length (b ∷ body) = glue (length_text (b ∷ body)) crlf (b ∷ body)
  where
    glue : (t u v : Text) → t ++ u ++ u ++ v ≡ (t ++ (u ++ [])) ++ (u ++ v)
    glue t u v = simp (append_assoc, append-nil)

pub dump_request-lines :
    (r : HttpRequest) → dump_request r ≡ ended (request_lines r) ++ (crlf ++ r.body)
unfolding dump_request
dump_request-lines r =
    let cl = connection_lines r.websocket r.close in
    let hl = header_lines r.websocket r.headers in
    let ll = length_lines r.body in
    let split : dump_request r ≡ ended (request_line r ∷ (cl ++ hl ++ ll)) ++ (crlf ++ r.body) =
      rw
        (
          ended-connection r.websocket r.close,
          ended-headers r.websocket r.headers,
          ended-length r.body,
          ended-append (cl ++ hl) ll,
          ended-append cl hl,
        )
        (glue (request_line r) crlf (ended cl) (ended hl) (ended ll) (crlf ++ r.body)) in
    split ∙ ap (λ a. ended (a ∷ (cl ++ hl ++ ll)) ++ (crlf ++ r.body)) (first_line_lem r)
  where
    glue : (a u c h l b : Text) → a ++ u ++ c ++ h ++ (l ++ b) ≡ (a ++ (u ++ (c ++ h ++ l))) ++ b
    glue a u c h l b = simp (append_assoc)

pub dump_response-lines :
    (r : HttpResponse) → dump_response r ≡ ended (response_lines r) ++ (crlf ++ r.body)
unfolding dump_response
dump_response-lines r =
    let hl = header_lines r.websocket r.headers in
    let kl = cookie_lines r.cookies in
    let cl = connection_lines r.websocket r.close in
    let ll = length_lines r.body in
    let split : dump_response r
        ≡ ended (status_line r ∷ (hl ++ kl ++ cl ++ ll)) ++ (crlf ++ r.body) =
      rw
        (
          ended-headers r.websocket r.headers,
          ended-cookies r.cookies,
          ended-connection r.websocket r.close,
          ended-length r.body,
          ended-append (hl ++ kl ++ cl) ll,
          ended-append (hl ++ kl) cl,
          ended-append hl kl,
        )
        (glue (status_line r) crlf (ended hl) (ended kl) (ended cl) (ended ll) (crlf ++ r.body)) in
    split ∙ ap (λ a. ended (a ∷ (hl ++ kl ++ cl ++ ll)) ++ (crlf ++ r.body)) (answer_line_lem r)
  where
    glue :
        (a u h k c l b : Text)
        → a ++ u ++ h ++ k ++ c ++ (l ++ b) ≡ (a ++ (u ++ (h ++ k ++ c ++ l))) ++ b
    glue a u h k c l b = simp (append_assoc)
