-- ===== src/Http/Dump.antt =====
-- The texts that `dump` of dwframe/http/http.cc makes of a request and of a response.
pub mod Lines
pub mod Layout
pub mod Framing
use dwframe.Base.{
  ℕ, ◌/◌, ◌%◌, Bool, true, false, not, ◌&&◌, List, [], ◌∷◌, ◌++◌, if◌then◌else◌, length,
}
use dwframe.Base.Text.{Text, codes, fold_case, same_text, decimal}
use dwframe.Http.Method.{http_method_to_string}
use dwframe.Http.Status.{http_status_to_string}
use dwframe.Http.Fields.{Fields}
use dwframe.Http.Request.{HttpRequest}
use dwframe.Http.Response.{HttpResponse}

abbrev pub crlf : Text
crlf = 13 ∷ 10 ∷ []

-- `HTTP/` with the two halves of the version.
abbrev pub version_text : ℕ → Text
version_text version =
    codes "HTTP/" ++ decimal (version / 16) ++ codes "." ++ decimal (version % 16)

abbrev pub connection_text : Bool → Text
connection_text close =
    codes "connection: " ++ (if close then codes "close" else codes "keep-alive")

-- Whether the loop over the headers skips this one.
abbrev pub skipped : Bool → Text → Bool
skipped websocket key = not websocket && same_text (fold_case key) (codes "connection")

abbrev pub field_text : Text × Text → Text
field_text f = f.0 ++ codes ": " ++ f.1

-- The loop over the headers.
unfoldable pub dump_headers : Bool → Fields → Text
dump_headers websocket [] = []
dump_headers websocket (f ∷ m) =
    let rest = dump_headers websocket m in
    if skipped websocket f.0 then rest else field_text f ++ crlf ++ rest

-- The loop over the cookies of a response.
unfoldable pub dump_cookies : List Text → Text
dump_cookies [] = []
dump_cookies (c ∷ cs) = codes "Set-Cookie: " ++ c ++ crlf ++ dump_cookies cs

abbrev pub connection_line : Bool → Bool → Text
connection_line websocket close = if websocket then [] else connection_text close ++ crlf

abbrev pub length_text : Text → Text
length_text body = codes "content-length: " ++ decimal (length body)

unfoldable pub dump_body : Text → Text
dump_body [] = crlf
dump_body (b ∷ body) = length_text (b ∷ body) ++ crlf ++ crlf ++ (b ∷ body)

-- A part of a request line with the character before it, where there is one.
abbrev pub part : Text → Text → Text
part mark [] = []
part mark (c ∷ s) = mark ++ (c ∷ s)

abbrev pub request_line : HttpRequest → Text
request_line r =
    http_method_to_string r.method
    ++ codes " "
    ++ r.path
    ++ part (codes "?") r.query
    ++ part (codes "#") r.fragment
    ++ codes " "
    ++ version_text r.version

unfoldable pub dump_request : HttpRequest → Text
unfolding dump_headers dump_body
dump_request r =
    request_line r
    ++ crlf
    ++ connection_line r.websocket r.close
    ++ dump_headers r.websocket r.headers
    ++ dump_body r.body

abbrev pub reason_or : Text → Text → Text
reason_or message [] = message
reason_or message (c ∷ s) = c ∷ s

abbrev pub status_line : HttpResponse → Text
status_line r =
    version_text r.version
    ++ codes " "
    ++ decimal r.status
    ++ codes " "
    ++ reason_or (http_status_to_string r.status) r.reason

unfoldable pub dump_response : HttpResponse → Text
unfolding dump_headers dump_cookies dump_body
dump_response r =
    status_line r
    ++ crlf
    ++ dump_headers r.websocket r.headers
    ++ dump_cookies r.cookies
    ++ connection_line r.websocket r.close
    ++ dump_body r.body
