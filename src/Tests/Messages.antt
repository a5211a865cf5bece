-- ===== src/Tests/Messages.antt =====
-- Requests and responses for dwframe/http/http.cc.
use dwframe.Base.{◌≡◌, ◌≢◌, refl, Bool, true, false, some, [], ◌∷◌}
use dwframe.Base.Text.{Text, codes}
use dwframe.Http.Fields.{assign}
use dwframe.Http.Method.{HttpMethod, invalid_method, Named, http_method-Named}
use dwframe.Http.Request.{HttpRequest, new_http_request}
use dwframe.Http.Request.Tables.{IsValid, TableLaws, request-TableLaws}
use dwframe.Http.Response.{HttpResponse, new_http_response, set_redirect, set_response_cookie}
use dwframe.Http.Dump.{dump_request, dump_response}
use dwframe.Http.Dump.Lines.{read_head}
use dwframe.Http.Dump.Layout.{request_lines, response_lines}
use dwframe.Http.Dump.Framing.{
  CleanRequest, read_head-dump_request, CleanResponse, read_head-dump_response,
}

m_search-known : HttpMethod.msearch ≢ invalid_method
m_search-known e = absurd (cc)

http_method-Named_example : Named HttpMethod.msearch
http_method-Named_example = http_method-Named HttpMethod.msearch m_search-known

abbrev post : HttpRequest
post = record (new_http_request 17 false) {
  method = HttpMethod.post;
  path = codes "/login";
  query = codes "a=1";
  body = codes "name=x";
  headers = (codes "Accept", codes "*/*") ∷ (codes "Host", codes "dwframe.top") ∷ [];
}

post-IsValid : IsValid post
post-IsValid = record { headers = ((refl, tt), (tt, tt)); params = tt; cookies = tt }

abbrev is_form : Text → Bool
is_form t = true

request-TableLaws_example : TableLaws is_form (codes "HOST") (codes "host") (codes "b.org") [] post
request-TableLaws_example =
    request-TableLaws is_form (codes "HOST") (codes "host") (codes "b.org") [] post post-IsValid

post-Clean : CleanRequest post
post-Clean = record { path = refl; query = refl; fragment = refl; headers = refl }

read_head-dump_request_example :
    read_head false [] (dump_request post) ≡ some (request_lines post, codes "name=x")
read_head-dump_request_example = read_head-dump_request post post-Clean

abbrev moved : HttpResponse
moved = record (new_http_response 17 true) {
  status = 302;
  headers = (codes "Location", codes "/home") ∷ [];
  cookies = codes "id=7;path=/" ∷ [];
  body = codes "gone";
}

moved-Clean : CleanResponse moved
moved-Clean = record { reason = refl; headers = refl; cookies = refl }

read_head-dump_response_example :
    read_head false [] (dump_response moved) ≡ some (response_lines moved, codes "gone")
read_head-dump_response_example = read_head-dump_response moved moved-Clean

-- What the redirection and the cookie are as the code sets them.
moved-made :
    record moved { body = [] }
    ≡ set_response_cookie
        (codes "id")
        (codes "7")
        0
        (codes "/")
        []
        false
        (set_redirect (codes "/home") (new_http_response 17 true))
unfolding set_response_cookie set_redirect assign
moved-made = refl
