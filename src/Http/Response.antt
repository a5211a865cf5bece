-- ===== src/Http/Response.antt =====
-- `HttpResponse` of dwframe/http/http.h and dwframe/http/http.cc.
use dwframe.Base.{ℕ, Bool, false, List, [], ◌∷◌, ◌++◌, if◌then◌else◌}
use dwframe.Base.Text.{Text, codes, same_text}
use dwframe.Http.Fields.{Fields, find, assign, erase, value_or}
use dwframe.Http.Request.{HttpRequest}

pub record HttpResponse : Type 0 where
  pub status : ℕ
  pub version : ℕ
  pub close : Bool
  pub websocket : Bool
  pub body : Text
  pub reason : Text
  pub headers : Fields
  pub cookies : List Text

abbrev pub new_http_response : ℕ → Bool → HttpResponse
new_http_response version close = record {
  status = 200;
  version = version;
  close = close;
  websocket = false;
  body = [];
  reason = [];
  headers = [];
  cookies = [];
}

-- `HttpRequest::createResponse`.
abbrev pub create_response : HttpRequest → HttpResponse
create_response req = new_http_response req.version req.close

unfoldable pub get_response_header : Text → Text → HttpResponse → Text
get_response_header key def r = value_or def (find key r.headers)

unfoldable pub set_response_header : Text → Text → HttpResponse → HttpResponse
set_response_header key val r = record r { headers = assign key val r.headers }

unfoldable pub del_response_header : Text → HttpResponse → HttpResponse
del_response_header key r = record r { headers = erase key r.headers }

unfoldable pub set_redirect : Text → HttpResponse → HttpResponse
unfolding set_response_header
set_redirect uri r = set_response_header (codes "Location") uri (record r { status = 302 })

-- The attributes of a cookie; the one for `expired` is commented out in the source.
unfoldable pub cookie_text : Text → Text → Text → Text → Bool → Text
cookie_text key val path domain secure =
    key
    ++ codes "="
    ++ val
    ++ (if same_text domain [] then [] else codes ";domain=" ++ domain)
    ++ (if same_text path [] then [] else codes ";path=" ++ path)
    ++ (if secure then codes ";secure" else [])

unfoldable pub set_response_cookie :
    Text → Text → ℕ → Text → Text → Bool → HttpResponse → HttpResponse
unfolding cookie_text
set_response_cookie key val expired path domain secure r = record r {
  cookies = r.cookies ++ (cookie_text key val path domain secure ∷ []);
}
