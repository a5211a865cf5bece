-- ===== src/Http/Request.antt =====
-- `HttpRequest` of dwframe/http/http.h and dwframe/http/http.cc. The calls that would parse the
-- parameters and cookies are commented out in the source; what is left of `initQueryParam`,
-- `initBodyParam` and `initCookies` sets a flag.
pub mod Tables
use dwframe.Base.{ℕ, ◌+◌, ◌/◌, ◌%◌, Bool, true, false, Option, [], if◌then◌else◌, ◌==◌}
use dwframe.Base.Text.{Text, codes, fold_case, same_text}
use dwframe.Http.Method.{HttpMethod}
use dwframe.Http.Fields.{Fields, find, assign, erase, value_or, has, get_as, check_get_as}

pub record HttpRequest : Type 0 where
  pub method : HttpMethod
  pub version : ℕ
  pub close : Bool
  pub websocket : Bool
  pub parser_param_flag : ℕ
  pub path : Text
  pub query : Text
  pub fragment : Text
  pub body : Text
  pub headers : Fields
  pub params : Fields
  pub cookies : Fields

abbrev pub new_http_request : ℕ → Bool → HttpRequest
new_http_request version close = record {
  method = HttpMethod.get;
  version = version;
  close = close;
  websocket = false;
  parser_param_flag = 0;
  path = codes "/";
  query = [];
  fragment = [];
  body = [];
  headers = [];
  params = [];
  cookies = [];
}

unfoldable pub get_header : Text → Text → HttpRequest → Text
get_header key def r = value_or def (find key r.headers)

unfoldable pub set_header : Text → Text → HttpRequest → HttpRequest
set_header key val r = record r { headers = assign key val r.headers }

unfoldable pub set_param : Text → Text → HttpRequest → HttpRequest
set_param key val r = record r { params = assign key val r.params }

unfoldable pub set_cookie : Text → Text → HttpRequest → HttpRequest
set_cookie key val r = record r { cookies = assign key val r.cookies }

unfoldable pub del_header : Text → HttpRequest → HttpRequest
del_header key r = record r { headers = erase key r.headers }

unfoldable pub del_param : Text → HttpRequest → HttpRequest
del_param key r = record r { params = erase key r.params }

unfoldable pub del_cookie : Text → HttpRequest → HttpRequest
del_cookie key r = record r { cookies = erase key r.cookies }

-- `hasHeader`, with what is in `val` before.
unfoldable pub has_header : Text → Text → HttpRequest → Bool × Text
has_header key val r = has val (find key r.headers)

-- The bit of weight `w` of the flags, and the flags with it.
abbrev pub flagged : ℕ → ℕ → Bool
flagged w flags = flags / w % 2 == 1

abbrev with_flag : ℕ → ℕ → ℕ
with_flag w flags = if flagged w flags then flags else flags + w

unfoldable pub init_query_param : HttpRequest → HttpRequest
init_query_param r =
    if flagged 1 r.parser_param_flag
    then r
    else record r { parser_param_flag = with_flag 1 r.parser_param_flag }

-- `strcasestr(text, part) != nullptr`, for a part in lower case, is a parameter: both branches that
-- its answer chooses end in the same state.
unfoldable pub init_body_param : (Text → Bool) → HttpRequest → HttpRequest
unfolding get_header
init_body_param is_form r =
    if flagged 2 r.parser_param_flag
    then r
    else if is_form (get_header (codes "content-type") [] r)
    then record r { parser_param_flag = with_flag 2 r.parser_param_flag }
    else record r { parser_param_flag = with_flag 2 r.parser_param_flag }

unfoldable pub init_cookies : HttpRequest → HttpRequest
unfolding get_header
init_cookies r =
    if flagged 4 r.parser_param_flag
    then r
    else if same_text (get_header (codes "cookie") [] r) []
    then record r { parser_param_flag = with_flag 4 r.parser_param_flag }
    else record r { parser_param_flag = with_flag 4 r.parser_param_flag }

unfoldable pub init_param : (Text → Bool) → HttpRequest → HttpRequest
unfolding init_query_param init_body_param init_cookies
init_param is_form r = init_cookies (init_body_param is_form (init_query_param r))

-- `getParam`: the value, and the request after it.
unfoldable pub get_param : (Text → Bool) → Text → Text → HttpRequest → Text × HttpRequest
unfolding init_query_param init_body_param
get_param is_form key def r =
    let s = init_body_param is_form (init_query_param r) in (value_or def (find key s.params), s)

unfoldable pub get_cookie : Text → Text → HttpRequest → Text × HttpRequest
unfolding init_cookies
get_cookie key def r = let s = init_cookies r in (value_or def (find key s.cookies), s)

unfoldable pub has_param : (Text → Bool) → Text → Text → HttpRequest → (Bool × Text) × HttpRequest
unfolding init_query_param init_body_param
has_param is_form key val r =
    let s = init_body_param is_form (init_query_param r) in (has val (find key s.params), s)

unfoldable pub has_cookie : Text → Text → HttpRequest → (Bool × Text) × HttpRequest
unfolding init_cookies
has_cookie key val r = let s = init_cookies r in (has val (find key s.cookies), s)

-- `getHeaderAs` and `checkGetHeaderAs`.
unfoldable pub get_header_as {ℓ} : {T : Type ℓ} → (Text → Option T) → Text → T → HttpRequest → T
get_header_as lexical_cast key def r = get_as lexical_cast def (find key r.headers)

unfoldable pub check_get_header_as {ℓ} :
    {T : Type ℓ} → (Text → Option T) → Text → T → HttpRequest → Bool × T
check_get_header_as lexical_cast key def r = check_get_as lexical_cast def (find key r.headers)

-- `init`: whether the connection is closed after this request.
unfoldable pub init : HttpRequest → HttpRequest
unfolding get_header
init r =
    let conn = get_header (codes "connection") [] r in
    if same_text conn []
    then r
    else if same_text (fold_case conn) (codes "keep-alive")
    then record r { close = false }
    else record r { close = true }
