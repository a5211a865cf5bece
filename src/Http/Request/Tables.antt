-- ===== src/Http/Request/Tables.antt =====
-- The headers, parameters and cookies of a request in dwframe/http/http.cc.
use dwframe.Base.{ℕ, [], ◌≡◌, refl, ap, ◌∙◌, inl, inr, Bool-cases, Bool, true, false, if◌then◌else◌}
use dwframe.Base.Text.{Text, same_text}
use dwframe.Http.Fields.{Fields, find, assign, erase, value_or}
use dwframe.Http.Fields.Laws.{
  same_key, Sorted, assign-Sorted, erase-Sorted, find-assign, find-erase,
}
use dwframe.Http.Request.{
  HttpRequest, flagged, get_header, set_header, del_header, set_param, del_param, set_cookie,
  del_cookie, init_query_param, init_body_param, init_cookies, get_param, get_cookie,
}

-- The three maps are in the order of their keys.
pub record IsValid (r : HttpRequest) : Type 0 where
  pub headers : Sorted r.headers
  pub params : Sorted r.params
  pub cookies : Sorted r.cookies

-- Two requests with the same maps.
record Tabled (r s : HttpRequest) : Type 0 where
  headers : s.headers ≡ r.headers
  params : s.params ≡ r.params
  cookies : s.cookies ≡ r.cookies

then-Tabled : (r s t : HttpRequest) → Tabled r s → Tabled s t → Tabled r t
then-Tabled r s t a b = record {
  headers = b.headers ∙ a.headers;
  params = b.params ∙ a.params;
  cookies = b.cookies ∙ a.cookies;
}

if-Tabled :
    (b : Bool) (r s t : HttpRequest) → Tabled r s → Tabled r t → Tabled r (if b then s else t)
if-Tabled true r s t x y = x
if-Tabled false r s t x y = y

refl-Tabled : (r : HttpRequest) → Tabled r r
refl-Tabled r = record { headers = refl; params = refl; cookies = refl }

flag-Tabled : (n : ℕ) (r : HttpRequest) → Tabled r (record r { parser_param_flag = n })
flag-Tabled n r = record { headers = refl; params = refl; cookies = refl }

init_query_param-Tabled : (r : HttpRequest) → Tabled r (init_query_param r)
unfolding init_query_param
init_query_param-Tabled r =
    if-Tabled (flagged 1 r.parser_param_flag) r r _ (refl-Tabled r) (flag-Tabled _ r)

init_body_param-Tabled :
    (is_form : Text → Bool) (r : HttpRequest) → Tabled r (init_body_param is_form r)
unfolding init_body_param
init_body_param-Tabled is_form r =
    if-Tabled (flagged 2 r.parser_param_flag) r r _ (refl-Tabled r)
      (if-Tabled (is_form _) r _ _ (flag-Tabled _ r) (flag-Tabled _ r))

init_cookies-Tabled : (r : HttpRequest) → Tabled r (init_cookies r)
unfolding init_cookies
init_cookies-Tabled r =
    if-Tabled (flagged 4 r.parser_param_flag) r r _ (refl-Tabled r)
      (if-Tabled (same_text _ []) r _ _ (flag-Tabled _ r) (flag-Tabled _ r))

init_params-Tabled :
    (is_form : Text → Bool) (r : HttpRequest)
    → Tabled r (init_body_param is_form (init_query_param r))
init_params-Tabled is_form r =
    then-Tabled r (init_query_param r) _ (init_query_param-Tabled r)
      (init_body_param-Tabled is_form (init_query_param r))

get_param-value :
    (is_form : Text → Bool) (key def : Text) (r : HttpRequest)
    → (get_param is_form key def r).0 ≡ value_or def (find key r.params)
unfolding get_param
get_param-value is_form key def r =
    ap (λ m. value_or def (find key m)) (init_params-Tabled is_form r).params

get_cookie-value :
    (key def : Text) (r : HttpRequest)
    → (get_cookie key def r).0 ≡ value_or def (find key r.cookies)
unfolding get_cookie
get_cookie-value key def r = ap (λ m. value_or def (find key m)) (init_cookies-Tabled r).cookies

value-assign :
    (key j val def : Text) (m : Fields)
    → value_or def (find j (assign key val m))
      ≡ (if same_key key j then val else value_or def (find j m))
value-assign key j val def m = elim (Bool-cases (same_key key j)) [
  | inl t ↦ rw (find-assign key j val m, t)
  | inr t ↦ rw (find-assign key j val m, t)
]

value-erase :
    (key j def : Text) (m : Fields)
    → Sorted m
    → value_or def (find j (erase key m))
      ≡ (if same_key key j then def else value_or def (find j m))
value-erase key j def m s = elim (Bool-cases (same_key key j)) [
  | inl t ↦ rw (find-erase key j m s, t)
  | inr t ↦ rw (find-erase key j m s, t)
]

-- What setting and deleting an entry do to the reading of another key, which may be the same but
-- for case, and to the order of the maps.
pub record TableLaws (is_form : Text → Bool) (key j val def : Text) (r : HttpRequest) : Type 0 where
  pub set_valid :
      IsValid (set_header key val r)
      × IsValid (set_param key val r)
      × IsValid (set_cookie key val r)
  pub del_valid :
      IsValid (del_header key r) × IsValid (del_param key r) × IsValid (del_cookie key r)
  pub header_set :
      get_header j def (set_header key val r) ≡ (if same_key key j then val else get_header j def r)
  pub header_del :
      get_header j def (del_header key r) ≡ (if same_key key j then def else get_header j def r)
  pub param_set :
      (get_param is_form j def (set_param key val r)).0
      ≡ (if same_key key j then val else (get_param is_form j def r).0)
  pub param_del :
      (get_param is_form j def (del_param key r)).0
      ≡ (if same_key key j then def else (get_param is_form j def r).0)
  pub cookie_set :
      (get_cookie j def (set_cookie key val r)).0
      ≡ (if same_key key j then val else (get_cookie j def r).0)
  pub cookie_del :
      (get_cookie j def (del_cookie key r)).0
      ≡ (if same_key key j then def else (get_cookie j def r).0)

-- On a request whose maps are in the order of their keys, setting or deleting a header, parameter
-- or cookie keeps them so; reading a key that is the same but for case gives the value set, or the
-- default after deleting, and other keys read as before.
pub request-TableLaws :
    (is_form : Text → Bool) (key j val def : Text) (r : HttpRequest)
    → IsValid r
    → TableLaws is_form key j val def r
unfolding get_header set_header del_header set_param del_param set_cookie del_cookie
request-TableLaws is_form key j val def r v = record {
  set_valid = (
    record {
      headers = assign-Sorted key val r.headers v.headers;
      params = v.params;
      cookies = v.cookies;
    },
    record {
      headers = v.headers;
      params = assign-Sorted key val r.params v.params;
      cookies = v.cookies;
    },
    record {
      headers = v.headers;
      params = v.params;
      cookies = assign-Sorted key val r.cookies v.cookies;
    },
  );
  del_valid = (
    record {
      headers = erase-Sorted key r.headers v.headers;
      params = v.params;
      cookies = v.cookies;
    },
    record {
      headers = v.headers;
      params = erase-Sorted key r.params v.params;
      cookies = v.cookies;
    },
    record {
      headers = v.headers;
      params = v.params;
      cookies = erase-Sorted key r.cookies v.cookies;
    },
  );
  header_set = value-assign key j val def r.headers;
  header_del = value-erase key j def r.headers v.headers;
  param_set =
      rw (get_param-value is_form j def (set_param key val r), get_param-value is_form j def r)
        (value-assign key j val def r.params);
  param_del =
      rw (get_param-value is_form j def (del_param key r), get_param-value is_form j def r)
        (value-erase key j def r.params v.params);
  cookie_set =
      rw (get_cookie-value j def (set_cookie key val r), get_cookie-value j def r)
        (value-assign key j val def r.cookies);
  cookie_del =
      rw (get_cookie-value j def (del_cookie key r), get_cookie-value j def r)
        (value-erase key j def r.cookies v.cookies);
}

-- Without a stored parameter `getParam` answers the default, whatever the query and the body of
-- the request are.
get_param-unparsed :
    (is_form : Text → Bool) (key def query body : Text) (r : HttpRequest)
    → r.params ≡ []
    → (get_param is_form key def (record r { query = query; body = body })).0 ≡ def
unfolding find
get_param-unparsed is_form key def query body r e =
    get_param-value is_form key def (record r { query = query; body = body })
    ∙ ap (λ m. value_or def (find key m)) e
