-- ===== src/Http/Method.antt =====
-- The methods of dwframe/http/http.h and their names, in dwframe/http/http.cc.
use dwframe.Base.{
  ◌≡◌, ◌≢◌, refl, sym, inl, inr, Bool-cases, Bool, true, List, [], ◌∷◌, ◌++◌, if◌then◌else◌,
}
use dwframe.Base.Text.{Text, codes, c_str, same_text, starts_with, same_text→≡}

pub data HttpMethod : Type 0 where
  delete get head post put connect options trace copy : HttpMethod
  lock mkcol move propfind proppatch search unlock bind rebind : HttpMethod
  unbind acl report mkactivity checkout merge msearch notify subscribe : HttpMethod
  unsubscribe patch purge mkcalendar link unlink source invalid_method : HttpMethod

-- `HTTP_METHOD_MAP`, which is the order of the values too.
abbrev pub http_method_map : List HttpMethod
http_method_map =
    delete ∷ get ∷ head ∷ post ∷ put ∷ connect ∷ options ∷ trace ∷ copy ∷ lock ∷ mkcol ∷ move
    ∷ propfind ∷ proppatch ∷ search ∷ unlock ∷ bind ∷ rebind ∷ unbind ∷ acl ∷ report ∷ mkactivity
    ∷ checkout ∷ merge ∷ msearch ∷ notify ∷ subscribe ∷ unsubscribe ∷ patch ∷ purge ∷ mkcalendar
    ∷ link ∷ unlink ∷ source ∷ []

-- `HttpMethodToString`, over `s_method_string`.
abbrev pub http_method_to_string : HttpMethod → Text
http_method_to_string delete = codes "DELETE"
http_method_to_string get = codes "GET"
http_method_to_string head = codes "HEAD"
http_method_to_string post = codes "POST"
http_method_to_string put = codes "PUT"
http_method_to_string connect = codes "CONNECT"
http_method_to_string options = codes "OPTIONS"
http_method_to_string trace = codes "TRACE"
http_method_to_string copy = codes "COPY"
http_method_to_string lock = codes "LOCK"
http_method_to_string mkcol = codes "MKCOL"
http_method_to_string move = codes "MOVE"
http_method_to_string propfind = codes "PROPFIND"
http_method_to_string proppatch = codes "PROPPATCH"
http_method_to_string search = codes "SEARCH"
http_method_to_string unlock = codes "UNLOCK"
http_method_to_string bind = codes "BIND"
http_method_to_string rebind = codes "REBIND"
http_method_to_string unbind = codes "UNBIND"
http_method_to_string acl = codes "ACL"
http_method_to_string report = codes "REPORT"
http_method_to_string mkactivity = codes "MKACTIVITY"
http_method_to_string checkout = codes "CHECKOUT"
http_method_to_string merge = codes "MERGE"
http_method_to_string msearch = codes "M-SEARCH"
http_method_to_string notify = codes "NOTIFY"
http_method_to_string subscribe = codes "SUBSCRIBE"
http_method_to_string unsubscribe = codes "UNSUBSCRIBE"
http_method_to_string patch = codes "PATCH"
http_method_to_string purge = codes "PURGE"
http_method_to_string mkcalendar = codes "MKCALENDAR"
http_method_to_string link = codes "LINK"
http_method_to_string unlink = codes "UNLINK"
http_method_to_string source = codes "SOURCE"
http_method_to_string invalid_method = codes "<unknown>"

-- The first method of a list whose name passes a test.
unfoldable pub first_method : (Text → Bool) → List HttpMethod → HttpMethod
first_method test [] = invalid_method
first_method test (m ∷ ms) =
    let rest = first_method test ms in if test (http_method_to_string m) then m else rest

-- `StringToHttpMethod`.
unfoldable pub string_to_http_method : Text → HttpMethod
unfolding first_method
string_to_http_method m = first_method (λ name. same_text name (c_str m)) http_method_map

-- `CharsToHttpMethod`, on the bytes from the pointer on.
unfoldable pub chars_to_http_method : Text → HttpMethod
unfolding first_method
chars_to_http_method m = first_method (λ name. starts_with name m) http_method_map

-- The conversions of a method: its name gives it back, alone and before any other text; and a text
-- that gives it is its name, up to a 0 byte.
pub record Named (m : HttpMethod) : Type 0 where
  pub from_string : string_to_http_method (http_method_to_string m) ≡ m
  pub from_chars : (rest : Text) → chars_to_http_method (http_method_to_string m ++ rest) ≡ m
  pub only : (s : Text) → string_to_http_method s ≡ m → c_str s ≡ http_method_to_string m

first_method-passes :
    (test : Text → Bool) (ms : List HttpMethod) (m : HttpMethod)
    → m ≢ invalid_method
    → first_method test ms ≡ m
    → test (http_method_to_string m) ≡ true
unfolding first_method
first_method-passes test [] m d e = absurd (d (sym e))
first_method-passes test (x ∷ ms) m d e = elim (Bool-cases (test (http_method_to_string x))) [
  | inl t ↦ let same : x ≡ m = rw t at e in rw (sym same) t
  | inr t ↦ first_method-passes test ms m d (rw t at e)
]

string-Known :
    (m : HttpMethod) → m ≢ invalid_method → string_to_http_method (http_method_to_string m) ≡ m
unfolding string_to_http_method first_method
string-Known invalid_method d = absurd (d refl)
string-Known m d = refl

chars-Known :
    (m : HttpMethod) (rest : Text)
    → m ≢ invalid_method
    → chars_to_http_method (http_method_to_string m ++ rest) ≡ m
unfolding chars_to_http_method first_method
chars-Known invalid_method rest d = absurd (d refl)
chars-Known m rest d = refl

-- Every method but the invalid one is given back by its name, as a whole and in front of any other
-- text, and no other text gives it, up to a 0 byte.
pub http_method-Named : (m : HttpMethod) → m ≢ invalid_method → Named m
http_method-Named m d = record {
  from_string = string-Known m d;
  from_chars = λ rest. chars-Known m rest d;
  only = λ s e. sym (
      same_text→≡ (http_method_to_string m) (c_str s) (
        first_method-passes (λ name. same_text name (c_str s)) http_method_map m d
          (unfold string_to_http_method in e)));
}
