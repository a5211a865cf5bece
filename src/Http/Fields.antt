-- ===== src/Http/Fields.antt =====
-- `HttpRequest::MapType` of dwframe/http/http.h: a `std::map` whose keys are compared without their
-- case, as a list of its pairs in the order of the keys.
pub mod Laws
use dwframe.Base.{Bool, true, false, Option, none, some, List, [], ◌∷◌, if◌then◌else◌}
use dwframe.Base.Text.{Text, fold_case, text_less}

abbrev pub Fields : Type 0
Fields = List (Text × Text)

-- `CaseInsensitiveLess::operator()`.
abbrev pub case_insensitive_less : Text → Text → Bool
case_insensitive_less lhs rhs = text_less (fold_case lhs) (fold_case rhs)

-- `m.find(key)`: the key equivalent to `key` is neither before it nor after it.
unfoldable pub find : Text → Fields → Option Text
find key [] = none
find key ((k, v) ∷ m) =
    let rest = find key m in
    if case_insensitive_less k key
    then rest
    else if case_insensitive_less key k
    then none
    else some v

-- `m[key] = val`, which leaves a key that is there as it is spelled.
unfoldable pub assign : Text → Text → Fields → Fields
assign key val [] = (key, val) ∷ []
assign key val ((k, v) ∷ m) =
    let rest = assign key val m in
    if case_insensitive_less k key
    then (k, v) ∷ rest
    else if case_insensitive_less key k
    then (key, val) ∷ (k, v) ∷ m
    else (k, val) ∷ m

-- `m.erase(key)`.
unfoldable pub erase : Text → Fields → Fields
erase key [] = []
erase key ((k, v) ∷ m) =
    let rest = erase key m in
    if case_insensitive_less k key
    then (k, v) ∷ rest
    else if case_insensitive_less key k
    then (k, v) ∷ m
    else m

-- What `getHeader` and its like give of a search.
abbrev pub value_or : Text → Option Text → Text
value_or def none = def
value_or def (some v) = v

-- The answer of `hasHeader` and its like, and what is in `val` after it.
abbrev pub has : Text → Option Text → Bool × Text
has val none = (false, val)
has val (some v) = (true, v)

-- `getAs`, with `boost::lexical_cast`, which throws or gives a value, as a parameter.
abbrev pub get_as {ℓ} : {T : Type ℓ} → (Text → Option T) → T → Option Text → T
get_as lexical_cast def none = def
get_as lexical_cast def (some v) = elim (lexical_cast v) [ none ↦ def | some t ↦ t ]

-- `checkGetAs`: its answer, and `val` after it.
abbrev pub check_get_as {ℓ} : {T : Type ℓ} → (Text → Option T) → T → Option Text → Bool × T
check_get_as lexical_cast def none = (false, def)
check_get_as lexical_cast def (some v) = elim (lexical_cast v) [
  | none ↦ (false, def)
  | some t ↦ (true, t)
]
