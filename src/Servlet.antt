-- ===== src/Servlet.antt =====
-- dwframe/http/servlet.h and dwframe/http/servlet.cc: which servlet answers a request. A URI is the
-- list of its characters. A servlet is a value of a type `A`, what it does is a parameter of
-- `handle`, and so is `fnmatch`, from the C library: whether a pattern matches a path. The hash
-- table of exact URIs is a list with one entry for each key. Each operation runs under its lock.
pub mod Tables
pub mod Matching
use dwframe.Base.{
  ℕ, Bool, true, false, Option, none, some, List, [], ◌∷◌, ◌++◌, if◌then◌else◌, ◌==◌, ◌&&◌,
}
use dwframe.Base.Text.{same_text}

abbrev pub Uri : Type 0
Uri = List ℕ

-- `HoldServletCreator`, with its servlet, and `ServletCreator<T>`, with what `new T` makes.
pub data Creator {ℓ} (A : Type ℓ) : Type ℓ where
  hold create : A → Creator A

abbrev pub servlet_of {ℓ} : {A : Type ℓ} → Creator A → A
servlet_of (hold a) = a
servlet_of (create a) = a

-- What `creator->get()` gives, or a null pointer where there is no creator.
abbrev pub served {ℓ} : {A : Type ℓ} → Option (Creator A) → Option A
served none = none
served (some c) = some (servlet_of c)

pub record Entry {ℓ} (A : Type ℓ) : Type ℓ where
  pub key : Uri
  pub creator : Creator A

pub record ServletDispatch {ℓ} (A : Type ℓ) : Type ℓ where
  pub datas : List (Entry A)
  pub globs : List (Entry A)
  pub default : Option A

abbrev pub new_servlet_dispatch {ℓ} : {A : Type ℓ} → A → ServletDispatch A
new_servlet_dispatch not_found = record { datas = []; globs = []; default = some not_found }

-- `m_datas[uri] = creator`.
unfoldable pub put {ℓ} : {A : Type ℓ} → Uri → Creator A → List (Entry A) → List (Entry A)
put uri c [] = (record { key = uri; creator = c }) ∷ []
put uri c (e ∷ es) =
    let rest = put uri c es in
    if same_text e.key uri then record e { creator = c } ∷ es else e ∷ rest

-- The loop that erases the first entry with the key.
unfoldable pub erase_first {ℓ} : {A : Type ℓ} → Uri → List (Entry A) → List (Entry A)
erase_first uri [] = []
erase_first uri (e ∷ es) =
    let rest = erase_first uri es in if same_text e.key uri then es else e ∷ rest

-- The first entry that passes a test.
unfoldable pub find_first {ℓ} : {A : Type ℓ} → (Uri → Bool) → List (Entry A) → Option (Creator A)
find_first test [] = none
find_first test (e ∷ es) =
    let rest = find_first test es in if test e.key then some e.creator else rest

-- `addServlet` and `addServletCreator`.
unfoldable pub add_servlet_creator {ℓ} :
    {A : Type ℓ} → Uri → Creator A → ServletDispatch A → ServletDispatch A
add_servlet_creator uri c d = record d { datas = put uri c d.datas }

-- The two `addServlet`, for a servlet and for a callback that a `FunctionServlet` wraps.
unfoldable pub add_servlet {ℓ} : {A : Type ℓ} → Uri → A → ServletDispatch A → ServletDispatch A
unfolding add_servlet_creator
add_servlet uri slt d = add_servlet_creator uri (hold slt) d

-- `addGlobServletCreator`: the entry for the pattern is erased and the new one is put at the end.
unfoldable pub add_glob_servlet_creator {ℓ} :
    {A : Type ℓ} → Uri → Creator A → ServletDispatch A → ServletDispatch A
add_glob_servlet_creator uri c d = record d {
  globs = erase_first uri d.globs ++ ((record { key = uri; creator = c }) ∷ []);
}

unfoldable pub add_glob_servlet {ℓ} : {A : Type ℓ} → Uri → A → ServletDispatch A → ServletDispatch A
unfolding add_glob_servlet_creator
add_glob_servlet uri slt d = add_glob_servlet_creator uri (hold slt) d

unfoldable pub del_servlet {ℓ} : {A : Type ℓ} → Uri → ServletDispatch A → ServletDispatch A
del_servlet uri d = record d { datas = erase_first uri d.datas }

unfoldable pub del_glob_servlet {ℓ} : {A : Type ℓ} → Uri → ServletDispatch A → ServletDispatch A
del_glob_servlet uri d = record d { globs = erase_first uri d.globs }

unfoldable pub get_servlet {ℓ} : {A : Type ℓ} → Uri → ServletDispatch A → Option A
get_servlet uri d = served (find_first (λ k. same_text k uri) d.datas)

unfoldable pub get_glob_servlet {ℓ} : {A : Type ℓ} → Uri → ServletDispatch A → Option A
get_glob_servlet uri d = served (find_first (λ k. same_text k uri) d.globs)

-- `getMatchedServlet`: the exact entry, else the first pattern that matches, else the default.
unfoldable pub get_matched_servlet {ℓ} :
    {A : Type ℓ} → (Uri → Uri → Bool) → Uri → ServletDispatch A → Option A
get_matched_servlet fnmatch uri d = elim (find_first (λ k. same_text k uri) d.datas) [
  | some c ↦ some (servlet_of c)
  | none ↦ elim (find_first (λ k. fnmatch k uri) d.globs) [
    | some c ↦ some (servlet_of c)
    | none ↦ d.default
  ]
]

-- `ServletDispatch::handle` runs the servlet on the request, with its path; it answers 0 always.
unfoldable pub handle {ℓ κ} :
    {A : Type ℓ} {S : Type κ} → (Uri → Uri → Bool) → (A → S → S) → Uri → ServletDispatch A → S → S
unfolding get_matched_servlet
handle fnmatch run path d s = elim (get_matched_servlet fnmatch path d) [
  | none ↦ s
  | some slt ↦ run slt s
]
