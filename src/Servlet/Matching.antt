-- ===== src/Servlet/Matching.antt =====
-- The choice of the servlet for a request, in dwframe/http/servlet.cc.
use dwframe.Base.{
  ◌≡◌, refl, ◌⊎◌, inl, inr, Bool-cases, Bool, true, false, Option, none, some, List, [], ◌∷◌, ◌++◌,
  All,
}
use dwframe.Base.Text.{same_text}
use dwframe.Servlet.{Uri, servlet_of, Entry, ServletDispatch, find_first, get_matched_servlet}

-- An entry passes the test, and none before it does.
pub record First {ℓ} {A : Type ℓ} (test : Uri → Bool) (es : List (Entry A)) (e : Entry A)
    : Type ℓ where
  pub earlier : List (Entry A)
  pub later : List (Entry A)
  pub split : es ≡ earlier ++ (e ∷ later)
  pub skipped : All (λ x. test x.key ≡ false) earlier
  pub passes : test e.key ≡ true

abbrev pub NonePasses {ℓ} : {A : Type ℓ} → (Uri → Bool) → List (Entry A) → Type 0
NonePasses test es = All (λ x. test x.key ≡ false) es

-- Where the search ends: at the first entry that passes, or nowhere.
find_first_cases {ℓ} :
    {A : Type ℓ} (test : Uri → Bool) (es : List (Entry A))
    → ((e : Entry A) × First test es e × (find_first test es ≡ some e.creator))
      ⊎ (NonePasses test es × (find_first test es ≡ none))
unfolding find_first
find_first_cases test [] = inr (tt, refl)
find_first_cases test (e ∷ es) = elim (Bool-cases (test e.key)) [
  | inl t ↦
      inl (e, record { earlier = []; later = es; split = refl; skipped = tt; passes = t }, rw t)
  | inr t ↦ elim (find_first_cases test es) [
    | inl (x, f, p) ↦ inl (
      x,
      record {
        earlier = e ∷ f.earlier;
        later = f.later;
        split = rw f.split;
        skipped = (t, f.skipped);
        passes = f.passes;
      },
      rw (t, p),
    )
    | inr (f, p) ↦ inr ((t, f), rw (t, p))
  ]
]

-- Who answers a path: an exact entry; or, where there is none, the first pattern that matches; or,
-- where there is none of these either, the default.
pub data Chosen {ℓ} {A : Type ℓ} (fnmatch : Uri → Uri → Bool) (path : Uri) (d : ServletDispatch A)
    : Option A → Type ℓ where
  exact :
      (e : Entry A)
      → First (λ k. same_text k path) d.datas e
      → Chosen fnmatch path d (some (servlet_of e.creator))
  glob :
      (e : Entry A)
      → NonePasses (λ k. same_text k path) d.datas
      → First (λ k. fnmatch k path) d.globs e
      → Chosen fnmatch path d (some (servlet_of e.creator))
  otherwise :
      NonePasses (λ k. same_text k path) d.datas
      → NonePasses (λ k. fnmatch k path) d.globs
      → Chosen fnmatch path d d.default

-- Whatever `fnmatch` answers, `getMatchedServlet` gives the servlet of an exact entry; or, where
-- there is none, of the first pattern that matches; or, where there is none of these either, the
-- default.
pub get_matched-Chosen {ℓ} :
    {A : Type ℓ} (fnmatch : Uri → Uri → Bool) (path : Uri) (d : ServletDispatch A)
    → Chosen fnmatch path d (get_matched_servlet fnmatch path d)
unfolding get_matched_servlet
get_matched-Chosen fnmatch path d = elim (find_first_cases (λ k. same_text k path) d.datas) [
  | inl (e, f, p) ↦ rw (p, get_matched_servlet) (exact e f)
  | inr (f, p) ↦ elim (find_first_cases (λ k. fnmatch k path) d.globs) [
    | inl (e, g, q) ↦ rw (p, q, get_matched_servlet) (glob e f g)
    | inr (g, q) ↦ rw (p, q, get_matched_servlet) (otherwise f g)
  ]
]
