-- ===== src/Servlet/Tables.antt =====
-- The tables of dwframe/http/servlet.cc as maps from URIs to creators.
use dwframe.Base.{
  ◌≡◌, ◌≢◌, refl, sym, ap, ◌∙◌, inl, inr, Bool-cases, false, Option, none, some, List, [], ◌∷◌,
  ◌++◌, All, All-append,
}
use dwframe.Base.Text.{same_text, same_text_refl, same_text→≡, same_text_other}
use dwframe.Servlet.{
  Uri, Creator, served, servlet_of, Entry, ServletDispatch, put, erase_first, find_first,
  add_servlet_creator, add_glob_servlet_creator, del_servlet, del_glob_servlet, get_servlet,
  get_glob_servlet,
}

-- The creator a table has for a URI.
abbrev pub entry_for {ℓ} : {A : Type ℓ} → Uri → List (Entry A) → Option (Creator A)
entry_for uri es = find_first (λ k. same_text k uri) es

-- No entry of the table has the URI.
abbrev pub Free {ℓ} : {A : Type ℓ} → Uri → List (Entry A) → Type 0
Free uri es = All (λ e. e.key ≢ uri) es

-- No two entries of the table have the same URI.
abbrev pub Unique {ℓ} : {A : Type ℓ} → List (Entry A) → Type 0
Unique [] = Unit
Unique (e ∷ es) = Free e.key es × Unique es

module _ {ℓ} {A : Type ℓ} where
  entry_for-Free : (uri : Uri) (es : List (Entry A)) → Free uri es → entry_for uri es ≡ none
  unfolding find_first
  entry_for-Free uri [] f = refl
  entry_for-Free uri (e ∷ es) f = rw (same_text_other e.key uri f.0) (entry_for-Free uri es f.1)

  entry_for-put :
      (uri : Uri) (c : Creator A) (es : List (Entry A)) → entry_for uri (put uri c es) ≡ some c
  unfolding put find_first
  entry_for-put uri c [] = rw (same_text_refl uri)
  entry_for-put uri c (e ∷ es) = elim (Bool-cases (same_text e.key uri)) [
    | inl t ↦ rw (t, t)
    | inr t ↦ rw (t, t) (entry_for-put uri c es)
  ]

  entry_for-put_other :
      (uri v : Uri) (c : Creator A) (es : List (Entry A))
      → uri ≢ v
      → entry_for v (put uri c es) ≡ entry_for v es
  unfolding put find_first
  entry_for-put_other uri v c [] d = rw (same_text_other uri v d)
  entry_for-put_other uri v c (e ∷ es) d = elim (Bool-cases (same_text e.key uri)) [
    | inl t ↦
        let other : same_text e.key v ≡ false =
          rw (same_text→≡ e.key uri t) (same_text_other uri v d) in
        rw (t, other)
    | inr t ↦ rw (t, entry_for-put_other uri v c es d)
  ]

  entry_for-erase :
      (uri : Uri) (es : List (Entry A)) → Unique es → entry_for uri (erase_first uri es) ≡ none
  unfolding erase_first find_first
  entry_for-erase uri [] u = refl
  entry_for-erase uri (e ∷ es) u = elim (Bool-cases (same_text e.key uri)) [
    | inl t ↦ rw t (entry_for-Free uri es (rw (same_text→≡ e.key uri t) at u.0))
    | inr t ↦ rw (t, t) (entry_for-erase uri es u.1)
  ]

  entry_for-erase_other :
      (uri v : Uri) (es : List (Entry A))
      → uri ≢ v
      → entry_for v (erase_first uri es) ≡ entry_for v es
  unfolding erase_first find_first
  entry_for-erase_other uri v [] d = refl
  entry_for-erase_other uri v (e ∷ es) d = elim (Bool-cases (same_text e.key uri)) [
    | inl t ↦
        let other : same_text e.key v ≡ false =
          rw (same_text→≡ e.key uri t) (same_text_other uri v d) in
        rw (t, other)
    | inr t ↦ rw (t, entry_for-erase_other uri v es d)
  ]

  put-Free :
      (uri v : Uri) (c : Creator A) (es : List (Entry A))
      → uri ≢ v
      → Free v es
      → Free v (put uri c es)
  unfolding put
  put-Free uri v c [] d f = (d, tt)
  put-Free uri v c (e ∷ es) d f = elim (Bool-cases (same_text e.key uri)) [
    | inl t ↦ rw t (f.0, f.1)
    | inr t ↦ rw t (f.0, put-Free uri v c es d f.1)
  ]

  put-Unique : (uri : Uri) (c : Creator A) (es : List (Entry A)) → Unique es → Unique (put uri c es)
  unfolding put
  put-Unique uri c [] u = (tt, tt)
  put-Unique uri c (e ∷ es) u = elim (Bool-cases (same_text e.key uri)) [
    | inl t ↦ rw t u
    | inr t ↦
        let differs : uri ≢ e.key =
          λ p. absurd (cc (t, same_text_refl uri, ap (λ k. same_text k uri) p)) in
        rw t (put-Free uri e.key c es differs u.0, put-Unique uri c es u.1)
  ]

  erase_first-Free : (uri v : Uri) (es : List (Entry A)) → Free v es → Free v (erase_first uri es)
  unfolding erase_first
  erase_first-Free uri v [] f = tt
  erase_first-Free uri v (e ∷ es) f = elim (Bool-cases (same_text e.key uri)) [
    | inl t ↦ rw t f.1
    | inr t ↦ rw t (f.0, erase_first-Free uri v es f.1)
  ]

  erase_first-Unique : (uri : Uri) (es : List (Entry A)) → Unique es → Unique (erase_first uri es)
  unfolding erase_first
  erase_first-Unique uri [] u = tt
  erase_first-Unique uri (e ∷ es) u = elim (Bool-cases (same_text e.key uri)) [
    | inl t ↦ rw t u.1
    | inr t ↦ rw t (erase_first-Free uri e.key es u.0, erase_first-Unique uri es u.1)
  ]

  erase_first-removes :
      (uri : Uri) (es : List (Entry A)) → Unique es → Free uri (erase_first uri es)
  unfolding erase_first
  erase_first-removes uri [] u = tt
  erase_first-removes uri (e ∷ es) u = elim (Bool-cases (same_text e.key uri)) [
    | inl t ↦ rw t (rw (same_text→≡ e.key uri t) at u.0)
    | inr t ↦
        let differs : e.key ≢ uri =
          λ p. absurd (cc (t, same_text_refl uri, ap (λ k. same_text k uri) p)) in
        rw t (differs, erase_first-removes uri es u.1)
  ]

  append-Unique :
      (uri : Uri) (c : Creator A) (es : List (Entry A))
      → Unique es
      → Free uri es
      → Unique (es ++ ((record { key = uri; creator = c }) ∷ []))
  append-Unique uri c [] u f = (tt, tt)
  append-Unique uri c (e ∷ es) u f = (
    All-append (λ x. x.key ≢ e.key) es _ u.0 ((λ p. f.0 (sym p)), tt),
    append-Unique uri c es u.1 f.1,
  )

  entry_for-append :
      (uri : Uri) (c : Creator A) (es : List (Entry A))
      → Free uri es
      → entry_for uri (es ++ ((record { key = uri; creator = c }) ∷ [])) ≡ some c
  unfolding find_first
  entry_for-append uri c [] f = rw (same_text_refl uri)
  entry_for-append uri c (e ∷ es) f =
      rw (same_text_other e.key uri f.0) (entry_for-append uri c es f.1)

  entry_for-append_other :
      (uri v : Uri) (c : Creator A) (es : List (Entry A))
      → uri ≢ v
      → entry_for v (es ++ ((record { key = uri; creator = c }) ∷ [])) ≡ entry_for v es
  unfolding find_first
  entry_for-append_other uri v c [] d = rw (same_text_other uri v d)
  entry_for-append_other uri v c (e ∷ es) d = rw (entry_for-append_other uri v c es d)

-- The two tables have one entry for each URI at most.
pub record IsValid {ℓ} {A : Type ℓ} (d : ServletDispatch A) : Type 0 where
  pub datas_unique : Unique d.datas
  pub globs_unique : Unique d.globs

-- What the operations on the tables keep and do, for a URI and a creator.
pub record MapLaws {ℓ} {A : Type ℓ} (uri : Uri) (c : Creator A) (d : ServletDispatch A)
    : Type ℓ where
  pub add_valid : IsValid (add_servlet_creator uri c d)
  pub del_valid : IsValid (del_servlet uri d)
  pub add_glob_valid : IsValid (add_glob_servlet_creator uri c d)
  pub del_glob_valid : IsValid (del_glob_servlet uri d)
  pub get_added : get_servlet uri (add_servlet_creator uri c d) ≡ some (servlet_of c)
  pub get_deleted : get_servlet uri (del_servlet uri d) ≡ none
  pub get_glob_added : get_glob_servlet uri (add_glob_servlet_creator uri c d) ≡ some (servlet_of c)
  pub get_glob_deleted : get_glob_servlet uri (del_glob_servlet uri d) ≡ none
  pub others :
      (v : Uri)
      → uri ≢ v
      → (get_servlet v (add_servlet_creator uri c d) ≡ get_servlet v d)
        × (get_servlet v (del_servlet uri d) ≡ get_servlet v d)
        × (get_glob_servlet v (add_glob_servlet_creator uri c d) ≡ get_glob_servlet v d)
        × (get_glob_servlet v (del_glob_servlet uri d) ≡ get_glob_servlet v d)

-- The tables of a dispatcher with one entry for each URI at most are maps: adding and deleting,
-- exact or by pattern, keep it so; a URI that was added is found with its servlet, one that was
-- deleted is not, and other URIs are not touched.
pub dispatch-MapLaws {ℓ} :
    {A : Type ℓ} (uri : Uri) (c : Creator A) (d : ServletDispatch A) → IsValid d → MapLaws uri c d
unfolding add_servlet_creator add_glob_servlet_creator del_servlet del_glob_servlet get_servlet
    get_glob_servlet
dispatch-MapLaws uri c d v =
    let erased = erase_first-Unique uri d.globs v.globs_unique in
    let gone = erase_first-removes uri d.globs v.globs_unique in
    record {
      add_valid = record {
        datas_unique = put-Unique uri c d.datas v.datas_unique;
        globs_unique = v.globs_unique;
      };
      del_valid = record {
        datas_unique = erase_first-Unique uri d.datas v.datas_unique;
        globs_unique = v.globs_unique;
      };
      add_glob_valid = record {
        datas_unique = v.datas_unique;
        globs_unique = append-Unique uri c (erase_first uri d.globs) erased gone;
      };
      del_glob_valid = record { datas_unique = v.datas_unique; globs_unique = erased };
      get_added = ap served (entry_for-put uri c d.datas);
      get_deleted = ap served (entry_for-erase uri d.datas v.datas_unique);
      get_glob_added = ap served (entry_for-append uri c (erase_first uri d.globs) gone);
      get_glob_deleted = ap served (entry_for-erase uri d.globs v.globs_unique);
      others = λ w e. (
        ap served (entry_for-put_other uri w c d.datas e),
        ap served (entry_for-erase_other uri w d.datas e),
        ap served (
            entry_for-append_other uri w c (erase_first uri d.globs) e
            ∙ entry_for-erase_other uri w d.globs e),
        ap served (entry_for-erase_other uri w d.globs e),
      );
    }
