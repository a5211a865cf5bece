-- ===== src/Http/Fields/Laws.antt =====
-- The map of dwframe/http/http.h as a map from keys without their case to values.
use dwframe.Base.{
  ◌≡◌, ◌≢◌, refl, sym, ap, ◌∙◌, Bool, true, false, none, some, [], ◌∷◌, if◌then◌else◌, All,
}
use dwframe.Base.Text.{
  Text, fold_case, text_less, text_less_irrefl, text_less_trans, same_text, same_text_refl,
  same_text_other, Placed, place,
}
use dwframe.Http.Fields.{Fields, case_insensitive_less, find, assign, erase}

-- The keys are the same but for case.
abbrev pub same_key : Text → Text → Bool
same_key a b = same_text (fold_case a) (fold_case b)

-- Every key is before those that follow it.
abbrev pub Sorted : Fields → Type 0
Sorted [] = Unit
Sorted (e ∷ m) = All (λ f. case_insensitive_less e.0 f.0 ≡ true) m × Sorted m

-- How two keys stand in the order, with what each test of them answers.
data Keys (a b : Text) : Type 0 where
  before :
      case_insensitive_less a b ≡ true
      → case_insensitive_less b a ≡ false
      → same_key a b ≡ false
      → Keys a b
  equal :
      fold_case a ≡ fold_case b
      → case_insensitive_less a b ≡ false
      → case_insensitive_less b a ≡ false
      → same_key a b ≡ true
      → Keys a b
  after :
      case_insensitive_less a b ≡ false
      → case_insensitive_less b a ≡ true
      → same_key a b ≡ false
      → Keys a b

differs : (u v : Text) → text_less u v ≢ text_less v v → same_text u v ≡ false
differs u v h = same_text_other u v (λ e. h (ap (λ w. text_less w v) e))

keys : (a b : Text) → Keys a b
keys a b = elim (place (fold_case a) (fold_case b)) [
  | Placed.before p q ↦ before p q (
      differs (fold_case a) (fold_case b) (λ e. absurd (cc (p, e, text_less_irrefl (fold_case b)))))
  | Placed.after p q ↦ after p q (
      same_text_other (fold_case a) (fold_case b)
        (λ e. absurd (cc (q, ap (text_less (fold_case b)) e, text_less_irrefl (fold_case b)))))
  | Placed.same e ↦
      equal e (rw e (text_less_irrefl (fold_case b))) (rw e (text_less_irrefl (fold_case b)))
        (rw e (same_text_refl (fold_case b)))
]

less_trans :
    (a b c : Text)
    → case_insensitive_less a b ≡ true
    → case_insensitive_less b c ≡ true
    → case_insensitive_less a c ≡ true
less_trans a b c p q = text_less_trans (fold_case a) (fold_case b) (fold_case c) p q

less_asym : (a b : Text) → case_insensitive_less a b ≡ true → case_insensitive_less b a ≡ false
less_asym a b p = elim (keys a b) [
  | before x y z ↦ y
  | equal e x y z ↦ y
  | after x y z ↦ absurd (cc)
]

pub find-assign :
    (key j val : Text) (m : Fields)
    → find j (assign key val m) ≡ (if same_key key j then some val else find j m)
unfolding find assign
find-assign key j val [] = elim (keys key j) [
  | before p q r ↦ rw (p, r)
  | equal e p q r ↦ rw (p, q, r)
  | after p q r ↦ rw (p, q, r)
]
find-assign key j val ((k, v) ∷ m) = elim (keys k key) [
  | before p q r ↦
      rw (p, find-assign key j val m)
        (elim (keys key j) [
          | before p2 q2 r2 ↦ rw r2
          | equal e p2 q2 r2 ↦
              let first : case_insensitive_less k j ≡ true = rw (sym e) p in rw (first, r2)
          | after p2 q2 r2 ↦ rw r2
        ])
  | after p q r ↦
      rw (p, q)
        (elim (keys key j) [
          | before p2 q2 r2 ↦ rw (p2, r2)
          | equal e p2 q2 r2 ↦ rw (p2, q2, r2)
          | after p2 q2 r2 ↦
              let first = less_trans j key k q2 q in rw (p2, q2, r2, less_asym j k first, first)
        ])
  | equal e p q r ↦
      rw (p, q)
        (elim (keys key j) [
          | before p2 q2 r2 ↦ rw (e, p2, r2)
          | equal e2 p2 q2 r2 ↦ rw (e, p2, q2, r2)
          | after p2 q2 r2 ↦ rw (e, p2, q2, r2)
        ])
]

-- Every key of the map is after `b`.
abbrev After : Text → Fields → Type 0
After b m = All (λ f. case_insensitive_less b f.0 ≡ true) m

weaken-After : (a b : Text) (m : Fields) → case_insensitive_less a b ≡ true → After b m → After a m
weaken-After a b [] p h = tt
weaken-After a b (f ∷ m) p h = (less_trans a b f.0 p h.0, weaken-After a b m p h.1)

assign-After :
    (b key val : Text) (m : Fields)
    → case_insensitive_less b key ≡ true
    → After b m
    → After b (assign key val m)
unfolding assign
assign-After b key val [] p h = (p, tt)
assign-After b key val ((k, v) ∷ m) p h = elim (keys k key) [
  | before x y z ↦ rw x (h.0, assign-After b key val m p h.1)
  | after x y z ↦ rw (x, y) (p, h)
  | equal e x y z ↦ rw (x, y) h
]

pub assign-Sorted : (key val : Text) (m : Fields) → Sorted m → Sorted (assign key val m)
unfolding assign
assign-Sorted key val [] s = (tt, tt)
assign-Sorted key val ((k, v) ∷ m) s = elim (keys k key) [
  | before x y z ↦ rw x (assign-After k key val m x s.0, assign-Sorted key val m s.1)
  | after x y z ↦ rw (x, y) ((y, weaken-After key k m y s.0), s)
  | equal e x y z ↦ rw (x, y) s
]

erase-After : (b key : Text) (m : Fields) → After b m → After b (erase key m)
unfolding erase
erase-After b key [] h = tt
erase-After b key ((k, v) ∷ m) h = elim (keys k key) [
  | before x y z ↦ rw x (h.0, erase-After b key m h.1)
  | after x y z ↦ rw (x, y) h
  | equal e x y z ↦ rw (x, y) h.1
]

pub erase-Sorted : (key : Text) (m : Fields) → Sorted m → Sorted (erase key m)
unfolding erase
erase-Sorted key [] s = tt
erase-Sorted key ((k, v) ∷ m) s = elim (keys k key) [
  | before x y z ↦ rw x (erase-After k key m s.0, erase-Sorted key m s.1)
  | after x y z ↦ rw (x, y) s
  | equal e x y z ↦ rw (x, y) s.1
]

find-After : (j : Text) (m : Fields) → After j m → find j m ≡ none
unfolding find
find-After j [] h = refl
find-After j ((k, v) ∷ m) h = rw (less_asym j k h.0, h.0)

pub find-erase :
    (key j : Text) (m : Fields)
    → Sorted m
    → find j (erase key m) ≡ (if same_key key j then none else find j m)
unfolding find erase
find-erase key j [] s = elim (keys key j) [
  | before p q r ↦ rw r
  | equal e p q r ↦ rw r
  | after p q r ↦ rw r
]
find-erase key j ((k, v) ∷ m) s = elim (keys k key) [
  | before p q r ↦
      rw (p, find-erase key j m s.1)
        (elim (keys key j) [
          | before p2 q2 r2 ↦ rw r2
          | equal e p2 q2 r2 ↦
              let first : case_insensitive_less k j ≡ true = rw (sym e) p in rw (first, r2)
          | after p2 q2 r2 ↦ rw r2
        ])
  | after p q r ↦
      rw (p, q)
        (elim (keys key j) [
          | before p2 q2 r2 ↦ rw r2
          | equal e p2 q2 r2 ↦
              let first : case_insensitive_less j k ≡ true = rw (sym e) q in
              rw (r2, less_asym j k first, first)
          | after p2 q2 r2 ↦ rw r2
        ])
  | equal e p q r ↦
      rw (p, q)
        (elim (keys key j) [
          | before p2 q2 r2 ↦ rw (e, p2, r2)
          | equal e2 p2 q2 r2 ↦ rw r2 (find-After j m (rw (e ∙ e2) at s.0))
          | after p2 q2 r2 ↦
              let first : case_insensitive_less j k ≡ true = rw e q2 in
              rw (r2, less_asym j k first, first) (find-After j m (weaken-After j k m first s.0))
        ])
]
