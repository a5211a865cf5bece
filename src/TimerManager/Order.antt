-- ===== src/TimerManager/Order.antt =====
-- The order of the set of timers of dwframe/timer.cc.
use dwframe.Base.{
  ℕ, ◌≡◌, ◌≢◌, refl, inl, inr, Bool-cases, true, false, some, List, [], ◌∷◌, All, ◌==◌, arith,
}
use dwframe.TimerManager.{Timer, comparator, key_lt, update, insert, equivalent, found, erase}

abbrev pub Before : (ℕ → Timer) → ℕ → ℕ → Type 0
Before st a b = key_lt (st a).next a (st b).next b ≡ true

abbrev pub Sorted : (ℕ → Timer) → List ℕ → Type 0
Sorted st [] = Unit {0}
Sorted st (x ∷ xs) = All (Before st x) xs × Sorted st xs

abbrev pub Absent : ℕ → List ℕ → Type 0
Absent p xs = All (λ x. x ≢ p) xs

Before-trans : (st : ℕ → Timer) (a b c : ℕ) → Before st a b → Before st b c → Before st a c
Before-trans st a b c p q = ground arith

All-Before-trans :
    (st : ℕ → Timer) (a b : ℕ) (xs : List ℕ)
    → Before st a b
    → All (Before st b) xs
    → All (Before st a) xs
All-Before-trans st a b [] p h = tt
All-Before-trans st a b (x ∷ xs) p h =
    (Before-trans st a b x p h.0, All-Before-trans st a b xs p h.1)

pub insert-All :
    (P : ℕ → Type 0) (st : ℕ → Timer) (p : ℕ) (xs : List ℕ)
    → P p
    → All P xs
    → All P (insert st p xs)
unfolding insert
insert-All P st p [] hp h = (hp, tt)
insert-All P st p (x ∷ xs) hp h = ground (arith, insert-All P st p xs hp h.1)

-- Inserting keeps the order, also of an element that is there.
pub insert-Sorted :
    (st : ℕ → Timer) (p : ℕ) (xs : List ℕ) → Sorted st xs → Sorted st (insert st p xs)
unfolding insert
insert-Sorted st p [] h = (tt, tt)
insert-Sorted st p (x ∷ xs) h = elim (Bool-cases (comparator st (some p) (some x))) [
  | inl t ↦
      rw t (((unfold comparator in t), All-Before-trans st p x xs (unfold comparator in t) h.0), h)
  | inr t ↦ elim (Bool-cases (comparator st (some x) (some p))) [
    | inl u ↦
        rw (t, u)
          (insert-All (Before st x) st p xs (unfold comparator in u) h.0, insert-Sorted st p xs h.1)
    | inr u ↦ rw (t, u) h
  ]
]

-- A change of a timer that is not in the set does not disturb the order: this is why the source
-- takes a timer out before it moves its time.
All-Before-update :
    (st : ℕ → Timer) (p a : ℕ) (t : Timer) (xs : List ℕ)
    → a ≢ p
    → Absent p xs
    → All (Before st a) xs
    → All (Before (update st p t) a) xs
All-Before-update st p a t [] n h k = tt
All-Before-update st p a t (x ∷ xs) n h k =
    let e : (a == p) ≡ false = ground arith in
    let f : (x == p) ≡ false = ground (arith, h.0) in
    (rw (e, f) k.0, All-Before-update st p a t xs n h.1 k.1)

pub Sorted-update :
    (st : ℕ → Timer) (p : ℕ) (t : Timer) (xs : List ℕ)
    → Absent p xs
    → Sorted st xs
    → Sorted (update st p t) xs
Sorted-update st p t [] h k = tt
Sorted-update st p t (x ∷ xs) h k =
    (All-Before-update st p x t xs h.0 h.1 k.0, Sorted-update st p t xs h.1 k.1)

equivalent_refl : (st : ℕ → Timer) (p : ℕ) → equivalent st p p ≡ true
unfolding comparator
equivalent_refl st p = ground arith

-- Equivalent timers are one timer.
pub equivalent-eq : (st : ℕ → Timer) (p x : ℕ) → equivalent st p x ≡ true → p ≡ x
unfolding comparator
equivalent-eq st p x h = ground arith

erase-All :
    (P : ℕ → Type 0) (st : ℕ → Timer) (p : ℕ) (xs : List ℕ) → All P xs → All P (erase st p xs)
unfolding erase
erase-All P st p [] h = tt
erase-All P st p (x ∷ xs) h = elim (Bool-cases (equivalent st p x)) [
  | inl t ↦ rw t h.1
  | inr t ↦ rw t (h.0, erase-All P st p xs h.1)
]

pub erase-Sorted : (st : ℕ → Timer) (p : ℕ) (xs : List ℕ) → Sorted st xs → Sorted st (erase st p xs)
unfolding erase
erase-Sorted st p [] h = tt
erase-Sorted st p (x ∷ xs) h = elim (Bool-cases (equivalent st p x)) [
  | inl t ↦ rw t h.1
  | inr t ↦ rw t (erase-All (Before st x) st p xs h.0, erase-Sorted st p xs h.1)
]

pub Before-Absent : (st : ℕ → Timer) (x : ℕ) (xs : List ℕ) → All (Before st x) xs → Absent x xs
Before-Absent st x [] h = tt
Before-Absent st x (y ∷ ys) h = (apart y h.0, Before-Absent st x ys h.1)
  where
    irreflexive : (y : ℕ) → key_lt (st y).next y (st y).next y ≡ false
    irreflexive y = ground arith

    apart : (y : ℕ) → Before st x y → y ≢ x
    apart y h e = cc (irreflexive x)

-- One erasure is enough: the address stands in the set once.
pub erase-Absent : (st : ℕ → Timer) (p : ℕ) (xs : List ℕ) → Sorted st xs → Absent p (erase st p xs)
unfolding erase
erase-Absent st p [] h = tt
erase-Absent st p (x ∷ xs) h = elim (Bool-cases (equivalent st p x)) [
  | inl t ↦ let same = equivalent-eq st p x t in rw (t, same) (Before-Absent st x xs h.0)
  | inr t ↦ let ne : x ≢ p = λ e. cc (equivalent_refl st p) in rw t (ne, erase-Absent st p xs h.1)
]

-- The order reads nothing of a timer but its time.
abbrev pub SameTimes : (ℕ → Timer) → (ℕ → Timer) → Type 0
SameTimes st st' = (q : ℕ) → (st' q).next ≡ (st q).next

equivalent-SameTimes :
    (st st' : ℕ → Timer) (p x : ℕ) → SameTimes st st' → equivalent st' p x ≡ equivalent st p x
unfolding comparator
equivalent-SameTimes st st' p x h = rw (h p, h x)

pub found-SameTimes :
    (st st' : ℕ → Timer) (p : ℕ) (xs : List ℕ) → SameTimes st st' → found st' p xs ≡ found st p xs
unfolding found
found-SameTimes st st' p [] h = refl
found-SameTimes st st' p (x ∷ xs) h =
    rw (equivalent-SameTimes st st' p x h, found-SameTimes st st' p xs h)

pub erase-SameTimes :
    (st st' : ℕ → Timer) (p : ℕ) (xs : List ℕ) → SameTimes st st' → erase st' p xs ≡ erase st p xs
unfolding erase
erase-SameTimes st st' p [] h = refl
erase-SameTimes st st' p (x ∷ xs) h =
    rw (equivalent-SameTimes st st' p x h, erase-SameTimes st st' p xs h)
