-- ===== src/TimerManager/Rearming.antt =====
-- What the loop over the expired timers of dwframe/timer.cc leaves: which timers are in the set, and what
-- each timer holds.
use dwframe.Base.{
  ℕ, ◌+◌, ◌%◌, ◌^◌, ◌≡◌, ◌≢◌, refl, sym, ap, ◌∙◌, ◌⊎◌, inl, inr, Bool-cases, Bool, true, false,
  Option, none, some, List, [], ◌∷◌, ◌++◌, if◌then◌else◌, ◌==◌, arith, ==_refl,
}
use dwframe.TimerManager.{
  Timer, TimerManager, Callback, comparator, update, insert, equivalent, fire, rearm,
}
use dwframe.TimerManager.Order.{Absent, equivalent-eq}

abbrev pub In : ℕ → List ℕ → Type 0
In p [] = ⊥
In p (x ∷ xs) = (x ≡ p) ⊎ In p xs

-- A timer after it has fired: one that is recurring runs out again after its time, one that is not has
-- no callback any more.
abbrev pub fired : ℕ → Timer → Timer
fired now t =
    if t.recurring then record t { next = (now + t.ms) % 2 ^ 32 } else record t { cb = none }

insert-In : (st : ℕ → Timer) (p q : ℕ) (xs : List ℕ) → In q xs → In q (insert st p xs)
unfolding insert
insert-In st p q [] i = inr i
insert-In st p q (x ∷ xs) i = elim (Bool-cases (comparator st (some p) (some x))) [
  | inl t ↦ rw t (inr i)
  | inr t ↦ elim (Bool-cases (comparator st (some x) (some p))) [
    | inl u ↦ rw (t, u) (elim i [ inl e ↦ inl e | inr k ↦ inr (insert-In st p q xs k) ])
    | inr u ↦ rw (t, u) i
  ]
]

insert_self : (st : ℕ → Timer) (p : ℕ) (xs : List ℕ) → In p (insert st p xs)
unfolding insert
insert_self st p [] = inl refl
insert_self st p (x ∷ xs) = elim (Bool-cases (comparator st (some p) (some x))) [
  | inl t ↦ rw t (inl refl)
  | inr t ↦ elim (Bool-cases (comparator st (some x) (some p))) [
    | inl u ↦ rw (t, u) (inr (insert_self st p xs))
    | inr u ↦ rw (t, u) (inl (sym (equivalent-eq st p x (same t u))))
  ]
]
  where
    same :
        comparator st (some p) (some x) ≡ false
        → comparator st (some x) (some p) ≡ false
        → equivalent st p x ≡ true
    same t u = rw (t, u)

In-insert : (st : ℕ → Timer) (p q : ℕ) (xs : List ℕ) → In q (insert st p xs) → (p ≡ q) ⊎ In q xs
unfolding insert
In-insert st p q [] = λ i. i
In-insert st p q (x ∷ xs) = elim (Bool-cases (comparator st (some p) (some x))) [
  | inl t ↦ rw t (λ i. i)
  | inr t ↦ elim (Bool-cases (comparator st (some x) (some p))) [
    | inl u ↦
        rw (t, u)
          (λ i. elim i [
            | inl e ↦ inr (inl e)
            | inr k ↦ elim (In-insert st p q xs k) [ inl e ↦ inl e | inr j ↦ inr (inr j) ]
          ])
    | inr u ↦ rw (t, u) (λ i. inr i)
  ]
]

pub Absent-In : (p q : ℕ) (xs : List ℕ) → Absent p xs → In q xs → q ≢ p
Absent-In p q [] h i = absurd i
Absent-In p q (x ∷ xs) h (inl e) = λ r. h.0 (e ∙ r)
Absent-In p q (x ∷ xs) h (inr i) = Absent-In p q xs h.1 i

update_self : (st : ℕ → Timer) (p : ℕ) (t : Timer) → update st p t p ≡ t
update_self st p t = rw (==_refl p)

update_other : (st : ℕ → Timer) (p q : ℕ) (t : Timer) → q ≢ p → update st p t q ≡ st q
update_other st p q t h = let e : (q == p) ≡ false = ground arith in rw e

-- One timer is armed again or loses its callback.
record Armed (now p : ℕ) (m n : TimerManager) : Type 0 where
  self : n.store p ≡ fired now (m.store p)
  other : (q : ℕ) → q ≢ p → n.store q ≡ m.store q
  stays : (q : ℕ) → In q m.timers → In q n.timers
  back : (m.store p).recurring ≡ true → In p n.timers
  comes : (q : ℕ) → In q n.timers → In q m.timers ⊎ ((p ≡ q) × ((m.store p).recurring ≡ true))

rearm-Armed :
    (b : Bool) (now p : ℕ) (m : TimerManager)
    → (m.store p).recurring ≡ b
    → Armed now p m (rearm b now p m)
unfolding rearm
rearm-Armed true now p m e = record {
  self = update_self m.store p _ ∙ rw e refl;
  other = λ q h. update_other m.store p q _ h;
  stays = λ q i. insert-In _ p q m.timers i;
  back = λ h. insert_self _ p m.timers;
  comes = λ q i. elim (In-insert _ p q m.timers i) [ inl r ↦ inr (r, e) | inr k ↦ inl k ];
}
rearm-Armed false now p m e = record {
  self = update_self m.store p _ ∙ rw e refl;
  other = λ q h. update_other m.store p q _ h;
  stays = λ q i. i;
  back = λ h. absurd (cc);
  comes = λ q i. inl i;
}

abbrev pub Distinct : List ℕ → Type 0
Distinct [] = Unit {0}
Distinct (x ∷ xs) = Absent x xs × Distinct xs

-- All of them: the timers of the set stay in it, those that fire come back if they recur, and no
-- other does.
pub record AllArmed (now : ℕ) (ps : List ℕ) (m n : TimerManager) : Type 0 where
  pub each : (q : ℕ) → In q ps → n.store q ≡ fired now (m.store q)
  pub others : (q : ℕ) → Absent q ps → n.store q ≡ m.store q
  pub stays : (q : ℕ) → In q m.timers → In q n.timers
  pub back : (q : ℕ) → In q ps → (m.store q).recurring ≡ true → In q n.timers
  pub comes : (q : ℕ) → In q n.timers → In q m.timers ⊎ (In q ps × ((m.store q).recurring ≡ true))

pub fire-AllArmed :
    (now : ℕ) (ps : List ℕ) (m : TimerManager) (cbs : List (Option Callback))
    → Distinct ps
    → AllArmed now ps m (fire now ps m cbs).0
unfolding fire
fire-AllArmed now [] m cbs d = record {
  each = λ q i. absurd i;
  others = λ q h. refl;
  stays = λ q i. i;
  back = λ q i. absurd i;
  comes = λ q i. inl i;
}
fire-AllArmed now (p ∷ ps) m cbs d =
    let a = rearm-Armed (m.store p).recurring now p m refl in
    let rest =
      fire-AllArmed now ps (rearm (m.store p).recurring now p m) (cbs ++ ((m.store p).cb ∷ []))
        d.1 in
    let apart : (q : ℕ) → In q ps → q ≢ p = λ q i. Absent-In p q ps d.0 i in
    record {
      each = λ q i. elim i [
        | inl e ↦ rw (sym e) (rest.others p d.0 ∙ a.self)
        | inr k ↦ rest.each q k ∙ ap (λ t. fired now t) (a.other q (apart q k))
      ];
      others = λ q h. rest.others q h.1 ∙ a.other q (λ e. h.0 (sym e));
      stays = λ q i. rest.stays q (a.stays q i);
      back = λ q i r. elim i [
        | inl e ↦ rw (sym e) (rest.stays p (a.back (ap (λ j. (m.store j).recurring) e ∙ r)))
        | inr k ↦ rest.back q k (ap (λ t. t.recurring) (a.other q (apart q k)) ∙ r)
      ];
      comes = λ q i. elim (rest.comes q i) [
        | inl k ↦ elim (a.comes q k) [
          | inl j ↦ inl j
          | inr (e, r) ↦ inr (inl e, ap (λ j. (m.store j).recurring) (sym e) ∙ r)
        ]
        | inr (k, r) ↦ inr (inr k, sym (ap (λ t. t.recurring) (a.other q (apart q k))) ∙ r)
      ];
    }
