-- ===== src/TimerManager/Expiry.antt =====
-- What `listExpiredCb` of dwframe/timer.cc fires and leaves, and what `getNextTimer` waits for.
use dwframe.Base.{
  ℕ, ◌^◌, ◌≤◌, ◌<◌, ◌≡◌, ◌≢◌, refl, sym, ap, ◌∙◌, ◌⊎◌, inl, inr, Bool-cases, Bool, true, false,
  Option, some, List, [], ◌∷◌, ◌++◌, map, All, leb, ◌==◌, arith, append_assoc, append-nil, ==_refl,
}
use dwframe.TimerManager.{
  Timer, TimerManager, Callback, comparator, key_lt, update, insert, expired, remaining, fire,
  rearm, expire, with_now, list_expired_cb, get_next_timer, to_u32,
}
use dwframe.TimerManager.Order.{
  Sorted, Before, Absent, insert-Sorted, insert-All, Sorted-update, Before-Absent,
}
use dwframe.TimerManager.Validity.{IsValid}
use dwframe.TimerManager.Rearming.{In, fired, Distinct, AllArmed, fire-AllArmed}

abbrev callbacks : (ℕ → Timer) → List ℕ → List (Option Callback)
callbacks st ps = map (λ p. (st p).cb) ps

callbacks-update :
    (st : ℕ → Timer) (p : ℕ) (t : Timer) (ps : List ℕ)
    → Absent p ps
    → callbacks (update st p t) ps ≡ callbacks st ps
callbacks-update st p t [] h = refl
callbacks-update st p t (x ∷ xs) h =
    let e : (x == p) ≡ false = ground (arith, h.0) in rw (e, callbacks-update st p t xs h.1)

-- None of the timers to fire is in the set.
abbrev Apart : List ℕ → List ℕ → Type 0
Apart ps xs = All (λ p. Absent p xs) ps

Apart-insert :
    (st : ℕ → Timer) (p : ℕ) (ps xs : List ℕ)
    → Absent p ps
    → Apart ps xs
    → Apart ps (insert st p xs)
Apart-insert st p [] xs h a = tt
Apart-insert st p (q ∷ ps) xs h a =
    (insert-All (λ x. x ≢ q) st p xs (λ e. h.0 (sym e)) a.0, Apart-insert st p ps xs h.1 a.1)

rearm_lem :
    (again : Bool) (now p : ℕ) (ps : List ℕ) (m : TimerManager)
    → Absent p m.timers
    → Absent p ps
    → Apart ps m.timers
    → IsValid m
    → IsValid (rearm again now p m)
      × Apart ps (rearm again now p m).timers
      × (callbacks (rearm again now p m).store ps ≡ callbacks m.store ps)
unfolding rearm
rearm_lem true now p ps m out d a v = (
  insert-Sorted _ p m.timers (Sorted-update m.store p _ m.timers out v),
  Apart-insert _ p ps m.timers d a,
  callbacks-update m.store p _ ps d,
)
rearm_lem false now p ps m out d a v =
    (Sorted-update m.store p _ m.timers out v, a, callbacks-update m.store p _ ps d)

fire_lem :
    (now : ℕ) (ps : List ℕ) (m : TimerManager) (cbs : List (Option Callback))
    → Distinct ps
    → Apart ps m.timers
    → IsValid m
    → ((fire now ps m cbs).1 ≡ cbs ++ callbacks m.store ps) × IsValid (fire now ps m cbs).0
unfolding fire
fire_lem now [] m cbs d a v = (sym (append-nil cbs), v)
fire_lem now (p ∷ ps) m cbs d a v =
    let r = (m.store p).recurring in
    let cb = (m.store p).cb in
    let (valid, apart, same) = rearm_lem r now p ps m a.0 d.0 a.1 v in
    let ih = fire_lem now ps (rearm r now p m) (cbs ++ (cb ∷ [])) d.1 apart valid in
    (
      ih.0
          ∙ append_assoc cbs (cb ∷ []) (callbacks (rearm r now p m).store ps)
          ∙ ap (λ l. cbs ++ (cb ∷ l)) same,
      ih.1,
    )

-- `expired` and `remaining` cut the set in two.
expired_cut : (st : ℕ → Timer) (p : ℕ) (xs : List ℕ) → expired st p xs ++ remaining st p xs ≡ xs
unfolding expired remaining
expired_cut st p [] = refl
expired_cut st p (x ∷ xs) = elim (Bool-cases (comparator st (some p) (some x))) [
  | inl t ↦ rw t
  | inr t ↦ rw t (ap (◌∷◌ x) (expired_cut st p xs))
]

-- The timers that are not after `p`, and those that are.
abbrev Due : (ℕ → Timer) → ℕ → ℕ → Type 0
Due st p x = key_lt (st p).next p (st x).next x ≡ false

expired-Due : (st : ℕ → Timer) (p : ℕ) (xs : List ℕ) → All (Due st p) (expired st p xs)
unfolding expired
expired-Due st p [] = tt
expired-Due st p (x ∷ xs) = elim (Bool-cases (comparator st (some p) (some x))) [
  | inl t ↦ rw t tt
  | inr t ↦ rw t ((unfold comparator in t), expired-Due st p xs)
]

All-later :
    (st : ℕ → Timer) (p x : ℕ) (xs : List ℕ)
    → Before st p x
    → All (Before st x) xs
    → All (Before st p) xs
All-later st p x [] h k = tt
All-later st p x (y ∷ ys) h k = (ground (arith, k.0), All-later st p x ys h k.1)

remaining-later :
    (st : ℕ → Timer) (p : ℕ) (xs : List ℕ) → Sorted st xs → All (Before st p) (remaining st p xs)
unfolding remaining
remaining-later st p [] h = tt
remaining-later st p (x ∷ xs) h = elim (Bool-cases (comparator st (some p) (some x))) [
  | inl t ↦ rw t ((unfold comparator in t), All-later st p x xs (unfold comparator in t) h.0)
  | inr t ↦ rw t (remaining-later st p xs h.1)
]

All-split : (P : ℕ → Type 0) (xs ys : List ℕ) → All P (xs ++ ys) → All P xs × All P ys
All-split P [] ys h = (tt, h)
All-split P (x ∷ xs) ys h = ((h.0, (All-split P xs ys h.1).0), (All-split P xs ys h.1).1)

Sorted-append :
    (st : ℕ → Timer) (xs ys : List ℕ)
    → Sorted st (xs ++ ys)
    → Sorted st ys × Distinct xs × Apart xs ys
Sorted-append st [] ys h = (h, tt, tt)
Sorted-append st (x ∷ xs) ys h =
    let (sorted, distinct, apart) = Sorted-append st xs ys h.1 in
    let (front, back) = All-split (λ y. y ≢ x) xs ys (Before-Absent st x (xs ++ ys) h.0) in
    (sorted, (front, distinct), (back, apart))

-- What a call of `listExpiredCb` does: the set is cut in two, the timers that are not after the
-- current time, all before those that are; the callbacks of the former are returned in the order
-- of the set, and the set that is left is valid.
pub record Expires (now here : ℕ) (m : TimerManager) : Type 0 where
  pub due : List ℕ
  pub later : List ℕ
  pub cut : due ++ later ≡ m.timers
  pub due_now : All (λ x. key_lt (to_u32 now) here (m.store x).next x ≡ false) due
  pub not_yet : All (λ x. key_lt (to_u32 now) here (m.store x).next x ≡ true) later
  pub calls : (list_expired_cb now here m).1 ≡ map (λ x. (m.store x).cb) due
  pub valid : IsValid (list_expired_cb now here m).0
  pub kept : (q : ℕ) → In q later → In q (list_expired_cb now here m).0.timers
  pub again :
      (q : ℕ) → In q due → (m.store q).recurring ≡ true → In q (list_expired_cb now here m).0.timers
  pub no_other :
      (q : ℕ)
      → In q (list_expired_cb now here m).0.timers
      → In q later ⊎ (In q due × ((m.store q).recurring ≡ true))
  pub rearmed : (q : ℕ) → In q due → (list_expired_cb now here m).0.store q ≡ fired now (m.store q)
  pub untouched : (q : ℕ) → Absent q due → (list_expired_cb now here m).0.store q ≡ m.store q

expire_lem :
    (now here : ℕ) (ts : List ℕ) (m : TimerManager)
    → IsValid m
    → m.timers ≡ ts
    → Sorted m.store ts
    → let due = expired (with_now now here m) here ts in
      ((expire now here ts m).1 ≡ callbacks m.store due)
      × IsValid (expire now here ts m).0
      × AllArmed now due
          (record m { timers = remaining (with_now now here m) here ts })
          (expire now here ts m).0
unfolding expire
expire_lem now here [] m v e h = (
  unfold expired in refl,
  v,
  unfold expired in
      record {
        each = λ q i. absurd i;
        others = λ q k. refl;
        stays = λ q i. absurd (unfold remaining in i);
        back = λ q i. absurd i;
        comes = λ q i. absurd (rw e at i);
      },
)
expire_lem now here (x ∷ xs) m v e h =
    let st = with_now now here m in
    let due = expired st here (x ∷ xs) in
    let later = remaining st here (x ∷ xs) in
    let (sorted, distinct, apart) =
      Sorted-append m.store due later (rw (expired_cut st here (x ∷ xs)) h) in
    let (calls, valid) = fire_lem now due (record m { timers = later }) [] distinct apart sorted in
    (calls, valid, fire-AllArmed now due (record m { timers = later }) [] distinct)

-- The marks at `here` do not show on the timers of the set.
unmarked :
    (now here : ℕ) (m : TimerManager) (b : Bool) (xs : List ℕ)
    → Absent here xs
    → All (λ x. key_lt (with_now now here m here).next here (with_now now here m x).next x ≡ b) xs
    → All (λ x. key_lt (to_u32 now) here (m.store x).next x ≡ b) xs
unmarked now here m b [] n h = tt
unmarked now here m b (x ∷ xs) n h =
    let e : (x == here) ≡ false = ground (arith, n.0) in
    let f : (here == here) ≡ true = ==_refl here in
    ((rw (e, f) at h.0), unmarked now here m b xs n.1 h.1)

-- On a valid set of timers, none at the address of the temporary timer, `listExpiredCb` cuts the
-- set in two, the timers that are not after the current time before those that are; it returns the
-- callbacks of the former in the order of the set. The set that is left is valid and has the
-- latter, those of the former that recur, and no other; a timer that fired runs out again after
-- its time if it recurs, else it has no callback, and the other timers are as they were.
pub list_expired_cb-Expires :
    (now here : ℕ) (m : TimerManager) → Absent here m.timers → IsValid m → Expires now here m
list_expired_cb-Expires now here m fresh v =
    let st = with_now now here m in
    let marked : Sorted st m.timers = Sorted-update m.store here _ m.timers fresh v in
    let due = expired st here m.timers in
    let later = remaining st here m.timers in
    let cut = expired_cut st here m.timers in
    let (apart_due, apart_later) = All-split (λ x. x ≢ here) due later (rw cut fresh) in
    let (calls, valid, armed) = expire_lem now here m.timers m v refl v in
    record {
      due = due;
      later = later;
      cut = cut;
      due_now = unmarked now here m false due apart_due (expired-Due st here m.timers);
      not_yet =
          unmarked now here m true later apart_later (remaining-later st here m.timers marked);
      calls = unfold list_expired_cb in calls;
      valid = unfold list_expired_cb in valid;
      kept = unfold list_expired_cb in armed.stays;
      again = unfold list_expired_cb in armed.back;
      no_other = unfold list_expired_cb in armed.comes;
      rearmed = unfold list_expired_cb in armed.each;
      untouched = unfold list_expired_cb in armed.others;
    }

-- Where the first timer of the set has a time of 32 bits and the clock has passed 2 ^ 32
-- milliseconds, `getNextTimer` answers 0.
get_next_timer_at_once :
    (now x : ℕ) (xs : List ℕ) (m : TimerManager)
    → m.timers ≡ x ∷ xs
    → (m.store x).next < 2 ^ 32
    → 2 ^ 32 ≤ now
    → (get_next_timer now m).1 ≡ 0
unfolding get_next_timer
get_next_timer_at_once now x xs m e h k =
    let t : leb (m.store x).next now ≡ true = ground arith in rw (e, get_next_timer, t)
