-- ===== src/TimerManager/Validity.antt =====
-- The operations of dwframe/timer.cc on one timer, and the order of the set.
use dwframe.Base.{
  ℕ, ◌≡◌, refl, inl, inr, Bool-cases, Bool, true, false, Option, none, some, ◌==◌, not, ◌&&◌,
}
use dwframe.TimerManager.{
  Timer, TimerManager, Callback, update, insert, found, erase, is_front, add_timer, addtimer,
  cancel, refresh, reset, restart,
}
use dwframe.TimerManager.Order.{
  Sorted, Absent, insert-Sorted, Sorted-update, erase-Sorted, erase-Absent,
}

abbrev pub IsValid : TimerManager → Type 0
IsValid m = Sorted m.store m.timers

add_timer-fields :
    (p : ℕ) (m : TimerManager)
    → ((add_timer p m).store ≡ m.store) × ((add_timer p m).timers ≡ insert m.store p m.timers)
unfolding add_timer
add_timer-fields p m = elim (Bool-cases (is_front p (insert m.store p m.timers) && not m.tickled)) [
  | inl t ↦ (rw t, rw t)
  | inr t ↦ (rw t, rw t)
]

add_timer-IsValid : (p : ℕ) (m : TimerManager) → IsValid m → IsValid (add_timer p m)
add_timer-IsValid p m v =
    let (a, b) = add_timer-fields p m in rw (a, b) (insert-Sorted m.store p m.timers v)

-- `TimerManager::addtimer` of a timer at an address that is not in the set.
addtimer-IsValid :
    (ms : ℕ) (cb : Option Callback) (recurring : Bool) (now p : ℕ) (m : TimerManager)
    → Absent p m.timers
    → IsValid m
    → IsValid (addtimer ms cb recurring now p m)
unfolding addtimer
addtimer-IsValid ms cb recurring now p m fresh v =
    add_timer-IsValid p _ (Sorted-update m.store p _ m.timers fresh v)

-- A timer that is taken out, changed, and put in again.
moved-Sorted :
    (p : ℕ) (t : Timer) (m : TimerManager)
    → IsValid m
    → Sorted (update m.store p t) (erase m.store p m.timers)
moved-Sorted p t m v =
    Sorted-update m.store p t (erase m.store p m.timers) (erase-Absent m.store p m.timers v)
      (erase-Sorted m.store p m.timers v)

refresh-IsValid : (now p : ℕ) (m : TimerManager) → IsValid m → IsValid (refresh now p m).0
unfolding refresh
refresh-IsValid now p m v = go ((m.store p).cb) refl (found m.store p m.timers) refl
  where
    go :
        (o : Option Callback)
        → (m.store p).cb ≡ o
        → (f : Bool) → found m.store p m.timers ≡ f
        → IsValid (refresh now p m).0
    go none e f g = rw (e, refresh) v
    go (some c) e true g = rw (e, g, refresh) (insert-Sorted _ p _ (moved-Sorted p _ m v))
    go (some c) e false g = rw (e, g, refresh) v

restart-IsValid :
    (ms : ℕ) (form_now : Bool) (now p : ℕ) (m : TimerManager)
    → IsValid m
    → IsValid (restart ms form_now now p m)
unfolding restart
restart-IsValid ms form_now now p m v =
    insert-Sorted _ p _ (add_timer-IsValid p _ (moved-Sorted p _ m v))

reset-IsValid :
    (ms : ℕ) (form_now : Bool) (now p : ℕ) (m : TimerManager)
    → IsValid m
    → IsValid (reset ms form_now now p m).0
unfolding reset
reset-IsValid ms form_now now p m v = elim (Bool-cases (ms == (m.store p).ms && not form_now)) [
  | inl t ↦ rw t v
  | inr t ↦ go t ((m.store p).cb) refl (found m.store p m.timers) refl
]
  where
    go :
        (ms == (m.store p).ms && not form_now) ≡ false
        → (o : Option Callback) → (m.store p).cb ≡ o
        → (f : Bool) → found m.store p m.timers ≡ f
        → IsValid (reset ms form_now now p m).0
    go t none e f g = rw (t, e) v
    go t (some c) e true g = rw (t, e, g) (restart-IsValid ms form_now now p m v)
    go t (some c) e false g = rw (t, e, g) v

-- Adding a timer at an address that is not in the set, refreshing one and resetting one keep a
-- strictly ordered set strictly ordered.
pub timers_stay_sorted :
    (ms : ℕ) (cb : Option Callback) (recurring form_now : Bool) (now p q : ℕ) (m : TimerManager)
    → Absent p m.timers
    → IsValid m
    → IsValid (addtimer ms cb recurring now p m)
      × IsValid (refresh now q m).0
      × IsValid (reset ms form_now now q m).0
timers_stay_sorted ms cb recurring form_now now p q m fresh v = (
  addtimer-IsValid ms cb recurring now p m fresh v,
  refresh-IsValid now q m v,
  reset-IsValid ms form_now now q m v,
)

-- What a cancellation promises of a timer with a callback that is in the set: it is gone, its
-- callback too, and a second cancellation answers false.
pub record Cancelled (p : ℕ) (m : TimerManager) : Type 0 where
  pub result : TimerManager
  pub returns : cancel p m ≡ some (result, true)
  pub valid : IsValid result
  pub absent : Absent p result.timers
  pub again : cancel p result ≡ some (result, false)
