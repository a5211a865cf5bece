-- ===== src/TimerManager.antt =====
-- dwframe/timer.h and dwframe/timer.cc: timers and the ordered set that TimerManager keeps of them.
-- A timer is an object on the heap `store`, at an address; users and the set hold addresses, so a
-- change of a timer is seen by both. The set is the list of its addresses in iteration order.
-- The clock is an argument of each operation that reads it, and so is the address that `new`
-- returns. `uint64_t` values other than the written wraps are plain numbers. The locks are held
-- over each operation as a whole, except in `listExpiredCb` between its two tests of emptiness.
pub mod Order
pub mod Validity
pub mod Rearming
pub mod Expiry
use dwframe.Base.{
  ℕ, ◌+◌, ◌-◌, ◌*◌, ◌%◌, ◌^◌, Bool, true, false, Option, none, some, List, [], ◌∷◌, ◌++◌, ltb, leb,
  ◌==◌, if◌then◌else◌, not, ◌&&◌,
}

-- `m_next` is declared `uint32_t`.
abbrev pub to_u32 : ℕ → ℕ
to_u32 n = n % 2 ^ 32

-- The order of the keys: the time first, and the address between equal times.
abbrev pub key_lt : ℕ → ℕ → ℕ → ℕ → Bool
key_lt n a m b = if ltb n m then true else if ltb m n then false else ltb a b

-- A `std::function` is known by its identity.
abbrev pub Callback : Type 0
Callback = ℕ

pub record Timer : Type 0 where
  pub recurring : Bool
  pub ms : ℕ
  pub next : ℕ
  pub cb : Option Callback

-- `front_calls` counts the calls of the virtual `onTimerInsertedAtFront`.
pub record TimerManager : Type 0 where
  pub store : ℕ → Timer
  pub timers : List ℕ
  pub tickled : Bool
  pub previous_time : ℕ
  pub front_calls : ℕ

-- `Timer::Comparator`, where `none` is a null pointer.
unfoldable pub comparator : (ℕ → Timer) → Option ℕ → Option ℕ → Bool
comparator st none none = false
comparator st none (some b) = true
comparator st (some a) none = false
comparator st (some a) (some b) = key_lt (st a).next a (st b).next b

abbrev pub update : (ℕ → Timer) → ℕ → Timer → ℕ → Timer
update st p t q = if q == p then t else st q

-- `std::set` by that order: `insert` leaves an equivalent element alone.
unfoldable pub insert : (ℕ → Timer) → ℕ → List ℕ → List ℕ
unfolding comparator
insert st p [] = p ∷ []
insert st p (x ∷ xs) =
    if comparator st (some p) (some x)
    then p ∷ x ∷ xs
    else if comparator st (some x) (some p)
    then x ∷ insert st p xs
    else x ∷ xs

abbrev pub equivalent : (ℕ → Timer) → ℕ → ℕ → Bool
equivalent st p x = not (comparator st (some p) (some x)) && not (comparator st (some x) (some p))

-- Whether `find` answers an element, and the set without that element.
unfoldable pub found : (ℕ → Timer) → ℕ → List ℕ → Bool
unfolding comparator
found st p [] = false
found st p (x ∷ xs) = if equivalent st p x then true else found st p xs

unfoldable pub erase : (ℕ → Timer) → ℕ → List ℕ → List ℕ
unfolding comparator
erase st p [] = []
erase st p (x ∷ xs) = if equivalent st p x then xs else x ∷ erase st p xs

-- The elements before `upper_bound(p)`, and those from there on.
unfoldable pub expired : (ℕ → Timer) → ℕ → List ℕ → List ℕ
unfolding comparator
expired st p [] = []
expired st p (x ∷ xs) = if comparator st (some p) (some x) then [] else x ∷ expired st p xs

unfoldable pub remaining : (ℕ → Timer) → ℕ → List ℕ → List ℕ
unfolding comparator
remaining st p [] = []
remaining st p (x ∷ xs) = if comparator st (some p) (some x) then x ∷ xs else remaining st p xs

abbrev pub is_front : ℕ → List ℕ → Bool
is_front p [] = false
is_front p (x ∷ xs) = x == p

-- `TimerManager::addTimer`.
unfoldable pub add_timer : ℕ → TimerManager → TimerManager
add_timer p m =
    let ts = insert m.store p m.timers in
    if is_front p ts && not m.tickled
    then record m { timers = ts; tickled = true; front_calls = m.front_calls + 1 }
    else record m { timers = ts }

-- `TimerManager::addtimer`, with the timer constructed at the address `p`.
unfoldable pub addtimer : ℕ → Option Callback → Bool → ℕ → ℕ → TimerManager → TimerManager
unfolding add_timer
addtimer ms cb recurring now p m =
    let t : Timer = record { recurring = recurring; ms = ms; next = to_u32 (now + ms); cb = cb } in
    add_timer p (record m { store = update m.store p t })

-- `none` where the source erases the end iterator.
unfoldable pub cancel : ℕ → TimerManager → Option (TimerManager × Bool)
cancel p m = elim ((m.store p).cb) [
  | none ↦ some (m, false)
  | some _ ↦
      let st = update m.store p (record (m.store p) { cb = none }) in
      if found st p m.timers
      then some (record m { store = st; timers = erase st p m.timers }, true)
      else none
]

unfoldable pub refresh : ℕ → ℕ → TimerManager → TimerManager × Bool
refresh now p m = elim ((m.store p).cb) [
  | none ↦ (m, false)
  | some _ ↦
      let t = m.store p in
      let st = update m.store p (record t { next = to_u32 (now + t.ms) }) in
      if found m.store p m.timers
      then (record m { store = st; timers = insert st p (erase m.store p m.timers) }, true)
      else (m, false)
]

-- `m_next - m_ms` is in `uint64_t`.
abbrev pub start_time : Bool → ℕ → Timer → ℕ
start_time form_now now t = if form_now then now else (t.next + 2 ^ 64 - t.ms % 2 ^ 64) % 2 ^ 64

-- What `reset` does to a timer that is in the set.
unfoldable pub restart : ℕ → Bool → ℕ → ℕ → TimerManager → TimerManager
unfolding add_timer
restart ms form_now now p m =
    let t = m.store p in
    let next = to_u32 (start_time form_now now t + ms) in
    let st = update m.store p (record t { ms = ms; next = next }) in
    let a = add_timer p (record m { store = st; timers = erase m.store p m.timers }) in
    record a { timers = insert a.store p a.timers }

unfoldable pub reset : ℕ → Bool → ℕ → ℕ → TimerManager → TimerManager × Bool
reset ms form_now now p m =
    if ms == (m.store p).ms && not form_now then (m, true) else elim ((m.store p).cb) [
      | none ↦ (m, false)
      | some _ ↦
          if found m.store p m.timers then (restart ms form_now now p m, true) else (m, false)
    ]

unfoldable pub get_next_timer : ℕ → TimerManager → TimerManager × ℕ
get_next_timer now m =
    let m' = record m { tickled = false } in
    elim (m.timers) [
      | [] ↦ (m', 2 ^ 64 - 1)
      | x ∷ _ ↦ if leb (m.store x).next now then (m', 0) else (m', (m.store x).next - now)
    ]

-- What the loop of `listExpiredCb` does to a timer that is recurring, and to one that is not.
unfoldable pub rearm : Bool → ℕ → ℕ → TimerManager → TimerManager
rearm true now p m =
    let t = m.store p in
    let st = update m.store p (record t { next = to_u32 (now + t.ms) }) in
    record m { store = st; timers = insert st p m.timers }
rearm false now p m = record m { store = update m.store p (record (m.store p) { cb = none }) }

-- The loop over the expired timers.
unfoldable pub fire :
    ℕ → List ℕ → TimerManager → List (Option Callback) → TimerManager × List (Option Callback)
unfolding rearm
fire now [] m cbs = (m, cbs)
fire now (p ∷ ps) m cbs =
    fire now ps (rearm (m.store p).recurring now p m) (cbs ++ ((m.store p).cb ∷ []))

-- The timers as `upper_bound` sees them, with the temporary `now_timer` at the address `here`.
abbrev pub with_now : ℕ → ℕ → TimerManager → ℕ → Timer
with_now now here m =
    update m.store here (record { recurring = false; ms = 0; next = to_u32 now; cb = none })

-- `listExpiredCb` on the timers of the set, with its return when there are none.
unfoldable pub expire : ℕ → ℕ → List ℕ → TimerManager → TimerManager × List (Option Callback)
unfolding fire
expire now here [] m = (m, [])
expire now here (x ∷ xs) m =
    let st = with_now now here m in
    fire now (expired st here (x ∷ xs)) (record m { timers = remaining st here (x ∷ xs) }) []

unfoldable pub list_expired_cb : ℕ → ℕ → TimerManager → TimerManager × List (Option Callback)
unfolding expire
list_expired_cb now here m = expire now here m.timers m

unfoldable pub has_timer : TimerManager → Bool
has_timer m = elim (m.timers) [ [] ↦ false | _ ∷ _ ↦ true ]

-- `m_previousTime - 60*60*1000` wraps.
unfoldable pub detect_clock_rollover : ℕ → TimerManager → TimerManager × Bool
detect_clock_rollover now m = (
  record m { previous_time = now },
  ltb now m.previous_time && ltb now ((m.previous_time + 2 ^ 64 - 3_600_000) % 2 ^ 64),
)
