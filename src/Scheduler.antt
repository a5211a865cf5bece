-- ===== src/Scheduler.antt =====
-- dwframe/scheduler.h, dwframe/scheduler.cc and the states of dwframe/fiber.cc: the loop by which a
-- thread runs what is scheduled. Fibers and callbacks are known by numbers. What the code of a
-- fiber does from one `swapIn` until it is swapped out again is a parameter `body`: the state it is
-- left in and the items it schedules. The loop runs on one thread; a `swapIn` is one step.
pub mod Queue
pub mod Settling
pub mod Running
use dwframe.Base.{
  ℕ, ◌+◌, ◌-◌, Bool, true, false, Option, none, some, List, [], ◌∷◌, ◌++◌, if◌then◌else◌, not, ◌==◌,
  ◌&&◌, ◌||◌,
}

-- `Fiber::State`.
pub data State : Type 0 where
  init hold exec term ready except : State

-- A fiber or a callback, and the thread it is for, none for -1.
pub data Work : Type 0 where
  fiber : ℕ → Work
  cb : ℕ → Work
  empty : Work

pub record FiberAndThread : Type 0 where
  pub work : Work
  pub thread : Option ℕ

pub record Scheduler : Type 0 where
  pub fibers : List FiberAndThread
  pub states : ℕ → State
  pub next_id : ℕ
  pub active_thread_count : ℕ
  pub idle_thread_count : ℕ
  pub tickles : ℕ
  pub auto_stop : Bool
  pub stoping : Bool
  pub idle_fiber : State
  pub cb_fiber : Option ℕ

abbrev pub is_empty {ℓ} : {A : Type ℓ} → List A → Bool
is_empty [] = true
is_empty (x ∷ xs) = false

-- TERM, EXCEPT or INIT, as `reset` and the destructor ask, and TERM or EXCEPT, as the loop does.
abbrev pub is_reusable : State → Bool
is_reusable init = true
is_reusable term = true
is_reusable except = true
is_reusable _ = false

abbrev pub is_over : State → Bool
is_over term = true
is_over except = true
is_over _ = false

abbrev pub is_exec : State → Bool
is_exec exec = true
is_exec _ = false

abbrev pub is_work : Work → Bool
is_work empty = false
is_work _ = true

abbrev pub put_state : ℕ → State → (ℕ → State) → ℕ → State
put_state i s states j = if j == i then s else states j

-- `scheduleNolock` and its answer: the queue was empty.
unfoldable pub schedule_nolock : FiberAndThread → List FiberAndThread → List FiberAndThread × Bool
schedule_nolock ft q = (if is_work ft.work then q ++ (ft ∷ []) else q, is_empty q)

abbrev pub one_if : Bool → ℕ
one_if true = 1
one_if false = 0

-- `schedule` of one item.
unfoldable pub schedule : FiberAndThread → Scheduler → Scheduler
unfolding schedule_nolock
schedule ft s = record s {
  fibers = (schedule_nolock ft s.fibers).0;
  tickles = s.tickles + one_if (schedule_nolock ft s.fibers).1;
}

-- The loop of `schedule` over a range of items, under one lock.
unfoldable pub schedule_range :
    List FiberAndThread → List FiberAndThread → Bool → List FiberAndThread × Bool
unfolding schedule_nolock
schedule_range [] q need_tickle = (q, need_tickle)
schedule_range (ft ∷ fts) q need_tickle =
    schedule_range fts (schedule_nolock ft q).0 ((schedule_nolock ft q).1 || need_tickle)

unfoldable pub schedule_all : List FiberAndThread → Scheduler → Scheduler
unfolding schedule_range
schedule_all fts s = record s {
  fibers = (schedule_range fts s.fibers false).0;
  tickles = s.tickles + one_if (schedule_range fts s.fibers false).1;
}

-- The item is for another thread, or its fiber runs.
abbrev pub elsewhere : ℕ → Option ℕ → Bool
elsewhere this none = false
elsewhere this (some t) = not (t == this)

abbrev pub runs : (ℕ → State) → Work → Bool
runs states (fiber i) = is_exec (states i)
runs states (cb f) = false
runs states empty = false

-- The search of `run` in the queue: what is taken, what is left, and whether another thread is to
-- be told. The flag is set by an item for another thread, and by an end before the end of the queue.
pub record Pick : Type 0 where
  pub taken : Option FiberAndThread
  pub left : List FiberAndThread
  pub tickle_me : Bool

unfoldable pub pick : ℕ → (ℕ → State) → List FiberAndThread → Pick
pick this states [] = record { taken = none; left = []; tickle_me = false }
pick this states (ft ∷ q) =
    let rest = pick this states q in
    if elsewhere this ft.thread
    then record { taken = rest.taken; left = ft ∷ rest.left; tickle_me = true }
    else if runs states ft.work
    then record rest { left = ft ∷ rest.left }
    else record { taken = some ft; left = q; tickle_me = not (is_empty q) }

-- What a fiber does until it is swapped out: the state it is in then, what it schedules, and whether
-- there is a pointer to it, as in an event or a timer, beside the one of `run`.
pub record Run : Type 0 where
  pub after : State
  pub scheduled : List FiberAndThread
  pub shared : Bool

abbrev pub schedule_each : List FiberAndThread → Scheduler → Scheduler
schedule_each [] s = s
schedule_each (ft ∷ fts) s = schedule_each fts (schedule ft s)

-- `swapIn`, which fails its assertion on a fiber that runs, and what the fiber does.
unfoldable pub swap_in : (ℕ → Run) → ℕ → Scheduler → Option Scheduler
swap_in body i s =
    if is_exec (s.states i)
    then none
    else some (
        schedule_each (body i).scheduled
          (record s { states = put_state i (body i).after s.states }))

-- `stopping`.
unfoldable pub stopping : Scheduler → Bool
stopping s = s.auto_stop && s.stoping && is_empty s.fibers && (s.active_thread_count == 0)

abbrev pub for_any : Work → FiberAndThread
for_any w = record { work = w; thread = none }

-- After the `swapIn` of a fiber: one that is ready is scheduled, one that is not over is on hold.
unfoldable pub after_fiber : ℕ → Scheduler → Scheduler
after_fiber i s = elim (s.states i) [
  | ready ↦ schedule (for_any (fiber i)) s
  | term ↦ s
  | except ↦ s
  | _ ↦ record s { states = put_state i hold s.states }
]

-- After the `swapIn` of the fiber of a callback: it is kept, reset, for the next callback only
-- where it is over.
unfoldable pub after_cb : ℕ → Scheduler → Scheduler
after_cb i s = elim (s.states i) [
  | ready ↦ record (schedule (for_any (fiber i)) s) { cb_fiber = none }
  | term ↦ record s { states = put_state i init s.states; cb_fiber = some i }
  | except ↦ record s { states = put_state i init s.states; cb_fiber = some i }
  | _ ↦ record s { states = put_state i hold s.states; cb_fiber = none }
]

-- Whether the destructor of a fiber that `run` lets go of is not called or passes its assertion on the
-- state: one that is ready is in the queue, one that is over may go, and any other is on hold.
unfoldable pub outlives : Bool → State → Bool
outlives shared ready = true
outlives shared term = true
outlives shared except = true
outlives shared _ = shared

-- One round of the loop: the loop goes on, it has ended, or an assertion failed.
pub data Round : Type 0 where
  goes_on ended : Scheduler → Round
  aborted : Round

abbrev pub leave : Scheduler → Scheduler
leave s = record s { active_thread_count = s.active_thread_count - 1 }

abbrev pub enter : Scheduler → Scheduler
enter s = record s { active_thread_count = s.active_thread_count + 1 }

unfoldable pub run_fiber : (ℕ → Run) → ℕ → Scheduler → Round
unfolding swap_in after_fiber
run_fiber body i s = if is_over (s.states i) then goes_on (leave s) else elim (swap_in body i s) [
  | none ↦ aborted
  | some s' ↦
      if outlives (body i).shared (s'.states i) then goes_on (after_fiber i (leave s')) else aborted
]

-- The fiber for a callback: the one that is kept, which `reset` wants reusable, or a new one.
unfoldable pub fiber_for_cb : Scheduler → Option (ℕ × Scheduler)
fiber_for_cb s = elim s.cb_fiber [
  | none ↦ some (
    s.next_id,
    record s {
      states = put_state s.next_id init s.states;
      next_id = s.next_id + 1;
      cb_fiber = some s.next_id;
    },
  )
  | some i ↦
      if is_reusable (s.states i)
      then some (i, record s { states = put_state i init s.states })
      else none
]

unfoldable pub run_cb : (ℕ → ℕ → Run) → ℕ → Scheduler → Round
unfolding fiber_for_cb swap_in after_cb
run_cb body f s = elim (fiber_for_cb s) [
  | none ↦ aborted
  | some (i, s₁) ↦ elim (swap_in (body f) i s₁) [
    | none ↦ aborted
    | some s₂ ↦
        if outlives (body f i).shared (s₂.states i)
        then goes_on (after_cb i (leave s₂))
        else aborted
  ]
]

-- The idle fiber cannot be swapped in while it runs, nor behind its end after an exception.
abbrev pub is_stuck : State → Bool
is_stuck exec = true
is_stuck except = true
is_stuck _ = false

-- The idle fiber: `idle` of the scheduler ends when it is stopping, and else yields.
unfoldable pub run_idle : Scheduler → Round
unfolding stopping
run_idle s = elim s.idle_fiber [
  | term ↦ ended s
  | exec ↦ aborted
  | except ↦ aborted
  | _ ↦ goes_on (record s { idle_fiber = if stopping s then term else hold })
]

-- What the round does with an item, once it is taken off the queue.
unfoldable pub run_item : (ℕ → Run) → (ℕ → ℕ → Run) → Work → Scheduler → Round
unfolding run_fiber run_cb
run_item body cb_body (fiber i) s = run_fiber body i s
run_item body cb_body (cb f) s = run_cb cb_body f s
run_item body cb_body empty s = aborted

-- A round of the loop of `run` on the thread `this`.
unfoldable pub run_once : (ℕ → Run) → (ℕ → ℕ → Run) → ℕ → Scheduler → Round
unfolding pick run_item run_idle
run_once body cb_body this s =
    let p = pick this s.states s.fibers in
    let s₁ : Scheduler = record s { fibers = p.left; tickles = s.tickles + one_if p.tickle_me } in
    elim p.taken [ none ↦ run_idle s₁ | some ft ↦ run_item body cb_body ft.work (enter s₁) ]
