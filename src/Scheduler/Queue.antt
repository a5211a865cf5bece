-- ===== src/Scheduler/Queue.antt =====
-- The queue of dwframe/scheduler.h and dwframe/scheduler.cc: what is put into it and what is taken.
use dwframe.Base.{
  ℕ, ◌≡◌, refl, sym, ap, ◌∙◌, inl, inr, Bool-cases, Bool, true, false, none, some, List, [], ◌∷◌,
  ◌++◌, if◌then◌else◌, not, ◌||◌, All, All-append, append_assoc, append-nil,
}
use dwframe.Scheduler.{
  State, FiberAndThread, Scheduler, is_empty, is_work, schedule_nolock, schedule, schedule_range,
  schedule_all, elsewhere, runs, Pick, pick, schedule_each,
}

-- The items that hold a fiber or a callback.
abbrev pub works : List FiberAndThread → List FiberAndThread
works [] = []
works (ft ∷ fts) = if is_work ft.work then ft ∷ works fts else works fts

abbrev pub IsWork : FiberAndThread → Type 0
IsWork ft = is_work ft.work ≡ true

works-IsWork : (fts : List FiberAndThread) → All IsWork (works fts)
works-IsWork [] = tt
works-IsWork (ft ∷ fts) = elim (Bool-cases (is_work ft.work)) [
  | inl t ↦ rw t (t, works-IsWork fts)
  | inr t ↦ rw t (works-IsWork fts)
]

schedule_nolock_fibers :
    (ft : FiberAndThread) (q : List FiberAndThread)
    → (schedule_nolock ft q).0 ≡ q ++ works (ft ∷ [])
unfolding schedule_nolock
schedule_nolock_fibers ft q = elim (Bool-cases (is_work ft.work)) [
  | inl t ↦ rw t
  | inr t ↦ rw t (sym (append-nil q))
]

works-cons :
    (ft : FiberAndThread) (fts : List FiberAndThread)
    → works (ft ∷ []) ++ works fts ≡ works (ft ∷ fts)
works-cons ft fts = elim (Bool-cases (is_work ft.work)) [ inl t ↦ rw t | inr t ↦ rw t ]

appended :
    (ft : FiberAndThread) (fts q q' : List FiberAndThread)
    → q' ≡ q ++ works (ft ∷ [])
    → q' ++ works fts ≡ q ++ works (ft ∷ fts)
appended ft fts q q' e =
    ap (λ l. l ++ works fts) e
    ∙ append_assoc q (works (ft ∷ [])) (works fts)
    ∙ ap (λ l. q ++ l) (works-cons ft fts)

schedule_range_fibers :
    (fts q : List FiberAndThread) (b : Bool) → (schedule_range fts q b).0 ≡ q ++ works fts
unfolding schedule_range
schedule_range_fibers [] q b = sym (append-nil q)
schedule_range_fibers (ft ∷ fts) q b =
    schedule_range_fibers fts (schedule_nolock ft q).0 ((schedule_nolock ft q).1 || b)
    ∙ appended ft fts q (schedule_nolock ft q).0 (schedule_nolock_fibers ft q)

-- What scheduling items one by one leaves as it was, and what it does to the queue.
pub record Queued (fts : List FiberAndThread) (s s' : Scheduler) : Type 0 where
  pub fibers : s'.fibers ≡ s.fibers ++ works fts
  pub states : s'.states ≡ s.states
  pub active : s'.active_thread_count ≡ s.active_thread_count
  pub cb_fiber : s'.cb_fiber ≡ s.cb_fiber
  pub idle_fiber : s'.idle_fiber ≡ s.idle_fiber

pub schedule-Queued : (ft : FiberAndThread) (s : Scheduler) → Queued (ft ∷ []) s (schedule ft s)
unfolding schedule
schedule-Queued ft s = record {
  fibers = schedule_nolock_fibers ft s.fibers;
  states = refl;
  active = refl;
  cb_fiber = refl;
  idle_fiber = refl;
}

pub schedule_each-Queued :
    (fts : List FiberAndThread) (s : Scheduler) → Queued fts s (schedule_each fts s)
schedule_each-Queued [] s = record {
  fibers = sym (append-nil s.fibers);
  states = refl;
  active = refl;
  cb_fiber = refl;
  idle_fiber = refl;
}
schedule_each-Queued (ft ∷ fts) s =
    let one = schedule-Queued ft s in
    let more = schedule_each-Queued fts (schedule ft s) in
    record {
      fibers = more.fibers ∙ appended ft fts s.fibers (schedule ft s).fibers one.fibers;
      states = more.states ∙ one.states;
      active = more.active ∙ one.active;
      cb_fiber = more.cb_fiber ∙ one.cb_fiber;
      idle_fiber = more.idle_fiber ∙ one.idle_fiber;
    }

pub Queued-works :
    (fts : List FiberAndThread) (s s' : Scheduler)
    → Queued fts s s'
    → All IsWork s.fibers
    → All IsWork s'.fibers
Queued-works fts s s' q w =
    rw q.fibers (All-append IsWork s.fibers (works fts) w (works-IsWork fts))

-- Scheduling a range under one lock and scheduling its items one by one make the same queue: what
-- was in it, and behind that the items that hold a fiber or a callback, in their order.
schedule_all-schedule_each :
    (fts : List FiberAndThread) (s : Scheduler)
    → ((schedule_all fts s).fibers ≡ s.fibers ++ works fts)
      × ((schedule_each fts s).fibers ≡ (schedule_all fts s).fibers)
unfolding schedule_all
schedule_all-schedule_each fts s = (
  schedule_range_fibers fts s.fibers false,
  (schedule_each-Queued fts s).fibers ∙ sym (schedule_range_fibers fts s.fibers false),
)

-- The thread passes the item over: it is for another thread, or its fiber runs.
abbrev pub passed_over : ℕ → (ℕ → State) → FiberAndThread → Bool
passed_over this states ft = elsewhere this ft.thread || runs states ft.work

abbrev pub any_elsewhere : ℕ → List FiberAndThread → Bool
any_elsewhere this [] = false
any_elsewhere this (ft ∷ q) = elsewhere this ft.thread || any_elsewhere this q

-- What the search answers: the first item that is not passed over is taken and the rest keeps its
-- order; or every item is passed over and nothing changes. Other threads are told where an item
-- for one of them was seen, or items are left behind the one that was taken.
pub data Picked (this : ℕ) (states : ℕ → State) (q : List FiberAndThread) (p : Pick) : Type 0 where
  nothing :
      (All (λ ft. passed_over this states ft ≡ true) q)
      → p.taken ≡ none
      → p.left ≡ q
      → p.tickle_me ≡ any_elsewhere this q
      → Picked this states q p
  one :
      (ft : FiberAndThread) (before after : List FiberAndThread)
      → q ≡ before ++ (ft ∷ after)
      → (All (λ x. passed_over this states x ≡ true) before)
      → passed_over this states ft ≡ false
      → p.taken ≡ some ft
      → p.left ≡ before ++ after
      → p.tickle_me ≡ (any_elsewhere this before || not (is_empty after))
      → Picked this states q p

skipping :
    (this : ℕ) (states : ℕ → State) (ft : FiberAndThread) (q : List FiberAndThread) (p : Pick)
    → passed_over this states ft ≡ true
    → Picked this states q p
    → Picked this states (ft ∷ q) (record {
      taken = p.taken;
      left = ft ∷ p.left;
      tickle_me = elsewhere this ft.thread || p.tickle_me;
    })
skipping this states ft q p h (nothing all none_taken same told) =
    nothing (h, all) none_taken (rw same) (rw told)
skipping this states ft q p h (one x before after split all free taken left told) =
    one x (ft ∷ before) after (rw split) (h, all) free taken (rw left)
      (elim (Bool-cases (elsewhere this ft.thread)) [ inl t ↦ rw t | inr t ↦ rw t told ])

-- The search of `run` takes the first item that is neither for another thread nor a fiber that
-- runs, and leaves the others in their order, or takes none if there is no such item; another
-- thread is told exactly if an item for one was seen or items are left behind the one taken.
pub pick-Picked :
    (this : ℕ) (states : ℕ → State) (q : List FiberAndThread)
    → Picked this states q (pick this states q)
unfolding pick
pick-Picked this states [] = nothing tt refl refl refl
pick-Picked this states (ft ∷ q) =
    let more = pick-Picked this states q in
    elim (Bool-cases (elsewhere this ft.thread)) [
      | inl t ↦ rw t (rw t at (skipping this states ft q (pick this states q) (rw t) more))
      | inr t ↦ elim (Bool-cases (runs states ft.work)) [
        | inl r ↦
            rw (t, r) (rw t at (skipping this states ft q (pick this states q) (rw (t, r)) more))
        | inr r ↦ rw (t, r) (one ft [] q refl tt (rw (t, r)) refl refl refl)
      ]
    ]
