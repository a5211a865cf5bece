-- ===== src/Scheduler/Settling.antt =====
-- The invariant of the scheduler of dwframe/scheduler.cc, and that the steps around a `swapIn` keep it.
use mathlib.Core.Option.{some-injective}
use dwframe.Base.{
  ℕ, ◌+◌, ◌≡◌, refl, sym, ◌∙◌, inl, inr, Bool-cases, true, false, Option, none, some, List, [], ◌∷◌,
  ◌==◌, ==_refl, arith, All,
}
use dwframe.Scheduler.{
  State, init, hold, exec, term, ready, except, fiber, FiberAndThread, Scheduler, is_reusable,
  is_over, is_exec, is_stuck, put_state, schedule, schedule_each, Run, swap_in, for_any,
  after_fiber, after_cb, fiber_for_cb,
}
use dwframe.Scheduler.Queue.{IsWork, Queued, schedule-Queued, schedule_each-Queued, Queued-works}

-- The fiber that is kept for callbacks can be reset, the idle fiber does not run, and what is in the
-- queue holds a fiber or a callback.
pub record IsValid (s : Scheduler) : Type 0 where
  pub kept : (i : ℕ) → s.cb_fiber ≡ some i → is_reusable (s.states i) ≡ true
  pub idle : is_stuck s.idle_fiber ≡ false
  pub all_work : All IsWork s.fibers

pub put_state_self : (i : ℕ) (x : State) (f : ℕ → State) → put_state i x f i ≡ x
put_state_self i x f = rw (==_refl i)

pub put_state-reusable :
    (i j : ℕ) (x : State) (f : ℕ → State)
    → (i ≡ j → is_reusable x ≡ true)
    → is_reusable (f j) ≡ true
    → is_reusable (put_state i x f j) ≡ true
put_state-reusable i j x f h r = elim (Bool-cases (j == i)) [
  | inl t ↦ rw t (h (ground arith))
  | inr t ↦ rw t r
]

pub over-reusable : (x : State) → is_over x ≡ true → is_reusable x ≡ true
over-reusable init h = absurd (cc)
over-reusable hold h = absurd (cc)
over-reusable exec h = absurd (cc)
over-reusable term h = refl
over-reusable ready h = absurd (cc)
over-reusable except h = refl

-- The steps after a `swapIn` keep the scheduler valid, where a fiber that is kept is over.
pub record Settled (s s' : Scheduler) : Type 0 where
  pub valid : IsValid s'
  pub active : s'.active_thread_count ≡ s.active_thread_count

pub queue-Settled :
    (fts : List FiberAndThread) (s s' : Scheduler) → IsValid s → Queued fts s s' → Settled s s'
queue-Settled fts s s' v q = record {
  valid = record {
    kept = λ i e. rw q.states (v.kept i (sym q.cb_fiber ∙ e));
    idle = rw q.idle_fiber v.idle;
    all_work = Queued-works fts s s' q v.all_work;
  };
  active = q.active;
}

on_hold :
    (i : ℕ) (s : Scheduler)
    → IsValid s
    → ((j : ℕ) → s.cb_fiber ≡ some j → i ≡ j → is_over (s.states i) ≡ true)
    → is_over (s.states i) ≡ false
    → IsValid (record s { states = put_state i hold s.states })
on_hold i s v h live = record {
  kept =
      λ j e. put_state-reusable i j hold s.states (λ p. absurd (cc (h j e p, live))) (v.kept j e);
  idle = v.idle;
  all_work = v.all_work;
}

pub after_fiber-Settled :
    (i : ℕ) (s : Scheduler)
    → IsValid s
    → ((j : ℕ) → s.cb_fiber ≡ some j → i ≡ j → is_over (s.states i) ≡ true)
    → Settled s (after_fiber i s)
unfolding after_fiber
after_fiber-Settled i s v h = go (s.states i) refl
  where
    go : (x : State) → s.states i ≡ x → Settled s (after_fiber i s)
    go init e = rw (e, after_fiber) (record { valid = on_hold i s v h (rw e); active = refl })
    go hold e = rw (e, after_fiber) (record { valid = on_hold i s v h (rw e); active = refl })
    go exec e = rw (e, after_fiber) (record { valid = on_hold i s v h (rw e); active = refl })
    go term e = rw (e, after_fiber) (record { valid = v; active = refl })
    go except e = rw (e, after_fiber) (record { valid = v; active = refl })
    go ready e =
        rw (e, after_fiber)
          (queue-Settled (for_any (fiber i) ∷ []) s (schedule (for_any (fiber i)) s) v
            (schedule-Queued (for_any (fiber i)) s))

-- What a `swapIn` leaves: nothing but the queue and the state of the fiber changes.
pub record SwappedIn (body : ℕ → Run) (i : ℕ) (s : Scheduler) : Type 0 where
  pub result : Scheduler
  pub returns : swap_in body i s ≡ some result
  pub queued :
      Queued (body i).scheduled (record s { states = put_state i (body i).after s.states }) result

pub swap_in-SwappedIn :
    (body : ℕ → Run) (i : ℕ) (s : Scheduler) → is_exec (s.states i) ≡ false → SwappedIn body i s
unfolding swap_in
swap_in-SwappedIn body i s h =
    let s₀ : Scheduler = record s { states = put_state i (body i).after s.states } in
    record {
      result = schedule_each (body i).scheduled s₀;
      returns = rw h;
      queued = schedule_each-Queued (body i).scheduled s₀;
    }

-- The fiber for a callback is there and does not run, and is the one that is kept.
pub record CbFiber (s : Scheduler) : Type 0 where
  pub id : ℕ
  pub result : Scheduler
  pub returns : fiber_for_cb s ≡ some (id, result)
  pub fresh : result.states id ≡ init
  pub idle_fiber : result.idle_fiber ≡ s.idle_fiber
  pub fibers : result.fibers ≡ s.fibers
  pub active : result.active_thread_count ≡ s.active_thread_count

pub fiber_for_cb-CbFiber : (s : Scheduler) → IsValid s → CbFiber s
unfolding fiber_for_cb
fiber_for_cb-CbFiber s v = go s.cb_fiber refl
  where
    go : (o : Option ℕ) → s.cb_fiber ≡ o → CbFiber s
    go none e = record {
      id = s.next_id;
      result = record s {
        states = put_state s.next_id init s.states;
        next_id = s.next_id + 1;
        cb_fiber = some s.next_id;
      };
      returns = rw (e, fiber_for_cb);
      fresh = put_state_self s.next_id init s.states;
      idle_fiber = refl;
      fibers = refl;
      active = refl;
    }
    go (some i) e = record {
      id = i;
      result = record s { states = put_state i init s.states };
      returns = simp (e, v.kept i e, fiber_for_cb);
      fresh = put_state_self i init s.states;
      idle_fiber = refl;
      fibers = refl;
      active = refl;
    }

pub after_cb-Settled :
    (i : ℕ) (s : Scheduler)
    → is_stuck s.idle_fiber ≡ false
    → All IsWork s.fibers
    → Settled s (after_cb i s)
unfolding after_cb
after_cb-Settled i s idle all_work = go (s.states i) refl
  where
    dropped : Settled s (record s { states = put_state i hold s.states; cb_fiber = none })
    dropped = record {
      valid = record { kept = λ j e. absurd (cc); idle = idle; all_work = all_work };
      active = refl;
    }

    reset : Settled s (record s { states = put_state i init s.states; cb_fiber = some i })
    reset = record {
      valid = record {
        kept = λ j e. rw (sym (some-injective _ _ e), put_state_self i init s.states) refl;
        idle = idle;
        all_work = all_work;
      };
      active = refl;
    }

    go : (x : State) → s.states i ≡ x → Settled s (after_cb i s)
    go init e = rw (e, after_cb) dropped
    go hold e = rw (e, after_cb) dropped
    go exec e = rw (e, after_cb) dropped
    go term e = rw (e, after_cb) reset
    go except e = rw (e, after_cb) reset
    go ready e =
        let q = schedule-Queued (for_any (fiber i)) s in
        rw (e, after_cb)
          (record {
            valid = record {
              kept = λ j p. absurd (cc);
              idle = rw q.idle_fiber idle;
              all_work =
                  Queued-works (for_any (fiber i) ∷ []) s (schedule (for_any (fiber i)) s) q
                    all_work;
            };
            active = q.active;
          })
