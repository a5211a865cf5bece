-- ===== src/Scheduler/Running.antt =====
-- A round of the loop of `run` in dwframe/scheduler.cc.
use dwframe.Base.{
  ℕ, ◌+◌, ◌-◌, ◌≡◌, refl, sym, ap, ◌∙◌, ◌⊎◌, inl, inr, Bool-cases, Bool, true, false, Option, some,
  List, [], ◌∷◌, ◌++◌, if◌then◌else◌, ◌||◌, arith, All,
}
use dwframe.Scheduler.{
  State, init, hold, exec, term, ready, except, Work, fiber, cb, empty, FiberAndThread, Scheduler,
  is_over, is_exec, is_stuck, outlives, is_work, put_state, Run, after_fiber, after_cb, Round,
  goes_on, ended, leave, enter, run_fiber, run_cb, run_idle, run_item, run_once, pick, one_if,
  stopping, elsewhere, runs,
}
use dwframe.Scheduler.Queue.{IsWork, Queued-works, nothing, one, pick-Picked, passed_over}
use dwframe.Scheduler.Settling.{
  put_state_self, queue-Settled, over-reusable, put_state-reusable, IsValid, after_fiber-Settled,
  after_cb-Settled, swap_in-SwappedIn, fiber_for_cb-CbFiber,
}

-- A round that does not fail an assertion, and counts the thread in and out.
pub record Rounds (s : Scheduler) (run : Round) : Type 0 where
  pub result : Scheduler
  pub returns : (run ≡ goes_on result) ⊎ (run ≡ ended result)
  pub valid : IsValid result
  pub active : result.active_thread_count ≡ s.active_thread_count

run_fiber-Rounds :
    (body : ℕ → Run) (i : ℕ) (s : Scheduler)
    → IsValid s
    → is_exec (s.states i) ≡ false
    → ((j : ℕ) → s.cb_fiber ≡ some j → is_over (body j).after ≡ true)
    → outlives (body i).shared (body i).after ≡ true
    → Rounds (leave s) (run_fiber body i s)
unfolding run_fiber
run_fiber-Rounds body i s v h over safe = elim (Bool-cases (is_over (s.states i))) [
  | inl t ↦ record {
    result = leave s;
    returns = inl (rw t);
    valid = record { kept = v.kept; idle = v.idle; all_work = v.all_work };
    active = refl;
  }
  | inr t ↦
      let in_ = swap_in-SwappedIn body i s h in
      let s₀ : Scheduler = record s { states = put_state i (body i).after s.states } in
      let valid₀ : IsValid s₀ = record {
        kept = λ j e.
            put_state-reusable i j (body i).after s.states
              (λ p. over-reusable (body i).after (rw p (over j e))) (v.kept j e);
        idle = v.idle;
        all_work = v.all_work;
      } in
      let settled = queue-Settled (body i).scheduled s₀ in_.result valid₀ in_.queued in
      let left = leave in_.result in
      let valid_left : IsValid left = record {
        kept = settled.valid.kept;
        idle = settled.valid.idle;
        all_work = settled.valid.all_work;
      } in
      let after = after_fiber-Settled i left valid_left (λ j e p.
        rw (in_.queued.states, put_state_self i (body i).after s.states, p)
          (over j (sym in_.queued.cb_fiber ∙ e))) in
      record {
        result = after_fiber i left;
        returns = inl (
            rw (t, in_.returns, in_.queued.states, put_state_self i (body i).after s.states, safe)
              refl);
        valid = after.valid;
        active = after.active ∙ ap (λ n. n - 1) in_.queued.active;
      }
]

run_cb-Rounds :
    (body : ℕ → ℕ → Run) (f : ℕ) (s : Scheduler)
    → IsValid s
    → ((i : ℕ) → outlives (body f i).shared (body f i).after ≡ true)
    → Rounds (leave s) (run_cb body f s)
unfolding run_cb
run_cb-Rounds body f s v safe =
    let c = fiber_for_cb-CbFiber s v in
    let in_ = swap_in-SwappedIn (body f) c.id c.result (rw c.fresh refl) in
    let left = leave in_.result in
    let after = after_cb-Settled c.id left (rw (in_.queued.idle_fiber, c.idle_fiber) v.idle) (
      Queued-works (body f c.id).scheduled
        (record c.result { states = put_state c.id (body f c.id).after c.result.states }) in_.result
        in_.queued (rw c.fibers v.all_work)) in
    record {
      result = after_cb c.id left;
      returns = inl (
          rw
            (
              c.returns,
              in_.returns,
              in_.queued.states,
              put_state_self c.id (body f c.id).after c.result.states,
              safe c.id,
              run_cb,
            )
            refl);
      valid = after.valid;
      active = after.active ∙ ap (λ n. n - 1) (in_.queued.active ∙ c.active);
    }

run_idle-Rounds : (s : Scheduler) → IsValid s → Rounds s (run_idle s)
unfolding run_idle
run_idle-Rounds s v = go s.idle_fiber refl
  where
    next : Scheduler
    next = record s { idle_fiber = if stopping s then term else hold }

    not_exec : (b : Bool) → is_stuck (if b then term else hold) ≡ false
    not_exec true = refl
    not_exec false = refl

    valid : IsValid next
    valid = record { kept = v.kept; idle = not_exec (stopping s); all_work = v.all_work }

    yields : run_idle s ≡ goes_on next → Rounds s (run_idle s)
    yields e = record { result = next; returns = inl e; valid = valid; active = refl }

    go : (x : State) → s.idle_fiber ≡ x → Rounds s (run_idle s)
    go init e = yields (rw (e, run_idle))
    go hold e = yields (rw (e, run_idle))
    go ready e = yields (rw (e, run_idle))
    go except e = absurd (cc (v.idle, ap is_stuck e))
    go exec e = absurd (cc (v.idle, ap is_stuck e))
    go term e = record { result = s; returns = inr (simp (e, run_idle)); valid = v; active = refl }

-- One item fewer in the queue, and the other items as they were.
All-without :
    (before after : List FiberAndThread) (ft : FiberAndThread)
    → All IsWork (before ++ (ft ∷ after))
    → All IsWork (before ++ after) × IsWork ft
All-without [] after ft w = (w.1, w.0)
All-without (x ∷ before) after ft w = let r = All-without before after ft w.1 in ((w.0, r.0), r.1)

not_running :
    (this : ℕ) (s : Scheduler) (t : Option ℕ) (i : ℕ)
    → (elsewhere this t || is_exec (s.states i)) ≡ false
    → is_exec (s.states i) ≡ false
not_running this s t i h = ground arith

run_item-Rounds :
    (body : ℕ → Run) (cb_body : ℕ → ℕ → Run) (this : ℕ) (ft : FiberAndThread) (s : Scheduler)
    → IsValid s
    → IsWork ft
    → passed_over this s.states ft ≡ false
    → ((j : ℕ) → s.cb_fiber ≡ some j → is_over (body j).after ≡ true)
    → ((i : ℕ) → outlives (body i).shared (body i).after ≡ true)
    → ((f i : ℕ) → outlives (cb_body f i).shared (cb_body f i).after ≡ true)
    → Rounds (leave s) (run_item body cb_body ft.work s)
unfolding run_item
run_item-Rounds body cb_body this ft s v w free over safe cb_safe = go ft.work w free
  where
    go :
        (k : Work)
        → is_work k ≡ true
        → (elsewhere this ft.thread || runs s.states k) ≡ false
        → Rounds (leave s) (run_item body cb_body k s)
    go (fiber i) h p = run_fiber-Rounds body i s v (not_running this s ft.thread i p) over (safe i)
    go (cb f) h p = run_cb-Rounds cb_body f s v (cb_safe f)
    go empty h p = absurd (cc)

-- A round of the loop of `run` on a valid scheduler fails no assertion, leaves it valid and leaves
-- the number of active threads as it was, whatever fibers and callbacks do, if the fiber that is
-- kept for callbacks is over whenever it was run, and every fiber that is swapped out neither
-- ready nor over has another pointer to it.
pub run_once-Rounds :
    (body : ℕ → Run) (cb_body : ℕ → ℕ → Run) (this : ℕ) (s : Scheduler)
    → IsValid s
    → ((j : ℕ) → s.cb_fiber ≡ some j → is_over (body j).after ≡ true)
    → ((i : ℕ) → outlives (body i).shared (body i).after ≡ true)
    → ((f i : ℕ) → outlives (cb_body f i).shared (cb_body f i).after ≡ true)
    → Rounds s (run_once body cb_body this s)
unfolding run_once
run_once-Rounds body cb_body this s v over safe cb_safe =
    let p = pick this s.states s.fibers in
    let s₁ : Scheduler = record s { fibers = p.left; tickles = s.tickles + one_if p.tickle_me } in
    elim (pick-Picked this s.states s.fibers) [
      | nothing all taken left told ↦
          let r =
            run_idle-Rounds s₁
              (record { kept = v.kept; idle = v.idle; all_work = rw left v.all_work }) in
          record {
            result = r.result;
            returns = rw (taken, run_once) r.returns;
            valid = r.valid;
            active = r.active;
          }
      | one ft before after split all free taken left told ↦
          let w = All-without before after ft (rw split at v.all_work) in
          let r =
            run_item-Rounds body cb_body this ft (enter s₁)
              (record { kept = v.kept; idle = v.idle; all_work = rw left w.0 }) w.1 free over safe
              cb_safe in
          record {
            result = r.result;
            returns = rw (taken, run_once) r.returns;
            valid = r.valid;
            active = r.active ∙ omega arith;
          }
    ]
