-- ===== src/Tests/Rounds.antt =====
-- A scheduler with two fibers and a callback, for dwframe/scheduler.cc.
use dwframe.Base.{ℕ, refl, some, none, false, List, [], ◌∷◌}
use dwframe.Scheduler.{
  State, init, hold, term, ready, fiber, cb, FiberAndThread, Scheduler, Run, outlives, run_once,
  pick,
}
use dwframe.Scheduler.Queue.{Picked, pick-Picked}
use dwframe.Scheduler.Settling.{IsValid}
use dwframe.Scheduler.Running.{Rounds, run_once-Rounds}

-- The first item is for the thread 2, the second a fiber, the last a callback.
abbrev queue : List FiberAndThread
queue =
    record { work = fiber 1; thread = some 2 }
    ∷ record { work = fiber 2; thread = none }
    ∷ record { work = cb 7; thread = none }
    ∷ []

abbrev held : ℕ → State
held i = hold

abbrev scheduler : Scheduler
scheduler = record {
  fibers = queue;
  states = held;
  next_id = 3;
  active_thread_count = 0;
  idle_thread_count = 0;
  tickles = 0;
  auto_stop = false;
  stoping = false;
  idle_fiber = init;
  cb_fiber = none;
}

scheduler-IsValid : IsValid scheduler
scheduler-IsValid = record {
  kept = λ i e. absurd (cc);
  idle = refl;
  all_work = (refl, (refl, (refl, tt)));
}

-- A fiber that yields as ready, and a callback that ends.
abbrev yields : ℕ → Run
yields i = record { after = ready; scheduled = []; shared = false }

abbrev ends : ℕ → ℕ → Run
ends f i = record { after = term; scheduled = []; shared = false }

run_once-Rounds_example : Rounds scheduler (run_once yields ends 1 scheduler)
run_once-Rounds_example =
    run_once-Rounds yields ends 1 scheduler scheduler-IsValid (λ j e. absurd (cc))
      (λ i. unfold outlives in refl) (λ f i. unfold outlives in refl)

pick-Picked_example : Picked 1 held queue (pick 1 held queue)
pick-Picked_example = pick-Picked 1 held queue
