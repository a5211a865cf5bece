-- ===== src/IoManager/Removal.antt =====
-- What `delEvent`, `cancelEvent` and the loop of `idle` of dwframe/IoManager.cc do to a valid manager.
use dwframe.Base.{
  ℕ, ◌+◌, ◌-◌, ◌≡◌, refl, Bool, true, false, Option, none, some, List, [], ◌∷◌, ◌++◌, length,
  get_elem?, set, All, not, ◌&&◌, arith, get_elem?-set_self,
}
use dwframe.IoManager.{
  Event, read_event, write_event, Mask, FdContext, IoManager, Task, done, has, without, mask_of,
  no_context, no_events, put_context, reset_context, del_event, cancel_event, Flags, handle_event,
}
use dwframe.IoManager.Invariant.{
  ContextOk, IsValid, waiter, Waits, event_count, one_if, All-get, All-set, get_elem?-lt, total-set,
}
use dwframe.IoManager.Firing.{fire_event-Fired}

empty_mask : (event : Event) → has no_events event ≡ false
empty_mask read_event = refl
empty_mask write_event = refl

-- The context of a descriptor with an event in its mask.
context_of :
    (fd : ℕ) (event : Event) (m : IoManager)
    → has (mask_of fd m) event ≡ true
    → (c : FdContext) × (get_elem? m.contexts fd ≡ some c) × (has c.events event ≡ true)
context_of fd event m h = go (get_elem? m.contexts fd) refl
  where
    go :
        (o : Option FdContext)
        → get_elem? m.contexts fd ≡ o
        → (c : FdContext) × (get_elem? m.contexts fd ≡ some c) × (has c.events event ≡ true)
    go none e = absurd (cc (empty_mask event, rw (e, mask_of) at h))
    go (some c) e = (c, e, rw (e, mask_of) at h)

-- A context without the event: its mask is lowered and its event context emptied.
abbrev emptied : Event → FdContext → FdContext
emptied event c = put_context (record c { events = without c.events event }) event no_context

emptied_lem :
    (event : Event) (c : FdContext)
    → ContextOk c
    → has c.events event ≡ true
    → ContextOk (emptied event c)
      × ((emptied event c).events ≡ without c.events event)
      × (event_count (emptied event c) + 1 ≡ event_count c)
emptied_lem read_event c v h =
    (record { read_ok = (refl, refl, refl); write_ok = v.write_ok }, refl, rw h (omega arith))
emptied_lem write_event c v h =
    (record { read_ok = v.read_ok; write_ok = (refl, refl, refl) }, refl, rw h (omega arith))

reset-emptied :
    (event : Event) (c : FdContext)
    → reset_context event (record c { events = without c.events event }) ≡ emptied event c
unfolding reset_context
reset-emptied event c = refl

-- What `delEvent` promises of a registered event: it is gone and not counted, and nothing is scheduled.
pub record Deleted (ctl : ℕ → Mask → Bool) (fd : ℕ) (event : Event) (m : IoManager) : Type 0 where
  pub result : IoManager
  pub returns : del_event ctl fd event m ≡ (result, true)
  pub valid : IsValid result
  pub mask : mask_of fd result ≡ without (mask_of fd m) event
  pub fewer : result.pending + 1 ≡ m.pending
  pub scheduled : result.scheduled ≡ m.scheduled

-- On a valid manager, `delEvent` of a registered event, where `epoll_ctl` agrees, answers true,
-- takes the event out of the mask and the count, schedules nothing, and leaves the manager valid.
pub del_event-Deleted :
    (ctl : ℕ → Mask → Bool) (fd : ℕ) (event : Event) (m : IoManager)
    → IsValid m
    → has (mask_of fd m) event ≡ true
    → ctl fd (without (mask_of fd m) event) ≡ true
    → Deleted ctl fd event m
unfolding del_event
del_event-Deleted ctl fd event m v h agreed =
    let (c, e, there) = context_of fd event m h in
    let (ok, mask, less) =
      emptied_lem event c (All-get ContextOk m.contexts fd v.contexts_ok e) there in
    let agreed' : ctl fd (without c.events event) ≡ true = rw (e, mask_of) at agreed in
    let sum = total-set m.contexts fd c (emptied event c) e in
    record {
      result = record m { contexts = set m.contexts fd (emptied event c); pending = m.pending - 1 };
      returns = rw (e, there, agreed', reset-emptied event c, del_event);
      valid = record {
        contexts_ok = All-set ContextOk m.contexts fd (emptied event c) v.contexts_ok ok;
        counted = omega (arith, sum, less, v.counted);
      };
      mask =
          rw
            (
              get_elem?-set_self m.contexts fd (emptied event c) (get_elem?-lt m.contexts fd e),
              e,
              mask_of,
            )
            mask;
      fewer = omega (arith, sum, less, v.counted);
      scheduled = refl;
    }

-- What `cancelEvent` promises of a registered event: it is triggered, as `Fired` says, and the answer
-- is true.
pub record EventCancelled (ctl : ℕ → Mask → Bool) (fd : ℕ) (event : Event) (m : IoManager)
    : Type 0 where
  pub result : IoManager
  pub task : Task
  pub belongs : Waits (waiter fd event m) task
  pub returns : cancel_event ctl fd event m ≡ done (result, true)
  pub valid : IsValid result
  pub scheduled : result.scheduled ≡ m.scheduled ++ (task ∷ [])
  pub mask : mask_of fd result ≡ without (mask_of fd m) event
  pub fewer : result.pending + 1 ≡ m.pending

-- On a valid manager, `cancelEvent` of a registered event, where `epoll_ctl` agrees, answers true,
-- hands the callback or else the fiber that waits in the context of the event to the scheduler of
-- that context and schedules nothing else, takes the event out of the mask and the count, and
-- leaves the manager valid.
pub cancel_event-EventCancelled :
    (ctl : ℕ → Mask → Bool) (fd : ℕ) (event : Event) (m : IoManager)
    → IsValid m
    → has (mask_of fd m) event ≡ true
    → ctl fd (without (mask_of fd m) event) ≡ true
    → EventCancelled ctl fd event m
unfolding cancel_event
cancel_event-EventCancelled ctl fd event m v h agreed =
    let (c, e, there) = context_of fd event m h in
    let agreed' : ctl fd (without c.events event) ≡ true = rw (e, mask_of) at agreed in
    let f = fire_event-Fired fd event c m v e there in
    record {
      result = f.result;
      task = f.task;
      belongs = f.belongs;
      returns = rw (e, there, agreed', f.returns, cancel_event);
      valid = f.valid;
      scheduled = f.scheduled;
      mask = f.mask;
      fewer = f.fewer;
    }

-- What the loop of `idle` does with an event of the kernel whose flags are registered: each is triggered
-- once, READ first, and counted off, and the rest of the mask stays.
pub record Handled (ctl : ℕ → Mask → Bool) (fd : ℕ) (flags : Flags) (m : IoManager) : Type 0 where
  pub result : IoManager
  pub tasks : List Task
  pub readers : List Task
  pub writers : List Task
  pub returns : handle_event ctl fd flags m ≡ done result
  pub valid : IsValid result
  pub scheduled : result.scheduled ≡ m.scheduled ++ tasks
  pub one_each : length tasks ≡ one_if flags.input + one_if flags.output
  pub fewer : result.pending + length tasks ≡ m.pending
  pub in_order : tasks ≡ readers ++ writers
  pub for_read : All (Waits (waiter fd read_event m)) readers
  pub for_write : All (Waits (waiter fd write_event m)) writers
  pub mask : mask_of fd result ≡ record {
    reads = (mask_of fd m).reads && not flags.input;
    writes = (mask_of fd m).writes && not flags.output;
  }
