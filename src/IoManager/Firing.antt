-- ===== src/IoManager/Firing.antt =====
-- What the operations of dwframe/IoManager.cc that trigger events do to a valid manager.
use dwframe.Base.{
  ℕ, ◌+◌, ◌-◌, ◌≡◌, refl, sym, ap, ◌∙◌, Bool, true, false, Option, none, some, List, [], ◌∷◌, ◌++◌,
  length, get_elem?, set, All, if◌then◌else◌, arith, get_elem?-set_self, append-nil, append_assoc,
  length-append,
}
use dwframe.IoManager.{
  Event, read_event, write_event, Mask, EventContext, FdContext, IoManager, Task, callback, resume,
  Outcome, done, get_context, has, without, mask_of, no_context, no_events, is_none_mask,
  handed_over, trigger_event, fire_event, fire_if, cancel_all,
}
use dwframe.IoManager.Invariant.{
  EventOk, ContextOk, IsValid, waiter, Waits, event_count, one_if, All-get, All-set, get_elem?-lt,
  total-set,
}

-- An armed context is emptied, and hands over one task.
handed_over-armed :
    (ctx : EventContext)
    → EventOk true ctx
    → (t : Task) × (handed_over ctx ≡ done (no_context, t ∷ [])) × Waits ctx t
unfolding handed_over
handed_over-armed ctx h = go ctx.scheduler ctx.fiber ctx.cb h
  where
    go :
        (s f c : Option ℕ)
        → EventOk true (record { scheduler = s; fiber = f; cb = c })
        → (t : Task) × (handed_over (record { scheduler = s; fiber = f; cb = c })
            ≡ done (no_context, t ∷ []))
          × Waits (record { scheduler = s; fiber = f; cb = c }) t
    go none f c h = absurd (cc)
    go (some s) none none h = absurd (cc)
    go (some s) none (some c) h = (callback s c, refl, (refl, refl))
    go (some s) (some f) none h = (resume s f, refl, (refl, refl, refl))
    go (some s) (some f) (some c) h = absurd (cc)

abbrev pub opposite : Event → Event
opposite read_event = write_event
opposite write_event = read_event

-- The context is empty for the event afterwards, and the other event is as it was.
record Triggered (event : Event) (c : FdContext) : Type 0 where
  result : FdContext
  task : Task
  belongs : Waits (get_context c event) task
  other : get_context result (opposite event) ≡ get_context c (opposite event)
  returns : trigger_event event c ≡ done (result, task ∷ [])
  valid : ContextOk result
  mask : result.events ≡ without c.events event
  fewer : event_count result + 1 ≡ event_count c

trigger_event-Triggered :
    (event : Event) (c : FdContext) → ContextOk c → has c.events event ≡ true → Triggered event c
unfolding trigger_event
trigger_event-Triggered read_event c v h =
    let (t, e, w) = handed_over-armed c.read (rw h at v.read_ok) in
    record {
      result = record c { events = without c.events read_event; read = no_context };
      task = t;
      belongs = w;
      other = refl;
      returns = rw (h, e);
      valid = record { read_ok = (refl, refl, refl); write_ok = v.write_ok };
      mask = refl;
      fewer = rw h (omega arith);
    }
trigger_event-Triggered write_event c v h =
    let (t, e, w) = handed_over-armed c.write (rw h at v.write_ok) in
    record {
      result = record c { events = without c.events write_event; write = no_context };
      task = t;
      belongs = w;
      other = refl;
      returns = rw (h, e);
      valid = record { read_ok = v.read_ok; write_ok = (refl, refl, refl) };
      mask = refl;
      fewer = rw h (omega arith);
    }

-- One event fired: one task more, one pending event less, and its flag is cleared.
pub record Fired (fd : ℕ) (event : Event) (m : IoManager) (run : Outcome IoManager) : Type 0 where
  pub result : IoManager
  pub task : Task
  pub returns : run ≡ done result
  pub valid : IsValid result
  pub scheduled : result.scheduled ≡ m.scheduled ++ (task ∷ [])
  pub mask : mask_of fd result ≡ without (mask_of fd m) event
  pub fewer : result.pending + 1 ≡ m.pending
  pub belongs : Waits (waiter fd event m) task
  pub other : waiter fd (opposite event) result ≡ waiter fd (opposite event) m

pub fire_event-Fired :
    (fd : ℕ) (event : Event) (c : FdContext) (m : IoManager)
    → IsValid m
    → get_elem? m.contexts fd ≡ some c
    → has c.events event ≡ true
    → Fired fd event m (fire_event fd event c m)
unfolding fire_event
fire_event-Fired fd event c m v e h =
    let t = trigger_event-Triggered event c (All-get ContextOk m.contexts fd v.contexts_ok e) h in
    let sum = total-set m.contexts fd c t.result e in
    record {
      result = record m {
        contexts = set m.contexts fd t.result;
        pending = m.pending - 1;
        scheduled = m.scheduled ++ (t.task ∷ []);
      };
      task = t.task;
      returns = rw t.returns;
      valid = record {
        contexts_ok = All-set ContextOk m.contexts fd t.result v.contexts_ok t.valid;
        counted = omega (arith, sum, t.fewer, v.counted);
      };
      scheduled = refl;
      mask =
          rw (get_elem?-set_self m.contexts fd t.result (get_elem?-lt m.contexts fd e), e, mask_of)
            t.mask;
      fewer = omega (arith, sum, t.fewer, v.counted);
      belongs = rw (e, waiter) t.belongs;
      other =
          rw (get_elem?-set_self m.contexts fd t.result (get_elem?-lt m.contexts fd e), e, waiter)
            t.other;
    }

-- The same where the context is looked up by its mask.
has-no_events : (event : Event) → has no_events event ≡ false
has-no_events read_event = refl
has-no_events write_event = refl

fire_if-Fired :
    (fd : ℕ) (event : Event) (m : IoManager)
    → IsValid m
    → has (mask_of fd m) event ≡ true
    → Fired fd event m (fire_if true fd event m)
unfolding fire_if
fire_if-Fired fd event m v h = go (get_elem? m.contexts fd) refl
  where
    go :
        (o : Option FdContext)
        → get_elem? m.contexts fd ≡ o
        → Fired fd event m (fire_if true fd event m)
    go none e = absurd (cc (has-no_events event, rw (e, mask_of) at h))
    go (some c) e = rw (e, fire_if) (fire_event-Fired fd event c m v e (rw (e, mask_of) at h))

-- A step that triggers an event or, by its test, nothing.
pub record Ran (b : Bool) (fd : ℕ) (event : Event) (m : IoManager) : Type 0 where
  pub result : IoManager
  pub tasks : List Task
  pub returns : fire_if b fd event m ≡ done result
  pub valid : IsValid result
  pub scheduled : result.scheduled ≡ m.scheduled ++ tasks
  pub one_each : length tasks ≡ one_if b
  pub mask : mask_of fd result ≡ (if b then without (mask_of fd m) event else mask_of fd m)
  pub fewer : result.pending + one_if b ≡ m.pending
  pub belongs : All (Waits (waiter fd event m)) tasks
  pub other : waiter fd (opposite event) result ≡ waiter fd (opposite event) m

pub fire_if-Ran :
    (b : Bool) (fd : ℕ) (event : Event) (m : IoManager)
    → IsValid m
    → (b ≡ true → has (mask_of fd m) event ≡ true)
    → Ran b fd event m
fire_if-Ran true fd event m v h =
    let f = fire_if-Fired fd event m v (h refl) in
    record {
      result = f.result;
      tasks = f.task ∷ [];
      returns = f.returns;
      valid = f.valid;
      scheduled = f.scheduled;
      one_each = refl;
      mask = f.mask;
      fewer = f.fewer;
      belongs = (f.belongs, tt);
      other = f.other;
    }
fire_if-Ran false fd event m v h = record {
  result = m;
  tasks = [];
  returns = unfold fire_if in refl;
  valid = v;
  scheduled = sym (append-nil m.scheduled);
  one_each = refl;
  mask = refl;
  fewer = omega arith;
  belongs = tt;
  other = refl;
}

-- What `cancelALL` promises of a descriptor with events: each is triggered once, READ first, none
-- is left, and the count is lowered by their number.
pub record AllCancelled (ctl : ℕ → Mask → Bool) (fd : ℕ) (m : IoManager) : Type 0 where
  pub result : IoManager
  pub tasks : List Task
  pub readers : List Task
  pub writers : List Task
  pub returns : cancel_all ctl fd m ≡ done (result, true)
  pub valid : IsValid result
  pub none_left : mask_of fd result ≡ no_events
  pub scheduled : result.scheduled ≡ m.scheduled ++ tasks
  pub one_each : length tasks ≡ one_if (mask_of fd m).reads + one_if (mask_of fd m).writes
  pub fewer : result.pending + length tasks ≡ m.pending
  pub in_order : tasks ≡ readers ++ writers
  pub for_read : All (Waits (waiter fd read_event m)) readers
  pub for_write : All (Waits (waiter fd write_event m)) writers
  pub one_reader : length readers ≡ one_if (mask_of fd m).reads
  pub one_writer : length writers ≡ one_if (mask_of fd m).writes

mask_none : (k : Mask) → k.reads ≡ false → k.writes ≡ false → k ≡ no_events
mask_none k r w = ground arith

-- On a valid manager, for a descriptor with events and where `epoll_ctl` agrees, `cancelALL`
-- triggers each event once, READ first, with the callback or fiber that waits for it handed to the
-- scheduler of its context, leaves none, lowers the count by their number, and leaves the manager
-- valid; its assertions hold.
pub cancel_all-AllCancelled :
    (ctl : ℕ → Mask → Bool) (fd : ℕ) (m : IoManager)
    → IsValid m
    → is_none_mask (mask_of fd m) ≡ false
    → ctl fd no_events ≡ true
    → AllCancelled ctl fd m
unfolding cancel_all
cancel_all-AllCancelled ctl fd m v some_event agreed =
    let one = fire_if-Ran (mask_of fd m).reads fd read_event m v (λ h. h) in
    let two =
      fire_if-Ran (mask_of fd one.result).writes fd write_event one.result one.valid (λ h. h) in
    let unread : (mask_of fd one.result).reads ≡ false = ground (arith, one.mask) in
    let same_writes : (mask_of fd one.result).writes ≡ (mask_of fd m).writes =
      ground (arith, one.mask) in
    let none_left : mask_of fd two.result ≡ no_events =
      mask_none (mask_of fd two.result) (ground (arith, two.mask, unread))
        (ground (arith, two.mask)) in
    let finished : is_none_mask (mask_of fd two.result) ≡ true = rw none_left in
    record {
      result = two.result;
      tasks = one.tasks ++ two.tasks;
      readers = one.tasks;
      writers = two.tasks;
      in_order = refl;
      for_read = one.belongs;
      for_write = rw one.other at two.belongs;
      one_reader = one.one_each;
      one_writer = two.one_each ∙ ap one_if same_writes;
      returns = rw (some_event, agreed, one.returns, two.returns, finished);
      valid = two.valid;
      none_left = none_left;
      scheduled =
          two.scheduled
          ∙ ap (λ l. l ++ two.tasks) one.scheduled
          ∙ append_assoc m.scheduled one.tasks two.tasks;
      one_each =
          length-append one.tasks two.tasks
          ∙ omega (arith, one.one_each, two.one_each, ap one_if same_writes);
      fewer = omega (
        arith,
        length-append one.tasks two.tasks,
        one.one_each,
        two.one_each,
        one.fewer,
        two.fewer,
      );
    }
