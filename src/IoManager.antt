-- ===== src/IoManager.antt =====
-- dwframe/IoManager.h and dwframe/IoManager.cc: the events that fibers and callbacks wait for, one
-- context for each descriptor. A mask of `Event` is two flags, for READ = 1 and WRITE = 4. A
-- scheduler, a fiber and a callback are known by a number each. `ctl` is `epoll_ctl`: whether a
-- call succeeds is decided by the kernel, from the operation, the descriptor and the new mask.
-- Each operation runs under its locks as a whole. What is handed to `schedule` goes to `scheduled`.
pub mod Invariant
pub mod Firing
pub mod Growing
pub mod Registration
pub mod Removal
use dwframe.Base.{
  ℕ, zero, suc, ltb, ◌+◌, ◌-◌, ◌*◌, ◌/◌, Bool, true, false, Option, none, some, List, [], ◌∷◌, ◌++◌,
  length, get_elem?, set, take, if◌then◌else◌, not, ◌&&◌, ◌||◌,
}

pub data Event : Type 0 where
  read_event write_event : Event

pub record Mask : Type 0 where
  pub reads : Bool
  pub writes : Bool

pub record EventContext : Type 0 where
  pub scheduler : Option ℕ
  pub fiber : Option ℕ
  pub cb : Option ℕ

pub record FdContext : Type 0 where
  pub fd : ℕ
  pub read : EventContext
  pub write : EventContext
  pub events : Mask

-- What is scheduled: a callback or a fiber, after the scheduler that gets it.
pub data Task : Type 0 where
  callback : ℕ → ℕ → Task
  resume : ℕ → ℕ → Task

pub record IoManager : Type 0 where
  pub contexts : List FdContext
  pub pending : ℕ
  pub scheduled : List Task

-- A normal return, a failed assertion, or a use of a null pointer or of an index out of range.
pub data Outcome {ℓ} (A : Type ℓ) : Type ℓ where
  done : A → Outcome A
  aborted : Outcome A
  crashed : Outcome A

infixl 5 ◌>>=◌
abbrev pub ◌>>=◌ {ℓ κ} : {A : Type ℓ} {B : Type κ} → Outcome A → (A → Outcome B) → Outcome B
done a >>= f = f a
aborted >>= f = aborted
crashed >>= f = crashed

abbrev pub no_context : EventContext
no_context = record { scheduler = none; fiber = none; cb = none }

abbrev pub no_events : Mask
no_events = record { reads = false; writes = false }

abbrev pub new_context : ℕ → FdContext
new_context fd = record { fd = fd; read = no_context; write = no_context; events = no_events }

-- `events & event`, `events | event` and `events & ~event`.
abbrev pub has : Mask → Event → Bool
has m read_event = m.reads
has m write_event = m.writes

abbrev pub with_event : Mask → Event → Mask
with_event m read_event = record m { reads = true }
with_event m write_event = record m { writes = true }

abbrev pub without : Mask → Event → Mask
without m read_event = record m { reads = false }
without m write_event = record m { writes = false }

abbrev pub is_some : Option ℕ → Bool
is_some none = false
is_some (some _) = true

abbrev pub is_none_mask : Mask → Bool
is_none_mask m = not m.reads && not m.writes

abbrev pub get_context : FdContext → Event → EventContext
get_context c read_event = c.read
get_context c write_event = c.write

abbrev pub put_context : FdContext → Event → EventContext → FdContext
put_context c read_event e = record c { read = e }
put_context c write_event e = record c { write = e }

-- `resetContext`.
unfoldable pub reset_context : Event → FdContext → FdContext
reset_context event c = put_context c event no_context

-- `ctx.scheduler->schedule(&ctx.cb)` or `(&ctx.fiber)` empties what it takes; an empty fiber is
-- not put into the queue.
unfoldable pub handed_over : EventContext → Outcome (EventContext × List Task)
handed_over ctx = elim ctx.scheduler [
  | none ↦ crashed
  | some s ↦ elim ctx.cb [
    | some f ↦ done (record ctx { scheduler = none; cb = none }, callback s f ∷ [])
    | none ↦ elim ctx.fiber [
      | some f ↦ done (record ctx { scheduler = none; fiber = none }, resume s f ∷ [])
      | none ↦ done (record ctx { scheduler = none }, [])
    ]
  ]
]

unfoldable pub trigger_event : Event → FdContext → Outcome (FdContext × List Task)
unfolding handed_over
trigger_event event c =
    if has c.events event
    then (handed_over (get_context c event) >>= λ r.
        done (put_context (record c { events = without c.events event }) event r.0, r.1))
    else aborted

-- The contexts added by `contextResize`, which starts at index `from`.
abbrev pub fresh_contexts : ℕ → ℕ → List FdContext
fresh_contexts from zero = []
fresh_contexts from (suc n) = new_context from ∷ fresh_contexts (from + 1) n

-- `vector::resize` keeps the first contexts and the loop makes one for each new place.
unfoldable pub context_resize : ℕ → IoManager → IoManager
context_resize size m = record m {
  contexts = take size m.contexts ++ fresh_contexts (length m.contexts) (size - length m.contexts);
}

-- The contexts after the resize of `addEvent`.
unfoldable pub grown : ℕ → IoManager → IoManager
unfolding context_resize
grown fd m = if ltb fd (length m.contexts) then m else context_resize (fd * 3 / 2) m

-- The context of an event that waits: for the callback, or else for the running fiber.
-- `Scheduler::GetThis()` is null on a thread without a scheduler, and is stored as it is.
abbrev pub armed : Option ℕ → Option ℕ → ℕ → EventContext → EventContext
armed (some f) this fiber ctx = record ctx { scheduler = this; cb = some f }
armed none this fiber ctx = record ctx { scheduler = this; fiber = some fiber }

-- The rest of `addEvent` for the context of the descriptor. `this` is `Scheduler::GetThis()`, `fiber`
-- the running fiber, and `in_exec` whether its state is EXEC; `cb` is the callback or none.
unfoldable pub register :
    (Mask → Bool) → Event → Option ℕ → Option ℕ → ℕ → Bool → FdContext → Outcome (Option FdContext)
register ctl event cb this fiber in_exec c =
    let ctx = get_context c event in
    if has c.events event
    then aborted
    else if ctl (with_event c.events event)
    then if is_some ctx.scheduler
        || is_some ctx.fiber
        || is_some ctx.cb
        || not (is_some cb) && not in_exec
      then aborted
      else done (
          some (
            put_context (record c { events = with_event c.events event }) event
              (armed cb this fiber ctx)))
    else done none

-- `addEvent`: true for 0, false for -1.
unfoldable pub add_event :
    (ℕ → Mask → Bool)
    → ℕ
    → Event
    → Option ℕ
    → Option ℕ
    → ℕ
    → Bool
    → IoManager
    → Outcome (IoManager × Bool)
add_event ctl fd event cb this fiber in_exec m =
    let g = grown fd m in
    elim (get_elem? g.contexts fd) [
      | none ↦ crashed
      | some c ↦ register (ctl fd) event cb this fiber in_exec c >>= λ r. elim r [
        | none ↦ done (g, false)
        | some c' ↦
            done (record g { contexts = set g.contexts fd c'; pending = g.pending + 1 }, true)
      ]
    ]

unfoldable pub del_event : (ℕ → Mask → Bool) → ℕ → Event → IoManager → IoManager × Bool
unfolding reset_context
del_event ctl fd event m = elim (get_elem? m.contexts fd) [
  | none ↦ (m, false)
  | some c ↦
      let left = without c.events event in
      if has c.events event && ctl fd left
      then (
        record m {
          contexts = set m.contexts fd (reset_context event (record c { events = left }));
          pending = m.pending - 1;
        },
        true,
      )
      else (m, false)
]

-- A context after `triggerEvent`, put back, with the task scheduled and the count lowered.
unfoldable pub fire_event : ℕ → Event → FdContext → IoManager → Outcome IoManager
unfolding trigger_event
fire_event fd event c m = trigger_event event c >>= λ r. done (record m {
  contexts = set m.contexts fd r.0;
  pending = m.pending - 1;
  scheduled = m.scheduled ++ r.1;
})

unfoldable pub cancel_event : (ℕ → Mask → Bool) → ℕ → Event → IoManager → Outcome (IoManager × Bool)
cancel_event ctl fd event m = elim (get_elem? m.contexts fd) [
  | none ↦ done (m, false)
  | some c ↦
      if has c.events event && ctl fd (without c.events event)
      then (fire_event fd event c m >>= λ m'. done (m', true))
      else done (m, false)
]

-- `if(… & event) { triggerEvent(event); --m_pendingEventCount; }`, by the value of the test.
unfoldable pub fire_if : Bool → ℕ → Event → IoManager → Outcome IoManager
unfolding fire_event
fire_if false fd event m = done m
fire_if true fd event m = elim (get_elem? m.contexts fd) [
  | none ↦ crashed
  | some c ↦ fire_event fd event c m
]

-- The mask of the context of a descriptor.
abbrev pub mask_of : ℕ → IoManager → Mask
mask_of fd m = elim (get_elem? m.contexts fd) [ none ↦ no_events | some c ↦ c.events ]

unfoldable pub cancel_all : (ℕ → Mask → Bool) → ℕ → IoManager → Outcome (IoManager × Bool)
unfolding fire_if
cancel_all ctl fd m =
    if not (is_none_mask (mask_of fd m)) && ctl fd no_events
    then (fire_if (mask_of fd m).reads fd read_event m >>= λ m₁.
        fire_if (mask_of fd m₁).writes fd write_event m₁ >>= λ m₂.
        if is_none_mask (mask_of fd m₂) then done (m₂, true) else aborted)
    else done (m, false)

-- The flags of an `epoll_event`.
pub record Flags : Type 0 where
  pub input : Bool
  pub output : Bool
  pub error : Bool
  pub hangup : Bool

-- The loop of `idle` on one event of a descriptor. The source asks for EPOLLERR and EPOLLHUP in
-- `fd_ctx->events`, which holds READ and WRITE at most, so the test fails whatever the event is.
unfoldable pub handle_event : (ℕ → Mask → Bool) → ℕ → Flags → IoManager → Outcome IoManager
unfolding fire_if
handle_event ctl fd flags m =
    let events = mask_of fd m in
    let left : Mask = record {
      reads = events.reads && not flags.input;
      writes = events.writes && not flags.output;
    } in
    if (events.reads && flags.input || events.writes && flags.output) && ctl fd left
    then (fire_if flags.input fd read_event m >>= λ m₁. fire_if flags.output fd write_event m₁)
    else done m
