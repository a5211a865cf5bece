-- ===== src/IoManager/Registration.antt =====
-- What `addEvent` of dwframe/IoManager.cc does to a valid manager, and what an event of the kernel
-- without EPOLLIN and EPOLLOUT does.
use dwframe.Base.{
  ℕ, ◌+◌, ◌<◌, ◌≡◌, refl, inl, inr, Bool-cases, Bool, true, false, Option, none, some, length,
  get_elem?, if◌then◌else◌,
}
use dwframe.IoManager.{
  Event, read_event, write_event, Mask, FdContext, IoManager, armed, no_context, Outcome, done,
  aborted, has, with_event, mask_of, no_events, register, add_event, handle_event,
}
use dwframe.IoManager.Invariant.{IsValid, waiter, one_if, get_elem?-lt}
use dwframe.IoManager.Growing.{long-Grown}

-- What `addEvent` promises, by the answer of the kernel: the event is registered and counted, or
-- nothing is but that the table of contexts may have grown.
pub record Added (ctl : ℕ → Mask → Bool) (fd : ℕ) (event : Event) (cb : Option ℕ) (this fiber : ℕ)
    (m : IoManager) (run : Outcome (IoManager × Bool)) : Type 0 where
  pub result : IoManager
  pub returns : run ≡ done (result, ctl fd (with_event (mask_of fd m) event))
  pub valid : IsValid result
  pub mask : mask_of fd result ≡ (
      if ctl fd (with_event (mask_of fd m) event)
      then with_event (mask_of fd m) event
      else mask_of fd m)
  pub waits :
      ctl fd (with_event (mask_of fd m) event) ≡ true
      → waiter fd event result ≡ armed cb (some this) fiber no_context
  pub counted : result.pending ≡ m.pending + one_if (ctl fd (with_event (mask_of fd m) event))

registered_twice :
    (ctl : Mask → Bool) (event : Event) (cb this : Option ℕ) (fiber : ℕ) (in_exec : Bool)
    (c : FdContext)
    → has c.events event ≡ true
    → register ctl event cb this fiber in_exec c ≡ aborted
unfolding register
registered_twice ctl event cb this fiber in_exec c h = rw h

no_event : (event : Event) → has no_events event ≡ true → false ≡ true
no_event read_event h = h
no_event write_event h = h

-- A descriptor whose mask is not empty has a context.
in_table :
    (fd : ℕ) (event : Event) (m : IoManager)
    → has (mask_of fd m) event ≡ true
    → fd < length m.contexts
in_table fd event m h = go (get_elem? m.contexts fd) refl
  where
    go : (o : Option FdContext) → get_elem? m.contexts fd ≡ o → fd < length m.contexts
    go none e = absurd (cc (no_event event (rw (e, mask_of) at h)))
    go (some c) e = get_elem?-lt m.contexts fd e

-- On a valid manager, `addEvent` of an event that is registered already fails its assertion.
add_event_twice :
    (ctl : ℕ → Mask → Bool) (fd : ℕ) (event : Event) (cb this : Option ℕ) (fiber : ℕ)
    (in_exec : Bool) (m : IoManager)
    → IsValid m
    → has (mask_of fd m) event ≡ true
    → add_event ctl fd event cb this fiber in_exec m ≡ aborted
unfolding add_event
add_event_twice ctl fd event cb this fiber in_exec m v h =
    let g = long-Grown fd m v (in_table fd event m h) in
    rw
      (
        g.here,
        registered_twice (ctl fd) event cb this fiber in_exec g.context (rw g.mask h),
        add_event,
      )
      refl

-- Without EPOLLIN and EPOLLOUT an event of the kernel changes nothing in the manager, whatever
-- EPOLLERR and EPOLLHUP are.
handle_event_without_wakeup :
    (ctl : ℕ → Mask → Bool) (fd : ℕ) (error hangup : Bool) (m : IoManager)
    → handle_event ctl fd
        (record { input = false; output = false; error = error; hangup = hangup })
        m
      ≡ done m
unfolding handle_event
handle_event_without_wakeup ctl fd error hangup m = elim (Bool-cases (mask_of fd m).reads) [
  | inl r ↦ elim (Bool-cases (mask_of fd m).writes) [ inl w ↦ rw (r, w) | inr w ↦ rw (r, w) ]
  | inr r ↦ elim (Bool-cases (mask_of fd m).writes) [ inl w ↦ rw (r, w) | inr w ↦ rw (r, w) ]
]
