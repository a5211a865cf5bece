-- ===== src/Hook/Closing.antt =====
-- What the calls of dwframe/hook.cc do to what is known of a descriptor.
use dwframe.Base.{
  ℕ, ◌≡◌, ◌≢◌, refl, ◌⊎◌, inl, inr, Bool-cases, Bool, true, false, Option, none, some, length, not,
  ◌||◌, ltb, arith, List, ◌++◌, All, ap, ◌∙◌,
}
use dwframe.FdManager.{FdCtx, FdManager, lookup, del}
use dwframe.FdManager.Contexts.{del_lem, lookup-set_self, lookup_beyond}
use dwframe.IoManager.{
  IoManager, Mask, Task, read_event, write_event, done, is_none_mask, mask_of, no_events,
}
use dwframe.IoManager.Invariant.{IsValid, Waits, waiter, one_if}
use dwframe.IoManager.Firing.{cancel_all-AllCancelled}
use dwframe.Hook.Descriptors.{
  FileFlags, open_socket, set_user_nonblock, modify, fcntl_setfl, fcntl_getfl, ioctl_fionbio, close,
}

within : (m : FdManager) (fd : ℕ) (c : FdCtx) → lookup m fd ≡ some c → ltb fd (length m) ≡ true
within m fd c e = elim (Bool-cases (ltb fd (length m))) [
  | inl t ↦ t
  | inr t ↦ absurd (cc (e, lookup_beyond m fd (ground arith)))
]

lookup-modify :
    (fd : ℕ) (f : FdCtx → FdCtx) (m : FdManager) (c : FdCtx)
    → lookup m fd ≡ some c
    → lookup (modify fd f m) fd ≡ some (f c)
lookup-modify fd f m c e =
    let fits = within m fd c e in rw (e, modify) (lookup-set_self m fd (some (f c)) (ground arith))

open_socket-cases :
    (fd : ℕ) (m : FdManager)
    → (open_socket fd m ≡ none)
      ⊎ ((c : FdCtx) × (open_socket fd m ≡ some c)
          × (lookup m fd ≡ some c)
          × ((c.is_closed || not c.is_socket) ≡ false))
unfolding open_socket
open_socket-cases fd m = go (lookup m fd) refl
  where
    go :
        (o : Option FdCtx)
        → lookup m fd ≡ o
        → (open_socket fd m ≡ none)
          ⊎ ((c : FdCtx) × (open_socket fd m ≡ some c)
              × (lookup m fd ≡ some c)
              × ((c.is_closed || not c.is_socket) ≡ false))
    go none e = inl (rw (e, open_socket))
    go (some c) e = elim (Bool-cases (c.is_closed || not c.is_socket)) [
      | inl t ↦ inl (rw (e, t, open_socket))
      | inr t ↦ inr (c, rw (e, t, open_socket), e, t)
    ]

open_socket-modify :
    (fd : ℕ) (b : Bool) (m : FdManager) (c : FdCtx)
    → lookup m fd ≡ some c
    → (c.is_closed || not c.is_socket) ≡ false
    → open_socket fd (modify fd (set_user_nonblock b) m) ≡ some (set_user_nonblock b c)
unfolding open_socket
open_socket-modify fd b m c e t = rw (lookup-modify fd (set_user_nonblock b) m c e, t, open_socket)

setfl_plain :
    (fd : ℕ) (arg : FileFlags) (m : FdManager)
    → open_socket fd m ≡ none
    → fcntl_setfl fd arg m ≡ (m, arg)
unfolding fcntl_setfl
setfl_plain fd arg m e = rw (e, fcntl_setfl)

setfl_socket :
    (fd : ℕ) (arg : FileFlags) (m : FdManager) (c : FdCtx)
    → open_socket fd m ≡ some c
    → fcntl_setfl fd arg m
      ≡ (modify fd (set_user_nonblock arg.nonblock) m, record arg { nonblock = c.sys_nonblock })
unfolding fcntl_setfl
setfl_socket fd arg m c e = rw (e, fcntl_setfl)

getfl_plain :
    (fd : ℕ) (arg : FileFlags) (m : FdManager)
    → open_socket fd m ≡ none
    → fcntl_getfl fd arg m ≡ arg
unfolding fcntl_getfl
getfl_plain fd arg m e = rw (e, fcntl_getfl)

getfl_socket :
    (fd : ℕ) (arg : FileFlags) (m : FdManager) (c : FdCtx)
    → open_socket fd m ≡ some c
    → fcntl_getfl fd arg m ≡ record arg { nonblock = c.user_nonblock }
unfolding fcntl_getfl
getfl_socket fd arg m c e = rw (e, fcntl_getfl)

-- Once flags were set by F_SETFL and the kernel answers the flags it was given, F_GETFL answers
-- those the user set, on any descriptor.
getfl-setfl :
    (fd : ℕ) (arg : FileFlags) (m : FdManager)
    → fcntl_getfl fd (fcntl_setfl fd arg m).1 (fcntl_setfl fd arg m).0 ≡ arg
getfl-setfl fd arg m = elim (open_socket-cases fd m) [
  | inl e ↦ rw (setfl_plain fd arg m e) (getfl_plain fd arg m e)
  | inr (c, e, l, t) ↦ rw (setfl_socket fd arg m c e) (
      getfl_socket fd (record arg { nonblock = c.sys_nonblock })
        (modify fd (set_user_nonblock arg.nonblock) m) (set_user_nonblock arg.nonblock c)
        (open_socket-modify fd arg.nonblock m c l t))
]

-- F_SETFL keeps an open socket that the library made non-blocking so in the kernel, and FIONBIO
-- does not: a value of 0 is passed on to the kernel.
nonblock_kept_and_lost :
    (fd : ℕ) (arg : FileFlags) (m : FdManager) (c : FdCtx)
    → open_socket fd m ≡ some c
    → c.sys_nonblock ≡ true
    → ((fcntl_setfl fd arg m).1.nonblock ≡ true) × ((ioctl_fionbio fd false m).1 ≡ false)
unfolding fcntl_setfl ioctl_fionbio
nonblock_kept_and_lost fd arg m c e sys = (rw (e, sys, fcntl_setfl), rw (e, ioctl_fionbio))

-- What `close` leaves of a descriptor with a context: no context and no event, each event that waited was
-- handed to its scheduler, and the manager is valid.
pub record Closed (ctl : ℕ → Mask → Bool) (fd : ℕ) (m : FdManager) (i : IoManager) : Type 0 where
  pub table : FdManager
  pub manager : IoManager
  pub returns : close ctl true fd m (some i) ≡ done (table, some manager)
  pub no_context : lookup table fd ≡ none
  pub others : (k : ℕ) → fd ≢ k → lookup table k ≡ lookup m k
  pub none_left : mask_of fd manager ≡ no_events
  pub readers : List Task
  pub writers : List Task
  pub scheduled : manager.scheduled ≡ i.scheduled ++ (readers ++ writers)
  pub for_read : All (Waits (waiter fd read_event i)) readers
  pub for_write : All (Waits (waiter fd write_event i)) writers
  pub one_reader : length readers ≡ one_if (mask_of fd i).reads
  pub one_writer : length writers ≡ one_if (mask_of fd i).writes
  pub valid : IsValid manager

-- With hooks enabled, `close` of a descriptor that has a context and events on a valid manager,
-- where the kernel agrees to drop them, leaves neither context nor events of it, the contexts of
-- other descriptors as they were, and the manager valid; the callback or fiber that waited for
-- each event, and nothing else, has been handed to the scheduler of its context, READ first.
pub close-Closed :
    (ctl : ℕ → Mask → Bool) (fd : ℕ) (m : FdManager) (i : IoManager) (c : FdCtx)
    → lookup m fd ≡ some c
    → IsValid i
    → is_none_mask (mask_of fd i) ≡ false
    → ctl fd no_events ≡ true
    → Closed ctl fd m i
unfolding close
close-Closed ctl fd m i c e v some_event agreed =
    let a = cancel_all-AllCancelled ctl fd i v some_event agreed in
    let (gone, others) = del_lem fd m in
    record {
      table = del fd m;
      manager = a.result;
      returns = rw (e, a.returns, close);
      no_context = gone;
      others = others;
      none_left = a.none_left;
      readers = a.readers;
      writers = a.writers;
      scheduled = a.scheduled ∙ ap (λ l. i.scheduled ++ l) a.in_order;
      for_read = a.for_read;
      for_write = a.for_write;
      one_reader = a.one_reader;
      one_writer = a.one_writer;
      valid = a.valid;
    }
