-- ===== src/Hook.antt =====
-- dwframe/hook.cc: the system calls that are replaced so that a fiber waits in place of its thread.
-- A call of the C library is a parameter, which gives a result and the state of the kernel after
-- it. Where the code waits, `wait` is a parameter too: it registers the event and the timer, yields
-- and tells how the fiber came back. The calls of a loop are counted by fuel, since a peer may never
-- be ready.
pub mod Waiting
pub mod Descriptors
pub mod Closing
use dwframe.Base.{
  ℕ, zero, suc, ◌+◌, ◌*◌, ◌/◌, ◌^◌, Bool, true, false, Option, none, some, if◌then◌else◌, not, ◌==◌,
  ◌&&◌, ◌||◌,
}
use dwframe.FdManager.{
  FdCtx, FdManager, forever, lookup, get, del, TimeoutType, get_timeout, set_timeout,
}

-- `errno`: the errors the code names, and any other error, or that of a socket, by its number.
pub data Errno : Type 0 where
  ebadf etimedout eagain eintr einprogress : Errno
  other : ℕ → Errno

-- A result that is not -1, or -1 with `errno`.
pub data Answer : Type 0 where
  ok : ℕ → Answer
  fails : Errno → Answer

-- How a wait ended: `addEvent` failed with the errno of `epoll_ctl`, the event came, or the timer fired first.
pub data Woken : Type 0 where
  no_event : Errno → Woken
  ready timed_out : Woken

-- The number of calls in a row was not enough; no answer of the code.
pub data Run (S : Type 0) : Type 0 where
  returns : Answer → S → Run S
  running : Run S

-- What `do_io` does with a descriptor before it calls: the call as it is, EBADF, or with waits.
pub data Mode : Type 0 where
  direct closed waits : Mode

unfoldable pub io_mode : Bool → Option FdCtx → Mode
io_mode false ctx = direct
io_mode true none = direct
io_mode true (some c) =
    if c.is_closed then closed else if not c.is_socket || c.user_nonblock then direct else waits

-- The timeout of a wait: a timer is added for any but `(uint64_t)-1`.
abbrev pub timer_of : ℕ → Option ℕ
timer_of t = if t == forever then none else some t

-- The loop of `do_io` from `retry` on. After EINTR it calls again, after EAGAIN it waits.
unfoldable pub do_io_loop :
    {S : Type 0} → (S → Answer × S) → (Option ℕ → S → Woken × S) → ℕ → ℕ → S → Run S
do_io_loop call wait zero t s = running
do_io_loop call wait (suc fuel) t s = elim (call s).0 [
  | ok n ↦ returns (ok n) (call s).1
  | fails eintr ↦ do_io_loop call wait fuel t (call s).1
  | fails eagain ↦ elim (wait (timer_of t) (call s).1).0 [
    | no_event e ↦ returns (fails e) (wait (timer_of t) (call s).1).1
    | timed_out ↦ returns (fails etimedout) (wait (timer_of t) (call s).1).1
    | ready ↦ do_io_loop call wait fuel t (wait (timer_of t) (call s).1).1
  ]
  | fails e ↦ returns (fails e) (call s).1
]

unfoldable pub do_io :
    {S : Type 0}
    → (S → Answer × S)
    → (Option ℕ → S → Woken × S)
    → ℕ
    → Bool
    → TimeoutType
    → Option FdCtx
    → S
    → Run S
unfolding io_mode do_io_loop
do_io call wait fuel enabled timeout_so ctx s = elim (io_mode enabled ctx) [
  | direct ↦ returns (call s).0 (call s).1
  | closed ↦ returns (fails ebadf) s
  | waits ↦ elim ctx [
    | none ↦ returns (call s).0 (call s).1
    | some c ↦ do_io_loop call wait fuel (get_timeout timeout_so c) s
  ]
]

unfoldable pub connect_mode : Bool → Option FdCtx → Mode
connect_mode false ctx = direct
connect_mode true none = closed
connect_mode true (some c) =
    if c.is_closed then closed else if not c.is_socket || c.user_nonblock then direct else waits

-- `connect_with_timeout` after a connect in progress: the timeout, or else the error of the socket by
-- `getsockopt`, which may fail, and gives 0 for a connection.
unfoldable pub connect_wait :
    {S : Type 0} → (Option ℕ → S → Woken × S) → (S → Answer) → ℕ → S → Answer × S
connect_wait wait so_error timeout_ms s = elim (wait (timer_of timeout_ms) s).0 [
  | timed_out ↦ (fails etimedout, (wait (timer_of timeout_ms) s).1)
  | _ ↦
      let s' = (wait (timer_of timeout_ms) s).1 in
      elim (so_error s') [
        | fails e ↦ (fails e, s')
        | ok zero ↦ (ok 0, s')
        | ok (suc e) ↦ (fails (other (suc e)), s')
      ]
]

unfoldable pub connect_with_timeout :
    {S : Type 0}
    → (S → Answer × S)
    → (Option ℕ → S → Woken × S)
    → (S → Answer)
    → Bool
    → ℕ
    → Option FdCtx
    → S
    → Answer × S
unfolding connect_mode connect_wait
connect_with_timeout call wait so_error enabled timeout_ms ctx s = elim (connect_mode enabled ctx) [
  | direct ↦ call s
  | closed ↦ (fails ebadf, s)
  | waits ↦ elim (call s).0 [
    | fails einprogress ↦ connect_wait wait so_error timeout_ms (call s).1
    | _ ↦ call s
  ]
]
