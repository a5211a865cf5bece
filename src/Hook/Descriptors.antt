-- ===== src/Hook/Descriptors.antt =====
-- The calls of dwframe/hook.cc that read or change what is known of a descriptor. The flags of a file
-- are O_NONBLOCK and the others, as one number. What the kernel answers is an argument, what it is
-- asked is part of the result.
use dwframe.Base.{ℕ, ◌+◌, ◌*◌, ◌/◌, Bool, true, Option, none, some, set, if◌then◌else◌, not, ◌||◌}
use dwframe.FdManager.{FdCtx, FdManager, lookup, get, del, TimeoutType, set_timeout}
use dwframe.IoManager.{IoManager, Mask, Outcome, done, cancel_all, ◌>>=◌}

pub record FileFlags : Type 0 where
  pub nonblock : Bool
  pub others : ℕ

-- The context of an open socket, or none.
unfoldable pub open_socket : ℕ → FdManager → Option FdCtx
open_socket fd m = elim (lookup m fd) [
  | none ↦ none
  | some c ↦ if c.is_closed || not c.is_socket then none else some c
]

abbrev pub set_user_nonblock : Bool → FdCtx → FdCtx
set_user_nonblock b c = record c { user_nonblock = b }

-- A change of the context that a descriptor has, through the shared pointer.
abbrev pub modify : ℕ → (FdCtx → FdCtx) → FdManager → FdManager
modify fd f m = elim (lookup m fd) [ none ↦ m | some c ↦ set m fd (some (f c)) ]

-- `fcntl` with F_SETFL: the table after it, and the flags for the kernel.
unfoldable pub fcntl_setfl : ℕ → FileFlags → FdManager → FdManager × FileFlags
fcntl_setfl fd arg m = elim (open_socket fd m) [
  | none ↦ (m, arg)
  | some c ↦
      (modify fd (set_user_nonblock arg.nonblock) m, record arg { nonblock = c.sys_nonblock })
]

-- `fcntl` with F_GETFL, from what the kernel answers.
unfoldable pub fcntl_getfl : ℕ → FileFlags → FdManager → FileFlags
fcntl_getfl fd kernel m = elim (open_socket fd m) [
  | none ↦ kernel
  | some c ↦ record kernel { nonblock = c.user_nonblock }
]

-- `ioctl` with FIONBIO: the table after it, and the value for the kernel.
unfoldable pub ioctl_fionbio : ℕ → Bool → FdManager → FdManager × Bool
ioctl_fionbio fd value m = elim (open_socket fd m) [
  | none ↦ (m, value)
  | some c ↦ (modify fd (set_user_nonblock value) m, value)
]

-- `setsockopt` at SOL_SOCKET with SO_RCVTIMEO or SO_SNDTIMEO and a time of seconds and microseconds.
unfoldable pub setsockopt_timeout : Bool → ℕ → TimeoutType → ℕ → ℕ → FdManager → FdManager
setsockopt_timeout enabled fd optname sec usec m =
    if enabled then modify fd (set_timeout optname (sec * 1000 + usec / 1000)) m else m

-- `socket`: a new descriptor gets a context if hooks are enabled. `accept` does so after `do_io`
-- whether they are or not.
unfoldable pub note_new : (ℕ → Option Bool) → Bool → Option ℕ → FdManager → FdManager
note_new fstat enabled none m = m
note_new fstat enabled (some fd) m = if enabled then (get fstat fd true m).0 else m

-- `close`, up to `close_f`: the events of the descriptor are cancelled on the manager of the thread, if
-- it has one, and the context is dropped.
unfoldable pub close :
    (ℕ → Mask → Bool)
    → Bool
    → ℕ
    → FdManager
    → Option IoManager
    → Outcome (FdManager × Option IoManager)
close ctl enabled fd m iom =
    if enabled
    then elim (lookup m fd) [
      | none ↦ done (m, iom)
      | some c ↦ elim iom [
        | none ↦ done (del fd m, none)
        | some i ↦ cancel_all ctl fd i >>= λ r. done (del fd m, some r.0)
      ]
    ]
    else done (m, iom)
