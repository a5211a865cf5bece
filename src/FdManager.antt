-- ===== src/FdManager.antt =====
-- dwframe/fd_manager.h and dwframe/fd_manager.cc: what is known of each file descriptor. A table of
-- contexts by descriptor has a null pointer where none was made. A descriptor is an `int` that is not
-- negative here. `fstat` gives none for an error, or else whether the descriptor is a socket. The
-- flags of a socket in the kernel are set by `fcntl`, not modelled here.
pub mod Contexts
use dwframe.Base.{
  ℕ, ◌+◌, ◌-◌, ◌*◌, ◌/◌, ◌^◌, Bool, true, false, Option, none, some, List, ◌++◌, length, get_elem?,
  set, replicate, if◌then◌else◌, not, ltb, ◌||◌,
}

pub record FdCtx : Type 0 where
  pub is_init : Bool
  pub is_socket : Bool
  pub sys_nonblock : Bool
  pub user_nonblock : Bool
  pub is_closed : Bool
  pub fd : ℕ
  pub recv_timeout : ℕ
  pub send_timeout : ℕ

-- -1 as a uint64_t.
abbrev pub forever : ℕ
forever = 2 ^ 64 - 1

abbrev pub or_false : Option Bool → Bool
or_false none = false
or_false (some b) = b

abbrev pub is_known : Option Bool → Bool
is_known none = false
is_known (some _) = true

-- `FdCtx::init`: it answers `isInit` of the result.
unfoldable pub init : (ℕ → Option Bool) → FdCtx → FdCtx
init fstat c = if c.is_init then c else record c {
  recv_timeout = forever;
  send_timeout = forever;
  is_init = is_known (fstat c.fd);
  is_socket = or_false (fstat c.fd);
  sys_nonblock = or_false (fstat c.fd);
  user_nonblock = false;
  is_closed = false;
}

unfoldable pub new_fd_ctx : (ℕ → Option Bool) → ℕ → FdCtx
unfolding init
new_fd_ctx fstat fd = init fstat (record {
  is_init = false;
  is_socket = false;
  sys_nonblock = false;
  user_nonblock = false;
  is_closed = false;
  fd = fd;
  recv_timeout = forever;
  send_timeout = forever;
})

-- `SO_RCVTIMEO`, or any other option, which stands for `SO_SNDTIMEO`.
pub data TimeoutType : Type 0 where
  receiving sending : TimeoutType

unfoldable pub set_timeout : TimeoutType → ℕ → FdCtx → FdCtx
set_timeout receiving v c = record c { recv_timeout = v }
set_timeout sending v c = record c { send_timeout = v }

unfoldable pub get_timeout : TimeoutType → FdCtx → ℕ
get_timeout receiving c = c.recv_timeout
get_timeout sending c = c.send_timeout

-- `m_datas`.
abbrev pub FdManager : Type 0
FdManager = List (Option FdCtx)

abbrev pub new_fd_manager : FdManager
new_fd_manager = replicate 64 none

-- The pointer at an index, null beyond the table.
abbrev pub lookup : FdManager → ℕ → Option FdCtx
lookup m fd = elim (get_elem? m fd) [ none ↦ none | some p ↦ p ]

-- `m_datas.resize(fd * 1.5)` where the table ends before the descriptor.
abbrev pub room_for : ℕ → FdManager → FdManager
room_for fd m = if ltb fd (length m) then m else m ++ replicate (fd * 3 / 2 - length m) none

-- `FdManager::get`.
unfoldable pub get : (ℕ → Option Bool) → ℕ → Bool → FdManager → FdManager × Option FdCtx
unfolding new_fd_ctx
get fstat fd auto_create m = elim (lookup m fd) [
  | some c ↦ (m, some c)
  | none ↦
      if auto_create
      then (set (room_for fd m) fd (some (new_fd_ctx fstat fd)), some (new_fd_ctx fstat fd))
      else (m, none)
]

-- `FdManager::del`.
unfoldable pub del : ℕ → FdManager → FdManager
del fd m = if ltb fd (length m) then set m fd none else m
