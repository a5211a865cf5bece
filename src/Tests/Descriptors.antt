-- ===== src/Tests/Descriptors.antt =====
-- Descriptors that are open sockets, for dwframe/fd_manager.cc and dwframe/hook.cc.
use dwframe.Base.{
  ℕ, zero, suc, ◌≡◌, ◌≢◌, refl, Option, some, none, Bool, true, false, [], ◌∷◌, arith,
}
use dwframe.FdManager.{FdCtx, FdManager, new_fd_manager, forever, receiving}
use dwframe.FdManager.Contexts.{Got, get-Got}
use dwframe.Hook.{Answer, ok, fails, eagain, eintr, Woken, ready, returns, do_io}
use dwframe.Hook.Waiting.{Waits, here, blocked, do_io_ok, do_io_blocks}
use dwframe.Hook.Descriptors.{FileFlags, open_socket}
use dwframe.Hook.Closing.{Closed, close-Closed}
use dwframe.Tests.Events.{waiting, waiting-IsValid, agrees}

abbrev socket : FdCtx
socket = record {
  is_init = true;
  is_socket = true;
  sys_nonblock = true;
  user_nonblock = false;
  is_closed = false;
  fd = 0;
  recv_timeout = forever;
  send_timeout = forever;
}

abbrev one_socket : FdManager
one_socket = some socket ∷ none ∷ []

abbrev all_sockets : ℕ → Option Bool
all_sockets fd = some true

get-Got_example : Got all_sockets 70 true new_fd_manager
get-Got_example = get-Got all_sockets 70 true new_fd_manager (omega arith)

abbrev flags : FileFlags
flags = record { nonblock = false; others = 2 }

is_open : open_socket 0 one_socket ≡ some socket
unfolding open_socket
is_open = refl

close-Closed_example : Closed agrees 0 one_socket waiting
close-Closed_example =
    close-Closed agrees 0 one_socket waiting socket refl waiting-IsValid refl refl

-- A peer that would block once.
abbrev receive : ℕ → Answer × ℕ
receive zero = (fails eagain, 0)
receive (suc n) = (ok 5, suc n)

abbrev woken : Option ℕ → ℕ → Woken × ℕ
woken t n = (ready, suc n)

socket-Waits : Waits socket
socket-Waits = record { is_open = refl; is_socket = refl; blocking = refl }

do_io_ok_example : do_io receive woken 2 true receiving (some socket) 0 ≡ returns (ok 5) 1
do_io_ok_example =
    do_io_ok receive woken 1 2 receiving socket 0 1 5 socket-Waits (blocked refl refl here) refl
      (omega arith)

do_io_blocks_example : (ok 5 ≢ fails eagain) × (ok 5 ≢ fails eintr)
do_io_blocks_example =
    do_io_blocks receive woken 2 receiving socket 0 1 (ok 5) socket-Waits (λ t s x p. absurd (cc))
      do_io_ok_example
