-- ===== src/Hook/Waiting.antt =====
-- The waits of `do_io` in dwframe/hook.cc.
use dwframe.Base.{ℕ, zero, suc, ◌<◌, ◌≡◌, ◌≢◌, refl, true, false, Option, some, arith}
use dwframe.FdManager.{FdCtx, TimeoutType, get_timeout}
use dwframe.Hook.{
  Errno, ebadf, etimedout, eagain, eintr, einprogress, other, Answer, ok, fails, Woken, no_event,
  ready, timed_out, returns, waits, io_mode, timer_of, do_io_loop, do_io,
}

-- The turns after which `do_io` calls again: the call was interrupted, or it would block and the event
-- came before the timer.
pub data Turns {S : Type 0} (call : S → Answer × S) (wait : Option ℕ → S → Woken × S) (t : ℕ)
    : ℕ → S → S → Type 0 where
  here : {s : S} → Turns call wait t 0 s s
  interrupted :
      {n : ℕ} {s s' : S}
      → (call s).0 ≡ fails eintr
      → Turns call wait t n (call s).1 s'
      → Turns call wait t (suc n) s s'
  blocked :
      {n : ℕ} {s s' : S}
      → (call s).0 ≡ fails eagain
      → (wait (timer_of t) (call s).1).0 ≡ ready
      → Turns call wait t n (wait (timer_of t) (call s).1).1 s'
      → Turns call wait t (suc n) s s'

module _ {S : Type 0} (call : S → Answer × S) (wait : Option ℕ → S → Woken × S) (t : ℕ) where
  loop_ok :
      (n fuel : ℕ) (s s' : S) (v : ℕ)
      → Turns call wait t n s s'
      → (call s').0 ≡ ok v
      → n < fuel
      → do_io_loop call wait fuel t s ≡ returns (ok v) (call s').1
  unfolding do_io_loop
  loop_ok n zero s s' v turns e h = absurd (omega arith)
  loop_ok zero (suc fuel) s s' v here e h = rw (e, do_io_loop)
  loop_ok (suc n) (suc fuel) s s' v (interrupted i more) e h =
      rw (i, do_io_loop) (loop_ok n fuel (call s).1 s' v more e (omega arith))
  loop_ok (suc n) (suc fuel) s s' v (blocked b r more) e h =
      rw (b, r, do_io_loop)
        (loop_ok n fuel (wait (timer_of t) (call s).1).1 s' v more e (omega arith))

  loop_answers :
      (fuel : ℕ) (s s' : S) (a : Answer)
      → ((s : S) (x : Errno) → (wait (timer_of t) s).0 ≢ no_event x)
      → do_io_loop call wait fuel t s ≡ returns a s'
      → (a ≢ fails eagain) × (a ≢ fails eintr)
  unfolding do_io_loop
  loop_answers zero s s' a h e = absurd (cc)
  loop_answers (suc fuel) s s' a h e = go (λ x e'. loop_answers fuel x s' a h e') (call s).0 refl
    where
      Goal : Type 0
      Goal = (a ≢ fails eagain) × (a ≢ fails eintr)

      after :
          (w : Woken)
          → ((x : S) → do_io_loop call wait fuel t x ≡ returns a s' → Goal)
          → (call s).0 ≡ fails eagain
          → (wait (timer_of t) (call s).1).0 ≡ w
          → Goal
      after (no_event x) again c p = absurd (h (call s).1 x p)
      after ready again c p = again (wait (timer_of t) (call s).1).1 (rw (c, p, do_io_loop) at e)
      after timed_out again c p =
          let q = rw (c, p, do_io_loop) at e in (λ r. absurd (cc), λ r. absurd (cc))

      go :
          ((x : S) → do_io_loop call wait fuel t x ≡ returns a s' → Goal)
          → (b : Answer) → (call s).0 ≡ b
          → Goal
      go again (ok n) c = let q = rw (c, do_io_loop) at e in (λ r. absurd (cc), λ r. absurd (cc))
      go again (fails eintr) c = again (call s).1 (rw (c, do_io_loop) at e)
      go again (fails eagain) c = after (wait (timer_of t) (call s).1).0 again c refl
      go again (fails ebadf) c =
          let q = rw (c, do_io_loop) at e in (λ r. absurd (cc), λ r. absurd (cc))
      go again (fails etimedout) c =
          let q = rw (c, do_io_loop) at e in (λ r. absurd (cc), λ r. absurd (cc))
      go again (fails einprogress) c =
          let q = rw (c, do_io_loop) at e in (λ r. absurd (cc), λ r. absurd (cc))
      go again (fails (other k)) c =
          let q = rw (c, do_io_loop) at e in (λ r. absurd (cc), λ r. absurd (cc))

-- The context is that of an open socket which the user has not made non-blocking.
pub record Waits (c : FdCtx) : Type 0 where
  pub is_open : c.is_closed ≡ false
  pub is_socket : c.is_socket ≡ true
  pub blocking : c.user_nonblock ≡ false

Waits-mode : (c : FdCtx) → Waits c → io_mode true (some c) ≡ waits
unfolding io_mode
Waits-mode c w = rw (w.is_open, w.is_socket, w.blocking)

-- Where the call succeeds after some turns in which it was interrupted or its event came in time,
-- `do_io` with hooks enabled, on an open socket the user did not make non-blocking, answers that
-- success, if the fuel is more than the turns.
pub do_io_ok :
    {S : Type 0} (call : S → Answer × S) (wait : Option ℕ → S → Woken × S) (n fuel : ℕ)
    (timeout_so : TimeoutType) (c : FdCtx) (s s' : S) (v : ℕ)
    → Waits c
    → Turns call wait (get_timeout timeout_so c) n s s'
    → (call s').0 ≡ ok v
    → n < fuel
    → do_io call wait fuel true timeout_so (some c) s ≡ returns (ok v) (call s').1
unfolding do_io
do_io_ok call wait n fuel timeout_so c s s' v w turns e h =
    rw (Waits-mode c w, do_io)
      (loop_ok call wait (get_timeout timeout_so c) n fuel s s' v turns e h)

-- With hooks enabled, on an open socket the user did not make non-blocking, `do_io` never answers
-- EAGAIN or EINTR, if `addEvent` does not fail.
pub do_io_blocks :
    {S : Type 0} (call : S → Answer × S) (wait : Option ℕ → S → Woken × S) (fuel : ℕ)
    (timeout_so : TimeoutType) (c : FdCtx) (s s' : S) (a : Answer)
    → Waits c
    → ((t : Option ℕ) (s : S) (x : Errno) → (wait t s).0 ≢ no_event x)
    → do_io call wait fuel true timeout_so (some c) s ≡ returns a s'
    → (a ≢ fails eagain) × (a ≢ fails eintr)
unfolding do_io
do_io_blocks call wait fuel timeout_so c s s' a w h e =
    loop_answers call wait (get_timeout timeout_so c) fuel s s' a
      (h (timer_of (get_timeout timeout_so c))) (rw (Waits-mode c w, do_io) at e)
