-- ===== src/Tests/Timers.antt =====
-- Two timers, for dwframe/timer.cc.
use dwframe.Base.{ℕ, refl, some, true, false, [], ◌∷◌, ◌==◌, if◌then◌else◌, arith}
use dwframe.TimerManager.{Timer, TimerManager, addtimer, refresh, reset}
use dwframe.TimerManager.Validity.{IsValid, timers_stay_sorted}
use dwframe.TimerManager.Expiry.{Expires, list_expired_cb-Expires}

-- A timer for the time 105 at the address 1, and a recurring one for 110 at the address 2.
abbrev heap : ℕ → Timer
heap p =
    if p == 1
    then record { recurring = false; ms = 5; next = 105; cb = some 7 }
    else record { recurring = true; ms = 10; next = 110; cb = some 8 }

abbrev two_timers : TimerManager
two_timers = record {
  store = heap;
  timers = 1 ∷ 2 ∷ [];
  tickled = false;
  previous_time = 100;
  front_calls = 0;
}

two_timers-IsValid : IsValid two_timers
two_timers-IsValid = ((refl, tt), (tt, tt))

list_expired_cb-Expires_example : Expires 107 9 two_timers
list_expired_cb-Expires_example =
    list_expired_cb-Expires 107 9 two_timers (omega arith, (omega arith, tt)) two_timers-IsValid

timers_stay_sorted_example :
    IsValid (addtimer 3 (some 9) false 100 3 two_timers)
    × IsValid (refresh 100 2 two_timers).0
    × IsValid (reset 3 true 100 2 two_timers).0
timers_stay_sorted_example =
    timers_stay_sorted 3 (some 9) false true 100 3 2 two_timers (omega arith, (omega arith, tt))
      two_timers-IsValid
