-- ===== src/Tests/Events.antt =====
-- A manager with two descriptors, for dwframe/IoManager.cc.
use dwframe.Base.{ℕ, refl, Bool, true, false, some, none, [], ◌∷◌}
use dwframe.IoManager.Removal.{
  EventCancelled, cancel_event-EventCancelled, Deleted, del_event-Deleted,
}
use dwframe.IoManager.{Flags, read_event, write_event, Mask, FdContext, IoManager, new_context}
use dwframe.IoManager.Invariant.{IsValid}
use dwframe.IoManager.Firing.{AllCancelled, cancel_all-AllCancelled}

-- A fiber waits to read from the descriptor 0, a callback waits to write to it.
abbrev pub both : FdContext
both = record {
  fd = 0;
  read = record { scheduler = some 1; fiber = some 5; cb = none };
  write = record { scheduler = some 1; fiber = none; cb = some 6 };
  events = record { reads = true; writes = true };
}

abbrev pub waiting : IoManager
waiting = record { contexts = both ∷ new_context 1 ∷ []; pending = 2; scheduled = [] }

pub waiting-IsValid : IsValid waiting
waiting-IsValid = record {
  contexts_ok = (
    record { read_ok = (refl, refl); write_ok = (refl, refl) },
    (record { read_ok = (refl, refl, refl); write_ok = (refl, refl, refl) }, tt),
  );
  counted = refl;
}

abbrev pub agrees : ℕ → Mask → Bool
agrees fd mask = true

cancel_all-AllCancelled_example : AllCancelled agrees 0 waiting
cancel_all-AllCancelled_example = cancel_all-AllCancelled agrees 0 waiting waiting-IsValid refl refl

abbrev readable : Flags
readable = record { input = true; output = false; error = false; hangup = true }

cancel_event-EventCancelled_example : EventCancelled agrees 0 write_event waiting
cancel_event-EventCancelled_example =
    cancel_event-EventCancelled agrees 0 write_event waiting waiting-IsValid refl refl

del_event-Deleted_example : Deleted agrees 0 read_event waiting
del_event-Deleted_example = del_event-Deleted agrees 0 read_event waiting waiting-IsValid refl refl
