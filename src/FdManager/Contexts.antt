-- ===== src/FdManager/Contexts.antt =====
-- `get` and `del` of dwframe/fd_manager.cc, as a map from descriptors to contexts.
use dwframe.Base.{
  ℕ, zero, suc, ◌+◌, ◌-◌, ◌*◌, ◌/◌, ◌≤◌, ◌<◌, ◌≡◌, ◌≢◌, refl, ap, ◌∙◌, inl, inr, Bool-cases, Bool,
  true, false, Option, none, some, [], ◌∷◌, ◌++◌, length, set, replicate, if◌then◌else◌, ltb,
  ltb→lt, arith, get_elem?-set_self,
}
use dwframe.FdManager.{FdCtx, FdManager, lookup, room_for, get, del, new_fd_ctx}

lookup-append_replicate : (m : FdManager) (n i : ℕ) → lookup (m ++ replicate n none) i ≡ lookup m i
lookup-append_replicate [] zero i = refl
lookup-append_replicate [] (suc n) zero = refl
lookup-append_replicate [] (suc n) (suc i) = lookup-append_replicate [] n i
lookup-append_replicate (p ∷ m) n zero = refl
lookup-append_replicate (p ∷ m) n (suc i) = lookup-append_replicate m n i

lookup-room_for : (fd : ℕ) (m : FdManager) (i : ℕ) → lookup (room_for fd m) i ≡ lookup m i
lookup-room_for fd m i = elim (Bool-cases (ltb fd (length m))) [
  | inl t ↦ rw t
  | inr t ↦ rw t (lookup-append_replicate m (fd * 3 / 2 - length m) i)
]

pub lookup-set_self :
    (m : FdManager) (i : ℕ) (p : Option FdCtx) → i < length m → lookup (set m i p) i ≡ p
lookup-set_self m i p h = rw (get_elem?-set_self m i p h, lookup)

lookup-set_other :
    (m : FdManager) (i j : ℕ) (p : Option FdCtx) → i ≢ j → lookup (set m i p) j ≡ lookup m j
lookup-set_other [] i j p h = refl
lookup-set_other (x ∷ m) zero zero p h = absurd (h refl)
lookup-set_other (x ∷ m) zero (suc j) p h = refl
lookup-set_other (x ∷ m) (suc i) zero p h = refl
lookup-set_other (x ∷ m) (suc i) (suc j) p h = lookup-set_other m i j p (λ e. h (ap suc e))

pub lookup_beyond : (m : FdManager) (i : ℕ) → length m ≤ i → lookup m i ≡ none
lookup_beyond [] i h = refl
lookup_beyond (x ∷ m) zero h = absurd (omega arith)
lookup_beyond (x ∷ m) (suc i) h = lookup_beyond m i (omega arith)

length-append_replicate : (m : FdManager) (n : ℕ) → length (m ++ replicate n none) ≡ length m + n
length-append_replicate [] zero = refl
length-append_replicate [] (suc n) = omega (arith, length-append_replicate [] n)
length-append_replicate (p ∷ m) n = omega (arith, length-append_replicate m n)

room_for-fits : (fd : ℕ) (m : FdManager) → 2 ≤ length m → fd < length (room_for fd m)
room_for-fits fd m h = elim (Bool-cases (ltb fd (length m))) [
  | inl t ↦ rw t (ltb→lt _ _ t)
  | inr t ↦ rw (t, length-append_replicate m (fd * 3 / 2 - length m)) (ground arith)
]

-- What a call of `get` promises: the context the table has, or else a new one if it is asked for;
-- afterwards the table has the answer, and other descriptors keep theirs.
pub record Got (fstat : ℕ → Option Bool) (fd : ℕ) (auto_create : Bool) (m : FdManager)
    : Type 0 where
  pub answer : (get fstat fd auto_create m).1 ≡ elim (lookup m fd) [
    | some c ↦ some c
    | none ↦ if auto_create then some (new_fd_ctx fstat fd) else none
  ]
  pub kept : lookup (get fstat fd auto_create m).0 fd ≡ (get fstat fd auto_create m).1
  pub others : (i : ℕ) → fd ≢ i → lookup (get fstat fd auto_create m).0 i ≡ lookup m i

-- On a table of two entries or more, `get` answers the context of the descriptor, or else a new
-- one if it is asked for; the table has the answer afterwards, and other descriptors keep theirs.
pub get-Got :
    (fstat : ℕ → Option Bool) (fd : ℕ) (auto_create : Bool) (m : FdManager)
    → 2 ≤ length m
    → Got fstat fd auto_create m
unfolding get
get-Got fstat fd auto_create m h = go (lookup m fd) refl auto_create
  where
    go : (o : Option FdCtx) → lookup m fd ≡ o → (b : Bool) → Got fstat fd b m
    go (some c) e b = record {
      answer = rw (e, get);
      kept = rw (e, get) e;
      others = λ i d. rw (e, get);
    }
    go none e false = record {
      answer = rw (e, get);
      kept = rw (e, get) e;
      others = λ i d. rw (e, get);
    }
    go none e true = record {
      answer = rw (e, get);
      kept =
          rw (e, get)
            (lookup-set_self (room_for fd m) fd (some (new_fd_ctx fstat fd))
              (room_for-fits fd m h));
      others = λ i d.
          rw (e, get)
            (lookup-set_other (room_for fd m) fd i (some (new_fd_ctx fstat fd)) d
              ∙ lookup-room_for fd m i);
    }

-- After `del` the descriptor has no context, and the other descriptors keep theirs, whether or not
-- the table reaches it.
pub del_lem :
    (fd : ℕ) (m : FdManager)
    → (lookup (del fd m) fd ≡ none) × ((i : ℕ) → fd ≢ i → lookup (del fd m) i ≡ lookup m i)
unfolding del
del_lem fd m = elim (Bool-cases (ltb fd (length m))) [
  | inl t ↦ (
    rw t (lookup-set_self m fd none (ltb→lt _ _ t)),
    λ i d. rw t (lookup-set_other m fd i none d),
  )
  | inr t ↦ (rw t (lookup_beyond m fd (ground arith)), λ i d. rw t)
]
