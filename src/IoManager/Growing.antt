-- ===== src/IoManager/Growing.antt =====
-- The table of contexts after the resize of `addEvent` in dwframe/IoManager.cc.
use dwframe.Base.{
  ℕ, zero, suc, ◌+◌, ◌-◌, ◌*◌, ◌/◌, ◌≤◌, ◌<◌, ◌≡◌, refl, ap, ◌∙◌, ◌⊎◌, inl, inr, Bool-cases, true,
  false, none, some, List, [], ◌∷◌, ◌++◌, length, get_elem?, take, take_all, All-append, ltb, arith,
  ltb→lt,
}
use dwframe.IoManager.{
  FdContext, IoManager, mask_of, new_context, fresh_contexts, context_resize, grown,
}
use dwframe.IoManager.Invariant.{
  ContextOk, IsValid, total-append, fresh_contexts-Ok, fresh_contexts-total,
}

length-fresh_contexts : (from n : ℕ) → length (fresh_contexts from n) ≡ n
length-fresh_contexts from zero = refl
length-fresh_contexts from (suc n) = ap suc (length-fresh_contexts (from + 1) n)

get_elem?-fresh :
    (from n i : ℕ) → i < n → (k : ℕ) × (get_elem? (fresh_contexts from n) i ≡ some (new_context k))
get_elem?-fresh from zero i h = absurd (omega arith)
get_elem?-fresh from (suc n) zero h = (from, refl)
get_elem?-fresh from (suc n) (suc i) h = get_elem?-fresh (from + 1) n i (omega arith)

get_elem?-behind :
    (xs ys : List FdContext) (i k : ℕ) → i ≡ length xs + k → get_elem? (xs ++ ys) i ≡ get_elem? ys k
get_elem?-behind [] ys i k e = ap (get_elem? ys) (omega arith)
get_elem?-behind (x ∷ xs) ys zero k e = absurd (omega arith)
get_elem?-behind (x ∷ xs) ys (suc i) k e = get_elem?-behind xs ys i k (omega arith)

get_elem?_beyond : (xs : List FdContext) (i : ℕ) → length xs ≤ i → get_elem? xs i ≡ none
get_elem?_beyond [] i h = refl
get_elem?_beyond (x ∷ xs) zero h = absurd (omega arith)
get_elem?_beyond (x ∷ xs) (suc i) h = get_elem?_beyond xs i (omega arith)

get_elem?_within :
    (xs : List FdContext) (i : ℕ) → i < length xs → (c : FdContext) × (get_elem? xs i ≡ some c)
get_elem?_within [] i h = absurd (omega arith)
get_elem?_within (x ∷ xs) zero h = (x, refl)
get_elem?_within (x ∷ xs) (suc i) h = get_elem?_within xs i (omega arith)

-- After the resize the descriptor has a context, with the mask it had, or none if it is new.
pub record Grown (fd : ℕ) (m : IoManager) : Type 0 where
  pub context : FdContext
  pub here : get_elem? (grown fd m).contexts fd ≡ some context
  pub mask : context.events ≡ mask_of fd m
  pub valid : IsValid (grown fd m)
  pub same_pending : (grown fd m).pending ≡ m.pending

short-Grown : (fd : ℕ) (m : IoManager) → IsValid m → length m.contexts ≤ fd → 2 ≤ fd → Grown fd m
unfolding grown context_resize
short-Grown fd m v short large =
    let n = fd * 3 / 2 - length m.contexts in
    let fresh = fresh_contexts (length m.contexts) n in
    let (k, e) = get_elem?-fresh (length m.contexts) n (fd - length m.contexts) (omega arith) in
    let resized : ltb fd (length m.contexts) ≡ false = ground arith in
    let kept : take (fd * 3 / 2) m.contexts ≡ m.contexts =
      take_all (fd * 3 / 2) m.contexts (omega arith) in
    record {
      context = new_context k;
      here =
          rw (resized, kept)
            (get_elem?-behind m.contexts fresh fd (fd - length m.contexts) (omega arith) ∙ e);
      mask = rw (get_elem?_beyond m.contexts fd short, mask_of);
      valid =
          rw (resized, kept)
            (record {
              contexts_ok =
                  All-append ContextOk m.contexts fresh v.contexts_ok
                    (fresh_contexts-Ok (length m.contexts) n);
              counted = omega (
                arith,
                total-append m.contexts fresh,
                fresh_contexts-total (length m.contexts) n,
                v.counted,
              );
            });
      same_pending = rw resized;
    }

pub long-Grown : (fd : ℕ) (m : IoManager) → IsValid m → fd < length m.contexts → Grown fd m
unfolding grown
long-Grown fd m v long =
    let (c, e) = get_elem?_within m.contexts fd long in
    let kept : ltb fd (length m.contexts) ≡ true = ground arith in
    record {
      context = c;
      here = rw kept e;
      mask = rw (e, mask_of);
      valid = rw kept v;
      same_pending = rw kept;
    }

pub any-Grown :
    (fd : ℕ) (m : IoManager) → IsValid m → (fd < length m.contexts) ⊎ (2 ≤ fd) → Grown fd m
any-Grown fd m v place = elim (Bool-cases (ltb fd (length m.contexts))) [
  | inl t ↦ long-Grown fd m v (ltb→lt _ _ t)
  | inr t ↦ short-Grown fd m v (ground arith) (ground arith)
]
