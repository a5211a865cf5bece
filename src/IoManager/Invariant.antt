-- ===== src/IoManager/Invariant.antt =====
-- The invariant of the event contexts of dwframe/IoManager.cc, and lists of contexts under it.
use mathlib.Core.Path.{subst}
use mathlib.Core.Option.{some-injective}
use dwframe.Base.{
  ℕ, zero, suc, ◌+◌, ◌<◌, ◌≡◌, refl, ap, Bool, true, false, none, some, List, [], ◌∷◌, ◌++◌, length,
  get_elem?, set, All, not, arith,
}
use dwframe.IoManager.{
  Event, EventContext, FdContext, IoManager, Task, callback, resume, is_some, get_context,
  no_context, fresh_contexts,
}

-- A context is armed, with a scheduler and either a callback or a fiber, exactly when its event is
-- registered; otherwise it is empty.
abbrev pub EventOk : Bool → EventContext → Type 0
EventOk true ctx = (is_some ctx.scheduler ≡ true) × (is_some ctx.cb ≡ not (is_some ctx.fiber))
EventOk false ctx = (ctx.scheduler ≡ none) × (ctx.fiber ≡ none) × (ctx.cb ≡ none)

pub record ContextOk (c : FdContext) : Type 0 where
  pub read_ok : EventOk c.events.reads c.read
  pub write_ok : EventOk c.events.writes c.write

abbrev pub one_if : Bool → ℕ
one_if true = 1
one_if false = 0

abbrev pub event_count : FdContext → ℕ
event_count c = one_if c.events.reads + one_if c.events.writes

abbrev pub total : List FdContext → ℕ
total [] = 0
total (c ∷ cs) = event_count c + total cs

-- Every context is as its mask says, and `m_pendingEventCount` counts the registered events.
pub record IsValid (m : IoManager) : Type 0 where
  pub contexts_ok : All ContextOk m.contexts
  pub counted : m.pending ≡ total m.contexts

-- The context of an event of a descriptor, and the task that waits in a context: on its scheduler, the
-- callback, or the fiber where there is none.
abbrev pub waiter : ℕ → Event → IoManager → EventContext
waiter fd event m = elim (get_elem? m.contexts fd) [
  | none ↦ no_context
  | some c ↦ get_context c event
]

abbrev pub Waits : EventContext → Task → Type 0
Waits ctx (callback s f) = (ctx.scheduler ≡ some s) × (ctx.cb ≡ some f)
Waits ctx (resume s f) = (ctx.scheduler ≡ some s) × (ctx.cb ≡ none) × (ctx.fiber ≡ some f)

pub All-get {ℓ} :
    {A : Type ℓ} (P : A → Type 0) (xs : List A) (i : ℕ) {x : A}
    → All P xs
    → get_elem? xs i ≡ some x
    → P x
All-get P [] i h e = absurd (cc)
All-get P (y ∷ ys) zero h e = subst P (some-injective _ _ e) h.0
All-get P (y ∷ ys) (suc i) h e = All-get P ys i h.1 e

pub All-set {ℓ} :
    {A : Type ℓ} (P : A → Type 0) (xs : List A) (i : ℕ) (x : A)
    → All P xs
    → P x
    → All P (set xs i x)
All-set P [] i x h p = tt
All-set P (y ∷ ys) zero x h p = (p, h.1)
All-set P (y ∷ ys) (suc i) x h p = (h.0, All-set P ys i x h.1 p)

pub get_elem?-lt {ℓ} :
    {A : Type ℓ} (xs : List A) (i : ℕ) {x : A} → get_elem? xs i ≡ some x → i < length xs
get_elem?-lt [] i e = absurd (cc)
get_elem?-lt (y ∷ ys) zero e = omega arith
get_elem?-lt (y ∷ ys) (suc i) e = omega (arith, get_elem?-lt ys i e)

pub total-set :
    (cs : List FdContext) (i : ℕ) (c c' : FdContext)
    → get_elem? cs i ≡ some c
    → total (set cs i c') + event_count c ≡ total cs + event_count c'
total-set [] i c c' e = absurd (cc)
total-set (x ∷ xs) zero c c' e =
    let same : x ≡ c = ground (arith, e) in omega (arith, ap event_count same)
total-set (x ∷ xs) (suc i) c c' e = omega (arith, total-set xs i c c' e)

pub total-append : (cs ds : List FdContext) → total (cs ++ ds) ≡ total cs + total ds
total-append [] ds = omega arith
total-append (c ∷ cs) ds = omega (arith, total-append cs ds)

pub fresh_contexts-Ok : (from n : ℕ) → All ContextOk (fresh_contexts from n)
fresh_contexts-Ok from zero = tt
fresh_contexts-Ok from (suc n) = (
  record { read_ok = (refl, refl, refl); write_ok = (refl, refl, refl) },
  fresh_contexts-Ok (from + 1) n,
)

pub fresh_contexts-total : (from n : ℕ) → total (fresh_contexts from n) ≡ 0
fresh_contexts-total from zero = refl
fresh_contexts-total from (suc n) = omega (arith, fresh_contexts-total (from + 1) n)
