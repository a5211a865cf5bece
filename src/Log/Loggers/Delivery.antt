-- ===== src/Log/Loggers/Delivery.antt =====
-- Which appenders of dwframe/log.cc get an event, and what they write.
use dwframe.Base.{
  ℕ, ◌≤◌, ◌<◌, ◌≡◌, ◌≢◌, refl, sym, ap, ◌∙◌, inl, inr, Bool-cases, Bool, true, false, Option, none,
  some, List, [], ◌∷◌, ◌++◌, if◌then◌else◌, ◌==◌, leb, ==_refl, All, lt→leb, le→leb, arith,
}
use dwframe.Base.Text.{Text}
use dwframe.Log.Format.{LogEvent, LogFormatter, format}
use dwframe.Log.Loggers.{LogAppender, Appenders, put_at, Logger, append_log, log_loop, log}

pub put_at-same {ℓ} : {A : Type ℓ} (i : ℕ) (a : A) (store : ℕ → A) → put_at i a store i ≡ a
put_at-same i a store = rw (==_refl i)

pub put_at-other {ℓ} :
    {A : Type ℓ} (i j : ℕ) (a : A) (store : ℕ → A) → j ≢ i → put_at i a store j ≡ store j
put_at-other i j a store h = let e : (j == i) ≡ false = ground arith in rw e

-- An appender with this formatter.
abbrev pub Has : LogFormatter → LogAppender → Type 0
Has f a = a.formatter ≡ some f

-- Each appender has a formatter.
abbrev pub Ready : List ℕ → Appenders → Type 0
Ready ps store = All (λ p. (f : LogFormatter) × Has f (store p)) ps

-- No address stands in the list twice.
abbrev pub Distinct : List ℕ → Type 0
Distinct [] = Unit
Distinct (p ∷ ps) = All (λ q. q ≢ p) ps × Distinct ps

module _ (strftime : Text → ℕ → Text) (level : ℕ) (event : LogEvent) where
  -- An appender after the event: with one more text, by its formatter, if its level allows it.
  abbrev pub told : LogFormatter → LogAppender → LogAppender
  told f a =
      if leb a.level level
      then record a { written = a.written ++ (format strftime f level event ∷ []) }
      else a

  -- Each of the appenders has been told, and no other.
  pub record Delivered (ps : List ℕ) (before after : Appenders) : Type 0 where
    pub each :
        All
          (λ p. (f : LogFormatter) → (before p).formatter ≡ some f → after p ≡ told f (before p))
          ps
    pub others : (q : ℕ) → All (λ p. p ≢ q) ps → after q ≡ before q

  append_log-told :
      (f : LogFormatter) (a : LogAppender)
      → a.formatter ≡ some f
      → append_log strftime level event a ≡ some (told f a)
  unfolding append_log
  append_log-told f a e = elim (Bool-cases (leb a.level level)) [
    | inl t ↦ rw t (shape a.formatter e)
    | inr t ↦ rw t
  ]
    where
      write : Option LogFormatter → Option LogAppender
      write o = elim o [
        | none ↦ none
        | some g ↦ some (record a { written = a.written ++ (format strftime g level event ∷ []) })
      ]

      shape :
          (o : Option LogFormatter)
          → o ≡ some f
          → write o
            ≡ some (record a { written = a.written ++ (format strftime f level event ∷ []) })
      shape none h = absurd (cc)
      shape (some g) h =
          let same : g ≡ f = cc in
          ap (λ k. some (record a { written = a.written ++ (format strftime k level event ∷ []) }))
            same

  -- What holds of the addresses of a list in one store holds in another that agrees on them.
  agree-Ready :
      (p : ℕ) (a : LogAppender) (ps : List ℕ) (store : Appenders)
      → All (λ q. q ≢ p) ps
      → Ready ps store
      → Ready ps (put_at p a store)
  agree-Ready p a [] store d r = tt
  agree-Ready p a (q ∷ ps) store d r = (
    (r.0.0, ap (λ x. x.formatter) (put_at-other p q a store d.0) ∙ r.0.1),
    agree-Ready p a ps store d.1 r.1,
  )

  agree-each :
      (p : ℕ) (a : LogAppender) (ps : List ℕ) (store after : Appenders)
      → All (λ q. q ≢ p) ps
      → All
          (λ q.
            (f : LogFormatter)
            → (put_at p a store q).formatter ≡ some f
            → after q ≡ told f (put_at p a store q))
          ps
      → All (λ q. (f : LogFormatter) → (store q).formatter ≡ some f → after q ≡ told f (store q)) ps
  agree-each p a [] store after d r = tt
  agree-each p a (q ∷ ps) store after d r =
      let same = put_at-other p q a store d.0 in
      (
        λ f e. r.0 f (ap (λ x. x.formatter) same ∙ e) ∙ ap (λ x. told f x) same,
        agree-each p a ps store after d.1 r.1,
      )

  log_loop-Delivered :
      (ps : List ℕ) (store : Appenders)
      → Distinct ps
      → Ready ps store
      → (after : Appenders) × (log_loop strftime level event ps store ≡ some after)
        × Delivered ps store after
  unfolding log_loop
  log_loop-Delivered [] store d r = (store, refl, record { each = tt; others = λ q h. refl })
  log_loop-Delivered (p ∷ ps) store d r =
      let f = r.0.0 in
      let a = told f (store p) in
      let (after, run, law) =
        log_loop-Delivered ps (put_at p a store) d.1 (agree-Ready p a ps store d.0 r.1) in
      let head : after p ≡ a = law.others p d.0 ∙ put_at-same p a store in
      (
        after,
        rw (append_log-told f (store p) r.0.1, log_loop) run,
        record {
          each = (
            λ g e. let same : f ≡ g = cc (r.0.1, e) in head ∙ ap (λ k. told k (store p)) same,
            agree-each p a ps store after d.0 law.each,
          );
          others = λ q h. law.others q h.1 ∙ put_at-other p q a store (λ e. h.0 (sym e));
        },
      )

  if-same : (b : Bool) (x y : Option Appenders) → x ≡ y → (if b then x else y) ≡ y
  if-same true x y e = e
  if-same false x y e = refl

  -- What `log` does: nothing below the level of the logger; otherwise its appenders are told, or,
  -- where it has none, those of its root, if the level of the root allows it, and nothing where it has neither.
  pub record Logged (l : Logger) (loggers : ℕ → Logger) (store : Appenders) : Type 0 where
    pub quiet : level < l.level → log strftime level event l loggers store ≡ some store
    pub own :
        (p : ℕ) (ps : List ℕ)
        → l.level ≤ level
        → l.appenders ≡ p ∷ ps
        → (after : Appenders) × (log strftime level event l loggers store ≡ some after)
          × Delivered (p ∷ ps) store after
    pub by_root :
        (r : ℕ)
        → l.level ≤ level
        → (loggers r).level ≤ level
        → l.appenders ≡ []
        → l.root ≡ some r
        → (after : Appenders) × (log strftime level event l loggers store ≡ some after)
          × Delivered (loggers r).appenders store after
    pub root_quiet :
        (r : ℕ)
        → level < (loggers r).level
        → l.appenders ≡ []
        → l.root ≡ some r
        → log strftime level event l loggers store ≡ some store
    pub rootless :
        l.appenders ≡ [] → l.root ≡ none → log strftime level event l loggers store ≡ some store

  -- On a logger, and loggers for its root, with distinct appenders that all have a formatter,
  -- `log` writes nothing below the level of the logger; otherwise each appender of the logger, or,
  -- where it has none, of its root, gets one more text by its own formatter if its level allows
  -- it, and no other appender changes. Where the logger has no appenders, nothing is written below
  -- the level of its root, nor where it has no root.
  pub log-Logged :
      (l : Logger) (loggers : ℕ → Logger) (store : Appenders)
      → Distinct l.appenders
      → Ready l.appenders store
      → ((r : ℕ) → Distinct (loggers r).appenders × Ready (loggers r).appenders store)
      → Logged l loggers store
  unfolding log
  log-Logged l loggers store d r roots = record {
    quiet = λ h. rw (lt→leb l.level level h);
    own = λ p ps h e.
        let (after, run, law) = log_loop-Delivered (p ∷ ps) store (rw e at d) (rw e at r) in
        (after, rw (le→leb l.level level h, e) run, law);
    by_root = λ p h k e q.
        let (after, run, law) =
          log_loop-Delivered (loggers p).appenders store (roots p).0 (roots p).1 in
        (after, rw (le→leb l.level level h, e, q, le→leb (loggers p).level level k) run, law);
    root_quiet = λ p k e q.
        if-same (leb l.level level) _ (some store)
          (rw (e, q, lt→leb (loggers p).level level k) refl);
    rootless = λ e q. if-same (leb l.level level) _ (some store) (rw (e, q) refl);
  }
