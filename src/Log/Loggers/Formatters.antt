-- ===== src/Log/Loggers/Formatters.antt =====
-- The formatters of the appenders of a logger in dwframe/log.cc.
use dwframe.Base.{
  ℕ, ◌≡◌, ◌≢◌, refl, sym, ap, ◌∙◌, ◌⊎◌, inl, inr, Bool-cases, true, false, Option, none, some, List,
  [], ◌∷◌, ◌++◌, if◌then◌else◌, ◌==◌, All, All-append, All-map, arith,
}
use dwframe.Log.Format.{LogFormatter}
use dwframe.Log.Loggers.{
  LogAppender, Appenders, put_at, set_shared_formatter, Logger, adopt, add_appender,
  share_formatter, set_formatter,
}
use dwframe.Log.Loggers.Delivery.{put_at-same, put_at-other, Has, Ready}

-- What adding an appender and setting the formatter of a logger do.
pub record FormatterLaws (p : ℕ) (f : LogFormatter) (l : Logger) (store : Appenders) : Type 0 where
  pub added : let r = add_appender p l store in Ready r.0.appenders r.1
  pub listed : (add_appender p l store).0 ≡ record l { appenders = l.appenders ++ (p ∷ []) }
  pub added_own :
      (g : LogFormatter) → (store p).formatter ≡ some g → (add_appender p l store).1 p ≡ store p
  pub added_takes :
      (store p).formatter ≡ none
      → (add_appender p l store).1 p ≡ record (store p) { formatter = some l.formatter }
  pub added_others : (q : ℕ) → q ≢ p → (add_appender p l store).1 q ≡ store q
  pub stored : (set_formatter f l store).0 ≡ record l { formatter = f }
  pub set : let r = set_formatter f l store in Ready r.0.appenders r.1
  pub own_kept : (q : ℕ) → (store q).has_formatter ≡ true → (set_formatter f l store).1 q ≡ store q
  pub others_kept : (q : ℕ) → All (λ j. j ≢ q) l.appenders → (set_formatter f l store).1 q ≡ store q
  pub shared :
      All
        (λ q.
          (store q).has_formatter ≡ false
          → (set_formatter f l store).1 q ≡ record (store q) { formatter = some f })
        l.appenders

-- The appender as the loop of `setFormatter` leaves it.
abbrev shared_by : LogFormatter → LogAppender → LogAppender
shared_by f a = if a.has_formatter then a else set_shared_formatter f a

share_formatter-other :
    (f : LogFormatter) (ps : List ℕ) (store : Appenders) (q : ℕ)
    → All (λ j. j ≢ q) ps
    → share_formatter f ps store q ≡ store q
unfolding share_formatter
share_formatter-other f [] store q h = refl
share_formatter-other f (p ∷ ps) store q h =
    share_formatter-other f ps _ q h.1 ∙ put_at-other p q _ store (λ e. h.0 (sym e))

shared_by_idem : (f : LogFormatter) (a : LogAppender) → shared_by f (shared_by f a) ≡ shared_by f a
unfolding set_shared_formatter
shared_by_idem f a = elim (Bool-cases a.has_formatter) [ inl t ↦ simp t | inr t ↦ simp t ]

shared_by-put_at :
    (f : LogFormatter) (p q : ℕ) (store : Appenders)
    → shared_by f (put_at p (shared_by f (store p)) store q) ≡ shared_by f (store q)
shared_by-put_at f p q store = elim (Bool-cases (q == p)) [
  | inl t ↦
      let same : q ≡ p = ground arith in
      rw same (ap (λ a. shared_by f a) (put_at-same p _ store) ∙ shared_by_idem f (store p))
  | inr t ↦ ap (λ a. shared_by f a) (put_at-other p q _ store (λ e. absurd (ground arith)))
]

-- After the loop each appender is as it was, or shares the formatter.
share_formatter-either :
    (f : LogFormatter) (ps : List ℕ) (store : Appenders) (q : ℕ)
    → (share_formatter f ps store q ≡ store q)
      ⊎ (share_formatter f ps store q ≡ shared_by f (store q))
unfolding share_formatter
share_formatter-either f [] store q = inl refl
share_formatter-either f (p ∷ ps) store q =
    let next = put_at p (shared_by f (store p)) store in
    elim (share_formatter-either f ps next q) [
      | inr e ↦ inr (e ∙ shared_by-put_at f p q store)
      | inl e ↦ elim (Bool-cases (q == p)) [
        | inl t ↦
            let same : q ≡ p = ground arith in
            inr (
              e
              ∙ ap (λ j. next j) same
              ∙ put_at-same p _ store
              ∙ ap (λ j. shared_by f (store j)) (sym same))
        | inr t ↦ inl (e ∙ put_at-other p q _ store (λ g. absurd (ground arith)))
      ]
    ]

share_formatter-each :
    (f : LogFormatter) (ps : List ℕ) (store : Appenders)
    → All (λ q. share_formatter f ps store q ≡ shared_by f (store q)) ps
unfolding share_formatter
share_formatter-each f [] store = tt
share_formatter-each f (p ∷ ps) store =
    let next = put_at p (shared_by f (store p)) store in
    (
      elim (share_formatter-either f ps next p) [
        | inl e ↦ e ∙ put_at-same p _ store
        | inr e ↦ e ∙ shared_by-put_at f p p store
      ],
      All-map _ _ ps (λ q e. e ∙ shared_by-put_at f p q store) (share_formatter-each f ps next),
    )

shared_by-Has :
    (f g : LogFormatter) (a : LogAppender) → Has g a → (h : LogFormatter) × Has h (shared_by f a)
unfolding set_shared_formatter
shared_by-Has f g a e = elim (Bool-cases a.has_formatter) [
  | inl t ↦ rw t (g, e)
  | inr t ↦ rw t (f, refl)
]

shared_by-takes :
    (f : LogFormatter) (a : LogAppender)
    → a.has_formatter ≡ false
    → shared_by f a ≡ record a { formatter = some f }
unfolding set_shared_formatter
shared_by-takes f a t = rw t

adopt-Has :
    (f : LogFormatter) (a : LogAppender) → (h : LogFormatter) × Has h (adopt f a.formatter a)
unfolding set_shared_formatter
adopt-Has f a = go a.formatter refl
  where
    go : (o : Option LogFormatter) → a.formatter ≡ o → (h : LogFormatter) × Has h (adopt f o a)
    go none e = (f, refl)
    go (some g) e = (g, e)

put_at-Ready :
    (p : ℕ) (a : LogAppender) (ps : List ℕ) (store : Appenders)
    → (h : LogFormatter) × Has h a
    → Ready ps store
    → Ready ps (put_at p a store)
put_at-Ready p a ps store h r =
    All-map _ _ ps
      (λ q k. elim (Bool-cases (q == p)) [
        | inl t ↦
            let same : q ≡ p = ground arith in
            (
              h.0,
              ap (λ j. (put_at p a store j).formatter) same
                  ∙ ap (λ x. x.formatter) (put_at-same p a store)
                  ∙ h.1,
            )
        | inr t ↦ (
          k.0,
          ap (λ x. x.formatter) (put_at-other p q a store (λ e. absurd (ground arith))) ∙ k.1,
        )
      ])
      r

-- On a logger whose appenders all have a formatter, adding an appender and setting the formatter
-- of the logger keep it so. An appender that is added stands last and keeps a formatter it has, or
-- else takes that of the logger, and no other changes. Setting the formatter stores it, gives it
-- to each appender of the logger without one of its own, and leaves alone those with one of their
-- own and those the logger does not have.
pub formatter-FormatterLaws :
    (p : ℕ) (f : LogFormatter) (l : Logger) (store : Appenders)
    → Ready l.appenders store
    → FormatterLaws p f l store
unfolding add_appender set_formatter
formatter-FormatterLaws p f l store r =
    let adopted = adopt-Has l.formatter (store p) in
    let a = adopt l.formatter (store p).formatter (store p) in
    record {
      added =
          All-append _ l.appenders (p ∷ []) (put_at-Ready p a l.appenders store adopted r)
            ((adopted.0, ap (λ x. x.formatter) (put_at-same p a store) ∙ adopted.1), tt);
      listed = refl;
      added_own = λ g e. put_at-same p a store ∙ rw (e, adopt) refl;
      added_takes = λ e. put_at-same p a store ∙ adopted_lem e;
      added_others = λ q h. put_at-other p q a store h;
      stored = refl;
      set =
          All-map _ _ l.appenders
            (λ q k. elim (share_formatter-either f l.appenders store q) [
              | inl e ↦ (k.0, ap (λ x. x.formatter) e ∙ k.1)
              | inr e ↦
                  let h = shared_by-Has f k.0 (store q) k.1 in (h.0, ap (λ x. x.formatter) e ∙ h.1)
            ])
            r;
      own_kept = λ q t. elim (share_formatter-either f l.appenders store q) [
        | inl e ↦ e
        | inr e ↦ e ∙ simp t
      ];
      others_kept = λ q h. share_formatter-other f l.appenders store q h;
      shared =
          All-map _ _ l.appenders (λ q e t. e ∙ shared_by-takes f (store q) t)
            (share_formatter-each f l.appenders store);
    }
  where
    adopted_lem :
        (store p).formatter ≡ none
        → adopt l.formatter (store p).formatter (store p)
          ≡ record (store p) { formatter = some l.formatter }
    adopted_lem e = rw (e, adopt, set_shared_formatter) refl
