-- ===== src/Log/Format/Meanings.antt =====
-- What the names of a pattern of dwframe/log.cc stand for, and that the items of the code print it.
use dwframe.Base.{
  ℕ, zero, suc, ◌+◌, ◌/◌, ◌%◌, ◌<◌, ◌≤◌, ◌≡◌, refl, ap, ◌∙◌, inl, inr, Bool-cases, true, false,
  ◌&&◌, Option, none, some, List, [], ◌∷◌, ◌++◌, get_elem?, if◌then◌else◌, ltb, leb, ltb→lt, arith,
}
use dwframe.Base.Text.{Text, codes, decimal, digits, same_text}
use dwframe.Log.Level.{level_to_string}
use dwframe.Log.Format.{
  LogEvent, FormatItem, date_format, format_items, item_named, milliseconds, format_item,
}

-- A number below 1000 in three digits, and any other in as many as it has.
abbrev pub three_digits : ℕ → Text
three_digits n =
    if ltb n 1000 then (48 + n / 100) ∷ (48 + n / 10 % 10) ∷ (48 + n % 10) ∷ [] else decimal n

abbrev pub date_said : Text → Text
date_said [] = codes "%Y-%m-%d %H:%M:%S"
date_said (c ∷ fmt) = c ∷ fmt

-- The name of a level, in the order of their numbers.
abbrev pub level_said : ℕ → Text
level_said level = elim (get_elem? level_texts level) [ none ↦ codes "UNKNOW" | some t ↦ t ]
  where
    level_texts : List Text
    level_texts =
        codes "UNKNOW"
        ∷ codes "DEBUG"
        ∷ codes "INFO"
        ∷ codes "WARN"
        ∷ codes "ERROR"
        ∷ codes "FATAL"
        ∷ []

-- The text of each name, for the format in braces behind it.
abbrev pub meanings : (Text → ℕ → Text) → ℕ → LogEvent → List (Text × (Text → Text))
meanings strftime level event =
    (codes "m", λ fmt. event.content)
    ∷ (codes "p", λ fmt. level_said level)
    ∷ (codes "r", λ fmt. decimal event.elapse)
    ∷ (codes "c", λ fmt. event.logger_name)
    ∷ (codes "t", λ fmt. decimal event.threadid)
    ∷ (codes "n", λ fmt. codes "\n")
    ∷ (codes "d", λ fmt. strftime (date_said fmt) event.time)
    ∷ (codes "f", λ fmt. event.file)
    ∷ (codes "l", λ fmt. decimal event.line)
    ∷ (codes "T", λ fmt. codes "\t")
    ∷ (codes "F", λ fmt. decimal event.fiberid)
    ∷ (
      codes "D",
      λ fmt. strftime (date_said fmt) event.time ++ (codes ":" ++ three_digits event.mtime),
    )
    ∷ (codes "N", λ fmt. event.thread_name)
    ∷ []

-- The meaning of a name: the first of its entries.
abbrev pub meaning_of : Text → Text → List (Text × (Text → Text)) → Option Text
meaning_of name fmt [] = none
meaning_of name fmt ((key, say) ∷ ms) =
    let rest = meaning_of name fmt ms in if same_text key name then some (say fmt) else rest

decimal_one : (n : ℕ) (after : Text) → n < 10 → digits n n after ≡ (48 + n) ∷ after
decimal_one zero after h = refl
decimal_one (suc n) after h = let e : ltb (suc n) 10 ≡ true = ground arith in rw e

digits_one : (fuel n : ℕ) (after : Text) → n < 10 → digits fuel n after ≡ (48 + n) ∷ after
digits_one zero n after h = refl
digits_one (suc fuel) n after h = let e : ltb n 10 ≡ true = ground arith in rw e

digits_more :
    (fuel n : ℕ) (after : Text)
    → 10 ≤ n
    → digits (suc fuel) n after ≡ digits fuel (n / 10) ((48 + n % 10) ∷ after)
digits_more fuel n after h = let e : ltb n 10 ≡ false = ground arith in rw e

decimal_two : (n : ℕ) → 10 ≤ n → n < 100 → decimal n ≡ (48 + n / 10) ∷ (48 + n % 10) ∷ []
decimal_two zero h k = absurd (omega arith)
decimal_two (suc n) h k =
    digits_more n (suc n) [] h ∙ digits_one n (suc n / 10) ((48 + suc n % 10) ∷ []) (omega arith)

decimal_three :
    (n : ℕ)
    → 100 ≤ n
    → n < 1000
    → decimal n ≡ (48 + n / 100) ∷ (48 + n / 10 % 10) ∷ (48 + n % 10) ∷ []
decimal_three zero h k = absurd (omega arith)
decimal_three (suc zero) h k = absurd (omega arith)
decimal_three (suc (suc n)) h k =
    let m = suc (suc n) in
    let tail = (48 + m / 10 % 10) ∷ (48 + m % 10) ∷ [] in
    digits_more (suc n) m [] (omega arith)
    ∙ digits_more n (m / 10) ((48 + m % 10) ∷ []) (omega arith)
    ∙ digits_one n (m / 10 / 10) tail (omega arith)
    ∙ ap (λ d. (48 + d) ∷ tail) (omega arith)

milliseconds_lem : (n : ℕ) → milliseconds n ≡ codes ":" ++ three_digits n
milliseconds_lem n = elim (Bool-cases (ltb n 10)) [
  | inl t ↦
      let less = ltb→lt n 10 t in
      let small : ltb n 1000 ≡ true = ground arith in
      let tens : (ltb n 100 && leb 10 n) ≡ false = ground arith in
      let first : n / 100 ≡ 0 = omega arith in
      let second : n / 10 % 10 ≡ 0 = omega arith in
      let last : n % 10 ≡ n = omega arith in
      rw (tens, t, small, first, second, last) (ap (λ d. codes ":00" ++ d) (decimal_one n [] less))
  | inr t ↦ elim (Bool-cases (ltb n 100)) [
    | inl u ↦
        let less = ltb→lt n 100 u in
        let small : ltb n 1000 ≡ true = ground arith in
        let tens : (ltb n 100 && leb 10 n) ≡ true = ground arith in
        let first : n / 100 ≡ 0 = omega arith in
        let second : n / 10 % 10 ≡ n / 10 = omega arith in
        rw (tens, small, first, second)
          (ap (λ d. codes ":0" ++ d) (decimal_two n (ground arith) less))
    | inr u ↦ elim (Bool-cases (ltb n 1000)) [
      | inl w ↦
          let tens : (ltb n 100 && leb 10 n) ≡ false = ground arith in
          rw (tens, t, w)
            (ap (λ d. codes ":" ++ d) (decimal_three n (ground arith) (ltb→lt n 1000 w)))
      | inr w ↦ let tens : (ltb n 100 && leb 10 n) ≡ false = ground arith in rw (tens, t, w) refl
    ]
  ]
]

level_lem : (level : ℕ) → level_to_string level ≡ level_said level
level_lem zero = refl
level_lem (suc zero) = refl
level_lem (suc (suc zero)) = refl
level_lem (suc (suc (suc zero))) = refl
level_lem (suc (suc (suc (suc zero)))) = refl
level_lem (suc (suc (suc (suc (suc zero))))) = refl
level_lem (suc (suc (suc (suc (suc (suc n)))))) = ground arith

-- Entry by entry, an item of the code prints what its name stands for.
abbrev Aligned :
    (FormatItem → Text) → List (Text × (Text → FormatItem)) → List (Text × (Text → Text)) → Type 0
Aligned say [] [] = Unit {0}
Aligned say [] (m ∷ ms) = ⊥
Aligned say (i ∷ is) [] = ⊥
Aligned say (i ∷ is) (m ∷ ms) =
    (i.0 ≡ m.0) × ((fmt : Text) → say (i.1 fmt) ≡ m.1 fmt) × Aligned say is ms

Aligned-item_named :
    (say : FormatItem → Text) (is : List (Text × (Text → FormatItem)))
    (ms : List (Text × (Text → Text))) (name fmt : Text) (t : Text)
    → Aligned say is ms
    → meaning_of name fmt ms ≡ some t
    → (item : FormatItem) × (item_named name fmt is ≡ some item) × (say item ≡ t)
unfolding item_named
Aligned-item_named say [] [] name fmt t a e = absurd (cc)
Aligned-item_named say [] (m ∷ ms) name fmt t a e = absurd a
Aligned-item_named say (i ∷ is) [] name fmt t a e = absurd a
Aligned-item_named say (i ∷ is) (m ∷ ms) name fmt t a e = elim (Bool-cases (same_text i.0 name)) [
  | inl h ↦
      let there : same_text m.0 name ≡ true = rw a.0 at h in
      let text : m.1 fmt ≡ t = cc (rw there at e) in (i.1 fmt, rw h refl, a.1 fmt ∙ text)
  | inr h ↦
      let there : same_text m.0 name ≡ false = rw a.0 at h in
      let (item, p, q) = Aligned-item_named say is ms name fmt t a.2 (rw there at e) in
      (item, rw h p, q)
]

module _ (strftime : Text → ℕ → Text) (level : ℕ) (event : LogEvent) where
  date_lem : (fmt : Text) → date_format fmt ≡ date_said fmt
  date_lem [] = refl
  date_lem (c ∷ fmt) = refl

  format_items-Aligned :
      Aligned
        (λ item. format_item strftime item level event)
        format_items
        (meanings strftime level event)
  unfolding format_item
  format_items-Aligned = (
    refl,
    λ fmt. refl,
    (
      refl,
      λ fmt. level_lem level,
      (
        refl,
        λ fmt. refl,
        (
          refl,
          λ fmt. refl,
          (
            refl,
            λ fmt. refl,
            (
              refl,
              λ fmt. refl,
              (
                refl,
                λ fmt. ap (λ d. strftime d event.time) (date_lem fmt),
                (
                  refl,
                  λ fmt. refl,
                  (
                    refl,
                    λ fmt. refl,
                    (
                      refl,
                      λ fmt. refl,
                      (
                        refl,
                        λ fmt. refl,
                        (
                          refl,
                          λ fmt.
                              ap (λ d. strftime d event.time ++ milliseconds event.mtime)
                                (date_lem fmt)
                              ∙ ap (λ t. strftime (date_said fmt) event.time ++ t)
                                  (milliseconds_lem event.mtime),
                          (refl, λ fmt. refl, tt),
                        ),
                      ),
                    ),
                  ),
                ),
              ),
            ),
          ),
        ),
      ),
    ),
  )

  pub meaning-item :
      (name fmt t : Text)
      → meaning_of name fmt (meanings strftime level event) ≡ some t
      → (item : FormatItem) × (item_named name fmt format_items ≡ some item)
        × (format_item strftime item level event ≡ t)
  meaning-item name fmt t e =
      Aligned-item_named (λ item. format_item strftime item level event) format_items
        (meanings strftime level event) name fmt t format_items-Aligned e
