-- ===== src/Http/Dump/Lines.antt =====
-- A reader of lines, which knows nothing of the code that writes them.
use dwframe.Base.{
  ℕ, ◌+◌, ◌≡◌, refl, sym, ap, ◌∙◌, Bool, true, false, not, ◌&&◌, Option, none, some, List, [], ◌∷◌,
  ◌++◌, append_assoc, append-nil, if◌then◌else◌, ◌==◌, zero, suc, ◌/◌, ◌%◌, ltb, arith, inl, inr,
  Bool-cases,
}
use dwframe.Base.Text.{Text, digits, decimal, and_true}
use dwframe.Http.Dump.{crlf}

-- The text has no CR.
abbrev pub clean : Text → Bool
clean [] = true
clean (c ∷ s) = not (c == 13) && clean s

abbrev pub with_line : Text → Option (List Text × Text) → Option (List Text × Text)
with_line line none = none
with_line line (some (lines, rest)) = some (line ∷ lines, rest)

-- Reads lines up to an empty one: the lines, and what follows the empty one. `line` is what it has of
-- the line it is in, and `cr` whether a CR came after that.
unfoldable pub read_head : Bool → Text → Text → Option (List Text × Text)
read_head cr line [] = none
read_head cr line (c ∷ s) =
    let before = if cr then line ++ (13 ∷ []) else line in
    elim (c == 13) [
      | true ↦ read_head true before s
      | false ↦ elim (cr && c == 10) [
        | false ↦ read_head false (before ++ (c ∷ [])) s
        | true ↦ elim line [
          | [] ↦ some ([], s)
          | b ∷ bs ↦ with_line (b ∷ bs) (read_head false [] s)
        ]
      ]
    ]

-- Each line with its end.
abbrev pub ended : List Text → Text
ended [] = []
ended (l ∷ ls) = l ++ (crlf ++ ended ls)

negated : (a : Bool) → not a ≡ true → a ≡ false
negated true h = absurd (cc)
negated false h = refl

read_head-line :
    (b : ℕ) (line l rest : Text)
    → clean l ≡ true
    → read_head false (b ∷ line) (l ++ (crlf ++ rest))
      ≡ with_line (b ∷ (line ++ l)) (read_head false [] rest)
unfolding read_head
read_head-line b line [] rest c =
    ap (λ l. with_line (b ∷ l) (read_head false [] rest)) (sym (append-nil line))
read_head-line b line (x ∷ l) rest c =
    let (p, q) = and_true (not (x == 13)) (clean l) c in
    rw (negated (x == 13) p, read_head)
      (read_head-line b (line ++ (x ∷ [])) l rest q
        ∙ ap (λ l. with_line (b ∷ l) (read_head false [] rest)) (append_assoc line (x ∷ []) l))

-- A line that is not empty is read whole.
read_head-ended :
    (x : ℕ) (l rest : Text)
    → clean (x ∷ l) ≡ true
    → read_head false [] ((x ∷ l) ++ (crlf ++ rest)) ≡ with_line (x ∷ l) (read_head false [] rest)
unfolding read_head
read_head-ended x l rest c =
    let (p, q) = and_true (not (x == 13)) (clean l) c in
    rw (negated (x == 13) p, read_head) (read_head-line x [] l rest q)

-- The line has no CR and is not empty.
abbrev pub is_line : Text → Bool
is_line [] = false
is_line (x ∷ l) = clean (x ∷ l)

abbrev pub are_lines : List Text → Bool
are_lines [] = true
are_lines (l ∷ ls) = is_line l && are_lines ls

pub read_head-lines :
    (ls : List Text) (body : Text)
    → are_lines ls ≡ true
    → read_head false [] (ended ls ++ (crlf ++ body)) ≡ some (ls, body)
unfolding read_head
read_head-lines [] body h = refl
read_head-lines ([] ∷ ls) body h = absurd (cc)
read_head-lines ((x ∷ l) ∷ ls) body h =
    let (p, q) = and_true (clean (x ∷ l)) (are_lines ls) h in
    let shape : ((x ∷ l) ++ (crlf ++ ended ls)) ++ (crlf ++ body)
        ≡ (x ∷ l) ++ (crlf ++ (ended ls ++ (crlf ++ body))) =
      append_assoc (x ∷ l) (crlf ++ ended ls) (crlf ++ body) in
    rw (shape, read_head-ended x l (ended ls ++ (crlf ++ body)) p, read_head-lines ls body q)

pub ended-append : (ls ms : List Text) → ended (ls ++ ms) ≡ ended ls ++ ended ms
ended-append [] ms = refl
ended-append (l ∷ ls) ms =
    ap (λ t. l ++ (crlf ++ t)) (ended-append ls ms)
    ∙ sym (append_assoc l (crlf ++ ended ls) (ended ms))

pub are_lines-append :
    (ls ms : List Text) → are_lines ls ≡ true → are_lines ms ≡ true → are_lines (ls ++ ms) ≡ true
are_lines-append [] ms p q = q
are_lines-append (l ∷ ls) ms p q =
    let (x, y) = and_true (is_line l) (are_lines ls) p in rw (x, are_lines-append ls ms y q)

pub clean-append : (s t : Text) → clean s ≡ true → clean t ≡ true → clean (s ++ t) ≡ true
clean-append [] t p q = q
clean-append (c ∷ s) t p q =
    let (x, y) = and_true (not (c == 13)) (clean s) p in rw (x, clean-append s t y q)

-- A line with a text after it.
pub is_line-append : (s t : Text) → is_line s ≡ true → clean t ≡ true → is_line (s ++ t) ≡ true
is_line-append [] t p q = absurd (cc)
is_line-append (c ∷ s) t p q = clean-append (c ∷ s) t p q

digit : (n : ℕ) → not (48 + n == 13) ≡ true
digit n = ground arith

clean-digits : (fuel n : ℕ) (after : Text) → clean after ≡ true → clean (digits fuel n after) ≡ true
clean-digits zero n after h = rw (digit n) h
clean-digits (suc fuel) n after h = elim (Bool-cases (ltb n 10)) [
  | inl t ↦ rw (t, digit n) h
  | inr t ↦ rw t (clean-digits fuel (n / 10) ((48 + n % 10) ∷ after) (rw (digit (n % 10)) h))
]

pub clean-decimal : (n : ℕ) → clean (decimal n) ≡ true
clean-decimal n = clean-digits n n [] refl
