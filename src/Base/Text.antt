-- ===== src/Base/Text.antt =====
-- Texts as lists of bytes: literals, prefixes, case, order and decimal numerals, as the C and C++
-- libraries have them.
use Prim.Native.Char.{code}
use Prim.Native.String.{String}
use Prim.Native.Nat.{ℕ, zero, suc, ◌+◌, ◌/◌, ◌%◌}
use mathlib.Core.Path.{◌≡◌, refl}
use mathlib.Core.Logic.{◌≢◌, inl, inr}
use mathlib.Core.Bool.{Bool, true, false, ◌&&◌}
use mathlib.Core.List.{List, [], ◌∷◌, ◌++◌, map}
use native.Mathlib.Omega.{arith}
use dwframe.Base.Tests.{ltb, leb, ◌==◌, if◌then◌else◌, ==_refl, Bool-cases}

abbrev pub Text : Type 0
Text = List ℕ

-- The bytes of a literal.
abbrev pub codes : String → Text
codes String.[] = []
codes (String.◌∷◌ c s) = code c ∷ codes s

-- `==` of two texts, and `strcmp(...) == 0` on texts without a 0.
abbrev pub same_text : Text → Text → Bool
same_text [] [] = true
same_text [] (y ∷ v) = false
same_text (x ∷ u) [] = false
same_text (x ∷ u) (y ∷ v) = x == y && same_text u v

-- `strncmp(prefix, text, strlen(prefix)) == 0`.
abbrev pub starts_with : Text → Text → Bool
starts_with [] text = true
starts_with (x ∷ u) [] = false
starts_with (x ∷ u) (y ∷ v) = x == y && starts_with u v

-- `c_str()`: the bytes up to the first 0.
abbrev pub c_str : Text → Text
c_str [] = []
c_str (zero ∷ s) = []
c_str (suc c ∷ s) = suc c ∷ c_str s

-- `tolower`, in the C locale.
abbrev pub to_lower : ℕ → ℕ
to_lower c = if leb 65 c && leb c 90 then c + 32 else c

-- What `strcasecmp` compares of a text.
abbrev pub fold_case : Text → Text
fold_case s = map to_lower (c_str s)

-- `strcmp(a, b) < 0`.
abbrev pub text_less : Text → Text → Bool
text_less u [] = false
text_less [] (y ∷ v) = true
text_less (x ∷ u) (y ∷ v) =
    let rest = text_less u v in if ltb x y then true else if ltb y x then false else rest

-- The decimal digits of `n` before `after`; `n` is enough fuel.
abbrev pub digits : ℕ → ℕ → Text → Text
digits zero n after = (48 + n) ∷ after
digits (suc fuel) n after =
    let more = digits fuel (n / 10) ((48 + n % 10) ∷ after) in
    if ltb n 10 then (48 + n) ∷ after else more

-- A number as `operator<<` prints it.
abbrev pub decimal : ℕ → Text
decimal n = digits n n []

pub same_text_refl : (u : Text) → same_text u u ≡ true
same_text_refl [] = refl
same_text_refl (x ∷ u) = rw (==_refl x, same_text_refl u)

==→≡ : (a b : ℕ) → (a == b) ≡ true → a ≡ b
==→≡ a b h = ground arith

pub and_true : (a b : Bool) → (a && b) ≡ true → (a ≡ true) × (b ≡ true)
and_true true b h = (refl, h)
and_true false b h = absurd (cc)

pub same_text→≡ : (u v : Text) → same_text u v ≡ true → u ≡ v
same_text→≡ [] [] h = refl
same_text→≡ [] (y ∷ v) h = absurd (cc)
same_text→≡ (x ∷ u) [] h = absurd (cc)
same_text→≡ (x ∷ u) (y ∷ v) h =
    let (p, q) = and_true (x == y) (same_text u v) h in
    let head = ==→≡ x y p in let tail = same_text→≡ u v q in cc

pub same_text_other : (u v : Text) → u ≢ v → same_text u v ≡ false
same_text_other u v h = elim (Bool-cases (same_text u v)) [
  | inl t ↦ absurd (h (same_text→≡ u v t))
  | inr t ↦ t
]

starts_with-append : (u v : Text) → starts_with u (u ++ v) ≡ true
starts_with-append [] v = refl
starts_with-append (x ∷ u) v = rw (==_refl x, starts_with-append u v)

pub text_less_irrefl : (u : Text) → text_less u u ≡ false
text_less_irrefl [] = refl
text_less_irrefl (x ∷ u) = ground (arith, text_less_irrefl u)

pub text_less_trans :
    (u v w : Text) → text_less u v ≡ true → text_less v w ≡ true → text_less u w ≡ true
text_less_trans u v [] p q = absurd (cc)
text_less_trans u [] (z ∷ w) p q = absurd (cc)
text_less_trans [] (y ∷ v) (z ∷ w) p q = refl
text_less_trans (x ∷ u) (y ∷ v) (z ∷ w) p q = ground (arith, text_less_trans u v w)

-- How two texts stand in the order.
pub data Placed (u v : Text) : Type 0 where
  before : text_less u v ≡ true → text_less v u ≡ false → Placed u v
  same : u ≡ v → Placed u v
  after : text_less u v ≡ false → text_less v u ≡ true → Placed u v

pub place : (u v : Text) → Placed u v
place [] [] = same refl
place [] (y ∷ v) = before refl refl
place (x ∷ u) [] = after refl refl
place (x ∷ u) (y ∷ v) = elim (Bool-cases (ltb x y)) [
  | inl t ↦ before (ground arith) (ground arith)
  | inr t ↦ elim (Bool-cases (ltb y x)) [
    | inl r ↦ after (ground arith) (ground arith)
    | inr r ↦
        let e : x ≡ y = ground arith in
        elim (place u v) [
          | before p q ↦ before (ground arith) (ground arith)
          | after p q ↦ after (ground arith) (ground arith)
          | same p ↦ same (cc)
        ]
  ]
]
