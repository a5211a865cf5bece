-- ===== src/Log/Pattern/Fuel.antt =====
-- The fuel of the loop of `LogFormatter::init` in dwframe/log.cc.
use dwframe.Base.{
  ℕ, zero, suc, ◌≤◌, ◌<◌, ◌≡◌, refl, inl, inr, Bool-cases, Bool, true, false, [], ◌∷◌, ◌++◌,
  if◌then◌else◌, ◌==◌, length, arith,
}
use dwframe.Base.Text.{Text, codes}
use dwframe.Log.Pattern.{stops, Scan, scanned, unclosed, scan_format, scan_name, split_loop}

-- What is left after a scan is no longer than `n`.
abbrev Within : ℕ → Scan → Type 0
Within n (scanned name fmt rest) = length rest ≤ n
Within n unclosed = Unit

if-Within :
    (n : ℕ) (b : Bool) (x y : Scan) → Within n x → Within n y → Within n (if b then x else y)
if-Within n true x y p q = p
if-Within n false x y p q = q

more-Within : (m n : ℕ) (x : Scan) → m ≤ n → Within m x → Within n x
more-Within m n (scanned name fmt rest) h p = omega arith
more-Within m n unclosed h p = tt

scan_format-Within : (name fmt s : Text) → Within (length s) (scan_format name fmt s)
unfolding scan_format
scan_format-Within name fmt [] = tt
scan_format-Within name fmt (c ∷ s) =
    let more =
      more-Within (length s) (length (c ∷ s)) _ (omega arith)
        (scan_format-Within name (fmt ++ (c ∷ [])) s) in
    let end : length s ≤ length (c ∷ s) = omega arith in
    if-Within (length (c ∷ s)) (c == b'}') _ _ end more

scan_name-Within : (name s : Text) → Within (length s) (scan_name name s)
unfolding scan_name
scan_name-Within name [] = omega arith
scan_name-Within name (c ∷ s) =
    let next : length s ≤ length (c ∷ s) = omega arith in
    let here : length (c ∷ s) ≤ length (c ∷ s) = omega arith in
    let more =
      more-Within (length s) (length (c ∷ s)) _ next (scan_name-Within (name ++ (c ∷ [])) s) in
    let braces = more-Within (length s) (length (c ∷ s)) _ next (scan_format-Within name [] s) in
    if-Within (length (c ∷ s)) (stops c) _ _ here
      (if-Within (length (c ∷ s)) (c == b'{') _ _ braces more)

-- The loop over a pattern gives the same result with any fuel above the length of the pattern.
pub split_loop-enough :
    (j k : ℕ) (nstr pattern : Text)
    → length pattern < j
    → length pattern < k
    → split_loop j nstr pattern ≡ split_loop k nstr pattern
unfolding split_loop
split_loop-enough zero k nstr pattern a b = absurd (omega arith)
split_loop-enough (suc j) zero nstr pattern a b = absurd (omega arith)
split_loop-enough (suc j) (suc k) nstr [] a b = refl
split_loop-enough (suc j) (suc k) nstr (c ∷ []) a b = elim (Bool-cases (c == b'%')) [
  | inl e ↦ rw e
  | inr e ↦ rw e (split_loop-enough j k (nstr ++ (c ∷ [])) [] (omega arith) (omega arith))
]
split_loop-enough (suc j) (suc k) nstr (c ∷ d ∷ t) a b = elim (Bool-cases (c == b'%')) [
  | inr e ↦ rw e (split_loop-enough j k (nstr ++ (c ∷ [])) (d ∷ t) (omega arith) (omega arith))
  | inl e ↦ elim (Bool-cases (d == b'%')) [
    | inl g ↦ rw (e, g) (split_loop-enough j k (nstr ++ codes "%") t (omega arith) (omega arith))
    | inr g ↦
        let same : c ≡ b'%' = ground arith in
        rw same (
          go g (λ l m. split_loop-enough j k nstr (d ∷ t) l m)
            (λ rest l m. split_loop-enough j k [] rest l m) (scan_name [] (d ∷ t)) refl
            (scan_name-Within [] (d ∷ t)))
  ]
]
  where
    go :
        (d == b'%') ≡ false
        → (length (d ∷ t) < j
            → length (d ∷ t) < k
            → split_loop j nstr (d ∷ t) ≡ split_loop k nstr (d ∷ t))
        → ((rest : Text)
            → length rest < j
            → length rest < k
            → split_loop j [] rest ≡ split_loop k [] rest)
        → (s : Scan) → scan_name [] (d ∷ t) ≡ s
        → Within (length (d ∷ t)) s
        → split_loop (suc j) nstr (b'%' ∷ d ∷ t) ≡ split_loop (suc k) nstr (b'%' ∷ d ∷ t)
    go g again after (scanned name fmt rest) e w = rw (g, e, after rest (omega arith) (omega arith))
    go g again after unclosed e w = rw (g, e, again (omega arith) (omega arith))
