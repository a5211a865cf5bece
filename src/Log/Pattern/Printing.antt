-- ===== src/Log/Pattern/Printing.antt =====
-- Patterns for `LogFormatter::init` of dwframe/log.cc, as one would write them down.
use dwframe.Base.{
  ℕ, zero, suc, ◌<◌, ◌≡◌, refl, sym, ap, ◌∙◌, inl, inr, Bool-cases, Bool, true, false, not, ◌&&◌,
  List, [], ◌∷◌, ◌++◌, append_assoc, append-nil, if◌then◌else◌, ◌==◌, length, arith, length-append,
}
use dwframe.Base.Text.{Text, codes, and_true}
use dwframe.Log.Pattern.{
  Segment, text, directive, is_alpha, stops, scanned, scan_format, scan_name, flush, split_loop,
  split_pattern,
}

-- Text that stands for itself, a name with its format in braces, and a name without any.
pub data Piece : Type 0 where
  plain bare : Text → Piece
  braced : Text → Text → Piece

-- The text with each percent sign twice.
abbrev pub escape : Text → Text
escape [] = []
escape (c ∷ s) = if c == b'%' then b'%' ∷ b'%' ∷ escape s else c ∷ escape s

abbrev pub print : List Piece → Text
print [] = []
print (plain t ∷ ps) = escape t ++ print ps
print (bare name ∷ ps) = b'%' ∷ (name ++ print ps)
print (braced name fmt ∷ ps) = b'%' ∷ (name ++ (b'{' ∷ (fmt ++ (b'}' ∷ print ps))))

abbrev pub segments : List Piece → List Segment
segments [] = []
segments (plain t ∷ ps) = text t ∷ segments ps
segments (bare name ∷ ps) = directive name [] ∷ segments ps
segments (braced name fmt ∷ ps) = directive name fmt ∷ segments ps

abbrev pub all_alpha : Text → Bool
all_alpha [] = true
all_alpha (c ∷ s) = is_alpha c && all_alpha s

abbrev pub no_brace : Text → Bool
no_brace [] = true
no_brace (c ∷ s) = not (c == b'}') && no_brace s

-- Whether a name without a format ends in front of this text.
abbrev pub ends_name : Text → Bool
ends_name [] = true
ends_name (c ∷ s) = stops c

abbrev pub not_empty : Text → Bool
not_empty [] = false
not_empty (c ∷ s) = true

abbrev pub not_plain : List Piece → Bool
not_plain (plain t ∷ ps) = false
not_plain ps = true

-- Texts are not empty, and none follows another; names are of letters; a name without a format is not
-- empty and ends where the text goes on; a format has no closing brace.
abbrev pub printable : List Piece → Bool
printable [] = true
printable (plain t ∷ ps) = (not_empty t && not_plain ps) && printable ps
printable (bare name ∷ ps) =
    ((not_empty name && all_alpha name) && ends_name (print ps)) && printable ps
printable (braced name fmt ∷ ps) = (all_alpha name && no_brace fmt) && printable ps

scan_format-closed :
    (name acc fmt rest : Text)
    → no_brace fmt ≡ true
    → scan_format name acc (fmt ++ (b'}' ∷ rest)) ≡ scanned name (acc ++ fmt) rest
unfolding scan_format
scan_format-closed name acc [] rest h = ap (λ f. scanned name f rest) (sym (append-nil acc))
scan_format-closed name acc (c ∷ fmt) rest h =
    let (p, q) = and_true (not (c == b'}')) (no_brace fmt) h in
    let other : (c == b'}') ≡ false = ground arith in
    rw (other, scan_format)
      (scan_format-closed name (acc ++ (c ∷ [])) fmt rest q
        ∙ ap (λ f. scanned name f rest) (append_assoc acc (c ∷ []) fmt))

scan_name-alpha :
    (acc name rest : Text)
    → all_alpha name ≡ true
    → scan_name acc (name ++ rest) ≡ scan_name (acc ++ name) rest
unfolding scan_name
scan_name-alpha acc [] rest h = ap (λ n. scan_name n rest) (sym (append-nil acc))
scan_name-alpha acc (c ∷ name) rest h =
    let (p, q) = and_true (is_alpha c) (all_alpha name) h in
    let goes : stops c ≡ false = ground arith in
    let other : (c == b'{') ≡ false = ground arith in
    rw (goes, other, scan_name)
      (scan_name-alpha (acc ++ (c ∷ [])) name rest q
        ∙ ap (λ n. scan_name n rest) (append_assoc acc (c ∷ []) name))

scan_name-ends :
    (acc rest : Text) → ends_name rest ≡ true → scan_name acc rest ≡ scanned acc [] rest
unfolding scan_name
scan_name-ends acc [] h = refl
scan_name-ends acc (c ∷ s) h = rw (h, scan_name)

scan_name-braced :
    (name fmt rest : Text)
    → all_alpha name ≡ true
    → no_brace fmt ≡ true
    → scan_name [] (name ++ (b'{' ∷ (fmt ++ (b'}' ∷ rest)))) ≡ scanned name fmt rest
unfolding scan_name
scan_name-braced name fmt rest x y =
    scan_name-alpha [] name (b'{' ∷ (fmt ++ (b'}' ∷ rest))) x
    ∙ scan_format-closed name [] fmt rest y

directive_step :
    (fuel d : ℕ) (nstr t name fmt rest : Text) (tail : List Segment)
    → (d == b'%') ≡ false
    → scan_name [] (d ∷ t) ≡ scanned name fmt rest
    → split_loop fuel [] rest ≡ (tail, false)
    → split_loop (suc fuel) nstr (b'%' ∷ d ∷ t) ≡ (flush nstr (directive name fmt ∷ tail), false)
unfolding split_loop
directive_step fuel d nstr t name fmt rest tail e f g = rw (e, f, g)

plain_step :
    (fuel c : ℕ) (nstr s : Text)
    → (c == b'%') ≡ false
    → split_loop (suc fuel) nstr (c ∷ s) ≡ split_loop fuel (nstr ++ (c ∷ [])) s
unfolding split_loop
plain_step fuel c nstr s e = rw e

-- The entries that the loop makes, with `nstr` in front of them.
abbrev joined : Text → List Piece → List Segment
joined nstr (plain t ∷ ps) = flush (nstr ++ t) (segments ps)
joined nstr [] = flush nstr []
joined nstr (bare name ∷ ps) = flush nstr (segments (bare name ∷ ps))
joined nstr (braced name fmt ∷ ps) = flush nstr (segments (braced name fmt ∷ ps))

joined-segments : (ps : List Piece) → printable ps ≡ true → joined [] ps ≡ segments ps
joined-segments [] h = refl
joined-segments (plain [] ∷ ps) h = absurd (cc)
joined-segments (plain (c ∷ t) ∷ ps) h = refl
joined-segments (bare name ∷ ps) h = refl
joined-segments (braced name fmt ∷ ps) h = refl

joined-not_plain :
    (nstr : Text) (ps : List Piece)
    → not_plain ps ≡ true
    → joined nstr ps ≡ flush nstr (segments ps)
joined-not_plain nstr [] h = refl
joined-not_plain nstr (plain t ∷ ps) h = absurd (cc)
joined-not_plain nstr (bare name ∷ ps) h = refl
joined-not_plain nstr (braced name fmt ∷ ps) h = refl

percent_step :
    (fuel : ℕ) (nstr s : Text)
    → split_loop (suc fuel) nstr (b'%' ∷ b'%' ∷ s) ≡ split_loop fuel (nstr ++ codes "%") s
unfolding split_loop
percent_step fuel nstr s = refl

-- The loop on a text, where it is known on what follows it.
split_loop-escape :
    (rest t nstr : Text) (fuel : ℕ) (tail : Text → List Segment)
    → length (escape t ++ rest) < fuel
    → ((k : ℕ) (n : Text) → length rest < k → split_loop k n rest ≡ (tail n, false))
    → split_loop fuel nstr (escape t ++ rest) ≡ (tail (nstr ++ t), false)
split_loop-escape rest [] nstr fuel tail l h = rw (append-nil nstr) (h fuel nstr l)
split_loop-escape rest (c ∷ t) nstr zero tail l h = absurd (omega arith)
split_loop-escape rest (c ∷ t) nstr (suc fuel) tail l h = elim (Bool-cases (c == b'%')) [
  | inl e ↦
      let same : c ≡ b'%' = ground arith in
      let shorter : length (b'%' ∷ b'%' ∷ (escape t ++ rest)) < suc fuel = rw e at l in
      rw (e, escape)
        (percent_step fuel nstr (escape t ++ rest)
          ∙ split_loop-escape rest t (nstr ++ codes "%") fuel tail (omega arith) h
          ∙ ap (λ n. (tail n, false)) (append_assoc nstr (codes "%") t)
          ∙ ap (λ d. (tail (nstr ++ (d ∷ t)), false)) (sym same))
  | inr e ↦
      let shorter : length (c ∷ (escape t ++ rest)) < suc fuel = rw e at l in
      rw (e, escape)
        (plain_step fuel c nstr (escape t ++ rest) e
          ∙ split_loop-escape rest t (nstr ++ (c ∷ [])) fuel tail (omega arith) h
          ∙ ap (λ n. (tail n, false)) (append_assoc nstr (c ∷ []) t))
]

split_loop-print :
    (ps : List Piece) (nstr : Text) (fuel : ℕ)
    → length (print ps) < fuel
    → printable ps ≡ true
    → split_loop fuel nstr (print ps) ≡ (joined nstr ps, false)
unfolding split_loop
split_loop-print ps nstr zero l h = absurd (omega arith)
split_loop-print [] nstr (suc fuel) l h = refl
split_loop-print (plain t ∷ ps) nstr (suc fuel) l h =
    let (p, q) = and_true (not_empty t && not_plain ps) (printable ps) h in
    let (x, y) = and_true (not_empty t) (not_plain ps) p in
    split_loop-escape (print ps) t nstr (suc fuel) (λ n. flush n (segments ps)) l
      (λ k n m. split_loop-print ps n k m q ∙ ap (λ z. (z, false)) (joined-not_plain n ps y))
split_loop-print (bare [] ∷ ps) nstr (suc fuel) l h = absurd (cc)
split_loop-print (bare (d ∷ name) ∷ ps) nstr (suc fuel) l h =
    let (p, q) = and_true (all_alpha (d ∷ name) && ends_name (print ps)) (printable ps) h in
    let (x, y) = and_true (all_alpha (d ∷ name)) (ends_name (print ps)) p in
    let (alpha, others) = and_true (is_alpha d) (all_alpha name) x in
    let letter : (d == b'%') ≡ false = ground arith in
    directive_step fuel d nstr (name ++ print ps) (d ∷ name) [] (print ps) (segments ps) letter
      (scan_name-alpha [] (d ∷ name) (print ps) x ∙ scan_name-ends (d ∷ name) (print ps) y)
      (split_loop-print ps [] fuel (omega (arith, length-append name (print ps))) q
        ∙ ap (λ z. (z, false)) (joined-segments ps q))
split_loop-print (braced [] fmt ∷ ps) nstr (suc fuel) l h =
    let (p, q) = and_true (no_brace fmt) (printable ps) h in
    directive_step fuel b'{' nstr (fmt ++ (b'}' ∷ print ps)) [] fmt (print ps) (segments ps) refl
      (scan_name-braced [] fmt (print ps) refl p)
      (split_loop-print ps [] fuel (omega (arith, length-append fmt (b'}' ∷ print ps))) q
        ∙ ap (λ z. (z, false)) (joined-segments ps q))
split_loop-print (braced (d ∷ name) fmt ∷ ps) nstr (suc fuel) l h =
    let (p, q) = and_true (all_alpha (d ∷ name) && no_brace fmt) (printable ps) h in
    let (x, y) = and_true (all_alpha (d ∷ name)) (no_brace fmt) p in
    let (alpha, others) = and_true (is_alpha d) (all_alpha name) x in
    let letter : (d == b'%') ≡ false = ground arith in
    let rest = b'{' ∷ (fmt ++ (b'}' ∷ print ps)) in
    directive_step fuel d nstr (name ++ rest) (d ∷ name) fmt (print ps) (segments ps) letter
      (scan_name-braced (d ∷ name) fmt (print ps) x y)
      (split_loop-print ps [] fuel
          (omega (arith, length-append name rest, length-append fmt (b'}' ∷ print ps))) q
        ∙ ap (λ z. (z, false)) (joined-segments ps q))

-- A pattern written from pieces, text with its percent signs doubled, names of letters and names
-- with a format in braces, is taken apart into these pieces without an error, if texts are neither
-- empty nor follow one another, a name without a format is not empty and ends where the pattern
-- goes on, and a format has no closing brace.
pub split_pattern-print :
    (ps : List Piece) → printable ps ≡ true → split_pattern (print ps) ≡ (segments ps, false)
unfolding split_pattern
split_pattern-print ps h =
    split_loop-print ps [] (suc (length (print ps))) (omega arith) h
    ∙ ap (λ z. (z, false)) (joined-segments ps h)
