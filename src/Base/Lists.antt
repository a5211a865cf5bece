-- ===== src/Base/Lists.antt =====
-- Lists under native indices: the library's names over the native numbers, and writes into a list.
use Prim.Native.Nat.{ℕ, zero, suc, ◌+◌, ◌-◌, ◌≤◌, ◌<◌, min, max}
use mathlib.Core.Path.{◌≡◌, refl, ap, ◌∙◌, sym}
use mathlib.Core.Option.{Option, none, some}
use mathlib.Core.List.{List, [], ◌∷◌, ◌++◌, flatten, append-nil, append_assoc}
use native.Mathlib.Omega.{arith}

module _ {ℓ} {A : Type ℓ} where
  abbrev pub length : List A → ℕ
  length [] = 0
  length (x ∷ xs) = suc (length xs)

  abbrev pub All {κ} : (A → Type κ) → List A → Type κ
  All P [] = Unit {κ}
  All P (x ∷ xs) = P x × All P xs

  abbrev pub get_elem? : List A → ℕ → Option A
  get_elem? [] i = none
  get_elem? (x ∷ xs) zero = some x
  get_elem? (x ∷ xs) (suc i) = get_elem? xs i

  abbrev pub set : List A → ℕ → A → List A
  set [] i v = []
  set (x ∷ xs) zero v = v ∷ xs
  set (x ∷ xs) (suc i) v = x ∷ set xs i v

  abbrev pub take : ℕ → List A → List A
  take zero xs = []
  take (suc n) [] = []
  take (suc n) (x ∷ xs) = x ∷ take n xs

  abbrev pub drop : ℕ → List A → List A
  drop zero xs = xs
  drop (suc n) [] = []
  drop (suc n) (x ∷ xs) = drop n xs

  abbrev pub replicate : ℕ → A → List A
  replicate zero a = []
  replicate (suc n) a = a ∷ replicate n a

  -- `memcpy(xs + i, src, length src)`.
  abbrev pub overwrite : ℕ → List A → List A → List A
  overwrite zero src xs = src ++ drop (length src) xs
  overwrite (suc i) src [] = []
  overwrite (suc i) src (x ∷ xs) = x ∷ overwrite i src xs

  pub length-append : (xs ys : List A) → length (xs ++ ys) ≡ length xs + length ys
  length-append [] ys = omega arith
  length-append (x ∷ xs) ys = omega (arith, length-append xs ys)

  pub length-take : (n : ℕ) (xs : List A) → length (take n xs) ≡ min n (length xs)
  length-take zero xs = omega arith
  length-take (suc n) [] = omega arith
  length-take (suc n) (x ∷ xs) = omega (arith, length-take n xs)

  pub length-drop : (n : ℕ) (xs : List A) → length (drop n xs) ≡ length xs - n
  length-drop zero xs = omega arith
  length-drop (suc n) [] = omega arith
  length-drop (suc n) (x ∷ xs) = omega (arith, length-drop n xs)

  pub length-replicate : (n : ℕ) (a : A) → length (replicate n a) ≡ n
  length-replicate zero a = refl
  length-replicate (suc n) a = ap suc (length-replicate n a)

  pub length-set : (xs : List A) (i : ℕ) (v : A) → length (set xs i v) ≡ length xs
  length-set [] i v = refl
  length-set (x ∷ xs) zero v = refl
  length-set (x ∷ xs) (suc i) v = ap suc (length-set xs i v)

  pub get_elem?-set_self :
      (xs : List A) (i : ℕ) (v : A) → i < length xs → get_elem? (set xs i v) i ≡ some v
  get_elem?-set_self [] i v h = absurd (omega arith)
  get_elem?-set_self (x ∷ xs) zero v h = refl
  get_elem?-set_self (x ∷ xs) (suc i) v h = get_elem?-set_self xs i v (omega arith)

  pub length-overwrite :
      (i : ℕ) (src xs : List A)
      → i + length src ≤ length xs
      → length (overwrite i src xs) ≡ length xs
  length-overwrite zero src xs h =
      omega (arith, length-append src (drop (length src) xs), length-drop (length src) xs)
  length-overwrite (suc i) src [] h = refl
  length-overwrite (suc i) src (x ∷ xs) h = ap suc (length-overwrite i src xs (omega arith))

  pub take-append-drop : (n : ℕ) (xs : List A) → take n xs ++ drop n xs ≡ xs
  take-append-drop zero xs = refl
  take-append-drop (suc n) [] = refl
  take-append-drop (suc n) (x ∷ xs) = ap (◌∷◌ x) (take-append-drop n xs)

  pub take-append_le : (n : ℕ) (xs ys : List A) → n ≤ length xs → take n (xs ++ ys) ≡ take n xs
  take-append_le zero xs ys h = refl
  take-append_le (suc n) [] ys h = absurd (omega arith)
  take-append_le (suc n) (x ∷ xs) ys h = ap (◌∷◌ x) (take-append_le n xs ys (omega arith))

  pub take-append :
      (n : ℕ) (xs ys : List A) → length xs ≤ n → take n (xs ++ ys) ≡ xs ++ take (n - length xs) ys
  take-append n [] ys h = ap (λ k. take k ys) (omega arith)
  take-append zero (x ∷ xs) ys h = absurd (omega arith)
  take-append (suc n) (x ∷ xs) ys h =
      ap (◌∷◌ x) (take-append n xs ys (omega arith) ∙ ap (λ k. xs ++ take k ys) (omega arith))

  pub drop-append_le :
      (n : ℕ) (xs ys : List A) → n ≤ length xs → drop n (xs ++ ys) ≡ drop n xs ++ ys
  drop-append_le zero xs ys h = refl
  drop-append_le (suc n) [] ys h = absurd (omega arith)
  drop-append_le (suc n) (x ∷ xs) ys h = drop-append_le n xs ys (omega arith)

  pub drop-append : (n k : ℕ) (xs ys : List A) → n ≡ length xs + k → drop n (xs ++ ys) ≡ drop k ys
  drop-append n k [] ys h = ap (λ j. drop j ys) (omega arith)
  drop-append zero k (x ∷ xs) ys h = absurd (omega arith)
  drop-append (suc n) k (x ∷ xs) ys h = drop-append n k xs ys (omega arith)

  pub take_all : (n : ℕ) (xs : List A) → length xs ≤ n → take n xs ≡ xs
  take_all zero [] h = refl
  take_all zero (x ∷ xs) h = absurd (omega arith)
  take_all (suc n) [] h = refl
  take_all (suc n) (x ∷ xs) h = ap (◌∷◌ x) (take_all n xs (omega arith))

  pub drop_all : (n : ℕ) (xs : List A) → length xs ≤ n → drop n xs ≡ []
  drop_all zero [] h = refl
  drop_all zero (x ∷ xs) h = absurd (omega arith)
  drop_all (suc n) [] h = refl
  drop_all (suc n) (x ∷ xs) h = drop_all n xs (omega arith)

  pub drop-drop : (m n k : ℕ) (xs : List A) → k ≡ n + m → drop m (drop n xs) ≡ drop k xs
  drop-drop m zero k xs h = ap (λ j. drop j xs) (omega arith)
  drop-drop zero (suc n) zero xs h = absurd (omega arith)
  drop-drop zero (suc n) (suc k) [] h = refl
  drop-drop zero (suc n) (suc k) (x ∷ xs) h = drop-drop zero n k xs (omega arith)
  drop-drop (suc m) (suc n) zero xs h = absurd (omega arith)
  drop-drop (suc m) (suc n) (suc k) [] h = refl
  drop-drop (suc m) (suc n) (suc k) (x ∷ xs) h = drop-drop (suc m) n k xs (omega arith)

  pub take-take : (m n : ℕ) (xs : List A) → m ≤ n → take m (take n xs) ≡ take m xs
  take-take zero n xs h = refl
  take-take (suc m) zero xs h = absurd (omega arith)
  take-take (suc m) (suc n) [] h = refl
  take-take (suc m) (suc n) (x ∷ xs) h = ap (◌∷◌ x) (take-take m n xs (omega arith))

  pub take-nil : (n : ℕ) → take n [] ≡ []
  take-nil n = take_all n [] (omega arith)

  take_none : (n : ℕ) (xs : List A) → n ≡ 0 → take n xs ≡ []
  take_none zero xs h = refl
  take_none (suc n) xs h = absurd (omega arith)

  pub drop-take : (m n : ℕ) (xs : List A) → drop m (take n xs) ≡ take (n - m) (drop m xs)
  drop-take zero n xs = ap (λ k. take k xs) (omega arith)
  drop-take (suc m) zero xs = sym (take_none (0 - suc m) (drop (suc m) xs) (omega arith))
  drop-take (suc m) (suc n) [] = sym (take-nil (suc n - suc m))
  drop-take (suc m) (suc n) (x ∷ xs) = drop-take m n xs ∙ ap (λ k. take k (drop m xs)) (omega arith)

  pub All-append {κ} : (P : A → Type κ) (xs ys : List A) → All P xs → All P ys → All P (xs ++ ys)
  All-append P [] ys p q = q
  All-append P (x ∷ xs) ys p q = (p.0, All-append P xs ys p.1 q)

  pub All-map {κ} : (P Q : A → Type κ) (xs : List A) → ((x : A) → P x → Q x) → All P xs → All Q xs
  All-map P Q [] f p = tt
  All-map P Q (x ∷ xs) f p = (f x p.0, All-map P Q xs f p.1)

  pub All-take {κ} : (P : A → Type κ) (n : ℕ) (xs : List A) → All P xs → All P (take n xs)
  All-take P zero xs p = tt
  All-take P (suc n) [] p = tt
  All-take P (suc n) (x ∷ xs) p = (p.0, All-take P n xs p.1)

  pub All-drop {κ} : (P : A → Type κ) (n : ℕ) (xs : List A) → All P xs → All P (drop n xs)
  All-drop P zero xs p = p
  All-drop P (suc n) [] p = tt
  All-drop P (suc n) (x ∷ xs) p = All-drop P n xs p.1

  pub flatten-append : (xs ys : List (List A)) → flatten (xs ++ ys) ≡ flatten xs ++ flatten ys
  unfolding flatten
  flatten-append [] ys = refl
  flatten-append (x ∷ xs) ys =
      ap (◌++◌ x) (flatten-append xs ys) ∙ sym (append_assoc x (flatten xs) (flatten ys))

  pub overwrite-append :
      (i : ℕ) (src xs ys : List A)
      → i + length src ≤ length xs
      → overwrite i src (xs ++ ys) ≡ overwrite i src xs ++ ys
  overwrite-append zero src xs ys h =
      ap (◌++◌ src) (drop-append_le (length src) xs ys (omega arith))
      ∙ sym (append_assoc src (drop (length src) xs) ys)
  overwrite-append (suc i) src [] ys h = absurd (omega arith)
  overwrite-append (suc i) src (x ∷ xs) ys h =
      ap (◌∷◌ x) (overwrite-append i src xs ys (omega arith))

  pub overwrite_front :
      (i k : ℕ) (src xs ys : List A)
      → i ≡ length xs + k
      → overwrite i src (xs ++ ys) ≡ xs ++ overwrite k src ys
  overwrite_front i k src [] ys h = ap (λ j. overwrite j src ys) (omega arith)
  overwrite_front zero k src (x ∷ xs) ys h = absurd (omega arith)
  overwrite_front (suc i) k src (x ∷ xs) ys h =
      ap (◌∷◌ x) (overwrite_front i k src xs ys (omega arith))

  -- A copy that runs over the end of `xs` is two copies.
  pub overwrite_split :
      (i c : ℕ) (src xs ys : List A)
      → c + i ≡ length xs
      → c ≤ length src
      → overwrite i src (xs ++ ys) ≡ overwrite i (take c src) xs ++ overwrite 0 (drop c src) ys
  overwrite_split zero c src xs ys h k =
      let e : drop (length src) (xs ++ ys) ≡ drop (length (drop c src)) ys =
        drop-append (length src) (length (drop c src)) xs ys (omega (arith, length-drop c src)) in
      let f : drop (length (take c src)) xs ≡ [] =
        drop_all (length (take c src)) xs (omega (arith, length-take c src)) in
      let tail = drop (length (drop c src)) ys in
      rw (e, f, append-nil)
        (sym (ap (λ s. s ++ tail) (take-append-drop c src))
          ∙ append_assoc (take c src) (drop c src) tail)
  overwrite_split (suc i) c src [] ys h k = absurd (omega arith)
  overwrite_split (suc i) c src (x ∷ xs) ys h k =
      ap (◌∷◌ x) (overwrite_split i c src xs ys (omega arith) k)

  -- The first `s` elements after a copy that starts among them.
  pub take-overwrite :
      (i s : ℕ) (src xs : List A)
      → i ≤ s
      → s ≤ length xs
      → i + length src ≤ length xs
      → take (max s (i + length src)) (overwrite i src xs) ≡ overwrite i src (take s xs)
  take-overwrite zero s src xs a b c =
      take-append (max s (0 + length src)) src (drop (length src) xs) (omega arith)
      ∙ ap (◌++◌ src) (
          ap (λ m. take m (drop (length src) xs)) {y = s - length src} (omega arith)
          ∙ sym (drop-take (length src) s xs))
  take-overwrite (suc i) zero src xs a b c = absurd (omega arith)
  take-overwrite (suc i) (suc s) src [] a b c = absurd (omega arith)
  take-overwrite (suc i) (suc s) src (x ∷ xs) a b c =
      ap (λ m. take m (x ∷ overwrite i src xs)) {y = suc (max s (i + length src))} (omega arith)
      ∙ ap (◌∷◌ x) (take-overwrite i s src xs (omega arith) (omega arith) (omega arith))

  pub drop-overwrite :
      (i k : ℕ) (src xs : List A)
      → i ≤ length xs
      → k ≡ i + length src
      → drop k (overwrite i src xs) ≡ drop k xs
  drop-overwrite zero k src xs a e =
      drop-append k 0 src (drop (length src) xs) (omega arith)
      ∙ drop-drop 0 (length src) k xs (omega arith)
  drop-overwrite (suc i) zero src xs a e = absurd (omega arith)
  drop-overwrite (suc i) (suc k) src [] a e = absurd (omega arith)
  drop-overwrite (suc i) (suc k) src (x ∷ xs) a e =
      drop-overwrite i k src xs (omega arith) (omega arith)

  pub take-drop-overwrite :
      (i : ℕ) (src xs : List A)
      → i ≤ length xs
      → take (length src) (drop i (overwrite i src xs)) ≡ src
  take-drop-overwrite zero src xs a =
      take-append_le (length src) src (drop (length src) xs) (omega arith)
      ∙ take_all (length src) src (omega arith)
  take-drop-overwrite (suc i) src [] a = absurd (omega arith)
  take-drop-overwrite (suc i) src (x ∷ xs) a = take-drop-overwrite i src xs (omega arith)

  pub overwrite_none : (i : ℕ) (xs : List A) → overwrite i [] xs ≡ xs
  overwrite_none zero xs = refl
  overwrite_none (suc i) [] = refl
  overwrite_none (suc i) (x ∷ xs) = ap (◌∷◌ x) (overwrite_none i xs)
