-- ===== src/Tests/Streams.antt =====
-- Peers that move one or two bytes at a time, for dwframe/stream.cc.
use dwframe.Base.{
  ℕ, zero, suc, ◌+◌, ◌≤◌, ◌≡◌, refl, sym, List, [], ◌∷◌, ◌++◌, length, take, drop, min, arith,
  take-append-drop, length-take, append-nil,
}
use dwframe.Stream.{Input, got, Output, put, refused}
use dwframe.Stream.Transfer.{Feeds, Takes, Moves}

abbrev pub read_two : ℕ → List ℕ → Input × List ℕ
read_two n s = (got (take (min n 2) s), drop (min n 2) s)

abbrev pub two_by_two : Feeds (List ℕ)
two_by_two = record {
  read = read_two;
  feed = λ s. s;
  in_order = λ n s bs e.
      let same : take (min n 2) s ≡ bs = cc in
      (
        rw (sym same) (sym (take-append-drop (min n 2) s)),
        rw (sym same) (omega (arith, length-take (min n 2) s)),
      );
  no_loss = λ n s e. absurd (cc);
}

abbrev pub seven : List ℕ
seven = 1 ∷ 2 ∷ 3 ∷ 4 ∷ 5 ∷ 6 ∷ 7 ∷ []

abbrev pub write_one : List ℕ → List ℕ → Output × List ℕ
write_one [] s = (put 0, s)
write_one (b ∷ bs) s = (put 1, s ++ (b ∷ []))

pub write_one-in_order :
    (bs s : List ℕ) (k : ℕ)
    → (write_one bs s).0 ≡ put k
    → ((write_one bs s).1 ≡ s ++ take k bs) × (k ≤ length bs)
write_one-in_order [] s k e =
    let same : 0 ≡ k = cc in (rw (sym same) (sym (append-nil s)), omega (arith, same))
write_one-in_order (b ∷ bs) s k e =
    let same : 1 ≡ k = cc in (rw (sym same) refl, omega (arith, same))

pub write_one-no_gain : (bs s : List ℕ) → (write_one bs s).0 ≡ refused → (write_one bs s).1 ≡ s
write_one-no_gain [] s e = refl
write_one-no_gain (b ∷ bs) s e = absurd (cc)

abbrev pub one_by_one : Takes (List ℕ)
one_by_one = record {
  write = write_one;
  sent = λ s. s;
  in_order = write_one-in_order;
  no_gain = write_one-no_gain;
}

abbrev move_one : ℕ → ℕ → Output × ℕ
move_one zero s = (put 0, s)
move_one (suc n) s = (put 1, s + 1)

move_one-counted : (n s k : ℕ) → (move_one n s).0 ≡ put k → ((move_one n s).1 ≡ s + k) × (k ≤ n)
move_one-counted zero s k e = let same : 0 ≡ k = cc in (omega (arith, same), omega (arith, same))
move_one-counted (suc n) s k e = let same : 1 ≡ k = cc in (omega (arith, same), omega (arith, same))

move_one-no_gain : (n s : ℕ) → (move_one n s).0 ≡ refused → (move_one n s).1 ≡ s
move_one-no_gain zero s e = refl
move_one-no_gain (suc n) s e = absurd (cc)

abbrev counter : Moves ℕ
counter = record {
  move = move_one;
  total = λ s. s;
  counted = move_one-counted;
  no_gain = move_one-no_gain;
}
