-- ===== src/Stream/Transfer.antt =====
-- The bytes that the loops of dwframe/stream.cc move.
use dwframe.Base.{
  ℕ, zero, suc, ◌+◌, ◌-◌, ◌≤◌, ◌≡◌, ◌≢◌, refl, sym, ap, ◌∙◌, List, [], ◌∷◌, ◌++◌, length, take,
  drop, append_assoc, append-nil, arith, length-drop, take-append-drop,
}
use dwframe.Stream.{
  Input, got, failed, Output, put, refused, Answer, whole, exhausted, write_loop, write_fix_size,
  move_loop, move_fix_size,
}

-- What `read` of a stream does: the bytes it gives are the next ones that the peer feeds, as many as
-- asked for at most; without any, and on an error, nothing is lost.
pub record Feeds {ℓ} (S : Type ℓ) : Type ℓ where
  pub read : ℕ → S → Input × S
  pub feed : S → List ℕ
  pub in_order :
      (n : ℕ) (s : S) (bs : List ℕ)
      → (read n s).0 ≡ got bs
      → (feed s ≡ bs ++ feed (read n s).1) × (length bs ≤ n)
  pub no_loss : (n : ℕ) (s : S) → (read n s).0 ≡ failed → feed (read n s).1 ≡ feed s

-- What a run of `readFixSize` did: what is in the buffer and what the peer feeds still make up what it
-- fed before, the answer is one of the code's, and a whole read has the length asked for.
pub record ReadFix {ℓ} {S : Type ℓ} (stream : Feeds S) (n : ℕ) (fed : List ℕ)
    (run : Answer × List ℕ × S) : Type ℓ where
  pub kept : run.1 ++ stream.feed run.2 ≡ fed
  pub ends : run.0 ≢ exhausted
  pub size : run.0 ≡ whole → length run.1 ≡ n
  pub bounded : length run.1 ≤ n

-- What `write` of a stream does: of the bytes offered it takes a number from the front.
pub record Takes {ℓ} (S : Type ℓ) : Type ℓ where
  pub write : List ℕ → S → Output × S
  pub sent : S → List ℕ
  pub in_order :
      (bs : List ℕ) (s : S) (k : ℕ)
      → (write bs s).0 ≡ put k
      → (sent (write bs s).1 ≡ sent s ++ take k bs) × (k ≤ length bs)
  pub no_gain : (bs : List ℕ) (s : S) → (write bs s).0 ≡ refused → sent (write bs s).1 ≡ sent s

-- What a run of `writeFixSize` did: the bytes are those it has sent, from the front, and those it has
-- not, and there are none of these if it answers the length.
pub record WriteFix {ℓ} {S : Type ℓ} (stream : Takes S) (bytes : List ℕ) (s : S) (run : Answer × S)
    : Type ℓ where
  pub moved : List ℕ
  pub rest : List ℕ
  pub split : bytes ≡ moved ++ rest
  pub sent : stream.sent run.1 ≡ stream.sent s ++ moved
  pub ends : run.0 ≢ exhausted
  pub all : run.0 ≡ whole → rest ≡ []

module _ {ℓ} {S : Type ℓ} (stream : Takes S) where
  write_loop-WriteFix :
      (fuel : ℕ) (bytes : List ℕ) (s : S)
      → length bytes ≤ fuel
      → WriteFix stream bytes s (write_loop stream.write fuel bytes s)
  unfolding write_loop
  write_loop-WriteFix fuel [] s h = record {
    moved = [];
    rest = [];
    split = refl;
    sent = sym (append-nil (stream.sent s));
    ends = λ e. absurd (cc);
    all = λ e. refl;
  }
  write_loop-WriteFix zero (b ∷ bs) s h = absurd (omega arith)
  write_loop-WriteFix (suc fuel) (b ∷ bs) s h =
      go
        (λ k.
          write_loop-WriteFix fuel (drop k bs) (stream.write (b ∷ bs) s).1
            (omega (arith, length-drop k bs)))
        (stream.write (b ∷ bs) s).0 refl
    where
      next : S
      next = (stream.write (b ∷ bs) s).1

      go :
          ((k : ℕ)
            → WriteFix stream (drop k bs) next (write_loop stream.write fuel (drop k bs) next))
          → (o : Output) → (stream.write (b ∷ bs) s).0 ≡ o
          → WriteFix stream (b ∷ bs) s (write_loop stream.write (suc fuel) (b ∷ bs) s)
      go again refused e =
          rw (e, write_loop)
            (record {
              moved = [];
              rest = b ∷ bs;
              split = refl;
              sent = stream.no_gain (b ∷ bs) s e ∙ sym (append-nil (stream.sent s));
              ends = λ p. absurd (cc);
              all = λ p. absurd (cc);
            })
      go again (put zero) e =
          rw (e, write_loop)
            (record {
              moved = [];
              rest = b ∷ bs;
              split = refl;
              sent = (stream.in_order (b ∷ bs) s 0 e).0;
              ends = λ p. absurd (cc);
              all = λ p. absurd (cc);
            })
      go again (put (suc k)) e =
          let r = again k in
          rw (e, write_loop)
            (record {
              moved = (b ∷ take k bs) ++ r.moved;
              rest = r.rest;
              split =
                  ap (λ l. b ∷ l)
                    (sym (take-append-drop k bs)
                      ∙ ap (λ l. take k bs ++ l) r.split
                      ∙ sym (append_assoc (take k bs) r.moved r.rest));
              sent =
                  r.sent
                  ∙ ap (λ l. l ++ r.moved) (stream.in_order (b ∷ bs) s (suc k) e).0
                  ∙ append_assoc (stream.sent s) (b ∷ take k bs) r.moved;
              ends = r.ends;
              all = r.all;
            })

-- For any stream whose `write` takes bytes from the front of those offered, `writeFixSize` ends;
-- it has sent bytes from the front, in order, and all of them if it answers the length.
pub write_fix_size-WriteFix {ℓ} :
    {S : Type ℓ} (stream : Takes S) (bytes : List ℕ) (s : S)
    → WriteFix stream bytes s (write_fix_size stream.write bytes s)
unfolding write_fix_size
write_fix_size-WriteFix stream bytes s =
    write_loop-WriteFix stream (length bytes) bytes s (omega arith)

-- What `read` and `write` of a stream with a ByteArray do: they move a number of bytes.
pub record Moves {ℓ} (S : Type ℓ) : Type ℓ where
  pub move : ℕ → S → Output × S
  pub total : S → ℕ
  pub counted :
      (n : ℕ) (s : S) (k : ℕ) → (move n s).0 ≡ put k → (total (move n s).1 ≡ total s + k) × (k ≤ n)
  pub no_gain : (n : ℕ) (s : S) → (move n s).0 ≡ refused → total (move n s).1 ≡ total s

-- The bytes moved: the number asked for if the loop answers so, and never more.
pub record MoveFix {ℓ} {S : Type ℓ} (stream : Moves S) (n : ℕ) (s : S) (run : Answer × S)
    : Type ℓ where
  pub ends : run.0 ≢ exhausted
  pub at_most : stream.total run.1 ≤ stream.total s + n
  pub at_least : stream.total s ≤ stream.total run.1
  pub all : run.0 ≡ whole → stream.total run.1 ≡ stream.total s + n

module _ {ℓ} {S : Type ℓ} (stream : Moves S) where
  move_loop-MoveFix :
      (fuel left : ℕ) (s : S)
      → left ≤ fuel
      → MoveFix stream left s (move_loop stream.move fuel left s)
  unfolding move_loop
  move_loop-MoveFix fuel zero s h = record {
    ends = λ e. absurd (cc);
    at_most = omega arith;
    at_least = omega arith;
    all = λ e. omega arith;
  }
  move_loop-MoveFix zero (suc left) s h = absurd (omega arith)
  move_loop-MoveFix (suc fuel) (suc left) s h =
      go (λ k. move_loop-MoveFix fuel (left - k) (stream.move (suc left) s).1 (omega arith))
        (stream.move (suc left) s).0 refl
    where
      next : S
      next = (stream.move (suc left) s).1

      go :
          ((k : ℕ) → MoveFix stream (left - k) next (move_loop stream.move fuel (left - k) next))
          → (o : Output) → (stream.move (suc left) s).0 ≡ o
          → MoveFix stream (suc left) s (move_loop stream.move (suc fuel) (suc left) s)
      go again refused e =
          let same = stream.no_gain (suc left) s e in
          rw (e, move_loop)
            (record {
              ends = λ p. absurd (cc);
              at_most = omega (arith, same);
              at_least = omega (arith, same);
              all = λ p. absurd (cc);
            })
      go again (put zero) e =
          let same = (stream.counted (suc left) s 0 e).0 in
          rw (e, move_loop)
            (record {
              ends = λ p. absurd (cc);
              at_most = omega (arith, same);
              at_least = omega (arith, same);
              all = λ p. absurd (cc);
            })
      go again (put (suc k)) e =
          let r = again k in
          let (more, fits) = stream.counted (suc left) s (suc k) e in
          rw (e, move_loop)
            (record {
              ends = r.ends;
              at_most = omega (arith, r.at_most, more, fits);
              at_least = omega (arith, r.at_least, more);
              all = λ p. omega (arith, r.all p, more, fits);
            })

-- For any stream that counts what it moves, the loops over a ByteArray end, move the number of
-- bytes asked for at most, and exactly that number if they answer it.
move_fix_size-MoveFix {ℓ} :
    {S : Type ℓ} (stream : Moves S) (n : ℕ) (s : S)
    → MoveFix stream n s (move_fix_size stream.move n s)
unfolding move_fix_size
move_fix_size-MoveFix stream n s = move_loop-MoveFix stream n n s (omega arith)
