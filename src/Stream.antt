-- ===== src/Stream.antt =====
-- dwframe/stream.h and dwframe/stream.cc: reading and writing a given number of bytes with calls that
-- move fewer. `read` and `write` are virtual, so they are parameters here: from the number of bytes
-- asked for, or the bytes offered, and a state of the peer they give an answer. A length is below
-- 2 ^ 31, as the answers are of type `int`. Each turn of a loop moves a byte at least, so that the
-- number of bytes left is enough fuel.
pub mod Transfer
use dwframe.Base.{ℕ, zero, suc, ◌+◌, ◌-◌, List, [], ◌∷◌, ◌++◌, length, drop}

-- The answer of `read`: the bytes read, none for 0, or an error.
pub data Input : Type 0 where
  got : List ℕ → Input
  failed : Input

-- The answer of `write`: a number of bytes, or an error.
pub data Output : Type 0 where
  put : ℕ → Output
  refused : Output

-- The answer of the loops: the whole length, 0 for a peer that is closed, or an error; with the
-- bytes read so far for `readFixSize`. `exhausted` is no answer of the code.
pub data Answer : Type 0 where
  whole closed error exhausted : Answer

-- The loop of `readFixSize` into a buffer, which has `before` already and wants `left` bytes more.
unfoldable pub read_loop {ℓ} :
    {S : Type ℓ} → (ℕ → S → Input × S) → ℕ → ℕ → List ℕ → S → Answer × List ℕ × S
read_loop read fuel zero before s = (whole, before, s)
read_loop read zero (suc left) before s = (exhausted, before, s)
read_loop read (suc fuel) (suc left) before s = elim (read (suc left) s).0 [
  | failed ↦ (error, before, (read (suc left) s).1)
  | got [] ↦ (closed, before, (read (suc left) s).1)
  | got (b ∷ bs) ↦ read_loop read fuel (left - length bs) (before ++ (b ∷ bs)) (read (suc left) s).1
]

unfoldable pub read_fix_size {ℓ} : {S : Type ℓ} → (ℕ → S → Input × S) → ℕ → S → Answer × List ℕ × S
unfolding read_loop
read_fix_size read n s = read_loop read n n [] s

-- The loop of `writeFixSize` over the bytes that are left.
unfoldable pub write_loop {ℓ} :
    {S : Type ℓ} → (List ℕ → S → Output × S) → ℕ → List ℕ → S → Answer × S
write_loop write fuel [] s = (whole, s)
write_loop write zero (b ∷ bs) s = (exhausted, s)
write_loop write (suc fuel) (b ∷ bs) s = elim (write (b ∷ bs) s).0 [
  | refused ↦ (error, (write (b ∷ bs) s).1)
  | put zero ↦ (closed, (write (b ∷ bs) s).1)
  | put (suc k) ↦ write_loop write fuel (drop k bs) (write (b ∷ bs) s).1
]

unfoldable pub write_fix_size {ℓ} :
    {S : Type ℓ} → (List ℕ → S → Output × S) → List ℕ → S → Answer × S
unfolding write_loop
write_fix_size write bytes s = write_loop write (length bytes) bytes s

-- The loops of `readFixSize` and `writeFixSize` on a ByteArray, which is part of the state `S`: a
-- step moves a number of bytes, 0 at the end, or fails.
unfoldable pub move_loop {ℓ} : {S : Type ℓ} → (ℕ → S → Output × S) → ℕ → ℕ → S → Answer × S
move_loop move fuel zero s = (whole, s)
move_loop move zero (suc left) s = (exhausted, s)
move_loop move (suc fuel) (suc left) s = elim (move (suc left) s).0 [
  | refused ↦ (error, (move (suc left) s).1)
  | put zero ↦ (closed, (move (suc left) s).1)
  | put (suc k) ↦ move_loop move fuel (left - k) (move (suc left) s).1
]

unfoldable pub move_fix_size {ℓ} : {S : Type ℓ} → (ℕ → S → Output × S) → ℕ → S → Answer × S
unfolding move_loop
move_fix_size move n s = move_loop move n n s
