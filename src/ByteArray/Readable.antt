-- ===== src/ByteArray/Readable.antt =====
-- Buffers of dwframe/bytearray.cc whose next bytes are known, and reading these one run at a time.
use dwframe.Base.{
  ℕ, ◌-◌, ◌≤◌, ◌<◌, ◌≡◌, sym, ap, ◌∙◌, List, ◌++◌, length, take, drop, arith, length-append,
  take-append_le, take_all, take-take, drop-take, drop-drop, drop-append,
}
use dwframe.ByteArray.{ByteArray, ok, get_read_size, read}
use dwframe.ByteArray.Invariant.{IsValid, contents, unread}
use dwframe.ByteArray.Reading.{read-Fetched}
use dwframe.ByteArray.RoundTrip.{Rewound}

-- `xs` are the next bytes of a valid buffer.
pub record Readable (xs : List ℕ) (b : ByteArray) : Type 0 where
  pub valid : IsValid b
  pub enough : length xs ≤ get_read_size b
  pub next_bytes : take (length xs) (unread b) ≡ xs

pub Rewound-Readable : {xs : List ℕ} {b : ByteArray} (r : Rewound xs b) → Readable xs r.result
Rewound-Readable r = record { valid = r.valid; enough = r.enough; next_bytes = r.next_bytes }

-- A read of the first of two runs leaves the second.
pub record Consumed (xs ys : List ℕ) (b : ByteArray) : Type 0 where
  pub result : ByteArray
  pub returns : read (length xs) b ≡ ok (xs, result)
  pub rest : Readable ys result
  pub same_endian : result.endian ≡ b.endian

pub read-Consumed :
    (xs ys : List ℕ) (b : ByteArray) → 0 < length xs → Readable (xs ++ ys) b → Consumed xs ys b
read-Consumed xs ys b pos r =
    let total = length-append xs ys in
    let f = read-Fetched (length xs) b r.valid pos (omega (arith, r.enough)) in
    let first : f.bytes ≡ xs =
      f.next_bytes
      ∙ sym (take-take (length xs) (length (xs ++ ys)) (unread b) (omega arith))
      ∙ ap (take (length xs)) r.next_bytes
      ∙ take-append_le (length xs) xs ys (omega arith)
      ∙ take_all (length xs) xs (omega arith) in
    let later : unread f.result ≡ drop (length xs) (unread b) =
      ap (drop f.result.position) f.same_contents
      ∙ sym (drop-drop (length xs) b.position f.result.position (contents b) f.new_position) in
    record {
      result = f.result;
      returns = f.returns ∙ ap (λ s. ok (s, f.result)) first;
      rest = record {
        valid = f.valid;
        enough = omega (arith, total, f.same_size, f.new_position, r.enough);
        next_bytes =
            ap (take (length ys)) later
            ∙ ap (λ k. take k (drop (length xs) (unread b))) {y = length (xs ++ ys) - length xs}
                (omega arith)
            ∙ sym (drop-take (length xs) (length (xs ++ ys)) (unread b))
            ∙ ap (drop (length xs)) r.next_bytes
            ∙ drop-append (length xs) 0 xs ys (omega arith);
      };
      same_endian = f.same_endian;
    }
