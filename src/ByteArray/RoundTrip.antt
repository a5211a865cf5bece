-- ===== src/ByteArray/RoundTrip.antt =====
-- A write to a buffer of dwframe/bytearray.cc, and a read from the same position.
use dwframe.Base.{
  ℕ, zero, suc, ◌+◌, ◌≤◌, ◌<◌, ◌≡◌, ap, ◌∙◌, List, [], ◌∷◌, flatten, length, take, drop, overwrite,
  arith, length-append, length-take, length-drop, take-drop-overwrite,
}
use dwframe.ByteArray.{ByteArray, Result, ok, get_read_size, write, read, set_position}
use dwframe.ByteArray.Invariant.{IsValid, contents, unread, whole}
use dwframe.ByteArray.Writing.{write-Wrote}
use dwframe.ByteArray.Reading.{set_position-Positioned, read-Fetched}

pub length-contents : (b : ByteArray) → IsValid b → length (contents b) ≡ b.size
length-contents b v = omega (arith, length-take b.size (flatten b.nodes), whole b v, v.fits)

length-unread : (b : ByteArray) → IsValid b → length (unread b) ≡ get_read_size b
length-unread b v = omega (arith, length-drop b.position (contents b), length-contents b v)

pub overwrite_reaches :
    (i : ℕ) (src xs : List ℕ) → i ≤ length xs → i + length src ≤ length (overwrite i src xs)
overwrite_reaches zero src xs h = omega (arith, length-append src (drop (length src) xs))
overwrite_reaches (suc i) src [] h = absurd (omega arith)
overwrite_reaches (suc i) src (x ∷ xs) h = omega (arith, overwrite_reaches i src xs (omega arith))

-- `buf` was written, and the position set back to where it was.
pub record Rewound (buf : List ℕ) (b : ByteArray) : Type 0 where
  pub written : ByteArray
  pub result : ByteArray
  pub writes : write buf b ≡ ok written
  pub rewinds : set_position b.position written ≡ ok result
  pub valid : IsValid result
  pub same_endian : result.endian ≡ b.endian
  pub enough : length buf ≤ get_read_size result
  pub next_bytes : take (length buf) (unread result) ≡ buf

pub write-Rewound : (buf : List ℕ) (b : ByteArray) → IsValid b → Rewound buf b
write-Rewound buf b v =
    let w = write-Wrote buf b v in
    let p =
      set_position-Positioned b.position w.result w.valid
        (omega (arith, w.new_position, w.valid.within, w.valid.fits)) in
    let kept : contents p.result ≡ overwrite b.position buf (contents b) =
      p.new_contents
      ∙ ap (λ k. take k (flatten w.result.nodes)) {y = w.result.size}
          (omega (arith, w.new_position, w.valid.within))
      ∙ w.new_contents in
    let start : b.position ≤ length (contents b) = omega (arith, length-contents b v, v.within) in
    record {
      written = w.result;
      result = p.result;
      writes = w.returns;
      rewinds = p.returns;
      valid = p.valid;
      same_endian = p.same_endian ∙ w.same_endian;
      enough = omega (
        arith,
        length-contents p.result p.valid,
        ap length kept,
        overwrite_reaches b.position buf (contents b) start,
        p.new_position,
      );
      next_bytes =
          rw (p.new_position, kept) (take-drop-overwrite b.position buf (contents b) start);
    }

-- A writer's bytes are given back as `x` by a reader that starts where the writer did.
pub record RoundTrips {A : Type 0} (writer : ByteArray → Result ByteArray)
    (reader : ByteArray → Result (A × ByteArray)) (x : A) (b : ByteArray) : Type 0 where
  pub written : ByteArray
  pub rewound : ByteArray
  pub after : ByteArray
  pub writes : writer b ≡ ok written
  pub rewinds : set_position b.position written ≡ ok rewound
  pub reads : reader rewound ≡ ok (x, after)
  pub same_endian : rewound.endian ≡ b.endian
  pub valid : IsValid after

-- On a valid buffer, a non-empty run of bytes that is written is read back the same after the
-- position is set back to where it was written, whatever blocks it falls on.
pub write-RoundTrips :
    (buf : List ℕ) (b : ByteArray)
    → 0 < length buf
    → IsValid b
    → RoundTrips (write buf) (read (length buf)) buf b
write-RoundTrips buf b pos v =
    let r = write-Rewound buf b v in
    let f = read-Fetched (length buf) r.result r.valid pos r.enough in
    record {
      written = r.written;
      rewound = r.result;
      after = f.result;
      writes = r.writes;
      rewinds = r.rewinds;
      reads = f.returns ∙ ap (λ s. ok (s, f.result)) (f.next_bytes ∙ r.next_bytes);
      same_endian = r.same_endian;
      valid = f.valid;
    }
