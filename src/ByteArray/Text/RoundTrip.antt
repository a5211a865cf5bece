-- ===== src/ByteArray/Text/RoundTrip.antt =====
-- The round trip of the strings of dwframe/bytearray.cc behind a length of fixed width.
use dwframe.Base.{
  ℕ, zero, suc, ◌+◌, ◌%◌, ◌^◌, ◌≤◌, ◌<◌, ◌≡◌, sym, ap, ◌∙◌, List, [], ◌∷◌, ◌++◌, flatten, length,
  take, drop, overwrite, overwrite_front, arith, length-append, append_assoc, append-nil, drop-drop,
  take-drop-overwrite,
}
use dwframe.ByteArray.{ByteArray, Endian, ok, ◌>>=◌, write, read, set_position}
use dwframe.ByteArray.Invariant.{IsValid, contents}
use dwframe.ByteArray.Writing.{write-Wrote}
use dwframe.ByteArray.Reading.{set_position-Positioned}
use dwframe.ByteArray.RoundTrip.{RoundTrips, length-contents, overwrite_reaches}
use dwframe.ByteArray.Readable.{Readable, read-Consumed}
use dwframe.ByteArray.Fixed.{
  to_memory, ordered, same_order, read_ordered, write_fuint16, write_fuint32, write_fuint64,
  read_fuint16, read_fuint32, read_fuint64,
}
use dwframe.ByteArray.Fixed.Order.{length-to_memory, restored}
use dwframe.ByteArray.Text.{
  write_string_f16, write_string_f32, write_string_f64, read_string_f16, read_string_f32,
  read_string_f64,
}

-- Two copies end to end are one.
overwrite-overwrite :
    (i k : ℕ) (x y xs : List ℕ)
    → k ≡ i + length x
    → i ≤ length xs
    → overwrite k y (overwrite i x xs) ≡ overwrite i (x ++ y) xs
overwrite-overwrite zero k x y xs e h =
    overwrite_front k 0 y x (drop (length x) xs) (omega arith)
    ∙ ap (λ l. x ++ (y ++ l))
        (drop-drop (length y) (length x) (length (x ++ y)) xs (length-append x y))
    ∙ sym (append_assoc x y (drop (length (x ++ y)) xs))
overwrite-overwrite (suc i) k x y [] e h = absurd (omega arith)
overwrite-overwrite (suc i) zero x y (z ∷ xs) e h = absurd (omega arith)
overwrite-overwrite (suc i) (suc k) x y (z ∷ xs) e h =
    ap (◌∷◌ z) (overwrite-overwrite i k x y xs (omega arith) (omega arith))

-- Two runs of bytes were written, and the position set back to where the first was.
record BothWritten (x y : List ℕ) (b : ByteArray) : Type 0 where
  first : ByteArray
  written : ByteArray
  result : ByteArray
  writes_first : write x b ≡ ok first
  writes : write y first ≡ ok written
  rewinds : set_position b.position written ≡ ok result
  readable : Readable (x ++ y) result
  same_endian : result.endian ≡ b.endian

write-BothWritten : (x y : List ℕ) (b : ByteArray) → IsValid b → BothWritten x y b
write-BothWritten x y b v =
    let w = write-Wrote x b v in
    let u = write-Wrote y w.result w.valid in
    let p =
      set_position-Positioned b.position u.result u.valid
        (omega (arith, w.new_position, u.new_position, u.valid.within, u.valid.fits)) in
    let start : b.position ≤ length (contents b) = omega (arith, length-contents b v, v.within) in
    let both : contents u.result ≡ overwrite b.position (x ++ y) (contents b) =
      u.new_contents
      ∙ ap (overwrite w.result.position y) w.new_contents
      ∙ overwrite-overwrite b.position w.result.position x y (contents b) w.new_position start in
    let kept : contents p.result ≡ overwrite b.position (x ++ y) (contents b) =
      p.new_contents
      ∙ ap (λ k. take k (flatten u.result.nodes)) {y = u.result.size}
          (omega (arith, w.new_position, u.new_position, u.valid.within))
      ∙ both in
    record {
      first = w.result;
      written = u.result;
      result = p.result;
      writes_first = w.returns;
      writes = u.returns;
      rewinds = p.returns;
      readable = record {
        valid = p.valid;
        enough = omega (
          arith,
          length-contents p.result p.valid,
          ap length kept,
          overwrite_reaches b.position (x ++ y) (contents b) start,
          p.new_position,
        );
        next_bytes =
            rw (p.new_position, kept) (take-drop-overwrite b.position (x ++ y) (contents b) start);
      };
      same_endian = p.same_endian ∙ u.same_endian ∙ w.same_endian;
    }

-- A length field of `w` bytes and a string behind it, as the code writes and reads them.
string-RoundTrips :
    (host : Endian) (w n : ℕ) (value : List ℕ) (b : ByteArray)
    → n ≡ length value
    → 0 < w
    → 0 < length value
    → length value < 256 ^ w
    → IsValid b
    → RoundTrips
        (λ c. write (to_memory host w (ordered host w n c)) c >>= λ d. write value d)
        (λ c. read_ordered host w c >>= λ r. read r.0 r.1)
        value
        b
string-RoundTrips host w n value b e pos some_bytes fits v =
    let field = to_memory host w (ordered host w n b) in
    let len : length field ≡ w = length-to_memory host w (ordered host w n b) in
    let t = write-BothWritten field value b v in
    let one = read-Consumed field value t.result (omega (arith, len)) t.readable in
    let two = read-Consumed value [] one.result some_bytes (rw (append-nil value) one.rest) in
    let reads : read w t.result ≡ ok (field, one.result) = rw len at one.returns in
    let size : read_ordered host w t.result ≡ ok (n, one.result) =
      unfold read_ordered in
      rw (reads, t.same_endian)
        (ap (λ k. ok (k, one.result))
          (restored host (same_order b.endian host) w n (omega (arith, e, fits)))) in
    record {
      written = t.written;
      rewound = t.result;
      after = two.result;
      writes = rw t.writes_first t.writes;
      rewinds = t.rewinds;
      reads = rw size (ap (λ k. read k one.result) e ∙ two.returns);
      same_endian = t.same_endian;
      valid = two.rest.valid;
    }

-- A string that is not empty, written to a valid buffer behind its length in 16, 32 or 64 bits, is
-- read back from the position it was written at, if its length fits the field.
pub string-RoundTrips_fixed :
    (host : Endian) (s16 s32 s64 : List ℕ) (b : ByteArray)
    → IsValid b
    → 0 < length s16
    → 0 < length s32
    → 0 < length s64
    → length s16 < 2 ^ 16
    → length s32 < 2 ^ 32
    → length s64 < 2 ^ 64
    → RoundTrips (write_string_f16 host s16) (read_string_f16 host) s16 b
      × RoundTrips (write_string_f32 host s32) (read_string_f32 host) s32 b
      × RoundTrips (write_string_f64 host s64) (read_string_f64 host) s64 b
unfolding write_string_f16 write_string_f32 write_string_f64 read_string_f16 read_string_f32
    read_string_f64 write_fuint16 write_fuint32 write_fuint64 read_fuint16 read_fuint32 read_fuint64
string-RoundTrips_fixed host s16 s32 s64 b v p16 p32 p64 h16 h32 h64 =
    let e16 : length s16 % 2 ^ 16 ≡ length s16 = omega arith in
    let e32 : length s32 % 2 ^ 32 ≡ length s32 = omega arith in
    let e64 : length s64 % 2 ^ 64 ≡ length s64 = omega arith in
    (
      string-RoundTrips host 2 (length s16 % 2 ^ 16) s16 b e16 (omega arith) p16 h16 v,
      string-RoundTrips host 4 (length s32 % 2 ^ 32) s32 b e32 (omega arith) p32 h32 v,
      string-RoundTrips host 8 (length s64 % 2 ^ 64) s64 b e64 (omega arith) p64 h64 v,
    )
