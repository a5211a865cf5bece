-- ===== src/ByteArray/Fixed/RoundTrip.antt =====
-- The round trip of the fixed-width values of dwframe/bytearray.cc through a buffer.
use dwframe.Base.{ℕ, ◌^◌, ◌<◌, ◌≡◌, ap, arith}
use dwframe.ByteArray.{ByteArray, Endian, ok, write, read}
use dwframe.ByteArray.Invariant.{IsValid}
use dwframe.ByteArray.RoundTrip.{RoundTrips, write-RoundTrips}
use dwframe.ByteArray.Fixed.{
  to_memory, same_order, ordered, write_fint8, write_fuint8, write_fint16, write_fuint16,
  write_fint32, write_fuint32, write_fint64, write_fuint64, read_fint8, read_fuint8, read_fint16,
  read_fuint16, read_fint32, read_fuint32, read_fint64, read_fuint64, read_ordered, write_float,
  write_double, read_float, read_double,
}
use dwframe.ByteArray.Fixed.Order.{length-to_memory, of_memory-to_memory, restored}

ordered-RoundTrips :
    (host : Endian) (w v : ℕ) (b : ByteArray)
    → 0 < w
    → v < 256 ^ w
    → IsValid b
    → RoundTrips (λ c. write (to_memory host w (ordered host w v c)) c) (read_ordered host w) v b
ordered-RoundTrips host w v b pos h valid =
    let buf = to_memory host w (ordered host w v b) in
    let len = length-to_memory host w (ordered host w v b) in
    let r = write-RoundTrips buf b (omega (arith, len)) valid in
    let reads : read w r.rewound ≡ ok (buf, r.after) = rw len at r.reads in
    record {
      written = r.written;
      rewound = r.rewound;
      after = r.after;
      writes = r.writes;
      rewinds = r.rewinds;
      reads =
          unfold read_ordered in
          rw (reads, r.same_endian)
            (ap (λ x. ok (x, r.after)) (restored host (same_order b.endian host) w v h));
      same_endian = r.same_endian;
      valid = r.valid;
    }

plain-RoundTrips :
    (host : Endian) (v : ℕ) (b : ByteArray)
    → v < 256
    → IsValid b
    → RoundTrips (write_fuint8 host v) (read_fuint8 host) v b
plain-RoundTrips host v b h valid =
    let buf = to_memory host 1 v in
    let len = length-to_memory host 1 v in
    let r = write-RoundTrips buf b (omega (arith, len)) valid in
    let reads : read 1 r.rewound ≡ ok (buf, r.after) = rw len at r.reads in
    record {
      written = r.written;
      rewound = r.rewound;
      after = r.after;
      writes = unfold write_fuint8 in r.writes;
      rewinds = r.rewinds;
      reads =
          unfold read_fuint8 in
          rw reads (ap (λ x. ok (x, r.after)) (of_memory-to_memory host 1 v h));
      same_endian = r.same_endian;
      valid = r.valid;
    }

-- Each unsigned value of 8, 16, 32 or 64 bits that is written to a valid buffer is read back from
-- the position it was written at, whatever the byte orders of the machine and of the buffer and
-- wherever the bytes fall on the blocks.
pub fixed-RoundTrips :
    (host : Endian) (b : ByteArray) (v8 v16 v32 v64 : ℕ)
    → IsValid b
    → v8 < 2 ^ 8
    → v16 < 2 ^ 16
    → v32 < 2 ^ 32
    → v64 < 2 ^ 64
    → RoundTrips (write_fuint8 host v8) (read_fuint8 host) v8 b
      × RoundTrips (write_fuint16 host v16) (read_fuint16 host) v16 b
      × RoundTrips (write_fuint32 host v32) (read_fuint32 host) v32 b
      × RoundTrips (write_fuint64 host v64) (read_fuint64 host) v64 b
unfolding write_fuint16 write_fuint32 write_fuint64 read_fuint16 read_fuint32 read_fuint64
fixed-RoundTrips host b v8 v16 v32 v64 valid h8 h16 h32 h64 = (
  plain-RoundTrips host v8 b h8 valid,
  ordered-RoundTrips host 2 v16 b (omega arith) h16 valid,
  ordered-RoundTrips host 4 v32 b (omega arith) h32 valid,
  ordered-RoundTrips host 8 v64 b (omega arith) h64 valid,
)

-- Each signed value of 8, 16, 32 or 64 bits, by its two's complement pattern, and each float and
-- double, as its pattern of bits, that is written to a valid buffer is read back from the position
-- it was written at.
signed-RoundTrips :
    (host : Endian) (b : ByteArray) (v8 v16 v32 v64 : ℕ)
    → IsValid b
    → v8 < 2 ^ 8
    → v16 < 2 ^ 16
    → v32 < 2 ^ 32
    → v64 < 2 ^ 64
    → RoundTrips (write_fint8 host v8) (read_fint8 host) v8 b
      × RoundTrips (write_fint16 host v16) (read_fint16 host) v16 b
      × RoundTrips (write_fint32 host v32) (read_fint32 host) v32 b
      × RoundTrips (write_fint64 host v64) (read_fint64 host) v64 b
      × RoundTrips (write_float host v32) (read_float host) v32 b
      × RoundTrips (write_double host v64) (read_double host) v64 b
unfolding write_fint8 read_fint8 write_fuint8 read_fuint8 write_fint16 write_fint32 write_fint64
    read_fint16 read_fint32 read_fint64 write_float write_double read_float read_double
signed-RoundTrips host b v8 v16 v32 v64 valid h8 h16 h32 h64 = (
  plain-RoundTrips host v8 b h8 valid,
  ordered-RoundTrips host 2 v16 b (omega arith) h16 valid,
  ordered-RoundTrips host 4 v32 b (omega arith) h32 valid,
  ordered-RoundTrips host 8 v64 b (omega arith) h64 valid,
  ordered-RoundTrips host 4 v32 b (omega arith) h32 valid,
  ordered-RoundTrips host 8 v64 b (omega arith) h64 valid,
)
