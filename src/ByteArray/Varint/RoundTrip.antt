-- ===== src/ByteArray/Varint/RoundTrip.antt =====
-- The round trip of the integers of variable length of dwframe/bytearray.cc through a buffer.
use dwframe.Base.{ℕ, ◌^◌, ◌≤◌, ◌<◌, ◌≡◌, ap, ◌∙◌, length, arith}
use dwframe.ByteArray.{ByteArray, ok, Endian, write}
use dwframe.ByteArray.Invariant.{IsValid}
use dwframe.ByteArray.RoundTrip.{RoundTrips, write-Rewound}
use dwframe.ByteArray.Readable.{Rewound-Readable}
use dwframe.ByteArray.Varint.{
  write_uint32, write_uint64, write_int32, write_int64, read_uint32, read_uint64, read_int32,
  read_int64, encode_zigzag32, encode_zigzag64,
}
use dwframe.ByteArray.Varint.Groups.{
  groups, fill_groups-groups, length-groups, gather_groups-groups,
}
use dwframe.ByteArray.Varint.Zigzag.{decode-encode32, decode-encode64, encode_zigzag-lt}

-- Writing a value in the variable-length code never runs past `tmp`, and writes one byte for each
-- started group of seven bits: at most 5 for 32 bits and 10 for 64.
write_uint_groups :
    (v w : ℕ) (b : ByteArray)
    → v < 2 ^ 32
    → w < 2 ^ 64
    → (write_uint32 v b ≡ write (groups 5 v) b)
      × (length (groups 5 v) ≤ 5)
      × (write_uint64 w b ≡ write (groups 10 w) b)
      × (length (groups 10 w) ≤ 10)
unfolding write_uint32 write_uint64
write_uint_groups v w b h k = (
  rw (fill_groups-groups 4 v (omega arith)),
  (length-groups 4 v).1,
  rw (fill_groups-groups 9 w (omega arith)),
  (length-groups 9 w).1,
)

uint32-RoundTrips :
    (host : Endian) (v : ℕ) (b : ByteArray)
    → v < 2 ^ 32
    → IsValid b
    → RoundTrips (write_uint32 v) (read_uint32 host) v b
uint32-RoundTrips host v b h valid =
    let r = write-Rewound (groups 5 v) b valid in
    let (c, e, after) =
      gather_groups-groups host 32 4 v 0 0 r.result (omega arith) (omega arith) (omega arith)
        (Rewound-Readable r) in
    record {
      written = r.written;
      rewound = r.result;
      after = c;
      writes = unfold write_uint32 in rw (fill_groups-groups 4 v (omega arith)) r.writes;
      rewinds = r.rewinds;
      reads = unfold read_uint32 in (e ∙ ap (λ x. ok (x, c)) (omega arith));
      same_endian = r.same_endian;
      valid = after;
    }

uint64-RoundTrips :
    (host : Endian) (v : ℕ) (b : ByteArray)
    → v < 2 ^ 64
    → IsValid b
    → RoundTrips (write_uint64 v) (read_uint64 host) v b
uint64-RoundTrips host v b h valid =
    let r = write-Rewound (groups 10 v) b valid in
    let (c, e, after) =
      gather_groups-groups host 64 9 v 0 0 r.result (omega arith) (omega arith) (omega arith)
        (Rewound-Readable r) in
    record {
      written = r.written;
      rewound = r.result;
      after = c;
      writes = unfold write_uint64 in rw (fill_groups-groups 9 v (omega arith)) r.writes;
      rewinds = r.rewinds;
      reads = unfold read_uint64 in (e ∙ ap (λ x. ok (x, c)) (omega arith));
      same_endian = r.same_endian;
      valid = after;
    }

-- Every unsigned value of 32 or 64 bits, and every signed one, given by its two's complement
-- pattern, that is written to a valid buffer in the variable-length code is read back from the
-- position it was written at.
pub varint-RoundTrips :
    (host : Endian) (b : ByteArray) (v w : ℕ)
    → IsValid b
    → v < 2 ^ 32
    → w < 2 ^ 64
    → RoundTrips (write_uint32 v) (read_uint32 host) v b
      × RoundTrips (write_uint64 w) (read_uint64 host) w b
      × RoundTrips (write_int32 v) (read_int32 host) v b
      × RoundTrips (write_int64 w) (read_int64 host) w b
varint-RoundTrips host b v w valid h k =
    let p = uint32-RoundTrips host (encode_zigzag32 v) b (encode_zigzag-lt v w).0 valid in
    let q = uint64-RoundTrips host (encode_zigzag64 w) b (encode_zigzag-lt v w).1 valid in
    (
      uint32-RoundTrips host v b h valid,
      uint64-RoundTrips host w b k valid,
      record {
        written = p.written;
        rewound = p.rewound;
        after = p.after;
        writes = unfold write_int32 in p.writes;
        rewinds = p.rewinds;
        reads = unfold read_int32 in rw p.reads (ap (λ x. ok (x, p.after)) (decode-encode32 v h));
        same_endian = p.same_endian;
        valid = p.valid;
      },
      record {
        written = q.written;
        rewound = q.rewound;
        after = q.after;
        writes = unfold write_int64 in q.writes;
        rewinds = q.rewinds;
        reads = unfold read_int64 in rw q.reads (ap (λ x. ok (x, q.after)) (decode-encode64 w k));
        same_endian = q.same_endian;
        valid = q.valid;
      },
    )
