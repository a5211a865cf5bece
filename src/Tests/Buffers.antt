-- ===== src/Tests/Buffers.antt =====
-- Buffers of blocks of four bytes, for dwframe/bytearray.cc.
use dwframe.Base.{flatten, true, inr, ◌≡◌, ℕ, refl, List, [], ◌∷◌, some, none, arith}
use dwframe.ByteArray.{ByteArray, ok, big_endian, little_endian, read, write}
use dwframe.ByteArray.Invariant.{IsValid}
use dwframe.ByteArray.Files.{write_to_file}
use dwframe.ByteArray.Files.Saving.{write_to_file-Saved}
use dwframe.ByteArray.Writing.{Wrote, write-Wrote}
use dwframe.ByteArray.Reading.{Fetched, read-Fetched}
use dwframe.ByteArray.RoundTrip.{RoundTrips, write-RoundTrips}
use dwframe.ByteArray.Fixed.{
  write_fuint8, write_fuint16, write_fuint32, write_fuint64, read_fuint8, read_fuint16,
  read_fuint32, read_fuint64,
}
use dwframe.ByteArray.Fixed.RoundTrip.{fixed-RoundTrips}
use dwframe.ByteArray.Varint.{
  write_uint32, write_uint64, write_int32, write_int64, read_uint32, read_uint64, read_int32,
  read_int64,
}
use dwframe.ByteArray.Text.{
  write_string_f16, write_string_f32, write_string_f64, read_string_f16, read_string_f32,
  read_string_f64,
}
use dwframe.ByteArray.Text.RoundTrip.{string-RoundTrips_fixed}
use dwframe.ByteArray.Varint.RoundTrip.{varint-RoundTrips}

-- Two blocks of four bytes with six bytes, one of them read.
abbrev pub started : ByteArray
started = record {
  base_size = 4;
  position = 1;
  capacity = 8;
  size = 6;
  endian = big_endian;
  nodes = (1 ∷ 2 ∷ 3 ∷ 4 ∷ []) ∷ (5 ∷ 6 ∷ 0 ∷ 0 ∷ []) ∷ [];
  cur = some 0;
}

pub started-IsValid : IsValid started
started-IsValid = record {
  index = 0;
  base_pos = omega arith;
  blocks = (refl, (refl, tt));
  has_root = omega arith;
  total = refl;
  cursor = refl;
  lower = omega arith;
  upper = omega arith;
  within = omega arith;
  fits = omega arith;
}

-- One block that is full, with the position at its end.
abbrev at_end : ByteArray
at_end = record {
  base_size = 4;
  position = 4;
  capacity = 4;
  size = 4;
  endian = big_endian;
  nodes = (1 ∷ 2 ∷ 3 ∷ 4 ∷ []) ∷ [];
  cur = none;
}

at_end-IsValid : IsValid at_end
at_end-IsValid = record {
  index = 1;
  base_pos = omega arith;
  blocks = (refl, tt);
  has_root = omega arith;
  total = refl;
  cursor = refl;
  lower = omega arith;
  upper = omega arith;
  within = omega arith;
  fits = omega arith;
}

abbrev six : List ℕ
six = 11 ∷ 12 ∷ 13 ∷ 14 ∷ 15 ∷ 16 ∷ []

write-RoundTrips_example : RoundTrips (write six) (read 6) six at_end
write-RoundTrips_example = write-RoundTrips six at_end (omega arith) at_end-IsValid

write-Wrote_example : Wrote six started
write-Wrote_example = write-Wrote six started started-IsValid

varint-RoundTrips_example :
    RoundTrips (write_uint32 300) (read_uint32 little_endian) 300 started
    × RoundTrips (write_uint64 70000) (read_uint64 little_endian) 70000 started
    × RoundTrips (write_int32 300) (read_int32 little_endian) 300 started
    × RoundTrips (write_int64 70000) (read_int64 little_endian) 70000 started
varint-RoundTrips_example =
    varint-RoundTrips little_endian started 300 70000 started-IsValid (omega arith) (omega arith)

fixed-RoundTrips_example :
    RoundTrips (write_fuint8 little_endian 200) (read_fuint8 little_endian) 200 started
    × RoundTrips (write_fuint16 little_endian 300) (read_fuint16 little_endian) 300 started
    × RoundTrips (write_fuint32 little_endian 70000) (read_fuint32 little_endian) 70000 started
    × RoundTrips (write_fuint64 little_endian 5) (read_fuint64 little_endian) 5 started
fixed-RoundTrips_example =
    fixed-RoundTrips little_endian started 200 300 70000 5 started-IsValid (omega arith)
      (omega arith) (omega arith) (omega arith)

read-Fetched_example : Fetched 4 started
read-Fetched_example = read-Fetched 4 started started-IsValid (omega arith) (omega arith)

string-RoundTrips_fixed_example :
    RoundTrips (write_string_f16 little_endian six) (read_string_f16 little_endian) six started
    × RoundTrips (write_string_f32 little_endian six) (read_string_f32 little_endian) six started
    × RoundTrips (write_string_f64 little_endian six) (read_string_f64 little_endian) six started
string-RoundTrips_fixed_example =
    string-RoundTrips_fixed little_endian six six six started started-IsValid (omega arith)
      (omega arith) (omega arith) (omega arith) (omega arith) (omega arith)

write_to_file-Saved_example : write_to_file true started ≡ ok (some (2 ∷ 3 ∷ 4 ∷ 5 ∷ 6 ∷ []))
unfolding flatten
write_to_file-Saved_example =
    write_to_file-Saved true started started-IsValid (omega arith) (omega arith) (inr (omega arith))
