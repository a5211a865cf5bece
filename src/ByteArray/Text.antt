-- ===== src/ByteArray/Text.antt =====
-- dwframe/bytearray.cc: strings, written behind their length or without it. A string is the list of
-- its bytes; its size is cut to the width of the length field, as the conversion to it does.
pub mod RoundTrip
use dwframe.Base.{ℕ, ◌%◌, ◌^◌, List, length}
use dwframe.ByteArray.{ByteArray, Result, ◌>>=◌, Endian, write, read}
use dwframe.ByteArray.Fixed.{
  write_fuint16, write_fuint32, write_fuint64, read_fuint16, read_fuint32, read_fuint64,
}
use dwframe.ByteArray.Varint.{write_uint64, read_uint64}

unfoldable pub write_string_vint : List ℕ → ByteArray → Result ByteArray
write_string_vint value b = do c ← write_uint64 (length value % 2 ^ 64) b; write value c

unfoldable pub write_string_without_length : List ℕ → ByteArray → Result ByteArray
write_string_without_length value b = write value b

module _ (host : Endian) where
  unfoldable pub write_string_f16 : List ℕ → ByteArray → Result ByteArray
  write_string_f16 value b = do c ← write_fuint16 host (length value % 2 ^ 16) b; write value c

  unfoldable pub write_string_f32 : List ℕ → ByteArray → Result ByteArray
  write_string_f32 value b = do c ← write_fuint32 host (length value % 2 ^ 32) b; write value c

  unfoldable pub write_string_f64 : List ℕ → ByteArray → Result ByteArray
  write_string_f64 value b = do c ← write_fuint64 host (length value % 2 ^ 64) b; write value c

  unfoldable pub read_string_f16 : ByteArray → Result (List ℕ × ByteArray)
  read_string_f16 b = do (len, c) ← read_fuint16 host b; read len c

  unfoldable pub read_string_f32 : ByteArray → Result (List ℕ × ByteArray)
  read_string_f32 b = do (len, c) ← read_fuint32 host b; read len c

  unfoldable pub read_string_f64 : ByteArray → Result (List ℕ × ByteArray)
  read_string_f64 b = do (len, c) ← read_fuint64 host b; read len c

  unfoldable pub read_string_vint : ByteArray → Result (List ℕ × ByteArray)
  read_string_vint b = do (len, c) ← read_uint64 host b; read len c
