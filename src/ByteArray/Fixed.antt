-- ===== src/ByteArray/Fixed.antt =====
-- dwframe/bytearray.cc and dwframe/endian.h: the reads and writes of fixed width, with the byte
-- order of the buffer. `host` is `dwframe_byte_order`, the order of the machine. A signed value is
-- its two's complement pattern, and a float or a double the pattern that `memcpy` copies.
pub mod Order
pub mod RoundTrip
use mathlib.Core.List.{reverse}
use dwframe.Base.{ℕ, zero, suc, ◌+◌, ◌*◌, ◌/◌, ◌%◌, Bool, true, false, List, [], ◌∷◌, if◌then◌else◌}
use dwframe.ByteArray.{ByteArray, Result, ok, ◌>>=◌, Endian, little_endian, big_endian, write, read}

-- The bytes of a value of `w` bytes, lowest first, and back.
unfoldable pub le_bytes : ℕ → ℕ → List ℕ
le_bytes zero v = []
le_bytes (suc w) v = (v % 256) ∷ le_bytes w (v / 256)

unfoldable pub of_le_bytes : List ℕ → ℕ
of_le_bytes [] = 0
of_le_bytes (x ∷ xs) = x + 256 * of_le_bytes xs

-- The bytes of a variable in memory, and the variable that is read from them.
unfoldable pub to_memory : Endian → ℕ → ℕ → List ℕ
to_memory little_endian w v = le_bytes w v
to_memory big_endian w v = reverse (le_bytes w v)

unfoldable pub of_memory : Endian → List ℕ → ℕ
of_memory little_endian xs = of_le_bytes xs
of_memory big_endian xs = of_le_bytes (reverse xs)

-- `bswap_16`, `bswap_32` and `bswap_64`, by the width in bytes.
unfoldable pub byteswap : ℕ → ℕ → ℕ
byteswap w v = of_le_bytes (reverse (le_bytes w v))

abbrev pub same_order : Endian → Endian → Bool
same_order little_endian little_endian = true
same_order big_endian big_endian = true
same_order _ _ = false

-- `if(m_endian != dwframe_byte_order) value = byteswap(value);`
abbrev pub ordered : Endian → ℕ → ℕ → ByteArray → ℕ
ordered host w v b = if same_order b.endian host then v else byteswap w v

module _ (host : Endian) where
  unfoldable pub write_fint8 : ℕ → ByteArray → Result ByteArray
  write_fint8 v b = write (to_memory host 1 v) b

  unfoldable pub write_fuint8 : ℕ → ByteArray → Result ByteArray
  write_fuint8 v b = write (to_memory host 1 v) b

  unfoldable pub write_fint16 : ℕ → ByteArray → Result ByteArray
  write_fint16 v b = write (to_memory host 2 (ordered host 2 v b)) b

  unfoldable pub write_fuint16 : ℕ → ByteArray → Result ByteArray
  write_fuint16 v b = write (to_memory host 2 (ordered host 2 v b)) b

  unfoldable pub write_fint32 : ℕ → ByteArray → Result ByteArray
  write_fint32 v b = write (to_memory host 4 (ordered host 4 v b)) b

  unfoldable pub write_fuint32 : ℕ → ByteArray → Result ByteArray
  write_fuint32 v b = write (to_memory host 4 (ordered host 4 v b)) b

  unfoldable pub write_fint64 : ℕ → ByteArray → Result ByteArray
  write_fint64 v b = write (to_memory host 8 (ordered host 8 v b)) b

  unfoldable pub write_fuint64 : ℕ → ByteArray → Result ByteArray
  write_fuint64 v b = write (to_memory host 8 (ordered host 8 v b)) b

  unfoldable pub write_float : ℕ → ByteArray → Result ByteArray
  unfolding write_fuint32
  write_float v b = write_fuint32 v b

  unfoldable pub write_double : ℕ → ByteArray → Result ByteArray
  unfolding write_fuint64
  write_double v b = write_fuint64 v b

  unfoldable pub read_fint8 : ByteArray → Result (ℕ × ByteArray)
  read_fint8 b = read 1 b >>= λ r. ok (of_memory host r.0, r.1)

  unfoldable pub read_fuint8 : ByteArray → Result (ℕ × ByteArray)
  read_fuint8 b = read 1 b >>= λ r. ok (of_memory host r.0, r.1)

  -- The macro `XX(type)`, by the width of the type.
  unfoldable pub read_ordered : ℕ → ByteArray → Result (ℕ × ByteArray)
  read_ordered w b = read w b >>= λ r.
      let v = of_memory host r.0 in ok (if same_order b.endian host then v else byteswap w v, r.1)

  unfoldable pub read_fint16 : ByteArray → Result (ℕ × ByteArray)
  unfolding read_ordered
  read_fint16 b = read_ordered 2 b

  unfoldable pub read_fuint16 : ByteArray → Result (ℕ × ByteArray)
  unfolding read_ordered
  read_fuint16 b = read_ordered 2 b

  unfoldable pub read_fint32 : ByteArray → Result (ℕ × ByteArray)
  unfolding read_ordered
  read_fint32 b = read_ordered 4 b

  unfoldable pub read_fuint32 : ByteArray → Result (ℕ × ByteArray)
  unfolding read_ordered
  read_fuint32 b = read_ordered 4 b

  unfoldable pub read_fint64 : ByteArray → Result (ℕ × ByteArray)
  unfolding read_ordered
  read_fint64 b = read_ordered 8 b

  unfoldable pub read_fuint64 : ByteArray → Result (ℕ × ByteArray)
  unfolding read_ordered
  read_fuint64 b = read_ordered 8 b

  unfoldable pub read_float : ByteArray → Result (ℕ × ByteArray)
  unfolding read_fuint32
  read_float b = read_fuint32 b

  unfoldable pub read_double : ByteArray → Result (ℕ × ByteArray)
  unfolding read_fuint64
  read_double b = read_fuint64 b
