-- ===== src/ByteArray/Files.antt =====
-- `writeToFile` of dwframe/bytearray.cc. The file is the list of its bytes, and whether it opens is
-- a parameter.
pub mod Saving
use dwframe.Base.{
  ℕ, ◌+◌, ◌-◌, ◌%◌, ◌^◌, min, Bool, Option, none, some, List, [], ◌∷◌, ◌++◌, take, drop, ltb, leb,
  ◌||◌, ◌==◌, if◌then◌else◌,
}
use dwframe.ByteArray.{ByteArray, Result, ok, fault, ◌>>=◌, blocks_from, get_read_size}

-- `diff` is an `int`, so an offset of 2 ^ 31 or more is below 0 and what is written starts in front of the
-- block, which is a fault. The loop over the blocks from `cur` on, and the bytes it writes. A null pointer is read through, and
-- a length below 0 is refused by the stream, whose state the loop does not look at: it is a fault.
unfoldable pub save_loop : ℕ → List (List ℕ) → ℕ → ℕ → Result (List ℕ)
save_loop base [] pos read_size = if read_size == 0 then ok [] else fault
save_loop base (cur ∷ next) pos read_size =
    let diff = pos % base % 2 ^ 32 in
    let whole = min read_size base in
    let len = whole - diff in
    let later = save_loop base next (pos + len) (read_size - len) in
    if read_size == 0
    then ok []
    else if leb (2 ^ 31) diff || ltb whole diff
    then fault
    else later >>= λ bytes. ok (take len (drop diff cur) ++ bytes)

-- `writeToFile`: the content of the file, or that it cannot be opened. The size is taken as a signed
-- number, and one below 0 is nothing to write.
unfoldable pub write_to_file : Bool → ByteArray → Result (Option (List ℕ))
write_to_file opens b =
    let read_size = get_read_size b in
    let loop =
      save_loop b.base_size (blocks_from b.nodes b.cur) b.position
        (if ltb read_size (2 ^ 63) then read_size else 0) in
    if opens then (loop >>= λ bytes. ok (some bytes)) else ok none
