-- ===== src/ByteArray/Scatter/Spans.antt =====
-- The bytes that the pieces of dwframe/bytearray.cc stand for.
use dwframe.Base.{
  ℕ, zero, suc, ◌+◌, ◌-◌, ◌%◌, ◌≤◌, ◌<◌, ◌≡◌, refl, sym, ap, ◌∙◌, inl, inr, Bool-cases, false, some,
  List, [], ◌∷◌, ◌++◌, flatten, length, get_elem?, take, drop, leb, ltb, ◌==◌, leb→le, leb→lt, All,
  All-drop, arith, append-nil, length-append, length-drop, take-append, take-append_le, take_all,
  take-take, length-take, drop-append_le, drop-append, drop-take,
}
use dwframe.ByteArray.{ByteArray, ok, get_read_size, add_capacity}
use dwframe.ByteArray.Loops.{Blocks}
use dwframe.ByteArray.Invariant.{
  IsValid, unread, npos_lem, inside, cut, back_room, pointer-some, Grown, add_capacity-Grown,
}
use dwframe.ByteArray.Scatter.{
  Iovec, buffers_loop, buffers_from, shorter, get_read_buffers, get_write_buffers, slice, gather,
}

-- A piece lies in a block of the base size.
abbrev pub Inside : ℕ → Iovec → Type 0
Inside base v = v.offset + v.len ≤ base

-- The loop from block `k` gives pieces within their blocks whose bytes are the next ones.
record Spans (base k npos len : ℕ) (nodes back : List (List ℕ)) : Type 0 where
  iovs : List Iovec
  returns : buffers_loop back k npos len ≡ ok iovs
  content : gather nodes iovs ≡ take len (drop npos (flatten back))
  within : All (Inside base) iovs

block_at :
    (nodes rest : List (List ℕ)) (n : List ℕ) (k : ℕ)
    → drop k nodes ≡ n ∷ rest
    → (get_elem? nodes k ≡ some n) × (drop (suc k) nodes ≡ rest)
block_at [] rest n zero e = absurd (cc)
block_at [] rest n (suc k) e = absurd (cc)
block_at (m ∷ nodes) rest n zero e = (cc, cc)
block_at (m ∷ nodes) rest n (suc k) e = block_at nodes rest n k e

slice-block :
    (nodes : List (List ℕ)) (n : List ℕ) (v : Iovec)
    → get_elem? nodes v.block ≡ some n
    → slice nodes v ≡ take v.len (drop v.offset n)
slice-block nodes n v e = rw (e, slice)

buffers_loop-Spans :
    (base k npos len : ℕ) (nodes back : List (List ℕ))
    → drop k nodes ≡ back
    → Blocks base back
    → npos ≤ base
    → npos + len ≤ length (flatten back)
    → 0 < len
    → Spans base k npos len nodes back
unfolding buffers_loop flatten
buffers_loop-Spans base k npos len nodes [] e h lt fits pos = absurd (omega arith)
buffers_loop-Spans base k npos len nodes (n ∷ rest) e h lt fits pos =
    let (here, next) = block_at nodes rest n k e in
    let size = length-append n (flatten rest) in
    let left = length-drop npos n in
    let start = drop-append_le npos n (flatten rest) (omega (arith, h.0)) in
    elim (Bool-cases (leb len (length n - npos))) [
      | inl t ↦
          let short = leb→le len (length n - npos) t in
          record {
            iovs = record { block = k; offset = npos; len = len } ∷ [];
            returns = rw t;
            content =
                append-nil (slice nodes (record { block = k; offset = npos; len = len }))
                ∙ slice-block nodes n (record { block = k; offset = npos; len = len }) here
                ∙ sym (
                    ap (take len) start
                    ∙ take-append_le len (drop npos n) (flatten rest) (omega (arith, left)));
            within = (omega (arith, h.0, short), tt);
          }
      | inr t ↦
          let long = leb→lt len (length n - npos) t in
          let more =
            buffers_loop-Spans base (suc k) 0 (len - (length n - npos)) nodes rest next h.1
              (omega arith) (omega (arith, size)) (omega arith) in
          record {
            iovs = record { block = k; offset = npos; len = length n - npos } ∷ more.iovs;
            returns = rw (t, more.returns);
            content =
                ap (λ l. l ++ gather nodes more.iovs)
                  (slice-block nodes n (record { block = k; offset = npos; len = length n - npos })
                      here
                    ∙ take_all (length n - npos) (drop npos n) (omega (arith, left)))
                ∙ ap (λ l. drop npos n ++ l)
                    (more.content
                      ∙ ap (λ j. take j (flatten rest)) {y = len - length (drop npos n)}
                          (omega (arith, left)))
                ∙ sym (
                    ap (take len) start
                    ∙ take-append len (drop npos n) (flatten rest) (omega (arith, left, long)));
            within = (omega (arith, h.0), more.within);
          }
    ]

-- What the two operations answer for `n` bytes of a buffer: pieces within blocks whose bytes are those
-- that the blocks hold from the position on.
pub record Gathered (n : ℕ) (b : ByteArray) : Type 0 where
  pub iovs : List Iovec
  pub returns : buffers_from b.nodes b.cur (b.position % b.base_size) n ≡ ok iovs
  pub content : gather b.nodes iovs ≡ take n (drop b.position (flatten b.nodes))
  pub within : All (Inside b.base_size) iovs

buffers_from-Gathered :
    (n : ℕ) (b : ByteArray) → IsValid b → 0 < n → b.position + n ≤ b.capacity → Gathered n b
unfolding buffers_from
buffers_from-Gathered n b v pos room =
    let c = cut n b v pos room in
    let npos = npos_lem b v in
    let here : b.cur ≡ some v.index =
      v.cursor ∙ pointer-some b.nodes v.index (inside n b v pos room) in
    let s =
      buffers_loop-Spans b.base_size v.index (b.position % b.base_size) n b.nodes
        (drop v.index b.nodes) refl (All-drop _ v.index b.nodes v.blocks)
        (omega (arith, npos, v.upper)) (omega (arith, npos, back_room n b v pos room)) pos in
    record {
      iovs = s.iovs;
      returns = rw (here, buffers_from) s.returns;
      content =
          s.content
          ∙ ap (take n) (
              sym (
                drop-append b.position (b.position % b.base_size) (flatten (take v.index b.nodes))
                  (flatten (drop v.index b.nodes)) (omega (arith, npos, c.front, v.lower)))
              ∙ ap (drop b.position) (sym c.joined));
      within = s.within;
    }

-- What `getReadBuffers` gives: as many bytes as asked for and left, in pieces within blocks, and they
-- are the next ones to be read.
pub record ReadPieces (len : ℕ) (b : ByteArray) : Type 0 where
  pub iovs : List Iovec
  pub returns : get_read_buffers len b ≡ ok (shorter len (get_read_size b), iovs)
  pub content : gather b.nodes iovs ≡ take len (unread b)
  pub within : All (Inside b.base_size) iovs

take-shorter : (len left : ℕ) (xs : List ℕ) → take (shorter len left) xs ≡ take len (take left xs)
take-shorter len left xs = elim (Bool-cases (ltb left len)) [
  | inl t ↦ rw t (sym (take_all len (take left xs) (ground (arith, length-take left xs))))
  | inr t ↦ rw t (sym (take-take len left xs (ground arith)))
]

suc_is_not_zero : (n : ℕ) → (suc n == 0) ≡ false
suc_is_not_zero n = ground arith

shorter-left : (len left : ℕ) → shorter len left ≤ left
shorter-left len left = ground arith

-- On a valid buffer `getReadBuffers` answers the smaller of the length and what is left, with
-- pieces that lie within their blocks and whose bytes in order are the next ones to be read.
pub get_read_buffers-ReadPieces : (len : ℕ) (b : ByteArray) → IsValid b → ReadPieces len b
unfolding get_read_buffers
get_read_buffers-ReadPieces len b v = go (shorter len (get_read_size b)) refl
  where
    next :
        take (shorter len (get_read_size b)) (drop b.position (flatten b.nodes))
        ≡ take len (unread b)
    next =
        take-shorter len (b.size - b.position) (drop b.position (flatten b.nodes))
        ∙ ap (take len) (sym (drop-take b.position b.size (flatten b.nodes)))

    answer :
        (n : ℕ) (iovs : List Iovec)
        → shorter len (get_read_size b) ≡ suc n
        → buffers_from b.nodes b.cur (b.position % b.base_size) (suc n) ≡ ok iovs
        → get_read_buffers len b ≡ ok (shorter len (get_read_size b), iovs)
    answer n iovs e r = rw (e, get_read_buffers, r, suc_is_not_zero n)

    go : (n : ℕ) → shorter len (get_read_size b) ≡ n → ReadPieces len b
    go zero e = record {
      iovs = [];
      returns = rw (e, get_read_buffers);
      content = rw (sym next, e);
      within = tt;
    }
    go (suc n) e =
        let limit = shorter-left len (get_read_size b) in
        let g =
          buffers_from-Gathered (suc n) b v (omega arith)
            (omega (arith, e, limit, v.within, v.fits)) in
        record {
          iovs = g.iovs;
          returns = answer n g.iovs e g.returns;
          content = g.content ∙ ap (λ k. take k (drop b.position (flatten b.nodes))) (sym e) ∙ next;
          within = g.within;
        }

-- What `getWriteBuffers` gives: room for as many bytes as asked for, in pieces within blocks, in a
-- buffer with the same content, where the bytes of the pieces are those from the position on.
pub record WritePieces (len : ℕ) (b : ByteArray) : Type 0 where
  pub iovs : List Iovec
  pub result : ByteArray
  pub returns : get_write_buffers len b ≡ ok (len, iovs, result)
  pub grown : Grown len b result
  pub content : gather result.nodes iovs ≡ take len (drop result.position (flatten result.nodes))
  pub within : All (Inside result.base_size) iovs
  pub starts :
      0 < len
      → buffers_from result.nodes result.cur (result.position % result.base_size) len ≡ ok iovs
  pub empty : len ≡ 0 → iovs ≡ []

-- A
pub get_write_buffers-WritePieces : (len : ℕ) (b : ByteArray) → IsValid b → WritePieces len b
unfolding get_write_buffers add_capacity
get_write_buffers-WritePieces zero b v = record {
  iovs = [];
  result = b;
  returns = refl;
  grown = add_capacity-Grown 0 b v;
  content = refl;
  within = tt;
  starts = λ h. absurd (omega (arith, h));
  empty = λ e. refl;
}
get_write_buffers-WritePieces (suc n) b v =
    let g = add_capacity-Grown (suc n) b v in
    let c = add_capacity (suc n) b in
    let s = buffers_from-Gathered (suc n) c g.valid (omega arith) g.room in
    record {
      iovs = s.iovs;
      result = c;
      returns = rw (s.returns, suc_is_not_zero n);
      grown = g;
      content = s.content;
      within = s.within;
      starts = λ h. s.returns;
      empty = λ e. absurd (omega (arith, e));
    }
