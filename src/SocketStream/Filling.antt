-- ===== src/SocketStream/Filling.antt =====
-- What putting bytes into the pieces of dwframe/bytearray.cc does to the blocks.
use dwframe.Base.{
  ℕ, suc, ◌-◌, ◌≤◌, ◌≡◌, refl, sym, ap, ◌∙◌, inl, inr, Bool-cases, some, List, [], ◌∷◌, ◌++◌,
  flatten, length, take, drop, get_elem?, set, overwrite, leb, leb→le, leb→lt, length-take,
  length-drop, length-append, take_all, drop_all, append_assoc, arith, length-overwrite,
  overwrite-append, overwrite_split,
}
use dwframe.ByteArray.{Result, ok, out_of_range, fault, ◌>>=◌}
use dwframe.ByteArray.Loops.{Blocks}
use dwframe.ByteArray.Scatter.{Iovec, buffers_loop}
use dwframe.SocketStream.{fill, scatter}

-- The blocks after `bytes` were put into pieces of `back`.
pub record Filled (base npos : ℕ) (bytes : List ℕ) (front back : List (List ℕ)) (iovs : List Iovec)
    : Type 0 where
  pub nodes : List (List ℕ)
  pub returns : scatter (front ++ back) iovs bytes ≡ front ++ nodes
  pub content : flatten nodes ≡ overwrite npos bytes (flatten back)
  pub blocks : Blocks base nodes
  pub count : length nodes ≡ length back

block_behind :
    (front rest : List (List ℕ)) (n m : List ℕ)
    → (get_elem? (front ++ (n ∷ rest)) (length front) ≡ some n)
      × (set (front ++ (n ∷ rest)) (length front) m ≡ front ++ (m ∷ rest))
block_behind [] rest n m = (refl, refl)
block_behind (f ∷ front) rest n m =
    let (p, q) = block_behind front rest n m in (p, ap (λ l. f ∷ l) q)

fill-behind :
    (front rest : List (List ℕ)) (n bytes : List ℕ) (offset len : ℕ)
    → fill (front ++ (n ∷ rest)) (record { block = length front; offset = offset; len = len }) bytes
      ≡ front ++ (overwrite offset (take len bytes) n ∷ rest)
fill-behind front rest n bytes offset len =
    let (p, q) = block_behind front rest n (overwrite offset (take len bytes) n) in rw (p, fill) q

-- A copy that may end before the first block does.
overwrite_parts :
    (npos : ℕ) (bytes n more : List ℕ)
    → npos ≤ length n
    → overwrite npos (take (length n - npos) bytes) n
        ++ overwrite 0 (drop (length n - npos) bytes) more
      ≡ overwrite npos bytes (n ++ more)
overwrite_parts npos bytes n more h = elim (Bool-cases (leb (length n - npos) (length bytes))) [
  | inl t ↦ sym (
      overwrite_split npos (length n - npos) bytes n more (omega arith)
        (leb→le (length n - npos) (length bytes) t))
  | inr t ↦
      let short = leb→lt (length n - npos) (length bytes) t in
      ap (λ l. overwrite npos l n ++ overwrite 0 (drop (length n - npos) bytes) more)
        (take_all (length n - npos) bytes (omega (arith, short)))
      ∙ ap (λ l. overwrite npos bytes n ++ overwrite 0 l more)
          (drop_all (length n - npos) bytes (omega (arith, short)))
      ∙ sym (overwrite-append npos bytes n more (omega (arith, short)))
]

ok_bind :
    (v : Iovec) (r : Result (List Iovec)) (iovs : List Iovec)
    → (r >>= λ x. ok (v ∷ x)) ≡ ok iovs
    → (x : List Iovec) × (r ≡ ok x) × (v ∷ x ≡ iovs)
ok_bind v (ok x) iovs e = (x, refl, cc)
ok_bind v out_of_range iovs e = absurd (cc)
ok_bind v fault iovs e = absurd (cc)

pub scatter-Filled :
    (base npos len : ℕ) (bytes : List ℕ) (front back : List (List ℕ)) (iovs : List Iovec)
    → Blocks base back
    → npos ≤ base
    → length bytes ≤ len
    → buffers_loop back (length front) npos len ≡ ok iovs
    → Filled base npos bytes front back iovs
unfolding buffers_loop flatten
scatter-Filled base npos len bytes front [] iovs h lt few e = absurd (cc)
scatter-Filled base npos len bytes front (n ∷ rest) iovs h lt few e =
    elim (Bool-cases (leb len (length n - npos))) [
      | inl t ↦
          let short = leb→le len (length n - npos) t in
          let one : record { block = length front; offset = npos; len = len } ∷ [] ≡ iovs =
            let f = rw t at e in cc in
          rw (sym one) (record {
            nodes = overwrite npos (take len bytes) n ∷ rest;
            returns = fill-behind front rest n bytes npos len;
            content =
                ap (λ l. overwrite npos l n ++ flatten rest) (take_all len bytes few)
                ∙ sym
                    (overwrite-append npos bytes n (flatten rest) (omega (arith, h.0, short, few)));
            blocks = (
              length-overwrite npos (take len bytes) n
                    (omega (arith, length-take len bytes, short, h.0))
                  ∙ h.0,
              h.1,
            );
            count = refl;
          })
      | inr t ↦
          let c = length n - npos in
          let piece : Iovec = record { block = length front; offset = npos; len = c } in
          let first = overwrite npos (take c bytes) n in
          let (more, run, parts) =
            ok_bind piece (buffers_loop rest (suc (length front)) 0 (len - c)) iovs (rw t at e) in
          let one : length (front ++ (first ∷ [])) ≡ suc (length front) =
            omega (arith, length-append front (first ∷ [])) in
          let next =
            scatter-Filled base 0 (len - c) (drop c bytes) (front ++ (first ∷ [])) rest more h.1
              (omega arith) (omega (arith, length-drop c bytes)) (rw one run) in
          rw (sym parts) (record {
            nodes = first ∷ next.nodes;
            returns =
                ap (λ ns. scatter ns more (drop c bytes))
                  (fill-behind front rest n bytes npos c
                    ∙ sym (append_assoc front (first ∷ []) rest))
                ∙ next.returns
                ∙ append_assoc front (first ∷ []) next.nodes;
            content =
                ap (λ l. first ++ l) next.content
                ∙ overwrite_parts npos bytes n (flatten rest) (omega (arith, h.0));
            blocks = (
              length-overwrite npos (take c bytes) n (omega (arith, length-take c bytes, h.0))
                  ∙ h.0,
              next.blocks,
            );
            count = ap suc next.count;
          })
    ]
