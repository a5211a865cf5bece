-- ===== src/Http/Session/Heads.antt =====
-- The loop of `recvRequest` in dwframe/http/http_session.cc: the bytes of the head of a request.
use dwframe.Base.{
  ℕ, zero, suc, ◌-◌, ◌≤◌, ◌<◌, ◌≡◌, ◌≢◌, refl, sym, ap, ◌∙◌, Bool, true, false, List, [], ◌∷◌, ◌++◌,
  append_assoc, if◌then◌else◌, ◌==◌, length, take, arith, length-append,
}
use dwframe.Base.Text.{Text}
use dwframe.Stream.{Input, got, failed}
use dwframe.Stream.Transfer.{Feeds}
use dwframe.Http.Parser.{Event, Machine, HttpRequestParser, execute, has_error, is_finished}
use dwframe.Http.Parser.Calls.{execute-Executed}
use dwframe.Http.Session.{Head, head_read, head_closed, head_exhausted, recv_loop}

module _ {ℓ κ} {S : Type ℓ} {M : Type κ} (buff_size : ℕ) (machine : Machine M Event)
    (stream : Feeds S) (close : S → S) where
  -- Of the bytes `fed`, a front is read, `held` is in the buffer, within its size, and the peer still
  -- has the others, fewer than `left`.
  pub record Found (fed : List ℕ) (left : ℕ) (held : Text) (p : HttpRequestParser M) (s : S)
      : Type 0 where
    pub front : List ℕ
    pub split : fed ≡ front ++ (held ++ stream.feed s)
    pub fits : length held ≤ buff_size
    pub fewer : length (stream.feed s) < left
    pub empty : p.message.body ≡ []

  pub record HeadRun (fed : List ℕ) (left fuel : ℕ) (run : Head M × S) : Type (ℓ ⊔ κ) where
    pub ends : left < fuel → run.0 ≢ head_exhausted
    pub found :
        (held : Text) (p : HttpRequestParser M)
        → run.0 ≡ head_read held p
        → Found fed left held p run.1
    pub closes : run.0 ≡ head_closed → (t : S) × (run.1 ≡ close t)

  closed-HeadRun :
      (fed : List ℕ) (left fuel : ℕ) (t : S) → HeadRun fed left fuel (head_closed, close t)
  closed-HeadRun fed left fuel t = record {
    ends = λ l q. absurd (cc);
    found = λ k q r. absurd (cc);
    closes = λ r. (t, refl);
  }

  if-HeadRun :
      (fed : List ℕ) (left fuel : ℕ) (b : Bool) (x y : Head M × S)
      → HeadRun fed left fuel x
      → HeadRun fed left fuel y
      → HeadRun fed left fuel (if b then x else y)
  if-HeadRun fed left fuel true x y p q = p
  if-HeadRun fed left fuel false x y p q = q

  pub regroup : (a b c d : List ℕ) → a ++ ((b ++ c) ++ d) ≡ (a ++ b) ++ (c ++ d)
  regroup a b c d = simp (append_assoc)

  pub recv_loop-HeadRun :
      (fuel : ℕ) (front held fed : List ℕ) (p : HttpRequestParser M) (s : S)
      → fed ≡ front ++ (held ++ stream.feed s)
      → length held ≤ buff_size
      → p.message.body ≡ []
      → HeadRun fed
          (length (stream.feed s))
          fuel
          (recv_loop buff_size machine stream.read close fuel held p s)
  unfolding recv_loop
  recv_loop-HeadRun zero front held fed p s e h z = record {
    ends = λ l. absurd (omega arith);
    found = λ k q r. absurd (cc);
    closes = λ r. absurd (cc);
  }
  recv_loop-HeadRun (suc fuel) front held fed p s e h z =
      go (λ front2 held2 p2. recv_loop-HeadRun fuel front2 held2 fed p2 next)
        (stream.read (buff_size - length held) s).0 refl
    where
      next : S
      next = (stream.read (buff_size - length held) s).1

      go :
          ((front2 held2 : List ℕ) (p2 : HttpRequestParser M)
            → fed ≡ front2 ++ (held2 ++ stream.feed next)
            → length held2 ≤ buff_size
            → p2.message.body ≡ []
            → HeadRun fed
                (length (stream.feed next))
                fuel
                (recv_loop buff_size machine stream.read close fuel held2 p2 next))
          → (i : Input) → (stream.read (buff_size - length held) s).0 ≡ i
          → HeadRun fed
              (length (stream.feed s))
              (suc fuel)
              (recv_loop buff_size machine stream.read close (suc fuel) held p s)
      go again failed r = rw (r, recv_loop) (closed-HeadRun fed _ (suc fuel) next)
      go again (got []) r = rw (r, recv_loop) (closed-HeadRun fed _ (suc fuel) next)
      go again (got (b ∷ bs)) r =
          let (order, fits) = stream.in_order (buff_size - length held) s (b ∷ bs) r in
          let buffer = held ++ (b ∷ bs) in
          let run = execute machine buffer p in
          let rest = take (length buffer - run.0) run.1 in
          let parsed = execute-Executed machine buffer p in
          let read = parsed.front in
          let cut = parsed.split in
          let split : fed ≡ (front ++ read) ++ (rest ++ stream.feed next) =
            e
            ∙ ap (λ l. front ++ (held ++ l)) order
            ∙ ap (λ l. front ++ l) (sym (append_assoc held (b ∷ bs) (stream.feed next)))
            ∙ ap (λ l. front ++ (l ++ stream.feed next)) cut
            ∙ regroup front read rest (stream.feed next) in
          let size : length rest ≤ buff_size = omega (
            arith,
            fits,
            h,
            ap (λ l. length l) cut,
            length-append read rest,
            length-append held (b ∷ bs),
          ) in
          let shorter : length (stream.feed next) < length (stream.feed s) =
            omega (arith, ap (λ l. length l) order, length-append (b ∷ bs) (stream.feed next)) in
          let unset : run.2.message.body ≡ [] = parsed.body ∙ z in
          let more = again (front ++ read) rest run.2 split size unset in
          let found : HeadRun fed (length (stream.feed s)) (suc fuel) (head_read rest run.2, next) =
            record {
              ends = λ l q. absurd (cc);
              found = λ k q t.
                  let same : rest ≡ k = cc in
                  let parser : run.2 ≡ q = cc in
                  rw (sym same) (record {
                    front = front ++ read;
                    split = split;
                    fits = size;
                    fewer = shorter;
                    empty = rw (sym parser) unset;
                  });
              closes = λ t. absurd (cc);
            } in
          let later : HeadRun fed (length (stream.feed s)) (suc fuel)
              (recv_loop buff_size machine stream.read close fuel rest run.2 next) =
            record {
              ends = λ l. more.ends (omega arith);
              found = λ k q t.
                  let f = more.found k q t in
                  record {
                    front = f.front;
                    split = f.split;
                    fits = f.fits;
                    fewer = omega (arith, f.fewer);
                    empty = f.empty;
                  };
              closes = more.closes;
            } in
          rw (r, recv_loop)
            (if-HeadRun fed _ (suc fuel) (has_error machine run.2) _ _
              (closed-HeadRun fed _ (suc fuel) next)
              (if-HeadRun fed _ (suc fuel) (length buffer - run.0 == buff_size) _ _
                (closed-HeadRun fed _ (suc fuel) next)
                (if-HeadRun fed _ (suc fuel) (is_finished machine run.2) _ _ found later)))
