-- ===== src/Http/Session/Turns.antt =====
-- The turns of the loop of `recvRequest` in dwframe/http/http_session.cc.
use dwframe.Base.{
  ℕ, zero, suc, ◌-◌, ◌≡◌, ◌≢◌, refl, ◌⊎◌, inl, inr, Bool-cases, true, false, List, [], ◌∷◌, ◌++◌,
  ◌==◌, length, take,
}
use dwframe.Base.Text.{Text}
use dwframe.Stream.{Input, got, failed}
use dwframe.Stream.Transfer.{Feeds}
use dwframe.Http.Parser.{Event, Machine, HttpRequestParser, execute, has_error, is_finished}
use dwframe.Http.Session.{Head, head_read, head_closed, head_exhausted, recv_loop}

module _ {ℓ κ} {S : Type ℓ} {M : Type κ} (buff_size : ℕ) (machine : Machine M Event)
    (stream : Feeds S) (close : S → S) where
  -- The parser after it has seen the buffer and what was read behind it, and the bytes that it leaves.
  abbrev pub parsed : Text → Text → HttpRequestParser M → HttpRequestParser M
  parsed held bytes p = (execute machine (held ++ bytes) p).2

  abbrev pub unread_of : Text → Text → HttpRequestParser M → Text
  unread_of held bytes p =
      let run = execute machine (held ++ bytes) p in take (length (held ++ bytes) - run.0) run.1

  abbrev pub after_read : Text → S → S
  after_read held s = (stream.read (buff_size - length held) s).1

  -- The turns of the loop with `held` in the buffer, from one connection to another: the peer hangs up or
  -- fails, the parser is in error, the buffer is full of bytes that it leaves, the head is complete, or
  -- there is another turn.
  pub data Turns : Text → HttpRequestParser M → S → Head M → S → Type (ℓ ⊔ κ) where
    hung :
        (held : Text) (p : HttpRequestParser M) (s : S)
        → ((stream.read (buff_size - length held) s).0 ≡ failed)
          ⊎ ((stream.read (buff_size - length held) s).0 ≡ got [])
        → Turns held p s head_closed (close (after_read held s))
    broken :
        (held : Text) (p : HttpRequestParser M) (s : S) (b : ℕ) (bs : List ℕ)
        → (stream.read (buff_size - length held) s).0 ≡ got (b ∷ bs)
        → has_error machine (parsed held (b ∷ bs) p) ≡ true
        → Turns held p s head_closed (close (after_read held s))
    full :
        (held : Text) (p : HttpRequestParser M) (s : S) (b : ℕ) (bs : List ℕ)
        → (stream.read (buff_size - length held) s).0 ≡ got (b ∷ bs)
        → has_error machine (parsed held (b ∷ bs) p) ≡ false
        → (length (held ++ (b ∷ bs)) - (execute machine (held ++ (b ∷ bs)) p).0 == buff_size) ≡ true
        → Turns held p s head_closed (close (after_read held s))
    complete :
        (held : Text) (p : HttpRequestParser M) (s : S) (b : ℕ) (bs : List ℕ)
        → (stream.read (buff_size - length held) s).0 ≡ got (b ∷ bs)
        → has_error machine (parsed held (b ∷ bs) p) ≡ false
        → (length (held ++ (b ∷ bs)) - (execute machine (held ++ (b ∷ bs)) p).0 == buff_size)
          ≡ false
        → is_finished machine (parsed held (b ∷ bs) p) ≡ true
        → Turns held p s
            (head_read (unread_of held (b ∷ bs) p) (parsed held (b ∷ bs) p))
            (after_read held s)
    further :
        (held : Text) (p : HttpRequestParser M) (s : S) (b : ℕ) (bs : List ℕ) (head : Head M)
        (t : S)
        → (stream.read (buff_size - length held) s).0 ≡ got (b ∷ bs)
        → has_error machine (parsed held (b ∷ bs) p) ≡ false
        → (length (held ++ (b ∷ bs)) - (execute machine (held ++ (b ∷ bs)) p).0 == buff_size)
          ≡ false
        → is_finished machine (parsed held (b ∷ bs) p) ≡ false
        → Turns (unread_of held (b ∷ bs) p) (parsed held (b ∷ bs) p) (after_read held s) head t
        → Turns held p s head t

  -- The loop makes such turns, unless its fuel is too little.
  pub recv_loop-Turns :
      (fuel : ℕ) (held : Text) (p : HttpRequestParser M) (s : S)
      → (recv_loop buff_size machine stream.read close fuel held p s).0 ≢ head_exhausted
      → let run = recv_loop buff_size machine stream.read close fuel held p s in
        Turns held p s run.0 run.1
  unfolding recv_loop
  recv_loop-Turns zero held p s = λ h. absurd (h refl)
  recv_loop-Turns (suc fuel) held p s =
      go (λ held2 p2. recv_loop-Turns fuel held2 p2 (after_read held s))
        (stream.read (buff_size - length held) s).0 refl
    where
      go :
          ((held2 : Text) (p2 : HttpRequestParser M)
            → let run =
                recv_loop buff_size machine stream.read close fuel held2 p2 (after_read held s) in
              run.0 ≢ head_exhausted → Turns held2 p2 (after_read held s) run.0 run.1)
          → (i : Input) → (stream.read (buff_size - length held) s).0 ≡ i
          → let run = recv_loop buff_size machine stream.read close (suc fuel) held p s in
            run.0 ≢ head_exhausted → Turns held p s run.0 run.1
      go more failed r = rw (r, recv_loop) (λ h. hung held p s (inl r))
      go more (got []) r = rw (r, recv_loop) (λ h. hung held p s (inr r))
      go more (got (b ∷ bs)) r = elim (Bool-cases (has_error machine (parsed held (b ∷ bs) p))) [
        | inl e ↦ rw (r, recv_loop, e) (λ h. broken held p s b bs r e)
        | inr e ↦
            elim (Bool-cases
              (length (held ++ (b ∷ bs)) - (execute machine (held ++ (b ∷ bs)) p).0 == buff_size)) [
                | inl f ↦ rw (r, recv_loop, e, f) (λ h. full held p s b bs r e f)
                | inr f ↦ elim (Bool-cases (is_finished machine (parsed held (b ∷ bs) p))) [
                  | inl g ↦ rw (r, recv_loop, e, f, g) (λ h. complete held p s b bs r e f g)
                  | inr g ↦
                      rw (r, recv_loop, e, f, g)
                        (λ h.
                          further held p s b bs _ _ r e f g
                            (more (unread_of held (b ∷ bs) p) (parsed held (b ∷ bs) p) h))
                ]
              ]
      ]
