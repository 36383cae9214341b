-- ===== src/Child/Between.antt =====
-- RosaServer/childprocess.cpp and RosaServerSatellite/main.cpp: a receiver that runs between the two
-- writes of a sender.
use rosa_server.Base.{
  ℕ, zero, suc, ◌^◌, ◌<◌, ◌≡◌, refl, sym, ap, ◌∙◌, ◌⊎◌, inl, inr, false, none, List, [], ◌++◌,
  length, returns, ◌==◌, arith, append_nil,
}
use rosa_server.Child.Pipe.{
  Taken, taken, nothing_yet, put, PipeCalls, header, after_body, receive_message, send_header,
  send_body, IsPipe,
}
use rosa_server.Child.Frames.{send_body-whole, send_header-whole, receive-header}

module _ {P : Type 0} (calls : PipeCalls P) (content : P → List ℕ)
    (pipe : IsPipe calls content) where
  after_body_missing :
      (n : ℕ) (p : P) (t : Taken)
      → 0 < n
      → (t ≡ taken []) ⊎ ((0 < n) × (t ≡ nothing_yet))
      → after_body calls n (p, t) ≡ (p, returns none)
  after_body_missing zero p t l (inl e) = absurd (omega (arith, l))
  after_body_missing (suc n) p t l (inl e) =
      let h : (0 == suc n) ≡ false = ground arith in rw e (rw h refl)
  after_body_missing n p t l (inr (k, e)) = rw e refl

  receive-header_alone :
      (p : P) (n : ℕ)
      → n < 2 ^ 32
      → 0 < n
      → content p ≡ header n
      → ((receive_message calls p).1 ≡ returns none) × (content (receive_message calls p).0 ≡ [])
  receive-header_alone p n l k e =
      let (q, s, c) =
        receive-header calls content pipe p n [] l (e ∙ sym (append_nil (header n))) in
      let (d, a) = pipe.read_empty q n c in
      let r = calls.read q n in
      let whole = s ∙ after_body_missing n r.0 r.1 k a in
      (ap (λ x. x.1) whole, ap (λ x. content x.0) whole ∙ d)

-- On any pipe that does what is documented: when a message that is not empty is sent over an empty
-- pipe and the other side receives between the write of the header and the write of the body, then it
-- gets none and the header is gone; once the body is written, the pipe holds the body without
-- a header, so that the next header is read out of the bytes of the message.
pub receive_between-loses_header :
    {P : Type 0} (calls : PipeCalls P) (content : P → List ℕ) (pipe : IsPipe calls content) (p : P)
    (message : List ℕ)
    → content p ≡ []
    → length message < 2 ^ 32
    → 0 < length message
    → (send_header calls p message).1 ≡ put 4
    → (send_body calls message (receive_message calls (send_header calls p message).0).0).1
      ≡ returns tt
    → let r = receive_message calls (send_header calls p message).0 in
      (r.1 ≡ returns none)
      × (content r.0 ≡ [])
      × (content (send_body calls message r.0).0 ≡ message)
receive_between-loses_header calls content pipe p message e l k w b =
    let h =
      send_header-whole calls content pipe p message l w
      ∙ ap (λ xs. xs ++ header (length message)) e in
    let (a, c) =
      receive-header_alone calls content pipe (send_header calls p message).0 (length message) l k
        h in
    let r = receive_message calls (send_header calls p message).0 in
    (a, c, send_body-whole calls content pipe r.0 message l b ∙ ap (λ xs. xs ++ message) c)
