-- ===== src/Child/Frames.antt =====
-- RosaServer/childprocess.cpp and RosaServerSatellite/main.cpp: what a message is in the pipe.
use rosa_server.Base.{
  take_all, take-append_length, drop-append_length, ℕ, ◌^◌, ◌<◌, ◌≡◌, refl, sym, ap, ◌∙◌, ◌⊎◌, inl,
  inr, none, some, List, [], ◌∷◌, ◌++◌, length, take, append_assoc, ◌==◌, ==→eq, ==_self,
  Bool-cases, arith, Call, returns,
}
use rosa_server.Child.Pipe.{
  Taken, taken, nothing_yet, Put, put, write_error, PipeCalls, header, number, message_length,
  after_body, after_header, receive_message, after_write, send_header, send_body, send_message,
  IsPipe,
}

number-header : (n : ℕ) → n < 2 ^ 32 → number (header n) ≡ n
unfolding number header
number-header n l = omega arith

-- What a message is in the pipe.
abbrev pub frame : List ℕ → List ℕ
frame message = header (length message) ++ message

message_length_lem :
    (message : List ℕ) → length message < 2 ^ 32 → message_length message ≡ length message
message_length_lem message l = omega arith

module _ {P : Type 0} (calls : PipeCalls P) (content : P → List ℕ)
    (pipe : IsPipe calls content) where
  -- A write that is as long as it was to be has appended all.
  write_whole :
      (p : P) (bs : List ℕ)
      → (calls.write p bs).1 ≡ put (length bs)
      → content (calls.write p bs).0 ≡ content p ++ bs
  write_whole p bs w = elim (pipe.write_last p bs) [
    | inl (k, l, e, c) ↦
        let q : k ≡ length bs = cc (w, e) in
        c ∙ ap (λ xs. content p ++ xs) (ap (λ n. take n bs) q ∙ take_all bs)
    | inr (k, e, c) ↦ absurd (cc (w, e))
  ]

  after_write-returns :
      (n : ℕ) (r : P × Put) (next : P → P × Call (Unit {0}))
      → (after_write calls n r next).1 ≡ returns tt
      → (r.1 ≡ put n) × (after_write calls n r next ≡ next r.0)
  after_write-returns n (p, put k) next e = elim (Bool-cases (k == n)) [
    | inl h ↦ (ap put (==→eq k n h), rw h refl)
    | inr h ↦ absurd (cc (e, h))
  ]
  after_write-returns n (p, write_error k) next e = absurd (cc e)

  -- Reading what is in front of the rest.
  read_front :
      (p : P) (front rest : List ℕ)
      → content p ≡ front ++ rest
      → ((calls.read p (length front)).1 ≡ taken front)
        × (content (calls.read p (length front)).0 ≡ rest)
  read_front p [] [] e =
      let (c, a) = pipe.read_empty p 0 e in
      (elim a [ inl t ↦ t | inr (l, t) ↦ absurd (omega (arith, l)) ], c)
  read_front p [] (b ∷ rest) e = pipe.read_first p 0 b rest e
  read_front p (b ∷ front) rest e =
      let (a, c) = pipe.read_first p (length (b ∷ front)) b (front ++ rest) e in
      (a ∙ ap taken (take-append_length (b ∷ front) rest), c ∙ drop-append_length (b ∷ front) rest)

  send-whole :
      (p : P) (message : List ℕ) (n : ℕ)
      → n ≡ length message
      → (after_write calls n (calls.write p (take n message)) (λ q. (q, returns tt))).1 ≡ returns tt
      → content (after_write calls n (calls.write p (take n message)) (λ q. (q, returns tt))).0
        ≡ content p ++ message
  send-whole p message n q e =
      let (w, s) =
        after_write-returns n (calls.write p (take n message)) (λ q. (q, returns tt)) e in
      let t : take n message ≡ message = ap (λ k. take k message) q ∙ take_all message in
      ap (λ r. content r.0) s
      ∙ write_whole p (take n message) (w ∙ ap put (q ∙ ap length (sym t)))
      ∙ ap (λ xs. content p ++ xs) t

  pub send_body-whole :
      (p : P) (message : List ℕ)
      → length message < 2 ^ 32
      → (send_body calls message p).1 ≡ returns tt
      → content (send_body calls message p).0 ≡ content p ++ message
  unfolding send_body
  send_body-whole p message l e =
      send-whole p message (message_length message) (message_length_lem message l) e

  pub send_header-whole :
      (p : P) (message : List ℕ)
      → length message < 2 ^ 32
      → (send_header calls p message).1 ≡ put 4
      → content (send_header calls p message).0 ≡ content p ++ header (length message)
  unfolding send_header header
  send_header-whole p message l w =
      write_whole p (header (message_length message)) w
      ∙ ap (λ n. content p ++ header n) (message_length_lem message l)

  pub send-frame :
      (p : P) (message : List ℕ)
      → length message < 2 ^ 32
      → (send_message calls p message).1 ≡ returns tt
      → content (send_message calls p message).0 ≡ content p ++ frame message
  unfolding send_message
  send-frame p message l e =
      let (w, s) =
        after_write-returns 4 (send_header calls p message) (send_body calls message) e in
      ap (λ r. content r.0) s
      ∙ send_body-whole (send_header calls p message).0 message l (sym (ap (λ r. r.1) s) ∙ e)
      ∙ ap (λ xs. xs ++ message) (send_header-whole p message l w)
      ∙ append_assoc (content p) (header (length message)) message

  after_header-taken :
      (p : P) (t : Taken) (bs : List ℕ)
      → t ≡ taken bs
      → length bs ≡ 4
      → after_header calls (p, t) ≡ after_body calls (number bs) (calls.read p (number bs))
  after_header-taken p t bs e h = rw e (rw h refl)

  after_body-taken :
      (p : P) (t : Taken) (body : List ℕ)
      → t ≡ taken body
      → after_body calls (length body) (p, t) ≡ (p, returns (some body))
  after_body-taken p t body e = rw e (rw (==_self (length body)) refl)

  -- With a header in front, a receiver goes on to what is behind it.
  pub receive-header :
      (p : P) (n : ℕ) (rest : List ℕ)
      → n < 2 ^ 32
      → content p ≡ header n ++ rest
      → (q : P) × (receive_message calls p ≡ after_body calls n (calls.read q n))
        × (content q ≡ rest)
  unfolding receive_message header
  receive-header p n rest l e =
      let (a, c) = read_front p (header n) rest e in
      let q = (calls.read p 4).0 in
      (
        q,
        after_header-taken q (calls.read p 4).1 (header n) a refl
            ∙ ap (λ k. after_body calls k (calls.read q k)) (number-header n l),
        c,
      )

  pub receive-frame :
      (p : P) (message rest : List ℕ)
      → length message < 2 ^ 32
      → content p ≡ frame message ++ rest
      → ((receive_message calls p).1 ≡ returns (some message))
        × (content (receive_message calls p).0 ≡ rest)
  receive-frame p message rest l e =
      let (q, s, c) =
        receive-header p (length message) (message ++ rest) l
          (e ∙ append_assoc (header (length message)) message rest) in
      let (a, d) = read_front q message rest c in
      let r = calls.read q (length message) in
      let whole = s ∙ after_body-taken r.0 r.1 message a in
      (ap (λ x. x.1) whole, ap (λ x. content x.0) whole ∙ d)

  after_header_empty :
      (p : P) (t : Taken)
      → (t ≡ taken []) ⊎ ((0 < 4) × (t ≡ nothing_yet))
      → after_header calls (p, t) ≡ (p, returns none)
  after_header_empty p t (inl e) = rw e refl
  after_header_empty p t (inr (l, e)) = rw e refl

  pub receive-empty :
      (p : P)
      → content p ≡ []
      → ((receive_message calls p).1 ≡ returns none) × (content (receive_message calls p).0 ≡ [])
  unfolding receive_message
  receive-empty p e =
      let (c, a) = pipe.read_empty p 4 e in
      let s = after_header_empty (calls.read p 4).0 (calls.read p 4).1 a in
      (ap (λ x. x.1) s, ap (λ x. content x.0) s ∙ c)
