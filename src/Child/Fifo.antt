-- ===== src/Child/Fifo.antt =====
-- RosaServer/childprocess.cpp and RosaServerSatellite/main.cpp: which messages arrive at the other end
-- of a pipe.
use rosa_server.Base.{
  ℕ, ◌^◌, ◌<◌, ◌≡◌, refl, sym, ap, ◌∙◌, Option, none, some, List, [], ◌∷◌, ◌++◌, length, Call,
  returns, throws, append_nil, append_assoc,
}
use rosa_server.Child.Pipe.{PipeCalls, receive_message, send_message, IsPipe}
use rosa_server.Child.Frames.{frame, send-frame, receive-frame, receive-empty}

-- What is done at the two ends, one call at a time.
pub data Exchange : Type 0 where
  sends : List ℕ → Exchange
  receives : Exchange

pub record Line (P : Type 0) : Type 0 where
  pub pipe : P
  pub sent : List (List ℕ)
  pub received : List (List ℕ)

abbrev pub message_of : Call (Option (List ℕ)) → List (List ℕ)
message_of (returns (some message)) = message ∷ []
message_of (returns none) = []
message_of (throws e) = []

abbrev pub frames : List (List ℕ) → List ℕ
frames [] = []
frames (message ∷ messages) = frame message ++ frames messages

frames-append :
    (messages : List (List ℕ)) (message : List ℕ)
    → frames (messages ++ message ∷ []) ≡ frames messages ++ frame message
frames-append [] message = append_nil (frame message)
frames-append (m ∷ messages) message =
    ap (λ xs. frame m ++ xs) (frames-append messages message)
    ∙ sym (append_assoc (frame m) (frames messages) (frame message))

abbrev pub first_of : List (List ℕ) → Option (List ℕ)
first_of [] = none
first_of (message ∷ messages) = some message

-- Every message is one whose length fits the header.
abbrev pub AllShort : List (List ℕ) → Type 0
AllShort [] = Unit {0}
AllShort (message ∷ messages) = (length message < 2 ^ 32) × AllShort messages

AllShort-append :
    (messages : List (List ℕ)) (message : List ℕ)
    → AllShort messages
    → length message < 2 ^ 32
    → AllShort (messages ++ message ∷ [])
AllShort-append [] message s l = (l, tt)
AllShort-append (m ∷ messages) message (k, s) l = (k, AllShort-append messages message s l)

module _ {P : Type 0} (calls : PipeCalls P) where
  unfoldable pub exchange : Line P → Exchange → Line P
  exchange l (sends message) = record l {
    pipe = (send_message calls l.pipe message).0;
    sent = l.sent ++ message ∷ [];
  }
  exchange l receives =
      let (p, result) = receive_message calls l.pipe in
      record l { pipe = p; received = l.received ++ message_of result }

  unfoldable pub exchange_all : Line P → List Exchange → Line P
  exchange_all l [] = l
  exchange_all l (x ∷ exchanges) = exchange_all (exchange l x) exchanges

  -- A message is below 4 GiB, and the call that sends it does not throw.
  abbrev pub IsWhole : Line P → Exchange → Type 0
  IsWhole l (sends message) =
      (length message < 2 ^ 32) × ((send_message calls l.pipe message).1 ≡ returns tt)
  IsWhole l receives = Unit {0}

  abbrev pub AllWhole : Line P → List Exchange → Type 0
  AllWhole l [] = Unit {0}
  AllWhole l (x ∷ exchanges) = IsWhole l x × AllWhole (exchange l x) exchanges

  -- The messages that are sent and not yet received, in their order.
  abbrev pub InOrder : (P → List ℕ) → Line P → List (List ℕ) → Type 0
  InOrder content l pending =
      AllShort pending × (l.received ++ pending ≡ l.sent) × (content l.pipe ≡ frames pending)

module _ {P : Type 0} (calls : PipeCalls P) (content : P → List ℕ)
    (pipe : IsPipe calls content) where
  receive-first :
      (p : P) (pending : List (List ℕ))
      → AllShort pending
      → content p ≡ frames pending
      → (receive_message calls p).1 ≡ returns (first_of pending)
  receive-first p [] s e = (receive-empty calls content pipe p e).0
  receive-first p (m ∷ pending) (l, s) e =
      (receive-frame calls content pipe p m (frames pending) l e).0

  exchange-InOrder :
      (l : Line P) (x : Exchange) (pending : List (List ℕ))
      → IsWhole calls l x
      → InOrder calls content l pending
      → (after : List (List ℕ)) × InOrder calls content (exchange calls l x) after
  unfolding exchange
  exchange-InOrder l (sends message) pending (k, r) (s, o, c) = (
    pending ++ message ∷ [],
    (
      AllShort-append pending message s k,
      sym (append_assoc l.received pending (message ∷ [])) ∙ ap (λ xs. xs ++ message ∷ []) o,
      send-frame calls content pipe l.pipe message k r
          ∙ ap (λ xs. xs ++ frame message) c
          ∙ sym (frames-append pending message),
    ),
  )
  exchange-InOrder l receives [] h (s, o, c) =
      let (a, d) = receive-empty calls content pipe l.pipe c in
      (
        [],
        (
          tt,
          ap (λ xs. (l.received ++ message_of xs) ++ []) a
              ∙ ap (λ xs. xs ++ []) (append_nil l.received)
              ∙ o,
          d,
        ),
      )
  exchange-InOrder l receives (m ∷ pending) h ((k, s), o, c) =
      let (a, d) = receive-frame calls content pipe l.pipe m (frames pending) k c in
      (
        pending,
        (
          s,
          ap (λ xs. (l.received ++ message_of xs) ++ pending) a
              ∙ append_assoc l.received (m ∷ []) pending
              ∙ o,
          d,
        ),
      )

  all-InOrder :
      (l : Line P) (exchanges : List Exchange) (pending : List (List ℕ))
      → AllWhole calls l exchanges
      → InOrder calls content l pending
      → (after : List (List ℕ)) × InOrder calls content (exchange_all calls l exchanges) after
  unfolding exchange_all
  all-InOrder l [] pending w o = (pending, o)
  all-InOrder l (x ∷ exchanges) pending (w, ws) o =
      let (after, q) = exchange-InOrder l x pending w o in
      all-InOrder (exchange calls l x) exchanges after ws q

-- On any pipe that does what is documented, from an empty one on, and whatever messages are sent and
-- however the calls that send and receive take turns, as long as every message is below 4 GiB and no
-- sending throws: the messages received are the first ones that were sent, in their order and
-- unchanged, and receiving once more gives the next one, or none only if all were received.
pub exchange_all-InOrder :
    {P : Type 0} (calls : PipeCalls P) (content : P → List ℕ) (pipe : IsPipe calls content) (p : P)
    (exchanges : List Exchange)
    → content p ≡ []
    → AllWhole calls (record { pipe = p; sent = []; received = [] }) exchanges
    → let l = exchange_all calls (record { pipe = p; sent = []; received = [] }) exchanges in
      (pending : List (List ℕ)) × (l.received ++ pending ≡ l.sent)
      × ((receive_message calls l.pipe).1 ≡ returns (first_of pending))
exchange_all-InOrder calls content pipe p exchanges e w =
    let (pending, (s, o, c)) =
      all-InOrder calls content pipe (record { pipe = p; sent = []; received = [] }) exchanges [] w
        (tt, refl, e) in
    let l = exchange_all calls (record { pipe = p; sent = []; received = [] }) exchanges in
    (pending, o, receive-first calls content pipe l.pipe pending s c)
