-- ===== src/Tcp/Client.antt =====
-- RosaServer/tcpclient.cpp: the client. The loop of the constructor over the addresses that
-- `getaddrinfo` found is on fuel. What the system answers is an argument, by the number of the round,
-- the index of the address and the family that `socket` is asked for. The methods are those of a
-- server's connection.
use rosa_server.Base.{
  min, ℕ, zero, suc, ◌≤◌, ◌≡◌, refl, ◌⊎◌, inl, inr, Option, none, some, List, ◌∷◌, get_elem?, ◌==◌,
  if◌then◌else◌, arith, Call, returns, throws, Error,
}
use rosa_server.Tcp.{
  Socket, Got, Written, close, send, after_read, use_fd, destroy, Os, open_fd, close_fd,
}

-- What `socket` and `connect` answer for an address.
pub data Tried : Type 0 where
  no_socket : Tried
  connected in_progress refused : ℕ → Tried

abbrev pub af_unspec : ℕ
af_unspec = 0

abbrev pub af_inet : ℕ
af_inet = 2

abbrev pub family_of : ℕ → ℕ
family_of family = if family == af_unspec then af_inet else family

module _ (try : ℕ → ℕ → ℕ → Tried) (families : List ℕ) where
  -- The rounds from number `round` on, with the iterator at address i; `none` when the fuel runs out.
  -- A result has the index of the address with the socket. After a round the iterator is at
  -- `resultAddress->ai_next`, the second address.
  unfoldable pub connect_from : ℕ → Os → ℕ → ℕ → Option (Os × Call (ℕ × ℕ))
  connect_from zero os round i = none
  connect_from (suc fuel) os round i = elim (get_elem? families i) [
    | none ↦ some (os, throws Error.failed_to_connect)
    | some family ↦ elim (try round i (family_of family)) [
      | no_socket ↦ connect_from fuel os (suc round) 1
      | connected fd ↦ some (open_fd os fd, returns (i, fd))
      | in_progress fd ↦ some (open_fd os fd, returns (i, fd))
      | refused fd ↦ connect_from fuel (close_fd (open_fd os fd) fd) (suc round) 1
    ]
  ]

-- `TCPClient(address, port)`, once `getaddrinfo` has answered.
unfoldable pub connect : (ℕ → ℕ → ℕ → Tried) → List ℕ → ℕ → Os → Option (Os × Call (ℕ × ℕ))
connect try families fuel os = connect_from try families fuel os 0 0

abbrev pub opened_client : Os × Call (ℕ × ℕ) → Os × Call Socket
opened_client (os, returns (i, fd)) = (os, returns (record { os = os; fd = some fd }))
opened_client (os, throws e) = (os, throws e)

-- The client that the constructor gives.
unfoldable pub open_client : (ℕ → ℕ → ℕ → Tried) → List ℕ → ℕ → Os → Option (Os × Call Socket)
open_client try families fuel os = elim (connect try families fuel os) [
  | none ↦ none
  | some result ↦ some (opened_client result)
]

abbrev pub max_client_read_size : ℕ
max_client_read_size = 16384

-- The methods are those of a server's connection; the buffer is one of its own.
unfoldable pub close_client : Socket → Socket × Call (Unit {0})
close_client s = close s

unfoldable pub send_client : Socket → List ℕ → Written → Socket × Call ℕ
send_client s message answer = send s message answer

unfoldable pub receive_client : Socket → ℕ → (ℕ → Got) → Socket × Call (Option (List ℕ))
receive_client s size read = elim s.fd [
  | none ↦ (s, throws Error.not_open)
  | some fd ↦ after_read (record s { os = use_fd s.os fd }) (read (min size max_client_read_size))
]

unfoldable pub destroy_client : Socket → Socket
destroy_client s = destroy s

-- Neither a connection nor one in progress.
abbrev pub IsFailed : Tried → Type 0
IsFailed no_socket = Unit {0}
IsFailed (connected fd) = ⊥
IsFailed (in_progress fd) = ⊥
IsFailed (refused fd) = Unit {0}

module _ (try : ℕ → ℕ → ℕ → Tried) (a b : ℕ) (rest : List ℕ) where
  abbrev families : List ℕ
  families = a ∷ b ∷ rest

  -- What the two first addresses can give.
  abbrev FirstTwo : Option (Os × Call (ℕ × ℕ)) → Type 0
  FirstTwo result =
      (result ≡ none)
      ⊎ ((os : Os) × (i : ℕ) × (fd : ℕ) × (i ≤ 1) × (result ≡ some (os, returns (i, fd))))

  after_try :
      (t : Tried) (fuel : ℕ) (os : Os) (round i : ℕ)
      → i ≤ 1
      → ((os' : Os) → FirstTwo (connect_from try families fuel os' (suc round) 1))
      → FirstTwo (elim t [
        | no_socket ↦ connect_from try families fuel os (suc round) 1
        | connected fd ↦ some (open_fd os fd, returns (i, fd))
        | in_progress fd ↦ some (open_fd os fd, returns (i, fd))
        | refused fd ↦ connect_from try families fuel (close_fd (open_fd os fd) fd) (suc round) 1
      ])
  after_try no_socket fuel os round i l next = next os
  after_try (connected fd) fuel os round i l next = inr (open_fd os fd, i, fd, l, refl)
  after_try (in_progress fd) fuel os round i l next = inr (open_fd os fd, i, fd, l, refl)
  after_try (refused fd) fuel os round i l next = next (close_fd (open_fd os fd) fd)

  connect_from-FirstTwo :
      (fuel : ℕ) (os : Os) (round i : ℕ)
      → i ≤ 1
      → FirstTwo (connect_from try families fuel os round i)
  unfolding connect_from
  connect_from-FirstTwo zero os round i l = inl refl
  connect_from-FirstTwo (suc fuel) os round zero l =
      after_try (try round 0 (family_of a)) fuel os round 0 l
        (λ os'. connect_from-FirstTwo fuel os' (suc round) 1 (omega arith))
  connect_from-FirstTwo (suc fuel) os round (suc zero) l =
      after_try (try round 1 (family_of b)) fuel os round 1 l
        (λ os'. connect_from-FirstTwo fuel os' (suc round) 1 (omega arith))
  connect_from-FirstTwo (suc fuel) os round (suc (suc i)) l = absurd (omega arith)

  failed_try :
      (t : Tried) (fuel : ℕ) (os : Os) (round i : ℕ)
      → IsFailed t
      → ((os' : Os) → connect_from try families fuel os' (suc round) 1 ≡ none)
      → (elim t as (λ _. Option (Os × Call (ℕ × ℕ))) [
        | no_socket ↦ connect_from try families fuel os (suc round) 1
        | connected fd ↦ some (open_fd os fd, returns (i, fd))
        | in_progress fd ↦ some (open_fd os fd, returns (i, fd))
        | refused fd ↦ connect_from try families fuel (close_fd (open_fd os fd) fd) (suc round) 1
      ])
        ≡ none
  failed_try no_socket fuel os round i f next = next os
  failed_try (connected fd) fuel os round i f next = absurd f
  failed_try (in_progress fd) fuel os round i f next = absurd f
  failed_try (refused fd) fuel os round i f next = next (close_fd (open_fd os fd) fd)

  connect_from-endless :
      ((round i family : ℕ) → i ≤ 1 → IsFailed (try round i family))
      → (fuel : ℕ) (os : Os) (round i : ℕ) → i ≤ 1
      → connect_from try families fuel os round i ≡ none
  unfolding connect_from
  connect_from-endless f zero os round i l = refl
  connect_from-endless f (suc fuel) os round zero l =
      failed_try (try round 0 (family_of a)) fuel os round 0 (f round 0 (family_of a) (omega arith))
        (λ os'. connect_from-endless f fuel os' (suc round) 1 (omega arith))
  connect_from-endless f (suc fuel) os round (suc zero) l =
      failed_try (try round 1 (family_of b)) fuel os round 1 (f round 1 (family_of b) (omega arith))
        (λ os'. connect_from-endless f fuel os' (suc round) 1 (omega arith))
  connect_from-endless f (suc fuel) os round (suc (suc i)) l = absurd (omega arith)

-- With two addresses or more, whatever the system answers and after any number of rounds: the loop
-- is still running, or it has a socket for the first or the second address. No later address is
-- tried, and it never throws "Failed to connect!".
pub connect-first_two :
    (try : ℕ → ℕ → ℕ → Tried) (a b : ℕ) (rest : List ℕ) (fuel : ℕ) (os : Os)
    → (connect try (a ∷ b ∷ rest) fuel os ≡ none)
      ⊎ ((os' : Os) × (i : ℕ) × (fd : ℕ) × (i ≤ 1)
          × (connect try (a ∷ b ∷ rest) fuel os ≡ some (os', returns (i, fd))))
unfolding connect
connect-first_two try a b rest fuel os =
    connect_from-FirstTwo try a b rest fuel os 0 0 (omega arith)

-- With two addresses or more of which neither the first nor the second ever connects, no number of
-- rounds ends the loop, also when a later address would connect.
pub connect_endless :
    (try : ℕ → ℕ → ℕ → Tried) (a b : ℕ) (rest : List ℕ)
    → ((round i family : ℕ) → i ≤ 1 → IsFailed (try round i family))
    → (fuel : ℕ) (os : Os) → connect try (a ∷ b ∷ rest) fuel os ≡ none
unfolding connect
connect_endless try a b rest f fuel os =
    connect_from-endless try a b rest f fuel os 0 0 (omega arith)
