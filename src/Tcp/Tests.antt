-- ===== src/Tcp/Tests.antt =====
-- RosaServer/tcpserver.cpp and tcpclient.cpp: a server with two connections, and a client with three addresses.
use rosa_server.Base.{
  has, ℕ, zero, suc, ◌≤◌, ◌≡◌, refl, false, none, some, [], ◌∷◌, codes, ◌==◌, arith, if◌then◌else◌,
}
use rosa_server.Tcp.{
  Os, Server, fd_of, bytes, receive, close, client, accept, receive_from, accept_next, act,
  close_server, Opened, open_server, IsReached, opened, acted,
}
use rosa_server.Tcp.Owned.{IsOwned}
use rosa_server.Tcp.Reached.{reached-IsOwned, close_server-releases}
use rosa_server.Tcp.Client.{Tried, refused, connected, connect, IsFailed, connect_endless}

abbrev os : Os
os = record { open_fds = 0 ∷ 1 ∷ 2 ∷ []; misused = false }

abbrev answers : Opened
answers = record {
  descriptor = some 3;
  set_failed = none;
  bind_failed = none;
  listen_failed = none;
}

abbrev address_in_use : Opened
address_in_use = record {
  descriptor = some 3;
  set_failed = none;
  bind_failed = some 98;
  listen_failed = none;
}

abbrev first : Server
first = record {
  os = record { open_fds = 3 ∷ 0 ∷ 1 ∷ 2 ∷ []; misused = false };
  listener = some 3;
  objects = [];
  connections = [];
}

first-IsReached : IsReached os.open_fds first
unfolding open_server
first-IsReached = opened os answers 0 3 first refl refl refl refl

-- Two clients; the first one has left, and its descriptor is used again.
abbrev served : Server
served =
    act
      (act (act (act first (accept_next (client 4))) (accept_next (client 5)))
        (receive_from 0 100 (λ n. bytes [])))
      (accept_next (client 4))

served-IsReached : IsReached os.open_fds served
unfolding act accept receive close
served-IsReached =
    acted os.open_fds
      (act (act (act first (accept_next (client 4))) (accept_next (client 5)))
        (receive_from 0 100 (λ n. bytes [])))
      (accept_next (client 4))
      (acted os.open_fds (act (act first (accept_next (client 4))) (accept_next (client 5)))
        (receive_from 0 100 (λ n. bytes []))
        (acted os.open_fds (act first (accept_next (client 4))) (accept_next (client 5))
          (acted os.open_fds first (accept_next (client 4)) first-IsReached refl) refl)
        tt)
      refl

served_connections :
    (served.connections ≡ 1 ∷ 2 ∷ []) × (served.objects ≡ none ∷ some 5 ∷ some 4 ∷ [])
unfolding act accept receive close
served_connections = (refl, refl)

reached-IsOwned_example : IsOwned os.open_fds served
reached-IsOwned_example = reached-IsOwned os.open_fds served served-IsReached

close_server-releases_example :
    ((close_server served).0.listener ≡ none)
    × ((i : ℕ) → fd_of (close_server served).0 i ≡ none)
    × ((fd : ℕ) → has (close_server served).0.os.open_fds fd ≡ has os.open_fds fd)
close_server-releases_example = close_server-releases os.open_fds served served-IsReached

-- A `read` of no bytes answers no bytes, although the other side has not closed: the connection is closed.
receive_nothing :
    (receive
      (record { os = first.os; fd = some 3 })
      0
      (λ n. if n == 0 then bytes [] else bytes (codes "x"))).0.fd
    ≡ none
unfolding receive close
receive_nothing = refl

-- The third address would connect.
abbrev third_connects : ℕ → ℕ → ℕ → Tried
third_connects round i family = if i == 2 then connected 7 else refused 7

third_connects-IsFailed : (round i family : ℕ) → i ≤ 1 → IsFailed (third_connects round i family)
third_connects-IsFailed round zero family l = tt
third_connects-IsFailed round (suc zero) family l = tt
third_connects-IsFailed round (suc (suc i)) family l = absurd (omega arith)

connect_endless_example : connect third_connects (2 ∷ 2 ∷ 10 ∷ []) 50 os ≡ none
connect_endless_example = connect_endless third_connects 2 2 (10 ∷ []) third_connects-IsFailed 50 os
