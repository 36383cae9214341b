-- ===== src/Tcp.antt =====
-- RosaServer/tcpserver.cpp and tcpserver.h: `TCPServer` and its connections. A descriptor of -1 is
-- `none`. What a system call answers is an argument of the function that makes it. `Os` has the
-- descriptors that are open, and whether a call was made with one that was not.
pub mod Client
pub mod Owned
pub mod Steps
pub mod Closing
pub mod Reached
mod Tests
use rosa_server.Base.{
  has, ℕ, zero, suc, ◌≡◌, Bool, true, false, not, ◌||◌, Option, none, some, List, [], ◌∷◌, ◌++◌,
  length, set, keep_if, ◌==◌, min, if◌then◌else◌, Call, returns, throws, Error,
}

pub record Os : Type 0 where
  pub open_fds : List ℕ
  pub misused : Bool

-- A call with a descriptor.
abbrev pub use_fd : Os → ℕ → Os
use_fd os fd = record os { misused = os.misused || not (has os.open_fds fd) }

-- `::close(fd)`
abbrev pub close_fd : Os → ℕ → Os
close_fd os fd = record {
  open_fds = keep_if (λ x. not (x == fd)) os.open_fds;
  misused = os.misused || not (has os.open_fds fd);
}

-- A call that gives a new descriptor.
abbrev pub open_fd : Os → ℕ → Os
open_fd os fd = record os { open_fds = fd ∷ os.open_fds }

-- What `write` answers, and what `read` answers. EAGAIN and EWOULDBLOCK are `blocks`.
pub data Written : Type 0 where
  wrote : ℕ → Written
  write_blocks : Written
  write_failed : ℕ → Written

pub data Got : Type 0 where
  bytes : List ℕ → Got
  read_blocks : Got
  read_failed : ℕ → Got

-- The object's descriptor with the state of the system.
pub record Socket : Type 0 where
  pub os : Os
  pub fd : Option ℕ

unfoldable pub close : Socket → Socket × Call (Unit {0})
close s = elim s.fd [
  | none ↦ (s, throws Error.not_open)
  | some fd ↦ (record { os = close_fd s.os fd; fd = none }, returns tt)
]

abbrev pub after_write : Socket → Written → Socket × Call ℕ
after_write s (wrote n) = (s, returns n)
after_write s write_blocks = (s, returns 0)
after_write s (write_failed e) = (s, throws (Error.system e))

abbrev pub send_on : Socket → ℕ → List ℕ → Written → Socket × Call ℕ
send_on s fd [] answer = (s, throws Error.data_empty)
send_on s fd (b ∷ bs) answer = after_write (record s { os = use_fd s.os fd }) answer

unfoldable pub send : Socket → List ℕ → Written → Socket × Call ℕ
send s message answer = elim s.fd [
  | none ↦ (s, throws Error.not_open)
  | some fd ↦ send_on s fd message answer
]

abbrev pub max_server_read_size : ℕ
max_server_read_size = 16384

-- With no bytes the other side has closed the connection, and it is closed here.
abbrev pub after_read : Socket → Got → Socket × Call (Option (List ℕ))
after_read s (bytes []) = ((close s).0, returns (some []))
after_read s (bytes (b ∷ bs)) = (s, returns (some (b ∷ bs)))
after_read s read_blocks = (s, returns none)
after_read s (read_failed e) = (s, throws (Error.system e))

-- `read` is asked for at most a bufferful, and answers for the number of bytes that it is asked for.
unfoldable pub receive : Socket → ℕ → (ℕ → Got) → Socket × Call (Option (List ℕ))
receive s size read = elim s.fd [
  | none ↦ (s, throws Error.not_open)
  | some fd ↦ after_read (record s { os = use_fd s.os fd }) (read (min size max_server_read_size))
]

-- The destructor.
abbrev pub destroy_open : Socket → Option ℕ → Socket
destroy_open s none = s
destroy_open s (some fd) = (close s).0

unfoldable pub destroy : Socket → Socket
destroy s = destroy_open s s.fd

-- The server with all connections that were ever made, by their number, since Lua may hold any of
-- them; `connections` are the numbers of those that the server holds.
pub record Server : Type 0 where
  pub os : Os
  pub listener : Option ℕ
  pub objects : List (Option ℕ)
  pub connections : List ℕ

abbrev pub fd_at : List (Option ℕ) → ℕ → Option ℕ
fd_at [] i = none
fd_at (o ∷ objects) zero = o
fd_at (o ∷ objects) (suc i) = fd_at objects i

abbrev pub fd_of : Server → ℕ → Option ℕ
fd_of s i = fd_at s.objects i

abbrev pub socket_of : Server → ℕ → Socket
socket_of s i = record { os = s.os; fd = fd_of s i }

-- A call of a method of connection i.
abbrev pub put_socket : Server → ℕ → Socket → Server
put_socket s i c = record s { os = c.os; objects = set s.objects i c.fd }

abbrev pub on_connection {ℓ} :
    {A : Type ℓ} → Server → ℕ → (Socket → Socket × Call A) → Server × Call A
on_connection s i method = let (c, result) = method (socket_of s i) in (put_socket s i c, result)

unfoldable pub close_each : Server → List ℕ → Server
close_each s [] = s
close_each s (i ∷ is) =
    close_each (elim (fd_of s i) [ none ↦ s | some fd ↦ (on_connection s i close).0 ]) is

abbrev pub close_connections : Server → Server
close_connections s = record (close_each s s.connections) { connections = [] }

abbrev pub is_open : Option ℕ → Bool
is_open none = false
is_open (some fd) = true

abbrev pub clear_closed_connections : Server → Server
clear_closed_connections s = record s {
  connections = keep_if (λ i. is_open (fd_of s i)) s.connections;
}

abbrev pub close_listener : Server → Option ℕ → Server × Call (Unit {0})
close_listener s none = (s, throws Error.not_open)
close_listener s (some fd) = (record s { os = close_fd s.os fd; listener = none }, returns tt)

unfoldable pub close_server : Server → Server × Call (Unit {0})
close_server s = let t = close_connections s in close_listener t t.listener

abbrev pub destroy_listening : Server → Option ℕ → Server
destroy_listening s none = s
destroy_listening s (some fd) = (close_server s).0

-- The destructor of the server.
unfoldable pub destroy_server : Server → Server
destroy_server s = destroy_listening s s.listener

-- What `accept4` answers.
pub data Accepted : Type 0 where
  client : ℕ → Accepted
  accept_blocks : Accepted
  accept_failed : ℕ → Accepted

abbrev pub after_accept : Server → Accepted → Server × Call (Option ℕ)
after_accept s (client fd) =
    let t = clear_closed_connections (record s { os = open_fd s.os fd }) in
    let i = length t.objects in
    (
      record t { objects = t.objects ++ some fd ∷ []; connections = t.connections ++ i ∷ [] },
      returns (some i),
    )
after_accept s accept_blocks = (s, returns none)
after_accept s (accept_failed e) = (s, throws (Error.system e))

unfoldable pub accept : Server → Accepted → Server × Call (Option ℕ)
accept s answer = elim s.listener [
  | none ↦ (s, throws Error.not_open)
  | some fd ↦ after_accept (record s { os = use_fd s.os fd }) answer
]

-- What the constructor's calls answer: the descriptor, and whether each later call failed.
pub record Opened : Type 0 where
  pub descriptor : Option ℕ
  pub set_failed : Option ℕ
  pub bind_failed : Option ℕ
  pub listen_failed : Option ℕ

abbrev pub first_failure : Option ℕ → Option ℕ → Option ℕ
first_failure none later = later
first_failure (some e) later = some e

abbrev pub with_listener : Os → ℕ → Option ℕ → Os × Call Server
with_listener os fd none =
    let s : Server = record {
      os = open_fd os fd;
      listener = some fd;
      objects = [];
      connections = [];
    } in
    (open_fd os fd, returns s)
with_listener os fd (some e) = (open_fd os fd, throws (Error.system e))

-- `TCPServer(port)`; e is the error number of `socket`.
unfoldable pub open_server : Os → Opened → ℕ → Os × Call Server
open_server os answers e = elim answers.descriptor [
  | none ↦ (os, throws (Error.system e))
  | some fd ↦
      with_listener os fd
        (first_failure answers.set_failed (first_failure answers.bind_failed answers.listen_failed))
]

-- What is done with a server and its connections, with the answers of the system.
pub data Action : Type 0 where
  close_connection : ℕ → Action
  send_to : ℕ → List ℕ → Written → Action
  receive_from : ℕ → ℕ → (ℕ → Got) → Action
  accept_next : Accepted → Action
  close_all : Action
  destroy_connection : ℕ → Action
  destroy_all : Action

unfoldable pub act : Server → Action → Server
act s (close_connection i) = (on_connection s i close).0
act s (send_to i message answer) = (on_connection s i (λ c. send c message answer)).0
act s (receive_from i size read) = (on_connection s i (λ c. receive c size read)).0
act s (accept_next answer) = (accept s answer).0
act s close_all = (close_server s).0
act s (destroy_connection i) = put_socket s i (destroy (socket_of s i))
act s destroy_all = destroy_server s

-- A new descriptor is none of the open ones.
abbrev pub IsNew : Server → Action → Type 0
IsNew s (accept_next (client fd)) = has s.os.open_fds fd ≡ false
IsNew s action = Unit {0}

-- The states of a server that was opened when the descriptors `before` were open, under any actions.
pub data IsReached : List ℕ → Server → Type 0 where
  opened :
      (os : Os) (answers : Opened) (e fd : ℕ) (s : Server)
      → os.misused ≡ false
      → has os.open_fds fd ≡ false
      → answers.descriptor ≡ some fd
      → (open_server os answers e).1 ≡ returns s
      → IsReached os.open_fds s
  acted :
      (before : List ℕ) (s : Server) (a : Action)
      → IsReached before s
      → IsNew s a
      → IsReached before (act s a)
