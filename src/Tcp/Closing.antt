-- ===== src/Tcp/Closing.antt =====
-- RosaServer/tcpserver.cpp: closing the connections and the server.
use rosa_server.Base.{
  has, ℕ, ◌≡◌, ◌≢◌, refl, sym, ap, subst, ◌∙◌, inl, inr, false, Option, none, some, List, [], ◌∷◌,
  Option-cases, arith, returns,
}
use rosa_server.Tcp.{
  destroy_listening, destroy_server, close_fd, fd_of, Server, Socket, on_connection, put_socket,
  socket_of, close, close_each, is_open, clear_closed_connections, close_server, close_connections,
  close_listener,
}
use rosa_server.Tcp.Owned.{IsOwned, has-keep_if, fd_at-set}
use rosa_server.Tcp.Steps.{closed, closed-IsOwned, unlistened-IsOwned}

-- One round of the loop of `closeConnections`.
abbrev close_open : Server → ℕ → Server
close_open s i = elim (fd_of s i) [ none ↦ s | some fd ↦ (on_connection s i close).0 ]

close_open-none : (s : Server) (i : ℕ) → fd_of s i ≡ none → close_open s i ≡ s
close_open-none s i e = rw (e, close_open) refl

close-open :
    (c : Socket) (fd : ℕ)
    → c.fd ≡ some fd
    → close c ≡ (record { os = close_fd c.os fd; fd = none }, returns tt)
unfolding close
close-open c fd e = rw e refl

close_open-some : (s : Server) (i fd : ℕ) → fd_of s i ≡ some fd → close_open s i ≡ closed s i fd
close_open-some s i fd e =
    rw (e, close_open) (ap (λ r. put_socket s i r.0) (close-open (socket_of s i) fd e))

close_open-IsOwned :
    (before : List ℕ) (s : Server) (i : ℕ) → IsOwned before s → IsOwned before (close_open s i)
close_open-IsOwned before s i o = elim (Option-cases (fd_of s i)) [
  | inl e ↦ subst (IsOwned before) (sym (close_open-none s i e)) o
  | inr (fd, e) ↦
      subst (IsOwned before) (sym (close_open-some s i fd e)) (closed-IsOwned before s i fd e o)
]

close_open-connections : (s : Server) (i : ℕ) → (close_open s i).connections ≡ s.connections
close_open-connections s i = elim (Option-cases (fd_of s i)) [
  | inl e ↦ ap (λ t. t.connections) (close_open-none s i e)
  | inr (fd, e) ↦ ap (λ t. t.connections) (close_open-some s i fd e)
]

close_open-fd_of :
    (s : Server) (i j fd : ℕ) → fd_of (close_open s i) j ≡ some fd → (fd_of s j ≡ some fd) × (i ≢ j)
close_open-fd_of s i j fd h = elim (Option-cases (fd_of s i)) [
  | inl e ↦
      let f : fd_of s j ≡ some fd = subst (λ t. fd_of t j ≡ some fd) (close_open-none s i e) h in
      (f, λ q. cc (f, e, ap (fd_of s) q))
  | inr (k, e) ↦
      fd_at-set s.objects i j fd (subst (λ t. fd_of t j ≡ some fd) (close_open-some s i k e) h)
]

close_each-IsOwned :
    (before : List ℕ) (s : Server) (is : List ℕ)
    → IsOwned before s
    → IsOwned before (close_each s is)
unfolding close_each
close_each-IsOwned before s [] o = o
close_each-IsOwned before s (i ∷ is) o =
    close_each-IsOwned before (close_open s i) is (close_open-IsOwned before s i o)

close_each-connections : (s : Server) (is : List ℕ) → (close_each s is).connections ≡ s.connections
unfolding close_each
close_each-connections s [] = refl
close_each-connections s (i ∷ is) =
    close_each-connections (close_open s i) is ∙ close_open-connections s i

-- What is still open afterwards was open before, and is none of those that were to be closed.
close_each-fd_of :
    (s : Server) (is : List ℕ) (j fd : ℕ)
    → fd_of (close_each s is) j ≡ some fd
    → (fd_of s j ≡ some fd) × (has is j ≡ false)
unfolding close_each
close_each-fd_of s [] j fd h = (h, refl)
close_each-fd_of s (i ∷ is) j fd h =
    let (f, n) = close_each-fd_of (close_open s i) is j fd h in
    let (g, d) = close_open-fd_of s i j fd f in (g, ground arith)

pub close_connections-closed :
    (before : List ℕ) (s : Server) (j fd : ℕ)
    → IsOwned before s
    → fd_of (close_connections s) j ≢ some fd
close_connections-closed before s j fd o h =
    let (f, n) = close_each-fd_of s s.connections j fd h in cc (o.held j fd f, n)

pub close_connections-IsOwned :
    (before : List ℕ) (s : Server) → IsOwned before s → IsOwned before (close_connections s)
close_connections-IsOwned before s o =
    let p = close_each-IsOwned before s s.connections o in
    record {
      clean = p.clean;
      listener_there = p.listener_there;
      there = p.there;
      apart = p.apart;
      listener_apart = p.listener_apart;
      held = λ i fd e. absurd (close_connections-closed before s i fd o e);
      listener_new = p.listener_new;
      new = p.new;
      kept = p.kept;
      owner = p.owner;
    }

close_listener-IsOwned :
    (before : List ℕ) (s : Server) (listener : Option ℕ)
    → s.listener ≡ listener
    → IsOwned before s
    → IsOwned before (close_listener s listener).0
close_listener-IsOwned before s none e o = o
close_listener-IsOwned before s (some fd) e o = unlistened-IsOwned before s fd e o

pub close_server-IsOwned :
    (before : List ℕ) (s : Server) → IsOwned before s → IsOwned before (close_server s).0
unfolding close_server
close_server-IsOwned before s o =
    let t = close_connections s in
    close_listener-IsOwned before t t.listener refl (close_connections-IsOwned before s o)

pub clear_closed_connections-IsOwned :
    (before : List ℕ) (s : Server) → IsOwned before s → IsOwned before (clear_closed_connections s)
clear_closed_connections-IsOwned before s o = record {
  clean = o.clean;
  listener_there = o.listener_there;
  there = o.there;
  apart = o.apart;
  listener_apart = o.listener_apart;
  held =
      λ i fd e. has-keep_if (λ j. is_open (fd_of s j)) s.connections i (rw e refl) (o.held i fd e);
  listener_new = o.listener_new;
  new = o.new;
  kept = o.kept;
  owner = o.owner;
}

destroy_listening-IsOwned :
    (before : List ℕ) (s : Server) (l : Option ℕ)
    → IsOwned before s
    → IsOwned before (destroy_listening s l)
destroy_listening-IsOwned before s none o = o
destroy_listening-IsOwned before s (some fd) o = close_server-IsOwned before s o

pub destroy_server-IsOwned :
    (before : List ℕ) (s : Server) → IsOwned before s → IsOwned before (destroy_server s)
unfolding destroy_server
destroy_server-IsOwned before s o = destroy_listening-IsOwned before s s.listener o
