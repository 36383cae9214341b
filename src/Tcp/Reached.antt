-- ===== src/Tcp/Reached.antt =====
-- RosaServer/tcpserver.cpp: a server from its opening on.
use rosa_server.Base.{
  has, ℕ, ◌≡◌, refl, sym, ap, subst, ◌∙◌, inl, inr, true, false, Option, none, some, List, [], ◌∷◌,
  ◌++◌, length, ◌==◌, ==→eq, Bool-cases, Option-cases, arith, returns, throws, Error,
}
use rosa_server.Tcp.{
  destroy, destroy_connection, destroy_all, Os, fd_of, Server, socket_of, close, send, receive,
  accept, Accepted, client, accept_blocks, accept_failed, Action, close_connection, send_to,
  receive_from, accept_next, close_all, act, IsNew, clear_closed_connections, open_fd, close_server,
  close_connections, IsReached, opened, acted, Opened, open_server, close_listener, with_listener,
  first_failure, after_accept,
}
use rosa_server.Tcp.Owned.{
  IsOwned, fd_at-append, fd_at-append_old, fd_at-append_new, has-append, has-append_new,
}
use rosa_server.Tcp.Steps.{
  Touched-destroy, used, used-IsOwned, Touched-IsOwned, Touched-close, Touched-send,
  Touched-receive,
}
use rosa_server.Tcp.Closing.{
  destroy_server-IsOwned, close_server-IsOwned, clear_closed_connections-IsOwned,
  close_connections-closed,
}

-- A connection with a new descriptor.
abbrev added : Server → ℕ → Server
added s fd = record s {
  os = open_fd s.os fd;
  objects = s.objects ++ some fd ∷ [];
  connections = s.connections ++ length s.objects ∷ [];
}

has-cons : (xs : List ℕ) (fd k : ℕ) → has xs k ≡ true → has (fd ∷ xs) k ≡ true
has-cons xs fd k h = ground arith

has-own : (xs : List ℕ) (fd : ℕ) → has (fd ∷ xs) fd ≡ true
has-own xs fd = ground arith

added-IsOwned :
    (before : List ℕ) (s : Server) (fd : ℕ)
    → has s.os.open_fds fd ≡ false
    → IsOwned before s
    → IsOwned before (added s fd)
added-IsOwned before s fd n o = record {
  clean = o.clean;
  listener_there = λ k h. has-cons s.os.open_fds fd k (o.listener_there k h);
  there = λ j k h. elim (fd_at-append s.objects fd j k h) [
    | inl f ↦ has-cons s.os.open_fds fd k (o.there j k f)
    | inr (e, f) ↦ ground arith
  ];
  apart = λ i j k f g. elim (fd_at-append s.objects fd i k f) [
    | inl a ↦ elim (fd_at-append s.objects fd j k g) [
      | inl b ↦ o.apart i j k a b
      | inr (e, b) ↦ absurd (cc (o.there i k a, n, b))
    ]
    | inr (e, a) ↦ elim (fd_at-append s.objects fd j k g) [
      | inl b ↦ absurd (cc (o.there j k b, n, a))
      | inr (e', b) ↦ e ∙ sym e'
    ]
  ];
  listener_apart = λ i k l h. elim (fd_at-append s.objects fd i k h) [
    | inl a ↦ o.listener_apart i k l a
    | inr (e, a) ↦ cc (o.listener_there k l, n, a)
  ];
  held = λ i k h. elim (fd_at-append s.objects fd i k h) [
    | inl a ↦ has-append s.connections (length s.objects) i (o.held i k a)
    | inr (e, a) ↦
        subst (λ x. has (s.connections ++ length s.objects ∷ []) x ≡ true) (sym e)
          (has-append_new s.connections (length s.objects))
  ];
  listener_new = o.listener_new;
  new = λ i k h. elim (fd_at-append s.objects fd i k h) [
    | inl a ↦ o.new i k a
    | inr (e, a) ↦ elim (Bool-cases (has before k)) [
      | inl b ↦ absurd (cc (o.kept k b, n, a))
      | inr b ↦ b
    ]
  ];
  kept = λ k h. has-cons s.os.open_fds fd k (o.kept k h);
  owner = λ k h. elim (Bool-cases (fd == k)) [
    | inl b ↦ inr (inr (length s.objects, fd_at-append_new s.objects fd ∙ ap some (==→eq fd k b)))
    | inr b ↦ elim (o.owner k (ground arith)) [
      | inl p ↦ inl p
      | inr (inl l) ↦ inr (inl l)
      | inr (inr (j, g)) ↦ inr (inr (j, fd_at-append_old s.objects fd j k g))
    ]
  ];
}

accept-none : (s : Server) (answer : Accepted) → s.listener ≡ none → (accept s answer).0 ≡ s
unfolding accept
accept-none s answer e = rw e refl

accept-some :
    (s : Server) (answer : Accepted) (fd : ℕ)
    → s.listener ≡ some fd
    → accept s answer ≡ after_accept (used s fd) answer
unfolding accept
accept-some s answer fd e = rw e refl

after_accept-IsOwned :
    (before : List ℕ) (s : Server) (answer : Accepted)
    → IsNew s (accept_next answer)
    → IsOwned before s
    → IsOwned before (after_accept s answer).0
after_accept-IsOwned before s (client fd) n o =
    added-IsOwned before (clear_closed_connections s) fd n
      (clear_closed_connections-IsOwned before s o)
after_accept-IsOwned before s accept_blocks n o = o
after_accept-IsOwned before s (accept_failed e) n o = o

IsNew-used :
    (s : Server) (fd : ℕ) (answer : Accepted)
    → IsNew s (accept_next answer)
    → IsNew (used s fd) (accept_next answer)
IsNew-used s fd (client k) n = n
IsNew-used s fd accept_blocks n = n
IsNew-used s fd (accept_failed e) n = n

accept-IsOwned :
    (before : List ℕ) (s : Server) (answer : Accepted)
    → IsNew s (accept_next answer)
    → IsOwned before s
    → IsOwned before (accept s answer).0
accept-IsOwned before s answer n o = elim (Option-cases s.listener) [
  | inl e ↦ subst (IsOwned before) (sym (accept-none s answer e)) o
  | inr (fd, e) ↦
      subst (λ r. IsOwned before r.0) (sym (accept-some s answer fd e))
        (after_accept-IsOwned before (used s fd) answer (IsNew-used s fd answer n)
          (used-IsOwned before s fd (o.listener_there fd e) o))
]

act-IsOwned :
    (before : List ℕ) (s : Server) (a : Action)
    → IsNew s a
    → IsOwned before s
    → IsOwned before (act s a)
unfolding act
act-IsOwned before s (close_connection i) n o =
    Touched-IsOwned before s i (close (socket_of s i)).0 (Touched-close (socket_of s i)) o
act-IsOwned before s (send_to i message answer) n o =
    Touched-IsOwned before s i (send (socket_of s i) message answer).0
      (Touched-send (socket_of s i) message answer) o
act-IsOwned before s (receive_from i size read) n o =
    Touched-IsOwned before s i (receive (socket_of s i) size read).0
      (Touched-receive (socket_of s i) size read) o
act-IsOwned before s (accept_next answer) n o = accept-IsOwned before s answer n o
act-IsOwned before s close_all n o = close_server-IsOwned before s o
act-IsOwned before s (destroy_connection i) n o =
    Touched-IsOwned before s i (destroy (socket_of s i)) (Touched-destroy (socket_of s i)) o
act-IsOwned before s destroy_all n o = destroy_server-IsOwned before s o

-- The server that the constructor gives.
abbrev listening : Os → ℕ → Server
listening os fd = record { os = open_fd os fd; listener = some fd; objects = []; connections = [] }

listening-IsOwned :
    (os : Os) (fd : ℕ)
    → os.misused ≡ false
    → has os.open_fds fd ≡ false
    → IsOwned os.open_fds (listening os fd)
listening-IsOwned os fd m n = record {
  clean = m;
  listener_there = λ k h. let q : fd ≡ k = cc h in ground arith;
  there = λ i k h. absurd (cc h);
  apart = λ i j k h g. absurd (cc h);
  listener_apart = λ i k l h. cc h;
  held = λ i k h. absurd (cc h);
  listener_new = λ k h. subst (λ x. has os.open_fds x ≡ false) (cc h) n;
  new = λ i k h. absurd (cc h);
  kept = λ k h. has-cons os.open_fds fd k h;
  owner = λ k h. elim (Bool-cases (fd == k)) [
    | inl b ↦ inr (inl (ap some (==→eq fd k b)))
    | inr b ↦ inl (ground arith)
  ];
}

with_listener-returns :
    (os : Os) (fd : ℕ) (failure : Option ℕ) (s : Server)
    → (with_listener os fd failure).1 ≡ returns s
    → s ≡ listening os fd
with_listener-returns os fd none s r = cc r
with_listener-returns os fd (some e) s r = absurd (cc r)

abbrev failure_of : Opened → Option ℕ
failure_of answers =
    first_failure answers.set_failed (first_failure answers.bind_failed answers.listen_failed)

open_server-some :
    (os : Os) (answers : Opened) (e fd : ℕ)
    → answers.descriptor ≡ some fd
    → open_server os answers e ≡ with_listener os fd (failure_of answers)
unfolding open_server
open_server-some os answers e fd d = rw d refl

open_server-returns :
    (os : Os) (answers : Opened) (e fd : ℕ) (s : Server)
    → answers.descriptor ≡ some fd
    → (open_server os answers e).1 ≡ returns s
    → s ≡ listening os fd
open_server-returns os answers e fd s d r =
    with_listener-returns os fd (failure_of answers) s
      (sym (ap (λ x. x.1) (open_server-some os answers e fd d)) ∙ r)

-- When `socket` gives a descriptor and a later call of the constructor fails, the error is thrown and
-- the descriptor stays open; no object has it.
open_server-leaks :
    (os : Os) (answers : Opened) (e fd failure : ℕ)
    → answers.descriptor ≡ some fd
    → failure_of answers ≡ some failure
    → ((open_server os answers e).1 ≡ throws (Error.system failure))
      × (has (open_server os answers e).0.open_fds fd ≡ true)
open_server-leaks os answers e fd failure d f =
    let step : open_server os answers e ≡ (open_fd os fd, throws (Error.system failure)) =
      open_server-some os answers e fd d ∙ ap (with_listener os fd) f in
    (ap (λ x. x.1) step, ap (λ x. has x.0.open_fds fd) step ∙ has-own os.open_fds fd)

-- In every state of a server that was opened with a descriptor that was not open, and whose accepted
-- descriptors were not open either: each open connection has its own descriptor, the listener another
-- one, all of them open; the server holds every open connection; no system call was made with a
-- descriptor that was not open; and the open descriptors are those from before and the server's own.
pub reached-IsOwned : (before : List ℕ) (s : Server) → IsReached before s → IsOwned before s
reached-IsOwned before s (opened os answers e fd t m n d r) =
    subst (IsOwned before) (sym (open_server-returns os answers e fd t d r))
      (listening-IsOwned os fd m n)
reached-IsOwned before s (acted b t a h n) = act-IsOwned b t a n (reached-IsOwned b t h)

IsReached-closed :
    (before : List ℕ) (s : Server) → IsReached before s → IsReached before (close_server s).0
unfolding act
IsReached-closed before s h = acted before s close_all h tt

close_listener-fd_of :
    (s : Server) (l : Option ℕ) (j : ℕ) → fd_of (close_listener s l).0 j ≡ fd_of s j
close_listener-fd_of s none j = refl
close_listener-fd_of s (some fd) j = refl

close_listener-listener :
    (s : Server) (l : Option ℕ) → s.listener ≡ l → (close_listener s l).0.listener ≡ none
close_listener-listener s none e = e
close_listener-listener s (some fd) e = refl

close_server-listener : (s : Server) → (close_server s).0.listener ≡ none
unfolding close_server
close_server-listener s = let t = close_connections s in close_listener-listener t t.listener refl

close_server-fd_of :
    (before : List ℕ) (s : Server) (j : ℕ) → IsOwned before s → fd_of (close_server s).0 j ≡ none
unfolding close_server
close_server-fd_of before s j o =
    let t = close_connections s in
    close_listener-fd_of t t.listener j
    ∙ elim (Option-cases (fd_of t j)) as (λ _. fd_of t j ≡ none) [
      | inl e ↦ e
      | inr (fd, e) ↦ absurd (close_connections-closed before s j fd o e)
    ]

-- When the server is closed in any state that it reached, its listener and every connection that it
-- ever accepted are closed, and the open descriptors are those that were open before it was opened:
-- none is left open and none of another is closed.
pub close_server-releases :
    (before : List ℕ) (s : Server)
    → IsReached before s
    → ((close_server s).0.listener ≡ none)
      × ((i : ℕ) → fd_of (close_server s).0 i ≡ none)
      × ((fd : ℕ) → has (close_server s).0.os.open_fds fd ≡ has before fd)
close_server-releases before s h =
    let o = reached-IsOwned before (close_server s).0 (IsReached-closed before s h) in
    let shut : (i : ℕ) → fd_of (close_server s).0 i ≡ none =
      λ i. close_server-fd_of before s i (reached-IsOwned before s h) in
    (
      close_server-listener s,
      shut,
      λ fd. elim (Bool-cases (has (close_server s).0.os.open_fds fd)) [
        | inl e ↦ elim (o.owner fd e) [
          | inl b ↦ e ∙ sym b
          | inr (inl l) ↦ absurd (cc (close_server-listener s, l))
          | inr (inr (i, g)) ↦ absurd (cc (shut i, g))
        ]
        | inr e ↦ elim (Bool-cases (has before fd)) [
          | inl b ↦ absurd (cc (o.kept fd b, e))
          | inr b ↦ e ∙ sym b
        ]
      ],
    )
