-- ===== src/Tcp/Steps.antt =====
-- RosaServer/tcpserver.cpp: what each call does to the descriptors.
use rosa_server.Base.{
  Option, none, some, has, ℕ, ◌≡◌, refl, sym, ap, subst, ◌∙◌, ◌⊎◌, inl, inr, true, List, [], ◌∷◌,
  set, Option-cases, min,
}
use rosa_server.Tcp.{
  destroy, destroy_open, Os, use_fd, close_fd, fd_of, Server, Socket, put_socket, socket_of, close,
  send, receive, after_read, Written, wrote, write_blocks, write_failed, Got, bytes, read_blocks,
  read_failed, max_server_read_size,
}
use rosa_server.Tcp.Owned.{
  IsOwned, has-remove, has-keep_others, set-fd_at, fd_at-set, fd_at-set_other,
}

-- A call with an open descriptor.
abbrev pub used : Server → ℕ → Server
used s fd = record s { os = use_fd s.os fd }

pub used-IsOwned :
    (before : List ℕ) (s : Server) (fd : ℕ)
    → has s.os.open_fds fd ≡ true
    → IsOwned before s
    → IsOwned before (used s fd)
used-IsOwned before s fd h o = record {
  clean = rw (o.clean, h) refl;
  listener_there = o.listener_there;
  there = o.there;
  apart = o.apart;
  listener_apart = o.listener_apart;
  held = o.held;
  listener_new = o.listener_new;
  new = o.new;
  kept = o.kept;
  owner = o.owner;
}

-- The object i closed, with its descriptor.
abbrev pub closed : Server → ℕ → ℕ → Server
closed s i fd = record s { os = close_fd s.os fd; objects = set s.objects i none }

pub closed-IsOwned :
    (before : List ℕ) (s : Server) (i fd : ℕ)
    → fd_of s i ≡ some fd
    → IsOwned before s
    → IsOwned before (closed s i fd)
closed-IsOwned before s i fd e o = record {
  clean = rw (o.clean, o.there i fd e) refl;
  listener_there = λ k h.
      has-keep_others s.os.open_fds fd k (λ q. o.listener_apart i k h (e ∙ ap some (sym q)))
        (o.listener_there k h);
  there = λ j k h.
      let (f, d) = fd_at-set s.objects i j k h in
      has-keep_others s.os.open_fds fd k (λ q. d (o.apart i j fd e (f ∙ ap some q)))
        (o.there j k f);
  apart =
      λ j k f h g. o.apart j k f (fd_at-set s.objects i j f h).0 (fd_at-set s.objects i k f g).0;
  listener_apart = λ j k h g. o.listener_apart j k h (fd_at-set s.objects i j k g).0;
  held = λ j k h. o.held j k (fd_at-set s.objects i j k h).0;
  listener_new = o.listener_new;
  new = λ j k h. o.new j k (fd_at-set s.objects i j k h).0;
  kept = λ k h.
      has-keep_others s.os.open_fds fd k (λ q. cc (h, ap (has before) q, o.new i fd e))
        (o.kept k h);
  owner = λ k h.
      let (f, d) = has-remove s.os.open_fds fd k h in
      elim (o.owner k f) [
        | inl b ↦ inl b
        | inr (inl l) ↦ inr (inl l)
        | inr (inr (j, g)) ↦
            inr (inr (j, fd_at-set_other s.objects i j (λ q. d (cc (q, g, e))) ∙ g))
      ];
}

-- The listening descriptor closed.
abbrev unlistened : Server → ℕ → Server
unlistened s fd = record s { os = close_fd s.os fd; listener = none }

pub unlistened-IsOwned :
    (before : List ℕ) (s : Server) (fd : ℕ)
    → s.listener ≡ some fd
    → IsOwned before s
    → IsOwned before (unlistened s fd)
unlistened-IsOwned before s fd e o = record {
  clean = rw (o.clean, o.listener_there fd e) refl;
  listener_there = λ k h. absurd (cc h);
  there = λ j k h.
      has-keep_others s.os.open_fds fd k (λ q. o.listener_apart j fd e (h ∙ ap some q))
        (o.there j k h);
  apart = o.apart;
  listener_apart = λ j k h. absurd (cc h);
  held = o.held;
  listener_new = λ k h. absurd (cc h);
  new = o.new;
  kept = λ k h.
      has-keep_others s.os.open_fds fd k (λ q. cc (h, ap (has before) q, o.listener_new fd e))
        (o.kept k h);
  owner = λ k h.
      let (f, d) = has-remove s.os.open_fds fd k h in
      elim (o.owner k f) [
        | inl b ↦ inl b
        | inr (inl l) ↦ absurd (d (cc (l, e)))
        | inr (inr (j, g)) ↦ inr (inr (j, g))
      ];
}

-- What a method does to a socket.
abbrev Touched : Socket → Socket → Type 0
Touched c d =
    (d ≡ c)
    ⊎ ((fd : ℕ) × (c.fd ≡ some fd)
        × ((d ≡ record c { os = use_fd c.os fd })
            ⊎ (d ≡ record { os = close_fd c.os fd; fd = none })
            ⊎ (d ≡ record { os = close_fd (use_fd c.os fd) fd; fd = none })))

pub Touched-close : (c : Socket) → Touched c (close c).0
unfolding close
Touched-close c = elim (Option-cases c.fd) [
  | inl e ↦ inl (rw e refl)
  | inr (fd, e) ↦ inr (fd, e, inr (inl (rw e refl)))
]

pub Touched-send :
    (c : Socket) (message : List ℕ) (answer : Written) → Touched c (send c message answer).0
unfolding send
Touched-send c [] answer = elim (Option-cases c.fd) [
  | inl e ↦ inl (rw e refl)
  | inr (fd, e) ↦ inl (rw e refl)
]
Touched-send c (b ∷ bs) (wrote n) = elim (Option-cases c.fd) [
  | inl e ↦ inl (rw e refl)
  | inr (fd, e) ↦ inr (fd, e, inl (rw e refl))
]
Touched-send c (b ∷ bs) write_blocks = elim (Option-cases c.fd) [
  | inl e ↦ inl (rw e refl)
  | inr (fd, e) ↦ inr (fd, e, inl (rw e refl))
]
Touched-send c (b ∷ bs) (write_failed n) = elim (Option-cases c.fd) [
  | inl e ↦ inl (rw e refl)
  | inr (fd, e) ↦ inr (fd, e, inl (rw e refl))
]

pub Touched-after_read :
    (c : Socket) (fd : ℕ) (got : Got)
    → c.fd ≡ some fd
    → Touched c (after_read (record c { os = use_fd c.os fd }) got).0
unfolding close
Touched-after_read c fd (bytes []) e = inr (fd, e, inr (inr (rw e refl)))
Touched-after_read c fd (bytes (b ∷ bs)) e = inr (fd, e, inl refl)
Touched-after_read c fd read_blocks e = inr (fd, e, inl refl)
Touched-after_read c fd (read_failed n) e = inr (fd, e, inl refl)

receive-open :
    (c : Socket) (size : ℕ) (read : ℕ → Got) (fd : ℕ)
    → c.fd ≡ some fd
    → receive c size read
      ≡ after_read (record c { os = use_fd c.os fd }) (read (min size max_server_read_size))
unfolding receive
receive-open c size read fd e = rw e refl

pub Touched-receive : (c : Socket) (size : ℕ) (read : ℕ → Got) → Touched c (receive c size read).0
unfolding receive
Touched-receive c size read = elim (Option-cases c.fd) [
  | inl e ↦ inl (rw e refl)
  | inr (fd, e) ↦
      subst (λ r. Touched c r.0) (sym (receive-open c size read fd e))
        (Touched-after_read c fd (read (min size max_server_read_size)) e)
]

put_same :
    (s : Server) (i : ℕ) (os : Os)
    → put_socket s i (record { os = os; fd = fd_of s i }) ≡ record s { os = os }
put_same s i os = ap (λ objects. (record s { os = os; objects = objects })) (set-fd_at s.objects i)

pub Touched-IsOwned :
    (before : List ℕ) (s : Server) (i : ℕ) (d : Socket)
    → Touched (socket_of s i) d
    → IsOwned before s
    → IsOwned before (put_socket s i d)
Touched-IsOwned before s i d (inl e) o =
    subst (λ c. IsOwned before (put_socket s i c)) (sym e)
      (subst (IsOwned before) (sym (put_same s i s.os)) o)
Touched-IsOwned before s i d (inr (fd, e, inl f)) o =
    subst (λ c. IsOwned before (put_socket s i c)) (sym f)
      (subst (IsOwned before) (sym (put_same s i (use_fd s.os fd)))
        (used-IsOwned before s fd (o.there i fd e) o))
Touched-IsOwned before s i d (inr (fd, e, inr (inl f))) o =
    subst (λ c. IsOwned before (put_socket s i c)) (sym f) (closed-IsOwned before s i fd e o)
Touched-IsOwned before s i d (inr (fd, e, inr (inr f))) o =
    subst (λ c. IsOwned before (put_socket s i c)) (sym f)
      (closed-IsOwned before (used s fd) i fd e (used-IsOwned before s fd (o.there i fd e) o))

Touched-destroy_open : (c : Socket) (fd : Option ℕ) → c.fd ≡ fd → Touched c (destroy_open c fd)
Touched-destroy_open c none e = inl refl
Touched-destroy_open c (some fd) e = Touched-close c

pub Touched-destroy : (c : Socket) → Touched c (destroy c)
unfolding destroy
Touched-destroy c = Touched-destroy_open c c.fd refl
