-- ===== src/Tcp/Owned.antt =====
-- RosaServer/tcpserver.cpp: which object has which descriptor.
use rosa_server.Base.{
  has, ℕ, zero, suc, ◌≡◌, ◌≢◌, refl, ap, ◌⊎◌, inl, inr, Bool, true, false, not, Option, none, some,
  List, [], ◌∷◌, ◌++◌, length, set, keep_if, ◌==◌, arith,
}
use rosa_server.Tcp.{fd_at, fd_of, Server}

-- Every open object has a descriptor of its own, which is open in the system; the server holds every
-- open connection; no call was made with a descriptor that was not open; and the open descriptors
-- are those from before and those of the objects, which have none in common.
pub record IsOwned (before : List ℕ) (s : Server) : Type 0 where
  pub clean : s.os.misused ≡ false
  pub listener_there : (fd : ℕ) → s.listener ≡ some fd → has s.os.open_fds fd ≡ true
  pub there : (i fd : ℕ) → fd_of s i ≡ some fd → has s.os.open_fds fd ≡ true
  pub apart : (i j fd : ℕ) → fd_of s i ≡ some fd → fd_of s j ≡ some fd → i ≡ j
  pub listener_apart : (i fd : ℕ) → s.listener ≡ some fd → fd_of s i ≢ some fd
  pub held : (i fd : ℕ) → fd_of s i ≡ some fd → has s.connections i ≡ true
  pub listener_new : (fd : ℕ) → s.listener ≡ some fd → has before fd ≡ false
  pub new : (i fd : ℕ) → fd_of s i ≡ some fd → has before fd ≡ false
  pub kept : (fd : ℕ) → has before fd ≡ true → has s.os.open_fds fd ≡ true
  pub owner :
      (fd : ℕ)
      → has s.os.open_fds fd ≡ true
      → (has before fd ≡ true) ⊎ (s.listener ≡ some fd) ⊎ ((i : ℕ) × (fd_of s i ≡ some fd))

pub has-keep_if :
    (p : ℕ → Bool) (xs : List ℕ) (k : ℕ)
    → p k ≡ true
    → has xs k ≡ true
    → has (keep_if p xs) k ≡ true
has-keep_if p [] k h e = e
has-keep_if p (x ∷ xs) k h e = ground (arith, has-keep_if p xs k h)

pub has-remove :
    (xs : List ℕ) (fd k : ℕ)
    → has (keep_if (λ x. not (x == fd)) xs) k ≡ true
    → (has xs k ≡ true) × (k ≢ fd)
has-remove [] fd k e = absurd (cc e)
has-remove (x ∷ xs) fd k e = ground (arith, has-remove xs fd k)

pub has-keep_others :
    (xs : List ℕ) (fd k : ℕ)
    → k ≢ fd
    → has xs k ≡ true
    → has (keep_if (λ x. not (x == fd)) xs) k ≡ true
has-keep_others xs fd k d h = has-keep_if (λ x. not (x == fd)) xs k (ground arith) h

pub set-fd_at : (objects : List (Option ℕ)) (i : ℕ) → set objects i (fd_at objects i) ≡ objects
set-fd_at [] i = refl
set-fd_at (o ∷ objects) zero = refl
set-fd_at (o ∷ objects) (suc i) = ap (λ os. o ∷ os) (set-fd_at objects i)

pub fd_at-set :
    (objects : List (Option ℕ)) (i j fd : ℕ)
    → fd_at (set objects i none) j ≡ some fd
    → (fd_at objects j ≡ some fd) × (i ≢ j)
fd_at-set [] i j fd e = absurd (cc e)
fd_at-set (o ∷ objects) zero zero fd e = absurd (cc e)
fd_at-set (o ∷ objects) zero (suc j) fd e = (e, λ q. omega arith)
fd_at-set (o ∷ objects) (suc i) zero fd e = (e, λ q. omega arith)
fd_at-set (o ∷ objects) (suc i) (suc j) fd e =
    let (f, d) = fd_at-set objects i j fd e in (f, λ q. d (omega arith))

pub fd_at-set_other :
    (objects : List (Option ℕ)) (i j : ℕ) → i ≢ j → fd_at (set objects i none) j ≡ fd_at objects j
fd_at-set_other [] i j d = refl
fd_at-set_other (o ∷ objects) zero zero d = absurd (d refl)
fd_at-set_other (o ∷ objects) zero (suc j) d = refl
fd_at-set_other (o ∷ objects) (suc i) zero d = refl
fd_at-set_other (o ∷ objects) (suc i) (suc j) d = fd_at-set_other objects i j (λ q. d (omega arith))

pub fd_at-append :
    (objects : List (Option ℕ)) (fd j k : ℕ)
    → fd_at (objects ++ some fd ∷ []) j ≡ some k
    → (fd_at objects j ≡ some k) ⊎ ((j ≡ length objects) × (fd ≡ k))
fd_at-append [] fd zero k e = inr (refl, cc e)
fd_at-append [] fd (suc j) k e = absurd (cc e)
fd_at-append (o ∷ objects) fd zero k e = inl e
fd_at-append (o ∷ objects) fd (suc j) k e = ground (arith, fd_at-append objects fd j k e)

pub fd_at-append_old :
    (objects : List (Option ℕ)) (fd j k : ℕ)
    → fd_at objects j ≡ some k
    → fd_at (objects ++ some fd ∷ []) j ≡ some k
fd_at-append_old [] fd j k e = absurd (cc e)
fd_at-append_old (o ∷ objects) fd zero k e = e
fd_at-append_old (o ∷ objects) fd (suc j) k e = fd_at-append_old objects fd j k e

pub fd_at-append_new :
    (objects : List (Option ℕ)) (fd : ℕ)
    → fd_at (objects ++ some fd ∷ []) (length objects) ≡ some fd
fd_at-append_new [] fd = refl
fd_at-append_new (o ∷ objects) fd = fd_at-append_new objects fd

pub fd_at-length : (objects : List (Option ℕ)) → fd_at objects (length objects) ≡ none
fd_at-length [] = refl
fd_at-length (o ∷ objects) = fd_at-length objects

pub has-append : (xs : List ℕ) (i k : ℕ) → has xs k ≡ true → has (xs ++ i ∷ []) k ≡ true
has-append [] i k e = absurd (cc e)
has-append (x ∷ xs) i k e = ground (arith, has-append xs i k)

pub has-append_new : (xs : List ℕ) (i : ℕ) → has (xs ++ i ∷ []) i ≡ true
has-append_new [] i = ground arith
has-append_new (x ∷ xs) i = ground (arith, has-append_new xs i)
