-- ===== src/Child/Pipe.antt =====
-- RosaServer/childprocess.cpp and RosaServerSatellite/main.cpp: messages over a pipe, which both
-- sides send and receive with the same code: a header of four bytes and the bytes of the message.
use rosa_server.Base.{
  ℕ, ◌+◌, ◌*◌, ◌/◌, ◌%◌, ◌^◌, ◌≤◌, ◌<◌, ◌≡◌, ◌⊎◌, true, false, Option, none, some, List, [], ◌∷◌,
  ◌++◌, length, take, drop, ◌==◌, if◌then◌else◌, Call, returns, throws, Error, Bool,
}
use rosa_server.Child.{Child, Waited, is_running, write_if_running, read_pipe}

-- What `read` answers, where EAGAIN is `nothing_yet`, and what `write` answers.
pub data Taken : Type 0 where
  taken : List ℕ → Taken
  nothing_yet : Taken
  read_error : ℕ → Taken

pub data Put : Type 0 where
  put : ℕ → Put
  write_error : ℕ → Put

-- `read` and `write` on a pipe.
pub record PipeCalls (P : Type 0) : Type 0 where
  pub read : P → ℕ → P × Taken
  pub write : P → List ℕ → P × Put

-- An `unsigned int` in memory, the lowest byte first.
unfoldable pub header : ℕ → List ℕ
header n = n % 256 ∷ n / 256 % 256 ∷ n / 65536 % 256 ∷ n / 16777216 % 256 ∷ []

unfoldable pub number : List ℕ → ℕ
number [] = 0
number (b ∷ bs) = b + 256 * number bs

abbrev pub message_length : List ℕ → ℕ
message_length message = length message % 2 ^ 32

module _ {P : Type 0} (calls : PipeCalls P) where
  abbrev pub after_body : ℕ → P × Taken → P × Call (Option (List ℕ))
  after_body n (p, taken body) = (p, returns (if length body == n then some body else none))
  after_body n (p, nothing_yet) = (p, returns none)
  after_body n (p, read_error e) = (p, throws (Error.system e))

  abbrev pub after_header : P × Taken → P × Call (Option (List ℕ))
  after_header (p, taken bs) =
      if length bs == 4
      then after_body (number bs) (calls.read p (number bs))
      else (p, returns none)
  after_header (p, nothing_yet) = (p, returns none)
  after_header (p, read_error e) = (p, throws (Error.system e))

  unfoldable pub receive_message : P → P × Call (Option (List ℕ))
  receive_message p = after_header (calls.read p 4)

  abbrev pub after_write : ℕ → P × Put → (P → P × Call (Unit {0})) → P × Call (Unit {0})
  after_write n (p, put k) next = if k == n then next p else (p, throws Error.incomplete_write)
  after_write n (p, write_error e) next = (p, throws (Error.system e))

  unfoldable pub send_header : P → List ℕ → P × Put
  send_header p message = calls.write p (header (message_length message))

  unfoldable pub send_body : List ℕ → P → P × Call (Unit {0})
  send_body message p =
      let n = message_length message in
      after_write n (calls.write p (take n message)) (λ q. (q, returns tt))

  -- `l_sendMessage` of the satellite.
  unfoldable pub send_message : P → List ℕ → P × Call (Unit {0})
  send_message p message = after_write 4 (send_header p message) (send_body message)

  abbrev pub parent_send : Child × Call Bool → P → List ℕ → Child × (P × Call (Unit {0}))
  parent_send (c, throws e) p message = (c, (p, throws e))
  parent_send (c, returns false) p message = (c, (p, returns tt))
  parent_send (c, returns true) p message =
      (write_if_running (c, returns true), send_message p message)

  -- `ChildProcess::receiveMessage`
  unfoldable pub receive_from_child : Child → P → Child × (P × Call (Option (List ℕ)))
  receive_from_child c p = (read_pipe c, receive_message p)

  -- `ChildProcess::sendMessage`
  unfoldable pub send_to_child : Child → Waited → P → List ℕ → Child × (P × Call (Unit {0}))
  send_to_child c answer p message = parent_send (is_running c answer) p message

-- What is documented of a pipe whose two ends are open: it holds bytes; `read` takes the first ones, at
-- most as many as it is asked for; with none there it answers none or that there is nothing yet, and
-- only the former if it is asked for none; `write` appends the bytes that it says, or fails.
pub record IsPipe {P : Type 0} (calls : PipeCalls P) (content : P → List ℕ) : Type 0 where
  pub read_first :
      (p : P) (n b : ℕ) (bs : List ℕ)
      → content p ≡ b ∷ bs
      → ((calls.read p n).1 ≡ taken (take n (b ∷ bs)))
        × (content (calls.read p n).0 ≡ drop n (b ∷ bs))
  pub read_empty :
      (p : P) (n : ℕ)
      → content p ≡ []
      → (content (calls.read p n).0 ≡ [])
        × (((calls.read p n).1 ≡ taken []) ⊎ ((0 < n) × ((calls.read p n).1 ≡ nothing_yet)))
  pub write_last :
      (p : P) (bs : List ℕ)
      → ((k : ℕ) × (k ≤ length bs)
          × ((calls.write p bs).1 ≡ put k)
          × (content (calls.write p bs).0 ≡ content p ++ take k bs))
        ⊎ ((e : ℕ) × ((calls.write p bs).1 ≡ write_error e)
            × (content (calls.write p bs).0 ≡ content p))
