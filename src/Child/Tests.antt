-- ===== src/Child/Tests.antt =====
-- RosaServer/childprocess.cpp and RosaServerSatellite/main.cpp: a pipe that takes all that is written,
-- and a process that ends.
use rosa_server.Base.{
  take_all, ℕ, zero, suc, ◌<◌, ◌≡◌, refl, sym, ap, ◌⊎◌, inl, inr, none, some, List, [], ◌∷◌, ◌++◌,
  length, take, drop, returns, codes, arith, false,
}
use rosa_server.Child.{
  SystemCall, waits, kills, Child, still_running, sends_message, receives_message, exited, reaped,
  killed, no_process, checks, terminates, sets_limit, asks_exit_code, Action, created, is_running,
  terminate,
}
use rosa_server.Child.Pipe.{
  Taken, taken, nothing_yet, put, PipeCalls, IsPipe, receive_message, send_message, send_header,
  send_body, header, number,
}
use rosa_server.Child.Fifo.{
  Exchange, sends, receives, Line, exchange, exchange_all, first_of, exchange_all-InOrder,
}
use rosa_server.Child.Between.{receive_between-loses_header}
use rosa_server.Child.Calls.{terminate-after_exit}

abbrev read_bytes : List ℕ → ℕ → List ℕ × Taken
read_bytes [] zero = ([], taken [])
read_bytes [] (suc n) = ([], nothing_yet)
read_bytes (b ∷ bs) n = (drop n (b ∷ bs), taken (take n (b ∷ bs)))

abbrev bytes_calls : PipeCalls (List ℕ)
bytes_calls = record { read = read_bytes; write = λ p bs. (p ++ bs, put (length bs)) }

abbrev bytes_of : List ℕ → List ℕ
bytes_of p = p

empty_read :
    (p : List ℕ) (n : ℕ)
    → p ≡ []
    → ((read_bytes p n).0 ≡ [])
      × (((read_bytes p n).1 ≡ taken []) ⊎ ((0 < n) × ((read_bytes p n).1 ≡ nothing_yet)))
empty_read [] zero e = (refl, inl refl)
empty_read [] (suc n) e = (refl, inr (omega arith, refl))
empty_read (b ∷ bs) n e = absurd (cc e)

first_read :
    (p : List ℕ) (n b : ℕ) (bs : List ℕ)
    → p ≡ b ∷ bs
    → ((read_bytes p n).1 ≡ taken (take n (b ∷ bs))) × ((read_bytes p n).0 ≡ drop n (b ∷ bs))
first_read [] n b bs e = absurd (cc e)
first_read (c ∷ cs) n b bs e = (ap (λ xs. taken (take n xs)) e, ap (λ xs. drop n xs) e)

bytes-IsPipe : IsPipe bytes_calls bytes_of
bytes-IsPipe = record {
  read_first = first_read;
  read_empty = empty_read;
  write_last = λ p bs. inl (length bs, omega arith, refl, ap (λ xs. p ++ xs) (sym (take_all bs)));
}

abbrev exchanges : List Exchange
exchanges = sends (codes "ping") ∷ sends [] ∷ receives ∷ sends (codes "pong") ∷ receives ∷ []

abbrev line : Line (List ℕ)
line = record { pipe = []; sent = []; received = [] }

received_line : (exchange_all bytes_calls line exchanges).received ≡ codes "ping" ∷ [] ∷ []
unfolding exchange_all exchange send_message send_header send_body receive_message header number
received_line = refl

exchange_all-InOrder_example :
    let l = exchange_all bytes_calls line exchanges in
    (pending : List (List ℕ)) × (l.received ++ pending ≡ l.sent)
    × ((receive_message bytes_calls l.pipe).1 ≡ returns (first_of pending))
unfolding exchange send_message send_header send_body receive_message header number
exchange_all-InOrder_example =
    exchange_all-InOrder bytes_calls bytes_of bytes-IsPipe [] exchanges refl
      ((omega arith, refl), ((omega arith, refl), (tt, ((omega arith, refl), (tt, tt)))))

receive_between-loses_header_example :
    let r = receive_message bytes_calls (send_header bytes_calls [] (codes "ping")).0 in
    (r.1 ≡ returns none)
    × (r.0 ≡ [])
    × ((send_body bytes_calls (codes "ping") r.0).0 ≡ codes "ping")
unfolding send_header send_body header
receive_between-loses_header_example =
    receive_between-loses_header bytes_calls bytes_of bytes-IsPipe [] (codes "ping") refl
      (omega arith) (omega arith) refl refl

abbrev actions : List Action
actions =
    checks still_running
    ∷ sends_message still_running
    ∷ receives_message
    ∷ sets_limit still_running none
    ∷ terminates killed (reaped 15)
    ∷ asks_exit_code still_running
    ∷ []

abbrev ended : Child
ended = record { pid = some 7; exit_code = some 0; log = waits 7 ∷ [] }

terminate-after_exit_example :
    ((is_running (created 7) (exited 0)).1 ≡ returns false)
    × (later : List SystemCall) × ((terminate
          (is_running (created 7) (exited 0)).0
          no_process
          (reaped 0)).0.log
        ≡ later ++ kills 7 ∷ waits 7 ∷ [])
terminate-after_exit_example = terminate-after_exit (created 7) 7 0 no_process (reaped 0) refl refl
