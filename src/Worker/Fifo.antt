-- ===== src/Worker/Fifo.antt =====
-- RosaServer/worker.cpp: the queues as bounded queues that lose their oldest messages.
use rosa_server.Base.{
  Text, suc, ◌+◌, ◌≤◌, ◌≡◌, refl, sym, ap, ◌∙◌, true, List, [], ◌∷◌, ◌++◌, length, arith,
  length-append, ltb, Bool-cases, inl, inr, ltb→lt,
}
use mathlib.Core.List.{append_assoc}
use rosa_server.Worker.{
  Event, System, stops, sends, receives, l_sends, l_receives, capacity, push_bounded, pop_front,
  stop, send_message, receive_message, l_send_message, l_receive_message, with_message, step, run,
  started,
}

-- The second list with some of its elements left out, the others in their order.
pub data Selected : List Text → List Text → Type 0 where
  nothing : Selected [] []
  kept : {xs ys : List Text} (x : Text) → Selected xs ys → Selected (x ∷ xs) (x ∷ ys)
  lost : {xs ys : List Text} (y : Text) → Selected xs ys → Selected xs (y ∷ ys)

Selected-kept_last :
    {xs ys : List Text} (m : Text) → Selected xs ys → Selected (xs ++ m ∷ []) (ys ++ m ∷ [])
Selected-kept_last m nothing = kept m nothing
Selected-kept_last m (kept x s) = kept x (Selected-kept_last m s)
Selected-kept_last m (lost y s) = lost y (Selected-kept_last m s)

Selected-lost_last : {xs ys : List Text} (m : Text) → Selected xs ys → Selected xs (ys ++ m ∷ [])
Selected-lost_last m nothing = lost m nothing
Selected-lost_last m (kept x s) = kept x (Selected-lost_last m s)
Selected-lost_last m (lost y s) = lost y (Selected-lost_last m s)

-- What is waiting is the end of what was sent, within the bound; what was received is a selection of
-- the messages before it, in their order, and all of them as long as no more were sent than the
-- bound.
pub record IsFifo (sent received queue : List Text) : Type 0 where
  pub gone : List Text
  pub split : sent ≡ gone ++ queue
  pub in_order : Selected received gone
  pub bounded : length queue ≤ capacity
  pub complete : length sent ≤ capacity → received ≡ gone

length-snoc : (xs : List Text) (m : Text) → length (xs ++ m ∷ []) ≡ length xs + 1
length-snoc xs m = omega (arith, length-append xs (m ∷ []))

-- The queue with the message behind it is not too long.
IsFifo-push_short :
    {sent received : List Text} (queue : List Text) (m : Text)
    → IsFifo sent received queue
    → length queue + 1 ≤ capacity
    → IsFifo (sent ++ m ∷ []) received (queue ++ m ∷ [])
IsFifo-push_short {sent = sent} queue m f short = record {
  gone = f.gone;
  split = ap (λ l. l ++ m ∷ []) f.split ∙ append_assoc f.gone queue (m ∷ []);
  in_order = f.in_order;
  bounded = omega (arith, length-snoc queue m);
  complete = λ few. f.complete (omega (arith, length-snoc sent m));
}

move_front : (gone queue : List Text) (q : Text) → gone ++ q ∷ queue ≡ (gone ++ q ∷ []) ++ queue
move_front gone queue q = sym (append_assoc gone (q ∷ []) queue)

-- The front is dropped, since the queue was full.
IsFifo-push_full :
    {sent received : List Text} (q : Text) (rest : List Text) (m : Text)
    → IsFifo sent received (q ∷ rest)
    → capacity ≤ length (q ∷ rest)
    → IsFifo (sent ++ m ∷ []) received (rest ++ m ∷ [])
IsFifo-push_full {sent = sent} q rest m f full =
    let sent_length : length sent ≡ length f.gone + length (q ∷ rest) =
      ap length f.split ∙ length-append f.gone (q ∷ rest) in
    record {
      gone = f.gone ++ q ∷ [];
      split =
          ap (λ l. l ++ m ∷ []) (f.split ∙ move_front f.gone rest q)
          ∙ append_assoc (f.gone ++ q ∷ []) rest (m ∷ []);
      in_order = Selected-lost_last q f.in_order;
      bounded =
          let room : suc (length rest) ≤ capacity = f.bounded in omega (arith, length-snoc rest m);
      complete = λ few. absurd (omega (arith, length-snoc sent m));
    }

IsFifo-push :
    {sent received : List Text} (queue : List Text) (m : Text)
    → IsFifo sent received queue
    → IsFifo (sent ++ m ∷ []) received (push_bounded queue m)
unfolding push_bounded
IsFifo-push [] m f = IsFifo-push_short [] m f (omega arith)
IsFifo-push (q ∷ rest) m f = elim (Bool-cases (ltb capacity (length (q ∷ rest ++ m ∷ [])))) [
  | inl full ↦ rw full (
      IsFifo-push_full q rest m f (
        omega
          (arith, length-snoc (q ∷ rest) m, ltb→lt capacity (length (q ∷ rest ++ m ∷ [])) full)))
  | inr short ↦
      rw short (IsFifo-push_short (q ∷ rest) m f (ground (arith, length-snoc (q ∷ rest) m, short)))
]

IsFifo-pop :
    {sent received queue : List Text}
    → IsFifo sent received queue
    → IsFifo sent (with_message received (pop_front queue).0) (pop_front queue).1
IsFifo-pop {queue = []} f = f
IsFifo-pop {queue = m ∷ rest} f = record {
  gone = f.gone ++ m ∷ [];
  split = f.split ∙ move_front f.gone rest m;
  in_order = Selected-kept_last m f.in_order;
  bounded = omega arith;
  complete = λ few. ap (λ l. l ++ m ∷ []) (f.complete few);
}

-- The two directions of a worker.
pub record IsOrderly (s : System) : Type 0 where
  pub to_thread : IsFifo s.sent s.l_received s.worker.send_queue
  pub from_thread : IsFifo s.l_sent s.received s.worker.receive_queue

IsOrderly-step : (s : System) (e : Event) → IsOrderly s → IsOrderly (step s e)
unfolding step stop send_message receive_message l_send_message l_receive_message
IsOrderly-step s stops v = record { to_thread = v.to_thread; from_thread = v.from_thread }
IsOrderly-step s (sends m) v = elim (Bool-cases s.worker.stopped) [
  | inl t ↦ rw t (record { to_thread = v.to_thread; from_thread = v.from_thread })
  | inr t ↦ rw t (record {
    to_thread = IsFifo-push s.worker.send_queue m v.to_thread;
    from_thread = v.from_thread;
  })
]
IsOrderly-step s receives v = record {
  to_thread = v.to_thread;
  from_thread = IsFifo-pop v.from_thread;
}
IsOrderly-step s (l_sends m) v = record {
  to_thread = v.to_thread;
  from_thread = IsFifo-push s.worker.receive_queue m v.from_thread;
}
IsOrderly-step s l_receives v = record {
  to_thread = IsFifo-pop v.to_thread;
  from_thread = v.from_thread;
}

IsOrderly-run : (s : System) (events : List Event) → IsOrderly s → IsOrderly (run s events)
unfolding run
IsOrderly-run s [] v = v
IsOrderly-run s (e ∷ events) v = IsOrderly-run (step s e) events (IsOrderly-step s e v)

-- However the calls of the two threads interleave, in each direction the messages that wait are the
-- last ones that were accepted, at most 2047, and those received are some of the ones before them,
-- each once and in their order, and all of them as long as at most 2047 were accepted.
pub run-IsOrderly : (events : List Event) → IsOrderly (run started events)
run-IsOrderly events =
    let empty : IsFifo [] [] [] = record {
      gone = [];
      split = refl;
      in_order = nothing;
      bounded = omega arith;
      complete = λ few. refl;
    } in
    IsOrderly-run started events (record { to_thread = empty; from_thread = empty })

-- What a step of a stopped worker keeps.
abbrev pub OnlyTaken : System → System → Type 0
OnlyTaken s t =
    (t.worker.stopped ≡ true)
    × (t.sent ≡ s.sent)
    × ((taken : List Text) × (s.worker.send_queue ≡ taken ++ t.worker.send_queue))

pop_front-taken : (queue : List Text) → (taken : List Text) × (queue ≡ taken ++ (pop_front queue).1)
pop_front-taken [] = ([], refl)
pop_front-taken (m ∷ rest) = (m ∷ [], refl)

step-OnlyTaken : (s : System) (e : Event) → s.worker.stopped ≡ true → OnlyTaken s (step s e)
unfolding step stop send_message receive_message l_send_message l_receive_message
step-OnlyTaken s stops t = (refl, refl, ([], refl))
step-OnlyTaken s (sends m) t = rw t (refl, refl, ([], refl))
step-OnlyTaken s receives t = (t, refl, ([], refl))
step-OnlyTaken s (l_sends m) t = (t, refl, ([], refl))
step-OnlyTaken s l_receives t = (t, refl, pop_front-taken s.worker.send_queue)

-- Once a worker is stopped it stays so, accepts no message for its thread, and those that wait for
-- the thread are only taken, from the front, whatever calls follow.
pub run-OnlyTaken :
    (s : System) (events : List Event) → s.worker.stopped ≡ true → OnlyTaken s (run s events)
unfolding run
run-OnlyTaken s [] t = (t, refl, ([], refl))
run-OnlyTaken s (e ∷ events) t =
    let (stopped, sent, (first, queue)) = step-OnlyTaken s e t in
    let (stopped', sent', (others, queue')) = run-OnlyTaken (step s e) events stopped in
    (
      stopped',
      sent' ∙ sent,
      (
        first ++ others,
        queue
            ∙ ap (λ q. first ++ q) queue'
            ∙ sym (append_assoc first others (run (step s e) events).worker.send_queue),
      ),
    )
