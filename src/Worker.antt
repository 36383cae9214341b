-- ===== src/Worker.antt =====
-- RosaServer/worker.cpp and worker.h: the two message queues of the class `Worker` and its flag. Each
-- function is one critical section of its mutex. `l_send_message` and `l_receive_message` are called
-- by the Lua state of the worker's thread, the others by the server's.
pub mod Fifo
mod Tests
use rosa_server.Base.{
  Text, ℕ, Bool, true, false, Option, none, some, List, [], ◌∷◌, ◌++◌, length, drop, ltb,
  if◌then◌else◌,
}

-- The queues have their front first.
pub record Worker : Type 0 where
  pub stopped : Bool
  pub send_queue : List Text
  pub receive_queue : List Text

abbrev pub new_worker : Worker
new_worker = record { stopped = false; send_queue = []; receive_queue = [] }

abbrev pub capacity : ℕ
capacity = 2047

-- `queue.push(message); if (queue.size() > 2047) queue.pop();`
unfoldable pub push_bounded : List Text → Text → List Text
push_bounded queue message =
    let longer = queue ++ message ∷ [] in
    if ltb capacity (length longer) then drop 1 longer else longer

-- `nil` if the queue is empty, its front otherwise, which is taken off.
abbrev pub pop_front : List Text → Option Text × List Text
pop_front [] = (none, [])
pop_front (message ∷ rest) = (some message, rest)

unfoldable pub stop : Worker → Worker
stop w = record w { stopped = true }

unfoldable pub send_message : Worker → Text → Worker
send_message w message =
    if w.stopped then w else record w { send_queue = push_bounded w.send_queue message }

unfoldable pub receive_message : Worker → Worker × Option Text
receive_message w =
    let (message, rest) = pop_front w.receive_queue in (record w { receive_queue = rest }, message)

unfoldable pub l_send_message : Worker → Text → Worker
l_send_message w message = record w { receive_queue = push_bounded w.receive_queue message }

unfoldable pub l_receive_message : Worker → Worker × Option Text
l_receive_message w =
    let (message, rest) = pop_front w.send_queue in (record w { send_queue = rest }, message)

-- The calls of the two threads.
pub data Event : Type 0 where
  stops receives l_receives : Event
  sends l_sends : Text → Event

-- The worker with the messages that were accepted and that were received so far, for the direction
-- to the worker's thread and for that from it, oldest first.
pub record System : Type 0 where
  pub worker : Worker
  pub sent : List Text
  pub l_received : List Text
  pub l_sent : List Text
  pub received : List Text

abbrev pub with_message : List Text → Option Text → List Text
with_message messages none = messages
with_message messages (some message) = messages ++ message ∷ []

unfoldable pub step : System → Event → System
step s stops = record s { worker = stop s.worker }
step s (sends message) = record s {
  worker = send_message s.worker message;
  sent = if s.worker.stopped then s.sent else s.sent ++ message ∷ [];
}
step s receives = record s {
  worker = (receive_message s.worker).0;
  received = with_message s.received (receive_message s.worker).1;
}
step s (l_sends message) = record s {
  worker = l_send_message s.worker message;
  l_sent = s.l_sent ++ message ∷ [];
}
step s l_receives = record s {
  worker = (l_receive_message s.worker).0;
  l_received = with_message s.l_received (l_receive_message s.worker).1;
}

-- The calls in the order in which the mutexes let them through.
unfoldable pub run : System → List Event → System
run s [] = s
run s (event ∷ events) = run (step s event) events

abbrev pub started : System
started = record { worker = new_worker; sent = []; l_received = []; l_sent = []; received = [] }
