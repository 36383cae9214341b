-- ===== src/Worker/Tests.antt =====
-- RosaServer/worker.cpp: a worker with two messages for its thread.
use rosa_server.Base.{◌≡◌, refl, true, List, [], ◌∷◌, codes}
use rosa_server.Worker.{
  Event, stops, sends, receives, l_sends, l_receives, run, started, step, stop, l_send_message,
  l_receive_message, send_message, push_bounded,
}
use rosa_server.Worker.Fifo.{IsOrderly, run-IsOrderly}

abbrev events : List Event
events =
    sends (codes "one") ∷ sends (codes "two") ∷ l_receives ∷ l_sends (codes "three") ∷ stops ∷ []

abbrev late_events : List Event
late_events = sends (codes "four") ∷ l_receives ∷ receives ∷ []

run-events : (run started events).worker.send_queue ≡ codes "two" ∷ []
unfolding run step stop l_send_message l_receive_message send_message push_bounded
run-events = refl

run-IsOrderly_example : IsOrderly (run started events)
run-IsOrderly_example = run-IsOrderly events

stopped_events : (run started events).worker.stopped ≡ true
unfolding run step stop
stopped_events = refl
