-- ===== src/Console/Tests.antt =====
-- RosaServer/console.cpp: runs of the console, and the theorems at such inputs.
use rosa_server.Base.{Text, ◌≡◌, refl, Option, none, some, List, [], ◌∷◌, arith}
use rosa_server.Base.Int.{ℤ, pos}
use rosa_server.Console.State.{Console, put, prompt, backward, push_command}
use rosa_server.Console.Keys.{new_line, type_character, left_arrow}
use rosa_server.Console.Loop.{pass, run, System, here, next, started, sends}
use rosa_server.Console.Invariant.{Inv, Reach-Inv}
use rosa_server.Console.Progress.{Settles, run-Settles}
use rosa_server.Console.Plain.{Plain}

-- "ab", Enter, "c", the left arrow and "d".
abbrev keys : List ℤ
keys = pos 97 ∷ pos 98 ∷ pos 10 ∷ pos 99 ∷ pos 27 ∷ pos 91 ∷ pos 68 ∷ pos 100 ∷ []

abbrev typed_keys : Option (Console × List ℤ) → Text × List Text
typed_keys none = ([], [])
typed_keys (some (c, rest)) = (c.buffer, c.command_queue)

keys-run : typed_keys (run 20 started keys) ≡ (100 ∷ 99 ∷ [], (97 ∷ 98 ∷ []) ∷ [])
unfolding run pass type_character new_line push_command left_arrow
keys-run = refl

run-Settles_example : Settles (run 17 started keys)
run-Settles_example = run-Settles 17 started keys (omega arith)

one_key : System
one_key = record { console = started; codes = [] }

Reach-Inv_example : Inv started
Reach-Inv_example =
    Reach-Inv {s = record { console = started; codes = [] }}
      {t = record { console = started; codes = pos 97 ∷ [] }} refl
      (next here (sends (record { console = started; codes = [] }) (pos 97)))

-- The line "xy" with the cursor on "x", shown, and "a" in the history.
abbrev shown : Console
shown = record started {
  buffer = 120 ∷ 121 ∷ [];
  cursor_col = 1;
  history = (97 ∷ []) ∷ [];
  written = prompt ∷ put 120 ∷ put 121 ∷ backward ∷ [];
}
