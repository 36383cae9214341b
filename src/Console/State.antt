-- ===== src/Console/State.antt =====
-- RosaServer/console.cpp: the variables of the namespace `Console`, and `log`, `redrawLine`,
-- `pushCommand`.
use rosa_server.Base.{
  Text, ℕ, zero, suc, ◌-◌, Bool, not, ◌&&◌, List, [], ◌∷◌, ◌++◌, map, length, replicate,
  if◌then◌else◌, ◌==◌,
}
use rosa_server.Base.Int.{ℤ}

-- One thing written to the terminal. `prompt` is the cyan "> " of `redrawLine` and `echo_prompt`
-- the green one of `pushCommand`; `erase_line` is "\33[2K".
pub data Write : Type 0 where
  put : ℕ → Write
  backward carriage newline erase_line prompt echo_prompt : Write

abbrev pub write_char : ℕ → Write
write_char c = if c == 10 then newline else put c

abbrev pub write_text : Text → List Write
write_text s = map write_char s

-- `for (...) std::cout << '\b';` of n rounds.
abbrev pub backs : ℕ → List Write
backs n = replicate n backward

-- `for (int i = 0; i < n; i++) std::cout << "\b \b";`
unfoldable pub rub_out : ℕ → List Write
rub_out zero = []
rub_out (suc n) = backward ∷ put 32 ∷ backward ∷ rub_out n

pub record Console : Type 0 where
  pub buffer : Text
  pub cursor_col : ℕ
  pub history : List Text
  pub history_pos : ℤ
  pub draft : Text
  pub awaiting_auto_complete : Bool
  pub auto_complete_input : Text
  pub command_queue : List Text
  pub retry_code : ℤ
  pub should_exit : Bool
  pub input_initialized : Bool
  pub written : List Write

abbrev pub history_limit : ℕ
history_limit = 512

abbrev pub emit : Console → List Write → Console
emit c ws = record c { written = c.written ++ ws }

-- `buffer.size() - cursorCol` is an `int` there; the loop does nothing if it is not positive.
abbrev pub redraw_line : Console → List Write
redraw_line c = prompt ∷ (map put c.buffer ++ backs (length c.buffer - c.cursor_col))

-- The head of the list that `log` writes before its text.
abbrev pub fresh_line : List Write
fresh_line = erase_line ∷ carriage ∷ []

abbrev pub redraw_if_shown : Console → List Write
redraw_if_shown c = if c.input_initialized && not c.should_exit then redraw_line c else []

unfoldable pub log : Console → List Write → Console
log c line = emit c (fresh_line ++ (line ++ redraw_if_shown c))

-- The input is printed on a line of its own and put at the end of the queue.
unfoldable pub push_command : Console → Text → Console
unfolding log
push_command c input =
    let d = log c (echo_prompt ∷ (write_text input ++ newline ∷ [])) in
    record d { command_queue = d.command_queue ++ input ∷ [] }
