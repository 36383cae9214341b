-- ===== src/Console/Loop.antt =====
-- RosaServer/console.cpp: `threadMain`, and how the other threads act on the console.
use rosa_server.Base.{
  Text, ℕ, zero, suc, ◌≡◌, Bool, true, false, Option, none, some, List, [], ◌∷◌, ◌++◌, leb, ◌==◌,
  if◌then◌else◌,
}
use rosa_server.Base.Int.{ℤ, pos, negsuc}
use rosa_server.Console.State.{Console, Write, log, push_command}
use rosa_server.Console.Keys.{
  tab, new_line, backspace, up_arrow, down_arrow, right_arrow, left_arrow, home, end_key,
  delete_key, end_tilde, type_character, respond,
}

-- One pass of the loop `while (!shouldExit)`: it may wait for another code of the terminal or for
-- the main thread, or leave the loop, or be done with the codes that are left.
pub data Pass : Type 0 where
  waits leaves : Pass
  goes_on : Console → List ℤ → Pass

-- `code == n`, for one of the constants CODE_…
abbrev pub is_code : ℤ → ℕ → Bool
is_code (pos c) n = c == n
is_code (negsuc c) n = false

-- `retryCode = code; continue;`
abbrev pub retry : Console → ℤ → List ℤ → Pass
retry c code rest = goes_on (record c { retry_code = code }) rest

-- The last code of `ESC [ 3 ~` and `ESC [ 4 ~`. The branch for CODE_1 in the source cannot be
-- reached, since the `switch` around it has no such case.
abbrev pub after_number : Console → ℤ → List ℤ → Pass
after_number c code [] = waits
after_number c code (second ∷ rest) =
    if is_code second 126
    then goes_on (if is_code code 51 then delete_key c else end_tilde c) rest
    else retry c second rest

-- The code behind `ESC [`.
abbrev pub after_bracket : Console → List ℤ → Pass
after_bracket c [] = waits
after_bracket c (code ∷ rest) =
    if is_code code 65
    then goes_on (up_arrow c) rest
    else if is_code code 66
    then goes_on (down_arrow c) rest
    else if is_code code 67
    then goes_on (right_arrow c) rest
    else if is_code code 68
    then goes_on (left_arrow c) rest
    else if is_code code 72
    then goes_on (home c) rest
    else if is_code code 70
    then goes_on (end_key c) rest
    else if is_code code 53
    then goes_on c rest
    else if is_code code 54
    then goes_on c rest
    else if is_code code 51
    then after_number c code rest
    else if is_code code 52
    then after_number c code rest
    else retry c code rest

-- The code behind `ESC`.
abbrev pub after_escape : Console → List ℤ → Pass
after_escape c [] = waits
after_escape c (code ∷ rest) = if is_code code 91 then after_bracket c rest else retry c code rest

abbrev pub typed : Console → ℤ → Console
typed c (pos ch) = if leb 32 ch then type_character c ch else c
typed c (negsuc n) = c

-- The outer `switch`.
unfoldable pub handle : Console → ℤ → List ℤ → Pass
handle c code rest =
    if is_code code 9
    then goes_on (tab c) rest
    else if is_code code 10
    then goes_on (new_line c) rest
    else if is_code code 127
    then goes_on (backspace c) rest
    else if is_code code 27
    then after_escape c rest
    else goes_on (typed c code) rest

-- `if (retryCode) … else code = _getch();`
abbrev pub next_code : Console → ℤ → List ℤ → Pass
next_code c (pos zero) [] = waits
next_code c (pos zero) (code ∷ rest) = handle c code rest
next_code c (pos (suc n)) codes = handle (record c { retry_code = pos 0 }) (pos (suc n)) codes
next_code c (negsuc n) codes = handle (record c { retry_code = pos 0 }) (negsuc n) codes

-- A pass of the loop over the codes that the terminal has sent. While the thread waits in
-- `awaitAutoComplete` it makes no pass.
unfoldable pub pass : Console → List ℤ → Pass
unfolding handle
pass c codes =
    if c.awaiting_auto_complete
    then waits
    else if c.should_exit
    then leaves
    else next_code c c.retry_code codes

-- The loop on fuel, until it waits or leaves; `none` when the fuel is used up.
unfoldable pub run : ℕ → Console → List ℤ → Option (Console × List ℤ)
run zero c codes = none
run (suc fuel) c codes = elim (pass c codes) [
  | waits ↦ some (c, codes)
  | leaves ↦ some (c, codes)
  | goes_on d rest ↦ run fuel d rest
]

-- The console with the codes that are on their way to it.
pub record System : Type 0 where
  pub console : Console
  pub codes : List ℤ

-- What the thread of the console and the others do, in any order. `takes` is the main thread
-- taking the oldest command, `interrupts` is `handleInterruptSignal`.
pub data Step : System → System → Type 0 where
  sends : (s : System) (code : ℤ) → Step s (record s { codes = s.codes ++ code ∷ [] })
  passes :
      (s : System) {c : Console} {rest : List ℤ}
      → pass s.console s.codes ≡ goes_on c rest
      → Step s (record { console = c; codes = rest })
  responds : (s : System) (line : Text) → Step s (record s { console = respond s.console line })
  logs : (s : System) (line : List Write) → Step s (record s { console = log s.console line })
  pushes :
      (s : System) (input : Text) → Step s (record s { console = push_command s.console input })
  takes :
      (s : System) (first : Text) (others : List Text)
      → s.console.command_queue ≡ first ∷ others
      → Step s (record s { console = record s.console { command_queue = others } })
  interrupts :
      (s : System) → Step s (record s { console = record s.console { should_exit = true } })

pub data Reach (s : System) : System → Type 0 where
  here : Reach s s
  next : {t u : System} → Reach s t → Step t u → Reach s u

-- The values that the variables have first, once `init` has run.
abbrev pub started : Console
started = record {
  buffer = [];
  cursor_col = 0;
  history = [];
  history_pos = negsuc 0;
  draft = [];
  awaiting_auto_complete = false;
  auto_complete_input = [];
  command_queue = [];
  retry_code = pos 0;
  should_exit = false;
  input_initialized = true;
  written = [];
}
