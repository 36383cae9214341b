-- ===== src/Console/Keys.antt =====
-- RosaServer/console.cpp: the branches of the `switch` in `threadMain`, one function each, and
-- `respondToAutoComplete`.
use rosa_server.Base.{
  Text, texts_equal, ℕ, zero, suc, ◌+◌, ◌-◌, Bool, true, false, not, List, [], ◌∷◌, ◌++◌, map,
  length, take, drop, get_or, ltb, ◌==◌, if◌then◌else◌,
}
use rosa_server.Base.Int.{ℤ, pos, negsuc}
use rosa_server.Console.State.{
  Console, Write, put, backward, carriage, prompt, backs, rub_out, history_limit, push_command,
}

-- `buffer.erase(buffer.begin() + i)` and `buffer.insert(buffer.begin() + i, c)`.
abbrev pub erase_at : ℕ → Text → Text
erase_at i s = take i s ++ drop (suc i) s

abbrev pub insert_at : ℕ → ℕ → Text → Text
insert_at i c s = take i s ++ c ∷ drop i s

-- `pop_back`
abbrev pub pop_back {ℓ} : {A : Type ℓ} → List A → List A
pop_back xs = take (length xs - 1) xs

-- `for (int i = k; i < buffer.size(); i++) std::cout << buffer[i];`
abbrev pub write_from : ℕ → Text → List Write
write_from k s = map put (drop k s)

-- CODE_TAB, the part of `awaitAutoComplete` before its waiting loop.
unfoldable pub tab : Console → Console
tab c = record c { awaiting_auto_complete = true; auto_complete_input = c.buffer }

-- `!history.size() || history[0] != bufferString`
abbrev pub is_new_line : List Text → Text → Bool
is_new_line [] s = true
is_new_line (h ∷ hs) s = not (texts_equal h s)

abbrev pub trim_history : List Text → List Text
trim_history h = if ltb history_limit (length h) then pop_back h else h

abbrev pub remember : List Text → Text → List Text
remember h s = if is_new_line h s then trim_history (s ∷ h) else h

-- CODE_NEW_LINE
unfoldable pub new_line : Console → Console
new_line c =
    if length c.buffer == 0
    then c
    else push_command
        (record c {
          history = remember c.history c.buffer;
          buffer = [];
          cursor_col = 0;
          history_pos = negsuc 0;
        })
        c.buffer

abbrev pub backspace_end : Console → Console
backspace_end c = record c {
  buffer = pop_back c.buffer;
  cursor_col = c.cursor_col - 1;
  written = c.written ++ (backward ∷ put 32 ∷ backward ∷ []);
}

abbrev pub backspace_middle : Console → Console
backspace_middle c =
    let col = c.cursor_col - 1 in
    let rest = erase_at col c.buffer in
    record c {
      buffer = rest;
      cursor_col = col;
      written =
          c.written
          ++ (backward
              ∷ put 32
              ∷ backward
              ∷ (write_from col rest
                  ++ put 32 ∷ (backs (length rest - (col + 1)) ++ backward ∷ backward ∷ [])));
    }

-- CODE_BACKSPACE
unfoldable pub backspace : Console → Console
backspace c =
    if c.cursor_col == 0
    then c
    else if c.cursor_col == length c.buffer
    then backspace_end c
    else backspace_middle c

-- Replacing the edited line by another: what was left of the cursor is rubbed out.
abbrev pub show_line : Console → Text → Console
show_line c line = record c {
  buffer = line;
  cursor_col = length line;
  written = c.written ++ (rub_out c.cursor_col ++ map put line);
}

abbrev pub increment : ℤ → ℤ
increment (pos n) = pos (suc n)
increment (negsuc zero) = pos 0
increment (negsuc (suc n)) = negsuc n

abbrev pub decrement : ℤ → ℤ
decrement (pos zero) = negsuc 0
decrement (pos (suc n)) = pos n
decrement (negsuc n) = negsuc (suc n)

-- `historyPos > history.size() - 1` compares as `size_t`, so a negative position is large.
abbrev pub clamp_up : ℤ → ℕ → ℤ
clamp_up (pos n) size = if ltb (size - 1) n then pos (size - 1) else pos n
clamp_up (negsuc n) size = pos (size - 1)

abbrev pub clamp_down : ℤ → ℤ
clamp_down (pos n) = pos n
clamp_down (negsuc n) = negsuc 0

-- `history[historyPos]`, at a position that is not negative.
abbrev pub history_line : List Text → ℤ → Text
history_line h (pos n) = get_or h n []
history_line h (negsuc n) = []

-- `if (historyPos == -1) draft = buffer`
abbrev pub saved_draft : Console → ℤ → Text
saved_draft c (negsuc zero) = c.buffer
saved_draft c other = c.draft

-- CODE_A, the up arrow
unfoldable pub up_arrow : Console → Console
up_arrow c =
    if length c.history == 0
    then c
    else let p = clamp_up (increment c.history_pos) (length c.history) in
      show_line (record c { draft = saved_draft c c.history_pos; history_pos = p })
        (history_line c.history p)

abbrev pub line_below : Console → ℤ → Text
line_below c (pos n) = get_or c.history n []
line_below c (negsuc n) = c.draft

-- CODE_B, the down arrow
unfoldable pub down_arrow : Console → Console
down_arrow c =
    if length c.history == 0
    then c
    else let p = clamp_down (decrement c.history_pos) in
      show_line (record c { history_pos = p }) (line_below c p)

-- CODE_C, the right arrow
unfoldable pub right_arrow : Console → Console
right_arrow c =
    if ltb c.cursor_col (length c.buffer)
    then record c {
      cursor_col = c.cursor_col + 1;
      written = c.written ++ put (get_or c.buffer c.cursor_col 0) ∷ [];
    }
    else c

-- CODE_D, the left arrow
unfoldable pub left_arrow : Console → Console
left_arrow c =
    if c.cursor_col == 0
    then c
    else record c { cursor_col = c.cursor_col - 1; written = c.written ++ backward ∷ [] }

-- CODE_H
unfoldable pub home : Console → Console
home c = record c { cursor_col = 0; written = c.written ++ carriage ∷ prompt ∷ [] }

-- CODE_F
unfoldable pub end_key : Console → Console
end_key c = record c {
  cursor_col = length c.buffer;
  written = c.written ++ carriage ∷ prompt ∷ map put c.buffer;
}

abbrev pub delete_here : Console → Text → Console
delete_here c rest = record c {
  buffer = rest;
  written =
      c.written
      ++ (write_from c.cursor_col rest ++ put 32 ∷ backs (length rest + 1 - c.cursor_col));
}

-- CODE_3 before a tilde
unfoldable pub delete_key : Console → Console
delete_key c =
    if ltb c.cursor_col (length c.buffer) then delete_here c (erase_at c.cursor_col c.buffer) else c

-- CODE_4 before a tilde
unfoldable pub end_tilde : Console → Console
end_tilde c = record c {
  cursor_col = length c.buffer;
  written = c.written ++ write_from c.cursor_col c.buffer;
}

-- The default branch, for a code of at least 0x20.
unfoldable pub type_character : Console → ℕ → Console
type_character c ch =
    let line =
      if c.cursor_col == length c.buffer
      then c.buffer ++ ch ∷ []
      else insert_at c.cursor_col ch c.buffer in
    let tail =
      if c.cursor_col == length c.buffer
      then []
      else write_from (c.cursor_col + 1) line ++ backs (length line - (c.cursor_col + 1)) in
    record c { buffer = line; cursor_col = c.cursor_col + 1; written = c.written ++ put ch ∷ tail }

-- `respondToAutoComplete`, which the main thread calls.
unfoldable pub respond : Console → Text → Console
respond c line =
    if c.awaiting_auto_complete
    then show_line (record c { awaiting_auto_complete = false }) line
    else c
