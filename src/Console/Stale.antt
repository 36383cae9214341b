-- ===== src/Console/Stale.antt =====
-- RosaServer/console.cpp: lines that are replaced as a whole, by the arrows, a completion or a
-- logged line, and what the user then sees.
use mathlib.Core.List.{reverse}
use rosa_server.Base.{
  Text, ℕ, zero, suc, ◌-◌, ◌≤◌, ◌<◌, ◌≡◌, refl, sym, ap, ◌∙◌, ◌≢◌, inl, inr, true, List, [], ◌∷◌,
  ◌++◌, map, arith, length, take, drop, get_or, Bool-cases, ◌==◌,
}
use rosa_server.Console.State.{Console, put, rub_out}
use rosa_server.Console.Keys.{up_arrow, show_line, clamp_up, saved_draft, increment, history_line}
use rosa_server.Console.Terminal.{
  Line, line, render, blanks, render-append, render-puts, render-rub_out, length-reverse,
}
use rosa_server.Console.Reads.{Reads, prompt_cells, drop-all, drop-suc, length-take_le}
use rosa_server.Console.Display.{Shows, screen}
use rosa_server.Console.Plain.{Plain}

-- The cursor stands behind the last character.
abbrev pub AtEnd : Console → Type 0
AtEnd c = c.cursor_col ≡ length c.buffer

-- The line reads as it should, and it is one that Terminal describes.
abbrev pub ShowsPlain : Console → Type 0
ShowsPlain c = Shows c × Plain c

blank_before : (k m x : ℕ) (r : Text) → blanks k ++ x ∷ r ≡ blanks m → x ≡ 32
blank_before zero zero x r e = cc
blank_before zero (suc m) x r e = cc
blank_before (suc k) zero x r e = cc
blank_before (suc k) (suc m) x r e = blank_before k m x r (cc)

drop-blanks-append : (j k : ℕ) (r : Text) → j ≤ k → drop j (blanks k ++ r) ≡ blanks (k - j) ++ r
drop-blanks-append zero k r h = let e : k ≡ k - 0 = omega arith in ap (λ n. blanks n ++ r) e
drop-blanks-append (suc j) zero r h = absurd (omega arith)
drop-blanks-append (suc j) (suc k) r h =
    let e : k - j ≡ suc k - suc j = omega arith in
    drop-blanks-append j k r (omega arith) ∙ ap (λ n. blanks n ++ r) e

-- What stands from the cursor on after a line was replaced.
right-show_line :
    (c : Console) (s : Text) (n : ℕ)
    → screen c
      ≡ line
          (reverse (take c.cursor_col c.buffer) ++ prompt_cells)
          (drop c.cursor_col c.buffer ++ blanks n)
    → c.cursor_col ≤ length c.buffer
    → length s ≤ c.cursor_col
    → (screen (show_line c s)).right
      ≡ blanks (c.cursor_col - length s) ++ (drop c.cursor_col c.buffer ++ blanks n)
right-show_line c s n h l w =
    let k = c.cursor_col in
    let pre = take k c.buffer in
    let rest = drop k c.buffer ++ blanks n in
    let size : length (reverse pre) ≡ k = length-reverse pre ∙ length-take_le k c.buffer l in
    ap (λ (t : Line). t.right)
      (render-append c.written (rub_out k ++ map put s) (line [] [])
        ∙ ap (render (rub_out k ++ map put s)) h
        ∙ render-append (rub_out k) (map put s) _
        ∙ ap (render (map put s)) (
            ap (λ j. render (rub_out j) (line (reverse pre ++ prompt_cells) rest)) (sym size)
            ∙ render-rub_out (reverse pre) prompt_cells rest
            ∙ ap (λ j. line prompt_cells (blanks j ++ rest)) size)
        ∙ render-puts s prompt_cells (blanks k ++ rest))
    ∙ drop-blanks-append (length s) k rest w

-- With the cursor before a character that is no blank, a line that is replaced by one not longer
-- than what stands left of the cursor leaves that character on the terminal.
show_line_stale :
    (c : Console) (s : Text)
    → Shows c
    → c.cursor_col < length c.buffer
    → get_or c.buffer c.cursor_col 0 ≢ 32
    → length s ≤ c.cursor_col
    → ¬ Shows (show_line c s)
unfolding Shows
show_line_stale c s (n, h) l x w (m, e) =
    let k = c.cursor_col in
    let tail = drop-suc k c.buffer l in
    x (
      blank_before (k - length s) m _ (drop (suc k) c.buffer ++ blanks n) (
        ap (λ (u : Text). blanks (k - length s) ++ (u ++ blanks n)) (sym tail)
        ∙ sym (right-show_line c s n h (omega arith) w)
        ∙ ap (λ (t : Line). t.right) e
        ∙ ap (λ (u : Text). u ++ blanks m) (drop-all s)))

empty_of_length : (hs : List Text) → (length hs == 0) ≡ true → hs ≡ []
empty_of_length [] e = refl
empty_of_length (t ∷ hs) e = absurd (ground arith)

-- A defect of the up arrow, in the same situation: the terminal keeps a character that is not in
-- the buffer.
pub up_arrow_stale :
    (c : Console)
    → Shows c
    → c.history ≢ []
    → c.cursor_col < length c.buffer
    → get_or c.buffer c.cursor_col 0 ≢ 32
    → length (history_line c.history (clamp_up (increment c.history_pos) (length c.history)))
      ≤ c.cursor_col
    → ¬ Shows (up_arrow c)
unfolding Shows up_arrow
up_arrow_stale c h some_line l x w = elim (Bool-cases (length c.history == 0)) [
  | inl empty ↦ absurd (some_line (empty_of_length c.history empty))
  | inr filled ↦
      let p = clamp_up (increment c.history_pos) (length c.history) in
      rw filled (
        show_line_stale (record c { draft = saved_draft c c.history_pos; history_pos = p })
          (history_line c.history p) h l x w)
]
