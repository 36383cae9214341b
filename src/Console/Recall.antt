-- ===== src/Console/Recall.antt =====
-- RosaServer/console.cpp: entering lines, getting them back with the arrows, and the escape
-- sequence that no case of the `switch` takes.
use rosa_server.Base.{
  texts_equal, texts_equal→eq, Text, ℕ, suc, ◌-◌, ◌≡◌, refl, ap, sym, subst, ◌∙◌, ◌≢◌, inl, inr,
  true, false, some, List, [], ◌∷◌, ◌++◌, arith, length, Bool-cases, ◌==◌, ltb, get_or, take,
}
use rosa_server.Base.Int.{ℤ, pos, negsuc}
use rosa_server.Console.State.{Console, push_command, history_limit}
use rosa_server.Console.Keys.{
  new_line, up_arrow, down_arrow, type_character, remember, trim_history,
}
use rosa_server.Console.Loop.{pass, run, handle, next_code, goes_on, waits}

less : (n : ℕ) → suc (suc n) - 1 ≡ suc n
less n = omega arith

head_of_trim : (h : List Text) (s : Text) → get_or (trim_history (s ∷ h)) 0 [] ≡ s
head_of_trim [] s = refl
head_of_trim (t ∷ h) s = elim (Bool-cases (ltb history_limit (length (s ∷ t ∷ h)))) [
  | inl long ↦ rw long (ap (λ n. get_or (take n (s ∷ t ∷ h)) 0 []) (less (length h)))
  | inr short ↦ rw short refl
]

-- The newest entry after a line was entered is that line.
head_of_remember : (h : List Text) (s : Text) → get_or (remember h s) 0 [] ≡ s
head_of_remember [] s = refl
head_of_remember (t ∷ h) s = elim (Bool-cases (texts_equal t s)) [
  | inl same ↦ rw same (texts_equal→eq t s same)
  | inr new ↦ rw new (head_of_trim (t ∷ h) s)
]

remember-ne-nil : (h : List Text) (s : Text) → s ≢ [] → remember h s ≢ []
remember-ne-nil h s n e = n (sym (head_of_remember h s) ∙ ap (λ (hs : List Text). get_or hs 0 []) e)

-- The up arrow with no entry shown yet.
up_arrow_newest :
    (d : Console)
    → d.history ≢ []
    → d.history_pos ≡ negsuc 0
    → ((up_arrow d).buffer ≡ get_or d.history 0 [])
      × ((up_arrow d).cursor_col ≡ length (get_or d.history 0 []))
      × ((up_arrow d).history_pos ≡ pos 0)
      × ((up_arrow d).draft ≡ d.buffer)
      × ((up_arrow d).history ≡ d.history)
unfolding up_arrow
up_arrow_newest d n p = ground arith

-- The down arrow from the newest entry.
down_arrow_draft :
    (d : Console)
    → d.history ≢ []
    → d.history_pos ≡ pos 0
    → ((down_arrow d).buffer ≡ d.draft)
      × ((down_arrow d).cursor_col ≡ length d.draft)
      × ((down_arrow d).history_pos ≡ negsuc 0)
unfolding down_arrow
down_arrow_draft d n p = ground arith

entered :
    (c : Console)
    → c.buffer ≢ []
    → ((new_line c).command_queue ≡ c.command_queue ++ c.buffer ∷ [])
      × ((new_line c).buffer ≡ [])
      × ((new_line c).history ≡ remember c.history c.buffer)
      × ((new_line c).history_pos ≡ negsuc 0)
unfolding new_line push_command
entered c n = elim (Bool-cases (length c.buffer == 0)) [
  | inl empty ↦ absurd (n (nil_of_length c.buffer empty))
  | inr filled ↦ rw filled (refl, refl, refl, refl)
]
  where
    nil_of_length : (s : Text) → (length s == 0) ≡ true → s ≡ []
    nil_of_length [] e = refl
    nil_of_length (x ∷ s) e = absurd (ground arith)

-- Enter on a line that is not empty puts it at the end of the queue of commands and empties the
-- line, and the up arrow then brings it back, with the cursor behind it.
pub new_line_recalled :
    (c : Console)
    → c.buffer ≢ []
    → let d = new_line c in
      (d.command_queue ≡ c.command_queue ++ c.buffer ∷ [])
      × (d.buffer ≡ [])
      × ((up_arrow d).buffer ≡ c.buffer)
      × ((up_arrow d).cursor_col ≡ length c.buffer)
new_line_recalled c h =
    let (queued, emptied, kept, reset) = entered c h in
    let some_line : (new_line c).history ≢ [] =
      subst (λ hs. hs ≢ []) (sym kept) (remember-ne-nil c.history c.buffer h) in
    let up = up_arrow_newest (new_line c) some_line reset in
    let newest : get_or (new_line c).history 0 [] ≡ c.buffer =
      ap (λ (hs : List Text). get_or hs 0 []) kept ∙ head_of_remember c.history c.buffer in
    (queued, emptied, up.0 ∙ newest, up.1 ∙ ap length newest)

-- The up arrow from the line that is being written, and the down arrow, bring that line back.
pub down_arrow-up_arrow :
    (c : Console)
    → c.history ≢ []
    → c.history_pos ≡ negsuc 0
    → ((down_arrow (up_arrow c)).buffer ≡ c.buffer)
      × ((down_arrow (up_arrow c)).cursor_col ≡ length c.buffer)
      × ((down_arrow (up_arrow c)).history_pos ≡ negsuc 0)
down_arrow-up_arrow c h e =
    let up = up_arrow_newest c h e in
    let down = down_arrow_draft (up_arrow c) (subst (λ hs. hs ≢ []) (sym up.4) h) up.2 in
    (down.0 ∙ up.3, down.1 ∙ ap length up.3, down.2)

free_pass :
    (c : Console) (codes : List ℤ)
    → c.awaiting_auto_complete ≡ false
    → c.should_exit ≡ false
    → pass c codes ≡ next_code c c.retry_code codes
unfolding pass
free_pass c codes a x = ground arith

module _ (c : Console) (a : c.awaiting_auto_complete ≡ false) (x : c.should_exit ≡ false) where
  first_pass :
      c.retry_code ≡ pos 0
      → pass c (pos 27 ∷ pos 91 ∷ pos 49 ∷ pos 126 ∷ [])
        ≡ goes_on (record c { retry_code = pos 49 }) (pos 126 ∷ [])
  unfolding handle
  first_pass z =
      free_pass c _ a x ∙ ap (λ code. next_code c code (pos 27 ∷ pos 91 ∷ pos 49 ∷ pos 126 ∷ [])) z

  second_pass :
      pass (record c { retry_code = pos 49 }) (pos 126 ∷ [])
      ≡ goes_on (type_character (record c { retry_code = pos 0 }) 49) (pos 126 ∷ [])
  unfolding handle
  second_pass = free_pass (record c { retry_code = pos 49 }) _ a x

run_on :
    (f : ℕ) (c d : Console) (codes rest : List ℤ)
    → pass c codes ≡ goes_on d rest
    → run (suc f) c codes ≡ run f d rest
unfolding run
run_on f c d codes rest e = rw (e, run) refl

run_waits :
    (f : ℕ) (c : Console) (codes : List ℤ)
    → pass c codes ≡ waits
    → run (suc f) c codes ≡ some (c, codes)
unfolding run
run_waits f c codes e = rw (e, run) refl

-- A defect of the loop: the sequence `ESC [ 1 ~` of the Home key, for which the source has a
-- branch, types the characters `1~`.
pub home_tilde_typed :
    (c : Console)
    → c.awaiting_auto_complete ≡ false
    → c.should_exit ≡ false
    → c.retry_code ≡ pos 0
    → run 4 c (pos 27 ∷ pos 91 ∷ pos 49 ∷ pos 126 ∷ [])
      ≡ some (type_character (type_character (record c { retry_code = pos 0 }) 49) 126, [])
unfolding type_character handle
home_tilde_typed c a x z =
    let d = type_character (record c { retry_code = pos 0 }) 49 in
    let e = type_character d 126 in
    run_on 3 c (record c { retry_code = pos 49 }) _ (pos 126 ∷ []) (first_pass c a x z)
    ∙ run_on 2 _ d (pos 126 ∷ []) (pos 126 ∷ []) (second_pass c a x)
    ∙ run_on 1 d e (pos 126 ∷ []) [] (free_pass d (pos 126 ∷ []) a x)
    ∙ run_waits 0 e [] (free_pass e [] a x)
