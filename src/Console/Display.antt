-- ===== src/Console/Display.antt =====
-- RosaServer/console.cpp: the line that the user sees is the prompt and the buffer, with the
-- terminal's cursor where the next character goes.
use mathlib.Core.List.{append_assoc}
use rosa_server.Base.{
  ℕ, suc, ◌+◌, ◌-◌, ◌<◌, ◌≡◌, refl, sym, ap, subst, ◌∙◌, inl, inr, List, [], ◌∷◌, ◌++◌, map, arith,
  length, take, drop, get_or, length-append, length-drop, take-append-drop, ltb→lt, ==→eq,
  Bool-cases, ◌==◌, ltb,
}
use rosa_server.Console.State.{Console, Write, put, backward, carriage, prompt, backs}
use rosa_server.Console.Keys.{
  backspace, right_arrow, left_arrow, home, end_key, delete_key, end_tilde, type_character,
  erase_at, write_from, backspace_end, backspace_middle,
}
use rosa_server.Console.Invariant.{Inv}
use rosa_server.Console.Terminal.{Line, line, apply, render}
use rosa_server.Console.Reads.{
  Reads, Reads-left, Reads-right, Reads-over, Reads-insert, Reads-rewrite, Reads-home, Reads-end,
  show_step, take-suc, drop-suc, take-append_of_eq, drop-append_of_eq, length-take_le, back_one,
  take-all, drop-all, take_all_of_eq, drop_all_of_eq, backs_two, not_end,
}

-- What all that was written so far leaves on a blank line.
abbrev pub screen : Console → Line
screen c = render c.written (line [] [])

unfoldable pub Shows : Console → Type 0
Shows c = Reads (take c.cursor_col c.buffer) (drop c.cursor_col c.buffer) (screen c)

module _ (c : Console) (h : Shows c) (v : Inv c) where
  pub left_arrow-Shows : Shows (left_arrow c)
  unfolding Shows left_arrow render
  left_arrow-Shows = elim (Bool-cases (c.cursor_col == 0)) [
    | inl start ↦ rw start h
    | inr moved ↦
        let k = c.cursor_col - 1 in
        let e : c.cursor_col ≡ suc k = back_one c.cursor_col moved in
        let x = get_or c.buffer k 0 in
        rw moved (
          show_step c.written (backward ∷ []) (take k c.buffer ++ x ∷ []) (drop (suc k) c.buffer)
            (take k c.buffer) (x ∷ drop (suc k) c.buffer) h
            (ap (λ n. take n c.buffer) e ∙ take-suc k c.buffer (omega arith))
            (ap (λ n. drop n c.buffer) e) (Reads-left (take k c.buffer) (drop (suc k) c.buffer) x)
            refl (drop-suc k c.buffer (omega arith)))
  ]

  pub right_arrow-Shows : Shows (right_arrow c)
  unfolding Shows right_arrow render
  right_arrow-Shows = elim (Bool-cases (ltb c.cursor_col (length c.buffer))) [
    | inl moved ↦
        let k = c.cursor_col in
        let x = get_or c.buffer k 0 in
        let r = ltb→lt k (length c.buffer) moved in
        let e : k + 1 ≡ suc k = omega arith in
        rw moved (
          show_step c.written (put x ∷ []) (take k c.buffer) (x ∷ drop (suc k) c.buffer)
            (take k c.buffer ++ x ∷ []) (drop (suc k) c.buffer) h refl (drop-suc k c.buffer r)
            (Reads-right (take k c.buffer) (drop (suc k) c.buffer) x)
            (ap (λ n. take n c.buffer) e ∙ take-suc k c.buffer r) (ap (λ n. drop n c.buffer) e))
    | inr last ↦ rw last h
  ]

  pub home-Shows : Shows (home c)
  unfolding Shows home render
  home-Shows =
      let k = c.cursor_col in
      show_step c.written (carriage ∷ prompt ∷ []) (take k c.buffer) (drop k c.buffer) []
        (take k c.buffer ++ drop k c.buffer) h refl refl
        (Reads-home (take k c.buffer) (drop k c.buffer)) refl (sym (take-append-drop k c.buffer))

  pub end_tilde-Shows : Shows (end_tilde c)
  unfolding Shows end_tilde
  end_tilde-Shows =
      let k = c.cursor_col in
      show_step c.written (write_from k c.buffer) (take k c.buffer) (drop k c.buffer)
        (take k c.buffer ++ drop k c.buffer) [] h refl refl
        (Reads-end (drop k c.buffer) (take k c.buffer))
        (take-all c.buffer ∙ sym (take-append-drop k c.buffer)) (drop-all c.buffer)

  pub end_key-Shows : Shows (end_key c)
  unfolding Shows end_key render
  end_key-Shows =
      let k = c.cursor_col in
      show_step c.written (carriage ∷ prompt ∷ map put c.buffer) (take k c.buffer) (drop k c.buffer)
        c.buffer [] h refl refl
        (λ t r. Reads-end c.buffer [] (apply prompt (apply carriage t)) (
          subst (λ u. Reads [] u (apply prompt (apply carriage t))) (take-append-drop k c.buffer)
            (Reads-home (take k c.buffer) (drop k c.buffer) t r)))
        (take-all c.buffer) (drop-all c.buffer)

  -- What is behind a removed character is written again, and a blank behind it.
  pub delete_key-Shows : Shows (delete_key c)
  unfolding Shows delete_key
  delete_key-Shows = elim (Bool-cases (ltb c.cursor_col (length c.buffer))) [
    | inl inside ↦
        let k = c.cursor_col in
        let r = ltb→lt k (length c.buffer) inside in
        let x = get_or c.buffer k 0 in
        let pre = take k c.buffer in
        let suf = drop (suc k) c.buffer in
        let size = length-take_le k c.buffer v.cursor_in in
        let tail : drop k (pre ++ suf) ≡ suf = drop-append_of_eq k pre suf size in
        let count : length (pre ++ suf) + 1 - k ≡ suc (length suf) =
          omega (arith, length-append pre suf, size) in
        rw inside (
          show_step c.written
            (write_from k (pre ++ suf) ++ put 32 ∷ backs (length (pre ++ suf) + 1 - k)) pre
            (x ∷ suf) pre suf h refl (drop-suc k c.buffer r)
            (λ t q.
              subst (λ ws. Reads pre suf (render ws t))
                (λ i. map put (sym tail i) ++ put 32 ∷ backs (sym count i))
                (Reads-rewrite pre suf x t q))
            (take-append_of_eq k pre suf size) tail)
    | inr last ↦ rw last h
  ]

  pub type_character-Shows : (ch : ℕ) → Shows (type_character c ch)
  unfolding Shows type_character
  type_character-Shows ch = elim (Bool-cases (c.cursor_col == length c.buffer)) [
    | inl at_end ↦
        let e : length c.buffer ≡ c.cursor_col =
          sym (==→eq c.cursor_col (length c.buffer) at_end) in
        let size : length (c.buffer ++ ch ∷ []) ≡ c.cursor_col + 1 =
          omega (arith, length-append c.buffer (ch ∷ []), e) in
        rw at_end (
          show_step c.written (put ch ∷ []) c.buffer [] (c.buffer ++ ch ∷ []) [] h
            (take_all_of_eq _ c.buffer e) (drop_all_of_eq _ c.buffer e)
            (Reads-insert c.buffer [] ch) (take_all_of_eq _ _ size) (drop_all_of_eq _ _ size))
    | inr inside ↦
        let k = c.cursor_col in
        let pre = take k c.buffer in
        let suf = drop k c.buffer in
        let size = length-take_le k c.buffer v.cursor_in in
        let whole : (pre ++ ch ∷ []) ++ suf ≡ pre ++ ch ∷ suf = append_assoc pre (ch ∷ []) suf in
        let size₁ : length (pre ++ ch ∷ []) ≡ k + 1 =
          omega (arith, length-append pre (ch ∷ []), size) in
        let tail : drop (k + 1) (pre ++ ch ∷ suf) ≡ suf =
          subst (λ u. drop (k + 1) u ≡ suf) whole
            (drop-append_of_eq (k + 1) (pre ++ ch ∷ []) suf size₁) in
        let count : length (pre ++ ch ∷ suf) - (k + 1) ≡ length suf =
          omega (arith, length-append pre (ch ∷ suf), size) in
        rw inside (
          show_step c.written
            (put ch
              ∷ (write_from (k + 1) (pre ++ ch ∷ suf)
                  ++ backs (length (pre ++ ch ∷ suf) - (k + 1))))
            pre suf (pre ++ ch ∷ []) suf h refl refl
            (λ t q.
              subst (λ ws. Reads (pre ++ ch ∷ []) suf (render ws t))
                (λ i. put ch ∷ (map put (sym tail i) ++ backs (sym count i)))
                (Reads-insert pre suf ch t q))
            (subst (λ u. take (k + 1) u ≡ pre ++ ch ∷ []) whole
              (take-append_of_eq (k + 1) (pre ++ ch ∷ []) suf size₁))
            tail)
  ]

  pub backspace_end-Shows :
      (j : ℕ) → c.cursor_col ≡ suc j → c.cursor_col ≡ length c.buffer → Shows (backspace_end c)
  unfolding Shows render
  backspace_end-Shows j e l =
      let x = get_or c.buffer j 0 in
      let pre = take j c.buffer in
      let size = length-take_le j c.buffer (omega arith) in
      let less : c.cursor_col - 1 ≡ j = omega arith in
      let less' : length c.buffer - 1 ≡ j = omega arith in
      show_step c.written (backward ∷ put 32 ∷ backward ∷ []) (pre ++ x ∷ []) [] pre [] h
        (ap (λ n. take n c.buffer) e ∙ take-suc j c.buffer (omega arith))
        (drop_all_of_eq _ c.buffer (sym l))
        (λ t q. Reads-rewrite pre [] x (apply backward t) (Reads-left pre [] x t q))
        ((λ i. take (less i) (take (less' i) c.buffer)) ∙ take_all_of_eq j pre size)
        ((λ i. drop (less i) (take (less' i) c.buffer)) ∙ drop_all_of_eq j pre size)

  pub backspace_middle-Shows :
      (j : ℕ) → c.cursor_col ≡ suc j → c.cursor_col < length c.buffer → Shows (backspace_middle c)
  unfolding Shows render
  backspace_middle-Shows j e l =
      let x = get_or c.buffer j 0 in
      let pre = take j c.buffer in
      let suf = drop (suc j) c.buffer in
      let size = length-take_le j c.buffer (omega arith) in
      let less : j ≡ c.cursor_col - 1 = omega arith in
      let tail : drop j (pre ++ suf) ≡ suf = drop-append_of_eq j pre suf size in
      let count : suc (suc (length (pre ++ suf) - (j + 1))) ≡ suc (length suf) =
        omega (arith, length-append pre suf, size, length-drop (suc j) c.buffer) in
      let again : (m : ℕ) → List Write = λ m.
        backward
        ∷ put 32
        ∷ backward
        ∷ (write_from m (erase_at m c.buffer)
            ++ put 32
              ∷ (backs (length (erase_at m c.buffer) - (m + 1)) ++ backward ∷ backward ∷ [])) in
      show_step c.written (again (c.cursor_col - 1)) (pre ++ x ∷ []) suf pre suf h
        (ap (λ n. take n c.buffer) e ∙ take-suc j c.buffer (omega arith))
        (ap (λ n. drop n c.buffer) e)
        (λ t q.
          subst (λ m. Reads pre suf (render (again m) t)) less
            (subst (λ ws. Reads pre suf (render (backward ∷ put 32 ∷ backward ∷ ws) t))
              (λ i.
                map put (sym tail i)
                ++ put 32 ∷ sym (backs_two (length (pre ++ suf) - (j + 1)) ∙ ap backs count) i)
              (Reads-rewrite pre suf 32 _ (Reads-over pre suf x _ (Reads-left pre suf x t q)))))
        (subst (λ m. take m (erase_at m c.buffer) ≡ pre) less (take-append_of_eq j pre suf size))
        (subst (λ m. drop m (erase_at m c.buffer) ≡ suf) less tail)

  pub backspace-Shows : Shows (backspace c)
  unfolding backspace
  backspace-Shows = elim (Bool-cases (c.cursor_col == 0)) [
    | inl start ↦ rw start h
    | inr some_left ↦
        let e = back_one c.cursor_col some_left in
        rw some_left (elim (Bool-cases (c.cursor_col == length c.buffer)) [
          | inl at_end ↦ rw at_end (
              backspace_end-Shows (c.cursor_col - 1) e
                (==→eq c.cursor_col (length c.buffer) at_end))
          | inr inside ↦ rw inside (
              backspace_middle-Shows (c.cursor_col - 1) e
                (not_end c.cursor_col (length c.buffer) v.cursor_in inside))
        ])
  ]
