-- ===== src/Console/Plain.antt =====
-- RosaServer/console.cpp: text of printable ASCII, for which alone the line of Terminal stands for
-- a terminal, and what the keys keep of it.
use rosa_server.Base.{
  All, All-append, All-take, All-drop, get_or-All, Text, ℕ, zero, suc, ◌+◌, ◌-◌, ◌≤◌, ◌<◌, ltb→lt,
  inl, inr, List, [], ◌∷◌, ◌++◌, map, arith, length, take, drop, get_or, Bool, true, false,
  Bool-cases, if◌then◌else◌, ltb, ◌==◌,
}
use rosa_server.Console.State.{
  Console, Write, put, backward, carriage, newline, prompt, write_text, backs, rub_out,
}
use rosa_server.Console.Keys.{
  backspace, right_arrow, left_arrow, home, end_key, delete_key, end_tilde, type_character,
  show_line, erase_at, insert_at, write_from, pop_back,
}
-- In `Lines` are the keys that take another line.
pub mod Lines

-- One byte that a terminal shows as one character.
abbrev pub IsPrintable : ℕ → Type 0
IsPrintable ch = (32 ≤ ch) × (ch ≤ 126)

abbrev pub AllPrintable : Text → Type 0
AllPrintable s = All IsPrintable s

abbrev pub IsPlain : Write → Type 0
IsPlain (put ch) = IsPrintable ch
IsPlain other = Unit {0}

-- What is edited, what can be recalled and what was written is printable.
pub record Plain (c : Console) : Type 0 where
  pub line_plain : AllPrintable c.buffer
  pub history_plain : All (λ s. AllPrintable s) c.history
  pub draft_plain : AllPrintable c.draft
  pub written_plain : All (λ w. IsPlain w) c.written

space : IsPrintable 32
space = (omega arith, omega arith)

pub puts-AllPlain : (s : Text) → AllPrintable s → All (λ w. IsPlain w) (map put s)
puts-AllPlain [] h = tt
puts-AllPlain (x ∷ s) h = (h.0, puts-AllPlain s h.1)

pub backs-AllPlain : (n : ℕ) → All (λ w. IsPlain w) (backs n)
backs-AllPlain zero = tt
backs-AllPlain (suc n) = (tt, backs-AllPlain n)

rub_out-AllPlain : (n : ℕ) → All (λ w. IsPlain w) (rub_out n)
unfolding rub_out
rub_out-AllPlain zero = tt
rub_out-AllPlain (suc n) = (tt, (space, (tt, rub_out-AllPlain n)))

pub write_text-AllPlain : (s : Text) → AllPrintable s → All (λ w. IsPlain w) (write_text s)
write_text-AllPlain [] h = tt
write_text-AllPlain (x ∷ s) h = (char (x == 10), write_text-AllPlain s h.1)
  where
    char : (b : Bool) → IsPlain (if b then newline else put x)
    char true = tt
    char false = h.0

-- The writes of a key are put behind what was written.
module _ (c : Console) (ws : List Write) (v : All (λ w. IsPlain w) c.written) where
  pub written_more : All (λ w. IsPlain w) ws → All (λ w. IsPlain w) (c.written ++ ws)
  written_more h = All-append (λ w. IsPlain w) c.written ws v h

write_from-AllPlain : (k : ℕ) (s : Text) → AllPrintable s → All (λ w. IsPlain w) (write_from k s)
write_from-AllPlain k s h = puts-AllPlain (drop k s) (All-drop IsPrintable k s h)

erase_at-AllPrintable : (i : ℕ) (s : Text) → AllPrintable s → AllPrintable (erase_at i s)
erase_at-AllPrintable i s h =
    All-append IsPrintable (take i s) _ (All-take IsPrintable i s h)
      (All-drop IsPrintable (suc i) s h)

insert_at-AllPrintable :
    (i ch : ℕ) (s : Text) → IsPrintable ch → AllPrintable s → AllPrintable (insert_at i ch s)
insert_at-AllPrintable i ch s p h =
    All-append IsPrintable (take i s) (ch ∷ drop i s) (All-take IsPrintable i s h)
      (p, All-drop IsPrintable i s h)

module _ (c : Console) (v : Plain c) where
  pub show_line-Plain : (s : Text) → AllPrintable s → Plain (show_line c s)
  show_line-Plain s h = record {
    line_plain = h;
    history_plain = v.history_plain;
    draft_plain = v.draft_plain;
    written_plain = written_more c (rub_out c.cursor_col ++ map put s) v.written_plain (
        All-append (λ w. IsPlain w) (rub_out c.cursor_col) (map put s)
          (rub_out-AllPlain c.cursor_col) (puts-AllPlain s h));
  }

  -- Keys that change the cursor alone.
  moved-Plain :
      (k : ℕ) (ws : List Write)
      → All (λ w. IsPlain w) ws
      → Plain (record c { cursor_col = k; written = c.written ++ ws })
  moved-Plain k ws h = record {
    line_plain = v.line_plain;
    history_plain = v.history_plain;
    draft_plain = v.draft_plain;
    written_plain = written_more c ws v.written_plain h;
  }

  -- Keys that change the line.
  edited-Plain :
      (s : Text) (k : ℕ) (ws : List Write)
      → AllPrintable s
      → All (λ w. IsPlain w) ws
      → Plain (record c { buffer = s; cursor_col = k; written = c.written ++ ws })
  edited-Plain s k ws p h = record {
    line_plain = p;
    history_plain = v.history_plain;
    draft_plain = v.draft_plain;
    written_plain = written_more c ws v.written_plain h;
  }

  pub left_arrow-Plain : Plain (left_arrow c)
  unfolding left_arrow
  left_arrow-Plain = elim (Bool-cases (c.cursor_col == 0)) [
    | inl start ↦ rw start v
    | inr moved ↦ rw moved (moved-Plain (c.cursor_col - 1) (backward ∷ []) (tt, tt))
  ]

  pub right_arrow-Plain : Plain (right_arrow c)
  unfolding right_arrow
  right_arrow-Plain = elim (Bool-cases (ltb c.cursor_col (length c.buffer))) [
    | inl moved ↦ rw moved (
        moved-Plain (c.cursor_col + 1) (put (get_or c.buffer c.cursor_col 0) ∷ [])
          ((get_or-All IsPrintable c.buffer c.cursor_col 0 v.line_plain (ltb→lt _ _ moved)), tt))
    | inr last ↦ rw last v
  ]

  pub home-Plain : Plain (home c)
  unfolding home
  home-Plain = moved-Plain 0 (carriage ∷ prompt ∷ []) (tt, (tt, tt))

  pub end_key-Plain : Plain (end_key c)
  unfolding end_key
  end_key-Plain =
      moved-Plain (length c.buffer) (carriage ∷ prompt ∷ map put c.buffer)
        (tt, (tt, puts-AllPlain c.buffer v.line_plain))

  pub end_tilde-Plain : Plain (end_tilde c)
  unfolding end_tilde
  end_tilde-Plain =
      moved-Plain (length c.buffer) (write_from c.cursor_col c.buffer)
        (write_from-AllPlain c.cursor_col c.buffer v.line_plain)

  pub delete_key-Plain : Plain (delete_key c)
  unfolding delete_key
  delete_key-Plain = elim (Bool-cases (ltb c.cursor_col (length c.buffer))) [
    | inl inside ↦
        let k = c.cursor_col in
        let rest = erase_at k c.buffer in
        let p : AllPrintable rest = erase_at-AllPrintable k c.buffer v.line_plain in
        rw inside (
          edited-Plain rest k (write_from k rest ++ put 32 ∷ backs (length rest + 1 - k)) p (
            All-append (λ w. IsPlain w) (write_from k rest) _ (write_from-AllPlain k rest p)
              (space, backs-AllPlain (length rest + 1 - k))))
    | inr last ↦ rw last v
  ]

  pub type_character-Plain : (ch : ℕ) → IsPrintable ch → Plain (type_character c ch)
  unfolding type_character
  type_character-Plain ch p = elim (Bool-cases (c.cursor_col == length c.buffer)) [
    | inl last ↦ rw last (
        edited-Plain (c.buffer ++ ch ∷ []) (c.cursor_col + 1) (put ch ∷ [])
          (All-append IsPrintable c.buffer (ch ∷ []) v.line_plain (p, tt)) (p, tt))
    | inr inside ↦
        let k = c.cursor_col + 1 in
        let s = insert_at c.cursor_col ch c.buffer in
        let h : AllPrintable s = insert_at-AllPrintable c.cursor_col ch c.buffer p v.line_plain in
        rw inside (
          edited-Plain s k (put ch ∷ (write_from k s ++ backs (length s - k))) h (
            p,
            All-append (λ w. IsPlain w) (write_from k s) (backs (length s - k))
                (write_from-AllPlain k s h) (backs-AllPlain (length s - k)),
          ))
  ]

  pub backspace-Plain : Plain (backspace c)
  unfolding backspace
  backspace-Plain = elim (Bool-cases (c.cursor_col == 0)) [
    | inl none_left ↦ rw none_left v
    | inr some_left ↦ rw some_left (elim (Bool-cases (c.cursor_col == length c.buffer)) [
      | inl last ↦ rw last (
          edited-Plain (pop_back c.buffer) (c.cursor_col - 1) (backward ∷ put 32 ∷ backward ∷ [])
            (All-take IsPrintable (length c.buffer - 1) c.buffer v.line_plain)
            (tt, (space, (tt, tt))))
      | inr inside ↦
          let k = c.cursor_col - 1 in
          let rest = erase_at k c.buffer in
          let p : AllPrintable rest = erase_at-AllPrintable k c.buffer v.line_plain in
          rw inside (
            edited-Plain rest k
              (backward
                ∷ put 32
                ∷ backward
                ∷ (write_from k rest
                    ++ put 32 ∷ (backs (length rest - (k + 1)) ++ backward ∷ backward ∷ [])))
              p
              (
                tt,
                (
                  space,
                  (
                    tt,
                    All-append (λ w. IsPlain w) (write_from k rest) _ (write_from-AllPlain k rest p)
                        (
                          space,
                          All-append (λ w. IsPlain w) (backs (length rest - (k + 1))) _
                              (backs-AllPlain (length rest - (k + 1))) (tt, (tt, tt)),
                        ),
                  ),
                ),
              ))
    ])
  ]
