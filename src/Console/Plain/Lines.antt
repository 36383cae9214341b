-- ===== src/Console/Plain/Lines.antt =====
-- RosaServer/console.cpp: printable text under the keys that take another line: the arrows up and
-- down, a completion and Enter.
use rosa_server.Base.{
  All, All-append, All-take, All-get_or, Text, ℕ, zero, suc, ◌-◌, inl, inr, List, [], ◌∷◌, ◌++◌,
  map, length, get_or, Bool, true, false, Bool-cases, if◌then◌else◌, ltb, ◌==◌, not, ◌&&◌,
}
use rosa_server.Base.Int.{ℤ, pos, negsuc}
use rosa_server.Console.State.{
  Console, Write, put, carriage, newline, erase_line, echo_prompt, write_text, backs, log,
  push_command, redraw_if_shown, history_limit,
}
use rosa_server.Console.Keys.{
  new_line, up_arrow, down_arrow, respond, show_line, clamp_up, clamp_down, decrement, increment,
  line_below, saved_draft, remember, trim_history, is_new_line, history_line,
}
use rosa_server.Console.Plain.{
  AllPrintable, IsPlain, Plain, puts-AllPlain, backs-AllPlain, write_text-AllPlain, written_more,
  show_line-Plain,
}

module _ (c : Console) (v : Plain c) where
  nth_line-AllPrintable : (n : ℕ) → AllPrintable (get_or c.history n [])
  nth_line-AllPrintable n =
      All-get_or (λ (s : Text). AllPrintable s) c.history n [] v.history_plain tt

  history_line-AllPrintable : (p : ℤ) → AllPrintable (history_line c.history p)
  history_line-AllPrintable (pos n) = nth_line-AllPrintable n
  history_line-AllPrintable (negsuc n) = tt

  line_below-AllPrintable : (p : ℤ) → AllPrintable (line_below c p)
  line_below-AllPrintable (pos n) = nth_line-AllPrintable n
  line_below-AllPrintable (negsuc n) = v.draft_plain

  saved_draft-AllPrintable : (p : ℤ) → AllPrintable (saved_draft c p)
  saved_draft-AllPrintable (pos n) = v.draft_plain
  saved_draft-AllPrintable (negsuc zero) = v.line_plain
  saved_draft-AllPrintable (negsuc (suc n)) = v.draft_plain

module _ (c : Console) (v : Plain c) where
  pub up_arrow-Plain : Plain (up_arrow c)
  unfolding up_arrow
  up_arrow-Plain = elim (Bool-cases (length c.history == 0)) [
    | inl empty ↦ rw empty v
    | inr filled ↦
        let p = clamp_up (increment c.history_pos) (length c.history) in
        rw filled (
          show_line-Plain (record c { draft = saved_draft c c.history_pos; history_pos = p })
            (record {
              line_plain = v.line_plain;
              history_plain = v.history_plain;
              draft_plain = saved_draft-AllPrintable c v c.history_pos;
              written_plain = v.written_plain;
            })
            (history_line c.history p) (history_line-AllPrintable c v p))
  ]

  pub down_arrow-Plain : Plain (down_arrow c)
  unfolding down_arrow
  down_arrow-Plain = elim (Bool-cases (length c.history == 0)) [
    | inl empty ↦ rw empty v
    | inr filled ↦
        let p = clamp_down (decrement c.history_pos) in
        rw filled (
          show_line-Plain (record c { history_pos = p })
            (record {
              line_plain = v.line_plain;
              history_plain = v.history_plain;
              draft_plain = v.draft_plain;
              written_plain = v.written_plain;
            })
            (line_below c p) (line_below-AllPrintable c v p))
  ]

  pub respond-Plain : (s : Text) → AllPrintable s → Plain (respond c s)
  unfolding respond
  respond-Plain s h = answered c.awaiting_auto_complete
    where
      answered :
          (b : Bool)
          → Plain (if b then show_line (record c { awaiting_auto_complete = false }) s else c)
      answered true =
          show_line-Plain (record c { awaiting_auto_complete = false })
            (record {
              line_plain = v.line_plain;
              history_plain = v.history_plain;
              draft_plain = v.draft_plain;
              written_plain = v.written_plain;
            })
            s h
      answered false = v

  remember-AllPrintable :
      (s : Text) → AllPrintable s → All (λ t. AllPrintable t) (remember c.history s)
  remember-AllPrintable s h = elim (Bool-cases (is_new_line c.history s)) [
    | inl new ↦ rw new (trimmed (s ∷ c.history) (h, v.history_plain))
    | inr same ↦ rw same v.history_plain
  ]
    where
      trimmed :
          (hs : List Text)
          → All (λ t. AllPrintable t) hs
          → All (λ t. AllPrintable t) (trim_history hs)
      trimmed hs k = elim (Bool-cases (ltb history_limit (length hs))) [
        | inl long ↦ rw long (All-take (λ (t : Text). AllPrintable t) (length hs - 1) hs k)
        | inr short ↦ rw short k
      ]

  redraw-AllPlain : All (λ w. IsPlain w) (redraw_if_shown c)
  redraw-AllPlain = elim (Bool-cases (c.input_initialized && not c.should_exit)) [
    | inl shown ↦ rw shown (
      tt,
      All-append (λ w. IsPlain w) (map put c.buffer) (backs (length c.buffer - c.cursor_col))
          (puts-AllPlain c.buffer v.line_plain) (backs-AllPlain (length c.buffer - c.cursor_col)),
    )
    | inr hidden ↦ rw hidden tt
  ]

  log-Plain : (ws : List Write) → All (λ w. IsPlain w) ws → Plain (log c ws)
  unfolding log
  log-Plain ws h = record {
    line_plain = v.line_plain;
    history_plain = v.history_plain;
    draft_plain = v.draft_plain;
    written_plain =
        written_more c (erase_line ∷ carriage ∷ (ws ++ redraw_if_shown c)) v.written_plain
          (tt, (tt, All-append (λ w. IsPlain w) ws (redraw_if_shown c) h redraw-AllPlain));
  }

push_command-Plain :
    (c : Console) → Plain c → (s : Text) → AllPrintable s → Plain (push_command c s)
unfolding push_command
push_command-Plain c v s h =
    let d : Plain (log c (echo_prompt ∷ (write_text s ++ newline ∷ []))) =
      log-Plain c v (echo_prompt ∷ (write_text s ++ newline ∷ [])) (
        tt,
        All-append (λ w. IsPlain w) (write_text s) (newline ∷ []) (write_text-AllPlain s h)
            (tt, tt),
      ) in
    record {
      line_plain = d.line_plain;
      history_plain = d.history_plain;
      draft_plain = d.draft_plain;
      written_plain = d.written_plain;
    }

pub new_line-Plain : (c : Console) → Plain c → Plain (new_line c)
unfolding new_line
new_line-Plain c v = elim (Bool-cases (length c.buffer == 0)) [
  | inl empty ↦ rw empty v
  | inr filled ↦ rw filled (
      push_command-Plain
        (record c {
          history = remember c.history c.buffer;
          buffer = [];
          cursor_col = 0;
          history_pos = negsuc 0;
        })
        (record {
          line_plain = tt;
          history_plain = remember-AllPrintable c v c.buffer v.line_plain;
          draft_plain = v.draft_plain;
          written_plain = v.written_plain;
        })
        c.buffer v.line_plain)
]
