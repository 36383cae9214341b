-- ===== src/Console/Invariant.antt =====
-- RosaServer/console.cpp: what holds of the console between two passes, whatever is typed and
-- whatever the other threads do meanwhile.
use rosa_server.Base.{
  texts_equal, Text, ℕ, zero, suc, ◌+◌, ◌-◌, ◌≤◌, ◌<◌, ◌≡◌, refl, sym, subst, inl, inr, Bool, true,
  false, List, [], ◌∷◌, arith, length, take, drop, length-append, length-take, length-drop,
  if◌then◌else◌, Bool-cases, ltb, leb, ◌==◌,
}
use rosa_server.Base.Int.{ℤ, pos, negsuc}
use rosa_server.Console.State.{Console, Write, log, push_command, history_limit}
use rosa_server.Console.Keys.{
  tab, new_line, backspace, up_arrow, down_arrow, right_arrow, left_arrow, home, end_key,
  delete_key, end_tilde, type_character, respond, erase_at, insert_at, remember, trim_history,
  clamp_up, clamp_down, increment, decrement,
}
use rosa_server.Console.Loop.{
  Pass, waits, leaves, goes_on, handle, pass, System, Step, sends, passes, responds, logs, pushes,
  takes, interrupts, Reach, here, next, started, is_code, after_escape, after_bracket, after_number,
  typed, next_code,
}

-- `historyPos` is -1 or the index of an entry.
abbrev pub PositionIn : ℤ → ℕ → Type 0
PositionIn (pos p) n = p < n
PositionIn (negsuc k) n = k ≡ 0

-- No entry is empty, and none repeats the one entered before it.
abbrev pub DiffersFromHead : Text → List Text → Type 0
DiffersFromHead s [] = Unit {0}
DiffersFromHead s (h ∷ hs) = texts_equal h s ≡ false

abbrev pub Kept : List Text → Type 0
Kept [] = Unit {0}
Kept (s ∷ hs) = (0 < length s) × DiffersFromHead s hs × Kept hs

pub record Inv (c : Console) : Type 0 where
  pub cursor_in : c.cursor_col ≤ length c.buffer
  pub history_capped : length c.history ≤ history_limit
  pub position_in : PositionIn c.history_pos (length c.history)
  pub lines_kept : Kept c.history
  pub asked : c.awaiting_auto_complete ≡ true → c.auto_complete_input ≡ c.buffer

take-Kept : (n : ℕ) (h : List Text) → Kept h → Kept (take n h)
take-Kept zero h k = tt
take-Kept (suc n) [] k = tt
take-Kept (suc zero) (s ∷ hs) k = (k.0, tt, tt)
take-Kept (suc (suc n)) (s ∷ []) k = k
take-Kept (suc (suc n)) (s ∷ t ∷ hs) k = (k.0, k.1, take-Kept (suc n) (t ∷ hs) k.2)

trim_history-Kept : (h : List Text) → Kept h → Kept (trim_history h)
trim_history-Kept h k = elim (Bool-cases (ltb history_limit (length h))) [
  | inl long ↦ rw long (take-Kept (length h - 1) h k)
  | inr short ↦ rw short k
]

remember-Kept : (h : List Text) (s : Text) → 0 < length s → Kept h → Kept (remember h s)
remember-Kept [] s p k = (p, tt, tt)
remember-Kept (t ∷ hs) s p k = elim (Bool-cases (texts_equal t s)) [
  | inl same ↦ rw same k
  | inr new ↦ rw new (trim_history-Kept (s ∷ t ∷ hs) (p, new, k))
]

length-remember :
    (h : List Text) (s : Text) → length h ≤ history_limit → length (remember h s) ≤ history_limit
length-remember h s l = ground (arith, length-take (length h) (s ∷ h))

length-erase_at : (i : ℕ) (s : Text) → i < length s → length (erase_at i s) + 1 ≡ length s
length-erase_at i s p =
    omega (arith, length-append (take i s) (drop (suc i) s), length-take i s, length-drop (suc i) s)

length-insert_at : (i ch : ℕ) (s : Text) → i ≤ length s → length (insert_at i ch s) ≡ length s + 1
length-insert_at i ch s p =
    omega (arith, length-append (take i s) (ch ∷ drop i s), length-take i s, length-drop i s)

clamp_up-in : (p : ℤ) (n : ℕ) → 0 < n → PositionIn (clamp_up p n) n
clamp_up-in (pos p) n h = ground arith
clamp_up-in (negsuc p) n h = omega arith

clamp_down-in : (p : ℤ) (n : ℕ) → PositionIn p n → PositionIn (clamp_down (decrement p)) n
clamp_down-in (pos zero) n h = refl
clamp_down-in (pos (suc p)) n h = omega arith
clamp_down-in (negsuc p) n h = refl

tab-Inv : (c : Console) → Inv c → Inv (tab c)
unfolding tab
tab-Inv c v = ground arith

push_command-Inv : (c : Console) (s : Text) → Inv c → Inv (push_command c s)
unfolding push_command
push_command-Inv c s v = ground arith

positive : (n : ℕ) → (n == 0) ≡ false → 0 < n
positive n h = ground arith

module _ (c : Console) (n : c.awaiting_auto_complete ≡ false) (v : Inv c) where
  new_line-Inv : Inv (new_line c)
  unfolding new_line
  new_line-Inv = elim (Bool-cases (length c.buffer == 0)) [
    | inl empty ↦ rw empty v
    | inr filled ↦ rw filled (
        push_command-Inv _ c.buffer (record {
          cursor_in = omega arith;
          history_capped = length-remember c.history c.buffer v.history_capped;
          position_in = refl;
          lines_kept = remember-Kept c.history c.buffer (positive _ filled) v.lines_kept;
          asked = λ e. cc;
        }))
  ]

  backspace-Inv : Inv (backspace c)
  unfolding backspace
  backspace-Inv = elim (Bool-cases (c.cursor_col == 0)) [
    | inl none_left ↦ rw none_left v
    | inr some_left ↦ rw some_left (elim (Bool-cases (c.cursor_col == length c.buffer)) [
      | inl at_end ↦ rw at_end (ground (arith, length-take (length c.buffer - 1) c.buffer))
      | inr inside ↦ rw inside (ground (arith, length-erase_at (c.cursor_col - 1) c.buffer))
    ])
  ]

  up_arrow-Inv : Inv (up_arrow c)
  unfolding up_arrow
  up_arrow-Inv = elim (Bool-cases (length c.history == 0)) [
    | inl empty ↦ rw empty v
    | inr filled ↦ rw filled (record {
      cursor_in = omega arith;
      history_capped = v.history_capped;
      position_in = clamp_up-in (increment c.history_pos) _ (positive _ filled);
      lines_kept = v.lines_kept;
      asked = λ e. cc;
    })
  ]

  down_arrow-Inv : Inv (down_arrow c)
  unfolding down_arrow
  down_arrow-Inv = elim (Bool-cases (length c.history == 0)) [
    | inl empty ↦ rw empty v
    | inr filled ↦ rw filled (record {
      cursor_in = omega arith;
      history_capped = v.history_capped;
      position_in = clamp_down-in c.history_pos _ v.position_in;
      lines_kept = v.lines_kept;
      asked = λ e. cc;
    })
  ]

  right_arrow-Inv : Inv (right_arrow c)
  unfolding right_arrow
  right_arrow-Inv = ground arith

  left_arrow-Inv : Inv (left_arrow c)
  unfolding left_arrow
  left_arrow-Inv = ground arith

  home-Inv : Inv (home c)
  unfolding home
  home-Inv = ground arith

  end_key-Inv : Inv (end_key c)
  unfolding end_key
  end_key-Inv = ground arith

  end_tilde-Inv : Inv (end_tilde c)
  unfolding end_tilde
  end_tilde-Inv = ground arith

  delete_key-Inv : Inv (delete_key c)
  unfolding delete_key
  delete_key-Inv = ground (arith, length-erase_at c.cursor_col c.buffer)

  type_character-Inv : (ch : ℕ) → Inv (type_character c ch)
  unfolding type_character
  type_character-Inv ch =
      ground (arith, length-insert_at c.cursor_col ch c.buffer, length-append c.buffer (ch ∷ []))

  retry-Inv : (code : ℤ) → Inv (record c { retry_code = code })
  retry-Inv code = ground arith

-- What a pass makes of the invariant.
abbrev pub PassInv : Pass → Type 0
PassInv waits = Unit {0}
PassInv leaves = Unit {0}
PassInv (goes_on c rest) = Inv c

-- A branch of the `switch` on either side of a test.
PassInv-if : (b : Bool) (p q : Pass) → PassInv p → PassInv q → PassInv (if b then p else q)
PassInv-if true p q h k = h
PassInv-if false p q h k = k

module _ (c : Console) (n : c.awaiting_auto_complete ≡ false) (v : Inv c) where
  after_number-PassInv : (code : ℤ) (codes : List ℤ) → PassInv (after_number c code codes)
  after_number-PassInv code [] = tt
  after_number-PassInv code (second ∷ rest) =
      PassInv-if (is_code second 126) _ _ (number (is_code code 51)) (retry-Inv c n v second)
    where
      number : (b : Bool) → Inv (if b then delete_key c else end_tilde c)
      number true = delete_key-Inv c n v
      number false = end_tilde-Inv c n v

  after_bracket-PassInv : (codes : List ℤ) → PassInv (after_bracket c codes)
  after_bracket-PassInv [] = tt
  after_bracket-PassInv (code ∷ rest) = PassInv-if (is_code code 65) _ _ (up_arrow-Inv c n v) (
      PassInv-if (is_code code 66) _ _ (down_arrow-Inv c n v) (
        PassInv-if (is_code code 67) _ _ (right_arrow-Inv c n v) (
          PassInv-if (is_code code 68) _ _ (left_arrow-Inv c n v) (
            PassInv-if (is_code code 72) _ _ (home-Inv c n v) (
              PassInv-if (is_code code 70) _ _ (end_key-Inv c n v) (
                PassInv-if (is_code code 53) _ _ v (
                  PassInv-if (is_code code 54) _ _ v (
                    PassInv-if (is_code code 51) _ _ (after_number-PassInv code rest) (
                      PassInv-if (is_code code 52) _ _ (after_number-PassInv code rest)
                        (retry-Inv c n v code))))))))))

  after_escape-PassInv : (codes : List ℤ) → PassInv (after_escape c codes)
  after_escape-PassInv [] = tt
  after_escape-PassInv (code ∷ rest) =
      PassInv-if (is_code code 91) _ _ (after_bracket-PassInv rest) (retry-Inv c n v code)

  typed-Inv : (code : ℤ) → Inv (typed c code)
  typed-Inv (pos ch) = elim (Bool-cases (leb 32 ch)) [
    | inl shown ↦ rw shown (type_character-Inv c n v ch)
    | inr control ↦ rw control v
  ]
  typed-Inv (negsuc k) = v

  handle-PassInv : (code : ℤ) (rest : List ℤ) → PassInv (handle c code rest)
  unfolding handle
  handle-PassInv code rest = PassInv-if (is_code code 9) _ _ (tab-Inv c v) (
      PassInv-if (is_code code 10) _ _ (new_line-Inv c n v) (
        PassInv-if (is_code code 127) _ _ (backspace-Inv c n v)
          (PassInv-if (is_code code 27) _ _ (after_escape-PassInv rest) (typed-Inv code))))

next_code-PassInv :
    (c : Console) (code : ℤ) (codes : List ℤ)
    → c.awaiting_auto_complete ≡ false
    → Inv c
    → PassInv (next_code c code codes)
next_code-PassInv c (pos zero) [] n v = tt
next_code-PassInv c (pos zero) (code ∷ rest) n v = handle-PassInv c n v code rest
next_code-PassInv c (pos (suc k)) codes n v =
    handle-PassInv (record c { retry_code = pos 0 }) n (retry-Inv c n v (pos 0)) (pos (suc k)) codes
next_code-PassInv c (negsuc k) codes n v =
    handle-PassInv (record c { retry_code = pos 0 }) n (retry-Inv c n v (pos 0)) (negsuc k) codes

free_pass-PassInv :
    (c : Console) (codes : List ℤ) (waiting : Bool)
    → c.awaiting_auto_complete ≡ waiting
    → Inv c
    → PassInv (
        if waiting then waits else if c.should_exit then leaves else next_code c c.retry_code codes)
free_pass-PassInv c codes true e v = tt
free_pass-PassInv c codes false e v =
    PassInv-if c.should_exit _ _ tt (next_code-PassInv c c.retry_code codes e v)

pub pass-Inv : (c : Console) (codes : List ℤ) → Inv c → PassInv (pass c codes)
unfolding pass
pass-Inv c codes v = free_pass-PassInv c codes c.awaiting_auto_complete refl v

respond-Inv : (c : Console) (line : Text) → Inv c → Inv (respond c line)
unfolding respond
respond-Inv c line v = ground arith

log-Inv : (c : Console) (line : List Write) → Inv c → Inv (log c line)
unfolding log
log-Inv c line v = ground arith

PassInv-goes_on : {p : Pass} {c : Console} {rest : List ℤ} → PassInv p → p ≡ goes_on c rest → Inv c
PassInv-goes_on h e = subst PassInv e h

Step-Inv : {s t : System} → Step s t → Inv s.console → Inv t.console
Step-Inv (sends s code) v = v
Step-Inv (passes s e) v = PassInv-goes_on (pass-Inv s.console s.codes v) e
Step-Inv (responds s line) v = respond-Inv s.console line v
Step-Inv (logs s line) v = log-Inv s.console line v
Step-Inv (pushes s input) v = push_command-Inv s.console input v
Step-Inv (takes s first others e) v = ground arith
Step-Inv (interrupts s) v = ground arith

started-Inv : Inv started
started-Inv = ground arith

-- However keys, completions, logged lines and commands interleave from the start on: the cursor
-- stays within the line, the history position is -1 or the index of an entry, the history has at
-- most 512 entries, none of them empty or equal to the one before it, and while a completion is
-- awaited its input is the line as it stands.
pub Reach-Inv : {s t : System} → s.console ≡ started → Reach s t → Inv t.console
Reach-Inv e here = subst Inv (sym e) started-Inv
Reach-Inv e (next r st) = Step-Inv st (Reach-Inv e r)
