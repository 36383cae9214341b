-- ===== src/Console/Progress.antt =====
-- RosaServer/console.cpp: the loop of `threadMain` uses up what is typed. A pass takes a code of
-- the terminal or the code put back by the pass before it, so it never puts back for ever.
use rosa_server.Base.{
  ℕ, zero, suc, ◌+◌, ◌*◌, ◌≤◌, ◌<◌, ◌≡◌, refl, ◌⊎◌, inl, inr, Bool, true, false, Option, some, List,
  [], ◌∷◌, arith, length, if◌then◌else◌,
}
use rosa_server.Base.Int.{ℤ, pos, negsuc}
use rosa_server.Console.State.{Console, push_command}
use rosa_server.Console.Keys.{
  tab, new_line, backspace, up_arrow, down_arrow, right_arrow, left_arrow, home, end_key,
  delete_key, end_tilde, type_character,
}
use rosa_server.Console.Loop.{
  Pass, waits, leaves, goes_on, handle, pass, run, is_code, after_escape, after_bracket,
  after_number, typed, next_code, retry,
}

abbrev weight : ℤ → ℕ
weight (pos zero) = 0
weight (pos (suc n)) = 1
weight (negsuc n) = 1

-- The codes left, twice, and one for a code put back.
abbrev pub measure : Console → List ℤ → ℕ
measure c codes = 2 * length codes + weight c.retry_code

abbrev Within : ℕ → Pass → Type 0
Within m waits = Unit {0}
Within m leaves = Unit {0}
Within m (goes_on d rest) = measure d rest ≤ m

Within-if :
    (m : ℕ) (b : Bool) (p q : Pass) → Within m p → Within m q → Within m (if b then p else q)
Within-if m true p q h k = h
Within-if m false p q h k = k

settled : (d : Console) (rest : List ℤ) → d.retry_code ≡ pos 0 → measure d rest ≤ 2 * length rest
settled d rest e = rw e (omega arith)

put_back :
    (c : Console) (code : ℤ) (rest : List ℤ) → Within (2 * length (code ∷ rest)) (retry c code rest)
put_back c (pos zero) rest = omega arith
put_back c (pos (suc n)) rest = omega arith
put_back c (negsuc n) rest = omega arith

Within-mono : {m n : ℕ} (p : Pass) → m ≤ n → Within m p → Within n p
Within-mono waits h k = tt
Within-mono leaves h k = tt
Within-mono (goes_on d rest) h k = omega arith

-- No key but one that cannot be read puts a code back.
module _ (c : Console) (z : c.retry_code ≡ pos 0) where
  new_line_clear : (new_line c).retry_code ≡ pos 0
  unfolding new_line push_command
  new_line_clear = ground arith

  tab_clear : (tab c).retry_code ≡ pos 0
  unfolding tab
  tab_clear = z

  home_clear : (home c).retry_code ≡ pos 0
  unfolding home
  home_clear = z

  end_key_clear : (end_key c).retry_code ≡ pos 0
  unfolding end_key
  end_key_clear = z

  backspace_clear : (backspace c).retry_code ≡ pos 0
  unfolding backspace
  backspace_clear = ground arith

  up_arrow_clear : (up_arrow c).retry_code ≡ pos 0
  unfolding up_arrow
  up_arrow_clear = ground arith

  down_arrow_clear : (down_arrow c).retry_code ≡ pos 0
  unfolding down_arrow
  down_arrow_clear = ground arith

  right_arrow_clear : (right_arrow c).retry_code ≡ pos 0
  unfolding right_arrow
  right_arrow_clear = ground arith

  left_arrow_clear : (left_arrow c).retry_code ≡ pos 0
  unfolding left_arrow
  left_arrow_clear = ground arith

  number_clear : (b : Bool) → (if b then delete_key c else end_tilde c).retry_code ≡ pos 0
  unfolding delete_key end_tilde
  number_clear b = ground arith

  typed_clear : (code : ℤ) → (typed c code).retry_code ≡ pos 0
  unfolding type_character
  typed_clear code = ground arith

  after_number-Within :
      (code : ℤ) (codes : List ℤ) → Within (2 * length codes) (after_number c code codes)
  after_number-Within code [] = tt
  after_number-Within code (second ∷ rest) =
      let d = if is_code code 51 then delete_key c else end_tilde c in
      Within-if _ (is_code second 126) _ _
        (Within-mono (goes_on d rest) (omega arith)
          (settled d rest (number_clear (is_code code 51))))
        (put_back c second rest)

  after_bracket-Within : (codes : List ℤ) → Within (2 * length codes) (after_bracket c codes)
  after_bracket-Within [] = tt
  after_bracket-Within (code ∷ rest) =
      let fits : (d : Console)
          → d.retry_code ≡ pos 0
          → Within (2 * length (code ∷ rest)) (goes_on d rest) =
        λ d e. Within-mono (goes_on d rest) (omega arith) (settled d rest e) in
      let number =
        Within-mono (after_number c code rest) (omega arith) (after_number-Within code rest) in
      Within-if _ (is_code code 65) _ _ (fits (up_arrow c) up_arrow_clear) (
        Within-if _ (is_code code 66) _ _ (fits (down_arrow c) down_arrow_clear) (
          Within-if _ (is_code code 67) _ _ (fits (right_arrow c) right_arrow_clear) (
            Within-if _ (is_code code 68) _ _ (fits (left_arrow c) left_arrow_clear) (
              Within-if _ (is_code code 72) _ _ (fits (home c) home_clear) (
                Within-if _ (is_code code 70) _ _ (fits (end_key c) end_key_clear) (
                  Within-if _ (is_code code 53) _ _ (fits c z) (
                    Within-if _ (is_code code 54) _ _ (fits c z) (
                      Within-if _ (is_code code 51) _ _ number
                        (Within-if _ (is_code code 52) _ _ number (put_back c code rest))))))))))

  after_escape-Within : (codes : List ℤ) → Within (2 * length codes) (after_escape c codes)
  after_escape-Within [] = tt
  after_escape-Within (code ∷ rest) =
      Within-if _ (is_code code 91) _ _
        (Within-mono (after_bracket c rest) (omega arith) (after_bracket-Within rest))
        (put_back c code rest)

  handle-Within : (code : ℤ) (rest : List ℤ) → Within (2 * length rest) (handle c code rest)
  unfolding handle
  handle-Within code rest = Within-if _ (is_code code 9) _ _ (settled (tab c) rest tab_clear) (
      Within-if _ (is_code code 10) _ _ (settled (new_line c) rest new_line_clear) (
        Within-if _ (is_code code 127) _ _ (settled (backspace c) rest backspace_clear) (
          Within-if _ (is_code code 27) _ _ (after_escape-Within rest)
            (settled (typed c code) rest (typed_clear code)))))

-- A pass that goes on has less left to do than before.
abbrev Falls : ℕ → Pass → Type 0
Falls m waits = Unit {0}
Falls m leaves = Unit {0}
Falls m (goes_on d rest) = measure d rest < m

Within-Falls : {m n : ℕ} (p : Pass) → m < n → Within m p → Falls n p
Within-Falls waits h k = tt
Within-Falls leaves h k = tt
Within-Falls (goes_on d rest) h k = omega arith

next_code-Falls :
    (c : Console) (code : ℤ) (codes : List ℤ)
    → c.retry_code ≡ code
    → Falls (2 * length codes + weight code) (next_code c code codes)
next_code-Falls c (pos zero) [] e = tt
next_code-Falls c (pos zero) (code ∷ rest) e =
    Within-Falls (handle c code rest) (omega arith) (handle-Within c e code rest)
next_code-Falls c (pos (suc k)) codes e =
    let d = record c { retry_code = pos 0 } in
    Within-Falls (handle d (pos (suc k)) codes) (omega arith)
      (handle-Within d refl (pos (suc k)) codes)
next_code-Falls c (negsuc k) codes e =
    let d = record c { retry_code = pos 0 } in
    Within-Falls (handle d (negsuc k) codes) (omega arith) (handle-Within d refl (negsuc k) codes)

Falls-if : (m : ℕ) (b : Bool) (p q : Pass) → Falls m p → Falls m q → Falls m (if b then p else q)
Falls-if m true p q h k = h
Falls-if m false p q h k = k

pub pass-Falls : (c : Console) (codes : List ℤ) → Falls (measure c codes) (pass c codes)
unfolding pass
pass-Falls c codes =
    Falls-if _ c.awaiting_auto_complete waits _ tt
      (Falls-if _ c.should_exit leaves _ tt (next_code-Falls c c.retry_code codes refl))

abbrev pub Settles : Option (Console × List ℤ) → Type 0
Settles r =
    (c : Console) × (rest : List ℤ) × (r ≡ some (c, rest))
    × ((pass c rest ≡ waits) ⊎ (pass c rest ≡ leaves))

-- With fuel for two passes for each code typed and one more, the loop comes to rest: it waits for
-- the terminal or for a completion, or it leaves.
pub run-Settles :
    (fuel : ℕ) (c : Console) (codes : List ℤ) → measure c codes < fuel → Settles (run fuel c codes)
unfolding run
run-Settles zero c codes h = absurd (omega arith)
run-Settles (suc fuel) c codes h = go (run-Settles fuel) (pass c codes) refl (pass-Falls c codes)
  where
    go :
        ((d : Console) (rest : List ℤ) → measure d rest < fuel → Settles (run fuel d rest))
        → (p : Pass) → pass c codes ≡ p
        → Falls (measure c codes) p
        → Settles (elim p [
          | waits ↦ some (c, codes)
          | leaves ↦ some (c, codes)
          | goes_on d rest ↦ run fuel d rest
        ])
    go ih waits e f = (c, codes, refl, inl e)
    go ih leaves e f = (c, codes, refl, inr e)
    go ih (goes_on d rest) e f = ih d rest (omega arith)
