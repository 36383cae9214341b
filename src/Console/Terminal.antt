-- ===== src/Console/Terminal.antt =====
-- A terminal's line, against which the writes of RosaServer/console.cpp are judged: one cell for
-- each byte, which is what a terminal does with printable ASCII, in a line that is narrower than
-- the terminal. It does not describe bytes from 128 on, of which several make one character, nor
-- control characters in a completion or a logged line.
use mathlib.Core.List.{reverse, reverse-cons, reverse-reverse, append_assoc}
use rosa_server.Base.{
  Text, ℕ, zero, suc, ◌+◌, ◌-◌, ◌≡◌, refl, sym, ap, ◌∙◌, List, [], ◌∷◌, ◌++◌, map, arith, length,
  drop, replicate, length-append,
}
use rosa_server.Console.State.{
  Write, put, backward, carriage, newline, erase_line, prompt, echo_prompt, backs, rub_out,
}

-- The cells left of the cursor, nearest first, and those from the cursor on. Cells that are not
-- listed are blank.
pub record Line : Type 0 where
  pub left : Text
  pub right : Text

abbrev put_cell : ℕ → Line → Line
put_cell ch t = record { left = ch ∷ t.left; right = drop 1 t.right }

abbrev step_back : Text → Text → Line
step_back [] r = record { left = []; right = r }
step_back (x ∷ l) r = record { left = l; right = x ∷ r }

abbrev pub apply : Write → Line → Line
apply (put ch) t = put_cell ch t
apply backward t = step_back t.left t.right
apply carriage t = record { left = []; right = reverse t.left ++ t.right }
apply newline t = record { left = []; right = [] }
apply erase_line t = record { left = replicate (length t.left) 32; right = [] }
apply prompt t = put_cell 32 (put_cell 62 t)
apply echo_prompt t = put_cell 32 (put_cell 62 t)

unfoldable pub render : List Write → Line → Line
render [] t = t
render (w ∷ ws) t = render ws (apply w t)

abbrev pub line : Text → Text → Line
line l r = record { left = l; right = r }

abbrev pub blanks : ℕ → Text
blanks n = replicate n 32

pub render-append : (a b : List Write) (t : Line) → render (a ++ b) t ≡ render b (render a t)
unfolding render
render-append [] b t = refl
render-append (w ∷ a) b t = render-append a b (apply w t)

drop-nil : (n : ℕ) → drop {A = ℕ} n [] ≡ []
drop-nil zero = refl
drop-nil (suc n) = refl

pub drop-drop : (n : ℕ) (r : Text) → drop n (drop 1 r) ≡ drop (suc n) r
drop-drop n [] = drop-nil n
drop-drop n (x ∷ r) = refl

pub drop_past : (s r : Text) (k : ℕ) → drop (length s + k) (s ++ r) ≡ drop k r
drop_past [] r k = ap (λ n. drop n r) (omega arith)
drop_past (x ∷ s) r k =
    ap (λ n. drop n (x ∷ (s ++ r)))
      (let e : length (x ∷ s) + k ≡ suc (length s + k) = omega arith in e)
    ∙ drop_past s r k

pub drop-blanks : (k n : ℕ) → drop k (blanks n) ≡ blanks (n - k)
drop-blanks zero n = let e : n ≡ n - 0 = omega arith in ap blanks e
drop-blanks (suc k) zero = let e : 0 ≡ 0 - suc k = omega arith in ap blanks e
drop-blanks (suc k) (suc n) =
    let e : n - k ≡ suc n - suc k = omega arith in drop-blanks k n ∙ ap blanks e

-- Text written from the cursor on.
pub render-puts :
    (s l r : Text) → render (map put s) (line l r) ≡ line (reverse s ++ l) (drop (length s) r)
unfolding render
render-puts [] l r = refl
render-puts (x ∷ s) l r = render-puts s (x ∷ l) (drop 1 r) ∙ λ i.
    line
      (sym (ap (λ (u : Text). u ++ l) (reverse-cons x s) ∙ append_assoc (reverse s) (x ∷ []) l) i)
      (drop-drop (length s) r i)

-- As many steps back as there are cells.
pub render-backs :
    (s l r : Text) → render (backs (length s)) (line (s ++ l) r) ≡ line l (reverse s ++ r)
unfolding render
render-backs [] l r = refl
render-backs (x ∷ s) l r =
    render-backs s l (x ∷ r)
    ∙ ap (line l)
        (sym (ap (λ (u : Text). u ++ r) (reverse-cons x s) ∙ append_assoc (reverse s) (x ∷ []) r))

pub length-reverse : (s : Text) → length (reverse s) ≡ length s
length-reverse [] = refl
length-reverse (x ∷ s) =
    omega
      (arith, ap length (reverse-cons x s), length-append (reverse s) (x ∷ []), length-reverse s)

-- Back over text that was just written.
pub render-backs-reverse :
    (s l r : Text) → render (backs (length s)) (line (reverse s ++ l) r) ≡ line l (s ++ r)
render-backs-reverse s l r =
    ap (λ n. render (backs n) (line (reverse s ++ l) r)) (sym (length-reverse s))
    ∙ render-backs (reverse s) l r
    ∙ ap (λ (u : Text). line l (u ++ r)) (reverse-reverse s)

-- Text written and the cursor taken back to its begin.
pub render-puts-backs :
    (s l r : Text)
    → render (map put s ++ backs (length s)) (line l r) ≡ line l (s ++ drop (length s) r)
render-puts-backs s l r =
    render-append (map put s) (backs (length s)) (line l r)
    ∙ ap (render (backs (length s))) (render-puts s l r)
    ∙ render-backs-reverse s l (drop (length s) r)

pub render-rub_out :
    (s l r : Text) → render (rub_out (length s)) (line (s ++ l) r) ≡ line l (blanks (length s) ++ r)
unfolding render rub_out
render-rub_out [] l r = refl
render-rub_out (x ∷ s) l r = render-rub_out s l (32 ∷ r) ∙ ap (line l) (shift (length s))
  where
    shift : (n : ℕ) → blanks n ++ 32 ∷ r ≡ 32 ∷ (blanks n ++ r)
    shift zero = refl
    shift (suc n) = ap (λ (u : Text). 32 ∷ u) (shift n)
