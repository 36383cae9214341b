-- ===== src/Console/Reads.antt =====
-- Runs of writes of RosaServer/console.cpp on a terminal's line, by what stands before and behind
-- the cursor.
use mathlib.Core.List.{reverse, reverse-append, reverse-reverse, map-append, append_assoc}
use rosa_server.Base.{
  Text, ℕ, zero, suc, ◌+◌, ◌-◌, ◌≤◌, ◌<◌, ◌≡◌, refl, sym, ap, subst, ◌∙◌, false, List, [], ◌∷◌,
  ◌++◌, map, arith, length, take, drop, get_or, length-append, length-take, take-append_length,
  drop-append_length, ◌==◌,
}
use rosa_server.Console.State.{Write, put, backward, carriage, prompt, backs, rub_out}
use rosa_server.Console.Terminal.{
  Line, line, apply, render, blanks, render-append, drop-drop, drop_past, drop-blanks, render-puts,
  render-puts-backs, render-rub_out, length-reverse,
}

-- The cells of "> ", nearest to the text first.
abbrev pub prompt_cells : Text
prompt_cells = 32 ∷ 62 ∷ []

-- The line reads as the prompt, `pre`, the cursor, `suf`, and blanks.
abbrev pub Reads : Text → Text → Line → Type 0
Reads pre suf t = (n : ℕ) × (t ≡ line (reverse pre ++ prompt_cells) (suf ++ blanks n))

pub reverse-concat :
    (pre : Text) (x : ℕ) (r : Text) → reverse (pre ++ x ∷ []) ++ r ≡ x ∷ (reverse pre ++ r)
reverse-concat pre x r = ap (λ (u : Text). u ++ r) (reverse-append pre (x ∷ []))

pub blanks-append : (m n : ℕ) → blanks m ++ blanks n ≡ blanks (m + n)
blanks-append zero n = let e : n ≡ 0 + n = omega arith in ap blanks e
blanks-append (suc m) n =
    let e : suc (m + n) ≡ suc m + n = omega arith in
    ap (λ (u : Text). 32 ∷ u) (blanks-append m n) ∙ ap blanks e

pub Reads-left :
    (pre suf : Text) (x : ℕ) (t : Line)
    → Reads (pre ++ x ∷ []) suf t
    → Reads pre (x ∷ suf) (apply backward t)
Reads-left pre suf x t (n, e) = (
  n,
  ap (apply backward)
      (e ∙ ap (λ (u : Text). line u (suf ++ blanks n)) (reverse-concat pre x prompt_cells)),
)

pub Reads-right :
    (pre suf : Text) (x : ℕ) (t : Line)
    → Reads pre (x ∷ suf) t
    → Reads (pre ++ x ∷ []) suf (apply (put x) t)
Reads-right pre suf x t (n, e) = (
  n,
  ap (apply (put x)) e
      ∙ ap (λ (u : Text). line u (suf ++ blanks n)) (sym (reverse-concat pre x prompt_cells)),
)

-- The cell at the cursor is made a blank.
pub Reads-over :
    (pre suf : Text) (x : ℕ) (t : Line)
    → Reads pre (x ∷ suf) t
    → Reads pre (32 ∷ suf) (apply backward (apply (put 32) t))
Reads-over pre suf x t (n, e) = (n, ap (λ u. apply backward (apply (put 32) u)) e)

-- A character typed before `suf`, and `suf` written again behind it.
pub Reads-insert :
    (pre suf : Text) (x : ℕ) (t : Line)
    → Reads pre suf t
    → Reads (pre ++ x ∷ []) suf (render (put x ∷ (map put suf ++ backs (length suf))) t)
unfolding render
Reads-insert pre suf x t (n, e) = (
  n - 1,
  ap (render (put x ∷ (map put suf ++ backs (length suf)))) e
      ∙ render-puts-backs suf (x ∷ (reverse pre ++ prompt_cells)) (drop 1 (suf ++ blanks n))
      ∙ λ i. line (sym (reverse-concat pre x prompt_cells) i) (suf ++ rest i),
)
  where
    rest : drop (length suf) (drop 1 (suf ++ blanks n)) ≡ blanks (n - 1)
    rest =
        drop-drop (length suf) (suf ++ blanks n)
        ∙ (let k : suc (length suf) ≡ length suf + 1 = omega arith in
            ap (λ m. drop m (suf ++ blanks n)) k)
        ∙ drop_past suf (blanks n) 1
        ∙ drop-blanks 1 n

pub Reads-rewrite :
    (pre suf : Text) (x : ℕ) (t : Line)
    → Reads pre (x ∷ suf) t
    → Reads pre suf (render (map put suf ++ put 32 ∷ backs (suc (length suf))) t)
Reads-rewrite pre suf x t (n, e) = (
  suc n,
  ap (render _) e
      ∙ ap (λ ws. render ws old) writes
      ∙ render-puts-backs (suf ++ 32 ∷ []) (reverse pre ++ prompt_cells) (x ∷ (suf ++ blanks n))
      ∙ ap (line (reverse pre ++ prompt_cells)) rest,
)
  where
    old : Line
    old = line (reverse pre ++ prompt_cells) (x ∷ (suf ++ blanks n))

    size : length (suf ++ 32 ∷ []) ≡ suc (length suf)
    size = length-append suf (32 ∷ []) ∙ omega arith

    writes :
        map put suf ++ put 32 ∷ backs (suc (length suf))
        ≡ map put (suf ++ 32 ∷ []) ++ backs (length (suf ++ 32 ∷ []))
    writes =
        rw (size, map-append put suf (32 ∷ []))
          (sym (append_assoc (map put suf) (put 32 ∷ []) (backs (suc (length suf)))))

    rest :
        (suf ++ 32 ∷ []) ++ drop (length (suf ++ 32 ∷ [])) (x ∷ (suf ++ blanks n))
        ≡ suf ++ 32 ∷ blanks n
    rest = rw size (
        append_assoc suf (32 ∷ []) _
        ∙ ap (λ (u : Text). suf ++ 32 ∷ u)
            ((let k : length suf ≡ length suf + 0 = omega arith in
                ap (λ m. drop m (suf ++ blanks n)) k)
              ∙ drop_past suf (blanks n) 0))

pub Reads-home :
    (pre suf : Text) (t : Line)
    → Reads pre suf t
    → Reads [] (pre ++ suf) (apply prompt (apply carriage t))
Reads-home pre suf t (n, e) =
    (n, ap (λ (u : Line). apply prompt (apply carriage u)) e ∙ ap (line prompt_cells) whole)
  where
    turned : reverse (reverse pre ++ prompt_cells) ≡ 62 ∷ 32 ∷ pre
    turned =
        reverse-append (reverse pre) prompt_cells
        ∙ ap (λ (u : Text). 62 ∷ 32 ∷ u) (reverse-reverse pre)

    whole :
        drop 1 (drop 1 (reverse (reverse pre ++ prompt_cells) ++ (suf ++ blanks n)))
        ≡ (pre ++ suf) ++ blanks n
    whole = rw turned (sym (append_assoc pre suf (blanks n)))

pub Reads-end :
    (suf : Text) (pre : Text) (t : Line)
    → Reads pre suf t
    → Reads (pre ++ suf) [] (render (map put suf) t)
Reads-end suf pre t (n, e) = (
  n,
  ap (render (map put suf)) e
      ∙ render-puts suf (reverse pre ++ prompt_cells) (suf ++ blanks n)
      ∙ λ i. line (cells i) (rest i),
)
  where
    cells : reverse suf ++ (reverse pre ++ prompt_cells) ≡ reverse (pre ++ suf) ++ prompt_cells
    cells =
        sym (append_assoc (reverse suf) (reverse pre) prompt_cells)
        ∙ ap (λ (u : Text). u ++ prompt_cells) (sym (reverse-append pre suf))

    rest : drop (length suf) (suf ++ blanks n) ≡ blanks n
    rest =
        (let k : length suf ≡ length suf + 0 = omega arith in ap (λ m. drop m (suf ++ blanks n)) k)
        ∙ drop_past suf (blanks n) 0

pub Reads-replace :
    (pre new : Text) (t : Line)
    → Reads pre [] t
    → Reads new [] (render (rub_out (length pre) ++ map put new) t)
Reads-replace pre new t (n, e) = (
  length pre + n - length new,
  ap (render _) e
      ∙ render-append (rub_out (length pre)) (map put new) _
      ∙ ap (render (map put new)) cleared
      ∙ render-puts new prompt_cells (blanks (length pre + n))
      ∙ ap (line (reverse new ++ prompt_cells)) (drop-blanks (length new) (length pre + n)),
)
  where
    cleared :
        render (rub_out (length pre)) (line (reverse pre ++ prompt_cells) (blanks n))
        ≡ line prompt_cells (blanks (length pre + n))
    cleared =
        ap (λ m. render (rub_out m) (line (reverse pre ++ prompt_cells) (blanks n)))
          (sym (length-reverse pre))
        ∙ render-rub_out (reverse pre) prompt_cells (blanks n)
        ∙ ap (line prompt_cells)
            (ap (λ m. blanks m ++ blanks n) (length-reverse pre) ∙ blanks-append (length pre) n)

-- Where an operation writes `ws` and moves the text from `p`, `s` to `p'`, `s'`.
module _ (w ws : List Write) {p s p' s' : Text} (pre suf pre' suf' : Text) where
  pub show_step :
      Reads p s (render w (line [] []))
      → p ≡ pre
      → s ≡ suf
      → ((t : Line) → Reads pre suf t → Reads pre' suf' (render ws t))
      → p' ≡ pre'
      → s' ≡ suf'
      → Reads p' s' (render (w ++ ws) (line [] []))
  show_step h a b f a' b' =
      let given : Reads pre suf (render w (line [] [])) =
        subst (λ u. Reads pre u (render w (line [] []))) b
          (subst (λ u. Reads u s (render w (line [] []))) a h) in
      let moved = subst (Reads pre' suf') (sym (render-append w ws (line [] []))) (f _ given) in
      subst (λ u. Reads p' u (render (w ++ ws) (line [] []))) (sym b')
        (subst (λ u. Reads u suf' (render (w ++ ws) (line [] []))) (sym a') moved)

pub take-suc : (k : ℕ) (b : Text) → k < length b → take (suc k) b ≡ take k b ++ get_or b k 0 ∷ []
take-suc k [] h = absurd (omega arith)
take-suc zero (x ∷ b) h = refl
take-suc (suc k) (x ∷ b) h = ap (λ (u : Text). x ∷ u) (take-suc k b (omega arith))

pub drop-suc : (k : ℕ) (b : Text) → k < length b → drop k b ≡ get_or b k 0 ∷ drop (suc k) b
drop-suc k [] h = absurd (omega arith)
drop-suc zero (x ∷ b) h = refl
drop-suc (suc k) (x ∷ b) h = drop-suc k b (omega arith)

pub take-append_of_eq : (n : ℕ) (u v : Text) → length u ≡ n → take n (u ++ v) ≡ u
take-append_of_eq n u v e = subst (λ m. take m (u ++ v) ≡ u) e (take-append_length u v)

pub drop-append_of_eq : (n : ℕ) (u v : Text) → length u ≡ n → drop n (u ++ v) ≡ v
drop-append_of_eq n u v e = subst (λ m. drop m (u ++ v) ≡ v) e (drop-append_length u v)

pub length-take_le : (n : ℕ) (b : Text) → n ≤ length b → length (take n b) ≡ n
length-take_le n b h = omega (arith, length-take n b)

pub back_one : (n : ℕ) → (n == 0) ≡ false → n ≡ suc (n - 1)
back_one n h = ground arith

-- Every text is its part before the cursor and its part behind it, and the whole at the end.
pub take-all : (b : Text) → take (length b) b ≡ b
take-all [] = refl
take-all (x ∷ b) = ap (λ (u : Text). x ∷ u) (take-all b)

pub drop-all : (b : Text) → drop (length b) b ≡ []
drop-all [] = refl
drop-all (x ∷ b) = drop-all b

pub take_all_of_eq : (n : ℕ) (b : Text) → length b ≡ n → take n b ≡ b
take_all_of_eq n b e = subst (λ m. take m b ≡ b) e (take-all b)

pub drop_all_of_eq : (n : ℕ) (b : Text) → length b ≡ n → drop n b ≡ []
drop_all_of_eq n b e = subst (λ m. drop m b ≡ []) e (drop-all b)

pub backs_two : (m : ℕ) → backs m ++ backward ∷ backward ∷ [] ≡ backs (suc (suc m))
backs_two zero = refl
backs_two (suc m) = ap (λ ws. backward ∷ ws) (backs_two m)

pub not_end : (m n : ℕ) → m ≤ n → (m == n) ≡ false → m < n
not_end m n l e = ground arith
