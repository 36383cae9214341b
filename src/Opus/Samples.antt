-- ===== src/Opus/Samples.antt =====
-- RosaServer/opusencoder.cpp: the samples that bytes are.
use rosa_server.Base.{
  ◌/◌, ◌%◌, ◌<◌, ℕ, zero, suc, ◌+◌, ◌*◌, ◌≡◌, refl, ap, ◌∙◌, List, [], ◌∷◌, ◌++◌, length, replicate,
  arith,
}
use rosa_server.Opus.{samples_of}

-- Of whole samples, the samples of a text of bytes are those of its parts.
pub samples_of-append :
    (k : ℕ) (xs ys : List ℕ)
    → length xs ≡ 2 * k
    → samples_of (xs ++ ys) ≡ samples_of xs ++ samples_of ys
samples_of-append zero [] ys e = refl
samples_of-append (suc k) [] ys e = refl
samples_of-append k (x ∷ []) ys e = absurd (omega (arith, e))
samples_of-append zero (x ∷ y ∷ xs) ys e = absurd (omega (arith, e))
samples_of-append (suc k) (x ∷ y ∷ xs) ys e =
    ap (λ s. (y * 256 + x) ∷ s) (samples_of-append k xs ys (omega (arith, e)))

pub samples_of-zeros : (n : ℕ) → samples_of (replicate (n + n) 0) ≡ replicate n 0
samples_of-zeros zero = refl
samples_of-zeros (suc n) =
    ap (λ m. samples_of (replicate m 0)) (two_more n) ∙ ap (λ s. 0 ∷ s) (samples_of-zeros n)
  where
    two_more : (n : ℕ) → suc n + suc n ≡ suc (suc (n + n))
    two_more n = omega arith

pub length-samples_of : (k : ℕ) (xs : List ℕ) → length xs ≡ 2 * k → length (samples_of xs) ≡ k
length-samples_of zero [] e = refl
length-samples_of (suc k) [] e = absurd (omega (arith, e))
length-samples_of k (x ∷ []) e = absurd (omega (arith, e))
length-samples_of zero (x ∷ y ∷ xs) e = absurd (omega (arith, e))
length-samples_of (suc k) (x ∷ y ∷ xs) e = ap suc (length-samples_of k xs (omega (arith, e)))

-- The bytes of samples, the lower one first.
abbrev pub bytes_of : List ℕ → List ℕ
bytes_of [] = []
bytes_of (x ∷ xs) = x % 256 ∷ x / 256 ∷ bytes_of xs

abbrev pub AllBytes : List ℕ → Type 0
AllBytes [] = Unit {0}
AllBytes (b ∷ bs) = (b < 256) × AllBytes bs

pub bytes_of-append : (xs ys : List ℕ) → bytes_of (xs ++ ys) ≡ bytes_of xs ++ bytes_of ys
bytes_of-append [] ys = refl
bytes_of-append (x ∷ xs) ys = ap (λ bs. x % 256 ∷ x / 256 ∷ bs) (bytes_of-append xs ys)

pub bytes_of-zeros : (n : ℕ) → bytes_of (replicate n 0) ≡ replicate (n + n) 0
bytes_of-zeros zero = refl
bytes_of-zeros (suc n) =
    ap (λ bs. 0 ∷ 0 ∷ bs) (bytes_of-zeros n) ∙ ap (λ m. replicate m 0) (two_more n)
  where
    two_more : (n : ℕ) → suc (suc (n + n)) ≡ suc n + suc n
    two_more n = omega arith

low_byte : (low high : ℕ) → low < 256 → (high * 256 + low) % 256 ≡ low
low_byte low high l = omega (arith, l)

high_byte : (low high : ℕ) → low < 256 → (high * 256 + low) / 256 ≡ high
high_byte low high l = omega (arith, l)

pub bytes_of-samples_of :
    (k : ℕ) (bs : List ℕ) → length bs ≡ 2 * k → AllBytes bs → bytes_of (samples_of bs) ≡ bs
bytes_of-samples_of k [] e a = refl
bytes_of-samples_of k (x ∷ []) e a = absurd (omega (arith, e))
bytes_of-samples_of zero (x ∷ y ∷ bs) e a = absurd (omega (arith, e))
bytes_of-samples_of (suc k) (x ∷ y ∷ bs) e (l, (_, a)) =
    ap (λ b. b ∷ (y * 256 + x) / 256 ∷ bytes_of (samples_of bs)) (low_byte x y l)
    ∙ ap (λ b. x ∷ b ∷ bytes_of (samples_of bs)) (high_byte x y l)
    ∙ ap (λ r. x ∷ y ∷ r) (bytes_of-samples_of k bs (omega (arith, e)) a)
