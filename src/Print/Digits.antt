-- ===== src/Print/Digits.antt =====
-- RosaServer/api.cpp: the digits of a number, and the number that they are read as.
use rosa_server.Base.{
  ℕ, zero, suc, ◌+◌, ◌*◌, ◌/◌, ◌%◌, ◌^◌, ◌≤◌, ◌<◌, ◌≡◌, refl, sym, ap, subst, lt→ltb, ◌∙◌, inl, inr,
  Bool-cases, true, false, List, [], ◌∷◌, ◌++◌, length, length-append, replicate, ltb, ltb→lt,
  arith,
}
use native.Mathlib.Nat.{
  div-add-mod, mod-lt, pow-suc, pow-zero, one-mul, div-lt_iff_lt-mul, le-div_iff_mul-le,
  pow-le-pow_right, div-eq_of_lt,
}
use rosa_server.Print.{digits}

-- The number that digits stand for, behind a number that was read before.
unfoldable pub value : ℕ → List ℕ → ℕ → ℕ
value base [] acc = acc
value base (d ∷ ds) acc = value base ds (acc * base + d)

pub value-append :
    (base : ℕ) (xs : List ℕ) (d acc : ℕ)
    → value base (xs ++ d ∷ []) acc ≡ value base xs acc * base + d
unfolding value
value-append base [] d acc = refl
value-append base (x ∷ xs) d acc = value-append base xs d (acc * base + x)

pub value-zeros : (base k : ℕ) (ds : List ℕ) → value base (replicate k 0 ++ ds) 0 ≡ value base ds 0
unfolding value
value-zeros base zero ds = refl
value-zeros base (suc k) ds =
    ap (value base (replicate k 0 ++ ds)) (omega arith) ∙ value-zeros base k ds

pow-one : (base : ℕ) → base ^ 1 ≡ base
pow-one base = pow-suc base 0 ∙ ap (λ k. k * base) (pow-zero base) ∙ one-mul base

digits_none : (base n : ℕ) → digits base 0 n ≡ []
unfolding digits
digits_none base n = refl

-- Below the base there is one digit.
digits_one : (base fuel n : ℕ) → ltb n base ≡ true → digits base (suc fuel) n ≡ n ∷ []
unfolding digits
digits_one base fuel n e = rw e refl

digits_more :
    (base fuel n : ℕ)
    → ltb n base ≡ false
    → digits base (suc fuel) n ≡ digits base fuel (n / base) ++ n % base ∷ []
unfolding digits
digits_more base fuel n e = rw e refl

below_base : (base n : ℕ) → n < base ^ 1 → ltb n base ≡ true
below_base base n l = lt→ltb n base (subst (λ m. n < m) (pow-one base) l)

div-lt : (base n k : ℕ) → 0 < base → n < base ^ suc k → n / base < base ^ k
div-lt base n k p l = (div-lt_iff_lt-mul p).1 (subst (λ m. n < m) (pow-suc base k) l)

pub value-digits :
    (base fuel n : ℕ)
    → 2 ≤ base
    → 0 < fuel
    → n < base ^ fuel
    → value base (digits base fuel n) 0 ≡ n
unfolding value
value-digits base zero n b p l = absurd (omega (arith, p))
value-digits base (suc zero) n b p l =
    ap (λ ds. value base ds 0) (digits_one base 0 n (below_base base n l)) ∙ omega arith
value-digits base (suc (suc fuel)) n b p l = elim (Bool-cases (ltb n base)) [
  | inl e ↦ ap (λ ds. value base ds 0) (digits_one base (suc fuel) n e) ∙ omega arith
  | inr e ↦
      ap (λ ds. value base ds 0) (digits_more base (suc fuel) n e)
      ∙ value-append base (digits base (suc fuel) (n / base)) (n % base) 0
      ∙ ap (λ v. v * base + n % base)
          (value-digits base (suc fuel) (n / base) b (omega arith)
            (div-lt base n (suc fuel) (omega (arith, b)) l))
      ∙ omega (arith, div-add-mod n base)
]

-- A number below base ^ k has at most k digits.
pub length-digits :
    (base fuel n k : ℕ) → 2 ≤ base → 0 < k → n < base ^ k → length (digits base fuel n) ≤ k
length-digits base zero n k b p l =
    subst (λ ds. length ds ≤ k) (sym (digits_none base n)) (omega arith)
length-digits base (suc fuel) n zero b p l = absurd (omega (arith, p))
length-digits base (suc fuel) n (suc zero) b p l =
    subst (λ ds. length ds ≤ 1) (sym (digits_one base fuel n (below_base base n l))) (omega arith)
length-digits base (suc fuel) n (suc (suc k)) b p l = elim (Bool-cases (ltb n base)) [
  | inl e ↦ subst (λ ds. length ds ≤ suc (suc k)) (sym (digits_one base fuel n e)) (omega arith)
  | inr e ↦
      subst (λ ds. length ds ≤ suc (suc k)) (sym (digits_more base fuel n e))
        (omega (
          arith,
          length-append (digits base fuel (n / base)) (n % base ∷ []),
          length-digits base fuel (n / base) (suc k) b (omega arith)
              (div-lt base n (suc k) (omega (arith, b)) l),
        ))
]

pub length-digits_some : (base fuel n : ℕ) → 0 < length (digits base (suc fuel) n)
length-digits_some base fuel n = elim (Bool-cases (ltb n base)) [
  | inl e ↦ subst (λ ds. 0 < length ds) (sym (digits_one base fuel n e)) (omega arith)
  | inr e ↦
      subst (λ ds. 0 < length ds) (sym (digits_more base fuel n e))
        (omega (arith, length-append (digits base fuel (n / base)) (n % base ∷ [])))
]

-- A number from base ^ k on has more than k digits, as far as the fuel goes.
pub length-digits_more :
    (base fuel n k : ℕ) → 2 ≤ base → k < fuel → base ^ k ≤ n → k < length (digits base fuel n)
length-digits_more base zero n k b p l = absurd (omega (arith, p))
length-digits_more base (suc fuel) n zero b p l = length-digits_some base fuel n
length-digits_more base (suc fuel) n (suc k) b p l =
    let q : base ^ k ≤ n / base =
      (le-div_iff_mul-le {k = base} {x = base ^ k} {y = n} (omega (arith, b))).1
        (subst (λ m. m ≤ n) (pow-suc base k) l) in
    let one : base ^ 0 ≤ base ^ k = pow-le-pow_right (omega (arith, b)) (omega arith) in
    elim (Bool-cases (ltb n base)) [
      | inl e ↦ absurd (omega (arith, q, one, pow-zero base, div-eq_of_lt (ltb→lt n base e)))
      | inr e ↦
          subst (λ ds. suc k < length ds) (sym (digits_more base fuel n e))
            (omega (
              arith,
              length-append (digits base fuel (n / base)) (n % base ∷ []),
              length-digits_more base fuel (n / base) k b (omega (arith, p)) q,
            ))
    ]

-- Every digit is below the base.
abbrev pub AllBelow : ℕ → List ℕ → Type 0
AllBelow base [] = Unit {0}
AllBelow base (d ∷ ds) = (d < base) × AllBelow base ds

AllBelow-append :
    (base d : ℕ) (ds : List ℕ) → AllBelow base ds → d < base → AllBelow base (ds ++ d ∷ [])
AllBelow-append base d [] a l = (l, tt)
AllBelow-append base d (e ∷ ds) (k, a) l = (k, AllBelow-append base d ds a l)

pub AllBelow-digits : (base fuel n : ℕ) → 0 < base → AllBelow base (digits base fuel n)
AllBelow-digits base zero n b = subst (AllBelow base) (sym (digits_none base n)) tt
AllBelow-digits base (suc fuel) n b = elim (Bool-cases (ltb n base)) [
  | inl e ↦ subst (AllBelow base) (sym (digits_one base fuel n e)) (ltb→lt n base e, tt)
  | inr e ↦ subst (AllBelow base) (sym (digits_more base fuel n e)) (
      AllBelow-append base (n % base) (digits base fuel (n / base))
        (AllBelow-digits base fuel (n / base) b) (mod-lt n b))
]
