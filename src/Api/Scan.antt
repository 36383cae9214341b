-- ===== src/Api/Scan.antt =====
-- RosaServer/api.cpp: what the loops over an array find.
use rosa_server.Base.{
  ℕ, zero, suc, ◌+◌, ◌≤◌, ◌<◌, ◌≡◌, refl, sym, ap, subst, ◌∙◌, ◌⊎◌, inl, inr, Bool, Bool-cases,
  true, false, ◌&&◌, Option, none, some, List, [], ◌∷◌, length, has, leb, ltb, arith, returns,
  throws, Error,
}
use rosa_server.Api.{count_if, indices_if, first_index, indices_from, at_index}

-- The test on the element at an index.
abbrev pub test_at {ℓ} : {A : Type ℓ} → (A → Bool) → List A → ℕ → Bool
test_at keep [] i = false
test_at keep (x ∷ xs) zero = keep x
test_at keep (x ∷ xs) (suc i) = test_at keep xs i

module _ {ℓ} {A : Type ℓ} (keep : A → Bool) where
  has-indices_below : (xs : List A) (k i : ℕ) → i < k → has (indices_if keep xs k) i ≡ false
  unfolding indices_if
  has-indices_below [] k i l = refl
  has-indices_below (x ∷ xs) k i l = ground (arith, has-indices_below xs (suc k) i (omega arith))

  has-indices_from :
      (xs : List A) (k i : ℕ) → has (indices_if keep xs k) (k + i) ≡ test_at keep xs i
  unfolding indices_if
  has-indices_from [] k i = refl
  has-indices_from (x ∷ xs) k zero = elim (Bool-cases (keep x)) [
    | inl e ↦ rw e (ground arith)
    | inr e ↦ rw e (has-indices_below xs (suc k) (k + 0) (omega arith))
  ]
  has-indices_from (x ∷ xs) k (suc i) = elim (Bool-cases (keep x)) [
    | inl e ↦ rw e (ground (arith, has-indices_from xs (suc k) i))
    | inr e ↦ rw e (ground (arith, has-indices_from xs (suc k) i))
  ]

  pub has-indices_if : (xs : List A) (i : ℕ) → has (indices_if keep xs 0) i ≡ test_at keep xs i
  has-indices_if xs i = ap (has (indices_if keep xs 0)) (omega arith) ∙ has-indices_from xs 0 i

  pub length-indices_if : (xs : List A) (k : ℕ) → length (indices_if keep xs k) ≡ count_if keep xs
  unfolding indices_if count_if
  length-indices_if [] k = refl
  length-indices_if (x ∷ xs) k = elim (Bool-cases (keep x)) [
    | inl e ↦ rw e (ap suc (length-indices_if xs (suc k)))
    | inr e ↦ rw e (length-indices_if xs (suc k))
  ]

  pub test_at-below : (xs : List A) (i : ℕ) → test_at keep xs i ≡ true → i < length xs
  test_at-below [] i t = absurd (cc t)
  test_at-below (x ∷ xs) zero t = omega arith
  test_at-below (x ∷ xs) (suc i) t = omega (arith, test_at-below xs i t)

-- Each index is greater than the one before, and the first one at least k.
abbrev pub IsIncreasing : ℕ → List ℕ → Type 0
IsIncreasing k [] = Unit {0}
IsIncreasing k (i ∷ is) = (k ≤ i) × IsIncreasing (suc i) is

IsIncreasing-weaken : (k j : ℕ) (is : List ℕ) → k ≤ j → IsIncreasing j is → IsIncreasing k is
IsIncreasing-weaken k j [] l h = tt
IsIncreasing-weaken k j (i ∷ is) l (a, h) = (omega (arith, a), h)

pub IsIncreasing-indices_if {ℓ} :
    {A : Type ℓ} (keep : A → Bool) (xs : List A) (k : ℕ) → IsIncreasing k (indices_if keep xs k)
unfolding indices_if
IsIncreasing-indices_if keep [] k = tt
IsIncreasing-indices_if keep (x ∷ xs) k = elim (Bool-cases (keep x)) [
  | inl e ↦ rw e (omega arith, IsIncreasing-indices_if keep xs (suc k))
  | inr e ↦ rw e (
      IsIncreasing-weaken k (suc k) (indices_if keep xs (suc k)) (omega arith)
        (IsIncreasing-indices_if keep xs (suc k)))
]

-- The result of a search: the lowest index whose element passes, or none if there is none.
abbrev pub IsFirst {ℓ} : {A : Type ℓ} → (A → Bool) → List A → Option ℕ → Type 0
IsFirst keep xs none = (i : ℕ) → test_at keep xs i ≡ false
IsFirst keep xs (some n) =
    (test_at keep xs n ≡ true) × ((i : ℕ) → i < n → test_at keep xs i ≡ false)

-- A search that goes past the first element.
pub all_false {ℓ} :
    {A : Type ℓ} (keep : A → Bool) (x : A) (xs : List A)
    → keep x ≡ false
    → ((i : ℕ) → test_at keep xs i ≡ false)
    → (i : ℕ) → test_at keep (x ∷ xs) i ≡ false
all_false keep x xs e f zero = e
all_false keep x xs e f (suc i) = f i

pub all_false_below {ℓ} :
    {A : Type ℓ} (keep : A → Bool) (x : A) (xs : List A) (n : ℕ)
    → keep x ≡ false
    → ((i : ℕ) → i < n → test_at keep xs i ≡ false)
    → (i : ℕ) → i < suc n
    → test_at keep (x ∷ xs) i ≡ false
all_false_below keep x xs n e f zero l = e
all_false_below keep x xs n e f (suc i) l = f i (omega (arith, l))

first_index-cases {ℓ} :
    {A : Type ℓ} (keep : A → Bool) (xs : List A) (k : ℕ)
    → ((first_index keep xs k ≡ none) × ((i : ℕ) → test_at keep xs i ≡ false))
      ⊎ ((n : ℕ) × (first_index keep xs k ≡ some (k + n))
          × (test_at keep xs n ≡ true)
          × ((i : ℕ) → i < n → test_at keep xs i ≡ false))
unfolding first_index
first_index-cases keep [] k = inl (refl, λ i. refl)
first_index-cases keep (x ∷ xs) k = elim (Bool-cases (keep x)) [
  | inl e ↦ inr (0, rw e (ap some (omega arith)), e, λ i l. absurd (omega (arith, l)))
  | inr e ↦ elim (first_index-cases keep xs (suc k)) [
    | inl (n, f) ↦ inl (rw e n, all_false keep x xs e f)
    | inr (n, s, t, f) ↦
        inr (suc n, rw e (s ∙ ap some (omega arith)), t, all_false_below keep x xs n e f)
  ]
]

pub first_index-IsFirst {ℓ} :
    {A : Type ℓ} (keep : A → Bool) (xs : List A) → IsFirst keep xs (first_index keep xs 0)
first_index-IsFirst keep xs = elim (first_index-cases keep xs 0) [
  | inl (n, f) ↦ subst (IsFirst keep xs) (sym n) f
  | inr (n, s, t, f) ↦ subst (IsFirst keep xs) (sym (s ∙ ap some (omega arith))) (t, f)
]

pub has-indices_from_count : (n k i : ℕ) → has (indices_from n k) i ≡ (leb k i && ltb i (k + n))
unfolding indices_from
has-indices_from_count zero k i = ground arith
has-indices_from_count (suc n) k i = ground (arith, has-indices_from_count n (suc k) i)

pub IsIncreasing-indices_from : (n k : ℕ) → IsIncreasing k (indices_from n k)
unfolding indices_from
IsIncreasing-indices_from zero k = tt
IsIncreasing-indices_from (suc n) k = (omega arith, IsIncreasing-indices_from n (suc k))

pub length-indices_from : (n k : ℕ) → length (indices_from n k) ≡ n
unfolding indices_from
length-indices_from zero k = refl
length-indices_from (suc n) k = ap suc (length-indices_from n (suc k))

pub at_index-below : (limit i : ℕ) → i < limit → at_index limit i ≡ returns i
at_index-below limit i l = let h : leb limit i ≡ false = ground arith in rw h refl

pub at_index-beyond : (limit i : ℕ) → limit ≤ i → at_index limit i ≡ throws Error.index_out_of_range
at_index-beyond limit i l = let h : leb limit i ≡ true = ground arith in rw h refl
