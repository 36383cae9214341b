-- ===== src/Api/Accounts.antt =====
-- RosaServer/api.cpp: the loops over the accounts, which end at an account without a subRosaID.
use rosa_server.Base.{
  ℕ, suc, ◌+◌, ◌≡◌, refl, ap, ◌∙◌, ◌⊎◌, inl, inr, Bool, Bool-cases, true, false, not, none, some,
  List, [], ◌∷◌, take, ◌==◌, arith, returns, throws, Error,
}
use rosa_server.Api.{
  Account, Engine, is_set, count_accounts_from, all_accounts_from, account_by_phone_from,
  count_accounts, all_accounts, account_by_phone, first_index, indices_from,
}
use rosa_server.Api.Scan.{IsFirst, all_false, all_false_below}

abbrev pub is_free : Account → Bool
is_free a = not (is_set a.sub_rosa_id)

-- The loops that start at index k and end at the account n behind it.
abbrev Ends : List Account → ℕ → ℕ → Type 0
Ends xs k n =
    IsFirst is_free xs (some n)
    × (count_accounts_from xs k ≡ returns (k + n))
    × (all_accounts_from xs k ≡ returns (indices_from n k))
    × ((phone : ℕ)
        → account_by_phone_from xs phone k
          ≡ returns (first_index (λ a. a.phone_number == phone) (take n xs) k))

abbrev RunsOff : List Account → ℕ → Type 0
RunsOff xs k =
    IsFirst is_free xs none
    × (count_accounts_from xs k ≡ throws Error.undefined_access)
    × (all_accounts_from xs k ≡ throws Error.undefined_access)

Ends-here :
    (a : Account) (xs : List Account) (k : ℕ) → is_set a.sub_rosa_id ≡ false → Ends (a ∷ xs) k 0
unfolding count_accounts_from all_accounts_from account_by_phone_from indices_from first_index
Ends-here a xs k e = (
  (rw e refl, λ i l. absurd (omega (arith, l))),
  rw e (ap returns (omega arith)),
  rw e refl,
  λ phone. rw e refl,
)

Ends-next :
    (a : Account) (xs : List Account) (k n : ℕ)
    → is_set a.sub_rosa_id ≡ true
    → Ends xs (suc k) n
    → Ends (a ∷ xs) k (suc n)
unfolding count_accounts_from all_accounts_from account_by_phone_from indices_from first_index
Ends-next a xs k n e ((t, f), c, l, p) = (
  (t, all_false_below is_free a xs n (rw e refl) f),
  rw (e, c) (ap returns (omega arith)),
  rw (e, l) refl,
  λ phone. elim (Bool-cases (a.phone_number == phone)) [
    | inl h ↦ rw (e, h) refl
    | inr h ↦ rw (e, h) (p phone)
  ],
)

accounts_from : (xs : List Account) (k : ℕ) → ((n : ℕ) × Ends xs k n) ⊎ RunsOff xs k
unfolding count_accounts_from all_accounts_from
accounts_from [] k = inr (λ i. refl, refl, refl)
accounts_from (a ∷ xs) k = elim (Bool-cases (is_set a.sub_rosa_id)) [
  | inr e ↦ inl (0, Ends-here a xs k e)
  | inl e ↦ elim (accounts_from xs (suc k)) [
    | inl (n, h) ↦ inl (suc n, Ends-next a xs k n e h)
    | inr (f, c, l) ↦ inr (all_false is_free a xs (rw e refl) f, rw (e, c) refl, rw (e, l) refl)
  ]
]

-- Of the accounts, one of two holds. There is one without a subRosaID: then `getCount` gives the index
-- of the first one, `getAll` the indices below it, and `getByPhone` the lowest of these with the phone
-- number, or nil if there is none. Or all have one: then `getCount` and `getAll` go on behind the array.
pub accounts_outcomes :
    (e : Engine)
    → ((n : ℕ) × IsFirst is_free e.accounts (some n)
        × (count_accounts e ≡ returns n)
        × (all_accounts e ≡ returns (indices_from n 0))
        × ((phone : ℕ)
            → account_by_phone e phone
              ≡ returns (first_index (λ a. a.phone_number == phone) (take n e.accounts) 0)))
      ⊎ (IsFirst is_free e.accounts none
          × (count_accounts e ≡ throws Error.undefined_access)
          × (all_accounts e ≡ throws Error.undefined_access))
accounts_outcomes e = elim (accounts_from e.accounts 0) [
  | inl (n, (f, c, l, p)) ↦ inl (n, f, c ∙ ap returns (omega arith), l, p)
  | inr h ↦ inr h
]
