-- ===== src/Image/Blank.antt =====
-- RosaServer/image.cpp: `loadBlank`, `loadFromFile` and the invariant; what the 32-bit product of
-- the dimensions does.
use rosa_server.Base.{
  ℕ, zero, suc, ◌+◌, ◌*◌, ◌/◌, ◌%◌, ◌^◌, ◌≤◌, ◌<◌, ◌≡◌, refl, ap, ◌∙◌, ◌⊎◌, inl, inr, Option, none,
  some, List, arith, returns, throws, Error, get_or, length, length-replicate, replicate,
  get_elem?-none, if◌then◌else◌, ltb,
}
use rosa_server.Image.{
  Image, u32, blank_fields, blank_size, load_blank, pixel_index, checked, get_rgba,
}
use rosa_server.Image.Access.{IsValid, get_rgba-returns}

-- The documented behaviour of `calloc(n, 1)`: a null pointer or n zero bytes.
abbrev pub IsCalloc : (ℕ → Option (List ℕ)) → Type 0
IsCalloc calloc = (n : ℕ) → (calloc n ≡ none) ⊎ (calloc n ≡ some (replicate n 0))

abbrev pub Accepted : ℕ → ℕ → ℕ → Type 0
Accepted w h c = (1 ≤ c) × (c ≤ 4) × (1 ≤ w) × (1 ≤ h)

-- `loadBlank` throws exactly on an invalid channel count, a zero dimension (in which cases the
-- image is unchanged) or a failed allocation (which leaves the image without data).
pub load_blank_outcomes :
    (calloc : ℕ → Option (List ℕ)) (i : Image) (w h c : ℕ)
    → let r = load_blank calloc i w h c in
      ((r.1 ≡ returns tt) × Accepted w h c × ((d : List ℕ) × (r.0.pixels ≡ some d)))
      ⊎ ((r ≡ (i, throws Error.invalid_channel_count)) × ((c ≡ 0) ⊎ (4 < c)))
      ⊎ ((r ≡ (i, throws Error.zero_width)) × (w ≡ 0))
      ⊎ ((r ≡ (i, throws Error.zero_height)) × (h ≡ 0))
      ⊎ ((r ≡ (blank_fields, throws Error.could_not_load))
          × Accepted w h c
          × (calloc (blank_size w h c) ≡ none))
unfolding load_blank
load_blank_outcomes calloc i w h c = ground arith

get_or-replicate : (n k : ℕ) → get_or {A = ℕ} (replicate n 0) k 0 ≡ 0
get_or-replicate zero k = refl
get_or-replicate (suc n) zero = refl
get_or-replicate (suc n) (suc k) = get_or-replicate n k

blank_size-exact : (w h c : ℕ) → 1 ≤ c → w * h * c < 2 ^ 32 → blank_size w h c ≡ w * h * c
blank_size-exact w h c p l =
    let narrow : w * h ≤ w * h * c = grind arith in
    let e : u32 (w * h) ≡ w * h = omega arith in ap (λ k. u32 (k * c)) e ∙ omega arith

abbrev pub blank_image : ℕ → ℕ → ℕ → Image
blank_image w h c = record {
  pixels = some (replicate (w * h * c) 0);
  width = w;
  height = h;
  num_channels = c;
}

-- If the product of the dimensions is below 2 ^ 32 and the allocation succeeds, `loadBlank` makes
-- a valid image, in which every pixel reads as 0 in its channels and 255 in the absent ones.
pub load_blank-IsValid :
    (calloc : ℕ → Option (List ℕ)) (i : Image) (w h c : ℕ)
    → Accepted w h c
    → w * h * c < 2 ^ 32
    → calloc (w * h * c) ≡ some (replicate (w * h * c) 0)
    → (load_blank calloc i w h c ≡ (blank_image w h c, returns tt))
      × IsValid (blank_image w h c) (replicate (w * h * c) 0)
      × ((x y : ℕ)
          → x < w
          → y < h
          → get_rgba (blank_image w h c) x y
            ≡ returns (
              0,
              if ltb 1 c then 0 else 255,
              if ltb 2 c then 0 else 255,
              if ltb 3 c then 0 else 255,
            ))
unfolding load_blank
load_blank-IsValid calloc i w h c a l e =
    let z = replicate (w * h * c) 0 in
    let size = blank_size-exact w h c a.0 l in
    let v : IsValid (blank_image w h c) z = record {
      held = refl;
      sized = length-replicate (w * h * c) 0;
      unwrapped = l;
      channels_pos = a.0;
    } in
    (
      ground (arith, size),
      v,
      λ x y p q.
          let k = pixel_index (blank_image w h c) x y in
          get_rgba-returns _ _ x y v p q
          ∙ rw (get_or-replicate, get_or-replicate, get_or-replicate, get_or-replicate) refl,
    )

split_row : (p w h : ℕ) → 1 ≤ w → p < w * h → (p % w < w) × (p / w < h) × (p / w * w + p % w ≡ p)
split_row p w h a l = (omega arith, grind arith, omega arith)

blank_size-wraps : (w h c : ℕ) → 1 ≤ c → c ≤ 4 → blank_size w h c ≡ w * h * c % 2 ^ 32
blank_size-wraps w h zero a b = omega arith
blank_size-wraps w h (suc zero) a b = omega arith
blank_size-wraps w h (suc (suc zero)) a b = omega arith
blank_size-wraps w h (suc (suc (suc zero))) a b = omega arith
blank_size-wraps w h (suc (suc (suc (suc zero)))) a b = omega arith
blank_size-wraps w h (suc (suc (suc (suc (suc c))))) a b = absurd (omega arith)

-- The pixel number L / c touches the byte L just behind a block of L bytes.
behind_block :
    (d : List ℕ) (x y w h c n : ℕ)
    → 1 ≤ c
    → c ≤ 4
    → length d < 2 ^ 32
    → n ≡ y * w
    → n + x ≡ length d / c
    → x < w
    → y < h
    → get_rgba (record { pixels = some d; width = w; height = h; num_channels = c }) x y
      ≡ throws Error.undefined_access
unfolding get_rgba checked pixel_index
behind_block d x y w h zero n a b l m e p q = absurd (omega arith)
behind_block d x y w h (suc zero) n a b l m e p q =
    rw (← m) (ground (arith, get_elem?-none d (length d)))
behind_block d x y w h (suc (suc zero)) n a b l m e p q =
    rw (← m) (ground (arith, get_elem?-none d ((n + x) * 2 + 1)))
behind_block d x y w h (suc (suc (suc zero))) n a b l m e p q =
    rw (← m)
      (ground (arith, get_elem?-none d ((n + x) * 3 + 1), get_elem?-none d ((n + x) * 3 + 2)))
behind_block d x y w h (suc (suc (suc (suc zero)))) n a b l m e p q = rw (← m) (
    ground (
      arith,
      get_elem?-none d ((n + x) * 4 + 1),
      get_elem?-none d ((n + x) * 4 + 2),
      get_elem?-none d ((n + x) * 4 + 3),
    ))
behind_block d x y w h (suc (suc (suc (suc (suc c))))) n a b l m e p q = absurd (omega arith)

div-below : (n m c : ℕ) → n < m * c → n / c < m
div-below n m c h = grind arith

load_blank-given :
    (calloc : ℕ → Option (List ℕ)) (i : Image) (w h c : ℕ) (d : List ℕ)
    → Accepted w h c
    → calloc (blank_size w h c) ≡ some d
    → (load_blank calloc i w h c).0
      ≡ record { pixels = some d; width = w; height = h; num_channels = c }
unfolding load_blank
load_blank-given calloc i w h c d a e = ground arith

-- If the product is 2 ^ 32 or more, `loadBlank` allocates less than the image needs: some pixel
-- within the checked range is read outside of the block.
pub load_blank_overflow :
    (calloc : ℕ → Option (List ℕ)) (i : Image) (w h c : ℕ)
    → IsCalloc calloc
    → Accepted w h c
    → 2 ^ 32 ≤ w * h * c
    → (load_blank calloc i w h c).1 ≡ returns tt
    → (x : ℕ) × (y : ℕ) × (x < w)
      × (y < h)
      × (get_rgba (load_blank calloc i w h c).0 x y ≡ throws Error.undefined_access)
unfolding load_blank
load_blank_overflow calloc i w h c ca a l e = elim (ca (blank_size w h c)) [
  | inl fails ↦ absurd (ground (arith, fails))
  | inr gives ↦
      let n = blank_size w h c in
      let wraps = blank_size-wraps w h c a.0 a.1 in
      let below : n / c < w * h = div-below n (w * h) c (omega arith) in
      let (left, up, sum) = split_row (n / c) w h a.2 below in
      (
        n / c % w,
        n / c / w,
        left,
        up,
        rw (load_blank-given calloc i w h c _ a gives) (
            behind_block (replicate n 0) _ _ w h c _ a.0 a.1
              (omega (arith, length-replicate {A = ℕ} n 0)) refl
              (rw (length-replicate {A = ℕ} n 0) sum) left up),
      )
]
