-- ===== src/Image/Tests.antt =====
-- RosaServer/image.cpp: runs of `Image` on small pictures, and the theorems at such inputs.
use rosa_server.Base.{
  ℕ, zero, suc, ap, ◌≢◌, ◌<◌, ◌≡◌, refl, ◌⊎◌, inl, inr, Option, none, some, List, [], ◌∷◌, arith,
  returns, throws, Error, replicate,
}
use rosa_server.Image.{
  checked, pixel_index, Image, blank_size, blank_fields, load_blank, free, get_rgba, set_rgb,
  set_rgba, load_from_file, get_png,
}
use rosa_server.Image.Access.{IsValid, accessors_guarded, get_rgba-set_rgba}
use rosa_server.Image.Blank.{
  Accepted, IsCalloc, load_blank_outcomes, blank_image, load_blank-IsValid, load_blank_overflow,
}

abbrev zeros : ℕ → Option (List ℕ)
zeros n = some (replicate n 0)

abbrev square : Image
square = blank_image 2 2 4

square-IsValid : IsValid square (replicate 16 0)
square-IsValid = (load_blank-IsValid zeros blank_fields 2 2 4 (omega arith) (omega arith) refl).1

paint_corner :
    (set_rgba square 1 1 7 8 9 10)
    ≡ returns (record square {
      pixels = some (0 ∷ 0 ∷ 0 ∷ 0 ∷ 0 ∷ 0 ∷ 0 ∷ 0 ∷ 0 ∷ 0 ∷ 0 ∷ 0 ∷ 7 ∷ 8 ∷ 9 ∷ 10 ∷ []);
    })
unfolding set_rgba checked pixel_index
paint_corner = refl

grey_reads_opaque : get_rgba (blank_image 2 2 1) 0 1 ≡ returns (0, 255, 255, 255)
unfolding get_rgba checked pixel_index
grey_reads_opaque = refl

failed_load :
    (load_from_file square
      (record { block = none; loaded_width = 3; loaded_height = 3; loaded_channels = 3 }))
    ≡ (blank_fields, throws Error.could_not_load)
unfolding load_from_file
failed_load = refl

no_png : get_png (λ d s w h c. some d) (free square) ≡ throws Error.no_data_loaded
unfolding get_png free
no_png = refl

get_rgba-set_rgba_example :
    (j : Image) × (e : List ℕ) × (set_rgba square 1 0 1 2 3 4 ≡ returns j)
    × IsValid j e
    × (get_rgba j 1 0 ≡ returns (1, 2, 3, 4))
    × ((x' y' : ℕ)
        → x' < 2
        → y' < 2
        → (◌≢◌ {A = ℕ} 1 x') ⊎ (◌≢◌ {A = ℕ} 0 y')
        → get_rgba j x' y' ≡ get_rgba square x' y')
get_rgba-set_rgba_example =
    get_rgba-set_rgba square (replicate 16 0) 1 0 1 2 3 4 square-IsValid refl (omega arith)
      (omega arith)

accessors_guarded_example : (set_rgb blank_fields 0 0 1 2 3 ≡ throws Error.no_data_loaded)
accessors_guarded_example = ((accessors_guarded blank_fields 0 0 1 2 3 4).0 refl).2

load_blank_outcomes_example :
    let r = load_blank zeros square 2 2 5 in
    ((r.1 ≡ returns tt) × Accepted 2 2 5 × ((d : List ℕ) × (r.0.pixels ≡ some d)))
    ⊎ ((r ≡ (square, throws Error.invalid_channel_count)) × ((◌≡◌ {A = ℕ} 5 0) ⊎ (4 < 5)))
    ⊎ ((r ≡ (square, throws Error.zero_width)) × (◌≡◌ {A = ℕ} 2 0))
    ⊎ ((r ≡ (square, throws Error.zero_height)) × (◌≡◌ {A = ℕ} 2 0))
    ⊎ ((r ≡ (blank_fields, throws Error.could_not_load))
        × Accepted 2 2 5
        × (zeros (blank_size 2 2 5) ≡ none))
load_blank_outcomes_example = load_blank_outcomes zeros square 2 2 5

load_blank-IsValid_example : (load_blank zeros square 3 5 3).0 ≡ blank_image 3 5 3
load_blank-IsValid_example =
    ap (λ r. r.0) ((load_blank-IsValid zeros square 3 5 3 (omega arith) (omega arith) refl).0)

-- An allocator that can give blocks of no bytes only.
abbrev empty_only : ℕ → Option (List ℕ)
empty_only zero = some []
empty_only (suc n) = none

empty_only-IsCalloc : IsCalloc empty_only
empty_only-IsCalloc zero = inr refl
empty_only-IsCalloc (suc n) = inl refl

load_blank_overflow_example :
    (x : ℕ) × (y : ℕ) × (x < 65536)
    × (y < 65536)
    × (get_rgba (load_blank empty_only blank_fields 65536 65536 1).0 x y
        ≡ throws Error.undefined_access)
unfolding load_blank
load_blank_overflow_example =
    load_blank_overflow empty_only blank_fields 65536 65536 1 empty_only-IsCalloc (omega arith)
      (omega arith) refl
