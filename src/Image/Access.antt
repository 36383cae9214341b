-- ===== src/Image/Access.antt =====
-- RosaServer/image.cpp: reading and writing pixels of an image whose block covers its dimensions.
use rosa_server.Base.{
  ℕ, ◌+◌, ◌*◌, ◌^◌, ◌≤◌, ◌<◌, ◌≡◌, refl, ◌≢◌, ap, sym, ◌∙◌, ◌⊎◌, inl, inr, none, some, List, arith,
  ltb, returns, throws, Error, get_or, set, length, length-set, dec_lt, get_elem?-eq-get_or,
  get_or-set_self, get_or-set_ne, if◌then◌else◌,
}
use rosa_server.Image.{
  Image, u32, read, write, pixel_index, checked, get_rgb, get_rgba, set_rgb, set_rgba,
}

-- The block holds exactly the bytes that the dimensions name, and their product does not wrap.
pub record IsValid (i : Image) (d : List ℕ) : Type 0 where
  pub held : i.pixels ≡ some d
  pub sized : length d ≡ i.width * i.height * i.num_channels
  pub unwrapped : i.width * i.height * i.num_channels < 2 ^ 32
  pub channels_pos : 1 ≤ i.num_channels

position-lt : (x y w h : ℕ) → x < w → y < h → y * w + x < w * h
position-lt x y w h p q = grind arith

scaled : (p n c : ℕ) → p < n → p * c + c ≤ n * c
scaled p n c h = grind arith

le_scaled : (p c : ℕ) → 1 ≤ c → p ≤ p * c
le_scaled p c h = grind arith

no_wrap :
    (p q x c n : ℕ)
    → p + x ≤ (p + x) * c
    → (p + x) * c + c ≤ n
    → n < 2 ^ 32
    → u32 (u32 (u32 p + x) * c) ≡ (p + x) * c
no_wrap p q x c n a b h =
    let e : u32 (u32 p + x) ≡ p + x = omega arith in ap (λ k. u32 (k * c)) e ∙ omega arith

-- The pixel's bytes lie inside of the block.
pub index_room :
    (i : Image) (d : List ℕ) (x y : ℕ)
    → IsValid i d
    → x < i.width
    → y < i.height
    → (pixel_index i x y ≡ (y * i.width + x) * i.num_channels)
      × (pixel_index i x y + i.num_channels ≤ length d)
unfolding pixel_index
index_room i d x y v p q =
    let n = i.width * i.height * i.num_channels in
    let below = position-lt x y i.width i.height p q in
    let room = scaled (y * i.width + x) (i.width * i.height) i.num_channels below in
    let wide = le_scaled (y * i.width + x) i.num_channels v.channels_pos in
    let exact = no_wrap (y * i.width) 0 x i.num_channels n wide room v.unwrapped in
    (exact, omega (arith, exact, room, v.sized))

read-some : (d : List ℕ) (k : ℕ) → k < length d → read d k ≡ returns (get_or d k 0)
read-some d k h = ground (arith, get_elem?-eq-get_or d k 0)

write-returns : (d : List ℕ) (k v : ℕ) → k < length d → write d k v ≡ returns (set d k v)
write-returns d k v h = ground arith

-- The guards pass exactly on the pixels of the image.
checked-returns :
    (i : Image) (d : List ℕ) (x y : ℕ)
    → IsValid i d
    → x < i.width
    → y < i.height
    → checked i x y ≡ returns d
unfolding checked
checked-returns i d x y v p q = ground arith

abbrev OutOfRange : Image → ℕ → ℕ → Type 0
OutOfRange i x y = (i.width ≤ x) ⊎ (i.height ≤ y)

-- Whatever the values to write: without data all four accessors throw that none is loaded; with
-- data, a pixel outside of the dimensions makes all four throw that it is out of range; inside of
-- them, `setRGB` refuses an image of less than three channels and `setRGBA` one of less than four.
pub accessors_guarded :
    (i : Image) (x y r g b a : ℕ)
    → (i.pixels ≡ none
        → (get_rgb i x y ≡ throws Error.no_data_loaded)
          × (get_rgba i x y ≡ throws Error.no_data_loaded)
          × (set_rgb i x y r g b ≡ throws Error.no_data_loaded)
          × (set_rgba i x y r g b a ≡ throws Error.no_data_loaded))
      × ((d : List ℕ)
          → i.pixels ≡ some d
          → (OutOfRange i x y
              → (get_rgb i x y ≡ throws Error.coordinates_out_of_range)
                × (get_rgba i x y ≡ throws Error.coordinates_out_of_range)
                × (set_rgb i x y r g b ≡ throws Error.coordinates_out_of_range)
                × (set_rgba i x y r g b a ≡ throws Error.coordinates_out_of_range))
            × (x < i.width
                → y < i.height
                → (i.num_channels < 3 → set_rgb i x y r g b ≡ throws Error.too_few_channels)
                  × (i.num_channels < 4 → set_rgba i x y r g b a ≡ throws Error.too_few_channels)))
unfolding get_rgb get_rgba set_rgb set_rgba checked
accessors_guarded i x y r g b a =
    (λ e. ground arith, λ d e. (λ h. ground arith, λ p q. (λ h. ground arith, λ h. ground arith)))

-- The accessors of three channels agree with those of four: `getRGB` returns the first three of
-- the values that `getRGBA` returns, and with four channels `setRGB` does what `setRGBA` does with
-- an alpha of 255.
pub rgb-agrees_rgba :
    (i : Image) (x y r g b a : ℕ)
    → (get_rgba i x y ≡ returns (r, g, b, a) → get_rgb i x y ≡ returns (r, g, b))
      × (i.num_channels ≡ 4 → set_rgb i x y r g b ≡ set_rgba i x y r g b 255)
unfolding get_rgb get_rgba set_rgb set_rgba
rgb-agrees_rgba i x y r g b a = (λ e. ground arith, λ e. ground arith)

-- The bytes after a write of four channels from k on.
abbrev pub painted : List ℕ → ℕ → ℕ → ℕ → ℕ → ℕ → List ℕ
painted d k r g b a = set (set (set (set d k r) (k + 1) g) (k + 2) b) (k + 3) a

length-painted : (d : List ℕ) (k r g b a : ℕ) → length (painted d k r g b a) ≡ length d
length-painted d k r g b a =
    length-set (set (set (set d k r) (k + 1) g) (k + 2) b) (k + 3) a
    ∙ length-set (set (set d k r) (k + 1) g) (k + 2) b
    ∙ length-set (set d k r) (k + 1) g
    ∙ length-set d k r

-- One byte of the pixel of channel number n at k, or the opaque default.
abbrev pub channel : Image → List ℕ → ℕ → ℕ → ℕ
channel i d k n = if ltb n i.num_channels then get_or d (k + n) 0 else 255

pub set_rgba-returns :
    (i : Image) (d : List ℕ) (x y r g b a : ℕ)
    → IsValid i d
    → 4 ≤ i.num_channels
    → x < i.width
    → y < i.height
    → set_rgba i x y r g b a
      ≡ returns (record i { pixels = some (painted d (pixel_index i x y) r g b a) })
unfolding set_rgba
set_rgba-returns i d x y r g b a v c p q =
    let k = pixel_index i x y in
    let room = (index_room i d x y v p q).1 in
    let d₁ = set d k r in
    let d₂ = set d₁ (k + 1) g in
    rw (checked-returns i d x y v p q)
      (ground (arith, room, length-set d k r, length-set d₁ (k + 1) g, length-set d₂ (k + 2) b))

pub get_rgba-returns :
    (i : Image) (d : List ℕ) (x y : ℕ)
    → IsValid i d
    → x < i.width
    → y < i.height
    → let k = pixel_index i x y in
      get_rgba i x y ≡ returns (get_or d k 0, channel i d k 1, channel i d k 2, channel i d k 3)
unfolding get_rgba
get_rgba-returns i d x y v p q =
    let k = pixel_index i x y in
    let room = (index_room i d x y v p q).1 in
    rw (checked-returns i d x y v p q) (
      ground (
        arith,
        room,
        get_elem?-eq-get_or d k 0,
        get_elem?-eq-get_or d (k + 1) 0,
        get_elem?-eq-get_or d (k + 2) 0,
        get_elem?-eq-get_or d (k + 3) 0,
      ))

get_or-painted_self :
    (d : List ℕ) (k r g b a : ℕ)
    → k + 4 ≤ length d
    → let e = painted d k r g b a in
      (get_or e k 0 ≡ r)
      × (get_or e (k + 1) 0 ≡ g)
      × (get_or e (k + 2) 0 ≡ b)
      × (get_or e (k + 3) 0 ≡ a)
get_or-painted_self d k r g b a h =
    let d₁ = set d k r in
    let d₂ = set d₁ (k + 1) g in
    let d₃ = set d₂ (k + 2) b in
    let l₁ = length-set d k r in
    let l₂ = length-set d₁ (k + 1) g in
    let l₃ = length-set d₂ (k + 2) b in
    (
      get_or-set_ne d₃ (k + 3) k a 0 (omega arith)
          ∙ get_or-set_ne d₂ (k + 2) k b 0 (omega arith)
          ∙ get_or-set_ne d₁ (k + 1) k g 0 (omega arith)
          ∙ get_or-set_self d k r 0 (omega arith),
      get_or-set_ne d₃ (k + 3) (k + 1) a 0 (omega arith)
          ∙ get_or-set_ne d₂ (k + 2) (k + 1) b 0 (omega arith)
          ∙ get_or-set_self d₁ (k + 1) g 0 (omega arith),
      get_or-set_ne d₃ (k + 3) (k + 2) a 0 (omega arith)
          ∙ get_or-set_self d₂ (k + 2) b 0 (omega arith),
      get_or-set_self d₃ (k + 3) a 0 (omega arith),
    )

get_or-painted_apart :
    (d : List ℕ) (k r g b a j : ℕ)
    → (j < k) ⊎ (k + 4 ≤ j)
    → get_or (painted d k r g b a) j 0 ≡ get_or d j 0
get_or-painted_apart d k r g b a j h =
    let d₁ = set d k r in
    let d₂ = set d₁ (k + 1) g in
    get_or-set_ne (set d₂ (k + 2) b) (k + 3) j a 0 (omega arith)
    ∙ get_or-set_ne d₂ (k + 2) j b 0 (omega arith)
    ∙ get_or-set_ne d₁ (k + 1) j g 0 (omega arith)
    ∙ get_or-set_ne d k j r 0 (omega arith)

row_mono : (x y y' w : ℕ) → x < w → y < y' → y * w + x < y' * w
row_mono x y y' w p h = grind arith

position-injective :
    (x y x' y' w : ℕ) → x < w → x' < w → y * w + x ≡ y' * w + x' → (x ≡ x') × (y ≡ y')
position-injective x y x' y' w p q e = elim (dec_lt y y') [
  | yes h ↦ absurd (omega (arith, row_mono x y y' w p h))
  | no h ↦ elim (dec_lt y' y) [
    | yes k ↦ absurd (omega (arith, row_mono x' y' y w q k))
    | no k ↦ let same : y ≡ y' = omega arith in (omega (arith, ap (λ (t : ℕ). t * w) same), same)
  ]
]

apart4 : (p q : ℕ) → p ≢ q → (p * 4 + 4 ≤ q * 4) ⊎ (q * 4 + 4 ≤ p * 4)
apart4 p q h = elim (dec_lt p q) [ yes l ↦ inl (omega arith) | no l ↦ inr (omega arith) ]

-- The image after such a write is valid still.
painted-IsValid :
    (i : Image) (d : List ℕ) (k r g b a : ℕ)
    → IsValid i d
    → IsValid (record i { pixels = some (painted d k r g b a) }) (painted d k r g b a)
painted-IsValid i d k r g b a v = record {
  held = refl;
  sized = length-painted d k r g b a ∙ v.sized;
  unwrapped = v.unwrapped;
  channels_pos = v.channels_pos;
}

module _ (i : Image) (d : List ℕ) (x y r g b a : ℕ) (v : IsValid i d) (c : i.num_channels ≡ 4)
    (p : x < i.width) (q : y < i.height) where
  -- Different pixels have their bytes apart.
  index_apart :
      (x' y' : ℕ)
      → x' < i.width
      → y' < i.height
      → (x ≢ x') ⊎ (y ≢ y')
      → let k = pixel_index i x y in let k' = pixel_index i x' y' in (k' + 4 ≤ k) ⊎ (k + 4 ≤ k')
  index_apart x' y' p' q' h =
      let e = (index_room i d x y v p q).0 in
      let e' = (index_room i d x' y' v p' q').0 in
      let ne : y * i.width + x ≢ y' * i.width + x' = λ same.
        let (a, b) = position-injective x y x' y' i.width p p' same in
        elim h [ inl f ↦ f a | inr f ↦ f b ] in
      rw (e, e', c) (elim (apart4 _ _ ne) [ inl l ↦ inr l | inr l ↦ inl l ])

  get_rgba-painted_self :
      get_rgba (record i { pixels = some (painted d (pixel_index i x y) r g b a) }) x y
      ≡ returns (r, g, b, a)
  unfolding pixel_index
  get_rgba-painted_self =
      let k = pixel_index i x y in
      let room = (index_room i d x y v p q).1 in
      get_rgba-returns _ _ x y (painted-IsValid i d k r g b a v) p q
      ∙ ground (arith, get_or-painted_self d k r g b a (omega (arith, room)))

  get_rgba-painted_apart :
      (x' y' : ℕ)
      → x' < i.width
      → y' < i.height
      → (x ≢ x') ⊎ (y ≢ y')
      → get_rgba (record i { pixels = some (painted d (pixel_index i x y) r g b a) }) x' y'
        ≡ get_rgba i x' y'
  unfolding pixel_index
  get_rgba-painted_apart x' y' p' q' h =
      let k = pixel_index i x y in
      let k' = pixel_index i x' y' in
      let far = index_apart x' y' p' q' h in
      get_rgba-returns _ _ x' y' (painted-IsValid i d k r g b a v) p' q'
      ∙ ground (
        arith,
        far,
        c,
        get_or-painted_apart d k r g b a k',
        get_or-painted_apart d k r g b a (k' + 1),
        get_or-painted_apart d k r g b a (k' + 2),
        get_or-painted_apart d k r g b a (k' + 3),
      )
      ∙ sym (get_rgba-returns i d x' y' v p' q')

-- With four channels in a valid image, `setRGBA` succeeds on every pixel of it, keeps the image
-- valid, `getRGBA` returns the four values at that pixel, and what it returned before at every
-- other pixel.
pub get_rgba-set_rgba :
    (i : Image) (d : List ℕ) (x y r g b a : ℕ)
    → IsValid i d
    → i.num_channels ≡ 4
    → x < i.width
    → y < i.height
    → (j : Image) × (e : List ℕ) × (set_rgba i x y r g b a ≡ returns j)
      × IsValid j e
      × (get_rgba j x y ≡ returns (r, g, b, a))
      × ((x' y' : ℕ)
          → x' < i.width
          → y' < i.height
          → (x ≢ x') ⊎ (y ≢ y')
          → get_rgba j x' y' ≡ get_rgba i x' y')
get_rgba-set_rgba i d x y r g b a v c p q =
    let k = pixel_index i x y in
    let e = painted d k r g b a in
    (
      record i { pixels = some e },
      e,
      set_rgba-returns i d x y r g b a v (omega arith) p q,
      painted-IsValid i d k r g b a v,
      get_rgba-painted_self i d x y r g b a v c p q,
      get_rgba-painted_apart i d x y r g b a v c p q,
    )
