-- ===== src/Image.antt =====
-- RosaServer/image.cpp and image.h: the class `Image`. A method that changes the object returns
-- the new one. The fields of type `int` are kept as their 32-bit patterns. The heap's `calloc` and
-- the functions of stb_image are parameters: each answers with the block it allocates, or none.
pub mod Access
pub mod Blank
mod Tests
use rosa_server.Base.{
  ℕ, ◌+◌, ◌*◌, ◌%◌, ◌^◌, Bool, true, false, ◌||◌, Option, none, some, List, arith, ltb, leb, ◌==◌,
  if◌then◌else◌, Call, returns, throws, Error, ◌>>=◌, ◌>>◌, require, get_elem?, set, length,
}

pub record Image : Type 0 where
  pub pixels : Option (List ℕ)
  pub width : ℕ
  pub height : ℕ
  pub num_channels : ℕ

-- Arithmetic on `unsigned int`.
abbrev pub u32 : ℕ → ℕ
u32 n = n % 2 ^ 32

abbrev pub blank_fields : Image
blank_fields = record { pixels = none; width = 0; height = 0; num_channels = 0 }

unfoldable pub free : Image → Image
free i = elim i.pixels [ none ↦ i | some _ ↦ blank_fields ]

-- What `stbi_load` gives back.
pub record Loaded : Type 0 where
  pub block : Option (List ℕ)
  pub loaded_width : ℕ
  pub loaded_height : ℕ
  pub loaded_channels : ℕ

loaded_image : Loaded → Option (List ℕ) → Image × Call (Unit {0})
loaded_image l none = (blank_fields, throws Error.could_not_load)
loaded_image l (some d) =
    if l.loaded_channels == 0 then (blank_fields, throws Error.could_not_load) else (
      record {
        pixels = some d;
        width = l.loaded_width;
        height = l.loaded_height;
        num_channels = l.loaded_channels;
      },
      returns tt,
    )

unfoldable pub load_from_file : Image → Loaded → Image × Call (Unit {0})
unfolding loaded_image
load_from_file i l = loaded_image l l.block

allocated : ℕ → ℕ → ℕ → Option (List ℕ) → Image × Call (Unit {0})
allocated w h c none = (blank_fields, throws Error.could_not_load)
allocated w h c (some d) =
    (record { pixels = some d; width = w; height = h; num_channels = c }, returns tt)

-- The product in the call of `calloc` is computed in `unsigned int`.
abbrev pub blank_size : ℕ → ℕ → ℕ → ℕ
blank_size w h c = u32 (u32 (w * h) * c)

-- The fields that `free()` resets are all set again behind it, on either outcome.
unfoldable pub load_blank : (ℕ → Option (List ℕ)) → Image → ℕ → ℕ → ℕ → Image × Call (Unit {0})
unfolding allocated
load_blank calloc i w h c =
    if ltb c 1 || ltb 4 c
    then (i, throws Error.invalid_channel_count)
    else if w == 0
    then (i, throws Error.zero_width)
    else if h == 0
    then (i, throws Error.zero_height)
    else allocated w h c (calloc (blank_size w h c))

-- `data[k]` as a value, and as a place to write.
abbrev pub read : List ℕ → ℕ → Call ℕ
read d k = elim (get_elem? d k) [ none ↦ throws Error.undefined_access | some v ↦ returns v ]

abbrev pub write : List ℕ → ℕ → ℕ → Call (List ℕ)
write d k v = if ltb k (length d) then returns (set d k v) else throws Error.undefined_access

-- `((y * width) + x) * numChannels`, in `unsigned int`.
unfoldable pub pixel_index : Image → ℕ → ℕ → ℕ
pixel_index i x y = u32 (u32 (u32 (y * i.width) + x) * i.num_channels)

-- The guards that the four accessors share: the block, or the error thrown.
unfoldable pub checked : Image → ℕ → ℕ → Call (List ℕ)
checked i x y = elim i.pixels [
  | none ↦ throws Error.no_data_loaded
  | some d ↦
      if leb i.width x || leb i.height y then throws Error.coordinates_out_of_range else returns d
]

-- `numChannels > n ? data[k] : 255`
abbrev pub channel_or_opaque : Image → List ℕ → ℕ → ℕ → Call ℕ
channel_or_opaque i d n k = if ltb n i.num_channels then read d k else returns 255

unfoldable pub get_rgb : Image → ℕ → ℕ → Call (ℕ × ℕ × ℕ)
get_rgb i x y = do
  d ← checked i x y
  let k = pixel_index i x y
  r ← read d k
  g ← channel_or_opaque i d 1 (k + 1)
  b ← channel_or_opaque i d 2 (k + 2)
  returns (r, g, b)

unfoldable pub get_rgba : Image → ℕ → ℕ → Call (ℕ × ℕ × ℕ × ℕ)
get_rgba i x y = do
  d ← checked i x y
  let k = pixel_index i x y
  r ← read d k
  g ← channel_or_opaque i d 1 (k + 1)
  b ← channel_or_opaque i d 2 (k + 2)
  a ← channel_or_opaque i d 3 (k + 3)
  returns (r, g, b, a)

unfoldable pub set_rgb : Image → ℕ → ℕ → ℕ → ℕ → ℕ → Call Image
set_rgb i x y r g b = do
  d ← checked i x y
  require (leb 3 i.num_channels) Error.too_few_channels
  let k = pixel_index i x y
  d₁ ← write d k r
  d₂ ← write d₁ (k + 1) g
  d₃ ← write d₂ (k + 2) b
  d₄ ← if ltb 3 i.num_channels then write d₃ (k + 3) 255 else returns d₃
  returns (record i { pixels = some d₄ })

unfoldable pub set_rgba : Image → ℕ → ℕ → ℕ → ℕ → ℕ → ℕ → Call Image
set_rgba i x y r g b a = do
  d ← checked i x y
  require (leb 4 i.num_channels) Error.too_few_channels
  let k = pixel_index i x y
  d₁ ← write d k r
  d₂ ← write d₁ (k + 1) g
  d₃ ← write d₂ (k + 2) b
  d₄ ← write d₃ (k + 3) a
  returns (record i { pixels = some d₄ })

-- `getPNG`: the encoder of stb_image_write is `encode bytes stride width height channels`.
unfoldable pub get_png : (List ℕ → ℕ → ℕ → ℕ → ℕ → Option (List ℕ)) → Image → Call (List ℕ)
get_png encode i = elim i.pixels [
  | none ↦ throws Error.no_data_loaded
  | some d ↦ elim (encode d (u32 (i.width * i.num_channels)) i.width i.height i.num_channels) [
    | none ↦ throws Error.could_not_save
    | some png ↦ returns png
  ]
]
