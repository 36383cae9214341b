-- ===== src/Print.antt =====
-- RosaServer/api.cpp and RosaServer/crypto.cpp: numbers and objects as texts, which `sprintf` and the
-- output streams write. A `float` that is printed by `%f` is its sign, its whole part and its millionths,
-- rounded already.
pub mod Digits
pub mod Hex
pub mod Names
pub mod Fits
mod Tests
use rosa_server.Base.{
  ℕ, zero, suc, ◌+◌, ◌-◌, ◌*◌, ◌/◌, ◌%◌, ◌^◌, Bool, true, false, List, [], ◌∷◌, ◌++◌, map, length,
  replicate, Text, codes, ltb, if◌then◌else◌,
}

-- The digits of a number, the highest first; each round of fuel gives one.
unfoldable pub digits : ℕ → ℕ → ℕ → List ℕ
digits base zero n = []
digits base (suc fuel) n =
    let rest = digits base fuel (n / base) in if ltb n base then n ∷ [] else rest ++ n % base ∷ []

-- '0' to '9', then 'a' to 'f'.
abbrev pub digit_char : ℕ → ℕ
digit_char d = if ltb d 10 then 48 + d else 87 + d

unfoldable pub decimal : ℕ → Text
decimal n = map digit_char (digits 10 40 n)

unfoldable pub hex : ℕ → Text
hex n = map digit_char (digits 16 16 n)

-- `std::setw(width)` with `std::setfill('0')`
abbrev pub padded : ℕ → Text → Text
padded width text = replicate (width - length text) 48 ++ text

-- An `int8_t` is written as the character that it is.
unfoldable pub to_hex_byte : ℕ → Text
to_hex_byte value = padded 2 (value % 256 ∷ [])

unfoldable pub to_hex_short : ℕ → Text
to_hex_short value = padded 4 (hex (value % 2 ^ 16))

unfoldable pub to_hex_int : ℕ → Text
to_hex_int value = padded 8 (hex (value % 2 ^ 32))

unfoldable pub to_hex_long : ℕ → Text
to_hex_long value = padded 16 (hex (value % 2 ^ 64))

-- `toHexFloat` and `toHexDouble` print the bits of the number.
unfoldable pub to_hex_float : ℕ → Text
to_hex_float bits = padded 8 (hex (bits % 2 ^ 32))

unfoldable pub to_hex_double : ℕ → Text
to_hex_double bits = padded 16 (hex (bits % 2 ^ 64))

-- `int(ch)`, as the pattern of 32 bits that is printed.
abbrev pub char_pattern : ℕ → ℕ
char_pattern c = if ltb c 128 then c else c + 4294967040

unfoldable pub to_hex_string : Text → Text
to_hex_string [] = []
to_hex_string (c ∷ cs) = hex (char_pattern c) ++ to_hex_string cs

-- The digest of RosaServer/crypto.cpp, of the bytes of a hash.
unfoldable pub digest : List ℕ → Text
digest [] = []
digest (b ∷ bs) = padded 2 (hex b) ++ digest bs

-- `md5` and `sha256`: the bytes that OpenSSL computes are a parameter; the first 16 or 32 are printed.
abbrev pub hash_bytes : ℕ → List ℕ → List ℕ
hash_bytes zero bytes = []
hash_bytes (suc n) [] = []
hash_bytes (suc n) (b ∷ bytes) = b ∷ hash_bytes n bytes

unfoldable pub md5 : (Text → List ℕ) → Text → Text
md5 hash input = digest (hash_bytes 16 (hash input))

unfoldable pub sha256 : (Text → List ℕ) → Text → Text
sha256 hash input = digest (hash_bytes 32 (hash input))

unfoldable pub address_from_integer : ℕ → Text
address_from_integer address =
    decimal (address / 16777216 % 256)
    ++ (46 ∷ decimal (address / 65536 % 256)
        ++ (46 ∷ decimal (address / 256 % 256) ++ 46 ∷ decimal (address % 256)))

-- `sprintf(buf, "Name(%i)", getIndex())`
abbrev pub named : Text → ℕ → Text
named name index = name ++ (40 ∷ decimal index ++ 41 ∷ [])

-- A number that is printed with six decimals.
pub record Fixed : Type 0 where
  pub negative : Bool
  pub whole : ℕ
  pub millionths : ℕ

unfoldable pub print_fixed : Fixed → Text
print_fixed f =
    (if f.negative then 45 ∷ [] else [])
    ++ (decimal f.whole ++ 46 ∷ padded 6 (decimal (f.millionths % 1000000)))

abbrev pub comma_separated : List Fixed → Text
comma_separated [] = []
comma_separated (f ∷ []) = print_fixed f
comma_separated (f ∷ g ∷ fs) = print_fixed f ++ (44 ∷ 32 ∷ comma_separated (g ∷ fs))

unfoldable pub print_vector : Fixed → Fixed → Fixed → Text
print_vector x y z = codes "Vector(" ++ (comma_separated (x ∷ y ∷ z ∷ []) ++ 41 ∷ [])
