-- ===== src/Print/Tests.antt =====
-- RosaServer/api.cpp and RosaServer/crypto.cpp: some numbers as texts, and the theorems at them.
use rosa_server.Base.{
  ℕ, zero, suc, ◌+◌, ◌≤◌, ◌<◌, ◌≡◌, refl, List, [], ◌∷◌, length, arith, codes, true, false,
}
use rosa_server.Print.{
  digits, decimal, hex, to_hex_byte, to_hex_short, to_hex_string, to_hex_int, to_hex_long,
  to_hex_float, to_hex_double, hash_bytes, md5, sha256, address_from_integer, Fixed, print_fixed,
  print_vector,
}
use rosa_server.Print.Digits.{AllBelow}
use rosa_server.Print.Hex.{read_hex, read_bytes, to_hex_read, digests_read}
use rosa_server.Print.Fits.{print_vector_overflows}

short_printed : to_hex_short 2748 ≡ codes "0abc"
unfolding to_hex_short hex digits
short_printed = refl

-- A byte is printed as the character that it is, not in hexadecimal digits.
byte_printed_as_character : to_hex_byte 65 ≡ codes "0A"
unfolding to_hex_byte
byte_printed_as_character = refl

-- The bytes of a text are not padded, so two texts can have the same digits.
string_digits_ambiguous : to_hex_string (1 ∷ 35 ∷ []) ≡ to_hex_string (18 ∷ 3 ∷ [])
unfolding to_hex_string hex digits
string_digits_ambiguous = refl

-- A byte from 128 on is extended by its sign.
string_digits_extended : to_hex_string (200 ∷ []) ≡ codes "ffffffc8"
unfolding to_hex_string hex digits
string_digits_extended = refl

address_printed : address_from_integer 2130706433 ≡ codes "127.0.0.1"
unfolding address_from_integer decimal digits
address_printed = refl

abbrev half : Fixed
half = record { negative = true; whole = 0; millionths = 500000 }

vector_printed : print_vector half half half ≡ codes "Vector(-0.500000, -0.500000, -0.500000)"
unfolding print_vector print_fixed decimal digits
vector_printed = refl

abbrev huge : Fixed
huge = record { negative = false; whole = 20000000000; millionths = 0 }

to_hex_read_example :
    ((read_hex (to_hex_short 70000) ≡ 4464) × (length (to_hex_short 70000) ≡ 4))
    × ((read_hex (to_hex_int 70000) ≡ 70000) × (length (to_hex_int 70000) ≡ 8))
    × ((read_hex (to_hex_long 70000) ≡ 70000) × (length (to_hex_long 70000) ≡ 16))
    × ((read_hex (to_hex_float 70000) ≡ 70000) × (length (to_hex_float 70000) ≡ 8))
    × ((read_hex (to_hex_double 70000) ≡ 70000) × (length (to_hex_double 70000) ≡ 16))
to_hex_read_example = to_hex_read 70000

abbrev counted : ℕ → List ℕ
counted zero = []
counted (suc n) = n ∷ counted n

counted-AllBelow : (n : ℕ) → n ≤ 256 → AllBelow 256 (counted n)
counted-AllBelow zero l = tt
counted-AllBelow (suc n) l = (omega (arith, l), counted-AllBelow n (omega (arith, l)))

digests_read_example :
    ((read_bytes (md5 (λ t. counted 16) (codes "a")) ≡ hash_bytes 16 (counted 16))
      × (length (md5 (λ t. counted 16) (codes "a")) ≡ 32))
    × ((read_bytes (sha256 (λ t. counted 32) (codes "a")) ≡ hash_bytes 32 (counted 32))
        × (length (sha256 (λ t. counted 32) (codes "a")) ≡ 64))
digests_read_example =
    digests_read (λ t. counted 16) (λ t. counted 32) (codes "a") (omega arith)
      (counted-AllBelow 16 (omega arith)) (omega arith) (counted-AllBelow 32 (omega arith))

print_vector_overflows_example : 64 < length (print_vector huge huge huge) + 1
print_vector_overflows_example =
    print_vector_overflows huge huge huge (omega arith) (omega arith) (omega arith)
