-- ===== src/Print/Hex.antt =====
-- RosaServer/api.cpp and RosaServer/crypto.cpp: what hexadecimal texts are read as.
use rosa_server.Base.{
  ℕ, zero, suc, ◌+◌, ◌-◌, ◌*◌, ◌%◌, ◌^◌, ◌≤◌, ◌<◌, ◌≡◌, refl, sym, ap, subst, ◌∙◌, List, [], ◌∷◌,
  ◌++◌, map, length, length-append, length-map, length-replicate, replicate, ltb, if◌then◌else◌,
  arith, Text,
}
use native.Mathlib.Nat.{mod-lt, pow-le-pow_right}
use rosa_server.Print.{
  digits, digit_char, hex, padded, to_hex_short, to_hex_int, to_hex_long, to_hex_float,
  to_hex_double, digest, hash_bytes, md5, sha256,
}
use rosa_server.Print.Digits.{
  value, value-zeros, value-digits, length-digits, AllBelow, AllBelow-digits,
}

abbrev pub digit_value : ℕ → ℕ
digit_value c = if ltb c 58 then c - 48 else c - 87

digit_value-digit_char : (d : ℕ) → d < 16 → digit_value (digit_char d) ≡ d
digit_value-digit_char d l = ground arith

pub digits_read :
    (base : ℕ) (ds : List ℕ)
    → base ≤ 16
    → AllBelow base ds
    → map digit_value (map digit_char ds) ≡ ds
digits_read base [] b a = refl
digits_read base (d ∷ ds) b (l, a) =
    ap (λ x. x ∷ map digit_value (map digit_char ds))
      (digit_value-digit_char d (omega (arith, b, l)))
    ∙ ap (λ xs. d ∷ xs) (digits_read base ds b a)

zeros_read :
    (k : ℕ) (text : Text)
    → map digit_value (replicate k 48 ++ text) ≡ replicate k 0 ++ map digit_value text
zeros_read zero text = refl
zeros_read (suc k) text = ap (λ xs. 0 ∷ xs) (zeros_read k text)

-- The number that a text of hexadecimal digits stands for.
abbrev pub read_hex : Text → ℕ
read_hex text = value 16 (map digit_value text) 0

less_trans : (a b c : ℕ) → a < b → b ≤ c → a < c
less_trans a b c l m = omega (arith, l, m)

hex_read : (n : ℕ) → n < 16 ^ 16 → read_hex (hex n) ≡ n
unfolding hex
hex_read n l =
    ap (λ ds. value 16 ds 0)
      (digits_read 16 (digits 16 16 n) (omega arith) (AllBelow-digits 16 16 n (omega arith)))
    ∙ value-digits 16 16 n (omega arith) (omega arith) l

length-hex : (n w : ℕ) → 0 < w → n < 16 ^ w → length (hex n) ≤ w
unfolding hex
length-hex n w p l =
    subst (λ k. k ≤ w) (sym (length-map digit_char (digits 16 16 n)))
      (length-digits 16 16 n w (omega arith) p l)

pub length-padded : (w : ℕ) (text : Text) → length text ≤ w → length (padded w text) ≡ w
length-padded w text l =
    length-append (replicate (w - length text) 48) text
    ∙ omega (arith, l, length-replicate {A = ℕ} (w - length text) 48)

-- A number of at most w digits that is padded to w.
pub padded-hex_read :
    (w n : ℕ)
    → 0 < w
    → w ≤ 16
    → n < 16 ^ w
    → (read_hex (padded w (hex n)) ≡ n) × (length (padded w (hex n)) ≡ w)
padded-hex_read w n p k l = (
  ap (λ ds. value 16 ds 0) (zeros_read (w - length (hex n)) (hex n))
      ∙ value-zeros 16 (w - length (hex n)) (map digit_value (hex n))
      ∙ hex_read n (less_trans n (16 ^ w) (16 ^ 16) l (pow-le-pow_right (omega arith) k)),
  length-padded w (hex n) (length-hex n w p l),
)

-- `toHexShort`, `toHexInt`, `toHexLong`, `toHexFloat` and `toHexDouble` print 4, 8, 16, 8 and 16 digits,
-- and these are read as the bits of the value.
pub to_hex_read :
    (value : ℕ)
    → ((read_hex (to_hex_short value) ≡ value % 2 ^ 16) × (length (to_hex_short value) ≡ 4))
      × ((read_hex (to_hex_int value) ≡ value % 2 ^ 32) × (length (to_hex_int value) ≡ 8))
      × ((read_hex (to_hex_long value) ≡ value % 2 ^ 64) × (length (to_hex_long value) ≡ 16))
      × ((read_hex (to_hex_float value) ≡ value % 2 ^ 32) × (length (to_hex_float value) ≡ 8))
      × ((read_hex (to_hex_double value) ≡ value % 2 ^ 64) × (length (to_hex_double value) ≡ 16))
unfolding to_hex_short to_hex_int to_hex_long to_hex_float to_hex_double
to_hex_read value =
    let short =
      padded-hex_read 4 (value % 2 ^ 16) (omega arith) (omega arith) (mod-lt value (omega arith)) in
    let int =
      padded-hex_read 8 (value % 2 ^ 32) (omega arith) (omega arith) (mod-lt value (omega arith)) in
    let long =
      padded-hex_read 16 (value % 2 ^ 64) (omega arith) (omega arith)
        (mod-lt value (omega arith)) in
    (short, int, long, int, long)

-- The bytes that pairs of hexadecimal digits stand for.
abbrev pub read_bytes : Text → List ℕ
read_bytes [] = []
read_bytes (c ∷ []) = []
read_bytes (c ∷ d ∷ text) = (digit_value c * 16 + digit_value d) ∷ read_bytes text

pair_value : (a b : ℕ) → a * 16 + b ≡ (0 * 16 + a) * 16 + b
pair_value a b = omega arith

read_pair :
    (pair text : Text)
    → length pair ≡ 2
    → read_bytes (pair ++ text) ≡ read_hex pair ∷ read_bytes text
unfolding value
read_pair [] text e = absurd (omega (arith, e))
read_pair (c ∷ []) text e = absurd (omega (arith, e))
read_pair (c ∷ d ∷ []) text e =
    ap (λ x. x ∷ read_bytes text) (pair_value (digit_value c) (digit_value d))
read_pair (c ∷ d ∷ f ∷ pair) text e = absurd (omega (arith, e))

digest_read :
    (bytes : List ℕ)
    → AllBelow 256 bytes
    → (read_bytes (digest bytes) ≡ bytes) × (length (digest bytes) ≡ 2 * length bytes)
unfolding digest
digest_read [] a = (refl, refl)
digest_read (b ∷ bytes) (l, a) =
    let (r, n) = padded-hex_read 2 b (omega arith) (omega arith) l in
    let (rs, ns) = digest_read bytes a in
    (
      read_pair (padded 2 (hex b)) (digest bytes) n
          ∙ ap (λ x. x ∷ read_bytes (digest bytes)) r
          ∙ ap (λ xs. b ∷ xs) rs,
      length-append (padded 2 (hex b)) (digest bytes) ∙ omega (arith, n, ns),
    )

AllBelow-hash_bytes :
    (n : ℕ) (bytes : List ℕ) → AllBelow 256 bytes → AllBelow 256 (hash_bytes n bytes)
AllBelow-hash_bytes zero bytes a = tt
AllBelow-hash_bytes (suc n) [] a = tt
AllBelow-hash_bytes (suc n) (b ∷ bytes) (l, a) = (l, AllBelow-hash_bytes n bytes a)

length-hash_bytes : (n : ℕ) (bytes : List ℕ) → n ≤ length bytes → length (hash_bytes n bytes) ≡ n
length-hash_bytes zero bytes l = refl
length-hash_bytes (suc n) [] l = absurd (omega (arith, l))
length-hash_bytes (suc n) (b ∷ bytes) l = ap suc (length-hash_bytes n bytes (omega (arith, l)))

-- If the hashes are bytes, and as many as MD5 and SHA-256 have, then `md5` gives 32 digits and `sha256`
-- 64, and these are read as the bytes of the hash.
pub digests_read :
    (hash_md5 hash_sha256 : Text → List ℕ) (input : Text)
    → 16 ≤ length (hash_md5 input)
    → AllBelow 256 (hash_md5 input)
    → 32 ≤ length (hash_sha256 input)
    → AllBelow 256 (hash_sha256 input)
    → ((read_bytes (md5 hash_md5 input) ≡ hash_bytes 16 (hash_md5 input))
        × (length (md5 hash_md5 input) ≡ 32))
      × ((read_bytes (sha256 hash_sha256 input) ≡ hash_bytes 32 (hash_sha256 input))
          × (length (sha256 hash_sha256 input) ≡ 64))
unfolding md5 sha256
digests_read hash_md5 hash_sha256 input l a m b =
    let (r, n) =
      digest_read (hash_bytes 16 (hash_md5 input)) (AllBelow-hash_bytes 16 (hash_md5 input) a) in
    let (s, k) =
      digest_read (hash_bytes 32 (hash_sha256 input))
        (AllBelow-hash_bytes 32 (hash_sha256 input) b) in
    (
      (r, n ∙ ap (λ x. 2 * x) (length-hash_bytes 16 (hash_md5 input) l)),
      (s, k ∙ ap (λ x. 2 * x) (length-hash_bytes 32 (hash_sha256 input) m)),
    )
