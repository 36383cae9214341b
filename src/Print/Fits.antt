-- ===== src/Print/Fits.antt =====
-- RosaServer/api.cpp: whether a text fits into the buffer that `sprintf` writes it to, with its
-- closing NUL.
use rosa_server.Base.{
  ℕ, ◌+◌, ◌%◌, ◌/◌, ◌^◌, ◌≤◌, ◌<◌, ◌≡◌, sym, subst, ◌∙◌, List, [], ◌∷◌, ◌++◌, length, length-append,
  length-map, arith, Text, codes, true, false, Bool, if◌then◌else◌,
}
use native.Mathlib.Nat.{mod-lt}
use rosa_server.Print.{
  digits, digit_char, decimal, named, padded, address_from_integer, Fixed, print_fixed,
  comma_separated, print_vector,
}
use rosa_server.Print.Digits.{length-digits, length-digits_more}
use rosa_server.Print.Hex.{length-padded}
use rosa_server.Print.Names.{
  account_name, player_name, human_name, item_type_name, item_name, vehicle_type_name, vehicle_name,
  rigid_body_name, bond_name, street_name, street_intersection_name, traffic_car_name,
  building_name, event_name,
}

length-decimal : (n k : ℕ) → 0 < k → n < 10 ^ k → length (decimal n) ≤ k
unfolding decimal
length-decimal n k p l =
    subst (λ m. m ≤ k) (sym (length-map digit_char (digits 10 40 n)))
      (length-digits 10 40 n k (omega arith) p l)

length-decimal_more : (n k : ℕ) → k < 40 → 10 ^ k ≤ n → k < length (decimal n)
unfolding decimal
length-decimal_more n k p l =
    subst (λ m. k < m) (sym (length-map digit_char (digits 10 40 n)))
      (length-digits_more 10 40 n k (omega arith) p l)

below_bound : (a b c : ℕ) → a < b → b ≤ c → a < c
below_bound a b c l m = omega (arith, l, m)

length-named : (name : Text) (i : ℕ) → length (named name i) ≡ length name + length (decimal i) + 2
length-named name i =
    length-append name (40 ∷ decimal i ++ 41 ∷ [])
    ∙ omega (arith, length-append (decimal i) (41 ∷ []))

-- The texts of the indices below a bound fit into a buffer.
abbrev pub IsFitting : (ℕ → Text) → ℕ → ℕ → Type 0
IsFitting text bound size = (i : ℕ) → i < bound → length (text i) < size

named-IsFitting :
    (name : Text) (bound k size : ℕ)
    → 0 < k
    → bound ≤ 10 ^ k
    → length name + k + 2 < size
    → IsFitting (named name) bound size
named-IsFitting name bound k size p b s i l =
    subst (λ n. n < size) (sym (length-named name i))
      (omega (arith, s, length-decimal i k p (below_bound i bound (10 ^ k) l b)))

length-address_byte : (n : ℕ) → length (decimal (n % 256)) ≤ 3
length-address_byte n = length-decimal (n % 256) 3 (omega arith) (omega arith)

-- Of every class, the name of an object with an index below the length of its array, or below 2 ^ 31
-- where the engine counts the objects (10 ^ 7 for streets, 2 ^ 16 for events), fits into its buffer; and
-- the address of a connection, whatever its bits, fits into 16 bytes.
pub names_fit :
    IsFitting account_name 32768 32
    × IsFitting player_name 256 16
    × IsFitting human_name 256 16
    × IsFitting item_type_name 46 16
    × IsFitting item_name 1024 16
    × IsFitting vehicle_type_name 17 16
    × IsFitting vehicle_name 512 16
    × IsFitting rigid_body_name 8192 16
    × IsFitting bond_name 16384 16
    × IsFitting street_name 10000000 16
    × IsFitting street_intersection_name 2147483648 32
    × IsFitting traffic_car_name 2147483648 24
    × IsFitting building_name 2147483648 24
    × IsFitting event_name 65536 16
    × ((address : ℕ) → length (address_from_integer address) < 16)
unfolding account_name player_name human_name item_type_name item_name vehicle_type_name
    vehicle_name rigid_body_name bond_name street_name street_intersection_name traffic_car_name
    building_name event_name address_from_integer
names_fit = (
  named-IsFitting (codes "Account") 32768 5 32 (omega arith) (omega arith) (omega arith),
  named-IsFitting (codes "Player") 256 3 16 (omega arith) (omega arith) (omega arith),
  named-IsFitting (codes "Human") 256 3 16 (omega arith) (omega arith) (omega arith),
  named-IsFitting (codes "ItemType") 46 2 16 (omega arith) (omega arith) (omega arith),
  named-IsFitting (codes "Item") 1024 4 16 (omega arith) (omega arith) (omega arith),
  named-IsFitting (codes "VehicleType") 17 2 16 (omega arith) (omega arith) (omega arith),
  named-IsFitting (codes "Vehicle") 512 3 16 (omega arith) (omega arith) (omega arith),
  named-IsFitting (codes "RigidBody") 8192 4 16 (omega arith) (omega arith) (omega arith),
  named-IsFitting (codes "Bond") 16384 5 16 (omega arith) (omega arith) (omega arith),
  named-IsFitting (codes "Street") 10000000 7 16 (omega arith) (omega arith) (omega arith),
  named-IsFitting (codes "StreetIntersection") 2147483648 10 32 (omega arith) (omega arith)
      (omega arith),
  named-IsFitting (codes "TrafficCar") 2147483648 10 24 (omega arith) (omega arith) (omega arith),
  named-IsFitting (codes "Building") 2147483648 10 24 (omega arith) (omega arith) (omega arith),
  named-IsFitting (codes "Event") 65536 5 16 (omega arith) (omega arith) (omega arith),
  λ address.
      let a = decimal (address / 16777216 % 256) in
      let b = decimal (address / 65536 % 256) in
      let c = decimal (address / 256 % 256) in
      let d = decimal (address % 256) in
      omega (
        arith,
        length-append a (46 ∷ b ++ (46 ∷ c ++ 46 ∷ d)),
        length-append b (46 ∷ c ++ 46 ∷ d),
        length-append c (46 ∷ d),
        length-address_byte (address / 16777216),
        length-address_byte (address / 65536),
        length-address_byte (address / 256),
        length-address_byte address,
      ),
)

length-millionths : (n : ℕ) → length (padded 6 (decimal (n % 1000000))) ≡ 6
length-millionths n =
    length-padded 6 (decimal (n % 1000000))
      (length-decimal (n % 1000000) 6 (omega arith) (mod-lt n (omega arith)))

length-print_fixed :
    (f : Fixed)
    → (length (decimal f.whole) + 7 ≤ length (print_fixed f))
      × (length (print_fixed f) ≤ length (decimal f.whole) + 8)
unfolding print_fixed
length-print_fixed f =
    let a = length-append (decimal f.whole) (46 ∷ padded 6 (decimal (f.millionths % 1000000))) in
    let m = length-millionths f.millionths in
    signed f.negative (decimal f.whole ++ 46 ∷ padded 6 (decimal (f.millionths % 1000000)))
      (omega (arith, a, m))
  where
    signed :
        (b : Bool) (text : Text)
        → length text ≡ length (decimal f.whole) + 7
        → (length (decimal f.whole) + 7 ≤ length ((if b then 45 ∷ [] else []) ++ text))
          × (length ((if b then 45 ∷ [] else []) ++ text) ≤ length (decimal f.whole) + 8)
    signed true text e = (omega (arith, e), omega (arith, e))
    signed false text e = (omega (arith, e), omega (arith, e))

-- A number whose whole part is below 10 ^ k, or not.
fixed_short : (f : Fixed) (k : ℕ) → 0 < k → f.whole < 10 ^ k → length (print_fixed f) ≤ k + 8
fixed_short f k p l = omega (arith, (length-print_fixed f).1, length-decimal f.whole k p l)

fixed_long : (f : Fixed) (k : ℕ) → k < 40 → 10 ^ k ≤ f.whole → k + 8 ≤ length (print_fixed f)
fixed_long f k p l = omega (arith, (length-print_fixed f).0, length-decimal_more f.whole k p l)

length-comma :
    (f g : Fixed) (fs : List Fixed)
    → length (comma_separated (f ∷ g ∷ fs))
      ≡ length (print_fixed f) + 2 + length (comma_separated (g ∷ fs))
length-comma f g fs =
    length-append (print_fixed f) (44 ∷ 32 ∷ comma_separated (g ∷ fs)) ∙ omega arith

length-print_vector :
    (x y z : Fixed)
    → length (print_vector x y z)
      ≡ length (print_fixed x) + length (print_fixed y) + length (print_fixed z) + 12
unfolding print_vector
length-print_vector x y z = omega (
  arith,
  length-append (comma_separated (x ∷ y ∷ z ∷ [])) (41 ∷ []),
  length-comma x y (z ∷ []),
  length-comma y z [],
)

-- A vector whose three whole parts are below 10 ^ 9 fits into its buffer of 64 bytes.
pub print_vector_fits :
    (x y z : Fixed)
    → x.whole < 10 ^ 9
    → y.whole < 10 ^ 9
    → z.whole < 10 ^ 9
    → length (print_vector x y z) < 64
print_vector_fits x y z a b c = omega (
  arith,
  length-print_vector x y z,
  fixed_short x 9 (omega arith) a,
  fixed_short y 9 (omega arith) b,
  fixed_short z 9 (omega arith) c,
)

-- The text of a vector whose three whole parts are 10 ^ 10 or more, with its NUL, is larger than the
-- buffer of 64 bytes that it is printed to.
pub print_vector_overflows :
    (x y z : Fixed)
    → 10 ^ 10 ≤ x.whole
    → 10 ^ 10 ≤ y.whole
    → 10 ^ 10 ≤ z.whole
    → 64 < length (print_vector x y z) + 1
print_vector_overflows x y z a b c = omega (
  arith,
  length-print_vector x y z,
  fixed_long x 10 (omega arith) a,
  fixed_long y 10 (omega arith) b,
  fixed_long z 10 (omega arith) c,
)
