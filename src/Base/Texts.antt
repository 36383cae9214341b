-- ===== src/Base/Texts.antt =====
-- Texts as the list of their bytes.
use Prim.Native.Nat.{ℕ}
use Prim.Native.Char.{code}
use Prim.Native.String.{String}
use mathlib.Core.Path.{◌≡◌, refl}
use mathlib.Core.Bool.{Bool, true, false, ◌&&◌}
use mathlib.Core.List.{List, [], ◌∷◌}
use native.Mathlib.Omega.{arith}
use rosa_server.Base.Tests.{◌==◌}

abbrev pub Text : Type 0
Text = List ℕ

-- The bytes of a literal of the source, all ASCII.
abbrev pub codes : String → Text
codes String.[] = []
codes (String.◌∷◌ c s) = code c ∷ codes s

abbrev pub texts_equal : Text → Text → Bool
texts_equal [] [] = true
texts_equal [] (y ∷ ys) = false
texts_equal (x ∷ xs) [] = false
texts_equal (x ∷ xs) (y ∷ ys) = x == y && texts_equal xs ys

pub texts_equal→eq : (a b : Text) → texts_equal a b ≡ true → a ≡ b
texts_equal→eq [] [] e = refl
texts_equal→eq [] (y ∷ b) e = cc
texts_equal→eq (x ∷ a) [] e = cc
texts_equal→eq (x ∷ a) (y ∷ b) e = ground (arith, texts_equal→eq a b)

pub texts_equal_self : (a : Text) → texts_equal a a ≡ true
texts_equal_self [] = refl
texts_equal_self (x ∷ a) = ground (arith, texts_equal_self a)
