-- ===== src/Base/Texts.antt =====
-- The order of Go strings: by code points, which is the order of their UTF-8 bytes.
use Prim.Native.Nat.{ℕ}
use Prim.Native.Char.{code}
use Prim.Native.String.{String}
use mathlib.Core.Path.{◌≡◌, refl}
use mathlib.Core.Bool.{Bool, true, false, ◌&&◌, ◌||◌}
use mathlib.Core.List.{List, [], ◌∷◌}
use native.Mathlib.Omega.{arith}
use oc_mirror.Base.Tests.{ltb, nat_beq}

abbrev pub codes : String → List ℕ
codes String.[] = []
codes (String.◌∷◌ c s) = code c ∷ codes s

unfoldable pub codes_lt : List ℕ → List ℕ → Bool
codes_lt [] [] = false
codes_lt [] (b ∷ ys) = true
codes_lt (a ∷ xs) [] = false
codes_lt (a ∷ xs) (b ∷ ys) = ltb a b || (nat_beq a b && codes_lt xs ys)

unfoldable pub str_lt : String → String → Bool
unfolding codes_lt
str_lt s t = codes_lt (codes s) (codes t)

codes_lt_asym : (xs ys : List ℕ) → codes_lt xs ys ≡ true → codes_lt ys xs ≡ false
unfolding codes_lt
codes_lt_asym [] [] h = refl
codes_lt_asym [] (b ∷ ys) h = refl
codes_lt_asym (a ∷ xs) [] h = cc
codes_lt_asym (a ∷ xs) (b ∷ ys) h = ground (arith, codes_lt_asym xs ys)

-- `codes_lt` false both ways round goes on transitively.
codes_le_trans :
    (xs ys zs : List ℕ) → codes_lt ys xs ≡ false → codes_lt zs ys ≡ false → codes_lt zs xs ≡ false
unfolding codes_lt
codes_le_trans [] ys [] h g = refl
codes_le_trans [] ys (c ∷ zs) h g = refl
codes_le_trans (a ∷ xs) [] zs h g = cc
codes_le_trans (a ∷ xs) (b ∷ ys) [] h g = cc
codes_le_trans (a ∷ xs) (b ∷ ys) (c ∷ zs) h g = ground (arith, codes_le_trans xs ys zs)

pub str_lt_asym : (s t : String) → str_lt s t ≡ true → str_lt t s ≡ false
unfolding str_lt
str_lt_asym s t h = codes_lt_asym (codes s) (codes t) h

pub str_le_trans : (s t u : String) → str_lt t s ≡ false → str_lt u t ≡ false → str_lt u s ≡ false
unfolding str_lt
str_le_trans s t u h g = codes_le_trans (codes s) (codes t) (codes u) h g
