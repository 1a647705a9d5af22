-- ===== src/Api/Version.antt =====
-- Semantic versions, as the program takes them from github.com/blang/semver/v4: the type, its
-- comparisons `LT` and `EQ`, `Parse`, `String` and the zero value `Version{}`. `a.GT(b)` is
-- `b.LT(a)`. The laws are those of a comparison that sorts: all three methods are read off the one
-- function `Compare`.
use oc_mirror.Base.{String, Bool, true, false, ◌≡◌, ◌↔◌, Option, some}

pub record Semver (V : Type 0) : Type 0 where
  pub lt : V → V → Bool
  pub eq : V → V → Bool
  pub none_version : V
  pub parse : String → Option V
  pub to_string : V → String
  pub lt_asym : (a b : V) → lt a b ≡ true → lt b a ≡ false
  pub le_trans : (a b c : V) → lt b a ≡ false → lt c b ≡ false → lt c a ≡ false
  pub eq_iff : (a b : V) → (eq a b ≡ true) ↔ ((lt a b ≡ false) × (lt b a ≡ false))
  pub parse-to_string : (a : V) → parse (to_string a) ≡ some a
