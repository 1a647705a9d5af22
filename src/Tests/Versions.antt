-- ===== src/Tests/Versions.antt =====
-- Versions that are numbers, written as tally marks.
use oc_mirror.Base.{String, ℕ, zero, suc, ◌≡◌, some, ltb, nat_beq, arith, refl, ap}
use oc_mirror.Api.Version.{Semver}

abbrev pub tally : ℕ → String
tally zero = ""
tally (suc n) = String.◌∷◌ "1" (tally n)

abbrev pub count : String → ℕ
count String.[] = 0
count (String.◌∷◌ c s) = suc (count s)

pub count-tally : (n : ℕ) → count (tally n) ≡ n
count-tally zero = refl
count-tally (suc n) = ap suc (count-tally n)

instance abbrev pub numbers : Semver ℕ
numbers = record {
  lt = ltb;
  eq = nat_beq;
  none_version = 0;
  parse = λ s. some (count s);
  to_string = tally;
  lt_asym = λ a b h. ground arith;
  le_trans = λ a b c h g. ground arith;
  eq_iff = λ a b. ground arith;
  parse-to_string = λ a. ap some (count-tally a);
}
