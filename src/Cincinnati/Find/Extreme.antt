-- ===== src/Cincinnati/Find/Extreme.antt =====
-- `FindRelease` gives the least or the greatest version of the channels.
use mathlib.Core.Path.{subst}
use oc_mirror.Base.{
  String, ◌≡◌, List, [], ◌∷◌, Bool, true, false, ok, >>=-eq-ok, string_eq, arith, inl, inr, refl,
  All, In, In-last, In-get_elem?, last?-In,
}
use oc_mirror.Base.GoMap.{Map}
use oc_mirror.Base.Sort.{sort, sort-In, sort-IsSorted, last-IsSorted}
use oc_mirror.Api.Version.{Semver}
use oc_mirror.Api.Config.{ReleaseChannel}
use oc_mirror.Cincinnati.Find.{before, find_releases_loop, not_empty, find_releases, find_release}

module _ {V : Type 0} ⦃sv : Semver V⦄ (min : Bool) where
  before_asym : (a b : String × V) → before min a b ≡ true → before min b a ≡ false
  before_asym a b h = ground (arith, sv.lt_asym a.1 b.1, sv.lt_asym b.1 a.1)

  before_le_trans :
      (a b c : String × V)
      → before min b a ≡ false
      → before min c b ≡ false
      → before min c a ≡ false
  before_le_trans a b c h g = ground (arith, sv.le_trans a.1 b.1 c.1, sv.le_trans c.1 b.1 a.1)

  -- An entry of the map, and none of the map has a version that is less, for the minimum, or greater.
  abbrev pub IsExtreme : Map String V → String × V → Type 0
  IsExtreme vers r = In r vers × All (λ e. before min r e ≡ false) vers

  All-before :
      (all : Map String V) (r : String × V) (vers : Map String V)
      → ((e : String × V) → In e vers → before min r e ≡ false)
      → All (λ e. before min r e ≡ false) vers
  All-before all r [] h = tt
  All-before all r (e ∷ vers) h = (h e (inl refl), All-before all r vers (λ d i. h d (inr i)))

  some_entry :
      (all : Map String V) (vers : Map String V)
      → not_empty all ≡ ok vers
      → (e : String × V) × In e vers
  some_entry [] vers h = absurd (cc)
  some_entry (e ∷ all) vers h =
      let same : e ∷ all ≡ vers = cc in subst (λ m. (d : String × V) × In d m) same (e, inl refl)

  -- Once the versions of the channels are read, a release is found. It is an entry of the versions by
  -- channel, and none of them is less, where the minimum is asked for, or greater, where the maximum
  -- is.
  pub find_release-IsExtreme :
      (channels : List ReleaseChannel) (vers : Map String V)
      → find_releases min channels ≡ ok vers
      → (r : String × V) × (find_release min channels ≡ ok r) × IsExtreme vers r
  unfolding find_releases find_release
  find_release-IsExtreme channels vers found =
      let (all, read, filled) = >>=-eq-ok (find_releases_loop min channels []) _ found in
      let (first, there) = some_entry all vers filled in
      let sorted = sort (before min) vers in
      let (r, e) = last?-In sorted first ((sort-In (before min) first vers).1 there) in
      (
        r,
        ground arith,
        (
          (sort-In (before min) r vers).0 (In-last sorted r e),
          All-before vers r vers (λ d i.
              let (n, at) = In-get_elem? sorted d ((sort-In (before min) d vers).1 i) in
              last-IsSorted (before min) before_asym before_le_trans sorted n d r
                (sort-IsSorted (before min) before_asym before_le_trans vers) at e),
        ),
      )
