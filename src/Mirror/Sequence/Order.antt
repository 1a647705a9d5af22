-- ===== src/Mirror/Sequence/Order.antt =====
-- The order of the archives, the storage and the registry, and that one more archive keeps it.
use mathlib.Core.Path.{subst}
use oc_mirror.Base.{
  String, ℕ, zero, suc, ◌<◌, ◌≤◌, List, [], ◌∷◌, ◌++◌, Bool, true, false, Option, none, some, ◌≡◌,
  ◌⊎◌, refl, sym, ◌∙◌, inl, inr, In, In-append_left, In-append_right, All, All-map, All-append,
  arith,
}
use oc_mirror.Api.Config.{Metadata}
use oc_mirror.Mirror.Sequence.{System, number, synced_to}

-- An archive has a number from 1 to one more than that of the storage, and 1 if it is for a single use.
abbrev pub IsNumbered : {V : Type 0} → ℕ → Metadata V → Type 0
IsNumbered n a =
    (1 ≤ a.past_mirror.sequence)
    × ((a.past_mirror.sequence ≤ suc n) × ((a.single_use ≡ false) ⊎ (a.past_mirror.sequence ≡ 1)))

-- An archive of the identifier and the number, not for a single use.
abbrev pub IsOf : {V : Type 0} → String → ℕ → Metadata V → Type 0
IsOf uid n a = (a.uid ≡ uid) × ((a.past_mirror.sequence ≡ n) × (a.single_use ≡ false))

-- There is one for each number up to the given one.
abbrev pub HasEach : {V : Type 0} → String → List (Metadata V) → ℕ → Type 0
HasEach uid archives zero = Unit
HasEach uid archives (suc n) =
    ((a : Metadata _) × (In a archives × IsOf uid (suc n) a)) × HasEach uid archives n

-- What is stored is not for a single use, and all archives of its identifier are there.
abbrev pub IsStored : {V : Type 0} → List (Metadata V) → Option (Metadata V) → Type 0
IsStored archives none = Unit
IsStored archives (some m) = (m.single_use ≡ false) × HasEach m.uid archives m.past_mirror.sequence

-- The registry has the metadata of an archive, under its identifier.
abbrev pub IsPublished : {V : Type 0} → List (Metadata V) → String × Metadata V → Type 0
IsPublished archives (uid, a) = In a archives × ((a.uid ≡ uid) × (a.single_use ≡ false))

abbrev pub IsOrdered : {V : Type 0} → System V → Type 0
IsOrdered s =
    All (IsNumbered (number s.source)) s.archives
    × (IsStored s.archives s.source × All (IsPublished s.archives) s.stores.registry)

-- What is made of the stored metadata, by whether a storage is configured.
abbrev pub IsNext : {V : Type 0} → Bool → Option (Metadata V) → Metadata V → Type 0
IsNext false source m = (m.past_mirror.sequence ≡ 1) × (m.single_use ≡ true)
IsNext true none m = (m.past_mirror.sequence ≡ 1) × (m.single_use ≡ false)
IsNext true (some last) m =
    (m.past_mirror.sequence ≡ suc last.past_mirror.sequence)
    × ((m.single_use ≡ last.single_use) × (m.uid ≡ last.uid))

at_or_below : (k n : ℕ) → k < suc n → (k ≡ n) ⊎ (k < n)
at_or_below k n l = ground arith

module _ {V : Type 0} where
  HasEach-append :
      (uid : String) (archives : List (Metadata V)) (m : Metadata V) (n : ℕ)
      → HasEach uid archives n
      → HasEach uid (archives ++ m ∷ []) n
  HasEach-append uid archives m zero h = tt
  HasEach-append uid archives m (suc n) ((a, (i, e)), h) =
      ((a, (In-append_left a archives (m ∷ []) i, e)), HasEach-append uid archives m n h)

  pub HasEach-at :
      (uid : String) (archives : List (Metadata V)) (n k : ℕ)
      → HasEach uid archives n
      → k < n
      → (a : Metadata V) × (In a archives × IsOf uid (suc k) a)
  HasEach-at uid archives zero k h l = absurd (omega arith)
  HasEach-at uid archives (suc n) k (top, h) l = elim (at_or_below k n l) [
    | inl e ↦ subst (λ i. (a : Metadata V) × (In a archives × IsOf uid (suc i) a)) (sym e) top
    | inr f ↦ HasEach-at uid archives n k h f
  ]

  IsStored-append :
      (archives : List (Metadata V)) (m : Metadata V) (source : Option (Metadata V))
      → IsStored archives source
      → IsStored (archives ++ m ∷ []) source
  IsStored-append archives m none h = tt
  IsStored-append archives m (some last) (many, h) =
      (many, HasEach-append last.uid archives m last.past_mirror.sequence h)

  -- The metadata after the stored one is the last of its identifier.
  IsNext-HasEach :
      (archives : List (Metadata V)) (source : Option (Metadata V)) (m : Metadata V)
      → IsStored archives source
      → IsNext true source m
      → IsStored (archives ++ m ∷ []) (some m)
  IsNext-HasEach archives none m h (one, many) =
      let i = In-append_right m archives (m ∷ []) (inl refl) in
      (
        many,
        subst (HasEach m.uid (archives ++ m ∷ [])) (sym one) ((m, (i, (refl, (one, many)))), tt),
      )
  IsNext-HasEach archives (some last) m (single, h) (next, (same, uid)) =
      let i = In-append_right m archives (m ∷ []) (inl refl) in
      let many = same ∙ single in
      let old = HasEach-append last.uid archives m last.past_mirror.sequence h in
      (
        many,
        subst (HasEach m.uid (archives ++ m ∷ [])) (sym next) (
          (m, (i, (refl, (next, many)))),
          subst (λ u. HasEach u (archives ++ m ∷ []) last.past_mirror.sequence) (sym uid) old,
        ),
      )

  pub IsNext-IsNumbered :
      (is_set : Bool) (source : Option (Metadata V)) (m : Metadata V) (archives : List (Metadata V))
      → IsStored archives source
      → IsNext is_set source m
      → IsNumbered (number source) m
  IsNext-IsNumbered false source m archives h (one, single) =
      (omega (arith, one), (omega (arith, one), inr one))
  IsNext-IsNumbered true none m archives h (one, many) =
      (omega (arith, one), (omega (arith, one), inl many))
  IsNext-IsNumbered true (some last) m archives (single, h) (next, (same, uid)) =
      (omega (arith, next), (omega (arith, next), inl (same ∙ single)))

  number-synced_to :
      (is_set synced : Bool) (source : Option (Metadata V)) (m : Metadata V)
      → IsNext is_set source m
      → number source ≤ number (synced_to is_set synced m source)
  number-synced_to false synced source m h = omega arith
  number-synced_to true false source m h = omega arith
  number-synced_to true true none m h = omega arith
  number-synced_to true true (some last) m (next, rest) = omega (arith, next)

  synced_to-IsStored :
      (is_set synced : Bool) (archives : List (Metadata V)) (source : Option (Metadata V))
      (m : Metadata V)
      → IsStored archives source
      → IsNext is_set source m
      → IsStored (archives ++ m ∷ []) (synced_to is_set synced m source)
  synced_to-IsStored false synced archives source m h n = IsStored-append archives m source h
  synced_to-IsStored true false archives source m h n = IsStored-append archives m source h
  synced_to-IsStored true true archives source m h n = IsNext-HasEach archives source m h n

  IsNumbered-later : (n k : ℕ) (a : Metadata V) → n ≤ k → IsNumbered n a → IsNumbered k a
  IsNumbered-later n k a le (low, (high, once)) = (low, (omega arith, once))

  -- One more archive, whether the storage gets its metadata or not.
  pub created-IsOrdered :
      (is_set synced : Bool) (s : System V) (m : Metadata V)
      → IsNext is_set s.source m
      → IsOrdered s
      → IsOrdered (record {
        source = synced_to is_set synced m s.source;
        archives = s.archives ++ m ∷ [];
        stores = s.stores;
      })
  created-IsOrdered is_set synced s m next (numbers, (stored, published)) =
      let after = number (synced_to is_set synced m s.source) in
      let more = number-synced_to is_set synced s.source m next in
      (
        All-append (IsNumbered after) s.archives (m ∷ [])
            (All-map _ _ s.archives (λ a. IsNumbered-later (number s.source) after a more) numbers)
            (
              IsNumbered-later (number s.source) after m more
                  (IsNext-IsNumbered is_set s.source m s.archives stored next),
              tt,
            ),
        (
          synced_to-IsStored is_set synced s.archives s.source m stored next,
          All-map _ _ s.stores.registry
              (λ (uid, a) (i, e). (In-append_left a s.archives (m ∷ []) i, e)) published,
        ),
      )
