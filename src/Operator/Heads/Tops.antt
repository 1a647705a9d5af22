-- ===== src/Operator/Heads/Tops.antt =====
-- The heads of a channel: the bundles that no bundle of it replaces or skips, and their versions.
use mathlib.Core.Path.{subst}
use oc_mirror.Base.{
  String, ℕ, suc, not, ◌&&◌, ◌||◌, if◌then◌else◌, ◌≢◌, sym, mem, AllDistinct, All-map, or_default,
  List, [], ◌∷◌, Bool, false, Option, none, some, ok, ◌≡◌, refl, ◌∙◌, ap, ◌⊎◌, inl, inr, ◌==◌,
  string_eq, In, All, All-In, Bool-cases, arith,
}
use oc_mirror.Base.GoMap
use oc_mirror.Base.GoMap.{Map, has-eq-is_some}
use oc_mirror.Base.Sort.{IsSorted}
use oc_mirror.Api.Version.{Semver}
use oc_mirror.Operator.Catalog.{ModelBundle}
use oc_mirror.Operator.Heads.{
  count, count_all, or_panic, split_last, incoming_of, heads_of, parse_keys,
}

pub or_panic-eq-ok : {A : Type 0} (o : Option A) {a : A} → or_panic o ≡ ok a → o ≡ some a
or_panic-eq-ok none e = absurd (ground arith)
or_panic-eq-ok (some b) e = ground arith

split_last-In : {A : Type 0} (a : A) (xs : List A) → In (split_last a xs).1 (a ∷ xs)
unfolding split_last
split_last-In a [] = inl refl
split_last-In a (x ∷ xs) = inr (split_last-In x xs)

pub split_last-AllDistinct :
    {A : Type 0} (a : A) (xs : List A)
    → AllDistinct (a ∷ xs)
    → All (λ b. b ≢ (split_last a xs).1) (split_last a xs).0
unfolding split_last
split_last-AllDistinct a [] d = tt
split_last-AllDistinct a (x ∷ xs) d =
    let last = (split_last x xs).1 in
    let other = All-In (λ b. b ≢ a) last (x ∷ xs) d.0 (split_last-In x xs) in
    ((λ e. other (sym e)), split_last-AllDistinct x xs d.1)

-- The bundle replaces or skips the one of the name.
abbrev pub refers : {V : Type 0} → String → ModelBundle V → Bool
refers name b = (not (b.replaces == "") && (b.replaces == name)) || mem name b.skips

-- A bundle of the list that no bundle of it replaces or skips.
abbrev pub IsTop : {V : Type 0} → List (ModelBundle V) → ModelBundle V → Type 0
IsTop bs b = In b bs × All (λ c. refers b.name c ≡ false) bs

has-count :
    (n name : String) (incoming : Map String ℕ)
    → GoMap.has n (count name incoming) ≡ (name == n) || GoMap.has n incoming
has-count n name incoming = ground (
  arith,
  has-eq-is_some n (count name incoming),
  has-eq-is_some n incoming,
  GoMap.lookup-insert name n (suc (or_default 0 (GoMap.lookup name incoming))) incoming,
)

has-count_all :
    (n : String) (names : List String) (incoming : Map String ℕ)
    → GoMap.has n (count_all names incoming) ≡ mem n names || GoMap.has n incoming
has-count_all n [] incoming = refl
has-count_all n (name ∷ names) incoming = ground (
  arith,
  has-count n name incoming,
  has-count_all n names (count name incoming),
  string_eq.beq_iff n name,
  string_eq.beq_iff name n,
)

-- What is not counted is not referred to.
pub incoming_of-All :
    {V : Type 0} ⦃sv : Semver V⦄ (n : String) (bs : List (ModelBundle V)) (incoming : Map String ℕ)
    → GoMap.has n (incoming_of bs incoming) ≡ false
    → All (λ c. refers n c ≡ false) bs × (GoMap.has n incoming ≡ false)
unfolding incoming_of
incoming_of-All n [] incoming h = (tt, h)
incoming_of-All n (b ∷ bs) incoming h =
    let replaced = if b.replaces == "" then incoming else count b.replaces incoming in
    let (later, now) = incoming_of-All n bs (count_all b.skips replaced) h in
    let all = has-count_all n b.skips replaced in
    let one = has-count n b.replaces incoming in ((ground arith, later), ground arith)

module _ {V : Type 0} ⦃sv : Semver V⦄ where
  pub split_last-IsSorted :
      (v : V) (vs : List V)
      → IsSorted sv.lt (v ∷ vs)
      → All (λ w. sv.lt (split_last v vs).1 w ≡ false) (split_last v vs).0
  unfolding split_last
  split_last-IsSorted v [] s = tt
  split_last-IsSorted v (w ∷ ws) s =
      let last = (split_last w ws).1 in
      (
        All-In (λ u. sv.lt u v ≡ false) last (w ∷ ws) s.0 (split_last-In w ws),
        split_last-IsSorted w ws s.1,
      )

  module _ (bs : List (ModelBundle V)) where
    -- A head under the text of its version.
    abbrev pub IsHead : String × ModelBundle V → Type 0
    IsHead (k, b) = (k ≡ sv.to_string b.version) × IsTop bs b

    pub heads_of-IsHead :
        (incoming : Map String ℕ)
        → ((n : String) → GoMap.has n incoming ≡ false → All (λ c. refers n c ≡ false) bs)
        → (cs : List (ModelBundle V)) (heads : Map String (ModelBundle V))
        → ((b : ModelBundle V) → In b cs → In b bs)
        → All IsHead heads
        → All IsHead (heads_of incoming cs heads)
    unfolding heads_of
    heads_of-IsHead incoming top [] heads sub h = h
    heads_of-IsHead incoming top (c ∷ cs) heads sub h =
        elim (Bool-cases (GoMap.has c.name incoming)) [
          | inl t ↦ rw t (heads_of-IsHead incoming top cs heads (λ b i. sub b (inr i)) h)
          | inr f ↦ simp f (
              heads_of-IsHead incoming top cs _ (λ b i. sub b (inr i))
                (GoMap.All-insert IsHead (sv.to_string c.version) c heads
                  (refl, (sub c (inl refl), top c.name f)) h))
        ]

  pub heads_of-Distinct :
      (incoming : Map String ℕ) (cs : List (ModelBundle V)) (heads : Map String (ModelBundle V))
      → GoMap.Distinct heads
      → GoMap.Distinct (heads_of incoming cs heads)
  unfolding heads_of
  heads_of-Distinct incoming [] heads d = d
  heads_of-Distinct incoming (c ∷ cs) heads d = elim (Bool-cases (GoMap.has c.name incoming)) [
    | inl t ↦ rw t (heads_of-Distinct incoming cs heads d)
    | inr f ↦
        simp f (
          heads_of-Distinct incoming cs _
            (GoMap.Distinct-insert (sv.to_string c.version) c heads d))
  ]

  lookup-cons :
      (k t : String) (b : ModelBundle V) (heads : Map String (ModelBundle V))
      → ((k ≡ t) ⊎ (GoMap.lookup t heads ≢ none))
      → GoMap.lookup t ((k, b) ∷ heads) ≢ none
  unfolding GoMap.lookup
  lookup-cons k t b heads there gone = ground (arith, string_eq.beq_iff k t)

  abbrev joined : Option V → Option (List V) → Option (List V)
  joined o r = elim o [ none ↦ none | some v ↦ elim r [ none ↦ none | some vs ↦ some (v ∷ vs) ] ]

  joined-eq-some :
      (v : V) (r : Option (List V)) (vs : List V)
      → joined (some v) r ≡ some vs
      → (ws : List V) × ((r ≡ some ws) × (v ∷ ws ≡ vs))
  joined-eq-some v none vs e = absurd (cc)
  joined-eq-some v (some ws) vs e = (ws, (refl, ap (λ o. or_default [] o) e))

  parse_keys-cons :
      (k : String) (ks : List String) (v : V) (vs : List V)
      → sv.parse k ≡ some v
      → parse_keys (k ∷ ks) ≡ some vs
      → (ws : List V) × ((parse_keys ks ≡ some ws) × (v ∷ ws ≡ vs))
  parse_keys-cons k ks v vs p e =
      joined-eq-some v (parse_keys ks) vs (subst (λ o. joined o (parse_keys ks) ≡ some vs) p e)

  -- The versions of the heads differ, as their texts do.
  pub parse_keys-AllDistinct :
      (bs : List (ModelBundle V)) (heads : Map String (ModelBundle V)) (vs : List V)
      → All (IsHead bs) heads
      → GoMap.Distinct heads
      → parse_keys (GoMap.keys heads) ≡ some vs
      → AllDistinct vs × All (λ v. GoMap.lookup (sv.to_string v) heads ≢ none) vs
  unfolding GoMap.lookup
  parse_keys-AllDistinct bs [] vs is d e =
      subst
        (λ ws.
          AllDistinct ws
          × All (λ v. GoMap.lookup {V = ModelBundle V} (sv.to_string v) [] ≢ none) ws)
        (ap (λ o. or_default [] o) e) (tt, tt)
  parse_keys-AllDistinct bs ((k, b) ∷ heads) vs is d e =
      let printed : sv.parse k ≡ some b.version = rw (is.0.0) (sv.parse-to_string b.version) in
      let (ws, (p, whole)) = parse_keys-cons k (GoMap.keys heads) b.version vs printed e in
      let (distinct, there) = parse_keys-AllDistinct bs heads ws is.1 d.1 p in
      let text = is.0.0 in
      subst
        (λ us. AllDistinct us × All (λ v. GoMap.lookup (sv.to_string v) ((k, b) ∷ heads) ≢ none) us)
        whole
        (
          (
            All-map _ _ ws
                (λ w f same. f (
                  ap (λ v. GoMap.lookup (sv.to_string v) heads) same
                  ∙ (ap (λ t. GoMap.lookup t heads) (sym text) ∙ d.0)))
                there,
            distinct,
          ),
          (
            (λ gone. lookup-cons k (sv.to_string b.version) b heads (inl text) gone),
            All-map _ _ ws (λ w f gone. lookup-cons k (sv.to_string w) b heads (inr f) gone) there,
          ),
        )

  pub to_string_inj : (a b : V) → sv.to_string a ≡ sv.to_string b → a ≡ b
  to_string_inj a b e = let p = sv.parse-to_string a in let q = sv.parse-to_string b in cc
