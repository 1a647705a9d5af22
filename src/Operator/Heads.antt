-- ===== src/Operator/Heads.antt =====
-- pkg/operator/merge.go, `resolveChannelHeads`: old heads of a channel go where they are in the skip
-- range of its newest head.
pub mod Tops
pub mod Removed
use oc_mirror.Base.{
  String, ℕ, suc, List, [], ◌∷◌, ◌++◌, Bool, true, false, not, Option, none, some, Result, ok, err,
  ◌>>=◌, if◌then◌else◌, ◌==◌, string_eq, or_default, ltb, length,
}
use oc_mirror.Base.GoMap
use oc_mirror.Base.GoMap.{Map}
use oc_mirror.Base.Sort.{sort}
use oc_mirror.Api.Version.{Semver}
use oc_mirror.Operator.Catalog.{ModelBundle, ModelChannel, ModelPackage, PackageModel}

-- An error of `semver.ParseRange`, or a panic (`semver.MustParse`, or a nil bundle).
pub data HeadError : Type 0 where
  invalid_range panicked : HeadError

abbrev pub or_panic : {A : Type 0} → Option A → Result HeadError A
or_panic none = err panicked
or_panic (some a) = ok a

-- The versions but the last one, and the last one.
unfoldable pub split_last : {A : Type 0} → A → List A → List A × A
split_last a [] = ([], a)
split_last a (b ∷ bs) = let (old, last) = split_last b bs in (a ∷ old, last)

abbrev pub count : String → Map String ℕ → Map String ℕ
count name incoming = GoMap.insert name (suc (or_default 0 (GoMap.lookup name incoming))) incoming

abbrev pub count_all : List String → Map String ℕ → Map String ℕ
count_all [] incoming = incoming
count_all (name ∷ names) incoming = count_all names (count name incoming)

module _ {V : Type 0} ⦃sv : Semver V⦄ where
  unfoldable pub incoming_of : List (ModelBundle V) → Map String ℕ → Map String ℕ
  incoming_of [] incoming = incoming
  incoming_of (b ∷ bs) incoming =
      incoming_of bs
        (count_all b.skips (if b.replaces == "" then incoming else count b.replaces incoming))

  -- The bundles that none replaces or skips, by the text of their version.
  unfoldable pub heads_of :
      Map String ℕ → List (ModelBundle V) → Map String (ModelBundle V) → Map String (ModelBundle V)
  heads_of incoming [] heads = heads
  heads_of incoming (b ∷ bs) heads =
      heads_of incoming bs
        (if GoMap.has b.name incoming then heads else GoMap.insert (sv.to_string b.version) b heads)

  abbrev pub parse_keys : List String → Option (List V)
  parse_keys [] = some []
  parse_keys (k ∷ ks) = elim (sv.parse k) [
    | none ↦ none
    | some v ↦ elim (parse_keys ks) [ none ↦ none | some vs ↦ some (v ∷ vs) ]
  ]

module _ {V : Type 0} ⦃sv : Semver V⦄ (parse_range : String → Option (V → Bool)) where
  unfoldable pub remove_head :
      ModelBundle V
      → Map String (ModelBundle V)
      → V
      → Map String (ModelBundle V)
      → Result HeadError (Map String (ModelBundle V))
  remove_head head heads ver bundles =
      if head.replaces == sv.to_string ver
      then ok bundles
      else (elim (parse_range head.skip_range) [
        | none ↦ err invalid_range
        | some in_range ↦
            if in_range ver
            then (or_panic (GoMap.lookup (sv.to_string ver) heads) >>= λ old.
                ok (GoMap.delete old.name bundles))
            else ok bundles
      ])

  unfoldable pub remove_heads :
      ModelBundle V
      → Map String (ModelBundle V)
      → List V
      → Map String (ModelBundle V)
      → Result HeadError (Map String (ModelBundle V))
  remove_heads head heads [] bundles = ok bundles
  remove_heads head heads (ver ∷ vers) bundles =
      remove_head head heads ver bundles >>= remove_heads head heads vers

  unfoldable pub resolve_sorted :
      Map String (ModelBundle V)
      → List V
      → Map String (ModelBundle V)
      → Result HeadError (Map String (ModelBundle V))
  resolve_sorted heads [] bundles = err panicked
  resolve_sorted heads (v ∷ vs) bundles =
      let (old, last) = split_last v vs in
      or_panic (GoMap.lookup (sv.to_string last) heads) >>= λ head.
      remove_heads head heads old bundles

  abbrev pub resolve_heads :
      Map String (ModelBundle V)
      → Map String (ModelBundle V)
      → Result HeadError (Map String (ModelBundle V))
  resolve_heads heads bundles = or_panic (parse_keys (GoMap.keys heads)) >>= λ vs.
      resolve_sorted heads (sort sv.lt vs) bundles

  unfoldable pub resolve_bundles :
      Map String (ModelBundle V) → Result HeadError (Map String (ModelBundle V))
  resolve_bundles bundles =
      let bs = GoMap.values bundles in
      let heads = heads_of (incoming_of bs []) bs [] in
      if ltb 1 (length heads) then resolve_heads heads bundles else ok bundles

  abbrev pub with_bundles : ModelChannel V → Map String (ModelBundle V) → ModelChannel V
  with_bundles ch bundles = record { name = ch.name; bundles = bundles }

  unfoldable pub resolve_channels :
      Map String (ModelChannel V) → Result HeadError (Map String (ModelChannel V))
  resolve_channels [] = ok []
  resolve_channels ((k, ch) ∷ chs) = resolve_bundles ch.bundles >>= λ bundles.
      resolve_channels chs >>= λ rest. ok ((k, with_bundles ch bundles) ∷ rest)

  abbrev pub with_channels : ModelPackage V → Map String (ModelChannel V) → ModelPackage V
  with_channels p chs = record {
    name = p.name;
    description = p.description;
    channels = chs;
    default_channel = p.default_channel;
  }

  -- The model after `resolveChannelHeads`, which makes a configuration of it.
  unfoldable pub resolve_channel_heads : PackageModel V → Result HeadError (PackageModel V)
  resolve_channel_heads [] = ok []
  resolve_channel_heads ((k, p) ∷ ps) = resolve_channels p.channels >>= λ chs.
      resolve_channel_heads ps >>= λ rest. ok ((k, with_channels p chs) ∷ rest)
