-- ===== src/Image/Builder/Closed.antt =====
-- The associations that are made for an image name no manifest without an association.
use oc_mirror.Base.{
  String, ℕ, zero, suc, List, [], ◌∷◌, ◌++◌, Bool, false, Result, ok, err, ◌>>=◌, >>=-eq-ok, ◌≡◌,
  refl, inl, In, In-append_left, In-append_right, All, All-map, All-append, ap,
}
use mathlib.Core.Path.{subst}
use oc_mirror.Api.Image.{Association, ImageType}
use oc_mirror.Image.Builder.{
  BuildError, Manifest, no_type, bad, index, layers, Found, Finder, gather, associate,
  associate_found, association_of,
}

-- An association has the name.
abbrev pub HasName : List Association → String → Type 0
HasName associations name = (a : Association) × (In a associations × (a.name ≡ name))

-- Each manifest of the second list has an association of its own in the first.
abbrev pub Covers : List Association → List Association → Type 0
Covers all associations = All (λ a. All (HasName all) a.manifest_digests) associations

HasName-left :
    (xs ys : List Association) (name : String) → HasName xs name → HasName (xs ++ ys) name
HasName-left xs ys name (a, (i, e)) = (a, (In-append_left a xs ys i, e))

HasName-right :
    (xs ys : List Association) (name : String) → HasName ys name → HasName (xs ++ ys) name
HasName-right xs ys name (a, (i, e)) = (a, (In-append_right a xs ys i, e))

Covers-left : (xs ys zs : List Association) → Covers xs zs → Covers (xs ++ ys) zs
Covers-left xs ys zs h =
    All-map _ _ zs (λ a g. All-map _ _ a.manifest_digests (λ d p. HasName-left xs ys d p) g) h

Covers-right : (xs ys zs : List Association) → Covers ys zs → Covers (xs ++ ys) zs
Covers-right xs ys zs h =
    All-map _ _ zs (λ a g. All-map _ _ a.manifest_digests (λ d p. HasName-right xs ys d p) g) h

abbrev pub IsClosed : String → List Association → Type 0
IsClosed image associations = HasName associations image × Covers associations associations

gather-Covers :
    (f : String → Result BuildError (List Association))
    → ((d : String) (found : List Association) → f d ≡ ok found → IsClosed d found)
    → (ds : List String) (all : List Association) → gather f ds ≡ ok all
    → All (HasName all) ds × Covers all all
unfolding gather
gather-Covers f closed [] all e =
    let none : [] ≡ all = ap (λ r. elim r [ ok a ↦ a | err x ↦ [] ]) e in
    (tt, subst (λ xs. Covers xs xs) none tt)
gather-Covers f closed (d ∷ ds) all e =
    let (found, now, more) = >>=-eq-ok (f d) _ e in
    let (rest, later, last) = >>=-eq-ok (gather f ds) _ more in
    let (names, covers) = gather-Covers f closed ds rest later in
    let (name, own) = closed d found now in
    let whole : found ++ rest ≡ all = ap (λ r. elim r [ ok a ↦ a | err x ↦ [] ]) last in
    subst (λ xs. All (HasName xs) (d ∷ ds) × Covers xs xs) whole
      (
        (
          HasName-left found rest d name,
          All-map _ _ ds (λ n p. HasName-right found rest n p) names,
        ),
        All-append _ found rest (Covers-left found rest found own)
            (Covers-right found rest rest covers),
      )

module _ (find : Finder) (path : String) (typ : ImageType) (skip_parse : String → Bool) where
  found-IsClosed :
      (child : String → Result BuildError (List Association))
      → ((d : String) (found : List Association) → child d ≡ ok found → IsClosed d found)
      → (image : String) (found : Found) (content : Manifest) (all : List Association)
      → associate_found find path typ skip_parse child image found content ≡ ok all
      → IsClosed image all
  found-IsClosed child closed image found no_type all e = absurd (cc)
  found-IsClosed child closed image found bad all e = absurd (cc)
  found-IsClosed child closed image found (index digests) all e =
      let (xs, now, last) = >>=-eq-ok (gather child digests) _ e in
      let (names, covers) = gather-Covers child closed digests xs now in
      let own = association_of image path typ found digests [] in
      let whole : xs ++ own ∷ [] ≡ all = ap (λ r. elim r [ ok a ↦ a | err x ↦ [] ]) last in
      subst (IsClosed image) whole (
        (own, (In-append_right own xs (own ∷ []) (inl refl), refl)),
        All-append _ xs (own ∷ []) (Covers-left xs (own ∷ []) xs covers)
            (All-map _ _ digests (λ d p. HasName-left xs (own ∷ []) d p) names, tt),
      )
  found-IsClosed child closed image found (layers digests config) all e =
      let own = association_of image path typ found [] (digests ++ config ∷ []) in
      let whole : own ∷ [] ≡ all = ap (λ r. elim r [ ok a ↦ a | err x ↦ [] ]) e in
      subst (IsClosed image) whole ((own, (inl refl, refl)), (tt, tt))

  -- Where nothing is skipped, an image's associations have one with its name, and one with the digest of
  -- each manifest that one of them lists.
  pub associate-IsClosed :
      ((name : String) → skip_parse name ≡ false)
      → (fuel : ℕ) (image tag_or_id default_tag : String) (all : List Association)
      → associate find path typ skip_parse fuel image tag_or_id default_tag ≡ ok all
      → IsClosed image all
  unfolding associate
  associate-IsClosed none zero image tag_or_id default_tag all e = absurd (cc)
  associate-IsClosed none (suc fuel) image tag_or_id default_tag all e =
      let started : (find image tag_or_id default_tag >>= λ found.
      associate_found find path typ skip_parse
        (λ digest. associate find path typ skip_parse fuel digest digest "") image found
        found.content)
          ≡ ok all =
        rw (none image, associate) at e in
      let (found, now, more) = >>=-eq-ok (find image tag_or_id default_tag) _ started in
      found-IsClosed _ (λ d xs h. associate-IsClosed none fuel d d "" xs h) image found
        found.content all more
