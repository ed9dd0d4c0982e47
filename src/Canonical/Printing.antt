-- ===== src/Canonical/Printing.antt =====
-- The canonical text of apps/gateway-api/src/idempotency.ts is that of the payload's normal form.
use roadwatch.Prelude.{◌≡◌, refl, sym, ap, ◌∙◌, List, [], ◌∷◌, ◌++◌, map, inl, inr, Bool-cases}
use roadwatch.Prelude.Text.{Text, codes}
use roadwatch.Prelude.Sorting.{text_leb}
use roadwatch.Escalation.Equality.{text_eq_refl, text_eq_ne}
use roadwatch.Canonical.{
  Scalar, Json, null, undefined, scalar, array, object, Items, nil, cons, Fields, end, field, keys,
  value_of, member, members, stable, stable_items, stable_fields, join,
}
use roadwatch.Canonical.Same.{
  Absent, Distinct, DistinctItems, DistinctFields, norm, norm_items, norm_fields, insert_field,
  Absent-norm_fields, keys-norm_fields,
}

module _ (quote : Text → Text) (stringify : Scalar → Text) where
  -- A payload printed with its fields in the order in which they stand.
  unfoldable mutual
    pub plain : Json → Text
    plain null = codes "null"
    plain undefined = codes "undefined"
    plain (scalar s) = stringify s
    plain (array items) = codes "[" ++ (join (codes ",") (plain_items items) ++ codes "]")
    plain (object fields) = codes "{" ++ (join (codes ",") (plain_fields fields) ++ codes "}")

    pub plain_items : Items → List Text
    plain_items nil = []
    plain_items (cons v items) = plain v ∷ plain_items items

    pub plain_fields : Fields → List Text
    plain_fields end = []
    plain_fields (field k v f) = (quote k ++ (codes ":" ++ plain v)) ∷ plain_fields f

  -- The values printed for these fields are found in the list.
  Agree : Fields → List (Text × Text) → Type 0
  unfolding plain
  Agree end values = Unit
  Agree (field k v f) values = (value_of k values ≡ plain v) × Agree f values

  Agree-cons :
      (f : Fields) (k t : Text) (values : List (Text × Text))
      → Absent k f
      → Agree f values
      → Agree f ((k, t) ∷ values)
  unfolding Agree value_of
  Agree-cons end k t values h a = tt
  Agree-cons (field l v f) k t values h a =
      (rw (text_eq_ne l k (λ e. h.0 (sym e))) a.0, Agree-cons f k t values h.1 a.1)

  Agree-insert_field :
      (k : Text) (v : Json) (f : Fields) (values : List (Text × Text))
      → value_of k values ≡ plain v
      → Agree f values
      → Agree (insert_field k v f) values
  unfolding Agree
  Agree-insert_field k v end values e a = (e, tt)
  Agree-insert_field k v (field l w f) values e a = elim (Bool-cases (text_leb k l)) [
    | inl p ↦ rw p (e, a)
    | inr p ↦ rw p (a.0, Agree-insert_field k v f values e a.1)
  ]

  map-member :
      (f : Fields) (values : List (Text × Text))
      → Agree f values
      → map (member quote stringify values) (keys f) ≡ plain_fields f
  unfolding Agree keys member plain
  map-member end values a = refl
  map-member (field k v f) values a =
      λ i. (quote k ++ (codes ":" ++ a.0 i)) ∷ map-member f values a.1 i

  value_of_self : (k t : Text) (values : List (Text × Text)) → value_of k ((k, t) ∷ values) ≡ t
  unfolding value_of
  value_of_self k t values = rw (text_eq_refl k) refl

  members-plain :
      (f : Fields) (values : List (Text × Text))
      → Agree (norm_fields f) values
      → members quote stringify (keys f) values ≡ plain (object (norm_fields f))
  unfolding members plain
  members-plain f values a =
      ap
        (λ names.
          codes "{" ++ (join (codes ",") (map (member quote stringify values) names) ++ codes "}"))
        (sym (keys-norm_fields f))
      ∙ ap (λ texts. codes "{" ++ (join (codes ",") texts ++ codes "}"))
          (map-member (norm_fields f) values a)

  -- The canonical text is the normal form, printed.
  mutual
    unfolding stable plain norm Agree Distinct

    pub stable-plain : (a : Json) → Distinct a → stable quote stringify a ≡ plain (norm a)
    stable-plain null h = refl
    stable-plain undefined h = refl
    stable-plain (scalar s) h = refl
    stable-plain (array items) h =
        ap (λ texts. codes "[" ++ (join (codes ",") texts ++ codes "]"))
          (stable_items-plain items h)
    stable-plain (object fields) h =
        members-plain fields (stable_fields quote stringify fields) (stable_fields-plain fields h)

    stable_items-plain :
        (xs : Items)
        → DistinctItems xs
        → stable_items quote stringify xs ≡ plain_items (norm_items xs)
    stable_items-plain nil h = refl
    stable_items-plain (cons v items) h = λ i. stable-plain v h.0 i ∷ stable_items-plain items h.1 i

    stable_fields-plain :
        (f : Fields) → DistinctFields f → Agree (norm_fields f) (stable_fields quote stringify f)
    stable_fields-plain end h = tt
    stable_fields-plain (field k v f) h =
        Agree-insert_field k (norm v) (norm_fields f) _
          (value_of_self k (stable quote stringify v) _ ∙ stable-plain v h.1)
          (Agree-cons (norm_fields f) k (stable quote stringify v) _ (Absent-norm_fields k f h.0)
            (stable_fields-plain f h.2))
