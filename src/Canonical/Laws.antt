-- ===== src/Canonical/Laws.antt =====
-- What the canonical text of apps/gateway-api/src/idempotency.ts depends on.
use roadwatch.Prelude.{
  ◌≡◌, ◌⊎◌, subst, ◌≢◌, refl, ap, ◌∙◌, sym, Bool-cases, if◌then◌else◌, inl, inr, List, [], ◌∷◌,
  ◌++◌, map,
}
use roadwatch.Prelude.Text.{Text, codes, Text-discrete}
use roadwatch.Prelude.Sorting.{sort, text_leb, sort_swap, insert}
use roadwatch.Escalation.{text_eq, is_empty}
use roadwatch.Canonical.Same.{
  Same, SameItems, SameFields, same_null, null_undefined, undefined_null, same_undefined,
  same_scalar, same_array, same_object, through, same_nil, same_cons, same_end, same_field,
  exchange, same_trans, Distinct, norm, norm-Same, Same-sym,
}
use roadwatch.Canonical.Printing.{stable-plain}
use roadwatch.Canonical.Reading.{ReadsBack, plain-injective}
use roadwatch.Escalation.Equality.{text_eq_sound}
use roadwatch.Canonical.{
  Request, trimmed, or_empty, text_or_empty, token_in, token_of, derive_idempotency_key, Scalar,
  Json, Items, Fields, keys, value_of, member, members, stable, stable_items, stable_fields,
  build_request_hash, join,
}

pick :
    (k l : Text) {v w o p : Text}
    → v ≡ w
    → o ≡ p
    → (if text_eq k l then v else o) ≡ (if text_eq k l then w else p)
pick k l e h = λ i. if text_eq k l then e i else h i

swap_values :
    (k l m v w o : Text)
    → k ≢ l
    → (if text_eq k m then v else (if text_eq l m then w else o))
      ≡ (if text_eq l m then w else (if text_eq k m then v else o))
swap_values k l m v w o ne = elim (Bool-cases (text_eq k m)) [
  | inl p ↦ elim (Bool-cases (text_eq l m)) [
    | inl q ↦ absurd (ne (text_eq_sound k m p ∙ sym (text_eq_sound l m q)))
    | inr q ↦ rw (p, q) refl
  ]
  | inr p ↦ rw (p) refl
]

module _ (quote : Text → Text) (stringify : Scalar → Text) where
  -- The same keys in order, and the same value at each key.
  abbrev Alike : List Text → List (Text × Text) → List Text → List (Text × Text) → Type 0
  Alike names values names' values' =
      (sort text_leb names ≡ sort text_leb names')
      × ((k : Text) → value_of k values ≡ value_of k values')

  members-Alike :
      (names names' : List Text) (values values' : List (Text × Text))
      → Alike names values names' values'
      → members quote stringify names values ≡ members quote stringify names' values'
  unfolding members member
  members-Alike names names' values values' (same_names, same_values) = λ i.
      codes "{"
      ++ (join (codes ",") (map (λ k. quote k ++ (codes ":" ++ same_values k i)) (same_names i))
          ++ codes "}")

  mutual
    unfolding stable keys value_of sort

    stable-Same : {a b : Json} → Same a b → stable quote stringify a ≡ stable quote stringify b
    stable-Same same_null = refl
    stable-Same null_undefined = refl
    stable-Same undefined_null = refl
    stable-Same same_undefined = refl
    stable-Same (same_scalar s) = refl
    stable-Same (through a b) = stable-Same a ∙ stable-Same b
    stable-Same (same_array items) =
        ap (λ texts. codes "[" ++ (join (codes ",") texts ++ codes "]")) (stable_items-Same items)
    stable-Same (same_object {f} {g} fields) =
        members-Alike (keys f) (keys g) (stable_fields quote stringify f)
          (stable_fields quote stringify g) (stable_fields-Same fields)

    stable_items-Same :
        {xs ys : Items}
        → SameItems xs ys
        → stable_items quote stringify xs ≡ stable_items quote stringify ys
    stable_items-Same same_nil = refl
    stable_items-Same (same_cons v items) = λ i. stable-Same v i ∷ stable_items-Same items i

    stable_fields-Same :
        {f g : Fields}
        → SameFields f g
        → Alike
            (keys f)
            (stable_fields quote stringify f)
            (keys g)
            (stable_fields quote stringify g)
    stable_fields-Same same_end = (refl, λ k. refl)
    stable_fields-Same (same_field k v fields) =
        let ih = stable_fields-Same fields in
        (ap (insert text_leb k) ih.0, λ l. pick k l (stable-Same v) (ih.1 l))
    stable_fields-Same (exchange k l v w f ne) = (
      sort_swap k l (keys f),
      λ m.
          swap_values k l m (stable quote stringify v) (stable quote stringify w)
            (value_of m (stable_fields quote stringify f)) ne,
    )
    stable_fields-Same (same_trans a b) =
        let p = stable_fields-Same a in
        let q = stable_fields-Same b in (p.0 ∙ q.0, λ k. p.1 k ∙ q.1 k)

module _ (quote : Text → Text) (stringify : Scalar → Text) (reads : ReadsBack quote stringify)
    (a b : Json) (distinct_a : Distinct a) (distinct_b : Distinct b) where
  stable-injective : stable quote stringify a ≡ stable quote stringify b → Same a b
  stable-injective h =
      let e : norm a ≡ norm b = plain-injective quote stringify reads (norm a) (norm b) (
        sym (stable-plain quote stringify a distinct_a)
        ∙ h
        ∙ stable-plain quote stringify b distinct_b) in
      through (norm-Same a distinct_a)
        (subst (λ n. Same n b) (sym e) (Same-sym (norm-Same b distinct_b)))

  -- For a JSON.stringify of strings and scalars that can be read back, two payloads in which no
  -- object has a key twice: they have one hash if they are the same up to the order of the fields
  -- at any depth and null for undefined, and if they have one hash, they are the same in that
  -- sense or two different texts with one digest are at hand.
  pub build_request_hash_iff :
      (sha256_hex : Text → Text)
      → (Same a b
          → build_request_hash quote stringify sha256_hex a
            ≡ build_request_hash quote stringify sha256_hex b)
        × (build_request_hash quote stringify sha256_hex a
              ≡ build_request_hash quote stringify sha256_hex b
            → Same a b ⊎ ((x : Text) × (y : Text) × (x ≢ y) × (sha256_hex x ≡ sha256_hex y)))
  unfolding build_request_hash
  build_request_hash_iff sha256_hex = (
    λ same. ap sha256_hex (stable-Same quote stringify same),
    λ h. elim (Text-discrete (stable quote stringify a) (stable quote stringify b)) [
      | yes e ↦ inl (stable-injective e)
      | no ne ↦ inr (stable quote stringify a, stable quote stringify b, ne, h)
    ],
  )

text_or_empty-Same : {a b : Json} → Same a b → text_or_empty a ≡ text_or_empty b
text_or_empty-Same same_null = refl
text_or_empty-Same null_undefined = refl
text_or_empty-Same undefined_null = refl
text_or_empty-Same same_undefined = refl
text_or_empty-Same (same_scalar s) = refl
text_or_empty-Same (same_array items) = refl
text_or_empty-Same (same_object fields) = refl
text_or_empty-Same (through a b) = text_or_empty-Same a ∙ text_or_empty-Same b

token_in-Same : {f g : Fields} → SameFields f g → token_in f ≡ token_in g
token_in-Same same_end = refl
token_in-Same (same_field k v fields) =
    pick k (codes "token") (text_or_empty-Same v) (token_in-Same fields)
token_in-Same (exchange k l v w f ne) =
    swap_values k l (codes "token") (text_or_empty v) (text_or_empty w) (token_in f) ne
token_in-Same (same_trans a b) = token_in-Same a ∙ token_in-Same b

token_of-Same : {a b : Json} → Same a b → token_of a ≡ token_of b
token_of-Same same_null = refl
token_of-Same null_undefined = refl
token_of-Same undefined_null = refl
token_of-Same same_undefined = refl
token_of-Same (same_scalar s) = refl
token_of-Same (same_array items) = refl
token_of-Same (same_object fields) = token_in-Same fields
token_of-Same (through a b) = token_of-Same a ∙ token_of-Same b

or_empty-Same : {a b : Json} → Same a b → Same (or_empty a) (or_empty b)
or_empty-Same same_null = same_object same_end
or_empty-Same null_undefined = same_object same_end
or_empty-Same undefined_null = same_object same_end
or_empty-Same same_undefined = same_object same_end
or_empty-Same (same_scalar s) = same_scalar s
or_empty-Same (same_array items) = same_array items
or_empty-Same (same_object fields) = same_object fields
or_empty-Same (through a b) = through (or_empty-Same a) (or_empty-Same b)

-- Requests that a retry may send: one header, method and path, and the rest up to the order of
-- fields.
pub record Resent (p q : Request) : Type 0 where
  pub one_header : trimmed p.idempotency_key ≡ trimmed q.idempotency_key
  pub one_method : p.method ≡ q.method
  pub one_path : p.path ≡ q.path
  pub one_query : Same p.query q.query
  pub one_params : Same p.params q.params
  pub one_body : Same p.body q.body

-- Two requests with one method and path, the same header once it is trimmed, and the same query,
-- parameters and body up to the order of fields and null for undefined: they get one key.
pub derive_idempotency_key-Resent :
    (quote : Text → Text) (stringify : Scalar → Text) (sha256_hex : Text → Text) (scope : Text)
    (p q : Request)
    → Resent p q
    → derive_idempotency_key quote stringify sha256_hex p scope
      ≡ derive_idempotency_key quote stringify sha256_hex q scope
unfolding derive_idempotency_key
derive_idempotency_key-Resent quote stringify sha256_hex scope p q same = λ i.
    if is_empty (same.one_header i)
    then codes "auto:"
      ++ sha256_hex (
          join (codes "|") (
            scope
            ∷ same.one_method i
            ∷ same.one_path i
            ∷ stable-Same quote stringify (or_empty-Same same.one_query) i
            ∷ stable-Same quote stringify (or_empty-Same same.one_params) i
            ∷ stable-Same quote stringify (or_empty-Same same.one_body) i
            ∷ token_of-Same same.one_query i
            ∷ []))
    else same.one_header i
