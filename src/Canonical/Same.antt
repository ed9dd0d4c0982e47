-- ===== src/Canonical/Same.antt =====
-- When two payloads are one for apps/gateway-api/src/idempotency.ts, and the normal form of one.
use roadwatch.Prelude.{◌≡◌, ◌≢◌, refl, sym, ap, ◌∙◌, ◌∷◌, Bool-cases, inl, inr, if◌then◌else◌}
use roadwatch.Prelude.Text.{Text}
use roadwatch.Prelude.Sorting.{sort, insert, text_leb}
use roadwatch.Canonical.{
  Scalar, Json, null, undefined, scalar, array, object, Items, nil, cons, Fields, end, field, keys,
}

-- One payload up to the order of the fields of its objects, at any depth, where an undefined value
-- is as good as null. Two different keys may change places.
mutual
  pub data Same : Json → Json → Type 0 where
    same_null : Same null null
    null_undefined : Same null undefined
    undefined_null : Same undefined null
    same_undefined : Same undefined undefined
    same_scalar : (s : Scalar) → Same (scalar s) (scalar s)
    same_array : {xs ys : Items} → SameItems xs ys → Same (array xs) (array ys)
    same_object : {f g : Fields} → SameFields f g → Same (object f) (object g)
    through : {a b c : Json} → Same a b → Same b c → Same a c

  pub data SameItems : Items → Items → Type 0 where
    same_nil : SameItems nil nil
    same_cons :
        {v w : Json} {xs ys : Items}
        → Same v w
        → SameItems xs ys
        → SameItems (cons v xs) (cons w ys)

  pub data SameFields : Fields → Fields → Type 0 where
    same_end : SameFields end end
    same_field :
        (k : Text) {v w : Json} {f g : Fields}
        → Same v w
        → SameFields f g
        → SameFields (field k v f) (field k w g)
    exchange :
        (k l : Text) (v w : Json) (f : Fields)
        → k ≢ l
        → SameFields (field k v (field l w f)) (field l w (field k v f))
    same_trans : {f g h : Fields} → SameFields f g → SameFields g h → SameFields f h

-- An equivalence.
mutual
  pub Same-sym : {a b : Json} → Same a b → Same b a
  Same-sym same_null = same_null
  Same-sym null_undefined = undefined_null
  Same-sym undefined_null = null_undefined
  Same-sym same_undefined = same_undefined
  Same-sym (same_scalar s) = same_scalar s
  Same-sym (same_array items) = same_array (SameItems-sym items)
  Same-sym (same_object fields) = same_object (SameFields-sym fields)
  Same-sym (through p q) = through (Same-sym q) (Same-sym p)

  SameItems-sym : {xs ys : Items} → SameItems xs ys → SameItems ys xs
  SameItems-sym same_nil = same_nil
  SameItems-sym (same_cons v items) = same_cons (Same-sym v) (SameItems-sym items)

  SameFields-sym : {f g : Fields} → SameFields f g → SameFields g f
  SameFields-sym same_end = same_end
  SameFields-sym (same_field k v fields) = same_field k (Same-sym v) (SameFields-sym fields)
  SameFields-sym (exchange k l v w f ne) = exchange l k w v f (λ e. ne (sym e))
  SameFields-sym (same_trans p q) = same_trans (SameFields-sym q) (SameFields-sym p)

mutual
  pub Same-rfl : (a : Json) → Same a a
  Same-rfl null = same_null
  Same-rfl undefined = same_undefined
  Same-rfl (scalar s) = same_scalar s
  Same-rfl (array items) = same_array (SameItems-rfl items)
  Same-rfl (object fields) = same_object (SameFields-rfl fields)

  SameItems-rfl : (xs : Items) → SameItems xs xs
  SameItems-rfl nil = same_nil
  SameItems-rfl (cons v items) = same_cons (Same-rfl v) (SameItems-rfl items)

  SameFields-rfl : (f : Fields) → SameFields f f
  SameFields-rfl end = same_end
  SameFields-rfl (field k v fields) = same_field k (Same-rfl v) (SameFields-rfl fields)

abbrev pub Absent : Text → Fields → Type 0
Absent k end = Unit
Absent k (field l v f) = (k ≢ l) × Absent k f

-- What every object of the language satisfies: no key is there twice.
unfoldable mutual
  pub Distinct : Json → Type 0
  Distinct null = Unit
  Distinct undefined = Unit
  Distinct (scalar s) = Unit
  Distinct (array items) = DistinctItems items
  Distinct (object fields) = DistinctFields fields

  pub DistinctItems : Items → Type 0
  DistinctItems nil = Unit
  DistinctItems (cons v items) = Distinct v × DistinctItems items

  pub DistinctFields : Fields → Type 0
  DistinctFields end = Unit
  DistinctFields (field k v f) = Absent k f × Distinct v × DistinctFields f

abbrev pub insert_field : Text → Json → Fields → Fields
insert_field k v end = field k v end
insert_field k v (field l w f) =
    let rest = insert_field k v f in
    if text_leb k l then field k v (field l w f) else field l w rest

-- Fields sorted by key at every depth, and undefined as null.
unfoldable mutual
  pub norm : Json → Json
  norm null = null
  norm undefined = null
  norm (scalar s) = scalar s
  norm (array items) = array (norm_items items)
  norm (object fields) = object (norm_fields fields)

  pub norm_items : Items → Items
  norm_items nil = nil
  norm_items (cons v items) = cons (norm v) (norm_items items)

  pub norm_fields : Fields → Fields
  norm_fields end = end
  norm_fields (field k v f) = insert_field k (norm v) (norm_fields f)

Absent-insert_field :
    (m k : Text) (v : Json) (f : Fields) → m ≢ k → Absent m f → Absent m (insert_field k v f)
Absent-insert_field m k v end ne h = (ne, tt)
Absent-insert_field m k v (field l w f) ne h = elim (Bool-cases (text_leb k l)) [
  | inl e ↦ rw e (ne, h)
  | inr e ↦ rw e (h.0, Absent-insert_field m k v f ne h.1)
]

pub Absent-norm_fields : (m : Text) (f : Fields) → Absent m f → Absent m (norm_fields f)
unfolding norm
Absent-norm_fields m end h = tt
Absent-norm_fields m (field k v f) h =
    Absent-insert_field m k (norm v) (norm_fields f) h.0 (Absent-norm_fields m f h.1)

insert_field-SameFields :
    (k : Text) (v : Json) (f : Fields) → Absent k f → SameFields (field k v f) (insert_field k v f)
insert_field-SameFields k v end h = SameFields-rfl (field k v end)
insert_field-SameFields k v (field l w f) h = elim (Bool-cases (text_leb k l)) [
  | inl e ↦ rw e (SameFields-rfl (field k v (field l w f)))
  | inr e ↦ rw e (
      same_trans (exchange k l v w f h.0)
        (same_field l (Same-rfl w) (insert_field-SameFields k v f h.1)))
]

mutual
  unfolding norm Distinct

  pub norm-Same : (a : Json) → Distinct a → Same a (norm a)
  norm-Same null h = same_null
  norm-Same undefined h = undefined_null
  norm-Same (scalar s) h = same_scalar s
  norm-Same (array items) h = same_array (norm_items-SameItems items h)
  norm-Same (object fields) h = same_object (norm_fields-SameFields fields h)

  norm_items-SameItems : (xs : Items) → DistinctItems xs → SameItems xs (norm_items xs)
  norm_items-SameItems nil h = same_nil
  norm_items-SameItems (cons v items) h =
      same_cons (norm-Same v h.0) (norm_items-SameItems items h.1)

  norm_fields-SameFields : (f : Fields) → DistinctFields f → SameFields f (norm_fields f)
  norm_fields-SameFields end h = same_end
  norm_fields-SameFields (field k v f) h =
      same_trans (same_field k (norm-Same v h.1) (norm_fields-SameFields f h.2))
        (insert_field-SameFields k (norm v) (norm_fields f) (Absent-norm_fields k f h.0))

keys-insert_field :
    (k : Text) (v : Json) (f : Fields) → keys (insert_field k v f) ≡ insert text_leb k (keys f)
unfolding keys
keys-insert_field k v end = refl
keys-insert_field k v (field l w f) = elim (Bool-cases (text_leb k l)) [
  | inl e ↦ rw e refl
  | inr e ↦ rw e (ap (◌∷◌ l) (keys-insert_field k v f))
]

pub keys-norm_fields : (f : Fields) → keys (norm_fields f) ≡ sort text_leb (keys f)
unfolding keys norm sort
keys-norm_fields end = refl
keys-norm_fields (field k v f) =
    keys-insert_field k (norm v) (norm_fields f) ∙ ap (insert text_leb k) (keys-norm_fields f)
