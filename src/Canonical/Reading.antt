-- ===== src/Canonical/Reading.antt =====
-- The text of a normal form can be read back, for apps/gateway-api/src/idempotency.ts.
use roadwatch.Prelude.{
  ℕ, ◌≡◌, ◌≢◌, refl, sym, ap, ◌∙◌, List, [], ◌∷◌, ◌++◌, append_assoc, append-nil, ◌⊎◌, inl, inr,
  arith,
}
use roadwatch.Prelude.Text.{Text, codes}
use roadwatch.Canonical.{
  Scalar, Json, null, undefined, scalar, array, object, Items, nil, cons, Fields, end, field, join,
  join_rest,
}
use roadwatch.Canonical.Printing.{plain, plain_items, plain_fields}

-- A text that may follow a value: its end, or a comma or closing bracket.
abbrev pub Delimited : Text → Type 0
Delimited [] = Unit
Delimited (c ∷ rest) = (c ≡ b',') ⊎ ((c ≡ b']') ⊎ (c ≡ b'}'))

uncons : (c d : ℕ) (u v : Text) → ◌≡◌ {A = Text} (c ∷ u) (d ∷ v) → (c ≡ d) × (u ≡ v)
uncons c d u v h = (cc, cc)

-- What JSON.stringify does: a quoted text starts with the quote and ends at the closing one, and the
-- text of a boolean, a finite number or a string starts like none of the other values and ends
-- where what may follow a value starts.
pub record ReadsBack (quote : Text → Text) (stringify : Scalar → Text) : Type 0 where
  pub quote_opens : (k : Text) → (t : Text) × (quote k ≡ b'"' ∷ t)
  pub quote_ends : (k l r s : Text) → quote k ++ r ≡ quote l ++ s → (k ≡ l) × (r ≡ s)
  pub scalar_opens :
      (p : Scalar)
      → (c : ℕ) × (t : Text) × (stringify p ≡ c ∷ t)
        × (c ≢ b'[')
        × (c ≢ b'{')
        × (c ≢ b'n')
        × (c ≢ b'u')
        × (c ≢ b']')
  pub scalar_ends :
      (p q : Scalar) (r s : Text)
      → Delimited r
      → Delimited s
      → stringify p ++ r ≡ stringify q ++ s
      → (p ≡ q) × (r ≡ s)

module _ (quote : Text → Text) (stringify : Scalar → Text) (reads : ReadsBack quote stringify) where
  open reads use {quote_opens, quote_ends, scalar_opens, scalar_ends}

  -- The first unit of a value.
  lead :
      (p : Scalar) (c : ℕ) (u r : Text)
      → ◌≡◌ {A = Text} (c ∷ u) (stringify p ++ r)
      → c ≡ (scalar_opens p).0
  lead p c u r h =
      (uncons c (scalar_opens p).0 u ((scalar_opens p).1 ++ r)
        (h ∙ ap (λ t. t ++ r) (scalar_opens p).2)).0

  opens : (a : Json) → (c : ℕ) × (t : Text) × (plain quote stringify a ≡ c ∷ t) × (c ≢ b']')
  unfolding plain
  opens null = (b'n', codes "ull", refl, omega arith)
  opens undefined = (b'u', codes "ndefined", refl, omega arith)
  opens (scalar p) = let (c, t, e, a, b, d, f, g) = scalar_opens p in (c, t, e, g)
  opens (array items) = (b'[', _, refl, omega arith)
  opens (object fields) = (b'{', _, refl, omega arith)

  Apart : Json → Json → Type 0
  unfolding plain
  Apart a b =
      (r s : Text)
      → Delimited r
      → Delimited s
      → plain quote stringify a ++ r ≡ plain quote stringify b ++ s
      → (a ≡ b) × (r ≡ s)

  Delimited-rest :
      (texts : List Text) (r : Text) → Delimited r → Delimited (join_rest (codes ",") texts ++ r)
  Delimited-rest [] r h = h
  Delimited-rest (t ∷ ts) r h = inl refl

  item :
      (v w : Json) (ts us : List Text) (r s : Text)
      → Apart v w
      → Delimited r
      → Delimited s
      → (plain quote stringify v ++ join_rest (codes ",") ts) ++ r
        ≡ (plain quote stringify w ++ join_rest (codes ",") us) ++ s
      → (v ≡ w) × (join_rest (codes ",") ts ++ r ≡ join_rest (codes ",") us ++ s)
  unfolding Apart
  item v w ts us r s apart dr ds e = apart _ _ (Delimited-rest ts r dr) (Delimited-rest us s ds) (
      sym (append_assoc (plain quote stringify v) (join_rest (codes ",") ts) r)
      ∙ e
      ∙ append_assoc (plain quote stringify w) (join_rest (codes ",") us) s)

  closing :
      (c : ℕ) (a b r s : Text)
      → (a ++ (c ∷ [])) ++ r ≡ (b ++ (c ∷ [])) ++ s
      → a ++ (c ∷ r) ≡ b ++ (c ∷ s)
  closing c a b r s h = sym (append_assoc a (c ∷ []) r) ∙ h ∙ append_assoc b (c ∷ []) s

  -- No scalar's text starts like that of another value.
  not_scalar :
      (p : Scalar) (c : ℕ) (u r : Text)
      → ◌≡◌ {A = Text} (c ∷ u) (stringify p ++ r)
      → (c ≡ b'[') ⊎ ((c ≡ b'{') ⊎ ((c ≡ b'n') ⊎ (c ≡ b'u')))
      → ⊥
  not_scalar p c u r h k =
      let e = lead p c u r h in
      let (d, t, f, a, b, n, m, g) = scalar_opens p in
      elim k [
        | inl x ↦ a (sym e ∙ x)
        | inr y ↦ elim y [
          | inl x ↦ b (sym e ∙ x)
          | inr z ↦ elim z [ inl x ↦ n (sym e ∙ x) | inr x ↦ m (sym e ∙ x) ]
        ]
      ]

  -- An array that ends is not one that goes on.
  not_closed :
      (v : Json) (rest r s : Text)
      → ◌≡◌ {A = Text} (b']' ∷ r) ((plain quote stringify v ++ rest) ++ s)
      → ⊥
  not_closed v rest r s h =
      let (c, t, e, ne) = opens v in
      ne (sym (uncons b']' c r ((t ++ rest) ++ s) (h ∙ ap (λ x. (x ++ rest) ++ s) e)).0)

  -- The same for an object, whose members start with a quote.
  not_ended : (k : Text) (rest r s : Text) → ◌≡◌ {A = Text} (b'}' ∷ r) ((quote k ++ rest) ++ s) → ⊥
  not_ended k rest r s h =
      let (t, e) = quote_opens k in
      absurd (
        omega (arith, (uncons b'}' b'"' r ((t ++ rest) ++ s) (h ∙ ap (λ x. (x ++ rest) ++ s) e)).0))

  entry :
      (k l : Text) (v w : Json) (ts us : List Text) (r s : Text)
      → Apart v w
      → Delimited r
      → Delimited s
      → ((quote k ++ (b':' ∷ plain quote stringify v)) ++ join_rest (codes ",") ts) ++ r
        ≡ ((quote l ++ (b':' ∷ plain quote stringify w)) ++ join_rest (codes ",") us) ++ s
      → (k ≡ l) × (v ≡ w) × (join_rest (codes ",") ts ++ r ≡ join_rest (codes ",") us ++ s)
  entry k l v w ts us r s apart dr ds e =
      let (same, more) = quote_ends k l _ _ (
        sym (shift (quote k) (b':' ∷ plain quote stringify v) _ r)
        ∙ e
        ∙ shift (quote l) (b':' ∷ plain quote stringify w) _ s) in
      let (v_same, rest) = item v w ts us r s apart dr ds (uncons b':' b':' _ _ more).1 in
      (same, v_same, rest)
    where
      shift : (a b c d : Text) → ((a ++ b) ++ c) ++ d ≡ a ++ ((b ++ c) ++ d)
      shift a b c d = simp append_assoc

  mutual
    unfolding plain Apart

    plain-Apart : (a b : Json) → Apart a b
    plain-Apart null null r s dr ds h = (refl, (cc))
    plain-Apart undefined undefined r s dr ds h = (refl, (cc))
    plain-Apart null undefined r s dr ds h = absurd (omega (arith, (uncons _ _ _ _ h).0))
    plain-Apart undefined null r s dr ds h = absurd (omega (arith, (uncons _ _ _ _ h).0))
    plain-Apart null (array _) r s dr ds h = absurd (omega (arith, (uncons _ _ _ _ h).0))
    plain-Apart null (object _) r s dr ds h = absurd (omega (arith, (uncons _ _ _ _ h).0))
    plain-Apart undefined (array _) r s dr ds h = absurd (omega (arith, (uncons _ _ _ _ h).0))
    plain-Apart undefined (object _) r s dr ds h = absurd (omega (arith, (uncons _ _ _ _ h).0))
    plain-Apart (array _) null r s dr ds h = absurd (omega (arith, (uncons _ _ _ _ h).0))
    plain-Apart (object _) null r s dr ds h = absurd (omega (arith, (uncons _ _ _ _ h).0))
    plain-Apart (array _) undefined r s dr ds h = absurd (omega (arith, (uncons _ _ _ _ h).0))
    plain-Apart (object _) undefined r s dr ds h = absurd (omega (arith, (uncons _ _ _ _ h).0))
    plain-Apart (array _) (object _) r s dr ds h = absurd (omega (arith, (uncons _ _ _ _ h).0))
    plain-Apart (object _) (array _) r s dr ds h = absurd (omega (arith, (uncons _ _ _ _ h).0))
    plain-Apart null (scalar q) r s dr ds h = absurd (not_scalar q _ _ s h (inr (inr (inl refl))))
    plain-Apart undefined (scalar q) r s dr ds h =
        absurd (not_scalar q _ _ s h (inr (inr (inr refl))))
    plain-Apart (array _) (scalar q) r s dr ds h = absurd (not_scalar q _ _ s h (inl refl))
    plain-Apart (object _) (scalar q) r s dr ds h = absurd (not_scalar q _ _ s h (inr (inl refl)))
    plain-Apart (scalar p) null r s dr ds h =
        absurd (not_scalar p _ _ r (sym h) (inr (inr (inl refl))))
    plain-Apart (scalar p) undefined r s dr ds h =
        absurd (not_scalar p _ _ r (sym h) (inr (inr (inr refl))))
    plain-Apart (scalar p) (array _) r s dr ds h = absurd (not_scalar p _ _ r (sym h) (inl refl))
    plain-Apart (scalar p) (object _) r s dr ds h =
        absurd (not_scalar p _ _ r (sym h) (inr (inl refl)))
    plain-Apart (scalar p) (scalar q) r s dr ds h =
        let (e, rest) = scalar_ends p q r s dr ds h in (ap scalar e, rest)
    plain-Apart (array xs) (array ys) r s dr ds h =
        let (e, rest) = items_apart xs ys r s (closing b']' _ _ r s (uncons _ _ _ _ h).1) in
        (ap array e, rest)
    plain-Apart (object f) (object g) r s dr ds h =
        let (e, rest) = fields_apart f g r s (closing b'}' _ _ r s (uncons _ _ _ _ h).1) in
        (ap object e, rest)

    items_apart :
        (xs ys : Items) (r s : Text)
        → join (codes ",") (plain_items quote stringify xs) ++ (b']' ∷ r)
          ≡ join (codes ",") (plain_items quote stringify ys) ++ (b']' ∷ s)
        → (xs ≡ ys) × (r ≡ s)
    items_apart nil nil r s h = (refl, (uncons _ _ _ _ h).1)
    items_apart nil (cons w ys) r s h = absurd (not_closed w _ r (b']' ∷ s) h)
    items_apart (cons v xs) nil r s h = absurd (not_closed v _ s (b']' ∷ r) (sym h))
    items_apart (cons v xs) (cons w ys) r s h =
        let (e, more) =
          item v w _ _ (b']' ∷ r) (b']' ∷ s) (plain-Apart v w) (inr (inl refl)) (inr (inl refl))
            h in
        let (es, rest) = rest_apart xs ys r s more in (λ i. cons (e i) (es i), rest)

    rest_apart :
        (xs ys : Items) (r s : Text)
        → join_rest (codes ",") (plain_items quote stringify xs) ++ (b']' ∷ r)
          ≡ join_rest (codes ",") (plain_items quote stringify ys) ++ (b']' ∷ s)
        → (xs ≡ ys) × (r ≡ s)
    rest_apart nil nil r s h = (refl, (uncons _ _ _ _ h).1)
    rest_apart nil (cons w ys) r s h = absurd (omega (arith, (uncons _ _ _ _ h).0))
    rest_apart (cons v xs) nil r s h = absurd (omega (arith, (uncons _ _ _ _ h).0))
    rest_apart (cons v xs) (cons w ys) r s h =
        let (e, more) =
          item v w _ _ (b']' ∷ r) (b']' ∷ s) (plain-Apart v w) (inr (inl refl)) (inr (inl refl))
            (uncons _ _ _ _ h).1 in
        let (es, rest) = rest_apart xs ys r s more in (λ i. cons (e i) (es i), rest)

    fields_apart :
        (f g : Fields) (r s : Text)
        → join (codes ",") (plain_fields quote stringify f) ++ (b'}' ∷ r)
          ≡ join (codes ",") (plain_fields quote stringify g) ++ (b'}' ∷ s)
        → (f ≡ g) × (r ≡ s)
    fields_apart end end r s h = (refl, (uncons _ _ _ _ h).1)
    fields_apart end (field l w g) r s h =
        absurd (not_ended l _ r _ (h ∙ ap (λ t. t ++ (b'}' ∷ s)) (append_assoc (quote l) _ _)))
    fields_apart (field k v f) end r s h =
        absurd (not_ended k _ s _ (sym h ∙ ap (λ t. t ++ (b'}' ∷ r)) (append_assoc (quote k) _ _)))
    fields_apart (field k v f) (field l w g) r s h =
        let (ek, e, more) =
          entry k l v w _ _ (b'}' ∷ r) (b'}' ∷ s) (plain-Apart v w) (inr (inr refl))
            (inr (inr refl)) h in
        let (es, rest) = more_apart f g r s more in (λ i. field (ek i) (e i) (es i), rest)

    more_apart :
        (f g : Fields) (r s : Text)
        → join_rest (codes ",") (plain_fields quote stringify f) ++ (b'}' ∷ r)
          ≡ join_rest (codes ",") (plain_fields quote stringify g) ++ (b'}' ∷ s)
        → (f ≡ g) × (r ≡ s)
    more_apart end end r s h = (refl, (uncons _ _ _ _ h).1)
    more_apart end (field l w g) r s h = absurd (omega (arith, (uncons _ _ _ _ h).0))
    more_apart (field k v f) end r s h = absurd (omega (arith, (uncons _ _ _ _ h).0))
    more_apart (field k v f) (field l w g) r s h =
        let (ek, e, more) =
          entry k l v w _ _ (b'}' ∷ r) (b'}' ∷ s) (plain-Apart v w) (inr (inr refl))
            (inr (inr refl)) (uncons _ _ _ _ h).1 in
        let (es, rest) = more_apart f g r s more in (λ i. field (ek i) (e i) (es i), rest)

  -- Two values with one text are one.
  pub plain-injective : (a b : Json) → plain quote stringify a ≡ plain quote stringify b → a ≡ b
  unfolding Apart
  plain-injective a b h = (plain-Apart a b [] [] tt tt (append-nil _ ∙ h ∙ sym (append-nil _))).0
