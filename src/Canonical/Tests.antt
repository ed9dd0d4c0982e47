-- ===== src/Canonical/Tests.antt =====
-- Canonical texts of small payloads, with a concrete JSON.stringify.
use roadwatch.Prelude.{
  ℕ, zero, suc, ◌≡◌, ◌≢◌, ◌⊎◌, refl, sym, ap, subst, ◌∙◌, some, [], ◌∷◌, ◌++◌, true, false, ◌==◌,
  if◌then◌else◌, arith,
}
use roadwatch.Prelude.Text.{Text, codes}
use roadwatch.Prelude.Sorting.{sort}
use mathlib.Core.Bool.{Bool-set}
use roadwatch.Canonical.{
  is_number, keys, members, member, value_of, Scalar, boolean, number, string, Json, null,
  undefined, scalar, object, end, field, Request, stable, stable_stringify, build_request_hash,
  derive_idempotency_key,
}
use roadwatch.Canonical.Same.{
  null_undefined, Distinct, Same-rfl, Same, same_object, exchange, same_end, same_field,
  same_scalar, same_trans,
}
use roadwatch.Canonical.Reading.{ReadsBack, Delimited}
use roadwatch.Canonical.Laws.{build_request_hash_iff, Resent, derive_idempotency_key-Resent}

-- The units of a string in front of `rest`, quotes and backslashes escaped.
escape : Text → Text → Text
escape [] rest = rest
escape (c ∷ cs) rest =
    let more = escape cs rest in
    if c == b'"' then b'\\' ∷ b'"' ∷ more else if c == b'\\' then b'\\' ∷ b'\\' ∷ more else c ∷ more

quote : Text → Text
quote k = b'"' ∷ escape k (b'"' ∷ [])

-- A number as so many zeros and one more.
zeros : ℕ → Text
zeros zero = b'0' ∷ []
zeros (suc n) = b'0' ∷ zeros n

stringify : Scalar → Text
stringify (boolean true) = codes "true"
stringify (boolean false) = codes "false"
stringify (number n fine) = zeros n
stringify (string t) = quote t

escape-append : (k rest r : Text) → escape k rest ++ r ≡ escape k (rest ++ r)
unfolding escape
escape-append [] rest r = refl
escape-append (c ∷ cs) rest r = ground (arith, escape-append cs rest r)

escape_ends : (k l r s : Text) → escape k (b'"' ∷ r) ≡ escape l (b'"' ∷ s) → (k ≡ l) × (r ≡ s)
unfolding escape
escape_ends [] [] r s h = (refl, (cc))
escape_ends [] (d ∷ ds) r s h = absurd (ground arith)
escape_ends (c ∷ cs) [] r s h = absurd (ground arith)
escape_ends (c ∷ cs) (d ∷ ds) r s h = ground (arith, escape_ends cs ds r s)

quote_end : (k l r s : Text) → quote k ++ r ≡ quote l ++ s → (k ≡ l) × (r ≡ s)
unfolding quote
quote_end k l r s h =
    escape_ends k l r s
      (sym (escape-append k (b'"' ∷ []) r) ∙ ap tail h ∙ escape-append l (b'"' ∷ []) s)
  where
    tail : Text → Text
    tail [] = []
    tail (c ∷ cs) = cs

zeros_longer : (m : ℕ) (r s : Text) → Delimited r → zeros zero ++ r ≡ zeros (suc m) ++ s → ⊥
unfolding zeros
zeros_longer zero [] s d e = cc
zeros_longer (suc m) [] s d e = cc
zeros_longer zero (c ∷ r) s d e = ground arith
zeros_longer (suc m) (c ∷ r) s d e = ground arith

zeros_end :
    (n m : ℕ) (r s : Text)
    → Delimited r
    → Delimited s
    → zeros n ++ r ≡ zeros m ++ s
    → (n ≡ m) × (r ≡ s)
unfolding zeros
zeros_end zero zero r s dr ds h = (refl, (cc))
zeros_end zero (suc m) r s dr ds h = absurd (zeros_longer m r s dr h)
zeros_end (suc n) zero r s dr ds h = absurd (zeros_longer n s r ds (sym h))
zeros_end (suc n) (suc m) r s dr ds h = let (e, f) = zeros_end n m r s dr ds (cc) in (ap suc e, f)

opens :
    (p : Scalar)
    → (c : ℕ) × (t : Text) × (stringify p ≡ c ∷ t)
      × (c ≢ b'[')
      × (c ≢ b'{')
      × (c ≢ b'n')
      × (c ≢ b'u')
      × (c ≢ b']')
unfolding stringify quote zeros
opens (boolean true) =
    (b't', codes "rue", refl, omega arith, omega arith, omega arith, omega arith, omega arith)
opens (boolean false) =
    (b'f', codes "alse", refl, omega arith, omega arith, omega arith, omega arith, omega arith)
opens (number zero fine) =
    (b'0', [], refl, omega arith, omega arith, omega arith, omega arith, omega arith)
opens (number (suc n) fine) =
    (b'0', zeros n, refl, omega arith, omega arith, omega arith, omega arith, omega arith)
opens (string t) = (
  b'"',
  escape t (b'"' ∷ []),
  refl,
  omega arith,
  omega arith,
  omega arith,
  omega arith,
  omega arith,
)

one_number :
    (n m : ℕ) → n ≡ m → (p : is_number n ≡ true) (q : is_number m ≡ true) → number n p ≡ number m q
one_number n m e p =
    subst (λ m. (q : is_number m ≡ true) → number n p ≡ number m q) e
      (λ q. ap (number n) (Bool-set (is_number n) true p q))

scalar_end :
    (p q : Scalar) (r s : Text)
    → Delimited r
    → Delimited s
    → stringify p ++ r ≡ stringify q ++ s
    → (p ≡ q) × (r ≡ s)
unfolding stringify quote zeros
scalar_end (boolean true) (boolean true) r s dr ds h = (refl, (cc))
scalar_end (boolean false) (boolean false) r s dr ds h = (refl, (cc))
scalar_end (boolean true) (boolean false) r s dr ds h = absurd (ground arith)
scalar_end (boolean false) (boolean true) r s dr ds h = absurd (ground arith)
scalar_end (boolean true) (number zero fine) r s dr ds h = absurd (ground arith)
scalar_end (boolean true) (number (suc n) fine) r s dr ds h = absurd (ground arith)
scalar_end (boolean false) (number zero fine) r s dr ds h = absurd (ground arith)
scalar_end (boolean false) (number (suc n) fine) r s dr ds h = absurd (ground arith)
scalar_end (boolean true) (string t) r s dr ds h = absurd (ground arith)
scalar_end (boolean false) (string t) r s dr ds h = absurd (ground arith)
scalar_end (number zero fine) (boolean true) r s dr ds h = absurd (ground arith)
scalar_end (number (suc n) fine) (boolean true) r s dr ds h = absurd (ground arith)
scalar_end (number zero fine) (boolean false) r s dr ds h = absurd (ground arith)
scalar_end (number (suc n) fine) (boolean false) r s dr ds h = absurd (ground arith)
scalar_end (number n fine) (number m sound) r s dr ds h =
    let (e, f) = zeros_end n m r s dr ds h in (one_number n m e fine sound, f)
scalar_end (number zero fine) (string t) r s dr ds h = absurd (ground arith)
scalar_end (number (suc n) fine) (string t) r s dr ds h = absurd (ground arith)
scalar_end (string t) (boolean true) r s dr ds h = absurd (ground arith)
scalar_end (string t) (boolean false) r s dr ds h = absurd (ground arith)
scalar_end (string t) (number zero fine) r s dr ds h = absurd (ground arith)
scalar_end (string t) (number (suc n) fine) r s dr ds h = absurd (ground arith)
scalar_end (string t) (string u) r s dr ds h = let (e, f) = quote_end t u r s h in (ap string e, f)

reads : ReadsBack quote stringify
unfolding quote
reads = record {
  quote_opens = λ k. (escape k (b'"' ∷ []), refl);
  quote_ends = quote_end;
  scalar_opens = opens;
  scalar_ends = scalar_end;
}

abbrev count : Json
count = scalar (number 1 refl)

-- `{"b": {"z": null, "a": "x"}, "a": 1}` and `{"a": 1, "b": {"a": "x", "z": undefined}}`
abbrev first : Json
first = object (
    field (codes "b")
      (object (field (codes "z") null (field (codes "a") (scalar (string (codes "x"))) end)))
      (field (codes "a") count end))

abbrev second : Json
second = object (
    field (codes "a") count (
      field (codes "b")
        (object (field (codes "a") (scalar (string (codes "x"))) (field (codes "z") undefined end)))
        end))

printed : stable quote stringify second ≡ codes "{\"a\":00,\"b\":{\"a\":\"x\",\"z\":null}}"
unfolding stable sort quote escape stringify zeros members keys member value_of
printed = refl

-- The consumer spells undefined out.
spelled : stable_stringify quote stringify undefined ≡ codes "undefined"
unfolding stable_stringify
spelled = refl

first-Distinct : Distinct first
unfolding Distinct
first-Distinct = ((ground arith, tt), ((ground arith, tt), tt, (tt, tt, tt)), (tt, tt, tt))

second-Distinct : Distinct second
unfolding Distinct
second-Distinct = ((ground arith, tt), tt, (tt, ((ground arith, tt), tt, (tt, tt, tt)), tt))

abbrev first_same : Same first second
first_same = same_object (
    same_trans (exchange (codes "b") (codes "a") _ count end (ground arith)) (
      same_field (codes "a") (same_scalar (number 1 refl)) (
        same_field (codes "b")
          (same_object (
            same_trans (exchange (codes "z") (codes "a") null _ end (ground arith)) (
              same_field (codes "a") (same_scalar (string (codes "x")))
                (same_field (codes "z") null_undefined same_end))))
          same_end)))

build_request_hash_iff_example :
    (Same first second
      → build_request_hash quote stringify (λ t. t) first
        ≡ build_request_hash quote stringify (λ t. t) second)
    × (build_request_hash quote stringify (λ t. t) first
          ≡ build_request_hash quote stringify (λ t. t) second
        → Same first second ⊎ ((x : Text) × (y : Text) × (x ≢ y) × (x ≡ y)))
build_request_hash_iff_example =
    build_request_hash_iff quote stringify reads first second first-Distinct second-Distinct
      (λ t. t)

-- A request with a field for a query that is sent again with its body in another order.
abbrev request : Json → Request
request body = record {
  idempotency_key = some (codes "  ");
  method = codes "POST";
  path = codes "/complaints";
  query = object (field (codes "token") (scalar (string (codes "t"))) end);
  params = undefined;
  body = body;
}

resent : Resent (request first) (request second)
resent = record {
  one_header = refl;
  one_method = refl;
  one_path = refl;
  one_query = Same-rfl _;
  one_params = Same-rfl _;
  one_body = first_same;
}

derive_idempotency_key-Resent_example :
    derive_idempotency_key quote stringify (λ t. t) (request first) (codes "citizen")
    ≡ derive_idempotency_key quote stringify (λ t. t) (request second) (codes "citizen")
derive_idempotency_key-Resent_example =
    derive_idempotency_key-Resent quote stringify (λ t. t) (codes "citizen") (request first)
      (request second) resent
