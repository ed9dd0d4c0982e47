-- ===== src/Canonical.antt =====
-- The canonical text of a request that is hashed: `stable`, `buildRequestHash` and
-- `deriveIdempotencyKey` of apps/gateway-api/src/idempotency.ts, and `stableStringify` of
-- services/fabric-anchor-consumer/index.ts. Texts are lists of UTF-16 code units. JSON.stringify of
-- a string and of the other scalars, the request's accessors and SHA-256 are parameters.
pub mod Same
pub mod Printing
pub mod Reading
pub mod Laws
mod Tests
use roadwatch.Prelude.{
  ℕ, ltb, ◌/◌, ◌%◌, ◌==◌, ◌≡◌, not, ◌&&◌, List, [], ◌∷◌, ◌++◌, map, Option, none, some, Bool, true,
  false, if◌then◌else◌,
}
use roadwatch.Prelude.Text.{Text, codes}
use roadwatch.Prelude.Sorting.{sort, text_leb}
use roadwatch.Escalation.{text_eq, is_empty}
use roadwatch.RegionCode.{trim}

-- The bits of a double that is finite and not -0: the numbers that JSON.stringify tells apart. It
-- prints -0 as it does 0, and one that is not finite as null, and so these are 0 and null here.
abbrev pub is_number : ℕ → Bool
is_number bits =
    ltb bits 18446744073709551616
    && not ((bits / 4503599627370496) % 2048 == 2047)
    && not (bits == 9223372036854775808)

-- `typeof value !== 'object'`, but for undefined.
pub data Scalar : Type 0 where
  boolean : Bool → Scalar
  number : (bits : ℕ) → is_number bits ≡ true → Scalar
  string : Text → Scalar

mutual
  pub data Json : Type 0 where
    null undefined : Json
    scalar : Scalar → Json
    array : Items → Json
    object : Fields → Json

  pub data Items : Type 0 where
    nil : Items
    cons : Json → Items → Items

  -- The own properties in the order of the object, each key once.
  pub data Fields : Type 0 where
    end : Fields
    field : Text → Json → Fields → Fields

-- `Object.keys(obj)`
unfoldable pub keys : Fields → List Text
keys end = []
keys (field k v rest) = k ∷ keys rest

-- `texts.join(separator)`
abbrev pub join_rest : Text → List Text → Text
join_rest separator [] = []
join_rest separator (t ∷ ts) = separator ++ (t ++ join_rest separator ts)

abbrev pub join : Text → List Text → Text
join separator [] = []
join separator (t ∷ ts) = t ++ join_rest separator ts

-- `obj[k]`, in an object whose values have been mapped to texts.
unfoldable pub value_of : Text → List (Text × Text) → Text
value_of k [] = []
value_of k ((name, text) ∷ rest) =
    let other = value_of k rest in if text_eq name k then text else other

-- What the key is derived from; `idempotency_key` is the header of that name.
pub record Request : Type 0 where
  pub idempotency_key : Option Text
  pub method : Text
  pub path : Text
  pub query : Json
  pub params : Json
  pub body : Json

abbrev pub trimmed : Option Text → Text
trimmed none = []
trimmed (some header) = trim header

-- `value ?? {}`
abbrev pub or_empty : Json → Json
or_empty null = object end
or_empty undefined = object end
or_empty value = value

abbrev pub text_or_empty : Json → Text
text_or_empty (scalar (string t)) = t
text_or_empty _ = []

-- `typeof query?.token === 'string' ? query.token : ''`
abbrev pub token_in : Fields → Text
token_in end = []
token_in (field k value rest) =
    let other = token_in rest in if text_eq k (codes "token") then text_or_empty value else other

abbrev pub token_of : Json → Text
token_of (object fields) = token_in fields
token_of _ = []

module _ (quote : Text → Text) (stringify : Scalar → Text) where
  -- `${JSON.stringify(k)}:${...}`
  unfoldable pub member : List (Text × Text) → Text → Text
  member values k = quote k ++ (codes ":" ++ value_of k values)

  -- The body of an object: its keys in order, each with its value.
  unfoldable pub members : List Text → List (Text × Text) → Text
  members names values =
      codes "{" ++ (join (codes ",") (map (member values) (sort text_leb names)) ++ codes "}")

  unfoldable mutual
    pub stable : Json → Text
    stable null = codes "null"
    stable undefined = codes "null"
    stable (scalar s) = stringify s
    stable (array items) = codes "[" ++ (join (codes ",") (stable_items items) ++ codes "]")
    stable (object fields) = members (keys fields) (stable_fields fields)

    pub stable_items : Items → List Text
    stable_items nil = []
    stable_items (cons value items) = stable value ∷ stable_items items

    pub stable_fields : Fields → List (Text × Text)
    stable_fields end = []
    stable_fields (field k value fields) = (k, stable value) ∷ stable_fields fields

  -- JSON.stringify(undefined) is undefined, which the template spells out.
  unfoldable mutual
    pub stable_stringify : Json → Text
    stable_stringify null = codes "null"
    stable_stringify undefined = codes "undefined"
    stable_stringify (scalar s) = stringify s
    stable_stringify (array items) =
        codes "[" ++ (join (codes ",") (stringify_items items) ++ codes "]")
    stable_stringify (object fields) = members (keys fields) (stringify_fields fields)

    pub stringify_items : Items → List Text
    stringify_items nil = []
    stringify_items (cons value items) = stable_stringify value ∷ stringify_items items

    pub stringify_fields : Fields → List (Text × Text)
    stringify_fields end = []
    stringify_fields (field k value fields) = (k, stable_stringify value) ∷ stringify_fields fields

  abbrev pub fingerprint : Request → Text → Text
  fingerprint req scope = join (codes "|") (
      scope
      ∷ req.method
      ∷ req.path
      ∷ stable (or_empty req.query)
      ∷ stable (or_empty req.params)
      ∷ stable (or_empty req.body)
      ∷ token_of req.query
      ∷ [])

  module _ (sha256_hex : Text → Text) where
    unfoldable pub build_request_hash : Json → Text
    build_request_hash payload = sha256_hex (stable payload)

    unfoldable pub derive_idempotency_key : Request → Text → Text
    derive_idempotency_key req scope =
        let explicit = trimmed req.idempotency_key in
        if is_empty explicit then codes "auto:" ++ sha256_hex (fingerprint req scope) else explicit
