-- ===== src/Merkle.antt =====
-- The Merkle tree of an anchored batch, `merkleRoot` of services/fabric-anchor-consumer/index.ts.
-- SHA-256 is not code of the repository: `sha256_hex` is a parameter.

pub mod Proofs
pub mod Binding
mod Tests
use roadwatch.Prelude.{
  ℕ, zero, suc, ◌+◌, ◌-◌, ◌/◌, ◌%◌, List, [], ◌∷◌, ◌++◌, map, Option, none, some, ltb, ◌==◌, length,
  get_elem?, if◌then◌else◌,
}
use roadwatch.Prelude.Text.{Text}

pub data Direction : Type 0 where
  left right : Direction

pub record ProofStep : Type 0 where
  pub direction : Direction
  pub hash : Text

-- `a ?? b`.
abbrev pub or_else {ℓ} : {A : Type ℓ} → Option A → Option A → Option A
or_else none b = b
or_else (some a) b = some a

infixl 5 ◌>>=◌
abbrev pub ◌>>=◌ {ℓ κ} : {A : Type ℓ} {B : Type κ} → Option A → (A → Option B) → Option B
none >>= f = none
some a >>= f = f a

-- The sibling of a node, whose hash a proof step carries. `none` stands for `undefined`, which the
-- code excludes by its `!`.
pub sibling : List Text → ℕ → Option ProofStep
sibling layer i =
    if i % 2 == 1
    then (or_else (get_elem? layer (i - 1)) (get_elem? layer i) >>= λ sib.
        some (record { direction = left; hash = sib }))
    else (or_else (get_elem? layer (i + 1)) (get_elem? layer i) >>= λ sib.
        some (record { direction = right; hash = sib }))

-- The loop over all layers but the last.
pub prove_leaf : List (List Text) → ℕ → Option (List ProofStep)
unfolding sibling
prove_leaf [] i = some []
prove_leaf (layer ∷ []) i = some []
prove_leaf (layer ∷ upper ∷ layers) i = do
  step ← sibling layer i
  steps ← prove_leaf (upper ∷ layers) (i / 2)
  some (step ∷ steps)

-- `leafHashes.map((_, leafIndex) => …)`, from index `i` on.
pub prove_leaves : List (List Text) → ℕ → List Text → Option (List (List ProofStep))
unfolding prove_leaf
prove_leaves layers i [] = some []
prove_leaves layers i (leaf ∷ leaves) = do
  proof ← prove_leaf layers i
  proofs ← prove_leaves layers (i + 1) leaves
  some (proof ∷ proofs)

-- `layers.at(-1)![0]!`
pub top : List (List Text) → Option Text
top [] = none
top (layer ∷ []) = get_elem? layer 0
top (layer ∷ upper ∷ layers) = top (upper ∷ layers)

module _ (sha256_hex : Text → Text) where
  -- The inner loop: one layer from the one below; an odd last node is paired with itself.
  pub pair_up : List Text → List Text
  pair_up [] = []
  pair_up (l ∷ []) = sha256_hex (l ++ l) ∷ []
  pair_up (l ∷ r ∷ rest) = sha256_hex (l ++ r) ∷ pair_up rest

  -- `while (layers.at(-1)!.length > 1)`; `none` means that the fuel ran out.
  pub build_layers : ℕ → List Text → Option (List (List Text))
  unfolding pair_up
  build_layers zero layer = none
  build_layers (suc fuel) layer =
      let above = build_layers fuel (pair_up layer) in
      if ltb 1 (length layer)
      then (above >>= λ layers. some (layer ∷ layers))
      else some (layer ∷ [])

  -- Root and proofs of a non-empty batch. A layer is at most as long as the batch, and each round
  -- shortens it, so the fuel is the number of leaves.
  pub merkle_tree : List Text → Option (Text × List (List ProofStep))
  unfolding build_layers prove_leaves top
  merkle_tree leaf_hashes = do
    layers ← build_layers (length leaf_hashes) leaf_hashes
    root ← top layers
    proofs ← prove_leaves layers 0 leaf_hashes
    some (root, proofs)

  pub merkle_root : List Text → Option (Text × List (List ProofStep))
  unfolding merkle_tree
  merkle_root [] = some (sha256_hex [], [])
  merkle_root (leaf ∷ leaves) = merkle_tree (map sha256_hex (leaf ∷ leaves))

  pub join : Direction → Text → Text → Text
  join left sib own = sha256_hex (sib ++ own)
  join right sib own = sha256_hex (own ++ sib)

  -- How a verifier uses a proof: it hashes its way up from the hash of the leaf.
  pub replay : Text → List ProofStep → Text
  unfolding join
  replay own [] = own
  replay own (s ∷ steps) = replay (join s.direction s.hash own) steps
