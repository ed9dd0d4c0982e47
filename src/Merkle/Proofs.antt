-- ===== src/Merkle/Proofs.antt =====
-- Every batch gets a root, and every leaf of it a proof that leads back to that root.
use roadwatch.Prelude.{
  ℕ, zero, suc, ◌+◌, ◌-◌, ◌/◌, ◌%◌, ◌≤◌, ◌<◌, ◌≡◌, refl, ◌∙◌, ◌⊎◌, inl, inr, List, [], ◌∷◌, map,
  some, ltb, ltb→lt, length, get_elem?, arith, Bool-cases,
}
use roadwatch.Prelude.Text.{Text}
use roadwatch.Merkle.{
  ProofStep, left, right, sibling, prove_leaf, prove_leaves, top, pair_up, build_layers,
  merkle_tree, merkle_root, join, replay,
}

sibling-suc-suc :
    (l r : Text) (rest : List Text) (i : ℕ) → sibling (l ∷ r ∷ rest) (suc (suc i)) ≡ sibling rest i
unfolding sibling
sibling-suc-suc l r rest zero = refl
sibling-suc-suc l r rest (suc i) =
    let parity : suc (suc (suc i)) % 2 ≡ suc i % 2 = omega arith in
    let up : suc (suc (suc i)) + 1 ≡ suc (suc (suc i + 1)) = omega arith in
    let down : suc (suc (suc i)) - 1 ≡ suc (suc i) = omega arith in
    let down' : suc i - 1 ≡ i = omega arith in rw (parity, up, down, down')

get_elem?-small :
    (layer : List Text) (i : ℕ) {x : Text}
    → length layer ≤ 1
    → get_elem? layer i ≡ some x
    → get_elem? layer 0 ≡ some x
get_elem?-small [] i small at = at
get_elem?-small (l ∷ rest) zero small at = at
get_elem?-small (l ∷ []) (suc i) small at = cc
get_elem?-small (l ∷ r ∷ rest) (suc i) small at = absurd (omega arith)

module _ (sha256_hex : Text → Text) where
  -- A node and its proof step hash to the node above.
  pair_up-sibling :
      (layer : List Text) (i : ℕ) {x : Text}
      → get_elem? layer i ≡ some x
      → (s : ProofStep) × (sibling layer i ≡ some s)
        × (get_elem? (pair_up sha256_hex layer) (i / 2)
            ≡ some (join sha256_hex s.direction s.hash x))
  unfolding sibling pair_up join
  pair_up-sibling [] i h = cc
  pair_up-sibling (l ∷ []) zero h = (record { direction = right; hash = l }, refl, cc)
  pair_up-sibling (l ∷ []) (suc i) h = cc
  pair_up-sibling (l ∷ r ∷ rest) zero h = (record { direction = right; hash = r }, refl, cc)
  pair_up-sibling (l ∷ r ∷ rest) (suc zero) h = (record { direction = left; hash = l }, refl, cc)
  pair_up-sibling (l ∷ r ∷ rest) (suc (suc i)) h =
      let (s, same, above) = pair_up-sibling rest i h in
      let half : suc (suc i) / 2 ≡ suc (i / 2) = omega arith in
      (s, sibling-suc-suc l r rest i ∙ same, rw half above)

  pub length-pair_up :
      (layer : List Text) → length (pair_up sha256_hex layer) ≡ (length layer + 1) / 2
  unfolding pair_up
  length-pair_up [] = refl
  length-pair_up (l ∷ []) = refl
  length-pair_up (l ∷ r ∷ rest) = omega (arith, length-pair_up rest)

  -- Fuel for one round per node is enough.
  pub build_layers_total :
      (fuel : ℕ) (layer : List Text)
      → length layer ≤ fuel
      → 0 < fuel
      → (above : List (List Text)) × (build_layers sha256_hex fuel layer ≡ some (layer ∷ above))
  unfolding build_layers
  build_layers_total zero layer fits more = absurd (omega arith)
  build_layers_total (suc fuel) layer fits more = elim (Bool-cases (ltb 1 (length layer))) [
    | inr small ↦ ([], rw small)
    | inl big ↦
        let two : 1 < length layer = ltb→lt 1 (length layer) big in
        let (above, built) =
          build_layers_total fuel (pair_up sha256_hex layer) (omega (arith, length-pair_up layer))
            (omega arith) in
        (pair_up sha256_hex layer ∷ above, rw (big, built))
  ]

  pub build_layers-head :
      (fuel : ℕ) (layer : List Text) (layers : List (List Text))
      → build_layers sha256_hex fuel layer ≡ some layers
      → (above : List (List Text)) × (layers ≡ layer ∷ above)
  unfolding build_layers
  build_layers-head zero layer layers built = cc
  build_layers-head (suc fuel) layer layers built = ground arith

  pub build_layers-eq-some :
      (fuel : ℕ) (layer : List Text) (above : List (List Text))
      → build_layers sha256_hex (suc fuel) layer ≡ some (layer ∷ above)
      → ((above ≡ []) × (length layer ≤ 1))
        ⊎ ((rest : List (List Text)) × (1 < length layer)
            × (above ≡ pair_up sha256_hex layer ∷ rest)
            × (build_layers sha256_hex fuel (pair_up sha256_hex layer)
                ≡ some (pair_up sha256_hex layer ∷ rest)))
  unfolding build_layers
  build_layers-eq-some fuel layer above built =
      ground (arith, build_layers-head fuel (pair_up sha256_hex layer) above)

  -- From any layer that was built, a node's proof leads to the top.
  prove_leaf-replay :
      (fuel : ℕ) (layer : List Text) (above : List (List Text)) (i : ℕ) {x : Text}
      → build_layers sha256_hex fuel layer ≡ some (layer ∷ above)
      → get_elem? layer i ≡ some x
      → (steps : List ProofStep) × (prove_leaf (layer ∷ above) i ≡ some steps)
        × (top (layer ∷ above) ≡ some (replay sha256_hex x steps))
  unfolding build_layers prove_leaf top replay
  prove_leaf-replay zero layer above i built at = cc
  prove_leaf-replay (suc fuel) layer above i built at =
      elim (build_layers-eq-some fuel layer above built) [
        | inl (none_above, small) ↦ rw none_above ([], refl, get_elem?-small layer i small at)
        | inr (rest, big, next, built') ↦
            let (s, here, up) = pair_up-sibling layer i at in
            let (steps, later, topped) =
              prove_leaf-replay fuel (pair_up sha256_hex layer) rest (i / 2) built' up in
            rw next (s ∷ steps, rw (here, later), topped)
      ]

  -- What the proof at each position must be for the verifier of that leaf.
  abbrev pub Verifies : Text → List Text → List (List ProofStep) → Type 0
  Verifies root [] [] = Unit
  Verifies root (own ∷ hashes) (proof ∷ proofs) =
      (replay sha256_hex own proof ≡ root) × Verifies root hashes proofs
  Verifies root _ _ = ⊥

  prove_leaves-Verifies :
      (layers : List (List Text)) (root : Text) (i : ℕ) (hashes : List Text)
      → ((k : ℕ) (own : Text)
          → get_elem? hashes k ≡ some own
          → (steps : List ProofStep) × (prove_leaf layers (i + k) ≡ some steps)
            × (replay sha256_hex own steps ≡ root))
      → (proofs : List (List ProofStep)) × (prove_leaves layers i hashes ≡ some proofs)
        × Verifies root hashes proofs
  unfolding prove_leaves
  prove_leaves-Verifies layers root i [] each = ([], refl, tt)
  prove_leaves-Verifies layers root i (own ∷ hashes) each =
      let (steps, here, leads) = each 0 own refl in
      let (proofs, later, all) =
        prove_leaves-Verifies layers root (i + 1) hashes
          (λ k x at. let e : i + 1 + k ≡ i + suc k = omega arith in rw e (each (suc k) x at)) in
      let e : i + 0 ≡ i = omega arith in (steps ∷ proofs, rw (rw e at here, later), (leads, all))

  merkle_tree-Verifies :
      (own : Text) (hashes : List Text)
      → (root : Text) × (proofs : List (List ProofStep)) × (merkle_tree sha256_hex (own ∷ hashes)
          ≡ some (root, proofs))
        × Verifies root (own ∷ hashes) proofs
  unfolding merkle_tree
  merkle_tree-Verifies own hashes =
      let fuel : ℕ = suc (length hashes) in
      let leaves = own ∷ hashes in
      let (above, built) = build_layers_total fuel leaves (omega arith) (omega arith) in
      let (first, found, topped) = prove_leaf-replay fuel leaves above 0 built refl in
      let root = replay sha256_hex own first in
      let (proofs, proved, all) = prove_leaves-Verifies (leaves ∷ above) root 0 leaves (λ k x at.
        let (steps, here, up) = prove_leaf-replay fuel leaves above k built at in
        let e : 0 + k ≡ k = omega arith in (steps, rw e here, cc)) in
      (root, proofs, rw (built, topped, proved), all)

  -- For every batch of leaves, the empty one included, the code returns a root and one proof for
  -- each leaf, and hashing the leaf's hash up along its proof gives the root.
  pub merkle_root-Verifies :
      (leaves : List Text)
      → (root : Text) × (proofs : List (List ProofStep)) × (merkle_root sha256_hex leaves
          ≡ some (root, proofs))
        × Verifies root (map sha256_hex leaves) proofs
  unfolding merkle_root
  merkle_root-Verifies [] = (sha256_hex [], [], refl, tt)
  merkle_root-Verifies (leaf ∷ leaves) =
      merkle_tree-Verifies (sha256_hex leaf) (map sha256_hex leaves)
