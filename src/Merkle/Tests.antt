-- ===== src/Merkle/Tests.antt =====
-- A batch of five leaves under a toy digest of one number.
use roadwatch.Prelude.{ℕ, ◌+◌, ◌*◌, ◌%◌, ◌≡◌, refl, ◌⊎◌, List, [], ◌∷◌, map, some}
use roadwatch.Prelude.Text.{Text}
use roadwatch.Merkle.{ProofStep, merkle_root}
use roadwatch.Merkle.Proofs.{Verifies, merkle_root-Verifies}
use roadwatch.Merkle.Binding.{Collision, merkle_root-injective}

abbrev fold_digest : ℕ → Text → ℕ
fold_digest acc [] = acc
fold_digest acc (c ∷ cs) = fold_digest ((acc * 31 + c) % 65521) cs

abbrev toy_digest : Text → Text
toy_digest cs = fold_digest 7 cs ∷ []

abbrev five_leaves : List Text
five_leaves = (1 ∷ []) ∷ (2 ∷ []) ∷ (3 ∷ []) ∷ (4 ∷ []) ∷ (5 ∷ []) ∷ []

abbrev root_of_five : Text × List (List ProofStep)
root_of_five = (14477 ∷ [], [])

merkle_root_small : merkle_root toy_digest ((1 ∷ []) ∷ []) ≡ some (toy_digest (1 ∷ []), [] ∷ [])
unfolding merkle_root
merkle_root_small = refl

merkle_root-Verifies_example :
    (root : Text) × (proofs : List (List ProofStep)) × (merkle_root toy_digest five_leaves
      ≡ some (root, proofs))
    × Verifies toy_digest root (map toy_digest five_leaves) proofs
merkle_root-Verifies_example = merkle_root-Verifies toy_digest five_leaves

merkle_root-injective_example : (five_leaves ≡ five_leaves) ⊎ Collision toy_digest
unfolding merkle_root
merkle_root-injective_example =
    merkle_root-injective toy_digest 1 (λ x. refl) five_leaves five_leaves _ _ _ refl refl refl
