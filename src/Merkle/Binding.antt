-- ===== src/Merkle/Binding.antt =====
-- A root binds its batch: what a second batch with the same root shows.
use roadwatch.Prelude.{
  ℕ, zero, suc, ◌≤◌, ◌<◌, ◌≡◌, refl, sym, ap, ◌∙◌, ◌⊎◌, ◌≢◌, inl, inr, List, [], ◌∷◌, ◌++◌, map,
  some, length, length-map, arith, All,
}
use roadwatch.Prelude.Text.{Text, Text-discrete}
use roadwatch.Merkle.{ProofStep, top, pair_up, build_layers, merkle_tree, merkle_root}
use roadwatch.Merkle.Proofs.{build_layers_total, build_layers-eq-some, length-pair_up}

tail_eq : {x y : ℕ} {xs ys : Text} → x ∷ xs ≡ y ∷ ys → (x ≡ y) × (xs ≡ ys)
tail_eq e = (cc, cc)

append-injective :
    (a b : Text) {c d : Text} → length a ≡ length b → a ++ c ≡ b ++ d → (a ≡ b) × (c ≡ d)
append-injective [] [] same e = (refl, e)
append-injective [] (y ∷ b) same e = absurd (omega arith)
append-injective (x ∷ a) [] same e = absurd (omega arith)
append-injective (x ∷ a) (y ∷ b) same e =
    let (heads, tails) = tail_eq e in
    let (front, back) = append-injective a b (omega arith) tails in (cc, back)

module _ (sha256_hex : Text → Text) where
  -- Two texts with one digest.
  abbrev pub Collision : Type 0
  Collision = (a : Text) × (b : Text) × (a ≢ b) × (sha256_hex a ≡ sha256_hex b)

  sha256_hex-injective : (a b : Text) → sha256_hex a ≡ sha256_hex b → (a ≡ b) ⊎ Collision
  sha256_hex-injective a b e = elim (Text-discrete a b) [
    | yes same ↦ inl same
    | no other ↦ inr (a, b, other, e)
  ]

  map-sha256_hex-injective :
      (xs ys : List Text) → map sha256_hex xs ≡ map sha256_hex ys → (xs ≡ ys) ⊎ Collision
  map-sha256_hex-injective [] [] e = inl refl
  map-sha256_hex-injective [] (y ∷ ys) e = cc
  map-sha256_hex-injective (x ∷ xs) [] e = cc
  map-sha256_hex-injective (x ∷ xs) (y ∷ ys) e =
      ground (arith, sha256_hex-injective x y, map-sha256_hex-injective xs ys)

  module _ (width : ℕ) (fixed : (x : Text) → length (sha256_hex x) ≡ width) where
    abbrev IsDigest : Text → Type 0
    IsDigest h = length h ≡ width

    pair_up-injective :
        (xs ys : List Text)
        → All IsDigest xs
        → All IsDigest ys
        → length xs ≡ length ys
        → pair_up sha256_hex xs ≡ pair_up sha256_hex ys
        → (xs ≡ ys) ⊎ Collision
    unfolding pair_up
    pair_up-injective [] [] dx dy same e = inl refl
    pair_up-injective [] (y ∷ ys) dx dy same e = absurd (omega arith)
    pair_up-injective (x ∷ xs) [] dx dy same e = absurd (omega arith)
    pair_up-injective (x ∷ []) (y ∷ y' ∷ ys) dx dy same e = absurd (omega arith)
    pair_up-injective (x ∷ x' ∷ xs) (y ∷ []) dx dy same e = absurd (omega arith)
    pair_up-injective (x ∷ []) (y ∷ []) dx dy same e =
        ground (arith, sha256_hex-injective (x ++ x) (y ++ y), append-injective x y {c = x} {d = y})
    pair_up-injective (x ∷ x' ∷ xs) (y ∷ y' ∷ ys) dx dy same e = ground (
      arith,
      sha256_hex-injective (x ++ x') (y ++ y'),
      append-injective x y {c = x'} {d = y'},
      pair_up-injective xs ys dx.1.1 dy.1.1,
    )

    pair_up-IsDigest : (xs : List Text) → All IsDigest (pair_up sha256_hex xs)
    unfolding pair_up
    pair_up-IsDigest [] = tt
    pair_up-IsDigest (x ∷ []) = (fixed _, tt)
    pair_up-IsDigest (x ∷ x' ∷ xs) = (fixed _, pair_up-IsDigest xs)

    top-injective_single :
        (xs ys : List Text)
        → length xs ≡ length ys
        → length xs ≤ 1
        → top (xs ∷ []) ≡ top (ys ∷ [])
        → xs ≡ ys
    unfolding top
    top-injective_single [] [] same small e = refl
    top-injective_single [] (y ∷ ys) same small e = absurd (omega arith)
    top-injective_single (x ∷ xs) [] same small e = absurd (omega arith)
    top-injective_single (x ∷ []) (y ∷ []) same small e = cc
    top-injective_single (x ∷ []) (y ∷ y' ∷ ys) same small e = absurd (omega arith)
    top-injective_single (x ∷ x' ∷ xs) (y ∷ ys) same small e = absurd (omega arith)

    top-injective :
        (fuel : ℕ) (xs ys : List Text) (above above' : List (List Text))
        → All IsDigest xs
        → All IsDigest ys
        → length xs ≡ length ys
        → build_layers sha256_hex fuel xs ≡ some (xs ∷ above)
        → build_layers sha256_hex fuel ys ≡ some (ys ∷ above')
        → top (xs ∷ above) ≡ top (ys ∷ above')
        → (xs ≡ ys) ⊎ Collision
    unfolding build_layers top
    top-injective zero xs ys above above' dx dy same bx by e = cc
    top-injective (suc fuel) xs ys above above' dx dy same bx by e =
        elim (build_layers-eq-some sha256_hex fuel xs above bx) [
          | inl (at, small) ↦ elim (build_layers-eq-some sha256_hex fuel ys above' by) [
            | inl (at', small') ↦ inl (
                top-injective_single xs ys same small
                  (sym (ap (λ a. top (xs ∷ a)) at) ∙ e ∙ ap (λ a. top (ys ∷ a)) at'))
            | inr (rest', big', at', by') ↦ absurd (omega arith)
          ]
          | inr (rest, big, at, bx') ↦ elim (build_layers-eq-some sha256_hex fuel ys above' by) [
            | inl (at', small') ↦ absurd (omega arith)
            | inr (rest', big', at', by') ↦
                elim (top-injective fuel (pair_up sha256_hex xs) (pair_up sha256_hex ys) rest rest'
                  (pair_up-IsDigest xs) (pair_up-IsDigest ys)
                  (omega (arith, length-pair_up sha256_hex xs, length-pair_up sha256_hex ys)) bx'
                  by' (sym (ap (λ a. top (xs ∷ a)) at) ∙ e ∙ ap (λ a. top (ys ∷ a)) at')) [
                    | inl up ↦ pair_up-injective xs ys dx dy same up
                    | inr c ↦ inr c
                  ]
          ]
        ]

    merkle_tree-eq-some :
        (hashes : List Text) {root : Text} {proofs : List (List ProofStep)}
        → 0 < length hashes
        → merkle_tree sha256_hex hashes ≡ some (root, proofs)
        → (above : List (List Text)) × (build_layers sha256_hex (length hashes) hashes
            ≡ some (hashes ∷ above))
          × (top (hashes ∷ above) ≡ some root)
    unfolding merkle_tree
    merkle_tree-eq-some hashes more e =
        let (above, built) =
          build_layers_total sha256_hex (length hashes) hashes (omega arith) more in
        (above, built, ground arith)

    map-IsDigest : (xs : List Text) → All IsDigest (map sha256_hex xs)
    map-IsDigest [] = tt
    map-IsDigest (x ∷ xs) = (fixed x, map-IsDigest xs)

    merkle_tree-injective :
        (xs ys : List Text) (root : Text) (proofs proofs' : List (List ProofStep))
        → 0 < length xs
        → length xs ≡ length ys
        → merkle_tree sha256_hex (map sha256_hex xs) ≡ some (root, proofs)
        → merkle_tree sha256_hex (map sha256_hex ys) ≡ some (root, proofs')
        → (xs ≡ ys) ⊎ Collision
    merkle_tree-injective xs ys root proofs proofs' more same ex ey =
        let lx : length (map sha256_hex xs) ≡ length xs = length-map xs sha256_hex in
        let ly : length (map sha256_hex ys) ≡ length ys = length-map ys sha256_hex in
        let (above, bx, tx) = merkle_tree-eq-some (map sha256_hex xs) (omega arith) ex in
        let (above', by, ty) = merkle_tree-eq-some (map sha256_hex ys) (omega arith) ey in
        let fuel : length (map sha256_hex ys) ≡ length (map sha256_hex xs) = omega arith in
        elim (top-injective (length (map sha256_hex xs)) (map sha256_hex xs) (map sha256_hex ys)
          above above' (map-IsDigest xs) (map-IsDigest ys) (omega arith) bx (rw fuel at by) (cc)) [
            | inl hashes ↦ map-sha256_hex-injective xs ys hashes
            | inr c ↦ inr c
          ]

    -- Where all digests have one length, two batches of the same size with the same root are the
    -- same leaves in the same order, or else two different texts with one digest are at hand.
    pub merkle_root-injective :
        (xs ys : List Text) (root : Text) (proofs proofs' : List (List ProofStep))
        → length xs ≡ length ys
        → merkle_root sha256_hex xs ≡ some (root, proofs)
        → merkle_root sha256_hex ys ≡ some (root, proofs')
        → (xs ≡ ys) ⊎ Collision
    unfolding merkle_root
    merkle_root-injective [] [] root proofs proofs' same ex ey = inl refl
    merkle_root-injective [] (y ∷ ys) root proofs proofs' same ex ey = absurd (omega arith)
    merkle_root-injective (x ∷ xs) [] root proofs proofs' same ex ey = absurd (omega arith)
    merkle_root-injective (x ∷ xs) (y ∷ ys) root proofs proofs' same ex ey =
        merkle_tree-injective (x ∷ xs) (y ∷ ys) root proofs proofs' (omega arith) same ex ey
