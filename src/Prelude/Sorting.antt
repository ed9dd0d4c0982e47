-- ===== src/Prelude/Sorting.antt =====
-- `Array.prototype.sort`, which is stable, as an insertion sort by a Boolean order, and the order of
-- texts by their code units, which it takes when no other is given.
use roadwatch.Prelude.{
  ◌≡◌, refl, ◌⊎◌, inl, inr, List, [], ◌∷◌, Bool, true, false, ltb, if◌then◌else◌, arith,
}
use roadwatch.Prelude.Text.{Text}

module _ {ℓ} {A : Type ℓ} (le : A → A → Bool) where
  abbrev pub insert : A → List A → List A
  insert x [] = x ∷ []
  insert x (y ∷ ys) = let rest = insert x ys in if le x y then x ∷ y ∷ ys else y ∷ rest

  unfoldable pub sort : List A → List A
  sort [] = []
  sort (x ∷ xs) = insert x (sort xs)

  insert_comm :
      ((a b : A) → (le a b ≡ true) ⊎ (le b a ≡ true))
      → ((a b : A) → le a b ≡ true → le b a ≡ true → a ≡ b)
      → ((a b c : A) → le a b ≡ true → le b c ≡ true → le a c ≡ true)
      → (x y : A) (l : List A) → insert x (insert y l) ≡ insert y (insert x l)
  insert_comm total anti trans x y [] = ground (arith, total x y, anti x y)
  insert_comm total anti trans x y (z ∷ zs) = ground (
    arith,
    total x y,
    anti x y,
    trans x y z,
    trans y x z,
    total x z,
    total y z,
    insert_comm total anti trans x y zs,
  )

abbrev pub text_leb : Text → Text → Bool
text_leb [] bs = true
text_leb (a ∷ as') [] = false
text_leb (a ∷ as') (b ∷ bs) =
    let rest = text_leb as' bs in if ltb a b then true else if ltb b a then false else rest

text_leb_total : (a b : Text) → (text_leb a b ≡ true) ⊎ (text_leb b a ≡ true)
text_leb_total [] bs = inl refl
text_leb_total (a ∷ as') [] = inr refl
text_leb_total (a ∷ as') (b ∷ bs) = elim (text_leb_total as' bs) [
  | inl h ↦ ground arith
  | inr h ↦ ground arith
]

text_leb_anti : (a b : Text) → text_leb a b ≡ true → text_leb b a ≡ true → a ≡ b
text_leb_anti [] [] h k = refl
text_leb_anti [] (b ∷ bs) h k = cc
text_leb_anti (a ∷ as') [] h k = cc
text_leb_anti (a ∷ as') (b ∷ bs) h k = ground (arith, text_leb_anti as' bs)

text_leb_trans : (a b c : Text) → text_leb a b ≡ true → text_leb b c ≡ true → text_leb a c ≡ true
text_leb_trans [] b c h k = refl
text_leb_trans (a ∷ as') [] c h k = cc
text_leb_trans (a ∷ as') (b ∷ bs) [] h k = cc
text_leb_trans (a ∷ as') (b ∷ bs) (c ∷ cs) h k = ground (arith, text_leb_trans as' bs cs)

-- Two elements that stand next to each other may change places.
pub sort_swap : (x y : Text) (l : List Text) → sort text_leb (x ∷ y ∷ l) ≡ sort text_leb (y ∷ x ∷ l)
unfolding sort
sort_swap x y l =
    insert_comm text_leb text_leb_total text_leb_anti text_leb_trans x y (sort text_leb l)
