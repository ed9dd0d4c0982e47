-- ===== src/Sync/Laws.antt =====
-- A difference that is applied where it was taken gives the newer of each entity.
use Prim.Native.String.{String}
use text.Mathlib.Text.{◌==◌ as str_eq}
use text.Mathlib.TextEquality.{eq_iff}
use roadwatch.Prelude.{
  ℕ, ◌≡◌, inl, inr, refl, sym, ◌∙◌, ap, ltb, List, [], ◌∷◌, ◌++◌, Option, none, some, Bool, true,
  false, if◌then◌else◌, Bool-cases,
}
use roadwatch.Sync.{
  SyncPatch, create, update, delete, map_get, map_set, map_delete, from_array, patch_for,
  delete_all, diff_loop, diff_local_vs_remote, apply_all, apply_patch,
}

module _ {T : Type 0} (id_of : T → String) (updated_at : T → ℕ) where
  abbrev get : String → List T → Option T
  get = map_get id_of updated_at

  -- No two entities have one id.
  abbrev pub Unique : List T → Type 0
  Unique [] = Unit
  Unique (x ∷ xs) = (map_get id_of updated_at (id_of x) xs ≡ none) × Unique xs

  -- What a device should hold of an entity that it has and that the server has.
  abbrev pub newest : Option T → Option T → Option T
  newest o none = none
  newest none (some r) = some r
  newest (some l) (some r) = if ltb (updated_at l) (updated_at r) then some r else some l

  same_key : (a b : String) → str_eq a b ≡ true → a ≡ b
  same_key a b e = (eq_iff a b).0 e

  self_key : (a : String) → str_eq a a ≡ true
  self_key a = (eq_iff a a).1 refl

  differ : (a b c : String) → str_eq a b ≡ false → str_eq a c ≡ true → str_eq b c ≡ false
  differ a b c n e = elim (Bool-cases (str_eq b c)) [
    | inl k ↦ absurd (false_true (sym n ∙ (eq_iff a b).1 (same_key a c e ∙ sym (same_key b c k))))
    | inr k ↦ k
  ]
    where
      false_true : false ≡ true → ⊥
      false_true h = cc

  map_get-map_set :
      (key : String) (x : T) (m : List T)
      → get key (map_set id_of updated_at x m)
        ≡ (if str_eq (id_of x) key then some x else get key m)
  unfolding map_get map_set
  map_get-map_set key x [] = refl
  map_get-map_set key x (y ∷ ys) = elim (Bool-cases (str_eq (id_of y) (id_of x))) [
    | inl e ↦ elim (Bool-cases (str_eq (id_of x) key)) [
      | inl k ↦ rw (e, k) refl
      | inr n ↦ rw (e, n, ap (λ i. str_eq i key) (same_key (id_of y) (id_of x) e) ∙ n) refl
    ]
    | inr o ↦ elim (Bool-cases (str_eq (id_of y) key)) [
      | inl k ↦ rw (o, k, differ (id_of y) (id_of x) key o k) refl
      | inr n ↦ rw (o, n) (map_get-map_set key x ys)
    ]
  ]

  map_get-map_delete :
      (key k : String) (m : List T)
      → get key (map_delete id_of updated_at k m) ≡ (if str_eq k key then none else get key m)
  unfolding map_get map_delete
  map_get-map_delete key k [] = elim (Bool-cases (str_eq k key)) [
    | inl e ↦ rw e refl
    | inr n ↦ rw n refl
  ]
  map_get-map_delete key k (y ∷ ys) = elim (Bool-cases (str_eq (id_of y) k)) [
    | inl e ↦ elim (Bool-cases (str_eq k key)) [
      | inl h ↦ rw (e, h) (map_get-map_delete key k ys ∙ rw h refl)
      | inr n ↦
          rw (e, n, ap (λ i. str_eq i key) (same_key (id_of y) k e) ∙ n)
            (map_get-map_delete key k ys ∙ rw n refl)
    ]
    | inr o ↦ elim (Bool-cases (str_eq (id_of y) key)) [
      | inl h ↦ rw (o, h, differ (id_of y) k key o h) refl
      | inr n ↦ rw (o, n) (map_get-map_delete key k ys)
    ]
  ]

  apply_all-append :
      (ps qs : List (SyncPatch T)) (m : List T)
      → apply_all id_of updated_at (ps ++ qs) m
        ≡ apply_all id_of updated_at qs (apply_all id_of updated_at ps m)
  unfolding apply_all
  apply_all-append [] qs m = refl
  apply_all-append (create x ∷ ps) qs m = apply_all-append ps qs (map_set id_of updated_at x m)
  apply_all-append (update x ∷ ps) qs m = apply_all-append ps qs (map_set id_of updated_at x m)
  apply_all-append (delete x ∷ ps) qs m =
      apply_all-append ps qs (map_delete id_of updated_at (id_of x) m)

  abbrev erased : Option T → Option T → Option T
  erased none o = o
  erased (some l) o = none

  erased_twice :
      (b : Bool) (x : T) (o p : Option T)
      → erased o (if b then none else p) ≡ erased (if b then some x else o) p
  erased_twice true x none p = refl
  erased_twice true x (some l) p = refl
  erased_twice false x o p = refl

  apply_all-delete_all :
      (key : String) (locals m : List T)
      → get key (apply_all id_of updated_at (delete_all id_of updated_at locals) m)
        ≡ erased (get key locals) (get key m)
  unfolding apply_all delete_all map_get
  apply_all-delete_all key [] m = refl
  apply_all-delete_all key (x ∷ xs) m =
      apply_all-delete_all key xs (map_delete id_of updated_at (id_of x) m)
      ∙ ap (erased (get key xs)) (map_get-map_delete key (id_of x) m)
      ∙ erased_twice (str_eq (id_of x) key) x (get key xs) (get key m)

  -- The entity under a key after the patches of a loop, from what the map, the local map and the
  -- server have of it.
  abbrev outcome : Option T → Option T → Option T → Option T
  outcome current local none = erased local current
  outcome current none (some r) = some r
  outcome current (some l) (some r) = if ltb (updated_at l) (updated_at r) then some r else current

  map_get-patch_for :
      (key : String) (o : Option T) (r : T) (m : List T)
      → get key (apply_all id_of updated_at (patch_for id_of updated_at o r) m)
        ≡ (if str_eq (id_of r) key then outcome (get key m) o (some r) else get key m)
  unfolding patch_for apply_all
  map_get-patch_for key none r m = map_get-map_set key r m
  map_get-patch_for key (some l) r m = elim (Bool-cases (ltb (updated_at l) (updated_at r))) [
    | inl e ↦ rw e (map_get-map_set key r m)
    | inr n ↦ rw n (same_branch (str_eq (id_of r) key) (get key m))
  ]
    where
      same_branch : (b : Bool) (o : Option T) → o ≡ (if b then o else o)
      same_branch true o = refl
      same_branch false o = refl

  diff_loop-outcome :
      (key : String) (remotes locals m : List T)
      → Unique remotes
      → get key (apply_all id_of updated_at (diff_loop id_of updated_at remotes locals) m)
        ≡ outcome (get key m) (get key locals) (get key remotes)
  unfolding diff_loop map_get
  diff_loop-outcome key [] locals m u = apply_all-delete_all key locals m
  diff_loop-outcome key (r ∷ remotes) locals m (new, u) =
      let first = patch_for id_of updated_at (get (id_of r) locals) r in
      let left_over = map_delete id_of updated_at (id_of r) locals in
      let rest = diff_loop id_of updated_at remotes left_over in
      let here = map_get-patch_for key (get (id_of r) locals) r m in
      let gone = map_get-map_delete key (id_of r) locals in
      ap (get key) (apply_all-append first rest m)
      ∙ diff_loop-outcome key remotes left_over (apply_all id_of updated_at first m) u
      ∙ (elim (Bool-cases (str_eq (id_of r) key)) [
        | inl k ↦
            let e = same_key (id_of r) key k in
            let absent : get key remotes ≡ none = ap (λ i. get i remotes) (sym e) ∙ new in
            rw (here, gone, k, absent) (ap (λ i. outcome (get key m) (get i locals) (some r)) e)
        | inr n ↦ rw (here, gone, n) refl
      ])

  -- Where the server sends no id twice, the difference, applied to the local state that it was taken
  -- of, leaves under every id what the server has, unless the local entity is as new, and nothing
  -- where the server has nothing.
  pub apply_patch-diff :
      (locals remotes : List T) (key : String)
      → Unique remotes
      → map_get id_of updated_at key (
          apply_patch id_of updated_at locals
            (diff_local_vs_remote id_of updated_at locals remotes))
        ≡ newest
            (map_get id_of updated_at key (from_array id_of updated_at locals))
            (map_get id_of updated_at key remotes)
  unfolding apply_patch diff_local_vs_remote
  apply_patch-diff locals remotes key u =
      diff_loop-outcome key remotes (from_array id_of updated_at locals)
        (from_array id_of updated_at locals) u
      ∙ settle (get key (from_array id_of updated_at locals)) (get key remotes)
    where
      settle : (o p : Option T) → outcome o o p ≡ newest o p
      settle none none = refl
      settle (some l) none = refl
      settle none (some r) = refl
      settle (some l) (some r) = refl
