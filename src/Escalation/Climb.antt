-- ===== src/Escalation/Climb.antt =====
-- How far repeated escalation climbs, packages/core/src/escalation/EscalationEngine.ts.
use roadwatch.Prelude.{
  ℕ, suc, zero, ◌+◌, ◌-◌, ◌≤◌, ◌<◌, ◌≡◌, ◌⊎◌, inl, inr, refl, ap, ◌∙◌, leb, Option, none, some,
  Bool, true, false, List, [], ◌∷◌, get_elem?, length, if◌then◌else◌, arith, Bool-cases,
  Option-cases,
}
use roadwatch.Prelude.Text.{Text}
use roadwatch.RegionCode.{trim}
use roadwatch.Escalation.{
  matches, find_index, Move, move_up, move_from, next_in_linear_hierarchy, authority_after,
  escalate,
}

-- Each role is found at its own place.
abbrev pub OwnPlaces : List Text → Type 0
OwnPlaces h =
    (i : ℕ) (role : Text) → get_elem? h i ≡ some role → find_index (matches (trim role)) h ≡ some i

get_elem?-in : (h : List Text) (i : ℕ) → i < length h → (role : Text) × (get_elem? h i ≡ some role)
get_elem?-in [] i l = absurd (omega arith)
get_elem?-in (x ∷ h) zero l = (x, refl)
get_elem?-in (x ∷ h) (suc i) l = get_elem?-in h i (omega arith)

-- A role that is not the last gives way to the next one, in the tier of that.
step_up :
    (h : List Text) (i : ℕ) (role above : Text)
    → OwnPlaces h
    → get_elem? h i ≡ some role
    → get_elem? h (i + 1) ≡ some above
    → i + 1 < length h
    → next_in_linear_hierarchy role h
      ≡ some (record { from_authority_id = role; to_authority_id = above; tier = i + 2 })
unfolding next_in_linear_hierarchy
step_up h i role above own e f l =
    let below : leb (length h - 1) i ≡ false = ground arith in
    ap (move_from (trim role) h) (own i role e)
    ∙ ap (λ (b : Bool). if b then none else move_up (get_elem? h i) (get_elem? h (i + 1)) i) below
    ∙ ap (λ (o : Option Text). move_up o (get_elem? h (i + 1)) i) e
    ∙ ap (λ (o : Option Text). move_up (some role) o i) f

top_stays :
    (h : List Text) (i : ℕ) (role : Text)
    → OwnPlaces h
    → get_elem? h i ≡ some role
    → length h ≤ i + 1
    → next_in_linear_hierarchy role h ≡ none
unfolding next_in_linear_hierarchy
top_stays h i role own e l =
    let above : leb (length h - 1) i ≡ true = ground arith in
    ap (move_from (trim role) h) (own i role e)
    ∙ ap (λ (b : Bool). if b then none else move_up (get_elem? h i) (get_elem? h (i + 1)) i) above

top_remains :
    (h : List Text) (n : ℕ) (current : Text)
    → next_in_linear_hierarchy current h ≡ none
    → next_in_linear_hierarchy (escalate n current h) h ≡ none
unfolding escalate
top_remains h zero current e = e
top_remains h (suc n) current e =
    ap (λ (o : Option Move). next_in_linear_hierarchy (escalate n (authority_after current o) h) h)
      e
    ∙ top_remains h n current e

-- From a role, as many escalations as there are roles above it reach the top.
climb :
    (h : List Text) (n i : ℕ) (role : Text)
    → OwnPlaces h
    → get_elem? h i ≡ some role
    → i < length h
    → length h ≤ i + n + 1
    → next_in_linear_hierarchy (escalate n role h) h ≡ none
unfolding escalate
climb h zero i role own e l enough = top_stays h i role own e (omega arith)
climb h (suc n) i role own e l enough = elim (Bool-cases (leb (length h) (i + 1))) [
  | inl last ↦ top_remains h (suc n) role (top_stays h i role own e (ground arith))
  | inr more ↦
      let (above, f) = get_elem?-in h (i + 1) (ground arith) in
      ap (λ (o : Option Move). next_in_linear_hierarchy (escalate n (authority_after role o) h) h)
        (step_up h i role above own e f (ground arith))
      ∙ climb h n (i + 1) above own f (ground arith) (omega arith)
]

-- One escalation from anywhere leaves nothing above, or a role of the hierarchy.
first_step :
    (x : Text) (h : List Text) (current : Text)
    → (next_in_linear_hierarchy current (x ∷ h) ≡ none)
      ⊎ ((i : ℕ) × (role : Text) × (get_elem? (x ∷ h) i ≡ some role)
          × (i < length (x ∷ h))
          × (authority_after current (next_in_linear_hierarchy current (x ∷ h)) ≡ role))
unfolding next_in_linear_hierarchy
first_step x h current = by_index (find_index (matches (trim current)) (x ∷ h))
  where
    by_index :
        (found : Option ℕ)
        → (move_from (trim current) (x ∷ h) found ≡ none)
          ⊎ ((i : ℕ) × (role : Text) × (get_elem? (x ∷ h) i ≡ some role)
              × (i < length (x ∷ h))
              × (authority_after current (move_from (trim current) (x ∷ h) found) ≡ role))
    by_index none = inr (0, x, refl, omega arith, refl)
    by_index (some i) = elim (Bool-cases (leb (length (x ∷ h) - 1) i)) [
      | inl top ↦ inl (rw top refl)
      | inr below ↦
          let (own, e) = get_elem?-in (x ∷ h) i (ground arith) in
          let (above, f) = get_elem?-in (x ∷ h) (i + 1) (ground arith) in
          inr (
            i + 1,
            above,
            f,
            ground arith,
            ap
                  (λ (b : Bool). authority_after current (
                    if b
                    then none
                    else move_up (get_elem? (x ∷ h) i) (get_elem? (x ∷ h) (i + 1)) i))
                  below
                ∙ ap
                    (λ (o : Option Text).
                      authority_after current (move_up o (get_elem? (x ∷ h) (i + 1)) i))
                    e
                ∙ ap (λ (o : Option Text). authority_after current (move_up (some own) o i)) f,
          )
    ]

-- From whatever authority, as many escalations as the hierarchy has roles reach the top of it,
-- where there is nobody to escalate to, if each of its roles is found at its own place.
pub escalate-top :
    (h : List Text) (current : Text)
    → OwnPlaces h
    → next_in_linear_hierarchy (escalate (length h) current h) h ≡ none
unfolding escalate next_in_linear_hierarchy
escalate-top [] current own = empty current
  where
    empty : (c : Text) → next_in_linear_hierarchy c [] ≡ none
    empty c = refl
escalate-top (x ∷ h) current own = elim (first_step x h current) [
  | inl top ↦ top_remains (x ∷ h) (suc (length h)) current top
  | inr (i, role, e, l, same) ↦
      ap (λ (c : Text). next_in_linear_hierarchy (escalate (length h) c (x ∷ h)) (x ∷ h)) same
      ∙ climb (x ∷ h) (length h) i role own e l (omega arith)
]

find_index-below :
    (test : Text → Bool) (h : List Text) (i : ℕ) → find_index test h ≡ some i → i < length h
find_index-below test [] i e = cc
find_index-below test (x ∷ h) i e = elim (Bool-cases (test x)) [
  | inl hit ↦ let first : some 0 ≡ some i = rw hit at e in let at : 0 ≡ i = cc in omega arith
  | inr miss ↦ elim (Option-cases (find_index test h)) [
    | inl none_left ↦
        let clash : ◌≡◌ {A = Option ℕ} none (some i) = rw (miss, none_left) at e in
        absurd (none_ne_some i clash)
    | inr (j, there) ↦
        let later : some (suc j) ≡ some i = rw (miss, there) at e in
        let at : suc j ≡ i = cc in omega (arith, find_index-below test h j there)
  ]
]
  where
    none_ne_some : (i : ℕ) → ◌≡◌ {A = Option ℕ} none (some i) → ⊥
    none_ne_some i c = cc

-- Only from the last role of a hierarchy is there nobody to escalate to.
pub none-last :
    (x : Text) (h : List Text) (current : Text)
    → next_in_linear_hierarchy current (x ∷ h) ≡ none
    → find_index (matches (trim current)) (x ∷ h) ≡ some (length h)
unfolding next_in_linear_hierarchy
none-last x h current e =
    by_index (find_index (matches (trim current)) (x ∷ h))
      (λ i at. find_index-below (matches (trim current)) (x ∷ h) i at) e
  where
    some_ne_none : (m : Move) → ◌≡◌ {A = Option Move} (some m) none → ⊥
    some_ne_none m c = cc

    by_index :
        (found : Option ℕ)
        → ((i : ℕ) → found ≡ some i → i < length (x ∷ h))
        → move_from (trim current) (x ∷ h) found ≡ none
        → found ≡ some (length h)
    by_index none below c = absurd (some_ne_none _ c)
    by_index (some i) below c = elim (Bool-cases (leb (length (x ∷ h) - 1) i)) [
      | inl top ↦ let at : i ≡ length h = ground (arith, below i refl) in ap some at
      | inr under ↦
          let (own, p) = get_elem?-in (x ∷ h) i (below i refl) in
          let (above, q) = get_elem?-in (x ∷ h) (i + 1) (ground arith) in
          absurd (some_ne_none _ (rw (under, p, q) at c))
    ]
