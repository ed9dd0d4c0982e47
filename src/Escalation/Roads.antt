-- ===== src/Escalation/Roads.antt =====
-- The three hierarchies of services/scheduler/hierarchy.ts.
use roadwatch.Prelude.{
  suc, zero, ◌≡◌, ◌||◌, ◌⊎◌, inl, inr, refl, subst, none, some, Bool, true, false, List, [], ◌∷◌,
  if◌then◌else◌,
}
use roadwatch.Prelude.Text.{Text, codes}
use roadwatch.RegionCode.{trim}
use roadwatch.Escalation.{
  matches, find_index, next_in_linear_hierarchy, escalate, nhai_hierarchy, pwd_hierarchy,
  municipal_hierarchy, road_type_is, hierarchy_for_road_type,
}
use roadwatch.Escalation.Climb.{OwnPlaces, escalate-top, none-last}

three-OwnPlaces :
    (a b c : Text)
    → let h = a ∷ b ∷ c ∷ [] in
      find_index (matches (trim a)) h ≡ some 0
      → find_index (matches (trim b)) h ≡ some 1
      → find_index (matches (trim c)) h ≡ some 2
      → OwnPlaces h
three-OwnPlaces a b c p q r zero role e =
    let same : a ≡ role = cc in
    subst (λ (x : Text). find_index (matches (trim x)) (a ∷ b ∷ c ∷ []) ≡ some 0) same p
three-OwnPlaces a b c p q r (suc zero) role e =
    let same : b ≡ role = cc in
    subst (λ (x : Text). find_index (matches (trim x)) (a ∷ b ∷ c ∷ []) ≡ some 1) same q
three-OwnPlaces a b c p q r (suc (suc zero)) role e =
    let same : c ≡ role = cc in
    subst (λ (x : Text). find_index (matches (trim x)) (a ∷ b ∷ c ∷ []) ≡ some 2) same r
three-OwnPlaces a b c p q r (suc (suc (suc i))) role e = absurd (cc)

nhai-OwnPlaces : OwnPlaces nhai_hierarchy
unfolding matches roadwatch.RegionCode.trim
nhai-OwnPlaces =
    three-OwnPlaces (codes "PROJECT_DIRECTOR_PIU") (codes "REGIONAL_OFFICER_RO")
      (codes "CHAIRMAN_NHAI") refl refl refl

pwd-OwnPlaces : OwnPlaces pwd_hierarchy
unfolding matches roadwatch.RegionCode.trim
pwd-OwnPlaces =
    three-OwnPlaces (codes "ASSISTANT_ENGINEER") (codes "EXECUTIVE_ENGINEER")
      (codes "SUPERINTENDING_ENGINEER") refl refl refl

municipal-OwnPlaces : OwnPlaces municipal_hierarchy
unfolding matches roadwatch.RegionCode.trim
municipal-OwnPlaces =
    three-OwnPlaces (codes "WARD_ASSISTANT_ENGINEER") (codes "ZONAL_COMMISSIONER")
      (codes "MUNICIPAL_COMMISSIONER") refl refl refl

hierarchy_cases :
    (to_upper_case : Text → Text) (road_type : Text)
    → let h = hierarchy_for_road_type to_upper_case road_type in
      (h ≡ nhai_hierarchy) ⊎ ((h ≡ pwd_hierarchy) ⊎ (h ≡ municipal_hierarchy))
unfolding hierarchy_for_road_type
hierarchy_cases to_upper_case road_type =
    let raw = to_upper_case (trim road_type) in
    by_tests (road_type_is raw (codes "NH"))
      (road_type_is raw (codes "SH") || road_type_is raw (codes "MDR"))
  where
    by_tests :
        (nh pwd : Bool)
        → let h =
            if nh then nhai_hierarchy else if pwd then pwd_hierarchy else municipal_hierarchy in
          (h ≡ nhai_hierarchy) ⊎ ((h ≡ pwd_hierarchy) ⊎ (h ≡ municipal_hierarchy))
    by_tests true pwd = inl refl
    by_tests false true = inr (inl refl)
    by_tests false false = inr (inr refl)

-- The authority is found as the last of the three roles, and has nobody above it.
abbrev pub IsAtTop : Text → List Text → Type 0
IsAtTop current h =
    (find_index (matches (trim current)) h ≡ some 2) × (next_in_linear_hierarchy current h ≡ none)

three-IsAtTop :
    (a b c current : Text)
    → next_in_linear_hierarchy current (a ∷ b ∷ c ∷ []) ≡ none
    → IsAtTop current (a ∷ b ∷ c ∷ [])
three-IsAtTop a b c current e = (none-last a (b ∷ c ∷ []) current e, e)

-- For any type of road, upper case being any function, and from any authority, also one of another
-- hierarchy or none: after three escalations the authority is found as the last of the three roles
-- of the road's hierarchy, and there is nobody to escalate to.
pub escalate-top_of_road :
    (to_upper_case : Text → Text) (road_type current : Text)
    → IsAtTop
        (escalate 3 current (hierarchy_for_road_type to_upper_case road_type))
        (hierarchy_for_road_type to_upper_case road_type)
escalate-top_of_road to_upper_case road_type current =
    elim (hierarchy_cases to_upper_case road_type) [
      | inl e ↦ rw e (three-IsAtTop _ _ _ _ (escalate-top nhai_hierarchy current nhai-OwnPlaces))
      | inr (inl e) ↦
          rw e (three-IsAtTop _ _ _ _ (escalate-top pwd_hierarchy current pwd-OwnPlaces))
      | inr (inr e) ↦
          rw e
            (three-IsAtTop _ _ _ _ (escalate-top municipal_hierarchy current municipal-OwnPlaces))
    ]
