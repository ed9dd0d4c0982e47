-- ===== src/Escalation.antt =====
-- Escalation of complaints: the linear part of packages/core/src/escalation/EscalationEngine.ts and
-- services/scheduler/hierarchy.ts. `toUpperCase` of the language, on all of Unicode, is a parameter.
pub mod Equality
pub mod Climb
pub mod Roads
mod Tests
use roadwatch.Prelude.{
  ℕ, suc, zero, ◌+◌, ◌-◌, ltb, leb, ◌==◌, ◌&&◌, ◌||◌, not, Option, none, some, Bool, true, false,
  List, [], ◌∷◌, get_elem?, length, if◌then◌else◌,
}
use roadwatch.Prelude.Text.{Text, codes}
use roadwatch.RegionCode.{trim}

-- `===` on texts.
abbrev pub text_eq : Text → Text → Bool
text_eq [] [] = true
text_eq [] (b ∷ bs) = false
text_eq (a ∷ as') [] = false
text_eq (a ∷ as') (b ∷ bs) = let rest = text_eq as' bs in a == b && rest

-- `text.startsWith(part)`
abbrev pub starts_with : Text → Text → Bool
starts_with text [] = true
starts_with [] (p ∷ ps) = false
starts_with (c ∷ cs) (p ∷ ps) = let rest = starts_with cs ps in c == p && rest

-- `text.includes(part)`
abbrev pub includes : Text → Text → Bool
includes [] part = starts_with [] part
includes (c ∷ cs) part = let rest = includes cs part in starts_with (c ∷ cs) part || rest

abbrev pub is_empty : Text → Bool
is_empty [] = true
is_empty (c ∷ cs) = false

-- The test of the `findIndex`.
unfoldable pub matches : Text → Text → Bool
matches normalized role =
    text_eq role normalized || (not (is_empty normalized) && includes normalized role)

-- `none` is the index -1.
abbrev pub find_index : (Text → Bool) → List Text → Option ℕ
find_index test [] = none
find_index test (role ∷ roles) =
    let rest = find_index test roles in
    if test role then some 0 else elim rest [ none ↦ none | some i ↦ some (suc i) ]

pub record Move : Type 0 where
  pub from_authority_id : Text
  pub to_authority_id : Text
  pub tier : ℕ

-- `hierarchy[i]` and `hierarchy[i + 1]`; the code excludes the missing ones.
abbrev pub move_up : Option Text → Option Text → ℕ → Option Move
move_up (some own) (some above) i =
    some (record { from_authority_id = own; to_authority_id = above; tier = i + 2 })
move_up none above i = none
move_up (some own) none i = none

abbrev pub first_tier : Text → List Text → Option Move
first_tier normalized [] = none
first_tier normalized (role ∷ roles) =
    some (record { from_authority_id = normalized; to_authority_id = role; tier = 1 })

abbrev pub move_from : Text → List Text → Option ℕ → Option Move
move_from normalized hierarchy none = first_tier normalized hierarchy
move_from normalized hierarchy (some i) =
    if leb (length hierarchy - 1) i
    then none
    else move_up (get_elem? hierarchy i) (get_elem? hierarchy (i + 1)) i

-- An empty hierarchy has no first role, so that the early return is one of the cases.
unfoldable pub next_in_linear_hierarchy : Text → List Text → Option Move
next_in_linear_hierarchy current hierarchy =
    let normalized = trim current in
    move_from normalized hierarchy (find_index (matches normalized) hierarchy)

abbrev pub nhai_hierarchy : List Text
nhai_hierarchy =
    codes "PROJECT_DIRECTOR_PIU" ∷ codes "REGIONAL_OFFICER_RO" ∷ codes "CHAIRMAN_NHAI" ∷ []

abbrev pub pwd_hierarchy : List Text
pwd_hierarchy =
    codes "ASSISTANT_ENGINEER" ∷ codes "EXECUTIVE_ENGINEER" ∷ codes "SUPERINTENDING_ENGINEER" ∷ []

abbrev pub municipal_hierarchy : List Text
municipal_hierarchy =
    codes "WARD_ASSISTANT_ENGINEER"
    ∷ codes "ZONAL_COMMISSIONER"
    ∷ codes "MUNICIPAL_COMMISSIONER"
    ∷ []

abbrev pub road_type_is : Text → Text → Bool
road_type_is raw name = text_eq raw name || starts_with raw name

unfoldable pub hierarchy_for_road_type : (Text → Text) → Text → List Text
hierarchy_for_road_type to_upper_case road_type =
    let raw = to_upper_case (trim road_type) in
    if road_type_is raw (codes "NH")
    then nhai_hierarchy
    else if road_type_is raw (codes "SH") || road_type_is raw (codes "MDR")
    then pwd_hierarchy
    else municipal_hierarchy

abbrev pub authority_after : Text → Option Move → Text
authority_after authority none = authority
authority_after authority (some move) = move.to_authority_id

-- The authority after that many breaches, as `checkSlaBreaches` writes it back.
unfoldable pub escalate : ℕ → Text → List Text → Text
escalate zero authority hierarchy = authority
escalate (suc n) authority hierarchy =
    escalate n (authority_after authority (next_in_linear_hierarchy authority hierarchy)) hierarchy
