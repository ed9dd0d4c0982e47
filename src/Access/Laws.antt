-- ===== src/Access/Laws.antt =====
-- The order of the powers, and the fences around complaints.
use Prim.Native.String.{String}
use text.Mathlib.TextEquality.{eq_iff}
use roadwatch.Prelude.{◌≡◌, ◌≢◌, ◌↔◌, refl, Option, none, some, true, not, ◌||◌, arith}
use roadwatch.Access.{
  UserRole, citizen, field_inspector, executive_engineer, superintendent_eng, chief_engineer,
  contractor_rep, admin, UserContext, ComplaintFencingData, can_view_internal_notes,
  can_modify_chain, can_assign_inspector, fenced, access_as, can_access_complaint,
}

fenced_iff :
    (own : Option String) (theirs : String)
    → (fenced own theirs ≡ true) ↔ ((own ≡ some theirs) × (theirs ≢ ""))
unfolding fenced
fenced_iff none theirs = ((λ h. ground arith), λ h. ground arith)
fenced_iff (some own) theirs =
    let blank = eq_iff own "" in
    let same = eq_iff own theirs in
    ((λ h. grind (arith, blank, same)), λ h. grind (arith, blank, same))

-- What fences a role: nothing, the state, or the zone.
abbrev pub Reaches : UserRole → UserContext → ComplaintFencingData → Type 0
Reaches citizen user complaint = Unit
Reaches admin user complaint = Unit
Reaches chief_engineer user complaint =
    (user.state_id ≡ some complaint.state_id) × (complaint.state_id ≢ "")
Reaches field_inspector user complaint =
    (user.zone_id ≡ some complaint.zone_id) × (complaint.zone_id ≢ "")
Reaches executive_engineer user complaint =
    (user.zone_id ≡ some complaint.zone_id) × (complaint.zone_id ≢ "")
Reaches superintendent_eng user complaint =
    (user.zone_id ≡ some complaint.zone_id) × (complaint.zone_id ≢ "")
Reaches contractor_rep user complaint =
    (user.zone_id ≡ some complaint.zone_id) × (complaint.zone_id ≢ "")

access_as-Reaches :
    (role : UserRole) (user : UserContext) (complaint : ComplaintFencingData)
    → (access_as role user complaint ≡ true) ↔ Reaches role user complaint
unfolding access_as
access_as-Reaches citizen user complaint = ((λ h. tt), λ h. refl)
access_as-Reaches admin user complaint = ((λ h. tt), λ h. refl)
access_as-Reaches chief_engineer user complaint = fenced_iff user.state_id complaint.state_id
access_as-Reaches field_inspector user complaint = fenced_iff user.zone_id complaint.zone_id
access_as-Reaches executive_engineer user complaint = fenced_iff user.zone_id complaint.zone_id
access_as-Reaches superintendent_eng user complaint = fenced_iff user.zone_id complaint.zone_id
access_as-Reaches contractor_rep user complaint = fenced_iff user.zone_id complaint.zone_id

-- Citizens and admins reach every complaint; a chief engineer reaches exactly those of the own
-- state, and every other role exactly those of the own zone, where that has a name.
pub can_access_complaint-Reaches :
    (user : UserContext) (complaint : ComplaintFencingData)
    → (can_access_complaint user complaint ≡ true) ↔ Reaches user.role user complaint
unfolding can_access_complaint
can_access_complaint-Reaches user complaint = access_as-Reaches user.role user complaint

-- Who may modify the chain may assign inspectors, and who may do that may view internal notes.
pub can_modify_chain_assigns :
    (role : UserRole)
    → (not (can_modify_chain role) || can_assign_inspector role ≡ true)
      × (not (can_assign_inspector role) || can_view_internal_notes role ≡ true)
unfolding can_modify_chain can_assign_inspector can_view_internal_notes
can_modify_chain_assigns role = ground arith
