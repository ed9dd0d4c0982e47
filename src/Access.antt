-- ===== src/Access.antt =====
-- Who may do what in a department, packages/core/src/engines/AccessControl.ts.
pub mod Laws
mod Tests
use Prim.Native.String.{String}
use text.Mathlib.Text.{◌==◌ as str_eq}
use roadwatch.Prelude.{Option, none, some, Bool, true, false, if◌then◌else◌}

pub data UserRole : Type 0 where
  citizen field_inspector executive_engineer superintendent_eng chief_engineer : UserRole
  contractor_rep admin : UserRole

pub record UserContext : Type 0 where
  pub id : String
  pub role : UserRole
  pub zone_id : Option String
  pub state_id : Option String

pub record ComplaintFencingData : Type 0 where
  pub id : String
  pub zone_id : String
  pub state_id : String

unfoldable pub can_view_internal_notes : UserRole → Bool
can_view_internal_notes field_inspector = true
can_view_internal_notes executive_engineer = true
can_view_internal_notes superintendent_eng = true
can_view_internal_notes chief_engineer = true
can_view_internal_notes admin = true
can_view_internal_notes _ = false

unfoldable pub can_modify_chain : UserRole → Bool
can_modify_chain superintendent_eng = true
can_modify_chain chief_engineer = true
can_modify_chain admin = true
can_modify_chain _ = false

unfoldable pub can_assign_inspector : UserRole → Bool
can_assign_inspector executive_engineer = true
can_assign_inspector superintendent_eng = true
can_assign_inspector chief_engineer = true
can_assign_inspector admin = true
can_assign_inspector _ = false

-- `if (!own) return false; return own === theirs;`, where the empty name counts as none.
unfoldable pub fenced : Option String → String → Bool
fenced none theirs = false
fenced (some own) theirs = if str_eq own "" then false else str_eq own theirs

unfoldable pub access_as : UserRole → UserContext → ComplaintFencingData → Bool
unfolding fenced
access_as admin user complaint = true
access_as chief_engineer user complaint = fenced user.state_id complaint.state_id
access_as executive_engineer user complaint = fenced user.zone_id complaint.zone_id
access_as superintendent_eng user complaint = fenced user.zone_id complaint.zone_id
access_as field_inspector user complaint = fenced user.zone_id complaint.zone_id
access_as contractor_rep user complaint = fenced user.zone_id complaint.zone_id
access_as citizen user complaint = true

unfoldable pub can_access_complaint : UserContext → ComplaintFencingData → Bool
unfolding access_as
can_access_complaint user complaint = access_as user.role user complaint
