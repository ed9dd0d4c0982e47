-- ===== src/Privacy.antt =====
-- Field-level privacy of image submissions, packages/core/src/privacy-service.ts.
pub mod Laws
mod Tests
use Prim.Native.String.{String}
use text.Mathlib.Text.{◌==◌ as str_eq}
use roadwatch.Prelude.{
  List, [], ◌∷◌, Option, none, some, Bool, true, false, not, ◌&&◌, ◌||◌, if◌then◌else◌,
}

pub data UserRole : Type 0 where
  admin authority contractor citizen : UserRole

pub record PrivacyContext : Type 0 where
  pub user_id : String
  pub roles : List UserRole
  pub authority_jurisdiction : Option (List String)

pub data FieldVisibility : Type 0 where
  all own hidden : FieldVisibility

-- A submission as `Object.entries` lists it: its fields in order, with the owner's id read out.
pub record Submission {ℓ} (V : Type ℓ) : Type ℓ where
  pub created_by_id : String
  pub entries : List (String × V)

same_role : UserRole → UserRole → Bool
same_role admin admin = true
same_role authority authority = true
same_role contractor contractor = true
same_role citizen citizen = true
same_role _ _ = false

includes : List UserRole → UserRole → Bool
unfolding same_role
includes [] role = false
includes (r ∷ roles) role = same_role r role || includes roles role

-- `getEffectiveRole`: the first of the hierarchy that the user has.
unfoldable pub get_effective_role : List UserRole → UserRole
unfolding includes
get_effective_role roles =
    if includes roles admin
    then admin
    else if includes roles authority
    then authority
    else if includes roles contractor
    then contractor
    else citizen

-- The rows of FIELD_VISIBILITY; `none` is a field that has no row.
row : String → List (String × FieldVisibility) → Option FieldVisibility
row field [] = none
row field ((name, v) ∷ rows) = if str_eq name field then some v else row field rows

same_for_all : FieldVisibility → List (String × FieldVisibility)
same_for_all v =
    ("id", v)
    ∷ ("request_id", v)
    ∷ ("uploader_id_encrypted", v)
    ∷ ("uploader_pseudonym", v)
    ∷ ("server_received_at", v)
    ∷ ("exif_timestamp", v)
    ∷ ("exif_latitude", v)
    ∷ ("exif_longitude", v)
    ∷ ("device_latitude", v)
    ∷ ("device_longitude", v)
    ∷ ("nonce", v)
    ∷ ("phash", v)
    ∷ ("verified_status", v)
    ∷ ("storage_path", v)
    ∷ ("metadata", v)
    ∷ ("fabric_tx_id", v)
    ∷ ("created_at", v)
    ∷ ("created_by_id", v)
    ∷ []

-- The tables of an authority and of a contractor are alike.
official_table : List (String × FieldVisibility)
official_table =
    ("id", all)
    ∷ ("request_id", all)
    ∷ ("uploader_id_encrypted", hidden)
    ∷ ("uploader_pseudonym", hidden)
    ∷ ("server_received_at", all)
    ∷ ("exif_timestamp", hidden)
    ∷ ("exif_latitude", all)
    ∷ ("exif_longitude", all)
    ∷ ("device_latitude", hidden)
    ∷ ("device_longitude", hidden)
    ∷ ("nonce", hidden)
    ∷ ("phash", hidden)
    ∷ ("verified_status", all)
    ∷ ("storage_path", all)
    ∷ ("metadata", all)
    ∷ ("fabric_tx_id", all)
    ∷ ("created_at", all)
    ∷ ("created_by_id", hidden)
    ∷ []

table : UserRole → List (String × FieldVisibility)
unfolding same_for_all official_table
table admin = same_for_all all
table authority = official_table
table contractor = official_table
table citizen = same_for_all own

unfoldable pub field_visibility : UserRole → String → Option FieldVisibility
unfolding table row
field_visibility role field = row field (table role)

shown : Option FieldVisibility → Bool → Bool
shown none is_owner = false
shown (some all) is_owner = true
shown (some own) is_owner = is_owner
shown (some hidden) is_owner = false

module _ {ℓ} {V : Type ℓ} where
  filter_entries : UserRole → Bool → List (String × V) → List (String × V)
  filter_entries role is_owner [] = []
  filter_entries role is_owner ((field, value) ∷ entries) =
      let rest = filter_entries role is_owner entries in
      if shown (field_visibility role field) is_owner then (field, value) ∷ rest else rest

  unfoldable pub filter_image_submission_by_role : Submission V → PrivacyContext → List (String × V)
  unfolding filter_entries shown
  filter_image_submission_by_role s context =
      filter_entries (get_effective_role context.roles) (str_eq s.created_by_id context.user_id)
        s.entries

pub record Verdict : Type 0 where
  pub allowed : Bool
  pub reason : Option String

abbrev allow : Verdict
allow = record { allowed = true; reason = none }

abbrev deny : String → Verdict
deny reason = record { allowed = false; reason = some reason }

is_some : Option (List String) → Bool
is_some none = false
is_some (some _) = true

unfoldable pub can_read_submission {ℓ} : {V : Type ℓ} → Submission V → PrivacyContext → Verdict
unfolding same_role is_some
can_read_submission s context =
    let role = get_effective_role context.roles in
    if same_role role admin
    then allow
    else if (same_role role authority || same_role role contractor)
        && is_some context.authority_jurisdiction
    then allow
    else if same_role role citizen && not (str_eq s.created_by_id context.user_id)
    then deny "Citizens can only view their own submissions"
    else allow

unfoldable pub can_decrypt_user_ids : PrivacyContext → Bool
unfolding same_role
can_decrypt_user_ids context = same_role (get_effective_role context.roles) admin

-- `validateFieldAccess`; of the message only its kind is kept.
pub data FieldDenial : Type 0 where
  no_such_field only_owner not_accessible : FieldDenial

field_denial : Option FieldVisibility → Bool → Option FieldDenial
field_denial none is_owner = some no_such_field
field_denial (some all) is_owner = none
field_denial (some own) is_owner = if is_owner then none else some only_owner
field_denial (some hidden) is_owner = some not_accessible

unfoldable pub validate_field_access : String → PrivacyContext → String → Option FieldDenial
unfolding field_denial
validate_field_access field context owner_user_id =
    field_denial (field_visibility (get_effective_role context.roles) field)
      (str_eq context.user_id owner_user_id)

unfoldable pub can_export_data : PrivacyContext → Verdict
unfolding same_role
can_export_data context =
    let role = get_effective_role context.roles in
    if not (same_role role admin) && not (same_role role authority)
    then deny "Only admins and authorities can export data"
    else allow
