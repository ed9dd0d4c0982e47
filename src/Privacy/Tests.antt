-- ===== src/Privacy/Tests.antt =====
-- One submission, seen by its sender, a stranger and an authority.
use Prim.Native.String.{String}
use roadwatch.Prelude.{◌≡◌, refl, [], ◌∷◌, none}
use roadwatch.Privacy.{
  PrivacyContext, Submission, field_visibility, authority, citizen, get_effective_role,
  filter_image_submission_by_role,
}

abbrev image : Submission String
image = record {
  created_by_id = "u1";
  entries = ("id", "i1") ∷ ("created_by_id", "u1") ∷ ("metadata", "{}") ∷ ("extra", "x") ∷ [];
}

abbrev officer : PrivacyContext
officer = record { user_id = "a1"; roles = citizen ∷ authority ∷ []; authority_jurisdiction = none }

abbrev stranger : PrivacyContext
stranger = record { user_id = "u2"; roles = []; authority_jurisdiction = none }

officer_sees :
    filter_image_submission_by_role image officer ≡ ("id", "i1") ∷ ("metadata", "{}") ∷ []
unfolding filter_image_submission_by_role field_visibility get_effective_role
officer_sees = refl
