-- ===== src/Privacy/Laws.antt =====
-- Who sees which fields of a submission.
use Prim.Native.String.{String}
use text.Mathlib.Text.{◌==◌ as str_eq}
use text.Mathlib.TextEquality.{eq_iff}
use roadwatch.Prelude.{
  ◌≡◌, ◌≢◌, ◌↔◌, ◌⊎◌, refl, inl, inr, List, [], ◌∷◌, Option, none, some, Bool, true, false, not,
  ◌||◌, if◌then◌else◌, arith, All, Bool-cases,
}
use roadwatch.Privacy.{
  UserRole, admin, authority, contractor, citizen, PrivacyContext, FieldVisibility, own, hidden,
  Submission, get_effective_role, row, table, same_for_all, field_visibility, shown, filter_entries,
  filter_image_submission_by_role, FieldDenial, field_denial, validate_field_access,
  can_read_submission, can_decrypt_user_ids, can_export_data,
}

abbrev passes : Option FieldDenial → Bool
passes none = true
passes (some d) = false

-- The entries whose field the validator lets the user read.
abbrev pub readable {ℓ} :
    {V : Type ℓ} → PrivacyContext → String → List (String × V) → List (String × V)
readable context owner [] = []
readable context owner ((field, value) ∷ entries) =
    let rest = readable context owner entries in
    if passes (validate_field_access field context owner) then (field, value) ∷ rest else rest

str_eq_comm : (s t : String) → str_eq s t ≡ str_eq t s
str_eq_comm s t = ground (arith, eq_iff s t, eq_iff t s)

shown-field_denial : (v : Option FieldVisibility) (o : Bool) → shown v o ≡ passes (field_denial v o)
unfolding shown field_denial
shown-field_denial v o = ground arith

shown-validate_field_access :
    (context : PrivacyContext) (owner field : String)
    → shown
        (field_visibility (get_effective_role context.roles) field)
        (str_eq owner context.user_id)
      ≡ passes (validate_field_access field context owner)
unfolding validate_field_access
shown-validate_field_access context owner field = rw (str_eq_comm owner context.user_id) (
    shown-field_denial (field_visibility (get_effective_role context.roles) field)
      (str_eq context.user_id owner))

-- What a set of roles lets a user do grows with the set: a user with one more role keeps the right
-- to export and to decrypt user ids.
pub get_effective_role_more :
    (context : PrivacyContext) (role : UserRole)
    → let more = record context { roles = role ∷ context.roles } in
      ((can_export_data more).allowed || not (can_export_data context).allowed ≡ true)
      × (can_decrypt_user_ids more || not (can_decrypt_user_ids context) ≡ true)
unfolding can_export_data can_decrypt_user_ids get_effective_role
get_effective_role_more context role = ground arith

abbrev pub IsOfficial : UserRole → Type 0
IsOfficial role = (role ≡ authority) ⊎ (role ≡ contractor)

-- The fields that name the sender or the device.
abbrev pub identifies : String → Bool
identifies field =
    str_eq field "uploader_id_encrypted"
    || str_eq field "uploader_pseudonym"
    || str_eq field "created_by_id"
    || str_eq field "device_latitude"
    || str_eq field "device_longitude"
    || str_eq field "nonce"
    || str_eq field "phash"

identifies-cases :
    (field : String) → identifies field ≡ true → field_visibility authority field ≡ some hidden
unfolding field_visibility
identifies-cases field h = elim (Bool-cases (str_eq field "uploader_id_encrypted")) [
  | inl e ↦ rw ((eq_iff field "uploader_id_encrypted").0 e)
  | inr n1 ↦ elim (Bool-cases (str_eq field "uploader_pseudonym")) [
    | inl e ↦ rw ((eq_iff field "uploader_pseudonym").0 e)
    | inr n2 ↦ elim (Bool-cases (str_eq field "created_by_id")) [
      | inl e ↦ rw ((eq_iff field "created_by_id").0 e)
      | inr n3 ↦ elim (Bool-cases (str_eq field "device_latitude")) [
        | inl e ↦ rw ((eq_iff field "device_latitude").0 e)
        | inr n4 ↦ elim (Bool-cases (str_eq field "device_longitude")) [
          | inl e ↦ rw ((eq_iff field "device_longitude").0 e)
          | inr n5 ↦ elim (Bool-cases (str_eq field "nonce")) [
            | inl e ↦ rw ((eq_iff field "nonce").0 e)
            | inr n6 ↦ rw (
                (eq_iff field "phash").0
                  (rw n6 at (rw n5 at (rw n4 at (rw n3 at (rw n2 at (rw n1 at h)))))))
          ]
        ]
      ]
    ]
  ]
]

official_visibility :
    (role : UserRole) (field : String)
    → IsOfficial role
    → field_visibility role field ≡ field_visibility authority field
unfolding field_visibility table
official_visibility admin field h = absurd (ground arith)
official_visibility authority field h = refl
official_visibility contractor field h = refl
official_visibility citizen field h = absurd (ground arith)

row-uniform :
    (v : FieldVisibility) (field : String) (rows : List (String × FieldVisibility))
    → All (λ r. r.1 ≡ v) rows
    → (row field rows ≡ none) ⊎ (row field rows ≡ some v)
unfolding row
row-uniform v field [] h = inl refl
row-uniform v field ((name, w) ∷ rows) (e, h) = ground (arith, row-uniform v field rows h)

citizen_visibility :
    (field : String)
    → (field_visibility citizen field ≡ none) ⊎ (field_visibility citizen field ≡ some own)
unfolding field_visibility table same_for_all
citizen_visibility field = row-uniform own field (same_for_all own) (ground arith)

module _ {ℓ} {V : Type ℓ} where
  filter_entries-readable :
      (context : PrivacyContext) (owner : String) (entries : List (String × V))
      → filter_entries (get_effective_role context.roles) (str_eq owner context.user_id) entries
        ≡ readable context owner entries
  unfolding filter_entries
  filter_entries-readable context owner [] = refl
  filter_entries-readable context owner ((field, value) ∷ entries) = rw (
    filter_entries-readable context owner entries,
    shown-validate_field_access context owner field,
  )

  -- The fields that the filter returns are those, in order, that the validator of single fields
  -- lets the user read.
  pub filter_image_submission_by_role-readable :
      (s : Submission V) (context : PrivacyContext)
      → filter_image_submission_by_role s context ≡ readable context s.created_by_id s.entries
  unfolding filter_image_submission_by_role
  filter_image_submission_by_role-readable s context =
      filter_entries-readable context s.created_by_id s.entries

  filter_entries-official :
      (role : UserRole) (is_owner : Bool) (entries : List (String × V))
      → IsOfficial role
      → All (λ e. identifies e.0 ≡ false) (filter_entries role is_owner entries)
  unfolding filter_entries shown
  filter_entries-official role is_owner [] h = tt
  filter_entries-official role is_owner ((field, value) ∷ entries) h =
      elim (Bool-cases (identifies field)) [
        | inl secret ↦
            rw (official_visibility role field h, identifies-cases field secret)
              (filter_entries-official role is_owner entries h)
        | inr open_field ↦ elim (Bool-cases (shown (field_visibility role field) is_owner)) [
          | inl yes_shown ↦
              rw yes_shown (open_field, filter_entries-official role is_owner entries h)
          | inr not_shown ↦ rw not_shown (filter_entries-official role is_owner entries h)
        ]
      ]

  -- An authority or a contractor gets no field that names the sender or the device, whoever sent
  -- the image.
  pub filter_image_submission_by_role-official :
      (s : Submission V) (context : PrivacyContext)
      → IsOfficial (get_effective_role context.roles)
      → All (λ e. identifies e.0 ≡ false) (filter_image_submission_by_role s context)
  unfolding filter_image_submission_by_role
  filter_image_submission_by_role-official s context h =
      filter_entries-official (get_effective_role context.roles)
        (str_eq s.created_by_id context.user_id) s.entries h

  filter_entries-stranger :
      (entries : List (String × V)) → filter_entries citizen false entries ≡ []
  unfolding filter_entries shown
  filter_entries-stranger [] = refl
  filter_entries-stranger ((field, value) ∷ entries) =
      ground (arith, citizen_visibility field, filter_entries-stranger entries)

  -- A citizen who is not the sender is denied the submission, and the filter would leave nothing of
  -- it; everyone else is allowed to read, an authority without any jurisdiction included.
  pub can_read_submission_iff :
      (s : Submission V) (context : PrivacyContext)
      → ((can_read_submission s context).allowed ≡ false) ↔ (
          (get_effective_role context.roles ≡ citizen)
          × (s.created_by_id ≢ context.user_id)
          × (filter_image_submission_by_role s context ≡ []))
  unfolding can_read_submission filter_image_submission_by_role
  can_read_submission_iff s context = (
    (λ h.
        ground (arith, eq_iff s.created_by_id context.user_id, filter_entries-stranger s.entries)),
    λ h. ground (arith, eq_iff s.created_by_id context.user_id),
  )
