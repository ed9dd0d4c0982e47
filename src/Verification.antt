-- ===== src/Verification.antt =====
-- The checks of an uploaded image, packages/core/src/verification-service.ts. A message is kept as
-- its kind with the numbers in it. Coordinates, the distance between two places and the perceptual
-- hash of an image are computed in floating point and are parameters.
pub mod Laws
mod Tests
use Prim.Native.String.{String}
use text.Mathlib.Text.{◌==◌ as str_eq}
use roadwatch.Prelude.{
  ℕ, zero, suc, ◌+◌, ◌-◌, List, [], ◌∷◌, ◌++◌, Option, none, some, Bool, true, false, not, ◌||◌,
  leb, ltb, ◌==◌, length, if◌then◌else◌,
}
use roadwatch.Prelude.Text.{Text}

pub data Detail : Type 0 where
  no_exif_timestamp : Detail
  timestamp_valid timestamp_too_old : (diff window : ℕ) → Detail
  no_exif_coordinates : Detail
  within_geofence outside_geofence : (distance radius : ℕ) → Detail
  nonce_mismatch : Detail
  nonce_expired nonce_valid : ℕ → Detail
  possible_duplicate no_duplicates : Detail

pub record VerificationCheck : Type 0 where
  pub name : String
  pub passed : Bool
  pub detail : Detail

abbrev pub check : String → Bool → Detail → VerificationCheck
check name passed detail = record { name = name; passed = passed; detail = detail }

abbrev pub abs_diff : ℕ → ℕ → ℕ
abs_diff a b = (a - b) + (b - a)

-- `!exifTimestamp` holds of `undefined` and of 0.
unfoldable pub validate_timestamp : Option ℕ → ℕ → ℕ → VerificationCheck
validate_timestamp none received window = check "exif_time_validation" false no_exif_timestamp
validate_timestamp (some exif) received window =
    let diff = abs_diff received exif in
    if exif == 0
    then check "exif_time_validation" false no_exif_timestamp
    else if leb diff window
    then check "exif_time_validation" true (timestamp_valid diff window)
    else check "exif_time_validation" false (timestamp_too_old diff window)

unfoldable pub validate_nonce : String → String → ℕ → ℕ → VerificationCheck
validate_nonce given expected expires_at now =
    if not (str_eq given expected)
    then check "nonce_validation" false nonce_mismatch
    else if ltb expires_at now
    then check "nonce_validation" false (nonce_expired (now - expires_at))
    else check "nonce_validation" true (nonce_valid (expires_at - now))

differences : Text → Text → ℕ
differences [] ys = 0
differences (x ∷ xs) [] = 0
differences (x ∷ xs) (y ∷ ys) = let rest = differences xs ys in if x == y then rest else suc rest

-- `none` is `Infinity`.
unfoldable pub hamming_distance : Text → Text → Option ℕ
unfolding differences
hamming_distance a b = if length a == length b then some (differences a b) else none

pub data ErrorCode : Type 0 where
  stale_image outside_of_geofence invalid_nonce : ErrorCode

pub record VerificationResult : Type 0 where
  pub passed : Bool
  pub errors : List ErrorCode
  pub warnings : List ℕ
  pub checks : List VerificationCheck

pub record VerifyConfig : Type 0 where
  pub time_window_ms : ℕ
  pub geofence_radius_meters : ℕ
  pub phash_threshold : ℕ

abbrev close : Option ℕ → ℕ → Bool
close none threshold = false
close (some d) threshold = leb d threshold

-- The loop over the recent hashes, which stops at the first near one.
find_duplicate : Text → ℕ → List Text → Option ℕ
unfolding hamming_distance
find_duplicate phash threshold [] = none
find_duplicate phash threshold (recent ∷ hashes) =
    let rest = find_duplicate phash threshold hashes in
    let d = hamming_distance phash recent in if close d threshold then d else rest

-- `if (!check.passed) { errors.push(…); passed = false; }`
abbrev note_error : VerificationCheck → ErrorCode → VerificationResult → VerificationResult
note_error c code r =
    if c.passed
    then record r { checks = r.checks ++ c ∷ [] }
    else record r { passed = false; errors = r.errors ++ code ∷ []; checks = r.checks ++ c ∷ [] }

note_duplicate : Option ℕ → VerificationResult → VerificationResult
note_duplicate none r = record r {
  checks = r.checks ++ check "duplicate_check" true no_duplicates ∷ [];
}
note_duplicate (some d) r = record r {
  warnings = r.warnings ++ d ∷ [];
  checks = r.checks ++ check "duplicate_check" false possible_duplicate ∷ [];
}

-- Coordinates, of which `is_zero` tells those that JavaScript takes for false.
pub record Geo : Type 1 where
  pub Coordinate : Type 0
  pub is_zero : Coordinate → Bool
  pub distance : (lat lng lat' lng' : Coordinate) → ℕ

-- Where an image says that it was taken, and where it was expected.
pub record Places (g : Geo) : Type 0 where
  pub exif_lat : Option g.Coordinate
  pub exif_lng : Option g.Coordinate
  pub device_lat : Option g.Coordinate
  pub device_lng : Option g.Coordinate
  pub expected_lat : g.Coordinate
  pub expected_lng : g.Coordinate

abbrev or_value {ℓ} : {A : Type ℓ} → Option A → A → A
or_value none b = b
or_value (some a) b = a

module _ (g : Geo) where
  open g use {Coordinate, is_zero, distance}

  in_radius : Places g → ℕ → Coordinate → Coordinate → VerificationCheck
  in_radius p radius exif_lat exif_lng =
      let d =
        distance (or_value p.device_lat exif_lat) (or_value p.device_lng exif_lng) p.expected_lat
          p.expected_lng in
      if is_zero exif_lat || is_zero exif_lng
      then check "geofence_validation" false no_exif_coordinates
      else if leb d radius
      then check "geofence_validation" true (within_geofence d radius)
      else check "geofence_validation" false (outside_geofence d radius)

  locate : Places g → ℕ → Option Coordinate → Option Coordinate → VerificationCheck
  locate p radius none lng = check "geofence_validation" false no_exif_coordinates
  locate p radius (some lat) none = check "geofence_validation" false no_exif_coordinates
  locate p radius (some lat) (some lng) = in_radius p radius lat lng

  unfoldable pub validate_geofence : Places g → ℕ → VerificationCheck
  unfolding in_radius locate
  validate_geofence p radius = locate p radius p.exif_lat p.exif_lng

  -- `phash` is the hash of the image; `t1 t2 t3` are the three readings of the clock, in order.
  unfoldable pub perform_verification :
      (phash : Text) (exif_timestamp : Option ℕ) (p : Places g) (nonce expected_nonce : String)
      (recent_phashes : List Text) (config : VerifyConfig) (t1 t2 t3 : ℕ)
      → VerificationResult
  unfolding find_duplicate note_duplicate
  perform_verification phash exif_timestamp p nonce expected_nonce recent_phashes config t1 t2 t3 =
      let r0 : VerificationResult = record {
        passed = true;
        errors = [];
        warnings = [];
        checks = [];
      } in
      let r1 =
        note_error (validate_timestamp exif_timestamp t1 config.time_window_ms) stale_image r0 in
      let r2 =
        note_error (validate_geofence p config.geofence_radius_meters) outside_of_geofence r1 in
      let r3 = note_error (validate_nonce nonce expected_nonce (t2 + 600000) t3) invalid_nonce r2 in
      note_duplicate (find_duplicate phash config.phash_threshold recent_phashes) r3
