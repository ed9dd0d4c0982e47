-- ===== src/Verification/Tests.antt =====
-- An image near the place, and hashes at distances 1 and 2.
use Prim.Native.String.{String}
use roadwatch.Prelude.{ℕ, ◌≡◌, ◌+◌, ◌-◌, ◌==◌, refl, [], ◌∷◌, none, some, true}
use roadwatch.Prelude.Text.{codes}
use roadwatch.Verification.{
  Geo, Places, VerifyConfig, validate_timestamp, validate_nonce, validate_geofence,
  perform_verification,
}

-- Places on a line.
abbrev line : Geo
line = record {
  Coordinate = ℕ;
  is_zero = λ x. x == 0;
  distance = λ lat lng lat' lng'. (lat - lat') + (lat' - lat);
}

abbrev at_ten : Places line
at_ten = record {
  exif_lat = some 12;
  exif_lng = some 1;
  device_lat = none;
  device_lng = none;
  expected_lat = 10;
  expected_lng = 1;
}

abbrev config : VerifyConfig
config = record { time_window_ms = 600000; geofence_radius_meters = 50; phash_threshold = 1 }

abbrev taken : ℕ
taken = 5

abbrev once : ℕ
once = 1

abbrev given : String
given = "a"

accepted :
    (perform_verification line
      (codes "ff0")
      (some 5)
      at_ten
      "n1"
      "n1"
      (codes "ff1" ∷ [])
      config
      9
      9
      9).passed
    ≡ true
unfolding perform_verification validate_timestamp validate_geofence validate_nonce
accepted = refl
