-- ===== src/Access/Tests.antt =====
-- A chief engineer of one state and a complaint of another.
use roadwatch.Prelude.{◌≡◌, refl, none, some, false}
use roadwatch.Access.{
  UserContext, ComplaintFencingData, chief_engineer, can_access_complaint, access_as, fenced,
}

abbrev chief : UserContext
chief = record { id = "u1"; role = chief_engineer; zone_id = none; state_id = some "KA" }

abbrev complaint : ComplaintFencingData
complaint = record { id = "c1"; zone_id = "z1"; state_id = "MH" }

outside : can_access_complaint chief complaint ≡ false
unfolding can_access_complaint access_as fenced
outside = refl
