-- ===== src/RegionCode/Tests.antt =====
-- The cases of merkle.test.ts.
use roadwatch.Prelude.{◌≡◌, refl, none, some}
use roadwatch.Prelude.Text.{codes}
use roadwatch.RegionCode.{to_fabric_region_code}

region_codes :
    (to_fabric_region_code none ≡ codes "UNKNOWN")
    × (to_fabric_region_code (some (codes "   ")) ≡ codes "UNKNOWN")
    × (to_fabric_region_code (some (codes " New   Delhi ")) ≡ codes "New-Delhi")
    × (to_fabric_region_code (some (codes "MH/Mum!@#")) ≡ codes "MHMum")
    × (to_fabric_region_code (some (codes "South-Delhi")) ≡ codes "South-Delh")
unfolding to_fabric_region_code
region_codes = (refl, refl, refl, refl, refl)
