-- ===== src/Engines/Roads.antt =====
-- `identifyFromGPS` of packages/core/src/engines/RoadEngine.ts. Distances are only compared, and are
-- numbers of some small unit; the haversine distance is a parameter, and so is half a kilometre.
pub mod Laws
use roadwatch.Prelude.{
  ℕ, ltb, leb, ◌&&◌, List, [], ◌∷◌, Option, none, some, Bool, true, false, if◌then◌else◌,
}

-- A road with its centre.
pub record Segment (Place Road : Type 0) : Type 0 where
  pub road : Road
  pub center_point : Place

module _ {Place Road : Type 0} (distance : Place → Place → ℕ) (max_snap_distance : ℕ) where
  -- `distance < minDistance`, where at the start any distance is.
  abbrev pub closer : ℕ → Option (ℕ × Road) → Bool
  closer d none = true
  closer d (some (least, road)) = ltb d least

  -- The loop, with the least distance and its road so far.
  unfoldable pub closest : Place → List (Segment Place Road) → Option (ℕ × Road) → Option (ℕ × Road)
  closest location [] best = best
  closest location (s ∷ segments) best =
      let d = distance location s.center_point in
      closest location segments
        (if closer d best && leb d max_snap_distance then some (d, s.road) else best)

  abbrev pub road_in : Option (ℕ × Road) → Option Road
  road_in none = none
  road_in (some (least, road)) = some road

  unfoldable pub identify_from_gps : Place → List (Segment Place Road) → Option Road
  identify_from_gps location available_roads = road_in (closest location available_roads none)
