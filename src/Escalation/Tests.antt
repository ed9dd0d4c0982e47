-- ===== src/Escalation/Tests.antt =====
-- A complaint of a ward engineer on a national highway climbs to the chairman.
use roadwatch.Prelude.{◌≡◌, refl, some}
use roadwatch.Prelude.Text.{Text, codes}
use roadwatch.Escalation.{
  matches, next_in_linear_hierarchy, hierarchy_for_road_type, escalate, nhai_hierarchy,
}
use roadwatch.Escalation.Roads.{IsAtTop, escalate-top_of_road}

abbrev ward : Text
ward = codes "WARD_ASSISTANT_ENGINEER"

abbrev as_is : Text → Text
as_is text = text

national : hierarchy_for_road_type as_is (codes " NH-44") ≡ nhai_hierarchy
unfolding hierarchy_for_road_type roadwatch.RegionCode.trim
national = refl

first_move :
    next_in_linear_hierarchy ward nhai_hierarchy
    ≡ some (record {
      from_authority_id = ward;
      to_authority_id = codes "PROJECT_DIRECTOR_PIU";
      tier = 1;
    })
unfolding next_in_linear_hierarchy matches roadwatch.RegionCode.trim
first_move = refl

third_move : escalate 3 ward nhai_hierarchy ≡ codes "CHAIRMAN_NHAI"
unfolding escalate next_in_linear_hierarchy matches roadwatch.RegionCode.trim
third_move = refl

escalate-top_of_road_example :
    IsAtTop
      (escalate 3 ward (hierarchy_for_road_type as_is (codes "NH-44")))
      (hierarchy_for_road_type as_is (codes "NH-44"))
escalate-top_of_road_example = escalate-top_of_road as_is (codes "NH-44") ward
