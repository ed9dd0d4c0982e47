-- ===== src/Engines/Tests.antt =====
-- Small roads, reports and dates. 1 January 2027 is a Friday and day 20819; places are numbers on a
-- line, in metres.
use Prim.Native.String.{String}
use roadwatch.Prelude.{
  ℕ, ◌+◌, ◌≡◌, ◌≢◌, ◌<◌, ◌↔◌, ◌⊎◌, refl, List, [], ◌∷◌, none, some, Bool, true, false, leb, ltb,
  All, if◌then◌else◌,
}
use roadwatch.Engines.Dates.{day_of_week, is_weekend, add_working_days, calculate_sla_breach_date}
use roadwatch.Engines.Dates.Laws.{working_days}
use roadwatch.Engines.Complaints.{
  Complaint, pothole, resolved, abs_diff, file, validate, escalate, deduplicate,
  calculate_sla_status,
}
use roadwatch.Engines.Complaints.Laws.{Found, deduplicate-Found, calculate_sla_status_lem}
use roadwatch.Engines.Roads.{Segment, closest, identify_from_gps}
use roadwatch.Engines.Roads.Laws.{IsNearest, away, identify_from_gps_lem}
use roadwatch.Engines.Budget.{detect_anomalies}

abbrev is_near : ℕ → ℕ → Bool
is_near a b = leb (abs_diff a b) 50

abbrev report : ℕ → ℕ → Complaint ℕ
report place severity = file "u1" "r1" place pothole severity ("m1" ∷ []) 1000

-- Two working days after Friday is Tuesday.
after_friday : calculate_sla_breach_date 20819 2 ≡ some 20823
unfolding calculate_sla_breach_date add_working_days is_weekend day_of_week
after_friday = refl

no_evidence : validate (record (report 10 4) { media_ids = [] }) ≡ false
unfolding validate file
no_evidence = refl

at_the_top : (escalate (report 10 5) "note").severity ≡ 5
unfolding escalate file
at_the_top = refl

deduplicate-Found_example :
    Found is_near
      (report 10 3)
      (report 900 3 ∷ report 30 3 ∷ [])
      (deduplicate is_near (report 10 3) (report 900 3 ∷ report 30 3 ∷ []))
deduplicate-Found_example =
    deduplicate-Found is_near (report 10 3) (report 900 3 ∷ report 30 3 ∷ [])

calculate_sla_status_lem_example :
    (n : ℕ) × (late : Bool) × (calculate_sla_status (λ t. 20819) (λ t day. day) (report 10 4) 20824
      ≡ some (late, 20819 + n))
    × (working_days 20819 n ≡ (if ltb (report 10 4).severity 4 then 7 else 2))
    × (is_weekend (20819 + n) ≡ false)
    × ((late ≡ true) ↔ ((20819 + n < 20824) × ((report 10 4).status ≢ resolved)))
calculate_sla_status_lem_example =
    calculate_sla_status_lem (λ t. 20819) (λ t day. day) (report 10 4) 20824

abbrev roads : List (Segment ℕ String)
roads =
    record { road = "NH1"; center_point = 700 }
    ∷ record { road = "SH2"; center_point = 400 }
    ∷ record { road = "MDR3"; center_point = 200 }
    ∷ []

on_the_first : identify_from_gps abs_diff 500 300 roads ≡ some "SH2"
unfolding identify_from_gps closest
on_the_first = refl

identify_from_gps_lem_example :
    ((identify_from_gps abs_diff 500 300 roads ≡ none)
      × All (λ s. 500 < away abs_diff 500 300 s) roads)
    ⊎ ((least : ℕ) × (road : String) × (identify_from_gps abs_diff 500 300 roads ≡ some road)
        × IsNearest abs_diff 500 300 roads least road)
identify_from_gps_lem_example = identify_from_gps_lem abs_diff 500 300 roads

overspent : detect_anomalies (record { sanctioned = 10; released = 8; spent = 9 }) [] [] ≢ []
unfolding detect_anomalies
overspent e = cc
