-- ===== src/Sla/Tests.antt =====
-- Nights of a small database: one complaint past its deadline, one dealt with before.
use roadwatch.Prelude.{ℕ, ◌≡◌, inl, refl, none, some, Bool, true, false, [], ◌∷◌, map, arith}
use roadwatch.Prelude.Int.{negsuc}
use roadwatch.Prelude.Text.{Text, codes}
use roadwatch.Escalation.{next_in_linear_hierarchy, hierarchy_for_road_type, matches}
use roadwatch.RegionCode.{trim}
use roadwatch.Sla.{
  SlaRow, Complaint, Joined, Db, StatusEvent, due, mark_breached, returning, find_complaint,
  ensure_sla_tracking,
}
use roadwatch.Sla.Check.{
  Faults, Config, move_complaints, set_notified, process_row, process_rows, check_sla_breaches,
  apply_breach_karma, enqueue_status_changed_outbox,
}
use roadwatch.Sla.Laws.{AllAnnounced, check_sla_breaches-AllAnnounced}
use roadwatch.Sla.Once.{Night, nights, nights-SameFor, events_of}
use roadwatch.Sla.Tracking.{watched, ensure_sla_tracking-watched}

abbrev same : Text → Text
same t = t

abbrev joins : Text → Joined
joins id = record {
  road_type = some (codes "NH");
  engineer_user_id = none;
  inspector_id = some (codes "e1");
  assigned_contractor_id = some (codes "k1");
}

abbrev config : Config
config = record {
  karma_sla_contractor = negsuc 19;
  karma_sla_engineer = negsuc 14;
  org_karma_base_penalty = negsuc 9;
}

abbrev tracked : Text → Bool → ℕ → SlaRow
tracked id notified deadline = record {
  complaint_id = id;
  contractor_id = none;
  breached = notified;
  breach_notified = notified;
  sla_deadline = some deadline;
}

abbrev complaint : Text → Text → Text → Complaint
complaint id status authority = record {
  id = id;
  status = status;
  district = some (codes "Pune");
  zone = none;
  authority_id = some authority;
  authority_org = none;
  road_id = none;
  metadata = none;
}

abbrev sent : Text → Text → StatusEvent
sent id from = record {
  complaint_id = id;
  from_status = from;
  to_status = codes "ESCALATED";
  keyed = true;
}

abbrev db : Db
db = record {
  tracking = tracked (codes "a") false 10 ∷ tracked (codes "b") true 5 ∷ [];
  complaints =
      complaint (codes "a") (codes "OPEN") (codes "PROJECT_DIRECTOR_PIU")
      ∷ complaint (codes "b") (codes "ESCALATED") (codes "CHAIRMAN_NHAI")
      ∷ [];
  outbox = sent (codes "b") (codes "OPEN") ∷ [];
  event_logs = [];
  notices = [];
  charges = [];
}

abbrev whole : Faults
whole = record {
  moved = true;
  logged_breach = true;
  logged_due = false;
  enqueued = false;
  enqueued_again = true;
  connected = true;
  marked = true;
}

abbrev unmarked : Faults
unmarked = record whole { marked = false }

abbrev after : Db
after = check_sla_breaches same same joins false true true true config (λ id. whole) 20 db

after_authority :
    map (λ (c : Complaint). c.authority_id) after.complaints
    ≡ some (codes "REGIONAL_OFFICER_RO") ∷ some (codes "CHAIRMAN_NHAI") ∷ []
unfolding check_sla_breaches process_rows process_row mark_breached returning due
    enqueue_status_changed_outbox apply_breach_karma move_complaints set_notified
    next_in_linear_hierarchy hierarchy_for_road_type matches trim
after_authority = refl

-- A complaint that is tracked again keeps its deadline and its marks.
tracked_again : ensure_sla_tracking (codes "b") none 90 db.tracking ≡ db.tracking
unfolding ensure_sla_tracking
tracked_again = refl

check_sla_breaches-AllAnnounced_example :
    AllAnnounced
      (check_sla_breaches same same joins false true true true config (λ id. unmarked) 20 db)
check_sla_breaches-AllAnnounced_example =
    check_sla_breaches-AllAnnounced same same joins config false true true true (λ id. unmarked) 20
      db ((λ e. absurd (clash e)), ((λ e. inl (refl, refl)), tt))
  where
    clash : false ≡ true → ⊥
    clash e = cc

abbrev night : ℕ → Faults → Night
night now f = record { holiday = false; ready = true; updated = true; faults = λ id. f; now = now }

nights-SameFor_example :
    (find_complaint
        (codes "b")
        (nights same same joins config (night 20 unmarked ∷ night 30 whole ∷ []) db).complaints
      ≡ some (complaint (codes "b") (codes "ESCALATED") (codes "CHAIRMAN_NHAI")))
    × (events_of
          (codes "b")
          (nights same same joins config (night 20 unmarked ∷ night 30 whole ∷ []) db).outbox
        ≡ sent (codes "b") (codes "OPEN") ∷ [])
nights-SameFor_example =
    nights-SameFor same same joins config (night 20 unmarked ∷ night 30 whole ∷ []) (codes "b") db
      ((λ e. absurd (clash e)), ((λ e. refl), tt))
  where
    clash : codes "a" ≡ codes "b" → ⊥
    clash e = ground arith

ensure_sla_tracking-watched_example :
    map watched (ensure_sla_tracking (codes "a") none 90 db.tracking) ≡ map watched db.tracking
ensure_sla_tracking-watched_example =
    ensure_sla_tracking-watched (codes "a") none 90 10 db.tracking (tracked (codes "a") false 10)
      refl refl
