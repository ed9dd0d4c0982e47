-- ===== src/Submission/Rows.antt =====
-- What each step of a request changes in the rows of nonces, submissions and karma.
use Prim.Native.String.{String}
use text.Mathlib.Text.{◌==◌ as str_eq}
use text.Mathlib.TextEquality.{eq_iff}
use roadwatch.Prelude.{
  ℕ, ◌+◌, ltb, ◌≡◌, refl, ◌∙◌, inl, inr, List, [], ◌∷◌, Option, none, some, Bool, true, false,
  if◌then◌else◌, arith, Bool-cases,
}
use roadwatch.Prelude.Text.{Text}
use roadwatch.Karma.{
  KarmaRecord, is_today, escalate_penalty, KarmaTier, apply_duplicate_penalty, calculate_new_score,
  min_score, max_score, get_tier_from_score,
}
use roadwatch.Prelude.Int.{ℤ}
use roadwatch.Karma.Laws.{is_today_iff}
use roadwatch.Verification.{VerificationCheck}
use roadwatch.Submission.Store.{
  or_default, fresh_karma, VerifiedStatus, verified, flagged, Db, karma_of, get_or_create_record,
  create_audits, update_karma, update_row, update_karma_score, record_penalty,
  increment_daily_submission_count,
}
use roadwatch.Submission.Accept.{reward, penalise, karma_config, settle_karma}

-- The tables but those of karma and of audits.
abbrev pub SameRows : Db → Db → Type 0
SameRows db db' = (db'.nonces ≡ db.nonces) × (db'.submissions ≡ db.submissions)

abbrev pub day_count : Option KarmaRecord → Text → ℕ
day_count none day = 0
day_count (some k) day = if is_today k.last_submission_date day then k.daily_submission_count else 0

-- A change that leaves every user's count of a day.
abbrev pub SameDays : Db → Db → Type 0
SameDays db db' =
    (u : String) (day : Text) → day_count (db'.karma u) day ≡ day_count (db.karma u) day

abbrev pub has_row : Option KarmaRecord → Bool
has_row none = false
has_row (some k) = true

abbrev pub Tame : Db → Db → Type 0
Tame db db' =
    SameRows db db'
    × SameDays db db'
    × ((u : String) → has_row (db'.karma u) ≡ has_row (db.karma u))

pub Tame-refl : (db : Db) → Tame db db
Tame-refl db = ((refl, refl), (λ u day. refl), λ u. refl)

pub Tame-trans : (a b c : Db) → Tame a b → Tame b c → Tame a c
Tame-trans a b c ((n, s), d, r) ((n', s'), d', r') =
    ((n' ∙ n, s' ∙ s), (λ u day. d' u day ∙ d u day), λ u. r' u ∙ r u)

if_Tame : (b : Bool) (db x y : Db) → Tame db x → Tame db y → Tame db (if b then x else y)
if_Tame true db x y hx hy = hx
if_Tame false db x y hx hy = hy

-- An update of the row of a user that leaves the count of every day.
update_row-Tame :
    (user : String) (f : KarmaRecord → KarmaRecord) (o : Option KarmaRecord) (db : Db)
    → db.karma user ≡ o
    → ((k : KarmaRecord) (day : Text) → day_count (some (f k)) day ≡ day_count (some k) day)
    → Tame db (update_row user f o db)
unfolding update_row
update_row-Tame user f none db e h = Tame-refl db
update_row-Tame user f (some k) db e h = ((refl, refl), (λ u day. (kept u).0 day), λ u. (kept u).1)
  where
    kept :
        (u : String)
        → ((day : Text)
            → day_count (if str_eq u user then some (f k) else db.karma u) day
              ≡ day_count (db.karma u) day)
          × (has_row (if str_eq u user then some (f k) else db.karma u) ≡ has_row (db.karma u))
    kept u = elim (Bool-cases (str_eq u user)) [
      | inl same ↦ rw (same, (eq_iff u user).0 same, e) ((λ day. h k day), refl)
      | inr other ↦ rw other ((λ day. refl), refl)
    ]

update_karma-Tame :
    (user : String) (f : KarmaRecord → KarmaRecord) (db : Db)
    → ((k : KarmaRecord) (day : Text) → day_count (some (f k)) day ≡ day_count (some k) day)
    → Tame db (update_karma user f db)
unfolding update_karma
update_karma-Tame user f db h = update_row-Tame user f (db.karma user) db refl h

pub create_audits-Tame :
    (id : String) (checks : List VerificationCheck) (db : Db) → Tame db (create_audits id checks db)
unfolding create_audits
create_audits-Tame id [] db = Tame-refl db
create_audits-Tame id (check ∷ checks) db =
    create_audits-Tame id checks (record db { audits = (id, check) ∷ db.audits })

update_karma_score-Tame :
    (user : String) (delta : ℤ) (tier : KarmaTier) (db : Db)
    → Tame db (update_karma_score user delta tier db)
unfolding update_karma_score
update_karma_score-Tame user delta tier db = update_karma-Tame user _ db (λ k day. refl)

record_penalty-Tame :
    (user : String) (count until : ℕ) (reason : Option Text) (db : Db)
    → Tame db (record_penalty user count until reason db)
unfolding record_penalty
record_penalty-Tame user count until reason db = update_karma-Tame user _ db (λ k day. refl)

penalise-Tame :
    (user id : String) (karma : KarmaRecord) (now : ℕ) (db : Db)
    → Tame db (penalise user id karma now db)
unfolding penalise
penalise-Tame user id karma now db =
    let e = escalate_penalty karma karma_config now in
    let penalty = apply_duplicate_penalty karma karma_config id now in
    let new_score = calculate_new_score karma.score penalty min_score max_score in
    let tier = get_tier_from_score new_score e.new_penalty_count e.suspended_until now in
    let scored = update_karma_score user penalty.delta tier db in
    let tame = update_karma_score-Tame user penalty.delta tier db in
    if_Tame (ltb 0 e.new_penalty_count) db
      (record_penalty user e.new_penalty_count e.suspended_until e.ban_reason scored) scored
      (Tame-trans db scored
        (record_penalty user e.new_penalty_count e.suspended_until e.ban_reason scored) tame
        (record_penalty-Tame user e.new_penalty_count e.suspended_until e.ban_reason scored))
      tame

pub settle_karma-Tame :
    (status : VerifiedStatus) (duplicate : Bool) (user id : String) (karma : KarmaRecord) (now : ℕ)
    (db : Db)
    → Tame db (settle_karma status duplicate user id karma now db)
unfolding settle_karma reward update_karma_score
settle_karma-Tame verified true user id karma now db = penalise-Tame user id karma now db
settle_karma-Tame verified false user id karma now db = update_karma-Tame user _ db (λ k day. refl)
settle_karma-Tame flagged true user id karma now db = penalise-Tame user id karma now db
settle_karma-Tame flagged false user id karma now db = Tame-refl db

abbrev counted_today : Text → KarmaRecord → KarmaRecord
counted_today day k = record k {
  daily_submission_count =
      if is_today k.last_submission_date day then k.daily_submission_count + 1 else 1;
  last_submission_date = some day;
}

day_count-counted_today :
    (day : Text) (k : KarmaRecord)
    → day_count (some (counted_today day k)) day ≡ day_count (some k) day + 1
day_count-counted_today day k = rw ((is_today_iff (some day) day).1 refl) (ground arith)

update_row-day_count :
    (user : String) (day : Text) (o : Option KarmaRecord) (db : Db)
    → db.karma user ≡ o
    → has_row o ≡ true
    → let after = update_row user (counted_today day) o db in
      SameRows db after
      × ((u : String)
          → day_count (after.karma u) day
            ≡ day_count (db.karma u) day + (if str_eq u user then 1 else 0))
unfolding update_row
update_row-day_count user day none db e h = absurd (ground arith)
update_row-day_count user day (some k) db e h = ((refl, refl), λ u. counted u)
  where
    counted :
        (u : String)
        → day_count (if str_eq u user then some (counted_today day k) else db.karma u) day
          ≡ day_count (db.karma u) day + (if str_eq u user then 1 else 0)
    counted u = elim (Bool-cases (str_eq u user)) [
      | inl same ↦ rw (same, (eq_iff u user).0 same, e) (day_count-counted_today day k)
      | inr other ↦ rw other (omega arith)
    ]

-- The daily count of the user goes up by one, that of the others stays.
pub increment-day_count :
    (user : String) (day : Text) (db : Db)
    → has_row (db.karma user) ≡ true
    → let after = increment_daily_submission_count user day db in
      SameRows db after
      × ((u : String)
          → day_count (after.karma u) day
            ≡ day_count (db.karma u) day + (if str_eq u user then 1 else 0))
unfolding increment_daily_submission_count update_karma
increment-day_count user day db h = update_row-day_count user day (db.karma user) db refl h

pub or_fresh-day_count :
    (user : String) (o : Option KarmaRecord) (day : Text)
    → day_count (some (or_default o (fresh_karma user))) day ≡ day_count o day
unfolding fresh_karma is_today
or_fresh-day_count user none day = refl
or_fresh-day_count user (some k) day = refl

-- The row of the user is there afterwards, and the counts of every day are what they were.
pub get_or_create_record-day_count :
    (user : String) (db : Db)
    → let found = (get_or_create_record user db).1 in
      SameRows db found × SameDays db found × (has_row (found.karma user) ≡ true)
unfolding get_or_create_record karma_of
get_or_create_record-day_count user db = ((refl, refl), kept, rw ((eq_iff user user).1 refl) refl)
  where
    kept :
        (u : String) (day : Text)
        → day_count
            (if str_eq u user
              then some (or_default (db.karma user) (fresh_karma user))
              else db.karma u)
            day
          ≡ day_count (db.karma u) day
    kept u day = elim (Bool-cases (str_eq u user)) [
      | inl same ↦ rw (same, (eq_iff u user).0 same) (or_fresh-day_count user (db.karma user) day)
      | inr other ↦ rw other refl
    ]
