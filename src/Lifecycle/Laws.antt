-- ===== src/Lifecycle/Laws.antt =====
-- How apps/gateway-api/src/services/complaint-lifecycle.ts and services/scheduler/index.ts move the
-- same score.
use Prim.Native.String.{String}
use roadwatch.Prelude.{
  ◌≡◌, inl, inr, refl, ap, ◌∙◌, Option, some, Bool, true, false, List, [], ◌∷◌, if◌then◌else◌,
  arith, Bool-cases,
}
use roadwatch.Prelude.Int.{ℤ, pos, negsuc, ltb_ℤ, eq_ℤ, ◌+ℤ◌, ◌≤ℤ◌, +ℤ_parts}
use roadwatch.Lifecycle.{
  User, Faults, at_risk, coalesce_zero, least, moved, record_and_move, award_karma,
  apply_user_karma_delta, apply_user_karma, work_band_of,
}

abbrev pub Within : ℤ → User → Type 0
Within lowest u =
    (lowest ≤ℤ coalesce_zero u.karma_score) × (coalesce_zero u.karma_score ≤ℤ pos 1000)

moved_bounds :
    (lowest delta : ℤ) (score : Option ℤ)
    → lowest ≤ℤ pos 1000
    → (lowest ≤ℤ moved lowest delta score) × (moved lowest delta score ≤ℤ pos 1000)
moved_bounds lowest delta score h = ground arith

pub data Change : Type 0 where
  by_gateway : (delta : ℤ) (reason : String) (ref_id : Option String) → Change
  by_scheduler : (delta : ℤ) (reason ref_id : String) → Change

abbrev pub change : Faults → Change → User → User
change f (by_gateway delta reason ref_id) u = apply_user_karma_delta f delta reason ref_id u
change f (by_scheduler delta reason ref_id) u = apply_user_karma f delta reason ref_id u

abbrev pub changes : List (Faults × Change) → User → User
changes [] u = u
changes ((f, c) ∷ cs) u = changes cs (change f c u)

record_and_move-Within :
    (lowest delta : ℤ) (f : Faults) (reason : String) (ref_id : Option String) (u : User)
    → negsuc 499 ≤ℤ lowest
    → lowest ≤ℤ pos 1000
    → Within (negsuc 499) u
    → Within (negsuc 499) (record_and_move lowest f delta reason ref_id u)
record_and_move-Within lowest delta f reason ref_id u low high w =
    let (above, below) = moved_bounds lowest delta u.karma_score high in
    elim (Bool-cases f.updated) [ inl e ↦ rw e (omega arith, below) | inr e ↦ rw e w ]

award_karma-Within :
    (f : Faults) (delta : ℤ) (reason : String) (ref_id : Option String) (u : User)
    → Within (negsuc 499) u
    → Within (negsuc 499) (award_karma f delta reason ref_id u)
unfolding award_karma
award_karma-Within f delta reason ref_id u w = elim (Bool-cases (eq_ℤ delta (pos 0))) [
  | inl e ↦ rw e w
  | inr e ↦
      rw e (record_and_move-Within (pos 0) delta f reason ref_id u (omega arith) (omega arith) w)
]

change-Within :
    (f : Faults) (c : Change) (u : User)
    → Within (negsuc 499) u
    → Within (negsuc 499) (change f c u)
unfolding apply_user_karma_delta apply_user_karma
change-Within f (by_gateway delta reason ref_id) u w = elim (Bool-cases (eq_ℤ delta (pos 0))) [
  | inl e ↦ rw e w
  | inr e ↦ rw e (banded_or_not f.banded)
]
  where
    banded_or_not :
        (b : Bool)
        → let u' = award_karma f delta reason ref_id u in
          Within (negsuc 499) (
            if b
            then record u' { work_band = some (work_band_of (coalesce_zero u'.karma_score)) }
            else u')
    banded_or_not true = award_karma-Within f delta reason ref_id u w
    banded_or_not false = award_karma-Within f delta reason ref_id u w
change-Within f (by_scheduler delta reason ref_id) u w = elim (Bool-cases (eq_ℤ delta (pos 0))) [
  | inl e ↦ rw e w
  | inr e ↦ rw e (
      record_and_move-Within (negsuc 499) delta f reason (some ref_id) u (omega arith) (omega arith)
        w)
]

-- Whatever changes the gateway and the scheduler make, in any order and whichever of their
-- statements fail, a score that is between -500 and 1000, or null, stays so.
pub changes-Within :
    (cs : List (Faults × Change)) (u : User)
    → Within (negsuc 499) u
    → Within (negsuc 499) (changes cs u)
changes-Within [] u w = w
changes-Within ((f, c) ∷ cs) u w = changes-Within cs (change f c u) (change-Within f c u w)

moved_up : (delta s : ℤ) → s ≤ℤ negsuc 0 → delta ≤ℤ pos 0 → moved (pos 0) delta (some s) ≡ pos 0
moved_up delta s below less =
    let down : ltb_ℤ (pos 0) (s +ℤ delta) ≡ false = ground (arith, +ℤ_parts s delta) in
    ap (λ (b : Bool). least (pos 1000) (if b then s +ℤ delta else pos 0)) down

award_updated :
    (f : Faults) (delta : ℤ) (reason : String) (ref_id : Option String) (u : User)
    → f.updated ≡ true
    → eq_ℤ delta (pos 0) ≡ false
    → (award_karma f delta reason ref_id u).karma_score ≡ some (moved (pos 0) delta u.karma_score)
unfolding award_karma
award_updated f delta reason ref_id u updated nonzero = rw nonzero (rw updated refl)

band_of_zero : work_band_of (pos 0) ≡ at_risk
unfolding work_band_of
band_of_zero = refl

-- A penalty of the gateway whose statements succeed sets a score below 0 to exactly 0, so that it
-- rises, and the band to AtRisk.
pub apply_user_karma_delta_raises :
    (f : Faults) (delta s : ℤ) (reason : String) (ref_id : Option String) (u : User)
    → f.updated ≡ true
    → f.banded ≡ true
    → u.karma_score ≡ some s
    → s ≤ℤ negsuc 0
    → delta ≤ℤ negsuc 0
    → let u' = apply_user_karma_delta f delta reason ref_id u in
      (u'.karma_score ≡ some (pos 0)) × (u'.work_band ≡ some at_risk)
unfolding apply_user_karma_delta
apply_user_karma_delta_raises f delta s reason ref_id u updated banded at below less =
    let some_delta : eq_ℤ delta (pos 0) ≡ false = ground arith in
    let scored : (award_karma f delta reason ref_id u).karma_score ≡ some (pos 0) =
      award_updated f delta reason ref_id u updated some_delta
      ∙ ap (λ (o : Option ℤ). some (moved (pos 0) delta o)) at
      ∙ ap some (moved_up delta s below (omega arith)) in
    (
      rw some_delta (simp banded scored),
      rw some_delta (
          simp banded (
            ap (λ (o : Option ℤ). some (work_band_of (coalesce_zero o))) scored
            ∙ ap some band_of_zero)),
    )
