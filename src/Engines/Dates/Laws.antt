-- ===== src/Engines/Dates/Laws.antt =====
-- The date that packages/core/src/utils/datetime.ts finds.
use roadwatch.Prelude.{
  ℕ, zero, suc, ◌+◌, ◌*◌, ◌≤◌, ◌<◌, ◌≡◌, refl, ap, sym, subst, ◌∙◌, inl, inr, Option, some, Bool,
  true, false, ◌==◌, if◌then◌else◌, Bool-cases, arith,
}
use roadwatch.Engines.Dates.{day_of_week, is_weekend, add_working_days, calculate_sla_breach_date}

-- The working days among so many days after a day.
abbrev pub working_days : ℕ → ℕ → ℕ
working_days day zero = 0
working_days day (suc n) = (if is_weekend (day + 1) then 0 else 1) + working_days (day + 1) n

-- The rounds that the weekend has cost when the loop stands on a day of it.
abbrev spent : ℕ → ℕ
spent day = if day_of_week day == 6 then 1 else if day_of_week day == 0 then 2 else 0

spent-weekend : (day : ℕ) → is_weekend (day + 1) ≡ true → spent day + 1 ≤ spent (day + 1)
unfolding is_weekend day_of_week
spent-weekend day h = ground arith

-- A date after so many days, with as many working days in between, and one itself if any is asked.
abbrev pub IsDue : ℕ → ℕ → Option ℕ → Type 0
IsDue day left o =
    (n : ℕ) × (o ≡ some (day + n))
    × (working_days day n ≡ left)
    × (0 < left → is_weekend (day + n) ≡ false)
    × (left ≡ 0 → n ≡ 0)

skip_weekend :
    (day left : ℕ) (o : Option ℕ)
    → is_weekend (day + 1) ≡ true
    → IsDue (day + 1) (suc left) o
    → IsDue day (suc left) o
skip_weekend day left o off (n, found, count, work, none_left) = (
  suc n,
  found ∙ ap some (omega arith),
  rw off (omega (arith, count)),
  (λ p. ap is_weekend (omega arith) ∙ work p),
  (λ e. absurd (omega arith)),
)

last_day :
    (day left n : ℕ)
    → is_weekend (day + 1) ≡ false
    → (0 < left → is_weekend (day + 1 + n) ≡ false)
    → (left ≡ 0 → n ≡ 0)
    → is_weekend (day + suc n) ≡ false
last_day day zero n on work none_left = ap is_weekend (omega (arith, none_left refl)) ∙ on
last_day day (suc left) n on work none_left = ap is_weekend (omega arith) ∙ work (omega arith)

add_day :
    (day left : ℕ) (o : Option ℕ)
    → is_weekend (day + 1) ≡ false
    → IsDue (day + 1) left o
    → IsDue day (suc left) o
add_day day left o on (n, found, count, work, none_left) = (
  suc n,
  found ∙ ap some (omega arith),
  rw on (omega (arith, count)),
  (λ p. last_day day left n on work none_left),
  (λ e. absurd (omega arith)),
)

add_working_days-IsDue :
    (fuel day left : ℕ)
    → 3 * left ≤ fuel + spent day
    → IsDue day left (add_working_days fuel day left)
unfolding add_working_days
add_working_days-IsDue fuel day zero h =
    (0, ap some (omega arith), refl, (λ p. absurd (omega arith)), (λ e. refl))
add_working_days-IsDue zero day (suc left) h = absurd (ground arith)
add_working_days-IsDue (suc fuel) day (suc left) h = elim (Bool-cases (is_weekend (day + 1))) [
  | inl off ↦ subst (IsDue day (suc left)) (sym (ap next_round off)) (
      skip_weekend day left _ off
        (add_working_days-IsDue fuel (day + 1) (suc left) (omega (arith, spent-weekend day off))))
  | inr on ↦
      subst (IsDue day (suc left)) (sym (ap next_round on))
        (add_day day left _ on (add_working_days-IsDue fuel (day + 1) left (ground arith)))
]
  where
    next_round : Bool → Option ℕ
    next_round b = add_working_days fuel (day + 1) (if b then suc left else left)

-- The loop ends: it finds the first day after so many that as many of the days since the start as
-- are allowed are working days; where any are allowed, that day is one of them.
pub calculate_sla_breach_date-IsDue :
    (start allowed_days : ℕ)
    → IsDue start allowed_days (calculate_sla_breach_date start allowed_days)
unfolding calculate_sla_breach_date
calculate_sla_breach_date-IsDue start allowed_days =
    add_working_days-IsDue (3 * allowed_days) start allowed_days (omega arith)
