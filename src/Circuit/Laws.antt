-- ===== src/Circuit/Laws.antt =====
-- When the circuit breaker of apps/gateway-api/src/security/circuit-breaker.ts lets a call through.
use roadwatch.Prelude.{
  ℕ, suc, ◌+◌, ◌-◌, ◌*◌, ◌≤◌, ◌<◌, ◌≡◌, ◌≢◌, ◌↔◌, ◌⊎◌, inl, inr, refl, sym, ap, subst, ◌∙◌, leb,
  none, some, Bool, true, false, List, [], ◌∷◌, arith, Bool-cases,
}
use roadwatch.Circuit.{
  CircuitState, closed, open_state, half_open, CircuitBreakerOptions, CircuitBreaker, new_circuit,
  thawed, maybe_half_open, retry_after_seconds, refusal, admit, settle,
}

-- What callers do, in any interleaving: ask to be let through, or come back.
pub data Event : Type 0 where
  asked succeeded threw : (at : ℕ) → Event

abbrev pub time : Event → ℕ
time (asked at) = at
time (succeeded at) = at
time (threw at) = at

abbrev pub apply : CircuitBreakerOptions → Event → CircuitBreaker → CircuitBreaker
apply o (asked at) c = (admit o at c).1
apply o (succeeded at) c = settle o at true c
apply o (threw at) c = settle o at false c

-- The breaker after a history, the newest event first.
abbrev pub after : CircuitBreakerOptions → List Event → CircuitBreaker
after o [] = new_circuit
after o (e ∷ es) = apply o e (after o es)

-- The calls that threw since one last succeeded, and the time of the last that threw.
abbrev pub trailing : List Event → ℕ
trailing [] = 0
trailing (asked at ∷ es) = trailing es
trailing (succeeded at ∷ es) = 0
trailing (threw at ∷ es) = suc (trailing es)

abbrev pub last_threw : List Event → ℕ
last_threw [] = 0
last_threw (asked at ∷ es) = last_threw es
last_threw (succeeded at ∷ es) = last_threw es
last_threw (threw at ∷ es) = at

-- No event is later than the next one, nor the newest than `now`.
abbrev pub Ordered : ℕ → List Event → Type 0
Ordered now [] = Unit
Ordered now (e ∷ es) = (time e ≤ now) × Ordered (time e) es

-- How the state stands to the number of failures and the time of the last.
abbrev StateFits : CircuitBreakerOptions → ℕ → ℕ → ℕ → CircuitState → ℕ → Type 0
StateFits o now n last closed opened_at = n < o.failure_threshold
StateFits o now n last open_state opened_at =
    (o.failure_threshold ≤ n) × (opened_at ≡ last) × (last ≤ now)
StateFits o now n last half_open opened_at =
    (o.failure_threshold ≤ n) × (opened_at ≡ last) × (last + o.open_ms ≤ now)

record Agrees (o : CircuitBreakerOptions) (now n last : ℕ) (c : CircuitBreaker) : Type 0 where
  counted : c.failures ≡ n
  fits : StateFits o now n last c.state c.opened_at

module _ (o : CircuitBreakerOptions) (now at n last : ℕ) (le : now ≤ at) where
  -- Time passes, and the open circuit is half open once it has cooled.
  thawed-fits :
      (state : CircuitState) (opened_at : ℕ)
      → StateFits o now n last state opened_at
      → StateFits o at n last (thawed state (leb o.open_ms (at - opened_at))) opened_at
  thawed-fits closed opened_at h = h
  thawed-fits open_state opened_at (h, e, l) = elim (Bool-cases (leb o.open_ms (at - opened_at))) [
    | inl cool ↦ rw cool (h, e, ground arith)
    | inr hot ↦ rw hot (h, e, omega arith)
  ]
  thawed-fits half_open opened_at (h, e, l) = (h, e, omega arith)

  threw-fits :
      (state : CircuitState) (opened_at : ℕ)
      → StateFits o now n last state opened_at
      → Agrees o at
          (suc n)
          at
          (settle o at false (record { failures = n; state = state; opened_at = opened_at }))
  unfolding settle
  threw-fits closed opened_at h = elim (Bool-cases (leb o.failure_threshold (n + 1))) [
    | inl full ↦
        rw full (record { counted = omega arith; fits = (ground arith, refl, omega arith) })
    | inr room ↦ rw room (record { counted = omega arith; fits = ground arith })
  ]
  threw-fits open_state opened_at (h, e, l) =
      let full : leb o.failure_threshold (n + 1) ≡ true = ground arith in
      rw full (record { counted = omega arith; fits = (omega arith, refl, omega arith) })
  threw-fits half_open opened_at (h, e, l) =
      let full : leb o.failure_threshold (n + 1) ≡ true = ground arith in
      rw full (record { counted = omega arith; fits = (omega arith, refl, omega arith) })

  later-fits :
      (state : CircuitState) (opened_at : ℕ)
      → StateFits o now n last state opened_at
      → StateFits o at n last state opened_at
  later-fits closed opened_at h = h
  later-fits open_state opened_at (h, e, l) = (h, e, omega arith)
  later-fits half_open opened_at (h, e, l) = (h, e, omega arith)

later-Agrees :
    (o : CircuitBreakerOptions) (now at n last : ℕ) (c : CircuitBreaker)
    → now ≤ at
    → Agrees o now n last c
    → Agrees o at n last c
later-Agrees o now at n last c le v = record {
  counted = v.counted;
  fits = later-fits o now at n last le c.state c.opened_at v.fits;
}

asked-Agrees :
    (o : CircuitBreakerOptions) (now at n last : ℕ) (c : CircuitBreaker)
    → now ≤ at
    → Agrees o now n last c
    → Agrees o at n last (admit o at c).1
unfolding admit maybe_half_open
asked-Agrees o now at n last c le v = record {
  counted = v.counted;
  fits = thawed-fits o now at n last le c.state c.opened_at v.fits;
}

threw-Agrees :
    (o : CircuitBreakerOptions) (now at n last : ℕ) (c : CircuitBreaker)
    → now ≤ at
    → Agrees o now n last c
    → Agrees o at (suc n) at (settle o at false c)
threw-Agrees o now at n last c le v =
    subst (λ (m : ℕ). Agrees o at (suc m) at (settle o at false c)) v.counted
      (threw-fits o now at c.failures last le c.state c.opened_at
        (subst (λ (m : ℕ). StateFits o now m last c.state c.opened_at) (sym v.counted) v.fits))

after-Agrees :
    (o : CircuitBreakerOptions) (now : ℕ) (es : List Event)
    → 0 < o.failure_threshold
    → Ordered now es
    → Agrees o now (trailing es) (last_threw es) (after o es)
unfolding settle
after-Agrees o now [] h ord = record { counted = refl; fits = h }
after-Agrees o now (asked at ∷ es) h (le, ord) =
    later-Agrees o at now (trailing es) (last_threw es) (after o (asked at ∷ es)) le (
      asked-Agrees o at at (trailing es) (last_threw es) (after o es) (omega arith)
        (after-Agrees o at es h ord))
after-Agrees o now (succeeded at ∷ es) h (le, ord) = record { counted = refl; fits = h }
after-Agrees o now (threw at ∷ es) h (le, ord) =
    later-Agrees o at now (suc (trailing es)) at (after o (threw at ∷ es)) le (
      threw-Agrees o at at (trailing es) (last_threw es) (after o es) (omega arith)
        (after-Agrees o at es h ord))

Agrees-admit :
    (o : CircuitBreakerOptions) (now n last failures opened_at : ℕ) (state : CircuitState)
    → StateFits o now n last state opened_at
    → ((admit o now (record { failures = failures; state = state; opened_at = opened_at })).0
        ≡ none)
      ↔ ((n < o.failure_threshold) ⊎ (last + o.open_ms ≤ now))
unfolding admit maybe_half_open
Agrees-admit o now n last failures opened_at closed h = (λ e. inl h, λ e. refl)
Agrees-admit o now n last failures opened_at open_state (h, e, l) =
    elim (Bool-cases (leb o.open_ms (now - opened_at))) [
      | inl cool ↦ rw cool (λ _. inr (ground arith), λ _. refl)
      | inr hot ↦ rw hot (λ f. absurd (cc), λ f. absurd (ground arith))
    ]
Agrees-admit o now n last failures opened_at half_open (h, e, l) =
    (λ _. inr (omega arith), λ _. refl)

-- After any history whose times do not go back, with a threshold above 0 and whatever the
-- interleaving of the calls, a call is let through exactly if fewer calls than the threshold threw
-- since one last succeeded, or the last that threw came back at least `open_ms` ago.
pub admit-after_iff :
    (o : CircuitBreakerOptions) (now : ℕ) (es : List Event)
    → 0 < o.failure_threshold
    → Ordered now es
    → ((admit o now (after o es)).0 ≡ none)
      ↔ ((trailing es < o.failure_threshold) ⊎ (last_threw es + o.open_ms ≤ now))
admit-after_iff o now es h ord =
    let c = after o es in
    Agrees-admit o now (trailing es) (last_threw es) c.failures c.opened_at c.state
      ((after-Agrees o now es h ord).fits)

refused_cases :
    (state : CircuitState) (cool : Bool) (wait seconds : ℕ)
    → refusal (thawed state cool) wait ≡ some seconds
    → (state ≡ open_state) × (cool ≡ false) × (wait ≡ seconds)
refused_cases closed cool wait seconds e = absurd (cc)
refused_cases half_open cool wait seconds e = absurd (cc)
refused_cases open_state true wait seconds e = absurd (cc)
refused_cases open_state false wait seconds e = (refl, refl, cc)

-- A circuit that is open answers by the time alone.
open-admit :
    (o : CircuitBreakerOptions) (later failures opened_at : ℕ)
    → let c : CircuitBreaker = record {
      failures = failures;
      state = open_state;
      opened_at = opened_at;
    } in
      (opened_at + o.open_ms ≤ later → (admit o later c).0 ≡ none)
      × (opened_at ≤ later → later < opened_at + o.open_ms → (admit o later c).0 ≢ none)
unfolding admit maybe_half_open
open-admit o later failures opened_at = (
  λ h. let cool : leb o.open_ms (later - opened_at) ≡ true = ground arith in rw cool refl,
  λ l h.
      let hot : leb o.open_ms (later - opened_at) ≡ false = ground arith in
      rw hot (λ f. absurd (cc)),
)

refused-state :
    (o : CircuitBreakerOptions) (now seconds : ℕ) (c : CircuitBreaker)
    → (admit o now c).0 ≡ some seconds
    → ((admit o now c).1
        ≡ record { failures = c.failures; state = open_state; opened_at = c.opened_at })
      × (now - c.opened_at < o.open_ms)
      × (retry_after_seconds o now c ≡ seconds)
unfolding admit maybe_half_open
refused-state o now seconds c e =
    let (s, h, w) =
      refused_cases c.state (leb o.open_ms (now - c.opened_at)) (retry_after_seconds o now c)
        seconds e in
    (
      ap
          (λ (x : CircuitState). record {
            failures = c.failures;
            state = x;
            opened_at = c.opened_at;
          })
          (ap (λ (x : CircuitState). thawed x (leb o.open_ms (now - c.opened_at))) s
            ∙ ap (λ (b : Bool). thawed open_state b) h),
      ground arith,
      w,
    )

-- A call that is refused is told a wait of at least one second. Asked again by another after at
-- least that many seconds, without a call that came back in between, the breaker lets it through;
-- after a second less it would still have refused, where the wait is longer than one second.
pub admit-retry :
    (o : CircuitBreakerOptions) (now later seconds : ℕ) (c : CircuitBreaker)
    → (admit o now c).0 ≡ some seconds
    → c.opened_at ≤ now
    → (1 ≤ seconds)
      × (now + seconds * 1000 ≤ later → (admit o later (admit o now c).1).0 ≡ none)
      × (1 < seconds
          → later < now + (seconds - 1) * 1000
          → now ≤ later
          → (admit o later (admit o now c).1).0 ≢ none)
admit-retry o now later seconds c e le =
    let (same, hot, wait) = refused-state o now seconds c e in
    let timed = open-admit o later c.failures c.opened_at in
    (
      omega arith,
      λ h. rw same (timed.0 (omega arith)),
      λ more early on. rw same (timed.1 (omega arith) (omega arith)),
    )
