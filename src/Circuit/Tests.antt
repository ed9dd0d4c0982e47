-- ===== src/Circuit/Tests.antt =====
-- A circuit that two failures open, and that a call closes again after a second.
use roadwatch.Prelude.{
  ◌+◌, ◌-◌, ◌*◌, ◌≤◌, ◌<◌, ◌≡◌, ◌≢◌, ◌↔◌, ◌⊎◌, refl, none, some, List, [], ◌∷◌, arith,
}
use roadwatch.Circuit.{
  CircuitBreakerOptions, CircuitBreaker, open_state, half_open, maybe_half_open, get_state, admit,
  settle,
}
use roadwatch.Circuit.Laws.{
  Event, asked, succeeded, threw, after, trailing, last_threw, admit-after_iff, admit-retry,
}

abbrev options : CircuitBreakerOptions
options = record { failure_threshold = 2; open_ms = 1000 }

abbrev history : List Event
history = threw 30 ∷ threw 20 ∷ asked 15 ∷ asked 10 ∷ []

tripped : after options history ≡ record { failures = 2; state = open_state; opened_at = 30 }
unfolding settle admit maybe_half_open
tripped = refl

cooled : (get_state options 1030 (after options history)).0 ≡ half_open
unfolding settle admit maybe_half_open get_state
cooled = refl

-- A call that was let through before the circuit opened closes it when it succeeds.
late_success : (admit options 40 (after options (succeeded 35 ∷ history))).0 ≡ none
unfolding settle admit maybe_half_open
late_success = refl

admit-after_iff_example :
    ((admit options 500 (after options history)).0 ≡ none)
    ↔ ((trailing history < 2) ⊎ (last_threw history + 1000 ≤ 500))
admit-after_iff_example = admit-after_iff options 500 history (omega arith) (omega arith)

abbrev opened : CircuitBreaker
opened = record { failures = 5; state = open_state; opened_at = 100 }

abbrev half_minute : CircuitBreakerOptions
half_minute = record { failure_threshold = 5; open_ms = 30000 }

opened-wait : (admit half_minute 1100 opened).0 ≡ some 29
unfolding admit maybe_half_open
opened-wait = refl

admit-retry_example :
    (1 ≤ 29)
    × (1100 + 29 * 1000 ≤ 30100
        → (admit half_minute 30100 (admit half_minute 1100 opened).1).0 ≡ none)
    × (1 < 29
        → 30100 < 1100 + (29 - 1) * 1000
        → 1100 ≤ 30100
        → (admit half_minute 30100 (admit half_minute 1100 opened).1).0 ≢ none)
admit-retry_example = admit-retry half_minute 1100 30100 29 opened opened-wait (omega arith)
