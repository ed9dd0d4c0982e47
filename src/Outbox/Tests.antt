-- ===== src/Outbox/Tests.antt =====
-- One event that Kafka always refuses, and one that a dead process left in flight.
use mathlib.Core.List.{Memᴰ}
use roadwatch.Prelude.{
  ℕ, suc, zero, ◌+◌, ◌≤◌, ◌<◌, ◌≡◌, ◌⊎◌, inl, inr, refl, ◌∙◌, sym, subst, none, some, List, [], ◌∷◌,
  arith,
}
use roadwatch.Outbox.{
  failed, Row, Status, pending, in_flight, dead, delay_seconds, claim_pending_events, chosen,
  mark_failed, enqueue_kafka_event,
}
use roadwatch.Outbox.Drain.{
  refused, halted, Round, drain_kafka_event_outbox, publish_all, relay_tick,
}
use roadwatch.Outbox.Chosen.{Unique}
use roadwatch.Outbox.Laws.{relay_tick-closed}
use roadwatch.Outbox.Settling.{Paced, Finished, drains, drains-Finished}

abbrev event : Status → Row ℕ
event status = record {
  id = 4;
  event = 7;
  status = status;
  attempts = 0;
  available_at = 0;
  sent_at = none;
  last_error = none;
  created_at = 0;
  updated_at = 0;
}

event-Unique : (status : Status) → Unique (event status ∷ [])
event-Unique status r s (Memᴰ.head e) (Memᴰ.head f) same = e ∙ sym f
event-Unique status r s (Memᴰ.head e) (Memᴰ.tail n) same = elim n [ ]
event-Unique status r s (Memᴰ.tail m) n same = elim m [ ]

enqueued : enqueue_kafka_event 4 7 0 [] ≡ event pending ∷ []
unfolding enqueue_kafka_event
enqueued = refl

abbrev refusing : ℕ → Round
refusing now = record { locked = []; now = now; reply = λ i. refused "down" now }

abbrev each_minute : ℕ → ℕ → List Round
each_minute zero now = []
each_minute (suc n) now = refusing now ∷ each_minute n (now + 60)

each_minute-Paced : (n now : ℕ) → Paced now (each_minute n now)
each_minute-Paced zero now = tt
each_minute-Paced (suc n) now =
    (now, omega arith, refl, λ i. omega arith, each_minute-Paced n (now + 60))

abbrev given_up : Row ℕ
given_up = record (event dead) {
  attempts = 10;
  available_at = 525;
  last_error = some "down";
  updated_at = 540;
}

given_up-Mem : Memᴰ given_up (drains 1 (each_minute 10 0) (event pending ∷ []))
unfolding drain_kafka_event_outbox claim_pending_events chosen publish_all mark_failed delay_seconds
given_up-Mem = Memᴰ.head refl

abbrev Fit : Row ℕ → Type 0
Fit r =
    Finished r
    ⊎ ((r.status ≡ pending) ⊎ (r.status ≡ failed)) × (r.available_at ≤ 0) × (r.attempts < 10)

event-Fit : (r : Row ℕ) → Memᴰ r (event pending ∷ []) → Fit r
event-Fit r (Memᴰ.head e) = subst Fit (sym e) (inr (inl refl, omega arith, omega arith))
event-Fit r (Memᴰ.tail m) = elim m [ ]

drains-Finished_example : Finished given_up
drains-Finished_example =
    drains-Finished 1 0 (each_minute 10 0) (event pending ∷ []) (event-Unique pending) (omega arith)
      event-Fit (each_minute-Paced 10 0) (omega arith) given_up given_up-Mem

relay_tick-closed_example :
    Memᴰ (event in_flight) (relay_tick 25 (each_minute 3 0) (event in_flight ∷ []))
relay_tick-closed_example =
    relay_tick-closed 25 (each_minute 3 0) (event in_flight ∷ []) (event in_flight)
      (event-Unique in_flight) (Memᴰ.head refl) (inl refl)

stays_in_flight :
    Memᴰ (event in_flight) (drain_kafka_event_outbox (refusing 0) 25 (event in_flight ∷ [])).rows
unfolding drain_kafka_event_outbox claim_pending_events chosen publish_all mark_failed delay_seconds
stays_in_flight = Memᴰ.head refl

-- A process that dies after the claim leaves its row in flight.
left_in_flight :
    (drain_kafka_event_outbox
      (record { locked = []; now = 3; reply = λ i. halted })
      25
      (event pending ∷ [])).rows
    ≡ record (event in_flight) { attempts = 1; updated_at = 3 } ∷ []
unfolding drain_kafka_event_outbox claim_pending_events chosen publish_all
left_in_flight = refl
