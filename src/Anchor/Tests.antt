-- ===== src/Anchor/Tests.antt =====
-- Two complaints and a message that cannot be read, polled and flushed.
use mathlib.Core.List.{Memᴰ}
use roadwatch.Prelude.{
  ℕ, ◌<◌, ◌≡◌, ◌≢◌, ◌⊎◌, inl, inr, refl, none, some, false, List, [], ◌∷◌, arith,
}
use roadwatch.Anchor.{
  complaint_submitted, ConsumedMessage, Item, Anchor, validate, poll, add_all, consume, commit,
  malformed_only, create_complaint, submit_root, store_proof, store_proof_by_batch,
  publish_anchored, mark_processed,
}
use roadwatch.Anchor.Flush.{flush, flush_begin, flush_end, flush_failed, fail_all, run_calls, plan}
use roadwatch.Anchor.Delivery.{Settled, Held}
use roadwatch.Anchor.Runs.{Action, polling, flushing, after, OrderlyRun, after-Settled}
use roadwatch.Anchor.Budget.{failing, flush_thrice}
use roadwatch.Anchor.Races.{Lost, poll-flush_end}

abbrev idle : Anchor
idle = record {
  pending_commit_offsets = λ p. none;
  committed = λ p. 0;
  processed = λ k. false;
  failures = λ k. 0;
  batch = [];
  dead_letters = [];
  sent = [];
}

abbrev complaint : ℕ → ConsumedMessage
complaint n = record {
  topic = complaint_submitted;
  partition = 0;
  offset = n;
  parsed = some (record { idempotency_key = some n; complaint_id = some 7 });
}

abbrev garbage : ℕ → ConsumedMessage
garbage n = record { topic = complaint_submitted; partition = 0; offset = n; parsed = none }

abbrev entry : ℕ → Item
entry n = record { raw = complaint n; key = n; complaint_id = 7 }

abbrev waiting : Anchor
waiting = poll (complaint 4 ∷ []) idle

anchored :
    (flush none waiting).sent
    ≡ create_complaint (entry 4)
      ∷ submit_root (entry 4 ∷ [])
      ∷ store_proof (entry 4)
      ∷ store_proof_by_batch (entry 4)
      ∷ publish_anchored (entry 4)
      ∷ mark_processed 4
      ∷ []
unfolding poll add_all consume malformed_only validate flush flush_begin flush_end plan run_calls
    commit
anchored = refl

anchored-committed : (flush none waiting).committed 0 ≡ 5
unfolding poll add_all consume malformed_only validate flush flush_begin flush_end plan run_calls
    commit
anchored-committed = refl

abbrev run : List Action
run = flushing (some (1, some 4)) ∷ polling (complaint 4 ∷ []) ∷ []

run-OrderlyRun : OrderlyRun idle run
unfolding malformed_only validate
run-OrderlyRun = ((λ m h. omega arith, λ e. cc), tt)

after-Settled_example :
    (Settled (after idle run) (complaint 4) ⊎ Held (after idle run) (complaint 4))
    × (4 < (after idle run).committed 0 → Settled (after idle run) (complaint 4))
after-Settled_example = after-Settled idle run (complaint 4) run-OrderlyRun (Memᴰ.head refl)

flush_thrice_example :
    (flush (failing (some 0)) (flush (failing (some 0)) (flush (failing (some 0)) waiting))).batch
    ≡ []
flush_thrice_example = flush_thrice waiting (some 0) (some 0) (some 0)

one_left : (flush (failing (some 0)) (flush (failing (some 0)) waiting)).batch ≡ entry 4 ∷ []
unfolding poll add_all consume malformed_only validate flush flush_begin flush_end flush_failed
    fail_all plan run_calls commit
one_left = refl

complaint-validate : validate (complaint 5) ≡ some (entry 5)
unfolding validate
complaint-validate = refl

waiting-other : (x : Item) → Memᴰ x (flush_begin waiting) → x.key ≢ 5
unfolding poll add_all consume malformed_only validate flush_begin
waiting-other x (Memᴰ.head e) = ground arith
waiting-other x (Memᴰ.tail m) = elim m [ ]

waiting-fresh : waiting.processed 5 ≡ false
unfolding poll add_all consume malformed_only validate
waiting-fresh = refl

waiting-alive : (m : ConsumedMessage) → ¬ Memᴰ m waiting.dead_letters
unfolding poll add_all consume malformed_only validate
waiting-alive m h = elim h [ ]

poll-flush_end_example :
    Lost (flush_end (flush_begin waiting) none (poll (complaint 5 ∷ []) waiting)) (complaint 5)
poll-flush_end_example =
    poll-flush_end waiting (complaint 5) (entry 5) complaint-validate waiting-fresh waiting-other
      (waiting-alive (complaint 5))

garbage-validate : validate (garbage 9) ≡ none
unfolding validate
garbage-validate = refl

garbage-ne : complaint 4 ≢ garbage 9
garbage-ne = cc

waiting-unsettled : ¬ Settled waiting (complaint 4)
unfolding poll add_all consume malformed_only validate
waiting-unsettled (inl d) = elim d [ ]
waiting-unsettled (inr (x, v, h)) = cc
