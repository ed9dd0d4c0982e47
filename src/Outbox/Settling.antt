-- ===== src/Outbox/Settling.antt =====
-- How long an event stays in the outbox of apps/gateway-api/src/kafka/outbox.ts.
use Prim.Native.String.{String}
use mathlib.Core.List.{Memᴰ}
use roadwatch.Prelude.{
  ℕ, suc, ◌+◌, ◌≤◌, ◌<◌, ◌≡◌, ◌≢◌, ◌⊎◌, inl, inr, refl, sym, ap, subst, ◌∙◌, leb, Bool, true, false,
  List, [], ◌∷◌, map, length, length-map, if◌then◌else◌, arith, Bool-cases,
}
use roadwatch.Outbox.{
  Row, pending, sent, dead, failed, is_open, mem, claimable, chosen, take_up, returning, set_failed,
  outbox_max_attempts_before_dead, delay_seconds,
}
use roadwatch.Outbox.Drain.{Reply, delivered, refused, halted, Round, drain_kafka_event_outbox}
use roadwatch.Outbox.Rows.{row_after, drain-map}
use roadwatch.Outbox.Landing.{Lands, settle_by-reaches}
use roadwatch.Outbox.Chosen.{Unique, mem-chosen}
use roadwatch.Outbox.Laws.{drain-mem, drain-Unique, row_after-kept, take_up-returned, mem-map}

-- The answer comes, and no later than that second.
abbrev pub Timely : ℕ → Reply → Type 0
Timely t (delivered at) = Unit
Timely t (refused error at) = at ≤ t
Timely t halted = ⊥

-- Drains that lock nothing and whose answers come in time, each with a minute after the last answer
-- of the one before; `due` is when the first may start.
abbrev pub Paced : ℕ → List Round → Type 0
Paced due [] = Unit
Paced due (round ∷ rounds) =
    (t : ℕ) × (due ≤ round.now)
    × (round.locked ≡ [])
    × ((i : ℕ) → Timely t (round.reply i))
    × Paced (t + 60) rounds

Timely-ne : (t : ℕ) (o : Reply) → Timely t o → o ≢ halted
Timely-ne t (delivered at) h = cc
Timely-ne t (refused error at) h = cc
Timely-ne t halted h = absurd h

-- The wait after a failed publish is between 5 and 60 seconds, and no shorter after more attempts.
pub delay_seconds_bounds :
    (a b : ℕ)
    → (5 ≤ delay_seconds a) × (delay_seconds a ≤ 60) × (a ≤ b → delay_seconds a ≤ delay_seconds b)
unfolding delay_seconds
delay_seconds_bounds a b = (omega arith, omega arith, λ h. omega arith)

module _ {ℓ} {Event : Type ℓ} where
  abbrev pub Finished : Row Event → Type 0
  Finished q = (q.status ≡ sent) ⊎ (q.status ≡ dead)

  -- Sent, dead, or failed for the `a`-th time, which was not the last, and due within a minute.
  abbrev Done : ℕ → ℕ → Row Event → Type 0
  Done a t q =
      Finished q
      ⊎ ((q.status ≡ failed)
          × (q.attempts ≡ a)
          × (a < outbox_max_attempts_before_dead)
          × (q.available_at ≤ t + 60))

  -- Sent or dead, or due by that second with attempts left, of which `k` drains are enough.
  abbrev Ready : ℕ → ℕ → Row Event → Type 0
  Ready due k r =
      Finished r
      ⊎ ((is_open r.status ≡ true)
          × (r.available_at ≤ due)
          × (r.attempts < outbox_max_attempts_before_dead)
          × (outbox_max_attempts_before_dead ≤ r.attempts + k))

  failed-Done :
      (a t at : ℕ) (error : String) (q : Row Event) → at ≤ t → Done a t (set_failed a error at q)
  failed-Done a t at error q le = elim (Bool-cases (leb outbox_max_attempts_before_dead a)) [
    | inl e ↦ rw e (inl (inr refl))
    | inr e ↦ rw e (inr (refl, refl, ground arith, omega (arith, (delay_seconds_bounds a a).1)))
  ]

  landed-Done :
      (a t : ℕ) (o : Reply) (c q : Row Event) → Timely t o → c.attempts ≡ a → Lands (Done a t) o c q
  landed-Done a t (delivered at) c q h e = inl (inl refl)
  landed-Done a t (refused error at) c q h e =
      subst (λ (n : ℕ). Done a t (set_failed n error at q)) (sym e) (failed-Done a t at error q h)
  landed-Done a t halted c q h e = tt

  mem-returning :
      (ids : List ℕ) (rows : List (Row Event)) (r : Row Event)
      → Memᴰ r (returning ids rows)
      → Memᴰ r rows
  mem-returning ids [] r m = elim m [ ]
  mem-returning ids (s ∷ rows) r m = split (mem s.id ids) (mem-returning ids rows r) m
    where
      split :
          (b : Bool)
          → (Memᴰ r (returning ids rows) → Memᴰ r rows)
          → Memᴰ r (if b then s ∷ returning ids rows else returning ids rows)
          → Memᴰ r (s ∷ rows)
      split true ih (Memᴰ.head e) = Memᴰ.head e
      split true ih (Memᴰ.tail m') = Memᴰ.tail (ih m')
      split false ih m' = Memᴰ.tail (ih m')

  take_up-id : (ids : List ℕ) (now : ℕ) (r : Row Event) → (take_up ids now r).id ≡ r.id
  take_up-id ids now r = ground arith

  -- The claim counted one attempt on the row of the id.
  returned_attempts :
      (ids : List ℕ) (now : ℕ) (table : List (Row Event)) (r c : Row Event)
      → Unique table
      → Memᴰ r table
      → mem r.id ids ≡ true
      → Memᴰ c (returning ids (map (take_up ids now) table))
      → c.id ≡ r.id
      → c.attempts ≡ r.attempts + 1
  returned_attempts ids now table r c u m h mc e =
      let (s, ms, es) =
        mem-map (take_up ids now) table c (mem-returning ids (map (take_up ids now) table) c mc) in
      let same : s ≡ r =
        u s r ms m (sym (take_up-id ids now s) ∙ sym (ap (λ (x : Row Event). x.id) es) ∙ e) in
      ap (λ (x : Row Event). x.attempts) (es ∙ ap (take_up ids now) same) ∙ rw h

  row_after-Done :
      (round : Round) (limit t : ℕ) (table : List (Row Event)) (r : Row Event)
      → Unique table
      → ((i : ℕ) → Timely t (round.reply i))
      → Memᴰ r table
      → mem r.id (chosen round.locked limit round.now table) ≡ true
      → Done (r.attempts + 1) t (row_after round limit table r)
  row_after-Done round limit t table r u timely m h =
      let ids = chosen round.locked limit round.now table in
      settle_by-reaches round.reply (λ i. Timely-ne t (round.reply i) (timely i))
        (Done (r.attempts + 1) t) r.id (returning ids (map (take_up ids round.now) table))
        (λ c n same q.
          landed-Done (r.attempts + 1) t (round.reply c.id) c q (timely c.id)
            (returned_attempts ids round.now table r c u m h n same))
        (take_up ids round.now r) (take_up-id ids round.now r)
        (inl (take_up-returned ids round.now table r m h))

  Finished-closed :
      (locked : List ℕ) (now : ℕ) (r : Row Event) → Finished r → claimable locked now r ≡ false
  Finished-closed locked now r (inl e) = rw e
  Finished-closed locked now r (inr e) = rw e

  Done-Ready :
      (a t k : ℕ) (q : Row Event)
      → Done a t q
      → outbox_max_attempts_before_dead ≤ a + k
      → Ready (t + 60) k q
  Done-Ready a t k q (inl f) le = inl f
  Done-Ready a t k q (inr (e, n, lt, due)) le = inr (rw e, due, omega arith, omega arith)

  row_after-Ready :
      (round : Round) (limit due t k : ℕ) (table : List (Row Event)) (r : Row Event)
      → Unique table
      → length table ≤ limit
      → due ≤ round.now
      → round.locked ≡ []
      → ((i : ℕ) → Timely t (round.reply i))
      → Memᴰ r table
      → Ready due (suc k) r
      → Ready (t + 60) k (row_after round limit table r)
  row_after-Ready round limit due t k table r u len le free timely m (inl f) = inl (
      subst Finished
        (sym (row_after-kept round limit table r u m (Finished-closed round.locked round.now r f)))
        f)
  row_after-Ready round limit due t k table r u len le free timely m
        (inr (opened, at, few, enough)) =
      let able : claimable round.locked round.now r ≡ true = rw (free, opened) (ground arith) in
      Done-Ready (r.attempts + 1) t k (row_after round limit table r)
        (row_after-Done round limit t table r u timely m
          (mem-chosen round.locked round.now limit table r len m able))
        (omega arith)

  -- Drains one after another.
  abbrev pub drains : ℕ → List Round → List (Row Event) → List (Row Event)
  drains limit [] table = table
  drains limit (round ∷ rounds) table =
      drains limit rounds (drain_kafka_event_outbox round limit table).rows

  length-drain :
      (round : Round) (limit : ℕ) (table : List (Row Event))
      → length (drain_kafka_event_outbox round limit table).rows ≡ length table
  length-drain round limit table =
      ap (λ (l : List (Row Event)). length l) (drain-map round limit table)
      ∙ length-map table (row_after round limit table)

  drains-Ready :
      (limit due : ℕ) (rounds : List Round) (table : List (Row Event))
      → Unique table
      → length table ≤ limit
      → Paced due rounds
      → ((r : Row Event) → Memᴰ r table → Ready due (length rounds) r)
      → (q : Row Event) → Memᴰ q (drains limit rounds table)
      → Finished q
  drains-Ready limit due [] table u len paced ready q m = elim (ready q m) [
    | inl f ↦ f
    | inr (e, at, few, enough) ↦ absurd (omega arith)
  ]
  drains-Ready limit due (round ∷ rounds) table u len (t, le, free, timely, paced) ready q m =
      drains-Ready limit (t + 60) rounds (drain_kafka_event_outbox round limit table).rows
        (drain-Unique round limit table u) (omega (arith, length-drain round limit table)) paced
        (λ p mp.
          let (r, mr, er) = drain-mem round limit table p mp in
          subst (Ready (t + 60) (length rounds)) (sym er) (
            row_after-Ready round limit due t (length rounds) table r u len le free timely mr
              (ready r mr)))
        q m

  opened : (r : Row Event) → (r.status ≡ pending) ⊎ (r.status ≡ failed) → is_open r.status ≡ true
  opened r (inl e) = rw e
  opened r (inr e) = rw e

  -- Where ids are unique, no row is in flight, and the open ones are due and have attempts left:
  -- after ten or more drains that claim at least as many rows as there are, lock nothing, are
  -- always answered, and start a minute after the last answer of the one before, every row is sent
  -- or dead, whatever the answers are.
  pub drains-Finished :
      (limit due : ℕ) (rounds : List Round) (table : List (Row Event))
      → Unique table
      → length table ≤ limit
      → ((r : Row Event)
          → Memᴰ r table
          → (Finished r)
            ⊎ (((r.status ≡ pending) ⊎ (r.status ≡ failed))
                × (r.available_at ≤ due)
                × (r.attempts < outbox_max_attempts_before_dead)))
      → Paced due rounds
      → outbox_max_attempts_before_dead ≤ length rounds
      → (q : Row Event) → Memᴰ q (drains limit rounds table)
      → Finished q
  drains-Finished limit due rounds table u len ready paced enough q m =
      drains-Ready limit due rounds table u len paced (λ r mr. widen r (ready r mr)) q m
    where
      widen :
          (r : Row Event)
          → (Finished r)
            ⊎ (((r.status ≡ pending) ⊎ (r.status ≡ failed))
                × (r.available_at ≤ due)
                × (r.attempts < outbox_max_attempts_before_dead))
          → Ready due (length rounds) r
      widen r (inl f) = inl f
      widen r (inr (e, at, few)) = inr (opened r e, at, few, omega arith)
