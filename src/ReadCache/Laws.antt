-- ===== src/ReadCache/Laws.antt =====
-- How fresh a hit of packages/redis/read-cache.ts is.
use roadwatch.Prelude.{
  ℕ, ◌+◌, ◌≡◌, ◌⊎◌, inl, inr, refl, ap, sym, subst, ◌∙◌, List, [], ◌∷◌, Option, none, some, Bool,
  true, false, ◌==◌, Bool-cases, arith,
}
use roadwatch.ReadCache.{
  State, Begin, hit, leads, put, found, current_generation, begin_read, write_cached_json,
  finish_fill, bump_complaint_read_cache, lapse,
}

-- A step of a client, which has a number: it reads the generation; it reads, or writes, the entry of
-- the generation that it read last; a fill ends; a write is announced; an entry lapses.
pub data Op (V : Type 0) : Type 0 where
  looks : ℕ → Op V
  gets : ℕ → Bool → Op V
  sets : ℕ → Bool → V → Op V
  ends : ℕ → Op V
  bumps : Bool → Op V
  lapses : ℕ → Op V

-- `seen` is the generation that each client read last.
pub record System (V : Type 0) : Type 0 where
  pub state : State V
  pub seen : ℕ → ℕ

-- What the steps say without the state: how many writes were announced, how many had been when each
-- client read the generation, and the values that were set, each with that number of its client.
pub record Log (V : Type 0) : Type 0 where
  pub epoch : ℕ
  pub saw : ℕ → ℕ
  pub values : List (ℕ × V)

module _ {V : Type 0} where
  abbrev pub on_state : (State V → State V) → System V → System V
  on_state f y = record y { state = f y.state }

  abbrev pub step : Op V → System V → System V
  step (looks i) y = record y { seen = put i (current_generation y.state) y.seen }
  step (gets i usable) y = on_state (λ s. (begin_read usable (y.seen i) s).0) y
  step (sets i usable v) y = on_state (write_cached_json usable (y.seen i) v) y
  step (ends key) y = on_state (finish_fill key) y
  step (bumps usable) y = on_state (bump_complaint_read_cache usable) y
  step (lapses k) y = on_state (lapse k) y

  abbrev pub run : List (Op V) → System V → System V
  run [] y = y
  run (o ∷ os) y = run os (step o y)

  abbrev pub note : Op V → Log V → Log V
  note (looks i) l = record l { saw = put i l.epoch l.saw }
  note (gets i usable) l = l
  note (sets i true v) l = record l { values = (l.saw i, v) ∷ l.values }
  note (sets i false v) l = l
  note (ends key) l = l
  note (bumps true) l = record l { epoch = l.epoch + 1 }
  note (bumps false) l = l
  note (lapses k) l = l

  abbrev pub notes : List (Op V) → Log V → Log V
  notes [] l = l
  notes (o ∷ os) l = notes os (note o l)

  abbrev pub nothing_yet : Log V
  nothing_yet = record { epoch = 0; saw = λ i. 0; values = [] }

  -- Every client has the generation of the state.
  abbrev pub start : State V → System V
  start s = record { state = s; seen = λ i. s.generation }

  abbrev pub Among : ℕ → V → List (ℕ × V) → Type 0
  Among epoch v [] = ⊥
  Among epoch v ((e, w) ∷ values) = ((epoch ≡ e) × (v ≡ w)) ⊎ Among epoch v values

  -- The generations count the epochs from the first one, and each entry was set in its epoch.
  pub record Inv (first : ℕ) (y : System V) (l : Log V) : Type 0 where
    pub now : y.state.generation ≡ first + l.epoch
    pub then_seen : (i : ℕ) → y.seen i ≡ first + l.saw i
    pub all_set :
        (k : ℕ) (v : V)
        → y.state.entries k ≡ some v
        → (e : ℕ) × (k ≡ first + e) × Among e v l.values

  begin_read-same :
      (usable : Bool) (key : ℕ) (s : State V)
      → ((begin_read usable key s).0.generation ≡ s.generation)
        × ((begin_read usable key s).0.entries ≡ s.entries)
  unfolding begin_read
  begin_read-same false key s = (refl, refl)
  begin_read-same true key s = of_found (s.entries key)
    where
      of_found :
          (o : Option V)
          → ((found o key s).0.generation ≡ s.generation) × ((found o key s).0.entries ≡ s.entries)
      of_found (some v) = (refl, refl)
      of_found none = elim (Bool-cases (s.in_flight key)) [
        | inl e ↦ simp e (refl, refl)
        | inr e ↦ simp e (refl, refl)
      ]

  looks-Inv :
      (first i : ℕ) (y : System V) (l : Log V)
      → Inv first y l
      → Inv first (step (looks i) y) (note (looks i) l)
  unfolding current_generation
  looks-Inv first i y l h = record {
    now = h.now;
    then_seen =
        λ j. elim (Bool-cases (j == i)) [ inl e ↦ rw e h.now | inr e ↦ rw e (h.then_seen j) ];
    all_set = h.all_set;
  }

  gets-Inv :
      (first i : ℕ) (usable : Bool) (y : System V) (l : Log V)
      → Inv first y l
      → Inv first (step (gets i usable) y) l
  gets-Inv first i usable y l h =
      let (g, e) = begin_read-same usable (y.seen i) y.state in
      record {
        now = g ∙ h.now;
        then_seen = h.then_seen;
        all_set = λ k v there. h.all_set k v (ap (λ f. f k) (sym e) ∙ there);
      }

  sets-Inv :
      (first i : ℕ) (usable : Bool) (v : V) (y : System V) (l : Log V)
      → Inv first y l
      → Inv first (step (sets i usable v) y) (note (sets i usable v) l)
  unfolding write_cached_json
  sets-Inv first i false v y l h = record {
    now = h.now;
    then_seen = h.then_seen;
    all_set = h.all_set;
  }
  sets-Inv first i true v y l h = record {
    now = h.now;
    then_seen = h.then_seen;
    all_set = λ k w there. elim (Bool-cases (k == y.seen i)) [
      | inl e ↦
          let same : some v ≡ some w = rw e at there in
          (l.saw i, ground (arith, h.then_seen i), inl (refl, cc))
      | inr e ↦
          let before : y.state.entries k ≡ some w = rw e at there in
          let (epoch, at, among) = h.all_set k w before in (epoch, at, inr among)
    ];
  }

  bumps-Inv :
      (first : ℕ) (usable : Bool) (y : System V) (l : Log V)
      → Inv first y l
      → Inv first (step (bumps usable) y) (note (bumps usable) l)
  unfolding bump_complaint_read_cache
  bumps-Inv first false y l h = record { now = h.now; then_seen = h.then_seen; all_set = h.all_set }
  bumps-Inv first true y l h = record {
    now = omega (arith, h.now);
    then_seen = h.then_seen;
    all_set = h.all_set;
  }

  lapses-Inv :
      (first k : ℕ) (y : System V) (l : Log V) → Inv first y l → Inv first (step (lapses k) y) l
  unfolding lapse
  lapses-Inv first k y l h = record {
    now = h.now;
    then_seen = h.then_seen;
    all_set = λ j v there. elim (Bool-cases (j == k)) [
      | inl e ↦ absurd (gone v (rw e at there))
      | inr e ↦ h.all_set j v (rw e at there)
    ];
  }
    where
      gone : (v : V) → ◌≡◌ {A = Option V} none (some v) → ⊥
      gone v c = cc

  ends-Inv :
      (first key : ℕ) (y : System V) (l : Log V) → Inv first y l → Inv first (step (ends key) y) l
  unfolding finish_fill
  ends-Inv first key y l h = record { now = h.now; then_seen = h.then_seen; all_set = h.all_set }

  step-Inv :
      (first : ℕ) (o : Op V) (y : System V) (l : Log V)
      → Inv first y l
      → Inv first (step o y) (note o l)
  step-Inv first (looks i) y l h = looks-Inv first i y l h
  step-Inv first (gets i usable) y l h = gets-Inv first i usable y l h
  step-Inv first (sets i usable v) y l h = sets-Inv first i usable v y l h
  step-Inv first (ends key) y l h = ends-Inv first key y l h
  step-Inv first (bumps usable) y l h = bumps-Inv first usable y l h
  step-Inv first (lapses k) y l h = lapses-Inv first k y l h

  run-Inv :
      (first : ℕ) (os : List (Op V)) (y : System V) (l : Log V)
      → Inv first y l
      → Inv first (run os y) (notes os l)
  run-Inv first [] y l h = h
  run-Inv first (o ∷ os) y l h = run-Inv first os (step o y) (note o l) (step-Inv first o y l h)

  hit-entry :
      (usable : Bool) (key : ℕ) (s : State V) (v : V)
      → (begin_read usable key s).1 ≡ hit v
      → s.entries key ≡ some v
  unfolding begin_read
  hit-entry false key s v h = cc
  hit-entry true key s v h = of_found (s.entries key) h
    where
      of_found : (o : Option V) → (found o key s).1 ≡ hit v → o ≡ some v
      of_found (some w) e = cc
      of_found none e = elim (Bool-cases (s.in_flight key)) [
        | inl t ↦ absurd (joined (simp t at e))
        | inr t ↦ absurd (led (simp t at e))
      ]
        where
          joined : ◌≡◌ {A = Begin V} (Begin.joins key) (hit v) → ⊥
          joined x = cc

          led : ◌≡◌ {A = Begin V} (leads key) (hit v) → ⊥
          led x = cc

  empty-Inv :
      (s : State V) → ((k : ℕ) → s.entries k ≡ none) → Inv s.generation (start s) nothing_yet
  empty-Inv s empty = record {
    now = omega arith;
    then_seen = λ i. omega arith;
    all_set = λ k v there. absurd (clash k v there);
  }
    where
      clash : (k : ℕ) (v : V) → s.entries k ≡ some v → ⊥
      clash k v there = let bad : ◌≡◌ {A = Option V} none (some v) = sym (empty k) ∙ there in cc

  -- From an empty cache, whatever the clients do, each call of redis a step and in any order: a read
  -- that hits gives a value that was set by a client whose read of the generation fell between the
  -- same two announced writes as that of the reader.
  pub begin_read-Among :
      (os : List (Op V)) (s : State V) (i : ℕ) (usable : Bool) (v : V)
      → ((k : ℕ) → s.entries k ≡ none)
      → (begin_read usable ((run os (start s)).seen i) (run os (start s)).state).1 ≡ hit v
      → Among ((notes os nothing_yet).saw i) v (notes os nothing_yet).values
  begin_read-Among os s i usable v empty h =
      let y = run os (start s) in
      let l = notes os nothing_yet in
      let inv : Inv s.generation y l =
        run-Inv s.generation os (start s) nothing_yet (empty-Inv s empty) in
      let (e, at, among) = inv.all_set (y.seen i) v (hit-entry usable (y.seen i) y.state v h) in
      let same : e ≡ l.saw i = omega (arith, at, inv.then_seen i) in
      subst (λ (n : ℕ). Among n v l.values) same among

-- A read that began before a write and whose fill ends after the write was announced: the value that
-- it had from before the write is what the next read hits.
module _ {V : Type 0} (s : State V) (old : V) where
  -- The leader, then the write, and then the leader's own write with the generation of that time.
  abbrev pub overtaken : State V
  overtaken =
      let led = (begin_read true (current_generation s) s).0 in
      let announced = bump_complaint_read_cache true led in
      finish_fill s.generation (write_cached_json true (current_generation announced) old announced)

  -- Where nothing is cached for the generation and no fill of it is under way: a read leads a fill;
  -- if a write is announced before the fill ends, a read that begins after that hits the value of
  -- the fill, however old it is.
  pub begin_read-overtaken :
      s.entries s.generation ≡ none
      → s.in_flight s.generation ≡ false
      → ((begin_read true (current_generation s) s).1 ≡ leads s.generation)
        × ((begin_read true (current_generation overtaken) overtaken).1 ≡ hit old)
  unfolding begin_read bump_complaint_read_cache finish_fill write_cached_json current_generation
  begin_read-overtaken none_cached idle =
      (simp (none_cached, idle), simp (none_cached, idle) (ground arith))
