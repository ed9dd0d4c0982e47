-- ===== src/Admission/Holders.antt =====
-- Gateway replicas that share one redis: the writes in flight never pass the ceiling.
use roadwatch.Prelude.{
  ℕ, ◌+◌, ◌≤◌, ◌<◌, ◌≡◌, ◌≢◌, refl, sym, ap, ◌∙◌, List, [], ◌∷◌, ◌++◌, map, true, false, ◌==◌,
  if_pos, if_neg, arith, Bool-cases, All, inl, inr,
}
use roadwatch.Prelude.Int.{ℤ, pos, ltb_ℤ, ◌+ℤ◌, ◌-ℤ◌, int_laws}
use roadwatch.Redis.{Redis}
use roadwatch.Admission.{Permit, acquire, release}
use roadwatch.Admission.Atomic.{occurs, charged_parts, Lives, count-acquire, count-release}
use roadwatch.Admission.Decision.{Distinct, Fresh, reference, acquire-reference}

abbrev pub inflight_keys : {K : Type 0} → List (Permit K) → List K
inflight_keys permits = map (λ m. m.inflight_key) permits

abbrev HasRoom : {K : Type 0} → (K → ℤ) → Permit K → Type 0
HasRoom n m =
    (ltb_ℤ (pos m.max_rate) (n m.rate_key +ℤ pos 1) ≡ false)
    × (ltb_ℤ (pos m.max_inflight) (n m.inflight_key +ℤ pos 1) ≡ false)

reference-HasRoom :
    {K : Type 0} (n : K → ℤ) (p : ℕ) (permits : List (Permit K))
    → 0 < p
    → (reference n p permits).permit ≡ 0
    → All (HasRoom n) permits
unfolding reference
reference-HasRoom n p [] h admitted = tt
reference-HasRoom n p (m ∷ permits) h admitted =
    elim (Bool-cases (ltb_ℤ (pos m.max_rate) (n m.rate_key +ℤ pos 1))) [
      | inl full ↦ absurd (refused (rw full at admitted))
      | inr room ↦ elim (Bool-cases (ltb_ℤ (pos m.max_inflight) (n m.inflight_key +ℤ pos 1))) [
        | inl full ↦ absurd (refused (rw (room, full) at admitted))
        | inr room' ↦ (
          (room, room'),
          reference-HasRoom n (p + 1) permits (omega arith) (rw (room, room') at admitted),
        )
      ]
    ]
  where
    refused : p ≡ 0 → ⊥
    refused e = omega arith

below_cap : (c cap : ℕ) → ltb_ℤ (pos cap) (pos c +ℤ pos 1) ≡ false → c + 1 ≤ cap
unfolding ◌+ℤ◌
below_cap c cap h = ground arith

module _ {K : Type 0} (same : Discrete K) (k : K) (ceiling : ℕ) where
  -- What the replicas agree on: `k` is a backlog counter, whose limit is nowhere above `ceiling`.
  abbrev pub Respects : List (Permit K) → Type 0
  Respects permits =
      Distinct permits
      × Lives permits
      × All (λ m. (m.rate_key ≢ k) × (m.inflight_key ≡ k → m.max_inflight ≤ ceiling)) permits

  occurs-Fresh :
      (permits : List (Permit K)) → Fresh k permits → occurs same (inflight_keys permits) k ≡ 0
  occurs-Fresh [] fresh = refl
  occurs-Fresh (m ∷ permits) ((_, other), fresh) =
      rw (if_neg _ (λ (e : m.inflight_key ≡ k). other (sym e)))
        (omega (arith, occurs-Fresh permits fresh))

  no_rate :
      (permits : List (Permit K))
      → All (λ m. (m.rate_key ≢ k) × (m.inflight_key ≡ k → m.max_inflight ≤ ceiling)) permits
      → occurs same (map (λ m. m.rate_key) permits) k ≡ 0
  no_rate [] h = refl
  no_rate (m ∷ permits) ((other, _), h) = rw (if_neg _ other) (omega (arith, no_rate permits h))

  room-within :
      (n : K → ℤ) (c : ℕ) (permits : List (Permit K))
      → n k ≡ pos c
      → c ≤ ceiling
      → Respects permits
      → All (HasRoom n) permits
      → c + occurs same (inflight_keys permits) k ≤ ceiling
  room-within n c [] e fits r room = omega arith
  room-within n c (m ∷ permits) e fits ((_, _, fresh, d), (_, long), ((_, cap), r))
        ((_, has), room) =
      elim (same m.inflight_key k) [
        | yes at ↦
            let full : c + 1 ≤ m.max_inflight = below_cap c m.max_inflight (rw (at, e) at has) in
            let alone : occurs same (inflight_keys permits) k ≡ 0 =
              occurs-Fresh permits (rw at at fresh) in
            rw (if_pos _ at) (omega (arith, cap at))
        | no other ↦
            rw (if_neg _ other) (omega (arith, room-within n c permits e fits (d, long, r) room))
      ]

-- The counters, and the inflight keys of each write that was admitted and has not been released.
module _ {K : Type 0} {same : Discrete K} (redis : Redis K same) (k : K) (ceiling : ℕ) where
  open redis use {State, count}

  pub record System : Type 0 where
    pub state : State
    pub holders : List (List K)

  pub data Step : System → System → Type 0 where
    admit :
        (y : System) (permits : List (Permit K))
        → Respects same k ceiling permits
        → (acquire redis permits y.state).1.permit ≡ 0
        → Step y (record {
          state = (acquire redis permits y.state).0;
          holders = inflight_keys permits ∷ y.holders;
        })
    refuse :
        (y : System) (permits : List (Permit K))
        → Respects same k ceiling permits
        → (acquire redis permits y.state).1.permit ≢ 0
        → Step y (record y { state = (acquire redis permits y.state).0 })
    finish :
        (y : System) (before after : List (List K)) (keys : List K)
        → y.holders ≡ before ++ keys ∷ after
        → Step y (record { state = release redis keys y.state; holders = before ++ after })
    expires : (y : System) (j : K) → j ≢ k → Step y (record y { state = redis.lapse j y.state })

  pub data Reach (y : System) : System → Type 0 where
    here : Reach y y
    next : {z w : System} → Reach y z → Step z w → Reach y w

  -- How many of the admitted writes hold `k`.
  abbrev pub in_flight : List (List K) → ℕ
  in_flight [] = 0
  in_flight (keys ∷ holders) = occurs same keys k + in_flight holders

  pub record Inv (y : System) : Type 0 where
    pub exact : count y.state k ≡ pos (in_flight y.holders)
    pub within : in_flight y.holders ≤ ceiling

  in_flight-append :
      (before after : List (List K))
      → in_flight (before ++ after) ≡ in_flight before + in_flight after
  in_flight-append [] after = omega arith
  in_flight-append (keys ∷ before) after = omega (arith, in_flight-append before after)

  Step-Inv : {y z : System} → Step y z → Inv y → Inv z
  Step-Inv (admit y permits r admitted) v =
      let room =
        reference-HasRoom (count y.state) 1 permits (omega arith)
          (ap (λ q. q.permit) (sym (acquire-reference redis permits y.state r.0 r.1)) ∙ admitted) in
      let fits =
        room-within same k ceiling (count y.state) (in_flight y.holders) permits v.exact v.within r
          room in
      let done : ((acquire redis permits y.state).1.permit == 0) ≡ true = rw admitted in
      record {
        exact =
            rw
              (
                rw done at (count-acquire redis permits y.state k r.1),
                charged_parts redis permits k,
                no_rate same k ceiling permits r.2,
                v.exact,
              )
              (omega int_laws);
        within = omega arith;
      }
  Step-Inv (refuse y permits r refused) v =
      let kept : ((acquire redis permits y.state).1.permit == 0) ≡ false = ground arith in
      record {
        exact = rw kept at (count-acquire redis permits y.state k r.1) ∙ v.exact;
        within = v.within;
      }
  Step-Inv (finish y before after keys e) v =
      let total : in_flight y.holders ≡ occurs same keys k + in_flight (before ++ after) =
        rw e
          (omega (arith, in_flight-append before (keys ∷ after), in_flight-append before after)) in
      record {
        exact = rw (count-release redis keys y.state k, v.exact, total) (omega int_laws);
        within = omega arith;
      }
  Step-Inv (expires y j other) v = record {
    exact = rw (redis.count-lapse j y.state k, if_neg (same j k) other) v.exact;
    within = v.within;
  }

  -- Where every write asks for permits with distinct keys that live for a second or more and with
  -- limits of at most the ceiling on the backlog counter: starting with nothing in flight, after any
  -- sequence of admissions, refusals and releases by any number of replicas and of lapses of other
  -- keys, the backlog counter is exactly the number of writes that hold it, and that is at most the
  -- ceiling. The backlog key itself does not lapse in such a sequence.
  pub Reach-Inv : {y z : System} → count y.state k ≡ pos 0 → y.holders ≡ [] → Reach y z → Inv z
  Reach-Inv zero_count none_held here = record {
    exact = rw none_held zero_count;
    within = rw none_held (omega arith);
  }
  Reach-Inv zero_count none_held (next r st) = Step-Inv st (Reach-Inv zero_count none_held r)

  -- A key that lapses while writes hold it, and is then released by them, ends below 0: each late
  -- release leaves room for one more write than the ceiling allows.
  pub release-lapse :
      (keys : List K) (s : State)
      → count (release redis keys (redis.lapse k s)) k ≡ pos 0 -ℤ pos (occurs same keys k)
  release-lapse keys s = rw (
    count-release redis keys (redis.lapse k s) k,
    redis.count-lapse k s k,
    if_pos (same k k) refl,
  )
