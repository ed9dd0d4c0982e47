-- ===== src/Adaptive/Cache.antt =====
-- How old the limits can be that a replica reuses, packages/redis/adaptive-backpressure.ts.
use roadwatch.Prelude.{
  ℕ, ◌-◌, ◌<◌, ◌≡◌, ◌⊎◌, inl, inr, refl, sym, ap, subst, ltb, Option, none, some, Bool, List, [],
  ◌∷◌, if◌then◌else◌, arith, Bool-cases,
}
use roadwatch.Adaptive.{
  AdaptiveLimitBounds, ResolvedLimits, AdaptiveLoadSignals, compute_adaptive_limits, Memo, cache_ms,
  recall, fresh_memo, resolve_adaptive_limits,
}

-- One request: its time, and the signals that redis has then.
pub record Request : Type 0 where
  pub now : ℕ
  pub signals : AdaptiveLoadSignals

module _ (redis : Bool) (b : AdaptiveLimitBounds) where
  -- What is remembered after the requests, the newest first.
  abbrev pub memo_after : List Request → Option Memo
  memo_after [] = none
  memo_after (r ∷ rs) = (resolve_adaptive_limits redis b r.now r.signals (memo_after rs)).1

  -- The limits are those of a request among them, of that time.
  abbrev pub ReadAt : ResolvedLimits → ℕ → List Request → Type 0
  ReadAt limits at [] = ⊥
  ReadAt limits at (r ∷ rs) =
      ((r.now ≡ at) × (limits ≡ compute_adaptive_limits redis b r.signals)) ⊎ ReadAt limits at rs

  abbrev Remembers : Option Memo → List Request → Type 0
  Remembers none rs = Unit
  Remembers (some memo) rs = ReadAt memo.limits memo.at rs

  -- A request's limits are as old as they may be, and what is remembered is what was read.
  abbrev Answers : Request → List Request → ResolvedLimits × Option Memo → Type 0
  Answers r rs (limits, memo) =
      ((at : ℕ) × ReadAt limits at (r ∷ rs)
        × ((at ≡ r.now) ⊎ (r.now - at < cache_ms b b.limits_cache_ms)))
      × Remembers memo (r ∷ rs)

  recall-Answers :
      (r : Request) (rs : List Request) (memo : Option Memo)
      → Remembers memo rs
      → Answers r rs (
          recall memo
            (cache_ms b b.limits_cache_ms)
            r.now
            (compute_adaptive_limits redis b r.signals))
  recall-Answers r rs none h = ((r.now, inl (refl, refl), inl refl), inl (refl, refl))
  recall-Answers r rs (some memo) h =
      let computed = fresh_memo r.now (compute_adaptive_limits redis b r.signals) in
      elim (Bool-cases (ltb (r.now - memo.at) (cache_ms b b.limits_cache_ms))) [
        | inl e ↦
            subst (Answers r rs)
              (sym (ap (λ (x : Bool). if x then (memo.limits, some memo) else computed) e))
              ((memo.at, inr h, inr (ground arith)), inr h)
        | inr e ↦
            subst (Answers r rs)
              (sym (ap (λ (x : Bool). if x then (memo.limits, some memo) else computed) e))
              ((r.now, inl (refl, refl), inl refl), inl (refl, refl))
      ]

  memo_after-Remembers : (rs : List Request) → Remembers (memo_after rs) rs
  unfolding resolve_adaptive_limits
  memo_after-Remembers [] = tt
  memo_after-Remembers (r ∷ rs) = (recall-Answers r rs (memo_after rs) (memo_after-Remembers rs)).1

  -- Whatever requests came before, the limits that a request gets are those computed from the
  -- signals that redis had at the request itself or at an earlier one, which is then less than the
  -- time of the cache ago.
  pub resolve_adaptive_limits-ReadAt :
      (r : Request) (rs : List Request)
      → (at : ℕ) × ReadAt
          (resolve_adaptive_limits redis b r.now r.signals (memo_after rs)).0
          at
          (r ∷ rs)
        × ((at ≡ r.now) ⊎ (r.now - at < cache_ms b b.limits_cache_ms))
  unfolding resolve_adaptive_limits
  resolve_adaptive_limits-ReadAt r rs =
      (recall-Answers r rs (memo_after rs) (memo_after-Remembers rs)).0
