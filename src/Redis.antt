-- ===== src/Redis.antt =====
-- What the limiter relies on of redis, a service that is not code of the repository: counters that
-- INCR, DECR and EXPIRE change one at a time.
pub mod Store
use roadwatch.Prelude.{ℕ, ◌<◌, ◌≡◌, Bool, ite}
use roadwatch.Prelude.Int.{ℤ, pos, ◌+ℤ◌, ◌-ℤ◌}

-- `count` reads a counter; a key that is not there counts 0. `lapse` is the expiry of a key.
-- EXPIRE keeps the count only for a time of at least a second: for none it deletes the key.
pub record Redis (K : Type 0) (same : Discrete K) : Type 1 where
  pub State : Type 0
  pub count : State → K → ℤ
  pub incr : K → State → State × ℤ
  pub decr : K → State → State
  pub expire : K → ℕ → State → State
  pub lapse : K → State → State
  pub incr_reply : (k : K) (s : State) → (incr k s).1 ≡ count s k +ℤ pos 1
  pub count-incr :
      (k : K) (s : State) (j : K)
      → count (incr k s).0 j ≡ ite (same k j) (count s j +ℤ pos 1) (count s j)
  pub count-decr :
      (k : K) (s : State) (j : K)
      → count (decr k s) j ≡ ite (same k j) (count s j -ℤ pos 1) (count s j)
  pub count-expire :
      (k : K) (seconds : ℕ) (s : State) (j : K)
      → 0 < seconds
      → count (expire k seconds s) j ≡ count s j
  pub count-lapse :
      (k : K) (s : State) (j : K) → count (lapse k s) j ≡ ite (same k j) (pos 0) (count s j)
