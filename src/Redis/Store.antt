-- ===== src/Redis/Store.antt =====
-- A store of counters that meets the interface, with the seconds that a key was given to live.
use roadwatch.Prelude.{ℕ, zero, suc, ◌<◌, ◌≡◌, refl, Option, none, some, ite, if_pos, if_neg, arith}
use roadwatch.Prelude.Int.{ℤ, pos, ◌+ℤ◌, ◌-ℤ◌}
use roadwatch.Redis.{Redis}

pub record Cell : Type 0 where
  pub value : ℤ
  pub seconds : Option ℕ

abbrev pub value_of : Option Cell → ℤ
value_of none = pos 0
value_of (some c) = c.value

abbrev pub live_for : ℕ → Option Cell → Option Cell
live_for zero c = none
live_for (suc n) none = none
live_for (suc n) (some c) = some (record c { seconds = some (suc n) })

-- INCR and DECR keep the expiry of the key.
abbrev pub with_value : ℤ → Option Cell → Option Cell
with_value n none = some (record { value = n; seconds = none })
with_value n (some c) = some (record c { value = n })

value-live_for :
    (seconds : ℕ) (c : Option Cell) → 0 < seconds → value_of (live_for seconds c) ≡ value_of c
value-live_for zero c h = absurd (omega arith)
value-live_for (suc n) none h = refl
value-live_for (suc n) (some c) h = refl

value-with_value : (n : ℤ) (c : Option Cell) → value_of (with_value n c) ≡ n
value-with_value n none = refl
value-with_value n (some c) = refl

module _ {K : Type 0} (same : Discrete K) where
  abbrev pub put : K → Option Cell → (K → Option Cell) → K → Option Cell
  put k c s j = ite (same k j) c (s j)

  pub count-put :
      (k : K) (c : Option Cell) (s : K → Option Cell) (j : K)
      → value_of (put k c s j) ≡ ite (same k j) (value_of c) (value_of (s j))
  count-put k c s j = ground arith

  pub change :
      (k : K) (f : ℤ → ℤ) (s : K → Option Cell) (j : K)
      → value_of (put k (with_value (f (value_of (s k))) (s k)) s j)
        ≡ ite (same k j) (f (value_of (s j))) (value_of (s j))
  change k f s j = elim (same k j) [
    | yes e ↦ rw (if_pos _ e, if_pos _ e, e) (value-with_value (f (value_of (s j))) (s j))
    | no n ↦ rw (if_neg _ n, if_neg _ n)
  ]

  pub count-live_for :
      (k : K) (seconds : ℕ) (s : K → Option Cell) (j : K)
      → 0 < seconds
      → value_of (put k (live_for seconds (s k)) s j) ≡ value_of (s j)
  count-live_for k seconds s j h = elim (same k j) [
    | yes e ↦ rw (if_pos _ e, e) (value-live_for seconds (s j) h)
    | no n ↦ rw (if_neg _ n)
  ]

  -- EXPIRE does nothing to a key that is not there, and deletes one that it gives no time.
  abbrev pub store : Redis K same
  store = record {
    State = K → Option Cell;
    count = λ s k. value_of (s k);
    incr = λ k s. (put k (with_value (value_of (s k) +ℤ pos 1) (s k)) s, value_of (s k) +ℤ pos 1);
    decr = λ k s. put k (with_value (value_of (s k) -ℤ pos 1) (s k)) s;
    expire = λ k seconds s. put k (live_for seconds (s k)) s;
    lapse = λ k s. put k none s;
    incr_reply = λ k s. refl;
    count-incr = λ k s j. change k (λ n. n +ℤ pos 1) s j;
    count-decr = λ k s j. change k (λ n. n -ℤ pos 1) s j;
    count-expire = λ k seconds s j h. count-live_for k seconds s j h;
    count-lapse = λ k s j. count-put k none s j;
  }

  abbrev pub empty : K → Option Cell
  empty k = none
