-- ===== src/ReadCache.antt =====
-- The read-through cache of packages/redis/read-cache.ts, for one route and one set of parts, whose
-- key then is its generation. Redis is the state, and a call of it is one step: the generation is
-- read by one, and `generation` of a function is what it read; what runs between two awaits is one
-- step too. A value stands for its JSON text, which is never empty; that one may use the cache is
-- that it is enabled and configured and that redis answers.
pub mod Laws
mod Tests
use roadwatch.Prelude.{ℕ, ◌+◌, ◌==◌, Option, none, some, Bool, true, false, if◌then◌else◌}

-- `in_flight` is the map of one replica, `entries` the keys with their generation.
pub record State (V : Type 0) : Type 0 where
  pub generation : ℕ
  pub entries : ℕ → Option V
  pub in_flight : ℕ → Bool
  pub hit_count : ℕ
  pub miss_count : ℕ

-- How a read goes on: with the value; by a fill of its own without a key; by waiting for the fill of
-- a key; or by leading one.
pub data Begin (V : Type 0) : Type 0 where
  hit : V → Begin V
  unkeyed : Begin V
  joins leads : ℕ → Begin V

-- How a waiting read ends: with the value of the leader, or by a fill of its own.
pub data Waited (V : Type 0) : Type 0 where
  adopts : V → Waited V
  fills : Waited V

abbrev pub put {ℓ} : {A : Type ℓ} → ℕ → A → (ℕ → A) → ℕ → A
put k a f j = if j == k then a else f j

module _ {V : Type 0} where
  abbrev pub miss : State V → State V
  miss s = record s { miss_count = s.miss_count + 1 }

  -- A key and no value: join the fill of the key, or lead one.
  abbrev pub join_or_lead : Bool → ℕ → State V → State V × Begin V
  join_or_lead true key s = (s, joins key)
  join_or_lead false key s =
      (record s { miss_count = s.miss_count + 1; in_flight = put key true s.in_flight }, leads key)

  abbrev pub found : Option V → ℕ → State V → State V × Begin V
  found (some v) key s = (record s { hit_count = s.hit_count + 1 }, hit v)
  found none key s = join_or_lead (s.in_flight key) key s

  -- `currentGeneration`, a GET.
  unfoldable pub current_generation : State V → ℕ
  current_generation s = s.generation

  -- `readThroughCachedJson` from the GET of the key up to its first wait for a fill.
  unfoldable pub begin_read : Bool → ℕ → State V → State V × Begin V
  begin_read usable generation s =
      if usable then found (s.entries generation) generation s else (miss s, unkeyed)

  -- `readCachedJson` from the GET of the key, with `none` for null.
  abbrev pub read_value : Option V → State V → State V × Option V
  read_value none s = (miss s, none)
  read_value (some v) s = (record s { hit_count = s.hit_count + 1 }, some v)

  unfoldable pub read_cached_json : Bool → ℕ → State V → State V × Option V
  read_cached_json usable generation s =
      read_value (if usable then s.entries generation else none) s

  -- The SET of `writeCachedJson`, which has read the generation again.
  unfoldable pub write_cached_json : Bool → ℕ → V → State V → State V
  write_cached_json usable generation v s =
      if usable then record s { entries = put generation (some v) s.entries } else s

  -- The leader of a key, after its fill threw or its write of the value came back.
  unfoldable pub finish_fill : ℕ → State V → State V
  finish_fill key s = record s { in_flight = put key false s.in_flight }

  unfoldable pub end_wait : Option V → Waited V
  end_wait none = fills
  end_wait (some v) = adopts v

  unfoldable pub bump_complaint_read_cache : Bool → State V → State V
  bump_complaint_read_cache usable s =
      if usable then record s { generation = s.generation + 1 } else s

  -- The time to live of an entry passes.
  unfoldable pub lapse : ℕ → State V → State V
  lapse k s = record s { entries = put k none s.entries }
