-- ===== src/Admission/Tests.antt =====
-- Two permits under ceilings of one write, over numbered keys and over the keys of the code.
use roadwatch.Prelude.{ℕ, ◌≡◌, refl, List, [], ◌∷◌, ◌==◌, if◌then◌else◌, ℕ_discrete, arith}
use roadwatch.Prelude.Int.{pos, ◌+ℤ◌, ◌-ℤ◌}
use roadwatch.Prelude.Text.{codes}
use roadwatch.Redis.{Redis}
use roadwatch.Redis.Store.{store, empty}
use roadwatch.Admission.{Permit, reply, give_back, bump, acquire_from, acquire, release}
use roadwatch.Admission.Atomic.{count-acquire}
use roadwatch.Admission.Decision.{reference, acquire-reference}
use roadwatch.Admission.Holders.{System, Inv, here, next, admit, Respects, Reach-Inv, inflight_keys}
use roadwatch.Admission.Keys.{Config, inflight_key, rate_key}

abbrev redis : Redis ℕ ℕ_discrete
redis = store ℕ_discrete

abbrev route : Permit ℕ
route = record {
  rate_key = 1;
  inflight_key = 2;
  max_rate = 5;
  window = 60;
  max_inflight = 1;
  ttl = 30;
}

abbrev global : Permit ℕ
global = record {
  rate_key = 3;
  inflight_key = 4;
  max_rate = 5;
  window = 60;
  max_inflight = 1;
  ttl = 30;
}

abbrev pair : List (Permit ℕ)
pair = route ∷ global ∷ []

idle : redis.State
idle = empty ℕ_discrete

lua : Unit {0}
unfolding give_back bump acquire_from acquire release idle ℕ_discrete ◌+ℤ◌ ◌-ℤ◌
lua = tt

second_write_waits :
    ((acquire redis pair idle).1 ≡ reply 0 0 0)
    × ((acquire redis pair (acquire redis pair idle).0).1 ≡ reply 1 2 30)
unfolding lua
second_write_waits = (refl, refl)

count-acquire_example :
    let (s', r) = acquire redis pair idle in
    redis.count s' 2 ≡ (if r.permit == 0 then redis.count idle 2 +ℤ pos 1 else redis.count idle 2)
unfolding ℕ_discrete
count-acquire_example = count-acquire redis pair idle 2 (omega arith)

acquire-reference_example : (acquire redis pair idle).1 ≡ reference (redis.count idle) 1 pair
acquire-reference_example = acquire-reference redis pair idle (omega arith) (omega arith)

abbrev start : System redis 2 1
start = record { state = idle; holders = [] }

abbrev one_write : System redis 2 1
one_write = record { state = (acquire redis pair idle).0; holders = inflight_keys pair ∷ [] }

-- Key 2 is the route's backlog; the ceiling is 1.
Reach-Inv_example : Inv redis 2 1 one_write
unfolding lua
Reach-Inv_example =
    Reach-Inv redis 2 1 {y = start} refl refl (next here (admit start pair respects refl))
  where
    respects : Respects ℕ_discrete 2 1 pair
    respects = omega arith

-- One write is admitted and outlives the key; after its release the limiter, whose ceiling is 1,
-- admits two at once.
two_at_once :
    let late = release redis (2 ∷ []) (redis.lapse 2 (acquire redis (route ∷ []) idle).0) in
    ((acquire redis (route ∷ []) late).1 ≡ reply 0 0 0)
    × ((acquire redis (route ∷ []) (acquire redis (route ∷ []) late).0).1 ≡ reply 0 0 0)
unfolding lua
two_at_once = (refl, refl)

abbrev config : Config
config = record {
  scope = codes "complaints/write";
  principal = codes "u1";
  max_requests_per_window = 5;
  window_seconds = 60;
  max_inflight = 1;
  inflight_ttl_seconds = 30;
}

keys_of_config :
    (inflight_key (λ t. t) config ≡ codes "roadwatch:backpressure:complaints-write:inflight:u1")
    × (rate_key (λ t. t) 125000 config ≡ codes "roadwatch:backpressure:complaints-write:rate:u1:2")
unfolding inflight_key rate_key
keys_of_config = (refl, refl)
