-- ===== src/ReadCache/Tests.antt =====
-- One list that is read, written and read again; a value is a number.
use roadwatch.Prelude.{ℕ, ◌≡◌, refl, none, true, false, List, [], ◌∷◌}
use roadwatch.ReadCache.{
  State, hit, leads, joins, current_generation, begin_read, finish_fill, write_cached_json,
  bump_complaint_read_cache,
}
use roadwatch.ReadCache.Laws.{
  Op, looks, gets, sets, ends, bumps, run, start, notes, nothing_yet, Among, begin_read-Among,
  overtaken, begin_read-overtaken,
}

abbrev idle : State ℕ
idle = record {
  generation = 4;
  entries = λ k. none;
  in_flight = λ k. false;
  hit_count = 0;
  miss_count = 0;
}

second_waits : (begin_read true 4 (begin_read true 4 idle).0).1 ≡ joins 4
unfolding begin_read
second_waits = refl

-- Client 1 leads a fill and writes its value after a write was announced; client 2 looks after it.
abbrev steps : List (Op ℕ)
steps =
    looks 1
    ∷ gets 1 true
    ∷ bumps true
    ∷ looks 1
    ∷ sets 1 true 9
    ∷ ends 4
    ∷ looks 2
    ∷ bumps true
    ∷ []

read_again :
    (begin_read true ((run steps (start idle)).seen 2) (run steps (start idle)).state).1 ≡ hit 9
unfolding begin_read finish_fill write_cached_json bump_complaint_read_cache current_generation
read_again = refl

begin_read-Among_example :
    Among {V = ℕ} ((notes steps nothing_yet).saw 2) 9 (notes steps nothing_yet).values
begin_read-Among_example = begin_read-Among steps idle 2 true 9 (λ k. refl) read_again

begin_read-overtaken_example :
    ((begin_read true (current_generation idle) idle).1 ≡ leads 4)
    × ((begin_read true (current_generation (overtaken idle 9)) (overtaken idle 9)).1 ≡ hit 9)
unfolding current_generation
begin_read-overtaken_example = begin_read-overtaken idle 9 refl refl
