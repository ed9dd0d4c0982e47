-- ===== src/Sync/Tests.antt =====
-- A device with two entities, of which the server has a newer one and a third, and an outbox.
use Prim.Native.String.{String}
use mathlib.Core.List.{Perm}
use roadwatch.Prelude.{ℕ, ◌≡◌, ◌≤◌, ◌++◌, refl, List, [], ◌∷◌}
use roadwatch.Sync.{
  OutboxRecord, media, protobuf, map_get, from_array, diff_local_vs_remote, apply_patch,
  build_outbox_batch, prioritize_sync, goes_first,
}
use roadwatch.Sync.Laws.{newest, apply_patch-diff}
use roadwatch.Sync.Batch.{IsQueue, total, Overflows, build_outbox_batch-front}

abbrev id_of : String × ℕ → String
id_of e = e.0

abbrev updated_at : String × ℕ → ℕ
updated_at e = e.1

abbrev locals : List (String × ℕ)
locals = ("a", 1) ∷ ("b", 5) ∷ []

abbrev remotes : List (String × ℕ)
remotes = ("b", 7) ∷ ("c", 2) ∷ []

abbrev film : OutboxRecord
film = record { id = "m1"; type = media; size_bytes = 90; priority = 9; created_at = 1 }

abbrev note : OutboxRecord
note = record { id = "p1"; type = protobuf; size_bytes = 20; priority = 0; created_at = 2 }

apply_patch-diff_example :
    map_get id_of updated_at "b"
      (apply_patch id_of updated_at locals (diff_local_vs_remote id_of updated_at locals remotes))
    ≡ newest id_of updated_at
        (map_get id_of updated_at "b" (from_array id_of updated_at locals))
        (map_get id_of updated_at "b" remotes)
unfolding map_get
apply_patch-diff_example = apply_patch-diff id_of updated_at locals remotes "b" (refl, (refl, tt))

-- The field `priority` is not read: a record of priority 9 waits behind one of priority 0.
packed : build_outbox_batch (film ∷ note ∷ []) 100 ≡ note ∷ []
unfolding build_outbox_batch prioritize_sync goes_first roadwatch.Sync.pack roadwatch.Sync.insert
packed = refl

build_outbox_batch-front_example :
    (total (build_outbox_batch (film ∷ note ∷ []) 100) ≤ 100)
    × ((rest : List OutboxRecord) × Perm
          (film ∷ note ∷ [])
          (build_outbox_batch (film ∷ note ∷ []) 100 ++ rest)
        × IsQueue (build_outbox_batch (film ∷ note ∷ []) 100 ++ rest)
        × Overflows 100 (total (build_outbox_batch (film ∷ note ∷ []) 100)) rest)
build_outbox_batch-front_example = build_outbox_batch-front (film ∷ note ∷ []) 100
