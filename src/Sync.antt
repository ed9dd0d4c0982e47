-- ===== src/Sync.antt =====
-- Offline synchronisation, packages/core/src/engines/SyncEngine.ts. A JavaScript `Map` is the list
-- of its values in order of insertion: `set` replaces in place, or appends. `sort` is stable.
pub mod Laws
pub mod Batch
mod Tests
use Prim.Native.String.{String}
use package.text.Mathlib.Text.{◌==◌ as str_eq}
use roadwatch.Prelude.{
  ℕ, ◌+◌, ◌==◌, ltb, leb, List, [], ◌∷◌, ◌++◌, Option, none, some, Bool, true, false, not,
  if◌then◌else◌,
}

pub data SyncPatch {ℓ} (T : Type ℓ) : Type ℓ where
  create update delete : T → SyncPatch T

-- `BaseEntity` by its two fields.
module _ {T : Type 0} (id_of : T → String) (updated_at : T → ℕ) where
  unfoldable pub map_get : String → List T → Option T
  map_get key [] = none
  map_get key (x ∷ xs) = let rest = map_get key xs in if str_eq (id_of x) key then some x else rest

  unfoldable pub map_set : T → List T → List T
  map_set x [] = x ∷ []
  map_set x (y ∷ ys) =
      let rest = map_set x ys in if str_eq (id_of y) (id_of x) then x ∷ ys else y ∷ rest

  unfoldable pub map_delete : String → List T → List T
  map_delete key [] = []
  map_delete key (x ∷ xs) =
      let rest = map_delete key xs in if str_eq (id_of x) key then rest else x ∷ rest

  set_all : List T → List T → List T
  set_all [] m = m
  set_all (x ∷ xs) m = set_all xs (map_set x m)

  unfoldable pub from_array : List T → List T
  unfolding set_all
  from_array xs = set_all xs []

  unfoldable pub patch_for : Option T → T → List (SyncPatch T)
  patch_for none remote = create remote ∷ []
  patch_for (some local) remote =
      if ltb (updated_at local) (updated_at remote) then update remote ∷ [] else []

  unfoldable pub delete_all : List T → List (SyncPatch T)
  delete_all [] = []
  delete_all (x ∷ xs) = delete x ∷ delete_all xs

  -- The loop over the remote state, and the deletion of what it left in the local map.
  unfoldable pub diff_loop : List T → List T → List (SyncPatch T)
  diff_loop [] locals = delete_all locals
  diff_loop (remote ∷ remotes) locals =
      patch_for (map_get (id_of remote) locals) remote
      ++ diff_loop remotes (map_delete (id_of remote) locals)

  unfoldable pub diff_local_vs_remote : List T → List T → List (SyncPatch T)
  diff_local_vs_remote locals remotes = diff_loop remotes (from_array locals)

  unfoldable pub apply_all : List (SyncPatch T) → List T → List T
  apply_all [] m = m
  apply_all (create x ∷ patches) m = apply_all patches (map_set x m)
  apply_all (update x ∷ patches) m = apply_all patches (map_set x m)
  apply_all (delete x ∷ patches) m = apply_all patches (map_delete (id_of x) m)

  unfoldable pub apply_patch : List T → List (SyncPatch T) → List T
  apply_patch current patches = apply_all patches (from_array current)

pub data OutboxType : Type 0 where
  text media protobuf : OutboxType

pub record OutboxRecord : Type 0 where
  pub id : String
  pub type : OutboxType
  pub size_bytes : ℕ
  pub priority : ℕ
  pub created_at : ℕ

unfoldable pub queue_weight : OutboxType → ℕ
queue_weight protobuf = 1
queue_weight text = 2
queue_weight media = 3

-- Whether the comparison of the sort is at most 0.
unfoldable pub goes_first : OutboxRecord → OutboxRecord → Bool
unfolding queue_weight
goes_first a b =
    if not (queue_weight a.type == queue_weight b.type)
    then ltb (queue_weight a.type) (queue_weight b.type)
    else if not (a.size_bytes == b.size_bytes)
    then ltb a.size_bytes b.size_bytes
    else leb a.created_at b.created_at

unfoldable pub insert : OutboxRecord → List OutboxRecord → List OutboxRecord
insert x [] = x ∷ []
insert x (y ∷ ys) = let rest = insert x ys in if goes_first x y then x ∷ y ∷ ys else y ∷ rest

unfoldable pub prioritize_sync : List OutboxRecord → List OutboxRecord
prioritize_sync [] = []
prioritize_sync (x ∷ xs) = insert x (prioritize_sync xs)

unfoldable pub pack : ℕ → ℕ → List OutboxRecord → List OutboxRecord
pack most current [] = []
pack most current (item ∷ queue) =
    let rest = pack most (current + item.size_bytes) queue in
    if leb (current + item.size_bytes) most then item ∷ rest else []

unfoldable pub build_outbox_batch : List OutboxRecord → ℕ → List OutboxRecord
build_outbox_batch records most = pack most 0 (prioritize_sync records)
