-- ===== src/Network.antt =====
-- What is sent at once on which network, packages/core/src/engines/NetworkDegradationManager.ts. Of
-- the message to the user its kind is kept.
pub mod Laws
mod Tests
use Prim.Native.String.{String}
use roadwatch.Prelude.{
  ℕ, ◌+◌, ◌&&◌, ◌||◌, ltb, leb, map, List, [], ◌∷◌, Bool, true, false, if◌then◌else◌, ite,
}
use roadwatch.Prelude.Text.{Text, Text-discrete, codes}

pub data NetworkState : Type 0 where
  none_state cell_2g cell_3g cell_4g cell_5g wifi : NetworkState

pub record MediaAsset : Type 0 where
  pub id : String
  pub size_bytes : ℕ
  pub format : Text

pub record ComplaintPayload : Type 0 where
  pub id : String
  pub images : List MediaAsset
  pub videos : List MediaAsset

pub data ActionDestination : Type 0 where
  execute_immediately queue_outbox : ActionDestination

pub data UiMessage : Type 0 where
  offline limited_deferred limited_done uploaded : UiMessage

pub record NetworkActionQueue : Type 0 where
  pub text_action : ActionDestination
  pub image_actions : List (String × ActionDestination)
  pub video_actions : List (String × ActionDestination)
  pub ui_message : UiMessage

-- `toLowerCase` on ASCII letters, which alone can make a format that equals `webp`.
lower : Text → Text
lower [] = []
lower (c ∷ cs) = (if leb 65 c && leb c 90 then c + 32 else c) ∷ lower cs

unfoldable pub is_light : MediaAsset → Bool
unfolding lower
is_light image =
    ite (Text-discrete (lower image.format) (codes "webp")) true false
    || ltb image.size_bytes 500000

unfoldable pub all_to : ActionDestination → List MediaAsset → List (String × ActionDestination)
all_to action [] = []
all_to action (asset ∷ assets) = (asset.id, action) ∷ all_to action assets

unfoldable pub by_weight : List MediaAsset → List (String × ActionDestination)
by_weight [] = []
by_weight (image ∷ images) =
    (image.id, if is_light image then execute_immediately else queue_outbox) ∷ by_weight images

unfoldable pub is_queued : ActionDestination → Bool
is_queued queue_outbox = true
is_queued execute_immediately = false

unfoldable pub any_queued : List (String × ActionDestination) → Bool
unfolding is_queued
any_queued [] = false
any_queued ((id, action) ∷ actions) = is_queued action || any_queued actions

unfoldable pub limited : ComplaintPayload → NetworkActionQueue
limited payload =
    let images = by_weight payload.images in
    let videos = all_to queue_outbox payload.videos in
    record {
      text_action = execute_immediately;
      image_actions = images;
      video_actions = videos;
      ui_message =
          if any_queued images || any_queued videos then limited_deferred else limited_done;
    }

unfoldable pub unlimited : ComplaintPayload → NetworkActionQueue
unlimited payload = record {
  text_action = execute_immediately;
  image_actions = all_to execute_immediately payload.images;
  video_actions = all_to execute_immediately payload.videos;
  ui_message = uploaded;
}

unfoldable pub process_payload : ComplaintPayload → NetworkState → NetworkActionQueue
unfolding limited unlimited
process_payload payload none_state = record {
  text_action = queue_outbox;
  image_actions = all_to queue_outbox payload.images;
  video_actions = all_to queue_outbox payload.videos;
  ui_message = offline;
}
process_payload payload cell_2g = limited payload
process_payload payload cell_3g = limited payload
process_payload payload cell_4g = unlimited payload
process_payload payload cell_5g = unlimited payload
process_payload payload wifi = unlimited payload
