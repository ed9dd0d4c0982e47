-- ===== src/Network/Laws.antt =====
-- Nothing of a payload is lost, and what the user is told is what was done.
use Prim.Native.String.{String}
use roadwatch.Prelude.{
  ◌≡◌, ◌↔◌, ◌⊎◌, inr, refl, ap, ◌||◌, not, List, [], ◌∷◌, Bool, true, false, arith,
}
use roadwatch.Network.{
  NetworkState, none_state, cell_2g, cell_3g, cell_4g, cell_5g, wifi, MediaAsset, ComplaintPayload,
  ActionDestination, execute_immediately, queue_outbox, NetworkActionQueue, limited_done, uploaded,
  all_to, by_weight, any_queued, process_payload, is_queued, limited, unlimited,
}

-- The assets that have an action, in order, each with its own.
abbrev pub named : List (String × ActionDestination) → List String
named [] = []
named ((id, action) ∷ actions) = id ∷ named actions

abbrev pub ids : List MediaAsset → List String
ids [] = []
ids (asset ∷ assets) = asset.id ∷ ids assets

named-all_to :
    (action : ActionDestination) (assets : List MediaAsset)
    → named (all_to action assets) ≡ ids assets
unfolding all_to
named-all_to action [] = refl
named-all_to action (asset ∷ assets) = ap (λ r. asset.id ∷ r) (named-all_to action assets)

named-by_weight : (images : List MediaAsset) → named (by_weight images) ≡ ids images
unfolding by_weight
named-by_weight [] = refl
named-by_weight (image ∷ images) = ap (λ r. image.id ∷ r) (named-by_weight images)

-- Nothing waits in the outbox.
abbrev pub all_sent : NetworkActionQueue → Bool
all_sent q =
    not (is_queued q.text_action || any_queued q.image_actions || any_queued q.video_actions)

any_queued-all_to :
    (assets : List MediaAsset) → any_queued (all_to execute_immediately assets) ≡ false
unfolding any_queued all_to is_queued
any_queued-all_to [] = refl
any_queued-all_to (asset ∷ assets) = any_queued-all_to assets

abbrev Complete : ComplaintPayload → NetworkActionQueue → Type 0
Complete payload q =
    (named q.image_actions ≡ ids payload.images)
    × (named q.video_actions ≡ ids payload.videos)
    × ((all_sent q ≡ true) ↔ ((q.ui_message ≡ limited_done) ⊎ (q.ui_message ≡ uploaded)))

limited-Complete : (payload : ComplaintPayload) → Complete payload (limited payload)
unfolding limited is_queued
limited-Complete payload = (
  named-by_weight payload.images,
  named-all_to queue_outbox payload.videos,
  ((λ h. ground arith), λ h. ground arith),
)

unlimited-Complete : (payload : ComplaintPayload) → Complete payload (unlimited payload)
unfolding unlimited is_queued
unlimited-Complete payload =
    let images = any_queued-all_to payload.images in
    let videos = any_queued-all_to payload.videos in
    (
      named-all_to execute_immediately payload.images,
      named-all_to execute_immediately payload.videos,
      ((λ h. inr refl), λ h. rw (images, videos) refl),
    )

-- Every image and every video has one action, in order, and the user is told that all was submitted
-- exactly if the text and all media are sent at once.
pub process_payload_complete :
    (payload : ComplaintPayload) (state : NetworkState)
    → let q = process_payload payload state in
      (named q.image_actions ≡ ids payload.images)
      × (named q.video_actions ≡ ids payload.videos)
      × ((all_sent q ≡ true) ↔ ((q.ui_message ≡ limited_done) ⊎ (q.ui_message ≡ uploaded)))
unfolding process_payload is_queued
process_payload_complete payload none_state = (
  named-all_to queue_outbox payload.images,
  named-all_to queue_outbox payload.videos,
  ((λ h. ground arith), λ h. ground arith),
)
process_payload_complete payload cell_2g = limited-Complete payload
process_payload_complete payload cell_3g = limited-Complete payload
process_payload_complete payload cell_4g = unlimited-Complete payload
process_payload_complete payload cell_5g = unlimited-Complete payload
process_payload_complete payload wifi = unlimited-Complete payload
