-- ===== src/Network/Tests.antt =====
-- A complaint with a small and a large picture on 2G.

use roadwatch.Prelude.{◌≡◌, ◌↔◌, ◌⊎◌, refl, List, [], ◌∷◌, true}
use roadwatch.Prelude.Text.{codes}
use roadwatch.Network.{
  cell_2g, ComplaintPayload, execute_immediately, queue_outbox, is_light, by_weight,
  process_payload,
}

abbrev payload : ComplaintPayload
payload = record {
  id = "c1";
  images =
      record { id = "i1"; size_bytes = 900000; format = codes "WebP" }
      ∷ record { id = "i2"; size_bytes = 900000; format = codes "jpg" }
      ∷ [];
  videos = [];
}

on_2g :
    (process_payload payload cell_2g).image_actions
    ≡ ("i1", execute_immediately) ∷ ("i2", queue_outbox) ∷ []
unfolding process_payload by_weight is_light roadwatch.Prelude.Text.Text-discrete
    roadwatch.Prelude.ℕ_discrete
on_2g = refl
