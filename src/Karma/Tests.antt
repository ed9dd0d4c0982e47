-- ===== src/Karma/Tests.antt =====
-- A charge for a duplicate image.
use roadwatch.Prelude.{◌≡◌, refl, none}
use roadwatch.Prelude.Int.{pos, negsuc, ◌+ℤ◌}
use roadwatch.Karma.{KarmaTransaction, calculate_new_score}

abbrev charge : KarmaTransaction
charge = record {
  user_id = "u1";
  delta = negsuc 29;
  reason = "duplicate_image_penalty";
  submission_id = none;
  timestamp = 5;
}

low_score : calculate_new_score (pos 20) charge (negsuc 499) (pos 10000) ≡ negsuc 9
unfolding calculate_new_score ◌+ℤ◌
low_score = refl
