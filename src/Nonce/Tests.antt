-- ===== src/Nonce/Tests.antt =====
-- A buffer with text between other bytes.
use roadwatch.Prelude.{ℕ, ◌≡◌, refl, List, [], ◌∷◌, ◌++◌}
use roadwatch.Prelude.Text.{codes}
use roadwatch.Nonce.{extract_ascii_text}

abbrev buffer : List ℕ
buffer = 0 ∷ 1 ∷ codes "NONCE" ++ 0 ∷ codes "ab" ++ 7 ∷ []

read_text : extract_ascii_text buffer ≡ codes "NONCE"
unfolding extract_ascii_text roadwatch.RegionCode.trim
read_text = refl
