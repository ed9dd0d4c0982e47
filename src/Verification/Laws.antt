-- ===== src/Verification/Laws.antt =====
-- When an image passes, what a failure leaves in the result, and the distance of two hashes.
use Prim.Native.String.{String}
use text.Mathlib.TextEquality.{eq_iff}
use roadwatch.Prelude.{
  ℕ, ◌+◌, ◌≤◌, ◌≡◌, ◌≢◌, ◌↔◌, inl, inr, refl, sym, ◌∙◌, List, [], ◌∷◌, Option, none, some, true,
  false, leb, length, if◌then◌else◌, arith, All, Bool-cases,
}
use roadwatch.Prelude.Text.{Text}
use roadwatch.Verification.{
  VerificationCheck, validate_timestamp, validate_nonce, differences, hamming_distance, stale_image,
  outside_of_geofence, invalid_nonce, VerifyConfig, close, find_duplicate, note_error,
  note_duplicate, Geo, Places, validate_geofence, perform_verification,
}

-- A time that an image carries is accepted exactly if it is not 0 and lies within the window on
-- either side of the time of receipt.
pub validate_timestamp_iff :
    (exif received window : ℕ)
    → ((validate_timestamp (some exif) received window).passed ≡ true)
      ↔ ((exif ≢ 0) × (exif ≤ received + window) × (received ≤ exif + window))
unfolding validate_timestamp
validate_timestamp_iff exif received window = ((λ h. ground arith), λ h. ground arith)

-- A nonce is accepted exactly if it is the expected one and its time is not over.
pub validate_nonce_iff :
    (given expected : String) (expires_at now : ℕ)
    → ((validate_nonce given expected expires_at now).passed ≡ true)
      ↔ ((given ≡ expected) × (now ≤ expires_at))
unfolding validate_nonce
validate_nonce_iff given expected expires_at now =
    let same = eq_iff given expected in ((λ h. ground (arith, same)), λ h. ground (arith, same))

differences_self : (xs : Text) → differences xs xs ≡ 0
unfolding differences
differences_self [] = refl
differences_self (x ∷ xs) = ground (arith, differences_self xs)

differences_comm : (xs ys : Text) → differences xs ys ≡ differences ys xs
unfolding differences
differences_comm [] [] = refl
differences_comm [] (y ∷ ys) = refl
differences_comm (x ∷ xs) [] = refl
differences_comm (x ∷ xs) (y ∷ ys) = ground (arith, differences_comm xs ys)

differences_bound : (xs ys : Text) → differences xs ys ≤ length xs
unfolding differences
differences_bound [] ys = omega arith
differences_bound (x ∷ xs) [] = omega arith
differences_bound (x ∷ xs) (y ∷ ys) = ground (arith, differences_bound xs ys)

differences_zero : (xs ys : Text) → length xs ≡ length ys → differences xs ys ≡ 0 → xs ≡ ys
unfolding differences
differences_zero [] [] h d = refl
differences_zero [] (y ∷ ys) h d = absurd (omega arith)
differences_zero (x ∷ xs) [] h d = absurd (omega arith)
differences_zero (x ∷ xs) (y ∷ ys) h d = grind (arith, differences_zero xs ys)

differences_triangle :
    (xs ys zs : Text)
    → length xs ≡ length ys
    → length ys ≡ length zs
    → differences xs zs ≤ differences xs ys + differences ys zs
unfolding differences
differences_triangle [] ys zs h k = omega arith
differences_triangle (x ∷ xs) ys [] h k = omega arith
differences_triangle (x ∷ xs) [] (z ∷ zs) h k = absurd (omega arith)
differences_triangle (x ∷ xs) (y ∷ ys) (z ∷ zs) h k =
    ground (arith, differences_triangle xs ys zs (omega arith) (omega arith))

length-hamming_distance :
    (xs ys : Text) (a : ℕ)
    → hamming_distance xs ys ≡ some a
    → (length xs ≡ length ys) × (differences xs ys ≡ a)
unfolding hamming_distance
length-hamming_distance xs ys a h = ground arith

-- Where two hashes have a distance and the second has one to a third, the distance is symmetric,
-- is 0 exactly for equal hashes, is at most the length, and the triangle inequality holds.
pub hamming_distance_metric :
    (xs ys zs : Text) (a b : ℕ)
    → hamming_distance xs ys ≡ some a
    → hamming_distance ys zs ≡ some b
    → (hamming_distance ys xs ≡ some a)
      × ((a ≡ 0) ↔ (xs ≡ ys))
      × (a ≤ length xs)
      × ((c : ℕ) × (hamming_distance xs zs ≡ some c) × (c ≤ a + b))
unfolding hamming_distance
hamming_distance_metric xs ys zs a b h k =
    let (hl, ha) = length-hamming_distance xs ys a h in
    let (kl, kb) = length-hamming_distance ys zs b k in
    (
      ground (arith, differences_comm xs ys),
      ((λ e. differences_zero xs ys hl (omega arith)), λ e. sym ha ∙ (rw e (differences_self ys))),
      omega (arith, differences_bound xs ys),
      (differences xs zs, ground arith, omega (arith, differences_triangle xs ys zs hl kl)),
    )

close_iff :
    (d : Option ℕ) (threshold : ℕ)
    → (close d threshold ≡ true) ↔ ((n : ℕ) × (d ≡ some n) × (n ≤ threshold))
close_iff none threshold = ((λ h. ground arith), λ (n, e, h). ground arith)
close_iff (some d) threshold = ((λ h. (d, refl, ground arith)), λ (n, e, h). ground arith)

-- Whether some recent hash is near.
abbrev pub AllFar : Text → ℕ → List Text → Type 0
AllFar phash threshold hashes = All (λ h. close (hamming_distance phash h) threshold ≡ false) hashes

find_duplicate-AllFar :
    (phash : Text) (threshold : ℕ) (hashes : List Text)
    → (find_duplicate phash threshold hashes ≡ none) ↔ AllFar phash threshold hashes
unfolding find_duplicate
find_duplicate-AllFar phash threshold [] = ((λ _. tt), λ _. refl)
find_duplicate-AllFar phash threshold (recent ∷ hashes) =
    let (f, g) = find_duplicate-AllFar phash threshold hashes in
    ((λ h. first threshold (hamming_distance phash recent) f h), λ (h, hs). rw (h, g hs) refl)
  where
    first :
        (threshold : ℕ) (d : Option ℕ) {rest : Option ℕ} {P : Type 0}
        → (rest ≡ none → P)
        → (if close d threshold then d else rest) ≡ none
        → (close d threshold ≡ false) × P
    first threshold none f h = (refl, f h)
    first threshold (some d) {rest} f h = elim (Bool-cases (leb d threshold)) [
      | inl e ↦ absurd (ground arith)
      | inr e ↦ (e, f (rw e at h))
    ]

verdict :
    (a b c : VerificationCheck) (d : Option ℕ)
    → let r = note_duplicate d (
        note_error c invalid_nonce (
          note_error b outside_of_geofence (
            note_error a stale_image
              (record { passed = true; errors = []; warnings = []; checks = [] })))) in
      ((r.passed ≡ true) ↔ ((a.passed ≡ true) × (b.passed ≡ true) × (c.passed ≡ true)))
      × ((r.passed ≡ true) ↔ (r.errors ≡ []))
      × (length r.checks ≡ 4)
      × ((r.warnings ≡ []) ↔ (d ≡ none))
unfolding note_duplicate
verdict a b c d = ground arith

module _ (g : Geo) where
  -- An image passes exactly if its time, place and nonce pass, which is exactly if there is no error;
  -- four checks are reported, and there is no warning exactly if no recent hash is near.
  pub perform_verification-passed :
      (phash : Text) (exif : Option ℕ) (p : Places g) (nonce expected : String) (recent : List Text)
      (config : VerifyConfig) (t1 t2 t3 : ℕ)
      → let r = perform_verification g phash exif p nonce expected recent config t1 t2 t3 in
        let time = validate_timestamp exif t1 config.time_window_ms in
        let place = validate_geofence g p config.geofence_radius_meters in
        let once = validate_nonce nonce expected (t2 + 600000) t3 in
        ((r.passed ≡ true) ↔ ((time.passed ≡ true) × (place.passed ≡ true) × (once.passed ≡ true)))
        × ((r.passed ≡ true) ↔ (r.errors ≡ []))
        × (length r.checks ≡ 4)
        × ((r.warnings ≡ []) ↔ AllFar phash config.phash_threshold recent)
  unfolding perform_verification note_duplicate
  perform_verification-passed phash exif p nonce expected recent config t1 t2 t3 =
      let v =
        verdict (validate_timestamp exif t1 config.time_window_ms)
          (validate_geofence g p config.geofence_radius_meters)
          (validate_nonce nonce expected (t2 + 600000) t3)
          (find_duplicate phash config.phash_threshold recent) in
      let far = find_duplicate-AllFar phash config.phash_threshold recent in
      (v.0, v.1, v.2, ((λ h. far.0 (v.3.0 h)), λ h. v.3.1 (far.1 h)))
