-- ===== src/RegionCode/Laws.antt =====
-- What Fabric receives as a region code.
use roadwatch.Prelude.{
  ℕ, zero, suc, ◌≤◌, ◌≡◌, refl, ap, [], ◌∷◌, Option, none, some, true, false, length, length-take,
  take, All, arith, All-append,
}
use mathlib.Core.List.{reverse, reverse-cons, reverse-reverse}
use roadwatch.Prelude.Text.{Text}
use roadwatch.RegionCode.{
  is_space, is_allowed, trim_start, trim, hyphenate, strip, compact, clip, to_fabric_region_code,
}

abbrev pub IsAllowed : ℕ → Type 0
IsAllowed c = is_allowed c ≡ true

pub record IsRegionCode (code : Text) : Type 0 where
  pub allowed : All IsAllowed code
  pub not_empty : 1 ≤ length code
  pub within : length code ≤ 10

strip-All : (cs : Text) → All IsAllowed (strip cs)
unfolding strip
strip-All [] = tt
strip-All (c ∷ cs) = ground (arith, strip-All cs)

take-All : (n : ℕ) (cs : Text) → All IsAllowed cs → All IsAllowed (take n cs)
take-All zero cs h = tt
take-All (suc n) [] h = tt
take-All (suc n) (c ∷ cs) h = (h.0, take-All n cs h.1)

clip-IsRegionCode : (code : Text) → All IsAllowed code → IsRegionCode (clip code)
unfolding clip is_allowed
clip-IsRegionCode code h = ground (arith, take-All 10 code h, length-take 10 code)

compact-All : (input : Option Text) → All IsAllowed (compact input)
unfolding compact
compact-All none = strip-All (hyphenate false (trim []))
compact-All (some input) = strip-All (hyphenate false (trim input))

-- Whatever the district or zone is called, the region code has 1 to 10 characters, each a letter,
-- a digit or a hyphen.
pub to_fabric_region_code-IsRegionCode :
    (input : Option Text) → IsRegionCode (to_fabric_region_code input)
unfolding to_fabric_region_code
to_fabric_region_code-IsRegionCode input = clip-IsRegionCode (compact input) (compact-All input)

not_space : (c : ℕ) → IsAllowed c → is_space c ≡ false
unfolding is_space is_allowed
not_space c h = ground arith

trim_start-allowed : (cs : Text) → All IsAllowed cs → trim_start cs ≡ cs
unfolding trim_start
trim_start-allowed [] h = refl
trim_start-allowed (c ∷ cs) h = rw (not_space c h.0)

reverse-All : (cs : Text) → All IsAllowed cs → All IsAllowed (reverse cs)
reverse-All [] h = tt
reverse-All (c ∷ cs) h =
    rw (reverse-cons c cs)
      (All-append IsAllowed (reverse cs) (c ∷ []) (reverse-All cs h.1) (h.0, tt))

trim-allowed : (cs : Text) → All IsAllowed cs → trim cs ≡ cs
unfolding trim
trim-allowed cs h =
    rw (trim_start-allowed cs h, trim_start-allowed (reverse cs) (reverse-All cs h))
      (reverse-reverse cs)

hyphenate-allowed : (cs : Text) → All IsAllowed cs → hyphenate false cs ≡ cs
unfolding hyphenate
hyphenate-allowed [] h = refl
hyphenate-allowed (c ∷ cs) h = rw (not_space c h.0) (ap (λ r. c ∷ r) (hyphenate-allowed cs h.1))

strip-allowed : (cs : Text) → All IsAllowed cs → strip cs ≡ cs
unfolding strip
strip-allowed [] h = refl
strip-allowed (c ∷ cs) h = rw h.0 (ap (λ r. c ∷ r) (strip-allowed cs h.1))

clip_of_IsRegionCode : (code : Text) → IsRegionCode code → clip code ≡ code
unfolding clip
clip_of_IsRegionCode code h = ground arith

to_fabric_region_code_of_IsRegionCode :
    (code : Text) → IsRegionCode code → to_fabric_region_code (some code) ≡ code
unfolding to_fabric_region_code compact
to_fabric_region_code_of_IsRegionCode code h =
    rw (trim-allowed code h.allowed, hyphenate-allowed code h.allowed, strip-allowed code h.allowed)
      (clip_of_IsRegionCode code h)

-- A region code is kept as it is when it is normalised again.
pub to_fabric_region_code_idempotent :
    (input : Option Text)
    → to_fabric_region_code (some (to_fabric_region_code input)) ≡ to_fabric_region_code input
to_fabric_region_code_idempotent input =
    to_fabric_region_code_of_IsRegionCode _ (to_fabric_region_code-IsRegionCode input)
