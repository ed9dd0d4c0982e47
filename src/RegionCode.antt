-- ===== src/RegionCode.antt =====
-- `toFabricRegionCode` of services/fabric-anchor-consumer/index.ts. A text is its list of code
-- points; every unit that is not in the Basic Multilingual Plane is stripped either way.
pub mod Laws
mod Tests
use roadwatch.Prelude.{
  ℕ, ◌≤◌, List, [], ◌∷◌, Option, none, some, Bool, true, false, not, ◌&&◌, ◌||◌, leb, ◌==◌, length,
  take, if◌then◌else◌,
}
use mathlib.Core.List.{reverse}
use roadwatch.Prelude.Text.{Text, codes}

-- `\s` of a regular expression, which is also what `trim` removes.
pub is_space : ℕ → Bool
is_space c =
    (leb 9 c && leb c 13)
    || c == 32
    || c == 0xa0
    || c == 0x1680
    || (leb 0x2000 c && leb c 0x200a)
    || c == 0x2028
    || c == 0x2029
    || c == 0x202f
    || c == 0x205f
    || c == 0x3000
    || c == 0xfeff

-- `[A-Za-z0-9-]`
pub is_allowed : ℕ → Bool
is_allowed c =
    (leb b'A' c && leb c b'Z')
    || (leb b'a' c && leb c b'z')
    || (leb b'0' c && leb c b'9')
    || c == b'-'

unfoldable pub trim_start : Text → Text
unfolding is_space
trim_start [] = []
trim_start (c ∷ cs) = let rest = trim_start cs in if is_space c then rest else c ∷ cs

unfoldable pub trim : Text → Text
unfolding trim_start
trim cs = reverse (trim_start (reverse (trim_start cs)))

-- `.replace(/\s+/g, '-')`; the flag tells whether the character before was white space.
hyphenate : Bool → Text → Text
unfolding is_space
hyphenate in_run [] = []
hyphenate in_run (c ∷ cs) =
    let rest = hyphenate (is_space c) cs in
    if is_space c then (if in_run then rest else b'-' ∷ rest) else c ∷ rest

-- `.replace(/[^A-Za-z0-9-]/g, '')`
strip : Text → Text
unfolding is_allowed
strip [] = []
strip (c ∷ cs) = let rest = strip cs in if is_allowed c then c ∷ rest else rest

compact : Option Text → Text
unfolding trim hyphenate strip
compact none = strip (hyphenate false (trim []))
compact (some input) = strip (hyphenate false (trim input))

clip : Text → Text
clip code =
    if length code == 0
    then codes "UNKNOWN"
    else if leb (length code) 10
    then code
    else take 10 code

pub to_fabric_region_code : Option Text → Text
unfolding compact clip
to_fabric_region_code input = clip (compact input)
