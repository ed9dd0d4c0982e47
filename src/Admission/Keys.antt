-- ===== src/Admission/Keys.antt =====
-- The redis keys of a permit, `permitKeys` of packages/redis/admission.ts.
use roadwatch.Prelude.{
  ℕ, ◌*◌, ◌/◌, [], ◌∷◌, ◌++◌, Bool, false, not, ◌&&◌, ◌||◌, leb, ◌==◌, if◌then◌else◌,
}
use roadwatch.Prelude.Text.{Text, codes, show}
use roadwatch.RegionCode.{trim}

pub record Config : Type 0 where
  pub scope : Text
  pub principal : Text
  pub max_requests_per_window : ℕ
  pub window_seconds : ℕ
  pub max_inflight : ℕ
  pub inflight_ttl_seconds : ℕ

-- `[a-z0-9:_-]`
is_scope_char : ℕ → Bool
is_scope_char c =
    (leb b'a' c && leb c b'z') || (leb b'0' c && leb c b'9') || c == b':' || c == b'_' || c == b'-'

-- `.replace(/[^a-z0-9:_-]+/g, '-')`; the flag tells whether the character before was replaced.
dash_runs : Bool → Text → Text
unfolding is_scope_char
dash_runs in_run [] = []
dash_runs in_run (c ∷ cs) =
    let rest = dash_runs (not (is_scope_char c)) cs in
    if is_scope_char c then c ∷ rest else if in_run then rest else b'-' ∷ rest

-- `String(Math.floor(Date.now() / 1000 / windowSeconds))`, at the time `now` in milliseconds.
unfoldable pub current_window : ℕ → ℕ → Text
unfolding show
current_window now window_seconds = show (now / (1000 * window_seconds))

-- `toLowerCase` of the language, on all of Unicode, is a parameter.
module _ (to_lower_case : Text → Text) where
  unfoldable pub normalized_scope : Text → Text
  unfolding trim dash_runs
  normalized_scope scope = dash_runs false (to_lower_case (trim scope))

  anonymous_if_empty : Text → Text
  anonymous_if_empty [] = codes "anonymous"
  anonymous_if_empty (c ∷ cs) = c ∷ cs

  unfoldable pub normalized_principal : Text → Text
  unfolding trim anonymous_if_empty
  normalized_principal principal = anonymous_if_empty (to_lower_case (trim principal))

  unfoldable pub rate_key : ℕ → Config → Text
  unfolding normalized_scope normalized_principal current_window
  rate_key now c =
      codes "roadwatch:backpressure:"
      ++ normalized_scope c.scope
      ++ codes ":rate:"
      ++ normalized_principal c.principal
      ++ codes ":"
      ++ current_window now c.window_seconds

  unfoldable pub inflight_key : Config → Text
  unfolding normalized_scope normalized_principal
  inflight_key c =
      codes "roadwatch:backpressure:"
      ++ normalized_scope c.scope
      ++ codes ":inflight:"
      ++ normalized_principal c.principal
