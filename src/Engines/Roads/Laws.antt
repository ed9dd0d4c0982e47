-- ===== src/Engines/Roads/Laws.antt =====
-- Which road packages/core/src/engines/RoadEngine.ts takes a place to be on.
use roadwatch.Prelude.{
  ℕ, leb, ◌≤◌, ◌<◌, ◌≡◌, ◌⊎◌, inl, inr, refl, ap, sym, subst, ◌∙◌, List, [], ◌∷◌, ◌++◌, Option,
  none, some, true, false, ◌&&◌, if◌then◌else◌, All, Bool-cases, append_assoc, append-nil,
  All-append, arith,
}
use roadwatch.Engines.Roads.{Segment, closer, closest, road_in, identify_from_gps}

module _ {Place Road : Type 0} (distance : Place → Place → ℕ) (max_snap_distance : ℕ)
    (location : Place) where
  abbrev pub away : Segment Place Road → ℕ
  away s = distance location s.center_point

  -- The road is that of a segment within reach, with none nearer, and none before it as near.
  pub record IsNearest (segments : List (Segment Place Road)) (least : ℕ) (road : Road)
      : Type 0 where
    pub segment : Segment Place Road
    pub before : List (Segment Place Road)
    pub after : List (Segment Place Road)
    pub split : segments ≡ before ++ segment ∷ after
    pub own_road : road ≡ segment.road
    pub own_distance : least ≡ away segment
    pub reached : least ≤ max_snap_distance
    pub farther_before : All (λ s. least < away s) before
    pub no_nearer_after : All (λ s. least ≤ away s) after

  -- The segments before the nearest that are in reach, and those that are not, are all farther away.
  abbrev Best : List (Segment Place Road) → Option (ℕ × Road) → Type 0
  Best seen none = All (λ s. max_snap_distance < away s) seen
  Best seen (some (least, road)) = IsNearest seen least road

  All-impl :
      (P Q : Segment Place Road → Type 0) (l : List (Segment Place Road))
      → ((s : Segment Place Road) → P s → Q s)
      → All P l
      → All Q l
  All-impl P Q [] f h = tt
  All-impl P Q (s ∷ l) f h = (f s h.0, All-impl P Q l f h.1)

  -- A segment in reach that is nearer than the best so far.
  take_over :
      (s : Segment Place Road) (seen : List (Segment Place Road)) (best : Option (ℕ × Road))
      → Best seen best
      → closer distance max_snap_distance (away s) best ≡ true
      → away s ≤ max_snap_distance
      → IsNearest (seen ++ s ∷ []) (away s) s.road
  take_over s seen best h near reach = record {
    segment = s;
    before = seen;
    after = [];
    split = refl;
    own_road = refl;
    own_distance = refl;
    reached = reach;
    farther_before = farther best h near;
    no_nearer_after = tt;
  }
    where
      farther :
          (o : Option (ℕ × Road))
          → Best seen o
          → closer distance max_snap_distance (away s) o ≡ true
          → All (λ x. away s < away x) seen
      farther none b c =
          All-impl (λ x. max_snap_distance < away x) (λ x. away s < away x) seen
            (λ x far. omega arith) b
      farther (some (least, road)) b c =
          let nearer : away s < least = ground arith in
          subst (λ l. All (λ x. away s < away x) l) (sym b.split)
            (All-append (λ x. away s < away x) b.before (b.segment ∷ b.after)
              (All-impl (λ x. least < away x) (λ x. away s < away x) b.before (λ x far. omega arith)
                b.farther_before)
              (
                omega (arith, b.own_distance),
                All-impl (λ x. least ≤ away x) (λ x. away s < away x) b.after (λ x far. omega arith)
                    b.no_nearer_after,
              ))

  -- A segment that is out of reach or no nearer.
  pass_by :
      (s : Segment Place Road) (seen : List (Segment Place Road)) (best : Option (ℕ × Road))
      → Best seen best
      → (closer distance max_snap_distance (away s) best && leb (away s) max_snap_distance) ≡ false
      → Best (seen ++ s ∷ []) best
  pass_by s seen none h far =
      All-append (λ x. max_snap_distance < away x) seen (s ∷ []) h (ground arith, tt)
  pass_by s seen (some (least, road)) b far = record {
    segment = b.segment;
    before = b.before;
    after = b.after ++ s ∷ [];
    split = ap (λ l. l ++ s ∷ []) b.split ∙ append_assoc b.before (b.segment ∷ b.after) (s ∷ []);
    own_road = b.own_road;
    own_distance = b.own_distance;
    reached = b.reached;
    farther_before = b.farther_before;
    no_nearer_after =
        All-append (λ x. least ≤ away x) b.after (s ∷ []) b.no_nearer_after
          (ground (arith, b.reached), tt);
  }

  closest-Best :
      (segments seen : List (Segment Place Road)) (best : Option (ℕ × Road))
      → Best seen best
      → Best (seen ++ segments) (closest distance max_snap_distance location segments best)
  unfolding closest
  closest-Best [] seen best h = subst (λ l. Best l best) (sym (append-nil seen)) h
  closest-Best (s ∷ segments) seen best h =
      let test =
        closer distance max_snap_distance (away s) best && leb (away s) max_snap_distance in
      subst (λ l. Best l (closest distance max_snap_distance location (s ∷ segments) best))
        (append_assoc seen (s ∷ []) segments)
        (closest-Best segments (seen ++ s ∷ []) (if test then some (away s, s.road) else best)
          (elim (Bool-cases test) [
            | inl hit ↦
                subst (λ b. Best (seen ++ s ∷ []) (if b then some (away s, s.road) else best))
                  (sym hit) (take_over s seen best h (ground arith) (ground arith))
            | inr miss ↦
                subst (λ b. Best (seen ++ s ∷ []) (if b then some (away s, s.road) else best))
                  (sym miss) (pass_by s seen best h miss)
          ]))

  -- A place is on the road of the first of the nearest segments where that is within the distance of
  -- half a kilometre, and on none where every segment is farther away than that.
  pub identify_from_gps_lem :
      (available_roads : List (Segment Place Road))
      → ((identify_from_gps distance max_snap_distance location available_roads ≡ none)
          × All (λ s. max_snap_distance < away s) available_roads)
        ⊎ ((least : ℕ) × (road : Road) × (identify_from_gps distance max_snap_distance location
                available_roads
              ≡ some road)
            × IsNearest available_roads least road)
  unfolding identify_from_gps
  identify_from_gps_lem available_roads =
      answer (closest distance max_snap_distance location available_roads none)
        (closest-Best available_roads [] none tt)
    where
      answer :
          (o : Option (ℕ × Road))
          → Best available_roads o
          → ((road_in distance max_snap_distance o ≡ none)
              × All (λ s. max_snap_distance < away s) available_roads)
            ⊎ ((least : ℕ) × (road : Road) × (road_in distance max_snap_distance o ≡ some road)
                × IsNearest available_roads least road)
      answer none h = inl (refl, h)
      answer (some (least, road)) h = inr (least, road, refl, h)
