-- ===== src/Common/WorkerHistory/Refines.antt =====
-- The tiers as ring buffers refine tiers as lists of points: what `appendToTier` promises.
use nodejs_pool.Prelude.{
  ℕ, ◌≤◌, ◌<◌, ◌≡◌, refl, sym, ap, ◌∙◌, Bool, true, false, List, [], ◌∷◌, ◌++◌, ◌==◌, length, take,
  drop, arith, All, map,
}
use nodejs_pool.Common.WorkerHistory.{
  Point, Tier, tabulate, get_point, drop_oldest_points, push_point, summary, compact_oldest_bucket,
  append_to_tier, make_room, hand_on,
}
use nodejs_pool.Common.WorkerHistory.Ring.{
  IsRing, contents, push_point-IsRing, contents-push_point, drop_oldest_points-IsRing,
  contents-drop_oldest_points, length-tabulate, take-tabulate,
}

module _ {H : Type 0} (blank : Point H) (average : List H → H) where
  abbrev room_spec : List (Point H) → Bool → List (Point H)
  room_spec ps true = drop 1 ps
  room_spec ps false = ps

  abbrev hand_on_spec :
      ℕ
      → ℕ
      → List (Point H)
      → Point H
      → List (ℕ × List (Point H))
      → List (ℕ × List (Point H))
      → Bool
      → List (ℕ × List (Point H))
  hand_on_spec c ratio ps p below below' true = (c, drop ratio ps ++ p ∷ []) ∷ below'
  hand_on_spec c ratio ps p below below' false = (c, ps ++ p ∷ []) ∷ below

  -- The promise: a tier takes the point at its end; a full one first makes room, the last by
  -- forgetting its oldest point, the others by handing the summary of their oldest bucket on.
  unfoldable pub append_spec : ℕ → List (ℕ × List (Point H)) → Point H → List (ℕ × List (Point H))
  append_spec ratio [] p = []
  append_spec ratio ((c, ps) ∷ []) p = (c, room_spec ps (length ps == c) ++ p ∷ []) ∷ []
  append_spec ratio ((c, ps) ∷ u ∷ us) p =
      let below' = append_spec ratio (u ∷ us) (summary blank average (take ratio ps)) in
      hand_on_spec c ratio ps p (u ∷ us) below' (length ps == c)

  abbrev pub points_of : List (ℕ × Tier H) → List (ℕ × List (Point H))
  points_of = map (λ e. (e.0, contents blank e.0 e.1))

  -- Every tier is a ring, and holds a bucket when it is full.
  abbrev pub IsTiered : ℕ → List (ℕ × Tier H) → Type 0
  IsTiered ratio = All (λ e. (1 ≤ e.0) × (ratio ≤ e.0) × IsRing blank e.0 e.1)

  dropped_size :
      (c n : ℕ) (t : Tier H)
      → t.size ≡ c
      → 1 ≤ n
      → 1 ≤ c
      → n ≤ c
      → (drop_oldest_points blank c n t).size < c
  unfolding drop_oldest_points
  dropped_size c n t e h k l = ground arith

  -- A full tier that makes room and takes a point.
  replaced :
      (c n : ℕ) (t : Tier H) (p : Point H)
      → IsRing blank c t
      → t.size ≡ c
      → 1 ≤ n
      → 1 ≤ c
      → n ≤ c
      → contents blank c (push_point blank c (drop_oldest_points blank c n t) p)
        ≡ drop n (contents blank c t) ++ p ∷ []
  replaced c n t p r e h k l =
      contents-push_point blank c (drop_oldest_points blank c n t) p
        (drop_oldest_points-IsRing blank c n t r) (dropped_size c n t e h k l)
      ∙ ap (λ ps. ps ++ p ∷ []) (contents-drop_oldest_points blank c n t r (omega arith))

  bucket_lem :
      (c n : ℕ) (t : Tier H)
      → n ≤ t.size
      → tabulate n (get_point blank c t) ≡ take n (contents blank c t)
  bucket_lem c n t h = sym (take-tabulate n t.size (get_point blank c t) h)

  length-contents : (c : ℕ) (t : Tier H) → length (contents blank c t) ≡ t.size
  length-contents c t = length-tabulate t.size (get_point blank c t)

  room_lem :
      (b : Bool) (c : ℕ) (t : Tier H) (p : Point H)
      → (t.size == c) ≡ b
      → 1 ≤ c
      → IsRing blank c t
      → contents blank c (push_point blank c (make_room blank average c t b) p)
        ≡ room_spec (contents blank c t) b ++ p ∷ []
  room_lem true c t p e k r = replaced c 1 t p r (ground arith) (omega arith) k k
  room_lem false c t p e k r = contents-push_point blank c t p r (ground (arith, r.fits))

  hand_on_lem :
      (b : Bool) (c ratio : ℕ) (t : Tier H) (p : Point H) (below below' : List (ℕ × Tier H))
      (promised : List (ℕ × List (Point H)))
      → (t.size == c) ≡ b
      → 1 ≤ ratio
      → 1 ≤ c
      → ratio ≤ c
      → IsRing blank c t
      → (b ≡ true → points_of below' ≡ promised)
      → points_of (hand_on blank average c ratio t p below below' b)
        ≡ hand_on_spec c ratio (contents blank c t) p (points_of below) promised b
  unfolding compact_oldest_bucket
  hand_on_lem true c ratio t p below below' promised e h k l r same =
      ap (λ ps. (c, ps) ∷ points_of below') (replaced c ratio t p r (ground arith) h k l)
      ∙ ap (◌∷◌ (c, drop ratio (contents blank c t) ++ p ∷ [])) (same refl)
  hand_on_lem false c ratio t p below below' promised e h k l r same =
      ap (λ ps. (c, ps) ∷ points_of below)
        (contents-push_point blank c t p r (ground (arith, r.fits)))

  -- If the bucket has a point at least and every tier is a ring of at least a bucket, appending a
  -- point to the ring buffers does to their points what the promise says.
  pub append_to_tier-append_spec :
      (ratio : ℕ) (ts : List (ℕ × Tier H)) (p : Point H)
      → 1 ≤ ratio
      → IsTiered ratio ts
      → points_of (append_to_tier blank average ratio ts p) ≡ append_spec ratio (points_of ts) p
  unfolding append_to_tier append_spec compact_oldest_bucket
  append_to_tier-append_spec ratio [] p h v = refl
  append_to_tier-append_spec ratio ((c, t) ∷ []) p h ((k, l, r), v) =
      rw (length-contents c t) (ap (λ ps. (c, ps) ∷ []) (room_lem (t.size == c) c t p refl k r))
  append_to_tier-append_spec ratio ((c, t) ∷ u ∷ ts) p h ((k, l, r), v) = rw (length-contents c t) (
      hand_on_lem (t.size == c) c ratio t p (u ∷ ts) _ _ refl h k l r (λ e.
        append_to_tier-append_spec ratio (u ∷ ts)
          (summary blank average (tabulate ratio (get_point blank c t))) h v
        ∙ ap (λ ps. append_spec ratio (points_of (u ∷ ts)) (summary blank average ps))
            (bucket_lem c ratio t (ground arith))))

  make_room-IsRing :
      (b : Bool) (c : ℕ) (t : Tier H)
      → (t.size == c) ≡ b
      → 1 ≤ c
      → IsRing blank c t
      → IsRing blank c (make_room blank average c t b) × ((make_room blank average c t b).size < c)
  make_room-IsRing true c t e k r =
      (drop_oldest_points-IsRing blank c 1 t r, dropped_size c 1 t (ground arith) (omega arith) k k)
  make_room-IsRing false c t e k r = (r, ground (arith, r.fits))

  hand_on-IsTiered :
      (b : Bool) (c ratio : ℕ) (t : Tier H) (p : Point H) (below below' : List (ℕ × Tier H))
      → (t.size == c) ≡ b
      → 1 ≤ ratio
      → 1 ≤ c
      → ratio ≤ c
      → IsRing blank c t
      → IsTiered ratio below
      → IsTiered ratio below'
      → IsTiered ratio (hand_on blank average c ratio t p below below' b)
  unfolding compact_oldest_bucket
  hand_on-IsTiered true c ratio t p below below' e h k l r v v' = (
    (
      k,
      l,
      push_point-IsRing blank c (drop_oldest_points blank c ratio t) p
          (drop_oldest_points-IsRing blank c ratio t r)
          (dropped_size c ratio t (ground arith) h k l),
    ),
    v',
  )
  hand_on-IsTiered false c ratio t p below below' e h k l r v v' =
      ((k, l, push_point-IsRing blank c t p r (ground (arith, r.fits))), v)

  -- If the bucket has a point at least, appending a point keeps every tier a ring of at least a
  -- bucket: no head and no size leaves its capacity.
  pub append_to_tier-IsTiered :
      (ratio : ℕ) (ts : List (ℕ × Tier H)) (p : Point H)
      → 1 ≤ ratio
      → IsTiered ratio ts
      → IsTiered ratio (append_to_tier blank average ratio ts p)
  unfolding append_to_tier
  append_to_tier-IsTiered ratio [] p h v = v
  append_to_tier-IsTiered ratio ((c, t) ∷ []) p h ((k, l, r), v) =
      let (ring, room) = make_room-IsRing (t.size == c) c t refl k r in
      ((k, l, push_point-IsRing blank c (make_room blank average c t (t.size == c)) p ring room), v)
  append_to_tier-IsTiered ratio ((c, t) ∷ u ∷ ts) p h ((k, l, r), v) =
      hand_on-IsTiered (t.size == c) c ratio t p (u ∷ ts) _ refl h k l r v
        (append_to_tier-IsTiered ratio (u ∷ ts) _ h v)
