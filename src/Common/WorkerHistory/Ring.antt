-- ===== src/Common/WorkerHistory/Ring.antt =====
-- A tier against the list of its points, the oldest first.
use native.Mathlib.Nat.{mod-lt, mod-eq_of_lt, mod-eq-sub-mod, mod-add-mod}
use nodejs_pool.Prelude.{
  ℕ, zero, suc, ◌+◌, ◌-◌, ◌%◌, ◌≤◌, ◌<◌, ◌≡◌, ◌≢◌, refl, sym, ap, subst, ◌∙◌, ◌||◌, List, [], ◌∷◌,
  ◌++◌, ◌==◌, ltb, if◌then◌else◌, length, min, take, drop, arith, Bool-cases, inl, inr,
}
use nodejs_pool.Common.WorkerHistory.{
  Point, Tier, tabulate, read, write, create_empty_tier, get_point, drop_oldest_points, push_point,
}

module _ {A : Type 0} where
  pub length-tabulate : (n : ℕ) (f : ℕ → A) → length (tabulate n f) ≡ n
  length-tabulate zero f = refl
  length-tabulate (suc n) f = ap suc (length-tabulate n (λ i. f (suc i)))

  tabulate_cong :
      (n : ℕ) (f g : ℕ → A) → ((i : ℕ) → i < n → f i ≡ g i) → tabulate n f ≡ tabulate n g
  tabulate_cong zero f g h = refl
  tabulate_cong (suc n) f g h = rw (h 0 (omega arith)) (
      ap (◌∷◌ (g 0))
        (tabulate_cong n (λ i. f (suc i)) (λ i. g (suc i)) (λ i l. h (suc i) (omega arith))))

  tabulate_last : (n : ℕ) (f : ℕ → A) → tabulate (suc n) f ≡ tabulate n f ++ f n ∷ []
  tabulate_last zero f = refl
  tabulate_last (suc n) f = ap (◌∷◌ (f 0)) (tabulate_last n (λ i. f (suc i)))

  pub take-tabulate : (k n : ℕ) (f : ℕ → A) → k ≤ n → take k (tabulate n f) ≡ tabulate k f
  take-tabulate zero n f h = refl
  take-tabulate (suc k) zero f h = absurd (omega arith)
  take-tabulate (suc k) (suc n) f h =
      ap (◌∷◌ (f 0)) (take-tabulate k n (λ i. f (suc i)) (omega arith))

  drop-tabulate :
      (k n : ℕ) (f : ℕ → A) → k ≤ n → drop k (tabulate n f) ≡ tabulate (n - k) (λ i. f (k + i))
  drop-tabulate zero n f h =
      tabulate_cong n f (λ i. f (0 + i)) (λ i l. ap f (omega arith))
      ∙ ap (λ k. tabulate k (λ i. f (0 + i))) (omega arith)
  drop-tabulate (suc k) zero f h = absurd (omega arith)
  drop-tabulate (suc k) (suc n) f h =
      drop-tabulate k n (λ i. f (suc i)) (omega arith)
      ∙ rw (n-suc) (
          tabulate_cong (n - k) (λ i. f (suc (k + i))) (λ i. f (suc k + i))
            (λ i l. ap f (omega arith)))
    where
      n-suc : suc n - suc k ≡ n - k
      n-suc = omega arith

  drop_all : (k : ℕ) (xs : List A) → length xs ≤ k → drop k xs ≡ []
  drop_all zero [] h = refl
  drop_all zero (x ∷ xs) h = absurd (omega arith)
  drop_all (suc k) [] h = refl
  drop_all (suc k) (x ∷ xs) h = drop_all k xs (omega arith)

-- A sum below twice the capacity wraps at most once, so that two offsets have two slots.
mod_wrap : (a c : ℕ) → a < c + c → a % c ≡ (if ltb a c then a else a - c)
mod_wrap a c h = elim (Bool-cases (ltb a c)) [
  | inl e ↦ rw e (mod-eq_of_lt {n = a} {m = c} (ground arith))
  | inr e ↦ rw e (
      mod-eq-sub-mod {n = a} {m = c} (ground arith)
      ∙ mod-eq_of_lt {n = a - c} {m = c} (ground arith))
]

slot_ne : (h i s c : ℕ) → h < c → i < s → s < c → (h + s) % c ≢ (h + i) % c
slot_ne h i s c l k m e = ground (arith, mod_wrap (h + s) c, mod_wrap (h + i) c)

module _ {H : Type 0} (blank : Point H) where
  read-write :
      (i : ℕ) (p : Point H) (ps : List (Point H))
      → i < length ps
      → read blank i (write blank i p ps) ≡ p
  unfolding read write
  read-write i p [] h = absurd (omega arith)
  read-write zero p (q ∷ qs) h = refl
  read-write (suc i) p (q ∷ qs) h = read-write i p qs (omega arith)

  read-write_ne :
      (i j : ℕ) (p : Point H) (ps : List (Point H))
      → i ≢ j
      → read blank j (write blank i p ps) ≡ read blank j ps
  unfolding read write
  read-write_ne i j p [] h = refl
  read-write_ne zero zero p (q ∷ qs) h = absurd (h refl)
  read-write_ne zero (suc j) p (q ∷ qs) h = refl
  read-write_ne (suc i) zero p (q ∷ qs) h = refl
  read-write_ne (suc i) (suc j) p (q ∷ qs) h = read-write_ne i j p qs (λ e. h (ap suc e))

  length-write :
      (i : ℕ) (p : Point H) (ps : List (Point H)) → length (write blank i p ps) ≡ length ps
  unfolding write
  length-write i p [] = refl
  length-write zero p (q ∷ qs) = refl
  length-write (suc i) p (q ∷ qs) = ap suc (length-write i p qs)

  -- A ring of a capacity.
  pub record IsRing (c : ℕ) (t : Tier H) : Type 0 where
    pub in_range : t.head < c
    pub fits : t.size ≤ c
    pub full_buffer : length t.slots ≡ c

  -- The points of a tier, the oldest first.
  abbrev pub contents : ℕ → Tier H → List (Point H)
  contents c t = tabulate t.size (get_point blank c t)

  pub create_empty_tier-IsRing : (c : ℕ) → 0 < c → IsRing c (create_empty_tier blank c)
  unfolding create_empty_tier
  create_empty_tier-IsRing c h = record {
    in_range = h;
    fits = omega arith;
    full_buffer = length-tabulate c (λ _. blank);
  }

  pub push_point-IsRing :
      (c : ℕ) (t : Tier H) (p : Point H)
      → IsRing c t
      → t.size < c
      → IsRing c (push_point blank c t p)
  unfolding push_point
  push_point-IsRing c t p r h = record {
    in_range = r.in_range;
    fits = omega arith;
    full_buffer = length-write ((t.head + t.size) % c) p t.slots ∙ r.full_buffer;
  }

  -- A push into a tier with room adds its point at the end.
  pub contents-push_point :
      (c : ℕ) (t : Tier H) (p : Point H)
      → IsRing c t
      → t.size < c
      → contents c (push_point blank c t p) ≡ contents c t ++ p ∷ []
  unfolding push_point
  contents-push_point c t p r h =
      ap (λ n. tabulate n after) {y = suc t.size} (omega arith)
      ∙ (tabulate_last t.size after
          ∙ (ap (λ xs. xs ++ after t.size ∷ [])
                (tabulate_cong t.size after (get_point blank c t) (λ i l.
                  read-write_ne ((t.head + t.size) % c) ((t.head + i) % c) p t.slots
                    (slot_ne t.head i t.size c r.in_range l h)))
              ∙ ap (λ q. contents c t ++ q ∷ [])
                  (read-write ((t.head + t.size) % c) p t.slots (
                    omega (
                      arith,
                      mod-lt (t.head + t.size) {m = c} (omega (arith, r.in_range)),
                      r.full_buffer,
                    )))))
    where
      after : ℕ → Point H
      after i = read blank ((t.head + i) % c) (write blank ((t.head + t.size) % c) p t.slots)

  pub drop_oldest_points-IsRing :
      (c n : ℕ) (t : Tier H) → IsRing c t → IsRing c (drop_oldest_points blank c n t)
  unfolding drop_oldest_points
  drop_oldest_points-IsRing c n t r = elim (Bool-cases (n == 0 || t.size == 0)) [
    | inl e ↦ rw e r
    | inr e ↦ rw e (record {
      in_range = mod-lt (t.head + min n t.size) {m = c} (omega (arith, r.in_range));
      fits = omega (arith, r.fits);
      full_buffer = r.full_buffer;
    })
  ]

  -- Dropping the oldest points drops from the front.
  pub contents-drop_oldest_points :
      (c n : ℕ) (t : Tier H)
      → IsRing c t
      → n ≤ t.size
      → contents c (drop_oldest_points blank c n t) ≡ drop n (contents c t)
  unfolding drop_oldest_points
  contents-drop_oldest_points c n t r h = elim (Bool-cases (n == 0 || t.size == 0)) [
    | inl e ↦
        rw e (subst (λ k. contents c t ≡ drop k (contents c t)) {x = 0} {y = n} (ground arith) refl)
    | inr e ↦
        rw (e, least)
          (tabulate_cong (t.size - n) (λ i. read blank (((t.head + n) % c + i) % c) t.slots)
              (λ i. get_point blank c t (n + i))
              (λ i l.
                ap (λ k. read blank k t.slots)
                  (mod-add-mod (t.head + n) c i ∙ ap (λ k. k % c) (omega arith)))
            ∙ sym (drop-tabulate n t.size (get_point blank c t) h))
  ]
    where
      least : min n t.size ≡ n
      least = omega arith
