-- ===== src/Orders/Nearest.antt =====
-- The package that an order is given is a nearest one of the free packages within reach.
use warehouse_digital_twin.Base.{
  ℕ, suc, ◌+◌, ◌≡◌, refl, ◌∙◌, ◌⊎◌, inl, inr, Bool, true, false, ◌&&◌, Option, none, some, List, [],
  ◌∷◌, arith, Bool-cases, and_right, get_elem?, All, subst, ap,
}
use warehouse_digital_twin.Base.Float.{Float}
use warehouse_digital_twin.Fleet.State.{Point}
use warehouse_digital_twin.Orders.{Package, is_free, distance_to, nearest_from, nearest_free}

-- The order of floating point numbers, NaN included.
pub record LessThan (fl : Float) : Type 0 where
  pub irrefl : (a : fl.F) → fl.ltb_f a a ≡ false
  pub trans : (a b c : fl.F) → fl.ltb_f a b ≡ true → fl.ltb_f b c ≡ true → fl.ltb_f a c ≡ true

and_false : (b x y : Bool) → (b && x) ≡ false → (x ≡ false → y ≡ false) → (b && y) ≡ false
and_false true x y h f = f h
and_false false x y h f = refl

and_zero : (b : Bool) → (b && false) ≡ false
and_zero true = refl
and_zero false = refl

and_true : (b x y : Bool) → (b && x) ≡ true → (x ≡ true → y ≡ true) → (b && y) ≡ true
and_true true x y h f = f h
and_true false x y h f = absurd (cc h)

module _ (fl : Float) (pickup : Point fl.F) where
  open fl use {F, ltb_f}

  -- A free package at less than the distance `d`.
  abbrev pub within : F → Package F → Bool
  within d q = is_free q.status && ltb_f (distance_to fl pickup q) d

module _ (fl : Float) (order : LessThan fl) (pickup : Point fl.F) where
  open fl use {F, ltb_f}

  below : (c b a : F) → ltb_f c b ≡ true → ltb_f a b ≡ false → ltb_f a c ≡ false
  below c b a cb ab = elim (Bool-cases (ltb_f a c)) [
    | inl ac ↦ absurd (cc (order.trans a c b ac cb, ab))
    | inr no_less ↦ no_less
  ]

  moved :
      (m n : ℕ) (q : Package F)
      → m ≡ n
      → ◌≡◌ {A = Option (ℕ × Package F) × F}
          (some (m, q), distance_to fl pickup q)
          (some (n, q), distance_to fl pickup q)
  moved m n q e = ap (λ k. (some (k, q), distance_to fl pickup q)) e

  -- The scan keeps what it was given, or finds a package within its bound; in both cases nothing is
  -- within the bound it ends with.
  pub record Scan (i : ℕ) (ps : List (Package F)) (acc out : Option (ℕ × Package F) × F)
      : Type 0 where
    pub nearest : All (λ q. within fl pickup out.1 q ≡ false) ps
    pub lower : (a : F) → ltb_f a acc.1 ≡ false → ltb_f a out.1 ≡ false
    pub outcome :
        (out ≡ acc)
        ⊎ ((j : ℕ) × (p : Package F) × (out ≡ (some (i + j, p), distance_to fl pickup p))
            × (get_elem? ps j ≡ some p)
            × (within fl pickup acc.1 p ≡ true))

  nearest_from-Scan :
      (i : ℕ) (ps : List (Package F)) (acc : Option (ℕ × Package F) × F)
      → Scan i ps acc (nearest_from fl pickup i ps acc)
  unfolding nearest_from get_elem?
  nearest_from-Scan i [] acc = record { nearest = tt; lower = λ a h. h; outcome = inl refl }
  nearest_from-Scan i (p ∷ ps) acc = elim (Bool-cases (within fl pickup acc.1 p)) [
    | inr far ↦
        let v = nearest_from-Scan (suc i) ps acc in
        rw (far, nearest_from)
          (record {
            nearest = (
              and_false (is_free p.status) _ _ far (v.lower (distance_to fl pickup p)),
              v.nearest,
            );
            lower = v.lower;
            outcome = elim v.outcome [
              | inl same ↦ inl same
              | inr (j, q, e, at, w) ↦
                  inr (suc j, q, e ∙ moved (suc i + j) (i + suc j) q (omega arith), at, w)
            ];
          })
    | inl near ↦
        let d = distance_to fl pickup p in
        let v = nearest_from-Scan (suc i) ps (some (i, p), d) in
        rw (near, nearest_from)
          (record {
            nearest = (
              and_false (is_free p.status) false _ (and_zero (is_free p.status))
                  (λ _. v.lower d (order.irrefl d)),
              v.nearest,
            );
            lower = λ a h. v.lower a (below d acc.1 a (and_right (is_free p.status) _ near) h);
            outcome = elim v.outcome [
              | inl same ↦ inr (0, p, same ∙ moved i (i + 0) p (omega arith), refl, near)
              | inr (j, q, e, at, w) ↦ inr (
                suc j,
                q,
                e ∙ moved (suc i + j) (i + suc j) q (omega arith),
                at,
                and_true (is_free q.status) _ _ w
                    (λ lt. order.trans _ d acc.1 lt (and_right (is_free p.status) _ near)),
              )
            ];
          })
  ]

  -- `nearest_free` gives no package, and then no free package is nearer than `max_dist`; or it gives
  -- a free package of the inventory that is nearer than `max_dist`, and no free package is nearer
  -- than it. The order `<` of floating point numbers is irreflexive and transitive (`LessThan`).
  pub nearest_free_lem :
      (max_dist : F) (ps : List (Package F))
      → ((nearest_free fl pickup max_dist ps ≡ none)
          × All (λ q. within fl pickup max_dist q ≡ false) ps)
        ⊎ ((j : ℕ) × (p : Package F) × (nearest_free fl pickup max_dist ps ≡ some (j, p))
            × (get_elem? ps j ≡ some p)
            × (within fl pickup max_dist p ≡ true)
            × All (λ q. within fl pickup (distance_to fl pickup p) q ≡ false) ps)
  unfolding nearest_free
  nearest_free_lem max_dist ps =
      let v = nearest_from-Scan 0 ps (none, max_dist) in
      elim v.outcome [
        | inl same ↦ inl (
          ap (λ o. o.0) same,
          subst (λ o. All (λ q. within fl pickup o.1 q ≡ false) ps) same v.nearest,
        )
        | inr (j, p, e, at, w) ↦
            let e' = e ∙ moved (0 + j) j p (omega arith) in
            inr (
              j,
              p,
              ap (λ o. o.0) e',
              at,
              w,
              subst (λ o. All (λ q. within fl pickup o.1 q ≡ false) ps) e' v.nearest,
            )
      ]
