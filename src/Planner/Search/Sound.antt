-- ===== src/Planner/Search/Sound.antt =====
-- A path that is found leads from the start to the goal over drivable cells, move by move.
use warehouse_digital_twin.Base.{
  ℕ, zero, suc, ◌≡◌, refl, sym, ◌⊎◌, inl, inr, Bool, true, Option, none, some, List, [], ◌∷◌,
  Bool-cases, List-cases, is_some, All, if_pos, if_neg, subst,
}
use warehouse_digital_twin.Base.Dict.{Dict, get}
use warehouse_digital_twin.Base.Float.{Float}
use warehouse_digital_twin.Base.Int.{ℤ}
use warehouse_digital_twin.Base.Sort.Laws.{take_max-All}
use warehouse_digital_twin.Fleet.State.{Cell, cell_dec}
use warehouse_digital_twin.Planner.{GridMap, is_cell, is_cell-eq, drivable}
use warehouse_digital_twin.Planner.Search.{
  Entry, Search, Outcome, reached, no_path, out_of_fuel, route, entry_ltb, pop_least, expand,
  search, trace, started, find_path,
}
use warehouse_digital_twin.Planner.Search.Ways.{Costs, NextTo, Way, root, step, Inv, expand-Inv}

pub Outcome-cases :
    {F : Type 0} (o : Outcome F)
    → ((t : Search F) × (o ≡ reached t)) ⊎ (o ≡ no_path) ⊎ (o ≡ out_of_fuel)
Outcome-cases (reached t) = inl (t, refl)
Outcome-cases no_path = inr (inl refl)
Outcome-cases out_of_fuel = inr (inr refl)

route_inj : {a b : List Cell} → route a ≡ route b → a ≡ b
route_inj h = cc h

pub some_of : {A : Type 0} {o : Option A} → is_some o ≡ true → (a : A) × (o ≡ some a)
some_of {o = none} h = absurd (cc h)
some_of {o = some a} h = (a, refl)

module _ (start goal : Cell) (ok : Cell → Bool) where
  -- The cells after `c` lead to the goal, one move after the other.
  abbrev pub Follows : Cell → List Cell → Type 0
  Follows c [] = c ≡ goal
  Follows c (d ∷ ds) = NextTo c d × (ok d ≡ true) × Follows d ds

  -- A path from the start to the goal over cells that are `ok`.
  abbrev pub IsPath : List Cell → Type 0
  IsPath [] = ⊥
  IsPath (c ∷ cs) = (c ≡ start) × (ok c ≡ true) × Follows c cs

module _ (fl : Float) (costs : Costs fl) (m : GridMap fl.F) (inflation : ℤ) (start : Cell) where
  open fl use {F, lit}

  pub started-Inv : Inv fl costs m inflation start (started fl start)
  unfolding started get
  started-Inv = record {
    scored = λ c x found. elim (cell_dec start c) [
      | yes e ↦
          subst (λ z. costs.le (lit 0 0) z × (fl.ltb_f z fl.inf ≡ true))
            (cc (rw (if_pos _ e) at found)) (costs.le_refl (lit 0 0), costs.zero_lt_inf)
      | no n ↦ absurd (cc (rw (if_neg _ n) at found))
    ];
    parents = λ c p found. elim (cell_dec start c) [
      | yes e ↦ absurd (cc (rw (if_pos _ e) at found))
      | no n ↦ absurd (cc (rw (if_neg _ n) at found))
    ];
    ways = λ c x found. elim (cell_dec start c) [
      | yes e ↦ root c (if_pos (cell_dec start c) e (some none) none) (sym e)
      | no n ↦ absurd (cc (rw (if_neg _ n) at found))
    ];
    queued = (rw (if_pos (cell_dec start start) refl) refl, tt);
  }

  -- A round takes a scored cell from the heap.
  pub popped :
      (s : Search F) (e : Entry F) (es : List (Entry F))
      → s.frontier ≡ e ∷ es
      → Inv fl costs m inflation start s
      → (is_some (get cell_dec (pop_least fl e es).0.cell s.g_score) ≡ true)
        × Inv fl costs m inflation start (record s { frontier = (pop_least fl e es).1 })
  unfolding pop_least
  popped s e es at_front inv =
      let q =
        take_max-All (λ a b. entry_ltb fl b a)
          (λ (x : Entry F). is_some (get cell_dec x.cell s.g_score) ≡ true) e es
          (subst (All (λ (x : Entry F). is_some (get cell_dec x.cell s.g_score) ≡ true)) at_front
            inv.queued) in
      (q.0, record { scored = inv.scored; parents = inv.parents; ways = inv.ways; queued = q.1 })

  reached_inj : {a b : Search F} → ◌≡◌ {A = Outcome F} (reached a) (reached b) → a ≡ b
  reached_inj h = cc h

  pub search-reached :
      (goal : Cell) (fuel : ℕ) (s t : Search F)
      → Inv fl costs m inflation start s
      → search fl m inflation goal fuel s ≡ reached t
      → Inv fl costs m inflation start t × (is_some (get cell_dec goal t.g_score) ≡ true)
  unfolding search
  search-reached goal zero s t inv h = absurd (cc h)
  search-reached goal (suc fuel) s t inv h = elim (List-cases s.frontier) [
    | inl empty ↦ absurd (cc (rw (empty, search) at h))
    | inr (e, es, front) ↦
        let (known, inv') = popped s e es front inv in
        let best = (pop_least fl e es).0.cell in
        let s' = record s { frontier = (pop_least fl e es).1 } in
        elim (Bool-cases (is_cell best goal)) [
          | inl here ↦
              let there : is_some (get cell_dec goal s.g_score) ≡ true =
                subst (λ k. is_some (get cell_dec k s.g_score) ≡ true) (is_cell-eq best goal here)
                  known in
              subst
                (λ x.
                  Inv fl costs m inflation start x × (is_some (get cell_dec goal x.g_score) ≡ true))
                (reached_inj (rw (front, here, search) at h)) (inv', there)
          | inr other ↦
              search-reached goal fuel (expand fl m inflation goal best s') t
                (expand-Inv fl costs m inflation start goal best s' inv' known)
                (rw (front, other, search) at h)
        ]
  ]

  trace-IsPath :
      (goal : Cell) (came : Dict Cell (Option Cell)) (fuel : ℕ) (path cells : List Cell) (c : Cell)
      → drivable m inflation start ≡ true
      → ((c p : Cell)
          → get cell_dec c came ≡ some (some p)
          → NextTo p c × (drivable m inflation c ≡ true))
      → Way start came c
      → Follows start goal (drivable m inflation) c path
      → trace fuel came path c ≡ route cells
      → IsPath start goal (drivable m inflation) cells
  unfolding trace
  trace-IsPath goal came zero path cells c clear parents w tail h = absurd (cc h)
  trace-IsPath goal came (suc fuel) path cells c clear parents (root _ r e) tail h =
      subst (IsPath start goal (drivable m inflation)) (route_inj (rw (r, trace) at h))
        (e, subst (λ k. drivable m inflation k ≡ true) (sym e) clear, tail)
  trace-IsPath goal came (suc fuel) path cells c clear parents (step _ p r w) tail h =
      let (next, clear_c) = parents c p r in
      trace-IsPath goal came fuel (c ∷ path) cells p clear parents w (next, clear_c, tail)
        (rw (r, trace) at h)

  -- What `find_path` returns for a drivable start leads from the start to the goal, by moves to
  -- neighbours and over drivable cells only, for an arithmetic with the facts of `Costs`.
  pub find_path-IsPath :
      (goal : Cell) (fuel : ℕ) (cells : List Cell)
      → drivable m inflation start ≡ true
      → find_path fl m inflation start goal fuel ≡ route cells
      → IsPath start goal (drivable m inflation) cells
  unfolding find_path
  find_path-IsPath goal fuel cells clear h =
      elim (Outcome-cases (search fl m inflation goal fuel (started fl start))) [
        | inl (t, ends) ↦
            let (inv, known) = search-reached goal fuel (started fl start) t started-Inv ends in
            let (x, at_goal) = some_of known in
            trace-IsPath goal t.came_from fuel [] cells goal clear
              (λ c p r. let (next, ok, _) = inv.parents c p r in (next, ok))
              (inv.ways goal x at_goal) refl (rw (ends, find_path) at h)
        | inr (inl ends) ↦ absurd (cc (rw (ends, find_path) at h))
        | inr (inr ends) ↦ absurd (cc (rw (ends, find_path) at h))
      ]
