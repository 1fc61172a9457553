-- ===== src/Planner/Search/Complete.antt =====
-- A search that finds no path shows that there is none: every cell that was reached has been
-- expanded, with all its drivable neighbours reached.
use warehouse_digital_twin.Base.{
  ℕ, zero, suc, ◌≡◌, refl, sym, ◌≢◌, ◌⊎◌, inl, inr, true, false, ◌&&◌, Option, none, some, List, [],
  ◌∷◌, Bool-cases, Option-cases, List-cases, is_some, In, All, All-map, if_pos, if_neg, subst,
}
use warehouse_digital_twin.Base.Dict.{Dict, get, set, get-set_self, get-set_other}
use warehouse_digital_twin.Base.Float.{Float}
use warehouse_digital_twin.Base.Int.{ℤ}
use warehouse_digital_twin.Base.Sort.Laws.{All-take_max}
use warehouse_digital_twin.Fleet.State.{Cell, cell_dec}
use warehouse_digital_twin.Planner.{GridMap, Move, moves, moved, is_cell, drivable}
use warehouse_digital_twin.Planner.Search.{
  Entry, Search, no_path, no_route, cost, score, entry_ltb, pop_least, record_way, relax, relax_all,
  expand, search, trace, started, find_path,
}
use warehouse_digital_twin.Planner.Search.Ways.{Costs, Inv, expanded, expand-Inv}
use warehouse_digital_twin.Planner.Search.Sound.{
  Outcome-cases, Follows, IsPath, started-Inv, popped,
}

is_cell_self : (a b : Cell) → a ≡ b → is_cell a b ≡ true
is_cell_self a b e = if_pos (cell_dec a b) e true false

module _ (fl : Float) (costs : Costs fl) (m : GridMap fl.F) (inflation : ℤ)
    (start goal : Cell) where
  open fl use {F, lit, ltb_f, add, inf}

  abbrev pub Scored : Search F → Cell → Type 0
  Scored s c = is_some (get cell_dec c s.g_score) ≡ true

  abbrev Queued : Cell → List (Entry F) → Type 0
  Queued c [] = ⊥
  Queued c (e ∷ es) = (e.cell ≡ c) ⊎ Queued c es

  -- A cell whose drivable neighbours are all reached.
  abbrev Done : Search F → Cell → Type 0
  Done s c =
      (c ≢ goal)
      × ((d : Move) → In d moves → drivable m inflation (moved c d) ≡ true → Scored s (moved c d))

  abbrev Closed : Search F → Type 0
  Closed s = (c : Cell) → Scored s c → Queued c s.frontier ⊎ Done s c

  -- What a relaxed state keeps of an earlier one: scores, and queued or done cells.
  record Grows (s s' : Search F) : Type 0 where
    scores : (c : Cell) → Scored s c → Scored s' c
    queue : (c : Cell) → Queued c s.frontier → Queued c s'.frontier
    fresh : (c : Cell) → Scored s' c → Scored s c ⊎ Queued c s'.frontier

  Grows-refl : (s : Search F) → Grows s s
  Grows-refl s = record { scores = λ c h. h; queue = λ c h. h; fresh = λ c h. inl h }

  Grows-trans : (s t u : Search F) → Grows s t → Grows t u → Grows s u
  Grows-trans s t u a b = record {
    scores = λ c h. b.scores c (a.scores c h);
    queue = λ c h. b.queue c (a.queue c h);
    fresh = λ c h. elim (b.fresh c h) [
      | inr q ↦ inr q
      | inl before ↦ elim (a.fresh c before) [ inl old ↦ inl old | inr q ↦ inr (b.queue c q) ]
    ];
  }

  record_way-Grows :
      (from n : Cell) (tg : F) (s : Search F) → Grows s (record_way fl goal from n tg s)
  unfolding record_way
  record_way-Grows from n tg s = record {
    scores = λ c h. elim (cell_dec n c) [
      | yes e ↦
          subst (λ k. is_some (get cell_dec k (set cell_dec n tg s.g_score)) ≡ true) e
            (rw (get-set_self cell_dec n tg s.g_score) refl)
      | no other ↦ rw (get-set_other cell_dec n c tg s.g_score other) h
    ];
    queue = λ c h. inr h;
    fresh = λ c h. elim (cell_dec n c) [
      | yes e ↦ inr (inl e)
      | no other ↦ inl (rw (get-set_other cell_dec n c tg s.g_score other) at h)
    ];
  }

  record_way-Scored :
      (from n : Cell) (tg : F) (s : Search F) → Scored (record_way fl goal from n tg s) n
  unfolding record_way
  record_way-Scored from n tg s = rw (get-set_self cell_dec n tg s.g_score) refl

  relax-Grows :
      (from : Cell) (cg : F) (d : Move) (s : Search F)
      → Grows s (relax fl m inflation goal from cg d s)
  unfolding relax
  relax-Grows from cg d s =
      elim (Bool-cases (
        drivable m inflation (moved from d)
        && ltb_f (add cg (cost fl d)) (score fl (moved from d) s.g_score))) [
          | inl better ↦
              rw (better, relax) (record_way-Grows from (moved from d) (add cg (cost fl d)) s)
          | inr keep ↦ rw (keep, relax) (Grows-refl s)
        ]

  -- A drivable neighbour is scored once its move is relaxed, since a cost is less than infinity.
  relax-Scored :
      (from : Cell) (cg : F) (d : Move) (s : Search F)
      → ltb_f cg inf ≡ true
      → drivable m inflation (moved from d) ≡ true
      → Scored (relax fl m inflation goal from cg d s) (moved from d)
  unfolding relax score
  relax-Scored from cg d s finite clear =
      elim (Option-cases (get cell_dec (moved from d) s.g_score)) [
        | inr (x, known) ↦ (relax-Grows from cg d s).scores (moved from d) (rw known refl)
        | inl unknown ↦
            rw (clear, unknown, costs.add_lt_inf cg d finite, relax, score)
              (record_way-Scored from (moved from d) (add cg (cost fl d)) s)
      ]

  relax_all-Grows :
      (from : Cell) (cg : F) (ds : List Move) (s : Search F)
      → Grows s (relax_all fl m inflation goal from cg ds s)
  unfolding relax_all
  relax_all-Grows from cg [] s = Grows-refl s
  relax_all-Grows from cg (d ∷ ds) s =
      Grows-trans s (relax fl m inflation goal from cg d s) _ (relax-Grows from cg d s)
        (relax_all-Grows from cg ds (relax fl m inflation goal from cg d s))

  relax_all-Scored :
      (from : Cell) (cg : F) (ds : List Move) (s : Search F)
      → ltb_f cg inf ≡ true
      → (d : Move) → In d ds
      → drivable m inflation (moved from d) ≡ true
      → Scored (relax_all fl m inflation goal from cg ds s) (moved from d)
  unfolding relax_all
  relax_all-Scored from cg [] s finite d mem clear = absurd mem
  relax_all-Scored from cg (k ∷ ds) s finite d (inl e) clear =
      (relax_all-Grows from cg ds (relax fl m inflation goal from cg k s)).scores (moved from d) (
        subst (λ x. Scored (relax fl m inflation goal from cg x s) (moved from d)) e
          (relax-Scored from cg d s finite clear))
  relax_all-Scored from cg (k ∷ ds) s finite d (inr mem) clear =
      relax_all-Scored from cg ds (relax fl m inflation goal from cg k s) finite d mem clear

  Queued-All :
      (c : Cell) (R : Type 0) (es : List (Entry F)) → All (λ e. e.cell ≡ c → R) es → Queued c es → R
  Queued-All c R [] a q = absurd q
  Queued-All c R (e ∷ es) a (inl here) = a.0 here
  Queued-All c R (e ∷ es) a (inr q) = Queued-All c R es a.1 q

  All-Queued : (c : Cell) (es : List (Entry F)) → All (λ e. e.cell ≡ c → Queued c es) es
  All-Queued c [] = tt
  All-Queued c (e ∷ es) = (λ here. inl here, All-map es (λ x f at. inr (f at)) (All-Queued c es))

  Queued-pop :
      (c : Cell) (e : Entry F) (es : List (Entry F))
      → Queued c (e ∷ es)
      → ((pop_least fl e es).0.cell ≡ c) ⊎ Queued c (pop_least fl e es).1
  unfolding pop_least
  Queued-pop c e es q =
      let best = (pop_least fl e es).0.cell in
      let rest = (pop_least fl e es).1 in
      let R = (best ≡ c) ⊎ Queued c rest in
      Queued-All c R (e ∷ es)
        (All-take_max (λ a b. entry_ltb fl b a) (λ (x : Entry F). x.cell ≡ c → R) e es
          (λ here. inl here, All-map rest (λ x f at. inr (f at)) (All-Queued c rest)))
        q

  -- A round leaves each scored cell queued or done.
  expand-Closed :
      (s : Search F) (e : Entry F) (es : List (Entry F))
      → s.frontier ≡ e ∷ es
      → Inv fl costs m inflation start s
      → is_cell (pop_least fl e es).0.cell goal ≡ false
      → Closed s
      → Closed (
          expand fl m inflation goal
            (pop_least fl e es).0.cell
            (record s { frontier = (pop_least fl e es).1 }))
  unfolding expand
  expand-Closed s e es front inv other closed c scored =
      let best = (pop_least fl e es).0.cell in
      let s' = record s { frontier = (pop_least fl e es).1 } in
      let (known, inv') = popped fl costs m inflation start s e es front inv in
      let x = expanded fl costs m inflation start s' best inv' known in
      let cg = score fl best s.g_score in
      let grows = relax_all-Grows best cg moves s' in
      elim (grows.fresh c scored) [
        | inr q ↦ inl q
        | inl old ↦ elim (closed c old) [
          | inr (not_goal, reach) ↦
              inr (not_goal, λ d mem clear. grows.scores (moved c d) (reach d mem clear))
          | inl q ↦ elim (Queued-pop c e es (subst (Queued c) front q)) [
            | inr waits ↦ inl (grows.queue c waits)
            | inl here ↦ inr (
                subst (Done (expand fl m inflation goal best s')) here (
                  λ at. cc (is_cell_self best goal at, other),
                  λ d mem clear.
                      relax_all-Scored best cg moves s' (inv'.scored best cg x.at_from).1 d mem
                        clear,
                ))
          ]
        ]
      ]

  expand-Scored :
      (best : Cell) (s : Search F) (c : Cell)
      → Scored s c
      → Scored (expand fl m inflation goal best s) c
  unfolding expand
  expand-Scored best s c h = (relax_all-Grows best (score fl best s.g_score) moves s).scores c h

  -- What a search without a path ends with.
  record Exhausted (t : Search F) : Type 0 where
    begun : Scored t start
    closed : (c : Cell) → Scored t c → Done t c

  search-Exhausted :
      (fuel : ℕ) (s : Search F)
      → Inv fl costs m inflation start s
      → Scored s start
      → Closed s
      → search fl m inflation goal fuel s ≡ no_path
      → (t : Search F) × Exhausted t
  unfolding search
  search-Exhausted zero s inv begun closed h = absurd (cc h)
  search-Exhausted (suc fuel) s inv begun closed h = elim (List-cases s.frontier) [
    | inl empty ↦ (
      s,
      record {
        begun = begun;
        closed = λ c k. elim (closed c k) [
          | inl q ↦ absurd (subst (Queued c) empty q)
          | inr done ↦ done
        ];
      },
    )
    | inr (e, es, front) ↦
        let best = (pop_least fl e es).0.cell in
        let s' = record s { frontier = (pop_least fl e es).1 } in
        let (known, inv') = popped fl costs m inflation start s e es front inv in
        elim (Bool-cases (is_cell best goal)) [
          | inl here ↦ absurd (cc (rw (front, here, search) at h))
          | inr other ↦
              search-Exhausted fuel (expand fl m inflation goal best s')
                (expand-Inv fl costs m inflation start goal best s' inv' known)
                (expand-Scored best s' start begun) (expand-Closed s e es front inv other closed)
                (rw (front, other, search) at h)
        ]
  ]

  Follows-Done :
      (t : Search F) (c : Cell) (cs : List Cell)
      → Exhausted t
      → Scored t c
      → Follows start goal (drivable m inflation) c cs
      → ⊥
  Follows-Done t c [] x known here = (x.closed c known).0 here
  Follows-Done t c (k ∷ cs) x known ((d, mem, e), clear, tail) =
      Follows-Done t k cs x
        (subst (Scored t) e
          ((x.closed c known).1 d mem (subst (λ n. drivable m inflation n ≡ true) (sym e) clear)))
        tail

  started-Scored : Scored (started fl start) start
  unfolding started get
  started-Scored = rw (if_pos (cell_dec start start) refl) refl

  started-Closed : Closed (started fl start)
  unfolding started get
  started-Closed c h = elim (cell_dec start c) [
    | yes e ↦ inl (inl e)
    | no n ↦ absurd (cc (rw (if_neg _ n) at h))
  ]

  trace-ne :
      (fuel : ℕ) (came : Dict Cell (Option Cell)) (path : List Cell) (c : Cell)
      → trace fuel came path c ≢ no_route
  unfolding trace
  trace-ne zero came path c h = cc h
  trace-ne (suc fuel) came path c h = elim (Option-cases (get cell_dec c came)) [
    | inl e ↦ cc (rw (e, trace) at h)
    | inr (none, e) ↦ cc (rw (e, trace) at h)
    | inr (some p, e) ↦ trace-ne fuel came (c ∷ path) p (rw (e, trace) at h)
  ]

  unfound :
      (fuel : ℕ)
      → find_path fl m inflation start goal fuel ≡ no_route
      → search fl m inflation goal fuel (started fl start) ≡ no_path
  unfolding find_path
  unfound fuel h = elim (Outcome-cases (search fl m inflation goal fuel (started fl start))) [
    | inl (t, ends) ↦ absurd (trace-ne fuel t.came_from [] goal (rw (ends, find_path) at h))
    | inr (inl ends) ↦ ends
    | inr (inr ends) ↦ absurd (cc (rw (ends, find_path) at h))
  ]

  -- When `find_path` says that there is no path, no sequence of moves over drivable cells leads from
  -- the start to the goal, for an arithmetic with the facts of `Costs`.
  pub find_path-no_route :
      (fuel : ℕ) (cells : List Cell)
      → find_path fl m inflation start goal fuel ≡ no_route
      → ¬ IsPath start goal (drivable m inflation) cells
  unfolding find_path
  find_path-no_route fuel [] h path = path
  find_path-no_route fuel (c ∷ cs) h (at_start, clear, tail) =
      let (t, x) =
        search-Exhausted fuel (started fl start) (started-Inv fl costs m inflation start)
          started-Scored started-Closed (unfound fuel h) in
      Follows-Done t c cs x (subst (Scored t) (sym at_start) x.begun) tail
