-- ===== src/Planner/Search/Ends.antt =====
-- The search ends: each round that lowers no score takes an entry from the heap, and the scores,
-- of which there are as many as cells of the grid, cannot fall for ever.
use warehouse_digital_twin.Base.{
  ℕ, zero, suc, ◌+◌, ◌≤◌, ◌≡◌, refl, sym, ◌∙◌, ◌≢◌, ◌⊎◌, inl, inr, true, ◌&&◌, Option, List, [],
  ◌∷◌, map, length, arith, Bool-cases, Option-cases, List-cases, is_some, In, All, subst, ap,
  and_left, and_right,
}
use warehouse_digital_twin.Base.Dict.{Dict, get, set, get-set_self, get-set_other}
use warehouse_digital_twin.Base.Float.{Float}
use warehouse_digital_twin.Base.Int.{ℤ, pos, negsuc}
use warehouse_digital_twin.Base.Sort.Laws.{length-take_max}
use warehouse_digital_twin.Fleet.State.{Cell, cell_dec}
use warehouse_digital_twin.Planner.{GridMap, Move, moves, moved, is_cell, in_bounds, drivable}
use warehouse_digital_twin.Planner.Search.{
  Entry, Search, Outcome, reached, no_path, out_of_fuel, Route, route, no_route, stopped, cost,
  score, pop_least, record_way, relax, relax_all, expand, search, trace, started, find_path,
}
use warehouse_digital_twin.Planner.Search.Ways.{Costs, Way, root, step, Inv, expanded, expand-Inv}
use warehouse_digital_twin.Planner.Search.Sound.{
  some_of, started-Inv, popped, search-reached, IsPath, find_path-IsPath,
}
use warehouse_digital_twin.Planner.Search.Complete.{find_path-no_route}
use warehouse_digital_twin.Planner.Search.Falling.{
  grid_cells, In-grid_cells, Lower, Lower-trans, Acc-some, Acc-none, Falls, Acc-Falls,
}
use mathlib.Core.WellFounded.{Acc}

Route-cases :
    (r : Route) → ((cells : List Cell) × (r ≡ route cells)) ⊎ (r ≡ no_route) ⊎ (r ≡ stopped)
Route-cases (route cells) = inl (cells, refl)
Route-cases no_route = inr (inl refl)
Route-cases stopped = inr (inr refl)

module _ (fl : Float) (costs : Costs fl) (m : GridMap fl.F) (inflation : ℤ) (start : Cell) where
  open fl use {F, lit, ltb_f, add, inf}

  abbrev cells : List Cell
  cells = grid_cells m.width m.height

  drivable-In : (c : Cell) → drivable m inflation c ≡ true → In c cells
  unfolding drivable in_bounds
  drivable-In (pos a, pos b) h = In-grid_cells a b m.width m.height (ground arith) (ground arith)
  drivable-In (pos a, negsuc b) h = absurd (ground arith)
  drivable-In (negsuc a, j) h = absurd (ground arith)

  abbrev scores : Dict Cell F → List (Option F)
  scores g = map (λ c. get cell_dec c g) cells

  abbrev SameOrLower : Dict Cell F → Dict Cell F → Cell → Type 0
  SameOrLower g g' c =
      (get cell_dec c g' ≡ get cell_dec c g) ⊎ Lower fl costs (get cell_dec c g') (get cell_dec c g)

  -- A later state: no score rises, and the state is the same or some score falls.
  record Drops (s s' : Search F) : Type 0 where
    each : (c : Cell) → SameOrLower s.g_score s'.g_score c
    some_falls :
        (s' ≡ s)
        ⊎ ((c : Cell) × In c cells
            × Lower fl costs (get cell_dec c s'.g_score) (get cell_dec c s.g_score))

  Drops-refl : (s : Search F) → Drops s s
  Drops-refl s = record { each = λ c. inl refl; some_falls = inl refl }

  SameOrLower-trans :
      (f g h : Dict Cell F) (c : Cell) → SameOrLower f g c → SameOrLower g h c → SameOrLower f h c
  SameOrLower-trans f g h c (inl a) (inl b) = inl (b ∙ a)
  SameOrLower-trans f g h c (inl a) (inr b) =
      inr (subst (λ o. Lower fl costs (get cell_dec c h) o) a b)
  SameOrLower-trans f g h c (inr a) (inl b) =
      inr (subst (λ o. Lower fl costs o (get cell_dec c f)) (sym b) a)
  SameOrLower-trans f g h c (inr a) (inr b) =
      inr (Lower-trans fl costs (get cell_dec c h) (get cell_dec c g) (get cell_dec c f) b a)

  Lower-after :
      (f g h : Dict Cell F) (c : Cell)
      → Lower fl costs (get cell_dec c g) (get cell_dec c f)
      → SameOrLower g h c
      → Lower fl costs (get cell_dec c h) (get cell_dec c f)
  Lower-after f g h c a (inl b) = subst (λ o. Lower fl costs o (get cell_dec c f)) (sym b) a
  Lower-after f g h c a (inr b) =
      Lower-trans fl costs (get cell_dec c h) (get cell_dec c g) (get cell_dec c f) b a

  Lower-before :
      (f g h : Dict Cell F) (c : Cell)
      → SameOrLower f g c
      → Lower fl costs (get cell_dec c h) (get cell_dec c g)
      → Lower fl costs (get cell_dec c h) (get cell_dec c f)
  Lower-before f g h c (inl a) b = subst (λ o. Lower fl costs (get cell_dec c h) o) a b
  Lower-before f g h c (inr a) b =
      Lower-trans fl costs (get cell_dec c h) (get cell_dec c g) (get cell_dec c f) b a

  Drops-trans : (s t u : Search F) → Drops s t → Drops t u → Drops s u
  Drops-trans s t u a b = record {
    each = λ c. SameOrLower-trans s.g_score t.g_score u.g_score c (a.each c) (b.each c);
    some_falls = elim b.some_falls [
      | inr (c, mem, low) ↦
          inr (c, mem, Lower-before s.g_score t.g_score u.g_score c (a.each c) low)
      | inl same ↦ elim a.some_falls [
        | inl still ↦ inl (same ∙ still)
        | inr (c, mem, low) ↦
            inr (c, mem, Lower-after s.g_score t.g_score u.g_score c low (b.each c))
      ]
    ];
  }

  record_way-Drops :
      (goal from n : Cell) (tg : F) (s : Search F)
      → In n cells
      → costs.le (lit 0 0) tg
      → ltb_f tg (score fl n s.g_score) ≡ true
      → Drops s (record_way fl goal from n tg s)
  unfolding record_way score
  record_way-Drops goal from n tg s mem positive better =
      let low : Lower fl costs (get cell_dec n (set cell_dec n tg s.g_score))
          (get cell_dec n s.g_score) =
        rw (get-set_self cell_dec n tg s.g_score) (elim (Option-cases (get cell_dec n s.g_score)) [
          | inl e ↦ rw e positive
          | inr (y, e) ↦ rw e (positive, rw (e, score) at better)
        ]) in
      record {
        each = λ c. elim (cell_dec n c) [
          | yes e ↦ inr (
              subst
                (λ k.
                  Lower fl costs (get cell_dec k (set cell_dec n tg s.g_score))
                    (get cell_dec k s.g_score))
                e low)
          | no other ↦ inl (get-set_other cell_dec n c tg s.g_score other)
        ];
        some_falls = inr (n, mem, low);
      }

  Falls-map :
      (g g' : Dict Cell F) (cs : List Cell)
      → ((c : Cell) → SameOrLower g g' c)
      → (map (λ c. get cell_dec c g') cs ≡ map (λ c. get cell_dec c g) cs)
        ⊎ Falls fl costs (map (λ c. get cell_dec c g') cs) (map (λ c. get cell_dec c g) cs)
  Falls-map g g' [] each = inl refl
  Falls-map g g' (c ∷ cs) each = elim (each c) [
    | inr low ↦ inr (inl (low, Falls-map g g' cs each))
    | inl same ↦ elim (Falls-map g g' cs each) [
      | inl rest ↦ inl (cc (same, rest))
      | inr less ↦ inr (inr (same, less))
    ]
  ]

  Falls-strict :
      (g g' : Dict Cell F) (cs : List Cell) (n : Cell)
      → ((c : Cell) → SameOrLower g g' c)
      → In n cs
      → Lower fl costs (get cell_dec n g') (get cell_dec n g)
      → Falls fl costs (map (λ c. get cell_dec c g') cs) (map (λ c. get cell_dec c g) cs)
  Falls-strict g g' [] n each mem low = absurd mem
  Falls-strict g g' (c ∷ cs) n each (inl e) low = inl (
    subst (λ k. Lower fl costs (get cell_dec k g') (get cell_dec k g)) e low,
    Falls-map g g' cs each,
  )
  Falls-strict g g' (c ∷ cs) n each (inr mem) low =
      let less = Falls-strict g g' cs n each mem low in
      elim (each c) [ inr here ↦ inl (here, inr less) | inl same ↦ inr (same, less) ]

  -- A round leaves the state as it is, or lowers the list of scores.
  Drops-Falls :
      (s s' : Search F)
      → Drops s s'
      → (s' ≡ s) ⊎ Falls fl costs (scores s'.g_score) (scores s.g_score)
  Drops-Falls s s' d = elim d.some_falls [
    | inl same ↦ inl same
    | inr (c, mem, low) ↦ inr (Falls-strict s.g_score s'.g_score cells c d.each mem low)
  ]

  relax-Drops :
      (goal from : Cell) (cg : F) (d : Move) (s : Search F)
      → costs.le (lit 0 0) cg
      → Drops s (relax fl m inflation goal from cg d s)
  unfolding relax
  relax-Drops goal from cg d s positive =
      let n = moved from d in
      elim (Bool-cases
        (drivable m inflation n && ltb_f (add cg (cost fl d)) (score fl n s.g_score))) [
          | inr keep ↦ rw (keep, relax) (Drops-refl s)
          | inl better ↦
              rw (better, relax)
                (record_way-Drops goal from n (add cg (cost fl d)) s
                  (drivable-In n (and_left _ _ better))
                  (costs.le_trans (lit 0 0) cg _ positive (costs.le_add cg d))
                  (and_right (drivable m inflation n) _ better))
        ]

  relax_all-Drops :
      (goal from : Cell) (cg : F) (ds : List Move) (s : Search F)
      → costs.le (lit 0 0) cg
      → Drops s (relax_all fl m inflation goal from cg ds s)
  unfolding relax_all
  relax_all-Drops goal from cg [] s positive = Drops-refl s
  relax_all-Drops goal from cg (d ∷ ds) s positive =
      Drops-trans s (relax fl m inflation goal from cg d s) _
        (relax-Drops goal from cg d s positive)
        (relax_all-Drops goal from cg ds (relax fl m inflation goal from cg d s) positive)

  expand-Drops :
      (goal c : Cell) (s : Search F)
      → Inv fl costs m inflation start s
      → is_some (get cell_dec c s.g_score) ≡ true
      → Drops s (expand fl m inflation goal c s)
  unfolding expand
  expand-Drops goal c s inv known =
      let x = expanded fl costs m inflation start s c inv known in
      relax_all-Drops goal c (score fl c s.g_score) moves s (inv.scored c _ x.at_from).0

  length-pop : (e : Entry F) (es : List (Entry F)) → length (pop_least fl e es).1 ≡ length es
  unfolding pop_least
  length-pop e es = length-take_max _ e es

  -- With enough fuel the search has an answer, which more fuel does not change.
  abbrev Ends : (goal : Cell) → Search F → Type 0
  Ends goal s =
      (k : ℕ) × (o : Outcome F) × (o ≢ out_of_fuel)
      × ((fuel : ℕ) → k ≤ fuel → search fl m inflation goal fuel s ≡ o)

  Ends-at_once :
      (goal : Cell) (s : Search F) (o : Outcome F)
      → o ≢ out_of_fuel
      → ((fuel : ℕ) → search fl m inflation goal (suc fuel) s ≡ o)
      → Ends goal s
  Ends-at_once goal s o real h = (1, o, real, from_one)
    where
      from_one : (fuel : ℕ) → 1 ≤ fuel → search fl m inflation goal fuel s ≡ o
      from_one zero le = absurd (omega arith)
      from_one (suc fuel) le = h fuel

  Ends-after :
      (goal : Cell) (s s' : Search F)
      → ((fuel : ℕ) → search fl m inflation goal (suc fuel) s ≡ search fl m inflation goal fuel s')
      → Ends goal s'
      → Ends goal s
  Ends-after goal s s' h (k, o, real, later) = (suc k, o, real, from_next)
    where
      from_next : (fuel : ℕ) → suc k ≤ fuel → search fl m inflation goal fuel s ≡ o
      from_next zero le = absurd (omega arith)
      from_next (suc fuel) le = h fuel ∙ later fuel (omega arith)

  search-Ends :
      (goal : Cell) (xs : List (Option F))
      → Acc (λ ys zs. Falls fl costs ys zs) xs
      → (n : ℕ) (s : Search F) → scores s.g_score ≡ xs
      → length s.frontier ≤ n
      → Inv fl costs m inflation start s
      → Ends goal s
  unfolding search
  search-Ends goal xs (Acc.intro _ below) zero s at_xs short inv = elim (List-cases s.frontier) [
    | inl empty ↦ Ends-at_once goal s no_path (λ h. cc h) (λ fuel. rw (empty, search) refl)
    | inr (e, es, front) ↦ absurd (omega (arith, ap length front))
  ]
  search-Ends goal xs (Acc.intro _ below) (suc n) s at_xs short inv = elim (List-cases s.frontier) [
    | inl empty ↦ Ends-at_once goal s no_path (λ h. cc h) (λ fuel. rw (empty, search) refl)
    | inr (e, es, front) ↦
        let best = (pop_least fl e es).0.cell in
        let s' = record s { frontier = (pop_least fl e es).1 } in
        let (known, inv') = popped fl costs m inflation start s e es front inv in
        let next = expand fl m inflation goal best s' in
        let inv_next = expand-Inv fl costs m inflation start goal best s' inv' known in
        elim (Bool-cases (is_cell best goal)) [
          | inl here ↦
              Ends-at_once goal s (reached s') (λ h. cc h) (λ fuel. rw (front, here, search) refl)
          | inr other ↦
              Ends-after goal s next (λ fuel. rw (front, other, search) refl)
                (elim (Drops-Falls s' next (expand-Drops goal best s' inv' known)) [
                  | inl same ↦
                      subst (λ x. Ends goal x) (sym same)
                        (search-Ends goal xs (Acc.intro xs below) n s' at_xs
                          (omega (arith, length-pop e es, ap length front)) inv')
                  | inr less ↦
                      search-Ends goal (scores next.g_score)
                        (below (scores next.g_score)
                          (subst (λ ys. Falls fl costs (scores next.g_score) ys) at_xs less))
                        (length next.frontier) next refl (omega arith) inv_next
                ])
        ]
  ]

  scores-Acc :
      (s : Search F)
      → Inv fl costs m inflation start s
      → (cs : List Cell)
      → All (λ o. Acc (λ a b. Lower fl costs a b) o) (map (λ c. get cell_dec c s.g_score) cs)
  scores-Acc s inv [] = tt
  scores-Acc s inv (c ∷ cs) = (
    elim (Option-cases (get cell_dec c s.g_score)) [
      | inl e ↦ rw e (Acc-none fl costs)
      | inr (x, e) ↦ rw e (Acc-some fl costs x (costs.falling_ends x (inv.scored c x e).0))
    ],
    scores-Acc s inv cs,
  )

  pub started-Ends : (goal : Cell) → Ends goal (started fl start)
  started-Ends goal =
      let inv = started-Inv fl costs m inflation start in
      search-Ends goal (scores (started fl start).g_score)
        (Acc-Falls fl costs _ (scores-Acc (started fl start) inv cells))
        (length (started fl start).frontier) (started fl start) refl (omega arith) inv

  -- Following the entries of `came_from` back to the start ends.
  trace-ends :
      (came : Dict Cell (Option Cell)) (c : Cell)
      → Way start came c
      → (k : ℕ) × ((fuel : ℕ) (path : List Cell) → k ≤ fuel → trace fuel came path c ≢ stopped)
  unfolding trace
  trace-ends came c (root _ r e) = (1, from_one)
    where
      from_one : (fuel : ℕ) (path : List Cell) → 1 ≤ fuel → trace fuel came path c ≢ stopped
      from_one zero path le h = omega (arith, le)
      from_one (suc fuel) path le h = cc (rw (r, trace) at h)
  trace-ends came c (step _ p r w) = step_back (trace-ends came p w)
    where
      step_back :
          (k : ℕ) × ((fuel : ℕ) (path : List Cell) → k ≤ fuel → trace fuel came path p ≢ stopped)
          → (k : ℕ) × ((fuel : ℕ) (path : List Cell) → k ≤ fuel → trace fuel came path c ≢ stopped)
      step_back (k, later) = (suc k, from_next)
        where
          from_next :
              (fuel : ℕ) (path : List Cell) → suc k ≤ fuel → trace fuel came path c ≢ stopped
          from_next zero path le h = omega (arith, le)
          from_next (suc fuel) path le h = later fuel (c ∷ path) (omega arith) (rw (r, trace) at h)

  Answered : Cell → ℕ → Type 0
  Answered goal k = (fuel : ℕ) → k ≤ fuel → find_path fl m inflation start goal fuel ≢ stopped

  find_path-Answered :
      (goal : Cell) (k : ℕ) (o : Outcome F)
      → o ≢ out_of_fuel
      → ((fuel : ℕ) → k ≤ fuel → search fl m inflation goal fuel (started fl start) ≡ o)
      → (n : ℕ) × Answered goal n
  unfolding Answered find_path
  find_path-Answered goal k out_of_fuel real ends = absurd (real refl)
  find_path-Answered goal k no_path real ends =
      (k, λ fuel le h. cc (rw (ends fuel le, find_path) at h))
  find_path-Answered goal k (reached t) real ends =
      let (inv, known) =
        search-reached fl costs m inflation start goal k (started fl start) t
          (started-Inv fl costs m inflation start) (ends k (omega arith)) in
      let (x, at_goal) = some_of known in
      let (j, back) = trace-ends t.came_from goal (inv.ways goal x at_goal) in
      (
        k + j,
        λ fuel le h.
            back fuel [] (omega (arith, le)) (rw (ends fuel (omega (arith, le)), find_path) at h),
      )

  -- For each start and goal there is an amount of fuel with which, and with more, `find_path` gives
  -- an answer: A* and the walk back end on every grid, for an arithmetic with the facts of `Costs`.
  pub find_path-ends :
      (goal : Cell)
      → (k : ℕ) × ((more : ℕ) → find_path fl m inflation start goal (k + more) ≢ stopped)
  unfolding Answered
  find_path-ends goal =
      let (k, o, real, ends) = started-Ends goal in
      let (n, answers) = find_path-Answered goal k o real ends in
      (n, λ more. answers (n + more) (omega arith))

  -- When some path leads to the goal, `find_path` finds one, given enough fuel, for an
  -- arithmetic with the facts of `Costs`.
  pub find_path-finds :
      (goal : Cell) (cells : List Cell)
      → IsPath start goal (drivable m inflation) cells
      → (k : ℕ) × ((more : ℕ)
          → (found : List Cell) × (find_path fl m inflation start goal (k + more) ≡ route found)
            × IsPath start goal (drivable m inflation) found)
  find_path-finds goal [] path = absurd path
  find_path-finds goal (c ∷ cs) path =
      let (k, answers) = find_path-ends goal in
      (
        k,
        λ more.
            let fuel = k + more in
            elim (Route-cases (find_path fl m inflation start goal fuel)) [
              | inr (inl none_found) ↦
                  absurd (
                    find_path-no_route fl costs m inflation start goal fuel (c ∷ cs) none_found
                      path)
              | inr (inr spent) ↦ absurd (answers more spent)
              | inl (found, e) ↦ (
                found,
                e,
                find_path-IsPath fl costs m inflation start goal fuel found
                    (subst (λ x. drivable m inflation x ≡ true) path.0 path.1) e,
              )
            ],
      )
