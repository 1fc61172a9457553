-- ===== src/Planner/Search/Ways.antt =====
-- What holds at every round of the search: each scored cell has a way back to the start, along
-- which the scores do not grow.
use warehouse_digital_twin.Base.{
  ◌≡◌, refl, sym, ◌∙◌, ◌≢◌, inl, inr, true, false, ◌&&◌, Option, none, some, List, [], ◌∷◌,
  Bool-cases, Option-cases, is_some, In, All, All-map, and_left, and_right, subst,
}
use warehouse_digital_twin.Base.Dict.{Dict, get, set, get-set_cases, get-set_self, get-set_other}
use warehouse_digital_twin.Base.Float.{Float}
use warehouse_digital_twin.Fleet.State.{Cell, cell_dec}
use warehouse_digital_twin.Base.Int.{ℤ}
use warehouse_digital_twin.Planner.{GridMap, Move, moves, moved, drivable}
use warehouse_digital_twin.Planner.Search.{
  Search, cost, score, record_way, relax, relax_all, expand,
}
use mathlib.Core.WellFounded.{Acc}

-- What the search relies on of floating point numbers. All of it holds of IEEE doubles, where `le a b`
-- is "a is b, or a ≤ b": a sum with a positive cost rounds to no less than its first part and not to
-- infinity, and there are finitely many numbers.
pub record Costs (fl : Float) : Type 1 where
  pub le : fl.F → fl.F → Type 0
  pub le_refl : (a : fl.F) → le a a
  pub le_trans : (a b c : fl.F) → le a b → le b c → le a c
  pub lt_trans : (a b c : fl.F) → fl.ltb_f a b ≡ true → fl.ltb_f b c ≡ true → fl.ltb_f a c ≡ true
  pub lt_le : (a b : fl.F) → fl.ltb_f a b ≡ true → le a b
  pub le_not_lt : (a b : fl.F) → le a b → fl.ltb_f b a ≡ false
  pub le_add : (a : fl.F) (d : Move) → le a (fl.add a (cost fl d))
  pub add_lt_inf :
      (a : fl.F) (d : Move)
      → fl.ltb_f a fl.inf ≡ true
      → fl.ltb_f (fl.add a (cost fl d)) fl.inf ≡ true
  pub zero_lt_inf : fl.ltb_f (fl.lit 0 0) fl.inf ≡ true
  pub falling_ends :
      (a : fl.F)
      → le (fl.lit 0 0) a
      → Acc (λ (x y : fl.F). le (fl.lit 0 0) x × (fl.ltb_f x y ≡ true)) a

-- A move of the search from a cell to the next.
abbrev pub NextTo : Cell → Cell → Type 0
NextTo p c = (d : Move) × In d moves × (moved p d ≡ c)

-- The entries of `came_from` lead from a cell back to the start.
pub data Way (start : Cell) (came : Dict Cell (Option Cell)) : Cell → Type 0 where
  root : (c : Cell) → get cell_dec c came ≡ some none → c ≡ start → Way start came c
  step : (c p : Cell) → get cell_dec c came ≡ some (some p) → Way start came p → Way start came c

pub all_moves : All (λ d. In d moves) moves
all_moves = (
  inl refl,
  (
    inr (inl refl),
    (
      inr (inr (inl refl)),
      (
        inr (inr (inr (inl refl))),
        (
          inr (inr (inr (inr (inl refl)))),
          (
            inr (inr (inr (inr (inr (inl refl))))),
            (
              inr (inr (inr (inr (inr (inr (inl refl)))))),
              (inr (inr (inr (inr (inr (inr (inr (inl refl))))))), tt),
            ),
          ),
        ),
      ),
    ),
  ),
)

module _ (fl : Float) (costs : Costs fl) (m : GridMap fl.F) (inflation : ℤ) (start : Cell) where
  open fl use {F, lit, ltb_f, add, inf}
  open costs use {le, le_refl, le_trans, lt_trans, lt_le, le_not_lt, le_add, add_lt_inf}

  -- A cell that was reached over another, no dearer one.
  abbrev pub Parent : Dict Cell F → (c p : Cell) → Type 0
  Parent g c p =
      NextTo p c
      × (drivable m inflation c ≡ true)
      × ((x : F) × (y : F) × (get cell_dec p g ≡ some x) × (get cell_dec c g ≡ some y) × le x y)

  pub record Inv (s : Search F) : Type 0 where
    pub scored :
        (c : Cell) (x : F)
        → get cell_dec c s.g_score ≡ some x
        → le (lit 0 0) x × (ltb_f x inf ≡ true)
    pub parents : (c p : Cell) → get cell_dec c s.came_from ≡ some (some p) → Parent s.g_score c p
    pub ways : (c : Cell) (x : F) → get cell_dec c s.g_score ≡ some x → Way start s.came_from c
    pub queued : All (λ e. is_some (get cell_dec e.cell s.g_score) ≡ true) s.frontier

  -- A better way to `n` over `from`.
  module _ (s : Search F) (inv : Inv s) (from n : Cell) (d : Move) (cg : F)
      (at_from : get cell_dec from s.g_score ≡ some cg)
      (better : ltb_f (add cg (cost fl d)) (score fl n s.g_score) ≡ true) where
    abbrev tg : F
    tg = add cg (cost fl d)

    better_than : (y : F) → get cell_dec n s.g_score ≡ some y → ltb_f tg y ≡ true
    unfolding score
    better_than y found = rw (found, score) at better

    -- No cell that is as near as `from` is `n`.
    not_n : (c : Cell) (x : F) → get cell_dec c s.g_score ≡ some x → le x cg → n ≢ c
    not_n c x found near e = cc (
      better_than x (subst (λ k. get cell_dec k s.g_score ≡ some x) (sym e) found),
      le_not_lt x tg (le_trans x cg tg near (le_add cg d)),
    )

    pub from-ne : n ≢ from
    from-ne = not_n from cg at_from (le_refl cg)

    Way-kept :
        (c : Cell) (x : F)
        → Way start s.came_from c
        → get cell_dec c s.g_score ≡ some x
        → le x cg
        → Way start (set cell_dec n (some from) s.came_from) c
    Way-kept c x (root _ r e) found near =
        root c (get-set_other cell_dec n c _ s.came_from (not_n c x found near) ∙ r) e
    Way-kept c x (step _ p r w) found near =
        let (next, ok, (xp, y, at_p, at_c, up)) = inv.parents c p r in
        let same : y ≡ x = cc (at_c, found) in
        step c p (get-set_other cell_dec n c _ s.came_from (not_n c x found near) ∙ r)
          (Way-kept p xp w at_p (le_trans xp y cg up (subst (λ z. le z cg) (sym same) near)))

    Way-at : (c : Cell) → n ≡ c → Way start (set cell_dec n (some from) s.came_from) c
    Way-at c e =
        step c from
          (subst (λ k. get cell_dec k (set cell_dec n (some from) s.came_from) ≡ some (some from)) e
            (get-set_self cell_dec n (some from) s.came_from))
          (Way-kept from cg (inv.ways from cg at_from) at_from (le_refl cg))

    Way-set :
        (c : Cell) → Way start s.came_from c → Way start (set cell_dec n (some from) s.came_from) c
    Way-set c (root _ r e) = elim (cell_dec n c) [
      | yes same ↦ Way-at c same
      | no other ↦ root c (get-set_other cell_dec n c _ s.came_from other ∙ r) e
    ]
    Way-set c (step _ p r w) =
        let before = Way-set p w in
        elim (cell_dec n c) [
          | yes same ↦ Way-at c same
          | no other ↦ step c p (get-set_other cell_dec n c _ s.came_from other ∙ r) before
        ]

    is_some-set :
        (c : Cell)
        → is_some (get cell_dec c s.g_score) ≡ true
        → is_some (get cell_dec c (set cell_dec n tg s.g_score)) ≡ true
    is_some-set c h = elim (cell_dec n c) [
      | yes e ↦
          subst (λ k. is_some (get cell_dec k (set cell_dec n tg s.g_score)) ≡ true) e
            (rw (get-set_self cell_dec n tg s.g_score) refl)
      | no other ↦ rw (get-set_other cell_dec n c tg s.g_score other) h
    ]

    Parent-set :
        (c p : Cell) → n ≢ c → Parent s.g_score c p → Parent (set cell_dec n tg s.g_score) c p
    Parent-set c p other (next, ok, (x, y, at_p, at_c, up)) =
        let at_c' = get-set_other cell_dec n c tg s.g_score other ∙ at_c in
        elim (cell_dec n p) [
          | yes e ↦
              let lower =
                lt_le tg x
                  (better_than x (subst (λ k. get cell_dec k s.g_score ≡ some x) (sym e) at_p)) in
              (
                next,
                ok,
                (
                  tg,
                  y,
                  subst (λ k. get cell_dec k (set cell_dec n tg s.g_score) ≡ some tg) e
                      (get-set_self cell_dec n tg s.g_score),
                  at_c',
                  le_trans tg x y lower up,
                ),
              )
          | no otherwise ↦ (
            next,
            ok,
            (x, y, get-set_other cell_dec n p tg s.g_score otherwise ∙ at_p, at_c', up),
          )
        ]

    pub record_way-Inv :
        (goal : Cell)
        → drivable m inflation n ≡ true
        → NextTo from n
        → Inv (record_way fl goal from n tg s)
    unfolding record_way
    record_way-Inv goal ok next =
        let (positive, finite) = inv.scored from cg at_from in
        record {
          scored = λ c x found. elim (get-set_cases cell_dec n c tg x s.g_score found) [
            | inl (_, same) ↦
                subst (λ z. le (lit 0 0) z × (ltb_f z inf ≡ true)) same
                  (le_trans (lit 0 0) cg tg positive (le_add cg d), add_lt_inf cg d finite)
            | inr (_, before) ↦ inv.scored c x before
          ];
          parents = λ c p found.
              elim (get-set_cases cell_dec n c (some from) (some p) s.came_from found) [
                | inl (e, same) ↦
                    let from_p : from ≡ p = cc same in
                    subst (λ q. Parent (set cell_dec n tg s.g_score) c q) from_p
                      (subst (λ k. Parent (set cell_dec n tg s.g_score) k from) e
                        (
                          next,
                          ok,
                          (
                            cg,
                            tg,
                            get-set_other cell_dec n from tg s.g_score from-ne ∙ at_from,
                            get-set_self cell_dec n tg s.g_score,
                            le_add cg d,
                          ),
                        ))
                | inr (other, before) ↦ Parent-set c p other (inv.parents c p before)
              ];
          ways = λ c x found. elim (get-set_cases cell_dec n c tg x s.g_score found) [
            | inl (e, _) ↦ Way-at c e
            | inr (_, before) ↦ Way-set c (inv.ways c x before)
          ];
          queued = (
            rw (get-set_self cell_dec n tg s.g_score) refl,
            All-map s.frontier (λ e h. is_some-set e.cell h) inv.queued,
          );
        }

  -- Relaxing a move keeps the invariant and the score of the cell that is expanded.
  pub record Relaxed (from : Cell) (cg : F) (s : Search F) : Type 0 where
    pub inv : Inv s
    pub at_from : get cell_dec from s.g_score ≡ some cg

  pub relax-Relaxed :
      (goal from : Cell) (cg : F) (d : Move) (s : Search F)
      → In d moves
      → Relaxed from cg s
      → Relaxed from cg (relax fl m inflation goal from cg d s)
  unfolding relax
  relax-Relaxed goal from cg d s mem r =
      let n = moved from d in
      let test = drivable m inflation n && ltb_f (add cg (cost fl d)) (score fl n s.g_score) in
      elim (Bool-cases test) [
        | inr keep ↦ rw (keep, relax) r
        | inl better ↦
            let lower = and_right (drivable m inflation n) _ better in
            rw (better, relax)
              (record {
                inv =
                    record_way-Inv s r.inv from n d cg r.at_from lower goal (and_left _ _ better)
                      (d, mem, refl);
                at_from =
                    get-set_other cell_dec n from _ s.g_score
                      (from-ne s r.inv from n d cg r.at_from lower)
                    ∙ r.at_from;
              })
      ]

  pub relax_all-Relaxed :
      (goal from : Cell) (cg : F) (ds : List Move) (s : Search F)
      → All (λ d. In d moves) ds
      → Relaxed from cg s
      → Relaxed from cg (relax_all fl m inflation goal from cg ds s)
  unfolding relax_all
  relax_all-Relaxed goal from cg [] s mem r = r
  relax_all-Relaxed goal from cg (d ∷ ds) s mem r =
      relax_all-Relaxed goal from cg ds (relax fl m inflation goal from cg d s) mem.1
        (relax-Relaxed goal from cg d s mem.0 r)

  -- The cell that a round expands has the score that the round reads.
  pub expanded :
      (s : Search F) (c : Cell)
      → Inv s
      → is_some (get cell_dec c s.g_score) ≡ true
      → Relaxed c (score fl c s.g_score) s
  unfolding score
  expanded s c inv h = elim (Option-cases (get cell_dec c s.g_score)) [
    | inl unknown ↦ absurd (cc (rw unknown at h))
    | inr (x, known) ↦ record { inv = inv; at_from = rw (known, score) refl }
  ]

  pub expand-Inv :
      (goal c : Cell) (s : Search F)
      → Inv s
      → is_some (get cell_dec c s.g_score) ≡ true
      → Inv (expand fl m inflation goal c s)
  unfolding expand
  expand-Inv goal c s inv h =
      (relax_all-Relaxed goal c (score fl c s.g_score) moves s all_moves (expanded s c inv h)).inv
