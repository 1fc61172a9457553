-- ===== src/Fleet/Dispatch/Choice.antt =====
-- Which robot a task is given to, and which task a robot is given.
use warehouse_digital_twin.Base.{
  ℕ, ◌≤◌, ◌≡◌, sym, true, false, some, List, ◌∷◌, if◌then◌else◌, arith, List-cases, inl, inr, All,
  All-map, In, All-In_self, subst,
}
use warehouse_digital_twin.Base.Float.{Float}
use warehouse_digital_twin.Base.Sort.Laws.{sort-All, All-sort, IsRanked, sort-IsRanked}
use warehouse_digital_twin.Fleet.State.{Robot, Task, Fleet}
use warehouse_digital_twin.Fleet.Dispatch.{busy, key, key_ltb, ranked, select_robot}

-- 1 for a robot with a current task, 0 for an idle one.
abbrev occupied : {F : Type 0} → Robot F → ℕ
occupied e = if busy e then 1 else 0

module _ (fl : Float) where
  open fl use {F}

  key_ltb-occupied :
      (s : Fleet F) (t : Task F) (a b : Robot F)
      → key_ltb fl (key fl s t a) (key fl s t b) ≡ true
      → occupied a ≤ occupied b
  unfolding key_ltb key
  key_ltb-occupied s t a b h = ground arith

  key_ltb-false-occupied :
      (s : Fleet F) (t : Task F) (a b : Robot F)
      → key_ltb fl (key fl s t a) (key fl s t b) ≡ false
      → occupied b ≤ occupied a
  unfolding key_ltb key
  key_ltb-false-occupied s t a b h = ground arith

  -- The selected robot is the head of the ranking.
  select_robot-eq_some :
      (s : Fleet F) (t : Task F) (es : List (Robot F)) (best : Robot F) (scored : List (Robot F))
      → select_robot fl s t es ≡ some (best, scored)
      → (rest : List (Robot F)) × (ranked fl s t es ≡ best ∷ rest)
  unfolding select_robot
  select_robot-eq_some s t es best scored h = elim (List-cases (ranked fl s t es)) [
    | inl empty ↦ absurd (cc (rw (empty, select_robot) at h))
    | inr (x, rest, e) ↦
        let found : some (x, x ∷ rest) ≡ some (best, scored) = rw (e, select_robot) at h in
        (rest, cc (e, found))
  ]

  -- What holds of all candidates holds of the selected one.
  pub select_robot-All :
      (P : Robot F → Type 0) (s : Fleet F) (t : Task F) (es : List (Robot F)) (best : Robot F)
      (scored : List (Robot F))
      → select_robot fl s t es ≡ some (best, scored)
      → All P es
      → P best
  unfolding ranked
  select_robot-All P s t es best scored h all =
      let (rest, e) = select_robot-eq_some s t es best scored h in
      (subst (All P) e (sort-All _ P es all)).0

  -- The selected robot is one of the candidates.
  pub select_robot-In :
      (s : Fleet F) (t : Task F) (es : List (Robot F)) (best : Robot F) (scored : List (Robot F))
      → select_robot fl s t es ≡ some (best, scored)
      → In best es
  select_robot-In s t es best scored h =
      select_robot-All (λ e. In e es) s t es best scored h (All-In_self es)

  -- The candidates that are published with the decision are all there are, the selected one first.
  pub select_robot-scored :
      (s : Fleet F) (t : Task F) (es : List (Robot F)) (best : Robot F) (scored : List (Robot F))
      → select_robot fl s t es ≡ some (best, scored)
      → ((others : List (Robot F)) × (scored ≡ best ∷ others))
        × All (λ e. In e es) scored
        × All (λ e. In e scored) es
  unfolding select_robot ranked
  select_robot-scored s t es best scored h = elim (List-cases (ranked fl s t es)) [
    | inl empty ↦ absurd (cc (rw (empty, select_robot) at h))
    | inr (x, rest, e) ↦
        let found : some (x, x ∷ rest) ≡ some (best, scored) = rw (e, select_robot) at h in
        let order : ranked fl s t es ≡ scored = cc (e, found) in
        (
          (rest, cc found),
          subst (All (λ e. In e es)) order (sort-All _ (λ e. In e es) es (All-In_self es)),
          All-sort _ (λ e. In e scored) es
              (subst (All (λ e. In e scored)) (sym order) (All-In_self scored)),
        )
  ]

  -- A busy robot is selected only if every candidate is busy: an idle one always goes first.
  pub select_robot-idle_first :
      (s : Fleet F) (t : Task F) (es : List (Robot F)) (best : Robot F) (scored : List (Robot F))
      → select_robot fl s t es ≡ some (best, scored)
      → busy best ≡ true
      → All (λ e. busy e ≡ true) es
  unfolding ranked
  select_robot-idle_first s t es best scored h occ =
      let (rest, e) = select_robot-eq_some s t es best scored h in
      let lt = λ (a b : Robot F). key_ltb fl (key fl s t a) (key fl s t b) in
      let order : IsRanked lt occupied (key_ltb-occupied s t) (key_ltb-false-occupied s t)
          (best ∷ rest) =
        subst (IsRanked lt occupied (key_ltb-occupied s t) (key_ltb-false-occupied s t)) e
          (sort-IsRanked lt occupied (key_ltb-occupied s t) (key_ltb-false-occupied s t) es) in
      All-sort lt (λ x. busy x ≡ true) es
        (subst (All (λ x. busy x ≡ true)) (sym e)
          (occ, All-map rest (λ x (le : occupied best ≤ occupied x). ground arith) order.0))
