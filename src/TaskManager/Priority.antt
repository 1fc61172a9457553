-- ===== src/TaskManager/Priority.antt =====
-- The order in which `_activate_next` takes the waiting tasks.
use warehouse_digital_twin.Base.{
  ℕ, suc, ◌+◌, ◌≡◌, ◌⊎◌, inl, inr, true, false, not, ◌&&◌, Option, none, some, List, [], ◌∷◌, arith,
  Bool-cases, Option-cases, get_elem?, All, All-map, ap, subst, ◌∙◌,
}
use warehouse_digital_twin.TaskManager.{
  idle, Task, Manager, is_waiting, goes_before, best_waiting, activate, activate_next,
}

module _ {F : Type 0} where
  goes_before_trans :
      (a b c : Task F) → goes_before a b ≡ false → goes_before b c ≡ false → goes_before a c ≡ false
  unfolding goes_before
  goes_before_trans a b c h k = ground arith

  goes_before_asym : (a b : Task F) → goes_before a b ≡ true → goes_before b a ≡ false
  unfolding goes_before
  goes_before_asym a b h = ground arith

  goes_before_irrefl : (a : Task F) → goes_before a a ≡ false
  unfolding goes_before
  goes_before_irrefl a = ground arith

  -- The task `u` does not wait, or does not come before `t`.
  abbrev pub NotBefore : Task F → Task F → Type 0
  NotBefore t u = (is_waiting u.status && goes_before u t) ≡ false

  best_waiting-eq_none :
      (i : ℕ) (ts : List (Task F))
      → best_waiting i ts ≡ none
      → All (λ u. is_waiting u.status ≡ false) ts
  unfolding best_waiting
  best_waiting-eq_none i [] h = tt
  best_waiting-eq_none i (t ∷ ts) h = elim (Option-cases (best_waiting (suc i) ts)) [
    | inl rest ↦ (ground arith, best_waiting-eq_none (suc i) ts rest)
    | inr (b, rest) ↦ absurd (ground arith)
  ]

  -- The chosen task waits, stands at the index, and no waiting task comes before it.
  pub record IsFirst (i : ℕ) (ts : List (Task F)) (k : ℕ) (t : Task F) : Type 0 where
    pub place : ℕ
    pub index : k ≡ i + place
    pub found : get_elem? ts place ≡ some t
    pub waits : is_waiting t.status ≡ true
    pub first : All (NotBefore t) ts

  head-IsFirst :
      (i : ℕ) (ts : List (Task F)) (k : ℕ) (u t : Task F)
      → ◌≡◌ {A = Option (ℕ × Task F)} (some (i, u)) (some (k, t))
      → is_waiting u.status ≡ true
      → All (NotBefore u) ts
      → IsFirst i (u ∷ ts) k t
  unfolding get_elem?
  head-IsFirst i ts k u t h w all =
      let e : u ≡ t = cc h in
      let at : i ≡ k = cc h in
      record {
        place = 0;
        index = omega (arith, at);
        found = ap some e;
        waits = subst (λ x. is_waiting x.status ≡ true) e w;
        first = subst (λ x. All (NotBefore x) (u ∷ ts)) e (rw (w, goes_before_irrefl u), all);
      }

  tail-IsFirst :
      (i : ℕ) (ts : List (Task F)) (k : ℕ) (u t : Task F) (n : ℕ) (b : Task F)
      → ◌≡◌ {A = Option (ℕ × Task F)} (some (n, b)) (some (k, t))
      → IsFirst (suc i) ts n b
      → NotBefore b u
      → IsFirst i (u ∷ ts) k t
  unfolding get_elem?
  tail-IsFirst i ts k u t n b h v before =
      let e : b ≡ t = cc h in
      let at : n ≡ k = cc h in
      record {
        place = suc v.place;
        index = omega (arith, at, v.index);
        found = v.found ∙ ap some e;
        waits = subst (λ x. is_waiting x.status ≡ true) e v.waits;
        first = subst (λ x. All (NotBefore x) (u ∷ ts)) e (before, v.first);
      }

  NotBefore-trans : (w b u : Task F) → goes_before b u ≡ false → NotBefore b w → NotBefore u w
  NotBefore-trans w b u h n = elim (Bool-cases (is_waiting w.status)) [
    | inl waits ↦ rw (waits, goes_before_trans w b u (rw waits at n) h)
    | inr idles ↦ rw idles
  ]

  NotBefore-of_tail :
      (u b : Task F) → (is_waiting u.status && not (goes_before b u)) ≡ false → NotBefore b u
  NotBefore-of_tail u b h = elim (Bool-cases (is_waiting u.status)) [
    | inl waits ↦ elim (Bool-cases (goes_before b u)) [
      | inl first ↦ rw (waits, goes_before_asym b u first)
      | inr after ↦ absurd (cc (rw (waits, after) at h))
    ]
    | inr idles ↦ rw idles
  ]

  best_waiting-IsFirst :
      (i : ℕ) (ts : List (Task F)) (k : ℕ) (t : Task F)
      → best_waiting i ts ≡ some (k, t)
      → IsFirst i ts k t
  unfolding best_waiting get_elem?
  best_waiting-IsFirst i [] k t h = absurd (cc h)
  best_waiting-IsFirst i (u ∷ ts) k t h = elim (Option-cases (best_waiting (suc i) ts)) [
    | inl rest ↦ elim (Bool-cases (is_waiting u.status)) [
      | inl w ↦
          head-IsFirst i ts k u t (rw (rest, w, best_waiting) at h) w
            (All-map ts (λ v n. ground arith) (best_waiting-eq_none (suc i) ts rest))
      | inr n ↦ absurd (cc (rw (rest, n, best_waiting) at h))
    ]
    | inr ((n, b), rest) ↦
        let v = best_waiting-IsFirst (suc i) ts n b rest in
        elim (Bool-cases (is_waiting u.status && not (goes_before b u))) [
          | inl head ↦
              head-IsFirst i ts k u t (rw (rest, head, best_waiting) at h) (ground arith)
                (All-map ts (λ w. NotBefore-trans w b u (ground arith)) v.first)
          | inr tail ↦
              tail-IsFirst i ts k u t n b (rw (rest, tail, best_waiting) at h) v
                (NotBefore-of_tail u b tail)
        ]
  ]

  -- With no task waiting the state becomes IDLE and nothing else changes; otherwise a waiting task is
  -- activated before which no other waiting task comes by priority and then by age.
  pub activate_next_lem :
      (now : F) (m : Manager F)
      → ((activate_next now m ≡ record m { state = idle })
          × All (λ u. is_waiting u.status ≡ false) m.tasks)
        ⊎ ((i : ℕ) × (t : Task F) × IsFirst 0 m.tasks i t
            × (activate_next now m ≡ activate now i t m))
  unfolding activate_next
  activate_next_lem now m = elim (Option-cases (best_waiting 0 m.tasks)) [
    | inl nothing ↦ inl (rw (nothing, activate_next), best_waiting-eq_none 0 m.tasks nothing)
    | inr ((i, t), found) ↦
        inr (i, t, best_waiting-IsFirst 0 m.tasks i t found, rw (found, activate_next))
  ]
