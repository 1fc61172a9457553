-- ===== src/Base/Dict.antt =====
-- Python's `dict`, as the list of its items in insertion order.
use mathlib.Core.Path.{◌≡◌, refl, sym, ◌∙◌}
use mathlib.Core.Logic.{ite, if_pos, if_neg, ◌⊎◌, inl, inr, ◌≢◌}
use mathlib.Core.Option.{Option, none, some}
use mathlib.Core.List.{List, [], ◌∷◌, map}
use native.Mathlib.Omega.{arith}

abbrev pub Dict {ℓ} : Type ℓ → Type ℓ → Type ℓ
Dict K V = List (K × V)

module _ {ℓ} {K V : Type ℓ} where
  abbrev pub keys : Dict K V → List K
  keys = map λ p. p.0

  abbrev pub values : Dict K V → List V
  values = map λ p. p.1

module _ {ℓ} {K V : Type ℓ} (dec : Discrete K) where
  -- `m.get(k)`.
  unfoldable pub get : K → Dict K V → Option V
  get k [] = none
  get k ((j, v) ∷ m) = ite (dec j k) (some v) (get k m)

  -- `m[k] = v`: in place where the key is there, else at the end.
  unfoldable pub set : K → V → Dict K V → Dict K V
  set k v [] = (k, v) ∷ []
  set k v ((j, w) ∷ m) = ite (dec j k) ((j, v) ∷ m) ((j, w) ∷ set k v m)

  -- `m.pop(k, None)`, what is left. A dict has a key once, so all the pairs of the key go.
  unfoldable pub del : K → Dict K V → Dict K V
  del k [] = []
  del k ((j, w) ∷ m) = ite (dec j k) (del k m) ((j, w) ∷ del k m)

  pub get-set :
      (k j : K) (v : V) (m : Dict K V) → get j (set k v m) ≡ ite (dec k j) (some v) (get j m)
  unfolding get set
  get-set k j v [] = refl
  get-set k j v ((i, w) ∷ m) = ground (arith, get-set k j v m)

  pub get-del : (k j : K) (m : Dict K V) → get j (del k m) ≡ ite (dec k j) none (get j m)
  unfolding get del
  get-del k j [] = ground arith
  get-del k j ((i, w) ∷ m) = ground (arith, get-del k j m)

  -- A found value is the one that was stored, or was found before at another key.
  pub get-set_cases :
      (k j : K) (v w : V) (m : Dict K V)
      → get j (set k v m) ≡ some w
      → (k ≡ j) × (v ≡ w) ⊎ (k ≢ j) × (get j m ≡ some w)
  get-set_cases k j v w m h = elim (dec k j) [
    | yes e ↦ inl (e, cc (sym (if_pos (dec k j) e _ _) ∙ (sym (get-set k j v m) ∙ h)))
    | no n ↦ inr (n, sym (if_neg (dec k j) n _ _) ∙ (sym (get-set k j v m) ∙ h))
  ]

  pub get-del_cases :
      (k j : K) (w : V) (m : Dict K V) → get j (del k m) ≡ some w → (k ≢ j) × (get j m ≡ some w)
  get-del_cases k j w m h = elim (dec k j) [
    | yes e ↦ absurd (cc (sym (if_pos (dec k j) e _ _) ∙ (sym (get-del k j m) ∙ h)))
    | no n ↦ (n, sym (if_neg (dec k j) n _ _) ∙ (sym (get-del k j m) ∙ h))
  ]

  pub get-set_self : (k : K) (v : V) (m : Dict K V) → get k (set k v m) ≡ some v
  get-set_self k v m = get-set k k v m ∙ if_pos (dec k k) refl _ _

  pub get-set_other : (k j : K) (v : V) (m : Dict K V) → k ≢ j → get j (set k v m) ≡ get j m
  get-set_other k j v m n = get-set k j v m ∙ if_neg (dec k j) n _ _

  pub get-del_other : (k j : K) (m : Dict K V) → k ≢ j → get j (del k m) ≡ get j m
  get-del_other k j m n = get-del k j m ∙ if_neg (dec k j) n _ _

  pub get-del_self : (k : K) (m : Dict K V) → get k (del k m) ≡ none
  get-del_self k m = get-del k k m ∙ if_pos (dec k k) refl _ _
