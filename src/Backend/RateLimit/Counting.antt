-- ===== src/Backend/RateLimit/Counting.antt =====
-- The rate limiter lets each client through exactly as often as the limit says.
use warehouse_digital_twin.Base.{
  ℕ, suc, ◌+◌, ◌-◌, ◌≡◌, ◌≢◌, refl, sym, ap, ◌∙◌, subst, inl, inr, String, Bool, true, ite, if_pos,
  if_neg, Option, none, some, List, [], ◌∷◌, if◌then◌else◌, arith, ltb, leb, length, is_some,
  str_dec, Bool-cases, Option-cases,
}
use warehouse_digital_twin.Base.Int.{ℤ, pos, ◌-ℤ◌, ◌≤ℤ◌, ltb_ℤ, leb_ℤ, ℤ_dec}
use warehouse_digital_twin.Base.Dict.{
  get, set, del, keys, get-del, get-set_self, get-set_other, get-set_cases, get-del_cases,
}
use warehouse_digital_twin.Backend.RateLimit.{
  Counts, Hits, greatest, max_key, trim, counts_in, count, entry, trimmed, check_rate_limit,
  answers,
}

-- No client has an entry without a window.
abbrev pub IsFilled : Hits → Type 0
IsFilled hits = (key : String) → get str_dec key hits ≢ some []

-- The requests of a client that have been counted in a window.
abbrev pub counted : ℤ → String → Hits → ℕ
counted window key hits = count window (entry key hits)

greatest-le : (k : ℤ) (m : Counts) → k ≤ℤ greatest k m
unfolding greatest
greatest-le k [] = omega arith
greatest-le k ((j, _) ∷ m) = elim (Bool-cases (ltb_ℤ k j)) [
  | inl h ↦ rw h (let i = greatest-le j m in ground (arith, i))
  | inr h ↦ rw h (greatest-le k m)
]

later_key : ℤ → ℤ → ℤ
later_key k j = if ltb_ℤ k j then j else k

later_key-le : (w k j : ℤ) → w ≡ j → w ≤ℤ later_key k j
unfolding later_key
later_key-le w k j e = subst (λ x. x ≤ℤ later_key k j) (sym e) (ground arith)

le_trans : (a b c : ℤ) → a ≤ℤ b → b ≤ℤ c → a ≤ℤ c
le_trans a b c h k = ground arith

greatest-bounds : (w k : ℤ) (n : ℕ) (m : Counts) → get ℤ_dec w m ≡ some n → w ≤ℤ greatest k m
unfolding greatest get later_key
greatest-bounds w k n [] h = absurd (cc h)
greatest-bounds w k n ((j, v) ∷ m) h = elim (ℤ_dec j w) [
  | yes e ↦
      le_trans w (later_key k j) (greatest (later_key k j) m) (later_key-le w k j (sym e))
        (greatest-le (later_key k j) m)
  | no f ↦ greatest-bounds w (later_key k j) n m (sym (if_neg (ℤ_dec j w) f _ _) ∙ h)
]

apart : (w g : ℤ) → ltb_ℤ (pos 2) (w -ℤ g) ≡ true → ¬ (w ≤ℤ g)
unfolding ◌-ℤ◌
apart w g h k = ground arith

abbrev count_of : Option ℕ → ℕ
count_of o = elim o [ none ↦ 0 | some n ↦ n ]

abbrev entry_of : Option Counts → Counts
entry_of o = elim o [ none ↦ [] | some c ↦ c ]

-- A window that is gone for more than two minutes is not the current one.
none_current :
    (w j : ℤ) (v : ℕ) (m : Counts)
    → ltb_ℤ (pos 2) (w -ℤ greatest j m) ≡ true
    → count w ((j, v) ∷ m) ≡ 0
unfolding count greatest get
none_current w j v m h = elim (ℤ_dec j w) [
  | yes e ↦ absurd (apart w (greatest j m) h (subst (λ x. x ≤ℤ greatest j m) e (greatest-le j m)))
  | no f ↦ elim (Option-cases (get ℤ_dec w m)) [
    | inl k ↦ ap count_of (if_neg (ℤ_dec j w) f _ _ ∙ k)
    | inr (n, k) ↦ absurd (apart w (greatest j m) h (greatest-bounds w j n m k))
  ]
]

IsFilled-del : (key : String) (hits : Hits) → IsFilled hits → IsFilled (del str_dec key hits)
IsFilled-del key hits fill c e = let (_, k) = get-del_cases str_dec key c [] hits e in fill c k

-- A deleted entry that has no request in the window counts for nothing.
counted-del :
    (w : ℤ) (key c : String) (hits : Hits)
    → counted w key hits ≡ 0
    → counted w c (del str_dec key hits) ≡ counted w c hits
unfolding entry count get
counted-del w key c hits h = elim (str_dec key c) [
  | yes e ↦
      ap (λ o. count w (entry_of o)) (get-del str_dec key c hits ∙ if_pos (str_dec key c) e _ _)
      ∙ sym h
      ∙ ap (λ k. counted w k hits) e
  | no n ↦
      ap (λ o. count w (entry_of o)) (get-del str_dec key c hits ∙ if_neg (str_dec key c) n _ _)
]

Trimmed : ℤ → Hits → Option Hits → Type 0
Trimmed w hits o =
    (hits' : Hits) × (o ≡ some hits')
    × IsFilled hits'
    × ((c : String) → counted w c hits' ≡ counted w c hits)

Trimmed-trim :
    (w : ℤ) (ks : List String) (hits : Hits) → IsFilled hits → Trimmed w hits (trim w ks hits)
unfolding trim Trimmed max_key entry
Trimmed-trim w [] hits fill = (hits, refl, fill, λ c. refl)
Trimmed-trim w (k ∷ ks) hits fill = elim (Option-cases (get str_dec k hits)) [
  | inl e ↦ rw (trim, e) (Trimmed-trim w ks hits fill)
  | inr ([], e) ↦ absurd (fill k e)
  | inr ((j, v) ∷ m, e) ↦ elim (Bool-cases (ltb_ℤ (pos 2) (w -ℤ greatest j m))) [
    | inr h ↦ rw (trim, e, max_key, h) (Trimmed-trim w ks hits fill)
    | inl h ↦
        let (hits', t, f, c) = Trimmed-trim w ks (del str_dec k hits) (IsFilled-del k hits fill) in
        rw (trim, e, max_key, h)
          ((
            hits',
            t,
            f,
            λ x.
                c x
                ∙ counted-del w k x hits
                    (ap (λ o. count w (entry_of o)) e ∙ none_current w j v m h),
          ))
  ]
]

Trimmed-trimmed : (w : ℤ) (hits : Hits) → IsFilled hits → Trimmed w hits (trimmed w hits)
unfolding trimmed Trimmed
Trimmed-trimmed w hits fill = elim (Bool-cases (ltb 10000 (length hits))) [
  | inl h ↦ rw (trimmed, h) (Trimmed-trim w (keys hits) hits fill)
  | inr h ↦ rw (trimmed, h) ((hits, refl, fill, λ c. refl))
]

set-ne : (w : ℤ) (n : ℕ) (m : Counts) → set ℤ_dec w n m ≢ []
unfolding set
set-ne w n [] h = absurd (cc h)
set-ne w n ((j, v) ∷ m) h = elim (ℤ_dec j w) [
  | yes e ↦ absurd (cc (sym (if_pos (ℤ_dec j w) e ((j, n) ∷ m) ((j, v) ∷ set ℤ_dec w n m)) ∙ h))
  | no f ↦ absurd (cc (sym (if_neg (ℤ_dec j w) f ((j, n) ∷ m) ((j, v) ∷ set ℤ_dec w n m)) ∙ h))
]

count-counts_in : (w : ℤ) (m : Counts) → count w (counts_in w m) ≡ count w m
unfolding count counts_in get
count-counts_in w m = elim (Option-cases (get ℤ_dec w m)) [
  | inl h ↦
      ap (λ o. count w (if is_some o then m else (w, 0) ∷ [])) h
      ∙ ap count_of (if_pos (ℤ_dec w w) refl (some 0) none)
      ∙ sym (ap count_of h)
  | inr (n, h) ↦ ap (λ o. count w (if is_some o then m else (w, 0) ∷ [])) h
]

-- The state before the trimming.
abbrev recorded : ℤ → String → Hits → Hits
recorded w key hits =
    set str_dec key
      (set ℤ_dec w (suc (count w (counts_in w (entry key hits)))) (counts_in w (entry key hits)))
      hits

IsFilled-recorded :
    (w : ℤ) (key : String) (hits : Hits) → IsFilled hits → IsFilled (recorded w key hits)
IsFilled-recorded w key hits fill c e = elim (get-set_cases str_dec key c _ [] hits e) [
  | inl (_, k) ↦ set-ne w _ (counts_in w (entry key hits)) k
  | inr (_, k) ↦ fill c k
]

counted-recorded_self :
    (w : ℤ) (key : String) (hits : Hits)
    → counted w key (recorded w key hits) ≡ suc (counted w key hits)
unfolding entry count
counted-recorded_self w key hits =
    let m = counts_in w (entry key hits) in
    ap (λ o. count w (entry_of o)) (get-set_self str_dec key (set ℤ_dec w (suc (count w m)) m) hits)
    ∙ ap count_of (get-set_self ℤ_dec w (suc (count w m)) m)
    ∙ ap suc (count-counts_in w (entry key hits))

counted-recorded_other :
    (w : ℤ) (key c : String) (hits : Hits)
    → key ≢ c
    → counted w c (recorded w key hits) ≡ counted w c hits
unfolding entry count
counted-recorded_other w key c hits n =
    ap (λ o. count w (entry_of o)) (get-set_other str_dec key c _ hits n)

-- One request: the answer, and the counts after it.
Step : (limit w : ℤ) → String → Hits → Type 0
Step limit w key hits =
    (hits' : Hits) × (check_rate_limit limit w key hits
      ≡ some (leb_ℤ (pos (suc (counted w key hits))) limit, hits'))
    × IsFilled hits'
    × (counted w key hits' ≡ suc (counted w key hits))
    × ((c : String) → key ≢ c → counted w c hits' ≡ counted w c hits)

Step-check_rate_limit :
    (limit w : ℤ) (key : String) (hits : Hits) → IsFilled hits → Step limit w key hits
unfolding check_rate_limit Step Trimmed
Step-check_rate_limit limit w key hits fill =
    let (hits', t, f, c) =
      Trimmed-trimmed w (recorded w key hits) (IsFilled-recorded w key hits fill) in
    (
      hits',
      ap
            (λ o. elim o [
              | none ↦ none
              | some h ↦ some (leb_ℤ (pos (suc (count w (counts_in w (entry key hits))))) limit, h)
            ])
            t
          ∙ ap (λ n. some (leb_ℤ (pos (suc n)) limit, hits')) (count-counts_in w (entry key hits)),
      f,
      c key ∙ counted-recorded_self w key hits,
      λ d n. c d ∙ counted-recorded_other w key d hits n,
    )

-- The requests of a client, and how many of them are let through.
abbrev pub requests : String → List String → ℕ
requests c [] = 0
requests c (k ∷ ks) = ite (str_dec k c) 1 0 + requests c ks

abbrev pub passed : String → List (String × Bool) → ℕ
passed c [] = 0
passed c ((k, b) ∷ bs) = ite (str_dec k c) (if b then 1 else 0) 0 + passed c bs

abbrev pub smaller : ℕ → ℕ → ℕ
smaller a b = if leb a b then a else b

own_request :
    (limit n n' m r p : ℕ)
    → n ≡ n'
    → m ≡ suc n'
    → p ≡ smaller r (limit - m)
    → (if leb_ℤ (pos (suc n)) (pos limit) then 1 else 0) + p ≡ smaller (1 + r) (limit - n')
own_request limit n n' m r p e k h = ground arith

other_request :
    (limit n' m r p : ℕ) → m ≡ n' → p ≡ smaller r (limit - m) → 0 + p ≡ smaller (0 + r) (limit - n')
other_request limit n' m r p k h = ground arith

-- Within a window no request of any sequence fails, and of the requests of a client exactly as many
-- are let through as the limit leaves after the ones already counted, or all if they are fewer,
-- whatever the other clients do and however often old entries are trimmed.
pub answers-passed :
    (limit : ℕ) (w : ℤ) (c : String) (ks : List String) (hits : Hits)
    → IsFilled hits
    → (bs : List (String × Bool)) × (answers (pos limit) w ks hits ≡ some bs)
      × (passed c bs ≡ smaller (requests c ks) (limit - counted w c hits))
unfolding answers Step
answers-passed limit w c [] hits fill = ([], refl, ground arith)
answers-passed limit w c (k ∷ ks) hits fill =
    let (hits', step, f, own, others) = Step-check_rate_limit (pos limit) w k hits fill in
    let (bs, rest, n) = answers-passed limit w c ks hits' f in
    let b = leb_ℤ (pos (suc (counted w k hits))) (pos limit) in
    (
      (k, b) ∷ bs,
      rw (answers, step, rest) refl,
      elim (str_dec k c) [
        | yes e ↦
            let same = ap (λ x. counted w x hits) e in
            ap (λ x. x + passed c bs) (if_pos (str_dec k c) e (if b then 1 else 0) 0)
            ∙ own_request limit (counted w k hits) (counted w c hits) (counted w c hits')
                (requests c ks) (passed c bs) same
                (sym (ap (λ x. counted w x hits') e) ∙ own ∙ ap suc same) n
            ∙ ap (λ x. smaller (x + requests c ks) (limit - counted w c hits))
                (sym (if_pos (str_dec k c) e 1 0))
        | no d ↦
            ap (λ x. x + passed c bs) (if_neg (str_dec k c) d (if b then 1 else 0) 0)
            ∙ other_request limit (counted w c hits) (counted w c hits') (requests c ks)
                (passed c bs) (others c d) n
            ∙ ap (λ x. smaller (x + requests c ks) (limit - counted w c hits))
                (sym (if_neg (str_dec k c) d 1 0))
      ],
    )
