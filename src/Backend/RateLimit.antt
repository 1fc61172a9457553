-- ===== src/Backend/RateLimit.antt =====
-- The rate limiter of the backend, backend/backend/rate_limit.py: the requests of each client in the
-- current minute, and the trimming of old entries. The lock makes each check one step.
pub mod Counting
use warehouse_digital_twin.Base.{
  ℕ, suc, ◌+◌, ◌<◌, String, Bool, true, false, ite, Option, none, some, List, [], ◌∷◌,
  if◌then◌else◌, ltb, length, is_some, str_dec, split_on, strip,
}
use warehouse_digital_twin.Base.Int.{ℤ, pos, ◌-ℤ◌, ltb_ℤ, leb_ℤ, ℤ_dec}
use warehouse_digital_twin.Base.Dict.{Dict, get, set, del, keys}

-- The count of each window, and the entry of each client: `_hits`.
abbrev pub Counts : Type 0
Counts = Dict ℤ ℕ

abbrev pub Hits : Type 0
Hits = Dict String Counts

unfoldable pub first_word : List String → String
first_word ws = elim ws [ [] ↦ "" | w ∷ _ ↦ w ]

-- `_client`, for the header `X-Forwarded-For` and the host of the connection.
unfoldable pub client_of : (forwarded host : Option String) → String
unfolding first_word
client_of forwarded host =
    let other : String = elim host [ none ↦ "unknown" | some h ↦ h ] in
    elim forwarded [
      | none ↦ other
      | some s ↦ ite (str_dec s "") other (strip (first_word (split_on b',' s)))
    ]

-- `limit or default`.
unfoldable pub limit_of : (default : ℤ) → Option ℤ → ℤ
limit_of default limit = elim limit [ none ↦ default | some n ↦ ite (ℤ_dec n (pos 0)) default n ]

-- The greatest of a window and the windows of `m`; `max(_hits[k])` is `none` for no window.
unfoldable pub greatest : ℤ → Counts → ℤ
greatest k [] = k
greatest k ((j, _) ∷ m) = greatest (if ltb_ℤ k j then j else k) m

unfoldable pub max_key : Counts → Option ℤ
unfolding greatest
max_key [] = none
max_key ((k, _) ∷ m) = some (greatest k m)

-- The loop over the clients, of which each is still there when its turn comes; `none` is the
-- `ValueError` of `max`.
unfoldable pub trim : (window : ℤ) → List String → Hits → Option Hits
unfolding max_key
trim window [] hits = some hits
trim window (k ∷ ks) hits =
    let kept = trim window ks hits in
    let without = trim window ks (del str_dec k hits) in
    elim (get str_dec k hits) [
      | none ↦ kept
      | some counts ↦ elim (max_key counts) [
        | none ↦ none
        | some last ↦ if ltb_ℤ (pos 2) (window -ℤ last) then without else kept
      ]
    ]

-- `counts`, after the reset for a new window.
unfoldable pub counts_in : (window : ℤ) → Counts → Counts
counts_in window counts = if is_some (get ℤ_dec window counts) then counts else (window, 0) ∷ []

unfoldable pub count : (window : ℤ) → Counts → ℕ
count window counts = elim (get ℤ_dec window counts) [ none ↦ 0 | some n ↦ n ]

-- `setdefault(key, {})`.
unfoldable pub entry : String → Hits → Counts
entry key hits = elim (get str_dec key hits) [ none ↦ [] | some c ↦ c ]

unfoldable pub trimmed : (window : ℤ) → Hits → Option Hits
unfolding trim
trimmed window hits = if ltb 10000 (length hits) then trim window (keys hits) hits else some hits

-- `check_rate_limit`: the answer, and the state after it.
unfoldable pub check_rate_limit : (limit window : ℤ) → (key : String) → Hits → Option (Bool × Hits)
unfolding trimmed counts_in count entry
check_rate_limit limit window key hits =
    let counts = counts_in window (entry key hits) in
    let n = suc (count window counts) in
    elim (trimmed window (set str_dec key (set ℤ_dec window n counts) hits)) [
      | none ↦ none
      | some hits' ↦ some (leb_ℤ (pos n) limit, hits')
    ]

-- The answers to requests of these clients in one window.
unfoldable pub answers : (limit window : ℤ) → List String → Hits → Option (List (String × Bool))
unfolding check_rate_limit
answers limit window [] hits = some []
answers limit window (key ∷ ks) hits = elim (check_rate_limit limit window key hits) [
  | none ↦ none
  | some r ↦ elim (answers limit window ks r.1) [ none ↦ none | some bs ↦ some ((key, r.0) ∷ bs) ]
]
