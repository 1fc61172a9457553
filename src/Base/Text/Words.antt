-- ===== src/Base/Text/Words.antt =====
-- Texts that are joined by a separator and split again, as the nodes' messages are.
use Prim.Native.Nat.{ℕ}
use Prim.Native.Char.{Char, code}
use Prim.Native.String.{String}
use mathlib.Core.Path.{◌≡◌, refl, sym, ap, ◌∙◌, subst}
use mathlib.Core.Bool.{true, false}
use mathlib.Core.List.{List, [], ◌∷◌, map}
use package.warehouse_digital_twin.Base.Tests.{◌==◌, if◌then◌else◌}
use package.warehouse_digital_twin.Base.Lists.{All}
use package.warehouse_digital_twin.Base.Text.{
  is_blank, lstrip, strip, reverse_onto, append, split_on, Lacks, split_on-append, split_on-whole,
  reverse_onto-append, reverse_onto-onto, append-nothing,
}

-- `c.join(ws)`.
unfoldable pub joined : Char → List String → String
unfolding append
joined c [] = ""
joined c (w ∷ []) = w
joined c (w ∷ v ∷ ws) = append w (String.◌∷◌ c (joined c (v ∷ ws)))

pub split_on-joined :
    (sep : ℕ) (c : Char) (w : String) (ws : List String)
    → code c == sep ≡ true
    → All (Lacks sep) (w ∷ ws)
    → split_on sep (joined c (w ∷ ws)) ≡ w ∷ ws
unfolding joined
split_on-joined sep c w [] h (free, _) = split_on-whole sep w free
split_on-joined sep c w (v ∷ ws) h (free, more) =
    split_on-append sep w (joined c (v ∷ ws)) c h free
    ∙ ap (λ t. w ∷ t) (split_on-joined sep c v ws h more)

-- A text without blanks.
abbrev pub IsWord : String → Type 0
IsWord String.[] = Unit
IsWord (String.◌∷◌ c s) = (is_blank c ≡ false) × IsWord s

-- The first character is no blank.
abbrev Starts : String → Type 0
Starts String.[] = Unit
Starts (String.◌∷◌ c s) = is_blank c ≡ false

lstrip-Starts : (s : String) → Starts s → lstrip s ≡ s
unfolding lstrip
lstrip-Starts String.[] h = refl
lstrip-Starts (String.◌∷◌ c s) h = ap (λ b. if b then lstrip s else String.◌∷◌ c s) h

strip-Starts : (s : String) → Starts s → Starts (reverse_onto s String.[]) → strip s ≡ s
unfolding strip reverse_onto
strip-Starts s h k =
    ap (λ t. reverse_onto (lstrip (reverse_onto t String.[])) String.[]) (lstrip-Starts s h)
    ∙ ap (λ t. reverse_onto t String.[]) (lstrip-Starts (reverse_onto s String.[]) k)
    ∙ reverse_onto-onto s String.[] String.[]
    ∙ append-nothing s

Starts-IsWord : (s : String) → IsWord s → Starts s
Starts-IsWord String.[] h = tt
Starts-IsWord (String.◌∷◌ c s) h = h.0

Starts-reverse_onto : (s t : String) → IsWord s → Starts t → Starts (reverse_onto s t)
unfolding reverse_onto
Starts-reverse_onto String.[] t h k = k
Starts-reverse_onto (String.◌∷◌ c s) t (here, h) k = Starts-reverse_onto s (String.◌∷◌ c t) h here

pub strip-IsWord : (s : String) → IsWord s → strip s ≡ s
strip-IsWord s h = strip-Starts s (Starts-IsWord s h) (Starts-reverse_onto s String.[] h tt)

pub map-strip : (ws : List String) → All IsWord ws → map strip ws ≡ ws
map-strip [] h = refl
map-strip (w ∷ ws) (h, k) =
    ap (λ t. t ∷ map strip ws) (strip-IsWord w h) ∙ ap (λ t. w ∷ t) (map-strip ws k)

Starts-append :
    (s t : String) (c : Char) → is_blank c ≡ false → IsWord s → Starts (append s (String.◌∷◌ c t))
unfolding append
Starts-append String.[] t c e h = e
Starts-append (String.◌∷◌ d s) t c e h = h.0

-- The last character of joined words is no blank.
Starts-reversed :
    (c : Char) (w : String) (ws : List String) (t : String)
    → is_blank c ≡ false
    → All IsWord (w ∷ ws)
    → Starts t
    → Starts (reverse_onto (joined c (w ∷ ws)) t)
unfolding joined reverse_onto
Starts-reversed c w [] t e (h, _) k = Starts-reverse_onto w t h k
Starts-reversed c w (v ∷ ws) t e (h, hs) k =
    subst Starts (sym (reverse_onto-append w (String.◌∷◌ c (joined c (v ∷ ws))) t))
      (Starts-reversed c v ws (String.◌∷◌ c (reverse_onto w t)) e hs e)

pub strip-joined :
    (c : Char) (w v : String) (ws : List String)
    → is_blank c ≡ false
    → All IsWord (w ∷ v ∷ ws)
    → strip (joined c (w ∷ v ∷ ws)) ≡ joined c (w ∷ v ∷ ws)
unfolding joined
strip-joined c w v ws e h =
    strip-Starts (joined c (w ∷ v ∷ ws)) (Starts-append w (joined c (v ∷ ws)) c e h.0)
      (Starts-reversed c w (v ∷ ws) String.[] e h tt)
