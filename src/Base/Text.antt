-- ===== src/Base/Text.antt =====
-- Python's `str` methods that the message handlers use: `split`, `strip` and `upper`, by recursion
-- on the characters of a text. Blanks are the ASCII ones, and `upper` changes the ASCII letters.
pub mod Words
use Prim.Native.Nat.{ℕ, zero, suc}
use Prim.Native.Char.{Char, code}
use Prim.Native.String.{String}
use mathlib.Core.Path.{◌≡◌, refl, ap, ◌∙◌}
use mathlib.Core.Bool.{Bool, true, false, ◌&&◌, ◌||◌}
use mathlib.Core.List.{List, [], ◌∷◌}
use mathlib.Core.Option.{Option, none, some}
use text.Mathlib.Text.{◌==◌ as str_eq}
use text.Mathlib.TextEquality.{eq_iff}
use package.warehouse_digital_twin.Base.Tests.{leb, ◌==◌, if◌then◌else◌}

dec_of_test : (s t : String) (b : Bool) → str_eq s t ≡ b → Dec (s ≡ t)
dec_of_test s t true h = yes ((eq_iff s t).0 h)
dec_of_test s t false h = no (λ e. cc (h, (eq_iff s t).1 e))

unfoldable pub str_dec : Discrete String
unfolding dec_of_test
str_dec s t = dec_of_test s t (str_eq s t) refl

unfoldable pub is_blank : Char → Bool
is_blank c =
    code c == 32 || (leb 9 (code c) && leb (code c) 13) || (leb 28 (code c) && leb (code c) 31)

lstrip : String → String
unfolding is_blank
lstrip String.[] = String.[]
lstrip (String.◌∷◌ c s) = if is_blank c then lstrip s else String.◌∷◌ c s

-- A text in reverse order, in front of `t`.
reverse_onto : String → String → String
reverse_onto String.[] t = t
reverse_onto (String.◌∷◌ c s) t = reverse_onto s (String.◌∷◌ c t)

unfoldable pub strip : String → String
unfolding lstrip reverse_onto
strip s = reverse_onto (lstrip (reverse_onto (lstrip s) String.[])) String.[]

-- `word` holds the characters since the last separator, the latest first.
split_from : ℕ → String → String → List String
unfolding reverse_onto
split_from sep word String.[] = reverse_onto word String.[] ∷ []
split_from sep word (String.◌∷◌ c s) =
    let rest = split_from sep String.[] s in
    let more = split_from sep (String.◌∷◌ c word) s in
    if code c == sep then reverse_onto word String.[] ∷ rest else more

-- `s.split(sep)` for a separator of one character.
unfoldable pub split_on : ℕ → String → List String
unfolding split_from
split_on sep s = split_from sep String.[] s

-- The character of `to` at the place where `c` stands in `from`, else `c`.
translate : String → String → Char → Char
translate (String.◌∷◌ f fs) (String.◌∷◌ t ts) c = if code c == code f then t else translate fs ts c
translate _ _ c = c

unfoldable pub upper : String → String
unfolding translate
upper String.[] = String.[]
upper (String.◌∷◌ c s) =
    String.◌∷◌ (translate "abcdefghijklmnopqrstuvwxyz" "ABCDEFGHIJKLMNOPQRSTUVWXYZ" c) (upper s)

unfoldable pub lower : String → String
unfolding translate
lower String.[] = String.[]
lower (String.◌∷◌ c s) =
    String.◌∷◌ (translate "ABCDEFGHIJKLMNOPQRSTUVWXYZ" "abcdefghijklmnopqrstuvwxyz" c) (lower s)

-- `s[len(p):] if s.startswith(p)`, else `none`.
unfoldable pub strip_prefix : (p s : String) → Option String
strip_prefix String.[] s = some s
strip_prefix (String.◌∷◌ p ps) String.[] = none
strip_prefix (String.◌∷◌ p ps) (String.◌∷◌ c s) =
    if code p == code c then strip_prefix ps s else none

split_test : split_on 44 " tb3_1, online ," ≡ " tb3_1" ∷ " online " ∷ "" ∷ []
unfolding split_on
split_test = refl

upper_test : upper (strip " online ") ≡ "ONLINE"
unfolding upper strip
upper_test = refl

-- `s + t`.
unfoldable pub append : String → String → String
append String.[] t = t
append (String.◌∷◌ c s) t = String.◌∷◌ c (append s t)

-- `len(s)`, and `s[n:]` for a natural number n.
unfoldable pub text_length : String → ℕ
text_length String.[] = 0
text_length (String.◌∷◌ c s) = suc (text_length s)

unfoldable pub text_drop : ℕ → String → String
text_drop zero s = s
text_drop (suc n) String.[] = String.[]
text_drop (suc n) (String.◌∷◌ c s) = text_drop n s

-- `c * n`, for a text of one character.
unfoldable pub repeat : Char → ℕ → String
repeat c zero = String.[]
repeat c (suc n) = String.◌∷◌ c (repeat c n)

-- The text without the leading characters of code `k`, and `s.rstrip(c)` for their character.
drop_leading : ℕ → String → String
drop_leading k String.[] = String.[]
drop_leading k (String.◌∷◌ c s) = if code c == k then drop_leading k s else String.◌∷◌ c s

unfoldable pub rstrip_of : ℕ → String → String
unfolding drop_leading reverse_onto
rstrip_of k s = reverse_onto (drop_leading k (reverse_onto s String.[])) String.[]

-- No character of the text has code `k`.
abbrev pub Lacks : ℕ → String → Type 0
Lacks k String.[] = Unit
Lacks k (String.◌∷◌ c s) = (code c == k ≡ false) × Lacks k s

split_from-append :
    (sep : ℕ) (word a b : String) (c : Char)
    → code c == sep ≡ true
    → Lacks sep a
    → split_from sep word (append a (String.◌∷◌ c b))
      ≡ reverse_onto word a ∷ split_from sep String.[] b
unfolding split_from append reverse_onto
split_from-append sep word String.[] b c h free =
    ap
      (λ t.
        if t
        then reverse_onto word String.[] ∷ split_from sep String.[] b
        else split_from sep (String.◌∷◌ c word) b)
      h
split_from-append sep word (String.◌∷◌ x a) b c h (here, free) =
    ap
      (λ t.
        if t
        then reverse_onto word String.[] ∷ split_from sep String.[] (append a (String.◌∷◌ c b))
        else split_from sep (String.◌∷◌ x word) (append a (String.◌∷◌ c b)))
      here
    ∙ split_from-append sep (String.◌∷◌ x word) a b c h free

split_from-whole :
    (sep : ℕ) (word a : String) → Lacks sep a → split_from sep word a ≡ reverse_onto word a ∷ []
unfolding split_from reverse_onto
split_from-whole sep word String.[] free = refl
split_from-whole sep word (String.◌∷◌ x a) (here, free) =
    ap
      (λ t.
        if t
        then reverse_onto word String.[] ∷ split_from sep String.[] a
        else split_from sep (String.◌∷◌ x word) a)
      here
    ∙ split_from-whole sep (String.◌∷◌ x word) a free

-- A text splits at the first separator.
pub split_on-append :
    (sep : ℕ) (a b : String) (c : Char)
    → code c == sep ≡ true
    → Lacks sep a
    → split_on sep (append a (String.◌∷◌ c b)) ≡ a ∷ split_on sep b
unfolding split_on reverse_onto
split_on-append sep a b c h free = split_from-append sep String.[] a b c h free

pub split_on-whole : (sep : ℕ) (a : String) → Lacks sep a → split_on sep a ≡ a ∷ []
unfolding split_on reverse_onto
split_on-whole sep a free = split_from-whole sep String.[] a free

reverse_onto-append :
    (a b t : String) → reverse_onto (append a b) t ≡ reverse_onto b (reverse_onto a t)
unfolding reverse_onto append
reverse_onto-append String.[] b t = refl
reverse_onto-append (String.◌∷◌ c a) b t = reverse_onto-append a b (String.◌∷◌ c t)

reverse_onto-onto :
    (a b t : String) → reverse_onto (reverse_onto a b) t ≡ reverse_onto b (append a t)
unfolding reverse_onto append
reverse_onto-onto String.[] b t = refl
reverse_onto-onto (String.◌∷◌ c a) b t = reverse_onto-onto a (String.◌∷◌ c b) t

drop_leading-repeat :
    (k : ℕ) (c : Char) (n : ℕ) (t : String)
    → code c == k ≡ true
    → drop_leading k (reverse_onto (repeat c n) t) ≡ drop_leading k t
unfolding drop_leading reverse_onto repeat
drop_leading-repeat k c zero t h = refl
drop_leading-repeat k c (suc n) t h =
    drop_leading-repeat k c n (String.◌∷◌ c t) h
    ∙ ap (λ b. if b then drop_leading k t else String.◌∷◌ c t) h

drop_leading-Lacks : (k : ℕ) (a : String) → Lacks k a → drop_leading k a ≡ a
unfolding drop_leading
drop_leading-Lacks k String.[] free = refl
drop_leading-Lacks k (String.◌∷◌ c a) (here, free) =
    ap (λ b. if b then drop_leading k a else String.◌∷◌ c a) here

Lacks-reverse_onto : (k : ℕ) (a t : String) → Lacks k a → Lacks k t → Lacks k (reverse_onto a t)
unfolding reverse_onto
Lacks-reverse_onto k String.[] t free more = more
Lacks-reverse_onto k (String.◌∷◌ c a) t (here, free) more =
    Lacks-reverse_onto k a (String.◌∷◌ c t) free (here, more)

append-nothing : (a : String) → append a String.[] ≡ a
unfolding append
append-nothing String.[] = refl
append-nothing (String.◌∷◌ c a) = ap (String.◌∷◌ c) (append-nothing a)

-- Padding is taken off again.
pub rstrip_of-append :
    (k : ℕ) (a : String) (c : Char) (n : ℕ)
    → code c == k ≡ true
    → Lacks k a
    → rstrip_of k (append a (repeat c n)) ≡ a
unfolding rstrip_of reverse_onto
rstrip_of-append k a c n h free =
    ap (λ t. reverse_onto (drop_leading k t) String.[])
      (reverse_onto-append a (repeat c n) String.[])
    ∙ ap (λ t. reverse_onto t String.[])
        (drop_leading-repeat k c n (reverse_onto a String.[]) h
          ∙ drop_leading-Lacks k (reverse_onto a String.[])
              (Lacks-reverse_onto k a String.[] free tt))
    ∙ reverse_onto-onto a String.[] String.[]
    ∙ append-nothing a
