-- ===== src/Prelude/Texts.antt =====
-- Text as a list of code points: equality, ASCII case, trimming and splitting.
use Prim.Native.Nat.{ℕ, ◌+◌, ◌-◌, ◌<◌}
use Prim.Native.Char.{code}
use Prim.Native.String.{String}
use mathlib.Core.Path.{◌≡◌, refl}
use mathlib.Core.Logic.{◌≢◌, ◌↔◌}
use mathlib.Core.Bool.{Bool, true, false, ◌&&◌, ◌||◌}
use mathlib.Core.List.{
  List, [], ◌∷◌, ◌++◌, map, reverse, reverse-cons, reverse-reverse, append_assoc, append-nil,
}
use native.Mathlib.Omega.{arith}
use zettapay.Prelude.Tests.{leb, ==_refl, ◌==◌, if◌then◌else◌}
use zettapay.Prelude.Lists.{All, All-append}

abbrev pub Text : Type 0
Text = List ℕ

-- The code points of a literal.
abbrev pub codes : String → Text
codes String.[] = []
codes (String.◌∷◌ c s) = code c ∷ codes s

-- `===` on strings.
infix 50 ◌===◌
unfoldable pub ◌===◌ : Text → Text → Bool
[] === [] = true
[] === (y ∷ ys) = false
(x ∷ xs) === [] = false
(x ∷ xs) === (y ∷ ys) = x == y && xs === ys

pub text_eq_iff : (a b : Text) → ((a === b) ≡ true) ↔ (a ≡ b)
unfolding ◌===◌
text_eq_iff [] [] = ground arith
text_eq_iff [] (y ∷ ys) = ground arith
text_eq_iff (x ∷ xs) [] = ground arith
text_eq_iff (x ∷ xs) (y ∷ ys) = ground (arith, text_eq_iff xs ys)

pub text_eq_refl : (a : Text) → (a === a) ≡ true
text_eq_refl a = (text_eq_iff a a).1 refl

pub text_ne : (a b : Text) → (a === b) ≡ false → a ≢ b
text_ne a b h = λ e. cc (h, (text_eq_iff a b).1 e)

-- `toLowerCase` and `toUpperCase` on ASCII letters; other code points stay.
unfoldable pub lower : ℕ → ℕ
lower c = if leb b'A' c && leb c b'Z' then c + 32 else c

upper : ℕ → ℕ
upper c = if leb b'a' c && leb c b'z' then c - 32 else c

unfoldable pub to_lower_case : Text → Text
unfolding lower
to_lower_case = map lower

unfoldable pub to_upper_case : Text → Text
unfolding upper
to_upper_case = map upper

pub is_space : ℕ → Bool
is_space c = c == 32 || (leb 9 c && leb c 13)

trim_start : Text → Text
trim_start [] = []
trim_start (c ∷ s) = let rest = trim_start s in if is_space c then rest else c ∷ s

abbrev pub IsInk : ℕ → Type 0
IsInk c = is_space c ≡ false

trim_start-IsInk : (s : Text) → All IsInk s → trim_start s ≡ s
unfolding trim_start
trim_start-IsInk [] h = refl
trim_start-IsInk (c ∷ s) h = rw h.0

reverse-IsInk : (s : Text) → All IsInk s → All IsInk (reverse s)
reverse-IsInk [] h = tt
reverse-IsInk (c ∷ s) h =
    rw reverse-cons (All-append IsInk (reverse s) (c ∷ []) (reverse-IsInk s h.1) (h.0, tt))

-- `trim` on ASCII white space.
unfoldable pub trim : Text → Text
unfolding trim_start is_space
trim s = reverse (trim_start (reverse (trim_start s)))

unfoldable pub split_from : ℕ → Text → Text → List Text
split_from sep cur [] = cur ∷ []
split_from sep cur (c ∷ s) =
    let here = cur ∷ split_from sep [] s in
    let more = split_from sep (cur ++ c ∷ []) s in if c == sep then here else more

pub trim-IsInk : (s : Text) → All IsInk s → trim s ≡ s
unfolding trim
trim-IsInk s h =
    rw (trim_start-IsInk s h, trim_start-IsInk (reverse s) (reverse-IsInk s h)) (reverse-reverse s)

pub graphic-IsInk : (c : ℕ) → 32 < c → IsInk c
unfolding is_space
graphic-IsInk c h = ground arith

-- `split` at one character.
unfoldable pub split : ℕ → Text → List Text
unfolding split_from
split sep s = split_from sep [] s

module _ (sep : ℕ) where
  -- No separator stands in the text.
  abbrev pub IsUnsplit : Text → Type 0
  IsUnsplit = All (λ (c : ℕ). (c == sep) ≡ false)

  split_from-IsUnsplit : (s cur : Text) → IsUnsplit s → split_from sep cur s ≡ (cur ++ s) ∷ []
  unfolding split_from
  split_from-IsUnsplit [] cur h = rw append-nil refl
  split_from-IsUnsplit (c ∷ s) cur h =
      rw (h.0, split_from-IsUnsplit s (cur ++ c ∷ []) h.1, append_assoc) refl

  split_from-append :
      (s t cur : Text)
      → IsUnsplit s
      → split_from sep cur (s ++ sep ∷ t) ≡ (cur ++ s) ∷ split_from sep [] t
  unfolding split_from
  split_from-append [] t cur h = rw (append-nil, ==_refl sep) refl
  split_from-append (c ∷ s) t cur h =
      rw (h.0, split_from-append s t (cur ++ c ∷ []) h.1, append_assoc) refl

  -- The last part, and a part in front of a separator.
  pub split-IsUnsplit : (s : Text) → IsUnsplit s → split sep s ≡ s ∷ []
  unfolding split
  split-IsUnsplit s h = split_from-IsUnsplit s [] h

  pub split-append : (s t : Text) → IsUnsplit s → split sep (s ++ sep ∷ t) ≡ s ∷ split sep t
  unfolding split
  split-append s t h = split_from-append s t [] h

unfoldable pub elem : Text → List Text → Bool
elem a [] = false
elem a (b ∷ bs) = a === b || elem a bs
