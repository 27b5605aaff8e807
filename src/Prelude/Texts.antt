-- ===== src/Prelude/Texts.antt =====
-- Texts as lists of code points, and the functions of Go's `strings` that the source calls.
use Prim.Native.Nat.{ℕ, ◌-◌, ◌<◌}
use Prim.Native.Char.{code}
use Prim.Native.String.{String}
use mathlib.Core.Path.{ap, ◌≡◌, refl}
use mathlib.Core.Logic.{inl, inr, ◌↔◌}
use mathlib.Core.Bool.{Bool, true, false, ◌&&◌, ◌||◌}
use mathlib.Core.Option.{Option, none, some}
use mathlib.Core.List.{List, [], ◌∷◌, ◌++◌, map}
use native.Mathlib.Omega.{arith}
use tallox_go.Prelude.Tests.{
  nat_eq_iff, Bool-cases, leb, ltb, nat_eq, if◌then◌else◌, Comparable, ◌==◌, nat_comparable,
}
use tallox_go.Prelude.Lists.{is_empty, contains}

abbrev pub Text : Type 0
Text = List ℕ

abbrev pub codes : String → Text
codes String.[] = []
codes (String.◌∷◌ c s) = code c ∷ codes s

abbrev pub text_eq : Text → Text → Bool
text_eq [] [] = true
text_eq [] (c ∷ t) = false
text_eq (c ∷ s) [] = false
text_eq (c ∷ s) (d ∷ t) = nat_eq c d && text_eq s t

-- `<` on texts.
unfoldable pub text_lt : Text → Text → Bool
text_lt s [] = false
text_lt [] (d ∷ t) = true
text_lt (c ∷ s) (d ∷ t) = let rest = text_lt s t in ltb c d || (nat_eq c d && rest)

text_eq_sound : (s t : Text) → text_eq s t ≡ true → s ≡ t
text_eq_sound [] [] h = refl
text_eq_sound [] (c ∷ t) h = ground arith
text_eq_sound (c ∷ s) [] h = ground arith
text_eq_sound (c ∷ s) (d ∷ t) h = ground (arith, text_eq_sound s t)

text_eq_refl : (s : Text) → text_eq s s ≡ true
text_eq_refl [] = refl
text_eq_refl (c ∷ s) = ground (arith, text_eq_refl s)

pub text_eq_law : (s t : Text) → (text_eq s t ≡ true) ↔ (s ≡ t)
text_eq_law s t = (text_eq_sound s t, λ e. rw (← e) (text_eq_refl s))

instance abbrev pub text_comparable : Comparable Text
text_comparable = record { eq = text_eq; eq_law = text_eq_law }

-- `strings.Cut` at a separator of one byte.
unfoldable pub cut : ℕ → Text → Option (Text × Text)
cut sep [] = none
cut sep (c ∷ t) =
    if nat_eq c sep
    then some ([], t)
    else elim (cut sep t) [ none ↦ none | some (before, after) ↦ some (c ∷ before, after) ]

pub cut_sound : (sep : ℕ) (t x y : Text) → cut sep t ≡ some (x, y) → t ≡ x ++ sep ∷ y
unfolding cut
cut_sound sep [] x y h = ground arith
cut_sound sep (c ∷ t) [] y h = ground (arith, cut_sound sep t [] y)
cut_sound sep (c ∷ t) (d ∷ x) y h = ground (arith, cut_sound sep t x y)

pub cut-append :
    (sep : ℕ) (x y : Text) → contains x sep ≡ false → cut sep (x ++ sep ∷ y) ≡ some (x, y)
unfolding cut
cut-append sep [] y h = ground arith
cut-append sep (c ∷ x) y h = ground (arith, cut-append sep x y)

-- `strings.CutPrefix`.
unfoldable pub cut_prefix : Text → Text → Option Text
cut_prefix [] t = some t
cut_prefix (p ∷ ps) [] = none
cut_prefix (p ∷ ps) (c ∷ t) = let rest = cut_prefix ps t in if p == c then rest else none

pub cut_prefix-append : (p t : Text) → cut_prefix p (p ++ t) ≡ some t
unfolding cut_prefix
cut_prefix-append [] t = refl
cut_prefix-append (c ∷ p) t = ground (arith, cut_prefix-append p t)

pub cut_prefix_sound : (p t rest : Text) → cut_prefix p t ≡ some rest → t ≡ p ++ rest
unfolding cut_prefix
cut_prefix_sound [] t rest h = ground arith
cut_prefix_sound (p ∷ ps) [] rest h = ground arith
cut_prefix_sound (p ∷ ps) (c ∷ t) rest h = ground (arith, cut_prefix_sound ps t rest)

-- `strings.TrimLeft`: what is left when the symbols of a set are taken off.
unfoldable pub trim_left_set : Text → Text → Text
trim_left_set set [] = []
trim_left_set set (c ∷ t) = let rest = trim_left_set set t in if contains set c then rest else c ∷ t

pub trim_left_set-member :
    (set : Text) (c : ℕ) (t : Text)
    → contains set c ≡ true
    → trim_left_set set (c ∷ t) ≡ trim_left_set set t
unfolding trim_left_set
trim_left_set-member set c t h = rw h

-- If nothing is left, a symbol outside the set stands nowhere in the text.
pub not-contains_of_trim :
    (set : Text) (sep : ℕ) (t : Text)
    → contains set sep ≡ false
    → trim_left_set set t ≡ []
    → contains t sep ≡ false
unfolding trim_left_set
not-contains_of_trim set sep [] out h = refl
not-contains_of_trim set sep (c ∷ t) out h = elim (Bool-cases (contains set c)) [
  | inl inside ↦ elim (Bool-cases (nat_eq c sep)) [
    | inl same ↦ ground (arith, inside, out, ap (λ x. contains set x) ((nat_eq_iff c sep).0 same))
    | inr other ↦ ground (arith, inside, other, not-contains_of_trim set sep t out)
  ]
  | inr outside ↦ ground (arith, outside, h)
]

-- The tables of Go's `unicode` package, as far as the source's texts depend on them: what
-- `unicode.IsSpace` and `unicode.ToUpper` are documented to do below 128.
pub record Unicode : Type 0 where
  pub is_space : ℕ → Bool
  pub upper : ℕ → ℕ
  pub is_space_ascii : (c : ℕ) → c < 128 → is_space c ≡ (c == 32 || (leb 9 c && leb c 13))
  pub upper_ascii : (c : ℕ) → c < 128 → upper c ≡ (if leb 97 c && leb c 122 then c - 32 else c)

-- Capitals and what else is neither a space nor a small letter.
abbrev pub is_plain : Text → Bool
is_plain [] = true
is_plain (c ∷ t) = leb 33 c && (leb c 96 && is_plain t)

-- `strings.TrimSpace`.
module _ (u : Unicode) where
  unfoldable pub trim_left : Text → Text
  trim_left [] = []
  trim_left (c ∷ t) = let rest = trim_left t in if u.is_space c then rest else c ∷ t

  unfoldable pub trim_right : Text → Text
  trim_right [] = []
  trim_right (c ∷ t) =
      let rest = trim_right t in if is_empty rest && u.is_space c then [] else c ∷ rest

  unfoldable pub trim_space : Text → Text
  unfolding trim_left trim_right
  trim_space t = trim_right (trim_left t)

  unfoldable pub to_upper : Text → Text
  to_upper t = map u.upper t

  trim_right-plain : (t : Text) → is_plain t ≡ true → trim_right t ≡ t
  unfolding trim_right
  trim_right-plain [] h = refl
  trim_right-plain (c ∷ t) h =
      rw (trim_right-plain t (ground arith)) (ground (arith, u.is_space_ascii c (ground arith)))

  pub trim_space-plain : (t : Text) → is_plain t ≡ true → trim_space t ≡ t
  unfolding trim_space
  trim_space-plain [] h = refl
  trim_space-plain (c ∷ t) h =
      ground (arith, u.is_space_ascii c (ground arith), trim_right-plain (c ∷ t) h)

  pub to_upper-plain : (t : Text) → is_plain t ≡ true → to_upper t ≡ t
  unfolding to_upper
  to_upper-plain [] h = refl
  to_upper-plain (c ∷ t) h =
      ground (arith, u.upper_ascii c (ground arith), to_upper-plain t (ground arith))

-- The tables cut down to ASCII.
abbrev pub ascii : Unicode
ascii = record {
  is_space = λ c. c == 32 || (leb 9 c && leb c 13);
  upper = λ c. if leb 97 c && leb c 122 then c - 32 else c;
  is_space_ascii = λ c h. refl;
  upper_ascii = λ c h. refl;
}
