-- ===== src/Policy/Phase.antt =====
-- internal/policy/phase.go, and `MayMoveTo` and `Neighbours` of semester.go: the phases of a
-- semester and the steps between them.
pub mod Steps
use tallox_go.Prelude.{
  ℕ, suc, ◌-◌, String, List, [], ◌∷◌, Option, none, some, Bool, true, false, ◌&&◌, ◌||◌, ◌≡◌, ◌↔◌,
  arith, nat_eq, ltb, if◌then◌else◌, Comparable, ◌==◌, nat_comparable, string_comparable,
}
use mathlib.Core.Path.{subst}
use text.Mathlib.TextEquality.{eq_iff}
use text.Mathlib.Text.{◌==◌ as str_eq}

-- `other` stands for any text that is none of the five constants, the zero value `""` among them.
pub data Phase : Type 0 where
  demand_planning wishes assignment review final : Phase
  other : String → Phase

unfoldable pub phase_string : Phase → String
phase_string demand_planning = "DEMAND_PLANNING"
phase_string wishes = "WISHES"
phase_string assignment = "ASSIGNMENT"
phase_string review = "REVIEW"
phase_string final = "FINAL"
phase_string (other s) = s

abbrev place : Phase → ℕ
place demand_planning = 0
place wishes = 1
place assignment = 2
place review = 3
place final = 4
place (other s) = 5

abbrev rest : Phase → String
rest (other s) = s
rest _ = ""

abbrev pub phase_eq : Phase → Phase → Bool
phase_eq p q = nat_eq (place p) (place q) && str_eq (rest p) (rest q)

phase_eq_sound : (p q : Phase) → phase_eq p q ≡ true → p ≡ q
phase_eq_sound p q h = ground (arith, eq_iff (rest p) (rest q))

phase_eq_refl : (p : Phase) → phase_eq p p ≡ true
phase_eq_refl p = ground (arith, eq_iff (rest p) (rest p))

pub phase_eq_law : (p q : Phase) → (phase_eq p q ≡ true) ↔ (p ≡ q)
phase_eq_law p q = (phase_eq_sound p q, λ e. subst (λ x. phase_eq p x ≡ true) e (phase_eq_refl p))

instance abbrev pub phase_comparable : Comparable Phase
phase_comparable = record { eq = phase_eq; eq_law = phase_eq_law }

abbrev pub all_phases : List Phase
all_phases = demand_planning ∷ wishes ∷ assignment ∷ review ∷ final ∷ []

find_phase : String → List Phase → Option Phase
find_phase s [] = none
find_phase s (p ∷ ps) = if phase_string p == s then some p else find_phase s ps

unfoldable pub parse_phase : String → Option Phase
unfolding find_phase phase_string
parse_phase s = find_phase s all_phases

unfoldable pub valid : Phase → Bool
unfolding parse_phase
valid p = elim (parse_phase (phase_string p)) [ some q ↦ true | none ↦ false ]

-- The loop of `index`; `none` stands for -1.
index_from : ℕ → List Phase → Phase → Option ℕ
index_from i [] p = none
index_from i (known ∷ ps) p = if known == p then some i else index_from (suc i) ps p

unfoldable pub index : Phase → Option ℕ
unfolding index_from
index p = index_from 0 all_phases p

-- Both phases are known, and their places pass the test.
abbrev both_known : Option ℕ → Option ℕ → (ℕ → ℕ → Bool) → Bool
both_known (some pi) (some oi) test = test pi oi
both_known _ _ test = false

unfoldable pub before : Phase → Phase → Bool
before p q = both_known (index p) (index q) (λ pi oi. ltb pi oi)

unfoldable pub after : Phase → Phase → Bool
after p q = both_known (index p) (index q) (λ pi oi. ltb oi pi)

-- A difference of 1 is not reached by the truncation of `-`.
unfoldable pub may_move_to : Phase → Phase → Bool
may_move_to p q = both_known (index p) (index q) (λ pi oi. nat_eq (pi - oi) 1 || nat_eq (oi - pi) 1)

keep_moves : Phase → List Phase → List Phase
keep_moves p [] = []
keep_moves p (candidate ∷ ps) =
    let out = keep_moves p ps in if may_move_to p candidate then candidate ∷ out else out

unfoldable pub neighbours : Phase → List Phase
unfolding keep_moves
neighbours p = keep_moves p all_phases
