-- ===== src/Policy/Phase/Steps.antt =====
-- The order of the phases and the steps between them.
use tallox_go.Prelude.{
  ℕ, zero, suc, ◌+◌, ◌-◌, ◌≤◌, ◌<◌, some, true, false, ◌≡◌, ◌≢◌, ◌⊎◌, refl, ap, arith, contains,
}
use mathlib.Core.Path.{subst}
use native.Mathlib.Decide.{dec_le}
use tallox_go.Policy.Phase.{
  Phase, demand_planning, wishes, assignment, review, final, other, phase_comparable, index, before,
  after, may_move_to, neighbours,
}

-- The five constants.
abbrev pub IsKnown : Phase → Type 0
IsKnown (other s) = ⊥
IsKnown _ = Unit {0}

abbrev pub position : Phase → ℕ
position demand_planning = 0
position wishes = 1
position assignment = 2
position review = 3
position final = 4
position (other s) = 5

index-position : (p : Phase) → IsKnown p → index p ≡ some (position p)
unfolding index
index-position demand_planning h = refl
index-position wishes h = refl
index-position assignment h = refl
index-position review h = refl
index-position final h = refl
index-position (other s) h = elim h [ ]

position_injective : (p q : Phase) → IsKnown p → IsKnown q → position p ≡ position q → p ≡ q
position_injective p q hp hq e = ground arith

-- Steps are symmetric, no phase is a step from itself, and a text that is no phase takes part in
-- none.
pub may_move_to_sym :
    (p q : Phase)
    → (may_move_to p q ≡ may_move_to q p)
      × (may_move_to p p ≡ false)
      × (may_move_to p q ≡ true → IsKnown p × IsKnown q)
unfolding may_move_to index
may_move_to_sym p q = (ground arith, ground arith, ground arith)

-- The buttons: the neighbours of a phase are exactly the phases that it may be switched to.
pub contains-neighbours : (p q : Phase) → contains (neighbours p) q ≡ may_move_to p q
unfolding neighbours may_move_to index
contains-neighbours p q = ground arith

-- Of two known phases exactly one stands before the other, or they are the same.
pub before_trichotomy :
    (p q : Phase)
    → IsKnown p
    → IsKnown q
    → ((before p q ≡ true) × (after p q ≡ false) × (p ≢ q))
      ⊎ ((before p q ≡ false) × (after p q ≡ true) × (p ≢ q))
      ⊎ ((before p q ≡ false) × (after p q ≡ false) × (p ≡ q))
unfolding before after
before_trichotomy p q hp hq = ground (
  arith,
  index-position p hp,
  index-position q hq,
  position_injective p q,
  ap position {x = p} {y = q},
)

-- A history of permitted switches, with their number.
pub data Moves : ℕ → Phase → Phase → Type 0 where
  here : {p : Phase} → Moves 0 p p
  move : {n : ℕ} {p q r : Phase} → may_move_to p q ≡ true → Moves n q r → Moves (suc n) p r

move-position :
    (p q : Phase)
    → may_move_to p q ≡ true
    → (position p ≤ position q + 1) × (position q ≤ position p + 1)
unfolding may_move_to index
move-position p q h = ground arith

-- No history skips a phase: it has at least as many switches as there are phases between its
-- ends, forwards and backwards.
pub Moves-position :
    {n : ℕ} {p q : Phase}
    → Moves n p q
    → (position q ≤ position p + n) × (position p ≤ position q + n)
Moves-position here = omega arith
Moves-position (move {n} {p = p} {q = q} h m) = omega (arith, move-position p q h, Moves-position m)

-- One switch forward and one back between neighbouring places.
next : Phase → Phase
next demand_planning = wishes
next wishes = assignment
next assignment = review
next review = final
next p = p

move_next :
    (p : Phase)
    → IsKnown p
    → position p < 4
    → IsKnown (next p)
      × (may_move_to p (next p) ≡ true)
      × (may_move_to (next p) p ≡ true)
      × (position (next p) ≡ position p + 1)
unfolding next may_move_to index
move_next demand_planning h lt = (tt, refl, refl, refl)
move_next wishes h lt = (tt, refl, refl, refl)
move_next assignment h lt = (tt, refl, refl, refl)
move_next review h lt = (tt, refl, refl, refl)
move_next final h lt = absurd (omega arith)
move_next (other s) h lt = elim h [ ]

position_le : (p : Phase) → IsKnown p → position p ≤ 4
position_le p h = ground arith

forward : (n : ℕ) (p q : Phase) → IsKnown p → IsKnown q → n + position p ≡ position q → Moves n p q
forward zero p q hp hq e = subst (Moves 0 p) (position_injective p q hp hq (omega (arith, e))) here
forward (suc n) p q hp hq e =
    let (known, step, _, pos) = move_next p hp (omega (arith, e, position_le q hq)) in
    move step (forward n (next p) q known hq (omega (arith, e, pos)))

Moves-snoc : {n : ℕ} {p q r : Phase} → Moves n p q → may_move_to q r ≡ true → Moves (suc n) p r
Moves-snoc here h = move h here
Moves-snoc (move first rest) h = move first (Moves-snoc rest h)

backward : (n : ℕ) (p q : Phase) → IsKnown p → IsKnown q → n + position q ≡ position p → Moves n p q
backward zero p q hp hq e = subst (Moves 0 p) (position_injective p q hp hq (omega (arith, e))) here
backward (suc n) p q hp hq e =
    let (known, _, step, pos) = move_next q hq (omega (arith, e, position_le p hp)) in
    Moves-snoc (backward n p (next q) hp known (omega (arith, e, pos))) step

-- Every known phase can be reached from every other, in as many switches as their distance.
pub Moves-total :
    (p q : Phase)
    → IsKnown p
    → IsKnown q
    → Moves ((position p - position q) + (position q - position p)) p q
Moves-total p q hp hq = elim (dec_le (position p) (position q)) [
  | yes up ↦ forward _ p q hp hq (omega (arith, up))
  | no down ↦ backward _ p q hp hq (omega (arith, down))
]

-- One history after another.
pub Moves_trans : {n m : ℕ} {p q r : Phase} → Moves n p q → Moves m q r → (k : ℕ) × Moves k p r
Moves_trans {m = m} here later = (m, later)
Moves_trans (move h earlier) later = let (k, all) = Moves_trans earlier later in (suc k, move h all)
