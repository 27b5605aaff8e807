-- ===== src/Graph/Scope/Walk.antt =====
-- The walk of the root fields ends, whatever the fragments refer to.
use tallox_go.Prelude.{
  ℕ, zero, suc, ◌≤◌, ◌<◌, Text, List, [], ◌∷◌, ◌++◌, Option, none, some, true, false, ◌==◌,
  text_comparable, text_eq_law, contains, length, if◌then◌else◌, ◌≡◌, refl, ap, arith, Bool-cases,
  Option-cases, inl, inr,
}
use tallox_go.Graph.Scope.{
  Field, SelectionSet, nothing, field, inline_fragment, fragment_spread, Fragment,
  OperationDefinition, definition_of, walk, root_fields,
}

-- Whatever is visited stays visited.
abbrev pub Grows : List Text → List Text → Type 0
Grows v v' = (n : Text) → contains v n ≡ true → contains v' n ≡ true

pub Grows-cons : (name : Text) (v : List Text) → Grows v (name ∷ v)
Grows-cons name v n h = ground (arith, h)

-- How many fragments have a name that is not visited.
unvisited : List Fragment → List Text → ℕ
unvisited [] v = 0
unvisited (f ∷ fs) v = let rest = unvisited fs v in if contains v f.name then rest else suc rest

unvisited_le :
    (fs : List Fragment) (v v' : List Text) → Grows v v' → unvisited fs v' ≤ unvisited fs v
unfolding unvisited
unvisited_le [] v v' g = omega arith
unvisited_le (f ∷ fs) v v' g = ground (arith, g f.name, unvisited_le fs v v' g)

unvisited_lt :
    (fs : List Fragment) (v : List Text) (name : Text) (d : SelectionSet)
    → definition_of fs name ≡ some d
    → contains v name ≡ false
    → unvisited fs (name ∷ v) < unvisited fs v
unfolding unvisited definition_of
unvisited_lt [] v name d h new = ground (arith, h)
unvisited_lt (f ∷ fs) v name d h new = elim (Bool-cases (f.name == name)) [
  | inl same ↦ ground (
    arith,
    new,
    same,
    ap (λ n. contains v n) ((text_eq_law f.name name).0 same),
    text_eq_law name f.name,
    text_eq_law f.name name,
    unvisited_le fs v (name ∷ v) (Grows-cons name v),
  )
  | inr other ↦ ground (arith, h, new, other, unvisited_lt fs v name d)
]

unvisited_le_length : (fs : List Fragment) (v : List Text) → unvisited fs v ≤ length fs
unfolding unvisited
unvisited_le_length [] v = omega arith
unvisited_le_length (f ∷ fs) v = ground (arith, unvisited_le_length fs v)

-- The course of a walk, without fuel: a fragment is entered when its name is met for the first time.
pub data Walks (fs : List Fragment)
    : List Text → SelectionSet → List Text → List Field → Type 0 where
  ended : (v : List Text) → Walks fs v nothing v []
  visits :
      {v v' : List Text} {f : Field} {rest : SelectionSet} {out : List Field}
      → Walks fs v rest v' out
      → Walks fs v (field f rest) v' (f ∷ out)
  descends :
      {v v' v'' : List Text} {inner rest : SelectionSet} {out out' : List Field}
      → Walks fs v inner v' out
      → Walks fs v' rest v'' out'
      → Walks fs v (inline_fragment inner rest) v'' (out ++ out')
  unknown :
      {v v' : List Text} {name : Text} {rest : SelectionSet} {out : List Field}
      → definition_of fs name ≡ none
      → Walks fs v rest v' out
      → Walks fs v (fragment_spread name rest) v' out
  again :
      {v v' : List Text} {name : Text} {rest : SelectionSet} {out : List Field}
      → contains v name ≡ true
      → Walks fs v rest v' out
      → Walks fs v (fragment_spread name rest) v' out
  enters :
      {v v' v'' : List Text} {name : Text} {d rest : SelectionSet} {out out' : List Field}
      → definition_of fs name ≡ some d
      → contains v name ≡ false
      → Walks fs (name ∷ v) d v' out
      → Walks fs v' rest v'' out'
      → Walks fs v (fragment_spread name rest) v'' (out ++ out')

pub Walks-Grows :
    {fs : List Fragment} {v v' : List Text} {sel : SelectionSet} {out : List Field}
    → Walks fs v sel v' out
    → Grows v v'
Walks-Grows (ended v) n m = m
Walks-Grows (visits w) n m = Walks-Grows w n m
Walks-Grows (descends w w') n m = Walks-Grows w' n (Walks-Grows w n m)
Walks-Grows (unknown e w) n m = Walks-Grows w n m
Walks-Grows (again e w) n m = Walks-Grows w n m
Walks-Grows (enters e new w w') n m = Walks-Grows w' n (Walks-Grows w n (Grows-cons _ _ n m))

-- A walk returns, with what its course yields.
abbrev Returns : List Fragment → List Text → SelectionSet → Option (List Text × List Field) → Type 0
Returns fs v sel r =
    (v' : List Text) × (out : List Field) × (r ≡ some (v', out)) × Walks fs v sel v' out

walk-Returns :
    (fs : List Fragment) (fuel : ℕ) (v : List Text) (sel : SelectionSet)
    → unvisited fs v ≤ fuel
    → Returns fs v sel (walk fs fuel v sel)
unfolding walk
walk-Returns fs fuel v nothing h = (v, [], refl, ended v)
walk-Returns fs fuel v (field f rest) h =
    let (v', out, e, w) = walk-Returns fs fuel v rest h in
    (v', f ∷ out, ground (arith, e), visits w)
walk-Returns fs fuel v (inline_fragment inner rest) h =
    let (v', out, e, w) = walk-Returns fs fuel v inner h in
    let (v'', out', e', w') =
      walk-Returns fs fuel v' rest (omega (arith, h, unvisited_le fs v v' (Walks-Grows w))) in
    (v'', out ++ out', ground (arith, e, e'), descends w w')
walk-Returns fs zero v (fragment_spread name rest) h =
    let (v', out, e, w) = walk-Returns fs zero v rest h in
    elim (Option-cases (definition_of fs name)) [
      | inl missing ↦ (v', out, ground (arith, missing, e), unknown missing w)
      | inr (d, found) ↦ elim (Bool-cases (contains v name)) [
        | inl seen ↦ (v', out, ground (arith, found, seen, e), again seen w)
        | inr new ↦ absurd (omega (arith, h, unvisited_lt fs v name d found new))
      ]
    ]
walk-Returns fs (suc fuel) v (fragment_spread name rest) h =
    let (v', out, e, w) = walk-Returns fs (suc fuel) v rest h in
    elim (Option-cases (definition_of fs name)) [
      | inl missing ↦ (v', out, ground (arith, missing, e), unknown missing w)
      | inr (d, found) ↦ elim (Bool-cases (contains v name)) [
        | inl seen ↦ (v', out, ground (arith, found, seen, e), again seen w)
        | inr new ↦
            let (mid, inner, ei, wi) =
              walk-Returns fs fuel (name ∷ v) d
                (omega (arith, h, unvisited_lt fs v name d found new)) in
            let gv : Grows v mid = λ n m. Walks-Grows wi n (Grows-cons name v n m) in
            let (last, outer, eo, wo) =
              walk-Returns fs (suc fuel) mid rest (omega (arith, h, unvisited_le fs v mid gv)) in
            (last, inner ++ outer, ground (arith, found, new, ei, eo), enters found new wi wo)
      ]
    ]

-- For every operation, also one whose fragments refer to each other in a cycle, the walk of its
-- root fields ends, with the fields of a course that enters no fragment twice.
pub root_fields-Walks :
    (op : OperationDefinition)
    → (visited : List Text) × (fields : List Field) × (root_fields op ≡ some fields)
      × Walks op.fragments [] op.selection_set visited fields
unfolding root_fields
root_fields-Walks op =
    let (v', out, e, w) =
      walk-Returns op.fragments (length op.fragments) [] op.selection_set
        (unvisited_le_length op.fragments []) in
    (v', out, ground (arith, e), w)
