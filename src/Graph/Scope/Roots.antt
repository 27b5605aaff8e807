-- ===== src/Graph/Scope/Roots.antt =====
-- The walk visits the root fields: those of the operation and of every fragment it leads to.
use mathlib.Core.Path.{subst}
use mathlib.Core.Option.{some-injective}
use tallox_go.Prelude.{
  Text, List, [], ◌∷◌, ◌++◌, some, true, ◌==◌, text_comparable, text_eq_law, contains, ◌≡◌, ◌⊎◌,
  sym, ap, ◌∙◌, arith, Bool-cases, eq_self, inl, inr,
}
use tallox_go.Graph.Scope.{
  Field, SelectionSet, nothing, field, inline_fragment, fragment_spread, Fragment, definition_of,
}
use tallox_go.Graph.Scope.Walk.{
  Grows, Walks, ended, visits, descends, unknown, again, enters, Walks-Grows,
}

-- A field that the execution of these selections asks for.
pub data IsRoot (fs : List Fragment) (f : Field) : SelectionSet → Type 0 where
  here : (rest : SelectionSet) → IsRoot fs f (field f rest)
  after_field : (g : Field) (rest : SelectionSet) → IsRoot fs f rest → IsRoot fs f (field g rest)
  inside :
      (inner rest : SelectionSet) → IsRoot fs f inner → IsRoot fs f (inline_fragment inner rest)
  after_inline :
      (inner rest : SelectionSet) → IsRoot fs f rest → IsRoot fs f (inline_fragment inner rest)
  spread :
      (name : Text) (d rest : SelectionSet)
      → definition_of fs name ≡ some d
      → IsRoot fs f d
      → IsRoot fs f (fragment_spread name rest)
  after_spread :
      (name : Text) (rest : SelectionSet)
      → IsRoot fs f rest
      → IsRoot fs f (fragment_spread name rest)

abbrev pub All {ℓ} : (Field → Type ℓ) → List Field → Type ℓ
All P [] = Unit
All P (f ∷ out) = P f × All P out

All-append {ℓ} : (P : Field → Type ℓ) (xs ys : List Field) → All P xs → All P ys → All P (xs ++ ys)
All-append P [] ys hx hy = hy
All-append P (x ∷ xs) ys (h, hs) hy = (h, All-append P xs ys hs hy)

All-left {ℓ} : (P : Field → Type ℓ) (xs ys : List Field) → All P (xs ++ ys) → All P xs
All-left P [] ys h = tt
All-left P (x ∷ xs) ys (h, hs) = (h, All-left P xs ys hs)

All-right {ℓ} : (P : Field → Type ℓ) (xs ys : List Field) → All P (xs ++ ys) → All P ys
All-right P [] ys h = h
All-right P (x ∷ xs) ys (h, hs) = All-right P xs ys hs

module _ (fs : List Fragment) (P : Field → Type 0) where
  -- What is visited are root fields.
  pub Walks-sound :
      {v v' : List Text} {sel : SelectionSet} {out : List Field}
      → Walks fs v sel v' out
      → ((f : Field) → IsRoot fs f sel → P f)
      → All P out
  Walks-sound (ended v) p = tt
  Walks-sound (visits w) p = (p _ (here _), Walks-sound w (λ f r. p f (after_field _ _ r)))
  Walks-sound (descends w w') p =
      All-append P _ _ (Walks-sound w (λ f r. p f (inside _ _ r)))
        (Walks-sound w' (λ f r. p f (after_inline _ _ r)))
  Walks-sound (unknown e w) p = Walks-sound w (λ f r. p f (after_spread _ _ r))
  Walks-sound (again e w) p = Walks-sound w (λ f r. p f (after_spread _ _ r))
  Walks-sound (enters e new w w') p =
      All-append P _ _ (Walks-sound w (λ f r. p f (spread _ _ _ e r)))
        (Walks-sound w' (λ f r. p f (after_spread _ _ r)))

  -- The fields of a selection have the property, and its fragments are visited.
  abbrev Covered : List Text → SelectionSet → Type 0
  Covered v nothing = Unit
  Covered v (field f rest) = P f × Covered v rest
  Covered v (inline_fragment inner rest) = Covered v inner × Covered v rest
  Covered v (fragment_spread name rest) =
      ((d : SelectionSet) → definition_of fs name ≡ some d → contains v name ≡ true)
      × Covered v rest

  Covered-Grows : (v w : List Text) (sel : SelectionSet) → Grows v w → Covered v sel → Covered w sel
  Covered-Grows v w nothing g c = tt
  Covered-Grows v w (field f rest) g (p, c) = (p, Covered-Grows v w rest g c)
  Covered-Grows v w (inline_fragment inner rest) g (c, c') =
      (Covered-Grows v w inner g c, Covered-Grows v w rest g c')
  Covered-Grows v w (fragment_spread name rest) g (s, c) =
      (λ d e. g name (s d e), Covered-Grows v w rest g c)

  Walks-Covered :
      {v v' : List Text} {sel : SelectionSet} {out : List Field}
      → Walks fs v sel v' out
      → All P out
      → Covered v' sel
  Walks-Covered (ended v) p = tt
  Walks-Covered (visits w) (p, ps) = (p, Walks-Covered w ps)
  Walks-Covered (descends w w') p = (
    Covered-Grows _ _ _ (Walks-Grows w') (Walks-Covered w (All-left P _ _ p)),
    Walks-Covered w' (All-right P _ _ p),
  )
  Walks-Covered (unknown e w) p = (λ d found. ground (arith, e, found), Walks-Covered w p)
  Walks-Covered (again seen w) p = (λ d found. Walks-Grows w _ seen, Walks-Covered w p)
  Walks-Covered (enters {name = name} e new w w') p = (
    λ d found. Walks-Grows w' name (Walks-Grows w name (ground (arith, eq_self name))),
    Walks-Covered w' (All-right P _ _ p),
  )

  -- A fragment that is visited in the end was so before, or is covered.
  Walks-entered :
      {v v' : List Text} {sel : SelectionSet} {out : List Field}
      → Walks fs v sel v' out
      → All P out
      → (n : Text) (d : SelectionSet) → contains v' n ≡ true
      → definition_of fs n ≡ some d
      → (contains v n ≡ true) ⊎ Covered v' d
  Walks-entered (ended v) p n d m e = inl m
  Walks-entered (visits w) (p, ps) n d m e = Walks-entered w ps n d m e
  Walks-entered (descends w w') p n d m e = elim (Walks-entered w' (All-right P _ _ p) n d m e) [
    | inr c ↦ inr c
    | inl m' ↦ elim (Walks-entered w (All-left P _ _ p) n d m' e) [
      | inl m'' ↦ inl m''
      | inr c ↦ inr (Covered-Grows _ _ d (Walks-Grows w') c)
    ]
  ]
  Walks-entered (unknown u w) p n d m e = Walks-entered w p n d m e
  Walks-entered (again u w) p n d m e = Walks-entered w p n d m e
  Walks-entered (enters {name = name} found new w w') p n d m e =
      elim (Walks-entered w' (All-right P _ _ p) n d m e) [
        | inr c ↦ inr c
        | inl m' ↦ elim (Walks-entered w (All-left P _ _ p) n d m' e) [
          | inr c ↦ inr (Covered-Grows _ _ d (Walks-Grows w') c)
          | inl m'' ↦ elim (Bool-cases (name == n)) [
            | inr other ↦ inl (ground (arith, m'', other))
            | inl same ↦ inr (
                Covered-Grows _ _ d (Walks-Grows w') (
                  subst (Covered _)
                    (some-injective _ _
                      (sym found ∙ ap (definition_of fs) ((text_eq_law name n).0 same) ∙ e))
                    (Walks-Covered w (All-left P _ _ p))))
          ]
        ]
      ]

  Covered-root :
      {f : Field} {sel : SelectionSet} (v : List Text)
      → ((n : Text) (d : SelectionSet)
          → contains v n ≡ true
          → definition_of fs n ≡ some d
          → Covered v d)
      → IsRoot fs f sel
      → Covered v sel
      → P f
  Covered-root v all (here rest) c = c.0
  Covered-root v all (after_field g rest r) c = Covered-root v all r c.1
  Covered-root v all (inside inner rest r) c = Covered-root v all r c.0
  Covered-root v all (after_inline inner rest r) c = Covered-root v all r c.1
  Covered-root v all (spread name d rest e r) c = Covered-root v all r (all name d (c.0 d e) e)
  Covered-root v all (after_spread name rest r) c = Covered-root v all r c.1

  -- Every root field is visited.
  pub Walks_complete :
      {v' : List Text} {sel : SelectionSet} {out : List Field}
      → Walks fs [] sel v' out
      → All P out
      → (f : Field) → IsRoot fs f sel
      → P f
  Walks_complete w p f r =
      Covered-root _
        (λ n d m e. elim (Walks-entered w p n d m e) [
          | inl never ↦ ground (arith, never)
          | inr c ↦ c
        ])
        r (Walks-Covered w p)
