-- ===== src/Graph/Scope/Required.antt =====
-- graph/scope.go: the scopes that an operation requires.
use tallox_go.Prelude.{
  List, [], ◌∷◌, Bool, true, false, not, ◌&&◌, ◌||◌, is_empty, ◌≡◌, ◌⊎◌, refl, arith, Bool-cases,
  inl, inr,
}
use tallox_go.Policy.Scope.{scope_fallback}
use tallox_go.Graph.Scope.{
  Field, OperationDefinition, is_query, selects_nothing, is_introspection_field, scoped, scopes_of,
  required_of,
}
use tallox_go.Graph.Scope.Roots.{IsRoot, All}

abbrev pub writes : OperationDefinition → Bool
writes op = not (is_query op.operation)

-- The root fields of an operation.
abbrev pub Root : OperationDefinition → Field → Type 0
Root op f = IsRoot op.fragments f op.selection_set

-- No root field has an annotation to read, and the operation writes, or selects something although
-- it has no root field.
pub record Unannotated (op : OperationDefinition) : Type 0 where
  pub only_introspection : (f : Field) → Root op f → is_introspection_field f.name ≡ true
  pub suspicious :
      (writes op ≡ true)
      ⊎ ((selects_nothing op.selection_set ≡ false) × ((f : Field) → Root op f → ⊥))

pub scoped-introspection :
    (fs : List Field) → All (λ f. is_introspection_field f.name ≡ true) fs → scoped fs ≡ []
scoped-introspection [] h = refl
scoped-introspection (f ∷ fs) (h, hs) = ground (arith, h, scoped-introspection fs hs)

pub scoped_empty :
    (fs : List Field)
    → is_empty (scoped fs) ≡ true
    → All (λ f. is_introspection_field f.name ≡ true) fs
scoped_empty [] h = tt
scoped_empty (f ∷ fs) h = elim (Bool-cases (is_introspection_field f.name)) [
  | inl i ↦ (i, scoped_empty fs (ground (arith, h, i)))
  | inr i ↦ ground (arith, h, i)
]

pub All-empty : (fs : List Field) → All (λ f. ⊥) fs → fs ≡ []
All-empty [] h = refl
All-empty (f ∷ fs) (h, hs) = absurd h

pub empty-All : (P : Field → Type 0) (fs : List Field) → is_empty fs ≡ true → All P fs
empty-All P [] h = tt
empty-All P (f ∷ fs) h = ground (arith, h)

unfoldable pub is_suspicious : OperationDefinition → List Field → Bool
is_suspicious op fs = writes op || (is_empty fs && not (selects_nothing op.selection_set))

pub suspicious_why :
    (op : OperationDefinition) (fs : List Field)
    → is_suspicious op fs ≡ true
    → (writes op ≡ true) ⊎ ((selects_nothing op.selection_set ≡ false) × (is_empty fs ≡ true))
unfolding is_suspicious
suspicious_why op fs h = elim (Bool-cases (writes op)) [
  | inl w ↦ inl w
  | inr r ↦ inr (ground (arith, h, r), ground (arith, h, r))
]

pub required_some :
    (op : OperationDefinition) (fs : List Field)
    → is_empty (scoped fs) ≡ false
    → required_of op fs ≡ scopes_of (scoped fs) (writes op)
unfolding required_of
required_some op fs h = ground (arith, h)

pub required_fallback :
    (op : OperationDefinition) (fs : List Field)
    → is_empty (scoped fs) ≡ true
    → is_suspicious op fs ≡ true
    → required_of op fs ≡ scope_fallback ∷ []
unfolding required_of is_suspicious
required_fallback op fs h s = ground (arith, h, s)

pub required_nothing :
    (op : OperationDefinition) (fs : List Field)
    → is_empty (scoped fs) ≡ true
    → is_suspicious op fs ≡ false
    → required_of op fs ≡ scopes_of (scoped fs) (writes op)
unfolding required_of is_suspicious
required_nothing op fs h s = ground (arith, h, s)
