-- ===== src/Graph/Scope.antt =====
-- graph/scope.go: the check of an operation's scopes before it is executed. The document is the
-- part of the parser's tree that is read: a text of a name or a value is a list of code points.
pub mod Walk
pub mod Roots
pub mod Required
pub mod Enforced
use tallox_go.Prelude.{
  ℕ, zero, suc, Text, codes, cut_prefix, Unicode, List, [], ◌∷◌, ◌++◌, Option, none, some, Bool,
  true, false, not, ◌&&◌, ◌||◌, ◌==◌, text_comparable, contains, is_empty, length, if◌then◌else◌,
}
use tallox_go.Principal.{Actor}
use tallox_go.Policy.Scope.{Scope, write, to_area, to_verb, valid, scope_fallback, scopes_allow}

pub record Argument : Type 0 where
  pub name : Text
  pub value : Option Text

pub record Directive : Type 0 where
  pub name : Text
  pub arguments : List Argument

-- `definition` holds the directives of the field's definition in the schema.
pub record Field : Type 0 where
  pub name : Text
  pub definition : Option (List Directive)

-- A selection and the selections after it.
pub data SelectionSet : Type 0 where
  nothing : SelectionSet
  field : Field → SelectionSet → SelectionSet
  inline_fragment : SelectionSet → SelectionSet → SelectionSet
  fragment_spread : Text → SelectionSet → SelectionSet

-- The named fragments of the document, which the parser attaches to the spreads of their name.
pub record Fragment : Type 0 where
  pub name : Text
  pub selection_set : SelectionSet

pub data Operation : Type 0 where
  query mutation subscription : Operation

pub record OperationDefinition : Type 0 where
  pub operation : Operation
  pub selection_set : SelectionSet
  pub fragments : List Fragment

abbrev pub is_query : Operation → Bool
is_query query = true
is_query _ = false

abbrev pub selects_nothing : SelectionSet → Bool
selects_nothing nothing = true
selects_nothing _ = false

abbrev pub scope_directive_name : Text
scope_directive_name = codes "scope"

-- `Directives.ForName` and `Arguments.ForName`.
unfoldable pub directive_for_name : List Directive → Text → Option Directive
directive_for_name [] name = none
directive_for_name (d ∷ ds) name = if d.name == name then some d else directive_for_name ds name

unfoldable pub argument_for_name : List Argument → Text → Option Argument
argument_for_name [] name = none
argument_for_name (a ∷ as') name = if a.name == name then some a else argument_for_name as' name

-- The `Definition` of a spread.
unfoldable pub definition_of : List Fragment → Text → Option SelectionSet
definition_of [] name = none
definition_of (f ∷ fs) name = if f.name == name then some f.selection_set else definition_of fs name

unfoldable pub is_introspection_field : Text → Bool
is_introspection_field name = elim (cut_prefix (codes "__") name) [
  | none ↦ false
  | some rest ↦ true
]

unfoldable pub argument_of : Directive → Text → Option Text
unfolding argument_for_name
argument_of directive name = elim (argument_for_name directive.arguments name) [
  | none ↦ none
  | some arg ↦ arg.value
]

-- The scope of an annotation that has both its arguments.
unfoldable pub annotated : Text → Text → Bool → Scope
annotated area verb writes =
    let scope : Scope = record {
      area = to_area area;
      verb = if writes then write else to_verb verb;
    } in
    if not (valid scope) then scope_fallback else scope

unfoldable pub scope_of : Field → Bool → Scope
unfolding directive_for_name argument_of annotated
scope_of f writes = elim f.definition [
  | none ↦ scope_fallback
  | some directives ↦ elim (directive_for_name directives scope_directive_name) [
    | none ↦ scope_fallback
    | some directive ↦ elim (argument_of directive (codes "area")) [
      | none ↦ scope_fallback
      | some area ↦ elim (argument_of directive (codes "verb")) [
        | none ↦ scope_fallback
        | some verb ↦ annotated area verb writes
      ]
    ]
  ]
]

-- The walk: the names of the fragments visited, and the fields given to `visit`, in order. The fuel
-- counts the fragments that may still be entered; `none` is a walk that would need more.
unfoldable pub walk : List Fragment → ℕ → List Text → SelectionSet → Option (List Text × List Field)
walk fragments fuel visited nothing = some (visited, [])
walk fragments fuel visited (field f rest) = elim (walk fragments fuel visited rest) [
  | none ↦ none
  | some (visited', out) ↦ some (visited', f ∷ out)
]
walk fragments fuel visited (inline_fragment inner rest) =
    elim (walk fragments fuel visited inner) [
      | none ↦ none
      | some (visited', out) ↦ elim (walk fragments fuel visited' rest) [
        | none ↦ none
        | some (visited'', out') ↦ some (visited'', out ++ out')
      ]
    ]
walk fragments zero visited (fragment_spread name rest) =
    let after = walk fragments zero visited rest in
    elim (definition_of fragments name) [
      | none ↦ after
      | some definition ↦ if contains visited name then after else none
    ]
walk fragments (suc fuel) visited (fragment_spread name rest) =
    let after = walk fragments (suc fuel) visited rest in
    elim (definition_of fragments name) [
      | none ↦ after
      | some definition ↦ elim (contains visited name) [
        | true ↦ after
        | false ↦ elim (walk fragments fuel (name ∷ visited) definition) [
          | none ↦ none
          | some (visited', out) ↦ elim (walk fragments (suc fuel) visited' rest) [
            | none ↦ none
            | some (visited'', out') ↦ some (visited'', out ++ out')
          ]
        ]
      ]
    ]

-- `forEachRootField`, as the fields that it visits.
unfoldable pub root_fields : OperationDefinition → Option (List Field)
unfolding walk
root_fields op = elim (walk op.fragments (length op.fragments) [] op.selection_set) [
  | none ↦ none
  | some (visited, out) ↦ some out
]

-- What the visitor counts and collects.
abbrev pub scoped : List Field → List Field
scoped [] = []
scoped (f ∷ fs) = let rest = scoped fs in if is_introspection_field f.name then rest else f ∷ rest

abbrev pub scopes_of : List Field → Bool → List Scope
scopes_of [] writes = []
scopes_of (f ∷ fs) writes = scope_of f writes ∷ scopes_of fs writes

unfoldable pub required_of : OperationDefinition → List Field → List Scope
unfolding scope_of is_introspection_field
required_of op visited =
    let writes = not (is_query op.operation) in
    let fields = scoped visited in
    if writes && is_empty fields
    then scope_fallback ∷ []
    else if is_empty fields && (is_empty visited && not (selects_nothing op.selection_set))
    then scope_fallback ∷ []
    else scopes_of fields writes

unfoldable pub required_scopes : OperationDefinition → Option (List Scope)
unfolding root_fields required_of
required_scopes op = elim (root_fields op) [
  | none ↦ none
  | some visited ↦ some (required_of op visited)
]

-- The next handler answers, or the whole operation is refused for a scope.
pub data Verdict : Type 0 where
  passes : Verdict
  refuses : Scope → Verdict
  out_of_fuel : Verdict

module _ (u : Unicode) where
  unfoldable pub judge : Actor → List Scope → Verdict
  judge actor [] = passes
  judge actor (required ∷ rest) =
      let after = judge actor rest in
      if not (scopes_allow u actor required) then refuses required else after

  -- `none` is a context without an operation.
  unfoldable pub enforce_scopes : Actor → Option OperationDefinition → Verdict
  unfolding required_scopes judge
  enforce_scopes actor none = refuses scope_fallback
  enforce_scopes actor (some op) = elim (required_scopes op) [
    | none ↦ out_of_fuel
    | some required ↦ judge actor required
  ]
