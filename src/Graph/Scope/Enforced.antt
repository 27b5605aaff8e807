-- ===== src/Graph/Scope/Enforced.antt =====
-- graph/scope.go: what the check lets through.
use tallox_go.Prelude.{
  Unicode, Text, codes, List, [], ◌∷◌, some, Bool, true, false, is_empty, ◌≡◌, ◌⊎◌, ◌↔◌, refl,
  arith, Bool-cases, inl, inr,
}
use tallox_go.Principal.{Actor}
use tallox_go.Policy.Scope.{
  to_area, valid, valid_area, valid_verb, Scope, write, scope_fallback, scopes_allow,
}
use mathlib.Core.Path.{subst}
use tallox_go.Graph.Scope.{
  Directive, directive_for_name, argument_of, scope_directive_name, annotated, Field,
  OperationDefinition, selects_nothing, is_introspection_field, scope_of, scoped, scopes_of,
  required_of, required_scopes, passes, refuses, judge, enforce_scopes,
}
use tallox_go.Graph.Scope.Walk.{root_fields-Walks}
use tallox_go.Graph.Scope.Roots.{All, Walks-sound, Walks_complete}
use tallox_go.Graph.Scope.Required.{
  writes, Root, Unannotated, scoped-introspection, scoped_empty, is_suspicious, suspicious_why,
  required_some, required_fallback, required_nothing, All-empty, empty-All,
}

-- The field is declared with `@scope(area: ..., verb: ...)`.
pub record Annotated (f : Field) (area_text verb_text : Text) : Type 0 where
  pub directives : List Directive
  pub directive : Directive
  pub defined : f.definition ≡ some directives
  pub directed : directive_for_name directives scope_directive_name ≡ some directive
  pub area : argument_of directive (codes "area") ≡ some area_text
  pub verb : argument_of directive (codes "verb") ≡ some verb_text

module _ (u : Unicode) (actor : Actor) where
  abbrev pub Allowed : Scope → Type 0
  Allowed s = scopes_allow u actor s ≡ true

  abbrev AllAllowed : List Scope → Type 0
  AllAllowed [] = Unit {0}
  AllAllowed (s ∷ ss) = Allowed s × AllAllowed ss

  judge_passes : (ss : List Scope) → (judge u actor ss ≡ passes) ↔ AllAllowed ss
  unfolding judge
  judge_passes [] = (λ h. tt, λ h. refl)
  judge_passes (s ∷ ss) =
      (λ h. ground (arith, h, judge_passes ss), λ h. ground (arith, h, judge_passes ss))

  judge_decides :
      (ss : List Scope)
      → (judge u actor ss ≡ passes)
        ⊎ ((s : Scope) × (judge u actor ss ≡ refuses s) × (scopes_allow u actor s ≡ false))
  unfolding judge
  judge_decides [] = inl refl
  judge_decides (s ∷ ss) = elim (Bool-cases (scopes_allow u actor s)) [
    | inr no_scope ↦ inr (s, ground (arith, no_scope), no_scope)
    | inl allowed ↦ elim (judge_decides ss) [
      | inl p ↦ inl (ground (arith, allowed, p))
      | inr (t, r, no_scope) ↦ inr (t, ground (arith, allowed, r), no_scope)
    ]
  ]

  -- What a visited field needs.
  abbrev pub Needs : Bool → Field → Type 0
  Needs w f = is_introspection_field f.name ≡ false → Allowed (scope_of f w)

  only_introspection : (w : Bool) (fs : List Field) → is_empty (scoped fs) ≡ true → All (Needs w) fs
  only_introspection w [] h = tt
  only_introspection w (f ∷ fs) h = elim (Bool-cases (is_introspection_field f.name)) [
    | inl i ↦ (λ i'. ground (arith, i, i'), only_introspection w fs (ground (arith, h, i)))
    | inr i ↦ ground (arith, h, i)
  ]

  AllAllowed-scoped :
      (w : Bool) (fs : List Field) → AllAllowed (scopes_of (scoped fs) w) ↔ All (Needs w) fs
  AllAllowed-scoped w [] = (λ h. tt, λ h. tt)
  AllAllowed-scoped w (f ∷ fs) = elim (Bool-cases (is_introspection_field f.name)) [
    | inl i ↦ (
      λ h. (λ i'. ground (arith, i, i'), (AllAllowed-scoped w fs).0 (ground (arith, h, i))),
      λ h. rw i ((AllAllowed-scoped w fs).1 h.1),
    )
    | inr i ↦ (
      λ h. let h' = rw i at h in (λ i'. h'.0, (AllAllowed-scoped w fs).0 h'.1),
      λ h. rw i (h.0 i, (AllAllowed-scoped w fs).1 h.1),
    )
  ]

  required_iff :
      (op : OperationDefinition) (fs : List Field)
      → AllAllowed (required_of op fs) ↔ (
          All (Needs (writes op)) fs
          × (is_empty (scoped fs) ≡ true
              → (writes op ≡ true)
                ⊎ ((selects_nothing op.selection_set ≡ false) × (is_empty fs ≡ true))
              → Allowed scope_fallback))
  unfolding is_suspicious
  required_iff op fs = elim (Bool-cases (is_empty (scoped fs))) [
    | inr some_field ↦ (
      λ h. (
        (AllAllowed-scoped (writes op) fs).0 (rw (required_some op fs some_field) at h),
        λ none_left. ground (arith, some_field, none_left),
      ),
      λ h. rw (required_some op fs some_field) ((AllAllowed-scoped (writes op) fs).1 h.0),
    )
    | inl none_left ↦ elim (Bool-cases (is_suspicious op fs)) [
      | inl s ↦ (
        λ h. (
          only_introspection (writes op) fs none_left,
          λ e why. (rw (required_fallback op fs none_left s) at h).0,
        ),
        λ h. rw (required_fallback op fs none_left s) (h.1 none_left (suspicious_why op fs s), tt),
      )
      | inr s ↦ (
        λ h. (only_introspection (writes op) fs none_left, λ e why. ground (arith, s, why)),
        λ h. rw (required_nothing op fs none_left s) ((AllAllowed-scoped (writes op) fs).1 h.0),
      )
    ]
  ]

  -- An operation is executed exactly when each of its root fields that is not introspection has its
  -- scope granted, and, if all its root fields are introspection and it writes, or has no root field
  -- although it selects something, the fallback is granted.
  pub enforce_scopes_iff :
      (op : OperationDefinition)
      → (enforce_scopes u actor (some op) ≡ passes) ↔ (
          ((f : Field) → Root op f → Needs (writes op) f)
          × (Unannotated op → Allowed scope_fallback))
  unfolding enforce_scopes required_scopes
  enforce_scopes_iff op =
      let (visited, fields, e, w) = root_fields-Walks op in
      (
        λ h.
            let all =
              (required_iff op fields).0
                ((judge_passes (required_of op fields)).0 (ground (arith, h, e))) in
            (
              Walks_complete op.fragments (Needs (writes op)) w all.0,
              λ un.
                  all.1
                    (ground (
                      arith,
                      scoped-introspection fields
                          (Walks-sound op.fragments _ w un.only_introspection),
                    ))
                    (elim un.suspicious [
                      | inl writing ↦ inl writing
                      | inr (selects, rootless) ↦ inr (
                        selects,
                        ground (arith, All-empty fields (Walks-sound op.fragments _ w rootless)),
                      )
                    ]),
            ),
        λ h.
            let required = (required_iff op fields).1 (
              Walks-sound op.fragments (Needs (writes op)) w h.0,
              λ none_left why. h.1 (record {
                only_introspection =
                    Walks_complete op.fragments _ w (scoped_empty fields none_left);
                suspicious = elim why [
                  | inl writing ↦ inl writing
                  | inr (selects, empty) ↦ inr (
                    selects,
                    Walks_complete op.fragments (λ f. ⊥) w (empty-All (λ f. ⊥) fields empty),
                  )
                ];
              }),
            ) in
            ground (arith, e, (judge_passes (required_of op fields)).1 required),
      )

  -- The check always decides: the operation is executed, or refused for a scope that the caller's
  -- credential does not carry.
  pub enforce_scopes_decides :
      (op : OperationDefinition)
      → (enforce_scopes u actor (some op) ≡ passes)
        ⊎ ((s : Scope) × (enforce_scopes u actor (some op) ≡ refuses s)
            × (scopes_allow u actor s ≡ false))
  unfolding enforce_scopes required_scopes
  enforce_scopes_decides op =
      let (visited, fields, e, w) = root_fields-Walks op in
      elim (judge_decides (required_of op fields)) [
        | inl p ↦ inl (ground (arith, e, p))
        | inr (s, r, no_scope) ↦ inr (s, ground (arith, e, r), no_scope)
      ]

  -- An operation that is no query is executed only if, for each of its root fields with an
  -- annotation of a known area, the caller's credential may write in this area, also where the
  -- annotation says that reading is enough.
  pub enforce_scopes-write :
      (op : OperationDefinition) (f : Field) (area verb : Text)
      → writes op ≡ true
      → enforce_scopes u actor (some op) ≡ passes
      → Root op f
      → is_introspection_field f.name ≡ false
      → Annotated f area verb
      → valid_area (to_area area) ≡ true
      → Allowed (record { area = to_area area; verb = write })
  unfolding scope_of annotated valid valid_verb
  enforce_scopes-write op f area verb writing h root named a known =
      let needed : Allowed (scope_of f true) =
        subst (λ w. Allowed (scope_of f w)) writing
          (((enforce_scopes_iff op).0 h).0 f root named) in
      let its : scope_of f true ≡ record { area = to_area area; verb = write } =
        rw (scope_of, a.defined, a.directed, a.area, a.verb, annotated, known) refl in
      subst Allowed its needed
