-- ===== src/Tests/Fields.antt =====
-- An operation of two fragments that refer to each other, and the scopes that it needs.
use tallox_go.Prelude.{
  ascii, Text, codes, List, [], ◌∷◌, none, some, ◌≡◌, ◌↔◌, refl, text_comparable, cut_prefix, cut,
  to_upper, trim_space,
}
use tallox_go.Principal.{Actor}
use tallox_go.Policy.Scope.{
  wishes, write, valid, valid_area, valid_verb, to_area, to_verb, scopes_allow, scope_fallback,
}
use tallox_go.Graph.Scope.{
  Directive, Field, nothing, field, inline_fragment, fragment_spread, mutation, OperationDefinition,
  definition_of, root_fields, passes, refuses, enforce_scopes,
}
use tallox_go.Graph.Scope.Walk.{Walks, root_fields-Walks}
use tallox_go.Graph.Scope.Required.{writes, Root, Unannotated}
use tallox_go.Graph.Scope.{is_introspection_field, directive_for_name, argument_of}
use tallox_go.Graph.Scope.Roots.{here}
use tallox_go.Graph.Scope.Enforced.{Allowed, Needs, enforce_scopes_iff, enforce_scopes-write}
use tallox_go.Tests.People.{plain_token}

abbrev scope_directive : Text → Text → Directive
scope_directive area verb = record {
  name = codes "scope";
  arguments =
      record { name = codes "area"; value = some area }
      ∷ record { name = codes "verb"; value = some verb }
      ∷ [];
}

abbrev create_wish : Field
create_wish = record {
  name = codes "createWish";
  definition = some (scope_directive (codes "WISHES") (codes "WRITE") ∷ []);
}

abbrev type_name : Field
type_name = record { name = codes "__typename"; definition = none }

-- `mutation { ...A __typename }` with `A` on `B` and `B` on `A`.
abbrev cyclic : OperationDefinition
cyclic = record {
  operation = mutation;
  selection_set = fragment_spread (codes "A") (field type_name nothing);
  fragments =
      record {
        name = codes "A";
        selection_set =
            inline_fragment (field create_wish nothing) (fragment_spread (codes "B") nothing);
      }
      ∷ record { name = codes "B"; selection_set = fragment_spread (codes "A") nothing }
      ∷ [];
}

abbrev writer : Actor
writer = record plain_token { scopes = codes "WISHES:WRITE" ∷ [] }

abbrev reader : Actor
reader = record plain_token { scopes = codes "WISHES:READ" ∷ [] }

writer_passes : enforce_scopes ascii writer (some cyclic) ≡ passes
unfolding enforce_scopes definition_of cut_prefix scopes_allow valid valid_area to_area valid_verb
    cut to_upper trim_space to_verb
writer_passes = refl

reader_refused :
    enforce_scopes ascii reader (some cyclic) ≡ refuses (record { area = wishes; verb = write })
unfolding enforce_scopes definition_of cut_prefix scopes_allow valid valid_area to_area valid_verb
    cut to_upper trim_space to_verb
reader_refused = refl

root_fields-Walks_example :
    (visited : List Text) × (fields : List Field) × (root_fields cyclic ≡ some fields)
    × Walks cyclic.fragments [] cyclic.selection_set visited fields
root_fields-Walks_example = root_fields-Walks cyclic

enforce_scopes_iff_example : (enforce_scopes ascii writer (some cyclic) ≡ passes) ↔ (
    ((f : Field) → Root cyclic f → Needs ascii writer (writes cyclic) f)
    × (Unannotated cyclic → Allowed ascii writer scope_fallback))
enforce_scopes_iff_example = enforce_scopes_iff ascii writer cyclic

-- The annotation of this field says that reading is enough.
abbrev touch_wish : Field
touch_wish = record {
  name = codes "touchWish";
  definition = some (scope_directive (codes "WISHES") (codes "READ") ∷ []);
}

abbrev touches : OperationDefinition
touches = record { operation = mutation; selection_set = field touch_wish nothing; fragments = [] }

touches_passes : enforce_scopes ascii writer (some touches) ≡ passes
unfolding enforce_scopes definition_of cut_prefix scopes_allow valid valid_area to_area valid_verb
    cut to_upper trim_space to_verb
touches_passes = refl

touches_refused :
    enforce_scopes ascii reader (some touches) ≡ refuses (record { area = wishes; verb = write })
unfolding enforce_scopes definition_of cut_prefix scopes_allow valid valid_area to_area valid_verb
    cut to_upper trim_space to_verb
touches_refused = refl

enforce_scopes-write_example : Allowed ascii writer (record { area = wishes; verb = write })
unfolding to_area valid_area cut_prefix is_introspection_field directive_for_name argument_of
enforce_scopes-write_example =
    enforce_scopes-write ascii writer touches touch_wish (codes "WISHES") (codes "READ") refl
      touches_passes (here nothing) refl
      (record {
        directives = scope_directive (codes "WISHES") (codes "READ") ∷ [];
        directive = scope_directive (codes "WISHES") (codes "READ");
        defined = refl;
        directed = refl;
        area = refl;
        verb = refl;
      })
      refl
