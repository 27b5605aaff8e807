-- ===== src/Policy/IdScope.antt =====
-- internal/policy/idscope.go: which things an actor may act on, as a list of ids or as all of them.
pub mod Laws
use tallox_go.Prelude.{
  List, [], ◌∷◌, ◌++◌, Bool, true, false, ◌&&◌, not, if◌then◌else◌, ◌==◌, nat_comparable,
  string_comparable, contains, is_empty,
}
use tallox_go.Principal.{Actor, RoleScope, Uuid, nil_uuid}
use tallox_go.Policy.Role.{Role, role_string}

unfoldable pub id_scope_allows : Bool → List Uuid → Uuid → Bool
id_scope_allows all ids id = if all then true else if id == nil_uuid then false else contains ids id

unfoldable pub id_scope_empty : Bool → List Uuid → Bool
id_scope_empty all ids = not all && is_empty ids

-- One round of the loop of `scopedIDs`.
add_scoped : Role → (RoleScope → Uuid) → List Uuid → RoleScope → List Uuid
add_scoped role pick ids scope =
    if not (scope.role == role_string role)
    then ids
    else if pick scope == nil_uuid
    then ids
    else if contains ids (pick scope)
    then ids
    else ids ++ pick scope ∷ []

collect_ids : Role → (RoleScope → Uuid) → List RoleScope → List Uuid → List Uuid
collect_ids role pick [] ids = ids
collect_ids role pick (scope ∷ rest) ids =
    collect_ids role pick rest (add_scoped role pick ids scope)

unfoldable pub scoped_ids : Actor → Role → (RoleScope → Uuid) → List Uuid
unfolding collect_ids add_scoped role_string
scoped_ids a role pick = collect_ids role pick a.role_scopes []
