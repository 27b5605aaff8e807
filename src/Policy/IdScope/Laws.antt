-- ===== src/Policy/IdScope/Laws.antt =====
-- What a scope of ids allows.
use tallox_go.Prelude.{
  List, [], ◌∷◌, ◌++◌, Bool, true, false, ◌||◌, ◌&&◌, ◌≡◌, refl, ap, arith, ◌==◌, contains, any,
  nat_comparable, string_comparable, Bool-cases, inl, inr, nat_eq_iff,
}
use tallox_go.Principal.{Actor, RoleScope, Uuid, nil_uuid}
use tallox_go.Policy.Role.{Role, role_string}
use tallox_go.Policy.IdScope.{id_scope_allows, id_scope_empty, add_scoped, collect_ids, scoped_ids}

pub id_scope_allows-all : (ids : List Uuid) (id : Uuid) → id_scope_allows true ids id ≡ true
unfolding id_scope_allows
id_scope_allows-all ids id = refl

pub not-allows_of_empty :
    (all : Bool) (ids : List Uuid) (id : Uuid)
    → id_scope_empty all ids ≡ true
    → id_scope_allows all ids id ≡ false
unfolding id_scope_allows id_scope_empty
not-allows_of_empty all [] id h = ground arith
not-allows_of_empty all (x ∷ xs) id h = ground arith

contains-append :
    (xs : List Uuid) (y id : Uuid) → contains (xs ++ y ∷ []) id ≡ contains xs id || y == id
contains-append [] y id = ground arith
contains-append (x ∷ xs) y id = ground (arith, contains-append xs y id)

-- A scope that names this role and this thing.
abbrev pub names : Role → (RoleScope → Uuid) → Uuid → RoleScope → Bool
names role pick id scope = scope.role == role_string role && pick scope == id

contains-add_scoped :
    (role : Role) (pick : RoleScope → Uuid) (ids : List Uuid) (scope : RoleScope) (id : Uuid)
    → (id == nil_uuid) ≡ false
    → contains (add_scoped role pick ids scope) id ≡ contains ids id || names role pick id scope
unfolding add_scoped
contains-add_scoped role pick ids scope id h = elim (Bool-cases (contains ids (pick scope))) [
  | inl old ↦ elim (Bool-cases (pick scope == id)) [
    | inl same ↦ ground (arith, old, ap (λ x. contains ids x) ((nat_eq_iff (pick scope) id).0 same))
    | inr other ↦ ground (arith, old, other)
  ]
  | inr new ↦ ground (arith, contains-append ids (pick scope) id)
]

contains-collect_ids :
    (role : Role) (pick : RoleScope → Uuid) (scopes : List RoleScope) (ids : List Uuid) (id : Uuid)
    → (id == nil_uuid) ≡ false
    → contains (collect_ids role pick scopes ids) id
      ≡ contains ids id || any (names role pick id) scopes
unfolding collect_ids
contains-collect_ids role pick [] ids id h = ground arith
contains-collect_ids role pick (scope ∷ rest) ids id h = ground (
  arith,
  contains-collect_ids role pick rest (add_scoped role pick ids scope) id h,
  contains-add_scoped role pick ids scope id h,
)

-- Of the things that are not nil, `scoped_ids` lists exactly those that a scope of the role names.
pub contains-scoped_ids :
    (a : Actor) (role : Role) (pick : RoleScope → Uuid) (id : Uuid)
    → (id == nil_uuid) ≡ false
    → contains (scoped_ids a role pick) id ≡ any (names role pick id) a.role_scopes
unfolding scoped_ids
contains-scoped_ids a role pick id h = contains-collect_ids role pick a.role_scopes [] id h

pub id_scope_allows-nil : (id : Uuid) → id_scope_allows false [] id ≡ false
unfolding id_scope_allows
id_scope_allows-nil id = ground arith
