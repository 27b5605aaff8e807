-- ===== src/Principal.antt =====
-- internal/principal/principal.go: the authenticated caller of a request.
use tallox_go.Prelude.{
  [], none, Text, ℕ, String, List, Option, Bool, not, ◌&&◌, ◌||◌, ◌==◌, nat_comparable, true, false,
}

-- A 16-byte value, read as a number; `uuid.Nil` is the zero value.
abbrev pub Uuid : Type 0
Uuid = ℕ

abbrev pub nil_uuid : Uuid
nil_uuid = 0

pub data Kind : Type 0 where
  unauthenticated interactive token : Kind

abbrev pub is_interactive : Kind → Bool
is_interactive interactive = true
is_interactive _ = false

abbrev pub is_token : Kind → Bool
is_token token = true
is_token _ = false

pub record RoleScope : Type 0 where
  pub role : String
  pub programme_id : Uuid
  pub subject_group_id : Uuid

unfoldable pub names_nothing : RoleScope → Bool
names_nothing s = s.programme_id == nil_uuid && s.subject_group_id == nil_uuid

-- `narrowed_from` is `none` where the source has a nil slice.
pub record Actor : Type 0 where
  pub id : Uuid
  pub mail : String
  pub name : String
  pub roles : List String
  pub narrowed_from : Option (List String)
  pub role_scopes : List RoleScope
  pub scopes : List Text
  pub kind : Kind
  pub full_reach : Bool
  pub token_id : Text

-- The zero value: nobody.
abbrev pub anonymous : Actor
anonymous = record {
  id = nil_uuid;
  mail = "";
  name = "";
  roles = [];
  narrowed_from = none;
  role_scopes = [];
  scopes = [];
  kind = unauthenticated;
  full_reach = false;
  token_id = [];
}

unfoldable pub authenticated : Actor → Bool
authenticated a = not (a.id == nil_uuid)

unfoldable pub is_interactive_actor : Actor → Bool
is_interactive_actor a = is_interactive a.kind

unfoldable pub acts_with_full_reach : Actor → Bool
unfolding is_interactive_actor
acts_with_full_reach a = is_interactive_actor a || (is_token a.kind && a.full_reach)

unfoldable pub owns : Actor → Uuid → Bool
owns a owner_id = not (a.id == nil_uuid) && (not (owner_id == nil_uuid) && a.id == owner_id)
