-- ===== src/Auth/BrowserDoor.antt =====
-- internal/auth/proxy.go: the browser door, whose identity is a header that the proxy sets.
pub mod Narrowed
use Prim.Native.Char.{code}
use tallox_go.Prelude.{
  ℕ, String, Unicode, List, [], ◌∷◌, ◌++◌, map, Option, none, some, Bool, true, false, not, ◌&&◌,
  if◌then◌else◌, ◌==◌, string_comparable, nat_comparable, length, is_empty, ltb,
}
use tallox_go.Prelude.Results.{Result, err, ok}
use tallox_go.Principal.{Actor, Uuid, interactive}
use tallox_go.Policy.Role.{Role, role_string, all_roles}
use tallox_go.Policy.Narrow.{narrow, parse_roles}
use tallox_go.Auth.Refusal.{
  AuthError, no_credential, unknown_user, inactive_user, ambiguous_identity, unavailable,
}
use tallox_go.Auth.TokenDoor.{Person}

pub data Mode : Type 0 where
  dev proxy off_token : Mode

abbrev pub is_dev : Mode → Bool
is_dev dev = true
is_dev _ = false

-- `PersonByMail`: an error's message, or the person if there is one.
abbrev pub UserLookup : Type 0
UserLookup = String → Result String (Option Person)

pub record ProxyAuthenticator : Type 0 where
  pub users : Option UserLookup
  pub mode : Mode
  pub dev_user : String

-- The values of `X-Remote-User` and of `X-Tallox-Assume-Roles`.
pub record Headers : Type 0 where
  pub remote_user : List String
  pub assume_roles : List String

abbrev pub default_dev_user : String
default_dev_user = "dev@example.org"

abbrev pub dev_user_name : String
dev_user_name = "Development User"

abbrev pub comma : ℕ
comma = b','

-- `Header.Get` of a header's values.
abbrev pub get : List String → String
get [] = ""
get (value ∷ values) = value

-- `strings.Split` at a separator of one byte.
unfoldable pub split : ℕ → String → List String
split sep String.[] = "" ∷ []
split sep (String.◌∷◌ c s) =
    let parts = split sep s in
    if code c == sep
    then "" ∷ parts
    else elim parts [ [] ↦ String.◌∷◌ c "" ∷ [] | part ∷ rest ↦ String.◌∷◌ c part ∷ rest ]

unfoldable pub person_actor : Person → Actor
person_actor person = record {
  id = person.id;
  mail = person.mail;
  name = person.name;
  roles = person.roles;
  narrowed_from = none;
  role_scopes = person.role_scopes;
  scopes = [];
  kind = interactive;
  full_reach = false;
  token_id = [];
}

-- `u` are the tables of `unicode`, `uuid_of` is `uuid.NewSHA1` on the URL `mailto:` of an address.
module _ (u : Unicode) where
  -- `strings.TrimSpace` on a native text.
  unfoldable pub trim_start : String → String
  trim_start String.[] = ""
  trim_start (String.◌∷◌ c s) =
      let rest = trim_start s in if u.is_space (code c) then rest else String.◌∷◌ c s

  unfoldable pub trim_end : String → String
  trim_end String.[] = ""
  trim_end (String.◌∷◌ c s) =
      let rest = trim_end s in if rest == "" && u.is_space (code c) then "" else String.◌∷◌ c rest

  unfoldable pub trim : String → String
  unfolding trim_start trim_end
  trim s = trim_end (trim_start s)

  -- The inner loop: the parts of one value that are not empty.
  unfoldable pub keep_parts : List String → List String
  keep_parts [] = []
  keep_parts (part ∷ parts) =
      let rest = keep_parts parts in if trim part == "" then rest else trim part ∷ rest

  -- The outer loop, over the values.
  unfoldable pub selected_roles : List String → List String
  unfolding keep_parts split
  selected_roles [] = []
  selected_roles (v ∷ values) = keep_parts (split comma v) ++ selected_roles values

  unfoldable pub narrow_if_requested : Actor → Headers → Actor
  unfolding selected_roles
  narrow_if_requested a r =
      if is_empty r.assume_roles then a else narrow a (parse_roles (selected_roles r.assume_roles))

  unfoldable pub dev_user_or : String → String
  dev_user_or mail = if trim mail == "" then default_dev_user else mail

  -- Without the warning that it logs in the development mode.
  unfoldable pub new_proxy_authenticator : Option UserLookup → Mode → String → ProxyAuthenticator
  unfolding dev_user_or
  new_proxy_authenticator users mode dev_user = record {
    users = users;
    mode = mode;
    dev_user = dev_user_or dev_user;
  }

  module _ (uuid_of : String → Uuid) where
    unfoldable pub dev_user_id : String → Uuid
    unfolding dev_user_or
    dev_user_id mail = uuid_of (dev_user_or mail)

    unfoldable pub development_actor : ProxyAuthenticator → Actor
    unfolding dev_user_id
    development_actor a = record {
      id = dev_user_id a.dev_user;
      mail = a.dev_user;
      name = dev_user_name;
      roles = map role_string all_roles;
      narrowed_from = none;
      role_scopes = [];
      scopes = [];
      kind = interactive;
      full_reach = false;
      token_id = [];
    }

    -- The lookup of a mail that is not empty, and the checks on the person.
    unfoldable pub find_person : Option UserLookup → String → Result AuthError Person
    find_person none mail = err unavailable
    find_person (some by_mail) mail = elim (by_mail mail) [
      | err message ↦ err unavailable
      | ok none ↦ err unknown_user
      | ok (some person) ↦ if not person.active then err inactive_user else ok person
    ]

    unfoldable pub authenticate : ProxyAuthenticator → Headers → Result AuthError Actor
    unfolding trim narrow_if_requested development_actor find_person person_actor
    authenticate a r =
        let mail = trim (get r.remote_user) in
        if ltb 1 (length r.remote_user)
        then err ambiguous_identity
        else if mail == ""
        then (if is_dev a.mode
            then ok (narrow_if_requested (development_actor a) r)
            else err no_credential)
        else elim (find_person a.users mail) [
          | err e ↦ err e
          | ok person ↦ ok (narrow_if_requested (person_actor person) r)
        ]
