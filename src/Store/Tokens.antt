-- ===== src/Store/Tokens.antt =====
-- internal/store/tokens.go and TokenByID, MarkTokenUsed of directory.go, over the statements of
-- db/queries/token.sql and the constraints of the table. What the statements to come end in is part of
-- the state: `none` where nothing but a constraint stops one, or the message of an error.
pub mod Found
pub mod Revoked
pub mod Invariant
use tallox_go.Prelude.{
  ◌+◌, String, Text, length, List, [], ◌∷◌, map, Option, none, some, Bool, true, not, any, ◌&&◌,
  ◌==◌, nat_comparable, text_comparable, if◌then◌else◌, ltb,
}
use tallox_go.Prelude.Results.{Result, err, ok}
use tallox_go.Principal.{RoleScope, Uuid, names_nothing}
use tallox_go.Auth.TokenDoor.{Time, Person, Token, TokenLookup, mark_used_every}
use tallox_go.Store.Rows.{find_row, keep_rows, set_rows}
use tallox_go.Store.Semesters.{nullable_time, coalesce}
use tallox_go.Domain.TokenService.{
  TokenError, no_such_token, storing_failed, TokenRecord, TokenStore,
}

-- A row of personal_access_token.
pub record TokenRow : Type 0 where
  pub token_id : Text
  pub owner_id : Uuid
  pub secret_hash : Text
  pub description : Text
  pub scopes : List Text
  pub full_reach : Bool
  pub created_at : Time
  pub expires_at : Time
  pub last_used_at : Option Time
  pub revoked_at : Option Time

-- A person with their grants, each with the end that it may have, and their rows of person_role_scope.
pub record OwnerRow : Type 0 where
  pub id : Uuid
  pub mail : String
  pub name : String
  pub active : Bool
  pub roles : List (String × Option Time)
  pub role_scopes : List RoleScope

pub record TokenDatabase : Type 0 where
  pub outcomes : List (Option String)
  pub tokens : List TokenRow
  pub owners : List OwnerRow

-- What PostgreSQL and its driver make of a time of Go, and what it adds to a time for 91 days.
pub record Timestamps : Type 0 where
  pub kept : Time → Time
  pub days_91 : Time → Time

abbrev pub next_outcome : List (Option String) → Option String
next_outcome [] = none
next_outcome (o ∷ os) = o

abbrev later_outcomes : List (Option String) → List (Option String)
later_outcomes [] = []
later_outcomes (o ∷ os) = os

abbrev pub begun : TokenDatabase → TokenDatabase
begun s = record s { outcomes = later_outcomes s.outcomes }

pub record_from : TokenRow → TokenRecord
record_from row = record {
  id = row.token_id;
  description = row.description;
  scopes = row.scopes;
  full_reach = row.full_reach;
  created_at = row.created_at;
  expires_at = row.expires_at;
  last_used_at = nullable_time row.last_used_at;
  revoked_at = nullable_time row.revoked_at;
}

-- The row that `CreateToken` inserts.
abbrev pub inserted_row :
    Timestamps → Time → Text → Uuid → Text → Text → List Text → Bool → Time → TokenRow
inserted_row pg now id owner secret_hash description scopes full_reach expires_at = record {
  token_id = id;
  owner_id = owner;
  secret_hash = secret_hash;
  description = description;
  scopes = scopes;
  full_reach = full_reach;
  created_at = now;
  expires_at = pg.kept expires_at;
  last_used_at = none;
  revoked_at = none;
}

abbrev pub has_id : Text → TokenRow → Bool
has_id id row = row.token_id == id

-- The insert, with the constraints of the table.
unfoldable pub insert_token :
    Timestamps → TokenRow → TokenDatabase → Result String TokenRecord × TokenDatabase
unfolding record_from
insert_token pg row s =
    if not (ltb row.created_at row.expires_at)
    then (err "personal_access_token_expires_after_creation", s)
    else if not (length row.secret_hash == 32)
    then (err "personal_access_token_secret_hash_is_sha256", s)
    else if row.full_reach && ltb (pg.days_91 row.created_at) row.expires_at
    then (err "personal_access_token_full_reach_is_short_lived", s)
    else if any (has_id row.token_id) s.tokens
    then (err "personal_access_token_pkey", s)
    else if not (any (λ (p : OwnerRow). p.id == row.owner_id) s.owners)
    then (err "personal_access_token_owner_id_fkey", s)
    else (ok (record_from row), record s { tokens = row ∷ s.tokens })

unfoldable pub create_token :
    Timestamps
    → Time
    → TokenDatabase
    → Text
    → Uuid
    → Text
    → Text
    → List Text
    → Bool
    → Time
    → Result String TokenRecord × TokenDatabase
unfolding insert_token
create_token pg now s id owner secret_hash description scopes full_reach expires_at =
    elim (next_outcome s.outcomes) [
      | some message ↦ (err message, begun s)
      | none ↦
          insert_token pg
            (inserted_row pg now id owner secret_hash description scopes full_reach expires_at)
            (begun s)
    ]

-- The order of the list is left out.
unfoldable pub tokens_of_owner : TokenDatabase → Uuid → Result TokenError (List TokenRecord)
unfolding keep_rows record_from
tokens_of_owner s owner = elim (next_outcome s.outcomes) [
  | some message ↦ err storing_failed
  | none ↦ ok (map record_from (keep_rows (λ (row : TokenRow). row.owner_id == owner) s.tokens))
]

abbrev pub is_theirs : Text → Uuid → TokenRow → Bool
is_theirs id owner row = row.token_id == id && row.owner_id == owner

abbrev pub withdrawn_row : Time → TokenRow → TokenRow
withdrawn_row now row = record row { revoked_at = coalesce row.revoked_at now }

abbrev pub withdraw : Time → Text → Uuid → TokenDatabase → TokenDatabase
withdraw now id owner s = record s {
  tokens = set_rows (is_theirs id owner) (withdrawn_row now) s.tokens;
}

unfoldable pub revoke_token_of_owner :
    Time → TokenDatabase → Text → Uuid → Result TokenError TokenRecord × TokenDatabase
unfolding find_row set_rows record_from
revoke_token_of_owner now s id owner = elim (next_outcome s.outcomes) [
  | some message ↦ (err storing_failed, begun s)
  | none ↦
      let s' = withdraw now id owner (begun s) in
      elim (find_row (is_theirs id owner) s'.tokens) [
        | none ↦ (err no_such_token, s')
        | some row ↦ (ok (record_from row), s')
      ]
]

-- The store of the token service; `now` is the database's clock.
abbrev pub tokens_store : Timestamps → Time → TokenStore TokenDatabase
tokens_store pg now = record {
  create_token = create_token pg now;
  tokens_of_owner = tokens_of_owner;
  revoke_token_of_owner = revoke_token_of_owner now;
}

-- Whether a use was not recorded in the last five minutes.
abbrev pub is_stale : Time → TokenRow → Bool
is_stale now row = elim row.last_used_at [
  | none ↦ true
  | some last ↦ ltb (last + mark_used_every) now
]

abbrev pub used_row : Time → TokenRow → TokenRow
used_row now row = record row { last_used_at = some now }

unfoldable pub mark_token_used :
    Time → TokenDatabase → Text → Result String (Unit {0}) × TokenDatabase
unfolding set_rows
mark_token_used now s id = elim (next_outcome s.outcomes) [
  | some message ↦ (err message, begun s)
  | none ↦ (
    ok tt,
    record (begun s) {
      tokens =
          set_rows (λ (row : TokenRow). has_id id row && is_stale now row) (used_row now) s.tokens;
    },
  )
]

abbrev pub is_live : Time → String × Option Time → Bool
is_live now (role, none) = true
is_live now (role, some expires_at) = ltb now expires_at

-- The owner's roles are those of the grants that have not expired; their order is left out.
unfoldable pub person_from : Time → OwnerRow → Person
unfolding keep_rows
person_from now owner = record {
  id = owner.id;
  mail = owner.mail;
  name = owner.name;
  active = owner.active;
  roles = map (λ (grant : String × Option Time). grant.0) (keep_rows (is_live now) owner.roles);
  role_scopes = keep_rows (λ s. not (names_nothing s)) owner.role_scopes;
}

unfoldable pub token_from : Time → TokenRow → OwnerRow → Token
unfolding person_from
token_from now row owner = record {
  id = row.token_id;
  secret_hash = row.secret_hash;
  scopes = row.scopes;
  full_reach = row.full_reach;
  expires_at = row.expires_at;
  revoked_at = nullable_time row.revoked_at;
  owner = person_from now owner;
}

-- The join of the tokens with their owners.
unfoldable pub token_by_id : Time → TokenDatabase → TokenLookup
unfolding find_row token_from
token_by_id now s id = elim (next_outcome s.outcomes) [
  | some message ↦ err message
  | none ↦ elim (find_row (has_id id) s.tokens) [
    | none ↦ ok none
    | some row ↦ elim (find_row (λ (p : OwnerRow). p.id == row.owner_id) s.owners) [
      | none ↦ ok none
      | some owner ↦ ok (some (token_from now row owner))
    ]
  ]
]
