-- ===== src/Tests/Tokens.antt =====
-- Tokens between the service and the door.
use tallox_go.Prelude.{
  ◌++◌, Text, codes, ascii, trim_space, cut, cut_prefix, trim_left_set, [], ◌∷◌, none, some, true,
  false, ◌≡◌, ◌↔◌, refl, arith, text_comparable,
}
use tallox_go.Prelude.Results.{err, ok}
use tallox_go.Principal.{token}
use tallox_go.Auth.Token.{parse_token, hash_secret}
use tallox_go.Auth.Refusal.{refusal, expired_token, middleware, served}
use tallox_go.Auth.Refusal.{Refusal, declined}
use tallox_go.Auth.TokenDoor.Declined.{Recorded, token_door-declined}
use tallox_go.Auth.TokenDoor.{
  Token, TokenLookup, Time, Person, no_uses, actor_of, authenticate, not_bearer, look_up,
  check_token, mark_used, start_write,
}
use tallox_go.Auth.TokenDoor.Acceptance.{Admits, credential, authenticate_iff}
use tallox_go.Auth.TokenDoor.Marks.{Request, run, Spaced, run-Spaced}
use tallox_go.Auth.TokenDoor.Service.{token_door, token_door-hides}
use tallox_go.Tests.Credentials.{presented, presented_parts}

abbrev pub no_hash : Text → Text
no_hash secret = 0 ∷ secret

abbrev pub trims : Text → Text
trims = trim_space ascii

abbrev pub owner : Person
owner = record {
  id = 7;
  mail = "o@hm.edu";
  name = "O";
  active = true;
  roles = "LECTURER" ∷ [];
  role_scopes = [];
}

abbrev pub row : Token
row = record {
  id = presented_parts.id;
  secret_hash = no_hash presented_parts.secret;
  scopes = [];
  full_reach = false;
  expires_at = 1000;
  revoked_at = 0;
  owner = owner;
}

abbrev one_row : TokenLookup
one_row id = ok (some row)

abbrev no_row : TokenLookup
no_row id = ok none

abbrev pub header : Text
header = codes "Bearer " ++ presented

abbrev wrong_header : Text
wrong_header = codes "BEARER tallox_0123456789ABCDEF_zbcdefghijklmnopqrstuvwxyz_-ABCDEFGHIJKLMNO"

pub header_bearer : not_bearer (trims header) ≡ false
unfolding not_bearer trim_space
header_bearer = refl

pub header_reads : parse_token (credential trims no_hash header) ≡ some presented_parts
unfolding parse_token cut cut_prefix trim_left_set trim_space
header_reads = refl

admits : Admits trims no_hash (some one_row) 999 header (actor_of row)
admits = record {
  parsed = presented_parts;
  stored = row;
  presents = record { bearer = header_bearer; reads = header_reads };
  found = record { by_id = one_row; configured = refl; found = refl };
  in_force = record {
    secret_fits = refl;
    not_revoked = refl;
    not_expired = omega arith;
    owner_active = refl;
  };
  made_of = refl;
}

authenticate_iff_example :
    ((authenticate trims no_hash (some one_row) 999 999 header no_uses).0 ≡ ok (actor_of row))
    ↔ Admits trims no_hash (some one_row) 999 header (actor_of row)
authenticate_iff_example =
    authenticate_iff trims no_hash (some one_row) 999 999 header no_uses (actor_of row)

let_in : (authenticate trims no_hash (some one_row) 999 999 header no_uses).0 ≡ ok (actor_of row)
let_in =
    (authenticate_iff trims no_hash (some one_row) 999 999 header no_uses (actor_of row)).1 admits

too_late :
    (authenticate trims no_hash (some one_row) 1000 1000 header no_uses).0 ≡ err expired_token
unfolding authenticate not_bearer parse_token cut cut_prefix trim_left_set trim_space look_up
    check_token hash_secret
too_late = refl

abbrev at : Time → Request trims no_hash
at now = record { tokens = some one_row; now = 999; mark_now = now; authorization = header }

run-Spaced_example :
    Spaced (run trims no_hash (at 1 ∷ at 299999999999 ∷ at 300000000001 ∷ []) no_uses).writes
run-Spaced_example = run-Spaced trims no_hash (at 1 ∷ at 299999999999 ∷ at 300000000001 ∷ [])

writes_by_hand :
    (run trims no_hash (at 1 ∷ at 299999999999 ∷ at 300000000001 ∷ []) no_uses).writes
    ≡ (presented_parts.id, 300000000001) ∷ (presented_parts.id, 1) ∷ []
unfolding authenticate not_bearer parse_token cut cut_prefix trim_left_set trim_space look_up
    check_token hash_secret mark_used start_write
writes_by_hand = refl

-- The database does not answer.
abbrev no_database : TokenLookup
no_database id = err "down"

door_declines :
    (token_door trims no_hash (some no_database) 999 999 header no_uses).0
    ≡ declined 503 "Anmeldung derzeit nicht möglich. Bitte später erneut versuchen."
unfolding token_door middleware refusal authenticate not_bearer parse_token cut cut_prefix
    trim_left_set trim_space look_up
door_declines = refl

token_door-declined_example :
    (e : Refusal) × ((token_door trims no_hash (some no_database) 999 999 header no_uses).1
      ≡ e ∷ [])
    × (e.mail ≡ [])
    × (e.door ≡ token)
    × Recorded trims no_hash (some no_database) header 503 e
token_door-declined_example =
    token_door-declined trims no_hash (some no_database) 999 999 header no_uses 503
      "Anmeldung derzeit nicht möglich. Bitte später erneut versuchen." door_declines

door_serves :
    (token_door trims no_hash (some one_row) 999 999 header no_uses).0 ≡ served (actor_of row)
unfolding token_door middleware authenticate not_bearer parse_token cut cut_prefix trim_left_set
    trim_space look_up check_token hash_secret
door_serves = refl

abbrev other_row : Token
other_row = record row { secret_hash = 1 ∷ [] }

abbrev other_lookup : TokenLookup
other_lookup id = ok (some other_row)

token_door-hides_example :
    token_door trims no_hash (some no_row) 999 999 header no_uses
    ≡ token_door trims no_hash (some other_lookup) 999 999 header no_uses
token_door-hides_example =
    token_door-hides trims no_hash no_row other_lookup 999 999 header no_uses presented_parts
      other_row (record { bearer = header_bearer; reads = header_reads }) refl refl
      (λ h. ground (arith, h))
