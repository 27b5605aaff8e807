-- ===== src/Tests/Service.antt =====
-- The life of a token in the tables.
use tallox_go.Store.Tokens.{revoke_token_of_owner}
use tallox_go.Prelude.{
  ℤ, pos, negsuc, ℕ, ◌+◌, ◌*◌, ◌++◌, Text, codes, ascii, List, [], ◌∷◌, map, none, some, true,
  false, ◌≡◌, ◌≢◌, refl, sym, ap, ◌∙◌, arith, text_comparable,
}
use tallox_go.Prelude.Results.{ok}
use tallox_go.Principal.{Actor, authenticated, is_interactive_actor}
use tallox_go.Policy.Onlooker.{may_read_interactive_only}
use tallox_go.Policy.Scope.{Scope, scope_string}
use tallox_go.Auth.Token.{mint}
use tallox_go.Auth.TokenDoor.{Time, no_uses, actor_of, authenticate}
use tallox_go.Domain.TokenService.{CreatedToken, manages, revoke, scope_comparable}
use tallox_go.Domain.TokenService.Life.{revoke-authenticate}
use tallox_go.Auth.TokenDoor.{first}
use tallox_go.Store.Rows.{IsIn, at_head, later}
use tallox_go.Store.Tokens.{
  TokenRow, OwnerRow, TokenDatabase, Timestamps, inserted_row, tokens_store, token_by_id,
  withdrawn_row,
}
use tallox_go.Store.Tokens.Invariant.{execute_all-TokensWellFormed}
use tallox_go.Store.Tokens.Revoked.{
  TokensWellFormed, creates, revokes, marks, execute_all, TokenStatement,
}
use tallox_go.Tests.People.{person}
use tallox_go.Tests.Credentials.{reads_planning, writes_wishes, presented_parts}
use tallox_go.Tests.Tokens.{trims, row, header, header_bearer, header_reads}

abbrev two_scopes : List Scope
two_scopes = reads_planning ∷ writes_wishes ∷ []

abbrev account : OwnerRow
account = record {
  id = 7;
  mail = "o@hm.edu";
  name = "O";
  active = true;
  roles = ("LECTURER", none) ∷ [];
  role_scopes = [];
}

abbrev pg : Timestamps
pg = record { kept = λ t. t; days_91 = λ t. t + 9100 }

abbrev short_hash : Text → Text
short_hash t = first 32 t

abbrev old_row : TokenRow
old_row =
    inserted_row pg 1 presented_parts.id 7 (short_hash presented_parts.secret) (codes "alt") []
      false 1000

abbrev tables : TokenDatabase
tables = record { outcomes = []; tokens = old_row ∷ []; owners = account ∷ [] }

abbrev ten_bytes : List ℕ
ten_bytes = 1 ∷ 2 ∷ 3 ∷ 4 ∷ 5 ∷ 6 ∷ 7 ∷ 8 ∷ 9 ∷ 255 ∷ []

abbrev many_bytes : List ℕ
many_bytes = ten_bytes ++ ten_bytes ++ ten_bytes ++ 16 ∷ 32 ∷ []

abbrev requester : Actor
requester = person ("LECTURER" ∷ []) []

abbrev add_days : Time → ℤ → Time
add_days now (pos days) = now + days * 100
add_days now (negsuc days) = now

abbrev fresh_row : TokenRow
fresh_row =
    inserted_row pg 101 (mint short_hash ten_bytes many_bytes).id 7
      (mint short_hash ten_bytes many_bytes).secret_hash (codes "Skript")
      (map scope_string two_scopes) true 3100

abbrev fresh : CreatedToken
fresh = record {
  stored = record {
    id = fresh_row.token_id;
    description = fresh_row.description;
    scopes = fresh_row.scopes;
    full_reach = true;
    created_at = 101;
    expires_at = 3100;
    last_used_at = 0;
    revoked_at = 0;
  };
  plaintext = (mint short_hash ten_bytes many_bytes).plaintext;
}

abbrev two_rows : TokenDatabase
two_rows = record tables { tokens = fresh_row ∷ old_row ∷ [] }

abbrev fresh_header : Text
fresh_header = codes "bearer " ++ fresh.plaintext

abbrev old_gone : TokenDatabase
old_gone = record tables { tokens = withdrawn_row 500 old_row ∷ [] }

revoked_by_hand : revoke (tokens_store pg 500) requester presented_parts.id tables ≡ (
  ok (record {
    id = presented_parts.id;
    description = codes "alt";
    scopes = [];
    full_reach = false;
    created_at = 1;
    expires_at = 1000;
    last_used_at = 0;
    revoked_at = 500;
  }),
  old_gone,
)
unfolding revoke manages authenticated may_read_interactive_only is_interactive_actor
    revoke_token_of_owner
revoked_by_hand = refl

only_row : (r : TokenRow) → IsIn r tables.tokens → old_row ≡ r
only_row r (at_head e) = e
only_row r (later i) = elim i [ ]

tables-TokensWellFormed : TokensWellFormed tables
tables-TokensWellFormed = record {
  unique = λ r r' i j e. sym (only_row r i) ∙ only_row r' j;
  dated = λ r i z. ground (arith, ap (λ (x : TokenRow). x.revoked_at) (only_row r i) ∙ z);
}

abbrev later_statements : List (Time × TokenStatement)
later_statements =
    (600, marks presented_parts.id)
    ∷ (601, creates presented_parts.id 7 (short_hash presented_parts.secret) [] [] false 1000)
    ∷ (602, revokes presented_parts.id 7)
    ∷ []

execute_all-TokensWellFormed_example : TokensWellFormed (execute_all pg later_statements tables)
execute_all-TokensWellFormed_example =
    execute_all-TokensWellFormed pg later_statements tables
      (λ z. ground (arith, z), (λ z. ground (arith, z), (λ z. ground (arith, z), tt)))
      tables-TokensWellFormed

revoke-authenticate_example :
    (authenticate trims short_hash
      (some (token_by_id 700 (execute_all pg later_statements old_gone)))
      999
      999
      header
      no_uses).0
    ≢ ok (actor_of row)
revoke-authenticate_example =
    revoke-authenticate ascii short_hash add_days trims pg requester presented_parts.id 500 tables
      old_gone _ tables-TokensWellFormed (λ z. ground (arith, z)) revoked_by_hand later_statements
      700 999 999 header no_uses presented_parts (actor_of row)
      (record { bearer = header_bearer; reads = header_reads }) refl
