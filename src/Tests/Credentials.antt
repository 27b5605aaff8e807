-- ===== src/Tests/Credentials.antt =====
-- Scopes and tokens.
use tallox_go.Prelude.{
  ℕ, zero, suc, Text, List, trim_left_set, arith, cut, ascii, codes, trim_space, to_upper, true,
  ◌≡◌, refl, [], ◌∷◌, some, map,
}
use tallox_go.Auth.Token.{ParsedToken, parse_token, mint}
use tallox_go.Auth.Token.RoundTrip.{parse_token_iff, parse_token-mint}
use tallox_go.Principal.{Actor}
use tallox_go.Policy.Scope.{
  to_verb, to_area, valid_verb, valid_area, Scope, planning, wishes, read, write, valid,
  scope_string, parse_scope, grants, scopes_allow, area_comparable,
}
use tallox_go.Policy.Scope.Allow.{scopes_allow-stored}
use tallox_go.Tests.People.{plain_token}

abbrev pub reads_planning : Scope
reads_planning = record { area = planning; verb = read }

abbrev pub writes_wishes : Scope
writes_wishes = record { area = wishes; verb = write }

parse_scope_by_hand : parse_scope ascii (codes " planning:Read ") ≡ some reads_planning
unfolding parse_scope cut to_upper trim_space valid valid_area valid_verb to_area to_verb
parse_scope_by_hand = refl

abbrev narrowed_token : Actor
narrowed_token = record plain_token { scopes = codes "wishes:write" ∷ [] }

scopes_allow-stored_example :
    scopes_allow ascii
      (record plain_token { scopes = map scope_string (reads_planning ∷ writes_wishes ∷ []) })
      (record { area = wishes; verb = read })
    ≡ true
unfolding grants
scopes_allow-stored_example =
    scopes_allow-stored ascii
      (record plain_token { scopes = map scope_string (reads_planning ∷ writes_wishes ∷ []) })
      (record { area = wishes; verb = read }) (reads_planning ∷ writes_wishes ∷ []) refl refl
      (unfold valid valid_area valid_verb in (refl, (refl, tt)))

abbrev pub presented : Text
presented = codes "tallox_0123456789ABCDEF_abcdefghijklmnopqrstuvwxyz_-ABCDEFGHIJKLMNO"

abbrev pub presented_parts : ParsedToken
presented_parts = record {
  id = codes "0123456789ABCDEF";
  secret = codes "abcdefghijklmnopqrstuvwxyz_-ABCDEFGHIJKLMNO";
}

parse_token_iff_example : parse_token presented ≡ some presented_parts
unfolding trim_left_set
parse_token_iff_example =
    (parse_token_iff presented presented_parts).1
      (record { shape = refl; id_fits = refl; secret_fits = refl; id_symbols = refl })

-- The bytes 250 and 3, as often as the generator is asked for.
abbrev bytes : ℕ → List ℕ
bytes zero = []
bytes (suc zero) = 3 ∷ []
bytes (suc (suc n)) = 250 ∷ 3 ∷ bytes n

parse_token-mint_example :
    (p : ParsedToken) × (parse_token (mint (λ t. t) (bytes 10) (bytes 32)).plaintext ≡ some p)
    × (p.id ≡ (mint (λ t. t) (bytes 10) (bytes 32)).id)
    × (p.secret ≡ (mint (λ t. t) (bytes 10) (bytes 32)).secret_hash)
parse_token-mint_example = parse_token-mint (λ t. t) (bytes 10) (bytes 32) (omega arith) refl refl
