-- ===== src/Domain/TokenService.antt =====
-- internal/domain/token.go: the management of personal access tokens.
pub mod Scopes
pub mod Guards
pub mod Requests
pub mod Life
use tallox_go.Prelude.{
  ℤ, pos, negsuc, ℕ, String, Text, Unicode, trim_space, length, is_empty, contains, List, [], ◌∷◌,
  Option, none, some, Bool, true, false, ◌&&◌, ◌||◌, not, if◌then◌else◌, ltb, Comparable, ◌==◌,
  nat_comparable, ◌≡◌, ◌↔◌, refl, arith, Bool-cases, inl, inr, ap,
}
use tallox_go.Prelude.Results.{Result, err, ok}
use tallox_go.Principal.{Actor, Uuid, authenticated}
use tallox_go.Policy.Onlooker.{may_read_interactive_only}
use tallox_go.Policy.Scope.{
  Scope, ScopeArea, ScopeVerb, valid, scope_string, area_comparable, verb_comparable,
}
use tallox_go.Auth.Token.{mint}
use tallox_go.Auth.TokenDoor.{Time}

abbrev pub below : ℤ → ℕ → Bool
below (pos n) m = ltb n m
below (negsuc n) m = true

abbrev pub above : ℤ → ℕ → Bool
above (pos n) m = ltb m n
above (negsuc n) m = false

abbrev pub default_token_days : ℤ
default_token_days = pos 90

abbrev pub max_token_days : ℕ
max_token_days = 365

abbrev pub min_token_days : ℕ
min_token_days = 1

abbrev pub max_full_reach_token_days : ℕ
max_full_reach_token_days = 90

abbrev pub max_description_length : ℕ
max_description_length = 200

-- `generation_failed` wraps an error of the random generator; `storing_failed` is any error of the
-- store but `ErrNoSuchToken`.
pub data TokenError : Type 0 where
  not_authenticated interactive_only no_description description_too_long : TokenError
  lifetime_out_of_range full_reach_lifetime scope_unknown scope_repeated : TokenError
  no_such_token generation_failed storing_failed : TokenError

pub record TokenRecord : Type 0 where
  pub id : Text
  pub description : Text
  pub scopes : List Text
  pub full_reach : Bool
  pub created_at : Time
  pub expires_at : Time
  pub last_used_at : Time
  pub revoked_at : Time

pub record CreatedToken : Type 0 where
  pub stored : TokenRecord
  pub plaintext : Text

-- The store on a state of the database.
pub record TokenStore (σ : Type 0) : Type 0 where
  pub create_token :
      σ → Text → Uuid → Text → Text → List Text → Bool → Time → Result String TokenRecord × σ
  pub tokens_of_owner : σ → Uuid → Result TokenError (List TokenRecord)
  pub revoke_token_of_owner : σ → Text → Uuid → Result TokenError TokenRecord × σ

abbrev pub scope_eq : Scope → Scope → Bool
scope_eq s t = s.area == t.area && s.verb == t.verb

pub scope_eq_law : (s t : Scope) → (scope_eq s t ≡ true) ↔ (s ≡ t)
scope_eq_law s t = (
  λ h. ground (
    arith,
    h,
    (area_comparable.eq_law s.area t.area).0,
    (verb_comparable.eq_law s.verb t.verb).0,
  ),
  λ h. ground (
    arith,
    ap (λ r. r.area) h,
    ap (λ r. r.verb) h,
    (area_comparable.eq_law s.area t.area).1,
    (verb_comparable.eq_law s.verb t.verb).1,
  ),
)

instance abbrev pub scope_comparable : Comparable Scope
scope_comparable = record { eq = scope_eq; eq_law = scope_eq_law }

-- The loop, with the scopes seen.
unfoldable pub store_scopes : List Scope → List Scope → Result TokenError (List Text)
store_scopes seen [] = ok []
store_scopes seen (scope ∷ scopes) =
    let rest = store_scopes (scope ∷ seen) scopes in
    if not (valid scope)
    then err scope_unknown
    else if contains seen scope
    then err scope_repeated
    else elim rest [ err e ↦ err e | ok out ↦ ok (scope_string scope ∷ out) ]

unfoldable pub stored_scopes : List Scope → Result TokenError (List Text)
stored_scopes scopes = store_scopes [] scopes

-- What `Create` stores of a request that passes its guards.
pub record Wanted : Type 0 where
  pub description : Text
  pub days : ℤ
  pub scopes : List Text

abbrev pub days_of : Option ℤ → ℤ
days_of none = default_token_days
days_of (some days) = days

unfoldable pub manages : Actor → Result TokenError Actor
manages actor =
    if not (authenticated actor)
    then err not_authenticated
    else if not (may_read_interactive_only actor)
    then err interactive_only
    else ok actor

-- `u` are the tables of `unicode`, `hash` is SHA-256, `add_days` is `AddDate(0, 0, days)`.
module _ (u : Unicode) (hash : Text → Text) (add_days : Time → ℤ → Time) where
  -- The guards of `Create` after those on the actor.
  unfoldable pub check_wanted : Text → Option ℤ → List Scope → Bool → Result TokenError Wanted
  check_wanted description expires_in_days scopes full_reach =
      let trimmed = trim_space u description in
      let days = days_of expires_in_days in
      if is_empty trimmed
      then err no_description
      else if ltb max_description_length (length trimmed)
      then err description_too_long
      else if below days min_token_days || above days max_token_days
      then err lifetime_out_of_range
      else if full_reach && above days max_full_reach_token_days
      then err full_reach_lifetime
      else elim (stored_scopes scopes) [
        | err e ↦ err e
        | ok stored ↦ ok (record { description = trimmed; days = days; scopes = stored })
      ]

  module _ {σ : Type 0} (store : TokenStore σ) where
    -- The end of `Create`; `raw` is what the random generator yields.
    unfoldable pub create_wanted :
        Time
        → Result String (List ℕ × List ℕ)
        → Uuid
        → Bool
        → Wanted
        → σ
        → Result TokenError CreatedToken × σ
    create_wanted now (err message) owner full_reach wanted s = (err generation_failed, s)
    create_wanted now (ok (id_raw, secret_raw)) owner full_reach wanted s =
        let minted = mint hash id_raw secret_raw in
        let (created, s') =
          store.create_token s minted.id owner minted.secret_hash wanted.description wanted.scopes
            full_reach (add_days now wanted.days) in
        elim created [
          | err message ↦ (err storing_failed, s')
          | ok stored ↦ (ok (record { stored = stored; plaintext = minted.plaintext }), s')
        ]

    unfoldable pub create :
        Time
        → Result String (List ℕ × List ℕ)
        → Actor
        → Text
        → Option ℤ
        → List Scope
        → Bool
        → σ
        → Result TokenError CreatedToken × σ
    create now raw actor description expires_in_days scopes full_reach s = elim (manages actor) [
      | err e ↦ (err e, s)
      | ok owner ↦ elim (check_wanted description expires_in_days scopes full_reach) [
        | err e ↦ (err e, s)
        | ok wanted ↦ create_wanted now raw owner.id full_reach wanted s
      ]
    ]

module _ {σ : Type 0} (store : TokenStore σ) where
  unfoldable pub list : Actor → σ → Result TokenError (List TokenRecord)
  list actor s = elim (manages actor) [
    | err e ↦ err e
    | ok owner ↦ store.tokens_of_owner s owner.id
  ]

  unfoldable pub revoke : Actor → Text → σ → Result TokenError TokenRecord × σ
  revoke actor token_id s = elim (manages actor) [
    | err e ↦ (err e, s)
    | ok owner ↦ store.revoke_token_of_owner s token_id owner.id
  ]
