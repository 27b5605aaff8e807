-- ===== src/Domain/TokenService/Life.antt =====
-- A token from its creation to its revocation, between the service and the token door.
use mathlib.Core.Option.{some-injective}
use tallox_go.Prelude.{
  ℤ, Text, List, Option, some, Unicode, ◌≡◌, ◌≢◌, sym, inl, inr, ap, ◌∙◌, arith, nat_comparable,
}
use tallox_go.Prelude.Results.{Result-cases, ok}
use tallox_go.Principal.{Actor}
use tallox_go.Policy.Scope.{Scope}
use tallox_go.Auth.Token.{ParsedToken}
use tallox_go.Auth.TokenDoor.{Time, zero_time, Uses, authenticate}
use tallox_go.Auth.TokenDoor.Acceptance.{Presents, authenticate_iff}
use tallox_go.Store.Tokens.{Timestamps, TokenDatabase, tokens_store, token_by_id}
use tallox_go.Store.Tokens.Revoked.{
  TokensWellFormed, TokenStatement, execute_all, execute_all-Withdrawn,
  revoke_token_of_owner-Withdrawn, Withdrawn-found,
}
use tallox_go.Domain.TokenService.{TokenRecord, revoke, manages}

module _ (u : Unicode) (hash : Text → Text) (add_days : Time → ℤ → Time) (trim : Text → Text)
    (pg : Timestamps) where
  -- Once `Revoke` has returned a token's record, no request that presents this token is let in,
  -- whatever tokens are then created, revoked or marked as used, in statements that may fail; if the
  -- ids in the table were unique, and neither the clock nor a revocation before shows the zero time.
  pub revoke-authenticate :
      (actor : Actor) (id : Text) (revoked_at : Time) (s s' : TokenDatabase) (r : TokenRecord)
      → TokensWellFormed s
      → revoked_at ≢ zero_time
      → revoke (tokens_store pg revoked_at) actor id s ≡ (ok r, s')
      → (cs : List (Time × TokenStatement)) (found_at now mark_now : Time) (authorization : Text)
        (uses : Uses) (parsed : ParsedToken) (a : Actor)
      → Presents trim hash authorization parsed
      → parsed.id ≡ id
      → (authenticate trim hash
          (some (token_by_id found_at (execute_all pg cs s')))
          now
          mark_now
          authorization
          uses).0
        ≢ ok a
  unfolding revoke
  revoke-authenticate actor id revoked_at s s' r wf n revoked cs found_at now mark_now authorization
        uses parsed a presents same h =
      elim (Result-cases (manages actor)) [
        | inl (e, m) ↦ ground (arith, revoked, m)
        | inr (owner, m) ↦
            let later = execute_all pg cs s' in
            let k =
              (authenticate_iff trim hash (some (token_by_id found_at later)) now mark_now
                  authorization uses a).0
                h in
            let twin : some k.parsed ≡ some parsed = sym k.presents.reads ∙ presents.reads in
            let ids : k.parsed.id ≡ id = ap (λ p. p.id) (some-injective _ _ twin) ∙ same in
            let lookup : token_by_id found_at later ≡ k.found.by_id =
              some-injective _ _ k.found.configured in
            let gone = execute_all-Withdrawn pg cs id s' (
              revoke_token_of_owner-Withdrawn revoked_at s s' id owner.id r wf n
                (ground (arith, revoked, m))) in
            Withdrawn-found found_at id later k.stored gone
              (ap (token_by_id found_at later) (sym ids)
                ∙ (λ i. lookup i k.parsed.id)
                ∙ k.found.found)
              k.in_force.not_revoked
      ]
