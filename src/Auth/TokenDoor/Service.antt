-- ===== src/Auth/TokenDoor/Service.antt =====
-- The token door behind the middleware.
use tallox_go.Prelude.{
  Text, Option, none, some, ◌≡◌, ◌≢◌, ◌⊎◌, inl, inr, refl, arith, Bool-cases, text_comparable,
  text_eq_law, ◌==◌, List,
}
use tallox_go.Prelude.Results.{err, ok}
use tallox_go.Principal.{Actor, anonymous, token}
use tallox_go.Auth.Token.{ParsedToken, hash_secret}
use tallox_go.Auth.Refusal.{Answer, Refusal, served, middleware, invalid_token}
use tallox_go.Auth.Refusal.Answers.{middleware-served}
use tallox_go.Auth.TokenDoor.{
  Token, TokenLookup, Time, Uses, authenticate, asserted, check_token, look_up,
}
use tallox_go.Auth.TokenDoor.Acceptance.{Admits, Presents, authenticate_iff, not_bearer-empty}

module _ (trim : Text → Text) (hash : Text → Text) where
  -- What the mounted token door does with a request.
  unfoldable pub token_door : Option TokenLookup → Time → Time → Text → Uses → Answer × List Refusal
  token_door tokens now mark_now authorization uses =
      middleware token (asserted trim hash authorization)
        (authenticate trim hash tokens now mark_now authorization uses).0

  -- Behind the token door nobody is served but the owner of a token that is presented, found and in
  -- force, and the anonymous actor.
  pub token_door-serves :
      (tokens : Option TokenLookup) (now mark_now : Time) (authorization : Text) (uses : Uses)
      (a : Actor)
      → (token_door tokens now mark_now authorization uses).0 ≡ served a
      → Admits trim hash tokens now authorization a ⊎ (a ≡ anonymous)
  unfolding token_door
  token_door-serves tokens now mark_now authorization uses a h =
      elim ((middleware-served token _ _ a).0 h) [
        | inl accepted ↦
            inl ((authenticate_iff trim hash tokens now mark_now authorization uses a).0 accepted)
        | inr (e, nobody) ↦ inr nobody
      ]

  check_token-other :
      (now : Time) (parsed : ParsedToken) (stored : Token)
      → stored.secret_hash ≢ hash parsed.secret
      → check_token trim hash now parsed (some stored) ≡ err invalid_token
  unfolding check_token hash_secret
  check_token-other now parsed stored other =
      elim (Bool-cases (stored.secret_hash == hash parsed.secret)) [
        | inl same ↦ absurd (other ((text_eq_law _ _).0 same))
        | inr differs ↦ ground (arith, differs)
      ]

  -- To somebody who does not know a token's secret the door answers, and records, the same as if
  -- there were no such token.
  pub token_door-hides :
      (by_id by_id' : TokenLookup) (now mark_now : Time) (authorization : Text) (uses : Uses)
      (parsed : ParsedToken) (stored : Token)
      → Presents trim hash authorization parsed
      → by_id parsed.id ≡ ok none
      → by_id' parsed.id ≡ ok (some stored)
      → stored.secret_hash ≢ hash parsed.secret
      → token_door (some by_id) now mark_now authorization uses
        ≡ token_door (some by_id') now mark_now authorization uses
  unfolding token_door authenticate look_up check_token
  token_door-hides by_id by_id' now mark_now authorization uses parsed stored p missing found
        other =
      rw
        (
          p.bearer,
          not_bearer-empty trim hash _ p.bearer,
          p.reads,
          missing,
          found,
          check_token-other now parsed stored other,
        )
        refl
