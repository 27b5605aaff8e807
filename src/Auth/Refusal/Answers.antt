-- ===== src/Auth/Refusal/Answers.antt =====
-- What the middleware does with a request.
use tallox_go.Prelude.{◌≡◌, ◌⊎◌, ◌↔◌, arith}
use tallox_go.Prelude.Results.{Result, err, ok}
use tallox_go.Principal.{Actor, Kind, anonymous}
use tallox_go.Auth.Refusal.{
  AuthError, no_credential, unavailable, unknown_user, inactive_user, ambiguous_identity,
  malformed_token, invalid_token, expired_token, revoked_token, Asserted, served, middleware,
}

-- The next handler serves a request to somebody exactly when the authentication says that it is
-- theirs, or says that nothing was presented and this is the anonymous actor.
pub middleware-served :
    (door : Kind) (asserted : Asserted) (r : Result AuthError Actor) (a : Actor)
    → ((middleware door asserted r).0 ≡ served a)
      ↔ ((r ≡ ok a) ⊎ ((r ≡ err no_credential) × (a ≡ anonymous)))
unfolding middleware
middleware-served door asserted (ok b) a = ground arith
middleware-served door asserted (err no_credential) a = ground arith
middleware-served door asserted (err unknown_user) a = ground arith
middleware-served door asserted (err inactive_user) a = ground arith
middleware-served door asserted (err ambiguous_identity) a = ground arith
middleware-served door asserted (err malformed_token) a = ground arith
middleware-served door asserted (err invalid_token) a = ground arith
middleware-served door asserted (err expired_token) a = ground arith
middleware-served door asserted (err revoked_token) a = ground arith
middleware-served door asserted (err unavailable) a = ground arith
