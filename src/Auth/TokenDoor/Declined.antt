-- ===== src/Auth/TokenDoor/Declined.antt =====
-- internal/auth/tokenauth.go behind the middleware: what is answered and recorded of a request that
-- the token door declines.
use mathlib.Core.Option.{some-injective}
use tallox_go.Prelude.{
  ℕ, String, Text, [], ◌∷◌, Option, none, some, is_empty, ◌==◌, text_comparable, nat_comparable,
  ltb, ◌≡◌, ◌⊎◌, inl, inr, refl, sym, ap, ◌∙◌, arith, Bool-cases, Option-cases,
}
use tallox_go.Prelude.Results.{err, ok, Result-cases}
use tallox_go.Principal.{token}
use tallox_go.Auth.Token.{ParsedToken, parse_token, hash_secret}
use tallox_go.Auth.Refusal.{
  AuthError, malformed_token, unavailable, Asserted, Refusal, declined, refusal, record_refusal,
  middleware, invalid_token, revoked_token, expired_token, inactive_user, refusal_code,
}
use tallox_go.Auth.TokenDoor.{
  Token, TokenLookup, Time, zero_time, Uses, authenticate, asserted, check_token, look_up,
  not_bearer,
}
use tallox_go.Auth.TokenDoor.Acceptance.{Presents, credential, not_bearer-empty}
use tallox_go.Auth.TokenDoor.Service.{token_door}

-- The stored tokens cannot be asked for this id.
abbrev pub Unreachable : Option TokenLookup → Text → Type 0
Unreachable tokens id =
    (tokens ≡ none)
    ⊎ ((by_id : TokenLookup) × (message : String) × (tokens ≡ some by_id)
        × (by_id id ≡ err message))

module _ (trim : Text → Text) (hash : Text → Text) where
  -- What is recorded of a request, and the status that goes with it.
  abbrev pub Recorded : Option TokenLookup → Text → ℕ → Refusal → Type 0
  Recorded tokens authorization status entry =
      (((p : ParsedToken) → Presents trim hash authorization p → ⊥)
        × (entry.token_id ≡ [])
        × (entry.code ≡ "MALFORMED_TOKEN")
        × (status ≡ 401))
      ⊎ ((p : ParsedToken) × Presents trim hash authorization p
          × (entry.token_id ≡ p.id)
          × ((Unreachable tokens p.id × (entry.code ≡ "UNAVAILABLE") × (status ≡ 503))
              ⊎ ((Unreachable tokens p.id → ⊥) × (status ≡ 401))))

  -- The refusals of a stored token.
  data OfStored : AuthError → Type 0 where
    invalid : OfStored invalid_token
    revoked : OfStored revoked_token
    expired : OfStored expired_token
    inactive : OfStored inactive_user

  check_token_refusals :
      (now : Time) (parsed : ParsedToken) (o : Option Token)
      → ((e : AuthError) × OfStored e × (check_token trim hash now parsed o ≡ err e))
        ⊎ ((stored : Token) × (check_token trim hash now parsed o ≡ ok stored))
  unfolding check_token hash_secret
  check_token_refusals now parsed none = inl (invalid_token, invalid, refl)
  check_token_refusals now parsed (some stored) =
      elim (Bool-cases (stored.secret_hash == hash parsed.secret)) [
        | inr a ↦ inl (invalid_token, invalid, ground (arith, a))
        | inl a ↦ elim (Bool-cases (stored.revoked_at == zero_time)) [
          | inr b ↦ inl (revoked_token, revoked, ground (arith, a, b))
          | inl b ↦ elim (Bool-cases (ltb now stored.expires_at)) [
            | inr c ↦ inl (expired_token, expired, ground (arith, a, b, c))
            | inl c ↦ elim (Bool-cases stored.owner.active) [
              | inr d ↦ inl (inactive_user, inactive, ground (arith, a, b, c, d))
              | inl d ↦ inr (stored, ground (arith, a, b, c, d))
            ]
          ]
        ]
      ]

  reached :
      (tokens : Option TokenLookup) (by_id : TokenLookup) (id : Text) (o : Option Token)
      → tokens ≡ some by_id
      → by_id id ≡ ok o
      → Unreachable tokens id
      → ⊥
  reached tokens by_id id o t l (inl n) = ground (arith, t, n)
  reached tokens by_id id o t l (inr (by_id', m, t', l')) =
      let same : by_id ≡ by_id' = some-injective _ _ (sym t ∙ t') in
      let both : err m ≡ ok o = sym l' ∙ sym (λ i. same i id) ∙ l in ground (arith, both)

  middleware-stored :
      (a : Asserted) (e : AuthError)
      → OfStored e
      → (message : String) × (middleware token a (err e)
          ≡ (declined 401 message, record_refusal token a e ∷ []))
  unfolding middleware refusal
  middleware-stored a e invalid = (_, refl)
  middleware-stored a e revoked = (_, refl)
  middleware-stored a e expired = (_, refl)
  middleware-stored a e inactive = (_, refl)

  entry : Text → AuthError → Refusal
  unfolding refusal_code
  entry id e = record { mail = []; token_id = id; door = token; code = refusal_code e }

  status_of : (s t : ℕ) (m n : String) → declined s m ≡ declined t n → t ≡ s
  status_of s t m n h = ground (arith, h)

  -- The door after the token was read.
  presented :
      (tokens : Option TokenLookup) (now mark_now : Time) (authorization : Text) (uses : Uses)
      (status : ℕ) (message : String) (parsed : ParsedToken)
      → Presents trim hash authorization parsed
      → (token_door trim hash tokens now mark_now authorization uses).0 ≡ declined status message
      → (e : Refusal) × ((token_door trim hash tokens now mark_now authorization uses).1 ≡ e ∷ [])
        × (e.mail ≡ [])
        × (e.door ≡ token)
        × Recorded tokens authorization status e
  unfolding token_door authenticate asserted middleware look_up refusal record_refusal refusal_code
      entry
  presented tokens now mark_now authorization uses status message parsed q h =
      let there = not_bearer-empty trim hash (trim authorization) q.bearer in
      elim (Option-cases tokens) [
        | inl t ↦ (
          entry parsed.id unavailable,
          ground (arith, there, q.bearer, q.reads, t),
          refl,
          refl,
          inr (parsed, q, refl, inl (inl t, refl, ground (arith, h, there, q.bearer, q.reads, t))),
        )
        | inr (by_id, t) ↦ elim (Result-cases (by_id parsed.id)) [
          | inl (m, l) ↦ (
            entry parsed.id unavailable,
            ground (arith, there, q.bearer, q.reads, t, l),
            refl,
            refl,
            inr (
              parsed,
              q,
              refl,
              inl (inr (by_id, m, t, l), refl, ground (arith, h, there, q.bearer, q.reads, t, l)),
            ),
          )
          | inr (o, l) ↦ elim (check_token_refusals now parsed o) [
            | inr (stored, c) ↦ ground (arith, h, there, q.bearer, q.reads, t, l, c)
            | inl (cause, s, c) ↦
                let (m, mw) =
                  middleware-stored (record { mail = []; token_id = parsed.id }) cause s in
                let door : token_door trim hash tokens now mark_now authorization uses
                    ≡ middleware token (record { mail = []; token_id = parsed.id }) (err cause) =
                  rw
                    (token_door, authenticate, asserted, look_up, there, q.bearer, q.reads, t, l, c)
                    refl in
                (
                  entry parsed.id cause,
                  ap (λ x. x.1) (door ∙ mw),
                  refl,
                  refl,
                  inr (
                    parsed,
                    q,
                    refl,
                    inr (
                      λ u. reached tokens by_id parsed.id o t l u,
                      status_of 401 status m message (sym (ap (λ x. x.0) (door ∙ mw)) ∙ h),
                    ),
                  ),
                )
          ]
        ]
      ]

  -- Of a request that the token door declines, one entry is recorded, without a mail and for that
  -- door. If no token is presented, the entry names none and says so, with the status 401. Else it
  -- names the public id of the presented token; if that could not be looked up, it says so, with the
  -- status 503, and otherwise the status is 401.
  pub token_door-declined :
      (tokens : Option TokenLookup) (now mark_now : Time) (authorization : Text) (uses : Uses)
      (status : ℕ) (message : String)
      → (token_door trim hash tokens now mark_now authorization uses).0 ≡ declined status message
      → (e : Refusal) × ((token_door trim hash tokens now mark_now authorization uses).1 ≡ e ∷ [])
        × (e.mail ≡ [])
        × (e.door ≡ token)
        × Recorded tokens authorization status e
  unfolding token_door authenticate asserted middleware look_up refusal record_refusal refusal_code
      entry
  token_door-declined tokens now mark_now authorization uses status message h =
      elim (Bool-cases (is_empty (trim authorization))) [
        | inl e ↦ ground (arith, h, e)
        | inr e ↦ elim (Bool-cases (not_bearer (trim authorization))) [
          | inl b ↦ (
            entry [] malformed_token,
            ground (arith, e, b),
            refl,
            refl,
            inl (λ p q. ground (arith, q.bearer, b), refl, refl, ground (arith, h, e, b)),
          )
          | inr b ↦ elim (Option-cases (parse_token (credential trim hash authorization))) [
            | inl p ↦ (
              entry [] malformed_token,
              ground (arith, e, b, p),
              refl,
              refl,
              inl (λ p' q. ground (arith, q.reads, p), refl, refl, ground (arith, h, e, b, p)),
            )
            | inr (parsed, p) ↦
                presented tokens now mark_now authorization uses status message parsed
                  (record { bearer = b; reads = p }) h
          ]
        ]
      ]
