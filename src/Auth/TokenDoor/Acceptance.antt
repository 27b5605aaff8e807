-- ===== src/Auth/TokenDoor/Acceptance.antt =====
-- Whom the token door lets in, and what it tells whom.
use tallox_go.Prelude.{
  Text, Option, none, some, true, false, ◌≡◌, inl, inr, refl, ap, ◌∙◌, arith, length, Option-cases,
  [], ◌∷◌, Bool-cases, is_empty, text_comparable, text_eq_law, ◌<◌, nat_comparable, ◌↔◌, ◌==◌,
}
use tallox_go.Prelude.Results.{Result-cases, ok}
use tallox_go.Auth.Token.{parse_token, ParsedToken, hash_secret}
use tallox_go.Auth.Refusal.{AuthError, revoked_token, expired_token, inactive_user}
use tallox_go.Auth.TokenDoor.{
  Bool, err, actor_of, Actor, ◌∷◌, Uses, is_empty, authenticate, look_up, Token, TokenLookup, Time,
  zero_time, bearer_prefix, after_first, not_bearer, check_token,
}

-- The token that the lookup stores fits the one presented, and is in force.
pub record InForce (hash : Text → Text) (now : Time) (parsed : ParsedToken) (stored : Token)
    : Type 0 where
  pub secret_fits : stored.secret_hash ≡ hash parsed.secret
  pub not_revoked : stored.revoked_at ≡ zero_time
  pub not_expired : now < stored.expires_at
  pub owner_active : stored.owner.active ≡ true

-- What the lookup is asked for, and finds.
pub record Found (tokens : Option TokenLookup) (parsed : ParsedToken) (stored : Token)
    : Type 0 where
  pub by_id : TokenLookup
  pub configured : tokens ≡ some by_id
  pub found : by_id parsed.id ≡ ok (some stored)

module _ (trim : Text → Text) (hash : Text → Text) where
  abbrev pub credential : Text → Text
  credential authorization = trim (after_first (length bearer_prefix) (trim authorization))

  -- The header is a bearer credential that is read as a token.
  pub record Presents (authorization : Text) (parsed : ParsedToken) : Type 0 where
    pub bearer : not_bearer (trim authorization) ≡ false
    pub reads : parse_token (credential authorization) ≡ some parsed

  check_token_ok :
      (now : Time) (parsed : ParsedToken) (o : Option Token) (stored : Token)
      → check_token trim hash now parsed o ≡ ok stored
      → (o ≡ some stored) × InForce hash now parsed stored
  unfolding check_token hash_secret
  check_token_ok now parsed none stored h = ground (arith, h)
  check_token_ok now parsed (some s) stored h =
      ground (arith, h, (text_eq_law s.secret_hash (hash parsed.secret)).0)

  check_token-InForce :
      (now : Time) (parsed : ParsedToken) (stored : Token)
      → InForce hash now parsed stored
      → check_token trim hash now parsed (some stored) ≡ ok stored
  unfolding check_token hash_secret
  check_token-InForce now parsed stored f = ground (
    arith,
    (text_eq_law stored.secret_hash (hash parsed.secret)).1 f.secret_fits,
    f.not_revoked,
    f.not_expired,
    f.owner_active,
  )

  look_up_ok :
      (tokens : Option TokenLookup) (now : Time) (parsed : ParsedToken) (stored : Token)
      → look_up trim hash tokens now parsed ≡ ok stored
      → Found tokens parsed stored × InForce hash now parsed stored
  unfolding look_up
  look_up_ok none now parsed stored h = ground (arith, h)
  look_up_ok (some by_id) now parsed stored h = elim (Result-cases (by_id parsed.id)) [
    | inl (message, e) ↦ ground (arith, h, e)
    | inr (o, e) ↦
        let (same, in_force) = check_token_ok now parsed o stored (ground (arith, h, e)) in
        (record { by_id = by_id; configured = refl; found = e ∙ ap ok same }, in_force)
  ]

  look_up-InForce :
      (tokens : Option TokenLookup) (now : Time) (parsed : ParsedToken) (stored : Token)
      → Found tokens parsed stored
      → InForce hash now parsed stored
      → look_up trim hash tokens now parsed ≡ ok stored
  unfolding look_up
  look_up-InForce tokens now parsed stored f i = ground (
    arith,
    f.configured,
    f.found,
    ap (look_up trim hash) f.configured,
    check_token-InForce now parsed stored i,
  )

  pub not_bearer-empty : (header : Text) → not_bearer header ≡ false → is_empty header ≡ false
  unfolding not_bearer
  not_bearer-empty [] h = ground (arith, h)
  not_bearer-empty (c ∷ t) h = refl

  -- The request presents a token that is found and in force, and the actor is made of it.
  pub record Admits (tokens : Option TokenLookup) (now : Time) (authorization : Text) (a : Actor)
      : Type 0 where
    pub parsed : ParsedToken
    pub stored : Token
    pub presents : Presents authorization parsed
    pub found : Found tokens parsed stored
    pub in_force : InForce hash now parsed stored
    pub made_of : a ≡ actor_of stored

  -- A request is let in exactly when it presents, as a bearer credential, a token that the lookup
  -- finds, with the secret stored for it, neither revoked nor expired, of an active person; and the
  -- actor is then made of the stored token and its owner.
  pub authenticate_iff :
      (tokens : Option TokenLookup) (now mark_now : Time) (authorization : Text) (uses : Uses)
      (a : Actor)
      → ((authenticate trim hash tokens now mark_now authorization uses).0 ≡ ok a)
        ↔ Admits tokens now authorization a
  unfolding authenticate
  authenticate_iff tokens now mark_now authorization uses a = (
    λ h. elim (Bool-cases (is_empty (trim authorization))) [
      | inl e ↦ ground (arith, h, e)
      | inr e ↦ elim (Bool-cases (not_bearer (trim authorization))) [
        | inl b ↦ ground (arith, h, e, b)
        | inr b ↦ elim (Option-cases (parse_token (credential authorization))) [
          | inl p ↦ ground (arith, h, e, b, p)
          | inr (parsed, p) ↦ elim (Result-cases (look_up trim hash tokens now parsed)) [
            | inl (cause, l) ↦ ground (arith, h, e, b, p, l)
            | inr (stored, l) ↦ record {
              parsed = parsed;
              stored = stored;
              presents = record { bearer = b; reads = p };
              found = (look_up_ok tokens now parsed stored l).0;
              in_force = (look_up_ok tokens now parsed stored l).1;
              made_of = ground (arith, h, e, b, p, l);
            }
          ]
        ]
      ]
    ],
    λ h. ground (
      arith,
      h.presents.bearer,
      not_bearer-empty (trim authorization) h.presents.bearer,
      h.presents.reads,
      look_up-InForce tokens now h.parsed h.stored h.found h.in_force,
      h.made_of,
    ),
  )

  -- What tells the holder of a token why it stopped working.
  abbrev pub names_reason : AuthError → Bool
  names_reason revoked_token = true
  names_reason expired_token = true
  names_reason inactive_user = true
  names_reason _ = false

  check_token_reason :
      (now : Time) (parsed : ParsedToken) (o : Option Token) (e : AuthError)
      → check_token trim hash now parsed o ≡ err e
      → names_reason e ≡ true
      → (stored : Token) × (o ≡ some stored) × (stored.secret_hash ≡ hash parsed.secret)
  unfolding check_token hash_secret
  check_token_reason now parsed none e h r = ground (arith, h, r)
  check_token_reason now parsed (some s) e h r =
      elim (Bool-cases (s.secret_hash == hash parsed.secret)) [
        | inl same ↦ (s, refl, (text_eq_law s.secret_hash (hash parsed.secret)).0 same)
        | inr other ↦ ground (arith, h, r, other)
      ]

  look_up_reason :
      (tokens : Option TokenLookup) (now : Time) (parsed : ParsedToken) (e : AuthError)
      → look_up trim hash tokens now parsed ≡ err e
      → names_reason e ≡ true
      → (stored : Token) × Found tokens parsed stored × (stored.secret_hash ≡ hash parsed.secret)
  unfolding look_up
  look_up_reason none now parsed e h r = ground (arith, h, r)
  look_up_reason (some by_id) now parsed e h r = elim (Result-cases (by_id parsed.id)) [
    | inl (message, l) ↦ ground (arith, h, l, r)
    | inr (o, l) ↦
        let (stored, same, fits) = check_token_reason now parsed o e (ground (arith, h, l)) r in
        (stored, record { by_id = by_id; configured = refl; found = l ∙ ap ok same }, fits)
  ]

  -- Only to somebody who presents the secret stored for a token is it said that this token is
  -- revoked, expired or its owner's account deactivated.
  pub authenticate_reason :
      (tokens : Option TokenLookup) (now mark_now : Time) (authorization : Text) (uses : Uses)
      (e : AuthError)
      → (authenticate trim hash tokens now mark_now authorization uses).0 ≡ err e
      → names_reason e ≡ true
      → (parsed : ParsedToken) × (stored : Token) × Presents authorization parsed
        × Found tokens parsed stored
        × (stored.secret_hash ≡ hash parsed.secret)
  unfolding authenticate
  authenticate_reason tokens now mark_now authorization uses e h r =
      elim (Bool-cases (is_empty (trim authorization))) [
        | inl nothing ↦ ground (arith, h, nothing, r)
        | inr nothing ↦ elim (Bool-cases (not_bearer (trim authorization))) [
          | inl b ↦ ground (arith, h, nothing, b, r)
          | inr b ↦ elim (Option-cases (parse_token (credential authorization))) [
            | inl p ↦ ground (arith, h, nothing, b, p, r)
            | inr (parsed, p) ↦ elim (Result-cases (look_up trim hash tokens now parsed)) [
              | inl (cause, l) ↦
                  let (stored, found, same) =
                    look_up_reason tokens now parsed e (ground (arith, h, nothing, b, p, l)) r in
                  (parsed, stored, record { bearer = b; reads = p }, found, same)
              | inr (stored, l) ↦ ground (arith, h, nothing, b, p, l)
            ]
          ]
        ]
      ]
