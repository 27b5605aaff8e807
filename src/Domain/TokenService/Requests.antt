-- ===== src/Domain/TokenService/Requests.antt =====
-- Which requests for a token are granted.
use tallox_go.Prelude.{
  ℤ, ℕ, String, Text, List, Option, Unicode, Bool, true, ◌≡◌, refl, inl, inr, arith,
}
use tallox_go.Prelude.Results.{Result, Result-cases, err, ok}
use tallox_go.Principal.{Uuid, Actor}
use tallox_go.Policy.Onlooker.{may_read_interactive_only}
use tallox_go.Policy.Scope.{Scope}
use tallox_go.Auth.Token.{mint}
use tallox_go.Auth.TokenDoor.{Time}
use tallox_go.Domain.TokenService.{
  scope_comparable, manages, Wanted, check_wanted, TokenStore, CreatedToken, create, create_wanted,
}
use tallox_go.Domain.TokenService.Guards.{Grants, manages_iff, check_wanted_ok}

module _ (u : Unicode) (hash : Text → Text) (add_days : Time → ℤ → Time) where
  module _ {σ : Type 0} (store : TokenStore σ) where
    -- What `Create` has done when it returns a token.
    pub record Creates (now : Time) (raw : Result String (List ℕ × List ℕ)) (actor : Actor)
        (description : Text) (expires_in_days : Option ℤ) (scopes : List Scope) (full_reach : Bool)
        (s : σ) (c : CreatedToken) (s' : σ) : Type 0 where
      pub in_browser : may_read_interactive_only actor ≡ true
      pub wanted : Wanted
      pub grants : Grants u description expires_in_days scopes full_reach wanted
      pub id_raw : List ℕ
      pub secret_raw : List ℕ
      pub generated : raw ≡ ok (id_raw, secret_raw)
      pub plaintext : c.plaintext ≡ (mint hash id_raw secret_raw).plaintext
      pub stored :
          store.create_token s
            (mint hash id_raw secret_raw).id
            actor.id
            (mint hash id_raw secret_raw).secret_hash
            wanted.description
            wanted.scopes
            full_reach
            (add_days now wanted.days)
          ≡ (ok c.stored, s')

    create_wanted_ok :
        (now : Time) (raw : Result String (List ℕ × List ℕ)) (owner : Uuid) (full_reach : Bool)
        (wanted : Wanted) (s s' : σ) (c : CreatedToken)
        → create_wanted u hash add_days store now raw owner full_reach wanted s ≡ (ok c, s')
        → (id_raw : List ℕ) × (secret_raw : List ℕ) × (raw ≡ ok (id_raw, secret_raw))
          × (c.plaintext ≡ (mint hash id_raw secret_raw).plaintext)
          × (store.create_token s
                (mint hash id_raw secret_raw).id
                owner
                (mint hash id_raw secret_raw).secret_hash
                wanted.description
                wanted.scopes
                full_reach
                (add_days now wanted.days)
              ≡ (ok c.stored, s'))
    unfolding create_wanted
    create_wanted_ok now (err message) owner full_reach wanted s s' c h = ground (arith, h)
    create_wanted_ok now (ok (id_raw, secret_raw)) owner full_reach wanted s s' c h =
        let answer =
          store.create_token s (mint hash id_raw secret_raw).id owner
            (mint hash id_raw secret_raw).secret_hash wanted.description wanted.scopes full_reach
            (add_days now wanted.days) in
        elim (Result-cases answer.0) [
          | inl (message, e) ↦ ground (arith, h, e)
          | inr (stored, e) ↦
              let found : answer.0 ≡ ok c.stored = ground (arith, h, e) in
              let left : answer.1 ≡ s' = ground (arith, h, e) in
              (id_raw, secret_raw, refl, ground (arith, h, e), λ i. (found i, left i))
        ]

    -- `Create` returns a token only to an interactive caller whose description, lifetime and scopes
    -- pass the guards; and then the token is minted from the random bytes and stored for the caller
    -- under its public id with the hash of its secret, the trimmed description, the scopes in their
    -- stored form, and the end of its days.
    pub create_ok :
        (now : Time) (raw : Result String (List ℕ × List ℕ)) (actor : Actor) (description : Text)
        (expires_in_days : Option ℤ) (scopes : List Scope) (full_reach : Bool) (s s' : σ)
        (c : CreatedToken)
        → create u hash add_days store now raw actor description expires_in_days scopes full_reach s
          ≡ (ok c, s')
        → Creates now raw actor description expires_in_days scopes full_reach s c s'
    unfolding create
    create_ok now raw actor description expires_in_days scopes full_reach s s' c h =
        elim (Result-cases (manages actor)) [
          | inl (e, m) ↦ ground (arith, h, m)
          | inr (owner, m) ↦
              elim (Result-cases
                (check_wanted u hash add_days description expires_in_days scopes full_reach)) [
                  | inl (e, w) ↦ ground (arith, h, m, w)
                  | inr (wanted, w) ↦
                      let (browser, same) = (manages_iff actor owner).0 m in
                      let (id_raw, secret_raw, generated, plaintext, stored) =
                        create_wanted_ok now raw actor.id full_reach wanted s s' c
                          (ground (arith, h, m, w, same)) in
                      record {
                        in_browser = browser;
                        wanted = wanted;
                        grants =
                            check_wanted_ok u hash add_days description expires_in_days scopes
                              full_reach wanted w;
                        id_raw = id_raw;
                        secret_raw = secret_raw;
                        generated = generated;
                        plaintext = plaintext;
                        stored = stored;
                      }
                ]
        ]
