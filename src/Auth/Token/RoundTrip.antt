-- ===== src/Auth/Token/RoundTrip.antt =====
-- Reading a token, and minting it.
use tallox_go.Prelude.{
  cut_sound, cut-append, cut_prefix-append, cut_prefix_sound, not-contains_of_trim, ap, ◌∙◌,
  nat_comparable, arith, ℕ, Text, cut, cut_prefix, trim_left_set, List, [], ◌∷◌, ◌++◌, some, ◌≡◌,
  refl, length, Option-cases, inl, inr,
}
use tallox_go.Auth.Encoding.{crockford_alphabet, encode32, encode64}
use tallox_go.Auth.Encoding.Laws.{
  AllBelow, length-encode32, length-encode64, trim_left_set-encode32,
}
use tallox_go.Auth.Token.{
  ParsedToken, parse_token, mint, token_prefix, token_id_length, secret_length, underscore,
  id_bytes, secret_bytes,
}

-- The documented form: the prefix, an id of sixteen symbols of Crockford's alphabet, an underscore,
-- a secret of 43 bytes.
pub record HasForm (t : Text) (p : ParsedToken) : Type 0 where
  pub shape : t ≡ token_prefix ++ (p.id ++ underscore ∷ p.secret)
  pub id_fits : length p.id ≡ token_id_length
  pub secret_fits : length p.secret ≡ secret_length
  pub id_symbols : trim_left_set crockford_alphabet p.id ≡ []

-- A text is read as a token exactly when it has the documented form, and then as its parts.
pub parse_token_iff :
    (t : Text) (p : ParsedToken)
    → ((parse_token t ≡ some p) → HasForm t p) × (HasForm t p → parse_token t ≡ some p)
unfolding parse_token
parse_token_iff t p = (sound, complete)
  where
    sound : parse_token t ≡ some p → HasForm t p
    sound h = elim (Option-cases (cut_prefix token_prefix t)) [
      | inl e ↦ ground (arith, h, e)
      | inr (rest, e) ↦ elim (Option-cases (cut underscore rest)) [
        | inl e' ↦ ground (arith, h, e, e')
        | inr ((id, secret), e') ↦ ground (
          arith,
          h,
          e,
          e',
          cut_prefix_sound token_prefix t rest e,
          cut_sound underscore rest id secret e',
        )
      ]
    ]

    complete : HasForm t p → parse_token t ≡ some p
    complete h = ground (
      arith,
      h.id_fits,
      h.secret_fits,
      h.id_symbols,
      ap (cut_prefix token_prefix) h.shape
          ∙ cut_prefix-append token_prefix (p.id ++ underscore ∷ p.secret),
      cut-append underscore p.id p.secret
          (not-contains_of_trim crockford_alphabet underscore p.id refl h.id_symbols),
    )

-- Whatever bytes the generator yields, the minted plaintext is read back as the id that is stored
-- and the secret that was hashed.
pub parse_token-mint :
    (hash : Text → List ℕ) (id_raw secret_raw : List ℕ)
    → AllBelow 256 id_raw
    → length id_raw ≡ id_bytes
    → length secret_raw ≡ secret_bytes
    → (p : ParsedToken) × (parse_token (mint hash id_raw secret_raw).plaintext ≡ some p)
      × (p.id ≡ (mint hash id_raw secret_raw).id)
      × (hash p.secret ≡ (mint hash id_raw secret_raw).secret_hash)
unfolding mint
parse_token-mint hash id_raw secret_raw below ten many = (
  record { id = encode32 id_raw; secret = encode64 secret_raw },
  (parse_token_iff _ _).1 (record {
    shape = refl;
    id_fits = omega (arith, length-encode32 id_raw, ten);
    secret_fits = omega (arith, length-encode64 secret_raw, many);
    id_symbols = trim_left_set-encode32 id_raw below;
  }),
  refl,
  refl,
)
