-- ===== src/Auth/Token.antt =====
-- internal/auth/token.go: the form of a token, its reading and its minting. A text is a list of
-- bytes here.
pub mod RoundTrip
use tallox_go.Prelude.{
  ℕ, Text, codes, cut, cut_prefix, trim_left_set, List, [], ◌∷◌, ◌++◌, Option, none, some, Bool,
  ◌&&◌, ◌||◌, not, if◌then◌else◌, nat_eq, length, is_empty,
}
use tallox_go.Auth.Encoding.{crockford_alphabet, encode32, encode64}

abbrev pub token_prefix : Text
token_prefix = codes "tallox_"

abbrev pub token_id_length : ℕ
token_id_length = 16

abbrev pub secret_length : ℕ
secret_length = 43

abbrev pub secret_bytes : ℕ
secret_bytes = 32

abbrev pub id_bytes : ℕ
id_bytes = 10

abbrev pub underscore : ℕ
underscore = b'_'

pub record ParsedToken : Type 0 where
  pub id : Text
  pub secret : Text

-- `none` is `ErrMalformedToken`, whose message no other part of the program reads.
unfoldable pub parse_token : Text → Option ParsedToken
parse_token presented = elim (cut_prefix token_prefix presented) [
  | none ↦ none
  | some rest ↦ elim (cut underscore rest) [
    | none ↦ none
    | some (id, secret) ↦
        if not (nat_eq (length id) token_id_length) || not (nat_eq (length secret) secret_length)
        then none
        else if not (is_empty (trim_left_set crockford_alphabet id))
        then none
        else some (record { id = id; secret = secret })
  ]
]

pub record MintedToken : Type 0 where
  pub plaintext : Text
  pub id : Text
  pub secret_hash : List ℕ

-- What `rand.Read` fills the two buffers with is an argument; `hash` is SHA-256.
module _ (hash : Text → List ℕ) where
  unfoldable pub hash_secret : Text → List ℕ
  hash_secret secret = hash secret

  unfoldable pub mint : List ℕ → List ℕ → MintedToken
  unfolding hash_secret
  mint id_raw secret_raw =
      let id = encode32 id_raw in
      let secret = encode64 secret_raw in
      record {
        plaintext = token_prefix ++ id ++ underscore ∷ secret;
        id = id;
        secret_hash = hash_secret secret;
      }
