-- ===== src/Auth/TokenDoor.antt =====
-- internal/auth/tokenauth.go: the door for personal access tokens. A text is a list of bytes here,
-- a time a number of nanoseconds after Go's zero time.
pub mod Acceptance
pub mod Marks
pub mod Service
pub mod Declined
use tallox_go.Prelude.{
  ℕ, zero, suc, ◌+◌, nat_comparable, String, Text, codes, List, [], ◌∷◌, Option, none, some, Bool,
  true, false, not, ◌&&◌, ◌||◌, if◌then◌else◌, ◌==◌, ltb, leb, length, is_empty, text_comparable,
  map,
}
use tallox_go.Prelude.Results.{Result, err, ok}
use tallox_go.Principal.{Actor, RoleScope, Uuid, token}
use tallox_go.Auth.Token.{ParsedToken, parse_token, hash_secret}
use tallox_go.Auth.Refusal.{
  AuthError, no_credential, malformed_token, unavailable, invalid_token, revoked_token,
  expired_token, inactive_user, Asserted,
}

abbrev pub Time : Type 0
Time = ℕ

abbrev pub zero_time : Time
zero_time = 0

pub record Person : Type 0 where
  pub id : Uuid
  pub mail : String
  pub name : String
  pub active : Bool
  pub roles : List String
  pub role_scopes : List RoleScope

pub record Token : Type 0 where
  pub id : Text
  pub secret_hash : Text
  pub scopes : List Text
  pub full_reach : Bool
  pub expires_at : Time
  pub revoked_at : Time
  pub owner : Person

-- `TokenByID`: an error's message, or the token if there is one.
abbrev pub TokenLookup : Type 0
TokenLookup = Text → Result String (Option Token)

abbrev pub bearer_prefix : Text
bearer_prefix = codes "bearer "

-- Five minutes.
abbrev pub mark_used_every : Time
mark_used_every = 300000000000

-- A small letter for a capital of ASCII.
abbrev pub fold_case : ℕ → ℕ
fold_case c = if leb 65 c && leb c 90 then c + 32 else c

-- `strings.EqualFold` against a text of small letters without a `k` or an `s`, which only their own
-- capitals fold to.
abbrev pub equal_fold : Text → Text → Bool
equal_fold s t = map fold_case s == t

-- `header[:n]` and `header[n:]`, for an `n` not above the length.
abbrev pub first : ℕ → Text → Text
first zero t = []
first (suc n) [] = []
first (suc n) (c ∷ t) = c ∷ first n t

abbrev pub after_first : ℕ → Text → Text
after_first zero t = t
after_first (suc n) [] = []
after_first (suc n) (c ∷ t) = after_first n t

-- Whether the header lacks the scheme.
unfoldable pub not_bearer : Text → Bool
not_bearer header =
    ltb (length header) (length bearer_prefix)
    || not (equal_fold (first (length bearer_prefix) header) bearer_prefix)

unfoldable pub actor_of : Token → Actor
actor_of stored = record {
  id = stored.owner.id;
  mail = stored.owner.mail;
  name = stored.owner.name;
  roles = stored.owner.roles;
  narrowed_from = none;
  role_scopes = stored.owner.role_scopes;
  scopes = stored.scopes;
  kind = token;
  full_reach = stored.full_reach;
  token_id = stored.id;
}

-- When a use of each token was recorded last, and the writes that were started, the newest first,
-- each with its time.
pub record Uses : Type 0 where
  pub marked : Text → Option Time
  pub writes : List (Text × Time)

abbrev pub no_uses : Uses
no_uses = record { marked = λ id. none; writes = [] }

-- `now.Sub(last) < markUsedEvery`; `Sub` is negative for a `last` in the future.
abbrev pub recently : Time → Time → Bool
recently now last = ltb now (last + mark_used_every)

unfoldable pub start_write : Time → Text → Uses → Uses
start_write now id uses = record {
  marked = λ id'. if id == id' then some now else uses.marked id';
  writes = (id, now) ∷ uses.writes;
}

unfoldable pub mark_used : Time → Text → Uses → Uses
unfolding start_write
mark_used now id uses = elim (uses.marked id) [
  | none ↦ start_write now id uses
  | some last ↦ if recently now last then uses else start_write now id uses
]

-- `trim` is `strings.TrimSpace` on bytes, `hash` is SHA-256, `tokens` is `none` where no lookup is
-- configured.
module _ (trim : Text → Text) (hash : Text → Text) where
  unfoldable pub asserted : Text → Asserted
  unfolding not_bearer
  asserted authorization =
      let header = trim authorization in
      if not_bearer header
      then record { mail = []; token_id = [] }
      else elim (parse_token (trim (after_first (length bearer_prefix) header))) [
        | none ↦ record { mail = []; token_id = [] }
        | some parsed ↦ record { mail = []; token_id = parsed.id }
      ]

  -- The checks on a stored token, from the comparison of the secrets on.
  unfoldable pub check_token : Time → ParsedToken → Option Token → Result AuthError Token
  unfolding hash_secret
  check_token now parsed none = err invalid_token
  check_token now parsed (some stored) =
      if not (stored.secret_hash == hash_secret hash parsed.secret)
      then err invalid_token
      else if not (stored.revoked_at == zero_time)
      then err revoked_token
      else if not (ltb now stored.expires_at)
      then err expired_token
      else if not stored.owner.active
      then err inactive_user
      else ok stored

  -- The lookup and the checks on what it returns.
  unfoldable pub look_up : Option TokenLookup → Time → ParsedToken → Result AuthError Token
  unfolding check_token
  look_up none now parsed = err unavailable
  look_up (some by_id) now parsed = elim (by_id parsed.id) [
    | err message ↦ err unavailable
    | ok stored ↦ check_token now parsed stored
  ]

  -- `now` is the clock when the expiry is checked, `mark_now` when the use is recorded.
  unfoldable pub authenticate :
      Option TokenLookup → Time → Time → Text → Uses → Result AuthError Actor × Uses
  unfolding not_bearer look_up mark_used actor_of
  authenticate tokens now mark_now authorization uses =
      let header = trim authorization in
      if is_empty header
      then (err no_credential, uses)
      else if not_bearer header
      then (err malformed_token, uses)
      else elim (parse_token (trim (after_first (length bearer_prefix) header))) [
        | none ↦ (err malformed_token, uses)
        | some parsed ↦ elim (look_up tokens now parsed) [
          | err e ↦ (err e, uses)
          | ok stored ↦ (ok (actor_of stored), mark_used mark_now parsed.id uses)
        ]
      ]
