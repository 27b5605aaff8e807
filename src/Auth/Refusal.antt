-- ===== src/Auth/Refusal.antt =====
-- internal/auth/auth.go and refusal.go: why authentication declines, what the caller is answered,
-- and what is recorded.
pub mod Answers
use tallox_go.Prelude.{ℕ, String, Text, List, [], ◌∷◌, Option, none, some}
use tallox_go.Prelude.Results.{Result, err, ok}
use tallox_go.Principal.{Actor, Kind, anonymous}

-- The sentinel errors.
pub data AuthError : Type 0 where
  no_credential unknown_user inactive_user ambiguous_identity malformed_token : AuthError
  invalid_token expired_token revoked_token unavailable : AuthError

abbrev pub status_unauthorized : ℕ
status_unauthorized = 401

abbrev pub status_service_unavailable : ℕ
status_service_unavailable = 503

unfoldable pub refusal : AuthError → ℕ × String
refusal unavailable =
    (status_service_unavailable, "Anmeldung derzeit nicht möglich. Bitte später erneut versuchen.")
refusal unknown_user = (status_unauthorized, "Für diese Kennung gibt es in Tallox kein Konto.")
refusal inactive_user = (status_unauthorized, "Dieses Konto ist deaktiviert.")
refusal ambiguous_identity =
    (status_unauthorized, "Die Anmeldung ist nicht eindeutig. Bitte neu anmelden.")
refusal expired_token = (status_unauthorized, "Das Token ist abgelaufen. Bitte ein neues anlegen.")
refusal revoked_token = (status_unauthorized, "Das Token wurde widerrufen.")
refusal malformed_token =
    (status_unauthorized, "Das Token hat nicht das erwartete Format (tallox_…).")
refusal _ = (status_unauthorized, "Token ungültig.")

unfoldable pub refusal_code : AuthError → String
refusal_code unavailable = "UNAVAILABLE"
refusal_code unknown_user = "UNKNOWN_USER"
refusal_code inactive_user = "INACTIVE_USER"
refusal_code expired_token = "EXPIRED_TOKEN"
refusal_code revoked_token = "REVOKED_TOKEN"
refusal_code malformed_token = "MALFORMED_TOKEN"
refusal_code _ = "INVALID_TOKEN"

-- The levels of the log, in their order.
pub data Level : Type 0 where
  debug_level info_level warn_level error_level : Level

unfoldable pub severity : AuthError → Level
severity unavailable = error_level
severity ambiguous_identity = warn_level
severity unknown_user = info_level
severity inactive_user = info_level
severity expired_token = info_level
severity revoked_token = info_level
severity _ = debug_level

-- What a request claimed to be; an empty text where it claimed nothing.
pub record Asserted : Type 0 where
  pub mail : Text
  pub token_id : Text

-- One sign-in that did not happen, without the address it came from.
pub record Refusal : Type 0 where
  pub mail : Text
  pub token_id : Text
  pub door : Kind
  pub code : String

-- What happens to a request: the next handler serves it to an actor, or it is answered with a
-- status and a message.
pub data Answer : Type 0 where
  served : Actor → Answer
  declined : ℕ → String → Answer

unfoldable pub record_refusal : Kind → Asserted → AuthError → Refusal
record_refusal door asserted cause = record {
  mail = asserted.mail;
  token_id = asserted.token_id;
  door = door;
  code = refusal_code cause;
}

-- `Middleware`, from what `Authenticate`, `Asserted` and `Kind` return for the request: the answer,
-- and the entries given to a recorder that is not nil.
unfoldable pub middleware : Kind → Asserted → Result AuthError Actor → Answer × List Refusal
unfolding refusal record_refusal
middleware door asserted (err no_credential) = (served anonymous, [])
middleware door asserted (err e) =
    let (status, message) = refusal e in
    (declined status message, record_refusal door asserted e ∷ [])
middleware door asserted (ok actor) = (served actor, [])
