-- ===== src/Auth/BrowserDoor/Narrowed.antt =====
-- Whom the browser door lets in, and what the header that selects roles can do.
use tallox_go.Prelude.{
  String, Unicode, Option, none, some, true, false, ◌≡◌, ◌↔◌, inl, inr, refl, sym, ap, ◌∙◌, arith,
  Bool-cases, is_empty, length, ltb, ◌≤◌, ◌&&◌, ◌||◌, contains, ◌==◌, string_comparable,
}
use tallox_go.Prelude.Results.{Result-cases, ok}
use tallox_go.Principal.{Actor, Uuid}
use tallox_go.Policy.Role.{Role, role_comparable, roles_of, has}
use tallox_go.Policy.Narrow.{parse_roles}
use tallox_go.Policy.Narrow.Roles.{has-narrow}
use tallox_go.Auth.TokenDoor.{Person}
use tallox_go.Auth.BrowserDoor.{
  is_dev, UserLookup, ProxyAuthenticator, Headers, get, trim, selected_roles, narrow_if_requested,
  person_actor, development_actor, find_person, authenticate,
}

-- The person that the lookup knows under a mail, whose account is active.
pub record Knows (users : Option UserLookup) (mail : String) (person : Person) : Type 0 where
  pub by_mail : UserLookup
  pub configured : users ≡ some by_mail
  pub known : by_mail mail ≡ ok (some person)
  pub active : person.active ≡ true

module _ (u : Unicode) (uuid_of : String → Uuid) where
  -- Whose actor it is, before a selection of roles.
  pub data Identity (a : ProxyAuthenticator) (r : Headers) : Actor → Type 0 where
    asserted_person :
        (person : Person)
        → (trim u (get r.remote_user) == "") ≡ false
        → Knows a.users (trim u (get r.remote_user)) person
        → Identity a r (person_actor person)
    developer :
        (trim u (get r.remote_user) == "") ≡ true
        → is_dev a.mode ≡ true
        → Identity a r (development_actor u uuid_of a)

  find_person_ok :
      (users : Option UserLookup) (mail : String) (person : Person)
      → find_person u uuid_of users mail ≡ ok person
      → Knows users mail person
  unfolding find_person
  find_person_ok none mail person h = ground (arith, h)
  find_person_ok (some by_mail) mail person h = elim (Result-cases (by_mail mail)) [
    | inl (message, e) ↦ ground (arith, h, e)
    | inr (none, e) ↦ ground (arith, h, e)
    | inr (some p, e) ↦ elim (Bool-cases p.active) [
      | inl in_use ↦
          let same : p ≡ person = ground (arith, h, e, in_use) in
          record {
            by_mail = by_mail;
            configured = refl;
            known = e ∙ ap (λ q. ok (some q)) same;
            active = ap (λ q. q.active) (sym same) ∙ in_use;
          }
      | inr left ↦ ground (arith, h, e, left)
    ]
  ]

  find_person-Knows :
      (users : Option UserLookup) (mail : String) (person : Person)
      → Knows users mail person
      → find_person u uuid_of users mail ≡ ok person
  unfolding find_person
  find_person-Knows users mail person k =
      ground (
        arith,
        k.configured,
        k.known,
        k.active,
        ap (λ x. find_person u uuid_of x mail) k.configured,
      )

  sound :
      (a : ProxyAuthenticator) (r : Headers) (actor : Actor)
      → authenticate u uuid_of a r ≡ ok actor
      → (length r.remote_user ≤ 1)
        × (whole : Actor) × Identity a r whole
        × (actor ≡ narrow_if_requested u whole r)
  unfolding authenticate
  sound a r actor h = elim (Bool-cases (ltb 1 (length r.remote_user))) [
    | inl many ↦ ground (arith, h, many)
    | inr one ↦ elim (Bool-cases (trim u (get r.remote_user) == "")) [
      | inl empty ↦ elim (Bool-cases (is_dev a.mode)) [
        | inl in_dev ↦
            (ground (arith, one), _, developer empty in_dev, ground (arith, h, one, empty, in_dev))
        | inr not_dev ↦ ground (arith, h, one, empty, not_dev)
      ]
      | inr mail ↦
          elim (Result-cases (find_person u uuid_of a.users (trim u (get r.remote_user)))) [
            | inl (e, f) ↦ ground (arith, h, one, mail, f)
            | inr (person, f) ↦ (
              ground (arith, one),
              _,
              asserted_person person mail (find_person_ok a.users _ person f),
              ground (arith, h, one, mail, f),
            )
          ]
    ]
  ]

  complete :
      (a : ProxyAuthenticator) (r : Headers) (whole : Actor)
      → length r.remote_user ≤ 1
      → Identity a r whole
      → authenticate u uuid_of a r ≡ ok (narrow_if_requested u whole r)
  unfolding authenticate
  complete a r _ one (asserted_person person mail k) =
      ground (arith, one, mail, find_person-Knows a.users _ person k)
  complete a r _ one (developer empty in_dev) = ground (arith, one, empty, in_dev)

  -- The browser door lets somebody in exactly if at most one mail is asserted, and it is that of a
  -- person whom the lookup knows and whose account is active, or none is asserted in the
  -- development mode; the actor is that person's, or the development user, narrowed as the other
  -- header requests.
  pub browser-authenticate_iff :
      (a : ProxyAuthenticator) (r : Headers) (actor : Actor)
      → (authenticate u uuid_of a r ≡ ok actor) ↔ (
          (length r.remote_user ≤ 1)
          × (whole : Actor) × Identity a r whole
          × (actor ≡ narrow_if_requested u whole r))
  browser-authenticate_iff a r actor =
      (sound a r actor, λ h. complete a r h.1 h.0 h.2 ∙ ap ok (sym h.3))

  -- The roles that a caller is judged by are those that they hold and, if the header is there, that
  -- one of its values lists.
  pub has-narrow_if_requested :
      (whole : Actor) (r : Headers) (role : Role)
      → has (roles_of (narrow_if_requested u whole r)) role ≡ (
          has (roles_of whole) role
          && (is_empty r.assume_roles
              || contains (parse_roles (selected_roles u r.assume_roles)) role))
  unfolding narrow_if_requested
  has-narrow_if_requested whole r role = elim (Bool-cases (is_empty r.assume_roles)) [
    | inl absent ↦ ground (arith, absent)
    | inr present ↦
        ground
          (arith, present, has-narrow whole (parse_roles (selected_roles u r.assume_roles)) role)
  ]
