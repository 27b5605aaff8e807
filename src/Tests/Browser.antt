-- ===== src/Tests/Browser.antt =====
-- The browser door at concrete headers.
use tallox_go.Prelude.{String, ascii, [], ◌∷◌, some, true, ◌≡◌, ◌↔◌, refl, ◌≤◌, length}
use tallox_go.Prelude.Results.{err, ok}
use tallox_go.Principal.{Actor, Uuid}
use tallox_go.Policy.Role.{role_comparable}
use tallox_go.Auth.TokenDoor.{Person}
use tallox_go.Auth.Refusal.{ambiguous_identity}
use tallox_go.Auth.BrowserDoor.{
  proxy, UserLookup, ProxyAuthenticator, Headers, split, trim_start, trim_end, trim, keep_parts,
  selected_roles, narrow_if_requested, person_actor, find_person, authenticate,
}
use tallox_go.Auth.BrowserDoor.Narrowed.{Identity, browser-authenticate_iff}

abbrev lea : Person
lea = record {
  id = 9;
  mail = "lea@hm.edu";
  name = "Lea";
  active = true;
  roles = "LECTURER" ∷ "DEANS_OFFICE" ∷ [];
  role_scopes = [];
}

abbrev only_lea : UserLookup
only_lea mail = ok (some lea)

abbrev behind_proxy : ProxyAuthenticator
behind_proxy = record { users = some only_lea; mode = proxy; dev_user = "dev@example.org" }

abbrev no_uuid : String → Uuid
no_uuid mail = 0

abbrev as_lecturer : Headers
as_lecturer = record { remote_user = " lea@hm.edu" ∷ []; assume_roles = "ADMIN, LECTURER ,," ∷ [] }

abbrev twice : Headers
twice = record { remote_user = "a@hm.edu" ∷ "b@hm.edu" ∷ []; assume_roles = [] }

selected_by_hand : selected_roles ascii as_lecturer.assume_roles ≡ "ADMIN" ∷ "LECTURER" ∷ []
unfolding selected_roles keep_parts split trim trim_start trim_end
selected_by_hand = refl

twice_by_hand : authenticate ascii no_uuid behind_proxy twice ≡ err ambiguous_identity
unfolding authenticate
twice_by_hand = refl

browser-authenticate_iff_example :
    (authenticate ascii no_uuid behind_proxy as_lecturer
      ≡ ok (narrow_if_requested ascii (person_actor lea) as_lecturer))
    ↔ ((length as_lecturer.remote_user ≤ 1)
        × (whole : Actor) × Identity ascii no_uuid behind_proxy as_lecturer whole
        × (narrow_if_requested ascii (person_actor lea) as_lecturer
            ≡ narrow_if_requested ascii whole as_lecturer))
browser-authenticate_iff_example =
    browser-authenticate_iff ascii no_uuid behind_proxy as_lecturer
      (narrow_if_requested ascii (person_actor lea) as_lecturer)

let_in_by_hand :
    authenticate ascii no_uuid behind_proxy as_lecturer
    ≡ ok (narrow_if_requested ascii (person_actor lea) as_lecturer)
unfolding authenticate find_person trim trim_start trim_end
let_in_by_hand = refl
