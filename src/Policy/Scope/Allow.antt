-- ===== src/Policy/Scope/Allow.antt =====
-- What a list of scopes permits.
use tallox_go.Prelude.{
  Text, Unicode, List, [], ◌∷◌, map, Bool, true, ◌||◌, ◌≡◌, refl, arith, any, ◌==◌, is_empty,
}
use tallox_go.Principal.{Actor, token}
use tallox_go.Policy.Scope.{
  Scope, ScopeArea, public, read, write, valid, scope_string, grants, grants_text, scopes_allow,
  area_comparable, verb_comparable,
}
use tallox_go.Policy.Scope.RoundTrip.{parse_scope-scope_string}

any_mono :
    (p q : Text → Bool)
    → ((t : Text) → p t ≡ true → q t ≡ true)
    → (ts : List Text) → any p ts ≡ true
    → any q ts ≡ true
any_mono p q h [] e = e
any_mono p q h (t ∷ ts) e = ground (arith, h t, any_mono p q h ts)

-- WRITE implies READ in the same area, whatever the list of scopes holds.
pub scopes_allow-read_of_write :
    (u : Unicode) (a : Actor) (area : ScopeArea)
    → scopes_allow u a (record { area = area; verb = write }) ≡ true
    → scopes_allow u a (record { area = area; verb = read }) ≡ true
unfolding scopes_allow grants
scopes_allow-read_of_write u a area h = ground (
  arith,
  h,
  any_mono (grants_text u (record { area = area; verb = write }))
      (grants_text u (record { area = area; verb = read })) (λ t e. ground (arith, e)) a.scopes,
)

-- The scopes of a list, as they are stored.
abbrev pub AllValid : List Scope → Type 0
AllValid [] = Unit {0}
AllValid (s ∷ ss) = (valid s ≡ true) × AllValid ss

any-stored :
    (u : Unicode) (want : Scope) (ss : List Scope)
    → AllValid ss
    → any (grants_text u want) (map scope_string ss) ≡ any (λ s. grants s want) ss
unfolding grants_text
any-stored u want [] h = refl
any-stored u want (s ∷ ss) (ok, rest) =
    ground (arith, parse_scope-scope_string u s ok, any-stored u want ss rest)

-- A token that holds a list of known scopes, as they are stored, may do what one of them grants
-- and what is public, and nothing else; with an empty list it may do everything.
pub scopes_allow-stored :
    (u : Unicode) (a : Actor) (want : Scope) (ss : List Scope)
    → a.kind ≡ token
    → a.scopes ≡ map scope_string ss
    → AllValid ss
    → scopes_allow u a want ≡ (is_empty ss || (want.area == public || any (λ s. grants s want) ss))
unfolding scopes_allow
scopes_allow-stored u a want ss k e h = ground (arith, e, k, any-stored u want ss h)
