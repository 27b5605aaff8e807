-- ===== src/Domain/TokenService/Scopes.antt =====
-- Which lists of scopes are stored.
use tallox_go.Prelude.{
  Text, List, [], ◌∷◌, map, false, ◌≡◌, ◌↔◌, refl, inl, inr, arith, Bool-cases, contains,
}
use tallox_go.Prelude.Results.{Result-cases, ok}
use tallox_go.Policy.Scope.{Scope, valid, scope_string}
use tallox_go.Policy.Scope.Allow.{AllValid}
use tallox_go.Domain.TokenService.{scope_comparable, store_scopes, stored_scopes}

-- No scope stands in a list twice, or in another one as well.
abbrev pub New : List Scope → List Scope → Type 0
New seen [] = Unit {0}
New seen (s ∷ ss) = (contains seen s ≡ false) × New (s ∷ seen) ss

store_scopes_ok :
    (seen ss : List Scope) (out : List Text)
    → store_scopes seen ss ≡ ok out
    → AllValid ss × New seen ss × (out ≡ map scope_string ss)
unfolding store_scopes
store_scopes_ok seen [] out h = (tt, tt, ground (arith, h))
store_scopes_ok seen (s ∷ ss) out h = elim (Bool-cases (valid s)) [
  | inr unknown ↦ ground (arith, h, unknown)
  | inl known ↦ elim (Bool-cases (contains seen s)) [
    | inl again ↦ ground (arith, h, known, again)
    | inr once ↦ elim (Result-cases (store_scopes (s ∷ seen) ss)) [
      | inl (e, r) ↦ ground (arith, h, known, once, r)
      | inr (rest, r) ↦
          let (valid_rest, new_rest, same) = store_scopes_ok (s ∷ seen) ss rest r in
          ((known, valid_rest), (once, new_rest), ground (arith, h, known, once, r, same))
    ]
  ]
]

store_scopes-stored :
    (seen ss : List Scope)
    → AllValid ss
    → New seen ss
    → store_scopes seen ss ≡ ok (map scope_string ss)
unfolding store_scopes
store_scopes-stored seen [] v n = refl
store_scopes-stored seen (s ∷ ss) (v, vs) (n, ns) =
    ground (arith, v, n, store_scopes-stored (s ∷ seen) ss vs ns)

-- A list of scopes is stored exactly when they are known and none is listed twice, and then each
-- in its stored form, in the order of the list.
pub stored_scopes_iff :
    (ss : List Scope) (out : List Text)
    → (stored_scopes ss ≡ ok out) ↔ (AllValid ss × New [] ss × (out ≡ map scope_string ss))
unfolding stored_scopes
stored_scopes_iff ss out =
    (store_scopes_ok [] ss out, λ h. ground (arith, store_scopes-stored [] ss h.0 h.1, h.2))
