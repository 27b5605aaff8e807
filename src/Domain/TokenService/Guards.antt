-- ===== src/Domain/TokenService/Guards.antt =====
-- What the guards of `Create` let through.
use tallox_go.Prelude.{
  ℤ, ◌≤◌, Text, List, Option, Unicode, trim_space, length, is_empty, Bool, true, false, ◌&&◌, ◌||◌,
  ltb, ◌≡◌, ◌↔◌, inl, inr, ap, arith, Bool-cases,
}
use tallox_go.Prelude.Results.{Result-cases, ok}
use tallox_go.Principal.{Actor, authenticated, is_interactive_actor}
use tallox_go.Policy.Onlooker.{may_read_interactive_only}
use tallox_go.Policy.Scope.{Scope}
use tallox_go.Auth.TokenDoor.{Time}
use tallox_go.Domain.TokenService.{
  scope_comparable, stored_scopes, manages, Wanted, days_of, below, above, max_description_length,
  min_token_days, max_token_days, max_full_reach_token_days, check_wanted,
}

pub manages_iff :
    (actor owner : Actor)
    → (manages actor ≡ ok owner) ↔ ((may_read_interactive_only actor ≡ true) × (owner ≡ actor))
unfolding manages may_read_interactive_only
manages_iff actor owner = elim (Bool-cases (authenticated actor)) [
  | inl a ↦ elim (Bool-cases (is_interactive_actor actor)) [
    | inl i ↦ (λ h. ground (arith, h, a, i), λ h. ground (arith, h.1, a, i))
    | inr i ↦ (λ h. ground (arith, h, a, i), λ h. ground (arith, h.0, a, i))
  ]
  | inr a ↦ (λ h. ground (arith, h, a), λ h. ground (arith, h.0, a))
]

-- What the guards ask of a request, and what is then stored of it.
pub record Grants (u : Unicode) (description : Text) (expires_in_days : Option ℤ)
    (scopes : List Scope) (full_reach : Bool) (wanted : Wanted) : Type 0 where
  pub trimmed : wanted.description ≡ trim_space u description
  pub named : is_empty (trim_space u description) ≡ false
  pub short : length (trim_space u description) ≤ max_description_length
  pub days : wanted.days ≡ days_of expires_in_days
  pub long_enough : below (days_of expires_in_days) min_token_days ≡ false
  pub short_enough : above (days_of expires_in_days) max_token_days ≡ false
  pub full_reach_short :
      (full_reach && above (days_of expires_in_days) max_full_reach_token_days) ≡ false
  pub stored : stored_scopes scopes ≡ ok wanted.scopes

-- What is known once every test has been passed.
granted :
    (u : Unicode) (description : Text) (expires_in_days : Option ℤ) (scopes : List Scope)
    (full_reach : Bool) (wanted : Wanted) (stored : List Text)
    → is_empty (trim_space u description) ≡ false
    → ltb max_description_length (length (trim_space u description)) ≡ false
    → (below (days_of expires_in_days) min_token_days
        || above (days_of expires_in_days) max_token_days)
      ≡ false
    → (full_reach && above (days_of expires_in_days) max_full_reach_token_days) ≡ false
    → wanted ≡ record {
      description = trim_space u description;
      days = days_of expires_in_days;
      scopes = stored;
    }
    → stored_scopes scopes ≡ ok stored
    → Grants u description expires_in_days scopes full_reach wanted
granted u description expires_in_days scopes full_reach wanted stored e l r f w o = record {
  trimmed = ap (λ w'. w'.description) w;
  named = e;
  short = ground (arith, l);
  days = ap (λ w'. w'.days) w;
  long_enough = ground (arith, r);
  short_enough = ground (arith, r);
  full_reach_short = f;
  stored = ground (arith, o, ap (λ w'. w'.scopes) w);
}

module _ (u : Unicode) (hash : Text → Text) (add_days : Time → ℤ → Time) where
  pub check_wanted_ok :
      (description : Text) (expires_in_days : Option ℤ) (scopes : List Scope) (full_reach : Bool)
      (wanted : Wanted)
      → check_wanted u hash add_days description expires_in_days scopes full_reach ≡ ok wanted
      → Grants u description expires_in_days scopes full_reach wanted
  unfolding check_wanted
  check_wanted_ok description expires_in_days scopes full_reach wanted h =
      let trimmed = trim_space u description in
      let days = days_of expires_in_days in
      elim (Bool-cases (is_empty trimmed)) [
        | inl e ↦ ground (arith, h, e)
        | inr e ↦ elim (Bool-cases (ltb max_description_length (length trimmed))) [
          | inl l ↦ ground (arith, h, e, l)
          | inr l ↦ elim (Bool-cases (below days min_token_days || above days max_token_days)) [
            | inl r ↦ ground (arith, h, e, l, r)
            | inr r ↦ elim (Bool-cases (full_reach && above days max_full_reach_token_days)) [
              | inl f ↦ ground (arith, h, e, l, r, f)
              | inr f ↦ elim (Result-cases (stored_scopes scopes)) [
                | inl (cause, o) ↦ ground (arith, h, e, l, r, f, o)
                | inr (stored, o) ↦
                    granted u description expires_in_days scopes full_reach wanted stored e l r f
                      (ground (arith, h, e, l, r, f, o)) o
              ]
            ]
          ]
        ]
      ]
