-- ===== src/Store/Tokens/Invariant.antt =====
-- internal/store/tokens.go: the statements keep the ids of the tokens unique and their revocations dated.
use mathlib.Core.Path.{subst}
use tallox_go.Prelude.{
  List, [], ◌∷◌, none, some, Bool, false, any, ◌&&◌, text_comparable, text_eq_law, ◌≡◌, ◌≢◌, inl,
  inr, refl, sym, ap, ◌∙◌, arith, Option-cases,
}
use tallox_go.Auth.TokenDoor.{Time, zero_time}
use tallox_go.Store.Rows.{
  Every, set_rows, IsIn, at_head, later, set_rows_sound, changed, changed_property, any_some,
}
use tallox_go.Store.Tokens.{
  TokenRow, TokenDatabase, Timestamps, next_outcome, begun, has_id, create_token, is_theirs,
  withdrawn_row, revoke_token_of_owner, mark_token_used, is_stale, used_row, inserted_row,
  insert_token,
}
use tallox_go.Store.Tokens.Found.{insert_token_left}
use tallox_go.Store.Tokens.Revoked.{
  TokensWellFormed, TokenStatement, creates, revokes, marks, execute, execute_all, execute-failing,
  revoke_tokens,
}

abbrev NotZero : TokenRow → Type 0
NotZero r = r.revoked_at ≢ some zero_time

same_tokens-TokensWellFormed :
    (s s' : TokenDatabase) → s'.tokens ≡ s.tokens → TokensWellFormed s → TokensWellFormed s'
same_tokens-TokensWellFormed s s' left w = record {
  unique = λ r r' i j. w.unique r r' (subst (IsIn r) left i) (subst (IsIn r') left j);
  dated = λ r i. w.dated r (subst (IsIn r) left i);
}

set_rows-TokensWellFormed :
    (p : TokenRow → Bool) (f : TokenRow → TokenRow) (s s' : TokenDatabase)
    → ((r : TokenRow) → (f r).token_id ≡ r.token_id)
    → ((r : TokenRow) → NotZero r → NotZero (f r))
    → s'.tokens ≡ set_rows p f s.tokens
    → TokensWellFormed s
    → TokensWellFormed s'
set_rows-TokensWellFormed p f s s' same_id dated left w =
    let kept = λ (x : TokenRow).
      changed_property (λ (y : TokenRow). y.token_id ≡ x.token_id) p f x refl (λ hit. same_id x) in
    record {
      unique = λ r r' i j e.
          let (x, k, c) = set_rows_sound p f s.tokens r (subst (IsIn r) left i) in
          let (x', k', c') = set_rows_sound p f s.tokens r' (subst (IsIn r') left j) in
          let ids : x.token_id ≡ x'.token_id =
            sym (kept x)
            ∙ ap (λ (y : TokenRow). y.token_id) c
            ∙ e
            ∙ sym (ap (λ (y : TokenRow). y.token_id) c')
            ∙ kept x' in
          sym c ∙ ap (changed p f) (w.unique x x' k k' ids) ∙ c';
      dated = λ r i.
          let (x, k, c) = set_rows_sound p f s.tokens r (subst (IsIn r) left i) in
          subst NotZero c
            (changed_property NotZero p f x (w.dated x k) (λ hit. dated x (w.dated x k)));
    }

-- A row with a new id is no other's.
not_taken :
    (row r : TokenRow) (s : TokenDatabase)
    → any (has_id row.token_id) s.tokens ≡ false
    → IsIn r s.tokens
    → r.token_id ≢ row.token_id
not_taken row r s new i e = ground (
  arith,
  new,
  any_some (has_id row.token_id) s.tokens r i ((text_eq_law r.token_id row.token_id).1 e),
)

new_row-TokensWellFormed :
    (row : TokenRow) (s s' : TokenDatabase)
    → NotZero row
    → any (has_id row.token_id) s.tokens ≡ false
    → s'.tokens ≡ row ∷ s.tokens
    → TokensWellFormed s
    → TokensWellFormed s'
new_row-TokensWellFormed row s s' fine new left w = record {
  unique = λ r r' i j e. elim (subst (IsIn r) left i) [
    | at_head c ↦ elim (subst (IsIn r') left j) [
      | at_head c' ↦ sym c ∙ c'
      | later j' ↦
          absurd (not_taken row r' s new j' (sym e ∙ ap (λ (y : TokenRow). y.token_id) (sym c)))
    ]
    | later i' ↦ elim (subst (IsIn r') left j) [
      | at_head c' ↦
          absurd (not_taken row r s new i' (e ∙ ap (λ (y : TokenRow). y.token_id) (sym c')))
      | later j' ↦ w.unique r r' i' j' e
    ]
  ];
  dated = λ r i. elim (subst (IsIn r) left i) [
    | at_head c ↦ subst NotZero c fine
    | later i' ↦ w.dated r i'
  ];
}

insert_token-TokensWellFormed :
    (pg : Timestamps) (row : TokenRow) (s : TokenDatabase)
    → NotZero row
    → TokensWellFormed s
    → TokensWellFormed (insert_token pg row s).1
insert_token-TokensWellFormed pg row s fine w = elim (insert_token_left pg row s) [
  | inl same ↦ same_tokens-TokensWellFormed s (insert_token pg row s).1 same w
  | inr (new, left) ↦ new_row-TokensWellFormed row s (insert_token pg row s).1 fine new left w
]

withdrawn_row-NotZero :
    (now : Time) (r : TokenRow) → now ≢ zero_time → NotZero r → NotZero (withdrawn_row now r)
withdrawn_row-NotZero now r n d z = elim (Option-cases r.revoked_at) [
  | inl e ↦ ground (arith, n, z, e)
  | inr (t, e) ↦ d (e ∙ sym (rw e refl) ∙ z)
]

working_execute-TokensWellFormed :
    (pg : Timestamps) (now : Time) (c : TokenStatement) (s : TokenDatabase)
    → now ≢ zero_time
    → next_outcome s.outcomes ≡ none
    → TokensWellFormed s
    → TokensWellFormed (execute pg now c s)
unfolding execute create_token revoke_token_of_owner mark_token_used
working_execute-TokensWellFormed pg now
      (creates new owner secret_hash description scopes full_reach expires_at) s n o w =
    rw (execute, create_token, o)
      (insert_token-TokensWellFormed pg
        (inserted_row pg now new owner secret_hash description scopes full_reach expires_at)
        (begun s) (λ z. ground (arith, z)) (same_tokens-TokensWellFormed s (begun s) refl w))
working_execute-TokensWellFormed pg now (revokes other owner) s n o w =
    set_rows-TokensWellFormed (is_theirs other owner) (withdrawn_row now) s _ (λ r. refl)
      (λ r. withdrawn_row-NotZero now r n)
      (ap (λ (t : TokenDatabase). t.tokens) (revoke_tokens now s other owner o)) w
working_execute-TokensWellFormed pg now (marks other) s n o w =
    rw (execute, mark_token_used, o)
      (set_rows-TokensWellFormed (λ (row : TokenRow). has_id other row && is_stale now row)
        (used_row now) s _ (λ r. refl) (λ r d. d) refl w)

execute-TokensWellFormed :
    (pg : Timestamps) (now : Time) (c : TokenStatement) (s : TokenDatabase)
    → now ≢ zero_time
    → TokensWellFormed s
    → TokensWellFormed (execute pg now c s)
execute-TokensWellFormed pg now c s n w = elim (Option-cases (next_outcome s.outcomes)) [
  | inr (message, o) ↦
      subst TokensWellFormed (sym (execute-failing pg now c s message o))
        (same_tokens-TokensWellFormed s (begun s) refl w)
  | inl o ↦ working_execute-TokensWellFormed pg now c s n o w
]

-- Whatever tokens are created, revoked or marked as used, in statements that may fail, their ids stay
-- unique and no revocation shows the zero time, if the database's clock never does.
pub execute_all-TokensWellFormed :
    (pg : Timestamps) (cs : List (Time × TokenStatement)) (s : TokenDatabase)
    → Every (λ (c : Time × TokenStatement). c.0 ≢ zero_time) cs
    → TokensWellFormed s
    → TokensWellFormed (execute_all pg cs s)
unfolding execute_all
execute_all-TokensWellFormed pg [] s clock w = w
execute_all-TokensWellFormed pg ((now, c) ∷ cs) s (n, clock) w =
    execute_all-TokensWellFormed pg cs (execute pg now c s) clock
      (execute-TokensWellFormed pg now c s n w)
