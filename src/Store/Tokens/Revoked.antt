-- ===== src/Store/Tokens/Revoked.antt =====
-- internal/store/tokens.go: a token that is revoked stays so, whatever statements follow.
use mathlib.Core.Path.{subst}
use tallox_go.Prelude.{
  String, Text, List, [], ◌∷◌, none, some, Bool, true, false, any, ◌&&◌, nat_comparable,
  text_comparable, text_eq_law, ◌≡◌, ◌≢◌, inl, inr, refl, sym, ap, ◌∙◌, if◌then◌else◌, arith,
  Option-cases,
}
use tallox_go.Prelude.Results.{ok}
use tallox_go.Principal.{Uuid}
use tallox_go.Auth.TokenDoor.{Time, Token, zero_time}
use tallox_go.Store.Rows.{
  find_row, set_rows, IsIn, at_head, later, find_row_sound, set_rows_sound, IsIn-set_rows, changed,
  changed_property, any_some,
}
use tallox_go.Store.Semesters.{nullable_time}
use tallox_go.Domain.TokenService.{TokenRecord}
use tallox_go.Store.Tokens.{
  TokenRow, TokenDatabase, Timestamps, next_outcome, begun, has_id, create_token, is_theirs,
  withdrawn_row, withdraw, revoke_token_of_owner, mark_token_used, is_stale, used_row, token_by_id,
  inserted_row, insert_token, token_from,
}
use tallox_go.Store.Tokens.Found.{insert_token_left, token_by_id_sound}

-- Token ids are unique, and no token was revoked in the year 1.
pub record TokensWellFormed (s : TokenDatabase) : Type 0 where
  pub unique :
      (r r' : TokenRow) → IsIn r s.tokens → IsIn r' s.tokens → r.token_id ≡ r'.token_id → r ≡ r'
  pub dated : (r : TokenRow) → IsIn r s.tokens → r.revoked_at ≢ some zero_time

abbrev pub Dated : TokenRow → Type 0
Dated r = (t : Time) × (r.revoked_at ≡ some t) × (t ≢ zero_time)

-- The token is in the table, and revoked.
pub record Withdrawn (id : Text) (s : TokenDatabase) : Type 0 where
  pub row : TokenRow
  pub listed : IsIn row s.tokens
  pub of_id : row.token_id ≡ id
  pub revoked : (r : TokenRow) → IsIn r s.tokens → r.token_id ≡ id → Dated r

-- A statement that another call makes.
pub data TokenStatement : Type 0 where
  creates : Text → Uuid → Text → Text → List Text → Bool → Time → TokenStatement
  revokes : Text → Uuid → TokenStatement
  marks : Text → TokenStatement

unfoldable pub execute : Timestamps → Time → TokenStatement → TokenDatabase → TokenDatabase
unfolding create_token revoke_token_of_owner mark_token_used
execute pg now (creates id owner secret_hash description scopes full_reach expires_at) s =
    (create_token pg now s id owner secret_hash description scopes full_reach expires_at).1
execute pg now (revokes id owner) s = (revoke_token_of_owner now s id owner).1
execute pg now (marks id) s = (mark_token_used now s id).1

-- Statements one after another, each with its time, the first of the list first.
unfoldable pub execute_all :
    Timestamps → List (Time × TokenStatement) → TokenDatabase → TokenDatabase
unfolding execute
execute_all pg [] s = s
execute_all pg ((now, c) ∷ cs) s = execute_all pg cs (execute pg now c s)

set_rows-Withdrawn :
    (p : TokenRow → Bool) (f : TokenRow → TokenRow) (id : Text) (s s' : TokenDatabase)
    → ((r : TokenRow) → (f r).token_id ≡ r.token_id)
    → ((r : TokenRow) → Dated r → Dated (f r))
    → s'.tokens ≡ set_rows p f s.tokens
    → Withdrawn id s
    → Withdrawn id s'
set_rows-Withdrawn p f id s s' same_id dated left w =
    let kept = λ (x : TokenRow).
      changed_property (λ (y : TokenRow). y.token_id ≡ x.token_id) p f x refl (λ hit. same_id x) in
    record {
      row = changed p f w.row;
      listed =
          subst (IsIn (changed p f w.row)) (sym left) (IsIn-set_rows p f s.tokens w.row w.listed);
      of_id = kept w.row ∙ w.of_id;
      revoked = λ r i e.
          let (x, j, c) = set_rows_sound p f s.tokens r (subst (IsIn r) left i) in
          let d = w.revoked x j (sym (kept x) ∙ ap (λ (y : TokenRow). y.token_id) c ∙ e) in
          subst Dated c (changed_property Dated p f x d (λ hit. dated x d));
    }

same_tokens-Withdrawn :
    (id : Text) (s s' : TokenDatabase) → s'.tokens ≡ s.tokens → Withdrawn id s → Withdrawn id s'
same_tokens-Withdrawn id s s' left w = record {
  row = w.row;
  listed = subst (IsIn w.row) (sym left) w.listed;
  of_id = w.of_id;
  revoked = λ r i. w.revoked r (subst (IsIn r) left i);
}

new_row-Withdrawn :
    (id : Text) (row : TokenRow) (s s' : TokenDatabase)
    → any (has_id row.token_id) s.tokens ≡ false
    → s'.tokens ≡ row ∷ s.tokens
    → Withdrawn id s
    → Withdrawn id s'
new_row-Withdrawn id row s s' new left w = record {
  row = w.row;
  listed = subst (IsIn w.row) (sym left) (later w.listed);
  of_id = w.of_id;
  revoked = λ r i e. elim (subst (IsIn r) left i) [
    | later j ↦ w.revoked r j e
    | at_head c ↦
        let same : w.row.token_id ≡ row.token_id =
          w.of_id ∙ sym e ∙ ap (λ (y : TokenRow). y.token_id) (sym c) in
        ground (
          arith,
          new,
          any_some (has_id row.token_id) s.tokens w.row w.listed
              ((text_eq_law w.row.token_id row.token_id).1 same),
        )
  ];
}

coalesce-Dated : (now : Time) (r : TokenRow) → Dated r → Dated (withdrawn_row now r)
coalesce-Dated now r (t, e, n) = (t, rw e refl, n)

create_token-Withdrawn :
    (pg : Timestamps) (now : Time) (row : TokenRow) (id : Text) (s : TokenDatabase)
    → Withdrawn id s
    → Withdrawn id (insert_token pg row s).1
create_token-Withdrawn pg now row id s w = elim (insert_token_left pg row s) [
  | inl same ↦ same_tokens-Withdrawn id s (insert_token pg row s).1 same w
  | inr (new, left) ↦ new_row-Withdrawn id row s (insert_token pg row s).1 new left w
]

pub revoke_tokens :
    (now : Time) (s : TokenDatabase) (id : Text) (owner : Uuid)
    → next_outcome s.outcomes ≡ none
    → (revoke_token_of_owner now s id owner).1 ≡ withdraw now id owner (begun s)
unfolding revoke_token_of_owner
revoke_tokens now s id owner o =
    elim (Option-cases (find_row (is_theirs id owner) (withdraw now id owner (begun s)).tokens)) [
      | inl a ↦ rw (revoke_token_of_owner, o, a) refl
      | inr (row, a) ↦ rw (revoke_token_of_owner, o, a) refl
    ]

begun-Withdrawn : (id : Text) (s : TokenDatabase) → Withdrawn id s → Withdrawn id (begun s)
begun-Withdrawn id s = same_tokens-Withdrawn id s (begun s) refl

pub execute-failing :
    (pg : Timestamps) (now : Time) (c : TokenStatement) (s : TokenDatabase) (message : String)
    → next_outcome s.outcomes ≡ some message
    → execute pg now c s ≡ begun s
unfolding execute create_token revoke_token_of_owner mark_token_used
execute-failing pg now (creates id owner secret_hash description scopes full_reach expires_at) s
      message o =
    rw (execute, create_token, o) refl
execute-failing pg now (revokes id owner) s message o = rw (execute, revoke_token_of_owner, o) refl
execute-failing pg now (marks id) s message o = rw (execute, mark_token_used, o) refl

execute-working :
    (pg : Timestamps) (now : Time) (id : Text) (c : TokenStatement) (s : TokenDatabase)
    → next_outcome s.outcomes ≡ none
    → Withdrawn id s
    → Withdrawn id (execute pg now c s)
unfolding execute create_token revoke_token_of_owner mark_token_used
execute-working pg now id (creates new owner secret_hash description scopes full_reach expires_at) s
      o w =
    rw (execute, create_token, o)
      (create_token-Withdrawn pg now
        (inserted_row pg now new owner secret_hash description scopes full_reach expires_at) id
        (begun s) (begun-Withdrawn id s w))
execute-working pg now id (revokes other owner) s o w =
    set_rows-Withdrawn (is_theirs other owner) (withdrawn_row now) id s _ (λ r. refl)
      (coalesce-Dated now)
      (ap (λ (t : TokenDatabase). t.tokens) (revoke_tokens now s other owner o)) w
execute-working pg now id (marks other) s o w =
    rw (execute, mark_token_used, o)
      (set_rows-Withdrawn (λ (row : TokenRow). has_id other row && is_stale now row) (used_row now)
        id s _ (λ r. refl) (λ r d. d) refl w)

execute-Withdrawn :
    (pg : Timestamps) (now : Time) (id : Text) (c : TokenStatement) (s : TokenDatabase)
    → Withdrawn id s
    → Withdrawn id (execute pg now c s)
execute-Withdrawn pg now id c s w = elim (Option-cases (next_outcome s.outcomes)) [
  | inr (message, o) ↦
      subst (Withdrawn id) (sym (execute-failing pg now c s message o)) (begun-Withdrawn id s w)
  | inl o ↦ execute-working pg now id c s o w
]

pub execute_all-Withdrawn :
    (pg : Timestamps) (cs : List (Time × TokenStatement)) (id : Text) (s : TokenDatabase)
    → Withdrawn id s
    → Withdrawn id (execute_all pg cs s)
unfolding execute_all
execute_all-Withdrawn pg [] id s w = w
execute_all-Withdrawn pg ((now, c) ∷ cs) id s w =
    execute_all-Withdrawn pg cs id (execute pg now c s) (execute-Withdrawn pg now id c s w)

withdrawn_row-Dated :
    (now : Time) (r : TokenRow)
    → now ≢ zero_time
    → r.revoked_at ≢ some zero_time
    → Dated (withdrawn_row now r)
withdrawn_row-Dated now r n d = elim (Option-cases r.revoked_at) [
  | inl e ↦ (now, rw e refl, n)
  | inr (t, e) ↦ (t, rw e refl, λ z. d (e ∙ ap some z))
]

is_theirs_iff :
    (id : Text) (owner : Uuid) (r : TokenRow) → is_theirs id owner r ≡ true → r.token_id ≡ id
is_theirs_iff id owner r h = (text_eq_law r.token_id id).0 (ground (arith, h))

-- Of the rows after a revocation, the one that is found is dated, and it is the only one of its id.
withdraw-Withdrawn :
    (now : Time) (id : Text) (owner : Uuid) (s : TokenDatabase) (x : TokenRow)
    → TokensWellFormed s
    → now ≢ zero_time
    → find_row (is_theirs id owner) (withdraw now id owner s).tokens ≡ some x
    → Withdrawn id (withdraw now id owner s)
withdraw-Withdrawn now id owner s x wf n found =
    let p = is_theirs id owner in
    let f = withdrawn_row now in
    let kept = λ (y : TokenRow).
      changed_property (λ (z : TokenRow). z.token_id ≡ y.token_id) p f y refl (λ hit. refl) in
    let (i, hit) = find_row_sound p (withdraw now id owner s).tokens x found in
    let (x0, i0, c0) = set_rows_sound p f s.tokens x i in
    let theirs : p x0 ≡ true =
      changed_property (λ (z : TokenRow). p z ≡ true → p x0 ≡ true) p f x0 (λ h. h) (λ h k. h)
        (subst (λ z. p z ≡ true) (sym c0) hit) in
    record {
      row = x;
      listed = i;
      of_id = is_theirs_iff id owner x hit;
      revoked = λ r j e.
          let (r0, j0, d0) = set_rows_sound p f s.tokens r j in
          let same : r0 ≡ x0 = wf.unique r0 x0 j0 i0 (
            sym (kept r0)
            ∙ ap (λ (z : TokenRow). z.token_id) d0
            ∙ e
            ∙ sym (is_theirs_iff id owner x0 theirs)) in
          let mine : p r0 ≡ true = ap p same ∙ theirs in
          subst Dated (subst (λ b. (if b then f r0 else r0) ≡ r) mine d0)
            (withdrawn_row-Dated now r0 n (wf.dated r0 j0));
    }

pub revoke_token_of_owner-Withdrawn :
    (now : Time) (s s' : TokenDatabase) (id : Text) (owner : Uuid) (r : TokenRecord)
    → TokensWellFormed s
    → now ≢ zero_time
    → revoke_token_of_owner now s id owner ≡ (ok r, s')
    → Withdrawn id s'
unfolding revoke_token_of_owner
revoke_token_of_owner-Withdrawn now s s' id owner r wf n h =
    elim (Option-cases (next_outcome s.outcomes)) [
      | inr (message, o) ↦ absurd (ground (arith, rw (revoke_token_of_owner, o) at h))
      | inl o ↦
          elim (Option-cases
            (find_row (is_theirs id owner) (withdraw now id owner (begun s)).tokens)) [
              | inl a ↦ absurd (ground (arith, rw (revoke_token_of_owner, o, a) at h))
              | inr (x, a) ↦
                  let same : withdraw now id owner (begun s) ≡ s' =
                    sym (revoke_tokens now s id owner o) ∙ ap (λ y. y.1) h in
                  subst (Withdrawn id) same (
                    withdraw-Withdrawn now id owner (begun s) x
                      (record { unique = wf.unique; dated = wf.dated }) n a)
            ]
    ]

-- What a lookup finds of a token that was withdrawn is revoked.
pub Withdrawn-found :
    (now : Time) (id : Text) (s : TokenDatabase) (t : Token)
    → Withdrawn id s
    → token_by_id now s id ≡ ok (some t)
    → t.revoked_at ≢ zero_time
unfolding token_from
Withdrawn-found now id s t w h z =
    let (row, p, i, e, made) = token_by_id_sound now s id t h in
    let (at, d, n) = w.revoked row i e in
    n (ap nullable_time (sym d) ∙ ap (λ (x : Token). x.revoked_at) made ∙ z)
