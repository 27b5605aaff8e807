-- ===== src/Store/Tokens/Found.antt =====
-- internal/store/tokens.go and directory.go: what a lookup finds after a token was stored.
use tallox_go.Prelude.{
  String, Text, List, ◌∷◌, length, none, some, Bool, false, any, ◌&&◌, ◌==◌, nat_comparable,
  text_comparable, text_eq_law, eq_self, ltb, ◌≡◌, ◌⊎◌, inl, inr, refl, ap, ◌∙◌, arith, Bool-cases,
  Option-cases,
}
use tallox_go.Prelude.Results.{err, ok, Result-cases}
use tallox_go.Principal.{Uuid}
use tallox_go.Auth.TokenDoor.{Time, Token}
use tallox_go.Store.Rows.{find_row, IsIn, find_row_sound}
use tallox_go.Domain.TokenService.{TokenRecord}
use tallox_go.Store.Tokens.{
  TokenRow, OwnerRow, TokenDatabase, Timestamps, next_outcome, begun, inserted_row, has_id,
  insert_token, create_token, token_from, token_by_id,
}

-- The account of a person in the tables.
abbrev pub Account : TokenDatabase → Uuid → OwnerRow → Type 0
Account s id p = find_row (λ (q : OwnerRow). q.id == id) s.owners ≡ some p

pub insert_token_cases :
    (pg : Timestamps) (row : TokenRow) (s s' : TokenDatabase) (r : TokenRecord)
    → insert_token pg row s ≡ (ok r, s')
    → (any (has_id row.token_id) s.tokens ≡ false) × (s' ≡ record s { tokens = row ∷ s.tokens })
unfolding insert_token
insert_token_cases pg row s s' r h = elim (Bool-cases (ltb row.created_at row.expires_at)) [
  | inr a ↦ ground (arith, h, a)
  | inl a ↦ elim (Bool-cases (length row.secret_hash == 32)) [
    | inr b ↦ ground (arith, h, a, b)
    | inl b ↦ elim (Bool-cases (row.full_reach && ltb (pg.days_91 row.created_at) row.expires_at)) [
      | inl c ↦ ground (arith, h, a, b, c)
      | inr c ↦ elim (Bool-cases (any (has_id row.token_id) s.tokens)) [
        | inl d ↦ ground (arith, h, a, b, c, d)
        | inr d ↦ elim (Bool-cases (any (λ (p : OwnerRow). p.id == row.owner_id) s.owners)) [
          | inr e ↦ ground (arith, h, a, b, c, d, e)
          | inl e ↦ (d, ground (arith, h, a, b, c, d, e))
        ]
      ]
    ]
  ]
]

pub create_token_cases :
    (pg : Timestamps) (now : Time) (s s' : TokenDatabase) (id : Text) (owner : Uuid)
    (secret_hash description : Text) (scopes : List Text) (full_reach : Bool) (expires_at : Time)
    (r : TokenRecord)
    → create_token pg now s id owner secret_hash description scopes full_reach expires_at
      ≡ (ok r, s')
    → (any (has_id id) s.tokens ≡ false)
      × (s' ≡ record (begun s) {
        tokens =
            inserted_row pg now id owner secret_hash description scopes full_reach expires_at
            ∷ s.tokens;
      })
unfolding create_token
create_token_cases pg now s s' id owner secret_hash description scopes full_reach expires_at r h =
    elim (Option-cases (next_outcome s.outcomes)) [
      | inr (message, o) ↦ ground (arith, h, o)
      | inl o ↦
          insert_token_cases pg
            (inserted_row pg now id owner secret_hash description scopes full_reach expires_at)
            (begun s) s' r (rw (create_token, o) at h)
    ]

-- A stored token is found with its owner, if the lookup does not fail.
pub token_by_id-create_token :
    (pg : Timestamps) (now later : Time) (s s' : TokenDatabase) (id : Text) (owner : Uuid)
    (secret_hash description : Text) (scopes : List Text) (full_reach : Bool) (expires_at : Time)
    (r : TokenRecord) (p : OwnerRow)
    → create_token pg now s id owner secret_hash description scopes full_reach expires_at
      ≡ (ok r, s')
    → next_outcome s'.outcomes ≡ none
    → Account s' owner p
    → token_by_id later s' id
      ≡ ok (
          some (
            token_from later
              (inserted_row pg now id owner secret_hash description scopes full_reach expires_at)
              p))
unfolding token_by_id find_row
token_by_id-create_token pg now later s s' id owner secret_hash description scopes full_reach
      expires_at r p created works account =
    let row = inserted_row pg now id owner secret_hash description scopes full_reach expires_at in
    let left =
      (create_token_cases pg now s s' id owner secret_hash description scopes full_reach expires_at
        r created).1 in
    let first : find_row (has_id id) s'.tokens ≡ some row =
      ap (λ (t : TokenDatabase). find_row (has_id id) t.tokens) left ∙ rw (eq_self id) refl in
    rw (token_by_id, works, first, account) refl

-- What a lookup finds stands in the table.
pub token_by_id_sound :
    (now : Time) (s : TokenDatabase) (id : Text) (t : Token)
    → token_by_id now s id ≡ ok (some t)
    → (row : TokenRow) × (p : OwnerRow) × IsIn row s.tokens
      × (row.token_id ≡ id)
      × (token_from now row p ≡ t)
unfolding token_by_id
token_by_id_sound now s id t h = elim (Option-cases (next_outcome s.outcomes)) [
  | inr (message, o) ↦ ground (arith, h, o)
  | inl o ↦ elim (Option-cases (find_row (has_id id) s.tokens)) [
    | inl a ↦ ground (arith, h, o, a)
    | inr (row, a) ↦
        elim (Option-cases (find_row (λ (p : OwnerRow). p.id == row.owner_id) s.owners)) [
          | inl b ↦ ground (arith, h, o, a, b)
          | inr (p, b) ↦
              let (i, hit) = find_row_sound (has_id id) s.tokens row a in
              (row, p, i, (text_eq_law row.token_id id).0 hit, ground (arith, h, o, a, b))
        ]
  ]
]

insert_token_failed :
    (pg : Timestamps) (row : TokenRow) (s : TokenDatabase) (message : String)
    → (insert_token pg row s).0 ≡ err message
    → (insert_token pg row s).1.tokens ≡ s.tokens
unfolding insert_token
insert_token_failed pg row s message h = elim (Bool-cases (ltb row.created_at row.expires_at)) [
  | inr a ↦ rw (insert_token, a) refl
  | inl a ↦ elim (Bool-cases (length row.secret_hash == 32)) [
    | inr b ↦ rw (insert_token, a, b) refl
    | inl b ↦ elim (Bool-cases (row.full_reach && ltb (pg.days_91 row.created_at) row.expires_at)) [
      | inl c ↦ rw (insert_token, a, b, c) refl
      | inr c ↦ elim (Bool-cases (any (has_id row.token_id) s.tokens)) [
        | inl d ↦ rw (insert_token, a, b, c, d) refl
        | inr d ↦ elim (Bool-cases (any (λ (p : OwnerRow). p.id == row.owner_id) s.owners)) [
          | inr e ↦ rw (insert_token, a, b, c, d, e) refl
          | inl e ↦ absurd (ground (arith, rw (insert_token, a, b, c, d, e) at h))
        ]
      ]
    ]
  ]
]

-- The insert adds a row with a new id, or leaves the tokens.
pub insert_token_left :
    (pg : Timestamps) (row : TokenRow) (s : TokenDatabase)
    → ((insert_token pg row s).1.tokens ≡ s.tokens)
      ⊎ ((any (has_id row.token_id) s.tokens ≡ false)
          × ((insert_token pg row s).1.tokens ≡ row ∷ s.tokens))
insert_token_left pg row s = elim (Result-cases (insert_token pg row s).0) [
  | inr (r, e) ↦
      let (new, left) =
        insert_token_cases pg row s (insert_token pg row s).1 r
          (λ i. (e i, (insert_token pg row s).1)) in
      inr (new, ap (λ (t : TokenDatabase). t.tokens) left)
  | inl (message, e) ↦ inl (insert_token_failed pg row s message e)
]
