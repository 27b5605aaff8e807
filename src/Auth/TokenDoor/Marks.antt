-- ===== src/Auth/TokenDoor/Marks.antt =====
-- The uses that the token door records.
use tallox_go.Prelude.{
  ◌+◌, ◌≤◌, Text, List, [], ◌∷◌, Option, none, some, true, ◌≡◌, ◌⊎◌, inl, inr, refl, ap, ◌∙◌, sym,
  arith, Option-cases, Bool-cases, ◌==◌, text_comparable, text_eq_law, eq_self, if◌then◌else◌,
  is_empty,
}
use tallox_go.Auth.Token.{parse_token}
use tallox_go.Auth.TokenDoor.Acceptance.{credential}
use tallox_go.Prelude.Results.{Result-cases, err, ok}
use tallox_go.Principal.{Actor}
use tallox_go.Auth.Refusal.{no_credential, malformed_token, AuthError}
use tallox_go.Prelude.Results.{Result-cases, err, ok}
use tallox_go.Principal.{Actor}
use tallox_go.Auth.Refusal.{no_credential, malformed_token, AuthError}
use tallox_go.Auth.TokenDoor.{
  no_uses, authenticate, TokenLookup, not_bearer, look_up, actor_of, Time, Uses, mark_used_every,
  recently, start_write, mark_used,
}

-- The time of the newest write for a token.
abbrev pub newest : List (Text × Time) → Text → Option Time
newest [] id = none
newest ((id', t) ∷ writes) id = if id' == id then some t else newest writes id

-- No write for the token stands less than five minutes before this time.
abbrev pub NoneSince : Text → Time → List (Text × Time) → Type 0
NoneSince id now [] = Unit {0}
NoneSince id now ((id', t) ∷ writes) =
    (id' ≡ id → t + mark_used_every ≤ now) × NoneSince id now writes

-- Any two writes for one token are at least five minutes apart.
abbrev pub Spaced : List (Text × Time) → Type 0
Spaced [] = Unit {0}
Spaced ((id, now) ∷ writes) = NoneSince id now writes × Spaced writes

pub record WellFormed (uses : Uses) : Type 0 where
  pub agrees : (id : Text) → uses.marked id ≡ newest uses.writes id
  pub spaced : Spaced uses.writes

NoneSince-later :
    (id id' : Text) (now now' : Time) (writes : List (Text × Time))
    → id ≡ id'
    → now ≤ now'
    → NoneSince id now writes
    → NoneSince id' now' writes
NoneSince-later id id' now now' [] e le h = tt
NoneSince-later id id' now now' ((other, t) ∷ writes) e le (h, hs) =
    (λ same. omega (arith, le, h (same ∙ sym e)), NoneSince-later id id' now now' writes e le hs)

NoneSince-newest :
    (id : Text) (now t : Time) (writes : List (Text × Time))
    → Spaced writes
    → newest writes id ≡ some t
    → t + mark_used_every ≤ now
    → NoneSince id now writes
NoneSince-newest id now t [] s h le = tt
NoneSince-newest id now t ((id', t') ∷ writes) (none_since, s) h le =
    elim (Bool-cases (id' == id)) [
      | inl same ↦ (
        λ e. ground (arith, h, same, le),
        NoneSince-later id' id t' now writes ((text_eq_law id' id).0 same)
            (ground (arith, h, same, le)) none_since,
      )
      | inr other ↦ (
        λ e. ground (arith, other, (text_eq_law id' id).1 e),
        NoneSince-newest id now t writes s (ground (arith, h, other)) le,
      )
    ]

NoneSince-never :
    (id : Text) (now : Time) (writes : List (Text × Time))
    → newest writes id ≡ none
    → NoneSince id now writes
NoneSince-never id now [] h = tt
NoneSince-never id now ((id', t') ∷ writes) h = elim (Bool-cases (id' == id)) [
  | inl same ↦ ground (arith, h, same)
  | inr other ↦ (
    λ e. ground (arith, other, (text_eq_law id' id).1 e),
    NoneSince-never id now writes (ground (arith, h, other)),
  )
]

start_write-WellFormed :
    (now : Time) (id : Text) (uses : Uses)
    → WellFormed uses
    → NoneSince id now uses.writes
    → WellFormed (start_write now id uses)
unfolding start_write
start_write-WellFormed now id uses w n = record {
  agrees = λ id'. ap (λ m. if id == id' then some now else m) (w.agrees id');
  spaced = (n, w.spaced);
}

-- Recording a use keeps the writes apart, and the memory in agreement with them.
mark_used-WellFormed :
    (now : Time) (id : Text) (uses : Uses) → WellFormed uses → WellFormed (mark_used now id uses)
unfolding mark_used
mark_used-WellFormed now id uses w = elim (Option-cases (uses.marked id)) [
  | inl never ↦
      rw (mark_used, never)
        (start_write-WellFormed now id uses w
          (NoneSince-never id now uses.writes (sym (w.agrees id) ∙ never)))
  | inr (last, e) ↦ elim (Bool-cases (recently now last)) [
    | inl recent ↦ rw (mark_used, e, recent) w
    | inr old ↦
        rw (mark_used, e, old)
          (start_write-WellFormed now id uses w (
            NoneSince-newest id now last uses.writes w.spaced (sym (w.agrees id) ∙ e)
              (ground (arith, old))))
  ]
]

mark_used-marked :
    (now : Time) (id : Text) (uses : Uses)
    → (last : Time) × ((mark_used now id uses).marked id ≡ some last) × (recently now last ≡ true)
unfolding mark_used start_write
mark_used-marked now id uses = elim (Option-cases (uses.marked id)) [
  | inl never ↦ (now, ground (arith, never, eq_self id), ground arith)
  | inr (last, e) ↦ elim (Bool-cases (recently now last)) [
    | inl recent ↦ (last, ground (arith, e, recent), recent)
    | inr old ↦ (now, ground (arith, e, old, eq_self id), ground arith)
  ]
]

module _ (trim : Text → Text) (hash : Text → Text) where
  -- A request is refused and leaves the record of uses, or it is let in and its use is recorded.
  outcome :
      (tokens : Option TokenLookup) (now mark_now : Time) (authorization : Text) (uses : Uses)
      → ((e : AuthError) × (authenticate trim hash tokens now mark_now authorization uses
            ≡ (err e, uses)))
        ⊎ ((id : Text) × (a : Actor) × (authenticate trim hash tokens now mark_now authorization
                uses
              ≡ (ok a, mark_used mark_now id uses)))
  unfolding authenticate
  outcome tokens now mark_now authorization uses =
      elim (Bool-cases (is_empty (trim authorization))) [
        | inl e ↦ inl (no_credential, rw e refl)
        | inr e ↦ elim (Bool-cases (not_bearer (trim authorization))) [
          | inl b ↦ inl (malformed_token, rw (e, b) refl)
          | inr b ↦ elim (Option-cases (parse_token (credential trim hash authorization))) [
            | inl p ↦ inl (malformed_token, rw (e, b, p) refl)
            | inr (parsed, p) ↦ elim (Result-cases (look_up trim hash tokens now parsed)) [
              | inl (cause, l) ↦ inl (cause, rw (e, b, p, l) refl)
              | inr (stored, l) ↦ inr (parsed.id, actor_of stored, rw (e, b, p, l) refl)
            ]
          ]
        ]
      ]

  authenticate-WellFormed :
      (tokens : Option TokenLookup) (now mark_now : Time) (authorization : Text) (uses : Uses)
      → WellFormed uses
      → WellFormed (authenticate trim hash tokens now mark_now authorization uses).1
  authenticate-WellFormed tokens now mark_now authorization uses w =
      elim (outcome tokens now mark_now authorization uses) [
        | inl (e, same) ↦ rw same w
        | inr (id, a, same) ↦ rw same (mark_used-WellFormed mark_now id uses w)
      ]

  -- One request after another, each with the clocks and the lookup of its time.
  pub record Request : Type 0 where
    pub tokens : Option TokenLookup
    pub now : Time
    pub mark_now : Time
    pub authorization : Text

  abbrev pub run : List Request → Uses → Uses
  run [] uses = uses
  run (r ∷ rs) uses =
      run rs (authenticate trim hash r.tokens r.now r.mark_now r.authorization uses).1

  run-WellFormed : (rs : List Request) (uses : Uses) → WellFormed uses → WellFormed (run rs uses)
  run-WellFormed [] uses w = w
  run-WellFormed (r ∷ rs) uses w =
      run-WellFormed rs _ (authenticate-WellFormed r.tokens r.now r.mark_now r.authorization uses w)

  -- Whatever requests come in one after another, at whatever times of the clock, any two writes for
  -- one token are at least five minutes apart.
  pub run-Spaced : (rs : List Request) → Spaced (run rs no_uses).writes
  run-Spaced rs = (run-WellFormed rs no_uses (record { agrees = λ id. refl; spaced = tt })).spaced

  -- A refused request leaves the record of uses as it was. After an accepted one some token has a
  -- recorded use, which is less than five minutes before the clock that recorded it.
  pub authenticate-uses :
      (tokens : Option TokenLookup) (now mark_now : Time) (authorization : Text) (uses : Uses)
      → ((e : AuthError) × (authenticate trim hash tokens now mark_now authorization uses
            ≡ (err e, uses)))
        ⊎ ((id : Text) × (a : Actor) × (last : Time) × ((authenticate trim hash tokens now mark_now
                authorization uses).0
              ≡ ok a)
            × ((authenticate trim hash tokens now mark_now authorization uses).1.marked id
                ≡ some last)
            × (recently mark_now last ≡ true))
  authenticate-uses tokens now mark_now authorization uses =
      elim (outcome tokens now mark_now authorization uses) [
        | inl refused ↦ inl refused
        | inr (id, a, same) ↦
            let (last, marked, recent) = mark_used-marked mark_now id uses in
            inr (id, a, last, rw same refl, rw same marked, recent)
      ]
