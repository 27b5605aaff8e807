-- ===== src/Domain/ZpaSync/Current.antt =====
-- internal/domain/zpasync.go: the cache after the import of a kind has succeeded.
use mathlib.Core.Path.{subst}
use tallox_go.Prelude.{
  ℕ, List, [], ◌∷◌, length, contains, none, Bool, true, false, ◌||◌, ◌==◌, nat_comparable,
  nat_eq_iff, if◌then◌else◌, ◌≡◌, inl, inr, refl, sym, ap, ◌∙◌, arith, Bool-cases, Option-cases,
}
use tallox_go.Prelude.Results.{Result, err, ok, Result-cases}
use tallox_go.Principal.{Uuid}
use tallox_go.Policy.Semester.{Time}
use tallox_go.Store.Rows.{IsIn, at_head, later, find_row, not_found, set_rows, set_rows_sound}
use tallox_go.Store.Zpa.{
  ZpaKind, kind_eq_law, kind_comparable, ZpaObject, CachedObject, ObjectState, succeeded, failed,
  ZpaStore, is_object, is_missing, seen_again, retired, upsert_row, state_by_kind, retire_missing,
}
use tallox_go.Domain.ZpaSync.{
  Json, Source, KindResult, fresh_result, fail, ids, apply_object, each_object, each_retired,
  retire, sync_kind,
}
use tallox_go.Store.Zpa.Rules.{statement_rule, call_rule, Live, upsert_row-stored, retired-Live}
use tallox_go.Domain.ZpaSync.Cache.{Ends, each_object-Live, apply_object-Ends, each_retired_keeps}

-- A cached object as it was fetched.
abbrev pub From : List ZpaObject → CachedObject → Type 0
From objects o =
    (object : ZpaObject) × IsIn object objects
    × (object.zpa_id ≡ o.zpa_id)
    × (object.payload ≡ o.payload)
    × (object.label ≡ o.label)

-- Of the numbers that are done, the cache holds what was fetched.
abbrev Fresh : ZpaKind → List ZpaObject → (ℕ → Bool) → List CachedObject → Type 0
Fresh kind objects done os =
    (o : CachedObject) → IsIn o os → o.kind ≡ kind → done o.zpa_id ≡ true → From objects o

abbrev and_done : ZpaObject → (ℕ → Bool) → ℕ → Bool
and_done object done i = object.zpa_id == i || done i

not_that :
    (kind : ZpaKind) (object : ZpaObject) (done : ℕ → Bool) (o : CachedObject)
    → o.kind ≡ kind
    → is_object kind object.zpa_id o ≡ false
    → and_done object done o.zpa_id ≡ true
    → done o.zpa_id ≡ true
not_that kind object done o k miss h = elim (Bool-cases (object.zpa_id == o.zpa_id)) [
  | inr other ↦ ground (arith, other, h)
  | inl same ↦ absurd (
      ground (
        arith,
        miss,
        (kind_eq_law o.kind kind).1 k,
        (nat_eq_iff o.zpa_id object.zpa_id).1 (sym ((nat_eq_iff object.zpa_id o.zpa_id).0 same)),
      ))
]

upsert_row-Fresh :
    (kind : ZpaKind) (objects : List ZpaObject) (done : ℕ → Bool) (object : ZpaObject)
    (s : ZpaStore)
    → IsIn object objects
    → Fresh kind objects done s.objects
    → Fresh kind objects (and_done object done) (upsert_row kind object s).1.objects
unfolding upsert_row
upsert_row-Fresh kind objects done object s i fresh =
    let p = is_object kind object.zpa_id in
    elim (Option-cases (find_row p s.objects)) [
      | inl missing ↦
          rw (upsert_row, missing)
            (λ o j k d. elim j [
              | at_head e ↦
                  (object, i, ap (λ x. x.zpa_id) e, ap (λ x. x.payload) e, ap (λ x. x.label) e)
              | later j' ↦
                  fresh o j' k
                    (not_that kind object done o k (not_found p s.objects missing o j') d)
            ])
      | inr (found, there) ↦
          rw (upsert_row, there)
            (λ o j k d.
              let (x, j', e) = set_rows_sound p (seen_again object) s.objects o j in
              elim (Bool-cases (p x)) [
                | inl hit ↦
                    let e' : seen_again object x ≡ o =
                      subst (λ b. (if b then seen_again object x else x) ≡ o) hit e in
                    (
                      object,
                      i,
                      sym ((nat_eq_iff x.zpa_id object.zpa_id).0 (ground (arith, hit)))
                          ∙ ap (λ y. y.zpa_id) e',
                      ap (λ y. y.payload) e',
                      ap (λ y. y.label) e',
                    )
                | inr miss ↦
                    let e' : x ≡ o =
                      subst (λ b. (if b then seen_again object x else x) ≡ o) miss e in
                    subst (From objects) e' (
                      fresh x j' (ap (λ y. y.kind) e' ∙ k) (
                        not_that kind object done x (ap (λ y. y.kind) e' ∙ k) miss (
                          subst (λ (y : CachedObject). and_done object done y.zpa_id ≡ true)
                            (sym e') d)))
              ])
    ]

-- The loop has ended early with a failure, or everything that was fetched is in the cache.
module _ (kind : ZpaKind) (objects : List ZpaObject) where
  record Stored (rest : List ZpaObject) (done : ℕ → Bool) (os : List CachedObject) : Type 0 where
    covered : ℕ → Bool
    still : (i : ℕ) → done i ≡ true → covered i ≡ true
    covers : (i : ℕ) → contains (ids rest) i ≡ true → covered i ≡ true
    fresh : Fresh kind objects covered os
    held : (o : ZpaObject) → IsIn o rest → Live kind o.zpa_id os

  abbrev LoopEnds : List ZpaObject → (ℕ → Bool) → Result KindResult KindResult × ZpaStore → Type 0
  LoopEnds rest done (err result, s) = result.status ≡ failed
  LoopEnds rest done (ok result, s) = Stored rest done s.objects

  abbrev Anything : List CachedObject → Type 0
  Anything os = Unit {0}

  abbrev Rounded : ZpaObject → (ℕ → Bool) → List CachedObject → Type 0
  Rounded object done os = Fresh kind objects (and_done object done) os × Live kind object.zpa_id os

  one_more-Stored :
      (object : ZpaObject) (rest : List ZpaObject) (done : ℕ → Bool) (os : List CachedObject)
      → Live kind object.zpa_id os
      → Stored rest (and_done object done) os
      → Stored (object ∷ rest) done os
  one_more-Stored object rest done os live st = record {
    covered = st.covered;
    still = λ i h. st.still i (ground (arith, h));
    covers = λ i h. elim (Bool-cases (object.zpa_id == i)) [
      | inl same ↦ st.still i (ground (arith, same))
      | inr other ↦ st.covers i (ground (arith, other, h))
    ];
    fresh = st.fresh;
    held = λ o i. elim i [
      | at_head e ↦ subst (λ (x : ZpaObject). Live kind x.zpa_id os) e live
      | later j ↦ st.held o j
    ];
  }

  extend :
      (object : ZpaObject) (rest : List ZpaObject) (done : ℕ → Bool)
      (r : Result KindResult KindResult × ZpaStore)
      → Live kind object.zpa_id r.1.objects
      → LoopEnds rest (and_done object done) r
      → LoopEnds (object ∷ rest) done r
  extend object rest done (err result, s) live h = h
  extend object rest done (ok result, s) live h = one_more-Stored object rest done s.objects live h

  each_object-LoopEnds :
      (json : Json) (run : Uuid) (states : List ObjectState) (rest : List ZpaObject)
      (done : ℕ → Bool) (result : KindResult) (s : ZpaStore)
      → ((o : ZpaObject) → IsIn o rest → IsIn o objects)
      → Fresh kind objects done s.objects
      → LoopEnds rest done (each_object json run kind states rest result s)
  unfolding each_object
  each_object-LoopEnds json run states [] done result s within start = record {
    covered = done;
    still = λ i h. h;
    covers = λ i h. absurd (ground (arith, h));
    fresh = start;
    held = λ o i. elim i [ ];
  }
  each_object-LoopEnds json run states (object ∷ rest) done result s within start =
      let round =
        apply_object-Ends (Fresh kind objects done) (Rounded object done) Anything (λ os x. tt)
          (λ os x. tt) json run kind states object result s start
          (λ t x. (
            upsert_row-Fresh kind objects done object t (within object (at_head refl)) x,
            upsert_row-stored kind object t,
          )) in
      call_rule (LoopEnds (object ∷ rest) done) (apply_object json run kind states object result s)
        (λ e s'. (err (fail result e), s'))
        (λ result' s'. each_object json run kind states rest result' s') (λ e s' is. refl)
        (λ result' s' is.
          let (fresh', live) = subst (Ends Anything (Rounded object done)) is round in
          extend object rest done (each_object json run kind states rest result' s')
            (each_object-Live kind kind object.zpa_id json run states rest result' s' live)
            (each_object-LoopEnds json run states rest (and_done object done) result' s'
              (λ o i. within o (later i)) fresh'))

  -- The cache of a kind as the source has it.
  pub record Current (os : List CachedObject) : Type 0 where
    pub all_held : (o : ZpaObject) → IsIn o objects → Live kind o.zpa_id os
    pub nothing_else :
        (o : CachedObject) → IsIn o os → o.kind ≡ kind → o.gone_at ≡ none → From objects o

  mentioned :
      (o : ZpaObject) (rest : List ZpaObject) → IsIn o rest → contains (ids rest) o.zpa_id ≡ true
  mentioned o [] i = elim i [ ]
  mentioned o (x ∷ rest) (at_head e) =
      ground (arith, (nat_eq_iff x.zpa_id o.zpa_id).1 (ap (λ y. y.zpa_id) e))
  mentioned o (x ∷ rest) (later j) = ground (arith, mentioned o rest j)

  retired-Current :
      (now : Time) (os : List CachedObject) (done : ℕ → Bool)
      → Stored objects done os
      → Current (set_rows (is_missing kind (ids objects)) (retired now) os)
  retired-Current now os done st = record {
    all_held = λ o i.
        retired-Live now kind kind (ids objects) o.zpa_id os (st.held o i)
          (λ same. mentioned o objects i);
    nothing_else = λ o i k live.
        let p = is_missing kind (ids objects) in
        let (x, j, e) = set_rows_sound p (retired now) os o i in
        elim (Bool-cases (p x)) [
          | inl hit ↦
              let e' : retired now x ≡ o =
                subst (λ b. (if b then retired now x else x) ≡ o) hit e in
              absurd (ground (arith, ap (λ y. y.gone_at) e', live))
          | inr miss ↦
              let e' : x ≡ o = subst (λ b. (if b then retired now x else x) ≡ o) miss e in
              let there : contains (ids objects) x.zpa_id ≡ true = ground (
                arith,
                miss,
                (kind_eq_law x.kind kind).1 (ap (λ y. y.kind) e' ∙ k),
                ap (λ y. y.gone_at) e' ∙ live,
              ) in
              subst (From objects) e'
                (st.fresh x j (ap (λ y. y.kind) e' ∙ k) (st.covers x.zpa_id there))
        ];
  }

  abbrev IfSucceeded : KindResult × ZpaStore → Type 0
  IfSucceeded r = r.0.status ≡ succeeded → Current r.1.objects

  retire_missing-Current :
      (now : Time) (done : ℕ → Bool) (s : ZpaStore)
      → Stored objects done s.objects
      → Ends Anything Current (retire_missing now kind (ids objects) s)
  unfolding retire_missing
  retire_missing-Current now done s st =
      statement_rule (Ends Anything Current) _ s (λ e rest. tt)
        (λ rest. retired-Current now s.objects done st)

  retire-IfSucceeded :
      (now : Time) (run : Uuid) (done : ℕ → Bool) (r : Result KindResult KindResult × ZpaStore)
      → LoopEnds objects done r
      → IfSucceeded (retire now run kind (ids objects) r)
  unfolding retire
  retire-IfSucceeded now run done (err result, s) h = λ e. absurd (ground (arith, h, e))
  retire-IfSucceeded now run done (ok result, s) h =
      call_rule IfSucceeded (retire_missing now kind (ids objects) s) (λ e s'. (fail result e, s'))
        (λ gone s'. each_retired run kind gone result s')
        (λ e s' is. λ f. absurd (ground (arith, f)))
        (λ gone s' is. λ f.
          each_retired_keeps Current run kind gone result s'
            (subst (Ends Anything Current) is (retire_missing-Current now done s h)))

-- When the import of a kind has succeeded, the source has answered, and the cache of the kind is the
-- answer: everything that was fetched is there, and whatever is there and not gone was fetched with
-- this payload and this label.
pub sync_kind-Current :
    (json : Json) (source : Source) (now : Time) (run : Uuid) (kind : ZpaKind) (s : ZpaStore)
    → (sync_kind json source now run kind s).0.status ≡ succeeded
    → (objects : List ZpaObject) × (source kind ≡ ok objects)
      × Current kind objects (sync_kind json source now run kind s).1.objects
unfolding sync_kind
sync_kind-Current json source now run kind s h = elim (Result-cases (source kind)) [
  | inl (e, down) ↦
      let answer : sync_kind json source now run kind s ≡ (fail (fresh_result kind) e, s) =
        rw (sync_kind, down) refl in
      absurd (ground (arith, ap (λ r. r.0.status) answer, h))
  | inr (objects, fetched) ↦
      let result : KindResult = record (fresh_result kind) { fetched = length objects } in
      let runs : sync_kind json source now run kind s ≡ elim (state_by_kind kind s).0 [
        | err e ↦ (fail result e, (state_by_kind kind s).1)
        | ok states ↦
            retire now run kind (ids objects)
              (each_object json run kind states objects result (state_by_kind kind s).1)
      ] =
        rw (sync_kind, fetched) refl in
      let whole =
        call_rule (IfSucceeded kind objects) (state_by_kind kind s) (λ e s'. (fail result e, s'))
          (λ states s'.
            retire now run kind (ids objects) (each_object json run kind states objects result s'))
          (λ e s' is. λ f. absurd (ground (arith, f)))
          (λ states s' is.
            retire-IfSucceeded kind objects now run (λ i. false)
              (each_object json run kind states objects result s')
              (each_object-LoopEnds kind objects json run states objects (λ i. false) result s'
                (λ o i. i) (λ o i k d. absurd (ground (arith, d))))) in
      (objects, fetched, subst (IfSucceeded kind objects) (sym runs) whole h)
]
