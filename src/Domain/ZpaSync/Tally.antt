-- ===== src/Domain/ZpaSync/Tally.antt =====
-- internal/domain/zpasync.go: the counts of a kind against the log of changes.
use mathlib.Core.Path.{subst}
use tallox_go.Prelude.{
  ℕ, ◌+◌, Text, List, [], ◌∷◌, length, Option, none, some, ◌≡◌, ◌≢◌, inl, inr, refl, ap, ◌∙◌, arith,
  Option-cases,
}
use tallox_go.Prelude.Results.{Result, err, ok, Result-cases}
use tallox_go.Principal.{Uuid}
use tallox_go.Policy.Semester.{Time}
use tallox_go.Store.Rows.{find_row}
use tallox_go.Store.Zpa.{
  ZpaKind, ZpaObject, CachedObject, ObjectState, ChangeType, appeared, changed, disappeared,
  reappeared, RecordedChange, ZpaStore, is_object, upsert_row, state_by_kind, payload_of, upsert,
  retire_missing, record_change,
}
use tallox_go.Store.Zpa.Rules.{after, statement_rule, call_rule}
use tallox_go.Domain.ZpaSync.{
  Json, Source, KindResult, fresh_result, fail, counted, known, ids, classify, payload_before,
  change_of, gone_change, log_object, apply_object, each_object, each_retired, retire, sync_kind,
}

abbrev pub tally : KindResult → ℕ
tally result = result.appeared_count + result.changed_count + result.disappeared_count

-- The log has `n` entries besides those that the result counts.
abbrev Tallied : ℕ → KindResult → ZpaStore → Type 0
Tallied n result s = length s.changes ≡ n + tally result

abbrev Logged : ℕ → ZpaStore → Type 0
Logged n s = length s.changes ≡ n

state_by_kind-Logged :
    (n : ℕ) (kind : ZpaKind) (s : ZpaStore) → Logged n s → Logged n (state_by_kind kind s).1
unfolding state_by_kind
state_by_kind-Logged n kind s h = statement_rule (λ r. Logged n r.1) _ s (λ e rest. h) (λ rest. h)

payload_before-Logged :
    (n : ℕ) (previous : Option ObjectState) (kind : ZpaKind) (zpa_id : ℕ) (s : ZpaStore)
    → Logged n s
    → Logged n (payload_before previous kind zpa_id s).1
unfolding payload_before payload_of
payload_before-Logged n none kind zpa_id s h = h
payload_before-Logged n (some previous) kind zpa_id s h =
    statement_rule (λ r. Logged n r.1) _ s (λ e rest. h) (λ rest. h)

upsert_row-changes :
    (kind : ZpaKind) (object : ZpaObject) (s : ZpaStore)
    → (upsert_row kind object s).1.changes ≡ s.changes
unfolding upsert_row
upsert_row-changes kind object s =
    elim (Option-cases (find_row (is_object kind object.zpa_id) s.objects)) [
      | inl missing ↦ rw (upsert_row, missing) refl
      | inr (o, there) ↦ rw (upsert_row, there) refl
    ]

upsert-Logged :
    (n : ℕ) (kind : ZpaKind) (object : ZpaObject) (s : ZpaStore)
    → Logged n s
    → Logged n (upsert kind object s).1
unfolding upsert
upsert-Logged n kind object s h =
    statement_rule (λ r. Logged n r.1) (upsert_row kind object) s (λ e rest. h)
      (λ rest. ap length (upsert_row-changes kind object (after rest s)) ∙ h)

-- One more entry, unless the statement fails.
abbrev OneMore : ℕ → Result Text (Unit {0}) × ZpaStore → Type 0
OneMore n (err e, s) = Logged n s
OneMore n (ok u, s) = Logged (n + 1) s

record_change-OneMore :
    (n : ℕ) (c : RecordedChange) (s : ZpaStore) → Logged n s → OneMore n (record_change c s)
unfolding record_change
record_change-OneMore n c s h =
    statement_rule (OneMore n) _ s (λ e rest. h) (λ rest. omega (arith, h))

classify-disappeared :
    (json : Json) (previous : Option ObjectState) (before : Text) (object : ZpaObject)
    → classify json previous before object ≢ some disappeared
unfolding classify
classify-disappeared json none before object h = ground (arith, h)
classify-disappeared json (some previous) before object h = ground (arith, h)

abbrev StillTallied : ℕ → KindResult → Result Text KindResult × ZpaStore → Type 0
StillTallied n result (err e, s) = Tallied n result s
StillTallied n result (ok result', s) = Tallied n result' s

tally-counted :
    (change : ChangeType) (result : KindResult)
    → change ≢ disappeared
    → tally (counted change result) ≡ tally result + 1
tally-counted appeared result h = omega arith
tally-counted changed result h = omega arith
tally-counted disappeared result h = absurd (h refl)
tally-counted reappeared result h = omega arith

module _ (json : Json) (n : ℕ) (run : Uuid) (kind : ZpaKind) where
  log_object-StillTallied :
      (object : ZpaObject) (id : Uuid) (change : Option ChangeType) (before : Text)
      (result : KindResult) (s : ZpaStore)
      → change ≢ some disappeared
      → Tallied n result s
      → StillTallied n result (log_object json run kind object id change before result s)
  unfolding log_object
  log_object-StillTallied object id none before result s other h = h
  log_object-StillTallied object id (some change) before result s other h =
      call_rule (StillTallied n result)
        (record_change (change_of json run kind object id change before) s) (λ e s'. (err e, s'))
        (λ u s'. (ok (counted change result), s'))
        (λ e s' is. subst (OneMore (n + tally result)) is (
          record_change-OneMore (n + tally result) (change_of json run kind object id change before)
            s h))
        (λ u s' is.
          let more = subst (OneMore (n + tally result)) is (
            record_change-OneMore (n + tally result)
              (change_of json run kind object id change before) s h) in
          omega (arith, more, tally-counted change result (λ e. other (ap some e))))

  apply_object-StillTallied :
      (states : List ObjectState) (object : ZpaObject) (result : KindResult) (s : ZpaStore)
      → Tallied n result s
      → StillTallied n result (apply_object json run kind states object result s)
  unfolding apply_object
  apply_object-StillTallied states object result s h =
      let previous = known states object.zpa_id in
      call_rule (StillTallied n result) (payload_before previous kind object.zpa_id s)
        (λ e s1. (err e, s1))
        (λ before s1. elim (upsert kind object s1).0 [
          | err e ↦ (err e, (upsert kind object s1).1)
          | ok id ↦
              log_object json run kind object id (classify json previous before object) before
                result (upsert kind object s1).1
        ])
        (λ e s1 is.
          subst (λ r. Logged (n + tally result) r.1) is
            (payload_before-Logged (n + tally result) previous kind object.zpa_id s h))
        (λ before s1 is.
          let read =
            subst (λ r. Logged (n + tally result) r.1) is
              (payload_before-Logged (n + tally result) previous kind object.zpa_id s h) in
          call_rule (StillTallied n result) (upsert kind object s1) (λ e s2. (err e, s2))
            (λ id s2.
              log_object json run kind object id (classify json previous before object) before
                result s2)
            (λ e s2 is'.
              subst (λ r. Logged (n + tally result) r.1) is'
                (upsert-Logged (n + tally result) kind object s1 read))
            (λ id s2 is'.
              log_object-StillTallied object id (classify json previous before object) before result
                s2 (classify-disappeared json previous before object)
                (subst (λ r. Logged (n + tally result) r.1) is'
                  (upsert-Logged (n + tally result) kind object s1 read))))

  abbrev LoopTallied : Result KindResult KindResult × ZpaStore → Type 0
  LoopTallied (err result, s) = Tallied n result s
  LoopTallied (ok result, s) = Tallied n result s

  each_object-LoopTallied :
      (states : List ObjectState) (objects : List ZpaObject) (result : KindResult) (s : ZpaStore)
      → Tallied n result s
      → LoopTallied (each_object json run kind states objects result s)
  unfolding each_object
  each_object-LoopTallied states [] result s h = h
  each_object-LoopTallied states (object ∷ objects) result s h =
      call_rule LoopTallied (apply_object json run kind states object result s)
        (λ e s'. (err (fail result e), s'))
        (λ result' s'. each_object json run kind states objects result' s')
        (λ e s' is.
          subst (StillTallied n result) is (apply_object-StillTallied states object result s h))
        (λ result' s' is.
          each_object-LoopTallied states objects result' s'
            (subst (StillTallied n result) is (apply_object-StillTallied states object result s h)))

module _ (n : ℕ) (run : Uuid) (kind : ZpaKind) where
  abbrev PairTallied : KindResult × ZpaStore → Type 0
  PairTallied r = Tallied n r.0 r.1

  each_retired-PairTallied :
      (os : List CachedObject) (result : KindResult) (s : ZpaStore)
      → Tallied n result s
      → PairTallied (each_retired run kind os result s)
  unfolding each_retired
  each_retired-PairTallied [] result s h = h
  each_retired-PairTallied (o ∷ os) result s h =
      let result' : KindResult = record result {
        disappeared_count = result.disappeared_count + 1;
      } in
      call_rule PairTallied (record_change (gone_change run kind o) s) (λ e s'. (fail result e, s'))
        (λ u s'. each_retired run kind os result' s')
        (λ e s' is.
          subst (OneMore (n + tally result)) is
            (record_change-OneMore (n + tally result) (gone_change run kind o) s h))
        (λ u s' is. each_retired-PairTallied os result' s' (
          omega (
            arith,
            subst (OneMore (n + tally result)) is
                (record_change-OneMore (n + tally result) (gone_change run kind o) s h),
          )))

  retire_missing-Logged :
      (m : ℕ) (now : Time) (present : List ℕ) (s : ZpaStore)
      → Logged m s
      → Logged m (retire_missing now kind present s).1
  unfolding retire_missing
  retire_missing-Logged m now present s h =
      statement_rule (λ r. Logged m r.1) _ s (λ e rest. h) (λ rest. h)

  retire-PairTallied :
      (json : Json) (now : Time) (present : List ℕ) (r : Result KindResult KindResult × ZpaStore)
      → LoopTallied json n run kind r
      → PairTallied (retire now run kind present r)
  unfolding retire
  retire-PairTallied json now present (err result, s) h = h
  retire-PairTallied json now present (ok result, s) h =
      call_rule PairTallied (retire_missing now kind present s) (λ e s'. (fail result e, s'))
        (λ gone s'. each_retired run kind gone result s')
        (λ e s' is.
          subst (λ r. Logged (n + tally result) r.1) is
            (retire_missing-Logged (n + tally result) now present s h))
        (λ gone s' is. each_retired-PairTallied gone result s' (
          subst (λ r. Logged (n + tally result) r.1) is
            (retire_missing-Logged (n + tally result) now present s h)))

-- On every branch of the import of a kind, failures of the source and of the database included, the
-- log of changes has grown by exactly what the three counts of the result add up to.
pub sync_kind-tally :
    (json : Json) (source : Source) (now : Time) (run : Uuid) (kind : ZpaKind) (s : ZpaStore)
    → length (sync_kind json source now run kind s).1.changes
      ≡ length s.changes + tally (sync_kind json source now run kind s).0
unfolding sync_kind
sync_kind-tally json source now run kind s = elim (Result-cases (source kind)) [
  | inl (e, down) ↦ rw (sync_kind, down) (omega arith)
  | inr (objects, fetched) ↦
      let n = length s.changes in
      let result : KindResult = record (fresh_result kind) { fetched = length objects } in
      let start : Logged (n + tally result) s = omega arith in
      rw (sync_kind, fetched)
        (call_rule (PairTallied n run kind) (state_by_kind kind s) (λ e s'. (fail result e, s'))
          (λ states s'.
            retire now run kind (ids objects) (each_object json run kind states objects result s'))
          (λ e s' is.
            subst (λ r. Logged (n + tally result) r.1) is
              (state_by_kind-Logged (n + tally result) kind s start))
          (λ states s' is.
            retire-PairTallied n run kind json now (ids objects)
              (each_object json run kind states objects result s')
              (each_object-LoopTallied json n run kind states objects result s' (
                subst (λ r. Logged (n + tally result) r.1) is
                  (state_by_kind-Logged (n + tally result) kind s start)))))
]
