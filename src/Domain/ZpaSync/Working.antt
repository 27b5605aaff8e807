-- ===== src/Domain/ZpaSync/Working.antt =====
-- internal/domain/zpasync.go: the import of a kind while the source and the database work.
use tallox_go.Prelude.{
  ℕ, ◌+◌, Text, List, [], ◌∷◌, length, Option, none, some, nat_comparable, ◌≡◌, inl, inr, refl, ◌∙◌,
  arith, Option-cases,
}
use tallox_go.Prelude.Results.{Result, err, ok}
use tallox_go.Principal.{Uuid}
use tallox_go.Policy.Semester.{Time}
use tallox_go.Store.Rows.{find_row}
use tallox_go.Store.Zpa.{
  ZpaKind, kind_comparable, ZpaObject, CachedObject, ObjectState, ChangeType, appeared, changed,
  disappeared, reappeared, succeeded, RecordedChange, ZpaStore, statement, is_object, upsert_row,
  state_by_kind, payload_of, upsert, retire_missing, record_change,
}
use tallox_go.Domain.ZpaSync.{
  Json, Source, KindResult, fresh_result, fail, counted, known, ids, classify, payload_before,
  change_of, gone_change, log_object, apply_object, each_object, each_retired, retire, sync_kind,
}
use tallox_go.Store.Zpa.Rules.{after}
use tallox_go.Store.Zpa.{statement_of}

-- A call that succeeds, and after which the database still works.
abbrev Works : {A : Type 0} → Result Text A × ZpaStore → Type 0
Works (err e, s) = ⊥
Works (ok a, s) = s.outcomes ≡ []

-- A call of a working database that does not fail, and what the source does with its value.
works_rule :
    {A B : Type 0} (Q : B → Type 0) (m : Result Text A × ZpaStore) (f : Text → ZpaStore → B)
    (g : A → ZpaStore → B)
    → Works m
    → ((a : A) (s : ZpaStore) → s.outcomes ≡ [] → Q (g a s))
    → Q (elim m.0 [ err e ↦ f e m.1 | ok a ↦ g a m.1 ])
works_rule Q (err e, s) f g h k = absurd h
works_rule Q (ok a, s) f g h k = k a s h

statement_of-Works :
    {A : Type 0} (outs : List (Option Text)) (act : ZpaStore → A × ZpaStore) (s : ZpaStore)
    → outs ≡ []
    → ((t : ZpaStore) → t.outcomes ≡ [] → (act t).1.outcomes ≡ [])
    → Works (statement_of outs act s)
unfolding statement_of
statement_of-Works [] act s h keeps = keeps (after [] s) refl
statement_of-Works (o ∷ outs) act s h keeps = absurd (ground (arith, h))

statement-Works :
    {A : Type 0} (act : ZpaStore → A × ZpaStore) (s : ZpaStore)
    → s.outcomes ≡ []
    → ((t : ZpaStore) → t.outcomes ≡ [] → (act t).1.outcomes ≡ [])
    → Works (statement act s)
unfolding statement
statement-Works act s h keeps = statement_of-Works s.outcomes act s h keeps

state_by_kind-Works :
    (kind : ZpaKind) (s : ZpaStore) → s.outcomes ≡ [] → Works (state_by_kind kind s)
unfolding state_by_kind
state_by_kind-Works kind s h = statement-Works _ s h (λ t k. k)

payload_before-Works :
    (previous : Option ObjectState) (kind : ZpaKind) (i : ℕ) (s : ZpaStore)
    → s.outcomes ≡ []
    → Works (payload_before previous kind i s)
unfolding payload_before payload_of
payload_before-Works none kind i s h = h
payload_before-Works (some previous) kind i s h = statement-Works _ s h (λ t k. k)

record_change-Works :
    (c : RecordedChange) (s : ZpaStore) → s.outcomes ≡ [] → Works (record_change c s)
unfolding record_change
record_change-Works c s h = statement-Works _ s h (λ t k. k)

retire_missing-Works :
    (now : Time) (kind : ZpaKind) (present : List ℕ) (s : ZpaStore)
    → s.outcomes ≡ []
    → Works (retire_missing now kind present s)
unfolding retire_missing
retire_missing-Works now kind present s h = statement-Works _ s h (λ t k. k)

upsert_row-outcomes :
    (kind : ZpaKind) (object : ZpaObject) (s : ZpaStore)
    → (upsert_row kind object s).1.outcomes ≡ s.outcomes
unfolding upsert_row
upsert_row-outcomes kind object s =
    elim (Option-cases (find_row (is_object kind object.zpa_id) s.objects)) [
      | inl missing ↦ rw (upsert_row, missing) refl
      | inr (o, there) ↦ rw (upsert_row, there) refl
    ]

upsert-Works :
    (kind : ZpaKind) (object : ZpaObject) (s : ZpaStore)
    → s.outcomes ≡ []
    → Works (upsert kind object s)
unfolding upsert
upsert-Works kind object s h =
    statement-Works (upsert_row kind object) s h (λ t k. upsert_row-outcomes kind object t ∙ k)

-- A result that has not failed, of a working database.
abbrev Unfailed : Result Text KindResult × ZpaStore → Type 0
Unfailed (err e, s) = ⊥
Unfailed (ok result, s) = (result.status ≡ succeeded) × (s.outcomes ≡ [])

counted-status :
    (change : ChangeType) (result : KindResult) → (counted change result).status ≡ result.status
counted-status appeared result = refl
counted-status changed result = refl
counted-status disappeared result = refl
counted-status reappeared result = refl

module _ (json : Json) (run : Uuid) (kind : ZpaKind) where
  log_object-Unfailed :
      (object : ZpaObject) (id : Uuid) (change : Option ChangeType) (before : Text)
      (result : KindResult) (s : ZpaStore)
      → result.status ≡ succeeded
      → s.outcomes ≡ []
      → Unfailed (log_object json run kind object id change before result s)
  unfolding log_object
  log_object-Unfailed object id none before result s fine h = (fine, h)
  log_object-Unfailed object id (some change) before result s fine h =
      works_rule Unfailed (record_change (change_of json run kind object id change before) s)
        (λ e s'. (err e, s')) (λ u s'. (ok (counted change result), s'))
        (record_change-Works (change_of json run kind object id change before) s h)
        (λ u s' h'. (counted-status change result ∙ fine, h'))

  apply_object-Unfailed :
      (states : List ObjectState) (object : ZpaObject) (result : KindResult) (s : ZpaStore)
      → result.status ≡ succeeded
      → s.outcomes ≡ []
      → Unfailed (apply_object json run kind states object result s)
  unfolding apply_object
  apply_object-Unfailed states object result s fine h =
      let previous = known states object.zpa_id in
      works_rule Unfailed (payload_before previous kind object.zpa_id s) (λ e s1. (err e, s1))
        (λ before s1. elim (upsert kind object s1).0 [
          | err e ↦ (err e, (upsert kind object s1).1)
          | ok id ↦
              log_object json run kind object id (classify json previous before object) before
                result (upsert kind object s1).1
        ])
        (payload_before-Works previous kind object.zpa_id s h)
        (λ before s1 h1.
          works_rule Unfailed (upsert kind object s1) (λ e s2. (err e, s2))
            (λ id s2.
              log_object json run kind object id (classify json previous before object) before
                result s2)
            (upsert-Works kind object s1 h1)
            (λ id s2 h2.
              log_object-Unfailed object id (classify json previous before object) before result s2
                fine h2))

  abbrev LoopUnfailed : Result KindResult KindResult × ZpaStore → Type 0
  LoopUnfailed (err result, s) = ⊥
  LoopUnfailed (ok result, s) = (result.status ≡ succeeded) × (s.outcomes ≡ [])

  unfailed_rule :
      {B : Type 0} (Q : B → Type 0) (m : Result Text KindResult × ZpaStore)
      (f : Text → ZpaStore → B) (g : KindResult → ZpaStore → B)
      → Unfailed m
      → ((a : KindResult) (s : ZpaStore) → a.status ≡ succeeded → s.outcomes ≡ [] → Q (g a s))
      → Q (elim m.0 [ err e ↦ f e m.1 | ok a ↦ g a m.1 ])
  unfailed_rule Q (err e, s) f g h k = absurd h
  unfailed_rule Q (ok a, s) f g (fine, h) k = k a s fine h

  each_object-LoopUnfailed :
      (states : List ObjectState) (objects : List ZpaObject) (result : KindResult) (s : ZpaStore)
      → result.status ≡ succeeded
      → s.outcomes ≡ []
      → LoopUnfailed (each_object json run kind states objects result s)
  unfolding each_object
  each_object-LoopUnfailed states [] result s fine h = (fine, h)
  each_object-LoopUnfailed states (object ∷ objects) result s fine h =
      unfailed_rule LoopUnfailed (apply_object json run kind states object result s)
        (λ e s'. (err (fail result e), s'))
        (λ result' s'. each_object json run kind states objects result' s')
        (apply_object-Unfailed states object result s fine h)
        (λ result' s' fine' h'. each_object-LoopUnfailed states objects result' s' fine' h')

  each_retired-succeeded :
      (os : List CachedObject) (result : KindResult) (s : ZpaStore)
      → result.status ≡ succeeded
      → s.outcomes ≡ []
      → (each_retired run kind os result s).0.status ≡ succeeded
  unfolding each_retired
  each_retired-succeeded [] result s fine h = fine
  each_retired-succeeded (o ∷ os) result s fine h =
      let result' : KindResult = record result {
        disappeared_count = result.disappeared_count + 1;
      } in
      works_rule (λ (r : KindResult × ZpaStore). r.0.status ≡ succeeded)
        (record_change (gone_change run kind o) s) (λ e s'. (fail result e, s'))
        (λ u s'. each_retired run kind os result' s')
        (record_change-Works (gone_change run kind o) s h)
        (λ u s' h'. each_retired-succeeded os result' s' fine h')

  retire-succeeded :
      (now : Time) (present : List ℕ) (r : Result KindResult KindResult × ZpaStore)
      → LoopUnfailed r
      → (retire now run kind present r).0.status ≡ succeeded
  unfolding retire
  retire-succeeded now present (err result, s) h = absurd h
  retire-succeeded now present (ok result, s) (fine, h) =
      works_rule (λ (r : KindResult × ZpaStore). r.0.status ≡ succeeded)
        (retire_missing now kind present s) (λ e s'. (fail result e, s'))
        (λ gone s'. each_retired run kind gone result s')
        (retire_missing-Works now kind present s h)
        (λ gone s' h'. each_retired-succeeded gone result s' fine h')

-- Where the source answers and no statement of the database fails, the import of a kind succeeds.
pub sync_kind-succeeded :
    (json : Json) (source : Source) (now : Time) (run : Uuid) (kind : ZpaKind)
    (objects : List ZpaObject) (s : ZpaStore)
    → source kind ≡ ok objects
    → s.outcomes ≡ []
    → (sync_kind json source now run kind s).0.status ≡ succeeded
unfolding sync_kind
sync_kind-succeeded json source now run kind objects s fetched h =
    let result : KindResult = record (fresh_result kind) { fetched = length objects } in
    rw (sync_kind, fetched)
      (works_rule (λ (r : KindResult × ZpaStore). r.0.status ≡ succeeded) (state_by_kind kind s)
        (λ e s'. (fail result e, s'))
        (λ states s'.
          retire now run kind (ids objects) (each_object json run kind states objects result s'))
        (state_by_kind-Works kind s h)
        (λ states s' h'.
          retire-succeeded json run kind now (ids objects)
            (each_object json run kind states objects result s')
            (each_object-LoopUnfailed json run kind states objects result s' refl h')))
