-- ===== src/Domain/ZpaSync/Cache.antt =====
-- internal/domain/zpasync.go: which objects of the cache the import of a kind may retire.
use mathlib.Core.Path.{subst}
use tallox_go.Prelude.{
  ℕ, ◌+◌, Text, List, [], ◌∷◌, length, contains, Option, none, some, true, nat_comparable, ◌≡◌, inl,
  inr,
}
use tallox_go.Prelude.Results.{Result, err, ok, Result-cases}
use tallox_go.Principal.{Uuid}
use tallox_go.Policy.Semester.{Time}
use tallox_go.Store.Zpa.{
  ZpaKind, kind_comparable, ZpaObject, CachedObject, ObjectState, ChangeType, RecordedChange,
  ZpaStore, upsert_row, state_by_kind, payload_of, upsert, retire_missing, record_change,
}
use tallox_go.Domain.ZpaSync.{
  Json, Source, KindResult, fresh_result, fail, counted, known, ids, classify, payload_before,
  change_of, gone_change, log_object, apply_object, each_object, each_retired, retire, sync_kind,
}
use tallox_go.Store.Zpa.Rules.{
  after, statement_rule, call_rule, Live, upsert_row-Live, retired-Live,
}

-- Statements that leave the objects of the cache alone.
module _ (P : List CachedObject → Type 0) where
  pub state_by_kind_keeps :
      (kind : ZpaKind) (s : ZpaStore) → P s.objects → P (state_by_kind kind s).1.objects
  unfolding state_by_kind
  state_by_kind_keeps kind s h = statement_rule (λ r. P r.1.objects) _ s (λ e rest. h) (λ rest. h)

  pub payload_before_keeps :
      (previous : Option ObjectState) (kind : ZpaKind) (zpa_id : ℕ) (s : ZpaStore)
      → P s.objects
      → P (payload_before previous kind zpa_id s).1.objects
  unfolding payload_before payload_of
  payload_before_keeps none kind zpa_id s h = h
  payload_before_keeps (some previous) kind zpa_id s h =
      statement_rule (λ r. P r.1.objects) _ s (λ e rest. h) (λ rest. h)

  pub record_change_keeps :
      (c : RecordedChange) (s : ZpaStore) → P s.objects → P (record_change c s).1.objects
  unfolding record_change
  record_change_keeps c s h = statement_rule (λ r. P r.1.objects) _ s (λ e rest. h) (λ rest. h)

  pub log_object_keeps :
      (json : Json) (run : Uuid) (kind : ZpaKind) (object : ZpaObject) (id : Uuid)
      (change : Option ChangeType) (before : Text) (result : KindResult) (s : ZpaStore)
      → P s.objects
      → P (log_object json run kind object id change before result s).1.objects
  unfolding log_object
  log_object_keeps json run kind object id none before result s h = h
  log_object_keeps json run kind object id (some change) before result s h =
      call_rule (λ (r : Result Text KindResult × ZpaStore). P r.1.objects)
        (record_change (change_of json run kind object id change before) s) (λ e s'. (err e, s'))
        (λ u s'. (ok (counted change result), s'))
        (λ e s' is.
          subst (λ r. P r.1.objects) is
            (record_change_keeps (change_of json run kind object id change before) s h))
        (λ u s' is.
          subst (λ r. P r.1.objects) is
            (record_change_keeps (change_of json run kind object id change before) s h))

  pub each_retired_keeps :
      (run : Uuid) (kind : ZpaKind) (os : List CachedObject) (result : KindResult) (s : ZpaStore)
      → P s.objects
      → P (each_retired run kind os result s).1.objects
  unfolding each_retired
  each_retired_keeps run kind [] result s h = h
  each_retired_keeps run kind (o ∷ os) result s h =
      let result' : KindResult = record result {
        disappeared_count = result.disappeared_count + 1;
      } in
      call_rule (λ (r : KindResult × ZpaStore). P r.1.objects)
        (record_change (gone_change run kind o) s) (λ e s'. (fail result e, s'))
        (λ u s'. each_retired run kind os result' s')
        (λ e s' is.
          subst (λ r. P r.1.objects) is (record_change_keeps (gone_change run kind o) s h))
        (λ u s' is.
          each_retired_keeps run kind os result' s'
            (subst (λ r. P r.1.objects) is (record_change_keeps (gone_change run kind o) s h)))

-- What holds of the cache after a call that fails, and after one that does not.
abbrev pub Ends :
    {A : Type 0}
    → (List CachedObject → Type 0)
    → (List CachedObject → Type 0)
    → Result Text A × ZpaStore
    → Type 0
Ends F Q (err e, s) = F s.objects
Ends F Q (ok a, s) = Q s.objects

-- One round of the loop takes the cache from `P` to `Q`, and to `F` if it fails.
module _ (P Q F : List CachedObject → Type 0) (early : (os : List CachedObject) → P os → F os)
    (late : (os : List CachedObject) → Q os → F os) where
  upsert-Ends :
      (kind : ZpaKind) (object : ZpaObject) (s : ZpaStore)
      → P s.objects
      → ((t : ZpaStore) → P t.objects → Q (upsert_row kind object t).1.objects)
      → Ends F Q (upsert kind object s)
  unfolding upsert
  upsert-Ends kind object s h step =
      statement_rule (Ends F Q) (upsert_row kind object) s (λ e rest. early s.objects h)
        (λ rest. step (after rest s) h)

  of_kept : (r : Result Text KindResult × ZpaStore) → Q r.1.objects → Ends F Q r
  of_kept (err e, s) h = late s.objects h
  of_kept (ok x, s) h = h

  pub apply_object-Ends :
      (json : Json) (run : Uuid) (kind : ZpaKind) (states : List ObjectState) (object : ZpaObject)
      (result : KindResult) (s : ZpaStore)
      → P s.objects
      → ((t : ZpaStore) → P t.objects → Q (upsert_row kind object t).1.objects)
      → Ends F Q (apply_object json run kind states object result s)
  unfolding apply_object
  apply_object-Ends json run kind states object result s h step =
      let previous = known states object.zpa_id in
      call_rule (Ends F Q) (payload_before previous kind object.zpa_id s) (λ e s1. (err e, s1))
        (λ before s1. elim (upsert kind object s1).0 [
          | err e ↦ (err e, (upsert kind object s1).1)
          | ok id ↦
              log_object json run kind object id (classify json previous before object) before
                result (upsert kind object s1).1
        ])
        (λ e s1 is.
          early s1.objects (
            subst (λ r. P r.1.objects) is (payload_before_keeps P previous kind object.zpa_id s h)))
        (λ before s1 is.
          let read =
            subst (λ r. P r.1.objects) is
              (payload_before_keeps P previous kind object.zpa_id s h) in
          call_rule (Ends F Q) (upsert kind object s1) (λ e s2. (err e, s2))
            (λ id s2.
              log_object json run kind object id (classify json previous before object) before
                result s2)
            (λ e s2 is'. subst (Ends F Q) is' (upsert-Ends kind object s1 read step))
            (λ id s2 is'.
              of_kept
                (log_object json run kind object id (classify json previous before object) before
                  result s2)
                (log_object_keeps Q json run kind object id (classify json previous before object)
                  before result s2 (subst (Ends F Q) is' (upsert-Ends kind object s1 read step)))))

-- What is live stays so, unless a fetch of its kind does not mention it.
module _ (kind l : ZpaKind) (i : ℕ) where
  abbrev Stays : List CachedObject → Type 0
  Stays os = Live l i os

  pub each_object-Live :
      (json : Json) (run : Uuid) (states : List ObjectState) (objects : List ZpaObject)
      (result : KindResult) (s : ZpaStore)
      → Live l i s.objects
      → Live l i (each_object json run kind states objects result s).1.objects
  unfolding each_object
  each_object-Live json run states [] result s h = h
  each_object-Live json run states (object ∷ objects) result s h =
      let round =
        apply_object-Ends Stays Stays Stays (λ os x. x) (λ os x. x) json run kind states object
          result s h (λ t x. upsert_row-Live kind l i object t x) in
      call_rule (λ (r : Result KindResult KindResult × ZpaStore). Live l i r.1.objects)
        (apply_object json run kind states object result s) (λ e s'. (err (fail result e), s'))
        (λ result' s'. each_object json run kind states objects result' s')
        (λ e s' is. subst (Ends Stays Stays) is round)
        (λ result' s' is.
          each_object-Live json run states objects result' s' (subst (Ends Stays Stays) is round))

  pub retire_missing-Live :
      (now : Time) (present : List ℕ) (s : ZpaStore)
      → (l ≡ kind → contains present i ≡ true)
      → Live l i s.objects
      → Live l i (retire_missing now kind present s).1.objects
  unfolding retire_missing
  retire_missing-Live now present s mentioned h =
      statement_rule (λ (r : Result Text (List CachedObject) × ZpaStore). Live l i r.1.objects) _ s
        (λ e rest. h) (λ rest. retired-Live now kind l present i s.objects h mentioned)

  retire-Live :
      (now : Time) (run : Uuid) (present : List ℕ) (r : Result KindResult KindResult × ZpaStore)
      → (l ≡ kind → contains present i ≡ true)
      → Live l i r.1.objects
      → Live l i (retire now run kind present r).1.objects
  unfolding retire
  retire-Live now run present (err result, s) mentioned h = h
  retire-Live now run present (ok result, s) mentioned h =
      call_rule (λ (r : KindResult × ZpaStore). Live l i r.1.objects)
        (retire_missing now kind present s) (λ e s'. (fail result e, s'))
        (λ gone s'. each_retired run kind gone result s')
        (λ e s' is.
          subst (λ r. Live l i r.1.objects) is (retire_missing-Live now present s mentioned h))
        (λ gone s' is.
          each_retired_keeps Stays run kind gone result s'
            (subst (λ r. Live l i r.1.objects) is (retire_missing-Live now present s mentioned h)))

-- However the import of a kind ends, an object that was there is gone afterwards only if it is of that
-- kind and the source has answered with a list that does not mention it: a fetch that fails retires
-- nothing, and no kind retires an object of another.
pub sync_kind-Live :
    (json : Json) (source : Source) (now : Time) (run : Uuid) (kind l : ZpaKind) (i : ℕ)
    (s : ZpaStore)
    → Live l i s.objects
    → (l ≡ kind
        → (objects : List ZpaObject) → source kind ≡ ok objects
        → contains (ids objects) i ≡ true)
    → Live l i (sync_kind json source now run kind s).1.objects
unfolding sync_kind
sync_kind-Live json source now run kind l i s live mentioned = elim (Result-cases (source kind)) [
  | inl (e, down) ↦ rw (sync_kind, down) live
  | inr (objects, fetched) ↦
      let result : KindResult = record (fresh_result kind) { fetched = length objects } in
      rw (sync_kind, fetched)
        (call_rule (λ (r : KindResult × ZpaStore). Live l i r.1.objects) (state_by_kind kind s)
          (λ e s'. (fail result e, s'))
          (λ states s'.
            retire now run kind (ids objects) (each_object json run kind states objects result s'))
          (λ e s' is.
            subst (λ r. Live l i r.1.objects) is
              (state_by_kind_keeps (λ os. Live l i os) kind s live))
          (λ states s' is.
            retire-Live kind l i now run (ids objects)
              (each_object json run kind states objects result s')
              (λ same. mentioned same objects fetched)
              (each_object-Live kind l i json run states objects result s' (
                subst (λ r. Live l i r.1.objects) is
                  (state_by_kind_keeps (λ os. Live l i os) kind s live)))))
]
