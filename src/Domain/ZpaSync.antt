-- ===== src/Domain/ZpaSync.antt =====
-- internal/domain/zpasync.go and zpa.go: the import of the examination office's objects. `source` is
-- what the interface of that office answers in a run, `json` what encoding/json makes of a text, `now`
-- the database's clock.
pub mod Tally
pub mod Cache
pub mod Current
pub mod Working
use tallox_go.Prelude.{
  ℕ, ◌+◌, Text, text_lt, text_comparable, List, [], ◌∷◌, ◌++◌, map, length, any, Option, none, some,
  Bool, true, false, not, ◌&&◌, ◌||◌, ◌==◌, nat_comparable, is_empty, if◌then◌else◌,
}
use tallox_go.Prelude.Results.{Result, err, ok}
use tallox_go.Principal.{Uuid}
use tallox_go.Policy.Semester.{Time}
use tallox_go.Store.Rows.{find_row, keep_rows}
use tallox_go.Store.Zpa.{
  ZpaKind, spo, basket, teacher, module_kind, msba, ZpaObject, CachedObject, ObjectState,
  ChangeType, appeared, changed, disappeared, reappeared, RecordedChange, SyncStatus, succeeded,
  partly, failed, RunKind, ZpaStore, Zpa, state_by_kind, payload_of, upsert, retire_missing,
  record_change, record_run_kind,
}

abbrev pub all_zpa_kinds : List ZpaKind
all_zpa_kinds = spo ∷ basket ∷ teacher ∷ module_kind ∷ msba ∷ []

-- A text read and written again, and the members of an object, each key once; `none` where it does not parse.
pub record Json : Type 0 where
  pub canonical : Text → Option Text
  pub members : Text → Option (List (Text × Text))

pub record KindResult : Type 0 where
  pub kind : ZpaKind
  pub status : SyncStatus
  pub fetched : ℕ
  pub error : Text
  pub appeared_count : ℕ
  pub changed_count : ℕ
  pub disappeared_count : ℕ

abbrev pub fresh_result : ZpaKind → KindResult
fresh_result kind = record {
  kind = kind;
  status = succeeded;
  fetched = 0;
  error = [];
  appeared_count = 0;
  changed_count = 0;
  disappeared_count = 0;
}

-- `fail`: the counts are kept.
abbrev pub fail : KindResult → Text → KindResult
fail result e = record result { status = failed; error = e }

abbrev pub run_kind_of : KindResult → RunKind
run_kind_of result = record {
  kind = result.kind;
  status = result.status;
  fetched = result.fetched;
  error = result.error;
}

abbrev pub counted : ChangeType → KindResult → KindResult
counted appeared result = record result { appeared_count = result.appeared_count + 1 }
counted reappeared result = record result { appeared_count = result.appeared_count + 1 }
counted changed result = record result { changed_count = result.changed_count + 1 }
counted disappeared result = result

abbrev pub known : List ObjectState → ℕ → Option ObjectState
known states zpa_id = find_row (λ (state : ObjectState). state.zpa_id == zpa_id) states

insert_sorted : Text → List Text → List Text
insert_sorted k [] = k ∷ []
insert_sorted k (j ∷ ks) =
    let rest = insert_sorted k ks in if text_lt j k then j ∷ rest else k ∷ j ∷ ks

-- `sort.Strings`.
unfoldable pub sort_texts : List Text → List Text
unfolding insert_sorted text_lt
sort_texts [] = []
sort_texts (k ∷ ks) = insert_sorted k (sort_texts ks)

-- The payload is read back only for an object that was seen before.
unfoldable pub payload_before : Option ObjectState → ZpaKind → ℕ → Zpa Text
payload_before none kind zpa_id s = (ok [], s)
payload_before (some previous) kind zpa_id s = payload_of kind zpa_id s

module _ (json : Json) where
  unfoldable pub same_json : Text → Text → Bool
  same_json a b = elim (json.canonical a) [
    | none ↦ false
    | some ac ↦ elim (json.canonical b) [ none ↦ false | some bc ↦ ac == bc ]
  ]

  abbrev value_of : Text → List (Text × Text) → Option Text
  value_of key [] = none
  value_of key ((k, v) ∷ ms) = if k == key then some v else value_of key ms

  differs : List (Text × Text) → Text × Text → Bool
  unfolding same_json
  differs b (key, before) = elim (value_of key b) [
    | none ↦ true
    | some after ↦ not (same_json before after)
  ]

  is_new : List (Text × Text) → Text × Text → Bool
  is_new a (key, value) = elim (value_of key a) [ none ↦ true | some before ↦ false ]

  keys : List (Text × Text) → List Text
  keys ms = map (λ (m : Text × Text). m.0) ms

  unfoldable pub changed_keys_of : Text → Text → List Text
  unfolding differs is_new keys keep_rows sort_texts
  changed_keys_of before after = elim (json.members before) [
    | none ↦ [] ∷ []
    | some a ↦ elim (json.members after) [
      | none ↦ [] ∷ []
      | some b ↦ sort_texts (keys (keep_rows (differs b) a) ++ keys (keep_rows (is_new a) b))
    ]
  ]

  unfoldable pub classify : Option ObjectState → Text → ZpaObject → Option ChangeType
  unfolding same_json
  classify none before object = some appeared
  classify (some previous) before object =
      if previous.is_gone
      then some reappeared
      else if not (same_json before object.payload)
      then some changed
      else none

  unfoldable pub changed_keys_for : ChangeType → Text → Text → List Text
  unfolding changed_keys_of
  changed_keys_for changed before after = changed_keys_of before after
  changed_keys_for _ before after = []

  pub change_of : Uuid → ZpaKind → ZpaObject → Uuid → ChangeType → Text → RecordedChange
  unfolding changed_keys_for
  change_of run kind object id change before = record {
    run_id = run;
    object_id = id;
    kind = kind;
    zpa_id = object.zpa_id;
    label = object.label;
    change = change;
    payload_before = before;
    payload_after = object.payload;
    changed_keys = changed_keys_for change before object.payload;
  }

  -- The log of one object, after it was stored.
  unfoldable pub log_object :
      Uuid → ZpaKind → ZpaObject → Uuid → Option ChangeType → Text → KindResult → Zpa KindResult
  unfolding change_of
  log_object run kind object id none before result s = (ok result, s)
  log_object run kind object id (some change) before result s =
      let (r, s') = record_change (change_of run kind object id change before) s in
      elim r [ err e ↦ (err e, s') | ok _ ↦ (ok (counted change result), s') ]

  -- One round of the loop over what was fetched.
  unfoldable pub apply_object :
      Uuid → ZpaKind → List ObjectState → ZpaObject → KindResult → Zpa KindResult
  unfolding payload_before classify log_object
  apply_object run kind states object result s =
      let previous = known states object.zpa_id in
      let (r, s1) = payload_before previous kind object.zpa_id s in
      elim r [
        | err e ↦ (err e, s1)
        | ok before ↦
            let (r', s2) = upsert kind object s1 in
            elim r' [
              | err e ↦ (err e, s2)
              | ok id ↦
                  log_object run kind object id (classify previous before object) before result s2
            ]
      ]

  -- The loop; `err` carries the result that is returned early.
  unfoldable pub each_object :
      Uuid
      → ZpaKind
      → List ObjectState
      → List ZpaObject
      → KindResult
      → ZpaStore
      → Result KindResult KindResult × ZpaStore
  unfolding apply_object
  each_object run kind states [] result s = (ok result, s)
  each_object run kind states (object ∷ objects) result s =
      let (r, s') = apply_object run kind states object result s in
      elim r [
        | err e ↦ (err (fail result e), s')
        | ok result' ↦ each_object run kind states objects result' s'
      ]

pub gone_change : Uuid → ZpaKind → CachedObject → RecordedChange
gone_change run kind o = record {
  run_id = run;
  object_id = o.id;
  kind = kind;
  zpa_id = o.zpa_id;
  label = o.label;
  change = disappeared;
  payload_before = o.payload;
  payload_after = [];
  changed_keys = [];
}

-- The loop over what has disappeared.
unfoldable pub each_retired :
    Uuid → ZpaKind → List CachedObject → KindResult → ZpaStore → KindResult × ZpaStore
unfolding gone_change
each_retired run kind [] result s = (result, s)
each_retired run kind (o ∷ os) result s =
    let (r, s') = record_change (gone_change run kind o) s in
    elim r [
      | err e ↦ (fail result e, s')
      | ok _ ↦
          each_retired run kind os
            (record result { disappeared_count = result.disappeared_count + 1 }) s'
    ]

unfoldable pub retire :
    Time → Uuid → ZpaKind → List ℕ → Result KindResult KindResult × ZpaStore → KindResult × ZpaStore
unfolding each_retired
retire now run kind present (err result, s) = (result, s)
retire now run kind present (ok result, s) =
    let (r, s') = retire_missing now kind present s in
    elim r [ err e ↦ (fail result e, s') | ok gone ↦ each_retired run kind gone result s' ]

abbrev pub Source : Type 0
Source = ZpaKind → Result Text (List ZpaObject)

abbrev pub ids : List ZpaObject → List ℕ
ids objects = map (λ (o : ZpaObject). o.zpa_id) objects

unfoldable pub sync_kind : Json → Source → Time → Uuid → ZpaKind → ZpaStore → KindResult × ZpaStore
unfolding each_object retire
sync_kind json source now run kind s = elim (source kind) [
  | err e ↦ (fail (fresh_result kind) e, s)
  | ok objects ↦
      let result : KindResult = record (fresh_result kind) { fetched = length objects } in
      let (r, s') = state_by_kind kind s in
      elim r [
        | err e ↦ (fail result e, s')
        | ok states ↦
            retire now run kind (ids objects) (each_object json run kind states objects result s')
      ]
]
