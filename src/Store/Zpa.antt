-- ===== src/Store/Zpa.antt =====
-- internal/store/zpa.go over the statements of db/queries/zpa.sql: the cache of the examination
-- office's objects, the runs of the import and the log of changes. What the statements to come end in
-- is part of the state: `none` for success, or the message of an error; after the list all succeed.
pub mod Rules
use tallox_go.Prelude.{
  ℕ, ◌+◌, Text, List, [], ◌∷◌, Option, none, some, Bool, true, false, not, ◌&&◌, ◌==◌,
  nat_comparable, contains, is_empty, if◌then◌else◌, nat_eq, Comparable, ◌≡◌, ◌↔◌, arith,
}
use tallox_go.Prelude.Results.{Result, err, ok}
use tallox_go.Principal.{Uuid}
use tallox_go.Policy.Semester.{Time}
use tallox_go.Store.Rows.{find_row, keep_rows, set_rows}

pub data ZpaKind : Type 0 where
  spo basket teacher module_kind msba : ZpaKind

abbrev place : ZpaKind → ℕ
place spo = 0
place basket = 1
place teacher = 2
place module_kind = 3
place msba = 4

abbrev pub kind_eq : ZpaKind → ZpaKind → Bool
kind_eq k l = nat_eq (place k) (place l)

pub kind_eq_law : (k l : ZpaKind) → (kind_eq k l ≡ true) ↔ (k ≡ l)
kind_eq_law k l = ground arith

instance abbrev pub kind_comparable : Comparable ZpaKind
kind_comparable = record { eq = kind_eq; eq_law = kind_eq_law }

-- The numbers of the examination office are only compared.
pub record ZpaObject : Type 0 where
  pub zpa_id : ℕ
  pub payload : Text
  pub label : Text

pub record CachedObject : Type 0 where
  pub id : Uuid
  pub kind : ZpaKind
  pub zpa_id : ℕ
  pub payload : Text
  pub label : Text
  pub gone_at : Option Time

pub record ObjectState : Type 0 where
  pub zpa_id : ℕ
  pub is_gone : Bool

pub data ChangeType : Type 0 where
  appeared changed disappeared reappeared : ChangeType

pub record RecordedChange : Type 0 where
  pub run_id : Uuid
  pub object_id : Uuid
  pub kind : ZpaKind
  pub zpa_id : ℕ
  pub label : Text
  pub change : ChangeType
  pub payload_before : Text
  pub payload_after : Text
  pub changed_keys : List Text

pub data SyncStatus : Type 0 where
  running succeeded partly failed : SyncStatus

pub record RunKind : Type 0 where
  pub kind : ZpaKind
  pub status : SyncStatus
  pub fetched : ℕ
  pub error : Text

pub record ZpaStore : Type 0 where
  pub outcomes : List (Option Text)
  pub next_id : Uuid
  pub objects : List CachedObject
  pub changes : List RecordedChange
  pub run_kinds : List (Uuid × RunKind)

abbrev pub Zpa : Type 0 → Type 0
Zpa A = ZpaStore → Result Text A × ZpaStore

-- A statement of the database.
unfoldable pub statement_of : {A : Type 0} → List (Option Text) → (ZpaStore → A × ZpaStore) → Zpa A
statement_of [] act s = let (a, s') = act (record s { outcomes = [] }) in (ok a, s')
statement_of (none ∷ rest) act s = let (a, s') = act (record s { outcomes = rest }) in (ok a, s')
statement_of (some e ∷ rest) act s = (err e, record s { outcomes = rest })

unfoldable pub statement : {A : Type 0} → (ZpaStore → A × ZpaStore) → Zpa A
unfolding statement_of
statement act s = statement_of s.outcomes act s

abbrev pub is_object : ZpaKind → ℕ → CachedObject → Bool
is_object kind zpa_id o = o.kind == kind && o.zpa_id == zpa_id

abbrev pub is_gone : CachedObject → Bool
is_gone o = elim o.gone_at [ none ↦ false | some t ↦ true ]

states_of : ZpaKind → List CachedObject → List ObjectState
states_of kind [] = []
states_of kind (o ∷ os) =
    let rest = states_of kind os in
    if o.kind == kind then record { zpa_id = o.zpa_id; is_gone = is_gone o } ∷ rest else rest

unfoldable pub state_by_kind : ZpaKind → Zpa (List ObjectState)
unfolding statement states_of
state_by_kind kind = statement (λ s. (states_of kind s.objects, s))

-- Of an object that is not there the payload is nil.
abbrev pub payload_or_nil : Option CachedObject → Text
payload_or_nil none = []
payload_or_nil (some o) = o.payload

unfoldable pub payload_of : ZpaKind → ℕ → Zpa Text
unfolding statement find_row
payload_of kind zpa_id =
    statement (λ s. (payload_or_nil (find_row (is_object kind zpa_id) s.objects), s))

abbrev pub seen_again : ZpaObject → CachedObject → CachedObject
seen_again object o = record o { payload = object.payload; label = object.label; gone_at = none }

abbrev pub new_object : Uuid → ZpaKind → ZpaObject → CachedObject
new_object id kind object = record {
  id = id;
  kind = kind;
  zpa_id = object.zpa_id;
  payload = object.payload;
  label = object.label;
  gone_at = none;
}

unfoldable pub upsert_row : ZpaKind → ZpaObject → ZpaStore → Uuid × ZpaStore
unfolding find_row set_rows
upsert_row kind object s = elim (find_row (is_object kind object.zpa_id) s.objects) [
  | none ↦ (
    s.next_id,
    record s { next_id = s.next_id + 1; objects = new_object s.next_id kind object ∷ s.objects },
  )
  | some o ↦ (
    o.id,
    record s { objects = set_rows (is_object kind object.zpa_id) (seen_again object) s.objects },
  )
]

unfoldable pub upsert : ZpaKind → ZpaObject → Zpa Uuid
unfolding statement upsert_row
upsert kind object = statement (upsert_row kind object)

-- What a fetch did not mention.
abbrev pub is_missing : ZpaKind → List ℕ → CachedObject → Bool
is_missing kind present o = o.kind == kind && (not (is_gone o) && not (contains present o.zpa_id))

abbrev pub retired : Time → CachedObject → CachedObject
retired now o = record o { gone_at = some now }

unfoldable pub retire_missing : Time → ZpaKind → List ℕ → Zpa (List CachedObject)
unfolding statement keep_rows set_rows
retire_missing now kind present = statement (λ s. (
  keep_rows (is_missing kind present) s.objects,
  record s { objects = set_rows (is_missing kind present) (retired now) s.objects },
))

unfoldable pub record_change : RecordedChange → Zpa (Unit {0})
unfolding statement
record_change change = statement (λ s. (tt, record s { changes = change ∷ s.changes }))

unfoldable pub record_run_kind : Uuid → RunKind → Zpa (Unit {0})
unfolding statement keep_rows
record_run_kind run kind = statement (λ s. (
  tt,
  record s {
    run_kinds =
        (run, kind)
        ∷ keep_rows (λ (row : Uuid × RunKind). not (row.0 == run && row.1.kind == kind.kind))
            s.run_kinds;
  },
))
