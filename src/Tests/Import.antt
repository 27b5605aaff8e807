-- ===== src/Tests/Import.antt =====
-- One night of the import, with the regulations answering and the other kinds down.
use tallox_go.Store.Zpa.{retire_missing}
use tallox_go.Store.Zpa.{record_change}
use tallox_go.Store.Zpa.{upsert}
use tallox_go.Store.Zpa.{payload_of}
use tallox_go.Store.Rows.{find_row}
use tallox_go.Store.Zpa.{state_by_kind}
use tallox_go.Prelude.{
  Text, codes, ℕ, ◌+◌, List, [], ◌∷◌, length, contains, nat_comparable, none, some, true, ◌≡◌, refl,
}
use tallox_go.Prelude.Results.{err, ok, ok_unique}
use mathlib.Core.Path.{subst}
use tallox_go.Principal.{Uuid}
use tallox_go.Store.Rows.{at_head}
use tallox_go.Store.Zpa.{ZpaKind, spo, msba, ZpaObject, CachedObject, ZpaStore, succeeded}
use tallox_go.Store.Zpa.Rules.{Live}
use tallox_go.Domain.ZpaSync.{Json, Source, ids, sync_kind}
use tallox_go.Domain.ZpaSync.Tally.{tally, sync_kind-tally}
use tallox_go.Domain.ZpaSync.Cache.{sync_kind-Live}
use tallox_go.Domain.ZpaSync.Current.{Current, sync_kind-Current}
use tallox_go.Domain.ZpaSync.Working.{sync_kind-succeeded}

-- Texts that stand for themselves.
abbrev plain_json : Json
plain_json = record { canonical = λ t. some t; members = λ t. some [] }

abbrev object : ℕ → Text → ZpaObject
object zpa_id payload = record { zpa_id = zpa_id; payload = payload; label = [] }

abbrev tonight : List ZpaObject
tonight = object 1 (codes "a") ∷ object 3 (codes "c") ∷ []

abbrev answers : Source
answers spo = ok tonight
answers _ = err (codes "down")

abbrev cached : Uuid → ZpaKind → ℕ → Text → CachedObject
cached id kind zpa_id payload = record {
  id = id;
  kind = kind;
  zpa_id = zpa_id;
  payload = payload;
  label = [];
  gone_at = none;
}

abbrev one : CachedObject
one = cached 11 spo 1 (codes "a")

abbrev two : CachedObject
two = cached 12 spo 2 (codes "b")

abbrev cache : ZpaStore
cache = record {
  outcomes = [];
  next_id = 20;
  objects = one ∷ two ∷ cached 13 msba 2 [] ∷ [];
  changes = [];
  run_kinds = [];
}

abbrev after_night : List CachedObject
after_night =
    cached 20 spo 3 (codes "c") ∷ one ∷ record two { gone_at = some 9 } ∷ cached 13 msba 2 [] ∷ []

night : (sync_kind plain_json answers 9 7 spo cache).1.objects ≡ after_night
unfolding sync_kind state_by_kind find_row payload_of upsert record_change retire_missing
night = refl

two_changes : length (sync_kind plain_json answers 9 7 spo cache).1.changes ≡ 2
unfolding sync_kind state_by_kind find_row payload_of upsert record_change retire_missing
two_changes = refl

sync_kind-tally_example :
    length (sync_kind plain_json answers 9 7 spo cache).1.changes
    ≡ 0 + tally (sync_kind plain_json answers 9 7 spo cache).0
sync_kind-tally_example = sync_kind-tally plain_json answers 9 7 spo cache

sync_kind-Live_example : Live spo 1 (sync_kind plain_json answers 9 7 spo cache).1.objects
sync_kind-Live_example =
    sync_kind-Live plain_json answers 9 7 spo spo 1 cache
      (record { row = one; listed = at_head refl; of_kind = refl; of_id = refl; not_gone = refl })
      (λ same objects is.
        subst (λ os. contains (ids os) 1 ≡ true) (ok_unique (answers spo) tonight objects refl is)
          refl)

sync_kind-succeeded_example : (sync_kind plain_json answers 9 7 spo cache).0.status ≡ succeeded
sync_kind-succeeded_example = sync_kind-succeeded plain_json answers 9 7 spo tonight cache refl refl

night_succeeds : (sync_kind plain_json answers 9 7 spo cache).0.status ≡ succeeded
unfolding sync_kind state_by_kind find_row payload_of upsert record_change retire_missing
night_succeeds = refl

sync_kind-Current_example :
    (objects : List ZpaObject) × (answers spo ≡ ok objects)
    × Current spo objects (sync_kind plain_json answers 9 7 spo cache).1.objects
sync_kind-Current_example = sync_kind-Current plain_json answers 9 7 spo cache night_succeeds

-- The log of the second object that disappears fails: the object is gone, and no entry says so.
abbrev interrupted : ZpaStore
interrupted = record cache {
  outcomes = none ∷ none ∷ none ∷ none ∷ none ∷ none ∷ some (codes "lost") ∷ [];
}

gone_unlogged : (sync_kind plain_json answers 9 7 spo interrupted).1.objects ≡ after_night
unfolding sync_kind state_by_kind find_row payload_of upsert record_change retire_missing
gone_unlogged = refl

one_change : length (sync_kind plain_json answers 9 7 spo interrupted).1.changes ≡ 1
unfolding sync_kind state_by_kind find_row payload_of upsert record_change retire_missing
one_change = refl
