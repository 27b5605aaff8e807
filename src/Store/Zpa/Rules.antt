-- ===== src/Store/Zpa/Rules.antt =====
-- internal/store/zpa.go: a statement fails and changes nothing, or has its effect.
use mathlib.Core.Path.{subst}
use tallox_go.Prelude.{
  ℕ, Text, List, [], ◌∷◌, Option, none, some, Bool, true, nat_comparable, nat_eq_iff, contains,
  if◌then◌else◌, ◌≡◌, inl, inr, refl, sym, ◌∙◌, arith, Option-cases,
}
use tallox_go.Prelude.Results.{Result, err, ok}
use tallox_go.Policy.Semester.{Time}
use tallox_go.Store.Rows.{
  IsIn, at_head, later, find_row, set_rows, IsIn-set_rows, changed, changed_property,
  find_row_sound,
}
use tallox_go.Store.Zpa.{
  ZpaKind, kind_eq_law, kind_comparable, ZpaObject, CachedObject, ZpaStore, statement, statement_of,
  is_object, seen_again, new_object, upsert_row, is_missing, retired,
}

-- After a statement has ended in `e`, or before it has its effect.
abbrev pub after : List (Option Text) → ZpaStore → ZpaStore
after rest s = record s { outcomes = rest }

rule_of :
    {A : Type 0} (Q : Result Text A × ZpaStore → Type 0) (outs : List (Option Text))
    (act : ZpaStore → A × ZpaStore) (s : ZpaStore)
    → ((e : Text) (rest : List (Option Text)) → Q (err e, after rest s))
    → ((rest : List (Option Text)) → Q (ok ((act (after rest s)).0), (act (after rest s)).1))
    → Q (statement_of outs act s)
unfolding statement_of
rule_of Q [] act s failed done = done []
rule_of Q (none ∷ rest) act s failed done = done rest
rule_of Q (some e ∷ rest) act s failed done = failed e rest

-- What holds after a statement, whether it fails or not.
pub statement_rule :
    {A : Type 0} (Q : Result Text A × ZpaStore → Type 0) (act : ZpaStore → A × ZpaStore)
    (s : ZpaStore)
    → ((e : Text) (rest : List (Option Text)) → Q (err e, after rest s))
    → ((rest : List (Option Text)) → Q (ok ((act (after rest s)).0), (act (after rest s)).1))
    → Q (statement act s)
unfolding statement
statement_rule Q act s failed done = rule_of Q s.outcomes act s failed done

-- A call, and what the source does with its error or with its value.
pub call_rule {ℓ} :
    {A B : Type 0} (Q : B → Type ℓ) (m : Result Text A × ZpaStore) (f : Text → ZpaStore → B)
    (g : A → ZpaStore → B)
    → ((e : Text) (s : ZpaStore) → m ≡ (err e, s) → Q (f e s))
    → ((a : A) (s : ZpaStore) → m ≡ (ok a, s) → Q (g a s))
    → Q (elim m.0 [ err e ↦ f e m.1 | ok a ↦ g a m.1 ])
call_rule Q (err e, s) f g failed done = failed e s refl
call_rule Q (ok a, s) f g failed done = done a s refl

-- An object that is there, and not gone.
pub record Live (kind : ZpaKind) (zpa_id : ℕ) (objects : List CachedObject) : Type 0 where
  pub row : CachedObject
  pub listed : IsIn row objects
  pub of_kind : row.kind ≡ kind
  pub of_id : row.zpa_id ≡ zpa_id
  pub not_gone : row.gone_at ≡ none

set_rows-Live :
    (p : CachedObject → Bool) (f : CachedObject → CachedObject) (kind : ZpaKind) (zpa_id : ℕ)
    (os : List CachedObject) (l : Live kind zpa_id os)
    → (p l.row ≡ true
        → ((f l.row).kind ≡ l.row.kind)
          × ((f l.row).zpa_id ≡ l.row.zpa_id)
          × ((f l.row).gone_at ≡ none))
    → Live kind zpa_id (set_rows p f os)
set_rows-Live p f kind zpa_id os l h =
    let o = changed p f l.row in
    let (k, i, g) =
      changed_property
        (λ (x : CachedObject).
          (x.kind ≡ l.row.kind) × (x.zpa_id ≡ l.row.zpa_id) × (x.gone_at ≡ none))
        p f l.row (refl, refl, l.not_gone) h in
    record {
      row = o;
      listed = IsIn-set_rows p f os l.row l.listed;
      of_kind = k ∙ l.of_kind;
      of_id = i ∙ l.of_id;
      not_gone = g;
    }

pub upsert_row-Live :
    (kind l : ZpaKind) (zpa_id : ℕ) (object : ZpaObject) (s : ZpaStore)
    → Live l zpa_id s.objects
    → Live l zpa_id (upsert_row kind object s).1.objects
unfolding upsert_row
upsert_row-Live kind l zpa_id object s live =
    elim (Option-cases (find_row (is_object kind object.zpa_id) s.objects)) [
      | inl missing ↦
          rw (upsert_row, missing)
            (record {
              row = live.row;
              listed = later live.listed;
              of_kind = live.of_kind;
              of_id = live.of_id;
              not_gone = live.not_gone;
            })
      | inr (o, there) ↦
          rw (upsert_row, there)
            (set_rows-Live (is_object kind object.zpa_id) (seen_again object) l zpa_id s.objects
              live (λ hit. (refl, refl, refl)))
    ]

is_object_iff :
    (kind : ZpaKind) (zpa_id : ℕ) (o : CachedObject)
    → is_object kind zpa_id o ≡ true
    → (o.kind ≡ kind) × (o.zpa_id ≡ zpa_id)
is_object_iff kind zpa_id o h = (
  (kind_eq_law o.kind kind).0 (ground (arith, h)),
  (nat_eq_iff o.zpa_id zpa_id).0 (ground (arith, h)),
)

pub upsert_row-stored :
    (kind : ZpaKind) (object : ZpaObject) (s : ZpaStore)
    → Live kind object.zpa_id (upsert_row kind object s).1.objects
unfolding upsert_row
upsert_row-stored kind object s =
    elim (Option-cases (find_row (is_object kind object.zpa_id) s.objects)) [
      | inl missing ↦
          rw (upsert_row, missing)
            (record {
              row = new_object s.next_id kind object;
              listed = at_head refl;
              of_kind = refl;
              of_id = refl;
              not_gone = refl;
            })
      | inr (o, there) ↦
          let (i, hit) = find_row_sound (is_object kind object.zpa_id) s.objects o there in
          let (k, e) = is_object_iff kind object.zpa_id o hit in
          rw (upsert_row, there)
            (record {
              row = seen_again object o;
              listed =
                  subst
                    (λ b.
                      IsIn (if b then seen_again object o else o)
                        (set_rows (is_object kind object.zpa_id) (seen_again object) s.objects))
                    hit
                    (IsIn-set_rows (is_object kind object.zpa_id) (seen_again object) s.objects o
                      i);
              of_kind = k;
              of_id = e;
              not_gone = refl;
            })
    ]

pub retired-Live :
    (now : Time) (kind l : ZpaKind) (present : List ℕ) (zpa_id : ℕ) (os : List CachedObject)
    → Live l zpa_id os
    → ((l ≡ kind) → contains present zpa_id ≡ true)
    → Live l zpa_id (set_rows (is_missing kind present) (retired now) os)
retired-Live now kind l present zpa_id os live mentioned =
    set_rows-Live (is_missing kind present) (retired now) l zpa_id os live (λ hit.
      let of_kind : live.row.kind ≡ kind =
        (kind_eq_law live.row.kind kind).0 (ground (arith, hit)) in
      let there : contains present live.row.zpa_id ≡ true =
        subst (λ i. contains present i ≡ true) (sym live.of_id)
          (mentioned (sym live.of_kind ∙ of_kind)) in
      absurd (ground (arith, hit, there)))
