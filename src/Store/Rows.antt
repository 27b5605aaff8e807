-- ===== src/Store/Rows.antt =====
-- A table of internal/store as the list of its rows: what its statements do to them.
use mathlib.Core.Path.{subst}
use mathlib.Core.Option.{some-injective}
use tallox_go.Prelude.{
  List, [], ◌∷◌, Option, none, some, Bool, true, false, any, if◌then◌else◌, ◌≡◌, ◌⊎◌, inl, inr,
  refl, sym, ap, ◌∙◌, arith, Bool-cases, Option-cases,
}

module _ {ℓ} {A : Type ℓ} where
  -- `SELECT ... WHERE`, of which the first row is returned.
  unfoldable pub find_row : (A → Bool) → List A → Option A
  find_row p [] = none
  find_row p (r ∷ rs) = let rest = find_row p rs in if p r then some r else rest

  -- `DELETE ... WHERE` of the rows that are not kept.
  unfoldable pub keep_rows : (A → Bool) → List A → List A
  keep_rows p [] = []
  keep_rows p (r ∷ rs) = let rest = keep_rows p rs in if p r then r ∷ rest else rest

  -- `UPDATE ... WHERE`.
  unfoldable pub set_rows : (A → Bool) → (A → A) → List A → List A
  set_rows p f [] = []
  set_rows p f (r ∷ rs) = let rest = set_rows p f rs in if p r then f r ∷ rest else r ∷ rest

  -- A row of the table.
  pub data IsIn (r : A) : List A → Type ℓ where
    at_head : {x : A} {rs : List A} → x ≡ r → IsIn r (x ∷ rs)
    later : {x : A} {rs : List A} → IsIn r rs → IsIn r (x ∷ rs)

  abbrev pub Every {κ} : (A → Type κ) → List A → Type κ
  Every P [] = Unit
  Every P (r ∷ rs) = P r × Every P rs

  abbrev pub Pairs {κ} : (A → A → Type κ) → List A → Type κ
  Pairs R [] = Unit
  Pairs R (r ∷ rs) = Every (R r) rs × Pairs R rs

  pub Every_lookup {κ} : (P : A → Type κ) (r : A) (rs : List A) → Every P rs → IsIn r rs → P r
  Every_lookup P r [] e h = elim h [ ]
  Every_lookup P r (x ∷ rs) (p, ps) (at_head e) = subst P e p
  Every_lookup P r (x ∷ rs) (p, ps) (later h) = Every_lookup P r rs ps h

  pub all_rows {κ} : (P : A → Type κ) (rs : List A) → ((r : A) → IsIn r rs → P r) → Every P rs
  all_rows P [] h = tt
  all_rows P (x ∷ rs) h = (h x (at_head refl), all_rows P rs (λ r i. h r (later i)))

  -- Two rows are one, or are related in the order in which they stand.
  pub same_or_apart {κ} :
      (R : A → A → Type κ) (r r' : A) (rs : List A)
      → Pairs R rs
      → IsIn r rs
      → IsIn r' rs
      → (r ≡ r') ⊎ (R r r' ⊎ R r' r)
  same_or_apart R r r' [] h i j = elim i [ ]
  same_or_apart R r r' (x ∷ rs) h (at_head e) (at_head e') = inl (sym e ∙ e')
  same_or_apart R r r' (x ∷ rs) (a, h) (at_head e) (later j) =
      inr (inl (subst (λ y. R y r') e (Every_lookup (R x) r' rs a j)))
  same_or_apart R r r' (x ∷ rs) (a, h) (later i) (at_head e) =
      inr (inr (subst (λ y. R y r) e (Every_lookup (R x) r rs a i)))
  same_or_apart R r r' (x ∷ rs) (a, h) (later i) (later j) = same_or_apart R r r' rs h i j

  pub find_row_sound :
      (p : A → Bool) (rs : List A) (r : A) → find_row p rs ≡ some r → IsIn r rs × (p r ≡ true)
  unfolding find_row
  find_row_sound p [] r h = ground (arith, h)
  find_row_sound p (x ∷ rs) r h = elim (Bool-cases (p x)) [
    | inl hit ↦
        let e : x ≡ r =
          some-injective _ _ (subst (λ b. (if b then some x else find_row p rs) ≡ some r) hit h) in
        (at_head e, subst (λ y. p y ≡ true) e hit)
    | inr miss ↦
        let found =
          find_row_sound p rs r
            (subst (λ b. (if b then some x else find_row p rs) ≡ some r) miss h) in
        (later found.0, found.1)
  ]

  pub not_found :
      (p : A → Bool) (rs : List A) → find_row p rs ≡ none → (r : A) → IsIn r rs → p r ≡ false
  unfolding find_row
  not_found p [] h r i = elim i [ ]
  not_found p (x ∷ rs) h r i = elim (Bool-cases (p x)) [
    | inl hit ↦
        absurd (ground (arith, subst (λ b. (if b then some x else find_row p rs) ≡ none) hit h))
    | inr miss ↦ elim i [
      | at_head e ↦ subst (λ y. p y ≡ false) e miss
      | later after ↦
          not_found p rs (subst (λ b. (if b then some x else find_row p rs) ≡ none) miss h) r after
    ]
  ]

  -- Where at most one row has the property, it is the one that is found.
  pub find_row_only :
      (p : A → Bool) (rs : List A) (r : A)
      → IsIn r rs
      → p r ≡ true
      → ((x : A) → IsIn x rs → p x ≡ true → x ≡ r)
      → find_row p rs ≡ some r
  unfolding find_row
  find_row_only p [] r i h only = elim i [ ]
  find_row_only p (x ∷ rs) r i h only = elim (Bool-cases (p x)) [
    | inl hit ↦ rw hit (ap some (only x (at_head refl) hit))
    | inr miss ↦ elim i [
      | at_head e ↦ ground (arith, miss, subst (λ y. p y ≡ true) (sym e) h)
      | later after ↦ rw miss (find_row_only p rs r after h (λ y j. only y (later j)))
    ]
  ]

  pub any_none : (p : A → Bool) (rs : List A) → any p rs ≡ false → (r : A) → IsIn r rs → p r ≡ false
  any_none p [] h r i = elim i [ ]
  any_none p (x ∷ rs) h r (at_head e) = subst (λ y. p y ≡ false) e (ground (arith, h))
  any_none p (x ∷ rs) h r (later i) = any_none p rs (ground (arith, h)) r i

  pub any_some : (p : A → Bool) (rs : List A) (r : A) → IsIn r rs → p r ≡ true → any p rs ≡ true
  any_some p [] r i h = elim i [ ]
  any_some p (x ∷ rs) r (at_head e) h = ground (arith, subst (λ y. p y ≡ true) (sym e) h)
  any_some p (x ∷ rs) r (later i) h = ground (arith, any_some p rs r i h)

  pub keep_rows_sound :
      (p : A → Bool) (rs : List A) (r : A) → IsIn r (keep_rows p rs) → IsIn r rs × (p r ≡ true)
  unfolding keep_rows
  keep_rows_sound p [] r i = elim i [ ]
  keep_rows_sound p (x ∷ rs) r i = elim (Bool-cases (p x)) [
    | inr miss ↦
        let below =
          keep_rows_sound p rs r
            (subst (λ b. IsIn r (if b then x ∷ keep_rows p rs else keep_rows p rs)) miss i) in
        (later below.0, below.1)
    | inl hit ↦
        elim (subst (λ b. IsIn r (if b then x ∷ keep_rows p rs else keep_rows p rs)) hit i) [
          | at_head e ↦ (at_head e, subst (λ y. p y ≡ true) e hit)
          | later after ↦ let below = keep_rows_sound p rs r after in (later below.0, below.1)
        ]
  ]

  pub keep_rows_complete :
      (p : A → Bool) (rs : List A) (r : A) → IsIn r rs → p r ≡ true → IsIn r (keep_rows p rs)
  unfolding keep_rows
  keep_rows_complete p [] r i h = elim i [ ]
  keep_rows_complete p (x ∷ rs) r (at_head e) h = rw (subst (λ y. p y ≡ true) (sym e) h) (at_head e)
  keep_rows_complete p (x ∷ rs) r (later i) h = elim (Bool-cases (p x)) [
    | inl hit ↦ rw hit (later (keep_rows_complete p rs r i h))
    | inr miss ↦ rw miss (keep_rows_complete p rs r i h)
  ]

  pub Every-keep_rows {κ} :
      (P : A → Type κ) (p : A → Bool) (rs : List A) → Every P rs → Every P (keep_rows p rs)
  Every-keep_rows P p rs e =
      all_rows P (keep_rows p rs) (λ r i. Every_lookup P r rs e (keep_rows_sound p rs r i).0)

  pub Pairs-keep_rows {κ} :
      (R : A → A → Type κ) (p : A → Bool) (rs : List A) → Pairs R rs → Pairs R (keep_rows p rs)
  unfolding keep_rows
  Pairs-keep_rows R p [] h = tt
  Pairs-keep_rows R p (x ∷ rs) (a, h) = elim (Bool-cases (p x)) [
    | inl hit ↦ rw hit (Every-keep_rows (R x) p rs a, Pairs-keep_rows R p rs h)
    | inr miss ↦ rw miss (Pairs-keep_rows R p rs h)
  ]

  -- The row of a statement: `p` selects, `f` assigns.
  abbrev pub changed : (A → Bool) → (A → A) → A → A
  changed p f r = if p r then f r else r

  pub changed_property {κ} :
      (Q : A → Type κ) (p : A → Bool) (f : A → A) (r : A)
      → Q r
      → (p r ≡ true → Q (f r))
      → Q (changed p f r)
  changed_property Q p f r q h = elim (Bool-cases (p r)) [
    | inl hit ↦ rw hit (h hit)
    | inr miss ↦ rw miss q
  ]

  pub Every-set_rows {κ μ} :
      (P : A → Type κ) (Q : A → Type μ) (p : A → Bool) (f : A → A) (rs : List A)
      → ((r : A) → P r → Q (changed p f r))
      → Every P rs
      → Every Q (set_rows p f rs)
  unfolding set_rows
  Every-set_rows P Q p f [] h e = tt
  Every-set_rows P Q p f (x ∷ rs) h (e, es) = elim (Bool-cases (p x)) [
    | inl hit ↦
        rw hit (subst (λ b. Q (if b then f x else x)) hit (h x e), Every-set_rows P Q p f rs h es)
    | inr miss ↦
        rw miss (subst (λ b. Q (if b then f x else x)) miss (h x e), Every-set_rows P Q p f rs h es)
  ]

  pub Pairs-set_rows {κ} :
      (R : A → A → Type κ) (p : A → Bool) (f : A → A) (rs : List A)
      → ((r r' : A) → R r r' → R (changed p f r) (changed p f r'))
      → Pairs R rs
      → Pairs R (set_rows p f rs)
  unfolding set_rows
  Pairs-set_rows R p f [] h a = tt
  Pairs-set_rows R p f (x ∷ rs) h (a, as') =
      let both = Every-set_rows (R x) (R (changed p f x)) p f rs (h x) a in
      elim (Bool-cases (p x)) [
        | inl hit ↦ rw hit (
          subst (λ b. Every (R (if b then f x else x)) (set_rows p f rs)) hit both,
          Pairs-set_rows R p f rs h as',
        )
        | inr miss ↦ rw miss (
          subst (λ b. Every (R (if b then f x else x)) (set_rows p f rs)) miss both,
          Pairs-set_rows R p f rs h as',
        )
      ]

  pub IsIn-set_rows :
      (p : A → Bool) (f : A → A) (rs : List A) (r : A)
      → IsIn r rs
      → IsIn (changed p f r) (set_rows p f rs)
  unfolding set_rows
  IsIn-set_rows p f [] r i = elim i [ ]
  IsIn-set_rows p f (x ∷ rs) r (at_head e) = elim (Bool-cases (p x)) [
    | inl hit ↦
        rw hit
          (at_head (subst (λ b. (if b then f x else x) ≡ changed p f r) hit (ap (changed p f) e)))
    | inr miss ↦
        rw miss
          (at_head (subst (λ b. (if b then f x else x) ≡ changed p f r) miss (ap (changed p f) e)))
  ]
  IsIn-set_rows p f (x ∷ rs) r (later i) = elim (Bool-cases (p x)) [
    | inl hit ↦ rw hit (later (IsIn-set_rows p f rs r i))
    | inr miss ↦ rw miss (later (IsIn-set_rows p f rs r i))
  ]

  pub set_rows_sound :
      (p : A → Bool) (f : A → A) (rs : List A) (r : A)
      → IsIn r (set_rows p f rs)
      → (x : A) × IsIn x rs × (changed p f x ≡ r)
  unfolding set_rows
  set_rows_sound p f [] r i = elim i [ ]
  set_rows_sound p f (x ∷ rs) r i = elim (Bool-cases (p x)) [
    | inl hit ↦
        elim (subst (λ b. IsIn r (if b then f x ∷ set_rows p f rs else x ∷ set_rows p f rs)) hit
          i) [
            | at_head e ↦ (x, at_head refl, subst (λ b. (if b then f x else x) ≡ r) (sym hit) e)
            | later after ↦ let (y, j, e) = set_rows_sound p f rs r after in (y, later j, e)
          ]
    | inr miss ↦
        elim (subst (λ b. IsIn r (if b then f x ∷ set_rows p f rs else x ∷ set_rows p f rs)) miss
          i) [
            | at_head e ↦ (x, at_head refl, subst (λ b. (if b then f x else x) ≡ r) (sym miss) e)
            | later after ↦ let (y, j, e) = set_rows_sound p f rs r after in (y, later j, e)
          ]
  ]

  -- The row of a `:one` statement.
  abbrev pub first_of : List A → Option A
  first_of [] = none
  first_of (x ∷ xs) = some x

  first_of_only :
      (xs : List A) (b : A) → IsIn b xs → ((x : A) → IsIn x xs → x ≡ b) → first_of xs ≡ some b
  first_of_only [] b i h = elim i [ ]
  first_of_only (x ∷ xs) b i h = ap some (h x (at_head refl))

  first_of_empty : (xs : List A) → ((x : A) → IsIn x xs → ⊥) → first_of xs ≡ none
  first_of_empty [] h = refl
  first_of_empty (x ∷ xs) h = absurd (h x (at_head refl))

module _ {ℓ κ} {A : Type ℓ} {B : Type κ} where
  -- What is selected of the rows that a condition leaves.
  unfoldable pub pick_rows : (A → Option B) → List A → List B
  pick_rows g [] = []
  pick_rows g (r ∷ rs) = let rest = pick_rows g rs in elim (g r) [ none ↦ rest | some b ↦ b ∷ rest ]

  pub pick_rows_sound :
      (g : A → Option B) (rs : List A) (b : B)
      → IsIn b (pick_rows g rs)
      → (r : A) × IsIn r rs × (g r ≡ some b)
  unfolding pick_rows
  pick_rows_sound g [] b i = elim i [ ]
  pick_rows_sound g (r ∷ rs) b i = elim (Option-cases (g r)) [
    | inl none_there ↦
        let (y, j, e) = pick_rows_sound g rs b (
          subst (λ o. IsIn b (elim o [ none ↦ pick_rows g rs | some x ↦ x ∷ pick_rows g rs ]))
            none_there i) in
        (y, later j, e)
    | inr (x, there) ↦
        elim (subst (λ o. IsIn b (elim o [ none ↦ pick_rows g rs | some x ↦ x ∷ pick_rows g rs ]))
          there i) [
            | at_head e ↦ (r, at_head refl, there ∙ ap some e)
            | later after ↦ let (y, j, e) = pick_rows_sound g rs b after in (y, later j, e)
          ]
  ]

  pub pick_rows_complete :
      (g : A → Option B) (rs : List A) (r : A) (b : B)
      → IsIn r rs
      → g r ≡ some b
      → IsIn b (pick_rows g rs)
  unfolding pick_rows
  pick_rows_complete g [] r b i h = elim i [ ]
  pick_rows_complete g (x ∷ rs) r b (at_head e) h = rw (pick_rows, ap g e ∙ h) (at_head refl)
  pick_rows_complete g (x ∷ rs) r b (later i) h = elim (Option-cases (g x)) [
    | inl none_there ↦ rw (pick_rows, none_there) (pick_rows_complete g rs r b i h)
    | inr (y, there) ↦ rw (pick_rows, there) (later (pick_rows_complete g rs r b i h))
  ]

  pub first_of-pick_rows :
      (g : A → Option B) (rs : List A) (r : A)
      → IsIn r rs
      → ((x : A) (b : B) → IsIn x rs → g x ≡ some b → x ≡ r)
      → first_of (pick_rows g rs) ≡ g r
  first_of-pick_rows g rs r i only = elim (Option-cases (g r)) [
    | inl nothing ↦
        first_of_empty (pick_rows g rs) (λ b j.
          let (x, k, e) = pick_rows_sound g rs b j in
          ground (arith, nothing, sym (ap g (only x b k e)) ∙ e))
        ∙ sym nothing
    | inr (b, there) ↦
        first_of_only (pick_rows g rs) b (pick_rows_complete g rs r b i there) (λ y j.
          let (x, k, e) = pick_rows_sound g rs y j in
          some-injective _ _ (sym e ∙ ap g (only x y k e) ∙ there))
        ∙ sym there
  ]
