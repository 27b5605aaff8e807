-- ===== src/Policy/Scope/RoundTrip.antt =====
-- Reading a stored scope, and writing it.
use tallox_go.Prelude.{
  Text, Unicode, cut, cut_sound, trim_space, to_upper, trim_space-plain, to_upper-plain, is_plain,
  List, [], ◌∷◌, ◌++◌, some, true, ◌≡◌, ◌↔◌, refl, arith, text_comparable, ◌==◌, Bool-cases, inl,
  inr, Option-cases,
}
use mathlib.Core.Bool.{false≢true}
use mathlib.Core.Path.{ap, ap₂, ◌∙◌}
use tallox_go.Policy.Scope.{
  ScopeArea, public, profile, planning, wishes, tokens, admin, ScopeVerb, read, write, area_text,
  verb_text, find_area, all_scope_areas, to_area, to_verb, Scope, valid, valid_area, valid_verb,
  scope_string, colon, parse_scope,
}

area_text-find_area : (t : Text) (areas : List ScopeArea) → area_text (find_area t areas) ≡ t
unfolding find_area
area_text-find_area t [] = unfold area_text in refl
area_text-find_area t (a ∷ rest) = elim (Bool-cases (area_text a == t)) [
  | inl hit ↦ rw hit ((text_comparable.eq_law (area_text a) t).0 hit)
  | inr miss ↦ rw miss (area_text-find_area t rest)
]

verb_text-to_verb : (t : Text) → verb_text (to_verb t) ≡ t
unfolding to_verb
verb_text-to_verb t = elim (Bool-cases (verb_text read == t)) [
  | inl hit ↦ rw hit ((text_comparable.eq_law (verb_text read) t).0 hit)
  | inr miss ↦ rw miss (elim (Bool-cases (verb_text write == t)) [
    | inl hit ↦ rw hit ((text_comparable.eq_law (verb_text write) t).0 hit)
    | inr other ↦ rw other (unfold verb_text in refl)
  ])
]

-- What the text of a known area followed by a colon looks like.
record AreaFacts (a : ScopeArea) (y : Text) : Type 0 where
  cuts : cut colon (area_text a ++ colon ∷ y) ≡ some (area_text a, y)
  converts : to_area (area_text a) ≡ a
  plain : is_plain y ≡ true → is_plain (area_text a ++ colon ∷ y) ≡ true

area_facts : (a : ScopeArea) (y : Text) → valid_area a ≡ true → AreaFacts a y
unfolding cut area_text to_area valid_area
area_facts public y h = record { cuts = refl; converts = refl; plain = λ p. p }
area_facts profile y h = record { cuts = refl; converts = refl; plain = λ p. p }
area_facts planning y h = record { cuts = refl; converts = refl; plain = λ p. p }
area_facts wishes y h = record { cuts = refl; converts = refl; plain = λ p. p }
area_facts tokens y h = record { cuts = refl; converts = refl; plain = λ p. p }
area_facts admin y h = record { cuts = refl; converts = refl; plain = λ p. p }
area_facts (ScopeArea.other t) y h = absurd (false≢true h)

verb_facts :
    (v : ScopeVerb)
    → valid_verb v ≡ true
    → (to_verb (verb_text v) ≡ v) × (is_plain (verb_text v) ≡ true)
unfolding to_verb valid_verb
verb_facts read h = (refl, refl)
verb_facts write h = (refl, refl)
verb_facts (ScopeVerb.other t) h = absurd (false≢true h)

-- The area and the verb that the two halves of a text are converted to.
abbrev converted : Text → Text → Scope
converted area verb = record { area = to_area area; verb = to_verb verb }

scope_string-converted :
    (area verb : Text) → scope_string (converted area verb) ≡ area ++ colon ∷ verb
unfolding scope_string to_area
scope_string-converted area verb =
    ap₂ (λ a v. a ++ colon ∷ v) (area_text-find_area area all_scope_areas) (verb_text-to_verb verb)

valid-parts : (s : Scope) → valid s ≡ true → (valid_area s.area ≡ true) × (valid_verb s.verb ≡ true)
unfolding valid
valid-parts s h = ground (arith, h)

cut-scope_string :
    (s : Scope)
    → valid s ≡ true
    → cut colon (scope_string s) ≡ some (area_text s.area, verb_text s.verb)
unfolding scope_string
cut-scope_string s h = (area_facts s.area (verb_text s.verb) (valid-parts s h).0).cuts

converted-texts : (s : Scope) → valid s ≡ true → converted (area_text s.area) (verb_text s.verb) ≡ s
converted-texts s h =
    let (a, v) = valid-parts s h in
    ground (arith, (area_facts s.area [] a).converts, (verb_facts s.verb v).0)

-- A text is read as a scope exactly when the scope is one of the known ones and the text, without
-- the space around it and in capitals, is the form that scopes are stored in.
pub parse_scope_iff :
    (u : Unicode) (t : Text) (s : Scope)
    → (parse_scope u t ≡ some s)
      ↔ ((valid s ≡ true) × (to_upper u (trim_space u t) ≡ scope_string s))
unfolding parse_scope
parse_scope_iff u t s = (sound, complete)
  where
    x : Text
    x = to_upper u (trim_space u t)

    sound : parse_scope u t ≡ some s → (valid s ≡ true) × (x ≡ scope_string s)
    sound h = elim (Option-cases (cut colon x)) [
      | inl e ↦ ground (arith, h, e)
      | inr ((area, verb), e) ↦
          ground (arith, h, e, cut_sound colon x area verb, scope_string-converted area verb)
    ]

    complete : (valid s ≡ true) × (x ≡ scope_string s) → parse_scope u t ≡ some s
    complete (ok, e) =
        ground (arith, ok, ap (cut colon) e ∙ cut-scope_string s ok, converted-texts s ok)

scope_string-plain : (s : Scope) → valid s ≡ true → is_plain (scope_string s) ≡ true
unfolding scope_string
scope_string-plain s h =
    let (a, v) = valid-parts s h in
    (area_facts s.area (verb_text s.verb) a).plain (verb_facts s.verb v).1

-- So what was stored is read back.
pub parse_scope-scope_string :
    (u : Unicode) (s : Scope) → valid s ≡ true → parse_scope u (scope_string s) ≡ some s
parse_scope-scope_string u s h =
    let plain = scope_string-plain s h in
    (parse_scope_iff u (scope_string s) s).1
      (h, rw (trim_space-plain u _ plain) (to_upper-plain u _ plain))
