-- ===== src/Policy/Scope.antt =====
-- internal/policy/scope.go: what a token's scopes permit. A scope is stored as a text AREA:VERB.
pub mod RoundTrip
pub mod Allow
use tallox_go.Prelude.{
  ℕ, Text, Unicode, codes, cut, trim_space, to_upper, List, [], ◌∷◌, ◌++◌, Option, none, some, Bool,
  true, false, ◌&&◌, ◌||◌, not, ◌≡◌, ◌↔◌, refl, sym, arith, nat_eq, text_eq, text_eq_law,
  text_comparable, if◌then◌else◌, Comparable, ◌==◌, any, is_empty, contains,
}
use tallox_go.Principal.{Actor, is_token}

-- `other` stands for any text that is none of the six constants.
pub data ScopeArea : Type 0 where
  public profile planning wishes tokens admin : ScopeArea
  other : Text → ScopeArea

pub data ScopeVerb : Type 0 where
  read write : ScopeVerb
  other : Text → ScopeVerb

unfoldable pub area_text : ScopeArea → Text
area_text public = codes "PUBLIC"
area_text profile = codes "PROFILE"
area_text planning = codes "PLANNING"
area_text wishes = codes "WISHES"
area_text tokens = codes "TOKENS"
area_text admin = codes "ADMIN"
area_text (ScopeArea.other t) = t

unfoldable pub verb_text : ScopeVerb → Text
verb_text read = codes "READ"
verb_text write = codes "WRITE"
verb_text (ScopeVerb.other t) = t

-- Go's conversions `ScopeArea(t)` and `ScopeVerb(t)`.
find_area : Text → List ScopeArea → ScopeArea
find_area t [] = ScopeArea.other t
find_area t (a ∷ rest) = if area_text a == t then a else find_area t rest

abbrev pub all_scope_areas : List ScopeArea
all_scope_areas = public ∷ profile ∷ planning ∷ wishes ∷ tokens ∷ admin ∷ []

unfoldable pub to_area : Text → ScopeArea
unfolding find_area area_text
to_area t = find_area t all_scope_areas

unfoldable pub to_verb : Text → ScopeVerb
unfolding verb_text
to_verb t =
    if verb_text read == t then read else if verb_text write == t then write else ScopeVerb.other t

abbrev area_place : ScopeArea → ℕ
area_place public = 0
area_place profile = 1
area_place planning = 2
area_place wishes = 3
area_place tokens = 4
area_place admin = 5
area_place (ScopeArea.other t) = 6

abbrev area_rest : ScopeArea → Text
area_rest (ScopeArea.other t) = t
area_rest _ = []

abbrev pub area_eq : ScopeArea → ScopeArea → Bool
area_eq a b = nat_eq (area_place a) (area_place b) && text_eq (area_rest a) (area_rest b)

area_eq_sound : (a b : ScopeArea) → area_eq a b ≡ true → a ≡ b
area_eq_sound a b h = ground (arith, text_eq_law (area_rest a) (area_rest b))

area_eq_refl : (a : ScopeArea) → area_eq a a ≡ true
area_eq_refl a = ground (arith, text_eq_law (area_rest a) (area_rest a))

pub area_eq_law : (a b : ScopeArea) → (area_eq a b ≡ true) ↔ (a ≡ b)
area_eq_law a b = (area_eq_sound a b, λ e. rw (← e) (area_eq_refl a))

instance abbrev pub area_comparable : Comparable ScopeArea
area_comparable = record { eq = area_eq; eq_law = area_eq_law }

abbrev verb_place : ScopeVerb → ℕ
verb_place read = 0
verb_place write = 1
verb_place (ScopeVerb.other t) = 2

abbrev verb_rest : ScopeVerb → Text
verb_rest (ScopeVerb.other t) = t
verb_rest _ = []

abbrev pub verb_eq : ScopeVerb → ScopeVerb → Bool
verb_eq a b = nat_eq (verb_place a) (verb_place b) && text_eq (verb_rest a) (verb_rest b)

verb_eq_sound : (a b : ScopeVerb) → verb_eq a b ≡ true → a ≡ b
verb_eq_sound a b h = ground (arith, text_eq_law (verb_rest a) (verb_rest b))

verb_eq_refl : (a : ScopeVerb) → verb_eq a a ≡ true
verb_eq_refl a = ground (arith, text_eq_law (verb_rest a) (verb_rest a))

pub verb_eq_law : (a b : ScopeVerb) → (verb_eq a b ≡ true) ↔ (a ≡ b)
verb_eq_law a b = (verb_eq_sound a b, λ e. rw (← e) (verb_eq_refl a))

instance abbrev pub verb_comparable : Comparable ScopeVerb
verb_comparable = record { eq = verb_eq; eq_law = verb_eq_law }

pub record Scope : Type 0 where
  pub area : ScopeArea
  pub verb : ScopeVerb

unfoldable pub valid_area : ScopeArea → Bool
valid_area a = contains all_scope_areas a

unfoldable pub valid_verb : ScopeVerb → Bool
valid_verb v = v == read || v == write

unfoldable pub valid : Scope → Bool
valid s = valid_area s.area && valid_verb s.verb

abbrev pub scope_fallback : Scope
scope_fallback = record { area = admin; verb = write }

abbrev pub colon : ℕ
colon = b':'

unfoldable pub scope_string : Scope → Text
scope_string s = area_text s.area ++ colon ∷ verb_text s.verb

unfoldable pub grants : Scope → Scope → Bool
grants s want = if not (s.area == want.area) then false else s.verb == want.verb || s.verb == write

module _ (u : Unicode) where
  unfoldable pub parse_scope : Text → Option Scope
  parse_scope t = elim (cut colon (to_upper u (trim_space u t))) [
    | none ↦ none
    | some (area, verb) ↦
        let parsed : Scope = record { area = to_area area; verb = to_verb verb } in
        if not (valid parsed) then none else some parsed
  ]

  -- The loop over the scopes that the token holds.
  unfoldable pub grants_text : Scope → Text → Bool
  unfolding parse_scope grants
  grants_text want held = elim (parse_scope held) [
    | none ↦ false
    | some parsed ↦ grants parsed want
  ]

  unfoldable pub scopes_allow : Actor → Scope → Bool
  unfolding grants_text
  scopes_allow a want =
      if not (is_token a.kind)
      then true
      else if is_empty a.scopes
      then true
      else if want.area == public
      then true
      else any (λ held. grants_text want held) a.scopes
