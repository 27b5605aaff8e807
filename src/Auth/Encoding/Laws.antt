-- ===== src/Auth/Encoding/Laws.antt =====
-- How long an encoded text is, and of which symbols it consists.
use tallox_go.Prelude.{
  Text, eq_self, trim_left_set, trim_left_set-member, ℕ, zero, suc, ◌+◌, ◌*◌, ◌/◌, ◌<◌, List, [],
  ◌∷◌, map, true, ◌≡◌, refl, ap, ◌∙◌, arith, length, contains, nat_comparable,
}
use tallox_go.Auth.Encoding.{symbol, crockford_alphabet, places32, places64, encode32, encode64}

pub length-map {ℓ κ} :
    {A : Type ℓ} {B : Type κ} (f : A → B) (xs : List A) → length (map f xs) ≡ length xs
length-map f [] = refl
length-map f (x ∷ xs) = ap suc (length-map f xs)

length-places32 : (bytes : List ℕ) → length (places32 bytes) ≡ (length bytes * 8 + 4) / 5
unfolding places32
length-places32 [] = omega arith
length-places32 (a ∷ []) = omega arith
length-places32 (a ∷ b ∷ []) = omega arith
length-places32 (a ∷ b ∷ c ∷ []) = omega arith
length-places32 (a ∷ b ∷ c ∷ d ∷ []) = omega arith
length-places32 (a ∷ b ∷ c ∷ d ∷ e ∷ rest) = omega (arith, length-places32 rest)

length-places64 : (bytes : List ℕ) → length (places64 bytes) ≡ (length bytes * 8 + 5) / 6
unfolding places64
length-places64 [] = omega arith
length-places64 (a ∷ []) = omega arith
length-places64 (a ∷ b ∷ []) = omega arith
length-places64 (a ∷ b ∷ c ∷ rest) = omega (arith, length-places64 rest)

pub length-encode32 : (bytes : List ℕ) → length (encode32 bytes) ≡ (length bytes * 8 + 4) / 5
unfolding encode32
length-encode32 bytes =
    length-map (symbol crockford_alphabet) (places32 bytes) ∙ length-places32 bytes

pub length-encode64 : (bytes : List ℕ) → length (encode64 bytes) ≡ (length bytes * 8 + 5) / 6
unfolding encode64
length-encode64 bytes = length-map _ (places64 bytes) ∙ length-places64 bytes

abbrev pub AllBelow : ℕ → List ℕ → Type 0
AllBelow n [] = Unit {0}
AllBelow n (x ∷ xs) = (x < n) × AllBelow n xs

places32-below : (bytes : List ℕ) → AllBelow 256 bytes → AllBelow 32 (places32 bytes)
unfolding places32
places32-below [] h = tt
places32-below (a ∷ []) h = omega arith
places32-below (a ∷ b ∷ []) h = omega arith
places32-below (a ∷ b ∷ c ∷ []) h = omega arith
places32-below (a ∷ b ∷ c ∷ d ∷ []) h = omega arith
places32-below (a ∷ b ∷ c ∷ d ∷ e ∷ rest) (ha, (hb, (hc, (hd, (he, hr))))) = (
  omega arith,
  (
    omega arith,
    (
      omega arith,
      (
        omega arith,
        (omega arith, (omega arith, (omega arith, (omega arith, places32-below rest hr)))),
      ),
    ),
  ),
)

-- A symbol taken from an alphabet stands in it.
contains-symbol :
    (alphabet : Text) (i : ℕ) → i < length alphabet → contains alphabet (symbol alphabet i) ≡ true
contains-symbol [] i inside = absurd (omega arith)
contains-symbol (c ∷ rest) zero inside = ground (arith, eq_self c)
contains-symbol (c ∷ rest) (suc i) inside = ground (arith, contains-symbol rest i)

trim_left_set-symbols :
    (places : List ℕ)
    → AllBelow 32 places
    → trim_left_set crockford_alphabet (map (symbol crockford_alphabet) places) ≡ []
trim_left_set-symbols [] h = unfold trim_left_set in refl
trim_left_set-symbols (x ∷ xs) (h, hs) =
    trim_left_set-member _ _ _ (contains-symbol crockford_alphabet x h)
    ∙ trim_left_set-symbols xs hs

-- Every symbol of an encoded byte sequence stands in Crockford's alphabet.
pub trim_left_set-encode32 :
    (bytes : List ℕ) → AllBelow 256 bytes → trim_left_set crockford_alphabet (encode32 bytes) ≡ []
unfolding encode32
trim_left_set-encode32 bytes h = trim_left_set-symbols (places32 bytes) (places32-below bytes h)
