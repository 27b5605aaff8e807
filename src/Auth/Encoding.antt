-- ===== src/Auth/Encoding.antt =====
-- The two encodings of Go's standard library that internal/auth/token.go writes a token with:
-- base32 over Crockford's alphabet and base64 over the URL alphabet, both without padding.
pub mod Laws
use tallox_go.Prelude.{ℕ, zero, suc, ◌+◌, ◌*◌, ◌/◌, ◌%◌, Text, codes, List, [], ◌∷◌, ◌++◌, map}

-- The symbol at a place of an alphabet; the encodings only ask for places inside it.
abbrev pub symbol : Text → ℕ → ℕ
symbol [] i = 0
symbol (c ∷ t) zero = c
symbol (c ∷ t) (suc i) = symbol t i

abbrev pub crockford_alphabet : Text
crockford_alphabet = codes "0123456789ABCDEFGHJKMNPQRSTVWXYZ"

abbrev pub url_alphabet : Text
url_alphabet = codes "ABCDEFGHIJKLMNOPQRSTUVWXYZabcdefghijklmnopqrstuvwxyz0123456789-_"

-- The five-bit places of a byte sequence: five bytes are eight of them, and a shorter end is filled
-- with zero bits to the next place.
unfoldable pub places32 : List ℕ → List ℕ
places32 [] = []
places32 (a ∷ []) = a / 8 ∷ (a % 8) * 4 ∷ []
places32 (a ∷ b ∷ []) = a / 8 ∷ ((a % 8) * 4 + b / 64) ∷ ((b / 2) % 32) ∷ ((b % 2) * 16) ∷ []
places32 (a ∷ b ∷ c ∷ []) =
    a / 8 ∷ ((a % 8) * 4 + b / 64) ∷ ((b / 2) % 32) ∷ ((b % 2) * 16 + c / 16) ∷ ((c % 16) * 2) ∷ []
places32 (a ∷ b ∷ c ∷ d ∷ []) =
    a / 8
    ∷ ((a % 8) * 4 + b / 64)
    ∷ ((b / 2) % 32)
    ∷ ((b % 2) * 16 + c / 16)
    ∷ ((c % 16) * 2 + d / 128)
    ∷ ((d / 4) % 32)
    ∷ ((d % 4) * 8)
    ∷ []
places32 (a ∷ b ∷ c ∷ d ∷ e ∷ rest) =
    a / 8
    ∷ ((a % 8) * 4 + b / 64)
    ∷ ((b / 2) % 32)
    ∷ ((b % 2) * 16 + c / 16)
    ∷ ((c % 16) * 2 + d / 128)
    ∷ ((d / 4) % 32)
    ∷ ((d % 4) * 8 + e / 32)
    ∷ (e % 32)
    ∷ places32 rest

-- The six-bit places: three bytes are four of them.
unfoldable pub places64 : List ℕ → List ℕ
places64 [] = []
places64 (a ∷ []) = a / 4 ∷ ((a % 4) * 16) ∷ []
places64 (a ∷ b ∷ []) = a / 4 ∷ ((a % 4) * 16 + b / 16) ∷ ((b % 16) * 4) ∷ []
places64 (a ∷ b ∷ c ∷ rest) =
    a / 4 ∷ ((a % 4) * 16 + b / 16) ∷ ((b % 16) * 4 + c / 64) ∷ (c % 64) ∷ places64 rest

unfoldable pub encode32 : List ℕ → Text
unfolding places32
encode32 bytes = map (symbol crockford_alphabet) (places32 bytes)

unfoldable pub encode64 : List ℕ → Text
unfolding places64
encode64 bytes = map (symbol url_alphabet) (places64 bytes)
