-- ===== src/Authority/Keys.antt =====
-- `_valid_public_key` and `_valid_hash` of solana_agent/authority/policy.py.
use Prim.Native.Char.{code}
use solana_agent.Prelude.{
  ℕ, zero, suc, ◌+◌, ◌*◌, ◌/◌, String, Bool, true, false, not, ◌&&◌, ◌||◌, Option, none, some, List,
  [], ◌∷◌, leb, nat_eq, any, all, length, if◌then◌else◌,
}

-- The code points of a text. `String` has its own `[]` and `∷`.
abbrev pub codes : String → List ℕ
codes String.[] = []
codes (String.◌∷◌ c s) = code c ∷ codes s

abbrev pub solana_alphabet : String
solana_alphabet = "123456789ABCDEFGHJKLMNPQRSTUVWXYZabcdefghijkmnopqrstuvwxyz"

-- `SOLANA_ALPHABET.index(character)`; it is called only on a character of the alphabet
pub index_in : ℕ → List ℕ → ℕ
index_in c [] = 0
index_in c (a ∷ alphabet) = let rest = index_in c alphabet in if nat_eq a c then 0 else suc rest

abbrev pub index : ℕ → ℕ
unfolding index_in
index c = index_in c (codes solana_alphabet)

abbrev pub member : ℕ → List ℕ → Bool
member c = any (nat_eq c)

-- The loop `number = number * 58 + SOLANA_ALPHABET.index(character)`
pub base58_value : ℕ → List ℕ → ℕ
base58_value number [] = number
base58_value number (c ∷ cs) = base58_value (number * 58 + index c) cs

-- `number.bit_length()`, on fuel
pub bit_length : ℕ → ℕ → ℕ
bit_length zero n = 0
bit_length (suc fuel) n = let rest = bit_length fuel (n / 2) in if nat_eq n 0 then 0 else suc rest

-- `len(value) - len(value.lstrip("1"))`
pub leading_ones : List ℕ → ℕ
leading_ones [] = 0
leading_ones (c ∷ cs) = let rest = leading_ones cs in if nat_eq c b'1' then suc rest else 0

-- `len(decoded)`: the bytes of the number, and a zero byte for each leading "1". A digit of base 58
-- takes six bits at most, so the fuel is enough (Keys/Bounds.antt).
unfoldable pub decoded_length : List ℕ → ℕ
unfolding base58_value bit_length leading_ones index
decoded_length cs = (bit_length (6 * length cs) (base58_value 0 cs) + 7) / 8 + leading_ones cs

abbrev in_alphabet : List ℕ → Bool
in_alphabet = all (λ c. member c (codes solana_alphabet))

abbrev is_empty : List ℕ → Bool
is_empty [] = true
is_empty (_ ∷ _) = false

abbrev key_codes_valid : List ℕ → Bool
key_codes_valid cs = not (is_empty cs) && (in_alphabet cs && nat_eq (decoded_length cs) 32)

unfoldable pub valid_public_key : Option String → Bool
unfolding decoded_length
valid_public_key none = false
valid_public_key (some value) = key_codes_valid (codes value)

abbrev is_hex_digit : ℕ → Bool
is_hex_digit c =
    (leb b'0' c && leb c b'9') || ((leb b'a' c && leb c b'f') || (leb b'A' c && leb c b'F'))

unfoldable pub valid_hash : Option String → Bool
valid_hash none = false
valid_hash (some value) = nat_eq (length (codes value)) 64 && all is_hex_digit (codes value)
