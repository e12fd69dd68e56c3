-- ===== src/Json.antt =====
-- The values that `json.dumps` writes and `json.loads` reads back.
-- An object is the list of its fields, in the order in which the code builds it. Python's `==` on
-- dicts ignores that order; the code compares only dicts that one literal or one text gave their
-- order. Floats do not occur: nothing here computes on one.
use solana_agent.Prelude.{
  String, Bool, true, false, Option, none, some, List, [], ◌∷◌, ◌==◌, ◌&&◌, if◌then◌else◌,
}
use solana_agent.Prelude.Int.{ℤ, pos, eq_ℤ}

mutual
  pub data Json : Type 0 where
    null : Json
    boolean : Bool → Json
    number : ℤ → Json
    text : String → Json
    array : Items → Json
    object : Fields → Json

  pub data Items : Type 0 where
    nil : Items
    item : Json → Items → Items

  pub data Fields : Type 0 where
    end : Fields
    field : String → Json → Fields → Fields

-- A dict literal, and a list literal.
abbrev pub fields : List (String × Json) → Fields
fields [] = end
fields ((k, v) ∷ rest) = field k v (fields rest)

abbrev pub dict : List (String × Json) → Json
dict kvs = object (fields kvs)

abbrev items : List Json → Items
items [] = nil
items (x ∷ xs) = item x (items xs)

abbrev pub array_of : List Json → Json
array_of xs = array (items xs)

abbrev pub texts : List String → List Json
texts [] = []
texts (s ∷ ss) = text s ∷ texts ss

-- `None` is `null`.
abbrev pub optional_text : Option String → Json
optional_text none = null
optional_text (some s) = text s

abbrev pub optional_number : Option ℤ → Json
optional_number none = null
optional_number (some n) = number n

-- The entry `key: value` that the source adds only `if value is not None`.
abbrev pub entry_if {ℓ} :
    {A : Type ℓ} → String → (A → Json) → Option A → List (String × Json) → List (String × Json)
entry_if key f none rest = rest
entry_if key f (some a) rest = (key, f a) ∷ rest

-- `d.get(key)` of a dict, and of any value that is expected to be one.
unfoldable pub get : String → Fields → Option Json
get key end = none
get key (field k v rest) = if k == key then some v else get key rest

-- `d[key] = value`
abbrev pub put : String → Json → Fields → Fields
put key v end = field key v end
put key v (field k w rest) = if k == key then field k v rest else field k w (put key v rest)

unfoldable pub set_key : String → Json → Json → Json
set_key key v (object fs) = object (put key v fs)
set_key key v other = other

unfoldable pub get_key : String → Json → Option Json
unfolding get
get_key key (object fs) = get key fs
get_key key _ = none

-- Python's truth of a value.
pub truthy : Json → Bool
truthy null = false
truthy (boolean b) = b
truthy (number n) = if eq_ℤ n (pos 0) then false else true
truthy (text s) = if s == "" then false else true
truthy (array nil) = false
truthy (array (item _ _)) = true
truthy (object end) = false
truthy (object (field _ _ _)) = true

-- Python's `==`: `True == 1` and `False == 0` included.
abbrev bit : Bool → ℤ
bit true = pos 1
bit false = pos 0

abbrev bool_eq : Bool → Bool → Bool
bool_eq true b = b
bool_eq false b = if b then false else true

unfoldable mutual
  pub json_eq : Json → Json → Bool
  json_eq null null = true
  json_eq (boolean a) (boolean b) = bool_eq a b
  json_eq (boolean a) (number n) = eq_ℤ (bit a) n
  json_eq (number n) (boolean b) = eq_ℤ n (bit b)
  json_eq (number m) (number n) = eq_ℤ m n
  json_eq (text s) (text t) = s == t
  json_eq (array xs) (array ys) = items_eq xs ys
  json_eq (object fs) (object gs) = fields_eq fs gs
  json_eq _ _ = false

  pub items_eq : Items → Items → Bool
  items_eq nil nil = true
  items_eq (item x xs) (item y ys) = json_eq x y && items_eq xs ys
  items_eq _ _ = false

  pub fields_eq : Fields → Fields → Bool
  fields_eq end end = true
  fields_eq (field k v fs) (field j w gs) = k == j && (json_eq v w && fields_eq fs gs)
  fields_eq _ _ = false
