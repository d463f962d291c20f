-- ===== src/Common/Json.antt =====
-- Values as Python has them after `json.loads`, and the integers in them. A `float` is kept by its
-- `repr`; a list or dictionary holds a list of values, so the types are declared together.
use Prim.Native.Nat.{ℕ}
use Prim.Native.String.{String}
use mathlib.Core.Bool.{Bool, true, false, not, ◌||◌}
use mathlib.Core.List.{List, [], ◌∷◌}
use aegis_nexus.Common.Tests.{if◌then◌else◌, nat_beq}
use aegis_nexus.Common.Equality.{◌==◌, string_eq, eq_test}
use mathlib.Core.Path.{◌≡◌, refl}
use native.Mathlib.Omega.{arith}

pub data ℤ : Type 0 where
  pos : ℕ → ℤ
  negsuc : ℕ → ℤ

mutual
  pub data Json : Type 0 where
    null : Json
    bool : Bool → Json
    int : ℤ → Json
    float : String → Json
    str : String → Json
    array : Items → Json
    object : Fields → Json

  pub data Items : Type 0 where
    nil : Items
    cons : Json → Items → Items

  pub data Fields : Type 0 where
    end : Fields
    field : String → Json → Fields → Fields

abbrev pub elems : Items → List Json
elems nil = []
elems (cons v vs) = v ∷ elems vs

abbrev pub entries : Fields → List (String × Json)
entries end = []
entries (field k v fs) = (k, v) ∷ entries fs

abbrev pub items_of : List Json → Items
items_of [] = nil
items_of (v ∷ vs) = cons v (items_of vs)

-- `dict.get(key)`: a missing key gives None, and a repeated one does not occur.
unfoldable pub lookup : String → Fields → Json
lookup key end = null
lookup key (field k v fs) = let rest = lookup key fs in if k == key then v else rest

unfoldable pub has_key : String → Fields → Bool
has_key key end = false
has_key key (field k v fs) = k == key || has_key key fs

-- `d.get(key)` of a value that is a dictionary, and None of any other.
abbrev pub get_key : String → Json → Json
get_key key (object fs) = lookup key fs
get_key key _ = null

abbrev pub is_null : Json → Bool
is_null null = true
is_null _ = false

-- The truth value of a Python value.
abbrev pub truthy : Json → Bool
truthy null = false
truthy (bool b) = b
truthy (int (pos n)) = not (nat_beq n 0)
truthy (int (negsuc n)) = true
truthy (float r) = not (r == "0.0" || r == "-0.0")
truthy (str s) = not (s == "")
truthy (array nil) = false
truthy (array (cons v vs)) = true
truthy (object end) = false
truthy (object (field k v fs)) = true

-- `a or b`
abbrev pub or_else : Json → Json → Json
or_else a b = if truthy a then a else b

-- `d[key] = v`: a key that is there keeps its place, a new one goes to the end.
unfoldable pub set_key : String → Json → Fields → Fields
set_key key v end = field key v end
set_key key v (field k w fs) =
    let rest = set_key key v fs in if k == key then field k v fs else field k w rest

pub lookup-set_key :
    (key other : String) (v : Json) (fs : Fields)
    → lookup other (set_key key v fs) ≡ (if key == other then v else lookup other fs)
unfolding lookup set_key
lookup-set_key key other v end = refl
lookup-set_key key other v (field k w fs) =
    ground (arith, lookup-set_key key other v fs, eq_test k key, eq_test k other, eq_test key other)
