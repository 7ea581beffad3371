-- ===== src/Json.antt =====
-- The JSON values that the controller reads and writes, and Python's `dict` over them.
-- A dict is the list of its entries in insertion order.
pub mod Laws
pub mod Number
pub mod Render
use hv2pve.Prelude.{
  ℕ, suc, String, Bool, true, false, ◌&&◌, not, Option, none, some, ◌==◌, str_eq, if◌then◌else◌,
}
use hv2pve.Prelude.Int.{ℤ, pos, negsuc}

mutual
  pub data Value : Type 0 where
    obj : Fields → Value
    arr : Items → Value
    str : String → Value
    int : ℤ → Value
    bool : Bool → Value
    null : Value

  pub data Fields : Type 0 where
    end : Fields
    field : String → Value → Fields → Fields

  pub data Items : Type 0 where
    nil : Items
    cons : Value → Items → Items

-- `d[k]` as an option.
unfoldable pub find : String → Fields → Option Value
find k end = none
find k (field j v d) = if str_eq j k then some v else find k d

-- `d[k] = v`: an entry that is there keeps its place.
unfoldable pub put : String → Value → Fields → Fields
put k v end = field k v end
put k v (field j w d) = if str_eq j k then field j v d else field j w (put k v d)

-- `d.pop(k, None)`: keys are unique, so one entry goes.
unfoldable pub pop : String → Fields → Fields
pop k end = end
pop k (field j w d) = if str_eq j k then d else field j w (pop k d)

abbrev pub or_else : Option Value → Value → Value
or_else none v = v
or_else (some w) v = w

-- `d.get(k)`: `None` for a missing key.
abbrev pub get : String → Fields → Value
get k d = or_else (find k d) null

-- `d.setdefault(k, v)`.
abbrev pub set_default : String → Value → Fields → Fields
set_default k v d = elim (find k d) [ none ↦ put k v d | some w ↦ d ]

-- `d.update(e)`.
unfoldable pub update : Fields → Fields → Fields
update d end = d
update d (field k v e) = update (put k v d) e

-- Python's truth value of an object.
unfoldable pub truthy : Value → Bool
truthy null = false
truthy (bool b) = b
truthy (int (pos n)) = not (n == 0)
truthy (int (negsuc n)) = true
truthy (str s) = not (str_eq s "")
truthy (arr nil) = false
truthy (arr (cons v vs)) = true
truthy (obj end) = false
truthy (obj (field k v d)) = true

-- `a or b`.
abbrev pub or_value : Value → Value → Value
or_value a b = if truthy a then a else b

-- The number of entries of a dict.
abbrev pub size : Fields → ℕ
size end = 0
size (field k v d) = suc (size d)

abbrev pub int_eq : ℤ → ℤ → Bool
int_eq (pos m) (pos n) = m == n
int_eq (negsuc m) (negsuc n) = m == n
int_eq _ _ = false

-- A bool is a number for `==`.
abbrev pub bool_number : Bool → ℤ
bool_number true = pos 1
bool_number false = pos 0

-- `a == b` where `b` is no list and no dict.
abbrev scalar_eq : Value → Value → Bool
scalar_eq null null = true
scalar_eq (bool a) (bool b) = int_eq (bool_number a) (bool_number b)
scalar_eq (bool a) (int n) = int_eq (bool_number a) n
scalar_eq (int m) (bool b) = int_eq m (bool_number b)
scalar_eq (int m) (int n) = int_eq m n
scalar_eq (str s) (str t) = str_eq s t
scalar_eq _ _ = false

-- `a == b`: lists item by item, dicts by key whatever the order of their entries.
unfoldable mutual
  pub value_eq : Value → Value → Bool
  value_eq null w = scalar_eq null w
  value_eq (bool b) w = scalar_eq (bool b) w
  value_eq (int n) w = scalar_eq (int n) w
  value_eq (str s) w = scalar_eq (str s) w
  value_eq (arr vs) w = elim w [ arr ws ↦ items_eq vs ws | _ ↦ false ]
  value_eq (obj d) w = elim w [ obj e ↦ size d == size e && fields_eq d e | _ ↦ false ]

  pub items_eq : Items → Items → Bool
  items_eq nil ws = elim ws [ nil ↦ true | cons w r ↦ false ]
  items_eq (cons v vs) ws = elim ws [ nil ↦ false | cons w r ↦ value_eq v w && items_eq vs r ]

  pub fields_eq : Fields → Fields → Bool
  fields_eq end e = true
  fields_eq (field k v d) e =
      elim (find k e) [ none ↦ false | some w ↦ value_eq v w ] && fields_eq d e
