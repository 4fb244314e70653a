-- ===== src/Pack/Write.antt =====
-- hcore_pack_write and the functions that add values.
pub mod Size
use hcore.Base.{
  ℕ, zero, suc, ◌+◌, ◌-◌, ◌*◌, ◌/◌, ◌%◌, ◌^◌, Bool, true, false, Option, none, some, List, [], ◌∷◌,
  ◌++◌, ltb, leb, ◌==◌, not, ◌&&◌, if◌then◌else◌, length, take, drop, get_or, set, ◌>>=◌,
}
use hcore.Pack.{
  Value, int, bytes, Elem, Pack, insert_elem, elem_create, push_value, stored, type_int, type_str,
  type_data, until_nul, cmp_name, no_elem,
}
use hcore.ArrayList.{Sign}

-- hcore_pack_write_int
abbrev pub write_int : ℕ → List ℕ
write_int i = (i % 256) ∷ (i / 2 ^ 8 % 256) ∷ (i / 2 ^ 16 % 256) ∷ (i / 2 ^ 24 % 256) ∷ []

-- hcore_pack_write_str
abbrev pub write_str : List ℕ → List ℕ
write_str s = write_int (length s) ++ s

unfoldable pub write_value : Value → List ℕ
write_value (int i) = write_int i
write_value (bytes s) = write_str s

unfoldable pub write_values : List Value → List ℕ
write_values [] = []
write_values (v ∷ values) = write_value v ++ write_values values

unfoldable pub write_elem : Elem → List ℕ
write_elem e =
    write_str e.name ++ (write_int e.type ++ (write_int (length e.values) ++ write_values e.values))

unfoldable pub write_elems : List Elem → List ℕ
write_elems [] = []
write_elems (e ∷ elems) = write_elem e ++ write_elems elems

-- How hcore_pack_write ends: with NULL, with the buffer and the number that `*size` is set to, if it is,
-- with a write behind the memory that it allocated, or with an abort by its assertion.
pub data Written : Type 0 where
  null overrun aborted : Written
  written : List ℕ → Option ℕ → Written

-- hcore_pack_write, and the pack. A buffer written before is returned again. `total_size` bytes are
-- allocated; the assertion that all of them are written is compiled in where `asserts`.
unfoldable pub pack_write : (memory asserts : Bool) → Pack → Written × Pack
pack_write memory asserts p =
    let out = write_int (length p.elements) ++ write_elems p.elements in
    if length p.elements == 0 then (null, p) else elim p.buf [
      | some buf ↦ (written buf none, p)
      | none ↦
          if not memory
          then (null, p)
          else if ltb p.total_size (length out)
          then (overrun, p)
          else if asserts && not (length out == p.total_size)
          then (aborted, p)
          else (written out (some (length out)), record p { buf = some out })
    ]

-- The bytes that a value counts for in `total_size`.
abbrev pub value_bytes : Value → ℕ
value_bytes (int i) = 4
value_bytes (bytes s) = 4 + length s

-- What a value becomes in the element.
abbrev pub store_value : ℕ → Value → Value
store_value type (int i) = int i
store_value type (bytes s) = stored type s

-- The `switch` of hcore_pack_add_value, for the element at position `i`.
unfoldable pub add_to : Pack → (i type : ℕ) → Value → Pack
add_to p i type v = record p {
  total_size = p.total_size + value_bytes v;
  elements = push_value p.elements i (store_value type v);
}

-- hcore_pack_add_value for a name and type that the pack has not.
unfoldable pub add_new : (memory : Bool) → Pack → List ℕ → ℕ → Value → Option Pack
add_new memory p name type v =
    if not (p.max == 0) && leb p.max (length p.elements)
    then none
    else elim (elem_create memory name type) [
      | none ↦ none
      | some e ↦ elim (insert_elem p.elements e) [
        | none ↦ none
        | some (pos, elems) ↦ some (
            add_to
              (record p { elements = elems; total_size = p.total_size + 4 + length name + 4 + 4 })
              pos type v)
      ]
    ]

-- `array[0]`, which has the type of the element.
abbrev pub first_int : List Value → Option ℕ
first_int (int i ∷ values) = some i
first_int _ = none

abbrev pub first_bytes : List Value → Option (List ℕ)
first_bytes (bytes s ∷ values) = some s
first_bytes _ = none

-- hcore_pack_add_value. `find` is hcore_list_search, which gives the position of the element found.
module _ (find : List Elem → Elem → Option ℕ) where
  unfoldable pub elem_get : List Elem → List ℕ → ℕ → Option ℕ
  elem_get elems name type = find elems (record { name = name; type = type; values = [] })

  unfoldable pub add_value : (memory : Bool) → Pack → List ℕ → ℕ → Value → Option Pack
  unfolding elem_get
  add_value memory p name type v = elim (elem_get p.elements name type) [
    | none ↦ add_new memory p name type v
    | some i ↦ if memory then some (add_to p i type v) else none
  ]

  unfoldable pub add_int : (memory : Bool) → Pack → List ℕ → ℕ → Option Pack
  add_int memory p name i = add_value memory p name type_int (int (i % 2 ^ 32))

  unfoldable pub add_str : (memory : Bool) → Pack → List ℕ → List ℕ → Option Pack
  add_str memory p name str = add_value memory p name type_str (bytes str)

  unfoldable pub add_data : (memory : Bool) → Pack → List ℕ → List ℕ → Option Pack
  add_data memory p name data' = add_value memory p name type_data (bytes data')

  -- `str` is the text up to its 0.
  unfoldable pub add_str_char : (memory : Bool) → Pack → List ℕ → List ℕ → Option Pack
  unfolding add_str
  add_str_char memory p name str = add_str memory p name (until_nul str)

  unfoldable pub get_array : Pack → List ℕ → ℕ → Option (List Value)
  unfolding elem_get
  get_array p name type = elim (elem_get p.elements name type) [
    | none ↦ none
    | some i ↦
        let values = (get_or p.elements i no_elem).values in
        if length values == 0 then none else some values
  ]

  unfoldable pub get_int_array : Pack → List ℕ → Option (List Value)
  get_int_array p name = get_array p name type_int

  unfoldable pub get_str_array : Pack → List ℕ → Option (List Value)
  get_str_array p name = get_array p name type_str

  unfoldable pub get_data_array : Pack → List ℕ → Option (List Value)
  get_data_array p name = get_array p name type_data

  -- The first value of an array; `*i`, `*str` or `*data` is cleared on an error.
  unfoldable pub get_int : Pack → List ℕ → Option ℕ
  unfolding get_int_array get_array
  get_int p name = get_int_array p name >>= first_int

  unfoldable pub get_str : Pack → List ℕ → Option (List ℕ)
  unfolding get_str_array get_array
  get_str p name = get_str_array p name >>= first_bytes

  unfoldable pub get_data : Pack → List ℕ → Option (List ℕ)
  unfolding get_data_array get_array
  get_data p name = get_data_array p name >>= first_bytes
