-- ===== src/Pack.antt =====
-- src/hcore_pack.c: named values, written to a buffer and read back as the bytes arrive.
-- The machine is little-endian and `unsigned int` has 32 bits. The list of elements is the sequence
-- of its elements, a pointer to one its position. `memory` says whether the pool has memory for what
-- a call allocates.
pub mod Write
pub mod Read
mod Tests
use hcore.Base.{
  ℕ, zero, suc, ◌+◌, ◌-◌, ◌*◌, ◌/◌, ◌%◌, ◌^◌, Bool, Option, none, some, List, [], ◌∷◌, ◌++◌, ltb,
  leb, ◌==◌, if◌then◌else◌, length, take, drop, get_or, set, All, ◌≡◌, ◌≢◌, refl, arith,
}
use hcore.ArrayList.{Sign, less, same, more, find_loop, high1_of}

-- HCORE_PACK_ELEM_TYPE_INT, _DATA and _STR
abbrev pub type_int : ℕ
type_int = 0

abbrev pub type_data : ℕ
type_data = 1

abbrev pub type_str : ℕ
type_str = 2

-- one slot of `values`
pub data Value : Type 0 where
  int : ℕ → Value
  bytes : List ℕ → Value

-- hcore_pack_elem_t
pub record Elem : Type 0 where
  pub name : List ℕ
  pub type : ℕ
  pub values : List Value

-- the phases of the reader
pub data Phase : Type 0 where
  init elem_name_len elem_name elem_type value_num data_int value_len value_data done : Phase

-- hcore_pack_t, with `elem_name.len` as `name_len`; `buf` is what a write has left
pub record Pack : Type 0 where
  pub elements : List Elem
  pub max : ℕ
  pub ref : ℕ
  pub buf : Option (List ℕ)
  pub total_size : ℕ
  pub phase : Phase
  pub need_size : ℕ
  pub num : ℕ
  pub cur_num : ℕ
  pub value_size : ℕ
  pub cur_value_num : ℕ
  pub value_count : ℕ
  pub kind : ℕ
  pub name_len : ℕ
  pub cur_name : List ℕ
  pub cur_elem : ℕ

-- hcore_pack_init; the other fields are zeroed
abbrev pub pack_init : ℕ → Pack
pack_init max = record {
  elements = [];
  max = max;
  ref = 1;
  buf = none;
  total_size = 4;
  phase = init;
  need_size = 4;
  num = 0;
  cur_num = 0;
  value_size = 0;
  cur_value_num = 0;
  value_count = 0;
  kind = 0;
  name_len = 0;
  cur_name = [];
  cur_elem = 0;
}

-- hcore_pack_destroy: whether the pool is destroyed
unfoldable pub pack_destroy : Pack → Bool × Pack
pack_destroy p = let n = p.ref - 1 in (n == 0, record p { ref = n })

-- hcore_pack_create, where `memory` says that each of its allocations succeeds
unfoldable pub pack_create : (memory : Bool) → ℕ → Option Pack
pack_create memory max = if memory then some (pack_init max) else none

abbrev pub compare_num : ℕ → ℕ → Sign
compare_num a b = if ltb a b then less else if a == b then same else more

-- hcore_memcmp over two texts of one length
abbrev pub memcmp : List ℕ → List ℕ → Sign
memcmp [] t = same
memcmp (c ∷ s) [] = same
memcmp (c ∷ s) (d ∷ t) = if c == d then memcmp s t else compare_num c d

-- The sign of the `int` that the low 32 bits of a difference make.
abbrev pub int_sign : ℕ → Sign
int_sign d = if d % 2 ^ 32 == 0 then same else if ltb (d % 2 ^ 32) (2 ^ 31) then more else less

-- hcore_pack_cmp_name; the difference of the types has 32 bits, that of the lengths 64 that the `int`
-- cuts off.
unfoldable pub cmp_name : Elem → Elem → Sign
cmp_name o1 o2 =
    if o1.type == o2.type
    then (if length o1.name == length o2.name
        then memcmp o1.name o2.name
        else int_sign (length o1.name + 2 ^ 64 - length o2.name))
    else int_sign (o1.type + 2 ^ 32 - o2.type)

abbrev pub no_elem : Elem
no_elem = record { name = []; type = 0; values = [] }

-- hcore_list_insert, on the sequence: the position that its search ends at, and the list afterwards.
unfoldable pub insert_elem : List Elem → Elem → Option (ℕ × List Elem)
insert_elem elems e =
    let get : ℕ → Elem = λ i. get_or elems i no_elem in
    elim (find_loop cmp_name get e (length elems + 1) 0 (high1_of (length elems))) [
      | none ↦ none
      | some pos ↦ some (pos, take pos elems ++ e ∷ drop pos elems)
    ]

-- hcore_pack_elem_create: an unknown type is an error
unfoldable pub elem_create : (memory : Bool) → List ℕ → ℕ → Option Elem
elem_create memory name type =
    if memory
    then (if ltb type_str type
        then none
        else some (record { name = name; type = type; values = [] }))
    else none

-- `hcore_array_push(e->values)` and the write to the slot, for the element at position `i`
unfoldable pub push_value : List Elem → ℕ → Value → List Elem
push_value elems i v =
    let e = get_or elems i no_elem in set elems i (record e { values = e.values ++ v ∷ [] })

-- `hcore_snprintf(…, "%s", …)` stops at a 0.
abbrev pub until_nul : List ℕ → List ℕ
until_nul [] = []
until_nul (c ∷ s) = if c == 0 then [] else c ∷ until_nul s

pub until_nul_id : (s : List ℕ) → All (λ c. c ≢ 0) s → until_nul s ≡ s
until_nul_id [] h = refl
until_nul_id (c ∷ s) h = ground (arith, until_nul_id s)

-- What hcore_pack_elem_add_str and hcore_pack_elem_add_data store of some bytes.
unfoldable pub stored : (type : ℕ) → List ℕ → Value
stored type s = if type == type_str then bytes (until_nul s) else bytes s
