-- ===== src/Pack/Read.antt =====
-- hcore_pack_read: a machine that takes the bytes that its phase needs, whenever they have come.
pub mod Steps
pub mod Chunks
pub mod RoundTrip
use hcore.Base.{
  ℕ, zero, suc, ◌+◌, ◌-◌, ◌*◌, ◌/◌, ◌%◌, ◌^◌, Bool, true, false, not, ◌&&◌, ◌||◌, Option, none,
  some, List, [], ◌∷◌, ◌++◌, ltb, leb, ◌==◌, if◌then◌else◌, length, take, drop, get_or,
}
use hcore.Pack.{
  Value, int, bytes, Elem, Phase, init, elem_name_len, elem_name, elem_type, value_num, data_int,
  value_len, value_data, done, Pack, insert_elem, elem_create, push_value, stored, type_int,
  type_str,
}

-- hcore_pack_read_int
abbrev pub read_int : List ℕ → ℕ
read_int p = get_or p 0 0 + get_or p 1 0 * 2 ^ 8 + get_or p 2 0 * 2 ^ 16 + get_or p 3 0 * 2 ^ 24

-- How a round ends: `p` is advanced by some bytes and the loop goes on, or it is left by `goto done`,
-- or the call returns -1.
pub data Round : Type 0 where
  next : (taken : ℕ) → Pack → Round
  over : (taken : ℕ) → Pack → Round
  failed : Round

-- A value has been added, `taken` bytes were its own: on to the next, or to the next element, or done.
unfoldable pub added : (taken : ℕ) (again : Phase) → Pack → Round
added taken again p =
    let p' = record p { cur_value_num = p.cur_value_num + 1 } in
    if p'.cur_value_num == p.value_count
    then (if p.cur_num + 1 == p.num
        then over taken (record p' { cur_num = p.cur_num + 1; phase = done })
        else next taken
            (record p' { cur_num = p.cur_num + 1; phase = elem_name_len; need_size = 4 }))
    else next taken (record p' { phase = again; need_size = 4 })

-- The element that a count of values starts.
unfoldable pub start_elem : (memory : Bool) → Pack → ℕ → Round
start_elem memory p count =
    if count == 0 then failed else elim (elem_create memory p.cur_name p.kind) [
      | none ↦ failed
      | some e ↦ elim (insert_elem p.elements e) [
        | none ↦ failed
        | some (pos, elems) ↦ next 4 (record p {
          value_count = count;
          cur_value_num = 0;
          elements = elems;
          cur_elem = pos;
          need_size = 4;
          phase = if p.kind == type_int then data_int else value_len;
        })
      ]
    ]

-- One round of the loop, on the bytes from `p` on.
unfoldable pub round : (memory : Bool) → Pack → Phase → List ℕ → Round
unfolding added start_elem
round memory p init s =
    if read_int s == 0
    then failed
    else next 4 (record p { num = read_int s; cur_num = 0; phase = elem_name_len; need_size = 4 })
round memory p elem_name_len s =
    if not (p.max == 0) && ltb p.max p.num
    then failed
    else next 4 (record p { name_len = read_int s; phase = elem_name; need_size = read_int s })
round memory p elem_name s =
    if memory
    then next p.name_len
        (record p { cur_name = take p.name_len s; phase = elem_type; need_size = 4 })
    else failed
round memory p elem_type s =
    next 4 (record p { kind = read_int s; phase = value_num; need_size = 4 })
round memory p value_num s = start_elem memory p (read_int s)
round memory p data_int s =
    if memory
    then added 4 data_int
        (record p { elements = push_value p.elements p.cur_elem (int (read_int s)) })
    else failed
round memory p value_len s =
    next 4 (record p { value_size = read_int s; phase = value_data; need_size = read_int s })
round memory p value_data s =
    if memory
    then added p.value_size value_len (record p {
      elements = push_value p.elements p.cur_elem (stored p.kind (take p.value_size s));
    })
    else failed
round memory p done s = over 0 p

-- What a call comes to: the bytes taken and the pack, or -1; `spent` if it is still running when its
-- fuel is gone.
pub data Reading : Type 0 where
  read : (taken : ℕ) → Pack → Reading
  broken : Reading
  spent : Reading

unfoldable pub read_loop : (fuel : ℕ) (memory : Bool) → Pack → List ℕ → (taken : ℕ) → Reading
read_loop zero memory p s taken = spent
read_loop (suc fuel) memory p s taken =
    if leb p.need_size (length s)
    then elim (round memory p p.phase s) [
      | next k p' ↦ read_loop fuel memory p' (drop k s) (taken + k)
      | over k p' ↦ read (taken + k) p'
      | failed ↦ broken
    ]
    else read taken p

-- At most one round in two takes no byte.
unfoldable pub pack_read : (memory : Bool) → Pack → List ℕ → Reading
pack_read memory p s = read_loop (2 * length s + 2) memory p s 0
