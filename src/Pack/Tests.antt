-- ===== src/Pack/Tests.antt =====
-- Packs written and read.
use hcore.Base.{
  ℕ, ◌≡◌, refl, true, none, some, List, [], ◌∷◌, ◌++◌, arith, length, inr, drop, Option, ◌≤◌, ◌≢◌,
}
use hcore.Pack.{
  int, bytes, Elem, elem_name_len, done, Pack, elem_create, insert_elem, push_value, pack_init,
  cmp_name,
}
use hcore.Pack.Write.{
  written, pack_write, write_elem, write_value, write_values, write_elems, add_value, add_new,
  elem_get, add_to,
}
use hcore.ArrayList.{find_loop}
use hcore.Pack.Write.Size.{IsSized, add_value-IsSized}
use hcore.Pack.Read.{read, spent, pack_read, read_loop, round}
use hcore.Pack.Read.Steps.{IsReady, shift, pack_read_ends}
use hcore.Pack.Read.Chunks.{pack_read-append}
use hcore.Pack.Read.RoundTrip.{AreElems, pack_read-pack_write}

abbrev two_elems : List Elem
two_elems =
    (record { name = 97 ∷ []; type = 0; values = int 7 ∷ int 300 ∷ [] })
    ∷ (record { name = 98 ∷ 99 ∷ []; type = 2; values = bytes (104 ∷ 105 ∷ []) ∷ [] })
    ∷ []

abbrev two_elems_pack : Pack
two_elems_pack = record (pack_init 0) { elements = two_elems; total_size = 45 }

two_elems-AreElems : AreElems [] two_elems
unfolding cmp_name
two_elems-AreElems = ground arith

-- Six of the bytes of a pack: its count, and half of a length.
abbrev six_bytes : List ℕ
six_bytes = 2 ∷ 0 ∷ 0 ∷ 0 ∷ 1 ∷ 0 ∷ []

abbrev counted_pack : Pack
counted_pack = record (pack_init 0) { num = 2; cur_num = 0; phase = elem_name_len; need_size = 4 }

six_bytes_read : pack_read true (pack_init 0) six_bytes ≡ read 4 counted_pack
unfolding pack_read read_loop round
six_bytes_read = refl

-- The bytes left and those that come later.
pack_read-append_example :
    IsReady counted_pack
    × (4 ≤ length six_bytes)
    × (pack_read true (pack_init 0) (six_bytes ++ 0 ∷ 0 ∷ 97 ∷ [])
        ≡ shift 4 (pack_read true counted_pack (drop 4 six_bytes ++ 0 ∷ 0 ∷ 97 ∷ [])))
pack_read-append_example =
    pack_read-append true (pack_init 0) six_bytes (0 ∷ 0 ∷ 97 ∷ []) 4 counted_pack refl
      six_bytes_read

pack_read_ends_example : pack_read true (pack_init 0) six_bytes ≢ spent
pack_read_ends_example = pack_read_ends true (pack_init 0) six_bytes refl

two_elems-IsSized : IsSized two_elems_pack
unfolding write_elems write_elem write_values write_value
two_elems-IsSized = refl

pack_read-pack_write_example :
    (out : List ℕ) × (q : Pack) × ((pack_write true true two_elems_pack).0
      ≡ written out (some (length out)))
    × (pack_read true (pack_init 2) (out ++ 1 ∷ []) ≡ read (length out) q)
    × (q.elements ≡ two_elems)
    × (q.phase ≡ done)
pack_read-pack_write_example =
    pack_read-pack_write two_elems_pack true 2 (1 ∷ []) refl two_elems-IsSized (omega arith)
      (omega arith) (inr (omega arith)) two_elems-AreElems

-- A list search that finds nothing.
abbrev finds_none : List Elem → Elem → Option ℕ
finds_none elems e = none

added_value :
    add_value finds_none true (pack_init 0) (97 ∷ []) 0 (int 7)
    ≡ some (record (pack_init 0) {
      elements = (record { name = 97 ∷ []; type = 0; values = int 7 ∷ [] }) ∷ [];
      total_size = 21;
    })
unfolding add_value elem_get add_new elem_create insert_elem add_to push_value find_loop
added_value = refl

new-IsSized : IsSized (pack_init 0)
unfolding write_elems
new-IsSized = refl

add_value-IsSized_example : IsSized (record (pack_init 0) {
  elements = (record { name = 97 ∷ []; type = 0; values = int 7 ∷ [] }) ∷ [];
  total_size = 21;
})
add_value-IsSized_example =
    add_value-IsSized finds_none true (pack_init 0) (97 ∷ []) 0 (int 7) _
      (λ elems e i h. ground arith) tt new-IsSized added_value
