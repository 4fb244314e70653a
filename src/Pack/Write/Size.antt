-- ===== src/Pack/Write/Size.antt =====
-- `total_size`, which the functions that add values keep and hcore_pack_write allocates.
use hcore.Base.{
  ℕ, zero, suc, ◌+◌, ◌-◌, ◌/◌, ◌<◌, ◌≤◌, ◌≡◌, ◌≢◌, refl, Bool, Option, none, some, List, [], ◌∷◌,
  ◌++◌, ltb, leb, ◌==◌, length, take, drop, get_or, arith, Bool-cases, Option-cases, inl, inr, ◌∙◌,
  ap, length-append, length-set, length-take, length-drop, take-append-drop, All, not, ◌&&◌,
}
use mathlib.Core.Path.{subst}
use hcore.ArrayList.{Sign, find_loop, high1_of}
use hcore.Pack.{
  Value, int, bytes, Elem, Pack, insert_elem, elem_create, push_value, stored, type_str,
  until_nul_id, no_elem, cmp_name,
}
use hcore.Pack.Write.{
  write_int, write_value, write_values, write_elem, write_elems, value_bytes, store_value, add_to,
  elem_get, add_new, add_value,
}

-- `total_size` is the number of bytes that hcore_pack_write writes.
abbrev pub IsSized : Pack → Type 0
IsSized p = p.total_size ≡ length (write_int (length p.elements) ++ write_elems p.elements)

-- The value of a STR has no 0, on which the copy of its bytes would end.
abbrev pub HasNoNul : (type : ℕ) → Value → Type 0
HasNoNul type (int i) = Unit
HasNoNul type (bytes s) = type ≡ type_str → All (λ c. c ≢ 0) s

length-write_elems_append :
    (xs ys : List Elem)
    → length (write_elems (xs ++ ys)) ≡ length (write_elems xs) + length (write_elems ys)
unfolding write_elems
length-write_elems_append [] ys = omega arith
length-write_elems_append (x ∷ xs) ys = omega (
  arith,
  length-write_elems_append xs ys,
  length-append (write_elem x) (write_elems (xs ++ ys)),
  length-append (write_elem x) (write_elems xs),
)

length-write_values_append :
    (xs : List Value) (v : Value)
    → length (write_values (xs ++ v ∷ [])) ≡ length (write_values xs) + length (write_value v)
unfolding write_values
length-write_values_append [] v = omega (arith, length-append (write_value v) [])
length-write_values_append (x ∷ xs) v = omega (
  arith,
  length-write_values_append xs v,
  length-append (write_value x) (write_values (xs ++ v ∷ [])),
  length-append (write_value x) (write_values xs),
)

-- The bytes of an element but for its values.
head_bytes : List ℕ → ℕ
head_bytes name = 4 + length name + 4 + 4

length-write_elem_lem :
    (e : Elem) → length (write_elem e) ≡ head_bytes e.name + length (write_values e.values)
unfolding write_elem head_bytes
length-write_elem_lem e = omega (
  arith,
  length-append e.name (write_int e.type ++ (write_int (length e.values) ++ write_values e.values)),
)

length-push_value :
    (elems : List Elem) (i : ℕ) (v : Value)
    → i < length elems
    → length (write_elems (push_value elems i v))
      ≡ length (write_elems elems) + length (write_value v)
unfolding push_value write_elems
length-push_value [] i v h = absurd (omega arith)
length-push_value (e ∷ elems) zero v h =
    let e' : Elem = record { name = e.name; type = e.type; values = e.values ++ v ∷ [] } in
    omega (
      arith,
      length-append (write_elem e') (write_elems elems),
      length-append (write_elem e) (write_elems elems),
      length-write_elem_lem e',
      length-write_elem_lem e,
      length-write_values_append e.values v,
    )
length-push_value (e ∷ elems) (suc i) v h = omega (
  arith,
  length-append (write_elem e) (write_elems (push_value elems i v)),
  length-append (write_elem e) (write_elems elems),
  length-push_value elems i v (omega arith),
)

stored_nul : (type : ℕ) (s : List ℕ) → HasNoNul type (bytes s) → stored type s ≡ bytes s
unfolding stored
stored_nul type s h = ground (arith, until_nul_id s)

by_stored :
    (type : ℕ) (s : List ℕ)
    → stored type s ≡ bytes s
    → length (write_value (stored type s)) ≡ 4 + length s
unfolding write_value
by_stored type s e = rw e (omega arith)

length-write_value_lem :
    (type : ℕ) (v : Value)
    → HasNoNul type v
    → length (write_value (store_value type v)) ≡ value_bytes v
unfolding write_value
length-write_value_lem type (int i) h = refl
length-write_value_lem type (bytes s) h = by_stored type s (stored_nul type s h)

find_loop-le :
    (cmp : Elem → Elem → Sign) (get : ℕ → Elem) (x : Elem) (fuel low high1 pos : ℕ)
    → low ≤ high1
    → find_loop cmp get x fuel low high1 ≡ some pos
    → pos ≤ high1
unfolding find_loop
find_loop-le cmp get x zero low high1 pos h e = ground arith
find_loop-le cmp get x (suc fuel) low high1 pos h e = ground (
  arith,
  find_loop-le cmp get x fuel low ((low + high1 - 1) / 2) pos,
  find_loop-le cmp get x fuel ((low + high1 - 1) / 2 + 1) high1 pos,
)

length-push_elems :
    (elems : List Elem) (i : ℕ) (v : Value) → length (push_value elems i v) ≡ length elems
unfolding push_value
length-push_elems elems i v = length-set elems i _

-- A new element takes its place.
Adds : List Elem → Elem → Option (ℕ × List Elem) → Type 0
Adds elems e none = Unit
Adds elems e (some (pos, elems')) =
    (pos < length elems')
    × (length elems' ≡ suc (length elems))
    × (length (write_elems elems') ≡ length (write_elems elems) + length (write_elem e))

placed :
    (elems : List Elem) (e : Elem) (pos : ℕ)
    → pos ≤ length elems
    → Adds elems e (some (pos, take pos elems ++ e ∷ drop pos elems))
unfolding Adds write_elems
placed elems e pos h =
    let a = length-append (take pos elems) (e ∷ drop pos elems) in
    let t = length-take pos elems in
    let d = length-drop pos elems in
    (
      omega (arith, a, t),
      omega (arith, a, t, d, h),
      omega (
        arith,
        length-write_elems_append (take pos elems) (e ∷ drop pos elems),
        length-append (write_elem e) (write_elems (drop pos elems)),
        length-write_elems_append (take pos elems) (drop pos elems),
        ap (λ xs. length (write_elems xs)) (take-append-drop pos elems),
      ),
    )

high1-le : (n : ℕ) → high1_of n ≤ n
high1-le n = ground arith

insert_elem-Adds : (elems : List Elem) (e : Elem) → Adds elems e (insert_elem elems e)
unfolding insert_elem Adds
insert_elem-Adds elems e =
    let n = length elems in
    elim (Option-cases
      (find_loop cmp_name (λ i. get_or elems i no_elem) e (n + 1) 0 (high1_of n))) [
        | inl h ↦ rw (h, Adds, insert_elem) tt
        | inr (pos, h) ↦
            rw (h, Adds, insert_elem)
              (placed elems e pos (
                omega (
                  arith,
                  high1-le n,
                  find_loop-le cmp_name (λ i. get_or elems i no_elem) e (n + 1) 0 (high1_of n) pos
                      (omega arith) h,
                )))
      ]

-- A value added to an element that is there counts for its bytes.
add_to-IsSized :
    (p : Pack) (i type : ℕ) (v : Value)
    → HasNoNul type v
    → i < length p.elements
    → IsSized p
    → IsSized (add_to p i type v)
unfolding add_to
add_to-IsSized p i type v n h s = omega (
  arith,
  s,
  length-push_value p.elements i (store_value type v) h,
  length-write_value_lem type v n,
)

SizedIfAdded : Option Pack → Type 0
SizedIfAdded none = Unit
SizedIfAdded (some p) = IsSized p

add_placed :
    (p : Pack) (name : List ℕ) (type : ℕ) (v : Value) (r : Option (ℕ × List Elem))
    → HasNoNul type v
    → IsSized p
    → Adds p.elements (record { name = name; type = type; values = [] }) r
    → SizedIfAdded (elim r [
      | none ↦ none
      | some (pos, elems) ↦ some (
          add_to
            (record p { elements = elems; total_size = p.total_size + 4 + length name + 4 + 4 })
            pos
            type
            v)
    ])
unfolding Adds SizedIfAdded head_bytes write_values
add_placed p name type v none n s a = tt
add_placed p name type v (some (pos, elems)) n s a = add_to-IsSized _ pos type v n a.0 (
    omega (
      arith,
      s,
      a.1,
      a.2,
      length-write_elem_lem (record { name = name; type = type; values = [] }),
    ))

add_new-IsSized :
    (memory : Bool) (p : Pack) (name : List ℕ) (type : ℕ) (v : Value)
    → HasNoNul type v
    → IsSized p
    → SizedIfAdded (add_new memory p name type v)
unfolding SizedIfAdded add_new elem_create
add_new-IsSized memory p name type v n s =
    elim (Bool-cases (not (p.max == 0) && leb p.max (length p.elements))) [
      | inl h ↦ rw h tt
      | inr h ↦ elim (Bool-cases memory) [
        | inl m ↦ elim (Bool-cases (ltb type_str type)) [
          | inl t ↦ rw (h, m, t) tt
          | inr t ↦
              let e : Elem = record { name = name; type = type; values = [] } in
              rw (h, m, t)
                (add_placed p name type v (insert_elem p.elements e) n s
                  (insert_elem-Adds p.elements e))
        ]
        | inr m ↦ rw (h, m) tt
      ]
    ]

-- If hcore_list_search gives positions of the pack's elements only, the value of a STR has no 0, and
-- `total_size` is what hcore_pack_write would write, it is again when hcore_pack_add_value has added
-- the value.
pub add_value-IsSized :
    (find : List Elem → Elem → Option ℕ) (memory : Bool) (p : Pack) (name : List ℕ) (type : ℕ)
    (v : Value) (p' : Pack)
    → ((elems : List Elem) (e : Elem) (i : ℕ) → find elems e ≡ some i → i < length elems)
    → HasNoNul type v
    → IsSized p
    → add_value find memory p name type v ≡ some p'
    → IsSized p'
unfolding add_value elem_get SizedIfAdded
add_value-IsSized find memory p name type v p' f n s h =
    let e : Elem = record { name = name; type = type; values = [] } in
    let w : Option Pack = add_value find memory p name type v in
    elim (Option-cases (find p.elements e)) [
      | inl g ↦
          let c : add_new memory p name type v ≡ w = rw (g, add_value) in
          subst SizedIfAdded (c ∙ h) (add_new-IsSized memory p name type v n s)
      | inr (i, g) ↦ elim (Bool-cases memory) [
        | inl m ↦
            let c : some (add_to p i type v) ≡ w = rw (g, m, add_value) in
            subst SizedIfAdded (c ∙ h) (add_to-IsSized p i type v n (f p.elements e i g) s)
        | inr m ↦ let c : none ≡ w = rw (g, m, add_value) in subst SizedIfAdded (c ∙ h) tt
      ]
    ]
