-- ===== src/Pack/Read/RoundTrip/Elements.antt =====
-- An element, from its name to its last value, and where the reader puts it.
use hcore.Base.{
  ℕ, zero, suc, ◌+◌, ◌-◌, ◌/◌, ◌^◌, ◌<◌, ◌≤◌, ◌≡◌, refl, true, false, some, List, [], ◌∷◌, ◌++◌,
  ltb, ltb→lt, le→leb, ◌==◌, length, get_or, arith, Bool-cases, inl, inr, ◌⊎◌, ◌∙◌, ap, take_all,
  drop_all, All, not, ◌&&◌,
}
use mathlib.Core.Path.{subst}
use hcore.ArrayList.{Sign, less, find_loop}
use hcore.Pack.{
  Value, Elem, elem_name_len, elem_name, elem_type, value_num, Pack, insert_elem, elem_create,
  type_str, no_elem, cmp_name,
}
use hcore.Pack.Read.{next, start_elem, round}
use hcore.Pack.Read.RoundTrip.Fields.{Leads, Leads-append, next-Leads, read_int-write_int}
use hcore.Pack.Read.RoundTrip.Values.{Fits, Amid, Past, again_of, values_read}
use hcore.Pack.Write.{write_int, write_str, write_values, write_elem}

-- An element that can be written: of a known type, with a value, all of it counted by 32 bits.
abbrev pub IsElem : Elem → Type 0
IsElem e =
    (length e.name < 2 ^ 32)
    × (e.type ≤ 2)
    × (1 ≤ length e.values)
    × (length e.values < 2 ^ 32)
    × All (Fits e.type) e.values

not_ltb : (low n : ℕ) → low ≤ n → ltb low n ≡ false → low ≡ n
not_ltb low n h e = ground arith

-- The search moves right at every turn.
find_loop-last :
    (cmp : Elem → Elem → Sign) (get : ℕ → Elem) (x : Elem) (n : ℕ)
    → ((i : ℕ) → i < n → cmp (get i) x ≡ less)
    → n ≤ 2 ^ 30
    → (fuel low : ℕ) → low ≤ n
    → n < low + fuel
    → find_loop cmp get x fuel low n ≡ some n
unfolding find_loop
find_loop-last cmp get x n all few zero low h f = absurd (omega arith)
find_loop-last cmp get x n all few (suc fuel) low h f = elim (Bool-cases (ltb low n)) [
  | inl e ↦
      let lt : low < n = ltb→lt low n e in
      rw
        (
          e,
          le→leb (low + n) (2 ^ 31) (omega (arith, lt, few)),
          all ((low + n - 1) / 2) (omega (arith, lt)),
        )
        (find_loop-last cmp get x n all few fuel ((low + n - 1) / 2 + 1) (omega (arith, lt))
          (omega (arith, lt, f)))
  | inr e ↦ rw e (ap some (not_ltb low n h e))
]

get_or-All :
    (P : Elem → Type 0) (elems : List Elem) (i : ℕ)
    → All P elems
    → i < length elems
    → P (get_or elems i no_elem)
get_or-All P [] i a h = absurd (omega arith)
get_or-All P (x ∷ elems) zero a h = a.0
get_or-All P (x ∷ elems) (suc i) a h = get_or-All P elems i a.1 (omega arith)

-- An element above all others goes to the end.
insert_elem-last :
    (elems : List Elem) (e : Elem)
    → All (λ x. cmp_name x e ≡ less) elems
    → length elems ≤ 2 ^ 30
    → insert_elem elems (record { name = e.name; type = e.type; values = [] })
      ≡ some (length elems, elems ++ (record { name = e.name; type = e.type; values = [] }) ∷ [])
unfolding insert_elem cmp_name
insert_elem-last elems e a few =
    let e0 : Elem = record { name = e.name; type = e.type; values = [] } in
    let n = length elems in
    let f : find_loop cmp_name (λ i. get_or elems i no_elem) e0 (n + 1) 0 n ≡ some n =
      find_loop-last cmp_name (λ i. get_or elems i no_elem) e0 n
        (λ i. get_or-All (λ x. cmp_name x e ≡ less) elems i a) few (n + 1) 0 (omega arith)
        (omega arith) in
    rw (le→leb n (2 ^ 31) (omega (arith, few)), f, insert_elem, take_all elems, drop_all elems)

max_ok : (max num : ℕ) → max ≡ 0 ⊎ num ≤ max → (not (max == 0) && ltb max num) ≡ false
max_ok max num h = ground arith

known_type : (type : ℕ) → type ≤ 2 → ltb type_str type ≡ false
known_type type h = ground arith

pub nonzero : (n : ℕ) → 1 ≤ n → (n == 0) ≡ false
nonzero n h = ground arith

started : Pack → Elem → Pack
started p e = record p {
  value_count = length e.values;
  cur_value_num = 0;
  elements = p.elements ++ (record { name = e.name; type = e.type; values = [] }) ∷ [];
  cur_elem = length p.elements;
  need_size = 4;
  phase = again_of e.type;
}

start_elem-last :
    (p : Pack) (e : Elem)
    → p.cur_name ≡ e.name
    → p.kind ≡ e.type
    → IsElem e
    → All (λ x. cmp_name x e ≡ less) p.elements
    → length p.elements ≤ 2 ^ 30
    → start_elem true p (length e.values) ≡ next 4 (started p e)
unfolding start_elem elem_create started
start_elem-last p e h k i a few =
    let t : ltb type_str e.type ≡ false = known_type e.type i.1 in
    let c : (length e.values == 0) ≡ false = nonzero (length e.values) i.2 in
    rw (c, h, k, t, insert_elem-last p.elements e a few, k, h)

-- The name, the type and the count of values.
header_read :
    (p : Pack) (e : Elem)
    → p.phase ≡ elem_name_len
    → p.need_size ≡ 4
    → p.max ≡ 0 ⊎ p.num ≤ p.max
    → IsElem e
    → All (λ x. cmp_name x e ≡ less) p.elements
    → length p.elements ≤ 2 ^ 30
    → (q : Pack) × Amid p p.elements e [] q
      × ((w : List ℕ) (r : Pack)
          → Leads q w r
          → Leads p
              (write_str e.name ++ (write_int e.type ++ (write_int (length e.values) ++ w)))
              r)
unfolding round started
header_read p e h n m i a few =
    let p1 : Pack = record p {
      name_len = length e.name;
      phase = elem_name;
      need_size = length e.name;
    } in
    let p2 : Pack = record p1 { cur_name = e.name; phase = elem_type; need_size = 4 } in
    let p3 : Pack = record p2 { kind = e.type; phase = value_num; need_size = 4 } in
    let p4 : Pack = started p3 e in
    let l1 : Leads p (write_int (length e.name)) p1 =
      next-Leads p p1 (write_int (length e.name)) (rw h n) n
        (rw (h, max_ok p.max p.num m, read_int-write_int (length e.name) [] i.0)) in
    let l2 : Leads p1 e.name p2 = next-Leads p1 p2 e.name refl refl (rw (take_all e.name)) in
    let l3 : Leads p2 (write_int e.type) p3 =
      next-Leads p2 p3 (write_int e.type) refl refl
        (rw (read_int-write_int e.type [] (omega (arith, i.1)))) in
    let l4 : Leads p3 (write_int (length e.values)) p4 =
      next-Leads p3 p4 (write_int (length e.values)) refl refl (
        ap (start_elem true p3) (read_int-write_int (length e.values) [] i.3)
        ∙ start_elem-last p3 e refl refl i a few) in
    (
      p4,
      (record {
        elements-is = refl;
        phase-is = refl;
        need-is = refl;
        kind-is = refl;
        elem-is = refl;
        value_num-is = refl;
        count-is = refl;
        cur-is = refl;
        num-is = refl;
        max-is = refl;
      }),
      λ w r l5.
          Leads-append p p2 r (write_str e.name)
            (write_int e.type ++ (write_int (length e.values) ++ w))
            (Leads-append p p1 p2 (write_int (length e.name)) e.name l1 l2)
            (Leads-append p2 p3 r (write_int e.type) (write_int (length e.values) ++ w) l3
              (Leads-append p3 p4 r (write_int (length e.values)) w l4 l5)),
    )

by_values :
    (p : Pack) (e : Elem) (vs : List Value)
    → e.values ≡ vs
    → IsElem e
    → (q : Pack) → Amid p p.elements e [] q
    → (r : Pack) × Leads q (write_values e.values) r × Past p (p.elements ++ e ∷ []) r
by_values p e [] h i q a = absurd (omega (arith, i.2, ap length h))
by_values p e (v ∷ vs) h i q a =
    let g = values_read p q p.elements e [] v vs a (subst (λ ws. All (Fits e.type) ws) h i.4) h in
    (g.0, rw h g.1, g.2)

pub elem_read :
    (p : Pack) (e : Elem)
    → p.phase ≡ elem_name_len
    → p.need_size ≡ 4
    → p.max ≡ 0 ⊎ p.num ≤ p.max
    → IsElem e
    → All (λ x. cmp_name x e ≡ less) p.elements
    → length p.elements ≤ 2 ^ 30
    → (r : Pack) × Leads p (write_elem e) r × Past p (p.elements ++ e ∷ []) r
unfolding write_elem
elem_read p e h n m i a few =
    let d = header_read p e h n m i a few in
    let g = by_values p e e.values refl i d.0 d.1 in (g.0, d.2 (write_values e.values) g.0 g.1, g.2)
