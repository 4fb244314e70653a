-- ===== src/Pack/Read/RoundTrip.antt =====
-- What hcore_pack_write writes, hcore_pack_read reads back.
mod Fields
mod Values
mod Elements
use hcore.Base.{
  ℕ, zero, suc, ◌+◌, ◌-◌, ◌*◌, ◌/◌, ◌%◌, ◌^◌, ◌<◌, ◌≤◌, ◌≡◌, ◌≢◌, refl, Bool, true, false, Option,
  none, some, List, [], ◌∷◌, ◌++◌, ltb, ltb→lt, leb, ◌==◌, if◌then◌else◌, length, take, drop,
  get_or, set, arith, Bool-cases, Option-cases, inl, inr, ◌⊎◌, sym, ◌∙◌, ap, length-append,
  drop-append, All, not, ◌&&◌,
}
use mathlib.Core.List.{append_assoc, append-nil}
use mathlib.Core.Path.{subst}
use hcore.ArrayList.{Sign, less}
use hcore.Pack.{Elem, Phase, init, elem_name_len, done, Pack, pack_init, cmp_name}
use hcore.Pack.Read.{read_int, next, round, Reading, read, pack_read}
use hcore.Pack.Read.Steps.{shift, pack_read-done}
use hcore.Pack.Read.RoundTrip.Fields.{Leads, Leads-append, next-Leads, read_int-write_int}
use hcore.Pack.Read.RoundTrip.Values.{Past, eq_test, ne_test, Leads-nil}
use hcore.Pack.Read.RoundTrip.Elements.{IsElem, elem_read, nonzero}
use hcore.Pack.Write.{write_int, write_elem, write_elems, written, pack_write}
use hcore.Pack.Write.Size.{IsSized}

-- The elements of a pack: each can be written, and is above those before it.
abbrev pub AreElems : List Elem → List Elem → Type 0
AreElems before [] = Unit
AreElems before (e ∷ elems) =
    IsElem e × All (λ x. cmp_name x e ≡ less) before × AreElems (before ++ e ∷ []) elems

-- All elements are read, and no more is waited for.
abbrev Complete : List Elem → Pack → Type 0
Complete elems p = (p.elements ≡ elems) × (p.phase ≡ done)

needs_four :
    (q : Pack) → q.need_size ≡ 4 ⊎ q.phase ≡ done → q.phase ≡ elem_name_len → q.need_size ≡ 4
needs_four q (inl h) e = h
needs_four q (inr h) e = ground arith

elems_read :
    (p : Pack) (e : Elem) (elems : List Elem)
    → p.phase ≡ elem_name_len
    → p.need_size ≡ 4
    → p.max ≡ 0 ⊎ p.num ≤ p.max
    → p.num ≡ p.cur_num + suc (length elems)
    → length p.elements + suc (length elems) ≤ 2 ^ 30
    → AreElems p.elements (e ∷ elems)
    → (r : Pack) × Leads p (write_elems (e ∷ elems)) r × Complete (p.elements ++ e ∷ elems) r
unfolding write_elems
elems_read p e [] h n m c few a =
    let g = elem_read p e h n m a.0 a.1 (omega (arith, few)) in
    let t : (p.cur_num + 1 == p.num) ≡ true = eq_test (p.cur_num + 1) p.num (omega (arith, c)) in
    (
      g.0,
      Leads-nil p g.0 (write_elem e) g.1,
      (g.2.elements-is, g.2.phase-is ∙ ap (λ b. if b then done else elem_name_len) t),
    )
elems_read p e (e' ∷ elems) h n m c few a =
    let g = elem_read p e h n m a.0 a.1 (omega (arith, few)) in
    let t : (p.cur_num + 1 == p.num) ≡ false =
      ne_test (p.cur_num + 1) p.num (λ i. absurd (omega (arith, i, c))) in
    let q : Pack = g.0 in
    let f : q.phase ≡ elem_name_len =
      g.2.phase-is ∙ ap (λ b. if b then done else elem_name_len) t in
    let r =
      elems_read q e' elems f (needs_four q g.2.need-is f) (rw (g.2.max-is, g.2.num-is) m)
        (omega (arith, g.2.cur-is, g.2.num-is, c))
        (omega (arith, few, ap length g.2.elements-is, length-append p.elements (e ∷ [])))
        (subst (λ xs. AreElems xs (e' ∷ elems)) (sym g.2.elements-is) a.2) in
    (
      r.0,
      Leads-append p q r.0 (write_elem e) (write_elems (e' ∷ elems)) g.1 r.1,
      (
        r.2.0
            ∙ ap (λ xs. xs ++ e' ∷ elems) g.2.elements-is
            ∙ append_assoc p.elements (e ∷ []) (e' ∷ elems),
        r.2.1,
      ),
    )

counted : ℕ → ℕ → Pack
counted max n = record (pack_init max) {
  num = n;
  cur_num = 0;
  phase = elem_name_len;
  need_size = 4;
}

not_less : (n : ℕ) → ltb n n ≡ false
not_less n = ground arith

same_length : (asserts : Bool) (n : ℕ) → (asserts && not (n == n)) ≡ false
same_length asserts n = ground arith

count_read : (max n : ℕ) → 1 ≤ n → n < 2 ^ 32 → Leads (pack_init max) (write_int n) (counted max n)
unfolding round counted
count_read max n h b =
    next-Leads (pack_init max) (counted max n) (write_int n) refl refl
      (rw (read_int-write_int n [] b, nonzero n h))

by_elems :
    (max : ℕ) (elems : List Elem)
    → 1 ≤ length elems
    → length elems ≤ 2 ^ 30
    → max ≡ 0 ⊎ length elems ≤ max
    → AreElems [] elems
    → (r : Pack) × Leads (pack_init max) (write_int (length elems) ++ write_elems elems) r
      × Complete elems r
unfolding counted
by_elems max [] h b m a = absurd (omega arith)
by_elems max (e ∷ elems) h b m a =
    let p : Pack = counted max (suc (length elems)) in
    let g = elems_read p e elems refl refl m (omega arith) (omega (arith, b)) a in
    (
      g.0,
      Leads-append (pack_init max) p g.0 (write_int (suc (length elems))) (write_elems (e ∷ elems))
          (count_read max (suc (length elems)) h (omega (arith, b))) g.1,
      g.2,
    )

-- A pack that was not written before and whose `total_size` is the number of bytes to write, of one to
-- 2^30 elements, each above all before it in the order of hcore_pack_cmp_name, of a known type, with 1 to
-- 2^32 - 1 values of that type, names and values shorter than 2^32 and no 0 in a STR: hcore_pack_write
-- keeps within its memory and to its assertion and gives bytes `out` with their number, and
-- hcore_pack_read, on a new pack whose limit is none or not below the count, reads of `out` and any
-- bytes after it those of `out`, and is done with the same elements. There is memory for both.
pub pack_read-pack_write :
    (p : Pack) (asserts : Bool) (max : ℕ) (rest : List ℕ)
    → p.buf ≡ none
    → IsSized p
    → 1 ≤ length p.elements
    → length p.elements ≤ 2 ^ 30
    → max ≡ 0 ⊎ length p.elements ≤ max
    → AreElems [] p.elements
    → (out : List ℕ) × (q : Pack) × ((pack_write true asserts p).0
        ≡ written out (some (length out)))
      × (pack_read true (pack_init max) (out ++ rest) ≡ read (length out) q)
      × (q.elements ≡ p.elements)
      × (q.phase ≡ done)
unfolding pack_write
pack_read-pack_write p asserts max rest n sized h b m a =
    let g = by_elems max p.elements h b m a in
    let out = write_int (length p.elements) ++ write_elems p.elements in
    let z : length out + 0 ≡ length out = omega arith in
    (
      out,
      g.0,
      rw
          (
            nonzero (length p.elements) h,
            n,
            sized,
            not_less (length out),
            same_length asserts (length out),
          )
          refl,
      g.1 rest
          ∙ ap (shift (length out)) (pack_read-done true g.0 rest g.2.1)
          ∙ ap (λ k. read k g.0) z,
      g.2.0,
      g.2.1,
    )
