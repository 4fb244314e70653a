-- ===== src/Pack/Read/RoundTrip/Fields.antt =====
-- What hcore_pack_read makes of the fields that hcore_pack_write writes, one after another.
use hcore.Base.{
  ℕ, ◌+◌, ◌^◌, ◌<◌, ◌≤◌, ◌≡◌, refl, true, List, [], ◌∷◌, ◌++◌, ◌==◌, if◌then◌else◌, length, arith,
  Bool-cases, inl, inr, ◌∙◌, ap, length-append, drop-append,
}
use mathlib.Core.List.{append_assoc}
use hcore.Pack.{Value, Elem, Phase, elem_name_len, done, Pack, push_value}
use hcore.Pack.Read.{read_int, next, over, added, round, pack_read}
use hcore.Pack.Read.Steps.{
  IsReady, shift, after, round-append, pack_read-next, pack_read-step, pack_read-done, shift-shift,
}
use hcore.Pack.Write.{write_int}

pub read_int-write_int : (i : ℕ) (s : List ℕ) → i < 2 ^ 32 → read_int (write_int i ++ s) ≡ i
read_int-write_int i s h = omega arith

-- From `p`, the bytes `w` lead to `p'`, whatever comes after them.
abbrev pub Leads : Pack → List ℕ → Pack → Type 0
Leads p w p' = (s : List ℕ) → pack_read true p (w ++ s) ≡ shift (length w) (pack_read true p' s)

pub Leads-append : (p q r : Pack) (v w : List ℕ) → Leads p v q → Leads q w r → Leads p (v ++ w) r
Leads-append p q r v w f g s =
    rw (append_assoc v w s, f (w ++ s), g s, length-append v w)
      (shift-shift (length v) (length w) _)

pub next-Leads :
    (p q : Pack) (w : List ℕ)
    → IsReady p
    → p.need_size ≡ length w
    → round true p p.phase w ≡ next (length w) q
    → Leads p w q
next-Leads p q w r n d s =
    let e = round-append true p p.phase w s (omega (arith, r, n)) in
    let le : p.need_size ≤ length (w ++ s) = omega (arith, n, length-append w s) in
    rw (pack_read-next true p (w ++ s) (length w) q r le (e ∙ d), drop-append w s)

pub over-Leads :
    (p q : Pack) (w : List ℕ)
    → IsReady p
    → p.need_size ≡ length w
    → round true p p.phase w ≡ over (length w) q
    → q.phase ≡ done
    → Leads p w q
over-Leads p q w r n d f s =
    let e = round-append true p p.phase w s (omega (arith, r, n)) in
    let le : p.need_size ≤ length (w ++ s) = omega (arith, n, length-append w s) in
    let z : length w + 0 ≡ length w = omega arith in
    rw (
      pack_read-step true p (w ++ s) r le ∙ ap (after true p (w ++ s)) (e ∙ d),
      pack_read-done true q s f,
      z,
    )

-- The pack that a value added leaves.
abbrev pub landed : Phase → Pack → Pack
landed again q =
    if q.cur_value_num + 1 == q.value_count
    then (if q.cur_num + 1 == q.num
        then record q { cur_value_num = q.cur_value_num + 1; cur_num = q.cur_num + 1; phase = done }
        else record q {
          cur_value_num = q.cur_value_num + 1;
          cur_num = q.cur_num + 1;
          phase = elem_name_len;
          need_size = 4;
        })
    else record q { cur_value_num = q.cur_value_num + 1; phase = again; need_size = 4 }

pub added-Leads :
    (p q : Pack) (w : List ℕ) (again : Phase)
    → IsReady p
    → p.need_size ≡ length w
    → round true p p.phase w ≡ added (length w) again q
    → Leads p w (landed again q)
unfolding added
added-Leads p q w again r n d = elim (Bool-cases (q.cur_value_num + 1 == q.value_count)) [
  | inl e ↦ elim (Bool-cases (q.cur_num + 1 == q.num)) [
    | inl f ↦ rw (e, f) (over-Leads p _ w r n (d ∙ rw (e, f)) refl)
    | inr f ↦ rw (e, f) (next-Leads p _ w r n (d ∙ rw (e, f)))
  ]
  | inr e ↦ rw e (next-Leads p _ w r n (d ∙ rw e))
]

pub push_value-last :
    (elems : List Elem) (name : List ℕ) (type : ℕ) (values : List Value) (v : Value)
    → push_value
        (elems ++ (record { name = name; type = type; values = values }) ∷ [])
        (length elems)
        v
      ≡ elems ++ (record { name = name; type = type; values = values ++ v ∷ [] }) ∷ []
unfolding push_value
push_value-last [] name type values v = refl
push_value-last (x ∷ elems) name type values v =
    ap (λ l. x ∷ l) (push_value-last elems name type values v)
