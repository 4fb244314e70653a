-- ===== src/Pack/Read/RoundTrip/Values.antt =====
-- The values of an element.
use hcore.Base.{
  ℕ, suc, ◌+◌, ◌^◌, ◌<◌, ◌≤◌, ◌≡◌, ◌≢◌, refl, true, false, List, [], ◌∷◌, ◌++◌, ◌==◌, if◌then◌else◌,
  length, arith, Bool-cases, inl, inr, ◌⊎◌, sym, ◌∙◌, ap, length-append, take_all, All,
}
use mathlib.Core.List.{append_assoc, append-nil}
use hcore.Pack.{
  Value, int, bytes, Elem, Phase, elem_name_len, data_int, value_len, value_data, done, Pack,
  push_value, stored, type_int, type_str, until_nul_id,
}
use hcore.Pack.Read.{read_int, round}
use hcore.Pack.Read.RoundTrip.Fields.{
  Leads, Leads-append, next-Leads, added-Leads, landed, push_value-last, read_int-write_int,
}
use hcore.Pack.Write.{write_int, write_str, write_value, write_values}

-- A value that an element of the type can hold and that is written as it is.
abbrev pub Fits : (type : ℕ) → Value → Type 0
Fits type (int i) = (type ≡ type_int) × (i < 2 ^ 32)
Fits type (bytes s) = (1 ≤ type) × (length s < 2 ^ 32) × (type ≡ type_str → All (λ c. c ≢ 0) s)

stored_id : (type : ℕ) (s : List ℕ) → Fits type (bytes s) → stored type s ≡ bytes s
unfolding stored
stored_id type s h = ground (arith, until_nul_id s)

abbrev pub again_of : ℕ → Phase
again_of type = if type == type_int then data_int else value_len

-- The reader has read the values `ws` of an element `e`, whose other fields it has, after `elems`.
pub record Amid (p0 : Pack) (elems : List Elem) (e : Elem) (ws : List Value) (p : Pack)
    : Type 0 where
  pub elements-is :
      p.elements ≡ elems ++ (record { name = e.name; type = e.type; values = ws }) ∷ []
  pub phase-is : p.phase ≡ again_of e.type
  pub need-is : p.need_size ≡ 4
  pub kind-is : p.kind ≡ e.type
  pub elem-is : p.cur_elem ≡ length elems
  pub value_num-is : p.cur_value_num ≡ length ws
  pub count-is : p.value_count ≡ length e.values
  pub cur-is : p.cur_num ≡ p0.cur_num
  pub num-is : p.num ≡ p0.num
  pub max-is : p.max ≡ p0.max

-- The reader has read the elements `elems`, the last of them since `p0`.
pub record Past (p0 : Pack) (elems : List Elem) (p : Pack) : Type 0 where
  pub elements-is : p.elements ≡ elems
  pub phase-is : p.phase ≡ (if p0.cur_num + 1 == p0.num then done else elem_name_len)
  pub need-is : p.need_size ≡ 4 ⊎ p.phase ≡ done
  pub cur-is : p.cur_num ≡ p0.cur_num + 1
  pub num-is : p.num ≡ p0.num
  pub max-is : p.max ≡ p0.max

-- The phase, with its bytes, in which a value is added.
adding : Phase × ℕ × ℕ → Value → Phase × ℕ × ℕ
adding d (int i) = d
adding d (bytes s) = (value_data, length s, length s)

-- The pack when a value's bytes are taken and it is in the element.
after_value : Pack → Value → Pack
after_value p v = record p {
  elements = push_value p.elements p.cur_elem v;
  phase = (adding (p.phase, p.need_size, p.value_size) v).0;
  need_size = (adding (p.phase, p.need_size, p.value_size) v).1;
  value_size = (adding (p.phase, p.need_size, p.value_size) v).2;
}

int_read :
    (p : Pack) (i : ℕ)
    → p.phase ≡ data_int
    → p.need_size ≡ 4
    → i < 2 ^ 32
    → Leads p (write_int i) (landed data_int (after_value p (int i)))
unfolding round adding after_value
int_read p i h n b =
    let e : read_int (write_int i) ≡ i = read_int-write_int i [] b in
    added-Leads p (after_value p (int i)) (write_int i) data_int (rw h n) n (rw (h, e))

bytes_read :
    (p : Pack) (s : List ℕ)
    → p.phase ≡ value_len
    → p.need_size ≡ 4
    → Fits p.kind (bytes s)
    → Leads p (write_str s) (landed value_len (after_value p (bytes s)))
unfolding round adding after_value
bytes_read p s h n f =
    let e : read_int (write_int (length s)) ≡ length s = read_int-write_int (length s) [] f.1 in
    let q : Pack = record p { value_size = length s; phase = value_data; need_size = length s } in
    Leads-append p q _ (write_int (length s)) s
      (next-Leads p q (write_int (length s)) (rw h n) n (rw (h, e)))
      (added-Leads q (after_value p (bytes s)) s value_len refl refl
        (rw (take_all s, stored_id p.kind s f)))

again_bytes : (type : ℕ) → 1 ≤ type → again_of type ≡ value_len
again_bytes type h = ground arith

pub ne_test : (a b : ℕ) → a ≢ b → (a == b) ≡ false
ne_test a b h = ground arith

pub eq_test : (a b : ℕ) → a ≡ b → (a == b) ≡ true
eq_test a b h = ground arith

pushed-elements :
    (p0 p : Pack) (elems : List Elem) (e : Elem) (ws : List Value) (v : Value)
    → Amid p0 elems e ws p
    → push_value p.elements p.cur_elem v
      ≡ elems ++ (record { name = e.name; type = e.type; values = ws ++ v ∷ [] }) ∷ []
pushed-elements p0 p elems e ws v a =
    rw (a.elements-is, a.elem-is) (push_value-last elems e.name e.type ws v)

value_read :
    (p0 p : Pack) (elems : List Elem) (e : Elem) (ws : List Value) (v : Value)
    → Amid p0 elems e ws p
    → Fits e.type v
    → Leads p (write_value v) (landed (again_of e.type) (after_value p v))
unfolding write_value
value_read p0 p elems e ws (int i) a f =
    let g : again_of e.type ≡ data_int = ap again_of f.0 in
    rw g (int_read p i (a.phase-is ∙ g) a.need-is f.1)
value_read p0 p elems e ws (bytes s) a f =
    let g : again_of e.type ≡ value_len = again_bytes e.type f.0 in
    rw g (bytes_read p s (a.phase-is ∙ g) a.need-is (rw a.kind-is f))

-- A value more, or past the element.
landed-Amid :
    (p0 p : Pack) (elems : List Elem) (e : Elem) (ws : List Value) (v : Value)
    → Amid p0 elems e ws p
    → suc (length ws) < length e.values
    → Amid p0 elems e (ws ++ v ∷ []) (landed (again_of e.type) (after_value p v))
unfolding adding after_value
landed-Amid p0 p elems e ws v a h =
    let t : (p.cur_value_num + 1 == p.value_count) ≡ false =
      ne_test (p.cur_value_num + 1) p.value_count
        (λ i. absurd (omega (arith, i, h, a.value_num-is, a.count-is))) in
    rw t (record {
      elements-is = pushed-elements p0 p elems e ws v a;
      phase-is = refl;
      need-is = refl;
      kind-is = a.kind-is;
      elem-is = a.elem-is;
      value_num-is = omega (arith, a.value_num-is, length-append ws (v ∷ []));
      count-is = a.count-is;
      cur-is = a.cur-is;
      num-is = a.num-is;
      max-is = a.max-is;
    })

landed-Past :
    (p0 p : Pack) (elems : List Elem) (e : Elem) (ws : List Value) (v : Value)
    → Amid p0 elems e ws p
    → e.values ≡ ws ++ v ∷ []
    → Past p0 (elems ++ e ∷ []) (landed (again_of e.type) (after_value p v))
unfolding adding after_value
landed-Past p0 p elems e ws v a h =
    let c : length e.values ≡ length ws + 1 = ap length h ∙ length-append ws (v ∷ []) in
    let t : (p.cur_value_num + 1 == p.value_count) ≡ true =
      eq_test (p.cur_value_num + 1) p.value_count (omega (arith, c, a.value_num-is, a.count-is)) in
    let w = pushed-elements p0 p elems e ws v a in
    let els : push_value p.elements p.cur_elem v ≡ elems ++ e ∷ [] =
      w ∙ ap (λ vs. elems ++ (record { name = e.name; type = e.type; values = vs }) ∷ []) (sym h) in
    elim (Bool-cases (p.cur_num + 1 == p.num)) [
      | inl d ↦
          rw (t, d)
            (record {
              elements-is = els;
              phase-is = rw (sym a.cur-is, sym a.num-is, d);
              need-is = inr refl;
              cur-is = rw a.cur-is;
              num-is = a.num-is;
              max-is = a.max-is;
            })
      | inr d ↦
          rw (t, d)
            (record {
              elements-is = els;
              phase-is = rw (sym a.cur-is, sym a.num-is, d);
              need-is = inl refl;
              cur-is = rw a.cur-is;
              num-is = a.num-is;
              max-is = a.max-is;
            })
    ]

pub Leads-nil : (p q : Pack) (w : List ℕ) → Leads p w q → Leads p (w ++ []) q
Leads-nil p q w l s = rw (append-nil w) (l s)

pub values_read :
    (p0 p : Pack) (elems : List Elem) (e : Elem) (ws : List Value) (v : Value) (vs : List Value)
    → Amid p0 elems e ws p
    → All (Fits e.type) (v ∷ vs)
    → e.values ≡ ws ++ v ∷ vs
    → (q : Pack) × Leads p (write_values (v ∷ vs)) q × Past p0 (elems ++ e ∷ []) q
unfolding write_values
values_read p0 p elems e ws v [] a f h = (
  landed (again_of e.type) (after_value p v),
  Leads-nil p _ (write_value v) (value_read p0 p elems e ws v a f.0),
  landed-Past p0 p elems e ws v a h,
)
values_read p0 p elems e ws v (v' ∷ vs) a f h =
    let q : Pack = landed (again_of e.type) (after_value p v) in
    let c : length e.values ≡ length ws + suc (suc (length vs)) =
      ap length h ∙ length-append ws (v ∷ v' ∷ vs) in
    let r =
      values_read p0 q elems e (ws ++ v ∷ []) v' vs
        (landed-Amid p0 p elems e ws v a (omega (arith, c))) f.1
        (h ∙ sym (append_assoc ws (v ∷ []) (v' ∷ vs))) in
    (r.0, Leads-append p q r.0 _ _ (value_read p0 p elems e ws v a f.0) r.1, r.2)
