-- ===== src/Pack/Read/Steps.antt =====
-- The rounds of hcore_pack_read: what each needs, takes and leaves, and that they come to an end.
use hcore.Base.{
  ℕ, zero, suc, ◌+◌, ◌*◌, ◌<◌, ◌≤◌, ◌≡◌, ◌≢◌, refl, Bool, List, [], ◌∷◌, ◌++◌, leb, leb→le, le→leb,
  gt→leb, leb_false→lt, length, drop, arith, Bool-cases, inl, inr, ◌⊎◌, ◌∙◌, ap, length-drop,
  take-append_le,
}
use hcore.Pack.{
  Phase, init, elem_name_len, elem_name, elem_type, value_num, data_int, value_len, value_data,
  done, Pack,
}
use hcore.Pack.Read.{
  read_int, Round, next, over, failed, added, start_elem, round, Reading, read, broken, spent,
  read_loop, pack_read,
}

-- The bytes that a phase takes.
abbrev pub need_of : Phase → Pack → ℕ
need_of init p = 4
need_of elem_name_len p = 4
need_of elem_name p = p.name_len
need_of elem_type p = 4
need_of value_num p = 4
need_of data_int p = 4
need_of value_len p = 4
need_of value_data p = p.value_size
need_of done p = p.need_size

-- `need_size` is what the phase takes.
abbrev pub IsReady : Pack → Type 0
IsReady p = p.need_size ≡ need_of p.phase p

-- 1 for the phases that may take no byte.
abbrev may_be_empty : Phase → ℕ
may_be_empty elem_name = 1
may_be_empty value_data = 1
may_be_empty _ = 0

pub at_most_one : (phase : Phase) → may_be_empty phase ≤ 1
at_most_one phase = grind arith

read_int-append : (s t : List ℕ) → 4 ≤ length s → read_int (s ++ t) ≡ read_int s
read_int-append [] t h = absurd (omega arith)
read_int-append (a ∷ []) t h = absurd (omega arith)
read_int-append (a ∷ b ∷ []) t h = absurd (omega arith)
read_int-append (a ∷ b ∷ c ∷ []) t h = absurd (omega arith)
read_int-append (a ∷ b ∷ c ∷ d ∷ s) t h = refl

-- A round reads no byte beyond those it needs.
pub round-append :
    (memory : Bool) (p : Pack) (phase : Phase) (s t : List ℕ)
    → need_of phase p ≤ length s
    → round memory p phase (s ++ t) ≡ round memory p phase s
unfolding round
round-append memory p init s t h = rw (read_int-append s t h)
round-append memory p elem_name_len s t h = rw (read_int-append s t h)
round-append memory p elem_name s t h = rw (take-append_le p.name_len s t h)
round-append memory p elem_type s t h = rw (read_int-append s t h)
round-append memory p value_num s t h = ap (start_elem memory p) (read_int-append s t h)
round-append memory p data_int s t h = rw (read_int-append s t h)
round-append memory p value_len s t h = rw (read_int-append s t h)
round-append memory p value_data s t h = rw (take-append_le p.value_size s t h)
round-append memory p done s t h = refl

-- What a round that goes on leaves.
abbrev pub GoesOn : Pack → Phase → ℕ → Pack → Type 0
GoesOn p phase k p' =
    (k ≡ need_of phase p)
    × IsReady p'
    × (1 ≤ k + may_be_empty phase)
    × (may_be_empty phase ≡ 1 → may_be_empty p'.phase ≡ 0)

pub round-next :
    (memory : Bool) (p : Pack) (phase : Phase) (s : List ℕ) (k : ℕ) (p' : Pack)
    → round memory p phase s ≡ next k p'
    → GoesOn p phase k p'
unfolding round added start_elem
round-next memory p init s k p' e = ground arith
round-next memory p elem_name_len s k p' e = ground arith
round-next memory p elem_name s k p' e = ground arith
round-next memory p elem_type s k p' e = ground arith
round-next memory p value_num s k p' e = ground arith
round-next memory p data_int s k p' e = ground arith
round-next memory p value_len s k p' e = ground arith
round-next memory p value_data s k p' e = ground arith
round-next memory p done s k p' e = ground arith

pub round-over :
    (memory : Bool) (p : Pack) (phase : Phase) (s : List ℕ) (k : ℕ) (p' : Pack)
    → p.phase ≡ phase
    → round memory p phase s ≡ over k p'
    → (p'.phase ≡ done) × (k ≤ need_of phase p)
unfolding round added start_elem
round-over memory p init s k p' at e = ground arith
round-over memory p elem_name_len s k p' at e = ground arith
round-over memory p elem_name s k p' at e = ground arith
round-over memory p elem_type s k p' at e = ground arith
round-over memory p value_num s k p' at e = ground arith
round-over memory p data_int s k p' at e = ground arith
round-over memory p value_len s k p' at e = ground arith
round-over memory p value_data s k p' at e = ground arith
round-over memory p done s k p' at e = ground arith

pub done-IsReady : (p : Pack) → p.phase ≡ done → IsReady p
done-IsReady p e = rw (e)

pub Round-cases :
    (r : Round)
    → ((k : ℕ) × (p : Pack) × (r ≡ next k p))
      ⊎ ((k : ℕ) × (p : Pack) × (r ≡ over k p))
      ⊎ (r ≡ failed)
Round-cases (next k p) = inl (k, p, refl)
Round-cases (over k p) = inr (inl (k, p, refl))
Round-cases failed = inr (inr refl)

-- It gets less with each round.
abbrev pub left : Pack → List ℕ → ℕ
left p s = 2 * length s + may_be_empty p.phase

pub left-next :
    (memory : Bool) (p : Pack) (s : List ℕ) (k : ℕ) (p' : Pack)
    → IsReady p
    → p.need_size ≤ length s
    → round memory p p.phase s ≡ next k p'
    → (k ≤ length s) × IsReady p' × (left p' (drop k s) < left p s)
left-next memory p s k p' r h e =
    let g : GoesOn p p.phase k p' = round-next memory p p.phase s k p' e in
    ground (arith, length-drop k s, g)

same_fuel :
    (f g : ℕ) (memory : Bool) (p : Pack) (s : List ℕ) (t : ℕ)
    → IsReady p
    → left p s < f
    → left p s < g
    → read_loop f memory p s t ≡ read_loop g memory p s t
unfolding read_loop
same_fuel zero g memory p s t r h i = absurd (omega arith)
same_fuel (suc f) zero memory p s t r h i = absurd (omega arith)
same_fuel (suc f) (suc g) memory p s t r h i = elim (Bool-cases (leb p.need_size (length s))) [
  | inl e ↦ elim (Round-cases (round memory p p.phase s)) [
    | inl (k, p', d) ↦
        let n = left-next memory p s k p' r (leb→le p.need_size (length s) e) d in
        rw (e, d)
          (same_fuel f g memory p' (drop k s) (t + k) n.1 (omega (arith, n.2)) (omega (arith, n.2)))
    | inr (inl (k, p', d)) ↦ rw d
    | inr (inr d) ↦ rw d
  ]
  | inr e ↦ rw e
]

abbrev pub shift : ℕ → Reading → Reading
shift n (read k p) = read (n + k) p
shift n broken = broken
shift n spent = spent

read_loop-shift :
    (f : ℕ) (memory : Bool) (p : Pack) (s : List ℕ) (n k : ℕ)
    → read_loop f memory p s (n + k) ≡ shift n (read_loop f memory p s k)
unfolding read_loop
read_loop-shift zero memory p s n k = refl
read_loop-shift (suc f) memory p s n k = elim (Bool-cases (leb p.need_size (length s))) [
  | inl e ↦ elim (Round-cases (round memory p p.phase s)) [
    | inl (j, p', d) ↦ ground (arith, d, read_loop-shift f memory p' (drop j s) n (k + j))
    | inr (inl (j, p', d)) ↦ ground (arith, d)
    | inr (inr d) ↦ ground (arith, d)
  ]
  | inr e ↦ ground (arith, e)
]

abbrev pub after : (memory : Bool) → Pack → List ℕ → Round → Reading
after memory p s (next k p') = shift k (pack_read memory p' (drop k s))
after memory p s (over k p') = read k p'
after memory p s failed = broken

enough : (s : List ℕ) → 2 * length s + 2 ≡ suc (2 * length s + 1)
enough s = omega arith

pub pack_read-next :
    (memory : Bool) (p : Pack) (s : List ℕ) (k : ℕ) (p' : Pack)
    → IsReady p
    → p.need_size ≤ length s
    → round memory p p.phase s ≡ next k p'
    → pack_read memory p s ≡ shift k (pack_read memory p' (drop k s))
unfolding pack_read read_loop
pack_read-next memory p s k p' r h d =
    let n = left-next memory p s k p' r h d in
    let f = 2 * length (drop k s) + 2 in
    let z : 0 + k ≡ k + 0 = omega arith in
    rw (enough s, le→leb p.need_size (length s) h, d)
      (same_fuel (2 * length s + 1) f memory p' (drop k s) (0 + k) n.1
          (omega (arith, n.2, at_most_one p.phase)) (omega (arith, at_most_one p'.phase))
        ∙ ap (read_loop f memory p' (drop k s)) z
        ∙ read_loop-shift f memory p' (drop k s) k 0)

-- A call is a round and the call on the rest.
pub pack_read-step :
    (memory : Bool) (p : Pack) (s : List ℕ)
    → IsReady p
    → p.need_size ≤ length s
    → pack_read memory p s ≡ after memory p s (round memory p p.phase s)
unfolding pack_read read_loop
pack_read-step memory p s r h = elim (Round-cases (round memory p p.phase s)) [
  | inl (k, p', d) ↦ rw d (pack_read-next memory p s k p' r h d)
  | inr (inl (k, p', d)) ↦
      let z : 0 + k ≡ k = omega arith in rw (enough s, le→leb p.need_size (length s) h, d, z)
  | inr (inr d) ↦ rw (enough s, le→leb p.need_size (length s) h, d)
]

pub pack_read-waits :
    (memory : Bool) (p : Pack) (s : List ℕ)
    → length s < p.need_size
    → pack_read memory p s ≡ read 0 p
unfolding pack_read read_loop
pack_read-waits memory p s h = rw (enough s, gt→leb p.need_size (length s) h)

pub shift-zero : (r : Reading) → shift 0 r ≡ r
shift-zero (read k p) = ground arith
shift-zero broken = refl
shift-zero spent = refl

pub shift-shift : (m n : ℕ) (r : Reading) → shift m (shift n r) ≡ shift (m + n) r
shift-shift m n (read k p) = ground arith
shift-shift m n broken = refl
shift-shift m n spent = refl

round-done :
    (memory : Bool) (p : Pack) (s : List ℕ) → p.phase ≡ done → round memory p p.phase s ≡ over 0 p
unfolding round
round-done memory p s e = rw e

pub pack_read-done :
    (memory : Bool) (p : Pack) (s : List ℕ) → p.phase ≡ done → pack_read memory p s ≡ read 0 p
pack_read-done memory p s e = elim (Bool-cases (leb p.need_size (length s))) [
  | inl h ↦
      pack_read-step memory p s (done-IsReady p e) (leb→le p.need_size (length s) h)
      ∙ ap (after memory p s) (round-done memory p s e)
  | inr h ↦ pack_read-waits memory p s (leb_false→lt p.need_size (length s) h)
]

loop_ends :
    (f : ℕ) (memory : Bool) (p : Pack) (s : List ℕ) (t : ℕ)
    → IsReady p
    → left p s < f
    → read_loop f memory p s t ≢ spent
unfolding read_loop
loop_ends zero memory p s t r h = absurd (omega arith)
loop_ends (suc f) memory p s t r h = elim (Bool-cases (leb p.need_size (length s))) [
  | inl e ↦ elim (Round-cases (round memory p p.phase s)) [
    | inl (k, p', d) ↦
        let n = left-next memory p s k p' r (leb→le p.need_size (length s) e) d in
        rw (e, d) (loop_ends f memory p' (drop k s) (t + k) n.1 (omega (arith, n.2)))
    | inr (inl (k, p', d)) ↦ rw (e, d) (λ i. ground arith)
    | inr (inr d) ↦ rw (e, d) (λ i. ground arith)
  ]
  | inr e ↦ rw e (λ i. ground arith)
]

-- A call on a pack that waits for what its phase takes is not still running after the rounds that the
-- model gives it, 2 * length s + 2: the loop of hcore_pack_read ends.
pub pack_read_ends :
    (memory : Bool) (p : Pack) (s : List ℕ) → IsReady p → pack_read memory p s ≢ spent
unfolding pack_read
pack_read_ends memory p s r =
    loop_ends (2 * length s + 2) memory p s 0 r (omega (arith, at_most_one p.phase))
