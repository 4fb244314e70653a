-- ===== src/Pack/Read/Chunks.antt =====
-- Bytes that come in pieces are read as if they had come at once.
use hcore.Base.{
  ℕ, zero, suc, ◌+◌, ◌<◌, ◌≤◌, ◌≡◌, ◌≢◌, refl, Bool, List, ◌++◌, leb, leb→le, leb_false→lt, length,
  drop, arith, Bool-cases, inl, inr, sym, ◌∙◌, ap, length-append, length-drop, drop-append_le,
  drop-drop,
}
use hcore.Pack.{Pack}
use hcore.Pack.Read.{next, over, round, Reading, read, broken, spent, pack_read}
use hcore.Pack.Read.Steps.{
  IsReady, left, shift, after, Round-cases, round-append, round-over, done-IsReady, left-next,
  pack_read-next, pack_read-step, pack_read-waits, pack_read-done, shift-zero, shift-shift,
}

-- What one call leaves for the next.
abbrev Resumes : (memory : Bool) (a b : List ℕ) (r : Reading) → ℕ → Pack → Type 0
Resumes memory a b r n p' =
    IsReady p' × (n ≤ length a) × (r ≡ shift n (pack_read memory p' (drop n a ++ b)))

-- To read what a result is.
taken_of : Reading → ℕ
taken_of (read k p) = k
taken_of _ = 0

pack_of : Pack → Reading → Pack
pack_of d (read k p) = p
pack_of d _ = d

unshift :
    (k n : ℕ) (p' : Pack) (r : Reading)
    → shift k r ≡ read n p'
    → (m : ℕ) × (r ≡ read m p') × (n ≡ k + m)
unfolding taken_of pack_of
unshift k n p' (read m p) e = (m, ap (read m) (ap (pack_of p') e), sym (ap taken_of e))
unshift k n p' broken e = ground arith
unshift k n p' spent e = ground arith

-- The bytes that come later do not change a round.
round-later :
    (memory : Bool) (p : Pack) (a b : List ℕ)
    → IsReady p
    → p.need_size ≤ length a
    → (round memory p p.phase (a ++ b) ≡ round memory p p.phase a) × (p.need_size ≤ length (a ++ b))
round-later memory p a b r h =
    (round-append memory p p.phase a b (omega (arith, r, h)), omega (arith, h, length-append a b))

Resumes-next :
    (memory : Bool) (p : Pack) (a b : List ℕ) (k m : ℕ) (q p' : Pack)
    → IsReady p
    → p.need_size ≤ length a
    → round memory p p.phase a ≡ next k q
    → k ≤ length a
    → Resumes memory (drop k a) b (pack_read memory q (drop k a ++ b)) m p'
    → Resumes memory a b (pack_read memory p (a ++ b)) (k + m) p'
Resumes-next memory p a b k m q p' r h d le g =
    let l = round-later memory p a b r h in
    let e : pack_read memory p (a ++ b) ≡ shift k (pack_read memory q (drop k (a ++ b))) =
      pack_read-next memory p (a ++ b) k q r l.1 (l.0 ∙ d) in
    (
      g.0,
      omega (arith, g.1, length-drop k a),
      rw (e, drop-append_le k a b le, g.2, drop-drop k m a) (shift-shift k m _),
    )

Resumes-over :
    (memory : Bool) (p : Pack) (a b : List ℕ) (k : ℕ) (q : Pack)
    → IsReady p
    → p.need_size ≤ length a
    → round memory p p.phase a ≡ over k q
    → Resumes memory a b (pack_read memory p (a ++ b)) k q
Resumes-over memory p a b k q r h d =
    let l = round-later memory p a b r h in
    let o = round-over memory p p.phase a k q refl d in
    let e : pack_read memory p (a ++ b) ≡ read k q =
      pack_read-step memory p (a ++ b) r l.1 ∙ ap (after memory p (a ++ b)) (l.0 ∙ d) in
    let z : k + 0 ≡ k = omega arith in
    (
      done-IsReady q o.0,
      omega (arith, o.1, r, h),
      rw (e, pack_read-done memory q (drop k a ++ b) o.0, z),
    )

Resumes-waits :
    (memory : Bool) (p : Pack) (a b : List ℕ)
    → IsReady p
    → Resumes memory a b (pack_read memory p (a ++ b)) 0 p
Resumes-waits memory p a b r = (r, omega arith, sym (shift-zero (pack_read memory p (a ++ b))))

not_broken : (n : ℕ) (p : Pack) → broken ≢ read n p
not_broken n p e = ground arith

same_read :
    (memory : Bool) (a b : List ℕ) (s : Reading) (k n : ℕ) (q p' : Pack)
    → read k q ≡ read n p'
    → Resumes memory a b s k q
    → Resumes memory a b s n p'
unfolding taken_of pack_of
same_read memory a b s k n q p' e g = rw (sym (ap taken_of e), sym (ap (pack_of p') e)) g

-- By induction on a bound for what is left.
resumes :
    (bound : ℕ) (memory : Bool) (p : Pack) (a b : List ℕ) (n : ℕ) (p' : Pack)
    → IsReady p
    → left p a < bound
    → pack_read memory p a ≡ read n p'
    → Resumes memory a b (pack_read memory p (a ++ b)) n p'
resumes zero memory p a b n p' r h e = absurd (omega arith)
resumes (suc bound) memory p a b n p' r h e = elim (Bool-cases (leb p.need_size (length a))) [
  | inl f ↦
      let le = leb→le p.need_size (length a) f in
      elim (Round-cases (round memory p p.phase a)) [
        | inl (k, q, d) ↦
            let g = left-next memory p a k q r le d in
            let u =
              unshift k n p' (pack_read memory q (drop k a))
                (sym (pack_read-next memory p a k q r le d) ∙ e) in
            rw u.2 (
              Resumes-next memory p a b k u.0 q p' r le d g.0
                (resumes bound memory q (drop k a) b u.0 p' g.1 (omega (arith, g.2)) u.1))
        | inr (inl (k, q, d)) ↦
            same_read memory a b _ k n q p'
              (sym (pack_read-step memory p a r le ∙ ap (after memory p a) d) ∙ e)
              (Resumes-over memory p a b k q r le d)
        | inr (inr d) ↦
            absurd
              (not_broken n p' (sym (pack_read-step memory p a r le ∙ ap (after memory p a) d) ∙ e))
      ]
  | inr f ↦
      same_read memory a b _ 0 n p p'
        (sym (pack_read-waits memory p a (leb_false→lt p.need_size (length a) f)) ∙ e)
        (Resumes-waits memory p a b r)
]

-- If a call on a pack that waits for what its phase takes does not fail, but returns the number n of
-- bytes taken and leaves the pack p', then p' again waits for what its phase takes, the bytes were
-- there, and the call would have done with more bytes b after them what a second call on p' does with
-- the bytes left and b: it fails if that one fails, and returns n more otherwise.
pub pack_read-append :
    (memory : Bool) (p : Pack) (a b : List ℕ) (n : ℕ) (p' : Pack)
    → IsReady p
    → pack_read memory p a ≡ read n p'
    → IsReady p'
      × (n ≤ length a)
      × (pack_read memory p (a ++ b) ≡ shift n (pack_read memory p' (drop n a ++ b)))
pack_read-append memory p a b n p' r e =
    resumes (suc (left p a)) memory p a b n p' r (omega arith) e
