-- ===== src/Queue/Sort/Insert.antt =====
-- To insert behind any element of a queue.
use mathlib.Core.Path.{subst}
use mathlib.Core.List.{append_assoc}
use hcore.Base.{ℕ, ◌≡◌, ◌≢◌, refl, List, [], ◌∷◌, ◌++◌, All-append, All-split, arith, sym}
use hcore.Queue.{Heap, insert_head}
use hcore.Queue.Links.{
  Links, Fresh, Distinct, IsQueue, Links-frame, All-snoc, insert_head-next, insert_head-prev,
  Links-split,
}

Links-join :
    (s : Heap) (a : ℕ) (xs : List ℕ) (x : ℕ) (ys : List ℕ) (b : ℕ)
    → Links s a xs x
    → Links s x ys b
    → Links s a (xs ++ x ∷ ys) b
Links-join s a [] x ys b l k = (l.0, l.1, k)
Links-join s a (z ∷ xs) x ys b l k = (l.0, l.1, Links-join s z xs x ys b l.2 k)

pub Fresh-mid :
    (xs : List ℕ) (p : ℕ) (ys : List ℕ) → Distinct (xs ++ p ∷ ys) → Fresh p xs × Fresh p ys
Fresh-mid [] p ys d = (tt, d.0)
Fresh-mid (z ∷ xs) p ys d =
    let m = Fresh-mid xs p ys d.1 in
    let apart : Fresh z (p ∷ ys) = (All-split (λ y. y ≢ z) xs (p ∷ ys) d.0).1 in
    (((λ e. apart.0 (sym e)), m.0), m.1)

Distinct-tail : (xs ys : List ℕ) → Distinct (xs ++ ys) → Distinct ys
Distinct-tail [] ys d = d
Distinct-tail (x ∷ xs) ys d = Distinct-tail xs ys d.1

Distinct-insert :
    (xs : List ℕ) (x : ℕ) (ys : List ℕ)
    → Distinct (xs ++ ys)
    → Fresh x (xs ++ ys)
    → Distinct (xs ++ x ∷ ys)
Distinct-insert [] x ys d f = (f, d)
Distinct-insert (z ∷ xs) x ys d f =
    let a = All-split (λ y. y ≢ z) xs ys d.0 in
    (
      All-append (λ y. y ≢ z) xs (x ∷ ys) a.0 ((λ e. f.0 (sym e)), a.1),
      Distinct-insert xs x ys d.1 f.1,
    )

-- The run from `p` on, with `x` behind `p`.
after-Links :
    (s : Heap) (p x : ℕ) (ys : List ℕ) (b : ℕ)
    → Links s p ys b
    → Distinct (p ∷ ys)
    → Fresh b (p ∷ ys)
    → Fresh x (p ∷ ys)
    → x ≢ b
    → Links (insert_head s p x) p (x ∷ ys) b
unfolding insert_head
after-Links s p x [] b l d fb fx ne =
    (ground arith, ground arith, (ground (arith, l.0, fx.0), ground (arith, l.0, ne)))
after-Links s p x (y ∷ zs) b l d fb fx ne =
    let first : s.next p ≡ y = l.0 in
    let apart : Fresh (s.next p) zs = rw first d.1.0 in
    let away : b ≢ s.next p = ground (arith, first, fb.1.0) in
    let away_x : b ≢ x = (λ e. ne (sym e)) in
    (
      ground arith,
      ground arith,
      (
        ground (arith, l.0, fx.0),
        ground (arith, l.0, fx.1.0),
        Links-frame s (insert_head s p x) y zs b (insert_head-next s p x (y ∷ zs) d.0 fx.1)
            (insert_head-prev s p x (zs ++ b ∷ []) (All-snoc _ zs b apart away)
              (All-snoc _ zs b fx.1.1 away_x))
            l.2,
      ),
    )

-- The address ahead of `p` is not among those up to `p`.
ahead-Fresh :
    (s : Heap) (h p : ℕ) (xs ys : List ℕ)
    → Links s p ys h
    → Fresh h (xs ++ p ∷ ys)
    → Distinct (xs ++ p ∷ ys)
    → Fresh (s.next p) (xs ++ p ∷ [])
ahead-Fresh s h p xs [] l f d = rw l.0 f
ahead-Fresh s h p xs (y ∷ ys) l f d =
    rw l.0
      (Fresh-mid (xs ++ p ∷ []) y ys (subst Distinct (sym (append_assoc xs (p ∷ []) (y ∷ ys))) d)).0

-- To insert behind an element of the queue puts in the one element there.
pub insert_after-IsQueue :
    (s : Heap) (h p x : ℕ) (xs ys : List ℕ)
    → IsQueue s h (xs ++ p ∷ ys)
    → x ≢ h
    → Fresh x (xs ++ p ∷ ys)
    → IsQueue (insert_head s p x) h (xs ++ p ∷ x ∷ ys)
insert_after-IsQueue s h p x xs ys (l, f, d) ne fx =
    let (left, right) = Links-split s h xs p ys h l in
    let m = Fresh-mid xs p ys d in
    let fh = All-split (λ y. y ≢ h) xs (p ∷ ys) f in
    let xx = All-split (λ y. y ≢ x) xs (p ∷ ys) fx in
    let dp = Distinct-tail xs (p ∷ ys) d in
    let assoc = append_assoc xs (p ∷ []) ys in
    (
      Links-join (insert_head s p x) h xs p (x ∷ ys) h
          (Links-frame s (insert_head s p x) h xs p
            (insert_head-next s p x (h ∷ xs) ((λ e. fh.1.0 (sym e)), m.0) ((λ e. ne (sym e)), xx.0))
            (insert_head-prev s p x (xs ++ p ∷ []) (ahead-Fresh s h p xs ys right f d)
              (All-snoc (λ y. y ≢ x) xs p xx.0 xx.1.0))
            left)
          (after-Links s p x ys h right dp fh.1 xx.1 ne),
      All-append (λ y. y ≢ h) xs (p ∷ x ∷ ys) fh.0 (fh.1.0, (ne, fh.1.1)),
      subst Distinct (append_assoc xs (p ∷ []) (x ∷ ys)) (
          Distinct-insert (xs ++ p ∷ []) x ys (subst Distinct (sym assoc) d)
            (subst (Fresh x) (sym assoc) fx)),
    )

-- The link back from an element.
abbrev pub last_of : ℕ → List ℕ → ℕ
last_of a [] = a
last_of a (x ∷ xs) = last_of x xs

pub prev-last_of :
    (s : Heap) (a : ℕ) (xs : List ℕ) (b : ℕ) → Links s a xs b → s.prev b ≡ last_of a xs
prev-last_of s a [] b l = l.1
prev-last_of s a (x ∷ xs) b l = prev-last_of s x xs b l.2

pub last_of-snoc : (a : ℕ) (xs : List ℕ) (x : ℕ) → last_of a (xs ++ x ∷ []) ≡ x
last_of-snoc a [] x = refl
last_of-snoc a (y ∷ xs) x = last_of-snoc y xs x
