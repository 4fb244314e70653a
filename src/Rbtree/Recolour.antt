-- ===== src/Rbtree/Recolour.antt =====
-- To colour a node.
use hcore.Base.{
  ℕ, suc, ◌≤◌, ◌<◌, ◌≡◌, ◌≢◌, refl, ap, ◌⊎◌, inl, inr, Bool, true, false, List, arith, ◌==◌,
}
use hcore.Rbtree.{Node, Rbtree, put, set_red}
use hcore.Rbtree.Shape.{Shape, node, Frame, Sub-frame, Within-le}
use hcore.Rbtree.Place.{IsAt, Up-frame}

pub eq_false : (a b : ℕ) → a ≢ b → (a == b) ≡ false
eq_false a b h = ground arith

pub eq_true : (a : ℕ) → (a == a) ≡ true
eq_true a = ground arith

pub put-at_ne : (s : Rbtree) (p a : ℕ) (n : Node) → a ≢ p → (put s p n).at a ≡ s.at a
put-at_ne s p a n h = rw (eq_false a p h)

pub put-at_self : (s : Rbtree) (p : ℕ) (n : Node) → (put s p n).at p ≡ n
put-at_self s p n = rw (eq_true p)

-- Two addresses whose numbers differ are not the same.
pub ne_of_lt : (rank : ℕ → ℕ) (a b : ℕ) → rank a < rank b → a ≢ b
ne_of_lt rank a b h e = absurd (omega (arith, h, ap rank e))

pub ne_of_gt : (rank : ℕ → ℕ) (a b : ℕ) → rank b < rank a → a ≢ b
ne_of_gt rank a b h e = absurd (omega (arith, h, ap rank e))

pub ne_of_outside :
    (rank : ℕ → ℕ) (a b lo hi : ℕ)
    → (rank a < lo) ⊎ (hi ≤ rank a)
    → lo ≤ rank b
    → rank b < hi
    → a ≢ b
ne_of_outside rank a b lo hi (inl h) l k = ne_of_lt rank a b (omega arith)
ne_of_outside rank a b lo hi (inr h) l k = ne_of_gt rank a b (omega arith)

-- A node gets another colour.
pub set_red-IsAt :
    (s : Rbtree) (rank : ℕ → ℕ) (c : List Frame) (l r : Shape) (q key : ℕ) (red red' : Bool)
    → IsAt s rank c (node l q key red r)
    → IsAt (set_red s q red') rank c (node l q key red' r)
set_red-IsAt s rank c l r q key red red' i =
    let n = record (s.at q) { red = red' } in
    let e = put-at_self s q n in
    let wl = Within-le rank i.lo (rank q) l i.within.0 in
    let wr = Within-le rank (suc (rank q)) i.hi r i.within.1 in
    record {
      up = i.up;
      p = i.p;
      lo = i.lo;
      hi = i.hi;
      sub = rw e (
        i.sub.0,
        i.sub.1,
        i.sub.2,
        refl,
        i.sub.4,
        Sub-frame s (put s q n) rank i.lo (rank q) q (s.at q).left l refl
            (λ a x y. put-at_ne s q a n (ne_of_lt rank a q y)) i.within.0 i.sub.5,
        Sub-frame s (put s q n) rank (suc (rank q)) i.hi q (s.at q).right r refl
            (λ a x y. put-at_ne s q a n (ne_of_gt rank a q x)) i.within.1 i.sub.6,
      );
      above =
          Up-frame s (put s q n) rank i.lo i.hi c i.up i.p refl refl
            (λ a x. put-at_ne s q a n (ne_of_outside rank a q i.lo i.hi x wl wr)) (omega arith)
            i.around i.above;
      within = i.within;
      around = i.around;
    }
