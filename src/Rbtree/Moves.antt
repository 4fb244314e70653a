-- ===== src/Rbtree/Moves.antt =====
-- Rotations and colours at a place, on either side.
use hcore.Base.{ℕ, suc, ◌≡◌, ◌≢◌, sym, ◌∙◌, inl, inr, Bool, true, false, List, ◌∷◌, arith, ◌==◌}
use hcore.Rbtree.{Rbtree, Side, on_left, on_right, opposite, child, set_red, rotate}
use hcore.Rbtree.Shape.{Shape, leaf, node, Frame, frame, join, Within-le}
use hcore.Rbtree.Place.{IsAt}
use hcore.Rbtree.Turn.{rotate_sentinel, rotate_red}
use mathlib.Core.Bool.{not}
use hcore.Rbtree.Recolour.{eq_true, ne_of_outside, set_red-IsAt, eq_false}
use hcore.Rbtree.Apart.{Frame-Outside, Sub-ne}
use hcore.Rbtree.Rotate.{rotate-IsAt}
use hcore.Rbtree.Balance.{is_red}

pub set_red-join :
    (d : Side) (s : Rbtree) (rank : ℕ → ℕ) (c : List Frame) (t u : Shape) (q key : ℕ)
    (red red' : Bool)
    → IsAt s rank c (join d t q key red u)
    → IsAt (set_red s q red') rank c (join d t q key red' u)
set_red-join on_left s rank c t u q key red red' i = set_red-IsAt s rank c t u q key red red' i
set_red-join on_right s rank c t u q key red red' i = set_red-IsAt s rank c u t q key red red' i

pub flip :
    (d : Side) (s : Rbtree) (rank : ℕ → ℕ) (c : List Frame) (t u : Shape) (q key : ℕ) (red : Bool)
    → IsAt s rank c (join d t q key red u)
    → IsAt s rank c (join (opposite d) u q key red t)
flip on_left s rank c t u q key red i = i
flip on_right s rank c t u q key red i = i

pub flip_back :
    (d : Side) (s : Rbtree) (rank : ℕ → ℕ) (c : List Frame) (t u : Shape) (q key : ℕ) (red : Bool)
    → IsAt s rank c (join (opposite d) u q key red t)
    → IsAt s rank c (join d t q key red u)
flip_back on_left s rank c t u q key red i = i
flip_back on_right s rank c t u q key red i = i

-- A rotation away from the side on which the child stands.
pub rotate_out :
    (d : Side) (s : Rbtree) (rank : ℕ → ℕ) (c : List Frame) (t v u : Shape) (y ky : ℕ) (cy : Bool)
    (n kn : ℕ) (cn : Bool)
    → IsAt s rank c (join d (join d t y ky cy v) n kn cn u)
    → IsAt (rotate (opposite d) s n) rank c (join d t y ky cy (join d v n kn cn u))
rotate_out on_left s rank c t v u y ky cy n kn cn i =
    rotate-IsAt on_right s rank c u v t n kn cn y ky cy i
rotate_out on_right s rank c t v u y ky cy n kn cn i =
    rotate-IsAt on_left s rank c u v t n kn cn y ky cy i

-- What the code reads at a place.
pub parent_at :
    (s : Rbtree) (rank : ℕ → ℕ) (c : List Frame) (d e : Side) (t u v : Shape) (q key : ℕ)
    (red : Bool) (x k : ℕ) (cx : Bool)
    → IsAt s rank (frame d q key red u ∷ c) (join e t x k cx v)
    → (s.at x).parent ≡ q
parent_at s rank c d on_left t u v q key red x k cx i = i.sub.4 ∙ i.above.0
parent_at s rank c d on_right t u v q key red x k cx i = i.sub.4 ∙ i.above.0

pub child_at :
    (s : Rbtree) (rank : ℕ → ℕ) (c : List Frame) (d e : Side) (t u v : Shape) (q key : ℕ)
    (red : Bool) (x k : ℕ) (cx : Bool)
    → IsAt s rank (frame d q key red u ∷ c) (join e t x k cx v)
    → child d (s.at q) ≡ x
child_at s rank c d on_left t u v q key red x k cx i = i.above.4 ∙ i.sub.0
child_at s rank c d on_right t u v q key red x k cx i = i.above.4 ∙ i.sub.0

pub red_at :
    (s : Rbtree) (rank : ℕ → ℕ) (c : List Frame) (d : Side) (t : Shape) (u : Shape) (q key : ℕ)
    (red : Bool)
    → IsAt s rank (frame d q key red u ∷ c) t
    → (s.at q).red ≡ red
red_at s rank c d t u q key red i = i.above.3

-- The colour that the code reads through a link is that of the subtree; a leaf's is the sentinel's.
pub red_below :
    (s : Rbtree) (rank : ℕ → ℕ) (c : List Frame) (d : Side) (t : Shape) (u : Shape) (q key : ℕ)
    (red : Bool)
    → (s.at s.sentinel).red ≡ false
    → IsAt s rank (frame d q key red u ∷ c) t
    → (s.at (child d (s.at q))).red ≡ is_red t
red_below s rank c d leaf u q key red b i = rw (i.above.4 ∙ i.sub) b
red_below s rank c d (node l x k cx r) u q key red b i = rw (i.above.4 ∙ i.sub.0) i.sub.3

-- The node of a place below another is not the root.
ne_root :
    (s : Rbtree) (rank : ℕ → ℕ) (f : Frame) (c : List Frame) (l r : Shape) (x k : ℕ) (cx : Bool)
    → IsAt s rank (f ∷ c) (node l x k cx r)
    → x ≢ s.root
ne_root s rank f c l r x k cx i e =
    let wl = Within-le rank i.lo (rank x) l i.within.0 in
    let wr = Within-le rank (suc (rank x)) i.hi r i.within.1 in
    let o = Frame-Outside s rank i.lo i.hi f c i.up i.p (omega arith) i.around i.above in
    ne_of_outside rank s.root x i.lo i.hi o.1 wl wr (sym e)

other_side :
    (s : Rbtree) (rank : ℕ → ℕ) (c : List Frame) (d : Side) (l r u : Shape) (q key : ℕ) (red : Bool)
    (x k : ℕ) (cx : Bool)
    → IsAt s rank (frame d q key red u ∷ c) (node l x k cx r)
    → child (opposite d) (s.at q) ≢ x
other_side s rank c on_left l r u q key red x k cx i =
    let wl = Within-le rank i.lo (rank x) l i.within.0 in
    let wr = Within-le rank (suc (rank x)) i.hi r i.within.1 in
    Sub-ne s rank (suc (rank q)) i.around.1 q (s.at q).right x u i.around.2 i.above.5 i.sub.1
      (inl (omega (arith, i.around.0)))
other_side s rank c on_right l r u q key red x k cx i =
    let wl = Within-le rank i.lo (rank x) l i.within.0 in
    let wr = Within-le rank (suc (rank x)) i.hi r i.within.1 in
    Sub-ne s rank i.around.1 (rank q) q (s.at q).left x u i.around.2 i.above.5 i.sub.1
      (inr (omega (arith, i.around.0)))

abbrev pub same_side : Side → Side → Bool
same_side on_left on_left = true
same_side on_right on_right = true
same_side _ _ = false

-- The two tests by which the code finds the root and the side.
pub root_test :
    (s : Rbtree) (rank : ℕ → ℕ) (f : Frame) (c : List Frame) (e : Side) (t v : Shape) (x k : ℕ)
    (cx : Bool)
    → IsAt s rank (f ∷ c) (join e t x k cx v)
    → (x == s.root) ≡ false
root_test s rank f c on_left t v x k cx i = eq_false x s.root (ne_root s rank f c t v x k cx i)
root_test s rank f c on_right t v x k cx i = eq_false x s.root (ne_root s rank f c v t x k cx i)

abbrev pub is_left : Side → Bool
is_left on_left = true
is_left on_right = false

pub side_test :
    (s : Rbtree) (rank : ℕ → ℕ) (c : List Frame) (d e : Side) (t v u : Shape) (q key : ℕ)
    (red : Bool) (x k : ℕ) (cx : Bool)
    → IsAt s rank (frame d q key red u ∷ c) (join e t x k cx v)
    → (x == (s.at q).left) ≡ is_left d
side_test s rank c on_left e t v u q key red x k cx i =
    rw (child_at s rank c on_left e t u v q key red x k cx i) (eq_true x)
side_test s rank c on_right on_left t v u q key red x k cx i =
    let ne = other_side s rank c on_right t v u q key red x k cx i in
    eq_false x (s.at q).left (λ z. ne (sym z))
side_test s rank c on_right on_right t v u q key red x k cx i =
    let ne = other_side s rank c on_right v t u q key red x k cx i in
    eq_false x (s.at q).left (λ z. ne (sym z))

-- Whether a node is the child on the inner side.
pub inner_test :
    (s : Rbtree) (rank : ℕ → ℕ) (c : List Frame) (d d' : Side) (l r u : Shape) (q key : ℕ)
    (red : Bool) (x k : ℕ) (cx : Bool)
    → IsAt s rank (frame d q key red u ∷ c) (node l x k cx r)
    → (x == child (opposite d') (s.at q)) ≡ not (same_side d d')
inner_test s rank c on_left on_left l r u q key red x k cx i =
    eq_false x (s.at q).right (λ z. other_side s rank c on_left l r u q key red x k cx i (sym z))
inner_test s rank c on_left on_right l r u q key red x k cx i =
    rw (child_at s rank c on_left on_left l u r q key red x k cx i) (eq_true x)
inner_test s rank c on_right on_left l r u q key red x k cx i =
    rw (child_at s rank c on_right on_left l u r q key red x k cx i) (eq_true x)
inner_test s rank c on_right on_right l r u q key red x k cx i =
    eq_false x (s.at q).left (λ z. other_side s rank c on_right l r u q key red x k cx i (sym z))

-- The sentinel is black.
abbrev pub IsEnded : Rbtree → Type 0
IsEnded s = (s.at s.sentinel).red ≡ false

pub rotate-IsEnded : (d : Side) (s : Rbtree) (n : ℕ) → IsEnded s → IsEnded (rotate d s n)
rotate-IsEnded d s n b = rw (rotate_sentinel d s n, rotate_red d s n s.sentinel) b

pub set_red-IsEnded :
    (s : Rbtree) (n : ℕ) (red : Bool) → n ≢ s.sentinel → IsEnded s → IsEnded (set_red s n red)
set_red-IsEnded s n red ne b = rw (eq_false s.sentinel n (λ z. ne (sym z))) b

pub ne_sentinel :
    (s : Rbtree) (rank : ℕ → ℕ) (c : List Frame) (d : Side) (t v : Shape) (x k : ℕ) (cx : Bool)
    → IsAt s rank c (join d t x k cx v)
    → x ≢ s.sentinel
ne_sentinel s rank c on_left t v x k cx i = i.sub.1
ne_sentinel s rank c on_right t v x k cx i = i.sub.1
