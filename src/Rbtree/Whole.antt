-- ===== src/Rbtree/Whole.antt =====
-- A whole red-black tree: the state between two calls, and how deep it is.
use native.Mathlib.Omega.{pow_step}
use hcore.Base.{
  ℕ, ◌+◌, ◌*◌, ◌^◌, ◌≤◌, ◌≡◌, ◌≢◌, refl, sym, true, false, List, [], ◌∷◌, ◌++◌, All, All-append,
  All-split, arith, length, length-append,
}
use hcore.Rbtree.{Rbtree, init}
use hcore.Rbtree.Shape.{Shape, leaf, node}
use hcore.Rbtree.Place.{IsAt}
use hcore.Rbtree.Recolour.{eq_true}
use hcore.Rbtree.Balance.{is_red, inorder, IsBalanced}
use hcore.Rbtree.Attach.{Fresh}
use hcore.Rbtree.Order.{IsSorted, AtMost, MoreThan, depth}
use hcore.Rbtree.Moves

-- The links from the root lead to a balanced tree with a black root whose nodes, from left to right, are
-- `xs`, with keys that do not fall.
pub record IsRbtree (s : Rbtree) (xs : List (ℕ × ℕ)) : Type 0 where
  pub rank : ℕ → ℕ
  pub shape : Shape
  pub place : IsAt s rank [] shape
  pub order : inorder shape ≡ xs
  pub height : ℕ
  pub balanced : IsBalanced height shape
  pub black : is_red shape ≡ false
  pub sorted : IsSorted xs
  pub ended : Moves.IsEnded s

pub Fresh-of_order : (x : ℕ) (t : Shape) → All (λ y. y.0 ≢ x) (inorder t) → Fresh x t
Fresh-of_order x leaf a = tt
Fresh-of_order x (node l q key red r) a =
    let h = All-split (λ y. y.0 ≢ x) (inorder l) ((q, key) ∷ inorder r) a in
    (h.1.0, Fresh-of_order x l h.0, Fresh-of_order x r h.1.1)

pub depth-le-length : (t : Shape) → depth t ≤ length (inorder t)
depth-le-length leaf = omega arith
depth-le-length (node l q key red r) =
    omega (
      arith,
      length-append (inorder l) ((q, key) ∷ inorder r),
      depth-le-length l,
      depth-le-length r,
    )

pub IsSorted-insert :
    (xs ys : List (ℕ × ℕ)) (x k : ℕ)
    → IsSorted (xs ++ ys)
    → AtMost k xs
    → MoreThan k ys
    → IsSorted (xs ++ (x, k) ∷ ys)
IsSorted-insert [] ys x k h a b = (All_lt k ys b, h)
  where
    All_lt : (k : ℕ) (ys : List (ℕ × ℕ)) → MoreThan k ys → All (λ y. k ≤ y.1) ys
    All_lt k [] b = tt
    All_lt k (y ∷ ys) b = (omega (arith, b.0), All_lt k ys b.1)
IsSorted-insert (y ∷ xs) ys x k h a b =
    let s = All-split (λ z. y.1 ≤ z.1) xs ys h.0 in
    (
      All-append (λ z. y.1 ≤ z.1) xs ((x, k) ∷ ys) s.0 (a.0, s.1),
      IsSorted-insert xs ys x k h.1 a.1 b,
    )

-- The depth of a tree with a black root, and of any.
depth_le :
    (h : ℕ) (t : Shape)
    → IsBalanced h t
    → (depth t ≤ 2 * h + 1) × ((is_red t ≡ false) → depth t ≤ 2 * h)
depth_le h leaf b = (omega arith, λ z. omega arith)
depth_le h (node l q key true r) b =
    let wl = (depth_le h l b.2).1 b.0 in
    let wr = (depth_le h r b.3).1 b.1 in (omega arith, λ z. cc z)
depth_le h (node l q key false r) b =
    let wl = (depth_le b.0 l b.2).0 in
    let wr = (depth_le b.0 r b.3).0 in (omega (arith, b.1), λ z. omega (arith, b.1))

pow-le-length : (h : ℕ) (t : Shape) → IsBalanced h t → 2 ^ h ≤ length (inorder t) + 1
pow-le-length h leaf b = rw b (omega arith)
pow-le-length h (node l q key true r) b =
    omega (arith, pow-le-length h l b.2, length-append (inorder l) ((q, key) ∷ inorder r))
pow-le-length h (node l q key false r) b = rw b.1 (
    omega (
      arith,
      pow_step 2 b.0,
      pow-le-length b.0 l b.2,
      pow-le-length b.0 r b.3,
      length-append (inorder l) ((q, key) ∷ inorder r),
    ))

-- The depth, by the black nodes on the way down, and these by the number of nodes.
pub depth-IsRbtree :
    (s : Rbtree) (xs : List (ℕ × ℕ)) (p : IsRbtree s xs)
    → (depth p.shape ≤ 2 * p.height) × (2 ^ p.height ≤ length xs + 1)
depth-IsRbtree s xs p = (
  (depth_le p.height p.shape p.balanced).1 p.black,
  rw (sym p.order) (pow-le-length p.height p.shape p.balanced),
)

-- hcore_rbtree_init makes an empty tree.
pub init-IsRbtree : (s : Rbtree) (sentinel : ℕ) → IsRbtree (init s sentinel) []
unfolding init
init-IsRbtree s sentinel = record {
  rank = λ a. 0;
  shape = leaf;
  place = record {
    up = 0;
    p = sentinel;
    lo = 0;
    hi = 0;
    sub = refl;
    above = refl;
    within = omega arith;
    around = tt;
  };
  order = refl;
  height = 0;
  balanced = refl;
  black = refl;
  sorted = tt;
  ended = rw (eq_true sentinel) refl;
}
