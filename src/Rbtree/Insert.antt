-- ===== src/Rbtree/Insert.antt =====
-- hcore_rbtree_insert puts the node behind the nodes whose key is not greater, and keeps the balance.
use mathlib.Core.Path.{subst}
use hcore.Base.{
  ℕ, suc, ◌<◌, ◌≡◌, ◌≢◌, refl, ap, sym, ◌∙◌, inl, Bool, true, false, Option, none, some, List, [],
  ◌∷◌, ◌++◌, All, arith, ◌==◌, if◌then◌else◌, length,
}
use hcore.Rbtree.{Rbtree, put, set_red, rbtree_insert, insert_value, insert_loop}
use hcore.Rbtree.Shape.{Shape, leaf, node}
use hcore.Rbtree.Place.{IsAt}
use hcore.Rbtree.Recolour.{eq_true, eq_false, set_red-IsAt}
use hcore.Rbtree.Balance.{is_red, inorder, IsBalanced}
use hcore.Rbtree.Attach.{Fresh}
use hcore.Rbtree.Loop.{insert_loop_lem}
use hcore.Rbtree.Order.{IsSorted, AtMost, MoreThan, before, after, inorder-plug_split, depth}
use hcore.Rbtree.Descend.{Ready, descend_lem}
use hcore.Rbtree.Moves
use hcore.Rbtree.Whole.{IsRbtree, Fresh-of_order, depth-le-length, IsSorted-insert}

-- The root becomes black.
Blackened : Rbtree → (rank : ℕ → ℕ) → List (ℕ × ℕ) → Type 0
Blackened s rank xs =
    (t : Shape) × IsAt s rank [] t
    × (inorder t ≡ xs)
    × ((h : ℕ) × IsBalanced h t)
    × (is_red t ≡ false)
    × Moves.IsEnded s

blacken :
    (s : Rbtree) (rank : ℕ → ℕ) (t : Shape) (h : ℕ)
    → Moves.IsEnded s
    → IsAt s rank [] t
    → IsBalanced h t
    → Blackened (set_red s s.root false) rank (inorder t)
unfolding Blackened
blacken s rank leaf h e i b = (
  leaf,
  record {
    up = i.up;
    p = i.p;
    lo = i.lo;
    hi = i.hi;
    sub = i.sub;
    above = i.above;
    within = i.within;
    around = tt;
  },
  refl,
  (h, b),
  refl,
  rw (i.above ∙ i.sub, eq_true s.sentinel) refl,
)
blacken s rank (node l q key red r) h e i b =
    let er : s.root ≡ q = i.above ∙ i.sub.0 in
    (
      node l q key false r,
      subst (λ z. IsAt (set_red s z false) rank [] (node l q key false r)) (sym er)
          (set_red-IsAt s rank [] l r q key red false i),
      refl,
      still_balanced red b,
      refl,
      subst (λ z. Moves.IsEnded (set_red s z false)) (sym er)
          (Moves.set_red-IsEnded s q false i.sub.1 e),
    )
  where
    still_balanced :
        (red : Bool)
        → IsBalanced h (node l q key red r)
        → (k : ℕ) × IsBalanced k (node l q key false r)
    still_balanced true b = (suc h, (h, refl, b.2, b.3))
    still_balanced false b = (h, b)

-- The node at `x` stands behind `ys` and before `zs`, which were the nodes.
pub record IsInserted (s : Rbtree) (x k : ℕ) (xs : List (ℕ × ℕ)) : Type 0 where
  pub left : List (ℕ × ℕ)
  pub right : List (ℕ × ℕ)
  pub whole : left ++ right ≡ xs
  pub low : AtMost k left
  pub high : MoreThan k right
  pub tree : IsRbtree s (left ++ (x, k) ∷ right)

insert_runs :
    (call : Rbtree → ℕ → ℕ → Option Rbtree) (fuel : ℕ) (s : Rbtree) (q x : ℕ) (s1 s2 : Rbtree)
    → s.root ≡ q
    → q ≢ s.sentinel
    → call s q x ≡ some s1
    → insert_loop fuel s1 x ≡ some s2
    → rbtree_insert call fuel s x ≡ some (set_red s2 s2.root false)
unfolding rbtree_insert
insert_runs call fuel s q x s1 s2 e ne f g =
    let first =
      record (put s x
        (record (s.at x) { parent = 0; left = s.sentinel; right = s.sentinel; red = false })) {
          root = x;
        } in
    let ended : Option Rbtree → Option Rbtree =
      λ o. elim o [ none ↦ none | some z ↦ some (set_red z z.root false) ] in
    let rest : Option Rbtree → Option Rbtree =
      λ o. elim o [ none ↦ none | some z ↦ ended (insert_loop fuel z x) ] in
    let whole = λ (r : ℕ) (b : Bool). if b then some first else rest (call s r x) in
    ap (λ r. whole r (r == s.sentinel)) e
    ∙ ap (whole q) (eq_false q s.sentinel ne)
    ∙ ap rest f
    ∙ ap ended g

module _ (fuel : ℕ) (s : Rbtree) (x : ℕ) (ns : x ≢ s.sentinel) where
  insert_empty :
      s.root ≡ s.sentinel
      → Moves.IsEnded s
      → (s' : Rbtree) × (rbtree_insert (insert_value fuel) fuel s x ≡ some s')
        × IsInserted s' x (s.at x).key []
  unfolding rbtree_insert
  insert_empty e b =
      let n = record (s.at x) { parent = 0; left = s.sentinel; right = s.sentinel; red = false } in
      let s' = record (put s x n) { root = x } in
      let at_x : s'.at x ≡ n = rw (eq_true x) refl in
      (
        s',
        rw (e, eq_true s.sentinel) refl,
        record {
          left = [];
          right = [];
          whole = refl;
          low = tt;
          high = tt;
          tree = record {
            rank = λ a. 0;
            shape = node leaf x (s.at x).key false leaf;
            place = record {
              up = 0;
              p = x;
              lo = 0;
              hi = 1;
              sub = rw at_x (refl, ns, refl, refl, refl, refl, refl);
              above = refl;
              within = (omega arith, omega arith);
              around = tt;
            };
            order = refl;
            height = 1;
            balanced = (0, refl, refl, refl);
            black = refl;
            sorted = (tt, tt);
            ended = rw (eq_false s.sentinel x (λ z. ns (sym z))) b;
          };
        },
      )

  insert_below :
      (rank : ℕ → ℕ) (l r : Shape) (q key h : ℕ)
      → IsAt s rank [] (node l q key false r)
      → IsBalanced h (node l q key false r)
      → IsSorted (inorder (node l q key false r))
      → Moves.IsEnded s
      → Fresh x (node l q key false r)
      → depth (node l q key false r) < fuel
      → (s' : Rbtree) × (rbtree_insert (insert_value fuel) fuel s x ≡ some s')
        × IsInserted s' x (s.at x).key (inorder (node l q key false r))
  unfolding rbtree_insert insert_value Blackened
  insert_below rank l r q key h i b o e f n =
      let k = (s.at x).key in
      let t = node l q key false r in
      let er : s.root ≡ q = i.above ∙ i.sub.0 in
      let ready : Ready s rank x k [] t = record {
        place = i;
        fresh = f;
        around = tt;
        height = h;
        balanced = b;
        above = tt;
        black = inl refl;
        sorted = o;
        low = tt;
        high = tt;
      } in
      let (s1, f1, hung) = descend_lem s rank x e ns l r fuel q key false (omega arith) ready in
      let (s2, f2, fixed) =
        insert_loop_lem fuel s1 hung.rank hung.around leaf leaf x k 0 hung.ended hung.place
          (refl, refl, refl, refl) hung.balanced (omega (arith, hung.deep)) in
      let (t3, i3, o3, b3, black3, e3) =
        blacken s2 hung.rank fixed.shape fixed.height fixed.ended fixed.place fixed.balanced in
      let order : inorder t3 ≡ before hung.around ++ (x, k) ∷ after hung.around =
        o3 ∙ fixed.order ∙ inorder-plug_split hung.around (node leaf x k true leaf) in
      (
        set_red s2 s2.root false,
        insert_runs (insert_value fuel) fuel s q x s1 s2 er i.sub.1 f1 f2,
        record {
          left = before hung.around;
          right = after hung.around;
          whole = hung.order_kept;
          low = hung.low;
          high = hung.high;
          tree = record {
            rank = hung.rank;
            shape = t3;
            place = i3;
            order = order;
            height = b3.0;
            balanced = b3.1;
            black = black3;
            sorted =
                IsSorted-insert (before hung.around) (after hung.around) x k
                  (subst IsSorted (sym hung.order_kept) o) hung.low hung.high;
            ended = e3;
          };
        },
      )

  insert_at :
      (rank : ℕ → ℕ) (t : Shape) (h : ℕ)
      → IsAt s rank [] t
      → IsBalanced h t
      → is_red t ≡ false
      → IsSorted (inorder t)
      → Moves.IsEnded s
      → Fresh x t
      → depth t < fuel
      → (s' : Rbtree) × (rbtree_insert (insert_value fuel) fuel s x ≡ some s')
        × IsInserted s' x (s.at x).key (inorder t)
  insert_at rank leaf h i b c o e f n = insert_empty (i.above ∙ i.sub) e
  insert_at rank (node l q key false r) h i b c o e f n = insert_below rank l r q key h i b o e f n
  insert_at rank (node l q key true r) h i b c o e f n = cc c

-- hcore_rbtree_insert with hcore_rbtree_insert_value, of a node at an address that is not the sentinel's and
-- not in the tree, ends with as many rounds as the tree has nodes and one more. The links then lead to a
-- balanced tree again, in which the node stands behind all nodes whose key is not greater than its own
-- and before all others, and these stand as before.
pub rbtree_insert-IsRbtree :
    (fuel : ℕ) (s : Rbtree) (x : ℕ) (xs : List (ℕ × ℕ))
    → IsRbtree s xs
    → x ≢ s.sentinel
    → All (λ y. y.0 ≢ x) xs
    → length xs < fuel
    → (s' : Rbtree) × (rbtree_insert (insert_value fuel) fuel s x ≡ some s')
      × ((ys zs : List (ℕ × ℕ)) × (ys ++ zs ≡ xs)
          × AtMost (s.at x).key ys
          × MoreThan (s.at x).key zs
          × IsRbtree s' (ys ++ (x, (s.at x).key) ∷ zs))
rbtree_insert-IsRbtree fuel s x xs p ns f n =
    let o = sym p.order in
    let len : length (inorder p.shape) ≡ length xs = ap length p.order in
    let (s', runs, h) =
      insert_at fuel s x ns p.rank p.shape p.height p.place p.balanced p.black
        (subst IsSorted o p.sorted) p.ended
        (Fresh-of_order x p.shape (subst (All (λ y. y.0 ≢ x)) o f))
        (omega (arith, depth-le-length p.shape, len)) in
    (s', runs, (h.left, h.right, h.whole ∙ p.order, h.low, h.high, h.tree))
