-- ===== src/Rbtree/Next.antt =====
-- hcore_rbtree_next goes through the nodes in order.
use mathlib.Core.Path.{subst}
use mathlib.Core.List.{append_assoc, nil≢cons}
use native.Mathlib.Omega.{pow_step}
use hcore.Base.{
  ℕ, zero, suc, ◌+◌, ◌*◌, ◌^◌, ◌≤◌, ◌<◌, ◌≡◌, refl, ap, sym, ◌∙◌, Bool, some, List, [], ◌∷◌, ◌++◌,
  arith, length,
}
use hcore.Rbtree.{Rbtree, on_left, on_right, rbtree_min, climb, rbtree_next}
use hcore.Rbtree.Shape.{Shape, leaf, node, Frame, frame}
use hcore.Rbtree.Place.{IsAt, up, down}
use hcore.Rbtree.Recolour.{eq_true, eq_false}
use hcore.Rbtree.Balance.{inorder}
use hcore.Rbtree.Order.{after, depth}
use hcore.Rbtree.Whole.{IsRbtree, depth-le-length, depth-IsRbtree}
use hcore.Rbtree.Moves

-- The first address, or NULL.
abbrev pub first_address : List (ℕ × ℕ) → ℕ
first_address [] = 0
first_address (x ∷ xs) = x.0

-- From each node of `xs` the next is the one behind it, and from the last the first of `rest`.
abbrev pub Follows : ℕ → Rbtree → (xs rest : List (ℕ × ℕ)) → Type 0
Follows fuel s [] rest = Unit {0}
Follows fuel s (x ∷ xs) rest =
    (rbtree_next fuel s x.0 ≡ some (first_address (xs ++ rest))) × Follows fuel s xs rest

Follows-append :
    (fuel : ℕ) (s : Rbtree) (xs ys rest : List (ℕ × ℕ))
    → Follows fuel s xs (ys ++ rest)
    → Follows fuel s ys rest
    → Follows fuel s (xs ++ ys) rest
Follows-append fuel s [] ys rest f g = g
Follows-append fuel s (x ∷ xs) ys rest f g =
    (rw (append_assoc xs ys rest) f.0, Follows-append fuel s xs ys rest f.1 g)

rbtree_min_lem :
    (fuel : ℕ) (s : Rbtree) (rank : ℕ → ℕ) (c : List Frame) (l r : Shape) (q key : ℕ) (red : Bool)
    (rest : List (ℕ × ℕ))
    → IsAt s rank c (node l q key red r)
    → depth l < fuel
    → rbtree_min fuel s q ≡ some (first_address ((inorder l ++ (q, key) ∷ inorder r) ++ rest))
unfolding rbtree_min
rbtree_min_lem zero s rank c l r q key red rest i n = absurd (omega arith)
rbtree_min_lem (suc fuel) s rank c leaf r q key red rest i n = rw (i.sub.5, eq_true s.sentinel) refl
rbtree_min_lem (suc fuel) s rank c (node l' q' key' red' r') r q key red rest i n =
    let j = down s rank c on_left (node l' q' key' red' r') r q key red i in
    let ih =
      rbtree_min_lem fuel s rank (frame on_left q key red r ∷ c) l' r' q' key' red'
        ((q, key) ∷ inorder r ++ rest) j (omega arith) in
    rw (i.sub.5.0, eq_false q' s.sentinel j.sub.1)
      (ih
        ∙ ap (λ z. some (first_address z))
            (sym
              (append_assoc (inorder l' ++ (q', key') ∷ inorder r') ((q, key) ∷ inorder r) rest)))

climb_lem :
    (fuel : ℕ) (s : Rbtree) (rank : ℕ → ℕ) (c : List Frame) (l r : Shape) (q key : ℕ) (red : Bool)
    → IsAt s rank c (node l q key red r)
    → length c < fuel
    → climb fuel s q ≡ some (first_address (after c))
unfolding climb
climb_lem zero s rank c l r q key red i n = absurd (omega arith)
climb_lem (suc fuel) s rank [] l r q key red i n = rw (i.above ∙ i.sub.0, eq_true q) refl
climb_lem (suc fuel) s rank (frame on_left p kp cp u ∷ c) l r q key red i n =
    rw
      (
        Moves.root_test s rank (frame on_left p kp cp u) c on_left l r q key red i,
        Moves.parent_at s rank c on_left on_left l u r p kp cp q key red i,
        Moves.side_test s rank c on_left on_left l r u p kp cp q key red i,
      )
      refl
climb_lem (suc fuel) s rank (frame on_right p kp cp u ∷ c) l r q key red i n =
    rw
      (
        Moves.root_test s rank (frame on_right p kp cp u) c on_left l r q key red i,
        Moves.parent_at s rank c on_right on_left l u r p kp cp q key red i,
        Moves.side_test s rank c on_right on_left l r u p kp cp q key red i,
      )
      (climb_lem fuel s rank c u (node l q key red r) p kp cp
        (up s rank c on_right (node l q key red r) u p kp cp i) (omega arith))

rbtree_next_lem :
    (fuel : ℕ) (s : Rbtree) (rank : ℕ → ℕ) (c : List Frame) (l r : Shape) (q key : ℕ) (red : Bool)
    → IsAt s rank c (node l q key red r)
    → length c < fuel
    → depth r ≤ fuel
    → rbtree_next fuel s q ≡ some (first_address (inorder r ++ after c))
unfolding rbtree_next
rbtree_next_lem fuel s rank c l leaf q key red i n m =
    rw (i.sub.6, eq_true s.sentinel) (climb_lem fuel s rank c l leaf q key red i n)
rbtree_next_lem fuel s rank c l (node l' q' key' red' r') q key red i n m =
    let j = down s rank c on_right (node l' q' key' red' r') l q key red i in
    rw (i.sub.6.0, eq_false q' s.sentinel j.sub.1)
      (rbtree_min_lem fuel s rank (frame on_right q key red l ∷ c) l' r' q' key' red' (after c) j
        (omega arith))

place-Follows :
    (fuel : ℕ) (s : Rbtree) (rank : ℕ → ℕ) (c : List Frame) (t : Shape)
    → IsAt s rank c t
    → length c + depth t ≤ fuel
    → Follows fuel s (inorder t) (after c)
place-Follows fuel s rank c leaf i n = tt
place-Follows fuel s rank c (node l q key red r) i n =
    let il = down s rank c on_left l r q key red i in
    let ir = down s rank c on_right r l q key red i in
    Follows-append fuel s (inorder l) ((q, key) ∷ inorder r) (after c)
      (place-Follows fuel s rank (frame on_left q key red r ∷ c) l il (omega arith))
      (
        rbtree_next_lem fuel s rank c l r q key red i (omega arith) (omega arith),
        place-Follows fuel s rank (frame on_right q key red l ∷ c) r ir (omega arith),
      )

-- From each node of the tree hcore_rbtree_next gives the one behind it in order, and from the last NULL,
-- with as many rounds as the tree has nodes.
pub rbtree_next-Follows :
    (fuel : ℕ) (s : Rbtree) (xs : List (ℕ × ℕ))
    → IsRbtree s xs
    → length xs ≤ fuel
    → Follows fuel s xs []
rbtree_next-Follows fuel s xs p n =
    let len : length (inorder p.shape) ≡ length xs = ap length p.order in
    subst (λ z. Follows fuel s z []) p.order
      (place-Follows fuel s p.rank [] p.shape p.place (omega (arith, depth-le-length p.shape, len)))

pow_pos : (h : ℕ) → 1 ≤ 2 ^ h
pow_pos zero = omega arith
pow_pos (suc h) = omega (arith, pow_step 2 h, pow_pos h)

le_of_pow_lt : (h k : ℕ) → 2 ^ h < 2 ^ suc k → h ≤ k
le_of_pow_lt zero k e = omega arith
le_of_pow_lt (suc h) zero e = absurd (omega (arith, e, pow_step 2 h, pow_pos h))
le_of_pow_lt (suc h) (suc k) e =
    omega (arith, le_of_pow_lt h k (omega (arith, e, pow_step 2 h, pow_step 2 (suc k))))

min_of_shape :
    (fuel : ℕ) (s : Rbtree) (rank : ℕ → ℕ) (t : Shape) (x : ℕ × ℕ) (xs : List (ℕ × ℕ))
    → IsAt s rank [] t
    → inorder t ≡ x ∷ xs
    → depth t ≤ fuel
    → rbtree_min fuel s s.root ≡ some x.0
min_of_shape fuel s rank leaf x xs i e d = absurd (nil≢cons e)
min_of_shape fuel s rank (node l q key red r) x xs i e d =
    ap (rbtree_min fuel s) (i.above ∙ i.sub.0)
    ∙ rbtree_min_lem fuel s rank [] l r q key red [] i (omega (arith, d))
    ∙ ap (λ z. some (first_address (z ++ []))) e

-- On a tree that is not empty, of less than 2^(k + 1) - 1 nodes, 2 k rounds are enough for hcore_rbtree_min
-- to give, from the root, the first of the nodes in order.
pub rbtree_min-first :
    (fuel k : ℕ) (s : Rbtree) (x : ℕ × ℕ) (xs : List (ℕ × ℕ))
    → IsRbtree s (x ∷ xs)
    → length (x ∷ xs) + 1 < 2 ^ suc k
    → 2 * k ≤ fuel
    → rbtree_min fuel s s.root ≡ some x.0
rbtree_min-first fuel k s x xs p n f =
    let d = depth-IsRbtree s (x ∷ xs) p in
    let h : p.height ≤ k = le_of_pow_lt p.height k (omega (arith, d.1, n)) in
    min_of_shape fuel s p.rank p.shape x xs p.place p.order (omega (arith, d.0, h, f))
