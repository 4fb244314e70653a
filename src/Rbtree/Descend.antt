-- ===== src/Rbtree/Descend.antt =====
-- The way down to the place of a new node.
use mathlib.Core.Path.{subst}
use Prim.Native.Nat.{max}
use hcore.Base.{
  ℕ, zero, suc, ◌+◌, ◌≤◌, ◌<◌, ◌≡◌, ◌≢◌, refl, ap, sym, ◌∙◌, ◌⊎◌, inl, inr, Bool, true, false,
  Option, some, List, [], ◌∷◌, ◌++◌, All-append, arith, ◌==◌, ltb, if◌then◌else◌, length,
  Bool-cases,
}
use hcore.Rbtree.{Rbtree, Side, on_left, on_right, child, attach, descend}
use hcore.Rbtree.Shape.{Shape, leaf, node, Frame, frame, join, plug}
use hcore.Rbtree.Place.{IsAt, down}
use hcore.Rbtree.Recolour.{eq_true, eq_false}
use hcore.Rbtree.Balance.{is_red, inorder, IsBalanced, IsBlackAbove, IsBalancedAround}
use hcore.Rbtree.Attach.{Fresh, FreshAround, attach-IsAt, roomy}
use hcore.Rbtree.Moves
use hcore.Rbtree.Order.{
  IsSorted, AtMost, MoreThan, before, after, inorder-plug_split, depth, IsSorted-split, AtMost-le,
  MoreThan-lt,
}

-- What holds of a place on the way down, where a node with the key `k` at `x` is to come.
pub record Ready (s : Rbtree) (rank : ℕ → ℕ) (x k : ℕ) (c : List Frame) (t : Shape) : Type 0 where
  pub place : IsAt s rank c t
  pub fresh : Fresh x t
  pub around : FreshAround x c
  pub height : ℕ
  pub balanced : IsBalanced height t
  pub above : IsBalancedAround height c
  pub black : (is_red t ≡ false) ⊎ IsBlackAbove c
  pub sorted : IsSorted (inorder t)
  pub low : AtMost k (before c)
  pub high : MoreThan k (after c)

-- Keys that are not greater lie to the left.
abbrev pub Goes : Side → (k key : ℕ) → Type 0
Goes on_left k key = k < key
Goes on_right k key = key ≤ k

red_down :
    (s : Rbtree) (d : Side) (c : List Frame) (h : ℕ) (t u : Shape) (q key : ℕ) (red : Bool)
    → IsBalanced h (join d t q key red u)
    → IsBalancedAround h c
    → (is_red (join d t q key red u) ≡ false) ⊎ IsBlackAbove c
    → (k : ℕ) × IsBalanced k t
      × IsBalancedAround k (frame d q key red u ∷ c)
      × ((is_red t ≡ false) ⊎ IsBlackAbove (frame d q key red u ∷ c))
red_down s on_left c h t u q key false b a o =
    (b.0, b.2, (b.3, subst (λ z. IsBalancedAround z c) b.1 a), inr refl)
red_down s on_right c h t u q key false b a o =
    (b.0, b.3, (b.2, subst (λ z. IsBalancedAround z c) b.1 a), inr refl)
red_down s on_left c h t u q key true b a (inl e) = cc
red_down s on_right c h t u q key true b a (inl e) = cc
red_down s on_left c h t u q key true b a (inr o) = (h, b.2, (b.1, b.3, o, a), inl b.0)
red_down s on_right c h t u q key true b a (inr o) = (h, b.3, (b.0, b.2, o, a), inl b.1)

Ready-down :
    (d : Side) (s : Rbtree) (rank : ℕ → ℕ) (x k : ℕ) (c : List Frame) (t u : Shape) (q key : ℕ)
    (red : Bool)
    → Goes d k key
    → Ready s rank x k c (join d t q key red u)
    → Ready s rank x k (frame d q key red u ∷ c) t
Ready-down on_left s rank x k c t u q key red g y =
    let (h, b, a, o) = red_down s on_left c y.height t u q key red y.balanced y.above y.black in
    let z = IsSorted-split (inorder t) (inorder u) key q y.sorted in
    record {
      place = down s rank c on_left t u q key red y.place;
      fresh = y.fresh.1;
      around = (y.fresh.0, y.fresh.2, y.around);
      height = h;
      balanced = b;
      above = a;
      black = o;
      sorted = z.0;
      low = y.low;
      high = (
        g,
        All-append (λ v. k < v.1) (inorder u) (after c) (MoreThan-lt key k (inorder u) g z.3)
            y.high,
      );
    }
Ready-down on_right s rank x k c t u q key red g y =
    let (h, b, a, o) = red_down s on_right c y.height t u q key red y.balanced y.above y.black in
    let z = IsSorted-split (inorder u) (inorder t) key q y.sorted in
    record {
      place = down s rank c on_right t u q key red y.place;
      fresh = y.fresh.2;
      around = (y.fresh.0, y.fresh.1, y.around);
      height = h;
      balanced = b;
      above = a;
      black = o;
      sorted = z.1;
      low =
          All-append (λ v. v.1 ≤ k) (before c) (inorder u ++ (q, key) ∷ []) y.low
            (All-append (λ v. v.1 ≤ k) (inorder u) ((q, key) ∷ [])
              (AtMost-le key k (inorder u) g z.2) (g, tt));
      high = y.high;
    }

-- A new red node hangs at its place.
pub record Hung (s s' : Rbtree) (x k fuel : ℕ) (order : List (ℕ × ℕ)) : Type 0 where
  pub rank : ℕ → ℕ
  pub around : List Frame
  pub place : IsAt s' rank around (node leaf x k true leaf)
  pub balanced : IsBalancedAround 0 around
  pub low : AtMost k (before around)
  pub high : MoreThan k (after around)
  pub order_kept : before around ++ after around ≡ order
  pub deep : length around ≤ fuel
  pub ended : Moves.IsEnded s'

-- The rest of the way from a node whose link on a side is taken.
abbrev go : ℕ → Rbtree → Side → (q x : ℕ) → Option Rbtree
go fuel s d q x =
    let p = child d (s.at q) in
    let rest = descend ltb fuel s p x in if p == s.sentinel then some (attach d s q x) else rest

side_of : ℕ → ℕ → Side
side_of k key = if ltb k key then on_left else on_right

descend-go :
    (fuel : ℕ) (s : Rbtree) (q x key : ℕ)
    → (s.at q).key ≡ key
    → descend ltb (suc fuel) s q x ≡ go fuel s (side_of (s.at x).key key) q x
unfolding descend side_of
descend-go fuel s q x key e =
    ap (λ y. go fuel s (if ltb (s.at x).key y then on_left else on_right) q x) e

side-Goes :
    (k key : ℕ) → ((side_of k key ≡ on_left) × (k < key)) ⊎ ((side_of k key ≡ on_right) × (key ≤ k))
unfolding side_of
side-Goes k key = elim (Bool-cases (ltb k key)) [
  | inl e ↦ inl (rw e, ground arith)
  | inr e ↦ inr (rw e, ground arith)
]

Hung-wider :
    (s s' : Rbtree) (x k fuel fuel' : ℕ) (order : List (ℕ × ℕ))
    → fuel ≤ fuel'
    → Hung s s' x k fuel order
    → Hung s s' x k fuel' order
Hung-wider s s' x k fuel fuel' order le h = record {
  rank = h.rank;
  around = h.around;
  place = h.place;
  balanced = h.balanced;
  low = h.low;
  high = h.high;
  order_kept = h.order_kept;
  deep = omega (arith, h.deep);
  ended = h.ended;
}

module _ (s : Rbtree) (rank : ℕ → ℕ) (x : ℕ) (ended : Moves.IsEnded s) (ns : x ≢ s.sentinel) where
  -- The new node gets its place.
  abbrev Finds : Option Rbtree → ℕ → List (ℕ × ℕ) → Type 0
  Finds found fuel order = (s' : Rbtree) × (found ≡ some s') × Hung s s' x (s.at x).key fuel order

  Finds-step :
      (o o' : Option Rbtree) (fuel fuel' : ℕ) (order : List (ℕ × ℕ))
      → o ≡ o'
      → fuel' ≤ fuel
      → Finds o' fuel' order
      → Finds o fuel order
  Finds-step o o' fuel fuel' order e le (s', f, h) =
      (s', e ∙ f, Hung-wider s s' x (s.at x).key fuel' fuel order le h)

  go_lem :
      (t u : Shape) (fuel : ℕ) (c : List Frame) (d : Side) (q key : ℕ) (red : Bool)
      → depth t ≤ fuel
      → Ready s rank x (s.at x).key (frame d q key red u ∷ c) t
      → Finds
          (go fuel s d q x)
          (suc (length c) + depth t)
          (inorder (plug (frame d q key red u ∷ c) t))
  go_lem leaf u fuel c d q key red n y =
      let at_end : child d (s.at q) ≡ s.sentinel = y.place.above.4 ∙ y.place.sub in
      let turn =
        λ (p : ℕ) (b : Bool). if b then some (attach d s q x) else descend ltb fuel s p x in
      let runs : go fuel s d q x ≡ some (attach d s q x) =
        ap (λ p. turn p (p == s.sentinel)) at_end ∙ ap (turn s.sentinel) (eq_true s.sentinel) in
      (
        attach d s q x,
        runs,
        record {
          rank = roomy rank x y.place.lo;
          around = frame d q key red u ∷ c;
          place = attach-IsAt d s rank c q key red u x ns y.around y.place;
          balanced = subst (λ z. IsBalancedAround z (frame d q key red u ∷ c)) y.balanced y.above;
          low = y.low;
          high = y.high;
          order_kept = sym (inorder-plug_split (frame d q key red u ∷ c) leaf);
          deep = omega arith;
          ended =
              rw
                (
                  eq_false s.sentinel x (λ z. ns (sym z)),
                  eq_false s.sentinel q (λ z. y.place.above.1 (sym z)),
                )
                ended;
        },
      )
  go_lem (node l q' key' red' r) u zero c d q key red n y = absurd (omega arith)
  go_lem (node l q' key' red' r) u (suc fuel) c d q key red n y =
      let f = frame d q key red u in
      let at_node : child d (s.at q) ≡ q' = y.place.above.4 ∙ y.place.sub.0 in
      let turn =
        λ (p : ℕ) (b : Bool). if b then some (attach d s q x) else descend ltb (suc fuel) s p x in
      let runs : go (suc fuel) s d q x ≡ go fuel s (side_of (s.at x).key key') q' x =
        ap (λ p. turn p (p == s.sentinel)) at_node
        ∙ ap (turn q') (eq_false q' s.sentinel y.place.sub.1)
        ∙ descend-go fuel s q' x key' y.place.sub.2 in
      let order = inorder (plug (f ∷ c) (node l q' key' red' r)) in
      elim (side-Goes (s.at x).key key') [
        | inl (e, g) ↦
            Finds-step (go (suc fuel) s d q x) (go fuel s on_left q' x)
              (suc (length c) + suc (max (depth l) (depth r))) (suc (suc (length c)) + depth l)
              order (runs ∙ ap (λ z. go fuel s z q' x) e) (omega arith)
              (go_lem l r fuel (f ∷ c) on_left q' key' red' (omega arith)
                (Ready-down on_left s rank x (s.at x).key (f ∷ c) l r q' key' red' g y))
        | inr (e, g) ↦
            Finds-step (go (suc fuel) s d q x) (go fuel s on_right q' x)
              (suc (length c) + suc (max (depth l) (depth r))) (suc (suc (length c)) + depth r)
              order (runs ∙ ap (λ z. go fuel s z q' x) e) (omega arith)
              (go_lem r l fuel (f ∷ c) on_right q' key' red' (omega arith)
                (Ready-down on_right s rank x (s.at x).key (f ∷ c) r l q' key' red' g y))
      ]

  -- From a node the new node gets its place below, with fuel for the depth.
  pub descend_lem :
      (l r : Shape) (fuel : ℕ) (q key : ℕ) (red : Bool)
      → depth (node l q key red r) ≤ fuel
      → Ready s rank x (s.at x).key [] (node l q key red r)
      → Finds (descend ltb fuel s q x) (depth (node l q key red r)) (inorder (node l q key red r))
  descend_lem l r zero q key red n y = absurd (omega arith)
  descend_lem l r (suc fuel) q key red n y =
      let runs = descend-go fuel s q x key y.place.sub.2 in
      let order = inorder (node l q key red r) in
      elim (side-Goes (s.at x).key key) [
        | inl (e, g) ↦
            Finds-step (descend ltb (suc fuel) s q x) (go fuel s on_left q x)
              (suc (max (depth l) (depth r))) (suc 0 + depth l) order
              (runs ∙ ap (λ z. go fuel s z q x) e) (omega arith)
              (go_lem l r fuel [] on_left q key red (omega arith)
                (Ready-down on_left s rank x (s.at x).key [] l r q key red g y))
        | inr (e, g) ↦
            Finds-step (descend ltb (suc fuel) s q x) (go fuel s on_right q x)
              (suc (max (depth l) (depth r))) (suc 0 + depth r) order
              (runs ∙ ap (λ z. go fuel s z q x) e) (omega arith)
              (go_lem r l fuel [] on_right q key red (omega arith)
                (Ready-down on_right s rank x (s.at x).key [] r l q key red g y))
      ]
