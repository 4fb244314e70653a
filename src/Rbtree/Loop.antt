-- ===== src/Rbtree/Loop.antt =====
-- The loop of hcore_rbtree_insert makes a balanced tree with the same order.
use mathlib.Core.Path.{subst}
use hcore.Base.{
  ℕ, zero, suc, ◌<◌, ◌≡◌, refl, ap, ◌∙◌, ◌⊎◌, inl, inr, Bool, true, false, some, List, [], ◌∷◌,
  arith, ◌==◌, if◌then◌else◌, length,
}
use hcore.Rbtree.{
  Rbtree, Side, on_left, on_right, opposite, child, recolour, turn_in, turn_out, fix_red,
  insert_loop,
}
use hcore.Rbtree.Shape.{Shape, leaf, node, Frame, frame, join, plug}
use hcore.Rbtree.Place.{IsAt, up, down, top}
use hcore.Rbtree.Recolour.{eq_true}
use hcore.Rbtree.Balance.{
  is_red, inorder, inorder-join, inorder-join_other, inorder-plug, inorder-turned_out, IsBalanced,
  IsBlackAbove, IsBalancedAround, plug-IsBalanced, join-IsBalanced_black, join-IsBalanced_red,
  is_red-join,
}
use hcore.Rbtree.Fix.{AreBlack, recolour_lem, turn_out_lem, turn_in_lem}
use hcore.Rbtree.Moves

-- A balanced tree in the given order.
pub record Fixed (s : Rbtree) (rank : ℕ → ℕ) (xs : List (ℕ × ℕ)) : Type 0 where
  pub shape : Shape
  pub place : IsAt s rank [] shape
  pub order : inorder shape ≡ xs
  pub height : ℕ
  pub balanced : IsBalanced height shape
  pub ended : Moves.IsEnded s

Fixed-of_place :
    (s : Rbtree) (rank : ℕ → ℕ) (c : List Frame) (t : Shape) (h : ℕ)
    → Moves.IsEnded s
    → IsAt s rank c t
    → (is_red t ≡ false) ⊎ IsBlackAbove c
    → IsBalanced h t
    → IsBalancedAround h c
    → Fixed s rank (inorder (plug c t))
Fixed-of_place s rank c t h e i o b w =
    let (k, bal) = plug-IsBalanced c h t o b w in
    record {
      shape = plug c t;
      place = top s rank c t i;
      order = refl;
      height = k;
      balanced = bal;
      ended = e;
    }

insert_loop_root :
    (fuel : ℕ) (s : Rbtree) (x : ℕ) → s.root ≡ x → insert_loop (suc fuel) s x ≡ some s
unfolding insert_loop
insert_loop_root fuel s x e = rw (e, eq_true x)

insert_loop_black :
    (fuel : ℕ) (s : Rbtree) (rank : ℕ → ℕ) (c : List Frame) (d : Side) (p kp : ℕ) (u l r : Shape)
    (x k : ℕ)
    → IsAt s rank (frame d p kp false u ∷ c) (node l x k true r)
    → insert_loop (suc fuel) s x ≡ some s
unfolding insert_loop
insert_loop_black fuel s rank c d p kp u l r x k i =
    let ep = Moves.parent_at s rank c d on_left l u r p kp false x k true i in
    let black : (s.at (s.at x).parent).red ≡ false = ap (λ y. (s.at y).red) ep ∙ i.above.3 in
    rw (Moves.root_test s rank (frame d p kp false u) c on_left l r x k true i, black)

side_of : (d : Side) → (if Moves.is_left d then on_left else on_right) ≡ d
side_of on_left = refl
side_of on_right = refl

insert_loop_red :
    (fuel : ℕ) (s : Rbtree) (rank : ℕ → ℕ) (c : List Frame) (d d2 : Side) (p kp : ℕ) (u : Shape)
    (g kg : ℕ) (w l r : Shape) (x k : ℕ)
    → IsAt s rank (frame d p kp true u ∷ frame d2 g kg false w ∷ c) (node l x k true r)
    → insert_loop (suc fuel) s x ≡ insert_loop fuel (fix_red d2 s x).0 (fix_red d2 s x).1
unfolding insert_loop
insert_loop_red fuel s rank c d d2 p kp u g kg w l r x k i =
    let f = frame d2 g kg false w in
    let ep = Moves.parent_at s rank (f ∷ c) d on_left l u r p kp true x k true i in
    let j = up s rank (f ∷ c) d (node l x k true r) u p kp true i in
    let eg = Moves.parent_at s rank c d2 d (node l x k true r) w u g kg false p kp true j in
    let red : (s.at (s.at x).parent).red ≡ true = ap (λ y. (s.at y).red) ep ∙ i.above.3 in
    let side : (if (s.at x).parent == (s.at (s.at (s.at x).parent).parent).left
          then on_left
          else on_right)
        ≡ d2 =
      ap (λ y. if y == (s.at (s.at y).parent).left then on_left else on_right) ep
      ∙ ap (λ y. if p == (s.at y).left then on_left else on_right) eg
      ∙ ap (λ y. if y then on_left else on_right)
          (Moves.side_test s rank c d2 d (node l x k true r) u w g kg false p kp true j)
      ∙ side_of d2 in
    rw (Moves.root_test s rank (frame d p kp true u) (f ∷ c) on_left l r x k true i, red)
      (ap (λ y. insert_loop fuel (fix_red y s x).0 (fix_red y s x).1) side)

-- The uncle that the code reads.
module _ (s : Rbtree) (rank : ℕ → ℕ) (ended : Moves.IsEnded s) (c : List Frame) (d d2 : Side)
    (p kp : ℕ) (u : Shape) (g kg : ℕ) (w l r : Shape) (x k : ℕ)
    (i : IsAt s rank (frame d p kp true u ∷ frame d2 g kg false w ∷ c) (node l x k true r)) where
  uncle_place :
      IsAt s rank (frame (opposite d2) g kg false (join d (node l x k true r) p kp true u) ∷ c) w
  uncle_place =
      let t = join d (node l x k true r) p kp true u in
      let f = frame d2 g kg false w in
      down s rank c (opposite d2) w t g kg false (
        Moves.flip d2 s rank c t w g kg false
          (up s rank c d2 t w g kg false (up s rank (f ∷ c) d (node l x k true r) u p kp true i)))

  grand_at : (s.at (s.at x).parent).parent ≡ g
  grand_at =
      let f = frame d2 g kg false w in
      let ep = Moves.parent_at s rank (f ∷ c) d on_left l u r p kp true x k true i in
      let j = up s rank (f ∷ c) d (node l x k true r) u p kp true i in
      ap (λ y. (s.at y).parent) ep
      ∙ Moves.parent_at s rank c d2 d (node l x k true r) w u g kg false p kp true j

  fix_red_runs : fix_red d2 s x ≡ (
      if is_red w
      then recolour s x (child (opposite d2) (s.at g))
      else (turn_out d2 (turn_in d2 s x).0 (turn_in d2 s x).1, (turn_in d2 s x).1))
  unfolding fix_red
  fix_red_runs =
      let t = join d (node l x k true r) p kp true u in
      let both = λ (y : ℕ) (b : Bool).
        if b
        then recolour s x (child (opposite d2) (s.at y))
        else (turn_out d2 (turn_in d2 s x).0 (turn_in d2 s x).1, (turn_in d2 s x).1) in
      ap (λ y. both y (s.at (child (opposite d2) (s.at y))).red) grand_at
      ∙ ap (both g) (Moves.red_below s rank c (opposite d2) w t g kg false ended uncle_place)

abbrev pub Ends : ℕ → Rbtree → (rank : ℕ → ℕ) → ℕ → List (ℕ × ℕ) → Type 0
Ends fuel s rank x xs = (s' : Rbtree) × (insert_loop fuel s x ≡ some s') × Fixed s' rank xs

Ends-black_uncle :
    (fuel : ℕ) (s : Rbtree) (rank : ℕ → ℕ) (c : List Frame) (d d2 : Side) (p kp : ℕ) (u : Shape)
    (g kg : ℕ) (w l r : Shape) (x k h : ℕ)
    → Moves.IsEnded s
    → IsAt s rank (frame d p kp true u ∷ frame d2 g kg false w ∷ c) (node l x k true r)
    → AreBlack h l r
    → IsBalancedAround h (frame d p kp true u ∷ frame d2 g kg false w ∷ c)
    → is_red w ≡ false
    → Ends
        (suc (suc fuel))
        s
        rank
        x
        (inorder (plug (frame d p kp true u ∷ frame d2 g kg false w ∷ c) (node l x k true r)))
Ends-black_uncle fuel s rank c d d2 p kp u g kg w l r x k h e i b a bw =
    let f = frame d2 g kg false w in
    let t = turn_in_lem s rank e (f ∷ c) l r x k p kp u h b (a.0, a.1) d d2 i in
    let out =
      turn_out_lem t.tree rank t.ended c t.left t.right t.now t.key d2 g kg t.parent t.parent_key
        t.sibling w t.place in
    let lower = node t.left t.now t.key true t.right in
    let outer = join d2 t.sibling g kg true w in
    let whole = join d2 lower t.parent t.parent_key false outer in
    let s' = turn_out d2 t.tree t.now in
    let runs : fix_red d2 s x ≡ (s', t.now) =
      fix_red_runs s rank e c d d2 p kp u g kg w l r x k i
      ∙ ap
          (λ y.
            if y
            then recolour s x (child (opposite d2) (s.at g))
            else (turn_out d2 (turn_in d2 s x).0 (turn_in d2 s x).1, (turn_in d2 s x).1))
          bw
      ∙ ap (λ (y : Rbtree × ℕ). (turn_out d2 y.0 y.1, y.1)) t.runs in
    let last =
      insert_loop_black fuel s' rank c d2 t.parent t.parent_key outer t.left t.right t.now t.key
        (down s' rank c d2 lower outer t.parent t.parent_key false out.0) in
    let order : inorder (plug c whole)
        ≡ inorder (plug c (join d2 (join d (node l x k true r) p kp true u) g kg false w)) =
      inorder-plug c whole (join d2 (join d (node l x k true r) p kp true u) g kg false w) (
        inorder-turned_out d2 lower t.sibling w t.parent t.parent_key true false g kg false true
        ∙ inorder-join d2 (join d2 lower t.parent t.parent_key true t.sibling)
            (join d (node l x k true r) p kp true u) w g kg false false t.same) in
    (
      s',
      insert_loop_red (suc fuel) s rank c d d2 p kp u g kg w l r x k i
          ∙ ap (λ (y : Rbtree × ℕ). insert_loop (suc fuel) y.0 y.1) runs
          ∙ last,
      subst (Fixed s' rank) order (
          Fixed-of_place s' rank c whole (suc h) out.1 out.0
            (inl (is_red-join d2 lower outer t.parent t.parent_key false))
            (join-IsBalanced_black d2 h lower outer t.parent t.parent_key t.below
              (join-IsBalanced_red d2 h t.sibling w g kg t.beside.0 bw t.beside.1 a.3.0))
            a.3.1),
    )

-- What holds of a place whichever side its subtrees stand on.
Ends-join :
    (d : Side) (fuel : ℕ) (s : Rbtree) (rank : ℕ → ℕ) (c : List Frame) (t u : Shape) (g kg h : ℕ)
    → ((l r : Shape)
        → IsAt s rank c (node l g kg true r)
        → AreBlack h l r
        → Ends fuel s rank g (inorder (plug c (node l g kg true r))))
    → IsAt s rank c (join d t g kg true u)
    → AreBlack h t u
    → Ends fuel s rank g (inorder (plug c (join d t g kg true u)))
Ends-join on_left fuel s rank c t u g kg h f i b = f t u i b
Ends-join on_right fuel s rank c t u g kg h f i b = f u t i (b.1, b.0, b.3, b.2)

-- With fuel for each node above, the loop ends.
pub insert_loop_lem :
    (fuel : ℕ) (s : Rbtree) (rank : ℕ → ℕ) (c : List Frame) (l r : Shape) (x k h : ℕ)
    → Moves.IsEnded s
    → IsAt s rank c (node l x k true r)
    → AreBlack h l r
    → IsBalancedAround h c
    → length c < fuel
    → Ends fuel s rank x (inorder (plug c (node l x k true r)))
insert_loop_lem zero s rank c l r x k h e i b a n = absurd (omega arith)
insert_loop_lem (suc fuel) s rank [] l r x k h e i b a n = (
  s,
  insert_loop_root fuel s x (i.above ∙ i.sub.0),
  record {
    shape = node l x k true r;
    place = i;
    order = refl;
    height = h;
    balanced = b;
    ended = e;
  },
)
insert_loop_lem (suc fuel) s rank (frame d p kp false u ∷ c) l r x k h e i b a n = (
  s,
  insert_loop_black fuel s rank c d p kp u l r x k i,
  Fixed-of_place s rank (frame d p kp false u ∷ c) (node l x k true r) h e i (inr refl) b a,
)
insert_loop_lem (suc fuel) s rank (frame d p kp true u ∷ []) l r x k h e i b a n = absurd a.2
insert_loop_lem (suc fuel) s rank (frame d p kp true u ∷ frame d2 g kg true w ∷ c) l r x k h e i b a
      n =
    cc a.2
insert_loop_lem (suc zero) s rank (frame d p kp true u ∷ frame d2 g kg false w ∷ c) l r x k h e i b
      a n =
    absurd (omega arith)
insert_loop_lem (suc (suc fuel)) s rank (frame d p kp true u ∷ frame d2 g kg false leaf ∷ c) l r x k
      h e i b a n =
    Ends-black_uncle fuel s rank c d d2 p kp u g kg leaf l r x k h e i b a refl
insert_loop_lem (suc (suc fuel)) s rank
      (frame d p kp true u ∷ frame d2 g kg false (node ul q kq false ur) ∷ c) l r x k h e i b a n =
    Ends-black_uncle fuel s rank c d d2 p kp u g kg (node ul q kq false ur) l r x k h e i b a refl
insert_loop_lem (suc (suc fuel)) s rank
      (frame d p kp true u ∷ frame d2 g kg false (node ul q kq true ur) ∷ c) l r x k h e i b a n =
    let t = join d (node l x k true r) p kp false u in
    let w = node ul q kq true ur in
    let (s', runs, place, ended) = recolour_lem s rank e c l r x k d2 g kg d p kp u ul ur q kq i in
    let w' = node ul q kq false ur in
    let (s2, runs2, fixed) =
      Ends-join d2 (suc fuel) s' rank c t w' g kg (suc h)
        (λ l' r' i' b'.
          insert_loop_lem (suc fuel) s' rank c l' r' g kg (suc h) ended i' b' a.3.1 (omega arith))
        place
        (
          is_red-join d (node l x k true r) u p kp false,
          refl,
          join-IsBalanced_black d h (node l x k true r) u p kp b a.1,
          (h, refl, a.3.0.2, a.3.0.3),
        ) in
    let temp : child (opposite d2) (s.at g) ≡ q =
      Moves.child_at s rank c (opposite d2) on_left ul (join d (node l x k true r) p kp true u) ur g
        kg false q kq true (uncle_place s rank e c d d2 p kp u g kg w l r x k i) in
    let step : fix_red d2 s x ≡ (s', g) =
      fix_red_runs s rank e c d d2 p kp u g kg w l r x k i ∙ ap (recolour s x) temp ∙ runs in
    (
      s2,
      insert_loop_red (suc fuel) s rank c d d2 p kp u g kg w l r x k i
          ∙ ap (λ (y : Rbtree × ℕ). insert_loop (suc fuel) y.0 y.1) step
          ∙ runs2,
      subst (Fixed s2 rank)
          (inorder-plug c (join d2 t g kg true w')
            (join d2 (join d (node l x k true r) p kp true u) g kg false w)
            (inorder-join d2 t (join d (node l x k true r) p kp true u) w' g kg true true
                (inorder-join d (node l x k true r) (node l x k true r) u p kp false true refl)
              ∙ inorder-join_other d2 (join d (node l x k true r) p kp true u) w' w g kg true false
                  refl))
          fixed,
    )
