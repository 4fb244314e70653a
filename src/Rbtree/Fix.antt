-- ===== src/Rbtree/Fix.antt =====
-- The round that hcore_rbtree_insert makes where the parent is red.
use mathlib.Core.Path.{subst}
use mathlib.Core.Bool.{not}
use hcore.Base.{ℕ, ◌≡◌, refl, ap, sym, ◌∙◌, true, false, List, ◌∷◌, ◌==◌, if◌then◌else◌}
use hcore.Rbtree.{
  Rbtree, Side, on_left, on_right, opposite, child, set_red, rotate, recolour, turn_in, turn_out,
}
use hcore.Rbtree.Shape.{Shape, node, Frame, frame, join}
use hcore.Rbtree.Place.{IsAt, up, down}
use hcore.Rbtree.Recolour.{set_red-IsAt}
use hcore.Rbtree.Rotate.{rotate-IsAt}
use hcore.Rbtree.Balance.{is_red, inorder, inorder-rotated, IsBalanced}
use hcore.Rbtree.Moves

module _ (s : Rbtree) (rank : ℕ → ℕ) (b : Moves.IsEnded s) (c : List Frame) (l r : Shape) (x k : ℕ)
    (d2 : Side) (g kg : ℕ) where
  -- A red uncle: parent and uncle become black, the grandparent red.
  pub recolour_lem :
      (d : Side) (p kp : ℕ) (u : Shape) (ul ur : Shape) (q kq : ℕ)
      → IsAt s rank
          (frame d p kp true u ∷ frame d2 g kg false (node ul q kq true ur) ∷ c)
          (node l x k true r)
      → (s' : Rbtree) × (recolour s x q ≡ (s', g))
        × IsAt s' rank c
            (join d2 (join d (node l x k true r) p kp false u) g kg true (node ul q kq false ur))
        × Moves.IsEnded s'
  unfolding recolour
  recolour_lem d p kp u ul ur q kq i =
      let t = join d (node l x k true r) p kp false u in
      let sa = set_red s p false in
      let sb = set_red sa q false in
      let sc = set_red sb g true in
      let f = frame d2 g kg false (node ul q kq true ur) in
      let j = up s rank (f ∷ c) d (node l x k true r) u p kp true i in
      let ia = Moves.set_red-join d s rank (f ∷ c) (node l x k true r) u p kp true false j in
      let ia' =
        Moves.flip d2 sa rank c t (node ul q kq true ur) g kg false
          (up sa rank c d2 t (node ul q kq true ur) g kg false ia) in
      let iq = down sa rank c (opposite d2) (node ul q kq true ur) t g kg false ia' in
      let ib' =
        set_red-IsAt sa rank (frame (opposite d2) g kg false t ∷ c) ul ur q kq true false iq in
      let ib =
        Moves.flip_back d2 sb rank c t (node ul q kq false ur) g kg false
          (up sb rank c (opposite d2) (node ul q kq false ur) t g kg false ib') in
      let f' = frame d2 g kg false (node ul q kq false ur) in
      let it = down sb rank c d2 t (node ul q kq false ur) g kg false ib in
      let ix = down sb rank (f' ∷ c) d (node l x k true r) u p kp false it in
      let ep : (s.at x).parent ≡ p =
        Moves.parent_at s rank (f ∷ c) d on_left l u r p kp true x k true i in
      let ep' : (sb.at x).parent ≡ p =
        Moves.parent_at sb rank (f' ∷ c) d on_left l u r p kp false x k true ix in
      let eg : (sb.at p).parent ≡ g =
        Moves.parent_at sb rank c d2 d (node l x k true r) (node ul q kq false ur) u g kg false p kp
          false it in
      let after = λ (y : ℕ). set_red (set_red s y false) q false in
      let grand = λ (t : Rbtree). (t.at (t.at x).parent).parent in
      let e1 = ap (λ y. (set_red (after y) (grand (after y)) true, grand (after y))) ep in
      let e2 : grand sb ≡ g = ap (λ y. (sb.at y).parent) ep' ∙ eg in
      (
        sc,
        e1 ∙ ap (λ y. (set_red sb y true, y)) e2,
        Moves.set_red-join d2 sb rank c t (node ul q kq false ur) g kg false true ib,
        Moves.set_red-IsEnded sb g true
            (Moves.ne_sentinel sb rank c d2 t (node ul q kq false ur) g kg false ib)
            (Moves.set_red-IsEnded sa q false iq.sub.1 (
              Moves.set_red-IsEnded s p false
                (Moves.ne_sentinel s rank (f ∷ c) d (node l x k true r) u p kp true j) b)),
      )

  -- The parent becomes black, the grandparent red, and the parent goes up.
  pub turn_out_lem :
      (p kp : ℕ) (v u : Shape)
      → IsAt s rank (frame d2 p kp true v ∷ frame d2 g kg false u ∷ c) (node l x k true r)
      → IsAt
          (turn_out d2 s x)
          rank
          c
          (join d2 (node l x k true r) p kp false (join d2 v g kg true u))
        × Moves.IsEnded (turn_out d2 s x)
  unfolding turn_out
  turn_out_lem p kp v u i =
      let t = join d2 (node l x k true r) p kp false v in
      let f = frame d2 g kg false u in
      let f' = frame d2 g kg true u in
      let s1 = set_red s p false in
      let s2 = set_red s1 g true in
      let j = up s rank (f ∷ c) d2 (node l x k true r) v p kp true i in
      let i1 = Moves.set_red-join d2 s rank (f ∷ c) (node l x k true r) v p kp true false j in
      let ix1 = down s1 rank (f ∷ c) d2 (node l x k true r) v p kp false i1 in
      let g1 = up s1 rank c d2 t u g kg false i1 in
      let i2 = Moves.set_red-join d2 s1 rank c t u g kg false true g1 in
      let it2 = down s2 rank c d2 t u g kg true i2 in
      let ix2 = down s2 rank (f' ∷ c) d2 (node l x k true r) v p kp false it2 in
      let ep : (s.at x).parent ≡ p =
        Moves.parent_at s rank (f ∷ c) d2 on_left l v r p kp true x k true i in
      let ep1 : (s1.at x).parent ≡ p =
        Moves.parent_at s1 rank (f ∷ c) d2 on_left l v r p kp false x k true ix1 in
      let eg1 : (s1.at p).parent ≡ g =
        Moves.parent_at s1 rank c d2 d2 (node l x k true r) u v g kg false p kp false i1 in
      let ep2 : (s2.at x).parent ≡ p =
        Moves.parent_at s2 rank (f' ∷ c) d2 on_left l v r p kp false x k true ix2 in
      let eg2 : (s2.at p).parent ≡ g =
        Moves.parent_at s2 rank c d2 d2 (node l x k true r) u v g kg true p kp false it2 in
      let grand = λ (t : Rbtree). (t.at (t.at x).parent).parent in
      let last = λ (t : Rbtree). rotate (opposite d2) t (grand t) in
      let e1 = ap (λ y. last (set_red (set_red s y false) (grand (set_red s y false)) true)) ep in
      let e2 = ap (λ y. last (set_red s1 y true)) (ap (λ y. (s1.at y).parent) ep1 ∙ eg1) in
      let e3 = ap (rotate (opposite d2) s2) (ap (λ y. (s2.at y).parent) ep2 ∙ eg2) in
      let e : rotate (opposite d2) s2 g ≡ turn_out d2 s x = sym (e1 ∙ e2 ∙ e3) in
      let ended : Moves.IsEnded s2 =
        Moves.set_red-IsEnded s1 g true (Moves.ne_sentinel s1 rank c d2 t u g kg false g1) (
          Moves.set_red-IsEnded s p false
            (Moves.ne_sentinel s rank (f ∷ c) d2 (node l x k true r) v p kp true j) b) in
      (
        subst (λ z. IsAt z rank c (join d2 (node l x k true r) p kp false (join d2 v g kg true u)))
            e (Moves.rotate_out d2 s2 rank c (node l x k true r) v u p kp false g kg true i2),
        subst Moves.IsEnded e (Moves.rotate-IsEnded (opposite d2) s2 g ended),
      )

-- Both children black, with `h` black nodes below.
abbrev pub AreBlack : ℕ → Shape → Shape → Type 0
AreBlack h l r = (is_red l ≡ false) × (is_red r ≡ false) × IsBalanced h l × IsBalanced h r

-- The node and its parent after a node on the inner side has gone up: both are on the side `d`.
pub record TurnedIn (d : Side) (s : Rbtree) (rank : ℕ → ℕ) (c : List Frame) (h x : ℕ)
    (order : List (ℕ × ℕ)) : Type 0 where
  pub tree : Rbtree
  pub now : ℕ
  pub key : ℕ
  pub left : Shape
  pub right : Shape
  pub parent : ℕ
  pub parent_key : ℕ
  pub sibling : Shape
  pub runs : turn_in d s x ≡ (tree, now)
  pub place :
      IsAt tree rank (frame d parent parent_key true sibling ∷ c) (node left now key true right)
  pub below : AreBlack h left right
  pub beside : (is_red sibling ≡ false) × IsBalanced h sibling
  pub same : inorder (join d (node left now key true right) parent parent_key true sibling) ≡ order
  pub ended : Moves.IsEnded tree

module _ (s : Rbtree) (rank : ℕ → ℕ) (ended : Moves.IsEnded s) (c : List Frame) (l r : Shape)
    (x k : ℕ) (p kp : ℕ) (u : Shape) (h : ℕ) (below : AreBlack h l r)
    (beside : (is_red u ≡ false) × IsBalanced h u) where
  turn_in_runs :
      (d d' : Side)
      → IsAt s rank (frame d p kp true u ∷ c) (node l x k true r)
      → turn_in d' s x ≡ (if not (Moves.same_side d d') then (rotate d' s p, p) else (s, x))
  unfolding turn_in
  turn_in_runs d d' i =
      let ep : (s.at x).parent ≡ p =
        Moves.parent_at s rank c d on_left l u r p kp true x k true i in
      ap (λ y. if x == child (opposite d') (s.at y) then (rotate d' s y, y) else (s, x)) ep
      ∙ ap (λ y. if y then (rotate d' s p, p) else (s, x))
          (Moves.inner_test s rank c d d' l r u p kp true x k true i)

  pub turn_in_lem :
      (d d' : Side)
      → IsAt s rank (frame d p kp true u ∷ c) (node l x k true r)
      → TurnedIn d' s rank c h x (inorder (join d (node l x k true r) p kp true u))
  turn_in_lem on_left on_left i = record {
    tree = s;
    now = x;
    key = k;
    left = l;
    right = r;
    parent = p;
    parent_key = kp;
    sibling = u;
    runs = turn_in_runs on_left on_left i;
    place = i;
    below = below;
    beside = beside;
    same = refl;
    ended = ended;
  }
  turn_in_lem on_right on_right i = record {
    tree = s;
    now = x;
    key = k;
    left = l;
    right = r;
    parent = p;
    parent_key = kp;
    sibling = u;
    runs = turn_in_runs on_right on_right i;
    place = i;
    below = below;
    beside = beside;
    same = refl;
    ended = ended;
  }
  turn_in_lem on_left on_right i = record {
    tree = rotate on_right s p;
    now = p;
    key = kp;
    left = r;
    right = u;
    parent = x;
    parent_key = k;
    sibling = l;
    runs = turn_in_runs on_left on_right i;
    place = down (rotate on_right s p) rank c on_right (node r p kp true u) l x k true (
        rotate-IsAt on_right s rank c u r l p kp true x k true
          (up s rank c on_left (node l x k true r) u p kp true i));
    below = (below.1, beside.0, below.3, beside.1);
    beside = (below.0, below.2);
    same = inorder-rotated on_right u r l p kp true true x k true true;
    ended = Moves.rotate-IsEnded on_right s p ended;
  }
  turn_in_lem on_right on_left i = record {
    tree = rotate on_left s p;
    now = p;
    key = kp;
    left = u;
    right = l;
    parent = x;
    parent_key = k;
    sibling = r;
    runs = turn_in_runs on_right on_left i;
    place = down (rotate on_left s p) rank c on_left (node u p kp true l) r x k true (
        rotate-IsAt on_left s rank c u l r p kp true x k true
          (up s rank c on_right (node l x k true r) u p kp true i));
    below = (beside.0, below.0, beside.1, below.2);
    beside = (below.1, below.3);
    same = inorder-rotated on_left u l r p kp true true x k true true;
    ended = Moves.rotate-IsEnded on_left s p ended;
  }
