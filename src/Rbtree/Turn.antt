-- ===== src/Rbtree/Turn.antt =====
-- What a rotation writes.
use hcore.Base.{ℕ, ◌≡◌, ◌≢◌, refl, ◌∙◌, ◌⊎◌, Bool, true, false, arith, ◌==◌, if◌then◌else◌}
use hcore.Rbtree.{
  Node, Rbtree, Side, on_left, on_right, opposite, child, with_child, put, set_child, set_parent,
  rotate, relink,
}

-- The parent's link.
abbrev pub linked : Side → Node → (node temp : ℕ) → Node
linked d p node temp =
    if node == child d p then with_child d p temp else with_child (opposite d) p temp

-- Every node after a rotation: the one that went down, the one that went up, the one between, the
-- parent and the others.
module _ (s : Rbtree) (n y m p : ℕ) (ny : n ≢ y) (nm : n ≢ m) (ym : y ≢ m) where
  pub rotate_root :
      (d : Side)
      → child (opposite d) (s.at n) ≡ y
      → (rotate d s n).root ≡ (if n == s.root then y else s.root)
  unfolding rotate
  rotate_root on_left e = ground (arith, e)
  rotate_root on_right e = ground (arith, e)

  pub rotate-at_down :
      (d : Side)
      → child (opposite d) (s.at n) ≡ y
      → child d (s.at y) ≡ m
      → (s.at n).parent ≡ p
      → (n ≡ s.root) ⊎ (n ≢ p)
      → (rotate d s n).at n ≡ with_child (opposite d) (record (s.at n) { parent = y }) m
  unfolding rotate
  rotate-at_down on_left e f g h = ground arith
  rotate-at_down on_right e f g h = ground arith

  pub rotate-at_up :
      (d : Side)
      → child (opposite d) (s.at n) ≡ y
      → child d (s.at y) ≡ m
      → (s.at n).parent ≡ p
      → (n ≡ s.root) ⊎ (y ≢ p)
      → (rotate d s n).at y ≡ with_child d (record (s.at y) { parent = p }) n
  unfolding rotate
  rotate-at_up on_left e f g h = ground arith
  rotate-at_up on_right e f g h = ground arith

  pub rotate-at_mid :
      (d : Side)
      → child (opposite d) (s.at n) ≡ y
      → child d (s.at y) ≡ m
      → (s.at n).parent ≡ p
      → (n ≡ s.root) ⊎ (m ≢ p)
      → m ≢ s.sentinel
      → (rotate d s n).at m ≡ record (s.at m) { parent = n }
  unfolding rotate
  rotate-at_mid on_left e f g h k = ground arith
  rotate-at_mid on_right e f g h k = ground arith

  pub rotate-at_parent :
      (d : Side)
      → child (opposite d) (s.at n) ≡ y
      → child d (s.at y) ≡ m
      → (s.at n).parent ≡ p
      → n ≢ s.root
      → n ≢ p
      → y ≢ p
      → m ≢ p
      → (rotate d s n).at p ≡ linked d (s.at p) n y
  unfolding rotate
  rotate-at_parent on_left e f g h k l o = ground arith
  rotate-at_parent on_right e f g h k l o = ground arith

  pub rotate-at_other :
      (d : Side) (a : ℕ)
      → child (opposite d) (s.at n) ≡ y
      → child d (s.at y) ≡ m
      → (s.at n).parent ≡ p
      → a ≢ n
      → a ≢ y
      → (m ≡ s.sentinel) ⊎ (a ≢ m)
      → (n ≡ s.root) ⊎ (a ≢ p)
      → (rotate d s n).at a ≡ s.at a
  unfolding rotate
  rotate-at_other on_left a e f g h k l o = ground arith
  rotate-at_other on_right a e f g h k l o = ground arith

pub rotate_sentinel : (d : Side) (s : Rbtree) (n : ℕ) → (rotate d s n).sentinel ≡ s.sentinel
unfolding rotate
rotate_sentinel on_left s n = ground arith
rotate_sentinel on_right s n = ground arith

-- No write of a rotation changes a colour.
put_red :
    (s : Rbtree) (p : ℕ) (n : Node) (a : ℕ)
    → n.red ≡ (s.at p).red
    → ((put s p n).at a).red ≡ (s.at a).red
put_red s p n a e = ground arith

with_child_red : (d : Side) (n : Node) (c : ℕ) → (with_child d n c).red ≡ n.red
with_child_red on_left n c = refl
with_child_red on_right n c = refl

set_child_red : (d : Side) (s : Rbtree) (p c a : ℕ) → ((set_child d s p c).at a).red ≡ (s.at a).red
set_child_red d s p c a = put_red s p (with_child d (s.at p) c) a (with_child_red d (s.at p) c)

relink_red : (d : Side) (s : Rbtree) (n y a : ℕ) → ((relink d s n y).at a).red ≡ (s.at a).red
unfolding relink
relink_red d s n y a =
    ground (
      arith,
      set_child_red d s (s.at n).parent y a,
      set_child_red (opposite d) s (s.at n).parent y a,
    )

between_red :
    (b : Bool) (s : Rbtree) (m n a : ℕ)
    → ((if b then s else set_parent s m n).at a).red ≡ (s.at a).red
between_red true s m n a = refl
between_red false s m n a = put_red s m (record (s.at m) { parent = n }) a refl

-- A rotation keeps the colours.
pub rotate_red : (d : Side) (s : Rbtree) (n a : ℕ) → ((rotate d s n).at a).red ≡ (s.at a).red
unfolding rotate
rotate_red d s n a =
    let temp = child (opposite d) (s.at n) in
    let s1 = set_child (opposite d) s n (child d (s.at temp)) in
    let mid = child d (s1.at temp) in
    let s2 = if mid == s1.sentinel then s1 else set_parent s1 mid n in
    let s3 = set_parent s2 temp (s2.at n).parent in
    let s4 = relink d s3 n temp in
    let s5 = set_child d s4 temp n in
    put_red s5 n (record (s5.at n) { parent = temp }) a refl
    ∙ set_child_red d s4 temp n a
    ∙ relink_red d s3 n temp a
    ∙ put_red s2 temp (record (s2.at temp) { parent = (s2.at n).parent }) a refl
    ∙ between_red (mid == s1.sentinel) s1 mid n a
    ∙ set_child_red (opposite d) s n (child d (s.at temp)) a
