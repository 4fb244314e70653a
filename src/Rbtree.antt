-- ===== src/Rbtree.antt =====
-- src/hcore_rbtree.c and include/hcore_rbtree.h: red-black trees whose nodes stand in memory.
-- The address of a node is a number, NULL is 0, and the memory is the function from addresses to
-- nodes. The code writes each mirrored pair of branches out, with left and right exchanged; here they
-- are one function of the side.
pub mod Shape
pub mod Place
pub mod Recolour
pub mod Turn
pub mod Apart
pub mod Rotate
pub mod Balance
pub mod Moves
pub mod Fix
pub mod Loop
pub mod Attach
pub mod Order
pub mod Descend
pub mod Whole
pub mod Insert
pub mod Next
mod Tests
use hcore.Base.{
  ℕ, zero, suc, ◌+◌, ◌%◌, ◌^◌, ◌-◌, Bool, true, false, Option, none, some, ◌==◌, ltb, leb,
  if◌then◌else◌,
}

-- hcore_rbtree_node_t without `data`; `red` is what hcore_rbt_is_red reads.
pub record Node : Type 0 where
  pub key : ℕ
  pub left : ℕ
  pub right : ℕ
  pub parent : ℕ
  pub red : Bool

-- hcore_rbtree_t and the memory of its nodes; `insert` is an argument of hcore_rbtree_insert.
pub record Rbtree : Type 0 where
  pub root : ℕ
  pub sentinel : ℕ
  pub at : ℕ → Node

pub data Side : Type 0 where
  on_left on_right : Side

abbrev pub opposite : Side → Side
opposite on_left = on_right
opposite on_right = on_left

-- The link of a node on a side.
abbrev pub child : Side → Node → ℕ
child on_left n = n.left
child on_right n = n.right

abbrev pub put : Rbtree → ℕ → Node → Rbtree
put s p n = record s { at = λ a. if a == p then n else s.at a }

abbrev pub with_child : Side → Node → ℕ → Node
with_child on_left n c = record n { left = c }
with_child on_right n c = record n { right = c }

abbrev pub set_child : Side → Rbtree → ℕ → ℕ → Rbtree
set_child d s p c = put s p (with_child d (s.at p) c)

abbrev pub set_parent : Rbtree → ℕ → ℕ → Rbtree
set_parent s p q = put s p (record (s.at p) { parent = q })

-- hcore_rbt_red and hcore_rbt_black
abbrev pub set_red : Rbtree → ℕ → Bool → Rbtree
set_red s p b = put s p (record (s.at p) { red = b })

-- hcore_rbtree_init
unfoldable pub init : Rbtree → ℕ → Rbtree
init s sentinel = record (set_red s sentinel false) { root = sentinel; sentinel = sentinel }

-- The link to `node` from above: the root, or the parent's link.
unfoldable pub relink : Side → Rbtree → (node temp : ℕ) → Rbtree
relink d s node temp =
    let parent = (s.at node).parent in
    if node == s.root
    then record s { root = temp }
    else if node == child d (s.at parent)
    then set_child d s parent temp
    else set_child (opposite d) s parent temp

-- hcore_rbtree_left_rotate on the left, hcore_rbtree_right_rotate on the right
unfoldable pub rotate : Side → Rbtree → ℕ → Rbtree
unfolding relink
rotate d s node =
    let temp = child (opposite d) (s.at node) in
    let s1 = set_child (opposite d) s node (child d (s.at temp)) in
    let mid = child d (s1.at temp) in
    let s2 = if mid == s1.sentinel then s1 else set_parent s1 mid node in
    let s3 = set_parent s2 temp (s2.at node).parent in
    let s4 = relink d s3 node temp in set_parent (set_child d s4 temp node) node temp

-- Where the parent's sibling `temp` is red: the tree, and the next node.
unfoldable pub recolour : Rbtree → (node temp : ℕ) → Rbtree × ℕ
recolour s node temp =
    let s1 = set_red (set_red s (s.at node).parent false) temp false in
    let grand = (s1.at (s1.at node).parent).parent in (set_red s1 grand true, grand)

-- A node on the inner side goes up, and its parent is the next node.
unfoldable pub turn_in : Side → Rbtree → ℕ → Rbtree × ℕ
turn_in d s node =
    let parent = (s.at node).parent in
    if node == child (opposite d) (s.at parent) then (rotate d s parent, parent) else (s, node)

-- The parent becomes black, the grandparent red, and the parent goes up.
unfoldable pub turn_out : Side → Rbtree → ℕ → Rbtree
turn_out d s node =
    let s1 = set_red s (s.at node).parent false in
    let s2 = set_red s1 (s1.at (s1.at node).parent).parent true in
    rotate (opposite d) s2 (s2.at (s2.at node).parent).parent

-- The round of hcore_rbtree_insert for a red parent on the side `d` of its parent: the tree, and the
-- next node.
unfoldable pub fix_red : Side → Rbtree → ℕ → Rbtree × ℕ
fix_red d s node =
    let temp = child (opposite d) (s.at (s.at (s.at node).parent).parent) in
    let (s1, x) = turn_in d s node in
    if (s.at temp).red then recolour s node temp else (turn_out d s1 x, x)

-- The loop of hcore_rbtree_insert.
unfoldable pub insert_loop : ℕ → Rbtree → ℕ → Option Rbtree
insert_loop zero s node = none
insert_loop (suc fuel) s node =
    let parent = (s.at node).parent in
    let d = if parent == (s.at (s.at parent).parent).left then on_left else on_right in
    let next = fix_red d s node in
    let rest = insert_loop fuel next.0 next.1 in
    if node == s.root then some s else if (s.at parent).red then rest else some s

-- hcore_rbtree_insert; `call` is the tree's `insert`
unfoldable pub rbtree_insert :
    (call : Rbtree → (root node : ℕ) → Option Rbtree) → ℕ → Rbtree → ℕ → Option Rbtree
rbtree_insert call fuel s node =
    if s.root == s.sentinel
    then some
        (record (put s node
          (record (s.at node) { parent = 0; left = s.sentinel; right = s.sentinel; red = false })) {
            root = node;
          })
    else elim (call s s.root node) [
      | none ↦ none
      | some s1 ↦ elim (insert_loop fuel s1 node) [
        | none ↦ none
        | some s2 ↦ some (set_red s2 s2.root false)
      ]
    ]

-- What the two insert functions do when they have found the free link.
abbrev pub attach : Side → Rbtree → (temp node : ℕ) → Rbtree
attach d s temp node =
    let s1 = set_child d s temp node in
    put s1 node
      (record (s1.at node) { parent = temp; left = s1.sentinel; right = s1.sentinel; red = true })

-- The loop of the two insert functions, down to the left where `less` says so of the keys.
unfoldable pub descend : (less : ℕ → ℕ → Bool) → ℕ → Rbtree → (temp node : ℕ) → Option Rbtree
descend less zero s temp node = none
descend less (suc fuel) s temp node =
    let d = if less (s.at node).key (s.at temp).key then on_left else on_right in
    let p = child d (s.at temp) in
    let rest = descend less fuel s p node in
    if p == s.sentinel then some (attach d s temp node) else rest

-- hcore_rbtree_insert_value
unfoldable pub insert_value : ℕ → Rbtree → (temp node : ℕ) → Option Rbtree
insert_value = descend ltb

-- (hcore_rbtree_key_int_t)(a - b) < 0, on 32 bits
unfoldable pub timer_less : ℕ → ℕ → Bool
timer_less a b = leb (2 ^ 31) ((a + 2 ^ 32 - b) % 2 ^ 32)

-- hcore_rbtree_insert_timer_value
unfoldable pub insert_timer_value : ℕ → Rbtree → (temp node : ℕ) → Option Rbtree
insert_timer_value = descend timer_less

-- hcore_rbtree_min
unfoldable pub rbtree_min : ℕ → Rbtree → ℕ → Option ℕ
rbtree_min zero s node = none
rbtree_min (suc fuel) s node =
    let rest = rbtree_min fuel s (s.at node).left in
    if (s.at node).left == s.sentinel then some node else rest

-- The loop of hcore_rbtree_next; 0 is NULL.
unfoldable pub climb : ℕ → Rbtree → ℕ → Option ℕ
climb zero s node = none
climb (suc fuel) s node =
    let parent = (s.at node).parent in
    let rest = climb fuel s parent in
    if node == s.root then some 0 else if node == (s.at parent).left then some parent else rest

-- hcore_rbtree_next
unfoldable pub rbtree_next : ℕ → Rbtree → ℕ → Option ℕ
unfolding rbtree_min climb
rbtree_next fuel s node =
    if (s.at node).right == s.sentinel
    then climb fuel s node
    else rbtree_min fuel s (s.at node).right
