-- ===== src/Rbtree/Tests.antt =====
-- The trees' claims at concrete trees.
use hcore.Base.{
  ℕ, ◌≡◌, refl, true, false, Option, none, some, List, [], ◌∷◌, ◌++◌, arith, ◌==◌, if◌then◌else◌,
}
use hcore.Rbtree.{
  rbtree_min, Rbtree, init, rbtree_insert, insert_value, insert_loop, fix_red, descend, rotate,
  recolour, turn_in, turn_out,
}
use hcore.Rbtree.Shape.{leaf, node}
use hcore.Rbtree.Whole.{IsRbtree}
use hcore.Rbtree.Insert.{rbtree_insert-IsRbtree}
use hcore.Rbtree.Order.{AtMost, MoreThan}
use hcore.Rbtree.Next.{Follows, rbtree_next-Follows, rbtree_min-first}

-- The address of a node is its key, the sentinel is at 99.
abbrev memory : Rbtree
memory = record {
  root = 7;
  sentinel = 7;
  at = λ a. record { key = a; left = 0; right = 0; parent = 0; red = true };
}

abbrev insert_all : Rbtree → List ℕ → Option Rbtree
insert_all s [] = some s
insert_all s (x ∷ xs) = elim (rbtree_insert (insert_value 9) 9 s x) [
  | none ↦ none
  | some s' ↦ insert_all s' xs
]

root_of : Option Rbtree → ℕ
root_of none = 0
root_of (some s) = s.root

-- Increasing keys, which turn the tree.
insert_increasing : root_of (insert_all (init memory 99) (1 ∷ 2 ∷ 3 ∷ 4 ∷ 5 ∷ 6 ∷ 7 ∷ 8 ∷ [])) ≡ 4
unfolding init rbtree_insert insert_value insert_loop fix_red descend rotate recolour turn_in
    turn_out root_of
insert_increasing = refl

-- Three nodes.
abbrev three : Rbtree
three = record {
  root = 5;
  sentinel = 99;
  at = λ a.
      if a == 5
      then record { key = 20; left = 6; right = 7; parent = 0; red = false }
      else if a == 6
      then record { key = 10; left = 99; right = 99; parent = 5; red = true }
      else if a == 7
      then record { key = 30; left = 99; right = 99; parent = 5; red = true }
      else record { key = 25; left = 0; right = 0; parent = 0; red = false };
}

three-IsRbtree : IsRbtree three ((6, 10) ∷ (5, 20) ∷ (7, 30) ∷ [])
three-IsRbtree = record {
  rank = λ a. if a == 6 then 0 else if a == 5 then 1 else 2;
  shape = node (node leaf 6 10 true leaf) 5 20 false (node leaf 7 30 true leaf);
  place = record {
    up = 0;
    p = 5;
    lo = 0;
    hi = 3;
    sub = (
      refl,
      ground arith,
      refl,
      refl,
      refl,
      (refl, ground arith, refl, refl, refl, refl, refl),
      (refl, ground arith, refl, refl, refl, refl, refl),
    );
    above = refl;
    within = ground arith;
    around = tt;
  };
  order = refl;
  height = 1;
  balanced = (0, refl, (refl, refl, refl, refl), (refl, refl, refl, refl));
  black = refl;
  sorted = ground arith;
  ended = refl;
}

rbtree_insert-IsRbtree_example :
    (s' : Rbtree) × (rbtree_insert (insert_value 4) 4 three 8 ≡ some s')
    × ((ys zs : List (ℕ × ℕ)) × (ys ++ zs ≡ (6, 10) ∷ (5, 20) ∷ (7, 30) ∷ [])
        × AtMost 25 ys
        × MoreThan 25 zs
        × IsRbtree s' (ys ++ (8, 25) ∷ zs))
rbtree_insert-IsRbtree_example =
    rbtree_insert-IsRbtree 4 three 8 ((6, 10) ∷ (5, 20) ∷ (7, 30) ∷ []) three-IsRbtree
      (ground arith) (ground arith) (omega arith)

rbtree_next-Follows_example : Follows 3 three ((6, 10) ∷ (5, 20) ∷ (7, 30) ∷ []) []
rbtree_next-Follows_example =
    rbtree_next-Follows 3 three ((6, 10) ∷ (5, 20) ∷ (7, 30) ∷ []) three-IsRbtree (omega arith)

-- Four rounds are enough for up to six nodes.
rbtree_min-first_example : rbtree_min 4 three three.root ≡ some 6
rbtree_min-first_example =
    rbtree_min-first 4 2 three (6, 10) ((5, 20) ∷ (7, 30) ∷ []) three-IsRbtree (omega arith)
      (omega arith)
