-- ===== src/Rbtree/Order.antt =====
-- The order of the nodes of a red-black tree, around a place and from left to right.
use mathlib.Core.List.{append_assoc, append-nil}
use Prim.Native.Nat.{max}
use hcore.Base.{ℕ, suc, ◌≤◌, ◌<◌, ◌≡◌, ◌∙◌, List, [], ◌∷◌, ◌++◌, All, All-split, arith}
use hcore.Rbtree.{on_left, on_right}
use hcore.Rbtree.Shape.{Shape, leaf, node, Frame, frame, plug}
use hcore.Rbtree.Balance.{inorder}

-- The keys do not fall.
abbrev pub IsSorted : List (ℕ × ℕ) → Type 0
IsSorted [] = Unit {0}
IsSorted (x ∷ xs) = All (λ y. x.1 ≤ y.1) xs × IsSorted xs

abbrev pub AtMost : ℕ → List (ℕ × ℕ) → Type 0
AtMost k xs = All (λ y. y.1 ≤ k) xs

abbrev pub MoreThan : ℕ → List (ℕ × ℕ) → Type 0
MoreThan k xs = All (λ y. k < y.1) xs

-- The nodes to the left and to the right of a place.
abbrev pub before : List Frame → List (ℕ × ℕ)
before [] = []
before (frame on_left q key red u ∷ c) = before c
before (frame on_right q key red u ∷ c) = before c ++ (inorder u ++ (q, key) ∷ [])

abbrev pub after : List Frame → List (ℕ × ℕ)
after [] = []
after (frame on_left q key red u ∷ c) = (q, key) ∷ (inorder u ++ after c)
after (frame on_right q key red u ∷ c) = after c

pub inorder-plug_split :
    (c : List Frame) (t : Shape) → inorder (plug c t) ≡ before c ++ (inorder t ++ after c)
inorder-plug_split [] t = rw append-nil
inorder-plug_split (frame on_left q key red u ∷ c) t =
    inorder-plug_split c (node t q key red u) ∙ simp append_assoc
inorder-plug_split (frame on_right q key red u ∷ c) t =
    inorder-plug_split c (node u q key red t) ∙ simp append_assoc

abbrev pub depth : Shape → ℕ
depth leaf = 0
depth (node l p key red r) = suc (max (depth l) (depth r))

pub IsSorted-split :
    (xs ys : List (ℕ × ℕ)) (k p : ℕ)
    → IsSorted (xs ++ (p, k) ∷ ys)
    → IsSorted xs × IsSorted ys × AtMost k xs × All (λ y. k ≤ y.1) ys
IsSorted-split [] ys k p h = (tt, h.1, tt, h.0)
IsSorted-split (x ∷ xs) ys k p h =
    let r = IsSorted-split xs ys k p h.1 in
    let a = All-split (λ y. x.1 ≤ y.1) xs ((p, k) ∷ ys) h.0 in ((a.0, r.0), r.1, (a.1.0, r.2), r.3)

pub AtMost-le : (k m : ℕ) (xs : List (ℕ × ℕ)) → k ≤ m → AtMost k xs → AtMost m xs
AtMost-le k m [] h a = tt
AtMost-le k m (x ∷ xs) h a = (omega (arith, a.0), AtMost-le k m xs h a.1)

pub MoreThan-lt : (k m : ℕ) (xs : List (ℕ × ℕ)) → m < k → All (λ y. k ≤ y.1) xs → MoreThan m xs
MoreThan-lt k m [] h a = tt
MoreThan-lt k m (x ∷ xs) h a = (omega (arith, a.0), MoreThan-lt k m xs h a.1)
