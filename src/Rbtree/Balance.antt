-- ===== src/Rbtree/Balance.antt =====
-- The balance of red-black trees, and the order in which a tree holds its nodes.
use mathlib.Core.List.{append_assoc}
use hcore.Base.{ℕ, suc, ◌≡◌, refl, ◌⊎◌, inl, inr, Bool, true, false, List, [], ◌∷◌, ◌++◌}
use hcore.Rbtree.{Side, on_left, on_right, opposite}
use hcore.Rbtree.Shape.{Shape, leaf, node, Frame, frame, join, plug}

-- The addresses from left to right, with the keys.
abbrev pub inorder : Shape → List (ℕ × ℕ)
inorder leaf = []
inorder (node l p key red r) = inorder l ++ (p, key) ∷ inorder r

abbrev pub is_red : Shape → Bool
is_red leaf = false
is_red (node l p key red r) = red

-- No red node has a red child, and every way down meets `h` black nodes.
abbrev pub IsBalanced : ℕ → Shape → Type 0
IsBalanced h leaf = h ≡ 0
IsBalanced h (node l p key true r) =
    (is_red l ≡ false) × (is_red r ≡ false) × IsBalanced h l × IsBalanced h r
IsBalanced h (node l p key false r) = (k : ℕ) × (h ≡ suc k) × IsBalanced k l × IsBalanced k r

-- The innermost node is black.
abbrev pub IsBlackAbove : List Frame → Type 0
IsBlackAbove [] = ⊥
IsBlackAbove (frame d p key red u ∷ c) = red ≡ false

-- What is around a subtree with `h` black nodes on every way down.
abbrev pub IsBalancedAround : ℕ → List Frame → Type 0
IsBalancedAround h [] = Unit {0}
IsBalancedAround h (frame d p key true u ∷ c) =
    (is_red u ≡ false) × IsBalanced h u × IsBlackAbove c × IsBalancedAround h c
IsBalancedAround h (frame d p key false u ∷ c) = IsBalanced h u × IsBalancedAround (suc h) c

pub join-IsBalanced_black :
    (d : Side) (h : ℕ) (t u : Shape) (p key : ℕ)
    → IsBalanced h t
    → IsBalanced h u
    → IsBalanced (suc h) (join d t p key false u)
join-IsBalanced_black on_left h t u p key x y = (h, refl, x, y)
join-IsBalanced_black on_right h t u p key x y = (h, refl, y, x)

pub join-IsBalanced_red :
    (d : Side) (h : ℕ) (t u : Shape) (p key : ℕ)
    → is_red t ≡ false
    → is_red u ≡ false
    → IsBalanced h t
    → IsBalanced h u
    → IsBalanced h (join d t p key true u)
join-IsBalanced_red on_left h t u p key a b x y = (a, b, x, y)
join-IsBalanced_red on_right h t u p key a b x y = (b, a, y, x)

pub is_red-join :
    (d : Side) (t u : Shape) (p key : ℕ) (red : Bool) → is_red (join d t p key red u) ≡ red
is_red-join on_left t u p key red = refl
is_red-join on_right t u p key red = refl

-- A black subtree fits.
pub plug-IsBalanced :
    (c : List Frame) (h : ℕ) (t : Shape)
    → (is_red t ≡ false) ⊎ IsBlackAbove c
    → IsBalanced h t
    → IsBalancedAround h c
    → (k : ℕ) × IsBalanced k (plug c t)
plug-IsBalanced [] h t o b w = (h, b)
plug-IsBalanced (frame d p key false u ∷ c) h t o b w =
    plug-IsBalanced c (suc h) (join d t p key false u) (inl (is_red-join d t u p key false))
      (join-IsBalanced_black d h t u p key b w.0) w.1
plug-IsBalanced (frame d p key true u ∷ c) h t (inr o) b w = cc
plug-IsBalanced (frame d p key true u ∷ c) h t (inl o) b w =
    plug-IsBalanced c h (join d t p key true u) (inr w.2)
      (join-IsBalanced_red d h t u p key o w.0 b w.1) w.3

pub inorder-join :
    (d : Side) (t t' u : Shape) (p key : ℕ) (red red' : Bool)
    → inorder t ≡ inorder t'
    → inorder (join d t p key red u) ≡ inorder (join d t' p key red' u)
inorder-join on_left t t' u p key red red' e = rw e
inorder-join on_right t t' u p key red red' e = rw e

-- The order depends on a subtree only by the subtree's.
pub inorder-plug :
    (c : List Frame) (t t' : Shape)
    → inorder t ≡ inorder t'
    → inorder (plug c t) ≡ inorder (plug c t')
inorder-plug [] t t' e = e
inorder-plug (frame d p key red u ∷ c) t t' e =
    inorder-plug c (join d t p key red u) (join d t' p key red u)
      (inorder-join d t t' u p key red red e)

-- A rotation keeps the order, whatever the colours.
pub inorder-rotated :
    (d : Side) (a b u : Shape) (n kn : ℕ) (cn cn' : Bool) (y ky : ℕ) (cy cy' : Bool)
    → inorder (join d (join (opposite d) b n kn cn' a) y ky cy' u)
      ≡ inorder (join (opposite d) (join d b y ky cy u) n kn cn a)
inorder-rotated on_left a b u n kn cn cn' y ky cy cy' = rw append_assoc
inorder-rotated on_right a b u n kn cn cn' y ky cy cy' = rw append_assoc

pub inorder-turned_out :
    (d : Side) (t v u : Shape) (y ky : ℕ) (cy cy' : Bool) (n kn : ℕ) (cn cn' : Bool)
    → inorder (join d t y ky cy' (join d v n kn cn' u))
      ≡ inorder (join d (join d t y ky cy v) n kn cn u)
inorder-turned_out on_left t v u y ky cy cy' n kn cn cn' = rw append_assoc
inorder-turned_out on_right t v u y ky cy cy' n kn cn cn' = rw append_assoc

pub inorder-join_other :
    (d : Side) (t u u' : Shape) (p key : ℕ) (red red' : Bool)
    → inorder u ≡ inorder u'
    → inorder (join d t p key red u) ≡ inorder (join d t p key red' u')
inorder-join_other on_left t u u' p key red red' e = rw e
inorder-join_other on_right t u u' p key red red' e = rw e
