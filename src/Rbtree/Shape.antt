-- ===== src/Rbtree/Shape.antt =====
-- The tree that the nodes in memory stand for.
use hcore.Base.{ℕ, suc, ◌≤◌, ◌<◌, ◌≡◌, ◌≢◌, sym, ◌∙◌, Bool, List, [], ◌∷◌, arith}
use hcore.Rbtree.{Rbtree, Side, on_left, on_right, opposite, child}

-- A tree of addresses with their keys and colours.
pub data Shape : Type 0 where
  leaf : Shape
  node : Shape → (p key : ℕ) → (red : Bool) → Shape → Shape

-- A node around a subtree: the side on which the subtree stands, the node, and the other subtree.
pub data Frame : Type 0 where
  frame : Side → (p key : ℕ) → (red : Bool) → Shape → Frame

-- `t` on the side, `u` on the other.
abbrev pub join : Side → Shape → (p key : ℕ) → (red : Bool) → Shape → Shape
join on_left t p key red u = node t p key red u
join on_right t p key red u = node u p key red t

abbrev pub plug_one : Frame → Shape → Shape
plug_one (frame d p key red u) t = join d t p key red u

-- The tree around a subtree.
abbrev pub plug : List Frame → Shape → Shape
plug [] t = t
plug (f ∷ c) t = plug c (plug_one f t)

-- From `p` the links lead to the nodes of the tree, the first of which has the parent `up`.
abbrev pub Sub : Rbtree → (up p : ℕ) → Shape → Type 0
Sub s up p leaf = p ≡ s.sentinel
Sub s up p (node l q key red r) =
    (p ≡ q)
    × (q ≢ s.sentinel)
    × ((s.at q).key ≡ key)
    × ((s.at q).red ≡ red)
    × ((s.at q).parent ≡ up)
    × Sub s q (s.at q).left l
    × Sub s q (s.at q).right r

-- The links from the root to `p`, whose parent is `up` unless it is the root.
abbrev pub Up : Rbtree → List Frame → (up p : ℕ) → Type 0
Up s [] up p = s.root ≡ p
Up s (frame d q key red u ∷ c) up p =
    (up ≡ q)
    × (q ≢ s.sentinel)
    × ((s.at q).key ≡ key)
    × ((s.at q).red ≡ red)
    × (child d (s.at q) ≡ p)
    × Sub s q (child (opposite d) (s.at q)) u
    × Up s c (s.at q).parent q

-- The numbers of the addresses grow from left to right, from `lo` to below `hi`; so no address stands
-- twice.
abbrev pub Within : (rank : ℕ → ℕ) → (lo hi : ℕ) → Shape → Type 0
Within rank lo hi leaf = lo ≤ hi
Within rank lo hi (node l p key red r) = Within rank lo (rank p) l × Within rank (suc (rank p)) hi r

-- The same of what is around a subtree with the numbers from `lo` to below `hi`.
abbrev pub Around : (rank : ℕ → ℕ) → (lo hi : ℕ) → List Frame → Type 0
Around rank lo hi [] = Unit {0}
Around rank lo hi (frame on_left q key red u ∷ c) =
    (hi ≤ rank q) × (top : ℕ) × Within rank (suc (rank q)) top u × Around rank lo top c
Around rank lo hi (frame on_right q key red u ∷ c) =
    (suc (rank q) ≤ lo) × (low : ℕ) × Within rank low (rank q) u × Around rank low hi c

pub Within-le : (rank : ℕ → ℕ) (lo hi : ℕ) (t : Shape) → Within rank lo hi t → lo ≤ hi
Within-le rank lo hi leaf w = w
Within-le rank lo hi (node l p key red r) w =
    omega (arith, Within-le rank lo (rank p) l w.0, Within-le rank (suc (rank p)) hi r w.1)

-- What does not touch the nodes of a tree keeps it.
pub Sub-frame :
    (s s' : Rbtree) (rank : ℕ → ℕ) (lo hi up p : ℕ) (t : Shape)
    → s'.sentinel ≡ s.sentinel
    → ((a : ℕ) → lo ≤ rank a → rank a < hi → s'.at a ≡ s.at a)
    → Within rank lo hi t
    → Sub s up p t
    → Sub s' up p t
Sub-frame s s' rank lo hi up p leaf e same w h = h ∙ sym e
Sub-frame s s' rank lo hi up p (node l q key red r) e same w h =
    let wl = Within-le rank lo (rank q) l w.0 in
    let wr = Within-le rank (suc (rank q)) hi r w.1 in
    rw (same q wl (omega arith), e)
      (
        h.0,
        h.1,
        h.2,
        h.3,
        h.4,
        Sub-frame s s' rank lo (rank q) q (s.at q).left l e (λ a x y. same a x (omega arith)) w.0
            h.5,
        Sub-frame s s' rank (suc (rank q)) hi q (s.at q).right r e (λ a x y. same a (omega arith) y)
            w.1 h.6,
      )

pub Within_wider :
    (rank : ℕ → ℕ) (lo' lo hi hi' : ℕ) (t : Shape)
    → lo' ≤ lo
    → hi ≤ hi'
    → Within rank lo hi t
    → Within rank lo' hi' t
Within_wider rank lo' lo hi hi' leaf l k w = omega arith
Within_wider rank lo' lo hi hi' (node t p key red u) l k w = (
  Within_wider rank lo' lo (rank p) (rank p) t l (omega arith) w.0,
  Within_wider rank (suc (rank p)) (suc (rank p)) hi hi' u (omega arith) k w.1,
)
