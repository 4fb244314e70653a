-- ===== src/Rbtree/Apart.antt =====
-- What a rotation at a place does not touch: the subtrees beside the place, and the frames around it.
use mathlib.Core.Path.{subst}
use hcore.Base.{
  ℕ, suc, ◌≤◌, ◌<◌, ◌≡◌, ◌≢◌, refl, sym, ◌∙◌, ◌⊎◌, inl, inr, List, [], ◌∷◌, arith, ◌==◌,
  if◌then◌else◌,
}
use hcore.Rbtree.{Node, Rbtree, Side, on_left, on_right, opposite, child, with_child}
use hcore.Rbtree.Shape.{
  Shape, leaf, node, Frame, frame, Sub, Up, Within, Around, Sub-frame, Within-le,
}
use hcore.Rbtree.Place.{Up-frame, outside_mono}
use hcore.Rbtree.Recolour.{ne_of_lt, ne_of_gt, ne_of_outside, eq_true, eq_false}
use hcore.Rbtree.Turn.{linked}

abbrev Outside : (lo hi n : ℕ) → Type 0
Outside lo hi n = (n < lo) ⊎ (hi ≤ n)

-- A subtree with another parent.
pub Sub-reparent :
    (s s' : Rbtree) (rank : ℕ → ℕ) (lo hi up up' p : ℕ) (t : Shape)
    → s'.sentinel ≡ s.sentinel
    → ((a : ℕ) → a ≢ p → lo ≤ rank a → rank a < hi → s'.at a ≡ s.at a)
    → (p ≢ s.sentinel → s'.at p ≡ record (s.at p) { parent = up' })
    → Within rank lo hi t
    → Sub s up p t
    → Sub s' up' p t
Sub-reparent s s' rank lo hi up up' p leaf e same moved w h = h ∙ sym e
Sub-reparent s s' rank lo hi up up' p (node l q key red r) e same moved w h =
    let eq : s'.at q ≡ record (s.at q) { parent = up' } =
      subst (λ x. s'.at x ≡ record (s.at x) { parent = up' }) h.0
        (moved (λ x. h.1 (sym h.0 ∙ x))) in
    let wl = Within-le rank lo (rank q) l w.0 in
    let wr = Within-le rank (suc (rank q)) hi r w.1 in
    rw eq (
      h.0,
      (λ x. h.1 (x ∙ e)),
      h.2,
      h.3,
      refl,
      Sub-frame s s' rank lo (rank q) q (s.at q).left l e
          (λ a x y. same a (λ k. ne_of_lt rank a q y (k ∙ h.0)) x (omega arith)) w.0 h.5,
      Sub-frame s s' rank (suc (rank q)) hi q (s.at q).right r e
          (λ a x y. same a (λ k. ne_of_gt rank a q x (k ∙ h.0)) (omega arith) y) w.1 h.6,
    )

-- The first node of a tree, or the sentinel.
pub Sub-first :
    (s : Rbtree) (rank : ℕ → ℕ) (lo hi up p : ℕ) (t : Shape)
    → Within rank lo hi t
    → Sub s up p t
    → (p ≡ s.sentinel) ⊎ ((p ≢ s.sentinel) × (lo ≤ rank p) × (rank p < hi))
Sub-first s rank lo hi up p leaf w h = inl h
Sub-first s rank lo hi up p (node l q key red r) w h =
    let wl = Within-le rank lo (rank q) l w.0 in
    let wr = Within-le rank (suc (rank q)) hi r w.1 in
    inr ((λ x. h.1 (sym h.0 ∙ x)), rw h.0 wl, rw h.0 (omega arith))

-- Either the place is the root, or its parent and the root lie outside.
pub Up-cases :
    (s : Rbtree) (rank : ℕ → ℕ) (lo hi : ℕ) (c : List Frame) (up p : ℕ)
    → lo ≤ hi
    → Around rank lo hi c
    → Up s c up p
    → ((c ≡ []) × (s.root ≡ p))
      ⊎ (Outside lo hi (rank up) × Outside lo hi (rank s.root) × (up ≢ s.sentinel))
Up-cases s rank lo hi [] up p le w h = inl (refl, h)
Up-cases s rank lo hi (frame on_left q key red u ∷ c) up p le w h =
    let wu = Within-le rank (suc (rank q)) w.1 u w.2 in
    inr (
      rw h.0 (inr w.0),
      elim (Up-cases s rank lo w.1 c (s.at q).parent q (omega arith) w.3 h.6) [
        | inl e ↦ rw e.1 (inr w.0)
        | inr o ↦ elim o.1 [ inl x ↦ inl x | inr x ↦ inr (omega arith) ]
      ],
      (λ x. h.1 (sym h.0 ∙ x)),
    )
Up-cases s rank lo hi (frame on_right q key red u ∷ c) up p le w h =
    let wu = Within-le rank w.1 (rank q) u w.2 in
    inr (
      rw h.0 (inl w.0),
      elim (Up-cases s rank w.1 hi c (s.at q).parent q (omega arith) w.3 h.6) [
        | inl e ↦ rw e.1 (inl w.0)
        | inr o ↦ elim o.1 [ inl x ↦ inl (omega arith) | inr x ↦ inr x ]
      ],
      (λ x. h.1 (sym h.0 ∙ x)),
    )

linked_lem :
    (d d' : Side) (p : Node) (n y : ℕ)
    → child d' p ≡ n
    → child (opposite d') p ≢ n
    → linked d p n y ≡ with_child d' p y
linked_lem on_left on_left p n y e ne = ground arith
linked_lem on_left on_right p n y e ne = ground arith
linked_lem on_right on_left p n y e ne = ground arith
linked_lem on_right on_right p n y e ne = ground arith

-- The node of a frame lies outside, and so does the root.
pub Frame-Outside :
    (s : Rbtree) (rank : ℕ → ℕ) (lo hi : ℕ) (f : Frame) (c : List Frame) (up p : ℕ)
    → lo ≤ hi
    → Around rank lo hi (f ∷ c)
    → Up s (f ∷ c) up p
    → Outside lo hi (rank up) × Outside lo hi (rank s.root) × (up ≢ s.sentinel)
Frame-Outside s rank lo hi f c up p le w h = elim (Up-cases s rank lo hi (f ∷ c) up p le w h) [
  | inl e ↦ cc e.0
  | inr o ↦ o
]

-- The other child is not `n`.
pub Sub-ne :
    (s : Rbtree) (rank : ℕ → ℕ) (lo hi up p n : ℕ) (t : Shape)
    → Within rank lo hi t
    → Sub s up p t
    → n ≢ s.sentinel
    → Outside lo hi (rank n)
    → p ≢ n
Sub-ne s rank lo hi up p n t w h ns o e = elim (Sub-first s rank lo hi up p t w h) [
  | inl z ↦ ns (sym e ∙ z)
  | inr (z, a, b) ↦ ne_of_outside rank n p lo hi o a b (sym e)
]

-- What is around a subtree, whose first node is `n`, when the link to it leads to `y`.
pub Up-relink :
    (d : Side) (s s' : Rbtree) (rank : ℕ → ℕ) (lo hi : ℕ) (c : List Frame) (up n y : ℕ)
    → s'.sentinel ≡ s.sentinel
    → s'.root ≡ (if n == s.root then y else s.root)
    → n ≢ s.sentinel
    → lo ≤ rank n
    → rank n < hi
    → (n ≢ s.root → s'.at up ≡ linked d (s.at up) n y)
    → ((a : ℕ) → a ≢ up → Outside lo hi (rank a) → s'.at a ≡ s.at a)
    → Around rank lo hi c
    → Up s c up n
    → Up s' c up y
Up-relink d s s' rank lo hi [] up n y e er ns l k moved same w h = er ∙ rw (h, eq_true n)
Up-relink d s s' rank lo hi (frame on_left q key red u ∷ c) up n y e er ns l k moved same w h =
    let wu = Within-le rank (suc (rank q)) w.1 u w.2 in
    let o = Frame-Outside s rank lo hi (frame on_left q key red u) c up n (omega arith) w h in
    let nr = λ (x : n ≡ s.root). ne_of_outside rank s.root n lo hi o.1 l k (sym x) in
    let ne = Sub-ne s rank (suc (rank q)) w.1 q (s.at q).right n u w.2 h.5 ns (inl (omega arith)) in
    let eq : s'.at q ≡ record (s.at q) { left = y } =
      subst (λ x. s'.at x ≡ linked d (s.at x) n y) h.0 (moved nr)
      ∙ linked_lem d on_left (s.at q) n y h.4 ne in
    let rest : (a : ℕ) → Outside lo w.1 (rank a) → s'.at a ≡ s.at a = λ a x.
      same a (λ z. ne_of_outside rank a q lo w.1 x (omega arith) (omega arith) (z ∙ h.0))
        (outside_mono (rank a) lo hi lo w.1 x (omega arith) (omega arith)) in
    rw eq (
      h.0,
      (λ x. h.1 (x ∙ e)),
      h.2,
      h.3,
      refl,
      Sub-frame s s' rank (suc (rank q)) w.1 q (s.at q).right u e
          (λ a x z. same a (λ z'. ne_of_gt rank a q x (z' ∙ h.0)) (inr (omega arith))) w.2 h.5,
      Up-frame s s' rank lo w.1 c (s.at q).parent q e (er ∙ rw (eq_false n s.root nr)) rest
          (omega arith) w.3 h.6,
    )
Up-relink d s s' rank lo hi (frame on_right q key red u ∷ c) up n y e er ns l k moved same w h =
    let wu = Within-le rank w.1 (rank q) u w.2 in
    let o = Frame-Outside s rank lo hi (frame on_right q key red u) c up n (omega arith) w h in
    let nr = λ (x : n ≡ s.root). ne_of_outside rank s.root n lo hi o.1 l k (sym x) in
    let ne = Sub-ne s rank w.1 (rank q) q (s.at q).left n u w.2 h.5 ns (inr (omega arith)) in
    let eq : s'.at q ≡ record (s.at q) { right = y } =
      subst (λ x. s'.at x ≡ linked d (s.at x) n y) h.0 (moved nr)
      ∙ linked_lem d on_right (s.at q) n y h.4 ne in
    let rest : (a : ℕ) → Outside w.1 hi (rank a) → s'.at a ≡ s.at a = λ a x.
      same a (λ z. ne_of_outside rank a q w.1 hi x (omega arith) (omega arith) (z ∙ h.0))
        (outside_mono (rank a) lo hi w.1 hi x (omega arith) (omega arith)) in
    rw eq (
      h.0,
      (λ x. h.1 (x ∙ e)),
      h.2,
      h.3,
      refl,
      Sub-frame s s' rank w.1 (rank q) q (s.at q).left u e
          (λ a x z. same a (λ z'. ne_of_lt rank a q z (z' ∙ h.0)) (inl (omega arith))) w.2 h.5,
      Up-frame s s' rank w.1 hi c (s.at q).parent q e (er ∙ rw (eq_false n s.root nr)) rest
          (omega arith) w.3 h.6,
    )
