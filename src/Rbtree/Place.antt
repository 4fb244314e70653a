-- ===== src/Rbtree/Place.antt =====
-- A place in the tree: a subtree and what is around it.
use mathlib.Core.Path.{subst}
use hcore.Base.{ℕ, suc, ◌≤◌, ◌<◌, ◌≡◌, refl, sym, ◌∙◌, ◌⊎◌, inl, inr, Bool, List, [], ◌∷◌, arith}
use hcore.Rbtree.{Rbtree, Side, on_left, on_right}
use hcore.Rbtree.Shape.{
  Shape, Frame, frame, join, Sub, Up, Within, Around, Sub-frame, Within-le, Within_wider, plug,
}

pub record IsAt (s : Rbtree) (rank : ℕ → ℕ) (c : List Frame) (t : Shape) : Type 0 where
  pub up : ℕ
  pub p : ℕ
  pub lo : ℕ
  pub hi : ℕ
  pub sub : Sub s up p t
  pub above : Up s c up p
  pub within : Within rank lo hi t
  pub around : Around rank lo hi c

pub outside_mono :
    (n lo hi lo' hi' : ℕ) → (n < lo') ⊎ (hi' ≤ n) → lo' ≤ lo → hi ≤ hi' → (n < lo) ⊎ (hi ≤ n)
outside_mono n lo hi lo' hi' (inl h) l k = inl (omega arith)
outside_mono n lo hi lo' hi' (inr h) l k = inr (omega arith)

-- What does not touch the nodes around a subtree keeps them.
pub Up-frame :
    (s s' : Rbtree) (rank : ℕ → ℕ) (lo hi : ℕ) (c : List Frame) (up p : ℕ)
    → s'.sentinel ≡ s.sentinel
    → s'.root ≡ s.root
    → ((a : ℕ) → (rank a < lo) ⊎ (hi ≤ rank a) → s'.at a ≡ s.at a)
    → lo ≤ hi
    → Around rank lo hi c
    → Up s c up p
    → Up s' c up p
Up-frame s s' rank lo hi [] up p e er same le w h = er ∙ h
Up-frame s s' rank lo hi (frame on_left q key red u ∷ c) up p e er same le w h =
    let wu = Within-le rank (suc (rank q)) w.1 u w.2 in
    rw (same q (inr w.0)) (
      h.0,
      (λ x. h.1 (x ∙ e)),
      h.2,
      h.3,
      h.4,
      Sub-frame s s' rank (suc (rank q)) w.1 q (s.at q).right u e
          (λ a x y. same a (inr (omega arith))) w.2 h.5,
      Up-frame s s' rank lo w.1 c (s.at q).parent q e er
          (λ a x. same a (outside_mono (rank a) lo hi lo w.1 x (omega arith) (omega arith)))
          (omega arith) w.3 h.6,
    )
Up-frame s s' rank lo hi (frame on_right q key red u ∷ c) up p e er same le w h =
    let wu = Within-le rank w.1 (rank q) u w.2 in
    rw (same q (inl w.0)) (
      h.0,
      (λ x. h.1 (x ∙ e)),
      h.2,
      h.3,
      h.4,
      Sub-frame s s' rank w.1 (rank q) q (s.at q).left u e (λ a x y. same a (inl (omega arith))) w.2
          h.5,
      Up-frame s s' rank w.1 hi c (s.at q).parent q e er
          (λ a x. same a (outside_mono (rank a) lo hi w.1 hi x (omega arith) (omega arith)))
          (omega arith) w.3 h.6,
    )

Up-cast :
    (s : Rbtree) (c : List Frame) (up p up' p' : ℕ)
    → up ≡ up'
    → p ≡ p'
    → Up s c up p
    → Up s c up' p'
Up-cast s c up p up' p' e k h = subst (λ x. Up s c x p') e (subst (Up s c up) k h)

Sub-cast :
    (s : Rbtree) (t : Shape) (up p up' p' : ℕ) → up ≡ up' → p ≡ p' → Sub s up p t → Sub s up' p' t
Sub-cast s t up p up' p' e k h = subst (λ x. Sub s x p' t) e (subst (λ x. Sub s up x t) k h)

-- Down to a child.
pub down :
    (s : Rbtree) (rank : ℕ → ℕ) (c : List Frame) (d : Side) (t u : Shape) (q key : ℕ) (red : Bool)
    → IsAt s rank c (join d t q key red u)
    → IsAt s rank (frame d q key red u ∷ c) t
down s rank c on_left t u q key red i = record {
  up = q;
  p = (s.at q).left;
  lo = i.lo;
  hi = rank q;
  sub = i.sub.5;
  above = (
    refl,
    i.sub.1,
    i.sub.2,
    i.sub.3,
    refl,
    i.sub.6,
    Up-cast s c i.up i.p (s.at q).parent q (sym i.sub.4) i.sub.0 i.above,
  );
  within = i.within.0;
  around = (omega arith, i.hi, i.within.1, i.around);
}
down s rank c on_right t u q key red i = record {
  up = q;
  p = (s.at q).right;
  lo = suc (rank q);
  hi = i.hi;
  sub = i.sub.6;
  above = (
    refl,
    i.sub.1,
    i.sub.2,
    i.sub.3,
    refl,
    i.sub.5,
    Up-cast s c i.up i.p (s.at q).parent q (sym i.sub.4) i.sub.0 i.above,
  );
  within = i.within.1;
  around = (omega arith, i.lo, i.within.0, i.around);
}

-- Up to the parent.
pub up :
    (s : Rbtree) (rank : ℕ → ℕ) (c : List Frame) (d : Side) (t u : Shape) (q key : ℕ) (red : Bool)
    → IsAt s rank (frame d q key red u ∷ c) t
    → IsAt s rank c (join d t q key red u)
up s rank c on_left t u q key red i =
    let a = i.above in
    record {
      up = (s.at q).parent;
      p = q;
      lo = i.lo;
      hi = i.around.1;
      sub = (
        refl,
        a.1,
        a.2,
        a.3,
        refl,
        Sub-cast s t i.up i.p q (s.at q).left a.0 (sym a.4) i.sub,
        a.5,
      );
      above = a.6;
      within = (
        Within_wider rank i.lo i.lo i.hi (rank q) t (omega arith) i.around.0 i.within,
        i.around.2,
      );
      around = i.around.3;
    }
up s rank c on_right t u q key red i =
    let a = i.above in
    record {
      up = (s.at q).parent;
      p = q;
      lo = i.around.1;
      hi = i.hi;
      sub = (
        refl,
        a.1,
        a.2,
        a.3,
        refl,
        a.5,
        Sub-cast s t i.up i.p q (s.at q).right a.0 (sym a.4) i.sub,
      );
      above = a.6;
      within = (
        i.around.2,
        Within_wider rank (suc (rank q)) i.lo i.hi i.hi t i.around.0 (omega arith) i.within,
      );
      around = i.around.3;
    }

-- Up to the root.
pub top :
    (s : Rbtree) (rank : ℕ → ℕ) (c : List Frame) (t : Shape)
    → IsAt s rank c t
    → IsAt s rank [] (plug c t)
top s rank [] t i = i
top s rank (frame d q key red u ∷ c) t i =
    top s rank c (join d t q key red u) (up s rank c d t u q key red i)
