-- ===== src/Rbtree/Rotate.antt =====
-- A rotation at a place of the tree.
use mathlib.Core.Path.{subst}
use hcore.Base.{ℕ, suc, ◌≤◌, ◌<◌, ◌≡◌, ◌≢◌, refl, sym, ◌∙◌, ◌⊎◌, inl, inr, Bool, List, arith}
use hcore.Rbtree.{Rbtree, Side, on_left, on_right, opposite, child, with_child, rotate}
use hcore.Rbtree.Shape.{Shape, node, Frame, join, Sub, Up, Around, Sub-frame, Within-le}
use hcore.Rbtree.Place.{IsAt}
use hcore.Rbtree.Recolour.{ne_of_lt, ne_of_gt, ne_of_outside}
use hcore.Rbtree.Turn.{
  rotate_root, rotate_sentinel, rotate-at_down, rotate-at_up, rotate-at_mid, rotate-at_parent,
  rotate-at_other,
}
use hcore.Rbtree.Apart.{Sub-reparent, Sub-first, Up-cases, Up-relink}

-- What a rotation at a place does: `n` goes down, `y` up, and the child `m` between them changes sides.
record Turned (d : Side) (s s' : Rbtree) (lo hi : ℕ) (rank : ℕ → ℕ) (c : List Frame) (up n y m : ℕ)
    : Type 0 where
  pub sentinel : s'.sentinel ≡ s.sentinel
  pub down : s'.at n ≡ with_child (opposite d) (record (s.at n) { parent = y }) m
  pub high : s'.at y ≡ with_child d (record (s.at y) { parent = up }) n
  pub mid : m ≢ s.sentinel → s'.at m ≡ record (s.at m) { parent = n }
  pub same :
      (a : ℕ)
      → lo ≤ rank a
      → rank a < hi
      → a ≢ n
      → a ≢ y
      → (m ≡ s.sentinel) ⊎ (a ≢ m)
      → s'.at a ≡ s.at a
  pub above : Up s' c up y

rotate-Turned :
    (d : Side) (s : Rbtree) (rank : ℕ → ℕ) (lo hi : ℕ) (c : List Frame) (up n y m : ℕ)
    → child (opposite d) (s.at n) ≡ y
    → child d (s.at y) ≡ m
    → (s.at n).parent ≡ up
    → n ≢ s.sentinel
    → y ≢ s.sentinel
    → n ≢ y
    → (lo ≤ rank n) × (rank n < hi)
    → (lo ≤ rank y) × (rank y < hi)
    → (m ≡ s.sentinel) ⊎ ((lo ≤ rank m) × (rank m < hi) × (n ≢ m) × (y ≢ m))
    → Around rank lo hi c
    → Up s c up n
    → Turned d s (rotate d s n) lo hi rank c up n y m
rotate-Turned d s rank lo hi c up n y m e f g ns ys ny rn ry rm w h =
    let nm : n ≢ m = elim rm [ inl z ↦ (λ k. ns (k ∙ z)) | inr r ↦ r.2 ] in
    let ym : y ≢ m = elim rm [ inl z ↦ (λ k. ys (k ∙ z)) | inr r ↦ r.3 ] in
    let away : (a : ℕ) → lo ≤ rank a → rank a < hi → (n ≡ s.root) ⊎ (a ≢ up) = λ a l k.
      elim (Up-cases s rank lo hi c up n (omega arith) w h) [
        | inl z ↦ inl (sym z.1)
        | inr o ↦ inr (λ z. ne_of_outside rank up a lo hi o.0 l k (sym z))
      ] in
    let strict : (a : ℕ) → (n ≡ s.root) ⊎ (a ≢ up) → n ≢ s.root → a ≢ up =
      λ a o k. elim o [ inl z ↦ absurd (k z) | inr z ↦ z ] in
    let mid_away : n ≢ s.root → m ≢ up = λ k. elim rm [
      | inl z ↦ elim (Up-cases s rank lo hi c up n (omega arith) w h) [
        | inl r ↦ absurd (k (sym r.1))
        | inr o ↦ (λ x. o.2 (sym x ∙ z))
      ]
      | inr r ↦ strict m (away m r.0 r.1) k
    ] in
    record {
      sentinel = rotate_sentinel d s n;
      down = rotate-at_down s n y m up ny nm ym d e f g (away n rn.0 rn.1);
      high = rotate-at_up s n y m up ny nm ym d e f g (away y ry.0 ry.1);
      mid = λ k.
          rotate-at_mid s n y m up ny nm ym d e f g
            (elim rm [ inl z ↦ absurd (k z) | inr r ↦ away m r.0 r.1 ]) k;
      same = λ a l k an ay am. rotate-at_other s n y m up ny nm ym d a e f g an ay am (away a l k);
      above =
          Up-relink d s (rotate d s n) rank lo hi c up n y (rotate_sentinel d s n)
            (rotate_root s n y m up ny nm ym d e) ns rn.0 rn.1
            (λ k.
              rotate-at_parent s n y m up ny nm ym d e f g k (strict n (away n rn.0 rn.1) k)
                (strict y (away y ry.0 ry.1) k) (mid_away k))
            (λ a ap o.
              rotate-at_other s n y m up ny nm ym d a e f g
                (ne_of_outside rank a n lo hi o rn.0 rn.1)
                (ne_of_outside rank a y lo hi o ry.0 ry.1)
                (elim rm [ inl z ↦ inl z | inr r ↦ inr (ne_of_outside rank a m lo hi o r.0 r.1) ])
                (inr ap))
            w h;
    }

-- A rotation at a place turns the two nodes there, and leaves all else.
pub rotate-IsAt :
    (d : Side) (s : Rbtree) (rank : ℕ → ℕ) (c : List Frame) (a b u : Shape) (n kn : ℕ) (cn : Bool)
    (y ky : ℕ) (cy : Bool)
    → IsAt s rank c (join (opposite d) (join d b y ky cy u) n kn cn a)
    → IsAt (rotate d s n) rank c (join d (join (opposite d) b n kn cn a) y ky cy u)
rotate-IsAt on_left s rank c a b u n kn cn y ky cy i =
    let f = i.sub in
    let g = f.6 in
    let w = i.within in
    let wa = Within-le rank i.lo (rank n) a w.0 in
    let wb = Within-le rank (suc (rank n)) (rank y) b w.1.0 in
    let wu = Within-le rank (suc (rank y)) i.hi u w.1.1 in
    let m = (s.at y).left in
    let s' = rotate on_left s n in
    let first = Sub-first s rank (suc (rank n)) (rank y) y m b w.1.0 g.5 in
    let t =
      rotate-Turned on_left s rank i.lo i.hi c i.up n y m g.0 refl f.4 f.1 g.1
        (ne_of_lt rank n y (omega arith)) (omega arith, omega arith) (omega arith, omega arith)
        (elim first [
          | inl z ↦ inl z
          | inr (z, l, h) ↦ inr (
            omega arith,
            omega arith,
            ne_of_lt rank n m (omega arith),
            ne_of_gt rank y m (omega arith),
          )
        ])
        i.around (subst (Up s c i.up) f.0 i.above) in
    let same_a : (x : ℕ) → i.lo ≤ rank x → rank x < rank n → s'.at x ≡ s.at x = λ x l h.
      t.same x (omega arith) (omega arith) (ne_of_lt rank x n (omega arith))
        (ne_of_lt rank x y (omega arith))
        (elim first [ inl z ↦ inl z | inr r ↦ inr (ne_of_lt rank x m (omega arith)) ]) in
    let same_u : (x : ℕ) → suc (rank y) ≤ rank x → rank x < i.hi → s'.at x ≡ s.at x = λ x l h.
      t.same x (omega arith) (omega arith) (ne_of_gt rank x n (omega arith))
        (ne_of_gt rank x y (omega arith))
        (elim first [ inl z ↦ inl z | inr r ↦ inr (ne_of_gt rank x m (omega arith)) ]) in
    let same_b : (x : ℕ) → x ≢ m → suc (rank n) ≤ rank x → rank x < rank y → s'.at x ≡ s.at x =
      λ x ne l h.
        t.same x (omega arith) (omega arith) (ne_of_gt rank x n (omega arith))
          (ne_of_lt rank x y (omega arith)) (inr ne) in
    let sub_a = Sub-frame s s' rank i.lo (rank n) n (s.at n).left a t.sentinel same_a w.0 f.5 in
    let sub_u =
      Sub-frame s s' rank (suc (rank y)) i.hi y (s.at y).right u t.sentinel same_u w.1.1 g.6 in
    let sub_b =
      Sub-reparent s s' rank (suc (rank n)) (rank y) y n m b t.sentinel same_b t.mid w.1.0 g.5 in
    let sub_n : Sub s' y n (node a n kn cn b) =
      rw t.down (refl, (λ x. f.1 (x ∙ t.sentinel)), f.2, f.3, refl, sub_a, sub_b) in
    record {
      up = i.up;
      p = y;
      lo = i.lo;
      hi = i.hi;
      sub = rw t.high (refl, (λ x. g.1 (x ∙ t.sentinel)), g.2, g.3, refl, sub_n, sub_u);
      above = t.above;
      within = ((w.0, w.1.0), w.1.1);
      around = i.around;
    }
rotate-IsAt on_right s rank c a b u n kn cn y ky cy i =
    let f = i.sub in
    let g = f.5 in
    let w = i.within in
    let wa = Within-le rank (suc (rank n)) i.hi a w.1 in
    let wb = Within-le rank (suc (rank y)) (rank n) b w.0.1 in
    let wu = Within-le rank i.lo (rank y) u w.0.0 in
    let m = (s.at y).right in
    let s' = rotate on_right s n in
    let first = Sub-first s rank (suc (rank y)) (rank n) y m b w.0.1 g.6 in
    let t =
      rotate-Turned on_right s rank i.lo i.hi c i.up n y m g.0 refl f.4 f.1 g.1
        (ne_of_gt rank n y (omega arith)) (omega arith, omega arith) (omega arith, omega arith)
        (elim first [
          | inl z ↦ inl z
          | inr (z, l, h) ↦ inr (
            omega arith,
            omega arith,
            ne_of_gt rank n m (omega arith),
            ne_of_lt rank y m (omega arith),
          )
        ])
        i.around (subst (Up s c i.up) f.0 i.above) in
    let same_a : (x : ℕ) → (suc (rank n)) ≤ rank x → rank x < i.hi → s'.at x ≡ s.at x = λ x l h.
      t.same x (omega arith) (omega arith) (ne_of_gt rank x n (omega arith))
        (ne_of_gt rank x y (omega arith))
        (elim first [ inl z ↦ inl z | inr r ↦ inr (ne_of_gt rank x m (omega arith)) ]) in
    let same_u : (x : ℕ) → i.lo ≤ rank x → rank x < rank y → s'.at x ≡ s.at x = λ x l h.
      t.same x (omega arith) (omega arith) (ne_of_lt rank x n (omega arith))
        (ne_of_lt rank x y (omega arith))
        (elim first [ inl z ↦ inl z | inr r ↦ inr (ne_of_lt rank x m (omega arith)) ]) in
    let same_b : (x : ℕ) → x ≢ m → suc (rank y) ≤ rank x → rank x < rank n → s'.at x ≡ s.at x =
      λ x ne l h.
        t.same x (omega arith) (omega arith) (ne_of_lt rank x n (omega arith))
          (ne_of_gt rank x y (omega arith)) (inr ne) in
    let sub_a =
      Sub-frame s s' rank (suc (rank n)) i.hi n (s.at n).right a t.sentinel same_a w.1 f.6 in
    let sub_u = Sub-frame s s' rank i.lo (rank y) y (s.at y).left u t.sentinel same_u w.0.0 g.5 in
    let sub_b =
      Sub-reparent s s' rank (suc (rank y)) (rank n) y n m b t.sentinel same_b t.mid w.0.1 g.6 in
    let sub_n : Sub s' y n (node b n kn cn a) =
      rw t.down (refl, (λ x. f.1 (x ∙ t.sentinel)), f.2, f.3, refl, sub_b, sub_a) in
    record {
      up = i.up;
      p = y;
      lo = i.lo;
      hi = i.hi;
      sub = rw t.high (refl, (λ x. g.1 (x ∙ t.sentinel)), g.2, g.3, refl, sub_u, sub_n);
      above = t.above;
      within = (w.0.0, (w.0.1, w.1));
      around = i.around;
    }
