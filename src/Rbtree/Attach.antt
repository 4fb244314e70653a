-- ===== src/Rbtree/Attach.antt =====
-- A new node in place of a leaf.
use hcore.Base.{
  ℕ, suc, ◌+◌, ◌*◌, ◌≤◌, ◌≡◌, ◌≢◌, refl, sym, Bool, true, List, [], ◌∷◌, arith, ◌==◌, if◌then◌else◌,
}
use hcore.Rbtree.{Rbtree, Side, on_left, on_right, attach}
use hcore.Rbtree.Shape.{
  Shape, leaf, node, Frame, frame, Within, Around, Within-le, Within_wider, Sub-frame,
}
use hcore.Rbtree.Place.{IsAt, Up-frame}
use hcore.Rbtree.Recolour.{eq_true, eq_false, ne_of_outside, ne_of_lt, ne_of_gt}

abbrev pub Fresh : ℕ → Shape → Type 0
Fresh x leaf = Unit {0}
Fresh x (node l q key red r) = (q ≢ x) × Fresh x l × Fresh x r

abbrev pub FreshAround : ℕ → List Frame → Type 0
FreshAround x [] = Unit {0}
FreshAround x (frame d q key red u ∷ c) = (q ≢ x) × Fresh x u × FreshAround x c

-- Numbers with room for one more address, at `at`.
abbrev pub roomy : (rank : ℕ → ℕ) → (x at : ℕ) → ℕ → ℕ
roomy rank x at a = if a == x then 2 * at else 2 * rank a + 1

roomy_ne : (rank : ℕ → ℕ) (x at q : ℕ) → q ≢ x → roomy rank x at q ≡ 2 * rank q + 1
roomy_ne rank x at q ne = rw (eq_false q x ne)

roomy-Within :
    (rank : ℕ → ℕ) (x at lo hi : ℕ) (t : Shape)
    → Fresh x t
    → Within rank lo hi t
    → Within (roomy rank x at) (2 * lo) (2 * hi) t
roomy-Within rank x at lo hi leaf f w = omega arith
roomy-Within rank x at lo hi (node l q key red r) f w =
    let e = roomy_ne rank x at q f.0 in
    (
      Within_wider (roomy rank x at) (2 * lo) (2 * lo) (2 * rank q) (roomy rank x at q) l
          (omega arith) (omega (arith, e)) (roomy-Within rank x at lo (rank q) l f.1 w.0),
      Within_wider (roomy rank x at) (suc (roomy rank x at q)) (2 * suc (rank q)) (2 * hi) (2 * hi)
          r (omega (arith, e)) (omega arith) (roomy-Within rank x at (suc (rank q)) hi r f.2 w.1),
    )

roomy-Around :
    (rank : ℕ → ℕ) (x at lo hi : ℕ) (c : List Frame)
    → FreshAround x c
    → Around rank lo hi c
    → Around (roomy rank x at) (2 * lo) (2 * hi + 1) c
roomy-Around rank x at lo hi [] f w = tt
roomy-Around rank x at lo hi (frame on_left q key red u ∷ c) f w =
    let e = roomy_ne rank x at q f.0 in
    (
      omega (arith, e, w.0),
      2 * w.1 + 1,
      Within_wider (roomy rank x at) (suc (roomy rank x at q)) (2 * suc (rank q)) (2 * w.1)
          (2 * w.1 + 1) u (omega (arith, e)) (omega arith)
          (roomy-Within rank x at (suc (rank q)) w.1 u f.1 w.2),
      roomy-Around rank x at lo w.1 c f.2 w.3,
    )
roomy-Around rank x at lo hi (frame on_right q key red u ∷ c) f w =
    let e = roomy_ne rank x at q f.0 in
    (
      omega (arith, e, w.0),
      2 * w.1,
      Within_wider (roomy rank x at) (2 * w.1) (2 * w.1) (2 * rank q) (roomy rank x at q) u
          (omega arith) (omega (arith, e)) (roomy-Within rank x at w.1 (rank q) u f.1 w.2),
      roomy-Around rank x at w.1 hi c f.2 w.3,
    )

-- The free link of a node on a side leads to `x`, which gets no children.
pub attach-IsAt :
    (d : Side) (s : Rbtree) (rank : ℕ → ℕ) (c : List Frame) (q key : ℕ) (red : Bool) (u : Shape)
    (x : ℕ)
    → x ≢ s.sentinel
    → FreshAround x (frame d q key red u ∷ c)
    → (i : IsAt s rank (frame d q key red u ∷ c) leaf)
    → IsAt
        (attach d s q x)
        (roomy rank x i.lo)
        (frame d q key red u ∷ c)
        (node leaf x (s.at x).key true leaf)
attach-IsAt on_left s rank c q key red u x ns f i =
    let rank' = roomy rank x i.lo in
    let s' = attach on_left s q x in
    let h = i.above in
    let le : i.lo ≤ i.hi = i.within in
    let w = roomy-Around rank x i.lo i.lo i.hi (frame on_left q key red u ∷ c) f i.around in
    let wu = Within-le rank' (suc (rank' q)) w.1 u w.2 in
    let at_x : s'.at x
        ≡ record (s.at x) { parent = q; left = s.sentinel; right = s.sentinel; red = true } =
      rw (eq_true x, eq_false x q (λ z. f.0 (sym z))) refl in
    let at_q : s'.at q ≡ record (s.at q) { left = x } = rw (eq_false q x f.0, eq_true q) refl in
    let er : rank' x ≡ 2 * i.lo = rw (eq_true x) refl in
    let same : (a : ℕ) → a ≢ x → a ≢ q → s'.at a ≡ s.at a =
      λ a nx nq. rw (eq_false a x nx, eq_false a q nq) refl in
    record {
      up = q;
      p = x;
      lo = 2 * i.lo;
      hi = 2 * i.hi + 1;
      sub = rw at_x (refl, ns, refl, refl, refl, refl, refl);
      above = rw at_q (
        refl,
        h.1,
        h.2,
        h.3,
        refl,
        Sub-frame s s' rank' (suc (rank' q)) w.1 q (s.at q).right u refl
            (λ a l z. same a (ne_of_gt rank' a x (omega (arith, er, w.0))) (ne_of_gt rank' a q l))
            w.2 h.5,
        Up-frame s s' rank' (2 * i.lo) w.1 c (s.at q).parent q refl refl
            (λ a o.
              same a
                (ne_of_outside rank' a x (2 * i.lo) w.1 o (omega (arith, er, w.0))
                  (omega (arith, er, w.0)))
                (ne_of_outside rank' a q (2 * i.lo) w.1 o (omega (arith, w.0))
                  (omega (arith, w.0))))
            (omega (arith, w.0)) w.3 h.6,
      );
      within = (omega (arith, er), omega (arith, er));
      around = w;
    }
attach-IsAt on_right s rank c q key red u x ns f i =
    let rank' = roomy rank x i.lo in
    let s' = attach on_right s q x in
    let h = i.above in
    let le : i.lo ≤ i.hi = i.within in
    let w = roomy-Around rank x i.lo i.lo i.hi (frame on_right q key red u ∷ c) f i.around in
    let wu = Within-le rank' w.1 (rank' q) u w.2 in
    let at_x : s'.at x
        ≡ record (s.at x) { parent = q; left = s.sentinel; right = s.sentinel; red = true } =
      rw (eq_true x, eq_false x q (λ z. f.0 (sym z))) refl in
    let at_q : s'.at q ≡ record (s.at q) { right = x } = rw (eq_false q x f.0, eq_true q) refl in
    let er : rank' x ≡ 2 * i.lo = rw (eq_true x) refl in
    let same : (a : ℕ) → a ≢ x → a ≢ q → s'.at a ≡ s.at a =
      λ a nx nq. rw (eq_false a x nx, eq_false a q nq) refl in
    record {
      up = q;
      p = x;
      lo = 2 * i.lo;
      hi = 2 * i.hi + 1;
      sub = rw at_x (refl, ns, refl, refl, refl, refl, refl);
      above = rw at_q (
        refl,
        h.1,
        h.2,
        h.3,
        refl,
        Sub-frame s s' rank' w.1 (rank' q) q (s.at q).left u refl
            (λ a l z. same a (ne_of_lt rank' a x (omega (arith, er, w.0))) (ne_of_lt rank' a q z))
            w.2 h.5,
        Up-frame s s' rank' w.1 (2 * i.hi + 1) c (s.at q).parent q refl refl
            (λ a o.
              same a
                (ne_of_outside rank' a x w.1 (2 * i.hi + 1) o (omega (arith, er, w.0))
                  (omega (arith, er, w.0)))
                (ne_of_outside rank' a q w.1 (2 * i.hi + 1) o (omega (arith, w.0))
                  (omega (arith, w.0))))
            (omega (arith, w.0)) w.3 h.6,
      );
      within = (omega (arith, er), omega (arith, er));
      around = w;
    }
