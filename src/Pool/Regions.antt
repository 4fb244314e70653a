-- ===== src/Pool/Regions.antt =====
-- What a pool gives out lies in its blocks and apart from what it gave out before.
use hcore.Base.{
  ℕ, zero, suc, ◌+◌, ◌-◌, ◌%◌, ◌^◌, ◌<◌, ◌≤◌, ◌≡◌, refl, sym, ◌⊎◌, inl, inr, Bool, true, false,
  Option, none, some, List, [], ◌∷◌, ◌++◌, leb, leb→le, if◌then◌else◌, take, drop, All, arith,
  Bool-cases,
}
use hcore.Pool.{Block, alignment, align_ptr, room, small_loop}

-- Two blocks of memory without a byte in common.
abbrev pub Apart : Block → Block → Type 0
Apart b c = b.end ≤ c.base ⊎ c.end ≤ b.base

-- What is given out ends at `last`; the block is aligned.
abbrev pub IsBlock : Block → Type 0
IsBlock b =
    (b.base ≤ b.last)
    × (b.last ≤ b.end)
    × (b.end < 2 ^ 64)
    × (b.base % alignment ≡ 0)
    × (b.end % alignment ≡ 0)

abbrev pub AreBlocks : List Block → Type 0
AreBlocks [] = Unit
AreBlocks (b ∷ bs) = IsBlock b × All (Apart b) bs × AreBlocks bs

-- The `n` bytes at `a` have been given out by one of the blocks.
abbrev pub Holds : List Block → (a n : ℕ) → Type 0
Holds [] a n = ⊥
Holds (b ∷ bs) a n = ((b.base ≤ a) × (a + n ≤ b.last)) ⊎ Holds bs a n

-- Two pieces of memory without a byte in common.
abbrev pub Disjoint : (a n b k : ℕ) → Type 0
Disjoint a n b k = a + n ≤ b ⊎ b + k ≤ a

-- What `small_loop` leaves: blocks, with `size` bytes at `m` given out, apart from all before.
abbrev pub Gives : List Block → ℕ → ℕ → List Block → Type 0
Gives bs size m bs' =
    AreBlocks bs'
    × Holds bs' m size
    × ((a n : ℕ) → Holds bs a n → Holds bs' a n × Disjoint a n m size)

pub align_ptr_bounds :
    (p : ℕ)
    → (p ≤ align_ptr p alignment)
      × (align_ptr p alignment < p + 8)
      × (align_ptr p alignment % 8 ≡ 0)
align_ptr_bounds p = omega arith

-- With an aligned end, the alignment of `last` stays in the block.
align_ptr_end : (p end : ℕ) → p ≤ end → end % 8 ≡ 0 → align_ptr p alignment ≤ end
align_ptr_end p end h e = omega arith

room_lem : (end m : ℕ) → m ≤ end → end < 2 ^ 64 → room end m ≡ end - m
room_lem end m h b = omega arith

-- The same blocks of memory.
abbrev pub Same : List Block → List Block → Type 0
Same [] [] = Unit
Same (b ∷ bs) (c ∷ cs) = (b.base ≡ c.base) × (b.end ≡ c.end) × Same bs cs
Same [] (c ∷ cs) = ⊥
Same (b ∷ bs) [] = ⊥

pub Same-refl : (bs : List Block) → Same bs bs
Same-refl [] = tt
Same-refl (b ∷ bs) = (refl, refl, Same-refl bs)

pub Same-All : (b : Block) (bs cs : List Block) → All (Apart b) bs → Same bs cs → All (Apart b) cs
Same-All b [] [] a s = tt
Same-All b [] (c ∷ cs) a s = absurd s
Same-All b (d ∷ bs) [] a s = absurd s
Same-All b (d ∷ bs) (c ∷ cs) a s = (rw (sym s.0, sym s.1) a.0, Same-All b bs cs a.1 s.2)

-- A piece of one block is apart from what the others give out.
pub Holds-Apart :
    (b : Block) (cs : List Block) (a n m k : ℕ)
    → All (Apart b) cs
    → AreBlocks cs
    → b.base ≤ a
    → a + n ≤ b.end
    → Holds cs m k
    → Disjoint a n m k
Holds-Apart b [] a n m k p w h i x = ground arith
Holds-Apart b (c ∷ cs) a n m k p w h i (inl (x, y)) = ground (arith, p.0, w.0)
Holds-Apart b (c ∷ cs) a n m k p w h i (inr x) = Holds-Apart b cs a n m k p.1 w.2 h i x

pub Disjoint-sym : (a n m k : ℕ) → Disjoint a n m k → Disjoint m k a n
Disjoint-sym a n m k d = ground arith

-- A block more in front, from which nothing is taken.
pub Gives-cons :
    (b : Block) (bs : List Block) (size m : ℕ) (bs' : List Block)
    → IsBlock b
    → All (Apart b) bs'
    → Gives bs size m bs'
    → Gives (b ∷ bs) size m (b ∷ bs')
Gives-cons b bs size m bs' i p' g = (
  (i, p', g.0),
  inr g.1,
  λ a n x. elim x [
    | inl y ↦ (inl y, Holds-Apart b bs' a n m size p' g.0 y.0 (omega (arith, y.1, i.1)) g.1)
    | inr y ↦ (inr ((g.2 a n y).0), (g.2 a n y).1)
  ],
)

-- A piece taken from the first block.
pub Gives-first :
    (b : Block) (bs : List Block) (size m : ℕ)
    → IsBlock b
    → All (Apart b) bs
    → AreBlocks bs
    → b.last ≤ m
    → m + size ≤ b.end
    → Gives (b ∷ bs) size m ((record b { last = m + size }) ∷ bs)
Gives-first b bs size m i p w h e = (
  ((omega (arith, i.0), e, i.2, i.3, i.4), p, w),
  inl (omega (arith, i.0), omega arith),
  λ a n x. elim x [
    | inl y ↦ (inl (y.0, omega (arith, y.1)), inl (omega (arith, y.1)))
    | inr y ↦
        (inr y, Disjoint-sym m size a n (Holds-Apart b bs m size a n p w (omega (arith, i.0)) e y))
  ],
)

unfoldable pub IfGiven : List Block → ℕ → Option (ℕ × List Block) → Type 0
IfGiven bs size none = Unit
IfGiven bs size (some (m, bs')) = Same bs bs' × Gives bs size m bs'

abbrev pub place : Bool → Block → ℕ
place align b = if align then align_ptr b.last alignment else b.last

place_lem :
    (align : Bool) (b : Block) → IsBlock b → (b.last ≤ place align b) × (place align b ≤ b.end)
place_lem true b i = (omega arith, align_ptr_end b.last b.end i.1 i.4)
place_lem false b i = (omega arith, i.1)

by_later :
    (b : Block) (bs : List Block) (size : ℕ) (o : Option (ℕ × List Block))
    → IsBlock b
    → All (Apart b) bs
    → IfGiven bs size o
    → IfGiven (b ∷ bs) size (elim o [ none ↦ none | some (n, rest) ↦ some (n, b ∷ rest) ])
unfolding IfGiven
by_later b bs size none i p g = tt
by_later b bs size (some (n, rest)) i p g =
    ((refl, refl, g.0), Gives-cons b bs size n rest i (Same-All b bs rest p g.0) g.1)

pub small_loop-IfGiven :
    (size : ℕ) (align : Bool) (bs : List Block)
    → AreBlocks bs
    → IfGiven bs size (small_loop size align bs)
unfolding IfGiven small_loop
small_loop-IfGiven size align [] w = tt
small_loop-IfGiven size align (b ∷ bs) w =
    let m = place align b in
    let l = place_lem align b w.0 in
    let r = room_lem b.end m l.1 w.0.2 in
    elim (Bool-cases (leb size (room b.end m))) [
      | inl e ↦ rw e (
        (refl, refl, Same-refl bs),
        Gives-first b bs size m w.0 w.1 w.2 l.0
            (omega (arith, l.1, r, leb→le size (room b.end m) e)),
      )
      | inr e ↦ rw e (
          by_later b bs size (small_loop size align bs) w.0 w.1
            (small_loop-IfGiven size align bs w.2))
    ]

-- The blocks before `current` are passed over.
pub from_current :
    (cur : ℕ) (bs : List Block) (size m : ℕ) (rest : List Block)
    → AreBlocks bs
    → IfGiven (drop cur bs) size (some (m, rest))
    → IfGiven bs size (some (m, take cur bs ++ rest))
unfolding IfGiven
from_current zero bs size m rest w g = g
from_current (suc cur) [] size m rest w g = g
from_current (suc cur) (b ∷ bs) size m rest w g =
    let h = from_current cur bs size m rest w.2 g in
    (
      (refl, refl, h.0),
      Gives-cons b bs size m (take cur bs ++ rest) w.0 (Same-All b bs _ w.1 h.0) h.1,
    )
