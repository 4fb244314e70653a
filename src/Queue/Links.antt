-- ===== src/Queue/Links.antt =====
-- The queue's operations are those of the sequence of its elements.
use mathlib.Core.Path.{subst}
use hcore.Base.{ℕ, zero, ◌≡◌, ◌≢◌, refl, List, [], ◌∷◌, ◌++◌, All, arith, sym}
use hcore.Queue.{Heap, queue_init, insert_head, insert_tail, remove}

-- From `a` the links lead over `xs` to `b`, and back.
abbrev pub Links : Heap → ℕ → List ℕ → ℕ → Type 0
Links s a [] b = (s.next a ≡ b) × (s.prev b ≡ a)
Links s a (x ∷ xs) b = (s.next a ≡ x) × (s.prev x ≡ a) × Links s x xs b

abbrev pub Fresh : ℕ → List ℕ → Type 0
Fresh p xs = All (λ y. y ≢ p) xs

abbrev pub Distinct : List ℕ → Type 0
Distinct [] = 0 ≡ zero
Distinct (x ∷ xs) = Fresh x xs × Distinct xs

-- The sentinel `h` and the elements, in order, are linked in a ring.
abbrev pub IsQueue : Heap → ℕ → List ℕ → Type 0
IsQueue s h xs = Links s h xs h × Fresh h xs × Distinct xs

-- A new queue has no element, and says so.
pub queue_init-IsQueue : (s : Heap) (h : ℕ) → IsQueue (queue_init s h) h []
unfolding queue_init
queue_init-IsQueue s h = ((ground arith, ground arith), tt, refl)

-- A run of links does not change with links of other addresses.
pub Links-frame :
    (s s' : Heap) (a : ℕ) (xs : List ℕ) (b : ℕ)
    → All (λ y. s'.next y ≡ s.next y) (a ∷ xs)
    → All (λ y. s'.prev y ≡ s.prev y) (xs ++ b ∷ [])
    → Links s a xs b
    → Links s' a xs b
Links-frame s s' a [] b n p l = ground (arith, n.0, p.0, l.0, l.1)
Links-frame s s' a (x ∷ xs) b n p l =
    (ground (arith, n.0, l.0), ground (arith, p.0, l.1), Links-frame s s' x xs b n.1 p.1 l.2)

pub All-snoc : (P : ℕ → Type 0) (xs : List ℕ) (b : ℕ) → All P xs → P b → All P (xs ++ b ∷ [])
All-snoc P [] b h p = (p, tt)
All-snoc P (x ∷ xs) b h p = (h.0, All-snoc P xs b h.1 p)

-- Where insert_head and insert_tail change no link.
pub insert_head-next :
    (s : Heap) (h x : ℕ) (zs : List ℕ)
    → Fresh h zs
    → Fresh x zs
    → All (λ z. (insert_head s h x).next z ≡ s.next z) zs
unfolding insert_head
insert_head-next s h x [] f g = tt
insert_head-next s h x (z ∷ zs) f g = (ground (arith, f.0, g.0), insert_head-next s h x zs f.1 g.1)

pub insert_head-prev :
    (s : Heap) (h x : ℕ) (zs : List ℕ)
    → Fresh (s.next h) zs
    → Fresh x zs
    → All (λ z. (insert_head s h x).prev z ≡ s.prev z) zs
unfolding insert_head
insert_head-prev s h x [] f g = tt
insert_head-prev s h x (z ∷ zs) f g = (ground (arith, f.0, g.0), insert_head-prev s h x zs f.1 g.1)

-- What is put in behind the sentinel is the first element.
pub insert_head-IsQueue :
    (s : Heap) (h x : ℕ) (xs : List ℕ)
    → IsQueue s h xs
    → x ≢ h
    → Fresh x xs
    → IsQueue (insert_head s h x) h (x ∷ xs)
unfolding insert_head
insert_head-IsQueue s h x [] (l, f, d) ne fresh =
    ((ground arith, ground arith, (ground (arith, l.0), ground (arith, l.0))), (ne, tt), (tt, refl))
insert_head-IsQueue s h x (y ∷ ys) (l, f, d) ne fresh =
    let first : s.next h ≡ y = l.0 in
    let apart : Fresh (s.next h) ys = rw first d.0 in
    let away : h ≢ s.next h = ground (arith, f.0) in
    let away_x : h ≢ x = ground (arith, ne) in
    (
      (
        ground arith,
        ground arith,
        (
          ground (arith, l.0),
          ground (arith, l.0, fresh.0),
          Links-frame s (insert_head s h x) y ys h (insert_head-next s h x (y ∷ ys) f fresh)
              (insert_head-prev s h x (ys ++ h ∷ []) (All-snoc _ ys h apart away)
                (All-snoc _ ys h fresh.1 away_x))
              l.2,
        ),
      ),
      (ne, f),
      (fresh, d),
    )

-- The link back from the end of a run leads to one of its addresses, that ahead from its start too.
prev-All :
    (P : ℕ → Type 0) (s : Heap) (a : ℕ) (xs : List ℕ) (b : ℕ)
    → Links s a xs b
    → All P (a ∷ xs)
    → P (s.prev b)
prev-All P s a [] b l h = rw l.1 h.0
prev-All P s a (x ∷ xs) b l h = prev-All P s x xs b l.2 h.1

pub next-All :
    (P : ℕ → Type 0) (s : Heap) (a : ℕ) (xs : List ℕ) (b : ℕ)
    → Links s a xs b
    → All P (xs ++ b ∷ [])
    → P (s.next a)
next-All P s a [] b l h = rw l.0 h.0
next-All P s a (x ∷ xs) b l h = rw l.0 h.0

tail-Links :
    (s : Heap) (h x a : ℕ) (xs : List ℕ)
    → Links s a xs h
    → Distinct (a ∷ xs)
    → Fresh h xs
    → Fresh x (a ∷ xs)
    → x ≢ h
    → Links (insert_tail s h x) a (xs ++ x ∷ []) h
unfolding insert_tail
tail-Links s h x a [] l d f fresh ne =
    (ground (arith, l.0, l.1), ground (arith, l.1), (ground (arith, l.1, fresh.0), ground arith))
tail-Links s h x a (z ∷ zs) l d f fresh ne =
    let back : s.prev h ≢ a = prev-All (λ y. y ≢ a) s z zs h l.2 d.0 in
    (
      ground (arith, l.0, back, fresh.0),
      ground (arith, l.1, f.0, fresh.1.0),
      tail-Links s h x z zs l.2 d.1 f.1 fresh.1 ne,
    )

Distinct-snoc : (xs : List ℕ) (x : ℕ) → Distinct xs → Fresh x xs → Distinct (xs ++ x ∷ [])
Distinct-snoc [] x d f = (tt, refl)
Distinct-snoc (y ∷ ys) x d f =
    (All-snoc (λ z. z ≢ y) ys x d.0 (λ e. f.0 (sym e)), Distinct-snoc ys x d.1 f.1)

-- In a ring of distinct addresses `h` and `xs`, and for a new address `x`: what insert_head puts in is
-- the first element and what insert_tail puts in the last, the others stay, in their order, and the
-- links are a ring of distinct addresses again.
pub insert-IsQueue :
    (s : Heap) (h x : ℕ) (xs : List ℕ)
    → IsQueue s h xs
    → x ≢ h
    → Fresh x xs
    → IsQueue (insert_head s h x) h (x ∷ xs) × IsQueue (insert_tail s h x) h (xs ++ x ∷ [])
insert-IsQueue s h x xs q ne fresh =
    let (l, f, d) = q in
    (
      insert_head-IsQueue s h x xs q ne fresh,
      (
        tail-Links s h x h xs l (f, d) f ((λ e. ne (sym e)), fresh) ne,
        All-snoc (λ y. y ≢ h) xs x f ne,
        Distinct-snoc xs x d fresh,
      ),
    )

-- The addresses of `xs` are apart from one another, from `ys` and from `c`.
Apart : ℕ → List ℕ → List ℕ → ℕ → Type 0
Apart a [] ys c = Fresh a ys
Apart a (z ∷ zs) ys c = Fresh a (z ∷ zs) × Fresh z (ys ++ c ∷ []) × Apart z zs ys c

remove-next :
    (s : Heap) (x : ℕ) (zs : List ℕ)
    → Fresh (s.prev x) zs
    → All (λ z. (remove s x).next z ≡ s.next z) zs
unfolding remove
remove-next s x [] f = tt
remove-next s x (z ∷ zs) f = (ground (arith, f.0), remove-next s x zs f.1)

remove-prev :
    (s : Heap) (x : ℕ) (zs : List ℕ)
    → Fresh (s.next x) zs
    → All (λ z. (remove s x).prev z ≡ s.prev z) zs
unfolding remove
remove-prev s x [] f = tt
remove-prev s x (z ∷ zs) f = (ground (arith, f.0), remove-prev s x zs f.1)

remove-Links :
    (s : Heap) (a : ℕ) (xs : List ℕ) (x : ℕ) (ys : List ℕ) (c : ℕ)
    → Links s a xs x
    → Links s x ys c
    → Apart a xs ys c
    → Distinct ys
    → Fresh c ys
    → Links (remove s x) a (xs ++ ys) c
unfolding remove Apart
remove-Links s a [] x [] c l k ap d f =
    (ground (arith, l.0, l.1, k.0, k.1), ground (arith, l.1, k.0, k.1))
remove-Links s a [] x (y ∷ ys) c l k ap d f =
    let behind : Fresh (s.prev x) (y ∷ ys) = subst (λ v. Fresh v (y ∷ ys)) (sym l.1) ap in
    let ahead : Fresh (s.next x) (ys ++ c ∷ []) =
      subst (λ v. Fresh v (ys ++ c ∷ [])) (sym k.0)
        (All-snoc (λ z. z ≢ y) ys c d.0 (λ e. f.0 (sym e))) in
    (
      ground (arith, l.1, k.0),
      ground (arith, l.1, k.0),
      Links-frame s (remove s x) y ys c (remove-next s x (y ∷ ys) behind)
          (remove-prev s x (ys ++ c ∷ []) ahead) k.2,
    )
remove-Links s a (z ∷ zs) x ys c l k ap d f =
    let back : s.prev x ≢ a = prev-All (λ y. y ≢ a) s z zs x l.2 ap.0 in
    let ahead : s.next x ≢ z = next-All (λ y. y ≢ z) s x ys c k ap.1 in
    (
      ground (arith, l.0, back),
      ground (arith, l.1, ahead),
      remove-Links s z zs x ys c l.2 k ap.2 d f,
    )

pub Links-split :
    (s : Heap) (a : ℕ) (xs : List ℕ) (x : ℕ) (ys : List ℕ) (b : ℕ)
    → Links s a (xs ++ x ∷ ys) b
    → Links s a xs x × Links s x ys b
Links-split s a [] x ys b l = ((l.0, l.1), l.2)
Links-split s a (z ∷ zs) x ys b l =
    let (left, right) = Links-split s z zs x ys b l.2 in ((l.0, l.1, left), right)

-- What holds of all the addresses holds of those beside `x`.
pub All-beside :
    (P : ℕ → Type 0) (xs : List ℕ) (x : ℕ) (ys : List ℕ)
    → All P (xs ++ x ∷ ys)
    → All P xs × All P ys × All P (xs ++ ys)
All-beside P [] x ys h = (tt, h.1, h.1)
All-beside P (z ∷ zs) x ys h =
    let (left, right, both) = All-beside P zs x ys h.1 in ((h.0, left), right, (h.0, both))

Distinct-beside :
    (xs : List ℕ) (x : ℕ) (ys : List ℕ)
    → Distinct (xs ++ x ∷ ys)
    → Distinct ys × Distinct (xs ++ ys)
Distinct-beside [] x ys d = (d.1, d.1)
Distinct-beside (z ∷ zs) x ys d =
    let (right, both) = Distinct-beside zs x ys d.1 in
    (right, ((All-beside (λ y. y ≢ z) zs x ys d.0).2, both))

Apart-ring :
    (h a : ℕ) (xs : List ℕ) (x : ℕ) (ys : List ℕ)
    → Fresh a (xs ++ x ∷ ys)
    → Distinct (xs ++ x ∷ ys)
    → Fresh h (xs ++ x ∷ ys)
    → Apart a xs ys h
unfolding Apart
Apart-ring h a [] x ys apart d f = apart.1
Apart-ring h a (z ∷ zs) x ys apart d f =
    let (left, right, both) = All-beside (λ y. y ≢ z) zs x ys d.0 in
    (
      (apart.0, (All-beside (λ y. y ≢ a) zs x ys apart.1).0),
      All-snoc (λ y. y ≢ z) ys h right (λ e. f.0 (sym e)),
      Apart-ring h z zs x ys d.0 d.1 f.1,
    )

-- From a ring of distinct addresses, hcore_queue_remove takes out the one element that it is given:
-- the others stay in their order, and the links are a ring of distinct addresses again.
pub remove-IsQueue :
    (s : Heap) (h x : ℕ) (xs ys : List ℕ)
    → IsQueue s h (xs ++ x ∷ ys)
    → IsQueue (remove s x) h (xs ++ ys)
remove-IsQueue s h x xs ys (l, f, d) =
    let (left, right) = Links-split s h xs x ys h l in
    let (fresh_xs, fresh_ys, fresh) = All-beside (λ y. y ≢ h) xs x ys f in
    let (distinct_ys, distinct) = Distinct-beside xs x ys d in
    (
      remove-Links s h xs x ys h left right (Apart-ring h h xs x ys f d f) distinct_ys fresh_ys,
      fresh,
      distinct,
    )
