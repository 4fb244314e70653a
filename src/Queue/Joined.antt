-- ===== src/Queue/Joined.antt =====
-- Runs of a queue that are joined in both directions, and the names of their links.
use hcore.Base.{ℕ, ◌≡◌, ◌≢◌, refl, ◌∙◌, List, [], ◌∷◌, ◌++◌, All, All-split, sym}
use hcore.Queue.{Heap}
use hcore.Queue.Links.{Links, Fresh, Distinct}
use hcore.Queue.Sort.Insert.{last_of}

-- From `a` the links lead over `xs`, and back.
abbrev pub Joined : Heap → ℕ → List ℕ → Type 0
Joined s a [] = Unit {0}
Joined s a (x ∷ xs) = (s.next a ≡ x) × (s.prev x ≡ a) × Joined s x xs

-- All addresses of a run but the last.
abbrev pub but_last : ℕ → List ℕ → List ℕ
but_last a [] = []
but_last a (x ∷ xs) = a ∷ but_last x xs

pub Joined-of_Links :
    (s : Heap) (a : ℕ) (xs : List ℕ) (b : ℕ)
    → Links s a xs b
    → Joined s a xs × (s.next (last_of a xs) ≡ b) × (s.prev b ≡ last_of a xs)
Joined-of_Links s a [] b l = (tt, l.0, l.1)
Joined-of_Links s a (x ∷ xs) b l =
    let (j, n, p) = Joined-of_Links s x xs b l.2 in ((l.0, l.1, j), n, p)

pub Links-of_Joined :
    (s : Heap) (a : ℕ) (xs : List ℕ) (b : ℕ)
    → Joined s a xs
    → s.next (last_of a xs) ≡ b
    → s.prev b ≡ last_of a xs
    → Links s a xs b
Links-of_Joined s a [] b j n p = (n, p)
Links-of_Joined s a (x ∷ xs) b j n p = (j.0, j.1, Links-of_Joined s x xs b j.2 n p)

pub Links-of_parts :
    (s : Heap) (a : ℕ) (xs : List ℕ) (y : ℕ) (ys : List ℕ) (b : ℕ)
    → Joined s a xs
    → s.next (last_of a xs) ≡ y
    → s.prev y ≡ last_of a xs
    → Links s y ys b
    → Links s a (xs ++ y ∷ ys) b
Links-of_parts s a [] y ys b j n p l = (n, p, l)
Links-of_parts s a (x ∷ xs) y ys b j n p l = (j.0, j.1, Links-of_parts s x xs y ys b j.2 n p l)

pub Joined-frame :
    (s s' : Heap) (a : ℕ) (xs : List ℕ)
    → All (λ z. s'.next z ≡ s.next z) (but_last a xs)
    → All (λ z. s'.prev z ≡ s.prev z) xs
    → Joined s a xs
    → Joined s' a xs
Joined-frame s s' a [] n p j = tt
Joined-frame s s' a (x ∷ xs) n p j = (n.0 ∙ j.0, p.0 ∙ j.1, Joined-frame s s' x xs n.1 p.1 j.2)

pub All-but_last : (P : ℕ → Type 0) (a : ℕ) (xs : List ℕ) → All P (a ∷ xs) → All P (but_last a xs)
All-but_last P a [] h = tt
All-but_last P a (x ∷ xs) h = (h.0, All-but_last P x xs h.1)

pub All-last_of : (P : ℕ → Type 0) (a : ℕ) (xs : List ℕ) → All P (a ∷ xs) → P (last_of a xs)
All-last_of P a [] h = h.0
All-last_of P a (x ∷ xs) h = All-last_of P x xs h.1

-- No address stands where the last one is.
pub Fresh-last_of : (a : ℕ) (xs : List ℕ) → Distinct (a ∷ xs) → Fresh (last_of a xs) (but_last a xs)
Fresh-last_of a [] d = tt
Fresh-last_of a (x ∷ xs) d =
    (All-last_of (λ z. a ≢ z) x xs (flip_all (x ∷ xs) d.0), Fresh-last_of x xs d.1)
  where
    flip_all : (zs : List ℕ) → Fresh a zs → All (λ z. a ≢ z) zs
    flip_all [] f = tt
    flip_all (z ∷ zs) f = ((λ e. f.0 (sym e)), flip_all zs f.1)

pub All-both :
    (P Q R : ℕ → Type 0) (xs : List ℕ)
    → ((z : ℕ) → P z → Q z → R z)
    → All P xs
    → All Q xs
    → All R xs
All-both P Q R [] f p q = tt
All-both P Q R (x ∷ xs) f p q = (f x p.0 q.0, All-both P Q R xs f p.1 q.1)

pub All-three :
    (P Q R T : ℕ → Type 0) (xs : List ℕ)
    → ((z : ℕ) → P z → Q z → R z → T z)
    → All P xs
    → All Q xs
    → All R xs
    → All T xs
All-three P Q R T [] f p q r = tt
All-three P Q R T (x ∷ xs) f p q r = (f x p.0 q.0 r.0, All-three P Q R T xs f p.1 q.1 r.1)

pub Distinct-split :
    (xs ys : List ℕ) → Distinct (xs ++ ys) → Distinct xs × Distinct ys × All (λ x. Fresh x ys) xs
Distinct-split [] ys d = (refl, d, tt)
Distinct-split (x ∷ xs) ys d =
    let f = All-split (λ y. y ≢ x) xs ys d.0 in
    let r = Distinct-split xs ys d.1 in ((f.0, r.0), r.1, (f.1, r.2))

pub All-imp : (P R : ℕ → Type 0) (xs : List ℕ) → ((z : ℕ) → P z → R z) → All P xs → All R xs
All-imp P R [] f p = tt
All-imp P R (x ∷ xs) f p = (f x p.0, All-imp P R xs f p.1)

-- The last of one run is none of another.
pub last_apart :
    (xs : List ℕ) (y : ℕ) (ys : List ℕ) → All (λ x. Fresh x (y ∷ ys)) xs → Fresh (last_of y ys) xs
last_apart xs y ys a =
    All-imp (λ x. Fresh x (y ∷ ys)) (λ x. x ≢ last_of y ys) xs
      (λ x f e. All-last_of (λ z. z ≢ x) y ys f (sym e)) a
