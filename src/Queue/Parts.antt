-- ===== src/Queue/Parts.antt =====
-- To join two queues and to split one.
use mathlib.Core.Path.{subst}
use mathlib.Core.List.{append-nil}
use hcore.Base.{ℕ, ◌≡◌, ◌≢◌, refl, List, [], ◌∷◌, ◌++◌, All-append, All-split, arith, sym}
use hcore.Queue.{Heap, queue_add, queue_split}
use hcore.Queue.Links.{Links-split, Links-frame, Fresh, Distinct, IsQueue}
use hcore.Queue.Sort.Insert.{last_of}
use hcore.Queue.Joined.{
  but_last, Joined-of_Links, Links-of_Joined, Links-of_parts, Joined-frame, All-but_last,
  All-last_of, Fresh-last_of, All-both, All-three, Distinct-split, All-imp, last_apart,
}

-- What hcore_queue_add writes: `l` and `m` are the last elements, `y` the first of the queue that is added.
module _ (s : Heap) (h n l m y : ℕ) (eh : s.prev h ≡ l) (en : s.next n ≡ y) (em : s.prev n ≡ m)
    (nl : n ≢ l) (nh : n ≢ h) where
  add-next : n ≢ y → (z : ℕ) → z ≢ l → z ≢ m → (queue_add s h n).next z ≡ s.next z
  unfolding queue_add
  add-next ny z a b = ground arith

  add-prev : n ≢ y → (z : ℕ) → z ≢ h → z ≢ y → (queue_add s h n).prev z ≡ s.prev z
  unfolding queue_add
  add-prev ny z a b = ground arith

  add-ends :
      n ≢ y
      → l ≢ m
      → h ≢ y
      → ((queue_add s h n).next l ≡ y)
        × ((queue_add s h n).next m ≡ h)
        × ((queue_add s h n).prev y ≡ l)
        × ((queue_add s h n).prev h ≡ m)
  unfolding queue_add
  add-ends ny a b = (ground arith, ground arith, ground arith, ground arith)

  add_none-next : y ≡ n → m ≡ n → s.next l ≡ h → (z : ℕ) → (queue_add s h n).next z ≡ s.next z
  unfolding queue_add
  add_none-next a b c z = ground arith

  add_none-prev :
      y ≡ n → m ≡ n → s.next l ≡ h → (z : ℕ) → z ≢ n → (queue_add s h n).prev z ≡ s.prev z
  unfolding queue_add
  add_none-prev a b c z d = ground arith

-- hcore_queue_add puts the elements of the second queue behind those of the first, in order, also
-- where the first or the second has none. No address stands twice, and the sentinels are two.
pub queue_add-IsQueue :
    (s : Heap) (h n : ℕ) (xs ys : List ℕ)
    → IsQueue s h xs
    → IsQueue s n ys
    → Distinct (h ∷ xs ++ ys)
    → Fresh n (h ∷ xs ++ ys)
    → IsQueue (queue_add s h n) h (xs ++ ys)
queue_add-IsQueue s h n xs [] (lh, fh, dh) (ln, fn, dn) d f =
    let (j, last, back) = Joined-of_Links s h xs h lh in
    let s' = queue_add s h n in
    let l = last_of h xs in
    let fx = All-split (λ z. z ≢ n) xs [] f.1 in
    let nl : n ≢ l = λ e. All-last_of (λ z. z ≢ n) h xs (f.0, fx.0) (sym e) in
    let nh : n ≢ h = λ e. f.0 (sym e) in
    let next = add_none-next s h n l n n back ln.0 ln.1 nl nh refl refl last in
    let prev = add_none-prev s h n l n n back ln.0 ln.1 nl nh refl refl last in
    subst (IsQueue s' h) (sym (append-nil xs)) (
      Links-frame s s' h xs h
          (All-imp (λ z. z ≢ n) (λ z. s'.next z ≡ s.next z) (h ∷ xs) (λ z e. next z) (f.0, fx.0))
          (All-imp (λ z. z ≢ n) (λ z. s'.prev z ≡ s.prev z) (xs ++ h ∷ []) prev
            (All-append (λ z. z ≢ n) xs (h ∷ []) fx.0 (f.0, tt)))
          lh,
      fh,
      dh,
    )
queue_add-IsQueue s h n xs (y ∷ ys) (lh, fh, dh) (ln, fn, dn) d f =
    let l = last_of h xs in
    let m = last_of y ys in
    let s' = queue_add s h n in
    let (jh, nl, pl) = Joined-of_Links s h xs h lh in
    let (jn, nm, pm) = Joined-of_Links s y ys n ln.2 in
    let (dl, dr, apart) = Distinct-split (h ∷ xs) (y ∷ ys) d in
    let fx = All-split (λ z. z ≢ n) xs (y ∷ ys) f.1 in
    let n_l : n ≢ l = λ e. All-last_of (λ z. z ≢ n) h xs (f.0, fx.0) (sym e) in
    let n_h : n ≢ h = λ e. f.0 (sym e) in
    let n_y : n ≢ y = λ e. fx.1.0 (sym e) in
    let far = All-last_of (λ x. Fresh x (y ∷ ys)) h xs apart in
    let next = add-next s h n l m y pl ln.0 pm n_l n_h n_y in
    let prev = add-prev s h n l m y pl ln.0 pm n_l n_h n_y in
    let ends =
      add-ends s h n l m y pl ln.0 pm n_l n_h n_y (λ e. All-last_of (λ z. z ≢ l) y ys far (sym e))
        (λ e. apart.0.0 (sym e)) in
    let next_same = λ (z : ℕ). s'.next z ≡ s.next z in
    let prev_same = λ (z : ℕ). s'.prev z ≡ s.prev z in
    let left =
      Joined-frame s s' h xs
        (All-both (λ z. z ≢ l) (λ z. z ≢ m) next_same (but_last h xs) next (Fresh-last_of h xs dl)
          (All-but_last (λ z. z ≢ m) h xs (last_apart (h ∷ xs) y ys apart)))
        (All-both (λ z. z ≢ h) (λ z. z ≢ y) prev_same xs prev dl.0
          (All-imp (λ x. Fresh x (y ∷ ys)) (λ x. x ≢ y) xs (λ x g e. g.0 (sym e)) apart.1))
        jh in
    let right =
      Joined-frame s s' y ys
        (All-both (λ z. z ≢ l) (λ z. z ≢ m) next_same (but_last y ys) next
          (All-but_last (λ z. z ≢ l) y ys far) (Fresh-last_of y ys dr))
        (All-both (λ z. z ≢ h) (λ z. z ≢ y) prev_same ys prev apart.0.1 dr.0) jn in
    (
      Links-of_parts s' h xs y ys h left ends.0 ends.2
          (Links-of_Joined s' y ys h right ends.1 ends.3),
      d.0,
      d.1,
    )

-- What hcore_queue_split writes: `l` is the element before `q`, `m` the last.
module _ (s : Heap) (h q n l m : ℕ) (eh : s.prev h ≡ m) (eq : s.prev q ≡ l) (nq : n ≢ q)
    (nh : n ≢ h) (nl : n ≢ l) (nm : n ≢ m) (hq : h ≢ q) (lm : l ≢ m) where
  split-next : (z : ℕ) → z ≢ l → z ≢ m → z ≢ n → (queue_split s h q n).next z ≡ s.next z
  unfolding queue_split
  split-next z a b c = ground arith

  split-prev : (z : ℕ) → z ≢ h → z ≢ q → z ≢ n → (queue_split s h q n).prev z ≡ s.prev z
  unfolding queue_split
  split-prev z a b c = ground arith

  split-ends :
      ((queue_split s h q n).next l ≡ h)
      × ((queue_split s h q n).prev h ≡ l)
      × ((queue_split s h q n).next n ≡ q)
      × ((queue_split s h q n).prev q ≡ n)
      × ((queue_split s h q n).next m ≡ n)
      × ((queue_split s h q n).prev n ≡ m)
  unfolding queue_split
  split-ends = (ground arith, ground arith, ground arith, ground arith, ground arith, ground arith)

-- hcore_queue_split leaves the elements before `q` in the first queue and makes the others, `q` the
-- first, the queue of the new sentinel.
pub queue_split-IsQueue :
    (s : Heap) (h n q : ℕ) (xs ys : List ℕ)
    → IsQueue s h (xs ++ q ∷ ys)
    → Fresh n (h ∷ xs ++ q ∷ ys)
    → IsQueue (queue_split s h q n) h xs × IsQueue (queue_split s h q n) n (q ∷ ys)
queue_split-IsQueue s h n q xs ys (lh, fh, dh) f =
    let l = last_of h xs in
    let m = last_of q ys in
    let s' = queue_split s h q n in
    let parts = Links-split s h xs q ys h lh in
    let (jl, nl, pl) = Joined-of_Links s h xs q parts.0 in
    let (jr, nm, pm) = Joined-of_Links s q ys h parts.1 in
    let (dl, dr, apart) = Distinct-split (h ∷ xs) (q ∷ ys) (fh, dh) in
    let fx = All-split (λ z. z ≢ n) xs (q ∷ ys) f.1 in
    let far = All-last_of (λ x. Fresh x (q ∷ ys)) h xs apart in
    let n_l : n ≢ l = λ e. All-last_of (λ z. z ≢ n) h xs (f.0, fx.0) (sym e) in
    let n_m : n ≢ m = λ e. All-last_of (λ z. z ≢ n) q ys fx.1 (sym e) in
    let n_h : n ≢ h = λ e. f.0 (sym e) in
    let n_q : n ≢ q = λ e. fx.1.0 (sym e) in
    let h_q : h ≢ q = λ e. apart.0.0 (sym e) in
    let l_m : l ≢ m = λ e. All-last_of (λ z. z ≢ l) q ys far (sym e) in
    let next = split-next s h q n l m pm pl n_q n_h n_l n_m h_q l_m in
    let prev = split-prev s h q n l m pm pl n_q n_h n_l n_m h_q l_m in
    let ends = split-ends s h q n l m pm pl n_q n_h n_l n_m h_q l_m in
    let next_same = λ (z : ℕ). s'.next z ≡ s.next z in
    let prev_same = λ (z : ℕ). s'.prev z ≡ s.prev z in
    let left =
      Joined-frame s s' h xs
        (All-three (λ z. z ≢ l) (λ z. z ≢ m) (λ z. z ≢ n) next_same (but_last h xs) next
          (Fresh-last_of h xs dl) (All-but_last (λ z. z ≢ m) h xs (last_apart (h ∷ xs) q ys apart))
          (All-but_last (λ z. z ≢ n) h xs (f.0, fx.0)))
        (All-three (λ z. z ≢ h) (λ z. z ≢ q) (λ z. z ≢ n) prev_same xs prev dl.0
          (All-imp (λ x. Fresh x (q ∷ ys)) (λ x. x ≢ q) xs (λ x g e. g.0 (sym e)) apart.1) fx.0)
        jl in
    let right =
      Joined-frame s s' q ys
        (All-three (λ z. z ≢ l) (λ z. z ≢ m) (λ z. z ≢ n) next_same (but_last q ys) next
          (All-but_last (λ z. z ≢ l) q ys far) (Fresh-last_of q ys dr)
          (All-but_last (λ z. z ≢ n) q ys fx.1))
        (All-three (λ z. z ≢ h) (λ z. z ≢ q) (λ z. z ≢ n) prev_same ys prev apart.0.1 dr.0 fx.1.1)
        jr in
    (
      (Links-of_Joined s' h xs h left ends.0 ends.1, dl.0, dl.1),
      ((ends.2, ends.3, Links-of_Joined s' q ys n right ends.4 ends.5), fx.1, dr),
    )
