-- ===== src/Htb/Count.antt =====
-- `count` is the number of elements, and each of them is referred to.
use hcore.Base.{
  ℕ, zero, suc, ◌+◌, ◌-◌, ◌%◌, ◌^◌, ◌<◌, ◌≤◌, ◌≡◌, ◌≢◌, refl, sym, ap, ◌∙◌, Bool, true, false, ◌==◌,
  if◌then◌else◌, arith, Bool-cases, inl, inr,
}
use hcore.Htb.{
  Status, empty, exist, delete, Err, Slot, Table, put_slot, is_exist, insert_at_slot,
  remove_at_slot,
}

pub same_index : (i : ℕ) → (i == i) ≡ true
same_index i = ground arith

pub other_index : (i j : ℕ) → i ≢ j → (i == j) ≡ false
other_index i j h = ground arith

pub test_eq : (i j : ℕ) → (i == j) ≡ true → i ≡ j
test_eq i j e = ground arith

test_ne : (i j : ℕ) → (i == j) ≡ false → i ≢ j
test_ne i j e h = ground arith

module _ {A : Type 0} where
  abbrev pub weight : Slot A → ℕ
  weight s = if is_exist s then 1 else 0

  -- The elements among the first `n` slots.
  abbrev pub elements : (ℕ → Slot A) → ℕ → ℕ
  elements slots zero = 0
  elements slots (suc n) = elements slots n + weight (slots n)

  -- An element has a reference.
  abbrev pub IsReferred : Slot A → Type 0
  IsReferred s = is_exist s ≡ true → (1 ≤ s.ref) × (s.ref < 2 ^ 32)

  pub record IsTable (tb : Table A) : Type 0 where
    pub counted : tb.count ≡ elements tb.slots tb.size
    pub sized : (1 ≤ tb.size) × (tb.size < 2 ^ 32)
    pub referred : (i : ℕ) → i < tb.size → IsReferred (tb.slots i)

  put_slot_self : (slots : ℕ → Slot A) (i : ℕ) (s : Slot A) → put_slot slots i s i ≡ s
  put_slot_self slots i s = rw (same_index i)

  put_slot_other :
      (slots : ℕ → Slot A) (i j : ℕ) (s : Slot A) → i ≢ j → put_slot slots i s j ≡ slots j
  put_slot_other slots i j s h = rw (other_index i j h)

  elements-put_out :
      (slots : ℕ → Slot A) (n i : ℕ) (s : Slot A)
      → n ≤ i
      → elements (put_slot slots i s) n ≡ elements slots n
  elements-put_out slots zero i s h = refl
  elements-put_out slots (suc n) i s h = rw (
    put_slot_other slots i n s (λ e. absurd (omega arith)),
    elements-put_out slots n i s (omega arith),
  )

  elements-put_in :
      (slots : ℕ → Slot A) (n i : ℕ) (s : Slot A)
      → i < n
      → elements (put_slot slots i s) n + weight (slots i) ≡ elements slots n + weight s
  elements-put_in slots zero i s h = absurd (omega arith)
  elements-put_in slots (suc n) i s h = elim (Bool-cases (i == n)) [
    | inl e ↦
        let q : i ≡ n = test_eq i n e in
        let a : weight (put_slot slots i s n) ≡ weight s =
          ap weight (ap (put_slot slots i s) (sym q) ∙ put_slot_self slots i s) in
        let b : weight (slots i) ≡ weight (slots n) = ap (λ j. weight (slots j)) q in
        omega (arith, a, b, elements-put_out slots n i s (omega arith))
    | inr e ↦
        let o = test_ne i n e in
        let a : weight (put_slot slots i s n) ≡ weight (slots n) =
          ap weight (put_slot_other slots i n s o) in
        omega (arith, a, elements-put_in slots n i s (omega (arith, o)))
  ]

  elements-le : (slots : ℕ → Slot A) (n : ℕ) → elements slots n ≤ n
  elements-le slots zero = omega arith
  elements-le slots (suc n) = ground (arith, elements-le slots n)

  elements-pos :
      (slots : ℕ → Slot A) (n i : ℕ) → i < n → weight (slots i) ≡ 1 → 1 ≤ elements slots n
  elements-pos slots zero i h w = absurd (omega arith)
  elements-pos slots (suc n) i h w = elim (Bool-cases (i == n)) [
    | inl e ↦
        let b : weight (slots i) ≡ weight (slots n) = ap (λ j. weight (slots j)) (test_eq i n e) in
        omega (arith, b, w)
    | inr e ↦ omega (arith, elements-pos slots n i (omega (arith, test_ne i n e)) w)
  ]

  -- A slot is written and the count follows.
  put-IsTable :
      (tb : Table A) (i count : ℕ) (s : Slot A)
      → IsTable tb
      → i < tb.size
      → count + weight (tb.slots i) ≡ tb.count + weight s
      → IsReferred s
      → IsTable (record tb { count = count; slots = put_slot tb.slots i s })
  put-IsTable tb i count s t h c r = record {
    counted = omega (arith, elements-put_in tb.slots tb.size i s h, t.counted, c);
    sized = t.sized;
    referred = λ j l. elim (Bool-cases (i == j)) [ inl e ↦ rw e r | inr e ↦ rw e (t.referred j l) ];
  }

  pub by_status :
      (tb : Table A) (x : A) (existed : Bool) (ret : Err) (i : ℕ) (status : Status)
      → (tb.slots i).status ≡ status
      → IsTable tb
      → i < tb.size
      → ((tb.slots i).status ≡ exist → (tb.slots i).ref + 1 < 2 ^ 32)
      → IsTable (insert_at_slot tb x existed ret i).1
  unfolding insert_at_slot
  by_status tb x existed ret i empty e t h r =
      let w : weight (tb.slots i) ≡ 0 = rw e in
      rw (e, insert_at_slot)
        (put-IsTable tb i (tb.count + 1) (record { status = exist; ref = 1; datum = x }) t h
          (omega (arith, w)) (λ u. (omega arith, omega arith)))
  by_status tb x existed ret i delete e t h r =
      let w : weight (tb.slots i) ≡ 0 = rw e in
      rw (e, insert_at_slot)
        (put-IsTable tb i (tb.count + 1) (record (tb.slots i) { status = exist; ref = 1 }) t h
          (omega (arith, w)) (λ u. (omega arith, omega arith)))
  by_status tb x true ret i exist e t h r = rw (e, insert_at_slot) t
  by_status tb x false ret i exist e t h r =
      let s : Slot A = record (tb.slots i) { ref = ((tb.slots i).ref + 1) % 2 ^ 32 } in
      rw (e, insert_at_slot)
        (put-IsTable tb i tb.count s t h refl (λ u. (omega arith, omega (arith, r e))))

  pub by_status_removed :
      (tb : Table A) (i : ℕ) (status : Status)
      → (tb.slots i).status ≡ status
      → IsTable tb
      → i < tb.size
      → IsTable (remove_at_slot tb i).1
  unfolding remove_at_slot
  by_status_removed tb i empty e t h = rw (e, remove_at_slot) t
  by_status_removed tb i delete e t h = rw (e, remove_at_slot) t
  by_status_removed tb i exist e t h =
      let s = tb.slots i in
      let ref' = (s.ref + (2 ^ 32 - 1)) % 2 ^ 32 in
      let w : weight s ≡ 1 = rw e in
      let r = t.referred i h (rw e) in
      let k : 1 ≤ elements tb.slots tb.size = elements-pos tb.slots tb.size i h w in
      elim (Bool-cases (ref' == 0)) [
        | inl d ↦
            rw (e, d, remove_at_slot)
              (put-IsTable tb i ((tb.count + (2 ^ 32 - 1)) % 2 ^ 32)
                (record s { status = delete; ref = ref' }) t h
                (omega (arith, w, k, t.counted, t.sized, elements-le tb.slots tb.size))
                (λ u. ground arith))
        | inr d ↦
            rw (e, d, remove_at_slot)
              (put-IsTable tb i tb.count (record s { ref = ref' }) t h refl
                (λ u. (omega (arith, r, test_ne ref' 0 d), omega arith)))
      ]
