-- ===== src/Htb/Probe.antt =====
-- The search for a slot, and what inserting and removing make of it.
use hcore.Base.{
  ℕ, zero, suc, ◌+◌, ◌-◌, ◌*◌, ◌%◌, ◌^◌, ◌<◌, ◌≤◌, ◌≡◌, ◌≢◌, refl, ap, Bool, true, false, Option,
  none, some, leb, ◌==◌, if◌then◌else◌, arith, Bool-cases, Option-cases, inl, inr, leb_false→lt,
}
use mathlib.Core.Path.{subst}
use hcore.Htb.{
  exist, Err, success, elem_exist, Slot, Table, put_slot, is_exist, warning, insert_at_slot,
  find_pos, htb_insert, htb_remove, probe_loop,
}
use hcore.Htb.Count.{IsTable, by_status, by_status_removed, other_index, test_eq}

-- What inserting makes of a slot that holds an element.
insert_at_exist :
    {A : Type 0} (tb : Table A) (x : A) (existed : Bool) (i : ℕ) (ret : Err)
    → (tb.slots i).status ≡ exist
    → insert_at_slot tb x existed ret i ≡ (
        if existed then (elem_exist, tb) else (
          success,
          record tb {
            slots =
                put_slot tb.slots i (record (tb.slots i) { ref = ((tb.slots i).ref + 1) % 2 ^ 32 });
          },
        ))
unfolding insert_at_slot
insert_at_exist tb x existed i ret e = rw (e, insert_at_slot, e)

-- Only a count of references changes.
put_ref :
    {A : Type 0} (slots : ℕ → Slot A) (i ref j : ℕ)
    → ((put_slot slots i (record (slots i) { ref = ref }) j).datum ≡ (slots j).datum)
      × ((put_slot slots i (record (slots i) { ref = ref }) j).status ≡ (slots j).status)
put_ref slots i ref j = elim (Bool-cases (i == j)) [
  | inl e ↦ rw (e, test_eq i j e) (refl, refl)
  | inr e ↦ rw e (refl, refl)
]

module _ {A : Type 0} (same : A → A → Bool) (get_hash : A → ℕ) where
  IfIn : ℕ → Option ℕ → Type 0
  IfIn size none = Unit
  IfIn size (some i) = i < size

  -- The next index, brought back into the table.
  next_index : (size n : ℕ) → 1 ≤ size → (if leb size n then n % size else n) < size
  next_index size n h = elim (Bool-cases (leb size n)) [
    | inl e ↦ rw e (omega arith)
    | inr e ↦ rw e (leb_false→lt size n e)
  ]

  probe_loop-IfIn :
      (fuel : ℕ) (tb : Table A) (x : A) (index collision_num : ℕ)
      → 1 ≤ tb.size
      → index < tb.size
      → IfIn tb.size (probe_loop same get_hash fuel tb x index collision_num)
  unfolding probe_loop IfIn
  probe_loop-IfIn zero tb x index c s h = tt
  probe_loop-IfIn (suc fuel) tb x index c s h = elim (Bool-cases (is_exist (tb.slots index))) [
    | inl e ↦ rw e h
    | inr e ↦ elim (Bool-cases (same (tb.slots index).datum x)) [
      | inl d ↦ rw (e, d) h
      | inr d ↦
          let n = (index + (c + 1) * 2 - 1) % 2 ^ 32 in
          rw (e, d)
            (probe_loop-IfIn fuel tb x (if leb tb.size n then n % tb.size else n) (c + 1) s
              (next_index tb.size n s))
    ]
  ]

  find_pos-lt :
      (fuel : ℕ) (tb : Table A) (x : A) (i : ℕ)
      → 1 ≤ tb.size
      → find_pos same get_hash fuel tb x ≡ some i
      → i < tb.size
  unfolding find_pos IfIn
  find_pos-lt fuel tb x i s e =
      subst (IfIn tb.size) e (probe_loop-IfIn fuel tb x (get_hash x % tb.size) 0 s (omega arith))

  -- No slot holds an element and no slot's memory compares equal.
  abbrev pub HasNone : Table A → A → Type 0
  HasNone tb x =
      (i : ℕ) → i < tb.size → (is_exist (tb.slots i) ≡ false) × (same (tb.slots i).datum x ≡ false)

  probe_loop-spins :
      (fuel : ℕ) (tb : Table A) (x : A) (index collision_num : ℕ)
      → 1 ≤ tb.size
      → HasNone tb x
      → index < tb.size
      → probe_loop same get_hash fuel tb x index collision_num ≡ none
  unfolding probe_loop
  probe_loop-spins zero tb x index c s h l = refl
  probe_loop-spins (suc fuel) tb x index c s h l =
      let n = (index + (c + 1) * 2 - 1) % 2 ^ 32 in
      rw ((h index l).0, (h index l).1)
        (probe_loop-spins fuel tb x (if leb tb.size n then n % tb.size else n) (c + 1) s h
          (next_index tb.size n s))

  -- In a table that is not full, of which no slot holds an element and no slot's memory compares equal
  -- to the datum, the loop of hcore_htb_find_pos never ends: with no number of rounds do hcore_htb_insert
  -- and hcore_htb_remove return.
  pub htb_insert-spins :
      (fuel : ℕ) (tb : Table A) (x : A) (existed : Bool)
      → 1 ≤ tb.size
      → tb.count ≢ tb.size
      → HasNone tb x
      → (htb_insert same get_hash fuel tb x existed ≡ none)
        × (htb_remove same get_hash fuel tb x ≡ none)
  unfolding htb_insert htb_remove find_pos
  htb_insert-spins fuel tb x existed s c h =
      let e = probe_loop-spins fuel tb x (get_hash x % tb.size) 0 s h (omega arith) in
      (rw (other_index tb.count tb.size c, e, htb_insert), rw (e, htb_remove))

  find_pos-home :
      (fuel : ℕ) (tb : Table A) (x : A)
      → (tb.slots (get_hash x % tb.size)).status ≡ exist
      → find_pos same get_hash (suc fuel) tb x ≡ some (get_hash x % tb.size)
  unfolding find_pos probe_loop
  find_pos-home fuel tb x e = rw e

  -- If the slot that the hash of a datum leads to holds an element, whatever its datum is, then in a
  -- table that is not full one round is enough for hcore_htb_find_pos to return that slot: hcore_htb_insert
  -- with `existed` reports that the datum exists, and without leaves every slot's datum and status and the
  -- count as they are and returns success.
  pub htb_insert-home :
      (fuel : ℕ) (tb : Table A) (x : A)
      → tb.count ≢ tb.size
      → (tb.slots (get_hash x % tb.size)).status ≡ exist
      → (find_pos same get_hash (suc fuel) tb x ≡ some (get_hash x % tb.size))
        × (htb_insert same get_hash (suc fuel) tb x true ≡ some (elem_exist, tb))
        × ((tb' : Table A) × (htb_insert same get_hash (suc fuel) tb x false ≡ some (success, tb'))
            × (tb'.count ≡ tb.count)
            × ((i : ℕ)
                → ((tb'.slots i).datum ≡ (tb.slots i).datum)
                  × ((tb'.slots i).status ≡ (tb.slots i).status)))
  unfolding htb_insert
  htb_insert-home fuel tb x c e =
      let i = get_hash x % tb.size in
      let s = tb.slots i in
      let p : find_pos same get_hash (suc fuel) tb x ≡ some i = find_pos-home fuel tb x e in
      let slots' = put_slot tb.slots i (record s { ref = (s.ref + 1) % 2 ^ 32 }) in
      let f = other_index tb.count tb.size c in
      (
        p,
        rw (f, p, htb_insert) (ap some (insert_at_exist tb x true i (warning tb) e)),
        (
          record tb { slots = slots' },
          rw (f, p, htb_insert) (ap some (insert_at_exist tb x false i (warning tb) e)),
          refl,
          λ j. (put_ref tb.slots i ((s.ref + 1) % 2 ^ 32) j),
        ),
      )

  -- The table that a call leaves, if it returns.
  abbrev pub Keeps : Option (Err × Table A) → Type 0
  Keeps none = Unit
  Keeps (some (err, tb)) = IsTable tb

  htb_insert-Keeps :
      (fuel : ℕ) (tb : Table A) (x : A) (existed : Bool)
      → IsTable tb
      → ((i : ℕ) → i < tb.size → (tb.slots i).status ≡ exist → (tb.slots i).ref + 1 < 2 ^ 32)
      → Keeps (htb_insert same get_hash fuel tb x existed)
  unfolding htb_insert
  htb_insert-Keeps fuel tb x existed t r = elim (Bool-cases (tb.count == tb.size)) [
    | inl e ↦ rw (e, htb_insert) t
    | inr e ↦ elim (Option-cases (find_pos same get_hash fuel tb x)) [
      | inl p ↦ rw (e, p, htb_insert) tt
      | inr (i, p) ↦
          let l = find_pos-lt fuel tb x i t.sized.0 p in
          rw (e, p, htb_insert)
            (by_status tb x existed (warning tb) i (tb.slots i).status refl t l (r i l))
    ]
  ]

  htb_remove-Keeps :
      (fuel : ℕ) (tb : Table A) (x : A) → IsTable tb → Keeps (htb_remove same get_hash fuel tb x)
  unfolding htb_remove
  htb_remove-Keeps fuel tb x t = elim (Option-cases (find_pos same get_hash fuel tb x)) [
    | inl p ↦ rw (p, htb_remove) tt
    | inr (i, p) ↦
        rw (p, htb_remove)
          (by_status_removed tb i (tb.slots i).status refl t (find_pos-lt fuel tb x i t.sized.0 p))
  ]

  -- A table whose count is the number of its elements, each with 1 to 2^32 - 2 references, and whose
  -- size is below 2^32 is left by hcore_htb_insert such a table but that an element may have 2^32 - 1
  -- references, and by hcore_htb_remove too; each where it returns, with any number of rounds.
  pub htb_insert-IsTable :
      (fuel : ℕ) (tb : Table A) (x : A) (existed : Bool)
      → IsTable tb
      → ((i : ℕ) → i < tb.size → (tb.slots i).status ≡ exist → (tb.slots i).ref + 1 < 2 ^ 32)
      → Keeps (htb_insert same get_hash fuel tb x existed)
        × Keeps (htb_remove same get_hash fuel tb x)
  htb_insert-IsTable fuel tb x existed t r =
      (htb_insert-Keeps fuel tb x existed t r, htb_remove-Keeps fuel tb x t)
