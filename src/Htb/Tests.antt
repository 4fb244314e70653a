-- ===== src/Htb/Tests.antt =====
-- Tables of four slots whose data are numbers; the hash of a number is the number.
use hcore.Base.{ℕ, ◌≡◌, refl, Bool, true, false, none, some, arith, ◌==◌}
use hcore.Htb.{
  empty, exist, success, elem_exist, common, Table, htb_insert, htb_remove, find_pos, put_slot,
}
use hcore.Htb.Count.{IsTable}
use hcore.Htb.Probe.{Keeps, HasNone, htb_insert-spins, htb_insert-home, htb_insert-IsTable}

abbrev same_number : ℕ → ℕ → Bool
same_number a b = a == b

abbrev number_hash : ℕ → ℕ
number_hash n = n

-- Memory of zeros.
abbrev fresh_table : Table ℕ
fresh_table = record {
  resize = 0;
  type = common;
  size = 4;
  count = 0;
  slots = λ i. record { status = empty; ref = 0; datum = 0 };
}

-- The number 1 in its slot.
abbrev one_table : Table ℕ
one_table = record {
  resize = 0;
  type = common;
  size = 4;
  count = 1;
  slots = put_slot fresh_table.slots 1 (record { status = exist; ref = 1; datum = 1 });
}

fresh_table-HasNone : HasNone same_number number_hash fresh_table 7
fresh_table-HasNone i l = (refl, refl)

-- 1000 rounds, and no end.
htb_insert-spins_example :
    (htb_insert same_number number_hash 1000 fresh_table 7 true ≡ none)
    × (htb_remove same_number number_hash 1000 fresh_table 7 ≡ none)
htb_insert-spins_example =
    htb_insert-spins same_number number_hash 1000 fresh_table 7 true (omega arith)
      (λ e. absurd (omega arith)) fresh_table-HasNone

-- The number 5 is taken for the number 1.
htb_insert-home_example :
    (find_pos same_number number_hash 1 one_table 5 ≡ some 1)
    × (htb_insert same_number number_hash 1 one_table 5 true ≡ some (elem_exist, one_table))
    × ((tb' : Table ℕ) × (htb_insert same_number number_hash 1 one_table 5 false
          ≡ some (success, tb'))
        × (tb'.count ≡ 1)
        × ((i : ℕ)
            → ((tb'.slots i).datum ≡ (one_table.slots i).datum)
              × ((tb'.slots i).status ≡ (one_table.slots i).status)))
htb_insert-home_example =
    htb_insert-home same_number number_hash 0 one_table 5 (λ e. absurd (omega arith)) refl

one_table-IsTable : IsTable one_table
one_table-IsTable = record {
  counted = refl;
  sized = (omega arith, omega arith);
  referred = λ i l u. ground arith;
}

htb_insert-IsTable_example :
    Keeps same_number number_hash (htb_insert same_number number_hash 3 one_table 1 false)
    × Keeps same_number number_hash (htb_remove same_number number_hash 3 one_table 1)
htb_insert-IsTable_example =
    htb_insert-IsTable same_number number_hash 3 one_table 1 false one_table-IsTable
      (λ i l e. ground arith)
