-- ===== src/Htb.antt =====
-- src/hcore_htb.c and include/hcore_htb.h: a hash table of counted elements in slots.
-- `unsigned int` has 32 bits. The slots are a function of the index; slots of `size` and more are not
-- part of the table. The two procedures of the caller are parameters, and so is what fresh memory
-- holds. The shared memory functions of the same file only call the system.
pub mod Count
pub mod Probe
mod Tests
use hcore.Base.{
  ℕ, zero, suc, ◌+◌, ◌-◌, ◌*◌, ◌/◌, ◌%◌, ◌^◌, Bool, true, false, ◌&&◌, Option, none, some, ltb, leb,
  ◌==◌, if◌then◌else◌,
}

-- HCORE_HTB_STATUS_EMPTY, _EXIST and _DELETE
pub data Status : Type 0 where
  empty exist delete : Status

-- HCORE_HTB_ERR_...
pub data Err : Type 0 where
  success args_error malloc_failed size_full_warning elem_exist elem_no_exist size_full : Err

-- HCORE_HTB_TYPE_COMMON and _FIXEDSIZE
pub data TableType : Type 0 where
  common fixed_size : TableType

module _ (A : Type 0) where
  -- hcore_htb_elem_t
  pub record Slot : Type 0 where
    pub status : Status
    pub ref : ℕ
    pub datum : A

  -- hcore_htb_table_t
  pub record Table : Type 0 where
    pub resize : ℕ
    pub type : TableType
    pub size : ℕ
    pub count : ℕ
    pub slots : ℕ → Slot

module _ {A : Type 0} where
  abbrev pub put_slot : (ℕ → Slot A) → ℕ → Slot A → ℕ → Slot A
  put_slot slots i s j = if i == j then s else slots j

  abbrev pub is_exist : Slot A → Bool
  is_exist s = elim s.status [ exist ↦ true | _ ↦ false ]

  -- hcore_htb_init. `fresh` is what the memory of a table holds, of malloc or of the caller.
  unfoldable pub htb_init :
      (memory : Bool) (fresh : ℕ → Slot A) (size data_size : ℕ)
      → TableType
      → (resize : ℕ) → Err × Option (Table A)
  htb_init memory fresh size data_size type resize =
      let tb : Table A = record {
        resize = resize;
        type = type;
        size = size;
        count = 0;
        slots = λ i. if ltb i size then record (fresh i) { status = empty } else fresh i;
      } in
      if (size == 0)
      then (args_error, none)
      else if data_size == 0
      then (args_error, none)
      else elim type [
        | common ↦ if memory then (success, some tb) else (malloc_failed, none)
        | fixed_size ↦ (success, some tb)
      ]

  -- The end of hcore_htb_insert, with the slot found.
  unfoldable pub insert_at_slot : Table A → A → (existed : Bool) → Err → ℕ → Err × Table A
  insert_at_slot tb x existed ret i =
      let s = tb.slots i in
      elim s.status [
        | delete ↦ (
          ret,
          record tb {
            count = tb.count + 1;
            slots = put_slot tb.slots i (record s { status = exist; ref = 1 });
          },
        )
        | exist ↦ if existed then (elem_exist, tb) else (
          success,
          record tb { slots = put_slot tb.slots i (record s { ref = (s.ref + 1) % 2 ^ 32 }) },
        )
        | empty ↦ (
          ret,
          record tb {
            count = tb.count + 1;
            slots = put_slot tb.slots i (record { status = exist; ref = 1; datum = x });
          },
        )
      ]

  -- A table of fixed size that is more than 70% full.
  abbrev pub warning : Table A → Err
  warning tb = elim tb.type [
    | common ↦ success
    | fixed_size ↦ if ltb 7 (tb.count * 10 % 2 ^ 32 / tb.size) then size_full_warning else success
  ]

  -- The end of hcore_htb_remove, with the slot found.
  unfoldable pub remove_at_slot : Table A → ℕ → Err × Table A
  remove_at_slot tb i =
      let s = tb.slots i in
      let ref' = (s.ref + (2 ^ 32 - 1)) % 2 ^ 32 in
      elim s.status [
        | exist ↦
            if ref' == 0
            then (
              success,
              record tb {
                count = (tb.count + (2 ^ 32 - 1)) % 2 ^ 32;
                slots = put_slot tb.slots i (record s { status = delete; ref = ref' });
              },
            )
            else (success, record tb { slots = put_slot tb.slots i (record s { ref = ref' }) })
        | empty ↦ (elem_no_exist, tb)
        | delete ↦ (elem_no_exist, tb)
      ]

  -- `compare_proc(a, b) == 0`, and `get_hash_proc`
  module _ (same : A → A → Bool) (get_hash : A → ℕ) where
    -- The loop of hcore_htb_find_pos.
    unfoldable pub probe_loop : (fuel : ℕ) → Table A → A → (index collision_num : ℕ) → Option ℕ
    probe_loop zero tb x index collision_num = none
    probe_loop (suc fuel) tb x index collision_num =
        let n = (index + (collision_num + 1) * 2 - 1) % 2 ^ 32 in
        let later =
          probe_loop fuel tb x (if leb tb.size n then n % tb.size else n) (collision_num + 1) in
        if is_exist (tb.slots index)
        then some index
        else if same (tb.slots index).datum x
        then some index
        else later

    -- hcore_htb_find_pos
    unfoldable pub find_pos : (fuel : ℕ) → Table A → A → Option ℕ
    find_pos fuel tb x = probe_loop fuel tb x (get_hash x % tb.size) 0

    -- hcore_htb_insert; none if the search is still running when its fuel is gone
    unfoldable pub htb_insert : (fuel : ℕ) → Table A → A → (existed : Bool) → Option (Err × Table A)
    htb_insert fuel tb x existed =
        if tb.count == tb.size then some (size_full, tb) else elim (find_pos fuel tb x) [
          | none ↦ none
          | some i ↦ some (insert_at_slot tb x existed (warning tb) i)
        ]

    -- hcore_htb_remove
    unfoldable pub htb_remove : (fuel : ℕ) → Table A → A → Option (Err × Table A)
    htb_remove fuel tb x = elim (find_pos fuel tb x) [
      | none ↦ none
      | some i ↦ some (remove_at_slot tb i)
    ]
