-- ===== src/Str/Version.antt =====
-- hcore_parse_version of src/hcore_string.c.
-- `mem i` is the byte at `line->data + i`: the function also reads the byte behind the text. A loop
-- that is still running when its fuel is gone gives `none`; 0 is the code's error value.
pub mod Dots
use Prim.Native.Nat.{bit_or}
use hcore.Base.{
  ℕ, zero, suc, ◌+◌, ◌-◌, ◌*◌, ◌^◌, ◌≤◌, ◌&&◌, ◌||◌, Option, none, some, ltb, leb, ◌==◌,
  if◌then◌else◌,
}

-- the local enum
pub data Phase : Type 0 where
  prefix_phase separator_phase version_phase : Phase

-- the local variables; `vers` holds the addresses of the three parts
pub record State : Type 0 where
  pub p : ℕ
  pub phase : Phase
  pub master : ℕ
  pub minor : ℕ
  pub patch : ℕ
  pub ver_pos : ℕ

-- how the inner `while (1)` ends
pub data Part : Type 0 where
  spent : Part
  overflow : Part
  stopped : (p ver : ℕ) → Part

module _ (mem : ℕ → ℕ) where
  unfoldable pub part_loop : (fuel p ver : ℕ) → Part
  part_loop zero p ver = spent
  part_loop (suc fuel) p ver =
      let c = mem p in
      let ver' = ver * 10 + (c - b'0') in
      let rest = part_loop fuel (p + 1) ver' in
      if leb b'0' c && leb c b'9' then if ltb 0xff ver' then overflow else rest else stopped p ver

-- `*vers[ver_pos]`, for a position whose address is not NULL
unfoldable pub get_ver : State → ℕ
get_ver s = if s.ver_pos == 0 then s.master else if s.ver_pos == 1 then s.minor else s.patch

unfoldable pub set_ver : State → ℕ → State
set_ver s v =
    if s.ver_pos == 0
    then record s { master = v }
    else if s.ver_pos == 1
    then record s { minor = v }
    else record s { patch = v }

-- the part read up to `p`, and on to the next
unfoldable pub end_part : State → ℕ → ℕ → State
unfolding set_ver
end_part s p v = record (set_ver s v) { p = p; ver_pos = s.ver_pos + 1; phase = separator_phase }

-- What one round of `while (p < last)` does: the next state, or the end of the call.
pub data Step : Type 0 where
  next : State → Step
  error : Step
  busy : Step

unfoldable pub step : (ℕ → ℕ) → ℕ → State → Phase → Step
unfolding get_ver end_part
step mem fuel s prefix_phase = next (record s {
  p = if mem s.p == b'v' || mem s.p == b'V' then s.p + 1 else s.p;
  phase = version_phase;
})
step mem fuel s version_phase =
    if s.ver_pos == 3 then next s else elim (part_loop mem fuel s.p (get_ver s)) [
      | spent ↦ busy
      | overflow ↦ error
      | stopped p v ↦ next (end_part s p v)
    ]
step mem fuel s separator_phase =
    if mem s.p == b'.' then next (record s { phase = version_phase }) else error

-- `master << 16 | minor << 8 | patch`, and the error for master 0
unfoldable pub version : State → ℕ
version s =
    if s.master == 0 then 0 else bit_or (bit_or (s.master * 2 ^ 16) (s.minor * 2 ^ 8)) s.patch

module _ (mem : ℕ → ℕ) (len : ℕ) where
  unfoldable pub version_loop : ℕ → State → Option ℕ
  unfolding step version
  version_loop zero s = none
  version_loop (suc fuel) s =
      if ltb s.p len
      then elim (step mem fuel s s.phase) [
        | next s' ↦ version_loop fuel s'
        | error ↦ some 0
        | busy ↦ none
      ]
      else some (version s)

abbrev pub start : State
start = record { p = 0; phase = prefix_phase; master = 0; minor = 0; patch = 0; ver_pos = 0 }

-- `line->len` is `len`.
unfoldable pub parse_version : (mem : ℕ → ℕ) (len fuel : ℕ) → Option ℕ
unfolding version_loop
parse_version mem len fuel = version_loop mem len fuel start
