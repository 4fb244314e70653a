-- ===== src/Str/Number/Decimal.antt =====
-- What the decimal readers accept, and the value that they return.
use hcore.Base.{
  ℕ, ◌+◌, ◌-◌, ◌*◌, ◌/◌, ◌%◌, ◌≤◌, ◌≡◌, refl, ◌≢◌, ◌↔◌, some, List, [], ◌∷◌, arith, All,
}
use hcore.Str.Number.{max_int_t, max_ssize_t, ato_loop, atosz, atoi}

abbrev pub IsDigit : ℕ → Type 0
IsDigit c = (b'0' ≤ c) × (c ≤ b'9')

-- The number that decimal digits spell, behind the number `v` already read.
abbrev pub value : ℕ → List ℕ → ℕ
value v [] = v
value v (c ∷ s) = value (v * 10 + (c - b'0')) s

pub le-value : (v : ℕ) (s : List ℕ) → v ≤ value v s
le-value v [] = omega arith
le-value v (c ∷ s) = omega (arith, le-value (v * 10 + (c - b'0')) s)

module _ (max : ℕ) where
  ato_loop_complete :
      (s : List ℕ) (v : ℕ)
      → All IsDigit s
      → value v s ≤ max
      → ato_loop (max / 10) (max % 10) s v ≡ some (value v s)
  unfolding ato_loop
  ato_loop_complete [] v d fits = refl
  ato_loop_complete (c ∷ s) v d fits =
      ground (arith, ato_loop_complete s (v * 10 + (c - b'0')), le-value (v * 10 + (c - b'0')) s)

  ato_loop_sound :
      (s : List ℕ) (v r : ℕ)
      → v ≤ max
      → ato_loop (max / 10) (max % 10) s v ≡ some r
      → All IsDigit s × (r ≡ value v s) × (r ≤ max)
  unfolding ato_loop
  ato_loop_sound [] v r small h = ground arith
  ato_loop_sound (c ∷ s) v r small h = ground (arith, ato_loop_sound s (v * 10 + (c - b'0')) r)

-- A text is the decimal spelling of `r`, at most `max`.
abbrev pub Spells : ℕ → List ℕ → ℕ → Type 0
Spells max s r = (s ≢ []) × All IsDigit s × (r ≡ value 0 s) × (r ≤ max)

-- `hcore_atoi` returns r exactly when the text is one or more decimal digits that spell r and r is
-- at most INT_MAX; in every other case it returns HCORE_ERROR.
pub atoi_iff : (s : List ℕ) (r : ℕ) → (atoi s ≡ some r) ↔ Spells max_int_t s r
unfolding atoi
atoi_iff [] r = (λ h. ground arith, λ (n, d, e, b). absurd (n refl))
atoi_iff (c ∷ s) r = (
  λ h. ground (arith, ato_loop_sound max_int_t (c ∷ s) 0 r),
  λ (n, d, e, b). ground (arith, ato_loop_complete max_int_t (c ∷ s) 0),
)

-- `hcore_atosz` returns r exactly when the text is one or more decimal digits that spell r and r is
-- at most 2^63 - 1; in every other case it returns HCORE_ERROR.
pub atosz_iff : (s : List ℕ) (r : ℕ) → (atosz s ≡ some r) ↔ Spells max_ssize_t s r
unfolding atosz
atosz_iff [] r = (λ h. ground arith, λ (n, d, e, b). absurd (n refl))
atosz_iff (c ∷ s) r = (
  λ h. ground (arith, ato_loop_sound max_ssize_t (c ∷ s) 0 r),
  λ (n, d, e, b). ground (arith, ato_loop_complete max_ssize_t (c ∷ s) 0),
)

-- A text of bytes is read as r by `hcore_atoi` exactly when it is one or more decimal digits that spell r
-- and r is at most INT_MAX, and by `hcore_atosz` exactly when it is such digits and r is at most
-- 2^63 - 1; in every other case they return HCORE_ERROR.
pub ato_iff :
    (s : List ℕ) (r : ℕ)
    → ((atoi s ≡ some r) ↔ Spells max_int_t s r) × ((atosz s ≡ some r) ↔ Spells max_ssize_t s r)
ato_iff s r = (atoi_iff s r, atosz_iff s r)
