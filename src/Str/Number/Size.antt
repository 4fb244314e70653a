-- ===== src/Str/Number/Size.antt =====
-- What hcore_parse_size accepts, and the value that it returns.
use native.Mathlib.Nat.{le-div_iff_mul-le}
use hcore.Base.{
  ℕ, ◌*◌, ◌/◌, ◌≤◌, ◌<◌, ◌≡◌, refl, ◌↔◌, inl, inr, some, List, [], ◌∷◌, ◌++◌, arith, Option-cases,
  ltb, ◌>>=◌, Bool-cases,
}
use hcore.Str.Number.{max_ssize_t, atosz, unit_scale, split_last, scale_size, parse_size}
use hcore.Str.Number.Decimal.{Spells, atosz_iff}

split_last-append : (c : ℕ) (s : List ℕ) (u : ℕ) → split_last c (s ++ u ∷ []) ≡ (c ∷ s, u)
unfolding split_last
split_last-append c [] u = refl
split_last-append c (d ∷ s) u = rw (split_last-append d s u)

parse_size-cons :
    (c : ℕ) (line front : List ℕ) (u k : ℕ)
    → split_last c line ≡ (front, u)
    → unit_scale u ≡ some k
    → parse_size (c ∷ line) ≡ (atosz front >>= scale_size k)
unfolding parse_size
parse_size-cons c line front u k last e = ground arith

parse_size-unit :
    (s : List ℕ) (u k : ℕ)
    → unit_scale u ≡ some k
    → parse_size (s ++ u ∷ []) ≡ (atosz s >>= scale_size k)
parse_size-unit [] u k e = parse_size-cons u [] [] u k (unfold split_last in refl) e
parse_size-unit (c ∷ s) u k e =
    parse_size-cons c (s ++ u ∷ []) (c ∷ s) u k (split_last-append c s u) e

scale_size_iff :
    (k n r : ℕ) → 0 < k → (scale_size k n ≡ some r) ↔ ((r ≡ n * k) × (n * k ≤ max_ssize_t))
unfolding scale_size
scale_size_iff k n r p = elim (Bool-cases (ltb (max_ssize_t / k) n)) [
  | inl over ↦ (
    λ h. ground arith,
    λ (e, h). ground (arith, (le-div_iff_mul-le {x = n} {y = max_ssize_t} p).1 h),
  )
  | inr within ↦ (
    λ h. ground (arith, (le-div_iff_mul-le {x = n} {y = max_ssize_t} p).0 (ground arith)),
    λ (e, h). ground arith,
  )
]

unit_scale-pos : (u k : ℕ) → unit_scale u ≡ some k → 0 < k
unfolding unit_scale
unit_scale-pos u k e = ground arith

-- For a text that ends in a unit letter of factor k, `hcore_parse_size` returns r exactly when the
-- bytes in front of the letter are decimal digits that spell some n, r is n * k, and neither n nor
-- n * k is above 2^63 - 1: the multiplication never overflows.
pub parse_size_iff :
    (s : List ℕ) (u k r : ℕ)
    → unit_scale u ≡ some k
    → (parse_size (s ++ u ∷ []) ≡ some r)
      ↔ ((n : ℕ) × Spells max_ssize_t s n × (r ≡ n * k) × (n * k ≤ max_ssize_t))
parse_size_iff s u k r e = rw (parse_size-unit s u k e) (to, from)
  where
    to :
        (atosz s >>= scale_size k) ≡ some r
        → (n : ℕ) × Spells max_ssize_t s n × (r ≡ n * k) × (n * k ≤ max_ssize_t)
    to h = elim (Option-cases (atosz s)) [
      | inl bad ↦ absurd (cc (rw bad at h))
      | inr (n, good) ↦
          let scaled : scale_size k n ≡ some r = rw good at h in
          let parts = (scale_size_iff k n r (unit_scale-pos u k e)).0 scaled in
          (n, (atosz_iff s n).0 good, parts.0, parts.1)
    ]

    from :
        ((n : ℕ) × Spells max_ssize_t s n × (r ≡ n * k) × (n * k ≤ max_ssize_t))
        → (atosz s >>= scale_size k) ≡ some r
    from (n, spelt, eq, fits) =
        rw ((atosz_iff s n).1 spelt) ((scale_size_iff k n r (unit_scale-pos u k e)).1 (eq, fits))
