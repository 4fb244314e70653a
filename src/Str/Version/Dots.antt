-- ===== src/Str/Version/Dots.antt =====
-- What hcore_parse_version can return: the first part alone. At a '.' it does not advance.
use Prim.Native.Nat.{bit_or}
use native.Mathlib.Decide.{dec_lt}
use hcore.Base.{
  ◌∙◌, ℕ, zero, suc, ◌+◌, ◌-◌, ◌*◌, ◌^◌, ◌≤◌, ◌<◌, ◌≡◌, refl, ◌⊎◌, inl, inr, ◌&&◌, ◌||◌, true,
  false, none, some, ltb, leb, ◌==◌, arith, all_below, all_below-at, ==_iff, Bool-cases,
}
use hcore.Str.Version.{
  separator_phase, version_phase, State, Part, spent, overflow, stopped, part_loop, get_ver,
  set_ver, end_part, step, version, version_loop, start, parse_version,
}

-- No version, or one part of 1 to 255 and two parts of 0.
abbrev pub IsMaster : ℕ → Type 0
IsMaster v = (v ≡ 0) ⊎ ((m : ℕ) × (1 ≤ m) × (m ≤ 255) × (v ≡ m * 2 ^ 16))

-- Nothing but the first part has been read.
record OnlyMaster (s : State) : Type 0 where
  master_small : s.master ≤ 255
  no_minor : s.minor ≡ 0
  no_patch : s.patch ≡ 0

master_word : (m : ℕ) → m ≤ 255 → bit_or (bit_or (m * 2 ^ 16) 0) 0 ≡ m * 2 ^ 16
master_word m h = (==_iff _ _).0 (
    all_below-at 256 (λ m. bit_or (bit_or (m * 2 ^ 16) 0) 0 == m * 2 ^ 16) m
      (unfold all_below in refl) (omega arith))

version-IsMaster : (s : State) → OnlyMaster s → IsMaster (version s)
unfolding version
version-IsMaster s only = elim (Bool-cases (s.master == 0)) [
  | inl z ↦ inl (rw z)
  | inr nz ↦ inr (
    s.master,
    ground arith,
    only.master_small,
    rw (nz, only.no_minor, only.no_patch) (master_word s.master only.master_small),
  )
]

module _ (mem : ℕ → ℕ) where
  -- The inner loop keeps the part at most 255, and stops at a byte that is no digit.
  part_loop-bound :
      (fuel p ver q v : ℕ) → ver ≤ 255 → part_loop mem fuel p ver ≡ stopped q v → v ≤ 255
  unfolding part_loop
  part_loop-bound zero p ver q v h e = ground arith
  part_loop-bound (suc fuel) p ver q v h e =
      ground (arith, part_loop-bound fuel (p + 1) (ver * 10 + (mem p - b'0')) q v)

  part_loop_at_dot :
      (fuel p ver : ℕ)
      → mem p ≡ b'.'
      → (part_loop mem fuel p ver ≡ spent) ⊎ (part_loop mem fuel p ver ≡ stopped p ver)
  unfolding part_loop
  part_loop_at_dot zero p ver e = inl refl
  part_loop_at_dot (suc fuel) p ver e = inr (ground arith)

  module _ (len : ℕ) where
    -- Once all three parts are taken, a loop with bytes left never ends.
    loop_stuck :
        (fuel : ℕ) (s : State)
        → s.p < len
        → s.phase ≡ version_phase
        → s.ver_pos ≡ 3
        → version_loop mem len fuel s ≡ none
    unfolding version_loop step
    loop_stuck zero s p ph v = refl
    loop_stuck (suc fuel) s p ph v = ground (arith, loop_stuck fuel s p ph v)

    -- At a '.' behind the first part the loop changes its phase for ever and reads no byte.
    loop_at_dot :
        (fuel : ℕ) (s : State)
        → s.p < len
        → mem s.p ≡ b'.'
        → 1 ≤ s.ver_pos
        → s.ver_pos ≤ 3
        → (s.phase ≡ separator_phase) ⊎ (s.phase ≡ version_phase)
        → version_loop mem len fuel s ≡ none
    unfolding version_loop step end_part set_ver
    loop_at_dot zero s p dot lo hi ph = refl
    loop_at_dot (suc fuel) s p dot lo hi (inl ph) =
        ground (arith, loop_at_dot fuel (record s { phase = version_phase }) p dot lo hi (inr refl))
    loop_at_dot (suc fuel) s p dot lo hi (inr ph) =
        elim (part_loop_at_dot fuel s.p (get_ver s) dot) [
          | inl out ↦ ground (arith, loop_stuck (suc fuel) s p ph)
          | inr here ↦
              ground
                (arith, loop_stuck (suc fuel) s p ph, loop_at_dot fuel (end_part s s.p (get_ver s)))
        ]

    -- Behind the first part the call ends with that part, ends with the error, or never ends.
    behind-IsMaster :
        (fuel : ℕ) (s : State) (v : ℕ)
        → OnlyMaster s
        → s.ver_pos ≡ 1
        → s.phase ≡ separator_phase
        → version_loop mem len fuel s ≡ some v
        → IsMaster v
    unfolding version_loop step
    behind-IsMaster zero s v only one ph e = ground arith
    behind-IsMaster (suc fuel) s v only one ph e = elim (Bool-cases (ltb s.p len)) [
      | inr ends ↦ ground (arith, version-IsMaster s only)
      | inl more ↦ elim (Bool-cases (mem s.p == b'.')) [
        | inl dot ↦ ground (arith, loop_at_dot fuel (record s { phase = version_phase }))
        | inr other ↦ inl (ground arith)
      ]
    ]

    in-IsMaster :
        (fuel : ℕ) (s : State) (v : ℕ)
        → OnlyMaster s
        → s.ver_pos ≡ 0
        → s.phase ≡ version_phase
        → version_loop mem len fuel s ≡ some v
        → IsMaster v
    unfolding version_loop step end_part set_ver get_ver
    in-IsMaster zero s v only one ph e = ground arith
    in-IsMaster (suc fuel) s v only pos ph e = elim (Bool-cases (ltb s.p len)) [
      | inr ends ↦ ground (arith, version-IsMaster s only)
      | inl more ↦ split more (part_loop mem fuel s.p s.master) refl
    ]
      where
        split : ltb s.p len ≡ true → (r : Part) → part_loop mem fuel s.p s.master ≡ r → IsMaster v
        split more spent r = ground arith
        split more overflow r = inl (ground arith)
        split more (stopped p w) r =
            ground (
              arith,
              part_loop-bound fuel s.p s.master p w,
              behind-IsMaster fuel (end_part s p w) v,
            )

-- Whatever the text, `hcore_parse_version` never returns a minor or a patch number: a call that ends
-- returns 0, the error, or `m << 16` for a first part m of 1 to 255.
pub parse_version-IsMaster :
    (mem : ℕ → ℕ) (len fuel v : ℕ) → parse_version mem len fuel ≡ some v → IsMaster v
unfolding parse_version version_loop step
parse_version-IsMaster mem len zero v e = ground arith
parse_version-IsMaster mem len (suc fuel) v e = ground (
  arith,
  in-IsMaster mem len fuel (record start { p = 0; phase = version_phase }) v,
  in-IsMaster mem len fuel (record start { p = 1; phase = version_phase }) v,
)

-- How the inner loop ends over digits up to a '.' at `k`.
data EndsAt (k : ℕ) : Part → Type 0 where
  runs : EndsAt k spent
  fails : EndsAt k overflow
  stops : (v : ℕ) → EndsAt k (stopped k v)

module _ (mem : ℕ → ℕ) (k : ℕ) (digits : (i : ℕ) → i < k → (b'0' ≤ mem i) × (mem i ≤ b'9'))
    (dot : mem k ≡ b'.') where
  part_loop-EndsAt : (fuel p ver : ℕ) → p ≤ k → EndsAt k (part_loop mem fuel p ver)
  unfolding part_loop
  part_loop-EndsAt zero p ver h = runs
  part_loop-EndsAt (suc fuel) p ver h = elim (dec_lt p k) [
    | yes lt ↦
        let digit : (leb b'0' (mem p) && leb (mem p) b'9') ≡ true = ground (arith, digits p lt) in
        rw digit (elim (Bool-cases (ltb 0xff (ver * 10 + (mem p - b'0')))) [
          | inl over ↦ rw over fails
          | inr small ↦ rw small (part_loop-EndsAt fuel (p + 1) _ (omega arith))
        ])
    | no ge ↦ let at : p ≡ k = omega arith in rw (at, dot) (stops ver)
  ]

  module _ (len : ℕ) (inside : k < len) where
    from_part :
        (fuel : ℕ) (s : State) (r : Part)
        → EndsAt k r
        → part_loop mem fuel s.p s.master ≡ r
        → s.p < len
        → s.ver_pos ≡ 0
        → s.phase ≡ version_phase
        → (version_loop mem len (suc fuel) s ≡ none) ⊎ (version_loop mem len (suc fuel) s ≡ some 0)
    unfolding version_loop step end_part set_ver get_ver
    from_part fuel s r runs e p v ph = inl (ground arith)
    from_part fuel s r fails e p v ph = inr (ground arith)
    from_part fuel s r (stops w) e p v ph =
        inl (ground (arith, loop_at_dot mem len fuel (end_part s k w) inside dot))

    no_prefix :
        (fuel : ℕ)
        → 0 < k
        → parse_version mem len (suc fuel)
          ≡ version_loop mem len fuel (record start { phase = version_phase })
    unfolding parse_version version_loop step
    no_prefix fuel pos =
        let inside' : ltb 0 len ≡ true = ground arith in
        let first : (mem 0 == b'v' || mem 0 == b'V') ≡ false = ground (arith, digits 0 pos) in
        rw (inside', first)

    -- A text that is one or more decimal digits up to a '.', such as "1.0.0", is never read as a
    -- version: `hcore_parse_version` returns the error, or is still running at any number of rounds.
    parse_version_dotted :
        (fuel : ℕ)
        → 0 < k
        → (parse_version mem len fuel ≡ none) ⊎ (parse_version mem len fuel ≡ some 0)
    parse_version_dotted zero pos = inl (unfold parse_version version_loop in refl)
    parse_version_dotted (suc zero) pos =
        inl (no_prefix 0 pos ∙ (unfold parse_version version_loop in refl))
    parse_version_dotted (suc (suc fuel)) pos = rw (no_prefix (suc fuel) pos) (
        from_part fuel (record start { phase = version_phase }) _
          (part_loop-EndsAt fuel 0 0 (omega arith)) refl (omega arith) refl refl)
