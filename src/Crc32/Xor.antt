-- ===== src/Crc32/Xor.antt =====
-- Laws of exclusive or.
use Prim.Native.Nat.{bit_xor, bit_xor-bitwise, digits, differ}
use hcore.Base.{ℕ, zero, suc, ◌+◌, ◌*◌, ◌/◌, ◌%◌, ◌≤◌, ◌<◌, ◌≡◌, refl, ◌∙◌, ap, arith}

abbrev xor_digits : ℕ → ℕ → ℕ → ℕ
xor_digits n a b = digits (λ b. b) differ n a b

xor_digits_fuel : (n m a b : ℕ) → a ≤ n → a ≤ m → xor_digits n a b ≡ xor_digits m a b
xor_digits_fuel zero zero a b p q = refl
xor_digits_fuel zero (suc m) zero b p q = refl
xor_digits_fuel zero (suc m) (suc a) b p q = absurd (omega arith)
xor_digits_fuel (suc n) zero zero b p q = refl
xor_digits_fuel (suc n) zero (suc a) b p q = absurd (omega arith)
xor_digits_fuel (suc n) (suc m) zero b p q = refl
xor_digits_fuel (suc n) (suc m) (suc a) b p q =
    omega (arith, xor_digits_fuel n m (suc a / 2) (b / 2) (omega arith) (omega arith))

differ_lem : (x y : ℕ) → x < 2 → y < 2 → differ x y ≡ (x + y) % 2
differ_lem zero zero p q = refl
differ_lem zero (suc zero) p q = refl
differ_lem (suc zero) zero p q = refl
differ_lem (suc zero) (suc zero) p q = refl
differ_lem zero (suc (suc y)) p q = absurd (omega arith)
differ_lem (suc zero) (suc (suc y)) p q = absurd (omega arith)
differ_lem (suc (suc x)) y p q = absurd (omega arith)

pub zero-bit_xor : (b : ℕ) → bit_xor 0 b ≡ b
zero-bit_xor b = bit_xor-bitwise 0 b

bit_xor_step : (a b : ℕ) → bit_xor a b ≡ bit_xor (a / 2) (b / 2) * 2 + (a % 2 + b % 2) % 2
bit_xor_step zero b = omega (arith, zero-bit_xor b, zero-bit_xor (b / 2))
bit_xor_step (suc a) b = omega (
  arith,
  bit_xor-bitwise (suc a) b,
  bit_xor-bitwise (suc a / 2) (b / 2),
  xor_digits_fuel a (suc a / 2) (suc a / 2) (b / 2) (omega arith) (omega arith),
  differ_lem (suc a % 2) (b % 2) (omega arith) (omega arith),
)

pub div-bit_xor_two : (a b : ℕ) → bit_xor a b / 2 ≡ bit_xor (a / 2) (b / 2)
div-bit_xor_two a b = omega (arith, bit_xor_step a b)

bit_xor_assoc_fuel :
    (n a b c : ℕ) → a ≤ n → b ≤ n → c ≤ n → bit_xor (bit_xor a b) c ≡ bit_xor a (bit_xor b c)
bit_xor_assoc_fuel zero zero zero zero p q r = refl
bit_xor_assoc_fuel zero (suc a) b c p q r = absurd (omega arith)
bit_xor_assoc_fuel zero zero (suc b) c p q r = absurd (omega arith)
bit_xor_assoc_fuel zero zero zero (suc c) p q r = absurd (omega arith)
bit_xor_assoc_fuel (suc n) a b c p q r = omega (
  arith,
  bit_xor_step (bit_xor a b) c,
  bit_xor_step a (bit_xor b c),
  bit_xor_step a b,
  bit_xor_step b c,
  ap (λ x. bit_xor x (c / 2)) (div-bit_xor_two a b),
  ap (bit_xor (a / 2)) (div-bit_xor_two b c),
  bit_xor_assoc_fuel n (a / 2) (b / 2) (c / 2) (omega arith) (omega arith) (omega arith),
)

pub bit_xor_assoc : (a b c : ℕ) → bit_xor (bit_xor a b) c ≡ bit_xor a (bit_xor b c)
bit_xor_assoc a b c = bit_xor_assoc_fuel (a + b + c) a b c (omega arith) (omega arith) (omega arith)

pub div-bit_xor_four : (a b : ℕ) → bit_xor a b / 4 ≡ bit_xor (a / 4) (b / 4)
div-bit_xor_four a b =
    let e : bit_xor a b / 4 ≡ bit_xor a b / 2 / 2 = omega arith in
    let l : a / 2 / 2 ≡ a / 4 = omega arith in
    let r : b / 2 / 2 ≡ b / 4 = omega arith in
    e
    ∙ ap (λ x. x / 2) (div-bit_xor_two a b)
    ∙ div-bit_xor_two (a / 2) (b / 2)
    ∙ ap (λ x. bit_xor x (b / 2 / 2)) l
    ∙ ap (bit_xor (a / 4)) r

pub div-bit_xor : (a b : ℕ) → bit_xor a b / 16 ≡ bit_xor (a / 16) (b / 16)
div-bit_xor a b =
    let e : bit_xor a b / 16 ≡ bit_xor a b / 4 / 4 = omega arith in
    let l : a / 4 / 4 ≡ a / 16 = omega arith in
    let r : b / 4 / 4 ≡ b / 16 = omega arith in
    e
    ∙ ap (λ x. x / 4) (div-bit_xor_four a b)
    ∙ div-bit_xor_four (a / 4) (b / 4)
    ∙ ap (λ x. bit_xor x (b / 4 / 4)) l
    ∙ ap (bit_xor (a / 16)) r

pub mod-bit_xor_two : (a b : ℕ) → bit_xor a b % 2 ≡ bit_xor (a % 2) (b % 2)
mod-bit_xor_two a b =
    let l : a % 2 / 2 ≡ 0 = omega arith in
    let r : b % 2 / 2 ≡ 0 = omega arith in
    omega (
      arith,
      bit_xor_step a b,
      bit_xor_step (a % 2) (b % 2),
      ap (λ x. bit_xor x (b % 2 / 2)) l,
      ap (bit_xor 0) r,
      zero-bit_xor 0,
    )

pub mod-bit_xor_four : (a b : ℕ) → bit_xor a b % 4 ≡ bit_xor (a % 4) (b % 4)
mod-bit_xor_four a b =
    let l : a % 4 / 2 ≡ a / 2 % 2 = omega arith in
    let r : b % 4 / 2 ≡ b / 2 % 2 = omega arith in
    omega (
      arith,
      bit_xor_step a b,
      bit_xor_step (a % 4) (b % 4),
      ap (λ x. bit_xor x (b % 4 / 2)) l,
      ap (bit_xor (a / 2 % 2)) r,
      mod-bit_xor_two (a / 2) (b / 2),
    )

pub mod-bit_xor_eight : (a b : ℕ) → bit_xor a b % 8 ≡ bit_xor (a % 8) (b % 8)
mod-bit_xor_eight a b =
    let l : a % 8 / 2 ≡ a / 2 % 4 = omega arith in
    let r : b % 8 / 2 ≡ b / 2 % 4 = omega arith in
    omega (
      arith,
      bit_xor_step a b,
      bit_xor_step (a % 8) (b % 8),
      ap (λ x. bit_xor x (b % 8 / 2)) l,
      ap (bit_xor (a / 2 % 4)) r,
      mod-bit_xor_four (a / 2) (b / 2),
    )

pub mod-bit_xor : (a b : ℕ) → bit_xor a b % 16 ≡ bit_xor (a % 16) (b % 16)
mod-bit_xor a b =
    let l : a % 16 / 2 ≡ a / 2 % 8 = omega arith in
    let r : b % 16 / 2 ≡ b / 2 % 8 = omega arith in
    omega (
      arith,
      bit_xor_step a b,
      bit_xor_step (a % 16) (b % 16),
      ap (λ x. bit_xor x (b % 16 / 2)) l,
      ap (bit_xor (a / 2 % 8)) r,
      mod-bit_xor_eight (a / 2) (b / 2),
    )

pub div-bit_xor_eight : (a b : ℕ) → bit_xor a b / 8 ≡ bit_xor (a / 8) (b / 8)
div-bit_xor_eight a b =
    let e : bit_xor a b / 8 ≡ bit_xor a b / 4 / 2 = omega arith in
    let l : a / 4 / 2 ≡ a / 8 = omega arith in
    let r : b / 4 / 2 ≡ b / 8 = omega arith in
    e
    ∙ ap (λ x. x / 2) (div-bit_xor_four a b)
    ∙ div-bit_xor_two (a / 4) (b / 4)
    ∙ ap (λ x. bit_xor x (b / 4 / 2)) l
    ∙ ap (bit_xor (a / 8)) r

bit_xor-zero_fuel : (n a : ℕ) → a ≤ n → bit_xor a 0 ≡ a
bit_xor-zero_fuel zero zero h = refl
bit_xor-zero_fuel zero (suc a) h = absurd (omega arith)
bit_xor-zero_fuel (suc n) a h =
    omega (arith, bit_xor_step a 0, bit_xor-zero_fuel n (a / 2) (omega arith))

pub bit_xor-zero : (a : ℕ) → bit_xor a 0 ≡ a
bit_xor-zero a = bit_xor-zero_fuel a a (omega arith)
