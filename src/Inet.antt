-- ===== src/Inet.antt =====
-- src/hcore_inet.c: addresses, ports, masks and URLs read from text.
-- A text with its length is the list of its bytes, a pointer into it the number of bytes before it.
-- `none` is HCORE_ERROR, INADDR_NONE stays the number that it is. `htonl` and `htons` are the
-- library's, and parameters.
pub mod Addr
pub mod Port
pub mod Mask
pub mod Mac
pub mod Url
mod Tests
use hcore.Base.{
  ℕ, zero, suc, ◌+◌, Option, none, some, List, [], ◌∷◌, ◌++◌, ◌≡◌, refl, ◌≢◌, ◌==◌, if◌then◌else◌,
  arith, All, length,
}

-- hcore_strlchr
unfoldable pub strlchr : List ℕ → ℕ → Option ℕ
strlchr [] c = none
strlchr (x ∷ s) c =
    if x == c then some 0 else (elim (strlchr s c) [ none ↦ none | some i ↦ some (suc i) ])

abbrev pub inaddr_none : ℕ
inaddr_none = 0xffff_ffff

pub strlchr-append :
    (s rest : List ℕ) (c : ℕ) → All (λ x. x ≢ c) s → strlchr (s ++ c ∷ rest) c ≡ some (length s)
unfolding strlchr
strlchr-append [] rest c h = ground arith
strlchr-append (x ∷ s) rest c h = ground (arith, strlchr-append s rest c)

pub strlchr-none : (s : List ℕ) (c : ℕ) → All (λ x. x ≢ c) s → strlchr s c ≡ none
unfolding strlchr
strlchr-none [] c h = refl
strlchr-none (x ∷ s) c h = ground (arith, strlchr-none s c)
