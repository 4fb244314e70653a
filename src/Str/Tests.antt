-- ===== src/Str/Tests.antt =====
-- Runs of the functions of src/hcore_string.c, and their theorems at these inputs.
use Prim.Native.Nat.{max}
use hcore.Base.{
  All, false, ℕ, ◌^◌, ◌<◌, ◌≤◌, ◌≡◌, refl, ◌↔◌, true, some, List, [], ◌∷◌, ◌++◌, ◌*◌, arith, length,
  min, get_or, if◌then◌else◌,
}
use hcore.Str.Number.{max_int_t, max_ssize_t, atoi, atosz, hextoi, unit_scale, parse_size}
use hcore.Str.Number.Decimal.{Spells, ato_iff}
use hcore.Str.Number.Size.{parse_size_iff}
use hcore.Str.Print.{int64_len, temp_digits, sprintf_num}
use hcore.Str.Print.Bounds.{sprintf_num-length}
use hcore.Str.Print.RoundTrip.{hextoi-sprintf_num}
use hcore.Str.Token.{is_sep, strtok, strtokz}
use hcore.Str.Token.Pieces.{Piece, joined, tokens, copies, IsPieces, strtok-joined}
use hcore.Str.Version.{
  parse_version, step, part_loop, end_part, set_ver, get_ver, version, version_loop,
}

-- "420"
abbrev number_text : List ℕ
number_text = b'4' ∷ b'2' ∷ b'0' ∷ []

-- The bytes of "1.2.3", and zeros behind them.
abbrev version_mem : ℕ → ℕ
version_mem i = get_or (b'1' ∷ b'.' ∷ b'2' ∷ b'.' ∷ b'3' ∷ []) i 0

-- The bytes of "v7", and zeros behind them.
abbrev prefixed_mem : ℕ → ℕ
prefixed_mem i = get_or (b'v' ∷ b'7' ∷ []) i 0

atoi_run : atoi number_text ≡ some 420
unfolding atoi
atoi_run = unfold hcore.Str.Number.ato_loop in refl

ato_iff_example :
    ((atoi number_text ≡ some 420) ↔ Spells max_int_t number_text 420)
    × ((atosz number_text ≡ some 420) ↔ Spells max_ssize_t number_text 420)
ato_iff_example = ato_iff number_text 420

kilo : unit_scale b'k' ≡ some 1024
unfolding unit_scale
kilo = refl

parse_size_iff_example :
    (parse_size (number_text ++ b'k' ∷ []) ≡ some 430080)
    ↔ ((n : ℕ) × Spells max_ssize_t number_text n × (430080 ≡ n * 1024) × (n * 1024 ≤ max_ssize_t))
parse_size_iff_example = parse_size_iff number_text b'k' 1024 430080 kilo

sprintf_num-length_example :
    (temp text : List ℕ) × (temp_digits 420 1 ≡ some temp)
    × (length temp ≤ int64_len)
    × (sprintf_num 6 420 b'0' 1 8 ≡ some text)
    × (length text ≡ min 6 (max 8 (length temp)))
sprintf_num-length_example = sprintf_num-length 6 420 b'0' 1 8 (omega arith)

hextoi-sprintf_num_example :
    (text : List ℕ) × (sprintf_num 20 48879 b' ' (if true then 2 else 1) 0 ≡ some text)
    × (hextoi text ≡ some 48879)
hextoi-sprintf_num_example = hextoi-sprintf_num 20 b' ' 48879 true (omega arith) (omega arith)

prefixed_run : parse_version prefixed_mem 2 9 ≡ some (7 * 2 ^ 16)
unfolding parse_version
prefixed_run = unfold step part_loop end_part set_ver get_ver version version_loop in refl

one_digit : (i : ℕ) → i < 1 → (b'0' ≤ version_mem i) × (version_mem i ≤ b'9')
one_digit i h = ground arith

-- " ab, c": the words "ab" and "c"
abbrev two_words : List Piece
two_words =
    record { gap = b' ' ∷ []; head = b'a'; tail = b'b' ∷ [] }
    ∷ record { gap = b',' ∷ b' ' ∷ []; head = b'c'; tail = [] }
    ∷ []

abbrev separators : List ℕ
separators = b' ' ∷ b',' ∷ []

two_words-IsPieces : IsPieces separators false two_words
unfolding is_sep
two_words-IsPieces = ground arith

no_gap : All (λ c. is_sep separators c ≡ true) []
no_gap = tt

strtok-joined_example :
    (strtok true 2 (joined two_words []) (some separators) ≡ some (tokens 0 two_words))
    × (strtokz true 2 2 (joined two_words []) (some separators) ≡ some (copies two_words))
strtok-joined_example =
    strtok-joined separators two_words [] 2 2 two_words-IsPieces no_gap (λ e. cc) (omega arith)
      (omega arith)
