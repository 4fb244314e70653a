-- ===== src/Str/Token.antt =====
-- hcore_strtok, hcore_strtokz and hcore_strcpyd of src/hcore_string.c.
-- A text with its length is the list of its bytes; a token is where it starts in the text and its
-- length. The pool has memory for `room` pushes or copies more; `none` is NULL.
pub mod Pieces
use hcore.Base.{
  ℕ, zero, suc, ◌+◌, ◌-◌, Bool, true, false, not, Option, none, some, List, [], ◌∷◌, ◌++◌, ◌==◌,
  if◌then◌else◌, ◌>>=◌, length, take, drop,
}

-- hcore_str_t, into the text
pub record Token : Type 0 where
  pub start : ℕ
  pub len : ℕ

-- The delimiters where the caller names none: " ,\t\r\n".
abbrev pub default_delim : List ℕ
default_delim = b' ' ∷ b',' ∷ 9 ∷ 13 ∷ 10 ∷ []

-- `for (p_delim = delim; *p_delim; p_delim++)`
unfoldable pub is_sep : List ℕ → ℕ → Bool
is_sep [] c = false
is_sep (d ∷ delim) c = if c == d then true else is_sep delim c

-- `str->len++` on the token pushed last; `str` is NULL if there is none.
unfoldable pub lengthen : List Token → Option (List Token)
lengthen [] = none
lengthen (t ∷ []) = some (record t { len = t.len + 1 } ∷ [])
lengthen (t ∷ u ∷ toks) = lengthen (u ∷ toks) >>= λ rest. some (t ∷ rest)

-- The loop over the text from byte `p` on, with the tokens pushed so far.
unfoldable pub tok_loop :
    (delim : List ℕ) (room p : ℕ) (started : Bool) → List Token → List ℕ → Option (List Token)
tok_loop delim room p started toks [] = some toks
tok_loop delim room p started toks (c ∷ text) =
    let skipped = tok_loop delim room (p + 1) false toks text in
    let inside = lengthen toks >>= λ toks'. tok_loop delim room (p + 1) true toks' text in
    let pushed = lengthen (toks ++ record { start = p; len = 0 } ∷ []) >>= λ toks'.
    tok_loop delim (room - 1) (p + 1) true toks' text in
    if is_sep delim c
    then skipped
    else if started
    then inside
    else if room == 0
    then none
    else pushed

abbrev pub delim_of : Option (List ℕ) → List ℕ
delim_of none = default_delim
delim_of (some delim) = delim

-- `created` says whether the pool has memory for the array.
unfoldable pub strtok : (created : Bool) (room : ℕ) → List ℕ → Option (List ℕ) → Option (List Token)
strtok created room src delim =
    if length src == 0
    then none
    else if not created
    then none
    else tok_loop (delim_of delim) room 0 false [] src

-- A token's bytes with a 0 behind them, copied to new memory.
abbrev pub copy_token : List ℕ → Token → List ℕ
copy_token src t = take t.len (drop t.start src) ++ 0 ∷ []

unfoldable pub copy_loop : (room : ℕ) → List ℕ → List Token → Option (List (List ℕ))
copy_loop room src [] = some []
copy_loop room src (t ∷ toks) =
    if room == 0
    then none
    else (copy_loop (room - 1) src toks >>= λ rest. some (copy_token src t ∷ rest))

-- The pool has memory for `copies` copies besides.
unfoldable pub strtokz :
    (created : Bool) (room copies : ℕ) → List ℕ → Option (List ℕ) → Option (List (List ℕ))
strtokz created room copies src delim = strtok created room src delim >>= copy_loop copies src

-- A string up to its 0, which is copied with it.
unfoldable pub strcpyd : (memory : Bool) → List ℕ → Option (List ℕ)
strcpyd memory string = if memory then some (string ++ 0 ∷ []) else none
