-- ===== src/Str/Token/Pieces.antt =====
-- hcore_strtok finds the words of a text between its delimiters.
use mathlib.Core.List.{append_assoc, append-nil}
use hcore.Base.{
  ℕ, ◌+◌, ◌-◌, ◌<◌, ◌≤◌, ◌≡◌, ◌≢◌, refl, Bool, true, false, some, List, [], ◌∷◌, ◌++◌, ◌==◌, length,
  drop, All, arith, ◌∙◌, ap, take-append, drop-append, drop-drop,
}
use hcore.Str.Token.{Token, is_sep, lengthen, tok_loop, strtok, copy_token, copy_loop, strtokz}

-- Delimiters, and a word behind them.
pub record Piece : Type 0 where
  pub gap : List ℕ
  pub head : ℕ
  pub tail : List ℕ

abbrev pub word : Piece → List ℕ
word i = i.head ∷ i.tail

-- The text of pieces, with delimiters behind the last word.
abbrev pub joined : List Piece → List ℕ → List ℕ
joined [] last = last
joined (i ∷ pieces) last = i.gap ++ (word i ++ joined pieces last)

-- The tokens of the words, with `p` bytes in front of the text.
abbrev pub tokens : ℕ → List Piece → List Token
tokens p [] = []
tokens p (i ∷ pieces) =
    record { start = p + length i.gap; len = length (word i) }
    ∷ tokens (p + length i.gap + length (word i)) pieces

-- The gaps are delimiters, the words have none, and behind a word a gap is not empty.
abbrev pub IsPieces : List ℕ → Bool → List Piece → Type 0
IsPieces delim behind_word [] = 0 ≤ 0
IsPieces delim behind_word (i ∷ pieces) =
    All (λ c. is_sep delim c ≡ true) i.gap
    × (behind_word ≡ true → i.gap ≢ [])
    × All (λ c. is_sep delim c ≡ false) (word i)
    × IsPieces delim true pieces

lengthen-last :
    (toks : List Token) (t : Token)
    → lengthen (toks ++ t ∷ []) ≡ some (toks ++ record t { len = t.len + 1 } ∷ [])
unfolding lengthen
lengthen-last [] t = refl
lengthen-last (u ∷ []) t = refl
lengthen-last (u ∷ v ∷ toks) t = rw (lengthen-last (v ∷ toks) t)

abbrev behind_gap : Bool → List ℕ → Bool
behind_gap started [] = started
behind_gap started (c ∷ gap) = false

module _ (delim : List ℕ) where
  gap_loop :
      (gap text : List ℕ) (room p : ℕ) (started : Bool) (toks : List Token)
      → All (λ c. is_sep delim c ≡ true) gap
      → tok_loop delim room p started toks (gap ++ text)
        ≡ tok_loop delim room (p + length gap) (behind_gap started gap) toks text
  unfolding tok_loop
  gap_loop [] text room p started toks h = ground arith
  gap_loop (c ∷ []) text room p started toks h = ground (arith, h.0)
  gap_loop (c ∷ d ∷ gap) text room p started toks h =
      ground (arith, h.0, gap_loop (d ∷ gap) text room (p + 1) false toks h.1)

  word_loop :
      (w text : List ℕ) (room p : ℕ) (toks : List Token) (t : Token)
      → All (λ c. is_sep delim c ≡ false) w
      → tok_loop delim room p true (toks ++ t ∷ []) (w ++ text)
        ≡ tok_loop delim room
            (p + length w)
            true
            (toks ++ record t { len = t.len + length w } ∷ [])
            text
  unfolding tok_loop
  word_loop [] text room p toks t h = ground arith
  word_loop (c ∷ w) text room p toks t h = ground (
    arith,
    h.0,
    lengthen-last toks t,
    word_loop w text room (p + 1) toks (record t { len = t.len + 1 }) h.1,
  )

  pushed_word :
      (i : Piece) (text : List ℕ) (room p : ℕ) (toks : List Token)
      → All (λ c. is_sep delim c ≡ false) (word i)
      → 0 < room
      → tok_loop delim room p false toks (word i ++ text)
        ≡ tok_loop delim
            (room - 1)
            (p + length (word i))
            true
            (toks ++ record { start = p; len = length (word i) } ∷ [])
            text
  unfolding tok_loop
  pushed_word i text room p toks h pos = ground (
    arith,
    h.0,
    lengthen-last toks (record { start = p; len = 0 }),
    word_loop i.tail text (room - 1) (p + 1) toks (record { start = p; len = 1 }) h.1,
  )

  end_loop :
      (last : List ℕ) (room p : ℕ) (started : Bool) (toks : List Token)
      → All (λ c. is_sep delim c ≡ true) last
      → tok_loop delim room p started toks last ≡ some toks
  unfolding tok_loop
  end_loop [] room p started toks h = refl
  end_loop (c ∷ last) room p started toks h =
      ground (arith, h.0, end_loop last room (p + 1) false toks h.1)

  not_started :
      (gap : List ℕ) (started : Bool) → (started ≡ true → gap ≢ []) → behind_gap started gap ≡ false
  not_started [] true h = absurd (h refl refl)
  not_started [] false h = refl
  not_started (c ∷ gap) started h = refl

  pieces_loop :
      (pieces : List Piece) (last : List ℕ) (room p : ℕ) (started : Bool) (toks : List Token)
      → IsPieces delim started pieces
      → All (λ c. is_sep delim c ≡ true) last
      → length pieces ≤ room
      → tok_loop delim room p started toks (joined pieces last) ≡ some (toks ++ tokens p pieces)
  pieces_loop [] last room p started toks h seps enough =
      rw (append-nil toks) (end_loop last room p started toks seps)
  pieces_loop (i ∷ pieces) last room p started toks (gap, apart, in_word, rest) seps enough =
      let at = p + length i.gap in
      let t : Token = record { start = at; len = length (word i) } in
      gap_loop i.gap (word i ++ joined pieces last) room p started toks gap
      ∙ (rw (not_started i.gap started apart) (
          pushed_word i (joined pieces last) room at toks in_word (omega (arith, enough))
          ∙ pieces_loop pieces last (room - 1) (at + length (word i)) true (toks ++ t ∷ []) rest
              seps (omega (arith, enough))
          ∙ ap some (append_assoc toks (t ∷ []) (tokens (at + length (word i)) pieces))))

-- The words, each with a 0 behind it.
abbrev pub copies : List Piece → List (List ℕ)
copies [] = []
copies (i ∷ pieces) = (word i ++ 0 ∷ []) ∷ copies pieces

copy_loop-tokens :
    (pieces : List Piece) (last src : List ℕ) (room p : ℕ)
    → drop p src ≡ joined pieces last
    → length pieces ≤ room
    → copy_loop room src (tokens p pieces) ≡ some (copies pieces)
unfolding copy_loop
copy_loop-tokens [] last src room p at enough = refl
copy_loop-tokens (i ∷ pieces) last src room p at enough =
    let rest = joined pieces last in
    let behind_gaps : drop (p + length i.gap) src ≡ word i ++ rest =
      drop-drop p (length i.gap) src
      ∙ ap (drop (length i.gap)) at
      ∙ drop-append i.gap (word i ++ rest) in
    let behind_word : drop (p + length i.gap + length (word i)) src ≡ rest =
      drop-drop (p + length i.gap) (length (word i)) src
      ∙ ap (drop (length (word i))) behind_gaps
      ∙ drop-append (word i) rest in
    let copied : copy_token src (record { start = p + length i.gap; len = length (word i) })
        ≡ word i ++ 0 ∷ [] =
      rw behind_gaps (ap (λ w. w ++ 0 ∷ []) (take-append (word i) rest)) in
    let later =
      copy_loop-tokens pieces last src (room - 1) (p + length i.gap + length (word i)) behind_word
        (omega (arith, enough)) in
    let some_room : (room == 0) ≡ false = ground (arith, enough) in rw (some_room, later, copied)

strtok-loop :
    (delim : List ℕ) (room : ℕ) (text : List ℕ)
    → text ≢ []
    → strtok true room text (some delim) ≡ tok_loop delim room 0 false [] text
unfolding strtok
strtok-loop delim room [] h = absurd (h refl)
strtok-loop delim room (c ∷ text) h = ground arith

-- For a text of words that have no delimiter, with delimiters between them and perhaps in front and
-- behind, not empty, and with memory for the words, `hcore_strtok` gives a token for each word, in
-- their order, where the word stands and of its length; `hcore_strtokz`, with memory for the copies
-- too, gives each word with a 0 behind it.
pub strtok-joined :
    (delim : List ℕ) (pieces : List Piece) (last : List ℕ) (room room' : ℕ)
    → IsPieces delim false pieces
    → All (λ c. is_sep delim c ≡ true) last
    → joined pieces last ≢ []
    → length pieces ≤ room
    → length pieces ≤ room'
    → (strtok true room (joined pieces last) (some delim) ≡ some (tokens 0 pieces))
      × (strtokz true room room' (joined pieces last) (some delim) ≡ some (copies pieces))
strtok-joined delim pieces last room room' h seps filled enough enough' =
    let found =
      strtok-loop delim room (joined pieces last) filled
      ∙ pieces_loop delim pieces last room 0 false [] h seps enough in
    (
      found,
      (unfold strtokz in
          rw found (copy_loop-tokens pieces last (joined pieces last) room' 0 refl enough')),
    )
