-- ===== src/Rag/Boundaries.antt =====
-- `split_at_boundaries` of app/rag/chunking.py. A boundary is held one higher than in the source,
-- so that 0 is Python's -1 and `boundary += 1` is no change. The loops run on fuel: a piece takes
-- one character at least, and the word break moves back.
pub mod Whole
use give_exit.Prelude.{
  ℕ, zero, suc, ◌+◌, ◌-◌, ◌/◌, max, Text, Bool, true, false, not, ◌&&◌, ◌||◌, List, [], ◌∷◌, ltb,
  leb, ◌==◌, length, take, drop, any, is_space, text_eq, starts_with, if◌then◌else◌,
}

-- text.rfind(needle, 0, limit), from index `i`
unfoldable pub rfind : Text → ℕ → ℕ → Text → ℕ
rfind needle limit i [] = 0
rfind needle limit i (c ∷ cs) =
    let later = rfind needle limit (i + 1) cs in
    if ltb 0 later
    then later
    else if starts_with needle (c ∷ cs) && leb (i + length needle) limit
    then i + 1
    else 0

unfoldable pub ends_with : Text → Text → Bool
ends_with suffix text =
    leb (length suffix) (length text) && text_eq (drop (length text - length suffix) text) suffix

-- _CURRENCY_SYMBOLS: "R$", "US$", "$", "€"
abbrev pub currency_symbols : List Text
currency_symbols = (82 ∷ 36 ∷ []) ∷ (85 ∷ 83 ∷ 36 ∷ []) ∷ (36 ∷ []) ∷ (0x20ac ∷ []) ∷ []

abbrev pub space : Text
space = 32 ∷ []

-- The `while` that moves the word break off a currency symbol.
unfoldable pub move_back : ℕ → Text → ℕ → ℕ
move_back zero text boundary = boundary
move_back (suc fuel) text boundary =
    let earlier = move_back fuel text (rfind space (boundary - 1) 0 text) in
    if leb boundary 1
    then boundary
    else if any (λ s. ends_with s (take (boundary - 1) text)) currency_symbols
    then earlier
    else boundary

-- Where the first piece of a text longer than `max_chars` ends.
unfoldable pub cut : ℕ → Text → ℕ
cut max_chars text =
    let sentence =
      max (rfind (46 ∷ 32 ∷ []) max_chars 0 text) (rfind (59 ∷ 32 ∷ []) max_chars 0 text) in
    let word = move_back max_chars text (rfind space max_chars 0 text) in
    let boundary = if ltb sentence (max_chars / 2 + 1) then word else sentence in
    if ltb boundary (max_chars / 2 + 1) then max_chars else boundary

unfoldable pub lstrip : Text → Text
lstrip [] = []
lstrip (c ∷ cs) = if is_space c then lstrip cs else c ∷ cs

abbrev pub is_blank : Text → Bool
is_blank [] = true
is_blank (c ∷ cs) = false

unfoldable pub rstrip : Text → Text
rstrip [] = []
rstrip (c ∷ cs) = let rest = rstrip cs in if is_space c && is_blank rest then [] else c ∷ rest

-- text.strip()
unfoldable pub strip : Text → Text
unfolding lstrip rstrip
strip text = rstrip (lstrip text)

abbrev pub last_piece : Text → List Text
last_piece [] = []
last_piece (c ∷ cs) = (c ∷ cs) ∷ []

unfoldable pub split_loop : ℕ → ℕ → Text → List Text
split_loop zero max_chars remaining = []
split_loop (suc fuel) max_chars remaining =
    let rest = split_loop fuel max_chars (strip (drop (cut max_chars remaining) remaining)) in
    if ltb max_chars (length remaining)
    then strip (take (cut max_chars remaining) remaining) ∷ rest
    else last_piece remaining

unfoldable pub split_at_boundaries : Text → ℕ → List Text
split_at_boundaries text max_chars = split_loop (length text + 1) max_chars text
