-- ===== src/Rag/Chunker.antt =====
-- `SectionAwareChunker` of app/rag/chunking.py, on code points. Unicode's letters and upper case
-- are arguments. A chunk's id, the document's id and a number of four digits or more, is kept as
-- the number. The running `size` is the sum of the buffer's lengths, which is what it holds.
pub mod Packing
use give_exit.Prelude.{
  ℕ, zero, suc, ◌+◌, ◌-◌, ◌*◌, min, max, Text, Bool, true, false, not, ◌&&◌, ◌||◌, Option, none,
  some, List, [], ◌∷◌, ◌++◌, map, ltb, leb, ◌==◌, length, take, drop, filter, is_space, words,
  unwords, if◌then◌else◌,
}
use give_exit.Rag.Boundaries.{split_at_boundaries, strip}

-- `ParsedDocument`, the pages
pub record Page : Type 0 where
  pub number : ℕ
  pub text : Text

pub record Section : Type 0 where
  pub title : Option Text
  pub paragraphs : List (ℕ × Text)

pub record SectionChunk : Type 0 where
  pub index : ℕ
  pub text : Text
  pub section : Option Text
  pub page_start : ℕ
  pub page_end : ℕ

module _ (is_alpha is_upper : ℕ → Bool) where
  -- upper / len(letters) >= 0.9
  unfoldable pub is_heading : Text → Bool
  is_heading line =
      let stripped = strip line in
      let letters = filter is_alpha stripped in
      let upper = filter is_upper letters in
      if ltb 0 (length stripped) && leb (length stripped) 80
      then leb 3 (length letters) && leb (9 * length letters) (10 * length upper)
      else false

abbrev extend_block : ℕ → List Text → List Text
extend_block c [] = (c ∷ []) ∷ []
extend_block c (b ∷ bs) = (c ∷ b) ∷ bs

-- text.split("\n\n")
unfoldable pub split_blocks : Text → List Text
split_blocks [] = [] ∷ []
split_blocks (c ∷ []) = (c ∷ []) ∷ []
split_blocks (c ∷ d ∷ cs) =
    let after_break = split_blocks cs in
    let after_char = split_blocks (d ∷ cs) in
    if (c == 10) && (d == 10) then [] ∷ after_break else extend_block c after_char

abbrev pub is_filled {ℓ} : {A : Type ℓ} → List A → Bool
is_filled [] = false
is_filled (x ∷ xs) = true

-- `_paragraphs`
unfoldable pub paragraphs_of : Text → List Text
unfolding split_blocks
paragraphs_of text = filter is_filled (map (λ block. unwords (words block)) (split_blocks text))

unfoldable pub page_paragraphs : List Page → List (ℕ × Text)
unfolding paragraphs_of
page_paragraphs [] = []
page_paragraphs (p ∷ ps) = map (λ t. (p.number, t)) (paragraphs_of p.text) ++ page_paragraphs ps

-- `_page_sections`
unfoldable pub page_sections : List Page → List Section
unfolding page_paragraphs
page_sections pages =
    filter (λ s. is_filled s.paragraphs)
      (map (λ p. record { title = none; paragraphs = page_paragraphs (p ∷ []) }) pages)

module _ (is_alpha is_upper : ℕ → Bool) where
  -- The loop of `_split_sections`, with the last section open.
  unfoldable pub open_section : Option Text → List (ℕ × Text) → List (ℕ × Text) → List Section
  open_section title body [] = record { title = title; paragraphs = body } ∷ []
  open_section title body (p ∷ ps) =
      let closed = open_section (some p.1) [] ps in
      let longer = open_section title (body ++ p ∷ []) ps in
      if is_heading is_alpha is_upper p.1
      then record { title = title; paragraphs = body } ∷ closed
      else longer

  unfoldable pub split_sections : List Page → List Section
  split_sections pages =
      filter (λ s. is_filled s.paragraphs) (open_section none [] (page_paragraphs pages))

-- paragraph[-overlap:], the whole paragraph when `overlap` is 0
abbrev pub last_chars : ℕ → Text → Text
last_chars overlap t = if overlap == 0 then t else drop (length t - overlap) t

-- The text behind its first space; the whole of it when it has none or nothing follows.
unfoldable pub after_space : Text → Text → Text
after_space whole [] = whole
after_space whole (c ∷ cs) =
    let rest = after_space whole cs in
    if c == 32 then (if is_filled cs then cs else whole) else rest

unfoldable pub word_aligned_tail : Text → ℕ → Text
unfolding after_space
word_aligned_tail paragraph overlap =
    after_space (last_chars overlap paragraph) (last_chars overlap paragraph)

abbrev pub size_of : List (ℕ × Text) → ℕ
size_of [] = 0
size_of (p ∷ ps) = length p.1 + size_of ps

-- What `flush` leaves in the buffer.
unfoldable pub carry : ℕ → List (ℕ × Text) → List (ℕ × Text)
carry overlap [] = []
carry overlap (p ∷ []) =
    if ltb overlap (length p.1) then (p.0, word_aligned_tail p.1 overlap) ∷ [] else []
carry overlap (p ∷ q ∷ ps) = carry overlap (q ∷ ps)

-- The loops over the paragraphs, on their pieces: the buffers that become chunks.
unfoldable pub pack : ℕ → ℕ → List (ℕ × Text) → List (ℕ × Text) → List (List (ℕ × Text))
pack target overlap [] buffer = if is_filled buffer then buffer ∷ [] else []
pack target overlap (p ∷ ps) buffer =
    let flushed = pack target overlap ps (carry overlap buffer ++ p ∷ []) in
    let grown = pack target overlap ps (buffer ++ p ∷ []) in
    if ltb target (size_of buffer + length p.1) && is_filled buffer then buffer ∷ flushed else grown

-- A paragraph, or its pieces with room left for the overlap.
unfoldable pub pieces_of : ℕ → ℕ → List (ℕ × Text) → List (ℕ × Text)
pieces_of target overlap [] = []
pieces_of target overlap (p ∷ ps) =
    (if leb (length p.1) target
      then p ∷ []
      else map (λ t. (p.0, t)) (split_at_boundaries p.1 (target - overlap)))
    ++ pieces_of target overlap ps

-- "\n".join(...)
abbrev join_lines : List (ℕ × Text) → Text
join_lines [] = []
join_lines (p ∷ []) = p.1
join_lines (p ∷ q ∷ ps) = p.1 ++ 10 ∷ join_lines (q ∷ ps)

abbrev titled : Option Text → Text → Text
titled none text = text
titled (some title) text = 91 ∷ title ++ 93 ∷ 10 ∷ text

abbrev first_page : List (ℕ × Text) → ℕ
first_page [] = 0
first_page (p ∷ []) = p.0
first_page (p ∷ q ∷ ps) = min p.0 (first_page (q ∷ ps))

abbrev last_page : List (ℕ × Text) → ℕ
last_page [] = 0
last_page (p ∷ ps) = max p.0 (last_page ps)

unfoldable pub number_chunks : ℕ → Option Text → List (List (ℕ × Text)) → List SectionChunk
number_chunks index title [] = []
number_chunks index title (b ∷ bs) =
    record {
      index = index;
      text = titled title (join_lines b);
      section = title;
      page_start = first_page b;
      page_end = last_page b;
    }
    ∷ number_chunks (index + 1) title bs

-- `_chunk_section`
unfoldable pub chunk_section : ℕ → ℕ → Section → ℕ → List SectionChunk
chunk_section target overlap s start_index =
    number_chunks start_index s.title
      (pack target overlap (pieces_of target overlap s.paragraphs) [])

unfoldable pub chunk_sections : ℕ → ℕ → List Section → ℕ → List SectionChunk
chunk_sections target overlap [] start_index = []
chunk_sections target overlap (s ∷ ss) start_index =
    let chunks = chunk_section target overlap s start_index in
    chunks ++ chunk_sections target overlap ss (start_index + length chunks)

-- `chunk`
unfoldable pub chunk_document :
    (is_alpha is_upper : ℕ → Bool) (page_preserving : Bool) (target overlap : ℕ)
    → List Page
    → List SectionChunk
chunk_document is_alpha is_upper page_preserving target overlap pages =
    chunk_sections target overlap
      (if page_preserving then page_sections pages else split_sections is_alpha is_upper pages) 0
