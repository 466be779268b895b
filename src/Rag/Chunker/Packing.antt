-- ===== src/Rag/Chunker/Packing.antt =====
-- What the chunks of `SectionAwareChunker` (app/rag/chunking.py) hold, and how they are numbered.
use give_exit.Prelude.{
  ℕ, ◌+◌, ◌-◌, ◌≤◌, ◌<◌, ◌≡◌, refl, sym, subst, inl, inr, Text, Bool, true, false, ◌&&◌, Option,
  List, [], ◌∷◌, ◌++◌, map, ltb, leb, ◌==◌, length, length-drop, All, All-map, All-append, Any,
  arith, Bool-cases,
}
use give_exit.Rag.Boundaries.{split_at_boundaries}
use give_exit.Rag.Boundaries.Whole.{split_at_boundaries_lem}
use give_exit.Rag.Chunker.{
  Page, Section, SectionChunk, is_filled, last_chars, after_space, word_aligned_tail, size_of,
  carry, pack, pieces_of, number_chunks, chunk_section, chunk_sections, chunk_document,
}

after_space_le :
    (n : ℕ) (whole t : Text) → length whole ≤ n → length t ≤ n → length (after_space whole t) ≤ n
unfolding after_space
after_space_le n whole [] h k = h
after_space_le n whole (c ∷ cs) h k =
    let rest = after_space_le n whole cs h (omega (arith, k)) in
    elim (Bool-cases (c == 32)) [
      | inl e ↦ elim (Bool-cases (is_filled cs)) [
        | inl f ↦ rw e (rw f (omega (arith, k)))
        | inr f ↦ rw e (rw f h)
      ]
      | inr e ↦ rw e rest
    ]

last_chars_le : (overlap : ℕ) (t : Text) → 1 ≤ overlap → length (last_chars overlap t) ≤ overlap
last_chars_le overlap t h = ground (arith, h, length-drop (length t - overlap) t)

word_aligned_tail_le :
    (t : Text) (overlap : ℕ) → 1 ≤ overlap → length (word_aligned_tail t overlap) ≤ overlap
unfolding word_aligned_tail
word_aligned_tail_le t overlap h =
    after_space_le overlap (last_chars overlap t) (last_chars overlap t) (last_chars_le overlap t h)
      (last_chars_le overlap t h)

size-carry : (overlap : ℕ) (b : List (ℕ × Text)) → 1 ≤ overlap → size_of (carry overlap b) ≤ overlap
unfolding carry
size-carry overlap [] h = omega arith
size-carry overlap (p ∷ []) h = ground (arith, word_aligned_tail_le p.1 overlap h)
size-carry overlap (p ∷ q ∷ ps) h = size-carry overlap (q ∷ ps) h

size-append : (b c : List (ℕ × Text)) → size_of (b ++ c) ≡ size_of b + size_of c
size-append [] c = omega arith
size-append (p ∷ b) c = omega (arith, size-append b c)

fits_of_ltb : (n m : ℕ) → ltb n m ≡ false → m ≤ n
fits_of_ltb n m e = ground (arith, e)

module _ (target overlap : ℕ) where
  pack-size :
      (ps b : List (ℕ × Text))
      → 1 ≤ overlap
      → All (λ p. length p.1 ≤ target) ps
      → size_of b ≤ target + overlap
      → All (λ c. size_of c ≤ target + overlap) (pack target overlap ps b)
  unfolding pack
  pack-size [] [] h hp hb = tt
  pack-size [] (x ∷ b) h hp hb = (hb, tt)
  pack-size (p ∷ ps) [] h hp hb =
      let grown = pack-size ps (p ∷ []) h hp.1 (omega (arith, hp.0)) in
      elim (Bool-cases (ltb target (0 + length p.1))) [ inl e ↦ rw e grown | inr e ↦ rw e grown ]
  pack-size (p ∷ ps) (x ∷ b) h hp hb =
      elim (Bool-cases (ltb target (size_of (x ∷ b) + length p.1))) [
        | inl e ↦ rw e (
          hb,
          pack-size ps (carry overlap (x ∷ b) ++ p ∷ []) h hp.1 (
              omega (
                arith,
                size-append (carry overlap (x ∷ b)) (p ∷ []),
                size-carry overlap (x ∷ b) h,
                hp.0,
              )),
        )
        | inr e ↦ rw e (
            pack-size ps (x ∷ b ++ p ∷ []) h hp.1 (
              omega (
                arith,
                size-append (x ∷ b) (p ∷ []),
                fits_of_ltb target (size_of (x ∷ b) + length p.1) e,
              )))
      ]

  -- The piece stands in one of the buffers.
  abbrev pub IsHeld : ℕ × Text → List (List (ℕ × Text)) → Type 0
  IsHeld p = Any (λ b. Any (λ q. q ≡ p) b)

  Any-left : (p : ℕ × Text) (b c : List (ℕ × Text)) → Any (λ q. q ≡ p) b → Any (λ q. q ≡ p) (b ++ c)
  Any-left p [] c h = elim h [ ]
  Any-left p (x ∷ b) c (inl e) = inl e
  Any-left p (x ∷ b) c (inr h) = inr (Any-left p b c h)

  Any-last : (p : ℕ × Text) (b : List (ℕ × Text)) → Any (λ q. q ≡ p) (b ++ p ∷ [])
  Any-last p [] = inl refl
  Any-last p (x ∷ b) = inr (Any-last p b)

  pack-buffered :
      (p : ℕ × Text) (ps b : List (ℕ × Text))
      → Any (λ q. q ≡ p) b
      → IsHeld p (pack target overlap ps b)
  unfolding pack
  pack-buffered p [] [] h = elim h [ ]
  pack-buffered p [] (x ∷ b) h = inl h
  pack-buffered p (r ∷ ps) b h =
      elim (Bool-cases (ltb target (size_of b + length r.1) && is_filled b)) [
        | inl e ↦ rw e (inl h)
        | inr e ↦ rw e (pack-buffered p ps (b ++ r ∷ []) (Any-left p b (r ∷ []) h))
      ]

  abbrev must_flush : List (ℕ × Text) → ℕ × Text → Bool
  must_flush b p = ltb target (size_of b + length p.1) && is_filled b

  pack-flush :
      (p : ℕ × Text) (ps b : List (ℕ × Text))
      → must_flush b p ≡ true
      → pack target overlap (p ∷ ps) b ≡ b ∷ pack target overlap ps (carry overlap b ++ p ∷ [])
  unfolding pack
  pack-flush p ps b e = rw e refl

  pack-grow :
      (p : ℕ × Text) (ps b : List (ℕ × Text))
      → must_flush b p ≡ false
      → pack target overlap (p ∷ ps) b ≡ pack target overlap ps (b ++ p ∷ [])
  unfolding pack
  pack-grow p ps b e = rw e refl

  pack-IsHeld : (ps b : List (ℕ × Text)) → All (λ p. IsHeld p (pack target overlap ps b)) ps
  pack-IsHeld [] b = tt
  pack-IsHeld (p ∷ ps) b = elim (Bool-cases (must_flush b p)) [
    | inl e ↦
        subst (λ bs. All (λ q. IsHeld q bs) (p ∷ ps)) (sym (pack-flush p ps b e))
          (
            inr (pack-buffered p ps (carry overlap b ++ p ∷ []) (Any-last p (carry overlap b))),
            All-map (λ q. IsHeld q (pack target overlap ps (carry overlap b ++ p ∷ [])))
                (λ q. IsHeld q (b ∷ pack target overlap ps (carry overlap b ++ p ∷ []))) ps
                (λ q h. inr h) (pack-IsHeld ps (carry overlap b ++ p ∷ [])),
          )
    | inr e ↦
        subst (λ bs. All (λ q. IsHeld q bs) (p ∷ ps)) (sym (pack-grow p ps b e))
          (pack-buffered p ps (b ++ p ∷ []) (Any-last p b), pack-IsHeld ps (b ++ p ∷ []))
  ]

  placed-fits :
      (page : ℕ) (ts : List Text)
      → All (λ t. length t ≤ target - overlap) ts
      → All {A = ℕ × Text} (λ p. length p.1 ≤ target) (map (λ t. (page, t)) ts)
  placed-fits page [] h = tt
  placed-fits page (t ∷ ts) h = (omega (arith, h.0), placed-fits page ts h.1)

  pieces-fit :
      (ps : List (ℕ × Text))
      → overlap < target
      → All (λ p. length p.1 ≤ target) (pieces_of target overlap ps)
  unfolding pieces_of
  pieces-fit [] h = tt
  pieces-fit (p ∷ ps) h = elim (Bool-cases (leb (length p.1) target)) [
    | inl e ↦ rw e (ground (arith, e), pieces-fit ps h)
    | inr e ↦ rw e (
        All-append (λ (q : ℕ × Text). length q.1 ≤ target)
          (map (λ t. (p.0, t)) (split_at_boundaries p.1 (target - overlap)))
          (pieces_of target overlap ps)
          (placed-fits p.0 _ (split_at_boundaries_lem p.1 (target - overlap) (omega (arith, h))).0)
          (pieces-fit ps h))
  ]

  -- With an overlap of at least one character that is below the target, every chunk's
  -- paragraphs have at most `target + overlap` characters together, and every paragraph of a
  -- section, or every piece of one that is split, stands whole in one of the section's chunks.
  pub pack_lem :
      (paragraphs : List (ℕ × Text))
      → 1 ≤ overlap
      → overlap < target
      → All
          (λ b. size_of b ≤ target + overlap)
          (pack target overlap (pieces_of target overlap paragraphs) [])
        × All
            (λ p. IsHeld p (pack target overlap (pieces_of target overlap paragraphs) []))
            (pieces_of target overlap paragraphs)
  pack_lem paragraphs h k = (
    pack-size (pieces_of target overlap paragraphs) [] h (pieces-fit paragraphs k) (omega arith),
    pack-IsHeld (pieces_of target overlap paragraphs) [],
  )

-- The chunks are numbered one after the other from `i`.
abbrev pub AreNumbered : ℕ → List SectionChunk → Type 0
AreNumbered i [] = Unit
AreNumbered i (c ∷ cs) = (c.index ≡ i) × AreNumbered (i + 1) cs

AreNumbered-number_chunks :
    (i : ℕ) (title : Option Text) (bs : List (List (ℕ × Text)))
    → AreNumbered i (number_chunks i title bs)
unfolding number_chunks
AreNumbered-number_chunks i title [] = tt
AreNumbered-number_chunks i title (b ∷ bs) = (refl, AreNumbered-number_chunks (i + 1) title bs)

AreNumbered-append :
    (i j : ℕ) (cs ds : List SectionChunk)
    → i + length cs ≡ j
    → AreNumbered i cs
    → AreNumbered j ds
    → AreNumbered i (cs ++ ds)
AreNumbered-append i j [] ds e h k = subst (λ n. AreNumbered n ds) (omega (arith, e)) k
AreNumbered-append i j (c ∷ cs) ds e h k =
    (h.0, AreNumbered-append (i + 1) j cs ds (omega (arith, e)) h.1 k)

AreNumbered-chunk_sections :
    (target overlap : ℕ) (ss : List Section) (i : ℕ)
    → AreNumbered i (chunk_sections target overlap ss i)
unfolding chunk_sections chunk_section
AreNumbered-chunk_sections target overlap [] i = tt
AreNumbered-chunk_sections target overlap (s ∷ ss) i =
    AreNumbered-append i (i + length (chunk_section target overlap s i))
      (chunk_section target overlap s i) _ refl
      (AreNumbered-number_chunks i s.title
        (pack target overlap (pieces_of target overlap s.paragraphs) []))
      (AreNumbered-chunk_sections target overlap ss (i + length (chunk_section target overlap s i)))

-- The chunks of a document are numbered 0, 1, 2, ... across its sections, in either mode: with the
-- document's id these numbers are the chunk ids, so no id stands twice.
pub chunk_document_lem :
    (is_alpha is_upper : ℕ → Bool) (page_preserving : Bool) (target overlap : ℕ) (pages : List Page)
    → AreNumbered 0 (chunk_document is_alpha is_upper page_preserving target overlap pages)
unfolding chunk_document
chunk_document_lem is_alpha is_upper page_preserving target overlap pages =
    AreNumbered-chunk_sections target overlap _ 0
