-- ===== src/Rag/Boundaries/Whole.antt =====
-- `split_at_boundaries` of app/rag/chunking.py loses no character but white space.
use give_exit.Prelude.{
  ℕ, zero, suc, ◌+◌, ◌-◌, ◌≤◌, ◌<◌, ◌≡◌, refl, ap, ◌∙◌, inl, inr, Text, not, ◌&&◌, List, [], ◌∷◌,
  ◌++◌, ltb, length, take, drop, filter, All, length-take, length-drop, is_space, if◌then◌else◌,
  arith, Bool-cases, ltb→lt,
}
use mathlib.Core.List.{append-nil}
use give_exit.Rag.Boundaries.{
  rfind, is_blank, move_back, cut, lstrip, rstrip, strip, last_piece, split_loop,
  split_at_boundaries, space,
}

-- The characters that are not white space.
abbrev pub solid : Text → Text
solid = filter (λ c. not (is_space c))

abbrev pub solid_of : List Text → Text
solid_of [] = []
solid_of (p ∷ ps) = solid p ++ solid_of ps

rfind_le :
    (needle : Text) (limit i : ℕ) (text : Text)
    → 1 ≤ length needle
    → rfind needle limit i text ≤ limit
unfolding rfind
rfind_le needle limit i [] h = omega arith
rfind_le needle limit i (c ∷ cs) h = ground (arith, rfind_le needle limit (i + 1) cs h)

move_back_le :
    (fuel : ℕ) (text : Text) (boundary limit : ℕ)
    → boundary ≤ limit
    → move_back fuel text boundary ≤ limit
unfolding move_back
move_back_le zero text boundary limit h = h
move_back_le (suc fuel) text boundary limit h =
    let earlier = rfind_le space (boundary - 1) 0 text (omega arith) in
    ground (
      arith,
      h,
      earlier,
      move_back_le fuel text (rfind space (boundary - 1) 0 text) limit (omega (arith, h, earlier)),
    )

cut_bounds :
    (max_chars : ℕ) (text : Text)
    → 1 ≤ max_chars
    → (1 ≤ cut max_chars text) × (cut max_chars text ≤ max_chars)
unfolding cut
cut_bounds max_chars text h =
    let word =
      move_back_le max_chars text (rfind space max_chars 0 text) max_chars
        (rfind_le space max_chars 0 text (omega arith)) in
    ground (
      arith,
      h,
      word,
      rfind_le (46 ∷ 32 ∷ []) max_chars 0 text (omega arith),
      rfind_le (59 ∷ 32 ∷ []) max_chars 0 text (omega arith),
    )

solid-lstrip : (text : Text) → solid (lstrip text) ≡ solid text
unfolding lstrip
solid-lstrip [] = refl
solid-lstrip (c ∷ cs) = elim (Bool-cases (is_space c)) [
  | inl e ↦ rw e (solid-lstrip cs)
  | inr e ↦ rw e (rw e refl)
]

length-lstrip : (text : Text) → length (lstrip text) ≤ length text
unfolding lstrip
length-lstrip [] = omega arith
length-lstrip (c ∷ cs) = ground (arith, length-lstrip cs)

solid-rstrip_step :
    (c : ℕ) (r : Text) → solid (if is_space c && is_blank r then [] else c ∷ r) ≡ solid (c ∷ r)
solid-rstrip_step c [] = elim (Bool-cases (is_space c)) [
  | inl e ↦ rw e refl
  | inr e ↦ rw e (rw e refl)
]
solid-rstrip_step c (d ∷ ds) = elim (Bool-cases (is_space c)) [
  | inl e ↦ rw e (rw e refl)
  | inr e ↦ rw e (rw e refl)
]

solid-rstrip : (text : Text) → solid (rstrip text) ≡ solid text
unfolding rstrip
solid-rstrip [] = refl
solid-rstrip (c ∷ cs) =
    solid-rstrip_step c (rstrip cs)
    ∙ ap (λ t. if not (is_space c) then c ∷ t else t) (solid-rstrip cs)

length-rstrip : (text : Text) → length (rstrip text) ≤ length text
unfolding rstrip
length-rstrip [] = omega arith
length-rstrip (c ∷ cs) = ground (arith, length-rstrip cs)

solid-strip : (text : Text) → solid (strip text) ≡ solid text
unfolding strip
solid-strip text = solid-rstrip (lstrip text) ∙ solid-lstrip text

length-strip : (text : Text) → length (strip text) ≤ length text
unfolding strip
length-strip text = omega (arith, length-rstrip (lstrip text), length-lstrip text)

solid-take-drop : (n : ℕ) (text : Text) → solid (take n text) ++ solid (drop n text) ≡ solid text
solid-take-drop zero text = refl
solid-take-drop (suc n) [] = refl
solid-take-drop (suc n) (c ∷ cs) = elim (Bool-cases (is_space c)) [
  | inl e ↦ rw e (solid-take-drop n cs)
  | inr e ↦ rw e (ap (λ t. c ∷ t) (solid-take-drop n cs))
]

-- One character at least is taken off each time.
shrinks :
    (max_chars fuel : ℕ) (text : Text)
    → 1 ≤ max_chars
    → max_chars < length text
    → length text ≤ fuel
    → length (strip (drop (cut max_chars text) text)) < fuel
shrinks max_chars fuel text h long k = omega (
  arith,
  h,
  long,
  k,
  length-strip (drop (cut max_chars text) text),
  length-drop (cut max_chars text) text,
  (cut_bounds max_chars text h).0,
)

last_piece-solid : (text : Text) → solid_of (last_piece text) ≡ solid text
last_piece-solid [] = refl
last_piece-solid (c ∷ cs) = append-nil (solid (c ∷ cs))

last_piece-fits :
    (n : ℕ) (text : Text) → length text ≤ n → All (λ p. length p ≤ n) (last_piece text)
last_piece-fits n [] h = tt
last_piece-fits n (c ∷ cs) h = (h, tt)

split_loop-fits :
    (fuel max_chars : ℕ) (text : Text)
    → 1 ≤ max_chars
    → All (λ p. length p ≤ max_chars) (split_loop fuel max_chars text)
unfolding split_loop
split_loop-fits zero max_chars text h = tt
split_loop-fits (suc fuel) max_chars text h = elim (Bool-cases (ltb max_chars (length text))) [
  | inl e ↦ rw e (
    omega (
      arith,
      length-strip (take (cut max_chars text) text),
      length-take (cut max_chars text) text,
      (cut_bounds max_chars text h).1,
    ),
    split_loop-fits fuel max_chars _ h,
  )
  | inr e ↦ rw e (last_piece-fits max_chars text (ground (arith, e)))
]

split_loop-solid :
    (fuel max_chars : ℕ) (text : Text)
    → 1 ≤ max_chars
    → length text < fuel
    → solid_of (split_loop fuel max_chars text) ≡ solid text
unfolding split_loop
split_loop-solid zero max_chars text h k = ground (arith, k)
split_loop-solid (suc fuel) max_chars text h k = elim (Bool-cases (ltb max_chars (length text))) [
  | inl e ↦ rw e (
      rw (solid-strip (take (cut max_chars text) text)) (
        rw
          (split_loop-solid fuel max_chars (strip (drop (cut max_chars text) text)) h
            (shrinks max_chars fuel text h (ltb→lt max_chars (length text) e) (omega (arith, k))))
          (rw (solid-strip (drop (cut max_chars text) text))
            (solid-take-drop (cut max_chars text) text))))
  | inr e ↦ rw e (last_piece-solid text)
]

-- Every piece holds at most `max_chars` characters, and the pieces one after the other have the
-- characters of the text, in order, but for white space; `max_chars` is at least one.
pub split_at_boundaries_lem :
    (text : Text) (max_chars : ℕ)
    → 1 ≤ max_chars
    → All (λ p. length p ≤ max_chars) (split_at_boundaries text max_chars)
      × (solid_of (split_at_boundaries text max_chars) ≡ solid text)
unfolding split_at_boundaries
split_at_boundaries_lem text max_chars h = (
  split_loop-fits (length text + 1) max_chars text h,
  split_loop-solid (length text + 1) max_chars text h (omega arith),
)
