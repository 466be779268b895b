-- ===== src/Evidence/Support/Identifiers.antt =====
-- When an identifier stands in the tokens of an excerpt: app/consumer/evidence_support.py.
use give_exit.Prelude.{
  ◌+◌, ◌≤◌, ◌<◌, ◌≡◌, ◌↔◌, refl, sym, ap, ◌∙◌, inl, inr, String, true, false, List, [], ◌∷◌, ◌++◌,
  ltb, leb, length, Text, codes, text_eq, text_eq_iff, arith, Bool-cases,
}
use give_exit.Evidence.Support.{
  extends_to, extends_somewhere, contains_compact_identifier, compact_of,
}

-- Consecutive tokens that spell the identifier.
abbrev pub IsSpelled : Text → List String → Type 0
IsSpelled identifier tokens =
    (before middle after : List String) × (tokens ≡ before ++ (middle ++ after))
    × (compact_of middle ≡ identifier)

-- The first tokens complete the candidate to the identifier.
abbrev IsCompleted : Text → Text → List String → Type 0
IsCompleted identifier candidate tokens =
    (middle after : List String) × (tokens ≡ middle ++ after)
    × (candidate ++ compact_of middle ≡ identifier)

append_assoc {ℓ} : {A : Type ℓ} (xs ys zs : List A) → (xs ++ ys) ++ zs ≡ xs ++ (ys ++ zs)
append_assoc [] ys zs = refl
append_assoc (x ∷ xs) ys zs = ap (λ l. x ∷ l) (append_assoc xs ys zs)

append-nil {ℓ} : {A : Type ℓ} (xs : List A) → xs ++ [] ≡ xs
append-nil [] = refl
append-nil (x ∷ xs) = ap (λ l. x ∷ l) (append-nil xs)

length-append {ℓ} : {A : Type ℓ} (xs ys : List A) → length (xs ++ ys) ≡ length xs + length ys
length-append [] ys = omega arith
length-append (x ∷ xs) ys = omega (arith, length-append xs ys)

nothing-left {ℓ} : {A : Type ℓ} (xs : List A) → length xs ≤ 0 → xs ≡ []
nothing-left [] h = refl
nothing-left (x ∷ xs) h = ground (arith, h)

extends_to_sound :
    (identifier candidate : Text) (ts : List String)
    → extends_to identifier candidate ts ≡ true
    → IsCompleted identifier candidate ts
unfolding extends_to compact_of
extends_to_sound identifier candidate [] h = cc
extends_to_sound identifier candidate (t ∷ ts) h =
    let grown = candidate ++ codes t in
    elim (Bool-cases (text_eq grown identifier)) [
      | inl here ↦ (
        t ∷ [],
        ts,
        refl,
        ap (λ x. candidate ++ x) (append-nil (codes t)) ∙ (text_eq_iff grown identifier).0 here,
      )
      | inr more ↦
          let (middle, after, split, spelled) =
            extends_to_sound identifier grown ts (ground (arith, h, more)) in
          (
            t ∷ middle,
            after,
            ap (λ x. t ∷ x) split,
            sym (append_assoc candidate (codes t) (compact_of middle)) ∙ spelled,
          )
    ]

extends_to_complete :
    (identifier candidate : Text) (middle after : List String)
    → length candidate < length identifier
    → candidate ++ compact_of middle ≡ identifier
    → extends_to identifier candidate (middle ++ after) ≡ true
unfolding extends_to compact_of
extends_to_complete identifier candidate [] after short spelled =
    let same = append-nil candidate in
    let e : candidate ≡ identifier = sym same ∙ spelled in
    ground (arith, short, ap (λ (x : Text). length x) e)
extends_to_complete identifier candidate (t ∷ middle) after short spelled =
    let grown = candidate ++ codes t in
    let spelled' : grown ++ compact_of middle ≡ identifier =
      append_assoc candidate (codes t) (compact_of middle) ∙ spelled in
    elim (Bool-cases (text_eq grown identifier)) [
      | inl here ↦ rw here refl
      | inr more ↦ elim (Bool-cases (leb (length identifier) (length grown))) [
        | inl long ↦
            let lengths = ap (λ (x : Text). length x) spelled' in
            let rest : compact_of middle ≡ [] =
              nothing-left (compact_of middle)
                (ground (arith, long, lengths, length-append grown (compact_of middle))) in
            let e : grown ≡ identifier = sym (append-nil grown) ∙ (rw (← rest) spelled') in
            let no : true ≡ false = sym ((text_eq_iff grown identifier).1 e) ∙ more in cc
        | inr room ↦ rw more (
            rw room
              (extends_to_complete identifier grown middle after (ground (arith, room)) spelled'))
      ]
    ]

extends_somewhere-IsSpelled :
    (identifier : Text) (ts : List String)
    → extends_somewhere identifier ts ≡ true
    → IsSpelled identifier ts
unfolding extends_somewhere
extends_somewhere-IsSpelled identifier [] h = cc
extends_somewhere-IsSpelled identifier (t ∷ ts) h =
    elim (Bool-cases (extends_to identifier [] (t ∷ ts))) [
      | inl here ↦
          let (middle, after, split, spelled) = extends_to_sound identifier [] (t ∷ ts) here in
          ([], middle, after, split, spelled)
      | inr later ↦
          let (before, middle, after, split, spelled) =
            extends_somewhere-IsSpelled identifier ts (ground (arith, h, later)) in
          (t ∷ before, middle, after, ap (λ x. t ∷ x) split, spelled)
    ]

spelled-extends_somewhere :
    (identifier : Text) (before middle after : List String)
    → 1 ≤ length identifier
    → compact_of middle ≡ identifier
    → extends_somewhere identifier (before ++ (middle ++ after)) ≡ true
unfolding extends_somewhere compact_of
spelled-extends_somewhere identifier [] [] after long spelled =
    ground (arith, long, ap (λ (x : Text). length x) spelled)
spelled-extends_somewhere identifier [] (t ∷ middle) after long spelled =
    rw (extends_to_complete identifier [] (t ∷ middle) after (omega (arith, long)) spelled) refl
spelled-extends_somewhere identifier (b ∷ before) middle after long spelled =
    ground (arith, spelled-extends_somewhere identifier before middle after long spelled)

-- The search with its early end finds an identifier exactly when it has four characters at least
-- and consecutive tokens spell it, however punctuation split it.
pub contains_compact_identifier_lem :
    (tokens : List String) (identifier : Text)
    → (contains_compact_identifier tokens identifier ≡ true)
      ↔ ((4 ≤ length identifier) × IsSpelled identifier tokens)
unfolding contains_compact_identifier
contains_compact_identifier_lem tokens identifier = (
  λ h. elim (Bool-cases (ltb (length identifier) 4)) [
    | inl short ↦ let no = rw short at h in cc
    | inr long ↦ (
      ground (arith, long),
      extends_somewhere-IsSpelled identifier tokens (ground (arith, h, long)),
    )
  ],
  λ (long, (before, middle, after, split, spelled)).
      let found =
        spelled-extends_somewhere identifier before middle after (omega (arith, long)) spelled in
      let found' : extends_somewhere identifier tokens ≡ true = rw split found in
      ground (arith, long, found'),
)
