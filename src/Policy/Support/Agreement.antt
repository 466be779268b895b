-- ===== src/Policy/Support/Agreement.antt =====
-- What one healthy trace supports: `_agreeing_chunk_ids` of app/consumer/legal_policy.py.
use give_exit.Prelude.{
  ℕ, zero, suc, ◌+◌, ◌≡◌, refl, ap, String, Bool, true, false, not, ◌&&◌, List, [], ◌∷◌, ◌==◌, map,
  filter, take, arith, Bool-cases, inl, inr,
}
use give_exit.Prelude.Sorting.{sort}
use give_exit.Policy.{ItemTrace, RetrievalTrace}
use give_exit.Policy.Aliases.{is_alias_chunk_id}
use give_exit.Policy.Support.{channels_agree, item_leb, take_agreeing, agreeing_chunk_ids}

module _ {N : Type 0} where
  abbrev pub ids : List (ItemTrace N) → List String
  ids = map (λ i. i.chunk_id)

  -- The items that both channels rank within `max_rank`, the alias chunks or the others.
  abbrev pub agreeing_items : ℕ → Bool → List (ItemTrace N) → List (ItemTrace N)
  agreeing_items max_rank true is =
      filter (λ i. channels_agree i.channel_ranks max_rank && is_alias_chunk_id i.chunk_id) is
  agreeing_items max_rank false is =
      filter (λ i. channels_agree i.channel_ranks max_rank && not (is_alias_chunk_id i.chunk_id)) is

  official-take_agreeing :
      (m alias_cap a : ℕ) (is : List (ItemTrace N))
      → filter (λ id. not (is_alias_chunk_id id)) (take_agreeing m alias_cap a is)
        ≡ ids (agreeing_items m false is)
  unfolding take_agreeing
  official-take_agreeing m alias_cap a [] = refl
  official-take_agreeing m alias_cap a (i ∷ is) =
      elim (Bool-cases (channels_agree i.channel_ranks m)) [
        | inl h ↦ elim (Bool-cases (is_alias_chunk_id i.chunk_id)) [
          | inl k ↦ rw h (
              rw k (
                ground (
                  arith,
                  k,
                  official-take_agreeing m alias_cap a is,
                  official-take_agreeing m alias_cap (a + 1) is,
                )))
          | inr k ↦
              rw h
                (rw k (rw k (ap (λ ys. i.chunk_id ∷ ys) (official-take_agreeing m alias_cap a is))))
        ]
        | inr h ↦ rw h (official-take_agreeing m alias_cap a is)
      ]

  -- With `n` alias slots left.
  alias-take_agreeing :
      (m alias_cap a n : ℕ) (is : List (ItemTrace N))
      → a + n ≡ alias_cap
      → filter is_alias_chunk_id (take_agreeing m alias_cap a is)
        ≡ take n (ids (agreeing_items m true is))
  unfolding take_agreeing
  alias-take_agreeing m alias_cap a zero [] e = refl
  alias-take_agreeing m alias_cap a (suc n) [] e = refl
  alias-take_agreeing m alias_cap a zero (i ∷ is) e =
      let full : (a == alias_cap) ≡ true = ground (arith, e) in
      elim (Bool-cases (channels_agree i.channel_ranks m)) [
        | inl h ↦ elim (Bool-cases (is_alias_chunk_id i.chunk_id)) [
          | inl k ↦ rw h (rw k (rw full (alias-take_agreeing m alias_cap a zero is e)))
          | inr k ↦ rw h (rw k (rw k (alias-take_agreeing m alias_cap a zero is e)))
        ]
        | inr h ↦ rw h (alias-take_agreeing m alias_cap a zero is e)
      ]
  alias-take_agreeing m alias_cap a (suc n) (i ∷ is) e =
      let open_slot : (a == alias_cap) ≡ false = ground (arith, e) in
      let next : a + 1 + n ≡ alias_cap = omega (arith, e) in
      elim (Bool-cases (channels_agree i.channel_ranks m)) [
        | inl h ↦ elim (Bool-cases (is_alias_chunk_id i.chunk_id)) [
          | inl k ↦ rw h (
              rw k (
                rw open_slot (
                  rw k (
                    ap (λ ys. i.chunk_id ∷ ys)
                      (alias-take_agreeing m alias_cap (a + 1) n is next)))))
          | inr k ↦ rw h (rw k (rw k (alias-take_agreeing m alias_cap a (suc n) is e)))
        ]
        | inr h ↦ rw h (alias-take_agreeing m alias_cap a (suc n) is e)
      ]

  -- The ids that a trace supports, in rank order: every chunk of the official text that both
  -- channels rank within `max_rank`, and of the alias chunks that they do the first `alias_cap`.
  pub agreeing_chunk_ids_lem :
      (t : RetrievalTrace N) (max_rank alias_cap : ℕ)
      → (filter (λ id. not (is_alias_chunk_id id)) (agreeing_chunk_ids t max_rank alias_cap)
          ≡ ids (agreeing_items max_rank false (sort item_leb t.results)))
        × (filter is_alias_chunk_id (agreeing_chunk_ids t max_rank alias_cap)
            ≡ take alias_cap (ids (agreeing_items max_rank true (sort item_leb t.results))))
  unfolding agreeing_chunk_ids
  agreeing_chunk_ids_lem t max_rank alias_cap = (
    official-take_agreeing max_rank alias_cap 0 (sort item_leb t.results),
    alias-take_agreeing max_rank alias_cap 0 alias_cap (sort item_leb t.results) (omega arith),
  )
