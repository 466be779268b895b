-- ===== src/Tests/Rag.antt =====
-- Runs of the retrieval layer, app/rag.
use give_exit.Prelude.{
  ℕ, ◌+◌, ◌≡◌, ◌≤◌, refl, sym, true, String, Text, none, List, [], ◌∷◌, map, length, filter, arith,
  All, ◌==◌,
}
use give_exit.Prelude.Dict.{Dict}
use give_exit.Prelude.Score.{nat_score}
use give_exit.Prelude.Sorting.{IsSorted}
use give_exit.Rag.{RetrievedChunk}
use give_exit.Rag.Fusion.{Channel, rank_leb, fused_ranking}
use give_exit.Rag.Fusion.Order.{HasTrueRanks, fused_ranking_lem}
use give_exit.Rag.Tiers.{tier, within_agreement_tiers}
use give_exit.Rag.Tiers.Restored.{
  IsFalling, IsRestored, scored, channel_count, within_agreement_tiers_lem,
}
use give_exit.Rag.Guard.{Settings, Guard, embedded, initial_guard, acquire, time_out, embed}
use give_exit.Rag.Guard.Slots.{start, next, acquired, timed_out, slots, slots_conserved}
use give_exit.Rag.Guard.Cache.{embed_lem}
use give_exit.Rag.Boundaries.{split_at_boundaries}
use give_exit.Rag.Chunker.{size_of, pack, pieces_of}
use give_exit.Rag.Chunker.Packing.{IsHeld, pack_lem}
use give_exit.Rag.Boundaries.Whole.{solid, solid_of, split_at_boundaries_lem}

program : Unit {0}
unfolding acquire
program = tt

abbrev pub hit : String → ℕ → RetrievedChunk Unit ℕ
hit id score = record {
  chunk = record {
    chunk_id = id;
    doc_id = "d";
    text = "";
    section = none;
    page_start = 1;
    page_end = 1;
    metadata = tt;
  };
  score = score;
  channel_ranks = [];
}

abbrev channels : List (Channel Unit ℕ)
channels =
    record { name = "dense"; weight = 100; ranking = hit "a" 9 ∷ hit "b" 8 ∷ [] }
    ∷ record { name = "lexical"; weight = 100; ranking = hit "b" 7 ∷ [] }
    ∷ []

fused_ranking_example :
    (length (fused_ranking ⦃s = nat_score⦄ 2 60 channels) ≤ 2)
    × IsSorted (rank_leb ⦃s = nat_score⦄) (fused_ranking ⦃s = nat_score⦄ 2 60 channels)
    × All (HasTrueRanks ⦃s = nat_score⦄ channels) (fused_ranking ⦃s = nat_score⦄ 2 60 channels)
fused_ranking_example = fused_ranking_lem nat_score 2 60 channels

-- The reranker prefers "a", but only "b" and "c" were candidates.
abbrev reranked_hits : List (RetrievedChunk Unit ℕ)
reranked_hits = hit "a" 3 ∷ hit "b" 2 ∷ hit "c" 1 ∷ []

abbrev candidate_hits : List (RetrievedChunk Unit ℕ)
candidate_hits =
    record (hit "b" 1) { channel_ranks = ("dense", 1) ∷ [] }
    ∷ record (hit "c" 1) { channel_ranks = ("dense", 2) ∷ ("lexical", 1) ∷ [] }
    ∷ []

within_agreement_tiers_example :
    IsFalling (within_agreement_tiers reranked_hits candidate_hits)
    × All (IsRestored candidate_hits) (within_agreement_tiers reranked_hits candidate_hits)
    × ((t : ℕ)
        → scored candidate_hits
            (filter (λ i. tier i == t) (within_agreement_tiers reranked_hits candidate_hits))
          ≡ scored candidate_hits (filter (λ i. channel_count candidate_hits i == t) reranked_hits))
within_agreement_tiers_example = within_agreement_tiers_lem reranked_hits candidate_hits

abbrev settings : Settings
settings = record {
  max_concurrency = 1;
  failure_threshold = 2;
  reset_seconds = 30;
  cache_ttl_seconds = 300;
  cache_max_entries = 2;
}

abbrev busy : Guard
busy = record (initial_guard settings) { free_slots = 0 }

-- One request got the slot and then timed out: its embedding still holds the slot.
slots_conserved_example : slots (time_out settings 9 busy, 0) ≡ 1
unfolding program
slots_conserved_example =
    slots_conserved {Component = ℕ} (λ v. true) settings (time_out settings 9 busy, 0)
      (next (next start (acquired (initial_guard settings) busy 0 0 refl)) (timed_out busy 0 9))

abbrev warm : Dict (ℕ × String)
warm = ("x", (20, "x")) ∷ []

-- The vector of a query is the query; the digest is the query too.
embed_example :
    ((embed
        (λ q. q)
        settings
        10
        (λ i. 11 + i)
        (λ qs. embedded (map (λ q. q) qs))
        ("x" ∷ "y" ∷ "x" ∷ [])
        warm).0
      ≡ embedded ("x" ∷ "y" ∷ "x" ∷ []))
embed_example =
    (embed_lem (λ q. q) settings (λ q. q) (λ q r e. e) 10 (λ i. 11 + i)
      (λ qs. embedded (map (λ q. q) qs)) ("x" ∷ "y" ∷ "x" ∷ []) warm ((λ q e. sym e), tt)
      (λ rs. refl)).0

-- "ab. cd", in pieces of four characters at most.
abbrev sentence : Text
sentence = 97 ∷ 98 ∷ 46 ∷ 32 ∷ 99 ∷ 100 ∷ []

split_at_boundaries_example :
    All (λ p. length p ≤ 4) (split_at_boundaries sentence 4)
    × (solid_of (split_at_boundaries sentence 4) ≡ solid sentence)
split_at_boundaries_example = split_at_boundaries_lem sentence 4 (omega arith)

abbrev lines : List (ℕ × Text)
lines = (1, 97 ∷ 32 ∷ 98 ∷ []) ∷ (2, 99 ∷ 99 ∷ []) ∷ []

pack_example :
    All (λ b. size_of b ≤ 4 + 1) (pack 4 1 (pieces_of 4 1 lines) [])
    × All (λ p. IsHeld 4 1 p (pack 4 1 (pieces_of 4 1 lines) [])) (pieces_of 4 1 lines)
pack_example = pack_lem 4 1 lines (omega arith) (omega arith)
