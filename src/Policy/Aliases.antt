-- ===== src/Policy/Aliases.antt =====
-- `is_alias_chunk_id` of app/consumer/aliases.py: the regular expression
-- `:legal:[a-z0-9-]+:alias-\d{2}$` on an ASCII id, read from the end of the text.
use mathlib.Core.List.{reverse}
use give_exit.Prelude.{
  ℕ, String, Bool, true, false, ◌&&◌, ◌||◌, Option, none, some, List, [], ◌∷◌, leb, ◌==◌, codes,
  if◌then◌else◌, ◌≡◌, refl,
}

abbrev is_digit : ℕ → Bool
is_digit c = leb b'0' c && leb c b'9'

-- [a-z0-9-]
abbrev is_slug : ℕ → Bool
is_slug c = leb b'a' c && leb c b'z' || is_digit c || c == b'-'

-- What follows `prefix`, if the text starts with it.
unfoldable pub drop_prefix : List ℕ → List ℕ → Option (List ℕ)
drop_prefix [] text = some text
drop_prefix (p ∷ ps) [] = none
drop_prefix (p ∷ ps) (c ∷ cs) = let rest = drop_prefix ps cs in if p == c then rest else none

unfoldable pub drop_slug : List ℕ → List ℕ
drop_slug [] = []
drop_slug (c ∷ cs) = let rest = drop_slug cs in if is_slug c then rest else c ∷ cs

abbrev found : Option (List ℕ) → Bool
found none = false
found (some rest) = true

-- One slug character or more, and `:legal:` before them.
unfoldable pub slug_after_legal : Option (List ℕ) → Bool
unfolding drop_slug drop_prefix
slug_after_legal none = false
slug_after_legal (some []) = false
slug_after_legal (some (c ∷ cs)) =
    is_slug c && found (drop_prefix (reverse (codes ":legal:")) (drop_slug cs))

unfoldable pub is_reversed_alias : List ℕ → Bool
unfolding slug_after_legal drop_prefix
is_reversed_alias (d ∷ e ∷ rest) =
    is_digit d && is_digit e && slug_after_legal (drop_prefix (reverse (codes ":alias-")) rest)
is_reversed_alias _ = false

unfoldable pub is_alias_chunk_id : String → Bool
unfolding is_reversed_alias
is_alias_chunk_id chunk_id = is_reversed_alias (reverse (codes chunk_id))

alias_seen : is_alias_chunk_id "corpus:legal:br-cdc-art-42:alias-01" ≡ true
unfolding is_alias_chunk_id
alias_seen = refl

official_seen : is_alias_chunk_id "corpus:legal:br-cdc-art-42-caput" ≡ false
unfolding is_alias_chunk_id
official_seen = refl
