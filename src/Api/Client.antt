-- ===== src/Api/Client.antt =====
-- Who a request comes from: `client_identifier` of
-- app/api/security.py. Header texts are lists of code points.
use mathlib.Core.List.{reverse, map-append}
use give_exit.Prelude.{
  ℕ, suc, ◌-◌, ◌≡◌, refl, Bool, true, false, not, ◌||◌, ◌&&◌, Option, none, some, List, [], ◌∷◌,
  ◌++◌, ltb, leb, ◌==◌, if◌then◌else◌, arith, Bool-cases, inl, inr, length, get_or, length-append,
  codes, filter, map,
}

abbrev pub Text : Type 0
Text = List ℕ

-- What `str.strip` removes, for the Latin-1 text of a header.
abbrev is_space : ℕ → Bool
is_space c = c == 32 || leb 9 c && leb c 13 || leb 28 c && leb c 31 || c == 0x85 || c == 0xa0

unfoldable pub lstrip : Text → Text
lstrip [] = []
lstrip (c ∷ cs) = let rest = lstrip cs in if is_space c then rest else c ∷ cs

unfoldable pub strip : Text → Text
unfolding lstrip
strip s = reverse (lstrip (reverse (lstrip s)))

-- Puts `c` in front of the first piece.
abbrev extend_first : ℕ → List Text → List Text
extend_first c [] = (c ∷ []) ∷ []
extend_first c (t ∷ ts) = (c ∷ t) ∷ ts

-- s.split(",")
unfoldable pub split_commas : Text → List Text
split_commas [] = [] ∷ []
split_commas (c ∷ cs) =
    let rest = split_commas cs in if c == b',' then [] ∷ rest else extend_first c rest

abbrev is_empty : Text → Bool
is_empty [] = true
is_empty (c ∷ cs) = false

-- [item.strip() for item in forwarded.split(",") if item.strip()]
unfoldable pub forwarded_hops : Text → List Text
forwarded_hops header = filter (λ t. not (is_empty t)) (map strip (split_commas header))

-- The choice among the hops, `[]` when there is none.
unfoldable pub choose_hop : Text → ℕ → List Text → Text
choose_hop peer trusted_proxy_hops [] = peer
choose_hop peer trusted_proxy_hops (h ∷ hs) =
    let index = length (h ∷ hs) - trusted_proxy_hops in
    if ltb index (length (h ∷ hs)) then get_or (h ∷ hs) index h else h

abbrev unknown : Text
unknown = codes "unknown"

unfoldable pub client_identifier : Option Text → Text → ℕ → Text
client_identifier client forwarded trusted_proxy_hops =
    let peer : Text = elim client [ none ↦ unknown | some host ↦ host ] in
    if ltb trusted_proxy_hops 1
    then peer
    else choose_hop peer trusted_proxy_hops (forwarded_hops forwarded)

split_commas-ne_nil : (s : Text) → (t : Text) × ((ts : List Text) × (split_commas s ≡ t ∷ ts))
unfolding split_commas
split_commas-ne_nil [] = ([], ([], refl))
split_commas-ne_nil (c ∷ s) = elim (Bool-cases (c == b',')) [
  | inl comma ↦ ([], (split_commas s, rw comma))
  | inr other ↦
      let (t, more) = split_commas-ne_nil s in let (ts, e) = more in (c ∷ t, (ts, rw (other, e)))
]

split_commas-append : (s t : Text) → split_commas (s ++ b',' ∷ t) ≡ split_commas s ++ split_commas t
unfolding split_commas
split_commas-append [] t = refl
split_commas-append (c ∷ s) t =
    let (p, more) = split_commas-ne_nil s in
    let (ps, e) = more in
    elim (Bool-cases (c == b',')) [
      | inl comma ↦ rw (comma, split_commas-append s t)
      | inr other ↦ rw (other, split_commas-append s t, e)
    ]

module _ {ℓ} {A : Type ℓ} where
  filter-append : (p : A → Bool) (xs ys : List A) → filter p (xs ++ ys) ≡ filter p xs ++ filter p ys
  filter-append p [] ys = refl
  filter-append p (x ∷ xs) ys = ground (arith, filter-append p xs ys)

  get_or-append : (xs ys : List A) (y d : A) → get_or (xs ++ y ∷ ys) (length xs) d ≡ y
  get_or-append [] ys y d = refl
  get_or-append (x ∷ xs) ys y d = get_or-append xs ys y d

forwarded_hops-append :
    (s t : Text) → forwarded_hops (s ++ b',' ∷ t) ≡ forwarded_hops s ++ forwarded_hops t
unfolding forwarded_hops
forwarded_hops-append s t =
    rw (split_commas-append s t, map-append)
      (filter-append _ (map strip (split_commas s)) (map strip (split_commas t)))

choose_hop-append :
    (peer : Text) (xs ys : List Text) (y : Text)
    → choose_hop peer (suc (length ys)) (xs ++ y ∷ ys) ≡ y
unfolding choose_hop
choose_hop-append peer [] ys y =
    let start : suc (length ys) - suc (length ys) ≡ 0 = omega arith in rw start (ground arith)
choose_hop-append peer (x ∷ xs) ys y =
    let index : suc (length (xs ++ y ∷ ys)) - suc (length ys) ≡ suc (length xs) =
      omega (arith, length-append xs (y ∷ ys)) in
    let inside : ltb (suc (length xs)) (suc (length (xs ++ y ∷ ys))) ≡ true =
      ground (arith, length-append xs (y ∷ ys)) in
    rw (index, inside) (get_or-append xs ys y x)

-- A client cannot choose its own rate-limit bucket behind `trusted_proxy_hops` proxies: whatever
-- it writes into the forwarded header, the identity is the first address of the part that the
-- trusted proxies appended.
pub client_identifier_unforgeable :
    (client : Option Text) (forged appended : Text) (first : Text) (rest : List Text)
    → forwarded_hops appended ≡ first ∷ rest
    → client_identifier client (forged ++ b',' ∷ appended) (suc (length rest)) ≡ first
unfolding client_identifier
client_identifier_unforgeable client forged appended first rest e =
    let on : ltb (suc (length rest)) 1 ≡ false = ground arith in
    rw (on, forwarded_hops-append forged appended, e)
      (choose_hop-append _ (forwarded_hops forged) rest first)
