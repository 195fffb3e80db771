-- ===== src/Tests/Tables.antt =====
-- The array size for the integer keys 1, 2, 3, 5, 9 and 40 (src/ltable.c).
use lunacy.Base.{ℕ, ◌/◌, ◌<◌, ◌≡◌, ◌⊎◌, refl, List, [], ◌∷◌, Option, some, none, arith}
use lunacy.Tables.{computesizes, computesizes_loop, getn, bisect}
use lunacy.Tables.Border.{IsBorder, getn-IsBorder}
use lunacy.Tables.Sizes.{Largest, Among, candidates, computesizes_lem}

abbrev six_keys : List ℕ
six_keys = 1 ∷ 1 ∷ 1 ∷ 1 ∷ 1 ∷ 0 ∷ 1 ∷ []

computesizes_lem_example :
    Largest (computesizes six_keys 6).0 (candidates 1 0 six_keys)
    × ((((computesizes six_keys 6).0 ≡ 0) × ((computesizes six_keys 6).1 ≡ 0))
        ⊎ (Among (computesizes six_keys 6).0 (computesizes six_keys 6).1 (candidates 1 0 six_keys)
            × ((computesizes six_keys 6).0 / 2 < (computesizes six_keys 6).1)))
computesizes_lem_example = computesizes_lem six_keys 6 (omega arith) (omega arith)

six_keys_size : (computesizes six_keys 6).0 ≡ 4
unfolding computesizes computesizes_loop
six_keys_size = refl

-- The values of the keys 1, 2 and 4.
abbrev with_gap : List (Option ℕ)
with_gap = some 7 ∷ some 8 ∷ none ∷ some 9 ∷ none ∷ []

getn-IsBorder_example : IsBorder with_gap (getn with_gap)
getn-IsBorder_example = getn-IsBorder with_gap

gap_border : getn with_gap ≡ 2
unfolding getn bisect
gap_border = refl
