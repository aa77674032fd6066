-- ===== src/Pipeline/Cron/Fields/Covers.antt =====
-- internal/pipeline/cronexpr/cron.go: which values the fields of a parsed expression hold.
use software_distribution_pl.Pipeline.Cron.Fields.Bits.{covers}
use software_distribution_pl.Pipeline.Cron.Fields.{Item, item}
use software_distribution_pl.Common.{ℕ, Bool, false, ◌||◌, Option, none, some, List, [], ◌∷◌}

abbrev pub item_covers : Option Item → ℕ → Bool
item_covers none n = false
item_covers (some i) n = covers i.lo i.hi i.step n

-- The values that the parts of a field stand for.
abbrev pub covered : ℕ → ℕ → List (List ℕ) → ℕ → Bool
covered least most [] n = false
covered least most (p ∷ ps) n = item_covers (item least most p) n || covered least most ps n
