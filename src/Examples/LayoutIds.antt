-- ===== src/Examples/LayoutIds.antt =====
-- Concrete ids in the table of packages/ui/src/layout/layout_id_index.h.
use haxeon.Prelude.{ℕ, ◌≡◌, List, [], ◌∷◌, some, arith, ◌==◌, if◌then◌else◌}
use haxeon.LayoutIds.{LayoutIdIndex, missing, reset, insert_all, find}
use haxeon.LayoutIds.Holds.{first}
use haxeon.LayoutIds.Found.{index_or}
use haxeon.LayoutIds.Refine.{find-first}

-- Three items, of which the last repeats the id of the first.
abbrev items : List (ℕ × ℕ)
items = (5, 0) ∷ (9, 1) ∷ (5, 2) ∷ []

abbrev empty_table : LayoutIdIndex
empty_table = record { entries = []; active = 0 }

find-first_example :
    (t' : LayoutIdIndex) × (insert_all items (reset 3 empty_table) ≡ some t')
    × ((id : ℕ) → find id t' ≡ some (if id == 0 then missing else index_or (first id items)))
find-first_example = find-first items 3 empty_table (omega arith) (omega arith)
