-- ===== src/FrameResources/Bindings.antt =====
-- `FrameBindings` of packages/ui/src/render/frame_resources.h: a map that keeps its slots from one
-- frame to the next. The hash table is an association list, newest slot last.
pub mod Refine
use haxeon.Prelude.{ℕ, ◌+◌, ◌%◌, ◌^◌, Bool, List, [], ◌∷◌, Option, none, some, ◌==◌, if◌then◌else◌}

pub record Row (V : Type 0) : Type 0 where
  pub id : ℕ
  pub value : V
  pub frame : ℕ

pub record FrameBindings (V : Type 0) : Type 0 where
  pub frame : ℕ
  pub rows : List (Row V)

module _ {V : Type 0} where
  abbrev pub new_bindings : FrameBindings V
  new_bindings = record { frame = 1; rows = [] }

  -- `rows_.find(id)`
  unfoldable pub find : ℕ → List (Row V) → Option (Row V)
  find id [] = none
  find id (r ∷ rs) = let rest = find id rs in if r.id == id then some r else rest

  -- `rows_[id] = row`
  unfoldable pub put : Row V → List (Row V) → List (Row V)
  put row [] = row ∷ []
  put row (r ∷ rs) = let rest = put row rs in if r.id == row.id then row ∷ rs else r ∷ rest

  -- `bind(id) = v`
  unfoldable pub bind : ℕ → V → FrameBindings V → FrameBindings V
  unfolding put
  bind id v b = record b { rows = put (record { id = id; value = v; frame = b.frame }) b.rows }

  unfoldable pub get : ℕ → FrameBindings V → Option V
  unfolding find
  get id b = elim (find id b.rows) [
    | none ↦ none
    | some row ↦ if row.frame == b.frame then some row.value else none
  ]

  -- The loop of `reset`.
  unfoldable pub prune : ℕ → List (Row V) → List (Row V)
  prune frame [] = []
  prune frame (r ∷ rs) = let rest = prune frame rs in if r.frame == frame then r ∷ rest else rest

  unfoldable pub reset : FrameBindings V → FrameBindings V
  unfolding prune
  reset b =
      let next = (b.frame + 1) % 2 ^ 64 in
      if next == 0
      then record { frame = 1; rows = [] }
      else record { frame = next; rows = prune b.frame b.rows }
