-- ===== src/RenderPlan/Kahn.antt =====
-- The ordering loop at the end of `schedule_render_plan` (packages/ui/src/compositor/
-- render_plan.cpp) on a graph of passes: `edges[i]` lists the passes that wait for pass `i`, and
-- `indegree[j]` counts what pass `j` still waits for. The priority queue is kept as a sorted list.
pub mod Sums
pub mod Relax
pub mod Topological
pub mod Ends
pub mod Start
use haxeon.Prelude.{
  ℕ, zero, suc, ◌+◌, ◌-◌, ◌^◌, Bool, false, ◌||◌, List, [], ◌∷◌, ◌++◌, leb, ◌==◌, if◌then◌else◌,
  get_or, set,
}

abbrev pub mem : ℕ → List ℕ → Bool
mem x [] = false
mem x (y ∷ ys) = x == y || mem x ys

abbrev pub count : ℕ → List ℕ → ℕ
count x [] = 0
count x (y ∷ ys) = (if x == y then 1 else 0) + count x ys

-- `edges[i]`
abbrev pub successors : List (List ℕ) → ℕ → List ℕ
successors edges i = get_or edges i []

-- `priority_queue::push`, the smallest index first.
unfoldable pub push : ℕ → List ℕ → List ℕ
push x [] = x ∷ []
push x (y ∷ ys) = if leb x y then x ∷ y ∷ ys else y ∷ push x ys

pub record State : Type 0 where
  pub indegree : List ℕ
  pub ready : List ℕ
  pub order : List ℕ

-- `--x` on a `uint32_t`
unfoldable pub decrement : ℕ → ℕ
decrement x = if x == 0 then 2 ^ 32 - 1 else x - 1

-- The loop over `edges[index]`.
unfoldable pub relax : List ℕ → State → State
unfolding push decrement
relax [] s = s
relax (next ∷ rest) s =
    let left = decrement (get_or s.indegree next 0) in
    relax rest (record s {
      indegree = set s.indegree next left;
      ready = if left == 0 then push next s.ready else s.ready;
    })

-- What a round does behind `ready.pop()`.
unfoldable pub take_pass : List (List ℕ) → ℕ → List ℕ → State → State
unfolding relax
take_pass edges index ready s =
    relax (successors edges index) (record s { ready = ready; order = s.order ++ index ∷ [] })

-- `while (!ready.empty())`. Every round schedules a pass that was not scheduled before, so that
-- fuel of one more than the passes is enough (`Topological`).
unfoldable pub drain : ℕ → List (List ℕ) → List ℕ → State → State
unfolding take_pass
drain zero edges queue s = s
drain (suc fuel) edges [] s = s
drain (suc fuel) edges (index ∷ ready) s =
    let s' = take_pass edges index ready s in drain fuel edges s'.ready s'

-- The loop that fills the queue, over the passes from `index` on.
unfoldable pub roots : ℕ → List ℕ → List ℕ
unfolding push
roots index [] = []
roots index (d ∷ ds) = let rest = roots (index + 1) ds in if d == 0 then push index rest else rest
