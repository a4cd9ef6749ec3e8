-- ===== src/RenderPlan/Kahn/Relax.antt =====
-- The loop over the successors of one pass in `schedule_render_plan` (packages/ui/src/compositor/
-- render_plan.cpp) keeps the counts exact.
use haxeon.Prelude.{
  ℕ, ◌+◌, ◌≤◌, ◌<◌, ◌≡◌, ◌∙◌, true, false, ◌||◌, List, [], ◌∷◌, arith, ◌==◌, if◌then◌else◌, length,
  get_or, set, length-set,
}
use haxeon.RenderPlan.Kahn.{State, mem, count, push, decrement, relax}
use haxeon.RenderPlan.Kahn.Sums.{mem-push, count-push, count-eq-zero, get_or-set}

abbrev pub degree : State → ℕ → ℕ
degree s v = get_or s.indegree v 0

-- `waits v` counts what `v` waits for when the loop ends, `rest` is what the loop still has to do.
pub record Relaxing (n : ℕ) (waits : ℕ → ℕ) (order rest : List ℕ) (s : State) : Type 0 where
  pub width : length s.indegree ≡ n
  pub same : s.order ≡ order
  pub exact : (v : ℕ) → v < n → degree s v ≡ waits v + count v rest
  pub queued : (v : ℕ) → mem v s.ready ≡ true → (v < n) × (mem v order ≡ false) × (degree s v ≡ 0)
  pub found : (v : ℕ) → v < n → degree s v ≡ 0 → (mem v order || mem v s.ready) ≡ true
  pub once : (v : ℕ) → count v s.ready ≤ 1
  pub settled : (v : ℕ) → mem v order ≡ true → (v < n) × (degree s v ≡ 0)

abbrev pub AllBelow : ℕ → List ℕ → Type 0
AllBelow n [] = Unit {0}
AllBelow n (x ∷ xs) = (x < n) × AllBelow n xs

-- One edge done with.
abbrev one : ℕ → State → State
one next s = record s {
  indegree = set s.indegree next (decrement (degree s next));
  ready = if decrement (degree s next) == 0 then push next s.ready else s.ready;
}

module _ (n : ℕ) (waits : ℕ → ℕ) (order rest : List ℕ) (next : ℕ) (s : State)
    (r : Relaxing n waits order (next ∷ rest) s) (low : next < n) where
  before : degree s next ≡ waits next + count next rest + 1
  before = ground (arith, r.exact next low)

  left : decrement (degree s next) ≡ waits next + count next rest
  unfolding decrement
  left = ground (arith, before)

  unscheduled : mem next order ≡ false
  unscheduled = ground (arith, before, r.settled next)

  not_queued : mem next s.ready ≡ false
  not_queued = ground (arith, before, r.queued next)

  degree-one :
      (v : ℕ)
      → degree (one next s) v ≡ (if next == v then waits next + count next rest else degree s v)
  degree-one v =
      rw left
        (get_or-set s.indegree next v (waits next + count next rest) 0 (omega (arith, r.width)))

  one-Relaxing : Relaxing n waits order rest (one next s)
  one-Relaxing = record {
    width = length-set s.indegree next _ ∙ r.width;
    same = r.same;
    exact = λ v h. ground (arith, degree-one v, r.exact v h);
    queued = λ v h.
        ground
          (arith, degree-one v, left, mem-push v next s.ready, r.queued v, unscheduled, before);
    found = λ v h e. ground (arith, degree-one v, left, mem-push v next s.ready, r.found v h);
    once = λ v.
        ground
          (arith, left, count-push v next s.ready, r.once v, count-eq-zero next s.ready not_queued);
    settled = λ v h. ground (arith, degree-one v, r.settled v h, unscheduled);
  }

-- The whole loop.
pub relax-Relaxing :
    (n : ℕ) (waits : ℕ → ℕ) (order rest : List ℕ) (s : State)
    → Relaxing n waits order rest s
    → AllBelow n rest
    → Relaxing n waits order [] (relax rest s)
unfolding relax
relax-Relaxing n waits order [] s r b = r
relax-Relaxing n waits order (next ∷ rest) s r b =
    relax-Relaxing n waits order rest (one next s) (one-Relaxing n waits order rest next s r b.0)
      b.1
