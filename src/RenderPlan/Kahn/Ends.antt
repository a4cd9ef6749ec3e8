-- ===== src/RenderPlan/Kahn/Ends.antt =====
-- What holds where the ordering loop of `schedule_render_plan` (packages/ui/src/compositor/
-- render_plan.cpp) ends: an order of all passes, or passes that wait for each other.
use haxeon.Prelude.{
  ℕ, zero, suc, ◌≤◌, ◌<◌, ◌≡◌, ◌≢◌, ◌↔◌, true, false, inl, inr, List, [], arith, length, Bool-cases,
}
use haxeon.RenderPlan.Kahn.{State, mem, count}
use haxeon.RenderPlan.Kahn.Sums.{term-le-sum_below, sum_below-zero, sum_below-pos}
use haxeon.RenderPlan.Kahn.Topological.{Edge, Ordered, waiting, pending, open_pass, Invariant}

module _ (n : ℕ) (edges : List (List ℕ)) where
  -- A rank that grows along every edge shows that the graph has no cycle.
  abbrev pub Ranked : (ℕ → ℕ) → Type 0
  Ranked rank = (i j : ℕ) → j < n → Edge n edges i j → rank i < rank j

  module _ (t : State) (inv : Invariant n edges t) (empty : t.ready ≡ []) where
    pending_pos : (v : ℕ) → v < n → mem v t.order ≡ false → 0 < pending n edges t.order v
    pending_pos v h e =
        let idle : mem v t.ready ≡ false = rw empty in
        ground (arith, inv.core.found v h, inv.core.exact v h, idle)

    -- What is not scheduled waits for a pass that is not scheduled.
    pub unscheduled_waits :
        (v : ℕ)
        → v < n
        → mem v t.order ≡ false
        → (u : ℕ) × Edge n edges u v × (mem u t.order ≡ false)
    unscheduled_waits v h e =
        let (u, low, p) = sum_below-pos n (waiting n edges t.order v) (pending_pos v h e) in
        (u, (low, ground arith), ground arith)

    waiting_zero :
        (rank : ℕ → ℕ) (k v : ℕ)
        → Ranked rank
        → v < n
        → rank v < suc k
        → ((u : ℕ) → u < n → rank u < k → mem u t.order ≡ true)
        → (u : ℕ) → u < n
        → waiting n edges t.order v u ≡ 0
    waiting_zero rank k v ranked h low ih u hu = ground (arith, ranked u v h, ih u hu)

    -- In a graph without a cycle everything is scheduled.
    acyclic_scheduled :
        (rank : ℕ → ℕ) → Ranked rank → (k v : ℕ) → v < n → rank v < k → mem v t.order ≡ true
    acyclic_scheduled rank ranked zero v h low = absurd (omega arith)
    acyclic_scheduled rank ranked (suc k) v h low = elim (Bool-cases (mem v t.order)) [
      | inl scheduled ↦ scheduled
      | inr missing ↦
          let none_waits =
            sum_below-zero n (waiting n edges t.order v)
              (waiting_zero rank k v ranked h low (acyclic_scheduled rank ranked k)) in
          absurd (omega (arith, pending_pos v h missing, none_waits))
    ]

    all_scheduled : (v : ℕ) → length t.order ≡ n → v < n → mem v t.order ≡ true
    all_scheduled v full h =
        ground (arith, inv.total, term-le-sum_below n v (open_pass n edges t.order) h)

    length-of_all : ((v : ℕ) → v < n → mem v t.order ≡ true) → length t.order ≡ n
    length-of_all all = omega (
      arith,
      inv.total,
      sum_below-zero n (open_pass n edges t.order) (λ v h. ground (arith, all v h)),
    )

  -- The order lists every pass once, and each behind all its predecessors.
  pub record IsSchedule (order : List ℕ) : Type 0 where
    pub passes : (v : ℕ) → (v < n) ↔ (mem v order ≡ true)
    pub once : (v : ℕ) → count v order ≤ 1
    pub sorted : Ordered n edges [] order

  module _ (t : State) (inv : Invariant n edges t) (empty : t.ready ≡ []) where
    -- A full order is a schedule.
    pub full-IsSchedule : length t.order ≡ n → IsSchedule t.order
    full-IsSchedule full = record {
      passes = λ v. (all_scheduled t inv empty v full, λ h. (inv.core.settled v h).0);
      once = inv.distinct;
      sorted = inv.sorted;
    }

    -- Without a cycle the order is full.
    pub acyclic_full : (rank : ℕ → ℕ) → Ranked rank → length t.order ≡ n
    acyclic_full rank ranked =
        length-of_all t inv empty
          (λ v h. acyclic_scheduled t inv empty rank ranked (suc (rank v)) v h (omega arith))

    -- An order that is not full leaves a pass out.
    pub left_out : length t.order ≢ n → (v : ℕ) × (v < n) × (mem v t.order ≡ false)
    left_out short =
        let (v, low, out) =
          sum_below-pos n (open_pass n edges t.order) (ground (arith, inv.total)) in
        (v, low, ground arith)

    -- What is left out waits for each other.
    pub short_cycle :
        length t.order ≢ n
        → (v : ℕ) → v < n
        → mem v t.order ≡ false
        → (u : ℕ) × Edge n edges u v × (mem u t.order ≡ false)
    short_cycle short v h e = unscheduled_waits t inv empty v h e
