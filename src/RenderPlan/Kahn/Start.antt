-- ===== src/RenderPlan/Kahn/Start.antt =====
-- The state in which the ordering loop of `schedule_render_plan` (packages/ui/src/compositor/
-- render_plan.cpp) starts, and the state in which it ends.
use haxeon.Prelude.{
  ℕ, zero, suc, ◌+◌, ◌≤◌, ◌<◌, ◌≡◌, refl, Bool, true, false, ◌||◌, ◌&&◌, List, [], ◌∷◌, arith, ◌==◌,
  length, get_or,
}
use haxeon.RenderPlan.Kahn.{State, mem, count, successors, drain, take_pass, roots}
use haxeon.RenderPlan.Kahn.Sums.{sum_below, mem-push, count-push, count-eq-zero}
use haxeon.RenderPlan.Kahn.Relax.{AllBelow}
use haxeon.RenderPlan.Kahn.Topological.{Edge, Ordered, Invariant, drain-Invariant}

roots-below : (v index : ℕ) (ds : List ℕ) → v < index → mem v (roots index ds) ≡ false
unfolding roots
roots-below v index [] h = refl
roots-below v index (d ∷ ds) h =
    ground (arith, mem-push v index (roots (index + 1) ds), roots-below v (index + 1) ds)

pub mem-roots :
    (k v index : ℕ) (ds : List ℕ) → v ≡ index + k → mem v (roots index ds) ≡ (get_or ds k 1 == 0)
unfolding roots
mem-roots k v index [] e = ground arith
mem-roots zero v index (d ∷ ds) e =
    ground (arith, mem-push v index (roots (index + 1) ds), roots-below v (index + 1) ds)
mem-roots (suc k) v index (d ∷ ds) e =
    ground
      (arith, mem-push v index (roots (index + 1) ds), mem-roots k v (index + 1) ds (omega arith))

count-roots : (v index : ℕ) (ds : List ℕ) → count v (roots index ds) ≤ 1
unfolding roots
count-roots v index [] = omega arith
count-roots v index (d ∷ ds) = ground (
  arith,
  count-push v index (roots (index + 1) ds),
  count-roots v (index + 1) ds,
  count-eq-zero index (roots (index + 1) ds) (roots-below index (index + 1) ds (omega arith)),
)

sum_below-ones : (n : ℕ) → sum_below n (λ u. 1) ≡ n
unfolding sum_below
sum_below-ones zero = refl
sum_below-ones (suc n) = omega (arith, sum_below-ones n)

get_or-end : (k : ℕ) (xs : List ℕ) (d : ℕ) → length xs ≤ k → get_or xs k d ≡ d
get_or-end k [] d h = refl
get_or-end zero (x ∷ xs) d h = absurd (omega arith)
get_or-end (suc k) (x ∷ xs) d h = get_or-end k xs d (omega arith)

get_or-inside : (k : ℕ) (xs : List ℕ) (d e : ℕ) → k < length xs → get_or xs k d ≡ get_or xs k e
get_or-inside k [] d e h = absurd (omega arith)
get_or-inside zero (x ∷ xs) d e h = refl
get_or-inside (suc k) (x ∷ xs) d e h = get_or-inside k xs d e (omega arith)

module _ (n : ℕ) (edges : List (List ℕ)) (indegree : List ℕ) (width : length indegree ≡ n)
    (exact : (v : ℕ)
      → v < n
      → get_or indegree v 0 ≡ sum_below n (λ u. count v (successors edges u))) where
  abbrev pub queue : List ℕ
  queue = roots 0 indegree

  abbrev pub start : State
  start = record { indegree = indegree; ready = queue; order = [] }

  in_queue : (v : ℕ) → mem v queue ≡ (get_or indegree v 1 == 0)
  in_queue v = mem-roots v v 0 indegree (omega arith)

  start-queued : (v : ℕ) → mem v queue ≡ true → (v < n) × (get_or indegree v 0 ≡ 0)
  start-queued v h =
      ground (arith, in_queue v, width, get_or-end v indegree 1, get_or-inside v indegree 0 1)

  start-found : (v : ℕ) → v < n → get_or indegree v 0 ≡ 0 → mem v queue ≡ true
  start-found v h e = ground (arith, in_queue v, width, get_or-inside v indegree 0 1)

  pub start-Invariant : Invariant n edges start
  start-Invariant = record {
    core = record {
      width = width;
      same = refl;
      exact = λ v h. omega (arith, exact v h);
      queued = λ v h. let (low, e) = start-queued v h in (low, refl, e);
      found = start-found;
      once = λ v. count-roots v 0 indegree;
      settled = λ v h. cc;
    };
    sorted = tt;
    distinct = λ v. omega arith;
    total = omega (arith, sum_below-ones n);
  }

  -- The state in which the loop ends.
  abbrev pub final : State
  final = drain (suc n) edges queue start

  pub final-Invariant :
      ((u : ℕ) → AllBelow n (successors edges u)) → Invariant n edges final × (final.ready ≡ [])
  final-Invariant closed =
      drain-Invariant n edges (λ u h. closed u) (suc n) queue start refl start-Invariant
        (omega (arith, sum_below-ones n))

drain-empty : (fuel : ℕ) (edges : List (List ℕ)) (s : State) → drain fuel edges [] s ≡ s
unfolding drain
drain-empty zero edges s = refl
drain-empty (suc fuel) edges s = refl

-- A loop that has ended does nothing with more fuel.
pub drain-more :
    (more fuel : ℕ) (edges : List (List ℕ)) (waiting : List ℕ) (s : State)
    → s.ready ≡ waiting
    → (drain fuel edges waiting s).ready ≡ []
    → drain (more + fuel) edges waiting s ≡ drain fuel edges waiting s
unfolding drain
drain-more more zero edges waiting s same ends =
    let empty : waiting ≡ [] = cc in rw empty (drain-empty (more + zero) edges s)
drain-more more (suc fuel) edges [] s same ends = drain-empty (more + suc fuel) edges s
drain-more more (suc fuel) edges (index ∷ ready) s same ends =
    let one : more + suc fuel ≡ suc (more + fuel) = omega arith in
    rw one (
      drain-more more fuel edges (take_pass edges index ready s).ready
        (take_pass edges index ready s) refl ends)

-- `i` stands before `j`.
abbrev pub before : ℕ → ℕ → List ℕ → Bool
before i j [] = false
before i j (x ∷ xs) = (x == i && mem j xs) || before i j xs

pub Ordered-before :
    (n : ℕ) (edges : List (List ℕ)) (i j : ℕ) (seen xs : List ℕ)
    → Ordered n edges seen xs
    → Edge n edges i j
    → mem j xs ≡ true
    → (mem i seen || before i j xs) ≡ true
Ordered-before n edges i j seen [] s e h = cc
Ordered-before n edges i j seen (x ∷ xs) s e h =
    ground (arith, Ordered-before n edges i j (x ∷ seen) xs s.1 e, s.0 i)
