-- ===== src/RenderPlan/Schedule/Edges.antt =====
-- The graph that `schedule_render_plan` (packages/ui/src/compositor/render_plan.cpp) builds: every
-- edge counted once, and no edge lost.
use haxeon.Prelude.{
  ℕ, ◌+◌, ◌<◌, ◌≡◌, ◌≢◌, inl, inr, ◌∙◌, true, ◌||◌, List, [], ◌∷◌, ◌++◌, arith, ◌==◌, if◌then◌else◌,
  length, get_or, set, length-set, Bool-cases,
}
use haxeon.RenderPlan.Kahn.{mem, count, successors}
use haxeon.RenderPlan.Kahn.Sums.{sum_below, sum_below-drop, mem-append, get_or-set}
use haxeon.RenderPlan.Kahn.Relax.{AllBelow}
use haxeon.RenderPlan.Schedule.{Graph, add_edge}

abbrev pub HasEdge : Graph → ℕ → ℕ → Type 0
HasEdge g i j = mem j (successors g.edges i) ≡ true

-- No edge is lost.
abbrev pub Extends : Graph → Graph → Type 0
Extends g g' = (i j : ℕ) → HasEdge g i j → HasEdge g' i j

pub record IsExact (n : ℕ) (g : Graph) : Type 0 where
  pub rows : length g.edges ≡ n
  pub width : length g.indegree ≡ n
  pub closed : (u : ℕ) → AllBelow n (successors g.edges u)
  pub exact :
      (v : ℕ) → v < n → get_or g.indegree v 0 ≡ sum_below n (λ u. count v (successors g.edges u))

AllBelow-snoc : (n x : ℕ) (xs : List ℕ) → AllBelow n xs → x < n → AllBelow n (xs ++ x ∷ [])
AllBelow-snoc n x [] b h = (h, tt)
AllBelow-snoc n x (y ∷ xs) b h = (b.0, AllBelow-snoc n x xs b.1 h)

count-snoc :
    (v x : ℕ) (xs : List ℕ) → count v (xs ++ x ∷ []) ≡ count v xs + (if v == x then 1 else 0)
count-snoc v x [] = omega arith
count-snoc v x (y ∷ xs) = omega (arith, count-snoc v x xs)

-- The graph with the edge put in.
abbrev pub with_edge : Graph → ℕ → ℕ → Graph
with_edge g from to = record {
  edges = set g.edges from (successors g.edges from ++ to ∷ []);
  indegree = set g.indegree to (get_or g.indegree to 0 + 1);
}

pub successors-with_edge :
    (g : Graph) (from to u : ℕ)
    → from < length g.edges
    → successors (with_edge g from to).edges u
      ≡ (if from == u then successors g.edges from ++ to ∷ [] else successors g.edges u)
successors-with_edge g from to u h =
    get_or-set g.edges from u (successors g.edges from ++ to ∷ []) [] h

module _ (n : ℕ) (g : Graph) (from to : ℕ) (ok_g : IsExact n g) (hf : from < n) (ht : to < n) where
  row :
      (u : ℕ)
      → successors (with_edge g from to).edges u
        ≡ (if from == u then successors g.edges from ++ to ∷ [] else successors g.edges u)
  row u = successors-with_edge g from to u (omega (arith, ok_g.rows))

  row_count :
      (v u : ℕ)
      → count v (successors (with_edge g from to).edges u)
        ≡ count v (successors g.edges u) + (if from == u then (if v == to then 1 else 0) else 0)
  row_count v u = rw (row u) (ground (arith, count-snoc v to (successors g.edges from)))

  added_sum :
      (v : ℕ)
      → sum_below n (λ u. count v (successors g.edges u)) + (if v == to then 1 else 0)
        ≡ sum_below n (λ u. count v (successors (with_edge g from to).edges u))
  added_sum v =
      sum_below-drop n from (if v == to then 1 else 0)
        (λ u. count v (successors (with_edge g from to).edges u))
        (λ u. count v (successors g.edges u)) hf (ground (arith, row_count v from))
        (λ w h. ground (arith, row_count v w))

  with_edge-IsExact : IsExact n (with_edge g from to)
  with_edge-IsExact = record {
    rows = length-set g.edges from _ ∙ ok_g.rows;
    width = length-set g.indegree to _ ∙ ok_g.width;
    closed = λ u. rw (row u) (
        ground
          (arith, AllBelow-snoc n to (successors g.edges from), ok_g.closed from, ok_g.closed u));
    exact = λ v h. ground (
      arith,
      get_or-set g.indegree to v (get_or g.indegree to 0 + 1) 0,
      ok_g.width,
      ok_g.exact v h,
      added_sum v,
    );
  }

  with_edge-Extends : Extends g (with_edge g from to)
  with_edge-Extends i j h =
      rw (row i) (ground (arith, mem-append j (successors g.edges from) (to ∷ [])))

  with_edge-HasEdge : HasEdge (with_edge g from to) from to
  with_edge-HasEdge =
      rw (row from) (ground (arith, mem-append to (successors g.edges from) (to ∷ [])))

  -- What `add_edge` keeps and adds.
  pub add_edge_lem :
      let g' = add_edge g from to in IsExact n g' × Extends g g' × (from ≢ to → HasEdge g' from to)
  unfolding add_edge
  add_edge_lem = elim (Bool-cases (from == to || mem to (successors g.edges from))) [
    | inl there ↦ rw there (ok_g, (λ i j h. h), λ ne. ground arith)
    | inr missing ↦ rw missing (with_edge-IsExact, with_edge-Extends, λ ne. with_edge-HasEdge)
  ]
