-- ===== src/RenderPlan/Schedule/Loops.antt =====
-- The loops of `schedule_render_plan` (packages/ui/src/compositor/render_plan.cpp) that put the
-- edges in.
use haxeon.Prelude.{
  ℕ, zero, suc, ◌+◌, ◌≤◌, ◌<◌, ◌≡◌, ◌≢◌, ◌⊎◌, ◌∙◌, inl, inr, refl, Bool, true, false, ◌&&◌, ◌||◌,
  List, [], ◌∷◌, none, some, ok, arith, ◌==◌, if◌then◌else◌, length, get_elem?, take, Option-cases,
  Outcome-cases, length-take,
}
use haxeon.Float32.{Arith}
use haxeon.RenderPlan.Types.{RenderPass}
use haxeon.RenderPlan.Checks.{samples_input, pass_problem}
use haxeon.RenderPlan.Schedule.{Graph, add_edge, link, connect_pass, connect}
use haxeon.RenderPlan.Schedule.Edges.{HasEdge, Extends, IsExact, add_edge_lem}

-- A loop may add edges, and keeps the counts.
abbrev pub Grows : ℕ → Graph → Graph → Type 0
Grows n g g' = IsExact n g' × Extends g g'

pub Grows-trans : (n : ℕ) (f g h : Graph) → Grows n f g → Grows n g h → Grows n f h
Grows-trans n f g h p q = (q.0, λ i j e. q.1 i j (p.1 i j e))

module _ (n : ℕ) (target to : ℕ) (low : to < n) where
  -- Every pass of the list that draws into the target precedes `to`.
  abbrev pub Links : ℕ → List RenderPass → Graph → Type 0
  Links p qs g =
      (k i : ℕ) (q : RenderPass)
      → i ≡ p + k
      → get_elem? qs k ≡ some q
      → (q.target == target) ≡ true
      → i ≢ to
      → HasEdge g i to

  pub link_one :
      (b : Bool) (p : ℕ) (g : Graph)
      → IsExact n g
      → p < n
      → let g' = if b then add_edge g p to else g in
        Grows n g g' × (b ≡ true → p ≢ to → HasEdge g' p to)
  link_one true p g e h =
      let (exact, more, new) = add_edge_lem n g p to e h low in ((exact, more), λ _ ne. new ne)
  link_one false p g e h = ((e, λ i j x. x), λ f ne. cc)

  Links-cons :
      (p : ℕ) (q : RenderPass) (qs : List RenderPass) (g1 g' : Graph)
      → ((q.target == target) ≡ true → p ≢ to → HasEdge g1 p to)
      → Extends g1 g'
      → Links (p + 1) qs g'
      → Links p (q ∷ qs) g'
  Links-cons p q qs g1 g' new more links zero i r e found hit ne =
      let here : i ≡ p = omega arith in
      let same : q ≡ r = cc in rw here (more p to (new (rw same hit) (rw here at ne)))
  Links-cons p q qs g1 g' new more links (suc k) i r e found hit ne =
      links k i r (omega arith) found hit ne

  pub link_lem :
      (p : ℕ) (qs : List RenderPass) (g : Graph)
      → IsExact n g
      → p + length qs ≤ n
      → let g' = link p qs target to g in Grows n g g' × Links p qs g'
  unfolding link
  link_lem p [] g e h = ((e, λ i j x. x), λ k i q e found. cc)
  link_lem p (q ∷ qs) g e h =
      let g1 = if q.target == target then add_edge g p to else g in
      let (one, new) = link_one (q.target == target) p g e (omega arith) in
      let (rest, links) = link_lem (p + 1) qs g1 one.0 (omega arith) in
      let g' = link (p + 1) qs target to g1 in
      (Grows-trans n g g1 g' one rest, Links-cons p q qs g1 g' new rest.1 links)

pub get_elem?-take :
    (m k : ℕ) (xs : List RenderPass) → k < m → get_elem? (take m xs) k ≡ get_elem? xs k
get_elem?-take zero k xs h = absurd (omega arith)
get_elem?-take (suc m) k [] h = refl
get_elem?-take (suc m) zero (x ∷ xs) h = refl
get_elem?-take (suc m) (suc k) (x ∷ xs) h = get_elem?-take m k xs (omega arith)

sampled :
    (g1 g2 : Graph) (i j : ℕ) (a b c : Bool)
    → (a || (c && b)) ≡ true
    → Extends g1 g2
    → (a ≡ true → HasEdge g1 i j)
    → (b ≡ true → HasEdge g2 i j)
    → HasEdge g2 i j
sampled g1 g2 i j true b c h more x y = more i j (x refl)
sampled g1 g2 i j false b true h more x y = y h
sampled g1 g2 i j false b false h more x y = cc

-- The edges that the pass `p` at `index` asks for are there.
abbrev pub Connected : List RenderPass → ℕ → RenderPass → Graph → Type 0
Connected passes index p g =
    (i : ℕ) (q : RenderPass)
    → i < index
    → get_elem? passes i ≡ some q
    → ((q.target == p.target) || (samples_input p.kind && q.target == p.input_target)) ≡ true
    → HasEdge g i index

Connected-cons :
    (passes : List RenderPass) (index : ℕ) (p : RenderPass) (ps : List RenderPass) (g1 g' : Graph)
    → Connected passes index p g1
    → Extends g1 g'
    → ((k j : ℕ) (q : RenderPass)
        → j ≡ index + 1 + k
        → get_elem? ps k ≡ some q
        → Connected passes j q g')
    → (k j : ℕ) (q : RenderPass) → j ≡ index + k
    → get_elem? (p ∷ ps) k ≡ some q
    → Connected passes j q g'
Connected-cons passes index p ps g1 g' here more there zero j q e found =
    let at_index : j ≡ index = omega arith in
    let same : p ≡ q = cc in
    rw (at_index, ← same) (λ i r low seen hit. more i index (here i r low seen hit))
Connected-cons passes index p ps g1 g' here more there (suc k) j q e found =
    there k j q (omega arith) found

module _ (n : ℕ) (passes : List RenderPass) (all : length passes ≡ n) where
  pub prefix_length : (index : ℕ) → index < n → length (take index passes) ≡ index
  prefix_length index h = length-take index passes (omega (arith, all))

  pub connect_pass-cases :
      (index : ℕ) (p : RenderPass) (g g' : Graph)
      → connect_pass passes index p g ≡ ok g'
      → let linked = link 0 (take index passes) p.target index g in
        ((samples_input p.kind ≡ true)
          × (g' ≡ link 0 (take index passes) p.input_target index linked))
        ⊎ ((samples_input p.kind ≡ false) × (g' ≡ linked))
  unfolding connect_pass
  connect_pass-cases index p g g' e = ground arith

  pub connect_pass-Grows :
      (index : ℕ) (p : RenderPass) (g g' : Graph)
      → index < n
      → IsExact n g
      → connect_pass passes index p g ≡ ok g'
      → Grows n g g' × Connected passes index p g'
  connect_pass-Grows index p g g' low e run =
      let before = take index passes in
      let g1 = link 0 before p.target index g in
      let g2 = link 0 before p.input_target index g1 in
      let fits : 0 + length before ≤ n = omega (arith, prefix_length index low) in
      let (grows, links) = link_lem n p.target index low 0 before g e fits in
      let (grows', links') = link_lem n p.input_target index low 0 before g1 grows.0 fits in
      elim (connect_pass-cases index p g g' run) [
        | inr (plain, same) ↦ rw same (
          grows,
          λ i q h found hit.
              links i i q (omega arith) (get_elem?-take index i passes h ∙ found)
                (ground (arith, plain)) (omega arith),
        )
        | inl (sampling, same) ↦ rw same (
          Grows-trans n g g1 g2 grows grows',
          λ i q h found hit.
              sampled g1 g2 i index (q.target == p.target) (q.target == p.input_target) _ hit
                grows'.1
                (λ t.
                  links i i q (omega arith) (get_elem?-take index i passes h ∙ found) t
                    (omega arith))
                (λ t.
                  links' i i q (omega arith) (get_elem?-take index i passes h ∙ found) t
                    (omega arith)),
        )
      ]

  pub connect-step :
      (fp : Arith) (index : ℕ) (p : RenderPass) (ps : List RenderPass) (g g' : Graph)
      → connect fp passes index (p ∷ ps) g ≡ ok g'
      → (g1 : Graph) × (pass_problem fp p ≡ none)
        × (connect_pass passes index p g ≡ ok g1)
        × (connect fp passes (index + 1) ps g1 ≡ ok g')
  unfolding connect
  connect-step fp index p ps g g' run = elim (Option-cases (pass_problem fp p)) [
    | inr (m, bad) ↦ cc (rw (bad, connect) at run)
    | inl good ↦ elim (Outcome-cases (connect_pass passes index p g)) [
      | inr (e, bad) ↦ cc (rw (good, connect, bad) at run)
      | inl (g1, next) ↦ (g1, good, next, rw (good, connect, next) at run)
    ]
  ]

  -- The first loop.
  pub connect-Grows :
      (fp : Arith) (index : ℕ) (ps : List RenderPass) (g g' : Graph)
      → index + length ps ≤ n
      → IsExact n g
      → connect fp passes index ps g ≡ ok g'
      → Grows n g g'
        × ((k j : ℕ) (p : RenderPass)
            → j ≡ index + k
            → get_elem? ps k ≡ some p
            → Connected passes j p g')
  unfolding connect
  connect-Grows fp index [] g g' h e run =
      let same : g ≡ g' = cc in rw (← same) ((e, λ i j x. x), λ k j p q found. cc)
  connect-Grows fp index (p ∷ ps) g g' h e run =
      let (g1, good, one, later) = connect-step fp index p ps g g' run in
      let (grows, here) = connect_pass-Grows index p g g1 (omega arith) e one in
      let (grows', there) = connect-Grows fp (index + 1) ps g1 g' (omega arith) grows.0 later in
      (
        Grows-trans n g g1 g' grows grows',
        Connected-cons passes index p ps g1 g' here grows'.1 there,
      )
