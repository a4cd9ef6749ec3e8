-- ===== src/RenderPlan/Embed/Found.antt =====
-- The pass that `append_embedded_render_plan` (packages/ui/src/compositor/render_plan.cpp) draws into, and
-- lists of dependencies behind one another.
use haxeon.Prelude.{
  ℕ, zero, suc, ◌+◌, ◌≡◌, ◌≢◌, ◌<◌, refl, sym, false, inl, inr, true, List, [], ◌∷◌, ◌++◌, Option,
  none, some, arith, ◌==◌, Bool-cases, get_elem?, append_assoc, append-nil,
}
use haxeon.RenderPlan.Types.{RenderPass, RenderDependency}
use haxeon.RenderPlan.Schedule.{consumed}
use haxeon.RenderPlan.Embed.{find_pass, draws_into, destination_main}
use haxeon.RenderPlan.Embed.Options.{RenderPlanEmbedOptions}
use haxeon.Compositor.Passes.{depends}
use haxeon.Compositor.Plan.{consumers_ok, declared_ok, target_at, declared_ok-wider}

-- The pass `i` is the one that is asked for, or else the first of the target.
abbrev pub IsDestination : ℕ → Option ℕ → List RenderPass → ℕ → Type 0
IsDestination t (some k) ps i = (i ≡ k) × (target_at i ps ≡ some t)
IsDestination t none ps i = (target_at i ps ≡ some t) × ((m : ℕ) → m < i → target_at m ps ≢ some t)

-- The pass that is asked for does not draw into the target, or else no pass does.
abbrev pub IsUnavailable : ℕ → Option ℕ → List RenderPass → Type 0
IsUnavailable t (some k) ps = target_at k ps ≢ some t
IsUnavailable t none ps = (m : ℕ) → target_at m ps ≢ some t

one_more :
    (t : ℕ) (p : RenderPass) (ps : List RenderPass) (m : ℕ)
    → (p.target == t) ≡ false
    → ((k : ℕ) → target_at k ps ≢ some t)
    → target_at m (p ∷ ps) ≢ some t
one_more t p ps zero other rest = λ h. ground arith
one_more t p ps (suc m) other rest = rest m

one_later :
    (t : ℕ) (p : RenderPass) (ps : List RenderPass) (j : ℕ)
    → (p.target == t) ≡ false
    → ((m : ℕ) → m < j → target_at m ps ≢ some t)
    → (m : ℕ) → m < suc j
    → target_at m (p ∷ ps) ≢ some t
one_later t p ps j other rest zero low = λ h. ground arith
one_later t p ps j other rest (suc m) low = rest m (omega arith)

find_pass-target_at :
    (t i k : ℕ) (ps : List RenderPass)
    → find_pass t i ps ≡ some k
    → (j : ℕ) × (k ≡ i + j) × (target_at j ps ≡ some t)
unfolding find_pass
find_pass-target_at t i k [] e = cc
find_pass-target_at t i k (p ∷ ps) e = elim (Bool-cases (p.target == t)) [
  | inl here ↦
      let same : i ≡ k = cc (rw (here, find_pass) at e) in (zero, omega arith, ground arith)
  | inr other ↦
      let (j, at_j, found) = find_pass-target_at t (i + 1) k ps (rw (other, find_pass) at e) in
      (suc j, omega arith, found)
]

find_pass-first :
    (t i k : ℕ) (ps : List RenderPass)
    → find_pass t i ps ≡ some k
    → (j : ℕ) × (k ≡ i + j)
      × (target_at j ps ≡ some t)
      × ((m : ℕ) → m < j → target_at m ps ≢ some t)
unfolding find_pass
find_pass-first t i k [] e = cc
find_pass-first t i k (p ∷ ps) e = elim (Bool-cases (p.target == t)) [
  | inl here ↦
      let same : i ≡ k = cc (rw (here, find_pass) at e) in
      (zero, omega arith, ground arith, λ m low. absurd (omega arith))
  | inr other ↦
      let (j, at_j, found, first) = find_pass-first t (i + 1) k ps (rw (other, find_pass) at e) in
      (suc j, omega arith, found, one_later t p ps j other first)
]

find_pass-nowhere :
    (t i : ℕ) (ps : List RenderPass) → find_pass t i ps ≡ none → (m : ℕ) → target_at m ps ≢ some t
unfolding find_pass
find_pass-nowhere t i [] e m = λ h. cc
find_pass-nowhere t i (p ∷ ps) e m = elim (Bool-cases (p.target == t)) [
  | inl here ↦ cc (rw (here, find_pass) at e)
  | inr other ↦
      one_more t p ps m other (find_pass-nowhere t (i + 1) ps (rw (other, find_pass) at e))
]

get_elem?-target_at :
    (t k : ℕ) (ps : List RenderPass)
    → draws_into t (get_elem? ps k) ≡ true
    → target_at k ps ≡ some t
get_elem?-target_at t k [] e = cc
get_elem?-target_at t zero (p ∷ ps) e = ground arith
get_elem?-target_at t (suc k) (p ∷ ps) e = get_elem?-target_at t k ps e

pub destination_main-target_at :
    (o : RenderPlanEmbedOptions) (asked : Option ℕ) (ps : List RenderPass) (i : ℕ)
    → destination_main o asked ps ≡ some i
    → target_at i ps ≡ some o.destination_main_target
unfolding destination_main
destination_main-target_at o none ps i e =
    let (j, at_j, found) = find_pass-target_at o.destination_main_target 0 i ps e in
    let same : i ≡ j = omega arith in rw same found
destination_main-target_at o (some k) ps i e =
    elim (Bool-cases (draws_into o.destination_main_target (get_elem? ps k))) [
      | inl there ↦
          let same : k ≡ i = cc (rw (there, destination_main) at e) in
          rw same at (get_elem?-target_at o.destination_main_target k ps there)
      | inr other ↦ cc (rw (other, destination_main) at e)
    ]

pub destination_main-IsDestination :
    (o : RenderPlanEmbedOptions) (asked : Option ℕ) (ps : List RenderPass) (i : ℕ)
    → destination_main o asked ps ≡ some i
    → IsDestination o.destination_main_target asked ps i
unfolding destination_main
destination_main-IsDestination o none ps i e =
    let (j, at_j, found, first) = find_pass-first o.destination_main_target 0 i ps e in
    let same : i ≡ j = omega arith in rw same (found, first)
destination_main-IsDestination o (some k) ps i e =
    elim (Bool-cases (draws_into o.destination_main_target (get_elem? ps k))) [
      | inl there ↦
          let same : k ≡ i = cc (rw (there, destination_main) at e) in
          (sym same, destination_main-target_at o (some k) ps i e)
      | inr other ↦ cc (rw (other, destination_main) at e)
    ]

target_at-draws_into :
    (t k : ℕ) (ps : List RenderPass)
    → target_at k ps ≡ some t
    → draws_into t (get_elem? ps k) ≡ true
target_at-draws_into t k [] e = cc
target_at-draws_into t zero (p ∷ ps) e = ground arith
target_at-draws_into t (suc k) (p ∷ ps) e = target_at-draws_into t k ps e

pub destination_main-IsUnavailable :
    (o : RenderPlanEmbedOptions) (asked : Option ℕ) (ps : List RenderPass)
    → destination_main o asked ps ≡ none
    → IsUnavailable o.destination_main_target asked ps
unfolding destination_main
destination_main-IsUnavailable o none ps e = find_pass-nowhere o.destination_main_target 0 ps e
destination_main-IsUnavailable o (some k) ps e =
    λ h. cc (rw (target_at-draws_into o.destination_main_target k ps h, destination_main) at e)

pub declared_ok-append :
    (ds es : List RenderDependency) (ps : List RenderPass)
    → declared_ok ds ps ≡ true
    → declared_ok (ds ++ es) ps ≡ true
declared_ok-append ds [] ps h = rw (append-nil ds) h
declared_ok-append ds (e ∷ es) ps h =
    rw (append_assoc ds (e ∷ []) es) at
      (declared_ok-append (ds ++ e ∷ []) es ps (declared_ok-wider ds e ps h))

pub depends-append :
    (r t : ℕ) (ds es : List RenderDependency)
    → depends r t es ≡ true
    → depends r t (ds ++ es) ≡ true
depends-append r t [] es h = h
depends-append r t (d ∷ ds) es h = ground (arith, depends-append r t ds es)

pub consumers_ok-append :
    (ds es : List RenderDependency) (ps : List RenderPass)
    → consumers_ok ds ps ≡ true
    → consumers_ok es ps ≡ true
    → consumers_ok (ds ++ es) ps ≡ true
consumers_ok-append [] es ps h k = k
consumers_ok-append (d ∷ ds) es ps h k = ground (arith, consumers_ok-append ds es ps)

pub consumers_ok-fed :
    (ds : List RenderDependency) (ps ps' : List RenderPass)
    → ((r t : ℕ) → consumed r t ps ≡ true → consumed r t ps' ≡ true)
    → consumers_ok ds ps ≡ true
    → consumers_ok ds ps' ≡ true
consumers_ok-fed [] ps ps' fed h = refl
consumers_ok-fed (d ∷ ds) ps ps' fed h =
    ground (arith, fed d.producer d.consumer, consumers_ok-fed ds ps ps' fed)
