-- ===== src/FrameResources/Sealed.antt =====
-- `SealedRenderPlan::seal` of packages/ui/src/render/sealed_render_plan.cpp. The only error of the
-- source is its one message; the set `internal_targets` is the test on the passes.
use haxeon.Prelude.{
  ℕ, zero, suc, ◌≡◌, ◌⊎◌, inl, inr, refl, Bool, true, false, ◌&&◌, ◌||◌, List, [], ◌∷◌, Option,
  none, some, arith, if◌then◌else◌, get_elem?, Bool-cases, &&-eq-true,
}
use haxeon.RenderPlan.Types.{RenderPlan, RenderDependency}
use haxeon.RenderPlan.Schedule.{draws}
use haxeon.FrameResources.Frames.{graphics_image_of}
use haxeon.FrameResources.Owned.{OwnedFrameResources}

pub record SealedRenderPlan : Type 0 where
  pub plan : RenderPlan
  pub resources : OwnedFrameResources

abbrev pub is_bound : {A : Type 0} → Option A → Bool
is_bound none = false
is_bound (some x) = true

-- The two tests of the loop on one dependency.
unfoldable pub is_owned : RenderPlan → OwnedFrameResources → RenderDependency → Bool
is_owned plan resources d =
    draws d.producer plan.passes || is_bound (graphics_image_of d.producer resources.bindings)

unfoldable pub all_owned : RenderPlan → OwnedFrameResources → List RenderDependency → Bool
all_owned plan resources [] = true
all_owned plan resources (d ∷ ds) = is_owned plan resources d && all_owned plan resources ds

unfoldable pub seal : RenderPlan → OwnedFrameResources → Option SealedRenderPlan
unfolding all_owned
seal plan resources =
    if all_owned plan resources plan.dependencies
    then some (record { plan = plan; resources = resources })
    else none

-- What a sealed plan depends on: a pass of its own, or an image that it holds.
abbrev pub Owns : RenderPlan → OwnedFrameResources → RenderDependency → Type 0
Owns plan resources d =
    (draws d.producer plan.passes ≡ true)
    ⊎ ((picture : ℕ) × (graphics_image_of d.producer resources.bindings ≡ some picture))

is_bound-some : (x : Option ℕ) → is_bound x ≡ true → (picture : ℕ) × (x ≡ some picture)
is_bound-some none h = cc
is_bound-some (some picture) h = (picture, refl)

is_owned-Owns :
    (plan : RenderPlan) (resources : OwnedFrameResources) (d : RenderDependency)
    → is_owned plan resources d ≡ true
    → Owns plan resources d
unfolding is_owned
is_owned-Owns plan resources d h = elim (Bool-cases (draws d.producer plan.passes)) [
  | inl drawn ↦ inl drawn
  | inr missing ↦
      inr (is_bound-some (graphics_image_of d.producer resources.bindings) (rw missing at h))
]

Owns-is_owned :
    (plan : RenderPlan) (resources : OwnedFrameResources) (d : RenderDependency)
    → Owns plan resources d
    → is_owned plan resources d ≡ true
unfolding is_owned
Owns-is_owned plan resources d (inl drawn) = rw drawn refl
Owns-is_owned plan resources d (inr (picture, bound)) = rw bound (ground arith)

all_owned-Owns :
    (plan : RenderPlan) (resources : OwnedFrameResources) (ds : List RenderDependency)
    → all_owned plan resources ds ≡ true
    → (k : ℕ) (d : RenderDependency) → get_elem? ds k ≡ some d
    → Owns plan resources d
unfolding all_owned
all_owned-Owns plan resources [] h k d found = cc
all_owned-Owns plan resources (x ∷ ds) h zero d found =
    let (here, _) = &&-eq-true (is_owned plan resources x) (all_owned plan resources ds) h in
    let same : x ≡ d = cc in rw (← same) (is_owned-Owns plan resources x here)
all_owned-Owns plan resources (x ∷ ds) h (suc k) d found =
    let (_, later) = &&-eq-true (is_owned plan resources x) (all_owned plan resources ds) h in
    all_owned-Owns plan resources ds later k d found

first_missing :
    (plan : RenderPlan) (resources : OwnedFrameResources) (ds : List RenderDependency)
    → all_owned plan resources ds ≡ false
    → (k : ℕ) × (d : RenderDependency) × (get_elem? ds k ≡ some d) × (¬ Owns plan resources d)
unfolding all_owned
first_missing plan resources [] h = cc
first_missing plan resources (x ∷ ds) h = elim (Bool-cases (is_owned plan resources x)) [
  | inr bad ↦ (0, x, refl, λ o. cc (Owns-is_owned plan resources x o))
  | inl good ↦
      let (k, d, found, bad) = first_missing plan resources ds (rw good at h) in
      (suc k, d, found, bad)
]

-- Sealing keeps the plan and the resources as they are; it succeeds if each dependency names what a
-- pass of the plan draws or an image bound in the resources, and it fails otherwise.
pub seal-Owns :
    (plan : RenderPlan) (resources : OwnedFrameResources)
    → (((k : ℕ) (d : RenderDependency)
          → get_elem? plan.dependencies k ≡ some d
          → Owns plan resources d)
        × (seal plan resources ≡ some (record { plan = plan; resources = resources })))
      ⊎ (((k : ℕ) × (d : RenderDependency) × (get_elem? plan.dependencies k ≡ some d)
            × (¬ Owns plan resources d))
          × (seal plan resources ≡ none))
unfolding seal
seal-Owns plan resources = elim (Bool-cases (all_owned plan resources plan.dependencies)) [
  | inl all ↦ inl (all_owned-Owns plan resources plan.dependencies all, rw all refl)
  | inr missing ↦ inr (first_missing plan resources plan.dependencies missing, rw missing refl)
]
