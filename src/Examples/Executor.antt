-- ===== src/Examples/Executor.antt =====
-- Concrete executions of a plan (packages/ui/src/render/render_plan_executor.cpp).
use haxeon.Prelude.{◌≡◌, refl, true, false, [], ◌∷◌, none, ok}
use haxeon.ResourceId.{is_resource_id}
use haxeon.FrameResources.Frames.{new_resources}
use haxeon.FrameResources.Owned.{new_owned}
use haxeon.FrameResources.Sealed.{SealedRenderPlan, is_owned, seal}
use haxeon.Executor.{execute_render_plan, execute_sealed}
use haxeon.Executor.Calls.{UiRenderer, surface_rendered}
use haxeon.Executor.Surfaces.{WindowTarget, Extents, prepare_surfaces}
use haxeon.Executor.Passes.{drawing_of}
use haxeon.Executor.Whole.{IsExecuted, execute_render_plan-IsExecuted, prepare_surfaces-seal}
use haxeon.Executor.Succeeds.{commands_bound, passes_bound}
use haxeon.Executor.Completes.{execute_sealed-succeeds}
use haxeon.Examples.Plans.{plain_arith, main_target, two_passes, two_passes_order}

abbrev extents : Extents
extents = record { bounded_extent = λ value maximum. maximum; ceil_int = λ value. 1 }

-- A renderer that does what it is asked and caches nothing.
abbrev willing : UiRenderer
willing = record {
  answer = λ h c. record { done = true; cache_hit = false; rendered = surface_rendered };
  valid = λ h. true;
  surface_has_content = λ h id. false;
  surface_is_current = λ h id generation d. false;
  producer_ready = λ h producer. true;
  producer_describe = λ h producer width height. none;
  producer_generation = λ h producer. 1;
}

abbrev window : WindowTarget
window = record { id = main_target; complete = true; width = 640; height = 480 }

execute_render_plan-IsExecuted_example :
    IsExecuted plain_arith extents willing two_passes new_resources window 7 []
      (execute_render_plan plain_arith extents willing two_passes new_resources window 7 [])
execute_render_plan-IsExecuted_example =
    execute_render_plan-IsExecuted plain_arith extents willing two_passes new_resources window 7 []
      refl

abbrev sealed : SealedRenderPlan
sealed = record { plan = two_passes; resources = new_owned }

prepare_surfaces-seal_example :
    prepare_surfaces plain_arith extents willing two_passes new_owned.bindings window []
      two_passes.dependencies []
    ≡ (ok tt, [])
unfolding seal is_owned
prepare_surfaces-seal_example =
    prepare_surfaces-seal plain_arith extents willing two_passes new_owned window sealed [] refl

execute_sealed-succeeds_example :
    (execute_sealed plain_arith extents willing sealed window 7 []).0 ≡ ok tt
unfolding seal is_owned passes_bound commands_bound drawing_of is_resource_id
execute_sealed-succeeds_example =
    execute_sealed-succeeds plain_arith extents willing (λ h c. refl) window 7 two_passes new_owned
      sealed (1 ∷ 0 ∷ []) [] refl two_passes_order refl refl
