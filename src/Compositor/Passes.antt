-- ===== src/Compositor/Passes.antt =====
-- The building blocks of a plan in packages/ui/src/compositor/compositor.cpp: targets, passes,
-- commands and dependencies. A `RenderPass *` is the index of the pass.
pub mod Fresh
use haxeon.Prelude.{
  ℕ, zero, suc, ◌+◌, ◌%◌, ◌^◌, Bool, false, ◌&&◌, ◌||◌, List, [], ◌∷◌, ◌++◌, ◌==◌, if◌then◌else◌,
  length,
}
use haxeon.ResourceId.{render_target, make_resource_id}
use haxeon.RenderPlan.Types.{
  RenderCommand, RenderPass, RenderTargetDescriptor, RenderDependency, RenderPlan, new_pass,
}
use haxeon.RenderPlan.Schedule.{draws}

-- The plan under construction, and `next_target_slot_`, a `uint16_t`.
pub record Work : Type 0 where
  pub plan : RenderPlan
  pub next_slot : ℕ

abbrev pub empty_plan : RenderPlan
empty_plan = record { passes = []; dependencies = []; isolated_layers = 0; bounded_layers = 0 }

abbrev pub first_slot : ℕ
first_slot = 0x8000

-- The slot that `allocate_transient_target` takes.
abbrev pub taken_slot : ℕ → ℕ
taken_slot next = if next == 0 then first_slot else next

unfoldable pub allocate : Work → ℕ × Work
allocate w =
    let slot = taken_slot w.next_slot in
    (make_resource_id render_target 1 slot, record w { next_slot = (slot + 1) % 2 ^ 16 })

-- `plan.passes.push_back`
unfoldable pub push_pass : RenderPass → Work → Work
push_pass p w = record w { plan = record w.plan { passes = w.plan.passes ++ p ∷ [] } }

-- The new pass loads what an earlier pass of the target has left. The result is its index.
unfoldable pub continue_pass : ℕ → RenderTargetDescriptor → Work → ℕ × Work
continue_pass target descriptor w =
    (length w.plan.passes, push_pass (new_pass target descriptor (draws target w.plan.passes)) w)

abbrev pub depends : ℕ → ℕ → List RenderDependency → Bool
depends producer consumer [] = false
depends producer consumer (d ∷ ds) =
    (d.producer == producer && d.consumer == consumer) || depends producer consumer ds

unfoldable pub add_dependency : ℕ → ℕ → Work → Work
add_dependency producer consumer w =
    if depends producer consumer w.plan.dependencies then w else record w {
      plan = record w.plan {
        dependencies =
            w.plan.dependencies ++ record { producer = producer; consumer = consumer } ∷ [];
      };
    }

-- `pass->commands.push_back`
unfoldable pub append_command : ℕ → RenderCommand → List RenderPass → List RenderPass
append_command i c [] = []
append_command zero c (p ∷ ps) = record p { commands = p.commands ++ c ∷ [] } ∷ ps
append_command (suc i) c (p ∷ ps) = p ∷ append_command i c ps

unfoldable pub add_command : ℕ → RenderCommand → Work → Work
add_command i c w = record w { plan = record w.plan { passes = append_command i c w.plan.passes } }

-- A composite of `source` into the pass `i`, which draws into `target`, and its dependency.
unfoldable pub composite_into : ℕ → ℕ → RenderCommand → Work → Work
composite_into i target c w = add_dependency c.resource target (add_command i c w)
