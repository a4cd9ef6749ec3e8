-- ===== src/Compositor/Compile.antt =====
-- `Compositor::compile` (packages/ui/src/compositor/compositor.cpp).
pub mod Ends
pub mod Wired
pub mod Answers
pub mod Ordered
use haxeon.Prelude.{
  ℕ, zero, suc, ◌+◌, ◌%◌, ◌^◌, Bool, true, false, ◌&&◌, not, List, [], ◌∷◌, Option, none, some,
  Outcome, ok, err, ◌==◌, if◌then◌else◌, take, drop, length,
}
use haxeon.Float32.{Arith}
use haxeon.ResourceId.{is_resource_id, render_target}
use haxeon.DisplayList.Wire.{Header, Opcode, read_header, fields, opcode_of}
use haxeon.DisplayList.Buffer.{DisplayList, contents}
use haxeon.DisplayList.Validate.{
  Verdict, accepted, rejected, unfinished, ValidationError, validate_display_list,
}
use haxeon.RenderPlan.Types.{RenderPlan, default_descriptor}
use haxeon.Compositor.Types.{CompositorMessage, CompositorError, invalid_input, new_canvas}
use haxeon.Compositor.Passes.{Work, empty_plan, first_slot, continue_pass}
use haxeon.Compositor.Hash.{assign_effect_cache_keys}
use haxeon.Compositor.Step.{Machine, step}

-- The first free slot is not that of the main target.
abbrev pub initial_slot : ℕ → ℕ
initial_slot main = if main % 2 ^ 16 == first_slot then first_slot + 1 else first_slot

unfoldable pub start : ℕ → Machine
unfolding continue_pass
start main =
    let (pass, work) =
      continue_pass main default_descriptor
        (record { plan = empty_plan; next_slot = initial_slot main }) in
    record {
      work = work;
      layers = [];
      state = new_canvas;
      states = [];
      target = main;
      origin_x = 0;
      origin_y = 0;
      pass = pass;
    }

-- The end of the loop: the plan, or what stopped it. `unfinished` stands for fuel that ran out.
pub data Run : Type 0 where
  finished : Machine → Run
  stopped : CompositorError → Run
  out_of_fuel : Run

module _ (fp : Arith) where
  -- An opcode that the `switch` does not name is passed over.
  abbrev pub dispatch :
      Option Opcode → Header → List ℕ → Machine → Outcome CompositorMessage Machine
  dispatch none h w m = ok m
  dispatch (some o) h w m = step fp o h w m

  unfoldable pub step_record : List ℕ → Machine → Outcome CompositorMessage Machine
  step_record rest m =
      let h = read_header rest in dispatch (opcode_of h.opcode) h (fields (take h.size rest)) m

  -- The `while` loop over the bytes that are left.
  unfoldable pub compile_from : ℕ → List ℕ → ℕ → Machine → Run
  compile_from zero rest index m = out_of_fuel
  compile_from (suc fuel) [] index m = finished m
  compile_from (suc fuel) (b ∷ bs) index m = elim (step_record (b ∷ bs) m) [
    | err message ↦ stopped (record { command_index = index; message = message })
    | ok m' ↦
        compile_from fuel (drop (read_header (b ∷ bs)).size (b ∷ bs)) ((index + 1) % 2 ^ 32) m'
  ]

  abbrev invalid_at : ℕ → CompositorError
  invalid_at index = record { command_index = index; message = invalid_input }

  -- The plan with its cache keys.
  abbrev pub keyed : Machine → RenderPlan
  keyed m = record m.work.plan { passes = assign_effect_cache_keys [] m.work.plan.passes }

  abbrev pub result_of : Run → Option (Outcome CompositorError RenderPlan)
  result_of (finished m) = some (ok (keyed m))
  result_of (stopped e) = some (err e)
  result_of out_of_fuel = none

  abbrev pub when_valid :
      Verdict
      → Option (Outcome CompositorError RenderPlan)
      → Option (Outcome CompositorError RenderPlan)
  when_valid accepted r = r
  when_valid (rejected e) r = some (err (invalid_at e.command_index))
  when_valid unfinished r = none

  -- `none` stands for fuel that ran out.
  unfoldable pub compile : DisplayList → ℕ → Option (Outcome CompositorError RenderPlan)
  compile dl main =
      if is_resource_id main render_target
      then when_valid (validate_display_list fp (some dl.bytes) dl.size)
          (result_of (compile_from (suc dl.size) (contents dl) 0 (start main)))
      else some (err (invalid_at 0))
