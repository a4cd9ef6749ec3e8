-- ===== src/Examples/Compositor.antt =====
-- Concrete display lists that are compiled (packages/ui/src/compositor/compositor.cpp).
use haxeon.Prelude.{
  ℕ, ◌≡◌, ◌≢◌, inl, refl, true, false, List, [], ◌∷◌, ◌++◌, Option, none, some, Outcome, ok, err,
  arith, length, get_elem?,
}
use haxeon.Float32.{is_finite, flt, fle}
use haxeon.ResourceId.{render_target, make_resource_id, is_resource_id}
use haxeon.DisplayList.Wire.{Opcode, opcode_code, Header, encode, read_header, fields, opcode_of}
use haxeon.DisplayList.Commands.{
  check_opcode, check_command, valid_layer, valid_layer_unbounded_v1, valid_draw_resource,
}
use haxeon.DisplayList.Effects.{valid_composite, valid_rect}
use haxeon.DisplayList.Validate.{outset, check_header, check_record, validate_display_list}
use haxeon.DisplayList.Buffer.{DisplayList, contents}
use haxeon.RenderPlan.Types.{RenderPlan, RenderPass, new_pass, default_descriptor}
use haxeon.RenderPlan.Kahn.Start.{before}
use haxeon.RenderPlan.Checks.{dependency_cycle, pass_problem}
use haxeon.RenderPlan.Schedule.{
  any_composites, add_edge, link, connect_pass, connect, consume, depend, depend_all, order_passes,
  schedule_render_plan,
}
use haxeon.Compositor.Types.{CompositorError, LayerCommandValues}
use haxeon.Compositor.Passes.{
  Work, empty_plan, allocate, push_pass, continue_pass, add_dependency, append_command, add_command,
  composite_into,
}
use haxeon.Compositor.Bounds.{apply_state}
use haxeon.Compositor.Chain.{apply_operations}
use haxeon.Compositor.Hash.{assign_effect_cache_keys}
use haxeon.Compositor.Reading.{read_layer, read_layer_v1, read_layer_v2}
use haxeon.Compositor.Step.{
  make_backdrop, finish_layer, close_layer, draw_target, enter_layer, open_layer, begin_layer_step,
  end_layer_step, step,
}
use haxeon.Compositor.Commands.{is_isolated, count_layer}
use haxeon.Compositor.Compile.{start, step_record, compile_from, compile}
use haxeon.Compositor.Reading.Valid.{read_layer-valid}
use haxeon.Compositor.Step.Sound.{Proceeds, step-Proceeds}
use haxeon.Compositor.Compile.Answers.{start-Settled, Answers}
use haxeon.Compositor.Compile.Ordered.{Blames, compile-Blames, compile_before}
use haxeon.Compositor.Passes.Fresh.{target_number, target_number_apart}
use haxeon.Examples.Plans.{plain_arith}

-- A layer of half opacity with nothing in it.
abbrev bytes : List ℕ
bytes = encode Opcode.begin_layer 1 (0x3f000000 ∷ 1 ∷ []) ++ encode Opcode.end_layer 1 []

abbrev faded : DisplayList
faded = record { bytes = bytes; size = 24; growth_count = 0; command_count = 2 }

abbrev main : ℕ
main = 0x40010001

faded_size : length bytes ≡ 24
unfolding encode
faded_size = refl

abbrev plan_in : Option (Outcome CompositorError RenderPlan) → RenderPlan
plan_in (some (ok plan)) = plan
plan_in (some (err e)) = empty_plan
plan_in none = empty_plan

abbrev faded_plan : RenderPlan
faded_plan = plan_in (compile plain_arith faded main)

-- The layer reads the target that it is composited into.
abbrev looping_bytes : List ℕ
looping_bytes =
    encode Opcode.begin_layer 1 (0x3f000000 ∷ 1 ∷ [])
    ++ encode Opcode.draw_render_target 1 (main ∷ 0 ∷ 0 ∷ 0 ∷ 0 ∷ [])
    ++ encode Opcode.end_layer 1 []

abbrev looping : DisplayList
looping = record { bytes = looping_bytes; size = 52; growth_count = 0; command_count = 3 }

abbrev looping_plan : RenderPlan
looping_plan = plan_in (compile plain_arith looping main)

faded_compiled : compile plain_arith faded main ≡ some (ok faded_plan)
unfolding compile encode is_resource_id contents validate_display_list check_record check_header
    check_command check_opcode opcode_of read_header fields valid_layer valid_layer_unbounded_v1
    is_finite flt fle valid_composite compile_from step_record step start begin_layer_step
    read_layer read_layer_v1 read_layer_v2 is_isolated open_layer end_layer_step enter_layer
faded_compiled = refl

looping_compiled : compile plain_arith looping main ≡ some (ok looping_plan)
unfolding compile encode is_resource_id contents validate_display_list check_record check_header
    check_command check_opcode opcode_of read_header fields valid_layer valid_layer_unbounded_v1
    is_finite flt fle valid_composite compile_from step_record step start begin_layer_step
    read_layer read_layer_v1 read_layer_v2 is_isolated open_layer end_layer_step enter_layer
    valid_draw_resource valid_rect draw_target continue_pass allocate make_resource_id make_backdrop
    count_layer push_pass
looping_compiled = refl

faded_scheduled : schedule_render_plan plain_arith faded_plan ≡ ok (0 ∷ 1 ∷ 2 ∷ [])
unfolding compile encode is_resource_id contents validate_display_list check_record check_header
    check_command check_opcode opcode_of read_header fields valid_layer valid_layer_unbounded_v1
    is_finite flt fle valid_composite compile_from step_record step start begin_layer_step
    read_layer read_layer_v1 read_layer_v2 is_isolated open_layer end_layer_step enter_layer
    valid_draw_resource valid_rect draw_target continue_pass allocate make_resource_id make_backdrop
    count_layer push_pass composite_into add_command append_command add_dependency close_layer
    finish_layer apply_operations assign_effect_cache_keys schedule_render_plan connect pass_problem
    connect_pass link add_edge depend_all depend consume order_passes
faded_scheduled = refl

looping_refused :
    schedule_render_plan plain_arith looping_plan
    ≡ err (record { pass_index = 1; message = dependency_cycle })
unfolding compile encode is_resource_id contents validate_display_list check_record check_header
    check_command check_opcode opcode_of read_header fields valid_layer valid_layer_unbounded_v1
    is_finite flt fle valid_composite compile_from step_record step start begin_layer_step
    read_layer read_layer_v1 read_layer_v2 is_isolated open_layer end_layer_step enter_layer
    valid_draw_resource valid_rect draw_target continue_pass allocate make_resource_id make_backdrop
    count_layer push_pass composite_into add_command append_command add_dependency close_layer
    finish_layer apply_operations assign_effect_cache_keys schedule_render_plan connect pass_problem
    connect_pass link add_edge depend_all depend consume order_passes apply_state
looping_refused = refl

abbrev pass_or : Option RenderPass → RenderPass
pass_or (some p) = p
pass_or none = new_pass 0 default_descriptor false

abbrev pass_of : ℕ → RenderPass
pass_of k = pass_or (get_elem? faded_plan.passes k)

faded_passes :
    (get_elem? faded_plan.passes 1 ≡ some (pass_of 1))
    × (get_elem? faded_plan.passes 2 ≡ some (pass_of 2))
    × (any_composites (pass_of 1).target (pass_of 2).commands ≡ true)
unfolding compile encode is_resource_id contents validate_display_list check_record check_header
    check_command check_opcode opcode_of read_header fields valid_layer valid_layer_unbounded_v1
    is_finite flt fle valid_composite compile_from step_record step start begin_layer_step
    read_layer read_layer_v1 read_layer_v2 is_isolated open_layer end_layer_step enter_layer
    valid_draw_resource valid_rect draw_target continue_pass allocate make_resource_id make_backdrop
    count_layer push_pass composite_into add_command append_command add_dependency close_layer
    finish_layer apply_operations assign_effect_cache_keys schedule_render_plan connect pass_problem
    connect_pass link add_edge depend_all depend consume order_passes apply_state
faded_passes = (refl, refl, refl)

compile_before_example : before 1 2 (0 ∷ 1 ∷ 2 ∷ []) ≡ true
compile_before_example =
    compile_before plain_arith faded main (omega (arith, faded_size)) (omega arith) faded_plan
      faded_compiled (0 ∷ 1 ∷ 2 ∷ []) 1 2 (pass_of 1) (pass_of 2) faded_scheduled faded_passes.0
      faded_passes.1 (λ h. cc) faded_passes.2

looping_size : length looping_bytes ≡ 52
unfolding encode
looping_size = refl

compile-Blames_example :
    Blames plain_arith looping_plan (record { pass_index = 1; message = dependency_cycle })
compile-Blames_example =
    compile-Blames plain_arith looping main (omega (arith, looping_size)) (omega arith) looping_plan
      looping_compiled (record { pass_index = 1; message = dependency_cycle }) looping_refused

-- The layer of `faded`.
abbrev header : Header
header = record { opcode = opcode_code Opcode.begin_layer; version = 1; size = 16 }

abbrev half : List ℕ
half = 0x3f000000 ∷ 1 ∷ []

half_valid : valid_layer header half ≡ true
unfolding valid_layer valid_layer_unbounded_v1 is_finite flt fle valid_composite
half_valid = refl

read_layer-valid_example : (v : LayerCommandValues) × (read_layer header half ≡ some v)
read_layer-valid_example = read_layer-valid header half (inl refl) half_valid

half_read :
    Opcode.begin_layer ≡ Opcode.begin_layer
    → (v : LayerCommandValues) × (read_layer header half ≡ some v)
half_read e = read_layer-valid header half (inl refl) half_valid

step-Proceeds_example :
    Proceeds main Opcode.begin_layer
      (record { states = 0; layers = 1 })
      (step plain_arith Opcode.begin_layer header half (start main))
step-Proceeds_example =
    step-Proceeds plain_arith main Opcode.begin_layer header half (start main) outset half_read
      (omega arith) (start-Settled main)

-- The last slot is next, so that the slots begin again behind it.
abbrev last_slot : Work
last_slot = record { plan = empty_plan; next_slot = 0xFFFF }

target_number_apart_example :
    (target_number 0 last_slot ≢ target_number 1 last_slot)
    × (is_resource_id (target_number 0 last_slot) render_target ≡ true)
    × (target_number 0 last_slot ≢ 0x40010001)
target_number_apart_example =
    target_number_apart last_slot 0x40010001 0 1 (ground arith) (ground arith) (omega arith)
      (omega arith) (omega arith)
