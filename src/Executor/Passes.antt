-- ===== src/Executor/Passes.antt =====
-- One scheduled pass of packages/ui/src/render/render_plan_executor.cpp.
use haxeon.Prelude.{
  ℕ, ◌+◌, Bool, false, not, List, [], ◌∷◌, Option, none, some, ◌==◌, if◌then◌else◌,
}
use haxeon.Float32.{flt, float_zero}
use haxeon.DisplayList.Effects.{effect_custom}
use haxeon.RenderPlan.Types.{
  RenderCommand, RenderPass, path_command, image_command, glyph_batch, composite_target,
  stroke_path_command, box_shadow_command, rect_border_command, draw_pass, effect_pass, mask_pass,
  raster_pass,
}
use haxeon.Compositor.Hash.{Hashes}
use haxeon.FrameResources.Frames.{
  FrameResources, PreparedPathRef, path_of, image_of, text_of, graphics_image_of, is_positive,
}
use haxeon.Executor.Calls
use haxeon.Executor.Calls.{
  Action, UiRenderer, Call, Reply, Drawing, Filtering, draw_path, draw_glyphs, composite_image,
  draw_image, draw_box_shadow, draw_rect_border, apply_effect, apply_effect_region,
  apply_custom_effect, apply_custom_effect_region, apply_mask, begin_effect_pass, begin_raster_pass,
  begin_window_pass, begin_target_pass, end_pass, select_prepared_command, set_scissor, draw,
  filter, mask_image_unavailable, last_error, pure, fail, ◌>>=◌, ◌>>◌, call,
}
use haxeon.Executor.Hash.{runtime_pass_hash, frame_effect_cache_key}
use haxeon.Executor.Surfaces.{WindowTarget, Extents}

module _ (resources : FrameResources) (c : RenderCommand) where
  abbrev path_drawing : Option PreparedPathRef → Option Drawing
  path_drawing none = none
  path_drawing (some ref) = some (draw_path ref.path ref.operation_index c.transform c.opacity)

  abbrev text_drawing : Option ℕ → Option Drawing
  text_drawing none = none
  text_drawing (some text) = some (draw_glyphs text c.transform c.x c.y c.opacity)

  abbrev image_drawing : Option ℕ → Option Drawing
  image_drawing none = none
  image_drawing (some picture) =
      some (draw_image picture (c.x, c.y, c.width, c.height) c.transform c.opacity)

  abbrev target_drawing : Option ℕ → Drawing
  target_drawing none =
      Calls.composite_target c.resource (c.x, c.y, c.width, c.height) c.transform c.opacity
        c.source_uv_extent
  target_drawing (some picture) =
      composite_image picture (c.x, c.y, c.width, c.height) c.transform c.opacity c.source_uv_extent

  -- What the `switch` on the kind of a command draws; `none` is a resource that is not bound.
  unfoldable pub drawing_of : Option Drawing
  drawing_of = elim c.kind [
    | path_command ↦ path_drawing (path_of c.resource resources)
    | stroke_path_command ↦ path_drawing (path_of c.resource resources)
    | glyph_batch ↦ text_drawing (text_of c.resource resources)
    | composite_target ↦ some (target_drawing (graphics_image_of c.resource resources))
    | image_command ↦ image_drawing (image_of c.resource resources)
    | box_shadow_command ↦
        some (draw_box_shadow (c.x, c.y, c.width, c.height) c.transform c.opacity c.box_shadow)
    | rect_border_command ↦
        some (draw_rect_border (c.x, c.y, c.width, c.height) c.transform c.opacity c.rect_border)
  ]

-- What an effect pass applies.
unfoldable pub effect_filtering : RenderPass → Filtering
effect_filtering p =
    if p.effect.kind == effect_custom
    then if p.has_input_rect
      then apply_custom_effect_region p.input_target p.custom_effect p.input_rect
      else apply_custom_effect p.input_target p.custom_effect
    else if p.has_input_rect
    then apply_effect_region p.input_target p.effect p.input_rect
    else apply_effect p.input_target p.effect

-- `image` of a mask, and whether it is missing.
abbrev pub mask_image : FrameResources → RenderPass → Option (Option ℕ)
mask_image resources p =
    if p.mask.kind == 5 then found (image_of p.mask.image resources) else some none
  where
    found : Option ℕ → Option (Option ℕ)
    found none = none
    found (some picture) = some (some picture)

module _ (ui : UiRenderer) where
  -- A call whose failure ends the pass and the execution.
  abbrev pub try_in_pass : Call → ℕ → ℕ → Action Unit
  try_in_pass c pass command = do
    reply ← call ui c
    if reply.done then pure tt else (call ui end_pass >> fail pass command last_error)

  abbrev pub finish_pass : ℕ → ℕ → Action Unit
  finish_pass pass command = do
    reply ← call ui end_pass
    if reply.done then pure tt else fail pass command last_error

  abbrev pub try_drawing : Option Drawing → ℕ → ℕ → Action Unit
  try_drawing none pass command = call ui end_pass >> fail pass command last_error
  try_drawing (some d) pass command = try_in_pass (draw d) pass command

  -- The scissor is the last call that may fail in its pass without `fail_command`.
  abbrev pub try_scissor : RenderCommand → ℕ → ℕ → Action Unit
  try_scissor c pass command = do
    reply ←
        call ui
          (set_scissor c.has_scissor (c.scissor_x, c.scissor_y, c.scissor_width, c.scissor_height))
    if reply.done then pure tt else fail pass command last_error

  unfoldable pub draw_commands : FrameResources → ℕ → ℕ → List RenderCommand → Action Unit
  draw_commands resources pass command [] = finish_pass pass command
  draw_commands resources pass command (c ∷ cs) =
      call ui (select_prepared_command pass command)
      >> try_scissor c pass command
      >> try_drawing (drawing_of resources c) pass command
      >> draw_commands resources pass (command + 1) cs

  abbrev pub apply_mask_to : RenderPass → ℕ → Option (Option ℕ) → Action Unit
  apply_mask_to p pass none = call ui end_pass >> fail pass 0 mask_image_unavailable
  apply_mask_to p pass (some picture) =
      try_in_pass (filter (apply_mask p.input_target p.mask picture)) pass 0 >> finish_pass pass 0

  -- A pass that has begun.
  unfoldable pub run_pass : FrameResources → ℕ → RenderPass → Bool → Action Unit
  run_pass resources pass p hit =
      let commands = draw_commands resources pass 0 p.commands in
      elim p.kind [
        | effect_pass ↦
            if hit
            then pure tt
            else (try_in_pass (filter (effect_filtering p)) pass 0 >> finish_pass pass 0)
        | raster_pass ↦ if hit then pure tt else commands
        | mask_pass ↦ apply_mask_to p pass (mask_image resources p)
        | draw_pass ↦ commands
      ]

-- An extent of a pass; `logical > 0.0f` is rounded up.
abbrev extent : Extents → ℕ → ℕ → ℕ → ℕ
extent ext size logical whole =
    if is_positive size
    then size
    else if flt float_zero logical
    then ext.ceil_int logical
    else whole

-- `cache_hit` of a pass that is not asked for it stays false.
abbrev pub hit_of : RenderPass → Reply → Bool
hit_of p reply = elim p.kind [
  | effect_pass ↦ reply.cache_hit
  | raster_pass ↦ reply.cache_hit
  | mask_pass ↦ false
  | draw_pass ↦ false
]

module _ (ext : Extents) (window : WindowTarget) where
  abbrev pub plain_call : RenderPass → ℕ → ℕ → Call
  plain_call p width height =
      if p.target == window.id
      then begin_window_pass width height (not p.load_existing)
      else begin_target_pass p.target width height p.load_existing

  -- The call that begins a pass with the runtime hash `hash`.
  unfoldable pub begin_call : ℕ → RenderPass → Call
  begin_call hash p =
      let d = p.target_descriptor in
      let width = extent ext d.width d.logical_width window.width in
      let height = extent ext d.height d.logical_height window.height in
      let key = frame_effect_cache_key hash window.width window.height in
      elim p.kind [
        | effect_pass ↦ begin_effect_pass p.target key width height
        | raster_pass ↦ begin_raster_pass p.target key width height
        | mask_pass ↦ plain_call p width height
        | draw_pass ↦ plain_call p width height
      ]

  module _ (ui : UiRenderer) (resources : FrameResources) (serial : ℕ) where
    abbrev pub begun : ℕ → RenderPass → Reply → Action Unit
    begun pass p reply =
        if reply.done then run_pass ui resources pass p (hit_of p reply) else fail pass 0 last_error

    abbrev pub hash_now : Hashes → RenderPass → List (Call × Reply) → ℕ
    hash_now hashes p h = runtime_pass_hash (ui.producer_generation h) resources hashes serial p

    -- One round of the loop; it leaves the hashes of the targets.
    unfoldable pub execute_pass : Hashes → ℕ → RenderPass → Action Hashes
    execute_pass hashes pass p = do
      hash ← Calls.ask (hash_now hashes p)
      reply ← call ui (begin_call hash p)
      begun pass p reply
      pure ((p.target, hash) ∷ hashes)
