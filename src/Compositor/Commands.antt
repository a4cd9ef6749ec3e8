-- ===== src/Compositor/Commands.antt =====
-- The commands and layer tests of `Compositor::compile` (packages/ui/src/compositor/compositor.cpp).
use haxeon.Prelude.{
  ℕ, ◌+◌, ◌%◌, ◌^◌, Bool, true, false, ◌||◌, not, List, [], ◌∷◌, if◌then◌else◌, take, drop,
}
use haxeon.Float32.{flt, float_one}
use haxeon.DisplayList.Wire.{field_at}
use haxeon.DisplayList.Effects.{EffectOp, layer_isolated}
use haxeon.DisplayList.Methods.{Bounds}
use haxeon.RenderPlan.Types.{
  RenderCommand, RenderCommandKind, RenderTargetDescriptor, default_descriptor, new_command,
  stroke_path_command, box_shadow_command, rect_border_command,
}
use haxeon.Compositor.Types.{LayerCommandValues}
use haxeon.Compositor.Passes.{Work}

-- `{x, y, width, height}` from the field `k` on.
abbrev pub rect_at : ℕ → List ℕ → Bounds
rect_at k w = record {
  x = field_at w k;
  y = field_at w (k + 1);
  width = field_at w (k + 2);
  height = field_at w (k + 3);
}

abbrev pub command_in : RenderCommandKind → ℕ → Bounds → RenderCommand
command_in kind resource b = new_command kind resource b.x b.y b.width b.height

-- The command of each drawing opcode, without the canvas state.
unfoldable pub stroke_command : List ℕ → RenderCommand
stroke_command w = record (new_command stroke_path_command (field_at w 0) 0 0 0 0) {
  stroke_width = field_at w 1;
  line_cap = field_at w 2;
  line_join = field_at w 3;
  miter_limit = field_at w 4;
}

unfoldable pub shadow_command : List ℕ → RenderCommand
shadow_command w = record (command_in box_shadow_command 0 (rect_at 0 w)) {
  box_shadow = record {
    offset_x = field_at w 4;
    offset_y = field_at w 5;
    blur_sigma = field_at w 6;
    spread = field_at w 7;
    radii = take 4 (drop 8 w);
    color = take 4 (drop 12 w);
  };
}

unfoldable pub border_command : List ℕ → RenderCommand
border_command w = record (command_in rect_border_command 0 (rect_at 0 w)) {
  rect_border = record { width = field_at w 4; color = take 4 (drop 5 w) };
}

abbrev no_bounds : Bounds
no_bounds = record { x = 0; y = 0; width = 0; height = 0 }

-- `has_bounds ? b : 0.0f`, for the four numbers of `b`.
abbrev pub bounds_if : Bool → Bounds → Bounds
bounds_if has b = if has then b else no_bounds

abbrev pub described : Bool → Bounds → RenderTargetDescriptor
described has b =
    if has
    then record default_descriptor {
      logical_width = b.width;
      logical_height = b.height;
      origin_x = b.x;
      origin_y = b.y;
    }
    else default_descriptor

abbrev pub is_empty : List EffectOp → Bool
is_empty [] = true
is_empty (op ∷ ops) = false

unfoldable pub is_isolated : LayerCommandValues → Bool
is_isolated v =
    flt v.opacity float_one
    || layer_isolated v.flags
    || not (is_empty v.effects)
    || v.has_mask
    || not (is_empty v.backdrop_effects)

-- `++plan.isolated_layers` and `++plan.bounded_layers`
unfoldable pub count_layer : Bool → Bool → Work → Work
count_layer isolated bounded w = record w {
  plan = record w.plan {
    isolated_layers = (w.plan.isolated_layers + (if isolated then 1 else 0)) % 2 ^ 32;
    bounded_layers = (w.plan.bounded_layers + (if bounded then 1 else 0)) % 2 ^ 32;
  };
}
