-- ===== src/RenderPlan/Types.antt =====
-- The data of packages/ui/src/compositor/render_plan.h. A `float` is its bit pattern, an `int` its
-- 32-bit pattern, and an enum of the pass or command kind a data type.
use haxeon.Prelude.{ℕ, Bool, false, List, [], ◌∷◌, replicate}
use haxeon.Float32.{float_zero, float_one}
use haxeon.DisplayList.Effects.{
  EffectDescriptor, CustomEffectDescriptor, MaskDescriptor, default_custom,
}

pub data RenderCommandKind : Type 0 where
  path_command image_command glyph_batch composite_target : RenderCommandKind
  stroke_path_command box_shadow_command rect_border_command : RenderCommandKind

pub data RenderPassKind : Type 0 where
  draw_pass effect_pass mask_pass raster_pass : RenderPassKind

pub record RenderTargetDescriptor : Type 0 where
  pub width : ℕ
  pub height : ℕ
  pub logical_width : ℕ
  pub logical_height : ℕ
  pub origin_x : ℕ
  pub origin_y : ℕ
  pub format : ℕ
  pub sample_count : ℕ
  pub usage : ℕ
  pub generation : ℕ

abbrev pub default_descriptor : RenderTargetDescriptor
default_descriptor = record {
  width = 0;
  height = 0;
  logical_width = float_zero;
  logical_height = float_zero;
  origin_x = float_zero;
  origin_y = float_zero;
  format = 1;
  sample_count = 1;
  usage = 3;
  generation = 0;
}

pub record BoxShadowDescriptor : Type 0 where
  pub offset_x : ℕ
  pub offset_y : ℕ
  pub blur_sigma : ℕ
  pub spread : ℕ
  pub radii : List ℕ
  pub color : List ℕ

pub record RectBorderDescriptor : Type 0 where
  pub width : ℕ
  pub color : List ℕ

pub record RenderCommand : Type 0 where
  pub kind : RenderCommandKind
  pub resource : ℕ
  pub x : ℕ
  pub y : ℕ
  pub width : ℕ
  pub height : ℕ
  pub opacity : ℕ
  pub transform : List ℕ
  pub paint : ℕ
  pub composite : ℕ
  pub has_scissor : Bool
  pub scissor_x : ℕ
  pub scissor_y : ℕ
  pub scissor_width : ℕ
  pub scissor_height : ℕ
  pub stroke_width : ℕ
  pub line_cap : ℕ
  pub line_join : ℕ
  pub miter_limit : ℕ
  pub custom_payload : Bool
  pub content_generation : ℕ
  pub retained_node_id : ℕ
  pub box_shadow : BoxShadowDescriptor
  pub rect_border : RectBorderDescriptor
  pub source_uv_extent : List ℕ

abbrev pub identity_transform : List ℕ
identity_transform = float_one ∷ float_zero ∷ float_zero ∷ float_one ∷ float_zero ∷ float_zero ∷ []

-- `{kind, resource, x, y, width, height}` with the defaults of the struct; 10.0f is the last one.
abbrev pub new_command : RenderCommandKind → ℕ → ℕ → ℕ → ℕ → ℕ → RenderCommand
new_command kind resource x y width height = record {
  kind = kind;
  resource = resource;
  x = x;
  y = y;
  width = width;
  height = height;
  opacity = float_one;
  transform = identity_transform;
  paint = 0;
  composite = 1;
  has_scissor = false;
  scissor_x = 0;
  scissor_y = 0;
  scissor_width = 0;
  scissor_height = 0;
  stroke_width = float_one;
  line_cap = 0;
  line_join = 4;
  miter_limit = 0x41200000;
  custom_payload = false;
  content_generation = 0;
  retained_node_id = 0;
  box_shadow = record {
    offset_x = 0;
    offset_y = 0;
    blur_sigma = 0;
    spread = 0;
    radii = replicate 4 0;
    color = replicate 4 0;
  };
  rect_border = record { width = 0; color = replicate 4 0 };
  source_uv_extent = float_one ∷ float_one ∷ [];
}

pub record RenderPass : Type 0 where
  pub target : ℕ
  pub target_descriptor : RenderTargetDescriptor
  pub load_existing : Bool
  pub commands : List RenderCommand
  pub kind : RenderPassKind
  pub input_target : ℕ
  pub effect : EffectDescriptor
  pub custom_effect : CustomEffectDescriptor
  pub has_input_rect : Bool
  pub input_rect : List ℕ
  pub backdrop : Bool
  pub mask : MaskDescriptor
  pub cache_key : ℕ

-- `{target, descriptor, load_existing, {}}` with the defaults of the struct.
abbrev pub new_pass : ℕ → RenderTargetDescriptor → Bool → RenderPass
new_pass target descriptor load_existing = record {
  target = target;
  target_descriptor = descriptor;
  load_existing = load_existing;
  commands = [];
  kind = draw_pass;
  input_target = 0;
  effect = record { kind = 0; color_matrix = replicate 20 0 };
  custom_effect = default_custom;
  has_input_rect = false;
  input_rect = replicate 4 0;
  backdrop = false;
  mask = record { kind = 0; image = 0; values = replicate 8 0 };
  cache_key = 0;
}

pub record RenderDependency : Type 0 where
  pub producer : ℕ
  pub consumer : ℕ

pub record RenderPlan : Type 0 where
  pub passes : List RenderPass
  pub dependencies : List RenderDependency
  pub isolated_layers : ℕ
  pub bounded_layers : ℕ
