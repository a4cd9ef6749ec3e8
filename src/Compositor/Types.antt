-- ===== src/Compositor/Types.antt =====
-- The data of packages/ui/src/compositor/compositor.cpp. A `float` is its bit pattern, a resource its
-- value.
use haxeon.Prelude.{ℕ, Bool, false, List}
use haxeon.Float32.{float_one}
use haxeon.DisplayList.Effects.{EffectOp, MaskDescriptor}
use haxeon.DisplayList.Methods.{Bounds}
use haxeon.RenderPlan.Types.{RenderTargetDescriptor, identity_transform}

pub record Layer : Type 0 where
  pub parent_target : ℕ
  pub layer_target : ℕ
  pub opacity : ℕ
  pub mode : ℕ
  pub bounds : Bounds
  pub has_bounds : Bool
  pub parent_origin_x : ℕ
  pub parent_origin_y : ℕ
  pub target_descriptor : RenderTargetDescriptor
  pub effects : List EffectOp
  pub mask : MaskDescriptor
  pub has_mask : Bool
  pub backdrop_bounds : Bounds
  pub backdrop_target : ℕ
  pub has_backdrop_target : Bool
  pub isolated : Bool

pub record LayerCommandValues : Type 0 where
  pub opacity : ℕ
  pub mode : ℕ
  pub bounds : Bounds
  pub flags : ℕ
  pub has_bounds : Bool
  pub effects : List EffectOp
  pub backdrop_effects : List EffectOp
  pub mask : MaskDescriptor
  pub has_mask : Bool

pub record CanvasState : Type 0 where
  pub transform : List ℕ
  pub alpha : ℕ
  pub paint : ℕ
  pub composite : ℕ
  pub has_scissor : Bool
  pub x : ℕ
  pub y : ℕ
  pub width : ℕ
  pub height : ℕ

abbrev pub new_canvas : CanvasState
new_canvas = record {
  transform = identity_transform;
  alpha = float_one;
  paint = 0;
  composite = 1;
  has_scissor = false;
  x = 0;
  y = 0;
  width = 0;
  height = 0;
}

-- The messages of `CompositorError`. The last one is no message of the code: it stands where the code
-- would pop an empty stack.
pub data CompositorMessage : Type 0 where
  invalid_input clip_overflow self_sampling invalid_layer : CompositorMessage
  backdrop_overflow effect_overflow empty_stack : CompositorMessage

pub record CompositorError : Type 0 where
  pub command_index : ℕ
  pub message : CompositorMessage
