-- ===== src/Executor/Calls.antt =====
-- What `execute_render_plan` (packages/ui/src/render/render_plan_executor.cpp) calls: the abstract
-- classes `UiRenderer` (packages/ui/src/render/ui_renderer.h) and `SurfaceProducer`
-- (packages/ui/src/render/frame_resources.h). A history is what was called and answered, the last call
-- first; what a method answers may depend on all of it. The `const` methods leave no trace.
use haxeon.Prelude.{ℕ, Bool, List, ◌∷◌, Option, Outcome, ok, err}
use haxeon.DisplayList.Effects.{EffectDescriptor, CustomEffectDescriptor, MaskDescriptor}
use haxeon.RenderPlan.Types.{BoxShadowDescriptor, RectBorderDescriptor}
use haxeon.RenderPlan.Checks.{ScheduleMessage}

-- `width` and `height` are `int`, as 32-bit patterns; an enum is its number.
pub record SurfaceDescriptor : Type 0 where
  pub width : ℕ
  pub height : ℕ
  pub format : ℕ
  pub alpha : ℕ
  pub filter : ℕ
  pub color_space : ℕ

pub data SurfaceRenderResult : Type 0 where
  surface_rendered surface_unavailable surface_failed : SurfaceRenderResult

-- The rectangle `x`, `y`, `width`, `height` of a draw.
abbrev pub Rectangle : Type 0
Rectangle = ℕ × ℕ × ℕ × ℕ

-- What is drawn: a prepared path or text or image by its address, a target by its id.
pub data Drawing : Type 0 where
  draw_path : ℕ → ℕ → List ℕ → ℕ → Drawing
  draw_glyphs : ℕ → List ℕ → ℕ → ℕ → ℕ → Drawing
  composite_image : ℕ → Rectangle → List ℕ → ℕ → List ℕ → Drawing
  composite_target : ℕ → Rectangle → List ℕ → ℕ → List ℕ → Drawing
  draw_image : ℕ → Rectangle → List ℕ → ℕ → Drawing
  draw_box_shadow : Rectangle → List ℕ → ℕ → BoxShadowDescriptor → Drawing
  draw_rect_border : Rectangle → List ℕ → ℕ → RectBorderDescriptor → Drawing

-- What is applied to the target of an effect or mask pass, to all of it or to a rectangle.
pub data Filtering : Type 0 where
  apply_effect : ℕ → EffectDescriptor → Filtering
  apply_effect_region : ℕ → EffectDescriptor → List ℕ → Filtering
  apply_custom_effect : ℕ → CustomEffectDescriptor → Filtering
  apply_custom_effect_region : ℕ → CustomEffectDescriptor → List ℕ → Filtering
  apply_mask : ℕ → MaskDescriptor → Option ℕ → Filtering

pub data Call : Type 0 where
  begin_frame end_frame abort_frame end_pass encode_pass_commands : Call
  prepare_commands : ℕ → ℕ → Call
  render_surface : ℕ → ℕ → SurfaceDescriptor → Call
  mark_surface_current : ℕ → ℕ → SurfaceDescriptor → Call
  begin_effect_pass begin_raster_pass : ℕ → ℕ → ℕ → ℕ → Call
  begin_window_pass : ℕ → ℕ → Bool → Call
  begin_target_pass : ℕ → ℕ → ℕ → Bool → Call
  select_prepared_command : ℕ → ℕ → Call
  set_scissor : Bool → Rectangle → Call
  draw : Drawing → Call
  filter : Filtering → Call

-- The result, the `cache_hit` of the two methods that have one, and the result of `render`.
pub record Reply : Type 0 where
  pub done : Bool
  pub cache_hit : Bool
  pub rendered : SurfaceRenderResult

abbrev pub History : Type 0
History = List (Call × Reply)

pub record UiRenderer : Type 0 where
  pub answer : History → Call → Reply
  pub valid : History → Bool
  pub surface_has_content : History → ℕ → Bool
  pub surface_is_current : History → ℕ → ℕ → SurfaceDescriptor → Bool
  pub producer_ready : History → ℕ → Bool
  pub producer_describe : History → ℕ → ℕ → ℕ → Option SurfaceDescriptor
  pub producer_generation : History → ℕ → ℕ

-- The messages of `RenderExecutionError`; `last_error` stands for `renderer.lastError()`.
pub data ExecutionMessage : Type 0 where
  invalid_execution_input surface_producer_unavailable surface_description_invalid :
      ExecutionMessage
  surface_descriptor_unsupported surface_no_fallback surface_render_failed : ExecutionMessage
  mask_image_unavailable last_error : ExecutionMessage
  unscheduled : ScheduleMessage → ExecutionMessage

pub record RenderExecutionError : Type 0 where
  pub pass_index : ℕ
  pub command_index : ℕ
  pub message : ExecutionMessage

-- A step of the execution: it goes on behind the calls so far, or fails.
abbrev pub Action : Type 0 → Type 0
Action A = History → Outcome RenderExecutionError A × History

module _ {A : Type 0} where
  abbrev pub pure : A → Action A
  pure a h = (ok a, h)

  -- `return fail(error, pass, command, message)`
  abbrev pub fail : ℕ → ℕ → ExecutionMessage → Action A
  fail pass command message h =
      (err (record { pass_index = pass; command_index = command; message = message }), h)

  abbrev pub ask : (History → A) → Action A
  ask f h = (ok (f h), h)

infixl 5 ◌>>=◌ ◌>>◌
abbrev pub ◌>>=◌ : {A B : Type 0} → Action A → (A → Action B) → Action B
◌>>=◌ m f h = let (r, h') = m h in elim r [ ok a ↦ f a h' | err e ↦ (err e, h') ]

abbrev pub ◌>>◌ : {A B : Type 0} → Action A → Action B → Action B
m >> k = m >>= λ _. k

abbrev pub call : UiRenderer → Call → Action Reply
call ui c h = let reply = ui.answer h c in (ok reply, (c, reply) ∷ h)
