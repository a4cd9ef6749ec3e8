-- ===== src/Executor/Surfaces.antt =====
-- The loop of packages/ui/src/render/render_plan_executor.cpp over the dependencies, which renders the
-- surfaces that come from outside the plan.
use haxeon.Prelude.{
  ℕ, Bool, true, false, ◌&&◌, ◌||◌, not, List, [], ◌∷◌, Option, none, some, ◌==◌, if◌then◌else◌,
}
use haxeon.Float32.{Arith, is_finite, flt, fle, fmax, float_zero, magnitude}
use haxeon.DisplayList.Wire.{field_at}
use haxeon.RenderPlan.Types.{RenderCommand, RenderPass, RenderDependency, RenderPlan}
use haxeon.RenderPlan.Checks.{is_composite}
use haxeon.RenderPlan.Schedule.{draws}
use haxeon.FrameResources.Frames.{FrameResources, surface_of, graphics_image_of, is_positive}
use haxeon.Executor.Calls.{
  Action, UiRenderer, SurfaceDescriptor, surface_rendered, surface_unavailable, surface_failed,
  render_surface, mark_surface_current, surface_producer_unavailable, surface_description_invalid,
  surface_descriptor_unsupported, surface_no_fallback, surface_render_failed, Reply, pure, fail,
  ask, ◌>>=◌, ◌>>◌, call,
}

-- `size` is `sizeof(window.frame_target) <= struct_size`; width and height are `int`.
pub record WindowTarget : Type 0 where
  pub id : ℕ
  pub complete : Bool
  pub width : ℕ
  pub height : ℕ

-- What the executor does with floats besides `Arith`: `bounded_extent`, which rounds a positive float
-- up to an `int` of at most the second one, and `std::ceil` of a float as an `int`.
pub record Extents : Type 0 where
  pub bounded_extent : ℕ → ℕ → ℕ
  pub ceil_int : ℕ → ℕ

module _ (fp : Arith) (surface : ℕ) where
  -- The extent of one command along an axis of the target; `std::abs` clears the sign bit.
  abbrev pub axis_extent : ℕ → ℕ → RenderCommand → ℕ
  axis_extent a b c =
      fp.add (fp.mul (magnitude (field_at c.transform a)) c.width)
        (fp.mul (magnitude (field_at c.transform b)) c.height)

  abbrev pub asks : RenderCommand → Bool
  asks c =
      is_composite c.kind
      && c.resource == surface
      && not (fle c.width float_zero)
      && not (fle c.height float_zero)
      && is_finite (axis_extent 0 2 c)
      && is_finite (axis_extent 1 3 c)

  unfoldable pub requested_by : List RenderCommand → ℕ × ℕ → ℕ × ℕ
  requested_by [] size = size
  requested_by (c ∷ cs) (w, h) =
      requested_by cs
        (if asks c then (fmax w (axis_extent 0 2 c), fmax h (axis_extent 1 3 c)) else (w, h))

  unfoldable pub requested : List RenderPass → ℕ × ℕ → ℕ × ℕ
  requested [] size = size
  requested (p ∷ ps) size = requested ps (requested_by p.commands size)

unfoldable pub surface_request_size : Arith → Extents → RenderPlan → ℕ → WindowTarget → ℕ × ℕ
surface_request_size fp ext plan surface window =
    let (w, h) = requested fp surface plan.passes (float_zero, float_zero) in
    if not (flt float_zero w) || not (flt float_zero h)
    then (window.width, window.height)
    else (ext.bounded_extent w window.width, ext.bounded_extent h window.height)

-- The enums: `Rgba8`, `Opaque` or `Premultiplied`, `Nearest` or `Linear`, and `Linear`.
unfoldable pub supported : SurfaceDescriptor → Bool
supported d =
    d.format == 1
    && (d.alpha == 1 || d.alpha == 2)
    && (d.filter == 1 || d.filter == 2)
    && d.color_space == 1

module _ (ui : UiRenderer) where
  -- The last valid target is kept.
  abbrev pub fall_back : ℕ → Action Unit
  fall_back id = do
    content ← ask (λ h. ui.surface_has_content h id)
    if content then pure tt else fail 0 0 surface_no_fallback

  abbrev pub finish_surface : ℕ → ℕ → SurfaceDescriptor → Reply → Action Unit
  finish_surface id generation d reply = elim reply.rendered [
    | surface_rendered ↦ call ui (mark_surface_current id generation d) >> pure tt
    | surface_unavailable ↦ fall_back id
    | surface_failed ↦ fail 0 0 surface_render_failed
  ]

  abbrev pub render_now : ℕ → ℕ → ℕ → SurfaceDescriptor → Action Unit
  render_now id producer generation d =
      call ui (render_surface producer id d) >>= finish_surface id generation d

  abbrev pub described : ℕ → ℕ → Option SurfaceDescriptor → Action Unit
  described id producer none = fail 0 0 surface_description_invalid
  described id producer (some d) = do
    generation ← ask (λ h. ui.producer_generation h producer)
    current ← ask (λ h. ui.surface_is_current h id generation d)
    if not (is_positive d.width) || not (is_positive d.height)
        then fail 0 0 surface_description_invalid
        else if not (supported d)
        then fail 0 0 surface_descriptor_unsupported
        else if current
        then pure tt
        else render_now id producer generation d

  abbrev pub unready : ℕ → Action Unit
  unready id = do
    content ← ask (λ h. ui.surface_has_content h id)
    if content then pure tt else fail 0 0 surface_producer_unavailable

  -- One surface that is not an image, with what it is asked for.
  abbrev pub prepare_surface : ℕ → ℕ × ℕ → Option ℕ → Action Unit
  prepare_surface id size none = fail 0 0 surface_producer_unavailable
  prepare_surface id (w, h) (some producer) = do
    ready ← ask (λ hs. ui.producer_ready hs producer)
    d ← ask (λ hs. ui.producer_describe hs producer w h)
    if ready then described id producer d else unready id

abbrev pub is_listed : ℕ → List ℕ → Bool
is_listed id [] = false
is_listed id (x ∷ xs) = x == id || is_listed id xs

abbrev pub is_some : {A : Type 0} → Option A → Bool
is_some none = false
is_some (some x) = true

module _ (fp : Arith) (ext : Extents) (ui : UiRenderer) (plan : RenderPlan)
    (resources : FrameResources) (window : WindowTarget) where
  -- `done` is `rendered_producers`.
  abbrev pub prepare_dependency : RenderDependency → Action Unit
  prepare_dependency d =
      if is_some (graphics_image_of d.producer resources)
      then pure tt
      else prepare_surface ui d.producer (surface_request_size fp ext plan d.producer window)
          (surface_of d.producer resources)

  unfoldable pub prepare_surfaces : List ℕ → List RenderDependency → Action Unit
  prepare_surfaces done [] = pure tt
  prepare_surfaces done (d ∷ ds) =
      let skip = prepare_surfaces done ds in
      let rest = prepare_surfaces (d.producer ∷ done) ds in
      if draws d.producer plan.passes || is_listed d.producer done
      then skip
      else prepare_dependency d >> rest
