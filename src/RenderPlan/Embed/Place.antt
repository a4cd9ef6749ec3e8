-- ===== src/RenderPlan/Embed/Place.antt =====
-- The placement of commands and targets in `append_embedded_render_plan` (packages/ui/src/compositor/
-- render_plan.cpp), and the options of packages/ui/src/compositor/render_plan.h.
use haxeon.RenderPlan.Embed.Options.{
  RenderPlanEmbedOptions, EmbedBounds, revisioned_cache_key, remap_embedding_resource,
}
use haxeon.Prelude.{ℕ, Bool, true, ◌&&◌, ◌||◌, not, List, [], ◌∷◌, ◌==◌, if◌then◌else◌}
use haxeon.Float32.{Arith, fle, fmin, fmax, float_zero}
use haxeon.DisplayList.Wire.{field_at}
use haxeon.RenderPlan.Types.{RenderCommand, identity_transform}
use haxeon.RenderPlan.Checks.{is_composite}

-- What every embedded command takes on.
unfoldable pub adopted : RenderPlanEmbedOptions → RenderCommand → RenderCommand
adopted o c = record c {
  resource = remap_embedding_resource o c.resource;
  content_generation = revisioned_cache_key c.content_generation o.cache_revision;
  custom_payload = true;
  retained_node_id = if o.retained_node_id == 0 then c.retained_node_id else o.retained_node_id;
}

-- `width <= 0 || height <= 0` of a composite.
unfoldable pub implicit_extent : RenderCommand → Bool
implicit_extent c = is_composite c.kind && (fle c.width float_zero || fle c.height float_zero)

module _ (fp : Arith) where
  unfoldable pub compose_transform : List ℕ → List ℕ → List ℕ
  compose_transform outer inner =
      let linear = λ (a b c d : ℕ).
        fp.add (fp.mul (field_at outer a) (field_at inner b))
          (fp.mul (field_at outer c) (field_at inner d)) in
      linear 0 0 2 1
      ∷ linear 1 0 3 1
      ∷ linear 0 2 2 3
      ∷ linear 1 2 3 3
      ∷ fp.add (linear 0 4 2 5) (field_at outer 4)
      ∷ fp.add (linear 1 4 3 5) (field_at outer 5)
      ∷ []

  abbrev scale_all : ℕ → List ℕ → List ℕ
  scale_all s [] = []
  scale_all s (v ∷ vs) = fp.mul v s ∷ scale_all s vs

  unfoldable pub scale_transform : List ℕ → ℕ → List ℕ
  scale_transform transform s = scale_all s transform

  unfoldable pub transform_bounds : ℕ → ℕ → ℕ → ℕ → List ℕ → EmbedBounds
  transform_bounds x y width height t =
      let point_x = λ (px py : ℕ).
        fp.add (fp.add (fp.mul (field_at t 0) px) (fp.mul (field_at t 2) py)) (field_at t 4) in
      let point_y = λ (px py : ℕ).
        fp.add (fp.add (fp.mul (field_at t 1) px) (fp.mul (field_at t 3) py)) (field_at t 5) in
      let far_x = fp.add x width in
      let far_y = fp.add y height in
      let x0 = point_x x y in
      let x1 = point_x far_x y in
      let x2 = point_x x far_y in
      let x3 = point_x far_x far_y in
      let y0 = point_y x y in
      let y1 = point_y far_x y in
      let y2 = point_y x far_y in
      let y3 = point_y far_x far_y in
      let left = fmin (fmin (fmin x0 x1) x2) x3 in
      let top = fmin (fmin (fmin y0 y1) y2) y3 in
      record {
        x = left;
        y = top;
        width = fp.sub (fmax (fmax (fmax x0 x1) x2) x3) left;
        height = fp.sub (fmax (fmax (fmax y0 y1) y2) y3) top;
      }

  unfoldable pub intersect_bounds : EmbedBounds → EmbedBounds → EmbedBounds
  intersect_bounds left right =
      let x = fmax left.x right.x in
      let y = fmax left.y right.y in
      let right_edge = fmin (fp.add left.x left.width) (fp.add right.x right.width) in
      let bottom_edge = fmin (fp.add left.y left.height) (fp.add right.y right.height) in
      record {
        x = x;
        y = y;
        width = fmax float_zero (fp.sub right_edge x);
        height = fmax float_zero (fp.sub bottom_edge y);
      }

  abbrev scissor_of : RenderCommand → EmbedBounds
  scissor_of c = record {
    x = c.scissor_x;
    y = c.scissor_y;
    width = c.scissor_width;
    height = c.scissor_height;
  }

  abbrev with_scissor : EmbedBounds → RenderCommand → RenderCommand
  with_scissor b c = record c {
    scissor_x = b.x;
    scissor_y = b.y;
    scissor_width = b.width;
    scissor_height = b.height;
  }

  -- The transform of a command and its scissor, under `t`.
  unfoldable pub move_command : List ℕ → RenderCommand → RenderCommand
  move_command t c =
      let s = scissor_of c in
      let moved = record c { transform = compose_transform t c.transform } in
      if c.has_scissor
      then with_scissor (transform_bounds s.x s.y s.width s.height t) moved
      else moved

  unfoldable pub clip_command : RenderPlanEmbedOptions → RenderCommand → RenderCommand
  clip_command o c =
      let clip : EmbedBounds = record {
        x = field_at o.clip 0;
        y = field_at o.clip 1;
        width = field_at o.clip 2;
        height = field_at o.clip 3;
      } in
      if o.has_clip
      then record (with_scissor
          (if c.has_scissor then intersect_bounds (scissor_of c) clip else clip) c) {
            has_scissor = true;
          }
      else c

  unfoldable pub scale_scissor : ℕ → RenderCommand → RenderCommand
  scale_scissor s c = record c {
    scissor_x = fp.mul c.scissor_x s;
    scissor_y = fp.mul c.scissor_y s;
    scissor_width = fp.mul c.scissor_width s;
    scissor_height = fp.mul c.scissor_height s;
  }

  unfoldable pub place_main_command : RenderPlanEmbedOptions → RenderCommand → RenderCommand
  place_main_command o c =
      let implicit = implicit_extent c in
      let s = o.pixel_scale in
      let placed = if is_composite c.kind && not implicit then move_command o.placement c else c in
      let moved =
        if o.has_command_transform && not (is_composite c.kind)
        then move_command o.command_transform placed
        else placed in
      let clipped = clip_command o moved in
      let scaled =
        if implicit
        then record clipped {
          x = fp.mul clipped.x s;
          y = fp.mul clipped.y s;
          width = fp.mul clipped.width s;
          height = fp.mul clipped.height s;
          transform = identity_transform;
        }
        else record clipped { transform = scale_transform clipped.transform s } in
      scale_scissor s scaled

  -- Back to the origin of a target that has moved by `dx` and `dy`.
  unfoldable pub rebase_command : ℕ → ℕ → RenderCommand → RenderCommand
  rebase_command dx dy c = record c {
    transform =
        field_at c.transform 0
        ∷ field_at c.transform 1
        ∷ field_at c.transform 2
        ∷ field_at c.transform 3
        ∷ fp.sub (field_at c.transform 4) dx
        ∷ fp.sub (field_at c.transform 5) dy
        ∷ [];
    scissor_x = if c.has_scissor then fp.sub c.scissor_x dx else c.scissor_x;
    scissor_y = if c.has_scissor then fp.sub c.scissor_y dy else c.scissor_y;
  }

  -- A command of a pass that is not of the main target.
  unfoldable pub place_local_command :
      RenderPlanEmbedOptions → Bool → ℕ → ℕ → RenderCommand → RenderCommand
  place_local_command o rebased dx dy c =
      let s = o.pixel_scale in
      let based = if rebased then rebase_command dx dy (adopted o c) else adopted o c in
      let scaled =
        if implicit_extent c
        then record based {
          x = fp.mul based.x s;
          y = fp.mul based.y s;
          transform =
              field_at based.transform 0
              ∷ field_at based.transform 1
              ∷ field_at based.transform 2
              ∷ field_at based.transform 3
              ∷ fp.mul (field_at based.transform 4) s
              ∷ fp.mul (field_at based.transform 5) s
              ∷ [];
        }
        else record based { transform = scale_transform based.transform s } in
      scale_scissor s scaled
