-- ===== src/Compositor/Bounds.antt =====
-- `expand_effect_bounds`, `intersect_clip`, `effect_descriptor` and `apply_state` of packages/ui/src/
-- compositor/compositor.cpp. Rounding arithmetic is the parameter `Arith`.
use haxeon.Prelude.{
  ℕ, Bool, true, ◌&&◌, not, List, [], ◌∷◌, ◌++◌, Option, none, some, ◌==◌, if◌then◌else◌, replicate,
  all,
}
use haxeon.Float32.{Arith, is_finite, float_zero, fmin, fmax, infinity, minus_infinity}
use haxeon.DisplayList.Wire.{field_at}
use haxeon.DisplayList.Effects.{
  EffectDescriptor, EffectOp, effect_color_matrix, effect_blur, effect_drop_shadow, effect_custom,
}
use haxeon.DisplayList.Methods.{Bounds}
use haxeon.RenderPlan.Types.{RenderCommand}
use haxeon.Compositor.Types.{CanvasState}

-- A `kind` that the `switch` does not name leaves the matrix zero.
unfoldable pub effect_descriptor : EffectOp → ℕ → EffectDescriptor
effect_descriptor op axis = record {
  kind = op.kind;
  color_matrix =
      if op.kind == effect_color_matrix
      then op.color_matrix
      else if op.kind == effect_blur
      then op.blur_sigma ∷ axis ∷ replicate 18 0
      else if op.kind == effect_drop_shadow
      then op.shadow_sigma
        ∷ axis
        ∷ op.shadow_offset_x
        ∷ op.shadow_offset_y
        ∷ (op.shadow_color ++ replicate 12 0)
      else replicate 20 0;
}

pub record Margins : Type 0 where
  pub left : ℕ
  pub top : ℕ
  pub right : ℕ
  pub bottom : ℕ

-- 3.0f
abbrev three : ℕ
three = 0x40400000

module _ (fp : Arith) where
  abbrev even_margins : ℕ → Margins
  even_margins spread = record { left = spread; top = spread; right = spread; bottom = spread }

  unfoldable pub margins : EffectOp → Margins
  margins op =
      if op.kind == effect_custom
      then record {
        left = field_at op.custom.ink_overflow 0;
        top = field_at op.custom.ink_overflow 1;
        right = field_at op.custom.ink_overflow 2;
        bottom = field_at op.custom.ink_overflow 3;
      }
      else if op.kind == effect_blur
      then even_margins (fp.mul op.blur_sigma three)
      else if op.kind == effect_drop_shadow
      then (let spread = fp.mul op.shadow_sigma three in
          record {
            left = fmax float_zero (fp.sub spread op.shadow_offset_x);
            top = fmax float_zero (fp.sub spread op.shadow_offset_y);
            right = fmax float_zero (fp.add spread op.shadow_offset_x);
            bottom = fmax float_zero (fp.add spread op.shadow_offset_y);
          })
      else even_margins float_zero

  unfoldable pub overflows : Margins → Bounds → Bool
  overflows m b = not (
      all is_finite (
        m.left
        ∷ m.top
        ∷ m.right
        ∷ m.bottom
        ∷ fp.sub b.x m.left
        ∷ fp.sub b.y m.top
        ∷ fp.add (fp.add b.width m.left) m.right
        ∷ fp.add (fp.add b.height m.top) m.bottom
        ∷ []))

  unfoldable pub widen : Margins → Bounds → Bounds
  widen m b = record {
    x = fp.sub b.x m.left;
    y = fp.sub b.y m.top;
    width = fp.add b.width (fp.add m.left m.right);
    height = fp.add b.height (fp.add m.top m.bottom);
  }

  unfoldable pub expand_effect_bounds : Bounds → List EffectOp → Option Bounds
  unfolding margins overflows widen
  expand_effect_bounds b [] = some b
  expand_effect_bounds b (op ∷ ops) =
      let rest = expand_effect_bounds (widen (margins op) b) ops in
      if overflows (margins op) b then none else rest

  -- A corner under the transform `m`.
  unfoldable pub corner_x : List ℕ → ℕ → ℕ → ℕ
  corner_x m px py =
      fp.add (fp.add (fp.mul px (field_at m 0)) (fp.mul py (field_at m 2))) (field_at m 4)

  unfoldable pub corner_y : List ℕ → ℕ → ℕ → ℕ
  corner_y m px py =
      fp.add (fp.add (fp.mul px (field_at m 1)) (fp.mul py (field_at m 3))) (field_at m 5)

  abbrev least : List ℕ → ℕ → ℕ
  least [] acc = acc
  least (x ∷ xs) acc = least xs (fmin acc x)

  abbrev greatest : List ℕ → ℕ → ℕ
  greatest [] acc = acc
  greatest (x ∷ xs) acc = greatest xs (fmax acc x)

  -- The scissor that the extremes leave, inside the one that is there.
  unfoldable pub narrow : CanvasState → ℕ → ℕ → ℕ → ℕ → CanvasState
  narrow s min_x min_y max_x max_y =
      let left = if s.has_scissor then fmax min_x s.x else min_x in
      let top = if s.has_scissor then fmax min_y s.y else min_y in
      let right = if s.has_scissor then fmin max_x (fp.add s.x s.width) else max_x in
      let bottom = if s.has_scissor then fmin max_y (fp.add s.y s.height) else max_y in
      record s {
        has_scissor = true;
        x = left;
        y = top;
        width = fmax float_zero (fp.sub right left);
        height = fmax float_zero (fp.sub bottom top);
      }

  unfoldable pub intersect_clip : CanvasState → Bounds → Option CanvasState
  unfolding corner_x corner_y narrow
  intersect_clip s clip =
      let m = s.transform in
      let far_x = fp.add clip.x clip.width in
      let far_y = fp.add clip.y clip.height in
      let xs =
        corner_x m clip.x clip.y
        ∷ corner_x m far_x clip.y
        ∷ corner_x m clip.x far_y
        ∷ corner_x m far_x far_y
        ∷ [] in
      let ys =
        corner_y m clip.x clip.y
        ∷ corner_y m far_x clip.y
        ∷ corner_y m clip.x far_y
        ∷ corner_y m far_x far_y
        ∷ [] in
      let min_x = least xs infinity in
      let min_y = least ys infinity in
      let max_x = greatest xs minus_infinity in
      let max_y = greatest ys minus_infinity in
      if is_finite min_x && is_finite min_y && is_finite max_x && is_finite max_y
      then some (narrow s min_x min_y max_x max_y)
      else none

  unfoldable pub apply_state : CanvasState → ℕ → ℕ → RenderCommand → RenderCommand
  apply_state s origin_x origin_y c = record c {
    opacity = fp.mul c.opacity s.alpha;
    transform = moved;
    paint = s.paint;
    composite = s.composite;
    has_scissor = s.has_scissor;
    scissor_x = fp.sub s.x origin_x;
    scissor_y = fp.sub s.y origin_y;
    scissor_width = s.width;
    scissor_height = s.height;
  }
    where
      moved : List ℕ
      moved =
          field_at s.transform 0
          ∷ field_at s.transform 1
          ∷ field_at s.transform 2
          ∷ field_at s.transform 3
          ∷ fp.sub (field_at s.transform 4) origin_x
          ∷ fp.sub (field_at s.transform 5) origin_y
          ∷ []
