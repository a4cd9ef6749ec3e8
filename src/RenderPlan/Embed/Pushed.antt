-- ===== src/RenderPlan/Embed/Pushed.antt =====
-- What a pass more leaves of a plan, for `append_embedded_render_plan` (packages/ui/src/compositor/render_plan.cpp).
use haxeon.Prelude.{ℕ, zero, suc, ◌≡◌, true, List, [], ◌∷◌, ◌++◌, some, arith}
use haxeon.RenderPlan.Types.{RenderPass, RenderDependency}
use haxeon.RenderPlan.Schedule.{any_composites, consumed}
use haxeon.Compositor.Plan.{commands_declared, declared_ok, target_at}

pub target_at-append :
    (i t : ℕ) (ps qs : List RenderPass) → target_at i ps ≡ some t → target_at i (ps ++ qs) ≡ some t
target_at-append i t [] qs h = cc
target_at-append zero t (p ∷ ps) qs h = h
target_at-append (suc i) t (p ∷ ps) qs h = target_at-append i t ps qs h

pub declared_ok-push :
    (ds : List RenderDependency) (ps : List RenderPass) (q : RenderPass)
    → declared_ok ds ps ≡ true
    → commands_declared ds q.target q.commands ≡ true
    → declared_ok ds (ps ++ q ∷ []) ≡ true
declared_ok-push ds [] q h k = ground arith
declared_ok-push ds (p ∷ ps) q h k = ground (arith, declared_ok-push ds ps q)

pub consumed-push :
    (r t : ℕ) (ps : List RenderPass) (q : RenderPass)
    → q.target ≡ t
    → any_composites r q.commands ≡ true
    → consumed r t (ps ++ q ∷ []) ≡ true
consumed-push r t [] q e h = ground arith
consumed-push r t (p ∷ ps) q e h = ground (arith, consumed-push r t ps q)
