-- ===== src/RenderPlan/Embed/Grown.antt =====
-- Lists of passes to which `append_embedded_render_plan` (packages/ui/src/compositor/render_plan.cpp) adds.
use haxeon.Prelude.{
  ℕ, zero, suc, ◌+◌, ◌≡◌, ◌∙◌, refl, sym, ap, Bool, true, List, [], ◌∷◌, ◌++◌, some, arith, ◌==◌,
  if◌then◌else◌, length, all,
}
use haxeon.RenderPlan.Types.{RenderCommand, RenderPass}
use haxeon.Compositor.Passes.{append_command}
use haxeon.Compositor.Plan.{target_at}
use haxeon.Compositor.Chain.Sound.{target_at-append_command}

-- Commands at the end of the pass `i`.
abbrev pub append_commands : ℕ → List RenderCommand → List RenderPass → List RenderPass
append_commands i [] ps = ps
append_commands i (c ∷ cs) ps = append_commands i cs (append_command i c ps)

pub append_commands-append :
    (i : ℕ) (cs ds : List RenderCommand) (ps : List RenderPass)
    → append_commands i (cs ++ ds) ps ≡ append_commands i ds (append_commands i cs ps)
append_commands-append i [] ds ps = refl
append_commands-append i (c ∷ cs) ds ps = append_commands-append i cs ds (append_command i c ps)

target_at-append_commands :
    (k i : ℕ) (cs : List RenderCommand) (ps : List RenderPass)
    → target_at k (append_commands i cs ps) ≡ target_at k ps
target_at-append_commands k i [] ps = refl
target_at-append_commands k i (c ∷ cs) ps =
    target_at-append_commands k i cs (append_command i c ps) ∙ target_at-append_command k i c ps

append_command-front :
    (i t : ℕ) (c : RenderCommand) (ps qs : List RenderPass)
    → target_at i ps ≡ some t
    → append_command i c (ps ++ qs) ≡ append_command i c ps ++ qs
unfolding append_command
append_command-front i t c [] qs h = cc
append_command-front zero t c (p ∷ ps) qs h = refl
append_command-front (suc i) t c (p ∷ ps) qs h =
    ap (λ (r : List RenderPass). p ∷ r) (append_command-front i t c ps qs h)

pub append_commands-front :
    (i t : ℕ) (cs : List RenderCommand) (ps qs : List RenderPass)
    → target_at i ps ≡ some t
    → append_commands i cs (ps ++ qs) ≡ append_commands i cs ps ++ qs
append_commands-front i t [] ps qs h = refl
append_commands-front i t (c ∷ cs) ps qs h =
    ap (append_commands i cs) (append_command-front i t c ps qs h)
    ∙ append_commands-front i t cs (append_command i c ps) qs
        (target_at-append_command i i c ps ∙ h)

-- The passes of the source that are of its main target, and their commands.
abbrev pub main_commands : ℕ → List RenderPass → ℕ
main_commands main [] = 0
main_commands main (p ∷ ps) =
    (if p.target == main then length p.commands else 0) + main_commands main ps

abbrev pub other_passes : ℕ → List RenderPass → ℕ
other_passes main [] = 0
other_passes main (p ∷ ps) = (if p.target == main then 0 else 1) + other_passes main ps

abbrev pub is_payload : RenderCommand → Bool
is_payload c = c.custom_payload

pub all_payload-append :
    (cs ds : List RenderCommand)
    → all is_payload cs ≡ true
    → all is_payload ds ≡ true
    → all is_payload (cs ++ ds) ≡ true
all_payload-append [] ds h k = k
all_payload-append (c ∷ cs) ds h k = ground (arith, all_payload-append cs ds)

-- The passes `base` with the commands `cs` at the end of the pass `i`, and the passes `new` behind.
abbrev pub grown : ℕ → List RenderPass → List RenderCommand → List RenderPass → List RenderPass
grown i base cs new = append_commands i cs base ++ new

pub grown-main :
    (i t : ℕ) (base new : List RenderPass) (cs ds : List RenderCommand)
    → target_at i base ≡ some t
    → append_commands i ds (grown i base cs new) ≡ grown i base (cs ++ ds) new
grown-main i t base new cs ds h =
    append_commands-front i t ds (append_commands i cs base) new
      (target_at-append_commands i i cs base ∙ h)
    ∙ ap (λ (qs : List RenderPass). qs ++ new) (sym (append_commands-append i cs ds base))
