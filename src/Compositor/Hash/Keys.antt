-- ===== src/Compositor/Hash/Keys.antt =====
-- `assign_effect_cache_keys` (packages/ui/src/compositor/compositor.cpp) writes the keys, and nothing else.
use haxeon.Prelude.{
  ℕ, zero, suc, ◌≡◌, ◌≢◌, ◌∙◌, refl, sym, ap, ◌&&◌, ◌||◌, List, [], ◌∷◌, arith, ◌==◌, length,
}
use haxeon.RenderPlan.Types.{RenderPass, RenderDependency}
use haxeon.RenderPlan.Schedule.{any_composites, consumed}
use haxeon.Compositor.Plan.{inputs_ok, consumers_ok, commands_declared, declared_ok, target_at}
use haxeon.Compositor.Hash.{Hashes, pass_key, assign_effect_cache_keys}

-- A pass without its key.
abbrev pub bare : RenderPass → RenderPass
bare p = record p { cache_key = 0 }

abbrev pub all_bare : List RenderPass → List RenderPass
all_bare [] = []
all_bare (p ∷ ps) = bare p ∷ all_bare ps

abbrev pub AllKeyed : List RenderPass → Type 0
AllKeyed [] = Unit {0}
AllKeyed (p ∷ ps) = (p.cache_key ≢ 0) × AllKeyed ps

pass_key_nonzero : (hs : Hashes) (p : RenderPass) → pass_key hs p ≢ 0
unfolding pass_key
pass_key_nonzero hs p = ground arith

pub assign-AllKeyed :
    (hs : Hashes) (ps : List RenderPass) → AllKeyed (assign_effect_cache_keys hs ps)
unfolding assign_effect_cache_keys
assign-AllKeyed hs [] = tt
assign-AllKeyed hs (p ∷ ps) =
    (pass_key_nonzero hs p, assign-AllKeyed ((p.target, pass_key hs p) ∷ hs) ps)

pub assign-bare :
    (hs : Hashes) (ps : List RenderPass) → all_bare (assign_effect_cache_keys hs ps) ≡ all_bare ps
unfolding assign_effect_cache_keys
assign-bare hs [] = refl
assign-bare hs (p ∷ ps) =
    ap (λ (qs : List RenderPass). bare p ∷ qs) (assign-bare ((p.target, pass_key hs p) ∷ hs) ps)

-- What a scheduler asks of the passes does not look at their keys.
inputs_ok-bare :
    (seen : List ℕ) (ps : List RenderPass) → inputs_ok seen (all_bare ps) ≡ inputs_ok seen ps
inputs_ok-bare seen [] = refl
inputs_ok-bare seen (p ∷ ps) = rw (inputs_ok-bare (p.target ∷ seen) ps) refl

consumed-bare : (r t : ℕ) (ps : List RenderPass) → consumed r t (all_bare ps) ≡ consumed r t ps
consumed-bare r t [] = refl
consumed-bare r t (p ∷ ps) =
    ap (λ b. (p.target == t && any_composites r p.commands) || b) (consumed-bare r t ps)

consumers_ok-bare :
    (ds : List RenderDependency) (ps : List RenderPass)
    → consumers_ok ds (all_bare ps) ≡ consumers_ok ds ps
consumers_ok-bare [] ps = refl
consumers_ok-bare (d ∷ ds) ps =
    rw (consumed-bare d.producer d.consumer ps, consumers_ok-bare ds ps) refl

declared_ok-bare :
    (ds : List RenderDependency) (ps : List RenderPass)
    → declared_ok ds (all_bare ps) ≡ declared_ok ds ps
declared_ok-bare ds [] = refl
declared_ok-bare ds (p ∷ ps) =
    ap (λ b. commands_declared ds p.target p.commands && b) (declared_ok-bare ds ps)

target_at-bare : (i : ℕ) (ps : List RenderPass) → target_at i (all_bare ps) ≡ target_at i ps
target_at-bare i [] = refl
target_at-bare zero (p ∷ ps) = refl
target_at-bare (suc i) (p ∷ ps) = target_at-bare i ps

length-bare : (ps : List RenderPass) → length (all_bare ps) ≡ length ps
length-bare [] = refl
length-bare (p ∷ ps) = ap suc (length-bare ps)

-- What looks at passes only without their keys does not see the assignment.
unseen :
    {A : Type 0}
    → (f : List RenderPass → A) → ((ps : List RenderPass) → f (all_bare ps) ≡ f ps)
    → (hs : Hashes) (ps : List RenderPass) → f (assign_effect_cache_keys hs ps) ≡ f ps
unseen f same hs ps =
    sym (same (assign_effect_cache_keys hs ps)) ∙ ap f (assign-bare hs ps) ∙ same ps

pub inputs_ok-assign :
    (hs : Hashes) (ps : List RenderPass)
    → inputs_ok [] (assign_effect_cache_keys hs ps) ≡ inputs_ok [] ps
inputs_ok-assign hs ps = unseen (inputs_ok []) (inputs_ok-bare []) hs ps

pub consumers_ok-assign :
    (ds : List RenderDependency) (hs : Hashes) (ps : List RenderPass)
    → consumers_ok ds (assign_effect_cache_keys hs ps) ≡ consumers_ok ds ps
consumers_ok-assign ds hs ps = unseen (consumers_ok ds) (consumers_ok-bare ds) hs ps

pub declared_ok-assign :
    (ds : List RenderDependency) (hs : Hashes) (ps : List RenderPass)
    → declared_ok ds (assign_effect_cache_keys hs ps) ≡ declared_ok ds ps
declared_ok-assign ds hs ps = unseen (declared_ok ds) (declared_ok-bare ds) hs ps

pub target_at-assign :
    (i : ℕ) (hs : Hashes) (ps : List RenderPass)
    → target_at i (assign_effect_cache_keys hs ps) ≡ target_at i ps
target_at-assign i hs ps = unseen (target_at i) (target_at-bare i) hs ps

pub length-assign :
    (hs : Hashes) (ps : List RenderPass) → length (assign_effect_cache_keys hs ps) ≡ length ps
length-assign hs ps = unseen length length-bare hs ps
