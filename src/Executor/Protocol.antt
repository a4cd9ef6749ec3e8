-- ===== src/Executor/Protocol.antt =====
-- What the calls of `execute_render_plan` (packages/ui/src/render/render_plan_executor.cpp) keep to,
-- read off their history.
use haxeon.Prelude.{
  ℕ, ◌≡◌, Bool, false, List, [], ◌∷◌, Option, none, some, Outcome, ok, err, ◌⊎◌, ◌==◌,
  if◌then◌else◌,
}
use haxeon.Executor.Calls.{
  Action, History, RenderExecutionError, Call, Reply, Drawing, Filtering, begin_frame, end_frame,
  abort_frame, end_pass, encode_pass_commands, prepare_commands, render_surface,
  mark_surface_current, begin_effect_pass, begin_raster_pass, begin_window_pass, begin_target_pass,
  select_prepared_command, set_scissor, draw, filter, ◌>>=◌,
}

-- Where a renderer stands. `stranded` is a pass behind a scissor that failed; `broken` is behind a call
-- out of order, or one that asks a cache with the key 0.
pub data Phase : Type 0 where
  outside in_frame in_pass stranded broken : Phase

abbrev when : Phase → Phase → Phase → Phase
when outside outside p = p
when in_frame in_frame p = p
when in_pass in_pass p = p
when p q r = broken

abbrev cached : ℕ → Reply → Phase
cached key reply =
    if key == 0
    then broken
    else if reply.done
    then if reply.cache_hit then in_frame else in_pass
    else in_frame

abbrev pub moved : Phase → Call → Reply → Phase
moved p begin_frame r = when outside p (if r.done then in_frame else outside)
moved p end_frame r = when in_frame p (if r.done then outside else in_frame)
moved stranded abort_frame r = outside
moved p abort_frame r = when in_frame p outside
moved p end_pass r = when in_pass p in_frame
moved p encode_pass_commands r = when in_frame p in_frame
moved p (prepare_commands w h) r = when in_frame p in_frame
moved p (render_surface producer id d) r = when in_frame p in_frame
moved p (mark_surface_current id generation d) r = when in_frame p in_frame
moved p (begin_effect_pass id key w h) r = when in_frame p (cached key r)
moved p (begin_raster_pass id key w h) r = when in_frame p (cached key r)
moved p (begin_window_pass w h clear) r = when in_frame p (if r.done then in_pass else in_frame)
moved p (begin_target_pass id w h load) r = when in_frame p (if r.done then in_pass else in_frame)
moved p (select_prepared_command pass command) r = when in_pass p in_pass
moved p (set_scissor enabled rect) r = when in_pass p (if r.done then in_pass else stranded)
moved p (draw d) r = when in_pass p in_pass
moved p (filter f) r = when in_pass p in_pass

-- Where a renderer stands behind the calls.
abbrev pub phase : History → Phase
phase [] = outside
phase ((c, r) ∷ h) = moved (phase h) c r

-- What a pass leaves: that it began, into a target or the window, and whether a cache had it; what was
-- applied to it and what was drawn. A drawing of the plan whose resource is not bound is `none`.
pub data Mark : Type 0 where
  opened : Option ℕ → Bool → Mark
  drew : Option Drawing → Mark
  filtered : Filtering → Mark

abbrev if_done : Reply → Mark → List Mark → List Mark
if_done r m ms = if r.done then m ∷ ms else ms

abbrev pub marked : Call → Reply → List Mark → List Mark
marked (begin_effect_pass id key w h) r ms = if_done r (opened (some id) r.cache_hit) ms
marked (begin_raster_pass id key w h) r ms = if_done r (opened (some id) r.cache_hit) ms
marked (begin_window_pass w h clear) r ms = if_done r (opened none false) ms
marked (begin_target_pass id w h load) r ms = if_done r (opened (some id) false) ms
marked (draw d) r ms = if_done r (drew (some d)) ms
marked (filter f) r ms = if_done r (filtered f) ms
marked c r ms = ms

-- The marks of the calls that succeeded, the last one first.
abbrev pub marks : History → List Mark
marks [] = []
marks ((c, r) ∷ h) = marked c r (marks h)

pub record At (p : Phase) (ms : List Mark) (h : History) : Type 0 where
  pub place : phase h ≡ p
  pub trace : marks h ≡ ms

-- Behind a failure the frame is still open, and a pass only if its scissor failed.
abbrev pub Stopped : History → Type 0
Stopped h = (phase h ≡ in_frame) ⊎ (phase h ≡ stranded)

-- What holds behind a step.
abbrev pub Behind :
    {A : Type 0} → (A → History → Type 0) → Outcome RenderExecutionError A × History → Type 0
Behind q (ok a, h) = q a h
Behind q (err e, h) = Stopped h

pub bind-Behind :
    {A B : Type 0} (q : A → History → Type 0) (r : B → History → Type 0) (m : Action A)
    (f : A → Action B) (h : History)
    → Behind q (m h)
    → ((a : A) (h' : History) → q a h' → Behind r (f a h'))
    → Behind r ((m >>= f) h)
bind-Behind {A} {B} q r m f h first next = split (m h) first
  where
    split :
        (x : Outcome RenderExecutionError A × History)
        → Behind q x
        → Behind r (elim x.0 [ ok a ↦ f a x.1 | err e ↦ (err e, x.1) ])
    split (ok a, h') first = next a h' first
    split (err e, h') first = first

pub Behind-map :
    {A : Type 0} (q r : A → History → Type 0) (x : Outcome RenderExecutionError A × History)
    → Behind q x
    → ((a : A) (h : History) → q a h → r a h)
    → Behind r x
Behind-map q r (ok a, h) b f = f a h b
Behind-map q r (err e, h) b f = b
