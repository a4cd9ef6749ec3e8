-- ===== src/Executor/Prepared.antt =====
-- The preparation of a surface in packages/ui/src/render/render_plan_executor.cpp stays in the frame.
use haxeon.Prelude.{
  ℕ, ◌≡◌, inl, inr, refl, sym, subst, Bool, ◌||◌, not, List, ◌∷◌, Option, none, some, if◌then◌else◌,
  Bool-cases,
}
use haxeon.FrameResources.Frames.{is_positive}
use haxeon.Executor.Calls.{
  History, UiRenderer, SurfaceDescriptor, SurfaceRenderResult, surface_rendered,
  surface_unavailable, surface_failed, Reply, Call, render_surface, last_error, pure, fail,
}
use haxeon.Executor.Surfaces.{
  fall_back, finish_surface, render_now, described, unready, prepare_surface, supported,
}
use haxeon.Executor.Protocol.{in_frame, Mark, At, Behind}
use haxeon.Executor.{try_call}

-- The surfaces leave no mark.
module _ (ui : UiRenderer) (ms : List Mark) where
  fall_back-At :
      (id : ℕ) (h : History) → At in_frame ms h → Behind (λ _. At in_frame ms) (fall_back ui id h)
  fall_back-At id h at = elim (Bool-cases (ui.surface_has_content h id)) [
    | inl kept ↦ rw kept at
    | inr lost ↦ rw lost (inl at.place)
  ]

  finish_kind-At :
      (id generation : ℕ) (d : SurfaceDescriptor) (r : Reply) (k : SurfaceRenderResult)
      (h : History)
      → r.rendered ≡ k
      → At in_frame ms h
      → Behind (λ _. At in_frame ms) (finish_surface ui id generation d r h)
  finish_kind-At id generation d r surface_rendered h e at =
      rw e (record { place = rw at.place refl; trace = at.trace })
  finish_kind-At id generation d r surface_unavailable h e at = rw e (fall_back-At id h at)
  finish_kind-At id generation d r surface_failed h e at = rw e (inl at.place)

  render_now-At :
      (id producer generation : ℕ) (d : SurfaceDescriptor) (h : History)
      → At in_frame ms h
      → Behind (λ _. At in_frame ms) (render_now ui id producer generation d h)
  render_now-At id producer generation d h at =
      let r = ui.answer h (render_surface producer id d) in
      finish_kind-At id generation d r r.rendered ((render_surface producer id d, r) ∷ h) refl
        (record { place = rw at.place refl; trace = at.trace })

  described-At :
      (id producer : ℕ) (d : Option SurfaceDescriptor) (h : History)
      → At in_frame ms h
      → Behind (λ _. At in_frame ms) (described ui id producer d h)
  described-At id producer none h at = inl at.place
  described-At id producer (some d) h at =
      let generation = ui.producer_generation h producer in
      elim (Bool-cases (not (is_positive d.width) || not (is_positive d.height))) [
        | inl bad ↦ rw bad (inl at.place)
        | inr sized ↦ elim (Bool-cases (not (supported d))) [
          | inl bad ↦ rw (sized, bad) (inl at.place)
          | inr known ↦ elim (Bool-cases (ui.surface_is_current h id generation d)) [
            | inl current ↦ rw (sized, known, current) at
            | inr old ↦ rw (sized, known, old) (render_now-At id producer generation d h at)
          ]
        ]
      ]

  unready-At :
      (id : ℕ) (h : History) → At in_frame ms h → Behind (λ _. At in_frame ms) (unready ui id h)
  unready-At id h at = elim (Bool-cases (ui.surface_has_content h id)) [
    | inl kept ↦ rw kept at
    | inr lost ↦ rw lost (inl at.place)
  ]

  pub prepare_surface-At :
      (id : ℕ) (size : ℕ × ℕ) (producer : Option ℕ) (h : History)
      → At in_frame ms h
      → Behind (λ _. At in_frame ms) (prepare_surface ui id size producer h)
  prepare_surface-At id size none h at = inl at.place
  prepare_surface-At id (w, t) (some producer) h at =
      elim (Bool-cases (ui.producer_ready h producer)) [
        | inl ready ↦ rw ready (described-At id producer (ui.producer_describe h producer w t) h at)
        | inr busy ↦ rw busy (unready-At id h at)
      ]

  -- A call that leaves the frame where it is.
  pub try_call-At :
      (c : Call) (pass : ℕ) (h : History)
      → ((r : Reply) → At in_frame ms ((c, r) ∷ h))
      → Behind (λ _. At in_frame ms) (try_call ui c pass h)
  try_call-At c pass h at =
      let r = ui.answer h c in
      let go = λ (b : Bool).
        Behind (λ (_ : Unit {0}). At in_frame ms)
          ((if b then pure tt else fail pass 0 last_error) ((c, r) ∷ h)) in
      elim (Bool-cases r.done) [
        | inl good ↦ subst go (sym good) (at r)
        | inr bad ↦ subst go (sym bad) (inl (at r).place)
      ]
