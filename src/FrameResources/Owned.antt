-- ===== src/FrameResources/Owned.antt =====
-- `OwnedFrameResources` of packages/ui/src/render/frame_resources.h and frame_resources.cpp. The
-- retained images live in the graphics library, which is a parameter: `S` is its state, an image is
-- the `id` of its handle.
pub mod Leases
use haxeon.Prelude.{
  ℕ, Bool, true, false, ◌&&◌, ◌||◌, List, [], ◌∷◌, ◌++◌, Option, none, some, ◌==◌, if◌then◌else◌,
}
use haxeon.FrameResources.Frames.{
  PreparedPath, PreparedTexture, FrameResources, new_resources, bind_path, bind_image, bind_text,
  bind_graphics_image, reset_resources,
}

-- `nk_graphics_image_retain`, whose result is `NK_OK` or not, and `nk_graphics_image_release`.
pub record Graphics (S : Type 0) : Type 0 where
  pub retain : ℕ → S → Bool × S
  pub release : ℕ → S → S

-- A `GraphicsImageLease` under its key.
pub record Lease : Type 0 where
  pub id : ℕ
  pub image : ℕ

-- `owners` are the addresses of what is shared. A null `shared_ptr` is `none`.
pub record OwnedFrameResources : Type 0 where
  pub bindings : FrameResources
  pub owners : List ℕ
  pub leases : List Lease

abbrev pub new_owned : OwnedFrameResources
new_owned = record { bindings = new_resources; owners = []; leases = [] }

-- A refused binding leaves the set as it is.
abbrev pub owned : ℕ → OwnedFrameResources → Option FrameResources → Bool × OwnedFrameResources
owned address o none = (false, o)
owned address o (some r) = (true, record o { bindings = r; owners = o.owners ++ address ∷ [] })

unfoldable pub own_path :
    ℕ → Option PreparedPath → ℕ → ℕ → OwnedFrameResources → Bool × OwnedFrameResources
own_path id none operation_index generation o = (false, o)
own_path id (some p) operation_index generation o =
    owned p.address o (bind_path id p operation_index generation o.bindings)

unfoldable pub own_image :
    ℕ → Option PreparedTexture → ℕ → OwnedFrameResources → Bool × OwnedFrameResources
own_image id none generation o = (false, o)
own_image id (some t) generation o = owned t.address o (bind_image id t generation o.bindings)

unfoldable pub own_text : ℕ → Option ℕ → ℕ → ℕ → OwnedFrameResources → Bool × OwnedFrameResources
own_text id none generation source o = (false, o)
own_text id (some glyphs) generation source o =
    owned glyphs o (bind_text id glyphs generation source o.bindings)

module _ {S : Type 0} (graphics : Graphics S) where
  -- `~GraphicsImageLease`
  unfoldable pub end_lease : Lease → S → S
  end_lease l s = if l.image == 0 then s else graphics.release l.image s

  -- `graphics_image_leases_[id] = lease`: a lease that was there ends.
  unfoldable pub put_lease : Lease → List Lease → S → List Lease × S
  unfolding end_lease
  put_lease l [] s = (l ∷ [], s)
  put_lease l (x ∷ xs) s =
      let (rest, s') = put_lease l xs s in
      if x.id == l.id then (l ∷ xs, end_lease x s) else (x ∷ rest, s')

  -- `bind_graphics_image` behind its first test, with the answer of the retain.
  unfoldable pub hold_image : ℕ → ℕ → ℕ → OwnedFrameResources → S → Bool × OwnedFrameResources × S
  unfolding put_lease
  hold_image id picture generation o s =
      elim (bind_graphics_image id picture generation o.bindings) [
        | none ↦ (false, o, graphics.release picture s)
        | some r ↦
            let (leases, s') = put_lease (record { id = id; image = picture }) o.leases s in
            (true, record o { bindings = r; leases = leases }, s')
      ]

  unfoldable pub own_graphics_image :
      ℕ → ℕ → ℕ → OwnedFrameResources → S → Bool × OwnedFrameResources × S
  own_graphics_image id picture generation o s =
      if picture == 0
      then (false, o, s)
      else let (retained, s') = graphics.retain picture s in
        if retained then hold_image id picture generation o s' else (false, o, s')

  -- `graphics_image_leases_.clear()`
  unfoldable pub end_leases : List Lease → S → S
  unfolding end_lease
  end_leases [] s = s
  end_leases (l ∷ ls) s = end_leases ls (end_lease l s)

  unfoldable pub reset_owned : OwnedFrameResources → S → OwnedFrameResources × S
  unfolding end_leases
  reset_owned o s = (
    record { bindings = reset_resources o.bindings; owners = []; leases = [] },
    end_leases o.leases s,
  )

-- One call on the set.
pub data OwnedCall : Type 0 where
  path_call : ℕ → Option PreparedPath → ℕ → ℕ → OwnedCall
  image_call : ℕ → Option PreparedTexture → ℕ → OwnedCall
  text_call : ℕ → Option ℕ → ℕ → ℕ → OwnedCall
  graphics_image_call : ℕ → ℕ → ℕ → OwnedCall
  reset_call : OwnedCall

module _ {S : Type 0} (graphics : Graphics S) where
  unfoldable pub perform : OwnedCall → OwnedFrameResources → S → OwnedFrameResources × S
  perform (path_call id p operation_index generation) o s =
      ((own_path id p operation_index generation o).1, s)
  perform (image_call id t generation) o s = ((own_image id t generation o).1, s)
  perform (text_call id glyphs generation source) o s =
      ((own_text id glyphs generation source o).1, s)
  perform (graphics_image_call id picture generation) o s =
      let (done, o', s') = own_graphics_image graphics id picture generation o s in (o', s')
  perform reset_call o s = reset_owned graphics o s

  unfoldable pub perform_all : List OwnedCall → OwnedFrameResources → S → OwnedFrameResources × S
  unfolding perform
  perform_all [] o s = (o, s)
  perform_all (c ∷ cs) o s = let (o', s') = perform c o s in perform_all cs o' s'
