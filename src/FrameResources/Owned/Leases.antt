-- ===== src/FrameResources/Owned/Leases.antt =====
-- The references to retained images that an `OwnedFrameResources` (packages/ui/src/render/
-- frame_resources.cpp) holds.
use haxeon.Prelude.{
  ℕ, ◌+◌, ◌<◌, ◌≡◌, ◌∙◌, inl, inr, refl, true, false, List, [], ◌∷◌, Option, none, some, arith,
  ◌==◌, if◌then◌else◌, Bool-cases, Option-cases,
}
use haxeon.FrameResources.Frames.{
  FrameResources, bind_path, bind_image, bind_text, bind_graphics_image,
}
use haxeon.FrameResources.Owned.{
  Graphics, Lease, OwnedFrameResources, OwnedCall, new_owned, owned, own_path, own_image, own_text,
  end_lease, put_lease, hold_image, own_graphics_image, end_leases, reset_owned, perform,
  perform_all, path_call, image_call, text_call, graphics_image_call, reset_call,
}

-- The graphics library counts the references to each image.
pub record Counts {S : Type 0} (graphics : Graphics S) (refs : S → ℕ → ℕ) : Type 0 where
  pub retained :
      (i : ℕ) (s : S)
      → (graphics.retain i s).0 ≡ true
      → (j : ℕ) → refs (graphics.retain i s).1 j ≡ refs s j + (if i == j then 1 else 0)
  pub refused :
      (i : ℕ) (s : S)
      → (graphics.retain i s).0 ≡ false
      → (j : ℕ) → refs (graphics.retain i s).1 j ≡ refs s j
  pub released :
      (i : ℕ) (s : S)
      → 0 < refs s i
      → (j : ℕ) → refs (graphics.release i s) j + (if i == j then 1 else 0) ≡ refs s j

-- How many leases of the image there are.
abbrev pub held : List Lease → ℕ → ℕ
held [] j = 0
held (l ∷ ls) j = (if l.image == j then 1 else 0) + held ls j

abbrev pub NoneEmpty : List Lease → Type 0
NoneEmpty [] = Unit {0}
NoneEmpty (l ∷ ls) = ((l.image == 0) ≡ false) × NoneEmpty ls

module _ {S : Type 0} (graphics : Graphics S) (refs : S → ℕ → ℕ) (counts : Counts graphics refs)
    (base : ℕ → ℕ) where
  -- Beside what others hold, every lease holds one reference.
  abbrev pub Balanced : List Lease → S → Type 0
  Balanced ls s = NoneEmpty ls × ((j : ℕ) → refs s j ≡ base j + held ls j)

  end_lease_lem :
      (l : Lease) (s : S)
      → (l.image == 0) ≡ false
      → 0 < refs s l.image
      → (j : ℕ) → refs (end_lease graphics l s) j + (if l.image == j then 1 else 0) ≡ refs s j
  unfolding end_lease
  end_lease_lem l s h pos j = rw h (counts.released l.image s pos j)

  -- A lease more than the list, on a state that counts it, put into the list.
  put_lease-Balanced :
      (l : Lease) (ls : List Lease) (s : S) (more : ℕ → ℕ)
      → (l.image == 0) ≡ false
      → NoneEmpty ls
      → ((j : ℕ) → refs s j ≡ more j + (held ls j + (if l.image == j then 1 else 0)))
      → let (ls', s') = put_lease graphics l ls s in
        NoneEmpty ls' × ((j : ℕ) → refs s' j ≡ more j + held ls' j)
  unfolding put_lease
  put_lease-Balanced l [] s more h ne e = ((h, tt), λ j. omega (arith, e j))
  put_lease-Balanced l (x ∷ xs) s more h ne e = elim (Bool-cases (x.id == l.id)) [
    | inl hit ↦
        rw hit
          ((h, ne.1), λ j. omega (arith, e j, end_lease_lem x s ne.0 (ground (arith, e x.image)) j))
    | inr miss ↦
        let (ne', e') =
          put_lease-Balanced l xs s (λ j. more j + (if x.image == j then 1 else 0)) h ne.1
            (λ j. omega (arith, e j)) in
        rw miss ((ne.0, ne'), λ j. omega (arith, e' j))
  ]

  hold_image-Balanced :
      (id picture generation : ℕ) (o : OwnedFrameResources) (s : S)
      → (picture == 0) ≡ false
      → NoneEmpty o.leases
      → ((j : ℕ) → refs s j ≡ base j + (held o.leases j + (if picture == j then 1 else 0)))
      → let (b, o', s') = hold_image graphics id picture generation o s in Balanced o'.leases s'
  unfolding hold_image
  hold_image-Balanced id picture generation o s h ne e =
      elim (Option-cases (bind_graphics_image id picture generation o.bindings)) [
        | inl refused ↦
            rw (hold_image, refused)
              (ne, λ j. omega (arith, e j, counts.released picture s (ground (arith, e picture)) j))
        | inr (r, bound) ↦
            rw (hold_image, bound)
              (put_lease-Balanced (record { id = id; image = picture }) o.leases s base h ne e)
      ]

  own_graphics_image-Balanced :
      (id picture generation : ℕ) (o : OwnedFrameResources) (s : S)
      → Balanced o.leases s
      → let (b, o', s') = own_graphics_image graphics id picture generation o s in
        Balanced o'.leases s'
  unfolding own_graphics_image
  own_graphics_image-Balanced id picture generation o s bal = elim (Bool-cases (picture == 0)) [
    | inl empty ↦ rw (own_graphics_image, empty) bal
    | inr some_image ↦ elim (Bool-cases (graphics.retain picture s).0) [
      | inl granted ↦
          rw (own_graphics_image, some_image, granted)
            (hold_image-Balanced id picture generation o (graphics.retain picture s).1 some_image
              bal.0 (λ j. omega (arith, bal.1 j, counts.retained picture s granted j)))
      | inr no_image ↦
          rw (own_graphics_image, some_image, no_image)
            (bal.0, λ j. counts.refused picture s no_image j ∙ bal.1 j)
    ]
  ]

  end_leases-Balanced :
      (ls : List Lease) (s : S)
      → Balanced ls s
      → (j : ℕ) → refs (end_leases graphics ls s) j ≡ base j
  unfolding end_leases
  end_leases-Balanced [] s bal j = omega (arith, bal.1 j)
  end_leases-Balanced (l ∷ ls) s bal j =
      let pos : 0 < refs s l.image = ground (arith, bal.1 l.image) in
      end_leases-Balanced ls (end_lease graphics l s)
        (bal.0.1, λ k. omega (arith, bal.1 k, end_lease_lem l s bal.0.0 pos k)) j

  owned-leases :
      (a : ℕ) (o : OwnedFrameResources) (r : Option FrameResources)
      → (owned a o r).1.leases ≡ o.leases
  owned-leases a o none = refl
  owned-leases a o (some r) = refl

  perform-Balanced :
      (c : OwnedCall) (o : OwnedFrameResources) (s : S)
      → Balanced o.leases s
      → let (o', s') = perform graphics c o s in Balanced o'.leases s'
  unfolding perform own_path own_image own_text reset_owned
  perform-Balanced (path_call id none k g) o s bal = bal
  perform-Balanced (path_call id (some p) k g) o s bal =
      rw (owned-leases p.address o (bind_path id p k g o.bindings)) bal
  perform-Balanced (image_call id none g) o s bal = bal
  perform-Balanced (image_call id (some t) g) o s bal =
      rw (owned-leases t.address o (bind_image id t g o.bindings)) bal
  perform-Balanced (text_call id none g source) o s bal = bal
  perform-Balanced (text_call id (some t) g source) o s bal =
      rw (owned-leases t o (bind_text id t g source o.bindings)) bal
  perform-Balanced (graphics_image_call id picture g) o s bal =
      own_graphics_image-Balanced id picture g o s bal
  perform-Balanced reset_call o s bal =
      (tt, λ j. omega (arith, end_leases-Balanced o.leases s bal j))

  perform_all-Balanced :
      (cs : List OwnedCall) (o : OwnedFrameResources) (s : S)
      → Balanced o.leases s
      → let (o', s') = perform_all graphics cs o s in Balanced o'.leases s'
  unfolding perform_all
  perform_all-Balanced [] o s bal = bal
  perform_all-Balanced (c ∷ cs) o s bal =
      let (o', s') = perform graphics c o s in
      perform_all-Balanced cs o' s' (perform-Balanced c o s bal)

-- With a graphics library that counts references, whatever calls are made on a new set, refused and
-- repeated ones included, the set adds exactly one reference to an image for each lease of it, and a
-- final reset gives all of them back.
pub perform_all-refs :
    {S : Type 0} (graphics : Graphics S) (refs : S → ℕ → ℕ)
    → Counts graphics refs
    → (cs : List OwnedCall) (s : S)
    → let (o, s') = perform_all graphics cs new_owned s in
      ((j : ℕ) → refs s' j ≡ refs s j + held o.leases j)
      × ((j : ℕ) → refs (reset_owned graphics o s').1 j ≡ refs s j)
unfolding reset_owned
perform_all-refs graphics refs counts cs s =
    let bal =
      perform_all-Balanced graphics refs counts (refs s) cs new_owned s (tt, λ j. omega arith) in
    let (o, s') = perform_all graphics cs new_owned s in
    (bal.1, end_leases-Balanced graphics refs counts (refs s) o.leases s' bal)
