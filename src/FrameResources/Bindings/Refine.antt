-- ===== src/FrameResources/Bindings/Refine.antt =====
-- `FrameBindings` (packages/ui/src/render/frame_resources.h) behaves as a map that `reset` empties.
use haxeon.Prelude.{
  ℕ, ◌+◌, ◌%◌, ◌^◌, ◌≤◌, ◌<◌, ◌≡◌, ◌∙◌, refl, inl, inr, List, [], ◌∷◌, Option, none, some, arith,
  ◌==◌, if◌then◌else◌, ap, Bool-cases, Option-cases, ==_refl,
}
use haxeon.FrameResources.Bindings.{
  Row, FrameBindings, new_bindings, find, put, bind, get, prune, reset,
}

module _ {V : Type 0} where
  -- No row is newer than the frame, and the frame is a 64-bit number that is not zero.
  abbrev pub AllOld : ℕ → List (Row V) → Type 0
  AllOld frame [] = Unit {0}
  AllOld frame (r ∷ rs) = (r.frame ≤ frame) × AllOld frame rs

  pub record IsValid (b : FrameBindings V) : Type 0 where
    pub low : 0 < b.frame
    pub small : b.frame < 2 ^ 64
    pub old : AllOld b.frame b.rows

  pub new_bindings-IsValid : IsValid new_bindings
  new_bindings-IsValid = record { low = omega arith; small = omega arith; old = tt }

  AllOld-put :
      (row : Row V) (rs : List (Row V)) → AllOld row.frame rs → AllOld row.frame (put row rs)
  unfolding put
  AllOld-put row [] old = (omega arith, tt)
  AllOld-put row (r ∷ rs) old = elim (Bool-cases (r.id == row.id)) [
    | inl hit ↦ rw hit (omega arith, old.1)
    | inr miss ↦ rw miss (old.0, AllOld-put row rs old.1)
  ]

  AllOld-prune : (frame next : ℕ) (rs : List (Row V)) → frame ≤ next → AllOld next (prune frame rs)
  unfolding prune
  AllOld-prune frame next [] h = tt
  AllOld-prune frame next (r ∷ rs) h = elim (Bool-cases (r.frame == frame)) [
    | inl hit ↦ rw hit (ground arith, AllOld-prune frame next rs h)
    | inr miss ↦ rw miss (AllOld-prune frame next rs h)
  ]

  pub bind-IsValid : (id : ℕ) (v : V) (b : FrameBindings V) → IsValid b → IsValid (bind id v b)
  unfolding bind
  bind-IsValid id v b h = record {
    low = h.low;
    small = h.small;
    old = AllOld-put (record { id = id; value = v; frame = b.frame }) b.rows h.old;
  }

  pub reset-IsValid : (b : FrameBindings V) → IsValid b → IsValid (reset b)
  unfolding reset
  reset-IsValid b h = elim (Bool-cases ((b.frame + 1) % 2 ^ 64 == 0)) [
    | inl wrapped ↦ rw wrapped new_bindings-IsValid
    | inr fresh ↦ rw fresh (record {
      low = ground arith;
      small = omega arith;
      old = AllOld-prune b.frame _ b.rows (ground (arith, h.small));
    })
  ]

  find-put :
      (id : ℕ) (row : Row V) (rs : List (Row V))
      → find id (put row rs) ≡ (if row.id == id then some row else find id rs)
  unfolding find put
  find-put id row [] = refl
  find-put id row (r ∷ rs) = ground (arith, find-put id row rs)

  -- A bound value is found under its id, and no other id is touched.
  pub get-bind :
      (id other : ℕ) (v : V) (b : FrameBindings V)
      → get other (bind id v b) ≡ (if id == other then some v else get other b)
  unfolding get bind
  get-bind id other v b =
      let row : Row V = record { id = id; value = v; frame = b.frame } in
      elim (Bool-cases (id == other)) [
        | inl hit ↦ rw (get, find-put other row b.rows, hit) (rw (==_refl b.frame) refl)
        | inr miss ↦ rw (get, find-put other row b.rows, miss) refl
      ]

  find-AllOld :
      (id frame : ℕ) (rs : List (Row V)) (r : Row V)
      → AllOld frame rs
      → find id rs ≡ some r
      → r.frame ≤ frame
  unfolding find
  find-AllOld id frame [] r old found = cc
  find-AllOld id frame (x ∷ rs) r old found = elim (Bool-cases (x.id == id)) [
    | inl hit ↦ let same : x ≡ r = cc (rw hit at found) in rw (← same) old.0
    | inr miss ↦ find-AllOld id frame rs r old.1 (rw miss at found)
  ]

  get_expired :
      (id frame next : ℕ) (rs : List (Row V))
      → AllOld frame rs
      → frame < next
      → get id (record { frame = next; rows = rs }) ≡ none
  unfolding get
  get_expired id frame next rs old h = elim (Option-cases (find id rs)) [
    | inl missing ↦ rw (get, missing) refl
    | inr (r, found) ↦
        let stale = find-AllOld id frame rs r old found in rw (get, found) (ground arith)
  ]

  -- `reset` expires every value at once.
  pub get-reset : (id : ℕ) (b : FrameBindings V) → IsValid b → get id (reset b) ≡ none
  unfolding reset
  get-reset id b h = elim (Bool-cases ((b.frame + 1) % 2 ^ 64 == 0)) [
    | inl wrapped ↦ rw wrapped (get_expired id 0 1 [] tt (omega arith))
    | inr fresh ↦ rw fresh (
        get_expired id b.frame _ (prune b.frame b.rows)
          (AllOld-prune b.frame b.frame b.rows (omega arith)) (ground (arith, h.small)))
  ]

  prune_expired :
      (frame next : ℕ) (rs : List (Row V)) → AllOld frame rs → frame < next → prune next rs ≡ []
  unfolding prune
  prune_expired frame next [] old h = refl
  prune_expired frame next (r ∷ rs) old h = ground (arith, prune_expired frame next rs old.1 h)

  -- Two resets with no binding between them drop every slot, whatever was bound before.
  pub reset-reset : (b : FrameBindings V) → IsValid b → (reset (reset b)).rows ≡ []
  unfolding reset
  reset-reset b h =
      let next = (b.frame + 1) % 2 ^ 64 in
      elim (Bool-cases (next == 0)) [
        | inl wrapped ↦ rw wrapped refl
        | inr fresh ↦
            let left = prune b.frame b.rows in
            let gone =
              prune_expired b.frame next left (AllOld-prune b.frame b.frame b.rows (omega arith))
                (ground (arith, h.small)) in
            rw (fresh, gone) (ground arith)
      ]

pub data Step (V : Type 0) : Type 0 where
  binding : ℕ → V → Step V
  resetting : Step V

module _ {V : Type 0} where
  abbrev pub run : List (Step V) → FrameBindings V → FrameBindings V
  run [] b = b
  run (binding id v ∷ rest) b = run rest (bind id v b)
  run (resetting ∷ rest) b = run rest (reset b)

  -- The map that the steps promise.
  abbrev pub promised : List (Step V) → (ℕ → Option V) → ℕ → Option V
  promised [] m = m
  promised (binding id v ∷ rest) m = promised rest (λ k. if id == k then some v else m k)
  promised (resetting ∷ rest) m = promised rest (λ k. none)

  promised-ext :
      (steps : List (Step V)) (m m' : ℕ → Option V)
      → ((k : ℕ) → m k ≡ m' k)
      → (id : ℕ) → promised steps m id ≡ promised steps m' id
  promised-ext [] m m' h id = h id
  promised-ext (binding k v ∷ rest) m m' h id =
      promised-ext rest _ _ (λ j. ap (λ x. if k == j then some v else x) (h j)) id
  promised-ext (resetting ∷ rest) m m' h id = refl

  -- From bindings that are valid, any sequence of bindings and resets leaves what a map that
  -- `reset` empties would hold, the wrap of the frame counter included.
  pub run-promised :
      (steps : List (Step V)) (b : FrameBindings V) (id : ℕ)
      → IsValid b
      → get id (run steps b) ≡ promised steps (λ k. get k b) id
  run-promised [] b id h = refl
  run-promised (binding k v ∷ rest) b id h =
      run-promised rest (bind k v b) id (bind-IsValid k v b h)
      ∙ promised-ext rest _ _ (λ j. get-bind k j v b) id
  run-promised (resetting ∷ rest) b id h =
      run-promised rest (reset b) id (reset-IsValid b h)
      ∙ promised-ext rest _ _ (λ j. get-reset j b h) id
