-- ===== src/RetainedGeometry/Runs.antt =====
-- Sequences of operations on `RetainedGeometry` (packages/ui/src/render/retained_geometry.h).
use haxeon.Prelude.{
  ℕ, ◌+◌, ◌*◌, ◌%◌, ◌^◌, ◌≤◌, ◌≡◌, refl, inl, inr, Bool, true, false, ◌||◌, List, [], ◌∷◌, ◌++◌,
  Option, none, some, length, arith, Bool-cases,
}
use haxeon.RetainedGeometry.{page_bytes}
use haxeon.RetainedGeometry.Cache.{
  Slice, GeometryMesh, Mesh, GeometryKey, Cache, mesh_slices, allocate, release_slices,
}
use haxeon.RetainedGeometry.Entries.{
  entry_of, put_entry, is_missing, option_map, index_bytes, mesh_of, too_large, insert_meshes,
  assigned, with_room, no_source, insert,
}
use haxeon.RetainedGeometry.Owners.{total}
use haxeon.RetainedGeometry.Kept.{Keeps}
use haxeon.RetainedGeometry.Given.{Allocates}
use haxeon.RetainedGeometry.Rooms.{
  Keeps-fewer, put-Keeps, put_entry-total, make_room-Keeps, released-Keeps, allocate-Allocates,
}

length-index_bytes : (is : List ℕ) → length (index_bytes is) ≡ length is * 4
length-index_bytes [] = refl
length-index_bytes (i ∷ is) = omega (arith, length-index_bytes is)

mesh_slices-snoc :
    (f : Slice → ℕ) (meshes : List Mesh) (m : Mesh)
    → total f (mesh_slices (meshes ++ m ∷ []))
      ≡ f m.indices + (f m.vertices + total f (mesh_slices meshes))
mesh_slices-snoc f [] m = omega arith
mesh_slices-snoc f (x ∷ meshes) m = omega (arith, mesh_slices-snoc f meshes m)

-- The ranges of an entry that is ready.
abbrev slices_of : Option (List Mesh) → List Slice
slices_of none = []
slices_of (some meshes) = mesh_slices meshes

-- An operation ends, and nothing is pending behind it.
abbrev pub Done : ℕ → Option (Bool × Cache) → Type 0
Done cap x = (b : Bool) × (g' : Cache) × (x ≡ some (b, g')) × Keeps cap [] g'

module _ (vertex_usage index_usage cap : ℕ) where
  -- The meshes of an entry are all stored, or all is given back.
  abbrev Stored : List GeometryMesh → List Mesh → Cache → Type 0
  Stored ms meshes g =
      (r : Option (List Mesh)) × (g' : Cache) × (insert_meshes vertex_usage index_usage ms meshes g
        ≡ some (r, g'))
      × Keeps cap (slices_of r) g'

  module _ (m : GeometryMesh) (ms : List GeometryMesh) (meshes : List Mesh) (g : Cache)
      (next : (meshes' : List Mesh) (g' : Cache)
        → Keeps cap (mesh_slices meshes') g'
        → Stored ms meshes' g') where
    second_buffer :
        (v : Slice) (g1 g2 : Cache) (r2 : Option Slice)
        → allocate vertex_usage m.vertices g ≡ some (some v, g1)
        → allocate index_usage (index_bytes m.indices) g1 ≡ some (r2, g2)
        → Allocates cap (v ∷ mesh_slices meshes) g1 r2 g2
        → Stored (m ∷ ms) meshes g
    unfolding insert_meshes
    second_buffer v g1 g2 none e1 e2 a2 = (
      none,
      record g2 { pages = release_slices (v ∷ mesh_slices meshes) g2.pages },
      rw (insert_meshes, e1, e2) refl,
      released-Keeps cap (v ∷ mesh_slices meshes) g2 a2.keeps,
    )
    second_buffer v g1 g2 (some i) e1 e2 a2 =
        let longer =
          Keeps-fewer cap (i ∷ v ∷ mesh_slices meshes) (mesh_slices (meshes ++ mesh_of m v i ∷ []))
            g2 (λ f. omega (arith, mesh_slices-snoc f meshes (mesh_of m v i))) a2.keeps in
        let (r, g', e, k') = next (meshes ++ mesh_of m v i ∷ []) g2 longer in
        (r, g', rw (insert_meshes, e1, e2) e, k')

    first_buffer :
        (r1 : Option Slice) (g1 : Cache)
        → allocate vertex_usage m.vertices g ≡ some (r1, g1)
        → Allocates cap (mesh_slices meshes) g r1 g1
        → length (index_bytes m.indices) ≤ page_bytes
        → Stored (m ∷ ms) meshes g
    unfolding insert_meshes
    first_buffer none g1 e1 a1 few = (
      none,
      record g1 { pages = release_slices (mesh_slices meshes) g1.pages },
      rw (insert_meshes, e1) refl,
      released-Keeps cap (mesh_slices meshes) g1 a1.keeps,
    )
    first_buffer (some v) g1 e1 a1 few =
        let (r2, g2, e2, a2) =
          allocate-Allocates cap index_usage (index_bytes m.indices) (v ∷ mesh_slices meshes) g1 few
            a1.keeps in
        second_buffer v g1 g2 r2 e1 e2 a2

  insert_meshes-Keeps :
      (ms : List GeometryMesh) (meshes : List Mesh) (g : Cache)
      → too_large ms ≡ false
      → Keeps cap (mesh_slices meshes) g
      → Stored ms meshes g
  unfolding insert_meshes
  insert_meshes-Keeps [] meshes g small k = (some meshes, g, refl, k)
  insert_meshes-Keeps (m ∷ ms) meshes g small k =
      let words : length m.indices * 4 ≤ page_bytes = ground arith in
      let (r1, g1, e1, a1) =
        allocate-Allocates cap vertex_usage m.vertices (mesh_slices meshes) g (ground arith) k in
      first_buffer m ms meshes g
        (λ meshes' g' k'. insert_meshes-Keeps ms meshes' g' (ground arith) k') r1 g1 e1 a1
        (omega (arith, words, length-index_bytes m.indices))

  stored-Done :
      (key : GeometryKey) (source : List GeometryMesh) (r : Option (List Mesh)) (g g' : Cache)
      → insert_meshes vertex_usage index_usage source [] g ≡ some (r, g')
      → Keeps cap (slices_of r) g'
      → Done cap (
          option_map
            (assigned vertex_usage index_usage key)
            (insert_meshes vertex_usage index_usage source [] g))
  stored-Done key source none g g' e k = (false, g', rw e refl, k)
  stored-Done key source (some meshes) g g' e k =
      let entries =
        put_entry key (record { meshes = meshes; used = g'.frame; first_frame = 0 }) g'.entries in
      (
        true,
        record g' { entries = entries },
        rw e refl,
        put-Keeps cap (mesh_slices meshes) g' entries
            (λ f.
              put_entry-total f key (record { meshes = meshes; used = g'.frame; first_frame = 0 })
                g'.entries)
            k,
      )

  with_room-Done :
      (key : GeometryKey) (source : List GeometryMesh) (b : Bool) (g : Cache)
      → Keeps cap [] g
      → Done cap (with_room vertex_usage index_usage key source (b, g))
  with_room-Done key source false g k = (
    false,
    record g { full = true },
    refl,
    record { sound = k.sound; budget = k.budget; within = k.within },
  )
  with_room-Done key source true g k = elim (Bool-cases (too_large source)) [
    | inl large ↦ (false, g, rw large refl, k)
    | inr small ↦
        let (r, g', e, k') = insert_meshes-Keeps source [] g small k in
        let (b, g2, e2, k2) = stored-Done key source r g g' e k' in (b, g2, rw small e2, k2)
  ]

  pub insert-Done :
      (key : GeometryKey) (source : List GeometryMesh) (g : Cache)
      → Keeps cap [] g
      → Done cap (insert vertex_usage index_usage key source g)
  unfolding insert
  insert-Done key source g k =
      let counted : Cache = record g { misses = (g.misses + 1) % 2 ^ 64 } in
      let k' : Keeps cap [] counted = record {
        sound = k.sound;
        budget = k.budget;
        within = k.within;
      } in
      elim (Bool-cases (g.full || no_source vertex_usage index_usage source)) [
        | inl refused ↦ (false, counted, rw refused refl, k')
        | inr wanted ↦ elim (Bool-cases (is_missing (entry_of key g.entries))) [
          | inr there ↦
              let (b, g2, e2, k2) = with_room-Done key source true counted k' in
              (b, g2, rw (wanted, there) e2, k2)
          | inl absent ↦
              let (b, g1, e1, k1) =
                make_room-Keeps cap (length g.entries + 1) [] counted (omega arith) k' in
              let (b2, g2, e2, k2) = with_room-Done key source b g1 k1 in
              (b2, g2, rw (wanted, absent, e1) e2, k2)
        ]
      ]
