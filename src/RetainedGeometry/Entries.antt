-- ===== src/RetainedGeometry/Entries.antt =====
-- `find` and `insert` of packages/ui/src/render/retained_geometry.h. An answer is whether an entry is
-- given; it is the one at the key. `none` is a loop that does not end.
use haxeon.Prelude.{
  ℕ, zero, suc, ◌+◌, ◌*◌, ◌/◌, ◌%◌, ◌^◌, Bool, true, false, ◌||◌, not, List, [], ◌∷◌, ◌++◌, Option,
  none, some, ◌==◌, ltb, if◌then◌else◌, length,
}
use haxeon.RetainedGeometry.{page_bytes}
use haxeon.RetainedGeometry.Cache.{
  Slice, GeometryMesh, Mesh, Entry, GeometryKey, same_key, Cache, mesh_slices, release_slices,
  evict, allocate,
}

abbrev pub max_entries : ℕ
max_entries = 4096

abbrev pub entry_of : GeometryKey → List (GeometryKey × Entry) → Option Entry
entry_of key [] = none
entry_of key ((k, e) ∷ entries) =
    let later = entry_of key entries in if same_key k key then some e else later

-- `insert_or_assign`, and the insertion by `entries_[key]`.
abbrev pub put_entry : GeometryKey → Entry → List (GeometryKey × Entry) → List (GeometryKey × Entry)
put_entry key e [] = (key, e) ∷ []
put_entry key e ((k, f) ∷ entries) =
    let later = put_entry key e entries in
    if same_key k key then (k, e) ∷ entries else (k, f) ∷ later

abbrev pub is_missing : Option Entry → Bool
is_missing none = true
is_missing (some e) = false

-- The loop that makes room for one more entry; the Boolean is whether there is room.
unfoldable pub make_room : ℕ → Cache → Option (Bool × Cache)
unfolding evict
make_room zero g = none
make_room (suc fuel) g =
    if ltb (length g.entries) max_entries
    then some (true, g)
    else elim (evict g) [ none ↦ some (false, g) | some g' ↦ make_room fuel g' ]

abbrev pub candidate : GeometryKey → Bool × Cache → Bool × Cache
candidate key (false, g) = (false, g)
candidate key (true, g) = (
  false,
  record g {
    entries =
        put_entry key (record { meshes = []; used = g.frame; first_frame = g.frame }) g.entries;
  },
)

abbrev pub no_meshes : List Mesh → Bool
no_meshes [] = true
no_meshes (m ∷ meshes) = false

abbrev pub found : GeometryKey → Entry → Cache → Bool × Cache
found key e g =
    let g' = record g { entries = put_entry key (record e { used = g.frame }) g.entries } in
    if no_meshes e.meshes then (false, g') else (true, record g' { hits = (g.hits + 1) % 2 ^ 64 })

abbrev pub option_map : {A B : Type 0} → (A → B) → Option A → Option B
option_map f none = none
option_map f (some x) = some (f x)

unfoldable pub find : GeometryKey → Cache → Option (Bool × Cache)
unfolding make_room
find key g = elim (entry_of key g.entries) [
  | some e ↦ some (found key e g)
  | none ↦ option_map (candidate key) (make_room (length g.entries + 1) g)
]

-- `repeated`: the key was asked for in an earlier frame.
abbrev pub repeated : ℕ → Option Entry → Bool
repeated frame none = false
repeated frame (some e) = not (e.first_frame == frame)

abbrev pub admit : GeometryKey → Cache → Bool × Cache
admit key g =
    if repeated g.frame (entry_of key g.entries)
    then (true, g)
    else (false, record g { misses = (g.misses + 1) % 2 ^ 64 })

-- The bytes of 32-bit indices.
abbrev pub index_bytes : List ℕ → List ℕ
index_bytes [] = []
index_bytes (i ∷ is) =
    i % 256 ∷ i / 2 ^ 8 % 256 ∷ i / 2 ^ 16 % 256 ∷ i / 2 ^ 24 % 256 ∷ index_bytes is

abbrev pub mesh_of : GeometryMesh → Slice → Slice → Mesh
mesh_of m vertices indices = record {
  pipeline = m.pipeline;
  sampler = m.sampler;
  image = m.image;
  atlas = m.atlas;
  stride = m.stride;
  count = length m.indices % 2 ^ 32;
  vertices = vertices;
  indices = indices;
  vertex_uniforms = m.vertex_uniforms;
  fragment_uniforms = m.fragment_uniforms;
}

abbrev pub too_large : List GeometryMesh → Bool
too_large [] = false
too_large (m ∷ ms) =
    ltb page_bytes (length m.vertices) || ltb page_bytes (length m.indices * 4) || too_large ms

-- What was given is released, in the order in which it was given.
abbrev pub give_back : List Slice → Cache → Option (Option (List Mesh) × Cache)
give_back slices g = some (none, record g { pages = release_slices slices g.pages })

-- `NKGPU_BUFFER_VERTEX` and `NKGPU_BUFFER_INDEX`
module _ (vertex_usage index_usage : ℕ) where
  -- The loop over the meshes; `meshes` are those of the entry so far.
  unfoldable pub insert_meshes :
      List GeometryMesh → List Mesh → Cache → Option (Option (List Mesh) × Cache)
  insert_meshes [] meshes g = some (some meshes, g)
  insert_meshes (m ∷ ms) meshes g = elim (allocate vertex_usage m.vertices g) [
    | none ↦ none
    | some (none, g1) ↦ give_back (mesh_slices meshes) g1
    | some (some v, g1) ↦ elim (allocate index_usage (index_bytes m.indices) g1) [
      | none ↦ none
      | some (none, g2) ↦ give_back (v ∷ mesh_slices meshes) g2
      | some (some i, g2) ↦ insert_meshes ms (meshes ++ mesh_of m v i ∷ []) g2
    ]
  ]

  abbrev pub assigned : GeometryKey → Option (List Mesh) × Cache → Bool × Cache
  assigned key (none, g) = (false, g)
  assigned key (some meshes, g) = (
    true,
    record g {
      entries =
          put_entry key (record { meshes = meshes; used = g.frame; first_frame = 0 }) g.entries;
    },
  )

  abbrev pub with_room : GeometryKey → List GeometryMesh → Bool × Cache → Option (Bool × Cache)
  with_room key source (false, g) = some (false, record g { full = true })
  with_room key source (true, g) =
      if too_large source
      then some (false, g)
      else option_map (assigned key) (insert_meshes source [] g)

  abbrev pub no_source : List GeometryMesh → Bool
  no_source [] = true
  no_source (m ∷ ms) = false

  unfoldable pub insert : GeometryKey → List GeometryMesh → Cache → Option (Bool × Cache)
  insert key source g =
      let counted = record g { misses = (g.misses + 1) % 2 ^ 64 } in
      if g.full || no_source source
      then some (false, counted)
      else elim (if is_missing (entry_of key g.entries)
          then make_room (length g.entries + 1) counted
          else some (true, counted)) [ none ↦ none | some r ↦ with_room key source r ]
