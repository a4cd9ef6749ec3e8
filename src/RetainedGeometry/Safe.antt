-- ===== src/RetainedGeometry/Safe.antt =====
-- Sequences of calls of `RetainedGeometry` (packages/ui/src/render/retained_geometry.h).
use haxeon.Prelude.{
  ℕ, ◌+◌, ◌*◌, ◌%◌, ◌^◌, ◌≤◌, ◌≡◌, refl, inl, inr, Bool, true, false, List, [], ◌∷◌, Option, none,
  some, length, arith, Bool-cases, Option-cases,
}
use haxeon.RetainedGeometry.{page_bytes}
use haxeon.RetainedGeometry.Cache.{GeometryMesh, Entry, GeometryKey, Cache, new_cache, limit, begin}
use haxeon.RetainedGeometry.Entries.{
  entry_of, put_entry, make_room, candidate, no_meshes, find, found, admit, repeated, insert,
}
use haxeon.RetainedGeometry.Owners.{IsSound}
use haxeon.RetainedGeometry.Kept.{Keeps}
use haxeon.RetainedGeometry.Oldest.{entries_slices}
use haxeon.RetainedGeometry.Rooms.{put-Keeps, put_entry-total, put_entry-same, make_room-Keeps}
use haxeon.RetainedGeometry.Runs.{Done, insert-Done}

-- A call of the renderer.
pub data GeometryCall : Type 0 where
  limiting beginning : ℕ → GeometryCall
  finding admitting : GeometryKey → GeometryCall
  inserting : GeometryKey → List GeometryMesh → GeometryCall

-- `NKGPU_BUFFER_VERTEX` and `NKGPU_BUFFER_INDEX`
module _ (vertex_usage index_usage : ℕ) where
  unfoldable pub perform : GeometryCall → Cache → Option (Bool × Cache)
  perform (limiting budget) g = some (true, limit budget g)
  perform (beginning frame) g = some (true, begin frame g)
  perform (finding key) g = find key g
  perform (admitting key) g = some (admit key g)
  perform (inserting key source) g = insert vertex_usage index_usage key source g

  unfoldable pub perform_all : List GeometryCall → Cache → Option Cache
  perform_all [] g = some g
  perform_all (c ∷ calls) g = elim (perform c g) [
    | none ↦ none
    | some (b, g') ↦ perform_all calls g'
  ]

found-Done :
    (cap : ℕ) (key : GeometryKey) (e : Entry) (g : Cache)
    → entry_of key g.entries ≡ some e
    → Keeps cap [] g
    → Keeps cap [] (found key e g).1
found-Done cap key e g there k =
    let entries = put_entry key (record e { used = g.frame }) g.entries in
    let k' =
      put-Keeps cap [] g entries
        (λ f. omega (arith, put_entry-same f key e g.frame g.entries there)) k in
    elim (Bool-cases (no_meshes e.meshes)) [
      | inl empty ↦ rw empty k'
      | inr full ↦ rw full (record { sound = k'.sound; budget = k'.budget; within = k'.within })
    ]

candidate-Keeps :
    (cap : ℕ) (key : GeometryKey) (b : Bool) (g : Cache)
    → Keeps cap [] g
    → Keeps cap [] (candidate key (b, g)).1
candidate-Keeps cap key false g k = k
candidate-Keeps cap key true g k =
    let e : Entry = record { meshes = []; used = g.frame; first_frame = g.frame } in
    put-Keeps cap [] g (put_entry key e g.entries)
      (λ f. omega (arith, put_entry-total f key e g.entries)) k

missed-Done :
    (cap : ℕ) (key : GeometryKey) (g g' : Cache) (b : Bool)
    → entry_of key g.entries ≡ none
    → make_room (length g.entries + 1) g ≡ some (b, g')
    → Keeps cap [] g'
    → Done cap (find key g)
unfolding find
missed-Done cap key g g' b absent e k = (
  (candidate key (b, g')).0,
  (candidate key (b, g')).1,
  rw (find, absent, e) refl,
  candidate-Keeps cap key b g' k,
)

find-Done : (cap : ℕ) (key : GeometryKey) (g : Cache) → Keeps cap [] g → Done cap (find key g)
unfolding find
find-Done cap key g k = elim (Option-cases (entry_of key g.entries)) [
  | inr (e, there) ↦
      ((found key e g).0, (found key e g).1, rw (find, there) refl, found-Done cap key e g there k)
  | inl absent ↦
      let (b, g', e, k') = make_room-Keeps cap (length g.entries + 1) [] g (omega arith) k in
      missed-Done cap key g g' b absent e k'
]

module _ (vertex_usage index_usage cap : ℕ) where
  perform-Done :
      (c : GeometryCall) (g : Cache)
      → Keeps cap [] g
      → Done cap (perform vertex_usage index_usage c g)
  unfolding perform
  perform-Done (limiting budget) g k = (
    true,
    limit budget g,
    refl,
    record { sound = k.sound; budget = omega (arith, k.budget); within = k.within },
  )
  perform-Done (beginning frame) g k =
      (true, begin frame g, refl, record { sound = k.sound; budget = k.budget; within = k.within })
  perform-Done (finding key) g k = find-Done cap key g k
  perform-Done (admitting key) g k = elim (Bool-cases (repeated g.frame (entry_of key g.entries))) [
    | inl again ↦ (true, g, rw again refl, k)
    | inr new ↦ (
      false,
      record g { misses = (g.misses + 1) % 2 ^ 64 },
      rw new refl,
      record { sound = k.sound; budget = k.budget; within = k.within },
    )
  ]
  perform-Done (inserting key source) g k = insert-Done vertex_usage index_usage cap key source g k

  perform_all-Keeps :
      (calls : List GeometryCall) (g : Cache)
      → Keeps cap [] g
      → (g' : Cache) × (perform_all vertex_usage index_usage calls g ≡ some g') × Keeps cap [] g'
  unfolding perform_all
  perform_all-Keeps [] g k = (g, refl, k)
  perform_all-Keeps (c ∷ calls) g k =
      let (b, g1, e1, k1) = perform-Done c g k in
      let (g2, e2, k2) = perform_all-Keeps calls g1 k1 in (g2, rw (perform_all, e1) e2, k2)

-- Every sequence of calls on a new cache ends. Behind it each range of an entry lies in a page and is not
-- empty, no byte of a page has two owners among these ranges and the free ranges, the free ranges of each
-- page are in order with gaps, and the pages take no more than the budget of the constructor.
pub perform_all-IsSound :
    (vertex_usage index_usage budget : ℕ) (calls : List GeometryCall)
    → (g : Cache) × (perform_all vertex_usage index_usage calls (new_cache budget) ≡ some g)
      × IsSound g.pages (entries_slices g.entries)
      × (length g.pages * page_bytes ≤ budget)
perform_all-IsSound vertex_usage index_usage budget calls =
    let (g, e, k) =
      perform_all-Keeps vertex_usage index_usage budget calls (new_cache budget) (record {
        sound = record { ordered = refl; placed = refl; exclusive = λ i b. omega arith };
        budget = omega arith;
        within = omega arith;
      }) in
    (g, e, k.sound, k.within)
