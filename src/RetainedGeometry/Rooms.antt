-- ===== src/RetainedGeometry/Rooms.antt =====
-- What `insert` and `find` of packages/ui/src/render/retained_geometry.h are built of keeps the ranges of
-- the entries apart and the pages within the budget.
use haxeon.Prelude.{
  ℕ, zero, suc, ◌+◌, ◌<◌, ◌≤◌, ◌≡◌, refl, ap, inl, inr, Bool, true, false, List, [], ◌∷◌, ◌++◌,
  Option, none, some, ◌==◌, ltb, length, arith, Bool-cases, Option-cases,
}
use haxeon.RetainedGeometry.{page_bytes}
use haxeon.RetainedGeometry.Cache.{
  Slice, Entry, GeometryKey, Cache, same_key, mesh_slices, evict, allocate, release_slices,
}
use haxeon.RetainedGeometry.Entries.{max_entries, entry_of, put_entry, make_room}
use haxeon.RetainedGeometry.Owners.{total, total-append, IsSound-fewer, release_slices-IsSound}
use haxeon.RetainedGeometry.Kept.{Keeps, length-release, evict-Evicts}
use haxeon.RetainedGeometry.Given.{Allocates, allocate_from-Allocates}
use haxeon.RetainedGeometry.Oldest.{entries_slices}

pub Keeps-fewer :
    (cap : ℕ) (pending fewer : List Slice) (g : Cache)
    → ((f : Slice → ℕ) → total f fewer ≤ total f pending)
    → Keeps cap pending g
    → Keeps cap fewer g
Keeps-fewer cap pending fewer g h k = record {
  sound =
      IsSound-fewer g.pages (pending ++ entries_slices g.entries)
        (fewer ++ entries_slices g.entries)
        (λ f. omega (
          arith,
          h f,
          total-append f pending (entries_slices g.entries),
          total-append f fewer (entries_slices g.entries),
        ))
        k.sound;
  budget = k.budget;
  within = k.within;
}

-- What was pending becomes an entry.
pub put-Keeps :
    (cap : ℕ) (pending : List Slice) (g : Cache) (entries : List (GeometryKey × Entry))
    → ((f : Slice → ℕ)
        → total f (entries_slices entries) ≤ total f pending + total f (entries_slices g.entries))
    → Keeps cap pending g
    → Keeps cap [] (record g { entries = entries })
put-Keeps cap pending g entries h k = record {
  sound =
      IsSound-fewer g.pages (pending ++ entries_slices g.entries) (entries_slices entries)
        (λ f. omega (arith, h f, total-append f pending (entries_slices g.entries))) k.sound;
  budget = k.budget;
  within = k.within;
}

pub put_entry-total :
    (f : Slice → ℕ) (key : GeometryKey) (e : Entry) (entries : List (GeometryKey × Entry))
    → total f (entries_slices (put_entry key e entries))
      ≤ total f (mesh_slices e.meshes) + total f (entries_slices entries)
put_entry-total f key e [] = omega (arith, total-append f (mesh_slices e.meshes) [])
put_entry-total f key e ((k, x) ∷ entries) = elim (Bool-cases (same_key k key)) [
  | inl same ↦ rw same (
      omega (
        arith,
        total-append f (mesh_slices e.meshes) (entries_slices entries),
        total-append f (mesh_slices x.meshes) (entries_slices entries),
      ))
  | inr other ↦ rw other (
      omega (
        arith,
        put_entry-total f key e entries,
        total-append f (mesh_slices x.meshes) (entries_slices (put_entry key e entries)),
        total-append f (mesh_slices x.meshes) (entries_slices entries),
      ))
]

-- An entry that only notes its frame keeps its ranges.
pub put_entry-same :
    (f : Slice → ℕ) (key : GeometryKey) (e : Entry) (used : ℕ)
    (entries : List (GeometryKey × Entry))
    → entry_of key entries ≡ some e
    → total f (entries_slices (put_entry key (record e { used = used }) entries))
      ≤ total f (entries_slices entries)
put_entry-same f key e used [] h = cc
put_entry-same f key e used ((k, x) ∷ entries) h = elim (Bool-cases (same_key k key)) [
  | inl same ↦
      let own : x ≡ e = cc (rw same at h) in
      let meshes : x.meshes ≡ e.meshes = ap (λ (y : Entry). y.meshes) own in
      rw (same, meshes) (omega arith)
  | inr other ↦ rw other (
      omega (
        arith,
        put_entry-same f key e used entries (rw other at h),
        total-append f (mesh_slices x.meshes)
            (entries_slices (put_entry key (record e { used = used }) entries)),
        total-append f (mesh_slices x.meshes) (entries_slices entries),
      ))
]

-- Room for an entry is made, or there is none.
pub make_room-Keeps :
    (cap fuel : ℕ) (pending : List Slice) (g : Cache)
    → length g.entries < fuel
    → Keeps cap pending g
    → (b : Bool) × (g' : Cache) × (make_room fuel g ≡ some (b, g')) × Keeps cap pending g'
unfolding make_room
make_room-Keeps cap zero pending g enough k = absurd (omega arith)
make_room-Keeps cap (suc fuel) pending g enough k =
    elim (Bool-cases (ltb (length g.entries) max_entries)) [
      | inl room ↦ (true, g, rw (make_room, room) refl, k)
      | inr full ↦ elim (Option-cases (evict g)) [
        | inl stuck ↦ (false, g, rw (make_room, full, stuck) refl, k)
        | inr (g', gone) ↦
            let out = evict-Evicts cap pending g g' k gone in
            let (b, g2, e, k2) =
              make_room-Keeps cap fuel pending g' (omega (arith, out.shorter, enough)) out.keeps in
            (b, g2, rw (make_room, full, gone) e, k2)
      ]
    ]

-- What `give_back` releases is pending no more.
pub released-Keeps :
    (cap : ℕ) (pending : List Slice) (g : Cache)
    → Keeps cap pending g
    → Keeps cap [] (record g { pages = release_slices pending g.pages })
released-Keeps cap pending g k = record {
  sound = release_slices-IsSound pending g.pages (entries_slices g.entries) k.sound;
  budget = k.budget;
  within = rw (length-release pending g.pages) k.within;
}

pub allocate-Allocates :
    (cap usage : ℕ) (payload : List ℕ) (pending : List Slice) (g : Cache)
    → length payload ≤ page_bytes
    → Keeps cap pending g
    → (r : Option Slice) × (g' : Cache) × (allocate usage payload g ≡ some (r, g'))
      × Allocates cap pending g r g'
allocate-Allocates cap usage payload pending g few k = elim (Bool-cases (length payload == 0)) [
  | inl nothing ↦
      (none, g, rw nothing refl, record { keeps = k; same_frame = refl; fewer = omega arith })
  | inr some_bytes ↦
      let (r, g', e, done) =
        allocate_from-Allocates cap (length g.entries + 2) usage payload pending g (omega arith)
          (ground arith) few k in
      (r, g', rw some_bytes e, done)
]
