-- ===== src/RetainedGeometry/Cache.antt =====
-- `RetainedGeometry` of packages/ui/src/render/retained_geometry.h: its pages and its entries. A handle of
-- the GPU library is its `id`; a key is the list of its fields. `upload` and the destructor, which only
-- call that library, are left out, with what they change: the buffers and `dirty`. The entries stand in
-- the order in which the map goes through them, with new ones in front: which of the oldest goes first
-- is open there.
use haxeon.Prelude.{
  ℕ, zero, suc, ◌+◌, ◌*◌, Bool, true, false, ◌&&◌, List, [], ◌∷◌, ◌++◌, Option, none, some, ◌==◌,
  leb, if◌then◌else◌, length, get_elem?, set, take, drop, replicate, min,
}
use haxeon.RetainedGeometry.{Range, page_bytes, take_range, release_range}

-- `Range` with its page.
pub record Slice : Type 0 where
  pub page : ℕ
  pub range : Range

pub record GeometryMesh : Type 0 where
  pub pipeline : ℕ
  pub sampler : ℕ
  pub image : ℕ
  pub atlas : ℕ × ℕ
  pub stride : ℕ
  pub vertices : List ℕ
  pub vertex_uniforms : List ℕ
  pub fragment_uniforms : List ℕ
  pub indices : List ℕ

pub record Mesh : Type 0 where
  pub pipeline : ℕ
  pub sampler : ℕ
  pub image : ℕ
  pub atlas : ℕ × ℕ
  pub stride : ℕ
  pub count : ℕ
  pub vertices : Slice
  pub indices : Slice
  pub vertex_uniforms : List ℕ
  pub fragment_uniforms : List ℕ

-- `commands` and `images` are left empty here and filled by the renderer.
pub record Entry : Type 0 where
  pub meshes : List Mesh
  pub used : ℕ
  pub first_frame : ℕ

pub record Page : Type 0 where
  pub usage : ℕ
  pub bytes : List ℕ
  pub free : List Range

abbrev pub GeometryKey : Type 0
GeometryKey = List ℕ

abbrev pub same_key : GeometryKey → GeometryKey → Bool
same_key [] [] = true
same_key (x ∷ xs) (y ∷ ys) = x == y && same_key xs ys
same_key _ _ = false

pub record Cache : Type 0 where
  pub budget : ℕ
  pub frame : ℕ
  pub full : Bool
  pub pages : List Page
  pub entries : List (GeometryKey × Entry)
  pub hits : ℕ
  pub misses : ℕ

abbrev pub new_cache : ℕ → Cache
new_cache budget = record {
  budget = budget;
  frame = 0;
  full = false;
  pages = [];
  entries = [];
  hits = 0;
  misses = 0;
}

abbrev pub limit : ℕ → Cache → Cache
limit budget g = record g { budget = min g.budget budget }

abbrev pub begin : ℕ → Cache → Cache
begin frame g = record g { frame = frame; full = false; hits = 0; misses = 0 }

-- The range goes back to its page.
unfoldable pub release_slice : Slice → List Page → List Page
release_slice s pages = elim (get_elem? pages s.page) [
  | none ↦ pages
  | some p ↦ set pages s.page (record p { free = release_range s.range p.free })
]

unfoldable pub release_slices : List Slice → List Page → List Page
release_slices [] pages = pages
release_slices (s ∷ slices) pages = release_slices slices (release_slice s pages)

-- The ranges of an entry, in the order in which they are released.
abbrev pub mesh_slices : List Mesh → List Slice
mesh_slices [] = []
mesh_slices (m ∷ meshes) = m.vertices ∷ m.indices ∷ mesh_slices meshes

-- The entry that was used longest ago, if it was not used in this frame, and the others.
abbrev pub older :
    GeometryKey × Entry
    → Option ((GeometryKey × Entry) × List (GeometryKey × Entry))
    → List (GeometryKey × Entry)
    → (GeometryKey × Entry) × List (GeometryKey × Entry)
older e none rest = (e, rest)
older e (some (f, others)) rest = if leb (e.1).used (f.1).used then (e, rest) else (f, e ∷ others)

abbrev pub kept_back :
    GeometryKey × Entry
    → Option ((GeometryKey × Entry) × List (GeometryKey × Entry))
    → Option ((GeometryKey × Entry) × List (GeometryKey × Entry))
kept_back e none = none
kept_back e (some (f, others)) = some (f, e ∷ others)

unfoldable pub oldest :
    ℕ → List (GeometryKey × Entry) → Option ((GeometryKey × Entry) × List (GeometryKey × Entry))
oldest frame [] = none
oldest frame (e ∷ entries) =
    let later = oldest frame entries in
    if (e.1).used == frame then kept_back e later else some (older e later entries)

unfoldable pub evict : Cache → Option Cache
unfolding release_slices oldest
evict g = elim (oldest g.frame g.entries) [
  | none ↦ none
  | some ((key, e), others) ↦
      some (record g { pages = release_slices (mesh_slices e.meshes) g.pages; entries = others })
]

-- `std::memcpy(page.bytes.data() + offset, data, size)`
abbrev pub store : ℕ → List ℕ → List ℕ → List ℕ
store offset payload bytes = take offset bytes ++ payload ++ drop (offset + length payload) bytes

abbrev pub filled : ℕ → List ℕ → Page → Option (Range × List Range) → Option (Slice × Page)
filled index payload p none = none
filled index payload p (some (range, free)) = some (
  record { page = index; range = range },
  record p { bytes = store range.offset payload p.bytes; free = free },
)

abbrev pub passed_over : Page → Option (Slice × List Page) → Option (Slice × List Page)
passed_over p none = none
passed_over p (some (s, pages)) = some (s, p ∷ pages)

-- The first page of the usage with room, from the page `index` on.
unfoldable pub place_in : ℕ → ℕ → List ℕ → List Page → Option (Slice × List Page)
place_in index usage payload [] = none
place_in index usage payload (p ∷ pages) =
    let later = place_in (index + 1) usage payload pages in
    elim (if p.usage == usage
      then filled index payload p (take_range (length payload) p.free)
      else none) [ some (s, p') ↦ some (s, p' ∷ pages) | none ↦ passed_over p later ]

abbrev pub size_bytes : Cache → ℕ
size_bytes g = length g.pages * page_bytes

abbrev pub new_page : ℕ → Page
new_page usage = record {
  usage = usage;
  bytes = replicate page_bytes 0;
  free = record { offset = 0; size = page_bytes } ∷ [];
}

-- The loop of `allocate`; a loop that does not end is `none`, and a range that is not given is `none`
-- inside.
unfoldable pub allocate_from : ℕ → ℕ → List ℕ → Cache → Option (Option Slice × Cache)
unfolding evict
allocate_from zero usage payload g = none
allocate_from (suc fuel) usage payload g =
    let with_page =
      allocate_from fuel usage payload (record g { pages = g.pages ++ new_page usage ∷ [] }) in
    elim (place_in 0 usage payload g.pages) [
      | some (s, pages) ↦ some (some s, record g { pages = pages })
      | none ↦ if leb (size_bytes g + page_bytes) g.budget then with_page else elim (evict g) [
        | none ↦ some (none, record g { full = true })
        | some g' ↦ allocate_from fuel usage payload g'
      ]
    ]

abbrev pub allocate : ℕ → List ℕ → Cache → Option (Option Slice × Cache)
allocate usage payload g =
    if length payload == 0
    then some (none, g)
    else allocate_from (length g.entries + 2) usage payload g
