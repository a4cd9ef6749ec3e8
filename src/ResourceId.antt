-- ===== src/ResourceId.antt =====
-- Resource handles: `ResourceKind`, `make_resource_id` and `is_resource_id` of
-- packages/ui/src/display_list/display_list.h and display_list.cpp. A `ResourceId` is its `value`.
use haxeon.Prelude.{
  ℕ, ◌+◌, ◌*◌, ◌/◌, ◌%◌, ◌^◌, ◌≤◌, ◌<◌, ◌≡◌, Bool, true, false, ◌&&◌, ◌||◌, not, arith, ltb, ◌==◌,
  if◌then◌else◌,
}

pub data ResourceKind : Type 0 where
  path image text_layout render_target paint font_collection : ResourceKind

-- The numbers of the enum.
abbrev pub kind_code : ResourceKind → ℕ
kind_code path = 1
kind_code image = 2
kind_code text_layout = 3
kind_code render_target = 4
kind_code paint = 5
kind_code font_collection = 6

abbrev pub kind_shift : ℕ
kind_shift = 28

abbrev pub generation_shift : ℕ
generation_shift = 16

abbrev pub generation_mask : ℕ
generation_mask = 0xFFF

abbrev pub slot_mask : ℕ
slot_mask = 0xFFFF

-- `a >> k` and `a & m` for a mask `m` of low bits. The three parts of a handle share no bit, so
-- `|` is a sum; `0` is the empty handle.
unfoldable pub make_resource_id : ResourceKind → ℕ → ℕ → ℕ
make_resource_id kind generation slot =
    if slot == 0 || generation == 0 || ltb generation_mask generation
    then 0
    else kind_code kind * 2 ^ kind_shift + generation * 2 ^ generation_shift + slot

unfoldable pub is_resource_id : ℕ → ResourceKind → Bool
is_resource_id id kind =
    id / 2 ^ kind_shift == kind_code kind
    && not (id / 2 ^ generation_shift % (generation_mask + 1) == 0)
    && not (id % (slot_mask + 1) == 0)

-- A handle that was made passes the test of exactly its own kind, and its parts can be read back.
pub is_resource_id-make :
    (kind other : ResourceKind) (generation slot : ℕ)
    → 0 < generation
    → generation ≤ generation_mask
    → 0 < slot
    → slot ≤ slot_mask
    → let id = make_resource_id kind generation slot in
      (is_resource_id id other ≡ (kind_code other == kind_code kind))
      × (id < 2 ^ 32)
      × (id / 2 ^ generation_shift % (generation_mask + 1) ≡ generation)
      × (id % (slot_mask + 1) ≡ slot)
unfolding make_resource_id is_resource_id
is_resource_id-make kind other generation slot hg hg' hs hs' =
    (ground arith, ground arith, ground arith, ground arith)

-- Where a part is out of range the handle is empty, and the empty handle passes no test.
make_resource_id_empty :
    (kind other : ResourceKind) (generation slot : ℕ)
    → (slot == 0 || generation == 0 || ltb generation_mask generation) ≡ true
    → is_resource_id (make_resource_id kind generation slot) other ≡ false
unfolding make_resource_id is_resource_id
make_resource_id_empty kind other generation slot h = ground arith
