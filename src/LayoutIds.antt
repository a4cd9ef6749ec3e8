-- ===== src/LayoutIds.antt =====
-- packages/ui/src/layout/layout_id_index.h: `LayoutIdIndex`, a hash table with linear probing. The slots
-- in use are a power of two, so that `& (active_ - 1)` is `% active_`. A loop that does not end is
-- `none`; its fuel is the slots in use.
pub mod Found
pub mod Insert
pub mod Walk
pub mod Holds
pub mod Refine
use Prim.Native.Nat.{bit_xor}
use haxeon.Prelude.{
  ℕ, zero, suc, ◌+◌, ◌-◌, ◌*◌, ◌/◌, ◌%◌, ◌^◌, Bool, true, false, ◌||◌, List, [], ◌∷◌, ◌++◌, Option,
  none, some, ◌==◌, ltb, if◌then◌else◌, get_or, set, drop, replicate,
}

pub record Entry : Type 0 where
  pub id : ℕ
  pub index : ℕ

pub record LayoutIdIndex : Type 0 where
  pub entries : List Entry
  pub active : ℕ

abbrev pub blank_entry : Entry
blank_entry = record { id = 0; index = 0 }

abbrev pub missing : ℕ
missing = 2 ^ 64 - 1

-- `while (capacity / 2 < count) capacity *= 2`, on a `size_t`.
unfoldable pub capacity_for : ℕ → ℕ → ℕ → ℕ
capacity_for zero capacity count = capacity
capacity_for (suc fuel) capacity count =
    let larger = capacity_for fuel (capacity * 2 % 2 ^ 64) count in
    if ltb (capacity / 2) count then larger else capacity

unfoldable pub reset : ℕ → LayoutIdIndex → LayoutIdIndex
reset count t =
    let capacity = capacity_for 64 8 count in
    if count == 0 then record t { active = 0 } else record {
      entries = replicate capacity blank_entry ++ drop capacity t.entries;
      active = capacity;
    }

unfoldable pub bucket : ℕ → ℕ → ℕ
bucket active id =
    let low = bit_xor id (id / 2 ^ 33) in
    let mixed = low * 0xff51afd7ed558ccd % 2 ^ 64 in bit_xor mixed (mixed / 2 ^ 33) % active

abbrev pub entry_at : List Entry → ℕ → Entry
entry_at es slot = get_or es slot blank_entry

-- The loop of `insert`: the first slot that is empty or holds the id.
unfoldable pub walk : ℕ → ℕ → List Entry → ℕ → ℕ → Option ℕ
walk zero active es id slot = none
walk (suc fuel) active es id slot =
    let later = walk fuel active es id ((slot + 1) % active) in
    if (entry_at es slot).id == 0 || (entry_at es slot).id == id then some slot else later

unfoldable pub place : ℕ → ℕ → LayoutIdIndex → Option ℕ → Option LayoutIdIndex
place id index t none = none
place id index t (some slot) =
    if (entry_at t.entries slot).id == 0
    then some (record t { entries = set t.entries slot (record { id = id; index = index }) })
    else some t

unfoldable pub insert : ℕ → ℕ → LayoutIdIndex → Option LayoutIdIndex
unfolding place
insert id index t =
    if id == 0 || t.active == 0
    then some t
    else place id index t (walk t.active t.active t.entries id (bucket t.active id))

-- The loop of `find`.
unfoldable pub find_from : ℕ → ℕ → List Entry → ℕ → ℕ → Option ℕ
find_from zero active es id slot = none
find_from (suc fuel) active es id slot =
    let later = find_from fuel active es id ((slot + 1) % active) in
    if (entry_at es slot).id == 0
    then some missing
    else if (entry_at es slot).id == id
    then some (entry_at es slot).index
    else later

unfoldable pub find : ℕ → LayoutIdIndex → Option ℕ
find id t =
    if id == 0 || t.active == 0
    then some missing
    else find_from t.active t.active t.entries id (bucket t.active id)

-- One insertion after the other.
unfoldable pub insert_all : List (ℕ × ℕ) → LayoutIdIndex → Option LayoutIdIndex
insert_all [] t = some t
insert_all ((id, index) ∷ rest) t = elim (insert id index t) [
  | none ↦ none
  | some t' ↦ insert_all rest t'
]
