-- ===== src/DisplayList/Buffer/Laws.antt =====
-- What the storage of packages/ui/src/display_list/display_list.cpp keeps, and what an append does.
use haxeon.Prelude.{
  ℕ, zero, suc, ◌+◌, ◌-◌, ◌*◌, ◌%◌, ◌^◌, ◌≤◌, ◌<◌, ◌≡◌, refl, ap, ◌∙◌, ◌↔◌, List, [], ◌++◌, Option,
  some, none, arith, take, drop, length, length-append, length-drop, length-take, take-append,
  take-all, take-append_left, length-replicate, append_assoc,
}
use mathlib.Core.Option
use native.Mathlib.Nat.{pow-suc, pow-zero}
use haxeon.DisplayList.Buffer.{
  DisplayList, size_max, resize, reset, grow, reserve_record, write_at, store, append, contents,
}

-- The bytes in use lie in the vector, whose size is a `size_t`.
pub record IsValid (dl : DisplayList) : Type 0 where
  pub stored : dl.size ≤ length dl.bytes
  pub sized : length dl.bytes ≤ size_max

length-resize : (bytes : List ℕ) (n : ℕ) → length bytes ≤ n → length (resize bytes n) ≡ n
unfolding resize
length-resize bytes n h =
    rw (take-all n bytes h, length-append, length-replicate {A = ℕ} (n - length bytes) 0)
      (omega arith)

take-resize :
    (bytes : List ℕ) (n k : ℕ)
    → length bytes ≤ n
    → k ≤ length bytes
    → take k (resize bytes n) ≡ take k bytes
unfolding resize
take-resize bytes n k h p = rw (take-all n bytes h) (take-append_left k bytes _ p)

double_pow : (c f : ℕ) → c * 2 * 2 ^ f ≡ c * 2 ^ suc f
double_pow c f = rw pow-suc (grind arith)

-- Within the fuel the loop reaches the required capacity, and stays a `size_t`.
grow_bounds :
    (fuel capacity required : ℕ)
    → required ≤ capacity * 2 ^ fuel
    → capacity ≤ size_max
    → required ≤ size_max
    → let grown = grow fuel capacity required in (required ≤ grown) × (grown ≤ size_max)
unfolding grow
grow_bounds zero c r h cs rs = omega (arith, pow-zero 2)
grow_bounds (suc f) c r h cs rs = ground (arith, double_pow c f, grow_bounds f (c * 2) r)

pub take-write_at :
    (bytes : List ℕ) (offset : ℕ) (source : List ℕ)
    → offset + length source ≤ length bytes
    → take (offset + length source) (write_at bytes offset source) ≡ take offset bytes ++ source
unfolding write_at
take-write_at bytes offset source h =
    let e : length (take offset bytes ++ source) ≡ offset + length source =
      omega
        (arith, length-append (take offset bytes) source, length-take offset bytes (omega arith)) in
    rw (← append_assoc (take offset bytes) source _)
      (rw e at (take-append (take offset bytes ++ source) (drop (offset + length source) bytes)))

length-write_at :
    (bytes : List ℕ) (offset : ℕ) (source : List ℕ)
    → offset + length source ≤ length bytes
    → length (write_at bytes offset source) ≡ length bytes
unfolding write_at
length-write_at bytes offset source h = omega (
  arith,
  length-append (take offset bytes) (source ++ drop (offset + length source) bytes),
  length-append source (drop (offset + length source) bytes),
  length-take offset bytes (omega arith),
  length-drop (offset + length source) bytes,
)

-- A reserve that succeeds makes room, and keeps the bytes in use.
reserve_record-room :
    (dl dl' : DisplayList) (n : ℕ)
    → IsValid dl
    → reserve_record dl n ≡ some dl'
    → (dl'.size ≡ dl.size)
      × (dl.size + n ≤ length dl'.bytes)
      × (length dl'.bytes ≤ size_max)
      × (dl'.command_count ≡ dl.command_count)
      × (contents dl' ≡ contents dl)
unfolding reserve_record contents
reserve_record-room dl dl' n v e =
    let size = dl.size in
    let full = length dl.bytes in
    let from_none = grow 64 64 (size + n) in
    let from_full = grow 64 full (size + n) in
    ground (
      arith,
      grow_bounds 64 64 (size + n),
      grow_bounds 64 full (size + n),
      length-resize dl.bytes from_none,
      length-resize dl.bytes from_full,
      take-resize dl.bytes from_none size,
      take-resize dl.bytes from_full size,
    )

map-eq-some :
    (f : DisplayList → DisplayList) (o : Option DisplayList) (b : DisplayList)
    → Option.map f o ≡ some b
    → (a : DisplayList) × (o ≡ some a) × (b ≡ f a)
map-eq-some f none b e = cc
map-eq-some f (some a) b e = (a, refl, cc)

contents-store :
    (roomy : DisplayList) (source : List ℕ)
    → roomy.size + length source ≤ length roomy.bytes
    → length roomy.bytes ≤ size_max
    → (contents (store source roomy) ≡ contents roomy ++ source) × IsValid (store source roomy)
unfolding store contents
contents-store roomy source room sized =
    let n = length-write_at roomy.bytes roomy.size source room in
    (
      take-write_at roomy.bytes roomy.size source room,
      record { stored = rw n room; sized = rw n sized },
    )

counted :
    (roomy : DisplayList) (source : List ℕ)
    → (store source roomy).command_count ≡ (roomy.command_count + 1) % 2 ^ 32
unfolding store
counted roomy source = refl

-- An append that succeeds puts the record behind the bytes in use, changes none of those, counts
-- one command more (modulo 2 ^ 32), and keeps the storage valid.
pub append_lem :
    (dl dl' : DisplayList) (source : List ℕ)
    → IsValid dl
    → append dl source ≡ some dl'
    → (contents dl' ≡ contents dl ++ source)
      × (dl'.command_count ≡ (dl.command_count + 1) % 2 ^ 32)
      × IsValid dl'
unfolding append
append_lem dl dl' source v e =
    let (roomy, made, stored) =
      map-eq-some (store source) (reserve_record dl (length source)) dl' e in
    let (size, room, sized, count, kept) = reserve_record-room dl roomy (length source) v made in
    let (whole, valid) = contents-store roomy source (rw size room) sized in
    rw stored
      (rw kept at whole, counted roomy source ∙ ap (λ (c : ℕ). (c + 1) % 2 ^ 32) count, valid)

-- An append fails exactly where the size of the list would pass a `size_t`.
append-fails :
    (dl : DisplayList) (source : List ℕ)
    → IsValid dl
    → (append dl source ≡ none) ↔ (size_max < dl.size + length source)
unfolding append reserve_record
append-fails dl source v = (λ e. ground arith, λ h. ground arith)

-- A reset list is empty, and keeps its storage.
reset_lem :
    (dl : DisplayList)
    → IsValid dl
    → (contents (reset dl) ≡ []) × IsValid (reset dl) × ((reset dl).bytes ≡ dl.bytes)
unfolding reset contents
reset_lem dl v = (refl, omega arith, refl)
