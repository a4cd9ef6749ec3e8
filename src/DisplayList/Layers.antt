-- ===== src/DisplayList/Layers.antt =====
-- The struct values that the methods of `DisplayList` write (packages/ui/src/display_list), as
-- fields, and reading them back.
use haxeon.Prelude.{
  ℕ, zero, suc, ◌+◌, ◌*◌, ◌≡◌, refl, ap, ◌∙◌, List, [], ◌∷◌, ◌++◌, arith, take, drop, length,
  append_assoc, append-nil, length-append, take-append, drop-append,
}
use haxeon.DisplayList.Effects.{
  CustomEffectDescriptor, EffectOpCommand, MaskDescriptor, LayerBase, read_base, read_mask,
  read_custom, read_operation,
}
use haxeon.DisplayList.Commands.{read_operations}

-- `std::array` has a fixed number of elements.
pub record IsSized (op : EffectOpCommand) : Type 0 where
  pub matrix : length op.color_matrix ≡ 20
  pub overflow : length op.custom.ink_overflow ≡ 4
  pub parameters : length op.custom.parameters ≡ 20

abbrev pub AllSized : List EffectOpCommand → Type 0
AllSized [] = Unit {0}
AllSized (op ∷ ops) = IsSized op × AllSized ops

unfoldable pub custom_words : CustomEffectDescriptor → List ℕ
custom_words c =
    c.registration_id
    ∷ c.parameter_count
    ∷ c.pass_count
    ∷ c.sampling_inputs
    ∷ (c.ink_overflow ++ c.parameters)

unfoldable pub operation_words : EffectOpCommand → List ℕ
unfolding custom_words
operation_words op = op.kind ∷ (op.color_matrix ++ custom_words op.custom)

unfoldable pub operations_words : List EffectOpCommand → List ℕ
operations_words [] = []
operations_words (op ∷ ops) = operation_words op ++ operations_words ops

unfoldable pub mask_words : MaskDescriptor → List ℕ
mask_words m = m.kind ∷ m.image ∷ m.values

unfoldable pub base_words : LayerBase → List ℕ
base_words v = v.opacity ∷ v.mode ∷ v.x ∷ v.y ∷ v.width ∷ v.height ∷ v.flags ∷ []

-- A version 2 layer record, with the operations that stand behind it.
unfoldable pub layer_words :
    LayerBase → MaskDescriptor → List EffectOpCommand → List EffectOpCommand → List ℕ
unfolding base_words mask_words
layer_words v mask foreground backdrop =
    base_words v
    ++ (mask_words mask
        ++ (length foreground
            ∷ length backdrop
            ∷ (operations_words foreground ++ operations_words backdrop)))

-- A prefix of known length, taken and dropped.
take-sized : {n : ℕ} (xs ys : List ℕ) → length xs ≡ n → take n (xs ++ ys) ≡ xs
take-sized xs ys e = rw (← e) (take-append xs ys)

drop-sized : {n : ℕ} (xs ys : List ℕ) → length xs ≡ n → drop n (xs ++ ys) ≡ ys
drop-sized xs ys e = rw (← e) (drop-append xs ys)

-- The two fields behind a prefix of known length.
drop-two :
    (n : ℕ) (xs : List ℕ) (a b : ℕ) (ys : List ℕ)
    → length xs ≡ n
    → drop (suc (suc n)) (xs ++ (a ∷ b ∷ ys)) ≡ ys
drop-two zero [] a b ys e = refl
drop-two zero (x ∷ xs) a b ys e = absurd (omega arith)
drop-two (suc n) [] a b ys e = absurd (omega arith)
drop-two (suc n) (x ∷ xs) a b ys e = drop-two n xs a b ys (omega arith)

length-operation_words : (op : EffectOpCommand) → IsSized op → length (operation_words op) ≡ 49
unfolding operation_words
length-operation_words op s = omega (
  arith,
  length-append op.color_matrix (custom_words op.custom),
  length-append op.custom.ink_overflow op.custom.parameters,
  s.matrix,
  s.overflow,
  s.parameters,
)

read-custom_words :
    (c : CustomEffectDescriptor) (rest : List ℕ)
    → length c.ink_overflow ≡ 4
    → length c.parameters ≡ 20
    → read_custom (custom_words c ++ rest) ≡ c
unfolding custom_words
read-custom_words c rest e4 e20 = λ i. record {
  registration_id = c.registration_id;
  parameter_count = c.parameter_count;
  pass_count = c.pass_count;
  sampling_inputs = c.sampling_inputs;
  ink_overflow = overflow i;
  parameters = parameters i;
}
  where
    overflow : take 4 ((c.ink_overflow ++ c.parameters) ++ rest) ≡ c.ink_overflow
    overflow =
        rw (append_assoc c.ink_overflow c.parameters rest)
          (take-sized c.ink_overflow (c.parameters ++ rest) e4)

    parameters : take 20 (drop 4 ((c.ink_overflow ++ c.parameters) ++ rest)) ≡ c.parameters
    parameters =
        rw
          (
            append_assoc c.ink_overflow c.parameters rest,
            drop-sized c.ink_overflow (c.parameters ++ rest) e4,
          )
          (take-sized c.parameters rest e20)

read-operation_words :
    (op : EffectOpCommand) (rest : List ℕ)
    → IsSized op
    → read_operation (operation_words op ++ rest) ≡ op
unfolding operation_words
read-operation_words op rest s =
    λ i. record { kind = op.kind; color_matrix = matrix i; custom = custom i }
  where
    tail : List ℕ
    tail = custom_words op.custom ++ rest

    matrix : take 20 (op.color_matrix ++ custom_words op.custom ++ rest) ≡ op.color_matrix
    matrix =
        rw (append_assoc op.color_matrix (custom_words op.custom) rest)
          (take-sized op.color_matrix tail s.matrix)

    custom : read_custom (drop 20 (op.color_matrix ++ custom_words op.custom ++ rest)) ≡ op.custom
    custom =
        rw
          (
            append_assoc op.color_matrix (custom_words op.custom) rest,
            drop-sized op.color_matrix tail s.matrix,
          )
          (read-custom_words op.custom rest s.overflow s.parameters)

read-operations_words :
    (ops : List EffectOpCommand) (rest : List ℕ)
    → AllSized ops
    → read_operations (length ops) (operations_words ops ++ rest) ≡ ops
unfolding read_operations operations_words
read-operations_words [] rest s = refl
read-operations_words (op ∷ ops) rest s = rw (
  append_assoc (operation_words op) (operations_words ops) rest,
  read-operation_words op (operations_words ops ++ rest) s.0,
  drop-sized (operation_words op) (operations_words ops ++ rest) (length-operation_words op s.0),
  read-operations_words ops rest s.1,
)

length-operations_words :
    (ops : List EffectOpCommand) → AllSized ops → length (operations_words ops) ≡ 49 * length ops
unfolding operations_words
length-operations_words [] s = omega arith
length-operations_words (op ∷ ops) s = omega (
  arith,
  length-append (operation_words op) (operations_words ops),
  length-operation_words op s.0,
  length-operations_words ops s.1,
)

operations_words-append :
    (xs ys : List EffectOpCommand)
    → operations_words xs ++ operations_words ys ≡ operations_words (xs ++ ys)
unfolding operations_words
operations_words-append [] ys = refl
operations_words-append (x ∷ xs) ys =
    append_assoc (operation_words x) (operations_words xs) (operations_words ys)
    ∙ ap (λ t. operation_words x ++ t) (operations_words-append xs ys)

AllSized-append : (xs ys : List EffectOpCommand) → AllSized xs → AllSized ys → AllSized (xs ++ ys)
AllSized-append [] ys hx hy = hy
AllSized-append (x ∷ xs) ys hx hy = (hx.0, AllSized-append xs ys hx.1 hy)

module _ (v : LayerBase) (mask : MaskDescriptor) (fg bg : List EffectOpCommand)
    (sized : length mask.values ≡ 8) (hf : AllSized fg) (hb : AllSized bg) where
  tail : List ℕ
  tail = length fg ∷ length bg ∷ (operations_words fg ++ operations_words bg)

  mask_values : take 8 (mask.values ++ tail) ≡ mask.values
  mask_values = take-sized mask.values tail sized

  -- The fixed part of a layer record is read back, and behind it every operation in order.
  pub read-layer_words :
      let w = layer_words v mask fg bg in
      (read_base w ≡ v)
      × (read_mask (drop 7 w) ≡ mask)
      × (drop 17 w ≡ length fg ∷ length bg ∷ operations_words (fg ++ bg))
      × (read_operations (length fg + length bg) (drop 19 w) ≡ fg ++ bg)
      × (length w ≡ 19 + 49 * (length fg + length bg))
  unfolding layer_words tail
  read-layer_words = (
    refl,
    λ i. record { kind = mask.kind; image = mask.image; values = mask_values i },
    rw (drop-sized mask.values tail sized, operations_words-append fg bg),
    rw
        (
          drop-two 8 mask.values (length fg) (length bg) _ sized,
          operations_words-append fg bg,
          ← length-append fg bg,
          ← append-nil (operations_words (fg ++ bg)),
        )
        (read-operations_words (fg ++ bg) [] (AllSized-append fg bg hf hb)),
    omega (
      arith,
      length-append mask.values tail,
      length-append (operations_words fg) (operations_words bg),
      length-operations_words fg hf,
      length-operations_words bg hb,
      sized,
    ),
  )
