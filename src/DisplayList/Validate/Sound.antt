-- ===== src/DisplayList/Validate/Sound.antt =====
-- `validate_display_list` of packages/ui/src/display_list/display_list.cpp against `Spec`.
use mathlib.Core.List.{flatten}
use haxeon.Prelude.{
  ℕ, zero, suc, ◌+◌, ◌%◌, ◌≤◌, ◌<◌, ◌≡◌, ◌≢◌, refl, sym, ap, subst, ◌∙◌, ◌⊎◌, inl, inr, true, List,
  [], ◌∷◌, ◌++◌, Option, none, some, Outcome, ok, err, >>=-eq-ok, Outcome-cases, arith, take, drop,
  length, length-append, length-drop, length-take, take-append_drop, take-append, append_assoc,
}
use haxeon.Float32.{Arith}
use haxeon.DisplayList.Wire.{Header, Opcode, header_size, read_header, fields, opcode_of}
use haxeon.DisplayList.Commands.{
  Message, unclosed_state, unclosed_layer, Depths, check_command, check_opcode,
}
use haxeon.DisplayList.Validate.{
  Verdict, accepted, rejected, unfinished, check_header, finish, outset, check_record,
  validate_from,
}
use haxeon.DisplayList.Validate.Spec.{
  Allowed, behind, IsRecord, Stream, well_formed, check_opcode_sound, check_opcode_complete,
}

pub read_header-append :
    (r s : List ℕ) → header_size ≤ length r → read_header (r ++ s) ≡ read_header r
unfolding read_header
read_header-append (a ∷ b ∷ c ∷ d ∷ e ∷ f ∷ g ∷ h ∷ r) s p = refl
read_header-append r s p = absurd (omega arith)

read_header-take :
    (n : ℕ) (rest : List ℕ)
    → header_size ≤ n
    → n ≤ length rest
    → read_header (take n rest) ≡ read_header rest
read_header-take n rest p q =
    rw (take-append_drop n rest) at
      (sym (read_header-append (take n rest) (drop n rest) (rw (length-take n rest q) p)))

Depths-cases : (d : Depths) → (d ≡ outset) ⊎ (d.states ≢ 0) ⊎ ((d.states ≡ 0) × (d.layers ≢ 0))
Depths-cases d = ground arith

pub finish_closed : (offset index : ℕ) (d : Depths) → d ≡ outset → finish offset index d ≡ accepted
unfolding finish
finish_closed offset index d e = ground arith

finish_states :
    (offset index : ℕ) (d : Depths)
    → d.states ≢ 0
    → finish offset index d
      ≡ rejected (record { offset = offset; command_index = index; message = unclosed_state })
unfolding finish
finish_states offset index d e = ground arith

finish_layers :
    (offset index : ℕ) (d : Depths)
    → d.states ≡ 0
    → d.layers ≢ 0
    → finish offset index d
      ≡ rejected (record { offset = offset; command_index = index; message = unclosed_layer })
unfolding finish
finish_layers offset index d e f = ground arith

module _ (fp : Arith) where
  check_header_sound :
      (rest : List ℕ) (h : Header)
      → check_header rest ≡ ok h
      → (h ≡ read_header rest)
        × (header_size ≤ h.size)
        × (h.size ≤ length rest)
        × (h.size % 4 ≡ 0)
        × ((h.version ≡ 1) ⊎ ((h.opcode ≡ 11) × (h.version ≡ 2)))
  unfolding check_header
  check_header_sound rest h e =
      (ground arith, ground arith, ground arith, ground arith, ground arith)

  check_command_sound :
      (k : Option Opcode) (h : Header) (w : List ℕ) (d e : Depths)
      → check_command fp k h w d ≡ ok e
      → (o : Opcode) × (k ≡ some o) × (check_opcode fp o h w d ≡ ok e)
  unfolding check_command
  check_command_sound none h w d e p = cc
  check_command_sound (some o) h w d e p = (o, refl, p)

  -- The header in front of the bytes makes the bytes that it counts one record.
  front-IsRecord :
      (o : Opcode) (rest : List ℕ) (h : Header)
      → h ≡ read_header rest
      → header_size ≤ h.size
      → h.size ≤ length rest
      → h.size % 4 ≡ 0
      → (h.version ≡ 1) ⊎ ((h.opcode ≡ 11) × (h.version ≡ 2))
      → opcode_of h.opcode ≡ some o
      → well_formed fp o h (fields (take h.size rest)) ≡ true
      → IsRecord fp o (take h.size rest)
  front-IsRecord o rest h same low high aligned version known formed =
      let e : read_header (take h.size rest) ≡ h =
        read_header-take h.size rest low high ∙ sym same in
      let n : length (take h.size rest) ≡ h.size = length-take h.size rest high in
      record {
        known = rw e known;
        version = rw e version;
        size = rw (e, n);
        long = rw n low;
        aligned = rw n aligned;
        formed = rw e formed;
      }

  pair_of_ok :
      (n n' : ℕ) (e e' : Depths)
      → ◌≡◌ {A = Outcome Message (ℕ × Depths)} (ok (n, e)) (ok (n', e'))
      → (n ≡ n') × (e ≡ e')
  pair_of_ok n n' e e' p = (cc, cc)

  -- What one round accepts is a record in front of the bytes, at a depth that allows it.
  check_record_sound :
      (rest : List ℕ) (d : Depths) (n : ℕ) (e : Depths)
      → check_record fp rest d ≡ ok (n, e)
      → (o : Opcode) × IsRecord fp o (take n rest)
        × Allowed o d
        × (e ≡ behind o d)
        × (header_size ≤ n)
        × (n ≤ length rest)
  unfolding check_record
  check_record_sound rest d n e p =
      let (h, ph, q) = >>=-eq-ok (check_header rest) _ _ p in
      let (e', pe, r) = >>=-eq-ok (check_command fp (opcode_of h.opcode) h _ d) _ _ q in
      let (o, known, run) = check_command_sound _ h _ d e' pe in
      let (formed, allowed, after) = check_opcode_sound fp o h _ d e' run in
      let (same, low, high, aligned, version) = check_header_sound rest h ph in
      let (sizes, depths) = pair_of_ok h.size n e' e r in
      (
        o,
        rw sizes at (front-IsRecord o rest h same low high aligned version known formed),
        allowed,
        sym depths ∙ after,
        rw sizes at low,
        rw sizes at high,
      )

  check_header_complete :
      (o : Opcode) (r rest : List ℕ)
      → IsRecord fp o r
      → check_header (r ++ rest) ≡ ok (read_header r)
  unfolding check_header
  check_header_complete o r rest v =
      ground (arith, length-append r rest, read_header-append r rest v.long)

  -- A record that the depth allows is taken, and no byte behind it is looked at.
  pub check_record_complete :
      (o : Opcode) (r rest : List ℕ) (d : Depths)
      → IsRecord fp o r
      → Allowed o d
      → check_record fp (r ++ rest) d ≡ ok (length r, behind o d)
  unfolding check_record check_command read_header fields
  check_record_complete o r rest d v a = rw (
    check_header_complete o r rest v,
    v.size,
    take-append r rest,
    v.known,
    check_opcode_complete fp o (read_header r) (fields r) d v.formed a,
  )

  -- Why the stream is refused at these depths, where `tail` is what is left.
  abbrev pub Fault : List ℕ → Depths → Message → Type 0
  Fault [] d m =
      ((d.states ≢ 0) × (m ≡ unclosed_state))
      ⊎ ((d.states ≡ 0) × (d.layers ≢ 0) × (m ≡ unclosed_layer))
  Fault (b ∷ bs) d m =
      (check_record fp (b ∷ bs) d ≡ err m)
      × ((o : Opcode) (r rest : List ℕ) → r ++ rest ≡ b ∷ bs → IsRecord fp o r → Allowed o d → ⊥)

  -- What a verdict says of the bytes `rest` that start at `offset`, `index` records in.
  abbrev pub Explains : List ℕ → ℕ → ℕ → Depths → Verdict → Type 0
  Explains rest offset index d accepted =
      (rs : List (List ℕ)) × (flatten rs ≡ rest) × Stream fp rs d outset
  Explains rest offset index d (rejected e) =
      (rs : List (List ℕ)) × (tail : List ℕ) × (d' : Depths) × (flatten rs ++ tail ≡ rest)
      × Stream fp rs d d'
      × (e.offset ≡ offset + length (flatten rs))
      × (e.command_index ≡ index + length rs)
      × Fault tail d' e.message
  Explains rest offset index d unfinished = ⊥

  finish-Explains :
      (offset index : ℕ) (d : Depths) → Explains [] offset index d (finish offset index d)
  unfolding flatten
  finish-Explains offset index d = elim (Depths-cases d) [
    | inl e ↦ rw (finish_closed offset index d e) ([], refl, e)
    | inr (inl e) ↦
        rw (finish_states offset index d e)
          ([], [], d, refl, refl, omega arith, omega arith, inl (e, refl))
    | inr (inr e) ↦
        rw (finish_layers offset index d e.0 e.1)
          ([], [], d, refl, refl, omega arith, omega arith, inr (e.0, e.1, refl))
  ]

  -- One record more in front of what a verdict explains.
  Explains-next :
      (v : Verdict) (o : Opcode) (r rest : List ℕ) (offset index : ℕ) (d : Depths)
      → IsRecord fp o r
      → Allowed o d
      → Explains rest (offset + length r) (index + 1) (behind o d) v
      → Explains (r ++ rest) offset index d v
  unfolding flatten
  Explains-next accepted o r rest offset index d v a (rs, whole, stream) =
      (r ∷ rs, ap (λ t. r ++ t) whole, (o, v, a, stream))
  Explains-next (rejected e) o r rest offset index d v a (rs, tail, d', whole, stream, at, nth, f) =
      (
        r ∷ rs,
        tail,
        d',
        append_assoc r (flatten rs) tail ∙ ap (λ t. r ++ t) whole,
        (o, v, a, stream),
        omega (arith, length-append r (flatten rs)),
        omega arith,
        f,
      )
  Explains-next unfinished o r rest offset index d v a h = h

  refused-Fault :
      (b : ℕ) (bs : List ℕ) (d : Depths) (m : Message)
      → check_record fp (b ∷ bs) d ≡ err m
      → Fault (b ∷ bs) d m
  refused-Fault b bs d m e =
      (e, λ o r rest whole v a. cc (rw whole at (check_record_complete o r rest d v a)))

  -- With more fuel than bytes the loop ends, and its verdict is explained.
  pub validate_from-Explains :
      (fuel : ℕ) (rest : List ℕ) (offset index : ℕ) (d : Depths)
      → length rest < fuel
      → Explains rest offset index d (validate_from fp fuel rest offset index d)
  unfolding validate_from flatten
  validate_from-Explains zero rest offset index d h = absurd (omega arith)
  validate_from-Explains (suc fuel) [] offset index d h = finish-Explains offset index d
  validate_from-Explains (suc fuel) (b ∷ bs) offset index d h =
      elim (Outcome-cases (check_record fp (b ∷ bs) d)) [
        | inr (m, e) ↦
            rw (e, validate_from)
              ([], b ∷ bs, d, refl, refl, omega arith, omega arith, refused-Fault b bs d m e)
        | inl ((n, d'), e) ↦
            let (o, v, a, next, low, high) = check_record_sound (b ∷ bs) d n d' e in
            let width : length (take n (b ∷ bs)) ≡ n = length-take n (b ∷ bs) high in
            let rest' = drop n (b ∷ bs) in
            let ih =
              validate_from-Explains fuel rest' (offset + n) (index + 1) d'
                (omega (arith, length-drop n (b ∷ bs))) in
            rw (e, validate_from)
              (subst
                (λ t.
                  Explains t offset index d
                    (validate_from fp fuel rest' (offset + n) (index + 1) d'))
                (take-append_drop n (b ∷ bs))
                (Explains-next _ o (take n (b ∷ bs)) rest' offset index d v a
                  (rw (width, ← next) ih)))
      ]
