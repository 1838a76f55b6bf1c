-- ===== src/Tlv/Reader/Progress.antt =====
-- `ReadElement`, `Skip` and `Next` end on every valid reader, read no byte outside of its buffers,
-- and move forward.
use matter_dissector.Prelude.{
  ℕ, zero, suc, ◌+◌, ◌*◌, ◌/◌, ◌%◌, ◌^◌, ◌≤◌, ◌<◌, ◌≡◌, ◌∙◌, refl, ap, sym, Bool, true, false, not,
  some, List, [], ◌∷◌, arith, length, drop, ltb, ltb→le, get_elem?_total, inl, inr, ◌⊎◌, Bool-cases,
  get_elem?, length-drop, ◌==◌, if◌then◌else◌,
}
use matter_dissector.Encoding.{Read, read8, read16, read32, read64}
use matter_dissector.Encoding.Laws.{read8_takes, read16_takes, read32_takes, read64_takes}
use matter_dissector.Tlv.Types.{
  TlvType, not_specified, unknown_container, code, to_uint8, TlvFieldSize, size_0byte, size_1byte,
  size_2byte, size_4byte, size_8byte, is_valid_tlv_type, is_type, structure, path, array, has_code,
  end_of_container, tlv_type_has_length, get_tlv_field_size, tlv_field_size_to_bytes,
}
use matter_dissector.Tlv.Tags.{
  anonymous_tag, profile_id_not_specified, unknown_implicit_tag, vendor_profile_tag,
}
use matter_dissector.Tlv.Reader.State.{
  TlvReader, end_of_tlv, invalid_tlv_element, invalid_tlv_tag, unknown_implicit_tlv_tag, IsValid,
  element_type, control_byte_not_specified, ok, err,
}
use matter_dissector.Tlv.Reader.Element.{
  tag_sizes, tag_control_of, read_tag, tag_of, qualified, read_len_or_val, verify_element, tag_fits,
  verify_tag, verify_length, read_head, head_length, parse_head, read_control,
  get_element_head_length, after_control, read_element,
}
use matter_dissector.Tlv.Reader.Ends.{
  Ends, returns, fails, bind, if_method-Ends, Checks, passes, refuses, Checks-verify, Checks-if,
  Checks-and_then, Checks-then, mono, Checks-Ends,
}
use matter_dissector.Tlv.Reader.Advance.{
  Advance, Kept, Took, Advance-refl, Advance-trans, ensure_data-Ends, consume-Ends, read_data-Ends,
}

-- `ReadTag` takes no more than the tag's bytes.
record TookAtMost (n : ℕ) (p : List ℕ) (o : Read) : Type 0 where
  value : ℕ
  rest : List ℕ
  found : o ≡ some (value, rest)
  left : length p ≤ length rest + n

of_exact : {n v : ℕ} {p : List ℕ} {o : Read} → o ≡ some (v, drop n p) → TookAtMost n p o
of_exact {n} {v} {p} e = record {
  value = v;
  rest = drop n p;
  found = e;
  left = omega (arith, length-drop n p);
}

tag_of_total :
    {n : ℕ} {p : List ℕ} (f : ℕ → ℕ) {o : Read} → TookAtMost n p o → TookAtMost n p (tag_of f o)
tag_of_total f {o} t = record {
  value = f t.value;
  rest = t.rest;
  found = rw t.found;
  left = t.left;
}

read8_total : (p : List ℕ) → 1 ≤ length p → TookAtMost 1 p (read8 p)
read8_total p h = of_exact {n = 1} (read8_takes p h).1

read16_total : (p : List ℕ) → 2 ≤ length p → TookAtMost 2 p (read16 p)
read16_total p h = of_exact {n = 2} (read16_takes p h).1

read32_total : (p : List ℕ) → 4 ≤ length p → TookAtMost 4 p (read32 p)
read32_total p h = of_exact {n = 4} (read32_takes p h).1

read64_total : (p : List ℕ) → 8 ≤ length p → TookAtMost 8 p (read64 p)
read64_total p h = of_exact {n = 8} (read64_takes p h).1

qualified_total :
    (n : ℕ) (read_num : List ℕ → Read) (p : List ℕ)
    → ((q : List ℕ) → n ≤ length q → TookAtMost n q (read_num q))
    → 4 + n ≤ length p
    → TookAtMost (4 + n) p (qualified read_num p)
qualified_total n read_num p total h = record {
  value = tag.value;
  rest = tag.rest;
  found = rw (vendor.found, profile.found, tag.found);
  left = omega (arith, vendor.left, profile.left, tag.left);
}
  where
    vendor : TookAtMost 2 p (read16 p)
    vendor = read16_total p (omega arith)

    profile : TookAtMost 2 vendor.rest (read16 vendor.rest)
    profile = read16_total vendor.rest (omega (arith, vendor.left))

    tag :
        TookAtMost n profile.rest
          (tag_of (vendor_profile_tag vendor.value profile.value) (read_num profile.rest))
    tag = tag_of_total _ (total profile.rest (omega (arith, vendor.left, profile.left)))

implicit_total :
    {n : ℕ} {p : List ℕ} (b : Bool) {o : Read}
    → TookAtMost n p o
    → TookAtMost n p (if b then some (unknown_implicit_tag, p) else o)
implicit_total {p} true t = record {
  value = unknown_implicit_tag;
  rest = p;
  found = refl;
  left = omega arith;
}
implicit_total false t = t

read_tag_by :
    (implicit k n : ℕ) (p : List ℕ)
    → get_elem? tag_sizes k ≡ some n
    → n ≤ length p
    → TookAtMost n p (read_tag implicit (k * 2 ^ 5) p)
unfolding read_tag
read_tag_by implicit zero n p h l = record {
  value = anonymous_tag;
  rest = p;
  found = refl;
  left = omega arith;
}
read_tag_by implicit (suc zero) n p h l =
    let e : 1 ≡ n = ground arith in rw (← e) (tag_of_total _ (read8_total p (omega arith)))
read_tag_by implicit (suc (suc zero)) n p h l =
    let e : 2 ≡ n = ground arith in rw (← e) (tag_of_total _ (read16_total p (omega arith)))
read_tag_by implicit (suc (suc (suc zero))) n p h l =
    let e : 4 ≡ n = ground arith in rw (← e) (tag_of_total _ (read32_total p (omega arith)))
read_tag_by implicit (suc (suc (suc (suc zero)))) n p h l =
    let e : 2 ≡ n = ground arith in
    rw (← e) (
      implicit_total (implicit == profile_id_not_specified)
        (tag_of_total _ (read16_total p (omega arith))))
read_tag_by implicit (suc (suc (suc (suc (suc zero))))) n p h l =
    let e : 4 ≡ n = ground arith in
    rw (← e) (
      implicit_total (implicit == profile_id_not_specified)
        (tag_of_total _ (read32_total p (omega arith))))
read_tag_by implicit (suc (suc (suc (suc (suc (suc zero)))))) n p h l =
    let e : 6 ≡ n = ground arith in rw (← e) (qualified_total 2 read16 p read16_total (omega arith))
read_tag_by implicit (suc (suc (suc (suc (suc (suc (suc zero))))))) n p h l =
    let e : 8 ≡ n = ground arith in rw (← e) (qualified_total 4 read32 p read32_total (omega arith))
read_tag_by implicit (suc (suc (suc (suc (suc (suc (suc (suc k)))))))) n p h l = cc

read_len_or_val_total :
    (size : TlvFieldSize) (p : List ℕ)
    → tlv_field_size_to_bytes size ≤ length p
    → TookAtMost (tlv_field_size_to_bytes size) p (read_len_or_val size p)
unfolding read_len_or_val tlv_field_size_to_bytes
read_len_or_val_total size_0byte p h = of_exact {n = 0} {v = 0} refl
read_len_or_val_total size_1byte p h = read8_total p h
read_len_or_val_total size_2byte p h = read16_total p h
read_len_or_val_total size_4byte p h = read32_total p h
read_len_or_val_total size_8byte p h = read64_total p h

-- A parse in the middle of a head keeps what the parser does not set.
pub record SameInput (r r' : TlvReader) : Type 0 where
  pub input : r'.input ≡ r.input
  pub len_read : r'.len_read ≡ r.len_read
  pub max_len : r'.max_len ≡ r.max_len

-- On a head of the right length `parse_head` reads only bytes of it.
parse_head-Ends :
    (p : List ℕ) (n : ℕ) (r : TlvReader)
    → get_elem? tag_sizes (r.control_byte / 2 ^ 5 % 2 ^ 3) ≡ some n
    → length p ≡ head_length (element_type r) n
    → Ends (λ _. SameInput r) (λ e _. ⊥) (parse_head p r)
unfolding parse_head head_length read8
parse_head-Ends [] n r h l = absurd (omega arith)
parse_head-Ends (b ∷ p) n r h l =
    rw (tag.found, len.found) (returns (record { input = refl; len_read = refl; max_len = refl }))
  where
    size : ℕ
    size = tlv_field_size_to_bytes (get_tlv_field_size (to_uint8 (element_type r)))

    tag : TookAtMost n p (read_tag r.implicit_profile_id (tag_control_of r.control_byte) p)
    tag = read_tag_by r.implicit_profile_id (r.control_byte / 2 ^ 5 % 2 ^ 3) n p h (omega arith)

    len :
        TookAtMost size tag.rest
          (read_len_or_val (get_tlv_field_size (to_uint8 (element_type r))) tag.rest)
    len = read_len_or_val_total _ tag.rest (omega (arith, tag.left))

tag_size_total : (k : ℕ) → k < 8 → (n : ℕ) × (get_elem? tag_sizes k ≡ some n)
tag_size_total k h = get_elem?_total tag_sizes k h

-- `GetElementHeadLength` refuses an invalid type and otherwise finds the tag's size.
head_length_cases :
    (r : TlvReader)
    → (get_element_head_length r ≡ err invalid_tlv_element r)
      ⊎ ((n : ℕ) × (get_elem? tag_sizes (r.control_byte / 2 ^ 5 % 2 ^ 3) ≡ some n)
          × (get_element_head_length r ≡ ok (head_length (element_type r) n) r))
unfolding get_element_head_length
head_length_cases r = elim (Bool-cases (is_valid_tlv_type (to_uint8 (element_type r)))) [
  | inl valid ↦
      let (n, e) = tag_size_total (r.control_byte / 2 ^ 5 % 2 ^ 3) (omega arith) in
      inr (n, e, rw (valid, back, e))
  | inr invalid ↦ inl (rw invalid)
]
  where
    back : tag_control_of r.control_byte / 2 ^ 5 ≡ r.control_byte / 2 ^ 5 % 2 ^ 3
    back = omega arith

tag_fits-Checks : (t : TlvType) (tag : ℕ) (r : TlvReader) → Checks r (tag_fits t tag r)
unfolding tag_fits
tag_fits-Checks not_specified tag r = Checks-verify _ _
tag_fits-Checks unknown_container tag r = passes
tag_fits-Checks (code c) tag r = Checks-if (c == structure) _ _ (Checks-verify _ _) (
    Checks-if (c == path) _ _ (Checks-verify _ _)
      (Checks-if (c == array) _ _ (Checks-verify _ _) refuses))

-- `VerifyElement` changes nothing.
pub verify_element-Checks : (r : TlvReader) → Checks r (verify_element r)
unfolding verify_element verify_tag verify_length
verify_element-Checks r =
    Checks-and_then _
      (Checks-if (has_code (element_type r) end_of_container) _ _
        (Checks-then (not (is_type r.container_type not_specified)) invalid_tlv_element _
          (Checks-verify (r.elem_tag == anonymous_tag) invalid_tlv_tag))
        (Checks-then (not (r.elem_tag == unknown_implicit_tag)) unknown_implicit_tlv_tag _
          (tag_fits-Checks r.container_type r.elem_tag r)))
      (Checks-if (tlv_type_has_length (to_uint8 (element_type r))) _ _ (Checks-verify _ _) passes)

read_head-Ends : (n : ℕ) (r : TlvReader) → IsValid r → Ends (Took r n) (Kept r) (read_head n r)
unfolding read_head
read_head-Ends n r v =
    if_method-Ends (ltb (length r.input) n) _ _ r (λ _. read_data-Ends n r v)
      (λ e. consume-Ends n r v (ltb→le _ _ e))

-- A step that reads an element: on success it has moved forward.
abbrev pub Progress : TlvReader → TlvReader → Type 0
Progress r r' = Advance r r' × (r.len_read < r'.len_read)

pub Advance-same : {r s t : TlvReader} → Advance r s → SameInput s t → Advance r t
Advance-same a e = record {
  valid = record { fits = omega (arith, ap length e.input); bounded = omega arith };
  max_len = omega arith;
  forward = omega arith;
}

element_type-eq :
    (r s : TlvReader) → s.control_byte ≡ r.control_byte → element_type s ≡ element_type r
unfolding element_type
element_type-eq r s e =
    ap (λ b. if b == control_byte_not_specified then not_specified else code (b % 2 ^ 5)) e

head_length-pos : (t : TlvType) (n : ℕ) → 1 ≤ head_length t n
unfolding head_length
head_length-pos t n = omega arith

control_set : (s : TlvReader) (b : ℕ) → SameInput s (record s { control_byte = b })
control_set s b = record { input = refl; len_read = refl; max_len = refl }

-- `ReadElement` behind the control byte.
after_control-Ends :
    (s : TlvReader) → IsValid s → Ends (λ _. Progress s) (λ e. Advance s) (after_control s)
unfolding after_control
after_control-Ends s v = elim (head_length_cases s) [
  | inl bad ↦ rw bad (fails (Advance-refl v))
  | inr (n, size, good) ↦ rw good (
      bind (read_head-Ends (head_length (element_type s) n) s v) (λ e t m. m.advance)
        λ p t took.
          bind
            (parse_head-Ends p n t (rw took.0.control_byte size)
              (took.2 ∙ ap (λ t. head_length t n) (sym (element_type-eq s t took.0.control_byte))))
            (λ e u x. absurd x)
            λ _ u same.
              Checks-Ends (verify_element-Checks u)
                (
                  Advance-same took.0.advance same,
                  omega (arith, head_length-pos (element_type s) n),
                )
                (λ e. Advance-same took.0.advance same))
]

pub read_element-Ends :
    (r : TlvReader) → IsValid r → Ends (λ _. Progress r) (λ e. Advance r) (read_element r)
unfolding read_element read_control
read_element-Ends r v =
    bind (ensure_data-Ends end_of_tlv r v) (λ e s m. m.advance)
      λ _ s ready.
        let (b, e) = get_elem?_total s.input 0 ready.ready in
        let set = Advance-same ready.moved.advance (control_set s b) in
        rw e (
          mono (after_control-Ends (record s { control_byte = b }) set.valid)
            (λ _ t p. (Advance-trans set p.0, omega arith)) (λ e t a. Advance-trans set a))
