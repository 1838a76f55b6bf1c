-- ===== src/Tlv/Reader/Wire.antt =====
-- The fields of an element's head as they were written, and what the reader makes of them.
use matter_dissector.Prelude.{
  ℕ, ◌*◌, ◌^◌, ◌<◌, ◌≡◌, refl, some, List, [], ◌∷◌, ◌++◌, arith, length, get_elem?,
}
use matter_dissector.Encoding.{read8, write16, write32, write64}
use matter_dissector.Encoding.Laws.{read16-write16, read32-write32, read64-write64}
use matter_dissector.Tlv.Types.{
  TlvFieldSize, size_0byte, size_1byte, size_2byte, size_4byte, size_8byte, tlv_field_size_to_bytes,
}
use matter_dissector.Tlv.Tags.{anonymous_tag, context_tag, common_tag, vendor_profile_tag}
use matter_dissector.Tlv.Reader.Element.{tag_sizes, read_tag, read_len_or_val}

-- The forms of a tag on the wire that do not depend on the reader's implicit profile.
pub data WireTag : Type 0 where
  anonymous : WireTag
  context : ℕ → WireTag
  common16 common32 : ℕ → WireTag
  full16 full32 : (vendor_id profile_num tag_num : ℕ) → WireTag

-- The three bits of the control byte.
abbrev pub form : WireTag → ℕ
form anonymous = 0
form (context n) = 1
form (common16 n) = 2
form (common32 n) = 3
form (full16 v p n) = 6
form (full32 v p n) = 7

abbrev pub tag_bytes : WireTag → List ℕ
tag_bytes anonymous = []
tag_bytes (context n) = n ∷ []
tag_bytes (common16 n) = write16 n
tag_bytes (common32 n) = write32 n
tag_bytes (full16 v p n) = write16 v ++ (write16 p ++ write16 n)
tag_bytes (full32 v p n) = write16 v ++ (write16 p ++ write32 n)

abbrev pub tag_value : WireTag → ℕ
tag_value anonymous = anonymous_tag
tag_value (context n) = context_tag n
tag_value (common16 n) = common_tag n
tag_value (common32 n) = common_tag n
tag_value (full16 v p n) = vendor_profile_tag v p n
tag_value (full32 v p n) = vendor_profile_tag v p n

abbrev pub TagInRange : WireTag → Type 0
TagInRange anonymous = Unit
TagInRange (context n) = n < 2 ^ 8
TagInRange (common16 n) = n < 2 ^ 16
TagInRange (common32 n) = n < 2 ^ 32
TagInRange (full16 v p n) = (v < 2 ^ 16) × (p < 2 ^ 16) × (n < 2 ^ 16)
TagInRange (full32 v p n) = (v < 2 ^ 16) × (p < 2 ^ 16) × (n < 2 ^ 32)

-- The length or value field.
abbrev pub field_bytes : TlvFieldSize → ℕ → List ℕ
field_bytes size_0byte v = []
field_bytes size_1byte v = v ∷ []
field_bytes size_2byte v = write16 v
field_bytes size_4byte v = write32 v
field_bytes size_8byte v = write64 v

abbrev pub FieldInRange : TlvFieldSize → ℕ → Type 0
FieldInRange size_0byte v = v ≡ 0
FieldInRange size_1byte v = v < 2 ^ 8
FieldInRange size_2byte v = v < 2 ^ 16
FieldInRange size_4byte v = v < 2 ^ 32
FieldInRange size_8byte v = v < 2 ^ 64

write16-append : (v : ℕ) (p q : List ℕ) → (write16 v ++ p) ++ q ≡ write16 v ++ (p ++ q)
unfolding write16
write16-append v p q = refl

pub read_tag_lem :
    (w : WireTag) (i : ℕ) (p : List ℕ)
    → TagInRange w
    → read_tag i (form w * 2 ^ 5) (tag_bytes w ++ p) ≡ some (tag_value w, p)
unfolding read_tag read8
read_tag_lem anonymous i p h = refl
read_tag_lem (context n) i p h = refl
read_tag_lem (common16 n) i p h = rw (read16-write16 n p h) refl
read_tag_lem (common32 n) i p h = rw (read32-write32 n p h) refl
read_tag_lem (full16 a b n) i p (ha, hb, hn) =
    rw
      (
        write16-append a (write16 b ++ write16 n) p,
        write16-append b (write16 n) p,
        read16-write16 a (write16 b ++ (write16 n ++ p)) ha,
        read16-write16 b (write16 n ++ p) hb,
        read16-write16 n p hn,
      )
      refl
read_tag_lem (full32 a b n) i p (ha, hb, hn) =
    rw
      (
        write16-append a (write16 b ++ write32 n) p,
        write16-append b (write32 n) p,
        read16-write16 a (write16 b ++ (write32 n ++ p)) ha,
        read16-write16 b (write32 n ++ p) hb,
        read32-write32 n p hn,
      )
      refl

pub read_len_or_val_lem :
    (s : TlvFieldSize) (v : ℕ)
    → FieldInRange s v
    → read_len_or_val s (field_bytes s v) ≡ some (v, [])
unfolding read_len_or_val read8 write16 write32 write64
read_len_or_val_lem size_0byte v h = rw h refl
read_len_or_val_lem size_1byte v h = refl
read_len_or_val_lem size_2byte v h = read16-write16 v [] h
read_len_or_val_lem size_4byte v h = read32-write32 v [] h
read_len_or_val_lem size_8byte v h = read64-write64 v [] h

pub length-tag_bytes : (w : WireTag) → get_elem? tag_sizes (form w) ≡ some (length (tag_bytes w))
unfolding write16 write32
length-tag_bytes anonymous = refl
length-tag_bytes (context n) = refl
length-tag_bytes (common16 n) = refl
length-tag_bytes (common32 n) = refl
length-tag_bytes (full16 v p n) = refl
length-tag_bytes (full32 v p n) = refl

pub length-field_bytes :
    (s : TlvFieldSize) (v : ℕ) → length (field_bytes s v) ≡ tlv_field_size_to_bytes s
unfolding write16 write32 write64 tlv_field_size_to_bytes
length-field_bytes size_0byte v = refl
length-field_bytes size_1byte v = refl
length-field_bytes size_2byte v = refl
length-field_bytes size_4byte v = refl
length-field_bytes size_8byte v = refl

pub form_below : (w : WireTag) → form w < 8
form_below anonymous = omega arith
form_below (context n) = omega arith
form_below (common16 n) = omega arith
form_below (common32 n) = omega arith
form_below (full16 v p n) = omega arith
form_below (full32 v p n) = omega arith
