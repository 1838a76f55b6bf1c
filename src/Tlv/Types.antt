-- ===== src/Tlv/Types.antt =====
-- MatterMinimal/include/Matter/Core/MatterTLVTypes.h: element types and what they say of an element.
use matter_dissector.Prelude.{
  ℕ, ◌%◌, ◌^◌, ◌≡◌, refl, Bool, true, false, ◌&&◌, ◌||◌, leb, ◌==◌, ==_refl, if◌then◌else◌,
}

-- The codes of the element types. The types `kTLVType_SignedInteger`, `_UnsignedInteger`,
-- `_Boolean`, `_FloatingPointNumber`, `_UTF8String` and `_ByteString` have the value of the first
-- code of their group, and the others the value of their only code.
abbrev pub int8 : ℕ
int8 = 0x00

abbrev pub int16 : ℕ
int16 = 0x01

abbrev pub int32 : ℕ
int32 = 0x02

abbrev pub int64 : ℕ
int64 = 0x03

abbrev pub uint8 : ℕ
uint8 = 0x04

abbrev pub uint64 : ℕ
uint64 = 0x07

abbrev pub boolean_false : ℕ
boolean_false = 0x08

abbrev pub boolean_true : ℕ
boolean_true = 0x09

abbrev pub floating_point_number32 : ℕ
floating_point_number32 = 0x0A

abbrev pub floating_point_number64 : ℕ
floating_point_number64 = 0x0B

abbrev pub utf8_string_1byte_length : ℕ
utf8_string_1byte_length = 0x0C

abbrev pub byte_string_1byte_length : ℕ
byte_string_1byte_length = 0x10

abbrev pub byte_string_8byte_length : ℕ
byte_string_8byte_length = 0x13

abbrev pub null : ℕ
null = 0x14

abbrev pub structure : ℕ
structure = 0x15

abbrev pub array : ℕ
array = 0x16

abbrev pub path : ℕ
path = 0x17

abbrev pub end_of_container : ℕ
end_of_container = 0x18

-- The values of `TLVType` and of `TLVElementType`, which the source casts into one another:
-- -1, -2 and the codes above.
pub data TlvType : Type 0 where
  not_specified unknown_container : TlvType
  code : ℕ → TlvType

unfoldable pub is_type : TlvType → TlvType → Bool
is_type not_specified not_specified = true
is_type unknown_container unknown_container = true
is_type (code a) (code b) = a == b
is_type _ _ = false

-- `is_type` at the type with code `c`.
abbrev pub has_code : TlvType → ℕ → Bool
has_code (code a) c = a == c
has_code _ c = false

-- The cast to `uint8_t` at a call of one of the tests below.
abbrev pub to_uint8 : TlvType → ℕ
to_uint8 not_specified = 0xFF
to_uint8 unknown_container = 0xFE
to_uint8 (code c) = c % 2 ^ 8

unfoldable pub is_valid_tlv_type : ℕ → Bool
is_valid_tlv_type type = leb type end_of_container

unfoldable pub tlv_type_has_value : ℕ → Bool
tlv_type_has_value type =
    leb type uint64 || leb floating_point_number32 type && leb type byte_string_8byte_length

unfoldable pub tlv_type_has_length : ℕ → Bool
tlv_type_has_length type = leb utf8_string_1byte_length type && leb type byte_string_8byte_length

unfoldable pub tlv_type_is_container : ℕ → Bool
tlv_type_is_container type = leb structure type && leb type path

unfoldable pub tlv_type_is_string : ℕ → Bool
tlv_type_is_string type = leb utf8_string_1byte_length type && leb type byte_string_8byte_length

pub data TlvFieldSize : Type 0 where
  size_0byte size_1byte size_2byte size_4byte size_8byte : TlvFieldSize

-- The cast of `type & kTLVTypeSizeMask` to the enumeration.
abbrev pub field_size_of : ℕ → TlvFieldSize
field_size_of n =
    if n == 0
    then size_1byte
    else if n == 1
    then size_2byte
    else if n == 2
    then size_4byte
    else size_8byte

unfoldable pub get_tlv_field_size : ℕ → TlvFieldSize
unfolding tlv_type_has_value
get_tlv_field_size type = if tlv_type_has_value type then field_size_of (type % 4) else size_0byte

unfoldable pub tlv_field_size_to_bytes : TlvFieldSize → ℕ
tlv_field_size_to_bytes size_0byte = 0
tlv_field_size_to_bytes size_1byte = 2 ^ 0
tlv_field_size_to_bytes size_2byte = 2 ^ 1
tlv_field_size_to_bytes size_4byte = 2 ^ 2
tlv_field_size_to_bytes size_8byte = 2 ^ 3

pub is_type_refl : (t : TlvType) → is_type t t ≡ true
unfolding is_type
is_type_refl not_specified = refl
is_type_refl unknown_container = refl
is_type_refl (code c) = ==_refl c
