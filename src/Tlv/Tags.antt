-- ===== src/Tlv/Tags.antt =====
-- MatterMinimal/include/Matter/Core/MatterTLVTags.h: tags as 64-bit numbers.
-- `|` of parts that share no bit is `+`, and a shift to the left is a product that wraps.
pub mod Laws
use matter_dissector.Prelude.{ℕ, ◌+◌, ◌*◌, ◌/◌, ◌%◌, ◌^◌, Bool, not, ◌&&◌, ltb, ◌==◌}

abbrev pub profile_id_not_specified : ℕ
profile_id_not_specified = 0xFFFF_FFFF

abbrev pub common_profile_id : ℕ
common_profile_id = 0

abbrev pub special_tag_marker : ℕ
special_tag_marker = 0xFFFF_FFFF_0000_0000

abbrev pub context_tag_max_num : ℕ
context_tag_max_num = 256

-- `ProfileTag` of a 32-bit profile id.
unfoldable pub profile_tag : ℕ → ℕ → ℕ
profile_tag profile_id tag_num = profile_id * 2 ^ 32 + tag_num

-- `ProfileTag` of a vendor id and a profile number.
unfoldable pub vendor_profile_tag : ℕ → ℕ → ℕ → ℕ
vendor_profile_tag vendor_id profile_num tag_num =
    vendor_id * 2 ^ 48 + profile_num * 2 ^ 32 + tag_num

unfoldable pub context_tag : ℕ → ℕ
context_tag tag_num = special_tag_marker + tag_num

unfoldable pub common_tag : ℕ → ℕ
unfolding profile_tag
common_tag tag_num = profile_tag common_profile_id tag_num

abbrev pub anonymous_tag : ℕ
anonymous_tag = special_tag_marker + 0xFFFF_FFFF

abbrev pub unknown_implicit_tag : ℕ
unknown_implicit_tag = special_tag_marker + 0xFFFF_FFFE

-- `tag & kProfileIdMask`
abbrev profile_id_bits : ℕ → ℕ
profile_id_bits tag = tag / 2 ^ 32 % 2 ^ 32 * 2 ^ 32

unfoldable pub profile_id_from_tag : ℕ → ℕ
profile_id_from_tag tag = profile_id_bits tag / 2 ^ 32 % 2 ^ 32

unfoldable pub profile_num_from_tag : ℕ → ℕ
profile_num_from_tag tag = profile_id_bits tag / 2 ^ 32 % 2 ^ 16

unfoldable pub tag_num_from_tag : ℕ → ℕ
tag_num_from_tag tag = tag % 2 ^ 32 % 2 ^ 32

unfoldable pub vendor_id_from_tag : ℕ → ℕ
vendor_id_from_tag tag = profile_id_bits tag / 2 ^ 48 % 2 ^ 16

unfoldable pub is_profile_tag : ℕ → Bool
is_profile_tag tag = not (profile_id_bits tag == special_tag_marker)

unfoldable pub is_context_tag : ℕ → Bool
unfolding tag_num_from_tag
is_context_tag tag =
    (profile_id_bits tag == special_tag_marker) && ltb (tag_num_from_tag tag) context_tag_max_num

unfoldable pub is_special_tag : ℕ → Bool
is_special_tag tag = profile_id_bits tag == special_tag_marker
