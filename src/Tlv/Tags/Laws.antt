-- ===== src/Tlv/Tags/Laws.antt =====
-- What each kind of tag is read back as.
use matter_dissector.Prelude.{ℕ, ◌^◌, ◌<◌, ◌≡◌, ◌≢◌, ◌↔◌, true, arith}
use matter_dissector.Tlv.Tags.{
  profile_tag, vendor_profile_tag, context_tag, profile_id_from_tag, profile_num_from_tag,
  tag_num_from_tag, vendor_id_from_tag, is_profile_tag, is_context_tag, profile_id_not_specified,
}

-- The fields of a profile tag are those that it was made of, and it counts as a profile tag
-- exactly when its profile id is not the reserved `kProfileIdNotSpecified`.
pub profile_tag_fields :
    (profile_id tag_num : ℕ)
    → profile_id < 2 ^ 32
    → tag_num < 2 ^ 32
    → let tag = profile_tag profile_id tag_num in
      (profile_id_from_tag tag ≡ profile_id)
      × (tag_num_from_tag tag ≡ tag_num)
      × ((is_profile_tag tag ≡ true) ↔ (profile_id ≢ profile_id_not_specified))
unfolding profile_tag profile_id_from_tag tag_num_from_tag is_profile_tag
profile_tag_fields profile_id tag_num hp ht =
    (omega arith, omega arith, (ground arith, ground arith))

-- A fully qualified tag yields its vendor id, profile number and tag number. It is taken for a
-- context tag exactly when vendor and profile are both 0xFFFF and the number is below 256.
pub vendor_profile_tag_fields :
    (vendor_id profile_num tag_num : ℕ)
    → vendor_id < 2 ^ 16
    → profile_num < 2 ^ 16
    → tag_num < 2 ^ 32
    → let tag = vendor_profile_tag vendor_id profile_num tag_num in
      (vendor_id_from_tag tag ≡ vendor_id)
      × (profile_num_from_tag tag ≡ profile_num)
      × (tag_num_from_tag tag ≡ tag_num)
      × ((is_context_tag tag ≡ true)
          ↔ ((vendor_id ≡ 0xFFFF) × (profile_num ≡ 0xFFFF) × (tag_num < 256)))
unfolding vendor_profile_tag vendor_id_from_tag profile_num_from_tag tag_num_from_tag is_context_tag
vendor_profile_tag_fields vendor_id profile_num tag_num hv hp ht =
    (omega arith, omega arith, omega arith, (ground arith, ground arith))

pub context_tag_fields :
    (n : ℕ)
    → n < 256
    → (is_context_tag (context_tag n) ≡ true) × (tag_num_from_tag (context_tag n) ≡ n)
unfolding context_tag is_context_tag tag_num_from_tag
context_tag_fields n h = (ground arith, omega arith)
