-- ===== src/Examples/Tlv.antt =====
-- A structure with an unsigned integer and a nested empty array, read to its end.
use matter_dissector.Prelude.{ℕ, ◌<◌, ◌≡◌, ◌≢◌, ◌↔◌, true, some, List, [], ◌∷◌, ◌++◌, arith}
use matter_dissector.Encoding.{write64, read64}
use matter_dissector.Encoding.Laws.{read64-write64}
use matter_dissector.Tlv.Tags.{
  profile_tag, vendor_profile_tag, profile_id_from_tag, profile_num_from_tag, tag_num_from_tag,
  vendor_id_from_tag, is_profile_tag, is_context_tag, profile_id_not_specified,
}
use matter_dissector.Tlv.Tags.Laws.{profile_tag_fields, vendor_profile_tag_fields}
use matter_dissector.Tlv.Reader.State.{IsValid, init}
use matter_dissector.Tlv.Reader.Container.{next}
use matter_dissector.Tlv.Reader.Ends.{Ends}
use matter_dissector.Tlv.Reader.Advance.{Advance}
use matter_dissector.Tlv.Reader.Progress.{Progress}
use matter_dissector.Tlv.Reader.Accepted.{Accepted, next-Accepted}

-- { 1 = 5, 2 = [] } with an anonymous tag around it
abbrev structure_bytes : List ℕ
structure_bytes = 0x15 ∷ 0x24 ∷ 1 ∷ 5 ∷ 0x36 ∷ 2 ∷ 0x18 ∷ 0x18 ∷ []

at_start : IsValid (init structure_bytes)
unfolding init
at_start = record { fits = omega arith; bounded = omega arith }

next-Accepted_example :
    Ends
      (λ _ s. Progress (init structure_bytes) s × Accepted s)
      (λ _. Advance (init structure_bytes))
      (next (init structure_bytes))
next-Accepted_example = next-Accepted (init structure_bytes) at_start

abbrev test_vendor : ℕ
test_vendor = 0xFFF1

abbrev test_profile : ℕ
test_profile = 0xDEED

abbrev test_tag : ℕ
test_tag = 1

vendor_profile_tag_fields_example :
    let tag = vendor_profile_tag test_vendor test_profile test_tag in
    (vendor_id_from_tag tag ≡ test_vendor)
    × (profile_num_from_tag tag ≡ test_profile)
    × (tag_num_from_tag tag ≡ test_tag)
    × ((is_context_tag tag ≡ true)
        ↔ ((test_vendor ≡ 0xFFFF) × (test_profile ≡ 0xFFFF) × (test_tag < 256)))
vendor_profile_tag_fields_example =
    vendor_profile_tag_fields test_vendor test_profile test_tag (omega arith) (omega arith)
      (omega arith)

profile_tag_fields_example :
    let tag = profile_tag test_tag 7 in
    (profile_id_from_tag tag ≡ test_tag)
    × (tag_num_from_tag tag ≡ 7)
    × ((is_profile_tag tag ≡ true) ↔ (test_tag ≢ profile_id_not_specified))
profile_tag_fields_example = profile_tag_fields test_tag 7 (omega arith) (omega arith)

read64-write64_example :
    read64 (write64 0x1122334455667788 ++ (9 ∷ [])) ≡ some (0x1122334455667788, 9 ∷ [])
read64-write64_example = read64-write64 0x1122334455667788 (9 ∷ []) (omega arith)
