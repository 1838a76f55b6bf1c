-- ===== src/Im/Certificates.antt =====
-- packet-matter-im.cpp: `AddDecodedMatterCertificate`, which shows a certificate in Matter's own encoding.
pub mod Fields
use matter_dissector.Prelude.{
  ℕ, ◌+◌, ◌*◌, ◌/◌, ◌%◌, ◌^◌, ◌||◌, ◌==◌, ltb, if◌then◌else◌, Option, none, some, List, [], ◌∷◌,
  ◌++◌,
}
use matter_dissector.Tree.{
  String, ProtoItem, Piece, Text, text, number, Host, im_common_field, data_elem_property_data,
}
use matter_dissector.Tlv.Types.{code, int8, uint8, structure, array, path, has_code}
use matter_dissector.Tlv.Tags.{
  anonymous_tag, profile_tag, is_context_tag, is_profile_tag, tag_num_from_tag,
}
use matter_dissector.Tlv.Reader.State.{unexpected_tlv_element}
use matter_dissector.Tlv.Reader.Values.{get_uint64, get_int64}
use matter_dissector.Dissector.{
  TlvDissector, Run, done, stopped, faulted, crashed, unfinished, Act, run_then, init_dissector,
}
use matter_dissector.Dissector.Moves.{next_expected}
use matter_dissector.Dissector.Elements.{
  ◌>>=◌, ◌>>◌, verify, reading, get_type, get_tag, or_else, by_context_tag, inside,
}
use matter_dissector.Dissector.Items.{add_string_item, add_sub_tree_item_f}
use matter_dissector.Im.Paths.{is_path_like}
use matter_dissector.Im.Values.{Decoder, Decoders, add_named_command_value, add_field}
use matter_dissector.Im.Fields.{add_unknown}
use matter_dissector.Im.Certificates.Fields.{
  lookup_matter_cert_signature_algorithm_name, lookup_matter_cert_public_key_algorithm_name,
  lookup_matter_cert_curve_name, add_matter_cert_enum_or_raw, add_decoded_matter_certificate_dn,
  add_decoded_matter_ecdsa_signature, by_tag_number, add_decoded_matter_certificate_extensions,
}

module _ (host : Host) (decoders : Decoders) where
  -- An element of a certificate, by the number of its tag.
  unfoldable pub certificate_element : ProtoItem → ℕ → Act (Unit {0})
  certificate_element cert_tree tag_num =
      if tag_num == 1
      then add_named_command_value host decoders cert_tree "SerialNumber"
      else if tag_num == 2
      then add_matter_cert_enum_or_raw host decoders cert_tree "SignatureAlgorithm"
          lookup_matter_cert_signature_algorithm_name
      else if tag_num == 3
      then add_decoded_matter_certificate_dn host decoders cert_tree "Issuer"
      else if tag_num == 4
      then add_named_command_value host decoders cert_tree "NotBefore"
      else if tag_num == 5
      then add_named_command_value host decoders cert_tree "NotAfter"
      else if tag_num == 6
      then add_decoded_matter_certificate_dn host decoders cert_tree "Subject"
      else if tag_num == 7
      then add_matter_cert_enum_or_raw host decoders cert_tree "PublicKeyAlgorithm"
          lookup_matter_cert_public_key_algorithm_name
      else if tag_num == 8
      then add_matter_cert_enum_or_raw host decoders cert_tree "EllipticCurveIdentifier"
          lookup_matter_cert_curve_name
      else if tag_num == 9
      then add_named_command_value host decoders cert_tree "PublicKey"
      else if tag_num == 10
      then add_decoded_matter_certificate_extensions host decoders cert_tree
      else if tag_num == 11
      then (do
        type ← get_type
        if has_code type structure
            then add_decoded_matter_ecdsa_signature host decoders cert_tree
            else add_named_command_value host decoders cert_tree "Signature")
      else add_unknown host cert_tree

  -- `AddDecodedMatterCertificate` behind the `Next` that found the structure.
  unfoldable pub add_certificate : String → ProtoItem → Act (Unit {0})
  add_certificate field_name tree = do
    cert_tree ←
        add_sub_tree_item_f tree data_elem_property_data (text field_name ∷ text " Decoded" ∷ [])
    inside host.realloc
        (λ _. by_tag_number (certificate_element cert_tree) (add_unknown host cert_tree)) tt

-- `Init` and the assignment of `ImplicitProfileId`.
abbrev pub security_profile : ℕ
security_profile = 0x1004

unfoldable pub begin_certificate : List ℕ → ℕ → TlvDissector → TlvDissector
unfolding init_dissector
begin_certificate value value_offset d =
    let e = init_dissector value value_offset d in
    record e { reader = record e.reader { implicit_profile_id = security_profile } }

-- What the caller sees of the certificate's own dissector: its calls on the tree.
abbrev pub hand_back : TlvDissector → Run (Unit {0}) → Run (Unit {0})
hand_back d (done _ e) = done tt (record d { calls = e.calls })
hand_back d (stopped x e) = stopped x (record d { calls = e.calls })
hand_back d faulted = faulted
hand_back d crashed = crashed
hand_back d unfinished = unfinished

-- The `Next` that finds the structure: by the certificate's tag and, from the start again, without one.
unfoldable pub find_certificate : List ℕ → ℕ → Act (Unit {0})
unfolding next_expected
find_certificate value value_offset d =
    elim (next_expected (code structure) (profile_tag security_profile 1)
      (begin_certificate value value_offset d)) [
        | done _ e ↦ done tt e
        | stopped _ e ↦
            next_expected (code structure) anonymous_tag (begin_certificate value value_offset e)
        | faulted ↦ faulted
        | crashed ↦ crashed
        | unfinished ↦ unfinished
      ]

-- `AddDecodedMatterCertificate`. Its dissector starts without an array for the stack.
unfoldable pub add_decoded_matter_certificate : Host → Decoders → Decoder
unfolding find_certificate
add_decoded_matter_certificate host decoders field_name value value_offset tree d = hand_back d (
    run_then (find_certificate value value_offset (record d { container_stack_size = 0 }))
      λ _. add_certificate host decoders field_name tree)
