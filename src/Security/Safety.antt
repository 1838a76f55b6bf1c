-- ===== src/Security/Safety.antt =====
-- The certificates and signatures end, and read no byte outside of their data.
use matter_dissector.Prelude.{ℕ}
use matter_dissector.Tree.{ProtoItem, Host, Field}
use matter_dissector.Dissector.{Act}
use matter_dissector.Dissector.Safety.{SafeBelow, next_expected-Safe}
use matter_dissector.Dissector.Shows.{add_list_item-Safe}
use matter_dissector.Im.Safety.Fields.{shows}
use matter_dissector.Common.Safety.{context_number-Safe, expect-Safe}
use matter_dissector.Security.Certificates.{
  dn_attribute, add_cert_dn, cert_element, add_structure, add_cert, cert_ref_element, add_cert_ref,
  of_type, cert_info_element, ecdsa_sig_element, add_profile_structure,
}

module _ {n : ℕ} (host : Host) where
  dn_attribute-Safe : (tree : ProtoItem) (f : Field) → SafeBelow n (dn_attribute host tree f)
  unfolding dn_attribute
  dn_attribute-Safe tree f = search shows depth 20

  add_cert_dn-Safe : (tree : ProtoItem) (f g : Field) → SafeBelow n (add_cert_dn host tree f g)
  unfolding add_cert_dn
  add_cert_dn-Safe tree f g = search (shows, dn_attribute-Safe) depth 20

  cert_element-Safe : (tree : ProtoItem) (tag : ℕ) → SafeBelow n (cert_element host tree tag)
  unfolding cert_element
  cert_element-Safe tree tag = search (shows, add_cert_dn-Safe) depth 20

  add_structure-Safe :
      (tree : ProtoItem) (f : Field) (element : ProtoItem → ℕ → Act (Unit {0}))
      → ((sub_tree : ProtoItem) (tag : ℕ) → SafeBelow n (element sub_tree tag))
      → SafeBelow n (add_structure host tree f element)
  unfolding add_structure
  add_structure-Safe tree f element p = search (shows, context_number-Safe, p) depth 20

  add_cert-Safe : (tree : ProtoItem) (f : Field) → SafeBelow n (add_cert host tree f)
  unfolding add_cert
  add_cert-Safe tree f = search (add_structure-Safe, cert_element-Safe)

  cert_ref_element-Safe :
      (tree : ProtoItem) (tag : ℕ) → SafeBelow n (cert_ref_element host tree tag)
  unfolding cert_ref_element
  cert_ref_element-Safe tree tag = search (shows, add_cert_dn-Safe, expect-Safe) depth 20

  add_cert_ref-Safe : (tree : ProtoItem) (f : Field) → SafeBelow n (add_cert_ref host tree f)
  unfolding add_cert_ref
  add_cert_ref-Safe tree f = search (add_structure-Safe, cert_ref_element-Safe)

  of_type-Safe :
      (type_code : ℕ) {m : Act (Unit {0})} → SafeBelow n m → SafeBelow n (of_type host type_code m)
  unfolding of_type
  of_type-Safe type_code p = search shows depth 20

  pub cert_info_element-Safe :
      (tree : ProtoItem) (tag : ℕ) → SafeBelow n (cert_info_element host tree tag)
  unfolding cert_info_element
  cert_info_element-Safe tree tag =
      search (shows, of_type-Safe, add_cert-Safe, add_cert_ref-Safe, add_list_item-Safe) depth 20

  pub ecdsa_sig_element-Safe :
      (tree : ProtoItem) (tag : ℕ) → SafeBelow n (ecdsa_sig_element host tree tag)
  unfolding ecdsa_sig_element
  ecdsa_sig_element-Safe tree tag = search (shows, expect-Safe) depth 20

  pub add_profile_structure-Safe :
      (tree : ProtoItem) (tag_num : ℕ) (f : Field) (element : ProtoItem → ℕ → Act (Unit {0}))
      → ((sub_tree : ProtoItem) (tag : ℕ) → SafeBelow n (element sub_tree tag))
      → SafeBelow n (add_profile_structure host tree tag_num f element)
  unfolding add_profile_structure
  add_profile_structure-Safe tree tag_num f element p =
      search (shows, next_expected-Safe, context_number-Safe, p) depth 20
