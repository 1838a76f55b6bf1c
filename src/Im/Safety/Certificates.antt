-- ===== src/Im/Safety/Certificates.antt =====
-- The certificates in Matter's own encoding.
use matter_dissector.Prelude.{
  Bool, ◌||◌, Bool-cases, inl, inr, true, false, [], ◌∷◌, ◌==◌, ◌+◌, ◌≡◌, refl, sym, ℕ, ◌-◌, ◌^◌,
  ◌<◌, List, Option, length, arith,
}
use matter_dissector.Tree.{ProtoItem, Host, String, Text}
use matter_dissector.Tlv.Tags.{profile_tag, anonymous_tag}
use matter_dissector.Tlv.Types.{code, structure}
use matter_dissector.Tlv.Reader.State.{TlvReader, IsValid}
use matter_dissector.Tlv.Reader.Advance.{Advance-refl}
use matter_dissector.Dissector.{TlvDissector, Run, done, stopped, faulted, crashed, unfinished, Act}
use matter_dissector.Dissector.Moves.{next_expected}
use matter_dissector.Dissector.Safety.{
  Keeps, keeps, gives_up, crashes, SafeBelow, safe, Keeps-run_then, next_expected-Safe,
}
use matter_dissector.Im.Values.{Decoders}
use matter_dissector.Im.Names.{is_matter_certificate_like_field_name}
use matter_dissector.Im.Safety.Fields.{shows, is_decoded, add_plain_value-Safe}
use matter_dissector.Im.Certificates.Fields.{
  name_at, or_name, dn_attr_names, get_cert_dn_attr_name_for_im, add_cert_integer,
  add_matter_cert_enum_or_raw, add_matter_cert_key_usage, add_decoded_matter_certificate_dn,
  add_decoded_matter_ecdsa_signature, by_tag_number, add_basic_constraints,
  extended_key_usage_element, add_extended_key_usage, add_decoded_matter_certificate_extensions,
}
use matter_dissector.Im.Certificates.{
  certificate_element, add_certificate, begin_certificate, hand_back, security_profile,
  find_certificate, add_decoded_matter_certificate,
}

or_false : (a b : Bool) → (a || b) ≡ false → (a ≡ false) × (b ≡ false)
or_false true b e = ground arith
or_false false b e = (refl, e)

abbrev some_decoded : List String → Bool
some_decoded [] = false
some_decoded (s ∷ ss) = is_decoded s || some_decoded ss

module _ (host : Host) (decoders : Decoders)
    (unnamed : (k : ℕ) → is_decoded (host.unnamed_attribute k) ≡ false) where
  -- The name of an attribute of a distinguished name.
  name_at_plain :
      (first : ℕ) (names : List String) (k : ℕ)
      → some_decoded names ≡ false
      → is_decoded (or_name host decoders (name_at first names k) (host.unnamed_attribute k))
        ≡ false
  name_at_plain first [] k plain = unnamed k
  name_at_plain first (s ∷ ss) k plain = elim (Bool-cases (k == first)) [
    | inl e ↦ rw e (or_false (is_decoded s) (some_decoded ss) plain).0
    | inr e ↦
        rw e (name_at_plain (first + 1) ss k (or_false (is_decoded s) (some_decoded ss) plain).1)
  ]

  dn_name_plain :
      (k : ℕ)
      → is_decoded
          (or_name host decoders (get_cert_dn_attr_name_for_im k) (host.unnamed_attribute k))
        ≡ false
  unfolding get_cert_dn_attr_name_for_im is_decoded is_matter_certificate_like_field_name
  dn_name_plain k = name_at_plain 0 dn_attr_names k refl

module _ {n : ℕ} where
  by_tag_number-Safe :
      {k : ℕ → Act (Unit {0})} {m : Act (Unit {0})}
      → ((tag : ℕ) → SafeBelow n (k tag))
      → SafeBelow n m
      → SafeBelow n (by_tag_number k m)
  unfolding by_tag_number
  by_tag_number-Safe p q = search safe depth 20

module _ {n : ℕ} (host : Host) (decoders : Decoders)
    (unnamed : (k : ℕ) → is_decoded (host.unnamed_attribute k) ≡ false) where
  add_cert_integer-Safe :
      (tree : ProtoItem) (field_name : String) (shown : ℕ → Text)
      → is_decoded field_name ≡ false
      → SafeBelow n (add_cert_integer host decoders tree field_name shown)
  unfolding add_cert_integer
  add_cert_integer-Safe tree field_name shown plain =
      search (shows, add_plain_value-Safe, plain) depth 20

  add_matter_cert_enum_or_raw-Safe :
      (tree : ProtoItem) (field_name : String) (lookup_name : ℕ → Option String)
      → is_decoded field_name ≡ false
      → SafeBelow n (add_matter_cert_enum_or_raw host decoders tree field_name lookup_name)
  unfolding add_matter_cert_enum_or_raw
  add_matter_cert_enum_or_raw-Safe tree field_name lookup_name plain =
      add_cert_integer-Safe tree field_name _ plain

  add_matter_cert_key_usage-Safe :
      (tree : ProtoItem) → SafeBelow n (add_matter_cert_key_usage host decoders tree)
  unfolding add_matter_cert_key_usage is_decoded is_matter_certificate_like_field_name
  add_matter_cert_key_usage-Safe tree = add_cert_integer-Safe tree _ _ refl

  add_decoded_matter_certificate_dn-Safe :
      (tree : ProtoItem) (label : String)
      → SafeBelow n (add_decoded_matter_certificate_dn host decoders tree label)
  unfolding add_decoded_matter_certificate_dn
  add_decoded_matter_certificate_dn-Safe tree label =
      search (shows, add_plain_value-Safe, dn_name_plain) depth 20

  add_decoded_matter_ecdsa_signature-Safe :
      (tree : ProtoItem) → SafeBelow n (add_decoded_matter_ecdsa_signature host decoders tree)
  unfolding add_decoded_matter_ecdsa_signature is_decoded is_matter_certificate_like_field_name
  add_decoded_matter_ecdsa_signature-Safe tree = search (shows, add_plain_value-Safe) depth 20

  add_basic_constraints-Safe :
      (tree : ProtoItem) → SafeBelow n (add_basic_constraints host decoders tree)
  unfolding add_basic_constraints is_decoded is_matter_certificate_like_field_name
  add_basic_constraints-Safe tree =
      search (shows, by_tag_number-Safe, add_plain_value-Safe) depth 20

  extended_key_usage_element-Safe :
      (tree : ProtoItem) → SafeBelow n (extended_key_usage_element host decoders tree)
  unfolding extended_key_usage_element
  extended_key_usage_element-Safe tree = search (shows) depth 20

  add_extended_key_usage-Safe :
      (tree : ProtoItem) → SafeBelow n (add_extended_key_usage host decoders tree)
  unfolding add_extended_key_usage is_decoded is_matter_certificate_like_field_name
  add_extended_key_usage-Safe tree =
      search (shows, extended_key_usage_element-Safe, add_plain_value-Safe) depth 20

  add_decoded_matter_certificate_extensions-Safe :
      (tree : ProtoItem)
      → SafeBelow n (add_decoded_matter_certificate_extensions host decoders tree)
  unfolding add_decoded_matter_certificate_extensions is_decoded
      is_matter_certificate_like_field_name
  add_decoded_matter_certificate_extensions-Safe tree =
      search
        (
          shows, by_tag_number-Safe, add_basic_constraints-Safe, add_matter_cert_key_usage-Safe,
          add_extended_key_usage-Safe, add_plain_value-Safe,
        )
        depth 20

  certificate_element-Safe :
      (tree : ProtoItem) (tag_num : ℕ)
      → SafeBelow n (certificate_element host decoders tree tag_num)
  unfolding certificate_element is_decoded is_matter_certificate_like_field_name
  certificate_element-Safe tree tag_num =
      search
        (
          shows, add_matter_cert_enum_or_raw-Safe, add_decoded_matter_certificate_dn-Safe,
          add_decoded_matter_certificate_extensions-Safe, add_decoded_matter_ecdsa_signature-Safe,
          add_plain_value-Safe,
        )
        depth 20

  add_certificate-Safe :
      (field_name : String) (tree : ProtoItem)
      → SafeBelow n (add_certificate host decoders field_name tree)
  unfolding add_certificate
  add_certificate-Safe field_name tree =
      search (shows, by_tag_number-Safe, certificate_element-Safe) depth 20

module _ (value : List ℕ) (value_offset : ℕ) (bound : length value < 2 ^ 32 - 1) where
  begin-valid : (d : TlvDissector) → IsValid (begin_certificate value value_offset d).reader
  unfolding begin_certificate
  begin-valid d = record { fits = omega arith; bounded = omega arith }

  begin-small :
      (d : TlvDissector) → (begin_certificate value value_offset d).reader.max_len < 2 ^ 32 - 1
  unfolding begin_certificate
  begin-small d = bound

  begin_again :
      (d e : TlvDissector)
      → (begin_certificate value value_offset e).reader
        ≡ (begin_certificate value value_offset d).reader
  unfolding begin_certificate
  begin_again d e = refl

  begin_next-Keeps :
      (tag : ℕ) (d : TlvDissector)
      → Keeps
          (begin_certificate value value_offset d).reader
          (next_expected (code structure) tag (begin_certificate value value_offset d))
  begin_next-Keeps tag d =
      (next_expected-Safe {n = 2 ^ 32} (code structure) tag).runs
        (begin_certificate value value_offset d) (begin-valid d) (begin-small d)
        (omega (arith, begin-small d))

  find_certificate-Keeps :
      (d : TlvDissector)
      → Keeps
          (begin_certificate value value_offset d).reader
          (find_certificate value value_offset d)
  unfolding find_certificate
  find_certificate-Keeps d = by_run (begin_next-Keeps (profile_tag security_profile 1) d)
    where
      by_run :
          {o : Run (Unit {0})}
          → Keeps (begin_certificate value value_offset d).reader o
          → Keeps (begin_certificate value value_offset d).reader (elim o [
            | done _ e ↦ done tt e
            | stopped _ e ↦
                next_expected
                  (code structure)
                  anonymous_tag
                  (begin_certificate value value_offset e)
            | faulted ↦ faulted
            | crashed ↦ crashed
            | unfinished ↦ unfinished
          ])
      by_run (keeps a) = keeps a
      by_run (gives_up {d = e} a) = rw (sym (begin_again d e)) (begin_next-Keeps anonymous_tag e)
      by_run crashes = crashes

hand_back-Keeps :
    {r : TlvReader} (d : TlvDissector) {o : Run (Unit {0})}
    → IsValid d.reader
    → Keeps r o
    → Keeps d.reader (hand_back d o)
hand_back-Keeps d v (keeps a) = keeps (Advance-refl v)
hand_back-Keeps d v (gives_up a) = gives_up (Advance-refl v)
hand_back-Keeps d v crashes = crashes

-- `AddDecodedMatterCertificate` on any value of fewer than 2^32 - 1 bytes, if the name of an
-- attribute without a name is not one whose value is decoded, comes to an end: neither its own dissector nor the caller's reads outside of its
-- encoding, the loops do not run out of rounds, and the caller's reader is not moved back.
pub add_decoded_matter_certificate-Keeps :
    (host : Host) (decoders : Decoders)
    (unnamed : (k : ℕ) → is_decoded (host.unnamed_attribute k) ≡ false) (field_name : String)
    (value : List ℕ) (value_offset : ℕ) (tree : ProtoItem) (d : TlvDissector)
    → IsValid d.reader
    → length value < 2 ^ 32 - 1
    → Keeps d.reader
        (add_decoded_matter_certificate host decoders field_name value value_offset tree d)
unfolding add_decoded_matter_certificate
add_decoded_matter_certificate-Keeps host decoders unnamed field_name value value_offset tree d v
      bound =
    hand_back-Keeps d v (
      Keeps-run_then _ (find_certificate-Keeps value value_offset bound own) λ _ e a.
        (add_certificate-Safe {n = 2 ^ 32} host decoders unnamed field_name tree).runs e a.valid
          (omega (arith, a.max_len, begin-small value value_offset bound own))
          (omega (arith, a.max_len, begin-small value value_offset bound own)))
  where
    own : TlvDissector
    own = record d { container_stack_size = 0 }
