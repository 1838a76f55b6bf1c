-- ===== src/Header/Payload.antt =====
-- Dissecting the header of a payload gives the fields and the payload that were written.
use matter_dissector.Prelude.{
  ℕ, ap, ◌∙◌, ◌+◌, ◌-◌, ◌%◌, ◌^◌, ◌<◌, ◌≡◌, refl, Bool, true, false, if◌then◌else◌, leb, some, List,
  ◌∷◌, ◌++◌, length, drop, arith, length-append, take-length-append,
}
use matter_dissector.Encoding.{write16, write32}
use matter_dissector.Tvb.{Tvb}
use matter_dissector.Message.{MatterMessageInfo, has_ack_id, has_vendor_protocol}
use matter_dissector.Header.{dispatch_protocol_id, get_vendor_id, get_ack, dissect_payload_header}
use matter_dissector.Header.RoundTrip.{if_present, drop-drop, letohs_at, letohl_at, guint8_at}

-- The payload's header as Matter lays it out, without secured extensions, then the payload and the
-- trailer.
abbrev pub encode_payload_header :
    (exch_header msg_type exch_id protocol_id vendor_id ack_msg_cntr : ℕ) → List ℕ → List ℕ
encode_payload_header exch_header msg_type exch_id protocol_id vendor_id ack_msg_cntr rest =
    exch_header
    ∷ msg_type
    ∷ (write16 exch_id
        ++ (write16 protocol_id
            ++ (if_present (has_vendor_protocol exch_header) (write16 vendor_id)
                ++ (if_present (has_ack_id exch_header) (write32 ack_msg_cntr) ++ rest))))

abbrev pub payload_header_size : ℕ → ℕ
payload_header_size exch_header =
    6
    + (if has_vendor_protocol exch_header then 2 else 0)
    + (if has_ack_id exch_header then 4 else 0)

length-if_present :
    (b : Bool) (p q : List ℕ)
    → length (if_present b p ++ q) ≡ (if b then length p else 0) + length q
length-if_present true p q = length-append p q
length-if_present false p q = omega arith

length-encode :
    (e t x p v a : ℕ) (rest : List ℕ)
    → length (encode_payload_header e t x p v a rest) ≡ payload_header_size e + length rest
unfolding write16 write32
length-encode e t x p v a rest =
    rw
      (
        length-if_present (has_vendor_protocol e) (write16 v)
            (if_present (has_ack_id e) (write32 a) ++ rest),
        length-if_present (has_ack_id e) (write32 a) rest,
      )
      (omega arith)

-- The payload's length: 16 bits of the difference are the difference.
length_of_payload :
    (n q l t : ℕ) → n ≡ q + (l + t) → n < 2 ^ 16 → (n + (2 ^ 16 - (q + t))) % 2 ^ 16 ≡ l
length_of_payload n q l t e b = omega arith

module _ (T : Tvb) where
  open T use {memdup, memdup_lem}

  get_vendor_id_lem :
      (b : Bool) (p q : List ℕ) (o v : ℕ)
      → drop o p ≡ if_present b (write16 v) ++ q
      → v < 2 ^ 16
      → (get_vendor_id T b p o ≡ some (if b then v else 0, o + (if b then 2 else 0)))
        × (drop (o + (if b then 2 else 0)) p ≡ q)
  unfolding get_vendor_id
  get_vendor_id_lem true p q o v e l =
      (rw (letohs_at T p q o v e l) refl, rw (drop-drop o 2 p, e) (unfold write16 in refl))
  get_vendor_id_lem false p q o v e l = let z : o + 0 ≡ o = omega arith in (rw z refl, rw z e)

  get_ack_lem :
      (b : Bool) (p q : List ℕ) (o v : ℕ)
      → drop o p ≡ if_present b (write32 v) ++ q
      → v < 2 ^ 32
      → (get_ack T b p o ≡ some (if b then v else 0, o + (if b then 4 else 0)))
        × (drop (o + (if b then 4 else 0)) p ≡ q)
  unfolding get_ack
  get_ack_lem true p q o v e l =
      (rw (letohl_at T p q o v e l) refl, rw (drop-drop o 4 p, e) (unfold write32 in refl))
  get_ack_lem false p q o v e l = let z : o + 0 ≡ o = omega arith in (rw z refl, rw z e)

  memdup_at :
      (p payload trailer : List ℕ) (o : ℕ)
      → drop o p ≡ payload ++ trailer
      → length p ≡ o + (length payload + length trailer)
      → memdup p o (length payload) ≡ some payload
  memdup_at p payload trailer o e l =
      let fits : leb (o + length payload) (length p) ≡ true = ground arith in
      rw (memdup_lem p o (length payload), fits, e, take-length-append payload trailer) refl

  -- The header of a payload is dissected to the fields that were written, and the payload is what
  -- stands between the header and the trailer, for data of less than 2 ^ 16 bytes.
  pub dissect_payload_header_lem :
      (m : MatterMessageInfo) (exch_header msg_type exch_id protocol_id vendor_id ack_msg_cntr : ℕ)
      (payload trailer : List ℕ)
      → exch_id < 2 ^ 16
      → protocol_id < 2 ^ 16
      → vendor_id < 2 ^ 16
      → ack_msg_cntr < 2 ^ 32
      → m.trailer_len ≡ length trailer
      → payload_header_size exch_header + (length payload + length trailer) < 2 ^ 16
      → dissect_payload_header T
          (encode_payload_header exch_header msg_type exch_id protocol_id vendor_id ack_msg_cntr
            (payload ++ trailer))
          m
        ≡ some (
          record m {
            exch_header = exch_header;
            msg_type = msg_type;
            exch_id = exch_id;
            msg_protocol_id = protocol_id;
            msg_protocol_vendor_id = if has_vendor_protocol exch_header then vendor_id else 0;
            ack_msg_cntr = if has_ack_id exch_header then ack_msg_cntr else 0;
            payload_len = length payload;
          },
          dispatch_protocol_id protocol_id,
          payload,
        )
  unfolding dissect_payload_header
  dissect_payload_header_lem m e t x p v a payload trailer lx lp lv la k small =
      let rest = payload ++ trailer in
      let u = if_present (has_ack_id e) (write32 a) ++ rest in
      let w = if_present (has_vendor_protocol e) (write16 v) ++ u in
      let body = encode_payload_header e t x p v a rest in
      let size : length body ≡ payload_header_size e + (length payload + length trailer) =
        length-encode e t x p v a rest
        ∙ ap (λ n. payload_header_size e + n) (length-append payload trailer) in
      let (vendor, behind) =
        get_vendor_id_lem (has_vendor_protocol e) body u 6 v (unfold write16 in refl) lv in
      let (ack, at_payload) =
        get_ack_lem (has_ack_id e) body rest (6 + (if has_vendor_protocol e then 2 else 0)) a behind
          la in
      rw
        (
          guint8_at T body (t ∷ (write16 x ++ (write16 p ++ w))) 0 e refl,
          guint8_at T body (write16 x ++ (write16 p ++ w)) 1 t refl,
          letohs_at T body (write16 p ++ w) 2 x refl lx,
          letohs_at T body w 4 p (unfold write16 in refl) lp,
          vendor,
          ack,
          k,
          length_of_payload (length body) (payload_header_size e) (length payload) (length trailer)
              size (rw size small),
          memdup_at body payload trailer (payload_header_size e) at_payload size,
        )
        refl
