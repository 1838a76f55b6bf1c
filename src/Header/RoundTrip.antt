-- ===== src/Header/RoundTrip.antt =====
-- Dissecting the header of a message and of its payload gives the fields that were written.
use matter_dissector.Prelude.{
  ℕ, zero, suc, ap, sym, ◌∙◌, ◌+◌, ◌/◌, ◌%◌, ◌^◌, ◌<◌, ◌≡◌, refl, Bool, true, false, if◌then◌else◌,
  some, List, [], ◌∷◌, ◌++◌, drop, arith,
}
use matter_dissector.Encoding.{write16, write32, write64, read8}
use matter_dissector.Encoding.Laws.{read16-write16, read32-write32, read64-write64}
use matter_dissector.Tvb.{Tvb}
use matter_dissector.Message.{MatterMessageInfo}
use matter_dissector.Header.{
  has_source_node_id, has_dest_node_id, dissect_message_header, message_start, get_node_id,
}

-- A field that is on the wire only if a flag says so.
abbrev pub if_present : Bool → List ℕ → List ℕ
if_present true bytes = bytes
if_present false bytes = []

-- The header as Matter lays it out, without a group id.
abbrev pub encode_message_header :
    (msg_flags session_id sec_flags msg_id src_node_id dest_node_id : ℕ) → List ℕ → List ℕ
encode_message_header msg_flags session_id sec_flags msg_id src_node_id dest_node_id rest =
    msg_flags
    ∷ (write16 session_id
        ++ (sec_flags
            ∷ (write32 msg_id
                ++ (if_present (has_source_node_id msg_flags) (write64 src_node_id)
                    ++ (if_present (has_dest_node_id msg_flags) (write64 dest_node_id) ++ rest)))))

drop-nil : (n : ℕ) → drop {A = ℕ} n [] ≡ []
drop-nil zero = refl
drop-nil (suc n) = refl

pub drop-drop : (m n : ℕ) (p : List ℕ) → drop (m + n) p ≡ drop n (drop m p)
drop-drop zero n p = ap (λ k. drop k p) (omega arith)
drop-drop (suc m) n [] = drop-nil (suc m + n) ∙ sym (drop-nil n)
drop-drop (suc m) n (x ∷ p) =
    let e : suc m + n ≡ suc (m + n) = omega arith in rw e (drop-drop m n p)

drop_0 : (p : List ℕ) → drop 0 p ≡ p
drop_0 p = refl

module _ (T : Tvb) where
  open T use {
    get_guint8, get_letohs, get_letohl, get_letoh64, get_guint8_lem, get_letohs_lem, get_letohl_lem,
    get_letoh64_lem,
  }

  -- A read behind `n` bytes that were written before it.
  pub letohs_at :
      (p q : List ℕ) (o v : ℕ) → drop o p ≡ write16 v ++ q → v < 2 ^ 16 → get_letohs p o ≡ some v
  letohs_at p q o v e b = rw (get_letohs_lem p o, e, read16-write16 v q b) refl

  pub letohl_at :
      (p q : List ℕ) (o v : ℕ) → drop o p ≡ write32 v ++ q → v < 2 ^ 32 → get_letohl p o ≡ some v
  letohl_at p q o v e b = rw (get_letohl_lem p o, e, read32-write32 v q b) refl

  letoh64_at :
      (p q : List ℕ) (o v : ℕ) → drop o p ≡ write64 v ++ q → v < 2 ^ 64 → get_letoh64 p o ≡ some v
  letoh64_at p q o v e b = rw (get_letoh64_lem p o, e, read64-write64 v q b) refl

  pub guint8_at : (p q : List ℕ) (o v : ℕ) → drop o p ≡ v ∷ q → get_guint8 p o ≡ some v
  guint8_at p q o v e = rw (get_guint8_lem p o, e) (unfold read8 in refl)

  get_node_id_lem :
      (b : Bool) (p q : List ℕ) (o v : ℕ)
      → drop o p ≡ if_present b (write64 v) ++ q
      → v < 2 ^ 64
      → (get_node_id T b p o ≡ some (if b then v else 0, o + (if b then 8 else 0)))
        × (drop (o + (if b then 8 else 0)) p ≡ q)
  unfolding get_node_id
  get_node_id_lem true p q o v e l =
      (rw (letoh64_at p q o v e l) refl, rw (drop-drop o 8 p, e) (unfold write64 in refl))
  get_node_id_lem false p q o v e l = (refl, rw (drop-drop o 0 p, e) (drop_0 q))

  -- The message header that was written, over either transport.
  abbrev pub wire : Bool → ℕ → List ℕ → List ℕ
  wire true msg_len body = write16 msg_len ++ body
  wire false msg_len body = body

  message_start_lem :
      (is_tcp : Bool) (reported_length n : ℕ) (body : List ℕ)
      → n < 2 ^ 16
      → message_start T is_tcp reported_length (wire is_tcp n body)
        ≡ some (if is_tcp then n else reported_length % 2 ^ 16, body)
  unfolding message_start
  message_start_lem true k n body l =
      rw (letohs_at (write16 n ++ body) body 0 n refl l) (unfold write16 in refl)
  message_start_lem false k n body l = refl

  -- The message that a header is dissected to.
  abbrev pub header_of :
      (msg_flags session_id sec_flags msg_id src_node_id dest_node_id msg_len : ℕ)
      → MatterMessageInfo
  header_of msg_flags session_id sec_flags msg_id src_node_id dest_node_id msg_len = record {
    msg_version = msg_flags % 2 ^ 8 / 2 ^ 4;
    msg_flags = msg_flags;
    sec_flags = sec_flags;
    src_node_id = if has_source_node_id msg_flags then src_node_id else 0;
    dest_node_id = if has_dest_node_id msg_flags then dest_node_id else 0;
    msg_id = msg_id;
    ack_msg_cntr = 0;
    msg_protocol_id = 0;
    msg_protocol_vendor_id = 0;
    exch_id = 0;
    session_type = sec_flags % 2 ^ 2;
    session_id = session_id;
    exch_header = 0;
    msg_type = 0;
    msg_len = msg_len;
    header_len =
        (8
          + (if has_source_node_id msg_flags then 8 else 0)
          + (if has_dest_node_id msg_flags then 8 else 0))
        % 2 ^ 16;
    payload_len = 0;
    trailer_len = 0;
  }

  -- The header of a message without a group id is dissected to the fields that were written, over UDP
  -- and over TCP; a node id that is not there is 0, and the rest of the data starts with the flags. The
  -- length is the one that is written over TCP, and the low 16 bits of the reported length over UDP.
  pub dissect_message_header_lem :
      (is_tcp : Bool)
      (reported_length n msg_flags session_id sec_flags msg_id src_node_id dest_node_id : ℕ)
      (rest : List ℕ)
      → n < 2 ^ 16
      → session_id < 2 ^ 16
      → msg_id < 2 ^ 32
      → src_node_id < 2 ^ 64
      → dest_node_id < 2 ^ 64
      → (let body =
            encode_message_header msg_flags session_id sec_flags msg_id src_node_id dest_node_id
              rest in
          dissect_message_header T is_tcp reported_length (wire is_tcp n body)
          ≡ some (
            header_of msg_flags session_id sec_flags msg_id src_node_id dest_node_id
                (if is_tcp then n else reported_length % 2 ^ 16),
            body,
          ))
  unfolding dissect_message_header
  dissect_message_header_lem is_tcp k n f s c i a b rest ln ls li la lb =
      let t = if_present (has_dest_node_id f) (write64 b) ++ rest in
      let u = if_present (has_source_node_id f) (write64 a) ++ t in
      let body = encode_message_header f s c i a b rest in
      let (src, behind) =
        get_node_id_lem (has_source_node_id f) body t 8 a (unfold write16 in unfold write32 in refl)
          la in
      let (dest, _) =
        get_node_id_lem (has_dest_node_id f) body rest (8 + (if has_source_node_id f then 8 else 0))
          b behind lb in
      rw
        (
          message_start_lem is_tcp k n body ln,
          guint8_at body (write16 s ++ (c ∷ (write32 i ++ u))) 0 f refl,
          letohs_at body (c ∷ (write32 i ++ u)) 1 s refl ls,
          guint8_at body (write32 i ++ u) 3 c (unfold write16 in refl),
          letohl_at body u 4 i (unfold write16 in refl) li,
          src,
          dest,
        )
        refl
