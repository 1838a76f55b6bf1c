-- ===== src/Tlv/Reader/Reads.antt =====
-- The typed reads end, read no byte outside of the buffers, and never go back.
use matter_dissector.Prelude.{
  ℕ, ◌+◌, ◌-◌, ◌%◌, ◌^◌, ◌≤◌, ◌<◌, ◌≡◌, refl, Bool, true, false, not, Option, none, some, List,
  length, ltb, leb, ◌==◌, if◌then◌else◌, arith,
}
use matter_dissector.Tlv.Types.{
  TlvType, not_specified, unknown_container, code, has_code, int8, int16, int32, uint64,
  boolean_false, boolean_true, floating_point_number32, floating_point_number64, to_uint8,
  tlv_type_is_string,
}
use matter_dissector.Tlv.Reader.State.{
  TlvReader, MatterError, Outcome, ok, err, Method, IsValid, element_type, tlv_underrun, pure,
  ◌>>=◌, verify, wrong_tlv_type, no_memory,
}
use matter_dissector.Tlv.Reader.Ends.{Ends, returns, fails, bind, mono, if_method-Ends}
use matter_dissector.Tlv.Reader.Advance.{
  Advance, Advance-refl, Ready, read_data-Ends, ensure_data-Ends,
}
use matter_dissector.Tlv.Reader.Progress.{Advance-same}
use matter_dissector.Tlv.Reader.Moves.{Safe}
use matter_dissector.Tlv.Reader.Values.{
  get_uint64, get_int64, get_bool, get_double, dup_string, get_data_ptr, get_length, read_data_into,
  end_string, integer_of,
}

-- Safe on the encodings of fewer than 2^32 - 1 bytes, which every datagram's are.
abbrev pub SafeSmall : {A : Type 0} → (TlvReader → Outcome A) → Type 0
SafeSmall m =
    (r : TlvReader)
    → IsValid r
    → r.max_len < 2 ^ 32 - 1
    → Ends (λ _. Advance r) (λ _. Advance r) (m r)

pub Safe-SafeSmall : {A : Type 0} {m : TlvReader → Outcome A} → Safe m → SafeSmall m
Safe-SafeSmall p r v b = p r v

-- A read of the element's value leaves the reader where it is.
data Still {A : Type 0} (r : TlvReader) : Outcome A → Type 0 where
  answers : {a : A} → Still r (ok a r)
  refuses : {e : MatterError} → Still r (err e r)

module _ {A : Type 0} where
  Still-if :
      (r : TlvReader) (b : Bool) {m k : Outcome A}
      → Still r m
      → Still r k
      → Still r (if b then m else k)
  Still-if r true p q = p
  Still-if r false p q = q

  Still-Ends :
      {r : TlvReader} {o : Outcome A}
      → IsValid r
      → Still r o
      → Ends (λ _. Advance r) (λ _. Advance r) o
  Still-Ends v answers = returns (Advance-refl v)
  Still-Ends v refuses = fails (Advance-refl v)

integer_of-Still : (c v : ℕ) (r : TlvReader) → Still r (integer_of c v r)
integer_of-Still c v r = Still-if r (c == int8) answers (
    Still-if r (c == int16) answers
      (Still-if r (c == int32) answers (Still-if r (leb c uint64) answers refuses)))

pub get_uint64-Safe : SafeSmall get_uint64
unfolding get_uint64
get_uint64-Safe r v b = by_type (element_type r)
  where
    by_type :
        (t : TlvType)
        → Ends
            (λ _. Advance r)
            (λ _. Advance r)
            (elim t [ code c ↦ integer_of c r.elem_len_or_val r | _ ↦ err wrong_tlv_type r ])
    by_type not_specified = fails (Advance-refl v)
    by_type unknown_container = fails (Advance-refl v)
    by_type (code c) = Still-Ends v (integer_of-Still c r.elem_len_or_val r)

pub get_int64-Safe : SafeSmall get_int64
unfolding get_int64
get_int64-Safe r v b = bind (get_uint64-Safe r v b) (λ _ s a. a) λ _ s a. returns a

pub get_bool-Safe : SafeSmall get_bool
unfolding get_bool
get_bool-Safe r v b = Still-Ends v (
    Still-if r (has_code (element_type r) boolean_false) answers
      (Still-if r (has_code (element_type r) boolean_true) answers refuses))

pub get_double-Safe : SafeSmall get_double
unfolding get_double
get_double-Safe r v b = Still-Ends v (
    Still-if r (has_code (element_type r) floating_point_number32) answers
      (Still-if r (has_code (element_type r) floating_point_number64) answers refuses))

check_then :
    {A : Type 0} {P : A → TlvReader → Type 0} (b : Bool) (e : MatterError) (r : TlvReader)
    (k : Unit {0} → Method A)
    → IsValid r
    → Ends P (λ _. Advance r) (k tt r)
    → Ends P (λ _. Advance r) ((verify b e >>= k) r)
check_then true e r k v p = p
check_then false e r k v p = fails (Advance-refl v)

-- What `DupString` leaves of a string with the length `len`: a block that holds its bytes and the
-- terminating zero, or a copy past the block, which has no bytes since its size has wrapped to zero.
pub data InBlock (len : ℕ) : Option (List ℕ) → Type 0 where
  holds :
      {bytes : List ℕ}
      → length bytes ≡ len % 2 ^ 32
      → length bytes < (len + 1) % 2 ^ 64
      → InBlock len (some bytes)
  past : (len + 1) % 2 ^ 64 ≡ 0 → InBlock len none

abbrev Copied : ℕ → Option (List ℕ) → Type 0
Copied len none = (len + 1) % 2 ^ 64 ≡ 0
Copied len (some bytes) = (length bytes ≡ len % 2 ^ 32) × (len % 2 ^ 64 < (len + 1) % 2 ^ 64)

read_data_into-Ends :
    (len : ℕ) (r : TlvReader)
    → IsValid r
    → Ends
        (λ o s. Advance r s × Copied len o)
        (λ _. Advance r)
        (read_data_into (len % 2 ^ 32) ((len + 1) % 2 ^ 64) r)
unfolding read_data_into
read_data_into-Ends len r v =
    if_method-Ends (leb (len % 2 ^ 32) ((len + 1) % 2 ^ 64)) _ _ r
      (λ e.
        bind (read_data-Ends (len % 2 ^ 32) r v) (λ _ s m. m.advance)
          λ bytes s took. returns (took.0.advance, (took.2, ground arith)))
      (λ e.
        bind (read_data-Ends ((len + 1) % 2 ^ 64 + 1) r v) (λ _ s m. m.advance)
          λ bytes s took. returns (took.0.advance, ground arith))

end_string-Ends :
    (len : ℕ) (r : TlvReader) (o : Option (List ℕ)) (s : TlvReader)
    → Advance r s × Copied len o
    → Ends (λ p t. Advance r t × InBlock len p) (λ _. Advance r) (end_string len o s)
unfolding end_string
end_string-Ends len r none s (a, e) = returns (a, past e)
end_string-Ends len r (some bytes) s (a, (e, l)) =
    let fit : ltb (len % 2 ^ 64) ((len + 1) % 2 ^ 64) ≡ true = ground arith in
    rw fit (
      returns (
        Advance-same a (record { input = refl; len_read = refl; max_len = refl }),
        holds e (omega arith),
      ))

-- On every valid reader of an encoding of fewer than 2^32 - 1 bytes, whatever sizes `malloc` can give,
-- `DupString` ends, reads no byte outside of the buffers, and leaves a valid reader that is not behind
-- the old one. If it succeeds the block that it allocates has room for the bytes that it copies, as many as
-- the low 32 bits of the length say, and for the terminating zero; only for a length of which the size of
-- the block wraps to zero does the copy go past the block.
pub dup_string-Safe :
    (malloc : ℕ → Bool) (r : TlvReader)
    → IsValid r
    → r.max_len < 2 ^ 32 - 1
    → Ends (λ o s. Advance r s × InBlock r.elem_len_or_val o) (λ _. Advance r) (dup_string malloc r)
unfolding dup_string
dup_string-Safe malloc r v b =
    check_then (tlv_type_is_string (to_uint8 (element_type r))) wrong_tlv_type r _ v (
      check_then (malloc ((r.elem_len_or_val + 1) % 2 ^ 64)) no_memory r _ v (
        bind (read_data_into-Ends r.elem_len_or_val r v) (λ e s a. a)
          λ o s p. end_string-Ends r.elem_len_or_val r o s p))

pub dup_string-SafeSmall : (malloc : ℕ → Bool) → SafeSmall (dup_string malloc)
dup_string-SafeSmall malloc r v b = mono (dup_string-Safe malloc r v b) (λ o s p. p.0) λ e s a. a

short_length :
    (r s : TlvReader)
    → r.max_len < 2 ^ 32 - 1
    → Ready r s
    → ltb (length s.input % 2 ^ 32) (r.elem_len_or_val % 2 ^ 32) ≡ false
    → get_length s ≤ length s.input
unfolding get_length
short_length r s b ready e =
    let same = ready.moved.elem_len_or_val in
    let fits = ready.moved.advance.valid.fits in
    let long = ready.moved.advance.max_len in ground arith

-- The pointer has as many bytes behind it as `GetLength` says.
pub get_data_ptr-Ends :
    (r : TlvReader)
    → IsValid r
    → r.max_len < 2 ^ 32 - 1
    → Ends
        (λ bytes s. Advance r s × (get_length s ≤ length bytes))
        (λ _. Advance r)
        (get_data_ptr r)
unfolding get_data_ptr
get_data_ptr-Ends r v b =
    check_then (tlv_type_is_string (to_uint8 (element_type r))) wrong_tlv_type r _ v (
      bind (ensure_data-Ends tlv_underrun r v) (λ e s m. m.advance)
        λ _ s ready.
          check_length (ltb (length s.input % 2 ^ 32) (r.elem_len_or_val % 2 ^ 32)) s ready refl)
  where
    check_length :
        (c : Bool) (s : TlvReader)
        → Ready r s
        → ltb (length s.input % 2 ^ 32) (r.elem_len_or_val % 2 ^ 32) ≡ c
        → Ends
            (λ bytes t. Advance r t × (get_length t ≤ length bytes))
            (λ _. Advance r)
            ((verify (not c) tlv_underrun >>= λ _. pure s.input) s)
    check_length true s ready e = fails ready.moved.advance
    check_length false s ready e = returns (ready.moved.advance, short_length r s b ready e)

pub get_data_ptr-Safe : SafeSmall get_data_ptr
get_data_ptr-Safe r v b = mono (get_data_ptr-Ends r v b) (λ o s p. p.0) λ e s a. a
