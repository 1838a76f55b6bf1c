-- ===== src/Tlv/Reader/Values.antt =====
-- The typed reads of MatterTLVReader.cpp. A signed integer is its bit pattern, as in the source's
-- casts, and `malloc` is a parameter that says which sizes it can give.
use matter_dissector.Prelude.{
  ℕ, ◌+◌, ◌-◌, ◌%◌, ◌^◌, Bool, true, false, not, Option, none, some, List, ◌==◌, ltb, leb,
  if◌then◌else◌, length,
}
use matter_dissector.Tlv.Types.{
  code, has_code, to_uint8, tlv_type_is_string, tlv_type_has_length, int8, int16, int32, uint64,
  boolean_false, boolean_true, floating_point_number32, floating_point_number64,
}
use matter_dissector.Tlv.Reader.State.{
  TlvReader, tlv_underrun, wrong_tlv_type, buffer_too_small, no_memory, ok, err, fault, Method,
  pure, ◌>>=◌, ◌>>◌, verify, modify, element_type,
}
use matter_dissector.Tlv.Reader.Input.{ensure_data, read_data}

unfoldable pub get_length : TlvReader → ℕ
unfolding element_type
get_length r =
    if tlv_type_has_length (to_uint8 (element_type r)) then r.elem_len_or_val % 2 ^ 32 else 0

unfoldable pub get_bool : Method Bool
unfolding element_type
get_bool r =
    if has_code (element_type r) boolean_false
    then ok false r
    else if has_code (element_type r) boolean_true
    then ok true r
    else err wrong_tlv_type r

-- `(int64_t) (intW_t) v` as a `uint64_t`.
unfoldable pub sign_extend : ℕ → ℕ → ℕ
sign_extend w v =
    let low = v % 2 ^ w in if ltb low (2 ^ (w - 1)) then low else low + (2 ^ 64 - 2 ^ w)

abbrev pub integer_of : ℕ → ℕ → Method ℕ
integer_of c v r =
    if c == int8
    then ok (sign_extend 8 v) r
    else if c == int16
    then ok (sign_extend 16 v) r
    else if c == int32
    then ok (sign_extend 32 v) r
    else if leb c uint64
    then ok v r
    else err wrong_tlv_type r

unfoldable pub get_uint64 : Method ℕ
unfolding element_type sign_extend
get_uint64 r = elim (element_type r) [
  | code c ↦ integer_of c r.elem_len_or_val r
  | _ ↦ err wrong_tlv_type r
]

unfoldable pub get_int8 : Method ℕ
get_int8 = do v64 ← get_uint64; pure (v64 % 2 ^ 8)

unfoldable pub get_int16 : Method ℕ
get_int16 = do v64 ← get_uint64; pure (v64 % 2 ^ 16)

unfoldable pub get_int32 : Method ℕ
get_int32 = do v64 ← get_uint64; pure (v64 % 2 ^ 32)

unfoldable pub get_int64 : Method ℕ
get_int64 = do v64 ← get_uint64; pure (v64 % 2 ^ 64)

unfoldable pub get_uint8 : Method ℕ
get_uint8 = do v64 ← get_uint64; pure (v64 % 2 ^ 8)

unfoldable pub get_uint16 : Method ℕ
get_uint16 = do v64 ← get_uint64; pure (v64 % 2 ^ 16)

unfoldable pub get_uint32 : Method ℕ
get_uint32 = do v64 ← get_uint64; pure (v64 % 2 ^ 32)

-- The bits of a `float` or of a `double`; the widening of a `float` is left to the reader.
pub data FloatBits : Type 0 where
  single double : ℕ → FloatBits

unfoldable pub get_double : Method FloatBits
unfolding element_type
get_double r =
    if has_code (element_type r) floating_point_number32
    then ok (single (r.elem_len_or_val % 2 ^ 32)) r
    else if has_code (element_type r) floating_point_number64
    then ok (double r.elem_len_or_val) r
    else err wrong_tlv_type r

-- `if (!TLVTypeIsString(ElementType())) return MATTER_ERROR_WRONG_TLV_TYPE;`
abbrev check_string : Method (Unit {0})
check_string r = verify (tlv_type_is_string (to_uint8 (element_type r))) wrong_tlv_type r

abbrev clear_length : Method (Unit {0})
clear_length = modify (λ r. record r { elem_len_or_val = 0 })

-- The result is what the buffer of `buf_size` bytes holds in front.
unfoldable pub get_bytes : ℕ → Method (List ℕ)
unfolding element_type
get_bytes buf_size r =
    (do
      check_string
      verify (not (ltb buf_size r.elem_len_or_val)) buffer_too_small
      bytes ← read_data (r.elem_len_or_val % 2 ^ 32)
      clear_length
      pure bytes)
      r

-- A store at `index` of a buffer of `size` bytes.
abbrev pub store_at : ℕ → ℕ → Method (Unit {0})
store_at index size r = if ltb index size then ok tt r else fault

-- The result is the text in front of the terminating zero.
unfoldable pub get_string : ℕ → Method (List ℕ)
unfolding element_type
get_string buf_size r =
    (do
      check_string
      verify (not (ltb buf_size ((r.elem_len_or_val + 1) % 2 ^ 64))) buffer_too_small
      store_at r.elem_len_or_val buf_size
      get_bytes (buf_size - 1))
      r

-- `ReadData` of `len` bytes into a block of `size` bytes. `none` is a copy past the block's end, which
-- its first byte behind the block is.
unfoldable pub read_data_into : ℕ → ℕ → Method (Option (List ℕ))
read_data_into len size =
    if leb len size
    then (do bytes ← read_data len; pure (some bytes))
    else (do _ ← read_data (size + 1); pure none)

-- `dst[mElemLenOrVal] = 0; mElemLenOrVal = 0;`
unfoldable pub end_string : ℕ → Option (List ℕ) → Method (Option (List ℕ))
end_string len none = pure none
end_string len (some bytes) = do
  store_at (len % 2 ^ 64) ((len + 1) % 2 ^ 64)
  clear_length
  pure (some bytes)

module _ (malloc : ℕ → Bool) where
  -- The result is the new block's contents, whose length is `dataLen`.
  unfoldable pub dup_bytes : Method (List ℕ × ℕ)
  unfolding element_type
  dup_bytes r =
      (do
        check_string
        verify (malloc r.elem_len_or_val) no_memory
        bytes ← read_data (r.elem_len_or_val % 2 ^ 32)
        clear_length
        pure (bytes, r.elem_len_or_val % 2 ^ 32))
        r

  -- The result is the block's contents in front of the terminating zero, or `none` where `ReadData` has
  -- copied past the end of the block.
  unfoldable pub dup_string : Method (Option (List ℕ))
  unfolding element_type read_data_into end_string
  dup_string r =
      (do
        check_string
        verify (malloc ((r.elem_len_or_val + 1) % 2 ^ 64)) no_memory
        block ← read_data_into (r.elem_len_or_val % 2 ^ 32) ((r.elem_len_or_val + 1) % 2 ^ 64)
        end_string r.elem_len_or_val block)
        r

-- The pointer is the list of the bytes from it on.
unfoldable pub get_data_ptr : Method (List ℕ)
unfolding element_type
get_data_ptr r =
    (do
      check_string
      ensure_data tlv_underrun
      data_point ← λ r. ok r.input r
      verify (not (ltb (length data_point % 2 ^ 32) (r.elem_len_or_val % 2 ^ 32))) tlv_underrun
      pure data_point)
      r
