-- ===== src/Tlv/Reader/State.antt =====
-- The members of `TLVReader` (MatterTLV.h) and the effects of its methods.
-- A method takes the reader and yields the reader it leaves, on an error too. `fault` stands for a
-- read outside of a buffer and `out_of_fuel` for a loop that was not given enough rounds; neither
-- is a result of the source.
use matter_dissector.Prelude.{
  ℕ, ◌+◌, ◌-◌, ◌%◌, ◌^◌, ◌≤◌, ◌<◌, Bool, false, Option, none, some, List, if◌then◌else◌, length,
  ◌==◌,
}
use matter_dissector.Tlv.Types.{TlvType, not_specified, code}
use matter_dissector.Tlv.Tags.{anonymous_tag, profile_id_not_specified}

-- The codes of MatterError.h that the reader returns. `supplier_error` is any code that a
-- `GetNextBuffer` callback fails with.
pub data MatterError : Type 0 where
  end_of_tlv tlv_underrun invalid_tlv_element invalid_tlv_tag : MatterError
  unknown_implicit_tlv_tag wrong_tlv_type unexpected_tlv_element : MatterError
  incorrect_state buffer_too_small no_memory invalid_argument message_incomplete : MatterError
  supplier_error : ℕ → MatterError

-- What a `GetNextBuffer` callback answers: an error, or a new handle with the next bytes.
pub data Supplied : Type 0 where
  failed : ℕ → Supplied
  supplied : ℕ → List ℕ → Supplied

-- `input` is the bytes from `mReadPoint` to `mBufEnd`. A callback gets the handle, and is taken to
-- change nothing else of the reader.
pub record TlvReader : Type 0 where
  pub elem_tag : ℕ
  pub elem_len_or_val : ℕ
  pub buf_handle : ℕ
  pub input : List ℕ
  pub len_read : ℕ
  pub max_len : ℕ
  pub container_type : TlvType
  pub control_byte : ℕ
  pub container_open : Bool
  pub implicit_profile_id : ℕ
  pub app_data : ℕ
  pub get_next_buffer : Option (ℕ → Supplied)

pub data Outcome {ℓ} (A : Type ℓ) : Type ℓ where
  ok : A → TlvReader → Outcome A
  err : MatterError → TlvReader → Outcome A
  fault : Outcome A
  out_of_fuel : Outcome A

-- `kTLVControlByte_NotSpecified`
abbrev pub control_byte_not_specified : ℕ
control_byte_not_specified = 0xFFFF

abbrev pub Method {ℓ} : Type ℓ → Type ℓ
Method A = TlvReader → Outcome A

abbrev pub pure {ℓ} : {A : Type ℓ} → A → Method A
pure a r = ok a r

abbrev pub fail {ℓ} : {A : Type ℓ} → MatterError → Method A
fail e r = err e r

-- What follows a step runs only if the step succeeds.
abbrev pub and_then {ℓ κ} : {A : Type ℓ} {B : Type κ} → Outcome A → (A → Method B) → Outcome B
and_then (ok a r) f = f a r
and_then (err e r) f = err e r
and_then fault f = fault
and_then out_of_fuel f = out_of_fuel

infixl 5 ◌>>=◌ ◌>>◌
abbrev pub ◌>>=◌ {ℓ κ} : {A : Type ℓ} {B : Type κ} → Method A → (A → Method B) → Method B
◌>>=◌ m f r = and_then (m r) f

abbrev pub ◌>>◌ {ℓ} : {B : Type ℓ} → Method (Unit {0}) → Method B → Method B
m >> k = m >>= λ _. k

-- `if (!b) return e;`
abbrev pub verify : Bool → MatterError → Method (Unit {0})
verify b e r = if b then ok tt r else err e r

abbrev pub modify : (TlvReader → TlvReader) → Method (Unit {0})
modify f r = ok tt (f r)

-- A read through a pointer, which must stay in the buffer.
abbrev pub within {ℓ} : {A : Type ℓ} → Option A → Method A
within none r = fault
within (some a) r = ok a r

-- `ElementType`, of which -1 is the value before the first element.
unfoldable pub element_type : TlvReader → TlvType
element_type r =
    if r.control_byte == control_byte_not_specified
    then not_specified
    else code (r.control_byte % 2 ^ 5)

unfoldable pub clear_element_state : TlvReader → TlvReader
clear_element_state r = record r {
  elem_tag = anonymous_tag;
  control_byte = control_byte_not_specified;
  elem_len_or_val = 0;
}

-- `Init` over one buffer.
unfoldable pub init : List ℕ → TlvReader
init buffer = record {
  elem_tag = anonymous_tag;
  elem_len_or_val = 0;
  buf_handle = 0;
  input = buffer;
  len_read = 0;
  max_len = length buffer;
  container_type = not_specified;
  control_byte = control_byte_not_specified;
  container_open = false;
  implicit_profile_id = profile_id_not_specified;
  app_data = 0;
  get_next_buffer = none;
}

-- `Init` from another reader, over a reader with any members.
unfoldable pub init_from : TlvReader → TlvReader → TlvReader
init_from reader r = record {
  elem_tag = reader.elem_tag;
  elem_len_or_val = reader.elem_len_or_val;
  buf_handle = reader.buf_handle;
  input = reader.input;
  len_read = reader.len_read;
  max_len = reader.max_len;
  control_byte = reader.control_byte;
  container_type = reader.container_type;
  container_open = reader.container_open;
  implicit_profile_id = reader.implicit_profile_id;
  app_data = reader.app_data;
  get_next_buffer = reader.get_next_buffer;
}

-- `mMaxLen - mLenRead` in `uint32_t`, which is `GetRemainingLength` too.
unfoldable pub overall_len_remaining : TlvReader → ℕ
overall_len_remaining r = (r.max_len + 2 ^ 32 - r.len_read) % 2 ^ 32

-- The buffer holds no more than the encoding has left, and its length is a `uint32_t`.
pub record IsValid (r : TlvReader) : Type 0 where
  pub fits : r.len_read + length r.input ≤ r.max_len
  pub bounded : r.max_len < 2 ^ 32
