-- ===== src/Tlv/Reader/Advance.antt =====
-- `EnsureData` and `ReadData` only move through the input: they keep the reader valid, never read
-- outside of a buffer, and end.
use matter_dissector.Prelude.{
  ℕ, zero, suc, ◌+◌, ◌-◌, ◌%◌, ◌^◌, ◌≤◌, ◌<◌, ◌≡◌, ◌≢◌, ◌∙◌, refl, Option, none, some, List, [],
  ◌∷◌, ◌++◌, arith, length, length-append, length-take, length-drop, take, drop, min, ltb,
  if◌then◌else◌, ◌==◌,
}
use matter_dissector.Tlv.Reader.State.{
  TlvReader, MatterError, tlv_underrun, Supplied, failed, supplied, IsValid, overall_len_remaining,
}
use matter_dissector.Tlv.Reader.Input.{
  use_buffer, refill, ensure_from, ensure_data, consume, read_data_loop, read_data,
}
use matter_dissector.Tlv.Reader.Ends.{Ends, returns, fails, bind, if_Ends}

-- `r'` is a valid reader of the same encoding as `r`, and not behind it.
pub record Advance (r r' : TlvReader) : Type 0 where
  pub valid : IsValid r'
  pub max_len : r'.max_len ≡ r.max_len
  pub forward : r.len_read ≤ r'.len_read

-- Besides, the element that the reader stands on and its container are the same.
pub record Moved (r r' : TlvReader) : Type 0 where
  pub advance : Advance r r'
  pub elem_tag : r'.elem_tag ≡ r.elem_tag
  pub elem_len_or_val : r'.elem_len_or_val ≡ r.elem_len_or_val
  pub control_byte : r'.control_byte ≡ r.control_byte
  pub container_type : r'.container_type ≡ r.container_type
  pub container_open : r'.container_open ≡ r.container_open
  pub implicit_profile_id : r'.implicit_profile_id ≡ r.implicit_profile_id

pub Advance-refl : {r : TlvReader} → IsValid r → Advance r r
Advance-refl v = record { valid = v; max_len = refl; forward = omega arith }

pub Advance-trans : {r s t : TlvReader} → Advance r s → Advance s t → Advance r t
Advance-trans a b = record { valid = b.valid; max_len = omega arith; forward = omega arith }

pub Moved-refl : {r : TlvReader} → IsValid r → Moved r r
Moved-refl v = record {
  advance = Advance-refl v;
  elem_tag = refl;
  elem_len_or_val = refl;
  control_byte = refl;
  container_type = refl;
  container_open = refl;
  implicit_profile_id = refl;
}

pub Moved-trans : {r s t : TlvReader} → Moved r s → Moved s t → Moved r t
Moved-trans a b = record {
  advance = Advance-trans a.advance b.advance;
  elem_tag = b.elem_tag ∙ a.elem_tag;
  elem_len_or_val = b.elem_len_or_val ∙ a.elem_len_or_val;
  control_byte = b.control_byte ∙ a.control_byte;
  container_type = b.container_type ∙ a.container_type;
  container_open = b.container_open ∙ a.container_open;
  implicit_profile_id = b.implicit_profile_id ∙ a.implicit_profile_id;
}

-- With data ensured, the buffer holds a byte and nothing was read yet.
pub record Ready (r r' : TlvReader) : Type 0 where
  pub moved : Moved r r'
  pub len_read : r'.len_read ≡ r.len_read
  pub ready : 0 < length r'.input

abbrev pub Kept : TlvReader → MatterError → TlvReader → Type 0
Kept r e r' = Moved r r'

-- A change of the input alone.
Moved-input :
    (r : TlvReader) (handle : ℕ) (input : List ℕ) (len_read : ℕ)
    → r.len_read ≤ len_read
    → len_read + length input ≤ r.max_len
    → r.max_len < 2 ^ 32
    → Moved r (record r { buf_handle = handle; input = input; len_read = len_read })
Moved-input r handle input len_read forward fits bounded = record {
  advance = record {
    valid = record { fits = fits; bounded = bounded };
    max_len = refl;
    forward = forward;
  };
  elem_tag = refl;
  elem_len_or_val = refl;
  control_byte = refl;
  container_type = refl;
  container_open = refl;
  implicit_profile_id = refl;
}

pub remaining_exact : (r : TlvReader) → IsValid r → overall_len_remaining r ≡ r.max_len - r.len_read
unfolding overall_len_remaining
remaining_exact r v = omega arith

-- The cap of `EnsureData` is the smaller of the two lengths.
capped-min :
    (remaining len : ℕ) → (if ltb remaining len then remaining else len) ≡ min remaining len
capped-min remaining len = ground arith

use_buffer-Ends :
    (e : MatterError) (s : Supplied) (r : TlvReader)
    → IsValid r
    → r.len_read ≢ r.max_len
    → Ends (λ _. Ready r) (Kept r) (use_buffer e s r)
unfolding use_buffer
use_buffer-Ends e (failed x) r v h = fails (Moved-refl v)
use_buffer-Ends e (supplied k []) r v h =
    fails (Moved-input r k r.input r.len_read (omega arith) v.fits v.bounded)
use_buffer-Ends e (supplied k (b ∷ bs)) r v h = returns (
    rw capped-min (record {
      moved =
          Moved-input r k (take n (b ∷ bs)) r.len_read (omega arith)
            (omega (arith, length-take n (b ∷ bs), remaining_exact r v)) v.bounded;
      len_read = refl;
      ready = omega (arith, length-take n (b ∷ bs), remaining_exact r v);
    }))
  where
    n : ℕ
    n = min (overall_len_remaining r) (suc (length bs))

refill-Ends :
    (e : MatterError) (next : Option (ℕ → Supplied)) (r : TlvReader)
    → IsValid r
    → r.len_read ≢ r.max_len
    → Ends (λ _. Ready r) (Kept r) (refill e next r)
unfolding refill
refill-Ends e none r v h = fails (Moved-refl v)
refill-Ends e (some next) r v h = use_buffer-Ends e (next r.buf_handle) r v h

ensure_from-Ends :
    (e : MatterError) (xs : List ℕ) (r : TlvReader)
    → IsValid r
    → r.input ≡ xs
    → Ends (λ _. Ready r) (Kept r) (ensure_from e xs r)
unfolding ensure_from
ensure_from-Ends e [] r v p =
    if_Ends (r.len_read == r.max_len) (λ _. fails (Moved-refl v))
      (λ q. refill-Ends e r.get_next_buffer r v (ground arith))
ensure_from-Ends e (b ∷ bs) r v p =
    returns (record { moved = Moved-refl v; len_read = refl; ready = rw p (omega arith) })

-- Either the buffer has data at the same place of the encoding, or there is an error.
pub ensure_data-Ends :
    (e : MatterError) (r : TlvReader) → IsValid r → Ends (λ _. Ready r) (Kept r) (ensure_data e r)
unfolding ensure_data
ensure_data-Ends e r v = ensure_from-Ends e r.input r v refl

pub consume-Ends :
    (n : ℕ) (r : TlvReader)
    → IsValid r
    → n ≤ length r.input
    → Ends
        (λ bytes r'. Moved r r' × (r'.len_read ≡ r.len_read + n) × (length bytes ≡ n))
        (Kept r)
        (consume n r)
unfolding consume
consume-Ends n r v h = returns (
  Moved-input r r.buf_handle (drop n r.input) ((r.len_read + n) % 2 ^ 32) (omega arith)
      (omega (arith, length-drop n r.input)) v.bounded,
  omega arith,
  omega (arith, length-take n r.input),
)

-- What `ReadData` of `len` bytes yields.
abbrev pub Took : TlvReader → ℕ → List ℕ → TlvReader → Type 0
Took r len bytes r' = Moved r r' × (r'.len_read ≡ r.len_read + len) × (length bytes ≡ len)

read_data_loop-Ends :
    (fuel len : ℕ) (r : TlvReader)
    → IsValid r
    → len ≤ fuel
    → Ends (Took r len) (Kept r) (read_data_loop fuel len r)
unfolding read_data_loop
read_data_loop-Ends fuel zero r v h = returns (Moved-refl v, omega arith, refl)
read_data_loop-Ends zero (suc len) r v h = absurd (omega arith)
read_data_loop-Ends (suc fuel) (suc len) r v h =
    bind (ensure_data-Ends tlv_underrun r v) (λ e s m. m)
      λ _ s ready.
        bind
          (consume-Ends (min (suc len) (length s.input)) s ready.moved.advance.valid (omega arith))
          (λ e t m. Moved-trans ready.moved m)
          λ bytes t took.
            bind
              (read_data_loop-Ends fuel (suc len - min (suc len) (length s.input)) t
                took.0.advance.valid (omega arith))
              (λ e u m. Moved-trans ready.moved (Moved-trans took.0 m))
              λ more u rest. returns {a = bytes ++ more} (
                Moved-trans ready.moved (Moved-trans took.0 rest.0),
                omega arith,
                omega (arith, length-append bytes more),
              )

-- `ReadData` takes exactly `len` bytes or fails.
pub read_data-Ends :
    (len : ℕ) (r : TlvReader) → IsValid r → Ends (Took r len) (Kept r) (read_data len r)
unfolding read_data
read_data-Ends len r v = read_data_loop-Ends len len r v (omega arith)
