-- ===== src/Tlv/Reader/Input.antt =====
-- `EnsureData` and `ReadData`: the buffers behind the reader.
use matter_dissector.Prelude.{
  ℕ, zero, suc, ◌+◌, ◌-◌, ◌%◌, ◌^◌, Option, none, some, List, [], ◌∷◌, ◌++◌, ◌==◌, ltb,
  if◌then◌else◌, length, take, drop, min,
}
use matter_dissector.Tlv.Reader.State.{
  MatterError, tlv_underrun, supplier_error, Supplied, failed, supplied, ok, err, out_of_fuel,
  Method, pure, ◌>>=◌, ◌>>◌, overall_len_remaining,
}

-- The part of `EnsureData` behind the callback. A callback that supplies no byte is taken to leave
-- `mReadPoint` where it was.
unfoldable pub use_buffer : MatterError → Supplied → Method (Unit {0})
unfolding overall_len_remaining
use_buffer no_data_err (failed e) r = err (supplier_error e) r
use_buffer no_data_err (supplied handle []) r = err no_data_err (record r { buf_handle = handle })
use_buffer no_data_err (supplied handle (b ∷ bs)) r =
    let buf_len = length (b ∷ bs) in
    let remaining = overall_len_remaining r in
    let capped = if ltb remaining buf_len then remaining else buf_len in
    ok tt (record r { buf_handle = handle; input = take capped (b ∷ bs) })

unfoldable pub refill : MatterError → Option (ℕ → Supplied) → Method (Unit {0})
unfolding use_buffer
refill no_data_err none r = err no_data_err r
refill no_data_err (some next) r = use_buffer no_data_err (next r.buf_handle) r

unfoldable pub ensure_from : MatterError → List ℕ → Method (Unit {0})
unfolding refill
ensure_from no_data_err [] r =
    if r.len_read == r.max_len then err no_data_err r else refill no_data_err r.get_next_buffer r
ensure_from no_data_err (b ∷ bs) r = ok tt r

-- The bytes of `ensure_from` are those from `mReadPoint` to `mBufEnd`.
unfoldable pub ensure_data : MatterError → Method (Unit {0})
unfolding ensure_from
ensure_data no_data_err r = ensure_from no_data_err r.input r

-- Takes `n` bytes of the buffer; `mLenRead` is a `uint32_t`.
unfoldable pub consume : ℕ → Method (List ℕ)
consume n r =
    ok (take n r.input) (record r { input = drop n r.input; len_read = (r.len_read + n) % 2 ^ 32 })

-- The loop of `ReadData`. It yields the bytes that the source copies, if it has a buffer for them.
unfoldable pub read_data_loop : ℕ → ℕ → Method (List ℕ)
unfolding consume
read_data_loop fuel zero r = ok [] r
read_data_loop zero (suc len) r = out_of_fuel
read_data_loop (suc fuel) (suc len) r =
    (do
      ensure_data tlv_underrun
      read_len ← λ r. ok (min (suc len) (length r.input)) r
      bytes ← consume read_len
      more ← read_data_loop fuel (suc len - read_len)
      pure (bytes ++ more))
      r

-- Each round takes a byte at least, so `len` rounds are enough.
unfoldable pub read_data : ℕ → Method (List ℕ)
unfolding read_data_loop
read_data len = read_data_loop len len
