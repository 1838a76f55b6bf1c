-- ===== src/Tvb/Bytes.antt =====
-- The reads of a `tvbuff_t` on a list of bytes, which show that what is assumed of them can be met.
use matter_dissector.Prelude.{◌+◌, refl, leb, if◌then◌else◌, none, some, length, take, drop}
use matter_dissector.Encoding.{read8, read16, read32, read64}
use matter_dissector.Tvb.{Tvb, value_of}

abbrev pub bytes_tvb : Tvb
bytes_tvb = record {
  get_guint8 = λ p o. value_of (read8 (drop o p));
  get_letohs = λ p o. value_of (read16 (drop o p));
  get_letohl = λ p o. value_of (read32 (drop o p));
  get_letoh64 = λ p o. value_of (read64 (drop o p));
  memdup = λ p o n. if leb (o + n) (length p) then some (take n (drop o p)) else none;
  get_guint8_lem = λ p o. refl;
  get_letohs_lem = λ p o. refl;
  get_letohl_lem = λ p o. refl;
  get_letoh64_lem = λ p o. refl;
  memdup_lem = λ p o n. refl;
}
