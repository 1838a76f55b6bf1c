-- ===== src/Hkdf.antt =====
-- HKDF.c: the derivation of keys with HMAC, which is OpenSSL's and an argument here.
pub mod Rfc
use matter_dissector.Prelude.{
  ℕ, zero, suc, ◌+◌, ◌-◌, ◌*◌, ◌%◌, ◌^◌, Bool, true, false, ◌||◌, ltb, if◌then◌else◌, Option, none,
  some, List, [], ◌∷◌, ◌++◌, take, length,
}

-- The hash functions that the dissector uses.
pub data Digest : Type 0 where
  sha1 sha256 : Digest

-- What is used of OpenSSL: the size of a hash, the hash of bytes, and HMAC of a key and bytes, which may
-- fail.
pub record Crypto : Type 0 where
  pub md_size : Digest → ℕ
  pub hash : Digest → List ℕ → List ℕ
  pub hmac : Digest → List ℕ → List ℕ → Option (List ℕ)

module _ (c : Crypto) where
  -- `HKDF_extract`
  unfoldable pub hkdf_extract : Digest → List ℕ → List ℕ → Option (List ℕ)
  hkdf_extract md salt in_key = c.hmac md salt in_key

  -- What is hashed in a round: the block before, the information, and the round's number, a byte.
  unfoldable pub block_input : List ℕ → List ℕ → ℕ → List ℕ
  block_input previous info hash_num =
      (if ltb 1 hash_num then previous else []) ++ info ++ hash_num ∷ []

  abbrev prepend : List ℕ → Option (List ℕ) → Option (List ℕ)
  prepend bytes none = none
  prepend bytes (some rest) = some (bytes ++ rest)

  -- A round that has its hash.
  unfoldable pub use_block :
      ℕ → ℕ → Option (List ℕ) → (List ℕ → ℕ → Option (List ℕ)) → Option (List ℕ)
  use_block size out_key_len none loop = none
  use_block size out_key_len (some block) loop =
      if ltb out_key_len size
      then some (take out_key_len block)
      else prepend block (loop block (out_key_len - size))

  -- The loop of `HKDF_expand`: the bytes that it stores.
  unfoldable pub expand_loop : ℕ → Digest → List ℕ → List ℕ → List ℕ → ℕ → ℕ → Option (List ℕ)
  unfolding use_block
  expand_loop zero md pr_key info previous hash_num out_key_len = none
  expand_loop (suc fuel) md pr_key info previous hash_num out_key_len =
      use_block (c.md_size md) out_key_len (c.hmac md pr_key (block_input previous info hash_num))
        λ block rest. expand_loop fuel md pr_key info block ((hash_num + 1) % 2 ^ 8) rest

  -- `HKDF_expand`. Each round but the last stores a byte at least.
  unfoldable pub hkdf_expand : Digest → List ℕ → List ℕ → ℕ → Option (List ℕ)
  unfolding expand_loop
  hkdf_expand md pr_key info out_key_len =
      if ltb out_key_len 1 || ltb (255 * c.md_size md) out_key_len
      then none
      else expand_loop (suc out_key_len) md pr_key info [] 1 out_key_len
