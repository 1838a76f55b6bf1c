-- ===== src/Hkdf/Rfc.antt =====
-- HKDF-Expand as RFC 5869 defines it.
use matter_dissector.Prelude.{
  ℕ, zero, suc, ◌+◌, ◌-◌, ◌*◌, ◌%◌, ◌^◌, ◌<◌, ◌≤◌, ◌≡◌, refl, ltb, Bool-cases, inl, inr, true,
  false, ◌||◌, Option, some, List, [], ◌∷◌, ◌++◌, take, length, arith, ltb→lt, ltb→le, ap,
}
use matter_dissector.Hkdf.{Digest, Crypto, block_input, use_block, expand_loop, hkdf_expand}

module _ (mac : List ℕ → List ℕ) (info : List ℕ) where
  -- T(n), of which T(0) is empty.
  abbrev pub block : ℕ → List ℕ
  block zero = []
  block (suc n) = mac (block n ++ info ++ suc n ∷ [])

  -- T(k+1) | T(k+2) | ... | T(k+n)
  abbrev pub blocks : ℕ → ℕ → List ℕ
  blocks k zero = []
  blocks k (suc n) = block (suc k) ++ blocks (suc k) n

take-append_left : (n : ℕ) (xs ys : List ℕ) → n ≤ length xs → take n (xs ++ ys) ≡ take n xs
take-append_left zero xs ys h = refl
take-append_left (suc n) [] ys h = absurd (omega arith)
take-append_left (suc n) (x ∷ xs) ys h = rw (take-append_left n xs ys (omega arith))

take-append_right :
    (n : ℕ) (xs ys : List ℕ) → length xs ≤ n → take n (xs ++ ys) ≡ xs ++ take (n - length xs) ys
take-append_right n [] ys h = ap (λ (m : ℕ). take m ys) (omega arith)
take-append_right zero (x ∷ xs) ys h = absurd (omega arith)
take-append_right (suc n) (x ∷ xs) ys h =
    let e : suc n - length (x ∷ xs) ≡ n - length xs = omega arith in
    rw (take-append_right n xs ys (omega arith), e) refl

zero_below : (n : ℕ) → 0 < n → ltb 0 n ≡ true
zero_below n h = ground arith

in_range : (n m : ℕ) → 1 ≤ n → n ≤ m → (ltb n 1 || ltb m n) ≡ false
in_range n m h k = ground arith

module _ (c : Crypto) (md : Digest) (key info : List ℕ) (mac : List ℕ → List ℕ)
    (hmac_lem : (bytes : List ℕ) → c.hmac md key bytes ≡ some (mac bytes))
    (size_lem : (bytes : List ℕ) → length (mac bytes) ≡ c.md_size md)
    (positive : 0 < c.md_size md) where
  input_lem :
      (k : ℕ)
      → k < 255
      → block_input c (block mac info k) info (suc k) ≡ block mac info k ++ info ++ suc k ∷ []
  unfolding block_input
  input_lem zero h = refl
  input_lem (suc k) h = ground arith

  use_block_lem :
      (len : ℕ) (t rest : List ℕ) (loop : List ℕ → ℕ → Option (List ℕ))
      → length t ≡ c.md_size md
      → (c.md_size md ≤ len → loop t (len - c.md_size md) ≡ some (take (len - c.md_size md) rest))
      → use_block c (c.md_size md) len (some t) loop ≡ some (take len (t ++ rest))
  unfolding use_block
  use_block_lem len t rest loop e p = elim (Bool-cases (ltb len (c.md_size md))) [
    | inl b ↦ rw (b, take-append_left len t rest (omega (arith, ltb→lt _ _ b))) refl
    | inr b ↦
        rw (b, p (ltb→le _ _ b), take-append_right len t rest (omega (arith, ltb→le _ _ b)), e) refl
  ]

  -- The loop from the round k+1 on, with the n rounds that it needs.
  expand_loop_lem :
      (fuel n k len : ℕ)
      → len < fuel
      → k + n ≤ 255
      → len ≤ n * c.md_size md
      → expand_loop c fuel md key info (block mac info k) (suc k % 2 ^ 8) len
        ≡ some (take len (blocks mac info k n))
  unfolding expand_loop use_block
  expand_loop_lem zero n k len f b l = absurd (omega arith)
  expand_loop_lem (suc fuel) zero k len f b l =
      let e : len ≡ 0 = omega arith in rw (hmac_lem _, e, zero_below (c.md_size md) positive) refl
  expand_loop_lem (suc fuel) (suc n) k len f b l =
      let small : suc k % 2 ^ 8 ≡ suc k = omega arith in
      let again : (suc k + 1) % 2 ^ 8 ≡ suc (suc k) % 2 ^ 8 = omega arith in
      rw (small, input_lem k (omega arith), hmac_lem _)
        (use_block_lem len (block mac info (suc k)) (blocks mac info (suc k) n)
          (λ found rest. expand_loop c fuel md key info found ((suc k + 1) % 2 ^ 8) rest)
          (size_lem (block mac info k ++ info ++ suc k ∷ []))
          λ le. rw again (
            expand_loop_lem fuel n (suc k) (len - c.md_size md) (omega arith) (omega arith)
              (grind arith)))

  -- `HKDF_expand` is HKDF-Expand of RFC 5869: with an HMAC that does not fail and whose values have the
  -- size of the hash, the result for every length from 1 to 255 times that size is the first bytes of
  -- T(1) | ... | T(n), for each n of at most 255 blocks that are enough.
  pub hkdf_expand_lem :
      (n len : ℕ)
      → 1 ≤ len
      → n ≤ 255
      → len ≤ n * c.md_size md
      → hkdf_expand c md key info len ≡ some (take len (blocks mac info 0 n))
  unfolding hkdf_expand
  hkdf_expand_lem n len one b l =
      rw (in_range len (255 * c.md_size md) one (grind arith))
        (expand_loop_lem (suc len) n 0 len (omega arith) (omega arith) l)
