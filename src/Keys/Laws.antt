-- ===== src/Keys/Laws.antt =====
-- What an addition to the table of keys leaves.
use matter_dissector.Prelude.{
  ℕ, ==_refl, ◌≡◌, ◌≢◌, refl, true, false, Option, none, some, List, [], ◌∷◌, length, All, arith,
  is_some,
}
use matter_dissector.Wmem.{WmemTree}
use matter_dissector.Keys.{
  MessageEncryptionKey, same_bytes, is_same_key, chain_of, find_same, find_keys_by_id, add_new,
  add_key,
}

same_bytes_refl : (bs : List ℕ) → same_bytes bs bs ≡ true
unfolding same_bytes
same_bytes_refl [] = refl
same_bytes_refl (b ∷ bs) = rw (==_refl b, same_bytes_refl bs)

is_same_key_refl : (k : MessageEncryptionKey) → is_same_key k k ≡ true
unfolding is_same_key
is_same_key_refl k =
    rw (==_refl k.session_type, ==_refl (length k.data_enc_key)) (same_bytes_refl k.data_enc_key)

-- No key of the chain is the same as one behind it.
abbrev pub NoRepeats : List MessageEncryptionKey → Type 0
NoRepeats [] = Unit
NoRepeats (k ∷ ks) = All (λ j. is_same_key j k ≡ false) ks × NoRepeats ks

find_same-none :
    (k : MessageEncryptionKey) (ks : List MessageEncryptionKey)
    → find_same k ks ≡ none
    → All (λ j. is_same_key j k ≡ false) ks
unfolding find_same
find_same-none k [] h = tt
find_same-none k (j ∷ ks) h = ground (arith, find_same-none k ks)

module _ (W : WmemTree (List MessageEncryptionKey)) where
  open W use {Tree, lookup, insert, lookup-insert_self, lookup-insert_ne}

  pub find_insert :
      (i : ℕ) (ks : List MessageEncryptionKey) (t : Tree)
      → find_keys_by_id W i (insert (i ∷ []) ks t) ≡ ks
  unfolding find_keys_by_id chain_of
  find_insert i ks t = rw (lookup-insert_self (i ∷ []) ks t) refl

  pub own :
      (o : Option MessageEncryptionKey) (k : MessageEncryptionKey) (t : Tree)
      → find_same k (find_keys_by_id W k.key_id t) ≡ o
      → NoRepeats (find_keys_by_id W k.key_id t)
      → NoRepeats (find_keys_by_id W k.key_id (add_new W o k t).1)
        × (is_some (find_same k (find_keys_by_id W k.key_id (add_new W o k t).1)) ≡ true)
  unfolding add_new find_same
  own (some j) k t h n = (n, rw h refl)
  own none k t h n =
      rw (find_insert k.key_id (k ∷ find_keys_by_id W k.key_id t) t)
        ((find_same-none k (find_keys_by_id W k.key_id t) h, n), rw (is_same_key_refl k) refl)

  pub others :
      (o : Option MessageEncryptionKey) (k : MessageEncryptionKey) (t : Tree) (j : ℕ)
      → j ≢ k.key_id
      → find_keys_by_id W j (add_new W o k t).1 ≡ find_keys_by_id W j t
  unfolding add_new find_keys_by_id
  others (some i) k t j a = refl
  others none k t j a =
      rw
        (lookup-insert_ne (j ∷ []) (k.key_id ∷ []) (k ∷ find_keys_by_id W k.key_id t) t (λ e. a cc))
        refl

  -- `AddKey` keeps the chain of the key's id free of repeats, leaves the key or one that is the same
  -- in it, and does not change the chain of another id.
  pub add_key_lem :
      (k : MessageEncryptionKey) (t : Tree) (j : ℕ)
      → NoRepeats (find_keys_by_id W k.key_id t)
      → j ≢ k.key_id
      → NoRepeats (find_keys_by_id W k.key_id (add_key W k t).1)
        × (is_some (find_same k (find_keys_by_id W k.key_id (add_key W k t).1)) ≡ true)
        × (find_keys_by_id W j (add_key W k t).1 ≡ find_keys_by_id W j t)
  unfolding add_key
  add_key_lem k t j n a =
      let (b, c) = own (find_same k (find_keys_by_id W k.key_id t)) k t refl n in
      (b, c, others (find_same k (find_keys_by_id W k.key_id t)) k t j a)
