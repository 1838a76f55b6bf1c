-- ===== src/Keys/Added.antt =====
-- The table of keys after a sequence of calls of `AddKey`, and the set of the keys that were given to it.
use matter_dissector.Prelude.{
  ℕ, ◌==◌, ==_iff, ◌≡◌, refl, sym, ap, Bool, Bool-cases, inl, inr, true, false, ◌&&◌, ◌||◌,
  if◌then◌else◌, Option, none, some, List, [], ◌∷◌, is_some, arith,
}
use matter_dissector.Wmem.{WmemTree}
use matter_dissector.Keys.{
  MessageEncryptionKey, same_bytes, is_same_key, chain_of, find_same, find_keys_by_id, add_new,
  add_key,
}
use matter_dissector.Keys.Laws.{NoRepeats, own, others, find_insert}

eq_of_same_bytes : (cs bs : List ℕ) → same_bytes cs bs ≡ true → cs ≡ bs
unfolding same_bytes
eq_of_same_bytes [] [] h = refl
eq_of_same_bytes [] (b ∷ bs) h = cc
eq_of_same_bytes (a ∷ cs) [] h = cc
eq_of_same_bytes (a ∷ cs) (b ∷ bs) h = ground (arith, eq_of_same_bytes cs bs)

same_fields :
    (i j : MessageEncryptionKey)
    → is_same_key i j ≡ true
    → (i.session_type ≡ j.session_type) × (i.data_enc_key ≡ j.data_enc_key)
unfolding is_same_key
same_fields i j h = ground (arith, eq_of_same_bytes i.data_enc_key j.data_enc_key)

same_trans :
    (i j k : MessageEncryptionKey)
    → is_same_key i j ≡ true
    → is_same_key j k ≡ true
    → is_same_key i k ≡ true
same_trans i j k h g =
    let (type, bytes) = same_fields i j h in unfold is_same_key in rw (type, bytes) g

-- A key of the chain stands for every key that is the same.
find_same_trans :
    (i j k : MessageEncryptionKey) (ks : List MessageEncryptionKey)
    → find_same j ks ≡ some i
    → is_same_key j k ≡ true
    → is_some (find_same k ks) ≡ true
unfolding find_same
find_same_trans i j k [] h g = cc
find_same_trans i j k (l ∷ ks) h g = ground (arith, find_same_trans i j k ks, same_trans l j k)

absorbed : (b known : Bool) → (b ≡ true → known ≡ true) → known ≡ b || known
absorbed true known f = f refl
absorbed false known f = refl

in_front :
    (b : Bool) (j : MessageEncryptionKey) (o : Option MessageEncryptionKey)
    → is_some (if b then some j else o) ≡ b || is_some o
in_front true j o = refl
in_front false j o = refl

or_none : (b : Bool) → b || false ≡ b
or_none true = refl
or_none false = refl

or_swap : (a b c : Bool) → a || (b || c) ≡ (b || a) || c
or_swap true true c = refl
or_swap true false c = refl
or_swap false true c = refl
or_swap false false c = refl

-- Whether a key with the id and the bytes of `k` is one of a list.
abbrev pub has_key : MessageEncryptionKey → List MessageEncryptionKey → Bool
has_key k [] = false
has_key k (j ∷ ks) = ((j.key_id == k.key_id) && is_same_key j k) || has_key k ks

module _ (W : WmemTree (List MessageEncryptionKey)) where
  open W use {Tree, empty, lookup-empty}

  -- `AddKey` of each key of a list.
  abbrev pub add_keys : List MessageEncryptionKey → Tree → Tree
  add_keys [] t = t
  add_keys (k ∷ ks) t = add_keys ks (add_key W k t).1

  -- Whether the chain of a key's id has a key that is the same.
  abbrev pub knows : Tree → MessageEncryptionKey → Bool
  knows t k = is_some (find_same k (find_keys_by_id W k.key_id t))

  knows-add_new :
      (o : Option MessageEncryptionKey) (j k : MessageEncryptionKey) (t : Tree)
      → find_same j (find_keys_by_id W j.key_id t) ≡ o
      → j.key_id ≡ k.key_id
      → knows (add_new W o j t).1 k ≡ is_same_key j k || knows t k
  unfolding add_new find_same
  knows-add_new (some i) j k t h e =
      absorbed (is_same_key j k) (knows t k)
        (find_same_trans i j k (find_keys_by_id W k.key_id t) (rw (sym e) h))
  knows-add_new none j k t h e =
      rw (sym e, find_insert W j.key_id (j ∷ find_keys_by_id W j.key_id t) t)
        (in_front (is_same_key j k) j (find_same k (find_keys_by_id W j.key_id t)))

  knows-add_key :
      (j k : MessageEncryptionKey) (t : Tree)
      → knows (add_key W j t).1 k ≡ ((j.key_id == k.key_id) && is_same_key j k) || knows t k
  unfolding add_key
  knows-add_key j k t = by_id (j.key_id == k.key_id) refl
    where
      by_id :
          (b : Bool)
          → (j.key_id == k.key_id) ≡ b
          → knows (add_key W j t).1 k ≡ (b && is_same_key j k) || knows t k
      by_id true e = knows-add_new _ j k t refl ((==_iff j.key_id k.key_id).0 e)
      by_id false e = ap (λ ks. is_some (find_same k ks)) (others W _ j t k.key_id (ground arith))

  knows-add_keys :
      (ks : List MessageEncryptionKey) (k : MessageEncryptionKey) (t : Tree)
      → knows (add_keys ks t) k ≡ has_key k ks || knows t k
  knows-add_keys [] k t = refl
  knows-add_keys (j ∷ ks) k t =
      rw (knows-add_keys ks k (add_key W j t).1, knows-add_key j k t)
        (or_swap (has_key k ks) ((j.key_id == k.key_id) && is_same_key j k) (knows t k))

  NoRepeats-add_key :
      (k : MessageEncryptionKey) (t : Tree)
      → ((i : ℕ) → NoRepeats (find_keys_by_id W i t))
      → (i : ℕ) → NoRepeats (find_keys_by_id W i (add_key W k t).1)
  unfolding add_key
  NoRepeats-add_key k t n i = elim (Bool-cases (i == k.key_id)) [
    | inl e ↦ rw ((==_iff i k.key_id).0 e) (own W _ k t refl (n k.key_id)).0
    | inr e ↦ rw (others W (find_same k (find_keys_by_id W k.key_id t)) k t i (ground arith)) (n i)
  ]

  NoRepeats-add_keys :
      (ks : List MessageEncryptionKey) (t : Tree)
      → ((i : ℕ) → NoRepeats (find_keys_by_id W i t))
      → (i : ℕ) → NoRepeats (find_keys_by_id W i (add_keys ks t))
  NoRepeats-add_keys [] t n i = n i
  NoRepeats-add_keys (k ∷ ks) t n i =
      NoRepeats-add_keys ks (add_key W k t).1 (NoRepeats-add_key k t n) i

  find_keys_by_id-empty : (i : ℕ) → find_keys_by_id W i empty ≡ []
  unfolding find_keys_by_id chain_of
  find_keys_by_id-empty i = rw (lookup-empty (i ∷ [])) refl

  -- After `AddKey` of any keys in any order, from the empty table, the table knows a key exactly when a key
  -- with the same id, type and bytes was added, and no chain has a key twice.
  pub add_keys_lem :
      (ks : List MessageEncryptionKey) (k : MessageEncryptionKey)
      → (knows (add_keys ks empty) k ≡ has_key k ks)
        × NoRepeats (find_keys_by_id W k.key_id (add_keys ks empty))
  unfolding find_same
  add_keys_lem ks k = (
    rw (knows-add_keys ks k empty, find_keys_by_id-empty k.key_id) (or_none (has_key k ks)),
    NoRepeats-add_keys ks empty (λ i. rw (find_keys_by_id-empty i) tt) k.key_id,
  )
