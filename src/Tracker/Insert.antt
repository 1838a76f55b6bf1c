-- ===== src/Tracker/Insert.antt =====
-- Adding a record to the tables: the chain of its key grows at the end, both ways.
use matter_dissector.Prelude.{
  ℕ, zero, suc, ◌≤◌, ◌<◌, ◌≡◌, ◌≢◌, refl, sym, ◌∙◌, Bool, true, ◌==◌, ==_refl, ==_iff, Bool-cases,
  inl, inr, ap, if◌then◌else◌, Option, none, some, List, [], ◌∷◌, ◌++◌, arith, length, All,
}
use matter_dissector.Wmem.{WmemTree}
use matter_dissector.Tracker.Records.{
  Ptr, Heap, Chain, by_msg_cntr, by_exchange, next_of, prev_of, last_loop, last_in_chain, link,
  MatterMessageRecord, set_next, set_prev, update,
}
use matter_dissector.Tracker.Tables.{
  TableId, number, same_table, Tracker, get_messages, attach, add_message, unencrypted_udp,
  session_encrypted_udp, group_encrypted_udp, unencrypted_tcp, session_encrypted_tcp,
  group_encrypted_tcp, exchange_table,
}

-- From `p` the chain runs through `xs` to NULL, and back from each record to the one before it, of
-- which `q` is the first's.
abbrev pub Doubly : Heap → Chain → Option Ptr → Option Ptr → List Ptr → Type 0
Doubly h c q p [] = p ≡ none
Doubly h c q p (x ∷ xs) =
    (p ≡ some x) × (prev_of c (h.cell x) ≡ q) × Doubly h c (some x) (next_of c (h.cell x)) xs

abbrev pub Distinct : List Ptr → Type 0
Distinct [] = Unit
Distinct (x ∷ xs) = All (λ y. x ≢ y) xs × Distinct xs

abbrev last_or : Option Ptr → List Ptr → Option Ptr
last_or l [] = l
last_or l (x ∷ xs) = last_or (some x) xs

abbrev last_of : Ptr → List Ptr → Ptr
last_of x [] = x
last_of x (y ∷ ys) = last_of y ys

last_or-last_of : (x : Ptr) (xs : List Ptr) → last_or (some x) xs ≡ some (last_of x xs)
last_or-last_of x [] = refl
last_or-last_of x (y ∷ ys) = last_or-last_of y ys

All-last_of : (P : Ptr → Type 0) (x : Ptr) (xs : List Ptr) → All P (x ∷ xs) → P (last_of x xs)
All-last_of P x [] a = a.0
All-last_of P x (y ∷ ys) a = All-last_of P y ys a.1

last_loop_lem :
    (fuel : ℕ) (c : Chain) (h : Heap) (q p last : Option Ptr) (xs : List Ptr)
    → Doubly h c q p xs
    → length xs < fuel
    → last_loop fuel c h p last ≡ some (last_or last xs)
unfolding last_loop
last_loop_lem zero c h q p last xs d l = elim l [ ]
last_loop_lem (suc fuel) c h q p last [] d l = rw d
last_loop_lem (suc fuel) c h q p last (x ∷ xs) d l =
    rw d.0 (last_loop_lem fuel c h (some x) (next_of c (h.cell x)) (some x) xs d.2 (omega arith))

-- Away from the two records that it links, `link` changes nothing.
link_elsewhere :
    (c : Chain) (z m x : Ptr) (h : Heap) → x ≢ z → m ≢ x → (link c z m h).cell x ≡ h.cell x
unfolding link
link_elsewhere c z m x h a b = ground arith

-- Every member of a record but the two pointers of a chain.
abbrev pub others :
    Chain
    → MatterMessageRecord
    → ℕ × ℕ × Bool × ℕ × Option Ptr × Option Ptr × Option Ptr × Option Ptr
others by_msg_cntr r = (
  r.frame_num, r.fingerprint, r.is_initiator, r.im_subscription, r.acked_by_msg_rec,
  r.next_by_exchange, r.prev_by_exchange, r.case_exchange_rec,
)
others by_exchange r = (
  r.frame_num, r.fingerprint, r.is_initiator, r.im_subscription, r.acked_by_msg_rec,
  r.next_by_msg_cntr, r.prev_by_msg_cntr, r.case_exchange_rec,
)

others-on :
    (c : Chain) (z m y : Ptr) (h : Heap)
    → others c ((update z (set_next c (some m)) h).cell y) ≡ others c (h.cell y)
others-on by_msg_cntr z m y h = elim (Bool-cases (z == y)) [ inl e ↦ rw e | inr e ↦ rw e ]
others-on by_exchange z m y h = elim (Bool-cases (z == y)) [ inl e ↦ rw e | inr e ↦ rw e ]

others-back :
    (c : Chain) (z m y : Ptr) (h : Heap)
    → others c (set_prev c (some z) ((update z (set_next c (some m)) h).cell y))
      ≡ others c (h.cell y)
others-back by_msg_cntr z m y h = others-on by_msg_cntr z m y h
others-back by_exchange z m y h = others-on by_exchange z m y h

-- `link` changes no other member of any record.
others-link :
    (c : Chain) (z m y : Ptr) (h : Heap) → others c ((link c z m h).cell y) ≡ others c (h.cell y)
unfolding link
others-link c z m y h = elim (Bool-cases (m == y)) [
  | inl e ↦ rw e (others-back c z m y h)
  | inr e ↦ rw e (others-on c z m y h)
]

-- A chain of records that `xs` and `m` have no part in.
abbrev pub Apart : List Ptr → Ptr → List Ptr → Type 0
Apart xs m ys = All (λ y. All (λ x. y ≢ x) xs × (m ≢ y)) ys

Doubly-elsewhere :
    (c : Chain) (m x : Ptr) (xs : List Ptr) (h : Heap) (q p : Option Ptr) (ys : List Ptr)
    → Apart (x ∷ xs) m ys
    → Doubly h c q p ys
    → Doubly (link c (last_of x xs) m h) c q p ys
Doubly-elsewhere c m x xs h q p [] a d = d
Doubly-elsewhere c m x xs h q p (y ∷ ys) a d =
    let same = link_elsewhere c (last_of x xs) m y h (All-last_of (λ z. y ≢ z) x xs a.0.0) a.0.1 in
    (
      d.0,
      rw same d.1,
      rw same (Doubly-elsewhere c m x xs h (some y) (next_of c (h.cell y)) ys a.1 d.2),
    )

-- At the last record the way back stays and the way on leads to the new record.
link_at_last :
    (c : Chain) (z m : Ptr) (h : Heap)
    → m ≢ z
    → (prev_of c ((link c z m h).cell z) ≡ prev_of c (h.cell z))
      × (next_of c ((link c z m h).cell z) ≡ some m)
unfolding link
link_at_last by_msg_cntr z m h a = (ground arith, ground arith)
link_at_last by_exchange z m h a = (ground arith, ground arith)

link_at_new :
    (c : Chain) (z m : Ptr) (h : Heap)
    → m ≢ z
    → (prev_of c ((link c z m h).cell m) ≡ some z)
      × (next_of c ((link c z m h).cell m) ≡ next_of c (h.cell m))
unfolding link
link_at_new by_msg_cntr z m h a = (ground arith, ground arith)
link_at_new by_exchange z m h a = (ground arith, ground arith)

Doubly-link :
    (c : Chain) (m : Ptr) (h : Heap) (q p : Option Ptr) (x : Ptr) (xs : List Ptr)
    → Doubly h c q p (x ∷ xs)
    → Distinct (x ∷ xs)
    → All (λ y. m ≢ y) (x ∷ xs)
    → next_of c (h.cell m) ≡ none
    → Doubly (link c (last_of x xs) m h) c q p ((x ∷ xs) ++ (m ∷ []))
Doubly-link c m h q p x [] d n a e =
    let (back, on) = link_at_last c x m h a.0 in
    let (back', on') = link_at_new c x m h a.0 in (d.0, back ∙ d.1, (on, back', on' ∙ e))
Doubly-link c m h q p x (y ∷ ys) d n a e =
    let same = link_elsewhere c (last_of y ys) m x h (All-last_of (λ z. x ≢ z) y ys n.0) a.0 in
    (
      d.0,
      rw same d.1,
      rw same (Doubly-link c m h (some x) (next_of c (h.cell x)) y ys d.2 n.1 a.1 e),
    )

abbrev table_of : ℕ → TableId
table_of n =
    if n == 0
    then unencrypted_udp
    else if n == 1
    then session_encrypted_udp
    else if n == 2
    then group_encrypted_udp
    else if n == 3
    then unencrypted_tcp
    else if n == 4
    then session_encrypted_tcp
    else if n == 5
    then group_encrypted_tcp
    else exchange_table

table_of-number : (t : TableId) → table_of (number t) ≡ t
table_of-number unencrypted_udp = refl
table_of-number session_encrypted_udp = refl
table_of-number group_encrypted_udp = refl
table_of-number unencrypted_tcp = refl
table_of-number session_encrypted_tcp = refl
table_of-number group_encrypted_tcp = refl
table_of-number exchange_table = refl

eq_of_number : (t u : TableId) → number t ≡ number u → t ≡ u
eq_of_number t u e = sym (table_of-number t) ∙ (ap table_of e ∙ table_of-number u)

same_table_refl : (t : TableId) → same_table t t ≡ true
same_table_refl t = ==_refl (number t)

-- Adding to a chain that has no record yet.
module _ (W : WmemTree ℕ) where
  open W use {lookup, insert, lookup-insert_self, lookup-insert_ne}

  last_in_chain_lem :
      (c : Chain) (h : Heap) (p : Option Ptr) (xs : List Ptr)
      → Doubly h c none p xs
      → length xs ≤ h.made
      → last_in_chain c h p ≡ some (last_or none xs)
  unfolding last_in_chain
  last_in_chain_lem c h p xs d l = last_loop_lem (suc h.made) c h none p none xs d (omega arith)

  -- Another key, or another table: the lookup after the insertion is the one before it.
  other_key :
      (c : Chain) (s : Tracker W) (k k' : TableId × List ℕ) (m : Ptr)
      → k' ≢ k
      → get_messages W k' (attach W c k m none s) ≡ get_messages W k' s
  unfolding attach get_messages
  other_key c s (t, key) (u, j) m a = elim (Bool-cases (same_table t u)) [
    | inl e ↦ rw (
      get_messages,
      attach,
      e,
      lookup-insert_ne j key m (s.table u)
          (λ b. a (rw (sym (eq_of_number t u ((==_iff (number t) (number u)).0 e)), b) refl)),
    )
    | inr e ↦ rw (get_messages, attach, e)
  ]

  own_key :
      (c : Chain) (s : Tracker W) (k : TableId × List ℕ) (m : Ptr)
      → get_messages W k (attach W c k m none s) ≡ some m
  unfolding attach get_messages
  own_key c s (t, key) m =
      rw (get_messages, attach, same_table_refl t) (lookup-insert_self key m (s.table t))

  -- Adding a new record `m`, which no chain leads to, to the tables: it ends the chain of its key, in
  -- which each record leads on to the next and back to the one before. The chain of another key `j`, whose
  -- records are others, is the same both ways; a record `p` that is not of the chain is unchanged; and no
  -- record has changed in another member than the two pointers of this kind of chain, so the chains of
  -- the other kind are as before.
  pub add_message_lem :
      (c : Chain) (t : TableId) (key : List ℕ) (m : Ptr) (s : Tracker W) (xs : List Ptr)
      (j : TableId × List ℕ) (ys : List Ptr) (p : Ptr)
      → Doubly s.heap c none (get_messages W (t, key) s) xs
      → length xs ≤ s.heap.made
      → Distinct xs
      → All (λ x. m ≢ x) xs
      → next_of c (s.heap.cell m) ≡ none
      → prev_of c (s.heap.cell m) ≡ none
      → j ≢ (t, key)
      → Doubly s.heap c none (get_messages W j s) ys
      → Apart xs m ys
      → m ≢ p
      → All (λ x. p ≢ x) xs
      → (s' : Tracker W) × (add_message W c (t, key) m s ≡ some s')
        × Doubly s'.heap c none (get_messages W (t, key) s') (xs ++ (m ∷ []))
        × Doubly s'.heap c none (get_messages W j s') ys
        × (s'.heap.cell p ≡ s.heap.cell p)
        × ((y : Ptr) → others c (s'.heap.cell y) ≡ others c (s.heap.cell y))
  unfolding add_message get_messages attach
  add_message_lem c t key m s [] j ys p d l n a on back other dj apart e f = (
    attach W c (t, key) m none s,
    rw (last_in_chain_lem c s.heap (lookup key (s.table t)) [] d l),
    (own_key c s (t, key) m, back, on),
    rw (other_key c s (t, key) j m other) dj,
    refl,
    λ y. refl,
  )
  add_message_lem c t key m s (x ∷ xs) j ys p d l n a on back other dj apart e f = (
    attach W c (t, key) m (some (last_of x xs)) s,
    rw (last_in_chain_lem c s.heap (lookup key (s.table t)) (x ∷ xs) d l, last_or-last_of x xs),
    Doubly-link c m s.heap none (lookup key (s.table t)) x xs d n a on,
    Doubly-elsewhere c m x xs s.heap none (lookup j.1 (s.table j.0)) ys apart dj,
    link_elsewhere c (last_of x xs) m p s.heap (All-last_of (λ y. p ≢ y) x xs f) e,
    λ y. others-link c (last_of x xs) m y s.heap,
  )
