-- ===== src/Tracker/Search.antt =====
-- What the searches find, in terms of the lists of records that the chains hold.
use matter_dissector.Prelude.{
  ℕ, suc, ◌+◌, ◌%◌, ◌^◌, ◌≤◌, ◌<◌, ◌≡◌, ◌⊎◌, inl, inr, refl, ap, Bool, true, false, not, ◌==◌,
  Bool-cases, if◌then◌else◌, Option, none, some, List, [], ◌∷◌, arith, length, All,
}
use matter_dissector.Tracker.Records.{Ptr, Heap}
use matter_dissector.Tracker.Find.{
  Retransmissions, earlier, count_before, count_after, note_reuse, find_retransmissions,
  find_reused_message_ids,
}
use matter_dissector.Tracker.Chains.{Follows, run_over, walk-run_over}

-- How many of the records have a fingerprint.
abbrev pub count : Heap → ℕ → List Ptr → ℕ
count h f [] = 0
count h f (x ∷ xs) = (if f == (h.cell x).fingerprint then 1 else 0) + count h f xs

abbrev pub Among : Ptr → List Ptr → Type 0
Among q [] = ⊥
Among q (x ∷ xs) = (q ≡ x) ⊎ Among q xs

-- `q` was not sent after what was found so far.
abbrev pub NotAfter : Heap → Ptr → Option Ptr → Type 0
NotAfter h q none = Unit
NotAfter h q (some a) = (h.cell q).frame_num ≤ (h.cell a).frame_num

-- Of the records of `xs` that `wanted` holds of, and of what was found before, the result has the
-- least frame number; it is NULL only if there are none.
abbrev pub Best : Heap → (Ptr → Bool) → Option Ptr → List Ptr → Option Ptr → Type 0
Best h wanted found xs none = (found ≡ none) × All (λ x. wanted x ≡ false) xs
Best h wanted found xs (some q) =
    ((found ≡ some q) ⊎ (Among q xs × (wanted q ≡ true)))
    × NotAfter h q found
    × All (λ x. wanted x ≡ true → (h.cell q).frame_num ≤ (h.cell x).frame_num) xs

Best-nil : (h : Heap) (wanted : Ptr → Bool) (found : Option Ptr) → Best h wanted found [] found
Best-nil h wanted none = (refl, tt)
Best-nil h wanted (some q) = (inl refl, omega arith, tt)

Best-skip :
    (h : Heap) (wanted : Ptr → Bool) (found : Option Ptr) (x : Ptr) (xs : List Ptr)
    (res : Option Ptr)
    → wanted x ≡ false
    → Best h wanted found xs res
    → Best h wanted found (x ∷ xs) res
Best-skip h wanted found x xs none e b = (b.0, (e, b.1))
Best-skip h wanted found x xs (some q) e b = ground arith

Best-take :
    (h : Heap) (wanted : Ptr → Bool) (found : Option Ptr) (x : Ptr) (xs : List Ptr)
    (res : Option Ptr)
    → wanted x ≡ true
    → Best h wanted (earlier h x found) xs res
    → Best h wanted found (x ∷ xs) res
Best-take h wanted none x xs none e b = ground arith
Best-take h wanted (some a) x xs none e b = ground arith
Best-take h wanted none x xs (some q) e b = ground arith
Best-take h wanted (some a) x xs (some q) e b = ground arith

-- What the first loop of `FindRetransmissions` makes of a result.
record CountedBefore (h : Heap) (f : ℕ) (r : Retransmissions) (xs : List Ptr) (r' : Retransmissions)
    : Type 0 where
  best : Best h (λ x. f == (h.cell x).fingerprint) r.retrans_of_msg xs r'.retrans_of_msg
  num : r'.retrans_num % 2 ^ 32 ≡ (r.retrans_num + count h f xs) % 2 ^ 32
  total : r'.total_retrans % 2 ^ 32 ≡ (r.total_retrans + count h f xs) % 2 ^ 32
  num_bound : r.retrans_num < 2 ^ 32 → r'.retrans_num < 2 ^ 32
  total_bound : r.total_retrans < 2 ^ 32 → r'.total_retrans < 2 ^ 32

counted_before :
    (h : Heap) (f : ℕ) (xs : List Ptr) (r : Retransmissions)
    → CountedBefore h f r xs (run_over (count_before h f) r xs)
counted_before h f [] r = record {
  best = Best-nil h _ r.retrans_of_msg;
  num = omega arith;
  total = omega arith;
  num_bound = λ b. b;
  total_bound = λ b. b;
}
counted_before h f (x ∷ xs) r = elim (Bool-cases (f == (h.cell x).fingerprint)) [
  | inl e ↦ rw e (
      taken e (
        counted_before h f xs (record {
          retrans_of_msg = earlier h x r.retrans_of_msg;
          retrans_num = (r.retrans_num + 1) % 2 ^ 32;
          total_retrans = (r.total_retrans + 1) % 2 ^ 32;
        })))
  | inr e ↦ rw e (skipped e (counted_before h f xs r))
]
  where
    taken :
        {r' : Retransmissions}
        → (f == (h.cell x).fingerprint) ≡ true
        → CountedBefore h f
            (record {
              retrans_of_msg = earlier h x r.retrans_of_msg;
              retrans_num = (r.retrans_num + 1) % 2 ^ 32;
              total_retrans = (r.total_retrans + 1) % 2 ^ 32;
            })
            xs
            r'
        → CountedBefore h f r (x ∷ xs) r'
    taken {r'} e c = record {
      best = Best-take h _ r.retrans_of_msg x xs r'.retrans_of_msg e c.best;
      num = rw e (omega (arith, c.num));
      total = rw e (omega (arith, c.total));
      num_bound = λ b. c.num_bound (omega arith);
      total_bound = λ b. c.total_bound (omega arith);
    }

    skipped :
        {r' : Retransmissions}
        → (f == (h.cell x).fingerprint) ≡ false
        → CountedBefore h f r xs r'
        → CountedBefore h f r (x ∷ xs) r'
    skipped {r'} e c = record {
      best = Best-skip h _ r.retrans_of_msg x xs r'.retrans_of_msg e c.best;
      num = rw e (omega (arith, c.num));
      total = rw e (omega (arith, c.total));
      num_bound = λ b. c.num_bound b;
      total_bound = λ b. c.total_bound b;
    }

-- The second loop only counts.
record CountedAfter (h : Heap) (f : ℕ) (r : Retransmissions) (xs : List Ptr) (r' : Retransmissions)
    : Type 0 where
  same_msg : r'.retrans_of_msg ≡ r.retrans_of_msg
  same_num : r'.retrans_num ≡ r.retrans_num
  total : r'.total_retrans % 2 ^ 32 ≡ (r.total_retrans + count h f xs) % 2 ^ 32
  total_bound : r.total_retrans < 2 ^ 32 → r'.total_retrans < 2 ^ 32

counted_after :
    (h : Heap) (f : ℕ) (xs : List Ptr) (r : Retransmissions)
    → CountedAfter h f r xs (run_over (count_after h f) r xs)
counted_after h f [] r = record {
  same_msg = refl;
  same_num = refl;
  total = omega arith;
  total_bound = λ b. b;
}
counted_after h f (x ∷ xs) r = elim (Bool-cases (f == (h.cell x).fingerprint)) [
  | inl e ↦
      let c = counted_after h f xs (record r { total_retrans = (r.total_retrans + 1) % 2 ^ 32 }) in
      rw e (record {
        same_msg = c.same_msg;
        same_num = c.same_num;
        total = rw e (omega (arith, c.total));
        total_bound = λ b. c.total_bound (omega arith);
      })
  | inr e ↦
      let c = counted_after h f xs r in
      rw e (record {
        same_msg = c.same_msg;
        same_num = c.same_num;
        total = rw e (omega (arith, c.total));
        total_bound = c.total_bound;
      })
]

-- A record with its place in a chain: the records before it, nearest first, and those after it.
pub record Place (msg_rec : Ptr) (h : Heap) (before after : List Ptr) : Type 0 where
  pub back : Follows (λ c. c.prev_by_msg_cntr) h (h.cell msg_rec).prev_by_msg_cntr before
  pub forth : Follows (λ c. c.next_by_msg_cntr) h (h.cell msg_rec).next_by_msg_cntr after
  pub few_before : length before ≤ h.made
  pub few_after : length after ≤ h.made

-- `FindRetransmissions` ends, and counts as retransmissions the records of the chain with the
-- fingerprint of the message: those before it, and all of them, modulo 2 ^ 32. The message that it
-- names as the original is one of those before it with the least frame number, and is NULL exactly
-- if no record before it has the fingerprint.
pub find_retransmissions_lem :
    (msg_rec : Ptr) (h : Heap) (before after : List Ptr)
    → Place msg_rec h before after
    → let f = (h.cell msg_rec).fingerprint in
      (r : Retransmissions) × (find_retransmissions msg_rec h ≡ some r)
      × (r.retrans_num ≡ count h f before % 2 ^ 32)
      × (r.total_retrans ≡ (count h f before + count h f after) % 2 ^ 32)
      × Best h (λ x. f == (h.cell x).fingerprint) none before r.retrans_of_msg
unfolding find_retransmissions
find_retransmissions_lem msg_rec h before after p = (
  r,
  rw (walk-run_over _ h (count_before h f) before (suc h.made) _ start p.back (omega arith))
      (walk-run_over _ h (count_after h f) after (suc h.made) _ r₁ p.forth (omega arith)),
  omega (arith, b.num, b.num_bound (omega arith), a.same_num),
  omega (
    arith,
    b.total,
    b.total_bound (omega arith),
    a.total,
    a.total_bound (b.total_bound (omega arith)),
  ),
  rw a.same_msg b.best,
)
  where
    f : ℕ
    f = (h.cell msg_rec).fingerprint

    start : Retransmissions
    start = record { retrans_of_msg = none; retrans_num = 0; total_retrans = 0 }

    r₁ : Retransmissions
    r₁ = run_over (count_before h f) start before

    r : Retransmissions
    r = run_over (count_after h f) r₁ after

    b : CountedBefore h f start before r₁
    b = counted_before h f before start

    a : CountedAfter h f r₁ after r
    a = counted_after h f after r₁

noted_reuse :
    (h : Heap) (f : ℕ) (xs : List Ptr) (found : Option Ptr)
    → Best h (λ x. not (f == (h.cell x).fingerprint)) found xs (run_over (note_reuse h f) found xs)
noted_reuse h f [] found = Best-nil h _ found
noted_reuse h f (x ∷ xs) found = elim (Bool-cases (f == (h.cell x).fingerprint)) [
  | inl e ↦ rw e (Best-skip h _ found x xs _ (ap not e) (noted_reuse h f xs found))
  | inr e ↦ rw e (Best-take h _ found x xs _ (ap not e) (noted_reuse h f xs (earlier h x found)))
]

-- `FindReusedMessageIds` ends, and finds the earliest by frame number of the records before the
-- message in the chain of its counter that have another fingerprint; NULL exactly if there is none.
pub find_reused_message_ids_lem :
    (msg_rec : Ptr) (h : Heap) (before after : List Ptr)
    → Place msg_rec h before after
    → (found : Option Ptr) × (find_reused_message_ids msg_rec h ≡ some found)
      × Best h (λ x. not ((h.cell msg_rec).fingerprint == (h.cell x).fingerprint)) none before found
unfolding find_reused_message_ids
find_reused_message_ids_lem msg_rec h before after p = (
  run_over (note_reuse h (h.cell msg_rec).fingerprint) none before,
  walk-run_over _ h _ before (suc h.made) _ none p.back (omega arith),
  noted_reuse h (h.cell msg_rec).fingerprint before none,
)
