-- ===== src/Im/Subscription.antt =====
-- packet-matter-im.cpp: `AssociateWithIMSubscription` on the records of the message tracker, and the
-- filter of conversations.
use matter_dissector.Prelude.{
  ℕ, zero, suc, ◌<◌, ◌≡◌, refl, sym, Bool, Bool-cases, true, false, not, ◌==◌, ==_refl, ==_iff,
  if◌then◌else◌, inl, inr, Option, none, some, List, [], ◌∷◌, ◌++◌, length, arith,
}
use matter_dissector.Tree.{ProtoItem, made, TreeCall, add, set_hidden, uint64, im_subscription_id}
use matter_dissector.Tracker.Records.{Ptr, MatterMessageRecord, Heap, update}
use matter_dissector.Tracker.Chains.{Follows}

-- The loops: the first subscription that is not zero, and zero if there is none. `none` is out of fuel.
unfoldable pub subscription_loop :
    ℕ → (MatterMessageRecord → Option Ptr) → Heap → Option Ptr → Option ℕ
subscription_loop zero step h p = none
subscription_loop (suc fuel) step h none = some 0
subscription_loop (suc fuel) step h (some p) =
    let rest = subscription_loop fuel step h (step (h.cell p)) in
    if (h.cell p).im_subscription == 0 then rest else some (h.cell p).im_subscription

-- `msgRec->imSubscription = ...`, which stores only what is not zero.
unfoldable pub set_subscription : Ptr → ℕ → Heap → Heap
set_subscription msg_rec n h =
    if n == 0 then h else update msg_rec (λ r. record r { im_subscription = n }) h

abbrev set_found : Ptr → Heap → Option ℕ → Option Heap
set_found msg_rec h none = none
set_found msg_rec h (some n) = some (set_subscription msg_rec n h)

-- Behind the search backwards: the search forwards, if nothing was found.
unfoldable pub search_forward : Ptr → ℕ → Heap → Option Heap
search_forward msg_rec found h =
    if found == 0
    then set_found msg_rec h (
        subscription_loop (suc h.made) (λ r. r.next_by_exchange) h
          (h.cell msg_rec).next_by_exchange)
    else some (set_subscription msg_rec found h)

unfoldable pub search_backward : Ptr → Option ℕ → Heap → Option Heap
search_backward msg_rec none h = none
search_backward msg_rec (some n) h = search_forward msg_rec n h

-- `AssociateWithIMSubscription`, as to the records.
unfoldable pub associate_with_im_subscription : Ptr → Heap → Option Heap
associate_with_im_subscription msg_rec h =
    if (h.cell msg_rec).im_subscription == 0
    then search_backward msg_rec
        (subscription_loop (suc h.made) (λ r. r.prev_by_exchange) h (some msg_rec)) h
    else some h

-- `AssociateWithIMSubscription`, as to the tree: the last call is the first of the list, and `call` is the
-- number of the call that adds the item.
unfoldable pub subscription_calls : ProtoItem → ℕ → Ptr → Heap → List TreeCall
subscription_calls tree call msg_rec h =
    set_hidden (made call)
    ∷ add tree im_subscription_id 0 0 (uint64 (h.cell msg_rec).im_subscription)
    ∷ []

-- `IMSubscriptionFilter_IsValid`, of the record that `FindMessageRecord` gives.
unfoldable pub im_subscription_filter_is_valid : Option Ptr → Heap → Bool
im_subscription_filter_is_valid none h = false
im_subscription_filter_is_valid (some msg_rec) h = not ((h.cell msg_rec).im_subscription == 0)

-- The first subscription of a list of records.
abbrev pub first_subscription : Heap → List Ptr → ℕ
first_subscription h [] = 0
first_subscription h (p ∷ ps) =
    if (h.cell p).im_subscription == 0 then first_subscription h ps else (h.cell p).im_subscription

subscription_loop_lem :
    (step : MatterMessageRecord → Option Ptr) (h : Heap) (xs : List Ptr) (fuel : ℕ) (p : Option Ptr)
    → Follows step h p xs
    → length xs < fuel
    → subscription_loop fuel step h p ≡ some (first_subscription h xs)
unfolding subscription_loop
subscription_loop_lem step h [] zero p f l = elim l [ ]
subscription_loop_lem step h [] (suc fuel) p f l = rw f
subscription_loop_lem step h (x ∷ xs) zero p f l = elim l [ ]
subscription_loop_lem step h (x ∷ xs) (suc fuel) p f l =
    elim (Bool-cases ((h.cell x).im_subscription == 0)) [
      | inl e ↦
          rw (f.0, e) (subscription_loop_lem step h xs fuel (step (h.cell x)) f.1 (omega arith))
      | inr e ↦ rw (f.0, e) refl
    ]

first_subscription-append :
    (h : Heap) (xs ys : List Ptr)
    → first_subscription h (xs ++ ys)
      ≡ (if first_subscription h xs == 0 then first_subscription h ys else first_subscription h xs)
first_subscription-append h [] ys = refl
first_subscription-append h (x ∷ xs) ys = elim (Bool-cases ((h.cell x).im_subscription == 0)) [
  | inl e ↦ rw e (first_subscription-append h xs ys)
  | inr e ↦ rw (e, e) refl
]

-- What the function leaves: `h'` differs from `h` at most in the record's subscription.
abbrev pub Associated : Heap → Ptr → ℕ → Heap → Type 0
Associated h m n h' =
    ((h'.cell m).im_subscription ≡ n) × ((q : Ptr) → (m == q) ≡ false → h'.cell q ≡ h.cell q)

set_subscription-Associated :
    (h : Heap) (m : Ptr) (n : ℕ)
    → (h.cell m).im_subscription ≡ 0
    → Associated h m n (set_subscription m n h)
unfolding set_subscription
set_subscription-Associated h m n z = elim (Bool-cases (n == 0)) [
  | inl e ↦ rw e (ground arith, λ q d. refl)
  | inr e ↦ rw e (rw (==_refl m) refl, λ q d. rw d refl)
]

-- `AssociateWithIMSubscription` terminates on a message of an exchange, whose records stand before it from
-- the last to the first in `before` and behind it in `after`, and gives it the first subscription that
-- is not zero among its own, those before it backwards and those behind it forwards; it changes no other
-- record.
pub associate_with_im_subscription_lem :
    (h : Heap) (m : Ptr) (before after : List Ptr)
    → Follows (λ r. r.prev_by_exchange) h (h.cell m).prev_by_exchange before
    → Follows (λ r. r.next_by_exchange) h (h.cell m).next_by_exchange after
    → length before < h.made
    → length after < h.made
    → (h' : Heap) × (associate_with_im_subscription m h ≡ some h')
      × Associated h m (first_subscription h (m ∷ before ++ after)) h'
unfolding associate_with_im_subscription search_forward search_backward
associate_with_im_subscription_lem h m before after f g k l =
    elim (Bool-cases ((h.cell m).im_subscription == 0)) [
      | inr e ↦ (h, rw e refl, rw e (refl, λ q d. refl))
      | inl e ↦ elim (Bool-cases (first_subscription h before == 0)) [
        | inl b ↦
            rw (e, backward e, b, forward, first_subscription-append h before after, b)
              (
                set_subscription m (first_subscription h after) h,
                refl,
                set_subscription-Associated h m (first_subscription h after) ((==_iff _ 0).0 e),
              )
        | inr b ↦
            rw (e, backward e, b, first_subscription-append h before after, b)
              (
                set_subscription m (first_subscription h before) h,
                refl,
                set_subscription-Associated h m (first_subscription h before) ((==_iff _ 0).0 e),
              )
      ]
    ]
  where
    backward :
        (h.cell m).im_subscription == 0 ≡ true
        → subscription_loop (suc h.made) (λ r. r.prev_by_exchange) h (some m)
          ≡ some (first_subscription h before)
    backward e =
        rw (sym (skip_own e))
          (subscription_loop_lem _ h (m ∷ before) (suc h.made) (some m) (refl, f) (omega arith))
      where
        skip_own :
            (h.cell m).im_subscription == 0 ≡ true
            → first_subscription h (m ∷ before) ≡ first_subscription h before
        skip_own e = rw e refl

    forward :
        subscription_loop (suc h.made) (λ r. r.next_by_exchange) h (h.cell m).next_by_exchange
        ≡ some (first_subscription h after)
    forward = subscription_loop_lem _ h after (suc h.made) _ g (omega arith)
