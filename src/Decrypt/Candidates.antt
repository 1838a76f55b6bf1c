-- ===== src/Decrypt/Candidates.antt =====
-- The search for a key as one list of candidates, of which the first that does not fail decides.
use matter_dissector.Prelude.{
  ℕ, ◌≡◌, refl, sym, ap, Bool, true, false, not, ◌&&◌, ◌==◌, if◌then◌else◌, Option, none, some,
  List, [], ◌∷◌, ◌++◌, map, Bool-cases, inl, inr, arith,
}
use matter_dissector.Message.{MatterMessageInfo}
use matter_dissector.Keys.{MessageEncryptionKey}
use matter_dissector.Decrypt.Ccm.{Attempt, opened, failed, out_of_bounds}
use matter_dissector.Decrypt.Search.{
  MatterProxyHintKey, or_else, found, Found, from_node, is_for_other_session, hint_to_key,
  known_loop, node_loop, prefs_loop, retry_hint, hint_loop, search_keys,
}

-- A source node id, a key to try with it, and the key to keep if it opens the message.
abbrev pub Candidate : Type 0
Candidate = ℕ × MessageEncryptionKey × Option MessageEncryptionKey

-- The first candidate whose attempt does not fail.
abbrev pub first_of :
    (MatterMessageInfo → MessageEncryptionKey → Attempt (List ℕ))
    → MatterMessageInfo
    → List Candidate
    → Attempt Found
first_of attempt m [] = failed
first_of attempt m ((node_id, key, keep) ∷ cs) =
    or_else (found (λ p. (p, keep)) (attempt (from_node node_id m) key)) (first_of attempt m cs)

or_else_assoc : (a b c : Attempt Found) → or_else (or_else a b) c ≡ or_else a (or_else b c)
or_else_assoc (opened x) b c = refl
or_else_assoc failed b c = refl
or_else_assoc out_of_bounds b c = refl

or_else_failed : (a : Attempt Found) → or_else a failed ≡ a
or_else_failed (opened x) = refl
or_else_failed failed = refl
or_else_failed out_of_bounds = refl

-- A message without a source node id is tried with those that are known.
abbrev pub if_anonymous : MatterMessageInfo → List Candidate → List Candidate
if_anonymous m cs = if m.src_node_id == 0 then cs else []

abbrev pub known_candidate : MatterMessageInfo → MessageEncryptionKey → Candidate
known_candidate m key = (if m.src_node_id == 0 then key.src_node_id else m.src_node_id, key, none)

abbrev pub pref_candidates : MatterMessageInfo → List ℕ → MessageEncryptionKey → List Candidate
pref_candidates m node_ids pref =
    let key : MessageEncryptionKey = record pref { src_node_id = m.src_node_id } in
    let keep : ℕ → MessageEncryptionKey =
      λ n. record pref { src_node_id = n; key_id = m.session_id } in
    (m.src_node_id, key, some (keep m.src_node_id))
    ∷ if_anonymous m (map (λ n. (n, key, some (keep n))) node_ids)

abbrev pub hint_retry : MatterMessageInfo → Option ℕ → MessageEncryptionKey → List Candidate
hint_retry m none key = []
hint_retry m (some n) key = if_anonymous m ((n, key, some key) ∷ [])

abbrev pub hint_candidates : MatterMessageInfo → MatterProxyHintKey → List Candidate
hint_candidates m hint =
    if is_for_other_session hint.hint_key_id m.session_id
    then []
    else (m.src_node_id, hint_to_key m hint, some (hint_to_key m hint))
      ∷ hint_retry m hint.hint_src_node_id (hint_to_key m hint)

abbrev pub flat_map : {A : Type 0} → (A → List Candidate) → List A → List Candidate
flat_map f [] = []
flat_map f (a ∷ cs) = f a ++ flat_map f cs

abbrev pub candidates :
    MatterMessageInfo
    → (known prefs : List MessageEncryptionKey) (node_ids : List ℕ)
    → (from_file from_dsb : List MatterProxyHintKey) → List Candidate
candidates m known prefs node_ids from_file from_dsb =
    map (known_candidate m) known
    ++ (flat_map (pref_candidates m node_ids) prefs
        ++ (flat_map (hint_candidates m) from_file ++ flat_map (hint_candidates m) from_dsb))

-- Which node id a key of the table is tried with.
node_of_known :
    (f : ℕ → Attempt (List ℕ)) (k s : ℕ)
    → (if not (k == 0) && s == 0 then f k else f s) ≡ f (if s == 0 then k else s)
node_of_known f k s = ground arith

module _ (attempt : MatterMessageInfo → MessageEncryptionKey → Attempt (List ℕ))
    (m : MatterMessageInfo) where
  first_of-append :
      (xs ys : List Candidate)
      → first_of attempt m (xs ++ ys) ≡ or_else (first_of attempt m xs) (first_of attempt m ys)
  first_of-append [] ys = refl
  first_of-append ((n, k, o) ∷ xs) ys = rw (first_of-append xs ys) (
      sym (
        or_else_assoc (found (λ p. (p, o)) (attempt (from_node n m) k)) (first_of attempt m xs)
          (first_of attempt m ys)))

  known_loop_lem :
      (keys : List MessageEncryptionKey)
      → known_loop attempt m keys ≡ first_of attempt m (map (known_candidate m) keys)
  unfolding known_loop
  known_loop_lem [] = refl
  known_loop_lem (key ∷ keys) = rw (known_loop_lem keys) (
      ap
        (λ a.
          or_else (found (λ p. (p, none)) a) (first_of attempt m (map (known_candidate m) keys)))
        (node_of_known (λ n. attempt (from_node n m) key) key.src_node_id m.src_node_id))

  first_of-if :
      (b : Bool) (xs ys : List Candidate)
      → first_of attempt m ((if b then xs else []) ++ ys)
        ≡ or_else (if b then first_of attempt m xs else failed) (first_of attempt m ys)
  first_of-if true xs ys = first_of-append xs ys
  first_of-if false xs ys = refl

  node_loop_lem :
      (key : MessageEncryptionKey) (node_ids : List ℕ)
      → node_loop attempt m key node_ids
        ≡ first_of attempt m (
            map
              (λ n. (n, key, some (record key { src_node_id = n; key_id = m.session_id })))
              node_ids)
  unfolding node_loop
  node_loop_lem key [] = refl
  node_loop_lem key (n ∷ node_ids) = rw (node_loop_lem key node_ids) refl

  prefs_loop_lem :
      (node_ids : List ℕ) (prefs : List MessageEncryptionKey)
      → prefs_loop attempt m node_ids prefs
        ≡ first_of attempt m (flat_map (pref_candidates m node_ids) prefs)
  unfolding prefs_loop
  prefs_loop_lem node_ids [] = refl
  prefs_loop_lem node_ids (pref ∷ prefs) =
      let key : MessageEncryptionKey = record pref { src_node_id = m.src_node_id } in
      rw
        (
          prefs_loop_lem node_ids prefs,
          first_of-if (m.src_node_id == 0)
              (map (λ n. (n, key, some (record key { src_node_id = n; key_id = m.session_id })))
                node_ids)
              (flat_map (pref_candidates m node_ids) prefs),
          sym (node_loop_lem key node_ids),
        )
        (or_else_assoc
          (found (λ p. (p, some (record key { key_id = m.session_id }))) (attempt m key))
          (if m.src_node_id == 0 then node_loop attempt m key node_ids else failed)
          (first_of attempt m (flat_map (pref_candidates m node_ids) prefs)))

  retry_hint_lem :
      (o : Option ℕ) (key : MessageEncryptionKey)
      → retry_hint attempt m o key ≡ first_of attempt m (hint_retry m o key)
  unfolding retry_hint
  retry_hint_lem none key = refl
  retry_hint_lem (some n) key = elim (Bool-cases (m.src_node_id == 0)) [
    | inl e ↦ rw (e, or_else_failed (found (λ p. (p, some key)) (attempt (from_node n m) key))) refl
    | inr e ↦ rw e refl
  ]

  -- A hint that is passed over, or tried once or twice.
  hint_step :
      (b : Bool) (o : Option ℕ) (key : MessageEncryptionKey) (rest : List Candidate)
      → (if b
          then first_of attempt m rest
          else or_else
              (or_else (found (λ p. (p, some key)) (attempt m key)) (retry_hint attempt m o key))
              (first_of attempt m rest))
        ≡ first_of attempt m
            ((if b then [] else (m.src_node_id, key, some key) ∷ hint_retry m o key) ++ rest)
  hint_step true o key rest = refl
  hint_step false o key rest =
      rw (retry_hint_lem o key, first_of-append (hint_retry m o key) rest)
        (or_else_assoc (found (λ p. (p, some key)) (attempt m key))
          (first_of attempt m (hint_retry m o key)) (first_of attempt m rest))

  hint_loop_lem :
      (hints : List MatterProxyHintKey)
      → hint_loop attempt m hints ≡ first_of attempt m (flat_map (hint_candidates m) hints)
  unfolding hint_loop
  hint_loop_lem [] = refl
  hint_loop_lem (hint ∷ hints) = rw (hint_loop_lem hints) (
      hint_step (is_for_other_session hint.hint_key_id m.session_id) hint.hint_src_node_id
        (hint_to_key m hint) (flat_map (hint_candidates m) hints))

  -- The search of `TryDecryptMessage` makes its attempts in the order of the candidates: the keys of the
  -- table, each key of the preferences with every node id, the hints of the file, the others. The first
  -- attempt that does not fail decides what is found and which key is kept.
  pub search_keys_lem :
      (known prefs : List MessageEncryptionKey) (node_ids : List ℕ)
      (from_file from_dsb : List MatterProxyHintKey)
      → search_keys attempt m known prefs node_ids from_file from_dsb
        ≡ first_of attempt m (candidates m known prefs node_ids from_file from_dsb)
  unfolding search_keys
  search_keys_lem known prefs node_ids from_file from_dsb =
      rw
        (
          known_loop_lem known,
          prefs_loop_lem node_ids prefs,
          hint_loop_lem from_file,
          hint_loop_lem from_dsb,
          first_of-append (map (known_candidate m) known) (
              flat_map (pref_candidates m node_ids) prefs
              ++ (flat_map (hint_candidates m) from_file ++ flat_map (hint_candidates m) from_dsb)),
          first_of-append (flat_map (pref_candidates m node_ids) prefs)
              (flat_map (hint_candidates m) from_file ++ flat_map (hint_candidates m) from_dsb),
          first_of-append (flat_map (hint_candidates m) from_file)
              (flat_map (hint_candidates m) from_dsb),
        )
        refl
