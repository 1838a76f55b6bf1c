-- ===== src/Tlv/Reader/Skips/Walk.antt =====
-- The loop of `SkipToEndOfContainer` over the tokens of an encoding.
use matter_dissector.Prelude.{
  ℕ, zero, suc, ◌+◌, ◌^◌, ◌<◌, ◌≤◌, ◌≡◌, refl, sym, ap, ◌∙◌, false, List, [], ◌∷◌, ◌++◌, arith,
  length, length-append,
}
use matter_dissector.Tlv.Types.{TlvType, not_specified, code, is_type, end_of_container}
use matter_dissector.Tlv.Reader.State.{TlvReader, Outcome, ok}
use matter_dissector.Tlv.Reader.Wire.{anonymous, tag_value}
use matter_dissector.Tlv.Reader.Heads.{encode_head}
use matter_dissector.Tlv.Grammar.{
  Token, single, opens, closes, token_bytes, encode_tokens, IsValue, IsContainer,
}
use matter_dissector.Tlv.Reader.Skips.Bytes.{behind, append_nil, Accepts, at_head}
use matter_dissector.Tlv.Reader.Skips.Rounds.{
  left, ended, read_and_loop, value_lem, open_lem, close_lem,
}

-- Along the tokens the tags suit the containers, and the last of them ends the outermost one.
abbrev pub Walk : TlvType → TlvType → ℕ → List Token → Type 0
Walk outer c level [] = ⊥
Walk outer c level (single w t v bytes ∷ ks) =
    IsValue w t v bytes × Accepts c (tag_value w) × Walk outer c level ks
Walk outer c level (opens w t ∷ ks) =
    IsContainer w t × Accepts c (tag_value w) × Walk outer (code t) (suc level) ks
Walk outer c zero (closes ∷ []) = is_type c not_specified ≡ false
Walk outer c zero (closes ∷ k ∷ ks) = ⊥
Walk outer c (suc level) (closes ∷ ks) =
    (is_type c not_specified ≡ false) × Walk outer (left outer level) level ks

append_assoc : (xs ys zs : List ℕ) → (xs ++ ys) ++ zs ≡ xs ++ (ys ++ zs)
append_assoc [] ys zs = refl
append_assoc (x ∷ xs) ys zs = ap (◌∷◌ x) (append_assoc xs ys zs)

-- A round that takes the first bytes, in front of a walk that takes the others.
then_walk :
    (fuel level level' : ℕ) (outer c : TlvType) (input rest : List ℕ) (first others total : ℕ)
    (r r' : TlvReader)
    → read_and_loop (suc fuel) outer level (record r { input = input })
      ≡ read_and_loop fuel outer level' r'
    → read_and_loop fuel outer level' r' ≡ ok tt (ended c rest others r')
    → ended c rest others r' ≡ ended c rest (first + others) r
    → first + others ≡ total
    → read_and_loop (suc fuel) outer level (record r { input = input })
      ≡ ok tt (ended c rest total r)
then_walk fuel level level' outer c input rest first others total r r' a b e n =
    a
    ∙ b
    ∙ ap {B = Outcome (Unit {0})} (ok tt) e
    ∙ ap {B = Outcome (Unit {0})} (λ m. ok tt (ended c rest m r)) n

-- The loop of `SkipToEndOfContainer` ends behind the tokens.
pub walk_lem :
    (outer : TlvType) (ks : List Token) (fuel level : ℕ) (rest : List ℕ) (r : TlvReader)
    → Walk outer r.container_type level ks
    → level + length ks < 2 ^ 32
    → length ks ≤ fuel
    → r.len_read + length (encode_tokens ks ++ rest) ≤ r.max_len
    → r.max_len < 2 ^ 32
    → (c : TlvType) × (read_and_loop fuel outer level
          (record r { input = encode_tokens ks ++ rest })
        ≡ ok tt (ended c rest (length (encode_tokens ks)) r))
walk_lem outer [] fuel level rest r walk deep enough fits bounded = elim walk [ ]
walk_lem outer (single w t v bytes ∷ ks) zero level rest r walk deep enough fits bounded =
    absurd (omega (arith, enough))
walk_lem outer (single w t v bytes ∷ ks) (suc fuel) level rest r (is, accepts, walk) deep enough
      fits bounded =
    let head : List ℕ = encode_head w t v in
    let more : List ℕ = encode_tokens ks ++ rest in
    let whole : encode_tokens (single w t v bytes ∷ ks) ++ rest ≡ head ++ (bytes ++ more) =
      append_assoc (head ++ bytes) (encode_tokens ks) rest ∙ append_assoc head bytes more in
    let r' : TlvReader = behind more (length bytes) (at_head w t v (bytes ++ more) r) in
    let split : length (head ++ (bytes ++ more)) ≡ length head + (length bytes + length more) =
      omega (arith, length-append head (bytes ++ more), length-append bytes more) in
    let (c, e) =
      walk_lem outer ks fuel level rest r' walk (omega (arith, deep)) (omega (arith, enough))
        (omega (arith, fits, ap length whole, split)) bounded in
    (
      c,
      rw (whole) (
          then_walk fuel level level outer c (head ++ (bytes ++ more)) rest
            (length head + length bytes) (length (encode_tokens ks))
            (length (encode_tokens (single w t v bytes ∷ ks))) r r'
            (value_lem w t v bytes more fuel outer level r is accepts
              (omega (arith, fits, ap length whole)) bounded)
            e (ap (λ n. record (ended c rest 0 r) { len_read = n }) (omega arith))
            (omega
              (arith, length-append (head ++ bytes) (encode_tokens ks), length-append head bytes))),
    )
walk_lem outer (opens w t ∷ ks) zero level rest r walk deep enough fits bounded =
    absurd (omega (arith, enough))
walk_lem outer (opens w t ∷ ks) (suc fuel) level rest r (is, accepts, walk) deep enough fits
      bounded =
    let head : List ℕ = encode_head w t 0 in
    let more : List ℕ = encode_tokens ks ++ rest in
    let whole : encode_tokens (opens w t ∷ ks) ++ rest ≡ head ++ more =
      append_assoc head (encode_tokens ks) rest in
    let r' : TlvReader = record (at_head w t 0 more r) { container_type = code t } in
    let (c, e) =
      walk_lem outer ks fuel (suc level) rest r' walk (omega (arith, deep)) (omega (arith, enough))
        (omega (arith, fits, ap length whole, length-append head more)) bounded in
    (
      c,
      rw whole (
          then_walk fuel level (suc level) outer c (head ++ more) rest (length head)
            (length (encode_tokens ks)) (length (encode_tokens (opens w t ∷ ks))) r r'
            (open_lem w t more fuel outer level r is accepts (omega (arith, deep))
              (omega (arith, fits, ap length whole)) bounded)
            e (ap (λ n. record (ended c rest 0 r) { len_read = n }) (omega arith))
            (omega (arith, length-append head (encode_tokens ks)))),
    )
walk_lem outer (closes ∷ ks) zero level rest r walk deep enough fits bounded =
    absurd (omega (arith, enough))
walk_lem outer (closes ∷ []) (suc fuel) zero rest r inside deep enough fits bounded =
    let head : List ℕ = token_bytes closes in
    let whole : encode_tokens (closes ∷ []) ++ rest ≡ head ++ rest = append_assoc head [] rest in
    (
      r.container_type,
      rw whole (
          (close_lem rest fuel outer 0 r inside (omega (arith, fits, ap length whole)) bounded).1
          ∙ ap {B = Outcome (Unit {0})} (λ n. ok tt (ended r.container_type rest n r))
              (sym (ap length (append_nil head)))),
    )
walk_lem outer (closes ∷ k ∷ ks) (suc fuel) zero rest r walk deep enough fits bounded =
    elim walk [ ]
walk_lem outer (closes ∷ ks) (suc fuel) (suc level) rest r (inside, walk) deep enough fits bounded =
    let head : List ℕ = token_bytes closes in
    let more : List ℕ = encode_tokens ks ++ rest in
    let whole : encode_tokens (closes ∷ ks) ++ rest ≡ head ++ more =
      append_assoc head (encode_tokens ks) rest in
    let r' : TlvReader = record (at_head anonymous end_of_container 0 more r) {
      container_type = left outer level;
    } in
    let (c, e) =
      walk_lem outer ks fuel level rest r' walk (omega (arith, deep)) (omega (arith, enough))
        (omega (arith, fits, ap length whole, length-append head more)) bounded in
    (
      c,
      rw whole (
          then_walk fuel (suc level) level outer c (head ++ more) rest (length head)
            (length (encode_tokens ks)) (length (encode_tokens (closes ∷ ks))) r r'
            (close_lem more fuel outer level r inside (omega (arith, fits, ap length whole))
              bounded).0
            e (ap (λ n. record (ended c rest 0 r) { len_read = n }) (omega arith))
            (omega (arith, length-append head (encode_tokens ks)))),
    )
