-- ===== src/Tlv/Reader/Skips/Trees.antt =====
-- The tokens of the elements in a container lead the loop to the container's end.
use matter_dissector.Prelude.{
  ℕ, suc, ◌≤◌, ◌≡◌, refl, false, List, [], ◌∷◌, ◌++◌, arith, length, length-append,
}
use matter_dissector.Tlv.Types.{
  TlvType, not_specified, unknown_container, code, is_type, structure, path,
}
use matter_dissector.Tlv.Reader.Element.{tag_fits}
use matter_dissector.Tlv.Reader.Wire.{WireTag, tag_value}
use matter_dissector.Tlv.Reader.Heads.{encode_head}
use matter_dissector.Tlv.Grammar.{
  Element, value, container, Elements, nothing, element, Token, single, opens, closes, token_bytes,
  encode_tokens, element_tokens, elements_tokens, TagSuits, IsElement, AreElements,
}
use matter_dissector.Tlv.Reader.Skips.Bytes.{Accepts}
use matter_dissector.Tlv.Reader.Skips.Rounds.{left}
use matter_dissector.Tlv.Reader.Skips.Walk.{Walk}

-- What the reader may take the container of elements with the type `c` for.
pub data Hosts (c : ℕ) : TlvType → Type 0 where
  as_it_is : Hosts c (code c)
  forgotten : Hosts c unknown_container

accepts_lem :
    (c : ℕ) (host : TlvType) (w : WireTag)
    → structure ≤ c
    → c ≤ path
    → Hosts c host
    → TagSuits c w
    → Accepts host (tag_value w)
unfolding tag_fits
accepts_lem c host w low high as_it_is suits r = ground arith
accepts_lem c host w low high forgotten suits r = refl

pub Hosts-inside : (c : ℕ) (host : TlvType) → Hosts c host → is_type host not_specified ≡ false
unfolding is_type
Hosts-inside c host as_it_is = refl
Hosts-inside c host forgotten = refl

mutual
  element-Walk :
      (outer : TlvType) (c : ℕ) (e : Element) (host : TlvType) (level : ℕ) (ks : List Token)
      → structure ≤ c
      → c ≤ path
      → Hosts c host
      → Hosts c (left outer level)
      → IsElement c e
      → ((host' : TlvType) → Hosts c host' → Walk outer host' level ks)
      → Walk outer host level (element_tokens e ks)
  element-Walk outer c (value w t v bytes) host level ks low high h l (is, suits) f =
      (is, accepts_lem c host w low high h suits, f host h)
  element-Walk outer c (container w t es) host level ks low high h l (is, suits, are) f = (
    is,
    accepts_lem c host w low high h suits,
    elements-Walk outer t es (code t) (suc level) (closes ∷ ks) is.lowest is.highest as_it_is
        forgotten are λ host' h'. (Hosts-inside t host' h', f (left outer level) l),
  )

  pub elements-Walk :
      (outer : TlvType) (c : ℕ) (es : Elements) (host : TlvType) (level : ℕ) (ks : List Token)
      → structure ≤ c
      → c ≤ path
      → Hosts c host
      → Hosts c (left outer level)
      → AreElements c es
      → ((host' : TlvType) → Hosts c host' → Walk outer host' level ks)
      → Walk outer host level (elements_tokens es ks)
  elements-Walk outer c nothing host level ks low high h l are f = f host h
  elements-Walk outer c (element e es) host level ks low high h l (is, are) f =
      element-Walk outer c e host level (elements_tokens es ks) low high h l is
        λ host' h'. elements-Walk outer c es host' level ks low high h' l are f

-- A token has a byte at least.
pub tokens_short : (ks : List Token) → length ks ≤ length (encode_tokens ks)
tokens_short [] = omega arith
tokens_short (single w t v bytes ∷ ks) =
    omega (arith, tokens_short ks, length-append (encode_head w t v ++ bytes) (encode_tokens ks))
tokens_short (opens w t ∷ ks) =
    omega (arith, tokens_short ks, length-append (encode_head w t 0) (encode_tokens ks))
tokens_short (closes ∷ ks) =
    omega (arith, tokens_short ks, length-append (token_bytes closes) (encode_tokens ks))
