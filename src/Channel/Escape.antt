-- ===== src/Channel/Escape.antt =====
-- Query escaping (`url.QueryEscape`) read back: a decoder that stops at a colon.
use go_tiny_claw.Base.{
  codes, ℕ, Bool, [], ◌∷◌, ◌++◌, if◌then◌else◌, ◌==◌, leb, Text, ◌+◌, ◌-◌, ◌*◌, ◌/◌, ◌%◌, ◌<◌, ◌≡◌,
  refl, arith, All, Bool-cases, inl, inr, ==_iff, ap, append_assoc, ◌∙◌, ◌⊎◌,
}
use go_tiny_claw.Channel.{escape_byte, is_unreserved, upper_hex, query_escape}

-- A Go string: every element is a byte.
abbrev pub IsBytes : Text → Type 0
IsBytes = All (λ b. b < 256)

data Mode : Type 0 where
  plain percent : Mode
  digit : ℕ → Mode

hex_value : ℕ → ℕ
hex_value h = if leb h b'9' then h - b'0' else h - b'A' + 10

push : ℕ → Text × Text → Text × Text
push b p = (b ∷ p.0, p.1)

decode : Mode → Text → Text × Text
decode m [] = ([], [])
decode plain (a ∷ r) =
    let escaped = decode percent r in
    let rest = push (if a == b'+' then 32 else a) (decode plain r) in
    if a == b':' then ([], a ∷ r) else if a == b'%' then escaped else rest
decode percent (a ∷ r) = decode (digit a) r
decode (digit h) (a ∷ r) = push (hex_value h * 16 + hex_value a) (decode plain r)

-- The escaped field at the head of a text, and what follows it.
pub read_field : Text → Text × Text
read_field s = decode plain s

hex_value-upper_hex : (n : ℕ) → n < 16 → hex_value (upper_hex n) ≡ n
unfolding hex_value
hex_value-upper_hex n h = ground arith

decode-plain_byte :
    (b : ℕ) (rest : Text)
    → is_unreserved b ≡ Bool.true
    → decode plain (b ∷ rest) ≡ push b (decode plain rest)
unfolding decode push
decode-plain_byte b rest h = ground arith

decode-space : (rest : Text) → decode plain (b'+' ∷ rest) ≡ push 32 (decode plain rest)
unfolding decode
decode-space rest = refl

decode-hex :
    (b : ℕ) (rest : Text)
    → b < 256
    → decode plain (b'%' ∷ upper_hex (b / 16) ∷ upper_hex (b % 16) ∷ rest)
      ≡ push b (decode plain rest)
unfolding decode
decode-hex b rest h =
    ap (λ v. push v (decode plain rest))
      (omega (
        arith,
        hex_value-upper_hex (b / 16) (omega arith),
        hex_value-upper_hex (b % 16) (omega arith),
      ))

decode-escape_byte :
    (b : ℕ) (rest : Text)
    → b < 256
    → decode plain (escape_byte b ++ rest) ≡ push b (decode plain rest)
decode-escape_byte b rest h = elim (Bool-cases (is_unreserved b)) [
  | inl e ↦ rw e (decode-plain_byte b rest e)
  | inr e ↦ rw e (escaped (Bool-cases (b == 32)))
]
  where
    escaped :
        ((b == 32) ≡ Bool.true) ⊎ ((b == 32) ≡ Bool.false)
        → decode plain (
            (if b == 32 then b'+' ∷ [] else b'%' ∷ upper_hex (b / 16) ∷ upper_hex (b % 16) ∷ [])
            ++ rest)
          ≡ push b (decode plain rest)
    escaped (inl f) = rw f (rw ((==_iff b 32).0 f) (decode-space rest))
    escaped (inr f) = rw f (decode-hex b rest h)

decode-query_escape :
    (s rest : Text)
    → IsBytes s
    → decode plain (query_escape s ++ rest) ≡ (s ++ (decode plain rest).0, (decode plain rest).1)
unfolding query_escape push
decode-query_escape [] rest h = refl
decode-query_escape (b ∷ bs) rest h = rw (append_assoc (escape_byte b) (query_escape bs) rest) (
    decode-escape_byte b (query_escape bs ++ rest) h.0
    ∙ ap (push b) (decode-query_escape bs rest h.1))

pub read_field-colon :
    (s rest : Text)
    → IsBytes s
    → read_field (query_escape s ++ b':' ∷ rest) ≡ (s ++ [], b':' ∷ rest)
unfolding read_field decode
read_field-colon s rest h = decode-query_escape s (b':' ∷ rest) h

pub read_field-end : (s : Text) → IsBytes s → read_field (query_escape s ++ []) ≡ (s ++ [], [])
unfolding read_field decode
read_field-end s h = decode-query_escape s [] h

pub read_field-nil : read_field [] ≡ ([], [])
unfolding read_field decode
read_field-nil = refl

skip_label : Text → Text → Text
skip_label [] s = s
skip_label (b ∷ bs) [] = []
skip_label (b ∷ bs) (c ∷ cs) = skip_label bs cs

skip_label-append : (label s : Text) → skip_label label (label ++ s) ≡ s
unfolding skip_label
skip_label-append [] s = refl
skip_label-append (b ∷ bs) s = skip_label-append bs s

-- The field after a label, and what follows it.
pub after_label : Text → Text → Text × Text
after_label label s = read_field (skip_label label s)

pub after_label-colon :
    (label s rest : Text)
    → IsBytes s
    → after_label label (label ++ (query_escape s ++ b':' ∷ rest)) ≡ (s ++ [], b':' ∷ rest)
unfolding after_label
after_label-colon label s rest h =
    ap read_field (skip_label-append label _) ∙ read_field-colon s rest h

pub after_label-end :
    (label s : Text)
    → IsBytes s
    → after_label label (label ++ (query_escape s ++ [])) ≡ (s ++ [], [])
unfolding after_label
after_label-end label s h = ap read_field (skip_label-append label _) ∙ read_field-end s h

pub after_label-nil : after_label (codes ":thread:") [] ≡ ([], [])
unfolding after_label skip_label
after_label-nil = read_field-nil
