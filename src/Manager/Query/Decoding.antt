-- ===== src/Manager/Query/Decoding.antt =====
-- Percent-encoding, and `percent_decode` (manager/src/main.rs) after it.
use llm_chat.Prelude.{
  ℕ, ◌+◌, ◌-◌, ◌/◌, ◌%◌, ◌<◌, ◌≡◌, refl, ap, ◌∙◌, Text, Bool, true, false, Option, none, some, [],
  ◌∷◌, All, ltb, ◌==◌, if◌then◌else◌, arith, zero, suc, ◌&&◌,
}
use llm_chat.Manager.Query.{hex_byte, decode_bytes}

-- Percent-encoding of RFC 3986, each byte as an escape.
abbrev hex_digit : ℕ → ℕ
hex_digit n = if ltb n 10 then n + b'0' else n - 10 + b'A'

abbrev pub percent_encode : Text → Text
percent_encode [] = []
percent_encode (c ∷ s) = b'%' ∷ hex_digit (c / 16) ∷ hex_digit (c % 16) ∷ percent_encode s

-- A test that every number under a bound passes.
passes : (ℕ → Bool) → ℕ → Bool
passes test zero = true
passes test (suc n) = passes test n && test n

passes-lt : (test : ℕ → Bool) (n x : ℕ) → passes test n ≡ true → x < n → test x ≡ true
unfolding passes
passes-lt test zero x h lt = absurd (omega arith)
passes-lt test (suc n) x h lt = ground (arith, passes-lt test n x)

abbrev decodes_to : ℕ → Option ℕ → Bool
decodes_to c none = false
decodes_to c (some d) = d == c

byte_table :
    passes (λ c. decodes_to c (hex_byte (hex_digit (c / 16)) (hex_digit (c % 16)))) 256 ≡ true
unfolding passes
byte_table = refl

decodes_to-eq : (c : ℕ) (o : Option ℕ) → decodes_to c o ≡ true → o ≡ some c
decodes_to-eq c none h = cc
decodes_to-eq c (some d) h = ground arith

hex_byte-digits : (c : ℕ) → c < 256 → hex_byte (hex_digit (c / 16)) (hex_digit (c % 16)) ≡ some c
hex_byte-digits c h = decodes_to-eq c _ (passes-lt _ 256 c byte_table h)

decode_escape :
    (a b v : ℕ) (s : Text)
    → hex_byte a b ≡ some v
    → decode_bytes (b'%' ∷ a ∷ b ∷ s) ≡ v ∷ decode_bytes s
unfolding decode_bytes
decode_escape a b v s h = rw (h, decode_bytes)

-- Decoding a percent-encoded text of bytes gives the text back.
pub decode-encode : (s : Text) → All (λ c. c < 256) s → decode_bytes (percent_encode s) ≡ s
decode-encode [] h = unfold decode_bytes in refl
decode-encode (c ∷ s) (b, h) =
    decode_escape _ _ c (percent_encode s) (hex_byte-digits c b)
    ∙ ap (λ l. c ∷ l) (decode-encode s h)
