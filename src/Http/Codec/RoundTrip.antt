-- ===== src/Http/Codec/RoundTrip.antt =====
-- strencode: its output fits, and strdecode reads it back.
use linux_c_study.Prelude.{
  ℕ, ◌+◌, ◌*◌, ◌/◌, ◌%◌, ◌≤◌, ◌<◌, ◌≡◌, refl, ap, ◌∙◌, inl, inr, true, false, ◌||◌, List, [], ◌∷◌,
  ◌++◌, arith, ltb, lt→ltb, Bool-cases, length, length-append, tests,
}
use linux_c_study.Http.Codec.{
  Memory, isalnum, is_mark, hex_digit, encode_char, strencode_from, strencode, strdecode,
}
use linux_c_study.Http.Codec.Hex.{isxdigit-hex_digit, hexit-hex_digit, ne_percent}
use linux_c_study.Http.Codec.Decode.{
  decode, decode-ne, decode-escape, hex_byte, Cstring, Spells, strdecode-Decoded,
}
use linux_c_study.Prelude.Bytes.{All, IsText}

encode_char-plain : (c : ℕ) → (isalnum c || is_mark c) ≡ true → encode_char c ≡ c ∷ []
unfolding encode_char
encode_char-plain c e = rw e

encode_char-escape :
    (c : ℕ)
    → (isalnum c || is_mark c) ≡ false
    → encode_char c ≡ b'%' ∷ hex_digit (c % 256 / 16) ∷ hex_digit (c % 16) ∷ []
unfolding encode_char
encode_char-escape c e = rw e

length-encode_char : (c : ℕ) → (1 ≤ length (encode_char c)) × (length (encode_char c) ≤ 3)
unfolding encode_char
length-encode_char c = ground arith

-- A copied byte is no `%`, and an escape of a byte decodes to the byte.
decode-encode_char : (c : ℕ) (s : List ℕ) → IsText c → decode (encode_char c ++ s) ≡ c ∷ decode s
decode-encode_char c s h = elim (Bool-cases (isalnum c || is_mark c)) [
  | inl e ↦ rw (encode_char-plain c e) (decode-ne c s (ne_percent c e))
  | inr e ↦ rw (encode_char-escape c e) (
      decode-escape b'%' hi lo s (
        rw (
          isxdigit-hex_digit (c % 256 / 16) (omega arith),
          isxdigit-hex_digit (c % 16) (omega arith),
        ))
      ∙ ap (λ b. b ∷ decode s) byte)
]
  where
    hi : ℕ
    hi = hex_digit (c % 256 / 16)

    lo : ℕ
    lo = hex_digit (c % 16)

    byte : hex_byte hi lo ≡ c
    byte =
        rw (hexit-hex_digit (c % 256 / 16) (omega arith), hexit-hex_digit (c % 16) (omega arith))
          (omega arith)

-- What the loop writes from `tolen` on ends before index `tosize - 1`, which takes the zero.
strencode_from-fits :
    (tosize tolen : ℕ) (s : List ℕ)
    → tolen + 1 ≤ tosize
    → tolen + length (strencode_from tosize tolen s) + 1 ≤ tosize
unfolding strencode_from
strencode_from-fits tosize tolen [] h = omega arith
strencode_from-fits tosize tolen (c ∷ s) h = elim (Bool-cases (ltb (tolen + 4) tosize)) [
  | inl e ↦ rw e (
      omega (
        tests,
        length-encode_char c,
        length-append (encode_char c) (strencode_from tosize (tolen + length (encode_char c)) s),
        strencode_from-fits tosize (tolen + length (encode_char c)) s
            (omega (tests, length-encode_char c)),
      ))
  | inr e ↦ rw e (omega arith)
]

-- For a buffer of at least one byte, strencode and its closing zero stay inside the buffer.
pub strencode_fits :
    (tosize : ℕ) (s : List ℕ) → 1 ≤ tosize → length (strencode tosize s) + 1 ≤ tosize
unfolding strencode
strencode_fits tosize s h = omega (arith, strencode_from-fits tosize 0 s (omega arith))

-- What was read back, and what the buffer had no room for.
abbrev pub Prefix : List ℕ → List ℕ → Type 0
Prefix r s = (rest : List ℕ) × (r ++ rest ≡ s)

decode-strencode_from :
    (tosize tolen : ℕ) (s : List ℕ)
    → All IsText s
    → Prefix (decode (strencode_from tosize tolen s)) s
unfolding strencode_from decode
decode-strencode_from tosize tolen [] h = ([], refl)
decode-strencode_from tosize tolen (c ∷ s) h = elim (Bool-cases (ltb (tolen + 4) tosize)) [
  | inl e ↦
      let (rest, p) = decode-strencode_from tosize (tolen + length (encode_char c)) s h.1 in
      (
        rest,
        rw e (
            ap (λ r. r ++ rest)
              (decode-encode_char c (strencode_from tosize (tolen + length (encode_char c)) s) h.0)
            ∙ ap (λ r. c ∷ r) p),
      )
  | inr e ↦ (c ∷ s, rw e)
]

-- For a name of bytes that are not zero, a buffer too small for the whole of it gets the encoding
-- of a prefix of it: no escape is cut.
pub decode-strencode_prefix :
    (tosize : ℕ) (s : List ℕ) → All IsText s → Prefix (decode (strencode tosize s)) s
unfolding strencode
decode-strencode_prefix tosize s h = decode-strencode_from tosize 0 s h

decode-strencode_from-All :
    (tosize tolen : ℕ) (s : List ℕ)
    → All IsText s
    → tolen + 3 * length s + 2 ≤ tosize
    → decode (strencode_from tosize tolen s) ≡ s
unfolding strencode_from decode
decode-strencode_from-All tosize tolen [] h fit = refl
decode-strencode_from-All tosize tolen (c ∷ s) h fit =
    rw (lt→ltb (tolen + 4) tosize (omega arith)) (
      decode-encode_char c (strencode_from tosize (tolen + length (encode_char c)) s) h.0
      ∙ ap (λ r. c ∷ r)
          (decode-strencode_from-All tosize (tolen + length (encode_char c)) s h.1
            (omega (arith, length-encode_char c))))

pub decode-strencode :
    (tosize : ℕ) (s : List ℕ)
    → All IsText s
    → 3 * length s + 2 ≤ tosize
    → decode (strencode tosize s) ≡ s
unfolding strencode
decode-strencode tosize s h fit = decode-strencode_from-All tosize 0 s h (omega arith)

-- For a name of bytes that are not zero, with room for three bytes for each of them and two more,
-- strdecode run in place on what strencode wrote leaves the name itself there, followed by a zero.
pub strdecode-strencode :
    (tosize : ℕ) (s : List ℕ) (m : Memory) (a fuel : ℕ)
    → All IsText s
    → 3 * length s + 2 ≤ tosize
    → Cstring m a (strencode tosize s)
    → length (strencode tosize s) < fuel
    → Spells (strdecode fuel m a a) a s
strdecode-strencode tosize s m a fuel text fit held enough =
    rw (decode-strencode tosize s text fit) at
      (strdecode-Decoded fuel m a a (strencode tosize s) held (omega arith) enough).spelled
