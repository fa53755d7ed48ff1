-- ===== src/Http/Codec/Tests.antt =====
-- Runs of the percent coding, and the theorems at concrete names.
use linux_c_study.Prelude.{ℕ, ◌≡◌, refl, List, arith, get_or}
use linux_c_study.Http.Codec.{
  Memory, hexit, encode_char, strencode_from, strencode, strdecode, isxdigit, isalnum, is_mark,
  hex_digit,
}
use linux_c_study.Http.Codec.Decode.{decode, Spells, Decoded, strdecode-Decoded}
use linux_c_study.Http.Codec.RoundTrip.{strdecode-strencode}
use linux_c_study.Prelude.Bytes.{codes}

-- A memory that holds a list from address 0 on, and zeros behind it.
abbrev holding : List ℕ → Memory
holding s a = get_or s a 0

abbrev name : List ℕ
name = codes "a b/c%"

encoded : strencode 64 name ≡ codes "a%20b/c%25"
unfolding strencode strencode_from encode_char isalnum is_mark hex_digit
encoded = refl

truncated : strencode 8 name ≡ codes "a%20"
unfolding strencode strencode_from encode_char isalnum is_mark hex_digit
truncated = refl

decoded : decode (codes "a%20b%2") ≡ codes "a b%2"
unfolding decode isxdigit hexit
decoded = refl

strdecode-Decoded_example :
    Decoded
      (holding (codes "%41%42"))
      (strdecode 7 (holding (codes "%41%42")) 0 0)
      0
      0
      (codes "%41%42")
strdecode-Decoded_example =
    strdecode-Decoded 7 (holding (codes "%41%42")) 0 0 (codes "%41%42") (omega arith) (omega arith)
      (omega arith)

strdecode-strencode_example : Spells (strdecode 11 (holding (codes "a%20b/c%25")) 0 0) 0 name
unfolding strencode strencode_from encode_char isalnum is_mark hex_digit
strdecode-strencode_example =
    strdecode-strencode 64 name (holding (codes "a%20b/c%25")) 0 11 (omega arith) (omega arith)
      (omega arith) (omega arith)
