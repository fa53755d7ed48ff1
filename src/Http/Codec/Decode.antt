-- ===== src/Http/Codec/Decode.antt =====
-- strdecode in place, as http_service calls it: against a decoder of lists.
use linux_c_study.Prelude.{
  ℕ, zero, suc, ◌+◌, ◌*◌, ◌%◌, ◌≤◌, ◌<◌, ◌≡◌, refl, ◌∙◌, ◌⊎◌, inl, inr, true, false, ◌&&◌, List, [],
  ◌∷◌, arith, ◌==◌, if◌then◌else◌, Bool-cases, length,
}
use mathlib.Core.Path.{subst}
use linux_c_study.Http.Codec.{Memory, write, isxdigit, hexit, at_escape, strdecode}

-- h1 h2 as the byte that they spell.
abbrev pub hex_byte : ℕ → ℕ → ℕ
hex_byte h l = (hexit h * 16 + hexit l) % 256

-- The decoder of lists, with no memory and no aliasing.
unfoldable pub decode : List ℕ → List ℕ
decode (c ∷ h ∷ l ∷ s) =
    let escaped = hex_byte h l ∷ decode s in
    let plain = c ∷ decode (h ∷ l ∷ s) in
    if c == b'%' && (isxdigit h && isxdigit l) then escaped else plain
decode s = s

-- From address `a` on, the memory holds a C string with the bytes `s`.
abbrev pub Cstring : Memory → ℕ → List ℕ → Type 0
Cstring m a [] = m a ≡ 0
Cstring m a (c ∷ s) = (m a ≡ c) × (1 ≤ c) × Cstring m (a + 1) s

-- From address `a` on, the memory holds the bytes `s` and then a zero.
abbrev pub Spells : Memory → ℕ → List ℕ → Type 0
Spells m a [] = m a ≡ 0
Spells m a (c ∷ s) = (m a ≡ c) × Spells m (a + 1) s

Cstring-write :
    (m : Memory) (i v a : ℕ) (s : List ℕ) → i < a → Cstring m a s → Cstring (write m i v) a s
Cstring-write m i v a [] lt h = ground arith
Cstring-write m i v a (c ∷ s) lt h =
    (ground arith, h.1, Cstring-write m i v (a + 1) s (omega arith) h.2)

-- What one run of the decoder has done, started with `to` at or before `from`.
pub record Decoded (m m' : Memory) (to from : ℕ) (s : List ℕ) : Type 0 where
  pub spelled : Spells m' to (decode s)
  pub below : (i : ℕ) → i < to → m' i ≡ m i
  pub above : (i : ℕ) → from + length s < i → m' i ≡ m i

-- The first byte has been written, and the rest decoded from `from'` on.
Decoded-cons :
    (m m' : Memory) (to from' v : ℕ) (s r : List ℕ)
    → Decoded (write m to v) m' (to + 1) from' r
    → decode s ≡ v ∷ decode r
    → to < from'
    → (from : ℕ) → from + length s ≡ from' + length r
    → Decoded m m' to from s
Decoded-cons m m' to from' v s r d e lt from len = record {
  spelled = rw e (ground (arith, d.below to), d.spelled);
  below = λ i h. ground (arith, d.below i);
  above = λ i h. ground (arith, d.above i);
}

Cstring-at : (m : Memory) {a b : ℕ} (s : List ℕ) → a ≡ b → Cstring m a s → Cstring m b s
Cstring-at m s e h = subst (λ k. Cstring m k s) e h

pub decode-escape :
    (c h l : ℕ) (s : List ℕ)
    → (c == b'%' && (isxdigit h && isxdigit l)) ≡ true
    → decode (c ∷ h ∷ l ∷ s) ≡ hex_byte h l ∷ decode s
unfolding decode
decode-escape c h l s e = rw e

decode-plain :
    (c h l : ℕ) (s : List ℕ)
    → (c == b'%' && (isxdigit h && isxdigit l)) ≡ false
    → decode (c ∷ h ∷ l ∷ s) ≡ c ∷ decode (h ∷ l ∷ s)
unfolding decode
decode-plain c h l s e = rw e

-- A byte other than `%` is copied, whatever follows it.
pub decode-ne : (c : ℕ) (s : List ℕ) → (c == b'%') ≡ false → decode (c ∷ s) ≡ c ∷ decode s
unfolding decode
decode-ne c [] e = refl
decode-ne c (x ∷ []) e = refl
decode-ne c (x ∷ y ∷ s) e = decode-plain c x y s (rw e)

at_escape_lem :
    (m : Memory) (from c h l : ℕ)
    → m from ≡ c
    → m (from + 1) ≡ h
    → m (from + 2) ≡ l
    → at_escape m from ≡ (c == b'%' && (isxdigit h && isxdigit l))
unfolding at_escape
at_escape_lem m from c h l p q r = rw (p, q, r)

at_escape_end :
    (m : Memory) (from : ℕ) → (m (from + 1) ≡ 0) ⊎ (m (from + 2) ≡ 0) → at_escape m from ≡ false
unfolding at_escape isxdigit
at_escape_end m from h = ground arith

module _ (fuel : ℕ) (m : Memory) (to from : ℕ) where
  strdecode-end : m from ≡ 0 → strdecode (suc fuel) m to from ≡ write m to 0
  unfolding strdecode
  strdecode-end e = rw e

  strdecode-plain :
      {c : ℕ}
      → m from ≡ c
      → 1 ≤ c
      → at_escape m from ≡ false
      → strdecode (suc fuel) m to from ≡ strdecode fuel (write m to c) (to + 1) (from + 1)
  unfolding strdecode
  strdecode-plain e p q = ground arith

  strdecode-escape :
      {c h l : ℕ}
      → m from ≡ c
      → 1 ≤ c
      → m (from + 1) ≡ h
      → m (from + 2) ≡ l
      → at_escape m from ≡ true
      → strdecode (suc fuel) m to from
        ≡ strdecode fuel (write m to (hex_byte h l)) (to + 1) (from + 3)
  unfolding strdecode
  strdecode-escape e p q r t = ground arith

-- One round that copies the byte, whatever follows it.
plain_round :
    (fuel : ℕ) (m : Memory) (to from c : ℕ) (s : List ℕ)
    → m from ≡ c
    → 1 ≤ c
    → at_escape m from ≡ false
    → decode (c ∷ s) ≡ c ∷ decode s
    → to ≤ from
    → Decoded
        (write m to c)
        (strdecode fuel (write m to c) (to + 1) (from + 1))
        (to + 1)
        (from + 1)
        s
    → Decoded m (strdecode (suc fuel) m to from) to from (c ∷ s)
plain_round fuel m to from c s e p q d le ih =
    rw (strdecode-plain fuel m to from e p q)
      (Decoded-cons m _ to (from + 1) c (c ∷ s) s ih d (omega arith) from (omega arith))

-- On a string with its closing zero, with as many rounds as it has bytes and one more, strdecode
-- leaves at `to` the bytes that `decode` reads at `from`, and a zero; it changes nothing before
-- `to` and nothing behind the string, for every `to` up to `from`.
pub strdecode-Decoded :
    (fuel : ℕ) (m : Memory) (to from : ℕ) (s : List ℕ)
    → Cstring m from s
    → to ≤ from
    → length s < fuel
    → Decoded m (strdecode fuel m to from) to from s
unfolding decode
strdecode-Decoded zero m to from s h le lt = absurd (omega arith)
strdecode-Decoded (suc fuel) m to from [] h le lt =
    rw (strdecode-end fuel m to from h)
      (record { spelled = ground arith; below = λ i p. ground arith; above = λ i p. ground arith })
strdecode-Decoded (suc fuel) m to from (c ∷ []) h le lt =
    plain_round fuel m to from c [] h.0 h.1 (at_escape_end m from (inl h.2)) refl le (
      strdecode-Decoded fuel _ (to + 1) (from + 1) []
        (Cstring-write m to c (from + 1) [] (omega arith) h.2) (omega arith) (omega arith))
strdecode-Decoded (suc fuel) m to from (c ∷ d ∷ []) h le lt =
    plain_round fuel m to from c (d ∷ []) h.0 h.1
      (at_escape_end m from (inr (Cstring-at m [] (omega arith) h.2.2))) refl le
      (strdecode-Decoded fuel _ (to + 1) (from + 1) (d ∷ [])
        (Cstring-write m to c (from + 1) (d ∷ []) (omega arith) h.2) (omega arith) (omega arith))
strdecode-Decoded (suc fuel) m to from (c ∷ x ∷ l ∷ s) h le lt =
    elim (Bool-cases (c == b'%' && (isxdigit x && isxdigit l))) [
      | inl t ↦ rw (strdecode-escape fuel m to from h.0 h.1 h.2.0 third (escape ∙ t)) (
          Decoded-cons m _ to (from + 3) (hex_byte x l) (c ∷ x ∷ l ∷ s) s
            (strdecode-Decoded fuel _ (to + 1) (from + 3) s
              (Cstring-write m to (hex_byte x l) (from + 3) s (omega arith)
                (Cstring-at m s (omega arith) h.2.2.2))
              (omega arith) (omega arith))
            (decode-escape c x l s t) (omega arith) from (omega arith))
      | inr t ↦
          plain_round fuel m to from c (x ∷ l ∷ s) h.0 h.1 (escape ∙ t) (decode-plain c x l s t) le
            (strdecode-Decoded fuel _ (to + 1) (from + 1) (x ∷ l ∷ s)
              (Cstring-write m to c (from + 1) (x ∷ l ∷ s) (omega arith) h.2) (omega arith)
              (omega arith))
    ]
  where
    third : m (from + 2) ≡ l
    third = subst (λ k. m k ≡ l) (omega arith) h.2.2.0

    escape : at_escape m from ≡ (c == b'%' && (isxdigit x && isxdigit l))
    escape = at_escape_lem m from c x l h.0 h.2.0 third
