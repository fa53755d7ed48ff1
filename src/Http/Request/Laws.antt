-- ===== src/Http/Request/Laws.antt =====
-- A well-formed request line is read as its words, and a name that strencode wrote as the name.
use linux_c_study.Prelude.{
  ℕ, ◌+◌, ◌*◌, ◌≤◌, ◌≡◌, refl, ap, ◌∙◌, ◌↔◌, ◌⊎◌, inl, inr, Bool, true, false, List, [], ◌∷◌, ◌++◌,
  arith, ltb, leb, ◌==◌, Bool-cases, length,
}
use linux_c_study.Prelude.Bytes.{codes, All, All-append, IsText}
use linux_c_study.Http.Codec.{isalnum, is_mark, hex_digit, encode_char, strencode_from, strencode}
use linux_c_study.Http.Codec.Decode.{decode}
use linux_c_study.Http.Codec.RoundTrip.{decode-strencode}
use linux_c_study.Http.Request.{
  span, c_string, is_space, skip_space, Request, not_blank, not_blank_or_eol, scan_protocal,
  scan_file, scan_type, scan_request, overflows, requested_path,
}

span-append :
    (p : ℕ → Bool) (a : List ℕ) (c : ℕ) (s : List ℕ)
    → All (λ x. p x ≡ true) a
    → p c ≡ false
    → span p (a ++ (c ∷ s)) ≡ (a, c ∷ s)
unfolding span
span-append p [] c s h e = rw e
span-append p (x ∷ a) c s h e = rw (span-append p a c s h.1 e, h.0)

-- A byte of a word: no zero and no white space.
abbrev pub IsWord : List ℕ → Type 0
IsWord = All (λ c. (1 ≤ c) × (is_space c ≡ false))

pub All-imp : {P Q : ℕ → Type 0} (f : (c : ℕ) → P c → Q c) (s : List ℕ) → All P s → All Q s
All-imp f [] h = tt
All-imp f (c ∷ s) h = (f c h.0, All-imp f s h.1)

pub c_string-text : (s : List ℕ) → All (λ c. 1 ≤ c) s → c_string s ≡ s
unfolding c_string
c_string-text [] h = refl
c_string-text (c ∷ s) h =
    let e : (c == 0) ≡ false = ground (arith, h.0) in rw (e, c_string-text s h.1)

skip_space-word : (s r : List ℕ) → 1 ≤ length s → IsWord s → skip_space (32 ∷ (s ++ r)) ≡ s ++ r
unfolding skip_space
skip_space-word [] r l h = absurd (omega arith)
skip_space-word (c ∷ s) r l h = rw (h.0.1, skip_space)

-- The line of a request with three words.
abbrev pub request_line : List ℕ → List ℕ → List ℕ → List ℕ
request_line m f p = m ++ (32 ∷ (f ++ (32 ∷ (p ++ (13 ∷ 10 ∷ [])))))

request_line-text :
    (m f p : List ℕ) → IsWord m → IsWord f → IsWord p → All (λ c. 1 ≤ c) (request_line m f p)
request_line-text m f p hm hf hp = All-append _ m _ (text m hm) (
  omega arith,
  All-append _ f _ (text f hf) (omega arith, All-append _ p _ (text p hp) (omega arith)),
)
  where
    text : (s : List ℕ) → IsWord s → All (λ c. 1 ≤ c) s
    text = All-imp (λ c h. h.0)

scan_protocal-word :
    (m f p : List ℕ)
    → 1 ≤ length p
    → IsWord p
    → scan_protocal m f (32 ∷ (p ++ (13 ∷ 10 ∷ [])))
      ≡ record { req_type = m; file_name = f; protocal = p }
unfolding scan_protocal
scan_protocal-word m f p l h = rw (
  skip_space-word p (13 ∷ 10 ∷ []) l h,
  span-append not_blank_or_eol p 13 (10 ∷ []) (All-imp (λ c w. ground arith) p h) refl,
)

scan_file-word :
    (m f p : List ℕ)
    → 1 ≤ length f
    → scan_file m (f, 32 ∷ (p ++ (13 ∷ 10 ∷ []))) ≡ scan_protocal m f (32 ∷ (p ++ (13 ∷ 10 ∷ [])))
unfolding scan_file
scan_file-word m [] p l = absurd (omega arith)
scan_file-word m (c ∷ f) p l = refl

scan_type-word :
    (m s : List ℕ) → 1 ≤ length m → scan_type (m, s) ≡ scan_file m (span not_blank (skip_space s))
unfolding scan_type
scan_type-word [] s l = absurd (omega arith)
scan_type-word (c ∷ m) s l = refl

-- A line of three non-empty words, with a space between them and CR LF at its end, is read as the
-- three words.
pub scan_request-request_line :
    (m f p : List ℕ)
    → (1 ≤ length m) × (1 ≤ length f) × (1 ≤ length p)
    → IsWord m
    → IsWord f
    → IsWord p
    → scan_request (request_line m f p) ≡ record { req_type = m; file_name = f; protocal = p }
unfolding scan_request
scan_request-request_line m f p l hm hf hp =
    rw
      (
        c_string-text (request_line m f p) (request_line-text m f p hm hf hp),
        span-append not_blank m 32 (f ++ (32 ∷ (p ++ (13 ∷ 10 ∷ [])))) (blank m hm) refl,
        scan_type-word m (32 ∷ (f ++ (32 ∷ (p ++ (13 ∷ 10 ∷ []))))) l.0,
        skip_space-word f (32 ∷ (p ++ (13 ∷ 10 ∷ []))) l.1 hf,
        span-append not_blank f 32 (p ++ (13 ∷ 10 ∷ [])) (blank f hf) refl,
        scan_file-word m f p l.1,
      )
      (scan_protocal-word m f p l.2 hp)
  where
    blank : (s : List ℕ) → IsWord s → All (λ c. not_blank c ≡ true) s
    blank = All-imp (λ c w. ground arith)

encode_char-IsWord : (c : ℕ) → IsText c → IsWord (encode_char c)
unfolding encode_char isalnum is_mark hex_digit
encode_char-IsWord c h = ground arith

strencode_from-IsWord :
    (tosize tolen : ℕ) (s : List ℕ) → All IsText s → IsWord (strencode_from tosize tolen s)
unfolding strencode_from
strencode_from-IsWord tosize tolen [] h = tt
strencode_from-IsWord tosize tolen (c ∷ s) h = elim (Bool-cases (ltb (tolen + 4) tosize)) [
  | inl e ↦ rw e (
      All-append _ (encode_char c) (strencode_from tosize (tolen + length (encode_char c)) s)
        (encode_char-IsWord c h.0)
        (strencode_from-IsWord tosize (tolen + length (encode_char c)) s h.1))
  | inr e ↦ rw e tt
]

pub strencode-IsWord : (tosize : ℕ) (s : List ℕ) → All IsText s → IsWord (strencode tosize s)
unfolding strencode
strencode-IsWord tosize s h = strencode_from-IsWord tosize 0 s h

length-encoded : (enc s : List ℕ) → decode enc ≡ s → 1 ≤ length s → 1 ≤ length enc
unfolding decode
length-encoded [] s e h = absurd (omega (arith, ap length e))
length-encoded (c ∷ enc) s e h = omega arith

pub requested_path-slash :
    (q : Request) (enc : List ℕ)
    → q.file_name ≡ b'/' ∷ enc
    → 1 ≤ length enc
    → requested_path q ≡ c_string (decode enc)
unfolding requested_path
requested_path-slash q [] e h = absurd (omega arith)
requested_path-slash q (c ∷ enc) e h = rw e (rw long)
  where
    long : leb (length (b'/' ∷ c ∷ enc)) 1 ≡ false
    long = ground arith

-- A link that strencode wrote leads to the file: of the request GET /LINK HTTP/1.1, with LINK the
-- encoding of a non-empty name of bytes that are not zero, in a buffer with room for three bytes
-- for each of them and two more, the path is the name.
pub requested_path-strencode :
    (tosize : ℕ) (name : List ℕ)
    → All IsText name
    → 1 ≤ length name
    → 3 * length name + 2 ≤ tosize
    → requested_path (
        scan_request (request_line (codes "GET") (b'/' ∷ strencode tosize name) (codes "HTTP/1.1")))
      ≡ name
requested_path-strencode tosize name text some_name fit =
    rw
      (scan_request-request_line (codes "GET") (b'/' ∷ enc) (codes "HTTP/1.1")
        (omega arith, omega arith, omega arith) (ground arith)
        ((omega arith, refl), strencode-IsWord tosize name text) (ground arith))
      (requested_path-slash _ enc refl (length-encoded enc name back some_name)
        ∙ ap c_string back
        ∙ c_string-text name (All-imp (λ c h. h.0) name text))
  where
    enc : List ℕ
    enc = strencode tosize name

    back : decode (strencode tosize name) ≡ name
    back = decode-strencode tosize name text fit

-- A request line of three words, none of them empty or with white space in it, overruns one of the
-- arrays exactly when a word is longer than 15, 254 or 15 bytes.
pub request_line-overflows :
    (m f p : List ℕ)
    → (1 ≤ length m) × (1 ≤ length f) × (1 ≤ length p)
    → IsWord m
    → IsWord f
    → IsWord p
    → (overflows (scan_request (request_line m f p)) ≡ true)
      ↔ (16 ≤ length m) ⊎ ((255 ≤ length f) ⊎ (16 ≤ length p))
unfolding overflows
request_line-overflows m f p l hm hf hp =
    rw (scan_request-request_line m f p l hm hf hp) (ground arith)
