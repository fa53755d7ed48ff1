-- ===== src/Http/Mime.antt =====
-- httpService/http_service.c: get_mime_type, the content type for a file name.
mod Tests
use linux_c_study.Prelude.{
  ℕ, ◌≡◌, refl, ap, ◌∙◌, false, ◌||◌, Option, none, some, List, [], ◌∷◌, ◌++◌, arith, ◌==◌,
  if◌then◌else◌,
}
use linux_c_study.Prelude.Bytes.{codes, str_eq, All}

-- strrchr: from the last `c` on, if there is one.
pub strrchr : List ℕ → ℕ → Option (List ℕ)
strrchr [] c = none
strrchr (x ∷ s) c = elim (strrchr s c) [
  | some t ↦ some t
  | none ↦ if x == c then some (x ∷ s) else none
]

abbrev pub text_plain : List ℕ
text_plain = codes "text/plain; charset=utf-8"

-- The second half of the tests of the extension, in their order.
pub media_type : List ℕ → List ℕ
media_type dot =
    if str_eq dot (codes ".avi")
    then codes "video/x-msvideo"
    else if str_eq dot (codes ".mov") || str_eq dot (codes ".qt")
    then codes "video/quicktime"
    else if str_eq dot (codes ".mpeg") || str_eq dot (codes ".mpe")
    then codes "video/mpeg"
    else if str_eq dot (codes ".vrml") || str_eq dot (codes ".wrl")
    then codes "model/vrml"
    else if str_eq dot (codes ".midi") || str_eq dot (codes ".mid")
    then codes "audio/midi"
    else if str_eq dot (codes ".mp3")
    then codes "audio/mpeg"
    else if str_eq dot (codes ".ogg")
    then codes "application/ogg"
    else if str_eq dot (codes ".pac")
    then codes "application/x-ns-proxy-autoconfig"
    else text_plain

-- The tests of the extension, in their order.
pub extension_type : List ℕ → List ℕ
extension_type dot =
    if str_eq dot (codes ".html") || str_eq dot (codes ".htm")
    then codes "text/html; charset=utf-8"
    else if str_eq dot (codes ".jpg") || str_eq dot (codes ".jpeg")
    then codes "image/jpeg"
    else if str_eq dot (codes ".gif")
    then codes "image/gif"
    else if str_eq dot (codes ".png")
    then codes "image/png"
    else if str_eq dot (codes ".css")
    then codes "text/css"
    else if str_eq dot (codes ".au")
    then codes "audio/basic"
    else if str_eq dot (codes ".wav")
    then codes "audio/wav"
    else media_type dot

pub get_mime_type : List ℕ → List ℕ
get_mime_type name = elim (strrchr name b'.') [ none ↦ text_plain | some dot ↦ extension_type dot ]

-- No byte of the name is a dot.
abbrev NoDot : List ℕ → Type 0
NoDot = All (λ c. (c == b'.') ≡ false)

strrchr-none : (s : List ℕ) → NoDot s → strrchr s b'.' ≡ none
unfolding strrchr
strrchr-none [] h = refl
strrchr-none (x ∷ s) h = rw (strrchr-none s h.1, h.0)

strrchr-append :
    (base ext : List ℕ) → NoDot ext → strrchr (base ++ (b'.' ∷ ext)) b'.' ≡ some (b'.' ∷ ext)
unfolding strrchr
strrchr-append [] ext h = rw (strrchr-none ext h)
strrchr-append (x ∷ base) ext h = rw (strrchr-append base ext h)

-- The known extensions and their types, as a table.
abbrev pub Table : Type 0
Table = List (List ℕ × List ℕ)

abbrev pub text_image_audio : Table
text_image_audio =
    (codes ".html", codes "text/html; charset=utf-8")
    ∷ (codes ".htm", codes "text/html; charset=utf-8")
    ∷ (codes ".jpg", codes "image/jpeg")
    ∷ (codes ".jpeg", codes "image/jpeg")
    ∷ (codes ".gif", codes "image/gif")
    ∷ (codes ".png", codes "image/png")
    ∷ (codes ".css", codes "text/css")
    ∷ (codes ".au", codes "audio/basic")
    ∷ (codes ".wav", codes "audio/wav")
    ∷ []

abbrev pub video_and_others : Table
video_and_others =
    (codes ".avi", codes "video/x-msvideo")
    ∷ (codes ".mov", codes "video/quicktime")
    ∷ (codes ".qt", codes "video/quicktime")
    ∷ (codes ".mpeg", codes "video/mpeg")
    ∷ (codes ".mpe", codes "video/mpeg")
    ∷ (codes ".vrml", codes "model/vrml")
    ∷ (codes ".wrl", codes "model/vrml")
    ∷ (codes ".midi", codes "audio/midi")
    ∷ (codes ".mid", codes "audio/midi")
    ∷ (codes ".mp3", codes "audio/mpeg")
    ∷ (codes ".ogg", codes "application/ogg")
    ∷ (codes ".pac", codes "application/x-ns-proxy-autoconfig")
    ∷ []

-- The type of the first row with the extension, or else `other`.
abbrev pub find_type : List ℕ → Table → List ℕ → List ℕ
find_type dot [] other = other
find_type dot ((ext, type) ∷ rows) other = if str_eq dot ext then type else find_type dot rows other

media_type-eq : (dot : List ℕ) → media_type dot ≡ find_type dot video_and_others text_plain
unfolding media_type
media_type-eq dot = ground arith

extension_type-eq :
    (dot : List ℕ) → extension_type dot ≡ find_type dot text_image_audio (media_type dot)
unfolding extension_type
extension_type-eq dot = ground arith

find_type-append :
    (dot : List ℕ) (rows more : Table) (other : List ℕ)
    → find_type dot rows (find_type dot more other) ≡ find_type dot (rows ++ more) other
find_type-append dot [] more other = refl
find_type-append dot ((ext, type) ∷ rows) more other =
    ap (λ t. if str_eq dot ext then type else t) (find_type-append dot rows more other)

-- A name with no dot is plain text.
get_mime_type-NoDot : (name : List ℕ) → NoDot name → get_mime_type name ≡ text_plain
unfolding get_mime_type
get_mime_type-NoDot name h = rw (strrchr-none name h, get_mime_type)

-- A name with a dot has the type that the table gives for what stands from its last dot on,
-- whatever stands before, and is plain text if the table has no such row.
pub get_mime_type_lem :
    (base ext : List ℕ)
    → NoDot ext
    → get_mime_type (base ++ (b'.' ∷ ext))
      ≡ find_type (b'.' ∷ ext) (text_image_audio ++ video_and_others) text_plain
unfolding get_mime_type
get_mime_type_lem base ext h =
    rw (strrchr-append base ext h, get_mime_type)
      (extension_type-eq (b'.' ∷ ext)
        ∙ ap (find_type (b'.' ∷ ext) text_image_audio) (media_type-eq (b'.' ∷ ext))
        ∙ find_type-append (b'.' ∷ ext) text_image_audio video_and_others text_plain)
