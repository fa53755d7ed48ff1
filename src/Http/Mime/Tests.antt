-- ===== src/Http/Mime/Tests.antt =====
-- Content types of concrete names.
use linux_c_study.Prelude.{◌≡◌, refl}
use linux_c_study.Http.Mime.{get_mime_type, strrchr, extension_type, media_type}
use linux_c_study.Prelude.Bytes.{codes, str_eq}

two_dots : get_mime_type (codes "a.gif.html") ≡ codes "text/html; charset=utf-8"
unfolding get_mime_type strrchr extension_type str_eq
two_dots = refl

song : get_mime_type (codes "kugua.mp3") ≡ codes "audio/mpeg"
unfolding get_mime_type strrchr extension_type media_type str_eq
song = refl
