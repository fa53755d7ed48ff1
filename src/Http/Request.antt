-- ===== src/Http/Request.antt =====
-- httpService/http_service.c: the request line, as http_service takes it apart.
pub mod Laws
mod Tests
use linux_c_study.Prelude.{
  ℕ, Bool, not, ◌&&◌, ◌||◌, List, [], ◌∷◌, leb, ◌==◌, if◌then◌else◌, length, drop,
}
use linux_c_study.Prelude.Bytes.{codes}
use linux_c_study.Http.Codec.Decode.{decode}

-- The longest beginning whose bytes pass the test, and the rest.
unfoldable pub span : (ℕ → Bool) → List ℕ → List ℕ × List ℕ
span p [] = ([], [])
span p (c ∷ s) = let (a, r) = span p s in if p c then (c ∷ a, r) else ([], c ∷ s)

-- The bytes before the first zero.
unfoldable pub c_string : List ℕ → List ℕ
c_string [] = []
c_string (c ∷ s) = let rest = c_string s in if c == 0 then [] else c ∷ rest

-- isspace
abbrev pub is_space : ℕ → Bool
is_space c = c == 32 || (leb 9 c && leb c 13)

-- A space in the format: skips white space, possibly none.
unfoldable pub skip_space : List ℕ → List ℕ
unfolding span
skip_space s = (span is_space s).1

-- The arrays reqType[16], fileName[255] and protocal[16], zero where nothing was converted.
pub record Request : Type 0 where
  pub req_type : List ℕ
  pub file_name : List ℕ
  pub protocal : List ℕ

-- `%[^ ]`: at least one byte that is no space.
abbrev pub not_blank : ℕ → Bool
not_blank c = not (c == 32)

-- `%[^ \r\n]`
abbrev pub not_blank_or_eol : ℕ → Bool
not_blank_or_eol c = not (c == 32 || (c == 13 || c == 10))

-- What follows the first two conversions.
unfoldable pub scan_protocal : List ℕ → List ℕ → List ℕ → Request
scan_protocal m f s = record {
  req_type = m;
  file_name = f;
  protocal = (span not_blank_or_eol (skip_space s)).0;
}

unfoldable pub scan_file : List ℕ → List ℕ × List ℕ → Request
scan_file m ([], s) = record { req_type = m; file_name = []; protocal = [] }
scan_file m (c ∷ f, s) = scan_protocal m (c ∷ f) s

unfoldable pub scan_type : List ℕ × List ℕ → Request
scan_type ([], s) = record { req_type = []; file_name = []; protocal = [] }
scan_type (c ∷ m, s) = scan_file (c ∷ m) (span not_blank (skip_space s))

-- sscanf(buf, "%[^ ] %[^ ] %[^ \r\n]", reqType, fileName, protocal). The conversions have no width:
-- a word longer than its array is written past it (`overflows`).
unfoldable pub scan_request : List ℕ → Request
scan_request buf = scan_type (span not_blank (c_string buf))

-- Some word, with its closing zero, does not fit its array.
unfoldable pub overflows : Request → Bool
overflows q =
    leb 16 (length q.req_type) || (leb 255 (length q.file_name) || leb 16 (length q.protocal))

-- pFile: the file name without its first byte, or "./" for a name of at most one byte; decoded in
-- place, as far as the first zero of the result.
pub requested_path : Request → List ℕ
requested_path q =
    if leb (length q.file_name) 1
    then c_string (decode (codes "./"))
    else c_string (decode (drop 1 q.file_name))
