-- ===== src/Http/Service/Tests.antt =====
-- http_service on a small file system.
use linux_c_study.Prelude.{
  ℕ, zero, suc, ◌≡◌, refl, none, some, List, [], ◌∷◌, ◌++◌, ◌==◌, if◌then◌else◌, length, replicate,
}
use linux_c_study.Kernel.{World, Turn, give, fault, eagain}
use linux_c_study.Prelude.Bytes.{codes, All}
use linux_c_study.Prelude.Int.{pos, negsuc}
use linux_c_study.Wrap.{Reader}
use linux_c_study.Http.Mime.{get_mime_type}
use linux_c_study.Http.Header.{int_of, send_header}
use linux_c_study.Http.Reader.{read_line}
use linux_c_study.Http.Service.{
  send, shut, epoll_del, regular, directory, dt_reg, dt_dir, Entry, Files, send_file, respond,
  http_service, list_items, list_item,
}
use linux_c_study.Http.Service.Laws.{http_service_closes}
use linux_c_study.Http.Service.Sent.{
  sent, contents, Printed, respond_regular, respond_missing, respond_unlisted,
}
use linux_c_study.Wrap.{my_read, after_read, refilled, next_char, read}
use linux_c_study.Http.Reader.{char_read, read_line_loop, read_line_round}

abbrev entries : ℕ → List Entry
entries n = replicate n (record { d_name = codes "a"; d_type = dt_reg })

-- One page of two reads and one folder of 94 files; a second folder cannot be listed.
abbrev files : Files
files = record {
  stat = λ p.
      if length p == 5 then some (regular 5) else if length p == 3 then some directory else none;
  reads =
      λ p. if length p == 5 then some (codes "he" ∷ codes "llo" ∷ []) else some (codes "?" ∷ []);
  scandir = λ p. if length p == 3 then some (entries 94) else none;
}

abbrev unlisted : Files
unlisted = record files { scandir = λ p. none }

abbrev no_reader : Reader
no_reader = record { read_buf = []; read_ptr = 0; read_cnt = 0 }

abbrev page_request : World
page_request = record { pending = codes "GET /p.css X\r\n\r\n"; turns = replicate 18 (give 100) }

abbrev html : List ℕ
html = get_mime_type (codes ".html")

listing :
    list_items (
      record { d_name = codes "a"; d_type = dt_dir }
      ∷ record { d_name = codes "b"; d_type = dt_reg }
      ∷ [])
    ≡ codes "<li><a href=b>b</a></li><li><a href=a/>a</a></li>"
unfolding list_items list_item
listing = refl

respond_regular_example :
    sent (respond files 7 (codes "p.css"))
    ≡ send_header (codes "200") (codes "OK") (get_mime_type (codes "p.css")) (int_of 5)
      ++ contents (codes "he" ∷ codes "llo" ∷ [])
respond_regular_example =
    respond_regular files 7 (codes "p.css") {size = 5} {bufs = codes "he" ∷ codes "llo" ∷ []} refl
      refl

respond_missing_example :
    sent (respond files 7 (codes "nothing"))
    ≡ send_header (codes "404") (codes "NOT FOUND") html (pos 0) ++ contents (codes "?" ∷ [])
respond_missing_example =
    respond_missing files 7 (codes "nothing") {bufs = codes "?" ∷ []} refl refl

respond_unlisted_example :
    respond unlisted 7 (codes "dir")
    ≡ send 7 (send_header (codes "200") (codes "OK") html (pos 0))
      ∷ (send_file unlisted 7 (codes "http/dir_header.html")
          ++ (shut 7 ∷ epoll_del 7 ∷ send 7 [] ∷ send_file unlisted 7 (codes "http/dir_tail.html")))
respond_unlisted_example = respond_unlisted unlisted 7 (codes "dir") refl refl

printed : (n : ℕ) → All Printed (entries n)
printed zero = tt
printed (suc n) = ((λ e. cc), printed n)

-- No directory can be listed.
abbrev page_only : Files
page_only = record files { scandir = λ p. none }

-- The request comes in pieces; then nothing more is there, and the peer is still connected.
abbrev would_block : List Turn
would_block = replicate 18 (give 1) ++ replicate 20 (fault eagain)

abbrev hung_up : World
hung_up = record { pending = []; turns = give 1 ∷ [] }

http_service_closes_example :
    http_service files 7 no_reader hung_up
    ≡ some (shut 7 ∷ epoll_del 7 ∷ [], no_reader, record { pending = []; turns = [] })
unfolding read_line read_line_loop read_line_round char_read my_read after_read refilled next_char
    read
http_service_closes_example =
    http_service_closes files 7 no_reader hung_up
      {l = record {
        result = negsuc 0;
        stored = [];
        reader = no_reader;
        world = record { pending = []; turns = [] };
      }}
      refl refl
