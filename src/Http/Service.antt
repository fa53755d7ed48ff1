-- ===== src/Http/Service.antt =====
-- httpService/http_service.c: http_service with send_file and getDirstr, one request served.
pub mod Sent
pub mod Named
pub mod Laws
mod Tests
use linux_c_study.Prelude.{
  ℕ, zero, suc, ◌+◌, Option, none, some, List, [], ◌∷◌, ◌++◌, if◌then◌else◌, length,
}
use linux_c_study.Kernel.{World}
use linux_c_study.Prelude.Int.{pos, is_positive}
use linux_c_study.Prelude.Bytes.{codes}
use linux_c_study.Wrap.{Reader, Line}
use linux_c_study.Wrap.Buffer.{unread}
use linux_c_study.Http.Mime.{get_mime_type}
use linux_c_study.Http.Header.{int_of, send_header}
use linux_c_study.Http.Reader.{read_line}
use linux_c_study.Http.Request.{scan_request, requested_path}

-- The calls that change something outside the process, in their order: write(fd, …) with the bytes that
-- it is given, close(fd), epoll_ctl(epfd, EPOLL_CTL_DEL, fd, …). The code looks at the result of no
-- write; on a descriptor that does not block, a write may take a part of its bytes, or none.
pub data Action : Type 0 where
  send : ℕ → List ℕ → Action
  shut : ℕ → Action
  epoll_del : ℕ → Action

-- stat: S_ISREG with st_size, S_ISDIR, or another kind of file.
pub data FileStat : Type 0 where
  regular : ℕ → FileStat
  directory : FileStat
  special : FileStat

-- DT_REG, DT_DIR, or another type.
pub data EntryType : Type 0 where
  dt_reg dt_dir dt_other : EntryType

pub record Entry : Type 0 where
  pub d_name : List ℕ
  pub d_type : EntryType

-- The file system: stat(2); open(2) with the bytes of each read(2) of 1024 up to the first that
-- returns none; scandir(3) in the order of alphasort.
pub record Files : Type 0 where
  pub stat : List ℕ → Option FileStat
  pub reads : List ℕ → Option (List (List ℕ))
  pub scandir : List ℕ → Option (List Entry)

pub send_all : ℕ → List (List ℕ) → List Action
send_all fd [] = []
send_all fd (buf ∷ bufs) = send fd buf ∷ send_all fd bufs

-- A file that cannot be opened sends nothing.
pub send_file : Files → ℕ → List ℕ → List Action
send_file fs fd name = elim (fs.reads name) [ none ↦ [] | some bufs ↦ send_all fd bufs ]

-- What sprintf prints for one entry; `buf` stays empty for the other types.
pub list_item : Entry → List ℕ
list_item e = elim (e.d_type) [
  | dt_reg ↦ codes "<li><a href=" ++ (e.d_name ++ (codes ">" ++ (e.d_name ++ codes "</a></li>")))
  | dt_dir ↦ codes "<li><a href=" ++ (e.d_name ++ (codes "/>" ++ (e.d_name ++ codes "</a></li>")))
  | dt_other ↦ []
]

-- The loop `while(n--)` goes through the entries from the last to the first.
pub list_items : List Entry → List ℕ
list_items [] = []
list_items (e ∷ es) = list_items es ++ list_item e

-- getDirstr: what it calls, and what it leaves in `buffer`. The buffer has 2048 bytes, and strcat
-- does not look at its size.
pub get_dirstr : Files → ℕ → List ℕ → List Action × List ℕ
get_dirstr fs fd name = elim (fs.scandir name) [
  | none ↦ (shut fd ∷ epoll_del fd ∷ [], [])
  | some es ↦ ([], list_items es)
]

pub send_dir : Files → ℕ → List ℕ → List Action
send_dir fs fd path =
    let (calls, buffer) = get_dirstr fs fd path in
    send fd (send_header (codes "200") (codes "OK") (get_mime_type (codes ".html")) (pos 0))
    ∷ (send_file fs fd (codes "http/dir_header.html")
        ++ (calls ++ (send fd buffer ∷ send_file fs fd (codes "http/dir_tail.html"))))

-- The answer to a request for `path`.
pub respond : Files → ℕ → List ℕ → List Action
respond fs fd path = elim (fs.stat path) [
  | none ↦
      send fd
        (send_header (codes "404") (codes "NOT FOUND") (get_mime_type (codes ".html")) (pos 0))
      ∷ send_file fs fd (codes "error.html")
  | some (regular size) ↦
      send fd (send_header (codes "200") (codes "OK") (get_mime_type path) (int_of size))
      ∷ send_file fs fd path
  | some directory ↦ send_dir fs fd path
  | some special ↦ []
]

-- while((readres=readLine(…))>0); each round that goes on uses up a byte, so that one round more
-- than there are bytes to come is fuel enough (Laws).
pub drain : ℕ → Reader → World → Option (Reader × World)
drain zero r w = none
drain (suc fuel) r w = elim (read_line 1024 r w) [
  | none ↦ none
  | some l ↦
      let more = drain fuel l.reader l.world in
      if is_positive l.result then more else some (l.reader, l.world)
]

-- The request in the first line `l`, once the rest of it is drained.
pub serve_line : Files → ℕ → Line → Option (List Action × Reader × World)
serve_line fs fd l = elim (drain (length (unread l.reader l.world) + 1) l.reader l.world) [
  | none ↦ none
  | some (r, w) ↦ some (respond fs fd (requested_path (scan_request l.stored)), r, w)
]

-- http_service on the descriptor `fd` of its client; `none`: a read has not returned.
pub http_service : Files → ℕ → Reader → World → Option (List Action × Reader × World)
http_service fs fd r w = elim (read_line 1024 r w) [
  | none ↦ none
  | some l ↦
      if is_positive l.result
      then serve_line fs fd l
      else some (shut fd ∷ epoll_del fd ∷ [], l.reader, l.world)
]
