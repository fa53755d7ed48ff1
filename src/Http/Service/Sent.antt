-- ===== src/Http/Service/Sent.antt =====
-- httpService/http_service.c: what respond sends of files, of the error page and of directories.
use linux_c_study.Prelude.{
  ℕ, ◌*◌, ◌≤◌, ◌≡◌, refl, ap, ◌≢◌, none, some, List, [], ◌∷◌, ◌++◌, arith, length, length-append,
}
use linux_c_study.Prelude.Int.{pos}
use linux_c_study.Prelude.Bytes.{codes, All}
use linux_c_study.Http.Mime.{get_mime_type}
use linux_c_study.Http.Header.{int_of, send_header}
use linux_c_study.Http.Service.{
  Action, send, shut, epoll_del, regular, directory, EntryType, dt_reg, dt_dir, dt_other, Entry,
  Files, send_all, send_file, list_item, list_items, get_dirstr, send_dir, respond,
}

-- The bytes that the calls of write are given, in their order.
pub sent : List Action → List ℕ
sent [] = []
sent (send fd bs ∷ acts) = bs ++ sent acts
sent (shut fd ∷ acts) = sent acts
sent (epoll_del fd ∷ acts) = sent acts

-- The bytes of a file, from its reads.
pub contents : List (List ℕ) → List ℕ
contents [] = []
contents (buf ∷ bufs) = buf ++ contents bufs

sent-send_all : (fd : ℕ) (bufs : List (List ℕ)) → sent (send_all fd bufs) ≡ contents bufs
unfolding sent send_all contents
sent-send_all fd [] = refl
sent-send_all fd (buf ∷ bufs) = ap (λ r. buf ++ r) (sent-send_all fd bufs)

sent-send_file :
    (fs : Files) (fd : ℕ) (name : List ℕ) {bufs : List (List ℕ)}
    → fs.reads name ≡ some bufs
    → sent (send_file fs fd name) ≡ contents bufs
unfolding send_file
sent-send_file fs fd name {bufs} e = rw (e, send_file) (sent-send_all fd bufs)

-- For a file that is there and that can be read, the calls of write are given a head with its type and
-- size, and behind it the whole file.
pub respond_regular :
    (fs : Files) (fd : ℕ) (path : List ℕ) {size : ℕ} {bufs : List (List ℕ)}
    → fs.stat path ≡ some (regular size)
    → fs.reads path ≡ some bufs
    → sent (respond fs fd path)
      ≡ send_header (codes "200") (codes "OK") (get_mime_type path) (int_of size) ++ contents bufs
unfolding respond sent
respond_regular fs fd path {size} s e =
    rw (s, respond)
      (ap (λ r. send_header (codes "200") (codes "OK") (get_mime_type path) (int_of size) ++ r)
        (sent-send_file fs fd path e))

-- For a path that stat does not find, the calls of write are given a head with the status 404, and
-- behind it the error page, if it can be read.
pub respond_missing :
    (fs : Files) (fd : ℕ) (path : List ℕ) {bufs : List (List ℕ)}
    → fs.stat path ≡ none
    → fs.reads (codes "error.html") ≡ some bufs
    → sent (respond fs fd path)
      ≡ send_header (codes "404") (codes "NOT FOUND") (get_mime_type (codes ".html")) (pos 0)
        ++ contents bufs
unfolding respond sent
respond_missing fs fd path s e =
    rw (s, respond)
      (ap
        (λ r.
          send_header (codes "404") (codes "NOT FOUND") (get_mime_type (codes ".html")) (pos 0)
          ++ r)
        (sent-send_file fs fd (codes "error.html") e))

-- When the directory cannot be listed, its descriptor is closed and taken off the tree, and then the
-- buffer and the end of the page are written to the descriptor all the same.
pub respond_unlisted :
    (fs : Files) (fd : ℕ) (path : List ℕ)
    → fs.stat path ≡ some directory
    → fs.scandir path ≡ none
    → respond fs fd path
      ≡ send fd (send_header (codes "200") (codes "OK") (get_mime_type (codes ".html")) (pos 0))
        ∷ (send_file fs fd (codes "http/dir_header.html")
            ++ (shut fd ∷ epoll_del fd ∷ send fd [] ∷ send_file fs fd (codes "http/dir_tail.html")))
unfolding respond send_dir get_dirstr
respond_unlisted fs fd path s e = rw (s, respond, e, get_dirstr)

-- An entry that getDirstr prints.
abbrev pub Printed : Entry → Type 0
Printed e = e.d_type ≢ dt_other

length-list_item_of :
    (name : List ℕ) (t : EntryType)
    → t ≢ dt_other
    → 22 ≤ length (list_item (record { d_name = name; d_type = t }))
unfolding list_item
length-list_item_of name dt_reg p = simp length-append (omega arith)
length-list_item_of name dt_dir p = simp length-append (omega arith)
length-list_item_of name dt_other p = absurd (p refl)

length-list_items : (es : List Entry) → All Printed es → 22 * length es ≤ length (list_items es)
unfolding list_items
length-list_items [] p = omega arith
length-list_items (e ∷ es) p = omega (
  arith,
  length-append (list_items es) (list_item e),
  length-list_items es p.1,
  length-list_item_of e.d_name e.d_type p.0,
)

-- For a directory of 94 files and folders or more, getDirstr appends at least 2048 bytes to the
-- buffer of 2048, however short the names are: the closing zero lies outside.
pub list_items_overflow :
    (fs : Files) (fd : ℕ) (path : List ℕ) (es : List Entry)
    → fs.scandir path ≡ some es
    → All Printed es
    → 94 ≤ length es
    → 2048 ≤ length (get_dirstr fs fd path).1
unfolding get_dirstr
list_items_overflow fs fd path es e p h = rw (e, get_dirstr) (omega (arith, length-list_items es p))
