-- ===== src/SelectServer.antt =====
-- linux-network/select.c: the server over select, its table of a hundred clients and its loop.
pub mod Table
pub mod Rounds
pub mod Scan
pub mod Replies
mod Tests
use linux_c_study.Prelude.{
  ℕ, zero, suc, ◌+◌, ◌-◌, ◌⊎◌, inl, inr, Bool, true, false, not, ◌&&◌, Option, none, some, List, [],
  ◌∷◌, ◌++◌, map, ℕ_discrete, ltb, leb, ◌==◌, if◌then◌else◌, take, replicate,
}
use mathlib.Core.Logic.{ite}
use linux_c_study.Kernel.{SysRet, failed, value, Answer, error, got}
use linux_c_study.Prelude.Int.{ℤ, negsuc}
use linux_c_study.Search.{first_from, last_from}

-- sizeof(ifno)/sizeof(struct IFNO)
abbrev pub size : ℕ
size = 100

-- struct IFNO, less the client's address, which is only printed; `flag` is true for 1 and false
-- for -1.
pub record Ifno : Type 0 where
  pub fd : ℕ
  pub flag : Bool

-- The calls that a peer can see.
pub data Action : Type 0 where
  wrote : ℕ → List ℕ → Action
  closed : ℕ → Action

-- The global table and main's variables, and the calls made, the last one first.
pub record Server : Type 0 where
  pub ftd : ℕ
  pub ifno : ℕ → Ifno
  pub set : ℕ → Bool
  pub maxftd : ℕ
  pub log : List Action

abbrev pub put {ℓ} : {A : Type ℓ} → (ℕ → A) → ℕ → A → ℕ → A
put f i a j = ite (ℕ_discrete i j) a (f j)

-- The loop of ifnoInit over `n` entries from i on.
pub ifno_init : (ℕ → Ifno) → ℕ → ℕ → ℕ → Ifno
ifno_init t zero i = t
ifno_init t (suc n) i = ifno_init (put t i (record (t i) { flag = false })) n (i + 1)

pub getifno : (ℕ → Ifno) → ℕ → Option ℕ
getifno t n = first_from (λ i. not (t i).flag) n 0

-- The loop has no break, and does not look at the flag.
pub get_ifnoby_fd : (ℕ → Ifno) → ℕ → ℕ → Option ℕ
get_ifnoby_fd t n fd = last_from (λ i. (t i).fd == fd) n 0

-- main up to its loop: the answers are those of socket, bind and listen; `t` is what the table
-- holds before.
pub setup : (ℕ → Ifno) → SysRet → SysRet → SysRet → ℤ ⊎ Server
setup t (failed e) bound listening = inl (negsuc 0)
setup t (value ftd) (failed e) listening = inl (negsuc 0)
setup t (value ftd) (value b) (failed e) = inl (negsuc 0)
setup t (value ftd) (value b) (value l) = inr (record {
  ftd = ftd;
  ifno = ifno_init t size 0;
  set = put (λ fd. false) ftd true;
  maxftd = ftd;
  log = [];
})

-- A new connection in the entry `index`. What accept returns is not tested: here it is a
-- descriptor.
pub accept_client : ℕ → ℕ → Server → Server
accept_client index cfd s = record s {
  ifno = put s.ifno index (record { fd = cfd; flag = true });
  set = put s.set cfd true;
  maxftd = if ltb s.maxftd cfd then cfd else s.maxftd;
}

-- toupper in the C locale.
unfoldable pub toupper : ℕ → ℕ
toupper c = if leb b'a' c && leb c b'z' then c - 32 else c

-- write(i,buf,sizeof(buf)): the bytes read, in capitals, and zeros up to 1024; zeros alone when the
-- read has failed.
pub reply : Answer → List ℕ
reply (got bs) = take 1024 (map toupper bs ++ replicate 1024 0)
reply (error e) = take 1024 (replicate 1024 0)

-- One ready client, when `index` is what getIfnobyFd finds: its stream has ended, or it is answered.
pub answer_client : ℕ → ℕ → Answer → Server → Server
answer_client index i (got []) s = record s {
  set = put s.set i false;
  ifno = put s.ifno index (record (s.ifno index) { flag = false });
  log = closed i ∷ s.log;
}
answer_client index i (got (b ∷ bs)) s = record s { log = wrote i (reply (got (b ∷ bs))) ∷ s.log }
answer_client index i (error e) s = record s { log = wrote i (reply (error e)) ∷ s.log }

-- `none`: the index is -1, and ifno[index] lies outside the table.
pub serve : ℕ → Answer → Server → Option Server
serve i a s = elim (get_ifnoby_fd s.ifno size i) [
  | none ↦ none
  | some index ↦ some (answer_client index i a s)
]

-- The loop over the descriptors, `n` of them from i on; `ready` is tmpfds, and `changeftd` counts
-- the ready ones that are left.
pub scan : ℕ → (ℕ → Bool) → (ℕ → Answer) → ℕ → ℕ → Server → Option Server
scan zero ready answers i changeftd s = some s
scan (suc n) ready answers i changeftd s =
    let skipped = scan n ready answers (i + 1) changeftd s in
    let served : Option Server = elim (serve i (answers i) s) [
      | none ↦ none
      | some s' ↦
          let more = scan n ready answers (i + 1) (changeftd - 1) s' in
          if changeftd == 1 then some s' else more
    ] in
    if ready i then served else skipped

pub scan_clients : (ℕ → Bool) → (ℕ → Answer) → ℕ → Server → Option Server
scan_clients ready answers changeftd s =
    scan (s.maxftd - s.ftd) ready answers (s.ftd + 1) changeftd s

-- What follows select, when it returns `changeftd`: a new connection, for which accept returns
-- `cfd`, and then the clients.
pub round : (ℕ → Bool) → (ℕ → Answer) → ℕ → ℕ → Server → Option Server
round ready answers cfd changeftd s =
    let connected : Option Server = elim (getifno s.ifno size) [
      | none ↦ scan_clients ready answers changeftd s
      | some index ↦
          let s1 = accept_client index cfd s in
          if changeftd == 1 then some s1 else scan_clients ready answers (changeftd - 1) s1
    ] in
    if ready s.ftd then connected else scan_clients ready answers changeftd s
