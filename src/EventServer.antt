-- ===== src/EventServer.antt =====
-- libevent/serverEvent.c: the echo server over libevent, its table of twenty clients and its two
-- callbacks. What event_new and event_add return are arguments.
pub mod Lifetime
pub mod Replies
mod Tests
use linux_c_study.Prelude.{
  ℕ, zero, suc, ◌+◌, ◌⊎◌, inl, inr, Bool, true, false, not, Option, none, some, List, [], ◌∷◌, ◌++◌,
  ℕ_discrete, ◌==◌, length, take, replicate,
}
use mathlib.Core.Logic.{ite}
use linux_c_study.Kernel.{SysRet, failed, value, Answer, error, got}
use linux_c_study.Prelude.Int.{ℤ, negsuc}
use linux_c_study.Search.{first_from}

-- sizeof(client)/sizeof(Client)
abbrev pub size : ℕ
size = 20

-- Client; `flag` is true for 1 and false for -1, and `ev` is the event that event_new returned.
pub record Client : Type 0 where
  pub flag : Bool
  pub ftd : ℕ
  pub ev : ℕ

-- The calls that the kernel and the event loop see.
pub data Action : Type 0 where
  wrote : ℕ → List ℕ → Action
  closed : ℕ → Action
  added : ℕ → ℕ → Action
  deleted : ℕ → Action

-- The table, and the calls made, the last one first.
pub record Server : Type 0 where
  pub client : ℕ → Client
  pub log : List Action

abbrev pub put : (ℕ → Client) → ℕ → Client → ℕ → Client
put cs i c j = ite (ℕ_discrete i j) c (cs j)

-- The loop of initCli over `length` clients from i on.
pub init_cli : (ℕ → Client) → ℕ → ℕ → ℕ → Client
init_cli cs zero i = cs
init_cli cs (suc length) i = init_cli (put cs i (record (cs i) { flag = false })) length (i + 1)

pub get_cli : (ℕ → Client) → ℕ → Option ℕ
get_cli cs length = first_from (λ i. not (cs i).flag) length 0

-- The flag is not looked at.
pub get_cli_by_fd : (ℕ → Client) → ℕ → ℕ → Option ℕ
get_cli_by_fd cs length fd = first_from (λ i. (cs i).ftd == fd) length 0

-- write(fd,buf,sizeof(buf)): the bytes read and zeros up to 1024.
pub whole_buf : List ℕ → List ℕ
whole_buf bs = take 1024 (bs ++ replicate 1024 0)

-- `if(evid > 0) event_del(client[evid].ev)`: the client in slot 0 is left out.
pub del_event : (ℕ → Client) → Option ℕ → List Action → List Action
del_event cs none log = log
del_event cs (some zero) log = log
del_event cs (some (suc i)) log = deleted (cs (suc i)).ev ∷ log

pub readcb : ℕ → Answer → Server → Server
readcb fd (got (b ∷ bs)) s = record s { log = wrote fd (whole_buf (b ∷ bs)) ∷ s.log }
readcb fd (got []) s = record s {
  log = closed fd ∷ del_event s.client (get_cli_by_fd s.client size fd) s.log;
}
readcb fd (error e) s = record s {
  log = closed fd ∷ del_event s.client (get_cli_by_fd s.client size fd) s.log;
}

-- conncb when slot i is free: what accept and event_add return. With no event the descriptor stays
-- open.
pub take_client : ℕ → SysRet → ℕ → SysRet → Server → Server
take_client i (failed e) ev add s = s
take_client i (value cfd) ev (failed e) s = s
take_client i (value cfd) ev (value r) s = record {
  client = put s.client i (record { flag = true; ftd = cfd; ev = ev });
  log = added ev cfd ∷ s.log;
}

pub conncb : SysRet → ℕ → SysRet → Server → Server
conncb accepted ev add s = elim (get_cli s.client size) [
  | none ↦ s
  | some i ↦ take_client i accepted ev add s
]

-- What the event loop calls: conncb for the listening socket, readcb for a client.
pub data Call : Type 0 where
  connection : SysRet → ℕ → SysRet → Call
  readable : ℕ → Answer → Call

pub callback : Call → Server → Server
callback (connection accepted ev add) s = conncb accepted ev add s
callback (readable fd a) s = readcb fd a s

-- event_base_dispatch, for the events that come.
pub dispatch : List Call → Server → Server
dispatch [] s = s
dispatch (c ∷ cs) s = dispatch cs (callback c s)

-- main, up to event_base_dispatch: the answers are those of setsockopt, bind, listen and
-- event_add, and `cs` is what the array holds before.
pub setup : (ℕ → Client) → SysRet → SysRet → SysRet → SysRet → ℤ ⊎ Server
setup cs (failed e) bound listening add = inl (negsuc 0)
setup cs (value o) (failed e) listening add = inl (negsuc 0)
setup cs (value o) (value b) (failed e) add = inl (negsuc 0)
setup cs (value o) (value b) (value l) (failed e) = inl (negsuc 0)
setup cs (value o) (value b) (value l) (value a) =
    inr (record { client = init_cli cs size 0; log = [] })
