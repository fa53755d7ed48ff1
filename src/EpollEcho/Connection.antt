-- ===== src/EpollEcho/Connection.antt =====
-- A client of the four echo servers, with the documented behaviour of epoll(7): a level-triggered
-- descriptor is reported while there is something to read, an edge-triggered one once after each
-- arrival.
pub mod Level
pub mod Edge
use linux_c_study.Prelude.{
  ℕ, zero, suc, ◌+◌, ◌≡◌, Bool, true, false, not, ◌||◌, none, some, List, [], ◌∷◌, ◌++◌, arith,
  take, drop,
}
use linux_c_study.Kernel.{Answer, error, got, eagain}
use linux_c_study.EpollEcho.{level, edge, Server, read_once, put}

-- All that the client has sent and all that the server has read of it; what lies between; the client
-- has closed; something has come since the last report; how often something has come.
pub record Connection : Type 0 where
  pub server : Server
  pub sent : List ℕ
  pub taken : List ℕ
  pub pending : List ℕ
  pub shut : Bool
  pub news : Bool
  pub arrivals : ℕ

abbrev pub is_empty : List ℕ → Bool
is_empty [] = true
is_empty (b ∷ bs) = false

-- epoll_wait reports the descriptor fd.
unfoldable pub reported : ℕ → Connection → Bool
reported fd c = elim (c.server.watched fd) [
  | none ↦ false
  | some level ↦ not (is_empty c.pending) || c.shut
  | some edge ↦ c.news
]

-- What read(fd, buf, size) answers on a descriptor that does not block.
abbrev pub answer : ℕ → Bool → List ℕ → Answer
answer size true [] = got []
answer size false [] = error eagain
answer size shut (b ∷ bs) = got (take size (b ∷ bs))

-- What its next `n` calls answer.
unfoldable pub answers : ℕ → Bool → ℕ → List ℕ → List Answer
answers size shut zero bs = []
answers size shut (suc n) bs = answer size shut bs ∷ answers size shut n (drop size bs)

-- The client sends something, or closes.
abbrev pub arrive : List ℕ → Connection → Connection
arrive bs c = record c {
  sent = c.sent ++ bs;
  pending = c.pending ++ bs;
  news = true;
  arrivals = c.arrivals + 1;
}

abbrev pub hang_up : Connection → Connection
hang_up c = record c { shut = true; news = true; arrivals = c.arrivals + 1 }

-- The descriptor is reported, and the server has read once and is then in the state s.
abbrev pub served : ℕ → Server → Connection → Connection
served size s c = record c {
  server = s;
  taken = c.taken ++ take size c.pending;
  pending = drop size c.pending;
  news = false;
}

-- A step of the client, or of a server that reads once, with its buffer of `size` bytes.
pub data Step (size fd : ℕ) (c : Connection) : Connection → Type 0 where
  arrives : (b : ℕ) (bs : List ℕ) → c.shut ≡ false → Step size fd c (arrive (b ∷ bs) c)
  hangs_up : c.shut ≡ false → Step size fd c (hang_up c)
  serves :
      (s : Server)
      → reported fd c ≡ true
      → read_once size fd (answers size c.shut 1 c.pending) c.server ≡ some s
      → Step size fd c (served size s c)

pub data Reach (size fd : ℕ) (c : Connection) : Connection → Type 0 where
  here : Reach size fd c c
  next : {d e : Connection} → Reach size fd c d → Step size fd d e → Reach size fd c e

-- A client that has just been accepted, and watched.
abbrev pub fresh : Server → Connection
fresh s = record {
  server = s;
  sent = [];
  taken = [];
  pending = [];
  shut = false;
  news = false;
  arrivals = 0;
}

pub put-same : {A : Type 0} (f : ℕ → A) (i : ℕ) (a : A) → put f i a i ≡ a
put-same f i a = ground arith
