-- ===== src/LocalClient.antt =====
-- linux-UDPandThreadPool/localClient.c, and its conversation with localService.c over a local socket.
pub mod Conversation
mod Tests
use linux_c_study.Prelude.{ℕ, ◌≤◌, ◌≡◌, ◌≢◌, ◌⊎◌, inl, inr, Bool, true, false, List, [], ◌∷◌, ◌++◌}
use linux_c_study.Kernel.{Errno, SysRet, failed, value, Turn, give, Answer, error, got}
use linux_c_study.Prelude.Int.{ℤ, negsuc}
use linux_c_study.UpperServer.{Sent, bytes, minus_one, read_turn, reply}

-- Before the loop: whether access finds client.sock, and the answers of unlink, bind and connect; that
-- of socket is not looked at. The result is -1, or what connect returns, which is afd.
unfoldable pub setup : Bool → SysRet → SysRet → SysRet → ℤ ⊎ ℕ
setup true (failed e) bound connected = inl (negsuc 0)
setup true (value u) (failed e) connected = inl (negsuc 0)
setup true (value u) (value b) (failed e) = inl (negsuc 0)
setup true (value u) (value b) (value afd) = inr afd
setup false unlinked (failed e) connected = inl (negsuc 0)
setup false unlinked (value b) (failed e) = inl (negsuc 0)
setup false unlinked (value b) (value afd) = inr afd

-- Where the client is in its loop: at read of its terminal, at read of the socket, or behind the loop.
pub data Phase : Type 0 where
  asks waits ended : Phase

-- The two programs, what is under way between them, the calls of write of the client, the first one
-- in front, and what each of its reads of the socket has given it.
pub record Pair : Type 0 where
  pub phase : Phase
  pub to_service : List ℕ
  pub to_client : List ℕ
  pub written : List Sent
  pub answers : List (List ℕ)

-- read(STDIN_FILENO,...) and write(cfd,buf,readres): readres is -1 when the read has failed, and then
-- nothing is written.
unfoldable pub ask : Answer → Pair → Pair
ask (got bs) s = record s {
  phase = waits;
  to_service = s.to_service ++ bs;
  written = s.written ++ bytes bs ∷ [];
}
ask (error e) s = record s { phase = waits; written = s.written ++ minus_one ∷ [] }

-- read(cfd,buf,sizeof(buf)) and the test behind it, for what the read leaves in the socket. The printf
-- of buf, as far as its first zero, is left out.
unfoldable pub read_answer : Answer → List ℕ → Pair → Pair
read_answer (got bs) rest s = record s {
  phase = asks;
  to_client = rest;
  answers = s.answers ++ bs ∷ [];
}
read_answer (error e) rest s = record s { phase = ended; to_client = rest }

-- The bytes that a call of write passes on.
abbrev pub passed : Sent → List ℕ
passed (bytes bs) = bs
passed minus_one = []

-- A round of the loop of localService.c: what its read gives, and its write.
abbrev pub serve : Turn → Pair → Pair
serve turn s = record s {
  to_service = (read_turn s.to_service turn).1;
  to_client = s.to_client ++ passed (reply (read_turn s.to_service turn).0);
}

-- The two programs take turns in any way. A read of the socket waits until there is something in it,
-- and then gives at least a byte.
pub data Step (s : Pair) : Pair → Type 0 where
  typed : (a : Answer) → s.phase ≡ asks → Step s (ask a s)
  served : (k : ℕ) → 1 ≤ k → s.to_service ≢ [] → Step s (serve (give k) s)
  answered :
      (k : ℕ)
      → 1 ≤ k
      → s.phase ≡ waits
      → s.to_client ≢ []
      → Step s (read_answer (read_turn s.to_client (give k)).0 (read_turn s.to_client (give k)).1 s)
  interrupted : (e : Errno) → s.phase ≡ waits → Step s (read_answer (error e) s.to_client s)

pub data Reach (s : Pair) : Pair → Type 0 where
  here : Reach s s
  next : {t u : Pair} → Reach s t → Step t u → Reach s u

abbrev pub connected : Pair
connected = record { phase = asks; to_service = []; to_client = []; written = []; answers = [] }
