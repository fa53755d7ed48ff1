-- ===== src/SocketPair.antt =====
-- linux-network/socketCon.c and socketService.c: a client that sends one request, and a server that
-- answers each of its reads with the same text.
pub mod Greeting
mod Tests
use linux_c_study.Prelude.{
  ℕ, zero, suc, ◌⊎◌, inl, inr, Option, none, some, List, [], ◌∷◌, ◌++◌, take, replicate,
}
use linux_c_study.Prelude.Bytes.{codes}
use linux_c_study.Kernel.{SysRet, failed, value, Turn, Answer, error, got}
use linux_c_study.Prelude.Int.{ℤ, pos, negsuc}
use linux_c_study.UpperServer.{read_turn, after}

-- An array of `size` bytes of zeros, after strcpy of a shorter text.
abbrev pub buf_with : ℕ → List ℕ → List ℕ
buf_with size text = take size (text ++ replicate size 0)

-- socketService.c up to its loop: the answers of socket, bind, listen and accept. A failure of accept
-- does not end the program: acpfd is -1 then.
unfoldable pub service_setup : SysRet → SysRet → SysRet → SysRet → ℤ ⊎ ℤ
service_setup (failed e) bound listening accepted = inl (negsuc 0)
service_setup (value s) (failed e) listening accepted = inl (negsuc 0)
service_setup (value s) (value b) (failed e) accepted = inl (negsuc 0)
service_setup (value s) (value b) (value l) (failed e) = inr (negsuc 0)
service_setup (value s) (value b) (value l) (value acpfd) = inr (pos acpfd)

-- buf2
abbrev pub answer : List ℕ
answer = buf_with 1204 (codes "connect is ok")

-- The loop: what it sends up to the end of the stream; a failed read is answered too. `none`: it still
-- reads when the turns are used up.
unfoldable pub service : List ℕ → List Turn → Option (List (List ℕ))
service pending [] = none
service pending (turn ∷ turns) = elim ((read_turn pending turn).0) [
  | got [] ↦ some []
  | got (b ∷ bs) ↦ after answer (service ((read_turn pending turn).1) turns)
  | error e ↦ after answer (service ((read_turn pending turn).1) turns)
]

-- socketCon.c: the answers of socket and connect.
unfoldable pub con_setup : SysRet → SysRet → ℤ ⊎ ℕ
con_setup (failed e) connected = inl (negsuc 0)
con_setup (value fd) (failed e) = inl (negsuc 0)
con_setup (value fd) (value c) = inr fd

-- send(socketfd,buf,sizeof(buf),0)
abbrev pub request : List ℕ
request = buf_with 1024 (codes "sgyt 1024")

-- recv(socketfd,buf2,sizeof(buf2),0): what is in buf2 afterwards, for what the call answers.
unfoldable pub received : Answer → List ℕ
received (got bs) = buf_with 1024 bs
received (error e) = buf_with 1024 []

-- What printf makes of a buffer.
abbrev pub text : List ℕ → List ℕ
text [] = []
text (zero ∷ bs) = []
text (suc c ∷ bs) = suc c ∷ text bs
