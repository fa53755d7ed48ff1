-- ===== src/UpperServer.antt =====
-- linux-network/mutl-process.c and, of linux-UDPandThreadPool, localService.c and UdpService.c: servers
-- that answer in capitals, with no table of clients.
pub mod Replies
mod Tests
use linux_c_study.Prelude.{
  ℕ, min, ◌⊎◌, inl, inr, Bool, true, false, Option, none, some, List, [], ◌∷◌, map, ℕ_discrete,
  ◌==◌, if◌then◌else◌, take, drop,
}
use mathlib.Core.Logic.{ite}
use linux_c_study.Kernel.{SysRet, failed, value, Turn, fault, give, Answer, error, got}
use linux_c_study.Prelude.Int.{ℤ, negsuc}
use linux_c_study.SelectServer.{toupper}

-- A call of write or sendto: with bytes, or with a size of -1, which a failed read has left.
pub data Sent : Type 0 where
  bytes : List ℕ → Sent
  minus_one : Sent

-- What read(fd, buf, sizeof(buf)) answers, with a buf of 1024 bytes, and what it leaves.
abbrev pub read_turn : List ℕ → Turn → Answer × List ℕ
read_turn pending (fault e) = (error e, pending)
read_turn pending (give k) = (got (take (min k 1024) pending), drop (min k 1024) pending)

-- The loop that puts buf in capitals and the write behind it, for what the read has answered.
abbrev pub reply : Answer → Sent
reply (got bs) = bytes (map toupper bs)
reply (error e) = minus_one

abbrev pub after {ℓ} : {A : Type ℓ} → A → Option (List A) → Option (List A)
after a none = none
after a (some as') = some (a ∷ as')

-- mutl-process.c, the loop of a child: what it writes up to the end of the stream. `none`: it still
-- reads when the turns are used up.
unfoldable pub child : List ℕ → List Turn → Option (List Sent)
child pending [] = none
child pending (turn ∷ turns) = elim ((read_turn pending turn).0) [
  | got [] ↦ some []
  | got (b ∷ bs) ↦ after (reply (got (b ∷ bs))) (child ((read_turn pending turn).1) turns)
  | error e ↦ after (reply (error e)) (child ((read_turn pending turn).1) turns)
]

-- localService.c, its loop: only a failed read ends it.
unfoldable pub local_service : List ℕ → List Turn → Option (List Sent)
local_service pending [] = none
local_service pending (turn ∷ turns) = elim ((read_turn pending turn).0) [
  | got bs ↦ after (reply (got bs)) (local_service ((read_turn pending turn).1) turns)
  | error e ↦ some []
]

-- localService.c before its loop: the answers of unlink, bind, listen and accept; that of socket is
-- not looked at.
unfoldable pub local_setup : SysRet → SysRet → SysRet → SysRet → ℤ ⊎ ℕ
local_setup (failed e) bound listening accepted = inl (negsuc 0)
local_setup (value u) (failed e) listening accepted = inl (negsuc 0)
local_setup (value u) (value b) (failed e) accepted = inl (negsuc 0)
local_setup (value u) (value b) (value l) (failed e) = inl (negsuc 0)
local_setup (value u) (value b) (value l) (value afd) = if afd == 0 then inl (negsuc 0) else inr afd

-- UdpService.c, its loop: who sent each datagram, and what recvfrom answered; the calls of sendto.
unfoldable pub udp_service : List (ℕ × Answer) → List (ℕ × Sent)
udp_service [] = []
udp_service ((client, got []) ∷ received) = udp_service received
udp_service ((client, got (b ∷ bs)) ∷ received) =
    (client, reply (got (b ∷ bs))) ∷ udp_service received
udp_service ((client, error e) ∷ received) = (client, reply (error e)) ∷ udp_service received

-- mutl-process.c, the parent: its open descriptors, and the descriptors of the children it has made,
-- the last first. It waits for none of them.
pub record Parent : Type 0 where
  pub opened : ℕ → Bool
  pub children : List ℕ

abbrev pub put : (ℕ → Bool) → ℕ → Bool → ℕ → Bool
put f i a j = ite (ℕ_discrete i j) a (f j)

-- The answers of socket and bind; that of listen is not looked at.
unfoldable pub parent_setup : SysRet → SysRet → ℤ ⊎ Parent
parent_setup (failed e) bound = inl (negsuc 0)
parent_setup (value ftd) (failed e) = inl (negsuc 0)
parent_setup (value ftd) (value b) =
    inr (record { opened = put (λ fd. false) ftd true; children = [] })

-- A round of the loop: the answers of accept and of fork.
unfoldable pub parent_round : SysRet → SysRet → Parent → ℤ ⊎ Parent
parent_round (failed e) forked p = inl (negsuc 0)
parent_round (value afd) (failed e) p = inl (negsuc 0)
parent_round (value afd) (value pid) p =
    inr (record { opened = put (put p.opened afd true) afd false; children = afd ∷ p.children })

unfoldable pub parent_rounds : List (SysRet × SysRet) → Parent → ℤ ⊎ Parent
parent_rounds [] p = inr p
parent_rounds ((accepted, forked) ∷ rounds) p = elim (parent_round accepted forked p) [
  | inl r ↦ inl r
  | inr p' ↦ parent_rounds rounds p'
]
