-- ===== src/PollServer.antt =====
-- linux-network/poll.c: the server over poll, its array of pollfd and its loop.
pub mod Cover
pub mod Replies
mod Tests
use linux_c_study.Prelude.{
  ℕ, zero, suc, ◌+◌, ◌-◌, ◌⊎◌, inl, inr, Bool, true, false, Option, none, some, List, [], ◌∷◌,
  ℕ_discrete, ltb, ◌==◌, if◌then◌else◌,
}
use mathlib.Core.Logic.{ite}
use linux_c_study.Kernel.{SysRet, failed, value, Answer, error, got}
use linux_c_study.Prelude.Int.{ℤ, negsuc}
use linux_c_study.Search.{first_from}

-- sizeof(client)/sizeof(struct pollfd)
abbrev pub size : ℕ
size = 1024

-- The calls that a peer can see. `bad_write` is write(fd, buf, -1), with a size beyond memory.
pub data Action : Type 0 where
  wrote : ℕ → List ℕ → Action
  bad_write : ℕ → Action
  closed : ℕ → Action

-- The array, with `none` for a descriptor of -1 and for what lies beyond its 1024 entries, where the
-- loop reads when maxftd is 1024 or more; `ftd` and `maxftd`; and the calls made, the last
-- one first. The events are POLLIN in every entry that is used.
pub record Server : Type 0 where
  pub ftd : ℕ
  pub client : ℕ → Option ℕ
  pub maxftd : ℕ
  pub log : List Action

abbrev pub put : (ℕ → Option ℕ) → ℕ → Option ℕ → ℕ → Option ℕ
put f i a j = ite (ℕ_discrete i j) a (f j)

-- client[i].fd == -1
pub is_free : Option ℕ → Bool
is_free none = true
is_free (some fd) = false

unfoldable pub get_free : (ℕ → Option ℕ) → ℕ → Option ℕ
get_free client n = first_from (λ i. is_free (client i)) n 0

-- main up to its loop: the answers are those of socket, bind and listen.
pub setup : SysRet → SysRet → SysRet → ℤ ⊎ Server
setup (failed e) bound listening = inl (negsuc 0)
setup (value ftd) (failed e) listening = inl (negsuc 0)
setup (value ftd) (value b) (failed e) = inl (negsuc 0)
setup (value ftd) (value b) (value l) =
    inr (record { ftd = ftd; client = put (λ i. none) 0 (some ftd); maxftd = ftd; log = [] })

-- What accept returns goes to the entry `index`, an error too.
pub accept_client : ℕ → SysRet → Server → Server
accept_client index (failed e) s = record s { client = put s.client index none }
accept_client index (value cfd) s = record s {
  client = put s.client index (some cfd);
  maxftd = if ltb s.maxftd cfd then cfd else s.maxftd;
}

-- A client in entry i that is ready, with descriptor fd.
pub serve : ℕ → ℕ → Answer → Server → Server
serve i fd (got []) s = record s { client = put s.client i none; log = closed fd ∷ s.log }
serve i fd (got (b ∷ bs)) s = record s { log = wrote fd (b ∷ bs) ∷ s.log }
serve i fd (error e) s = record s { log = bad_write fd ∷ s.log }

-- One round of the loop over the clients, and whether it served one.
pub visit : (ℕ → Bool) → (ℕ → Answer) → ℕ → Server → Bool × Server
visit ready answers i s = elim (s.client i) [
  | none ↦ (false, s)
  | some fd ↦ if ready i then (true, serve i fd (answers i) s) else (false, s)
]

-- The loop over `n` entries from i on; `ready` is whether revents is POLLIN. The loop of the code may go
-- on beyond the 1024 entries of the array and read what lies there; here there are entries without end.
pub scan : ℕ → (ℕ → Bool) → (ℕ → Answer) → ℕ → ℕ → Server → Server
scan zero ready answers i left s = s
scan (suc n) ready answers i left s =
    let (served, s') = visit ready answers i s in
    let quiet = scan n ready answers (i + 1) left s' in
    let more = scan n ready answers (i + 1) (left - 1) s' in
    if served then (if left == 1 then s' else more) else quiet

-- What follows poll, when it returns `left`. `none`: the array is full, and client[-1] is written.
pub round : (ℕ → Bool) → (ℕ → Answer) → SysRet → ℕ → Server → Option Server
round ready answers accepted left s =
    let connected : Option Server = elim (get_free s.client size) [
      | none ↦ none
      | some index ↦
          let s1 = accept_client index accepted s in
          some (if left == 1 then s1 else scan s1.maxftd ready answers 1 (left - 1) s1)
    ] in
    if ready 0 then connected else some (scan s.maxftd ready answers 1 left s)
