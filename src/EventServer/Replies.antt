-- ===== src/EventServer/Replies.antt =====
-- What each client of serverEvent.c is sent.
use linux_c_study.Prelude.{
  ℕ, zero, suc, ◌≡◌, refl, sym, ap, ◌∙◌, inl, inr, Option, none, some, List, [], ◌∷◌, ◌++◌,
  append_assoc, append-nil, ℕ_discrete, Option-cases,
}
use mathlib.Core.Logic.{ite}
use linux_c_study.Kernel.{SysRet, failed, value, Answer, error, got}
use linux_c_study.EventServer.{
  size, Client, Action, wrote, closed, added, deleted, Server, get_cli, get_cli_by_fd, whole_buf,
  del_event, readcb, take_client, conncb, Call, connection, readable, callback, dispatch,
}

-- The writes to a descriptor and its closes, the first one in front.
unfoldable pub calls_on : ℕ → List Action → List Action
calls_on c [] = []
calls_on c (wrote fd bs ∷ log) = calls_on c log ++ ite (ℕ_discrete fd c) (wrote fd bs ∷ []) []
calls_on c (closed fd ∷ log) = calls_on c log ++ ite (ℕ_discrete fd c) (closed fd ∷ []) []
calls_on c (added ev fd ∷ log) = calls_on c log
calls_on c (deleted ev ∷ log) = calls_on c log

-- What a read calls for.
abbrev pub due : ℕ → Answer → List Action
due fd (got (b ∷ bs)) = wrote fd (whole_buf (b ∷ bs)) ∷ []
due fd (got []) = closed fd ∷ []
due fd (error e) = closed fd ∷ []

-- What the reads of the descriptor c call for.
abbrev pub due_all : ℕ → List Call → List Action
due_all c [] = []
due_all c (connection accepted ev add ∷ calls) = due_all c calls
due_all c (readable fd a ∷ calls) = ite (ℕ_discrete fd c) (due fd a) [] ++ due_all c calls

calls_on-del_event :
    (c : ℕ) (cs : ℕ → Client) (o : Option ℕ) (log : List Action)
    → calls_on c (del_event cs o log) ≡ calls_on c log
unfolding calls_on del_event
calls_on-del_event c cs none log = refl
calls_on-del_event c cs (some zero) log = refl
calls_on-del_event c cs (some (suc i)) log = refl

calls_on-readcb :
    (c fd : ℕ) (a : Answer) (s : Server)
    → calls_on c (readcb fd a s).log ≡ calls_on c s.log ++ ite (ℕ_discrete fd c) (due fd a) []
unfolding calls_on readcb
calls_on-readcb c fd (got (b ∷ bs)) s = refl
calls_on-readcb c fd (got []) s =
    ap (λ xs. xs ++ ite (ℕ_discrete fd c) (closed fd ∷ []) [])
      (calls_on-del_event c s.client (get_cli_by_fd s.client size fd) s.log)
calls_on-readcb c fd (error e) s =
    ap (λ xs. xs ++ ite (ℕ_discrete fd c) (closed fd ∷ []) [])
      (calls_on-del_event c s.client (get_cli_by_fd s.client size fd) s.log)

calls_on-take_client :
    (c i : ℕ) (accepted : SysRet) (ev : ℕ) (add : SysRet) (s : Server)
    → calls_on c (take_client i accepted ev add s).log ≡ calls_on c s.log
unfolding calls_on take_client
calls_on-take_client c i (failed e) ev add s = refl
calls_on-take_client c i (value cfd) ev (failed e) s = refl
calls_on-take_client c i (value cfd) ev (value r) s = refl

calls_on-conncb :
    (c : ℕ) (accepted : SysRet) (ev : ℕ) (add : SysRet) (s : Server)
    → calls_on c (conncb accepted ev add s).log ≡ calls_on c s.log
unfolding conncb
calls_on-conncb c accepted ev add s = elim (Option-cases (get_cli s.client size)) [
  | inl full ↦ rw (full, conncb) refl
  | inr (i, free) ↦ rw (free, conncb) (calls_on-take_client c i accepted ev add s)
]

-- serverEvent.c, whatever connections come and whichever clients leave: on each descriptor the server
-- makes one call for each of its reads, in their order, and no other: a write of a whole buffer with
-- what was read, or the close at the end of the stream or after an error.
pub calls_on-dispatch :
    (c : ℕ) (calls : List Call) (s : Server)
    → calls_on c (dispatch calls s).log ≡ calls_on c s.log ++ due_all c calls
unfolding dispatch callback
calls_on-dispatch c [] s = sym (append-nil (calls_on c s.log))
calls_on-dispatch c (connection accepted ev add ∷ calls) s =
    calls_on-dispatch c calls (conncb accepted ev add s)
    ∙ ap (λ xs. xs ++ due_all c calls) (calls_on-conncb c accepted ev add s)
calls_on-dispatch c (readable fd a ∷ calls) s =
    calls_on-dispatch c calls (readcb fd a s)
    ∙ ap (λ xs. xs ++ due_all c calls) (calls_on-readcb c fd a s)
    ∙ append_assoc (calls_on c s.log) (ite (ℕ_discrete fd c) (due fd a) []) (due_all c calls)
