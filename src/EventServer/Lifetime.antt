-- ===== src/EventServer/Lifetime.antt =====
-- No slot is ever given back: what that means for the clients that the server takes in its life.
use linux_c_study.Prelude.{
  ℕ, zero, suc, ◌+◌, ◌≤◌, ◌<◌, ◌≡◌, refl, ◌∙◌, ◌⊎◌, inl, inr, true, false, not, Option, none, some,
  List, [], ◌∷◌, arith, ℕ_discrete, Option-cases, length,
}
use linux_c_study.Kernel.{SysRet, failed, value, Answer, error, got}
use linux_c_study.Prelude.Int.{ℤ}
use linux_c_study.Search.{first_from-First}
use linux_c_study.EventServer.{
  size, Client, Action, wrote, closed, added, deleted, Server, put, init_cli, get_cli,
  get_cli_by_fd, del_event, readcb, take_client, conncb, Call, connection, readable, callback,
  dispatch, setup,
}

-- The clients that the event loop was given.
unfoldable pub count_added : List Action → ℕ
count_added [] = 0
count_added (wrote fd bs ∷ log) = count_added log
count_added (closed fd ∷ log) = count_added log
count_added (added ev fd ∷ log) = suc (count_added log)
count_added (deleted ev ∷ log) = count_added log

-- As many slots as clients were taken are in use, the first ones.
pub record Filled (s : Server) : Type 0 where
  pub room : count_added s.log ≤ size
  pub used : (i : ℕ) → i < count_added s.log → (s.client i).flag ≡ true
  pub free : (i : ℕ) → count_added s.log ≤ i → i < size → (s.client i).flag ≡ false

count_added-del_event :
    (cs : ℕ → Client) (o : Option ℕ) (log : List Action)
    → count_added (del_event cs o log) ≡ count_added log
unfolding count_added del_event
count_added-del_event cs none log = refl
count_added-del_event cs (some zero) log = refl
count_added-del_event cs (some (suc i)) log = refl

same-Filled :
    {s : Server} (log : List Action)
    → count_added log ≡ count_added s.log
    → Filled s
    → Filled (record s { log = log })
same-Filled {s} log e f = record {
  room = omega (arith, e, f.room);
  used = λ i h. f.used i (omega (arith, e));
  free = λ i a b. f.free i (omega (arith, e)) b;
}

readcb-Filled : (fd : ℕ) (a : Answer) (s : Server) → Filled s → Filled (readcb fd a s)
unfolding readcb count_added
readcb-Filled fd (got (b ∷ bs)) s f = same-Filled {s = s} _ refl f
readcb-Filled fd (got []) s f =
    same-Filled {s = s} _ (count_added-del_event s.client (get_cli_by_fd s.client size fd) s.log) f
readcb-Filled fd (error e) s f =
    same-Filled {s = s} _ (count_added-del_event s.client (get_cli_by_fd s.client size fd) s.log) f

-- The slot that a new client gets is the next one.
get_cli-next :
    (s : Server) {i : ℕ}
    → Filled s
    → get_cli s.client size ≡ some i
    → (i ≡ count_added s.log) × (i < size)
unfolding get_cli
get_cli-next s {i} f e =
    let first = first_from-First (λ k. not (s.client k).flag) size 0 {j = i} e in
    let off : (s.client i).flag ≡ false = ground (arith, first.passes) in
    let below : i < size = omega (arith, first.below) in
    (ground (arith, first.before (count_added s.log), f.used i, f.free (count_added s.log)), below)

take_client-Filled :
    (i : ℕ) (accepted : SysRet) (ev : ℕ) (add : SysRet) (s : Server)
    → i ≡ count_added s.log
    → i < size
    → Filled s
    → Filled (take_client i accepted ev add s)
unfolding take_client count_added
take_client-Filled i (failed e) ev add s same below f = f
take_client-Filled i (value cfd) ev (failed e) s same below f = f
take_client-Filled i (value cfd) ev (value r) s same below f = record {
  room = omega (arith, same);
  used = λ k h. ground (arith, f.used k);
  free = λ k a b. ground (arith, f.free k);
}

conncb-Filled :
    (accepted : SysRet) (ev : ℕ) (add : SysRet) (s : Server)
    → Filled s
    → Filled (conncb accepted ev add s)
unfolding conncb
conncb-Filled accepted ev add s f = elim (Option-cases (get_cli s.client size)) [
  | inl full ↦ rw (full, conncb) f
  | inr (i, free) ↦
      let (same, below) = get_cli-next s {i = i} f free in
      rw (free, conncb) (take_client-Filled i accepted ev add s same below f)
]

dispatch-Filled : (cs : List Call) (s : Server) → Filled s → Filled (dispatch cs s)
unfolding dispatch callback
dispatch-Filled [] s f = f
dispatch-Filled (connection accepted ev add ∷ cs) s f =
    dispatch-Filled cs (conncb accepted ev add s) (conncb-Filled accepted ev add s f)
dispatch-Filled (readable fd a ∷ cs) s f =
    dispatch-Filled cs (readcb fd a s) (readcb-Filled fd a s f)

init_cli-other : (cs : ℕ → Client) (length i k : ℕ) → k < i → init_cli cs length i k ≡ cs k
unfolding init_cli
init_cli-other cs zero i k h = refl
init_cli-other cs (suc length) i k h =
    init_cli-other (put cs i (record (cs i) { flag = false })) length (i + 1) k (omega arith)
    ∙ ground arith

init_cli-off :
    (cs : ℕ → Client) (length i k : ℕ)
    → i ≤ k
    → k < i + length
    → (init_cli cs length i k).flag ≡ false
unfolding init_cli
init_cli-off cs zero i k a b = absurd (omega arith)
init_cli-off cs (suc length) i k a b = elim (ℕ_discrete i k) [
  | yes e ↦
      let cs' = put cs i (record (cs i) { flag = false }) in
      rw (init_cli-other cs' length (i + 1) k (omega arith)) (ground (arith, e))
  | no ne ↦
      init_cli-off (put cs i (record (cs i) { flag = false })) length (i + 1) k (omega arith)
        (omega arith)
]

-- What is claimed of the result of main's set-up: nothing if it has failed.
abbrev Ready : ℤ ⊎ Server → Type 0
Ready (inl code) = Unit
Ready (inr s) = Filled s

setup-Ready :
    (cs : ℕ → Client) (opt bound listening add : SysRet) → Ready (setup cs opt bound listening add)
unfolding setup count_added
setup-Ready cs (failed e) bound listening add = tt
setup-Ready cs (value o) (failed e) listening add = tt
setup-Ready cs (value o) (value b) (failed e) add = tt
setup-Ready cs (value o) (value b) (value l) (failed e) = tt
setup-Ready cs (value o) (value b) (value l) (value a) = record {
  room = omega arith;
  used = λ i h. absurd (omega arith);
  free = λ i a b. init_cli-off cs size 0 i (omega arith) b;
}

setup-Filled :
    (cs : ℕ → Client) (opt bound listening add : SysRet) {s : Server}
    → setup cs opt bound listening add ≡ inr s
    → Filled s
setup-Filled cs opt bound listening add e = rw e at (setup-Ready cs opt bound listening add)

take_client-grows :
    (i : ℕ) (accepted : SysRet) (ev : ℕ) (add : SysRet) (s : Server)
    → count_added s.log ≤ count_added (take_client i accepted ev add s).log
unfolding take_client count_added
take_client-grows i (failed e) ev add s = omega arith
take_client-grows i (value cfd) ev (failed e) s = omega arith
take_client-grows i (value cfd) ev (value r) s = omega arith

readcb-keeps :
    (fd : ℕ) (a : Answer) (s : Server) → count_added (readcb fd a s).log ≡ count_added s.log
unfolding readcb count_added
readcb-keeps fd (got (b ∷ bs)) s = refl
readcb-keeps fd (got []) s = count_added-del_event s.client (get_cli_by_fd s.client size fd) s.log
readcb-keeps fd (error e) s = count_added-del_event s.client (get_cli_by_fd s.client size fd) s.log

conncb-grows :
    (accepted : SysRet) (ev : ℕ) (add : SysRet) (s : Server)
    → count_added s.log ≤ count_added (conncb accepted ev add s).log
unfolding conncb
conncb-grows accepted ev add s = elim (Option-cases (get_cli s.client size)) [
  | inl full ↦ rw (full, conncb) (omega arith)
  | inr (i, free) ↦ rw (free, conncb) (take_client-grows i accepted ev add s)
]

dispatch-grows : (cs : List Call) (s : Server) → count_added s.log ≤ count_added (dispatch cs s).log
unfolding dispatch callback
dispatch-grows [] s = omega arith
dispatch-grows (connection accepted ev add ∷ cs) s =
    omega (arith, conncb-grows accepted ev add s, dispatch-grows cs (conncb accepted ev add s))
dispatch-grows (readable fd a ∷ cs) s =
    omega (arith, readcb-keeps fd a s, dispatch-grows cs (readcb fd a s))

-- When the set-up of main has gone through, the server takes at most twenty clients in its whole
-- life, whatever connections come and whichever clients leave.
pub dispatch-count_added :
    (cs : ℕ → Client) (opt bound listening add : SysRet) {s : Server} (calls : List Call)
    → setup cs opt bound listening add ≡ inr s
    → count_added (dispatch calls s).log ≤ size
dispatch-count_added cs opt bound listening add {s} calls e =
    (dispatch-Filled calls s (setup-Filled cs opt bound listening add {s = s} e)).room

-- When twenty slots have been filled, one after the other, a new connection changes nothing any
-- more, not even when all the clients have left: accept is not called, and the connection waits.
pub conncb-full :
    (s : Server) (calls : List Call) (accepted : SysRet) (ev : ℕ) (add : SysRet)
    → Filled s
    → count_added s.log ≡ size
    → conncb accepted ev add (dispatch calls s) ≡ dispatch calls s
unfolding conncb
conncb-full s calls accepted ev add f full =
    let d = dispatch-Filled calls s f in
    elim (Option-cases (get_cli (dispatch calls s).client size)) [
      | inl e ↦ rw (e, conncb) refl
      | inr (i, free) ↦
          let (same, below) = get_cli-next (dispatch calls s) {i = i} d free in
          absurd (omega (arith, same, below, dispatch-grows calls s, full))
    ]
