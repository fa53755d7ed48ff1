-- ===== src/ThreadServer.antt =====
-- linux-network/mutl-thread.c: the server with a thread for each connection, and the table that main
-- and the threads share with no lock.
pub mod Leak
pub mod Owners
mod Tests
use linux_c_study.Prelude.{
  ℕ, zero, suc, ◌+◌, ◌≡◌, ◌⊎◌, inl, inr, Bool, true, false, not, Option, none, some, List, [], ◌∷◌,
  ℕ_discrete, ◌==◌, length,
}
use mathlib.Core.Logic.{ite}
use linux_c_study.Kernel.{SysRet, failed, value, Answer, error, got}
use linux_c_study.Prelude.Int.{ℤ, negsuc}
use linux_c_study.Search.{first_from}
use linux_c_study.SelectServer.{reply}

-- The length of `ifno`.
abbrev pub size : ℕ
size = 100

-- struct IFNO, less the thread's id and the client's address, which is only printed; `flag` is true
-- for 1 and false for -1.
pub record Ifno : Type 0 where
  pub cfd : ℕ
  pub flag : Bool

-- `none`: the loop ends with no entry found, and `res` is not initialised.
pub get_free_ifno : (ℕ → Ifno) → ℕ → Option ℕ
get_free_ifno t length = first_from (λ i. not (t i).flag) length 0

-- The flag is not looked at.
pub get_ifno_by_cfd : (ℕ → Ifno) → ℕ → ℕ → Option ℕ
get_ifno_by_cfd t length cfd = first_from (λ i. (t i).cfd == cfd) length 0

-- The loop of sockHander over what its reads answer: what it writes up to the end of the stream, and
-- `none` if that has not come. A failed read does not end it.
pub converse : List Answer → Option (List (List ℕ))
converse [] = none
converse (got [] ∷ answers) = some []
converse (got (b ∷ bs) ∷ answers) = elim (converse answers) [
  | none ↦ none
  | some ws ↦ some (reply (got (b ∷ bs)) ∷ ws)
]
converse (error e ∷ answers) = elim (converse answers) [
  | none ↦ none
  | some ws ↦ some (reply (error e) ∷ ws)
]

-- Where a thread of sockHander is: not created; it has been given an entry of the table; it has copied
-- it and talks to its client; it has looked up its entry; it has closed its descriptor; it has
-- returned.
pub data Thread : Type 0 where
  unborn : Thread
  created : ℕ → Thread
  talking : ℕ → Thread
  found : ℕ → ℕ → Thread
  hung_up : ℕ → Thread
  ended : Thread

abbrev pub is_created : Thread → Bool
is_created (created i) = true
is_created _ = false

-- The table, the descriptors that are open, and the threads.
pub record Server : Type 0 where
  pub ifno : ℕ → Ifno
  pub opened : ℕ → Bool
  pub threads : ℕ → Thread

abbrev pub put {ℓ} : {A : Type ℓ} → (ℕ → A) → ℕ → A → ℕ → A
put f i a j = ite (ℕ_discrete i j) a (f j)

-- The loop of main over the first `n` entries from i on.
pub init : (ℕ → Ifno) → ℕ → ℕ → ℕ → Ifno
init t zero i = t
init t (suc n) i = init (put t i (record (t i) { flag = false })) n (i + 1)

-- main up to its loop: the answers are those of socket, bind and listen; `t` is what the table
-- holds before.
pub setup : (ℕ → Ifno) → SysRet → SysRet → SysRet → ℤ ⊎ Server
setup t (failed e) bound listening = inl (negsuc 0)
setup t (value ftd) (failed e) listening = inl (negsuc 0)
setup t (value ftd) (value b) (failed e) = inl (negsuc 0)
setup t (value ftd) (value b) (value l) =
    inr
      (record { ifno = init t size 0; opened = put (λ fd. false) ftd true; threads = λ n. unborn })

-- A round of main's loop, for a connection with the descriptor cfd, in entry i and thread n, which gets
-- the address of the entry.
pub accept_client : ℕ → ℕ → ℕ → Server → Server
accept_client n cfd i s = record {
  ifno = put s.ifno i (record { cfd = cfd; flag = true });
  opened = put s.opened cfd true;
  threads = put s.threads n (created i);
}

-- struct IFNO ifns = *(struct IFNO*)arg
pub copy : ℕ → ℕ → Server → Server
copy n i s = record s { threads = put s.threads n (talking ((s.ifno i).cfd)) }

-- resInfo = getIfnoByCfd(ifno,100,ifns.cfd)
pub look_up : ℕ → ℕ → ℕ → Server → Server
look_up n cfd i s = record s { threads = put s.threads n (found cfd i) }

-- close(ifns.cfd)
pub hang_up : ℕ → ℕ → ℕ → Server → Server
hang_up n cfd i s = record s {
  opened = put s.opened cfd false;
  threads = put s.threads n (hung_up i);
}

-- ifno[resInfo].flag = -1
pub give_back : ℕ → ℕ → Server → Server
give_back n i s = record s {
  ifno = put s.ifno i (record (s.ifno i) { flag = false });
  threads = put s.threads n ended;
}

-- A step of main or of a thread. A descriptor that accept returns was not open. With `prompt`, main does
-- not come back to the table before the thread that it has created has copied its entry; pthread_create
-- does not see to that. A failed accept, and a full table, have no step here.
pub data Step (prompt : Bool) (s : Server) : Server → Type 0 where
  accepts :
      (n cfd i : ℕ)
      → s.threads n ≡ unborn
      → s.opened cfd ≡ false
      → get_free_ifno s.ifno size ≡ some i
      → (prompt ≡ true → (m : ℕ) → is_created (s.threads m) ≡ false)
      → Step prompt s (accept_client n cfd i s)
  copies : (n i : ℕ) → s.threads n ≡ created i → Step prompt s (copy n i s)
  looks_up :
      (n cfd i : ℕ)
      → s.threads n ≡ talking cfd
      → get_ifno_by_cfd s.ifno size cfd ≡ some i
      → Step prompt s (look_up n cfd i s)
  hangs_up : (n cfd i : ℕ) → s.threads n ≡ found cfd i → Step prompt s (hang_up n cfd i s)
  gives_back : (n i : ℕ) → s.threads n ≡ hung_up i → Step prompt s (give_back n i s)

pub data Reach (prompt : Bool) (s : Server) : Server → Type 0 where
  here : Reach prompt s s
  next : {t u : Server} → Reach prompt s t → Step prompt t u → Reach prompt s u
