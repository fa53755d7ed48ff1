-- ===== src/Http/Main/Shared.antt =====
-- One client object for all connections: whose request is read.
use linux_c_study.Prelude.{ℕ, ◌≡◌, ◌∙◌, ◌≢◌, false, some, List, [], ◌∷◌, arith, ◌==◌, ==_refl}
use linux_c_study.Kernel.{SysRet, value, World}
use linux_c_study.Http.Service.{Files}
use linux_c_study.Http.Main.{
  Ptr, soc, cli_con, Server, running, data_ptr, ftd, accept_client, serve, main_event,
}

-- The server after it has accepted a connection.
abbrev pub accepted : Server → ℕ → Server
accepted s cfd = record s { cli_ftd = cfd; tree = (cfd, cli_con) ∷ s.tree }

main_event-accept :
    (fs : Files) (worlds : ℕ → World) (s : Server) (cfd : ℕ)
    → data_ptr s.tree s.sfd ≡ some soc
    → main_event fs worlds s s.sfd (value cfd) ≡ running (accepted s cfd) []
unfolding main_event ftd accept_client
main_event-accept fs worlds s cfd e = rw (e, main_event) (rw (==_refl s.sfd))

data_ptr-cons_ne :
    (tree : List (ℕ × Ptr)) (f : ℕ) (p : Ptr) (fd : ℕ)
    → (f == fd) ≡ false
    → data_ptr ((f, p) ∷ tree) fd ≡ data_ptr tree fd
unfolding data_ptr
data_ptr-cons_ne tree f p fd e = rw e

data_ptr-cons_self : (tree : List (ℕ × Ptr)) (f : ℕ) (p : Ptr) → data_ptr ((f, p) ∷ tree) f ≡ some p
unfolding data_ptr
data_ptr-cons_self tree f p = rw (==_refl f)

main_event-client :
    (fs : Files) (worlds : ℕ → World) (s : Server) (fd : ℕ) (any : SysRet)
    → data_ptr s.tree fd ≡ some cli_con
    → s.cli_ftd ≢ s.sfd
    → main_event fs worlds s fd any ≡ serve fs worlds s s.cli_ftd
unfolding main_event ftd
main_event-client fs worlds s fd any e ne =
    let other : (s.cli_ftd == s.sfd) ≡ false = ground (arith, ne) in rw (e, main_event) (rw other)

-- A server whose listening socket is in its tree accepts two connections, a and then b, different
-- from it and from each other. An event of either is then served by reading from b: a request that
-- comes in on a is not read, and its event calls http_service for b.
pub shared_client :
    (fs : Files) (worlds : ℕ → World) (s : Server) (a b : ℕ) (any : SysRet)
    → data_ptr s.tree s.sfd ≡ some soc
    → a ≢ s.sfd
    → b ≢ s.sfd
    → a ≢ b
    → let s' = accepted (accepted s a) b in
      (main_event fs worlds s s.sfd (value a) ≡ running (accepted s a) [])
      × (main_event fs worlds (accepted s a) s.sfd (value b) ≡ running s' [])
      × (main_event fs worlds s' a any ≡ serve fs worlds s' b)
      × (main_event fs worlds s' b any ≡ serve fs worlds s' b)
shared_client fs worlds s a b any root na nb ab = (
  main_event-accept fs worlds s a root,
  main_event-accept fs worlds (accepted s a) b
      (data_ptr-cons_ne s.tree a cli_con s.sfd (ground (arith, na)) ∙ root),
  main_event-client fs worlds (accepted (accepted s a) b) a any
      (data_ptr-cons_ne ((a, cli_con) ∷ s.tree) b cli_con a (ground (arith, ab))
        ∙ data_ptr-cons_self s.tree a cli_con)
      nb,
  main_event-client fs worlds (accepted (accepted s a) b) b any
      (data_ptr-cons_self ((a, cli_con) ∷ s.tree) b cli_con) nb,
)
