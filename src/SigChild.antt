-- ===== src/SigChild.antt =====
-- linux07/sigchild.c and linux07/sigchildReally.c: a parent of three children that reaps them in its
-- handler of SIGCHLD. The kernel's side is in the steps: a signal that is pending already is not
-- queued again, and SIGCHLD is blocked while its handler runs.
pub mod Reaped
mod Tests
use linux_c_study.Prelude.{
  ℕ, zero, suc, ◌+◌, ◌-◌, ◌≤◌, ◌≡◌, Bool, true, false, Option, none, some, List, [], ◌∷◌, ltb,
  if◌then◌else◌,
}
use linux_c_study.Prelude.Int.{ℤ, negsuc}

-- What fork returns: -1; the child's identifier, in the parent; 0, in the child.
pub data Fork : Type 0 where
  error : Fork
  parent : Fork
  child : Fork

-- What a process does after the loop of main: it returns -1, or it goes on with this i.
pub data Branch : Type 0 where
  returns : ℤ → Branch
  goes_on : ℕ → Branch

-- The loop of main in one process, from i on with n values of i to go: what its calls of fork
-- return.
unfoldable pub fork_loop : ℕ → ℕ → List Fork → Option Branch
fork_loop zero i fs = some (goes_on i)
fork_loop (suc n) i [] = none
fork_loop (suc n) i (error ∷ fs) = some (returns (negsuc 0))
fork_loop (suc n) i (parent ∷ fs) = fork_loop n (i + 1) fs
fork_loop (suc n) i (child ∷ fs) = some (goes_on i)

-- What waitpid(-1, NULL, WNOHANG) returns: an identifier, 0 or -1.
pub data Waited : Type 0 where
  reaped : Waited
  living : Waited
  no_child : Waited

-- The parent as the kernel keeps it: children that live, that have ended and that have been reaped;
-- SIGCHLD is pending, blocked by sigprocmask; the handler runs.
pub record Parent : Type 0 where
  pub alive : ℕ
  pub zombies : ℕ
  pub quit : ℕ
  pub pending : Bool
  pub blocked : Bool
  pub handling : Bool

unfoldable pub waitpid : Parent → Waited × Parent
waitpid p =
    if ltb 0 p.zombies
    then (reaped, record p { zombies = p.zombies - 1; quit = p.quit + 1 })
    else (if ltb 0 p.alive then (living, p) else (no_child, p))

-- A call of waitpid in the handler of sigchild.c, which then returns.
unfoldable pub sighandler_once : Parent → Parent
sighandler_once p = record ((waitpid p).1) { handling = false }

-- A round of the loop in the handler of sigchildReally.c.
unfoldable pub sighandler : Parent → Parent
sighandler p = elim ((waitpid p).0) [
  | reaped ↦ (waitpid p).1
  | living ↦ record p { handling = false }
  | no_child ↦ record p { handling = false }
]

-- A run of that handler from its start, in `fuel` rounds at most.
unfoldable pub reap_all : ℕ → Parent → Option Parent
reap_all zero p = none
reap_all (suc fuel) p =
    let rest = reap_all fuel (sighandler p) in
    if (sighandler p).handling then rest else some (sighandler p)

-- A step with that handler: a child ends; the signal is delivered; the handler moves; main unblocks
-- the signal.
pub data Step (handler : Parent → Parent) (p : Parent) : Parent → Type 0 where
  ends :
      1 ≤ p.alive
      → Step handler p (record p { alive = p.alive - 1; zombies = p.zombies + 1; pending = true })
  delivers :
      p.pending ≡ true
      → p.blocked ≡ false
      → p.handling ≡ false
      → Step handler p (record p { pending = false; handling = true })
  handles : p.handling ≡ true → Step handler p (handler p)
  unblocks : Step handler p (record p { blocked = false })

pub data Reach (handler : Parent → Parent) (p : Parent) : Parent → Type 0 where
  here : Reach handler p p
  next : {q r : Parent} → Reach handler p q → Step handler q r → Reach handler p r

-- The parent after its loop of n calls of fork that did not fail. sigchildReally.c has blocked the
-- signal, sigchild.c has not.
abbrev pub start : Bool → ℕ → Parent
start blocked n = record {
  alive = n;
  zombies = 0;
  quit = 0;
  pending = false;
  blocked = blocked;
  handling = false;
}
