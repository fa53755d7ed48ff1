-- ===== src/Kernel.antt =====
-- The kernel's side of the calls that the programs make: what a call may answer. The answers are
-- arguments of the programs, a `Turn` for each call, in the order of the calls.
use linux_c_study.Prelude.{ℕ, suc, ◌≤◌, ◌≡◌, Bool, true, false, List, [], ◌∷◌}

-- The values of `errno` that some program tells apart.
pub data Errno : Type 0 where
  eintr econnaborted eagain other : Errno

-- `fault e` is a return of -1 with that errno. `give k` moves `k` bytes, as far as the caller asks
-- for them and, in a read, as far as the peer has sent them.
pub data Turn : Type 0 where
  fault : Errno → Turn
  give : ℕ → Turn

-- A call that returns a descriptor or a status.
pub data SysRet : Type 0 where
  failed : Errno → SysRet
  value : ℕ → SysRet

-- What the peer has sent and nobody has read, all up to its end of file, and the turns to come.
pub record World : Type 0 where
  pub pending : List ℕ
  pub turns : List Turn

-- What read(2) returns.
pub data Answer : Type 0 where
  error : Errno → Answer
  got : List ℕ → Answer

-- errno == EINTR
abbrev pub interrupted : Errno → Bool
interrupted eintr = true
interrupted _ = false

-- The documented behaviour of a blocking descriptor that does not fail: signals may interrupt a
-- call, and else it moves at least one byte if there is one.
abbrev pub Serves : Turn → Type 0
Serves (fault e) = interrupted e ≡ true
Serves (give k) = 1 ≤ k

-- The number of calls that are not interrupted.
abbrev pub served : List Turn → ℕ
served [] = 0
served (fault e ∷ ts) = served ts
served (give k ∷ ts) = suc (served ts)
