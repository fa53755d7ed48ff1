-- ===== src/ThreadServer/Owners.antt =====
-- Which thread of mutl-thread.c has which descriptor.
use linux_c_study.Prelude.{ℕ, ◌≡◌, refl, inr, true, false, Option, none, some, arith}
use linux_c_study.Kernel.{SysRet, failed, value}
use linux_c_study.ThreadServer.{
  Thread, unborn, talking, found, hung_up, ended, Ifno, Server, setup, accept_client, look_up,
  hang_up, give_back, created, is_created, copy, copies, Step, accepts, looks_up, hangs_up,
  gives_back, Reach, here, next,
}

-- The descriptor of a thread that has not closed it yet: it is in the entry of the table, and then in
-- the thread's copy.
abbrev pub owned_in : (ℕ → Ifno) → Thread → Option ℕ
owned_in t unborn = none
owned_in t (created i) = some ((t i).cfd)
owned_in t (talking cfd) = some cfd
owned_in t (found cfd i) = some cfd
owned_in t (hung_up i) = none
owned_in t ended = none

abbrev pub owned : Server → ℕ → Option ℕ
owned s n = owned_in s.ifno (s.threads n)

-- The descriptor of a thread is open, and is that of no other thread.
record Owners (s : Server) : Type 0 where
  still : (n cfd : ℕ) → owned s n ≡ some cfd → s.opened cfd ≡ true
  one : (n m cfd : ℕ) → owned s n ≡ some cfd → owned s m ≡ some cfd → n ≡ m

accept_client-Owners :
    (n cfd i : ℕ) (s : Server)
    → s.opened cfd ≡ false
    → ((m : ℕ) → is_created (s.threads m) ≡ false)
    → Owners s
    → Owners (accept_client n cfd i s)
unfolding accept_client
accept_client-Owners n cfd i s free copied v = record {
  still = λ m c h. ground (arith, v.still m c, copied m);
  one = λ m k c a b. ground (arith, v.one m k c, v.still m c, v.still k c, copied m, copied k);
}

copy-Owners : (n i : ℕ) (s : Server) → s.threads n ≡ created i → Owners s → Owners (copy n i s)
unfolding copy
copy-Owners n i s t v = record {
  still = λ m c h. ground (arith, v.still m c, v.still n c, t);
  one = λ m k c a b. ground (arith, v.one m k c, v.one n k c, v.one m n c, t);
}

look_up-Owners :
    (n cfd i : ℕ) (s : Server) → s.threads n ≡ talking cfd → Owners s → Owners (look_up n cfd i s)
unfolding look_up
look_up-Owners n cfd i s t v = record {
  still = λ m c h. ground (arith, v.still m c, v.still n c, t);
  one = λ m k c a b. ground (arith, v.one m k c, v.one n k c, v.one m n c, t);
}

hang_up-Owners :
    (n cfd i : ℕ) (s : Server) → s.threads n ≡ found cfd i → Owners s → Owners (hang_up n cfd i s)
unfolding hang_up
hang_up-Owners n cfd i s t v = record {
  still = λ m c h. ground (arith, v.still m c, v.one m n cfd, t);
  one = λ m k c a b. ground (arith, v.one m k c);
}

give_back-Owners : (n i : ℕ) (s : Server) → Owners s → Owners (give_back n i s)
unfolding give_back
give_back-Owners n i s v = record {
  still = λ m c h. ground (arith, v.still m c);
  one = λ m k c a b. ground (arith, v.one m k c);
}

Step-Owners : {s t : Server} → Step true s t → Owners s → Owners t
Step-Owners {s} (accepts n cfd i u free e p) v = accept_client-Owners n cfd i s free (p refl) v
Step-Owners {s} (copies n i t) v = copy-Owners n i s t v
Step-Owners {s} (looks_up n cfd i t e) v = look_up-Owners n cfd i s t v
Step-Owners {s} (hangs_up n cfd i t) v = hang_up-Owners n cfd i s t v
Step-Owners {s} (gives_back n i t) v = give_back-Owners n i s v

Reach-Owners : {s t : Server} → Reach true s t → Owners s → Owners t
Reach-Owners here v = v
Reach-Owners (next r st) v = Step-Owners st (Reach-Owners r v)

setup-unborn :
    (table : ℕ → Ifno) (sock bound listening : SysRet) {s : Server}
    → setup table sock bound listening ≡ inr s
    → (n : ℕ) → s.threads n ≡ unborn
unfolding setup
setup-unborn table (failed e) bound listening h n = absurd (ground arith)
setup-unborn table (value ftd) (failed e) listening h n = absurd (ground arith)
setup-unborn table (value ftd) (value b) (failed e) h n = absurd (ground arith)
setup-unborn table (value ftd) (value b) (value l) h n = ground arith

unborn-Owners : (s : Server) → ((n : ℕ) → s.threads n ≡ unborn) → Owners s
unborn-Owners s h = record {
  still = λ n c a. absurd (ground (arith, h n));
  one = λ n m c a b. absurd (ground (arith, h n));
}

-- mutl-thread.c, from its set-up on, in every interleaving of main and the threads in which main does
-- not fill another entry before the thread that it has created has copied its own: the descriptor
-- that main has given to a thread, or that the thread talks on, is open until the thread closes it, and
-- no other thread has it.
pub Reach-owned :
    (table : ℕ → Ifno) (sock bound listening : SysRet) {s t : Server} (n m cfd : ℕ)
    → setup table sock bound listening ≡ inr s
    → Reach true s t
    → owned t n ≡ some cfd
    → owned t m ≡ some cfd
    → (t.opened cfd ≡ true) × (n ≡ m)
Reach-owned table sock bound listening {s} {t} n m cfd e r a b =
    let none_yet = setup-unborn table sock bound listening {s = s} e in
    let v = Reach-Owners r (unborn-Owners s none_yet) in (v.still n cfd a, v.one n m cfd a b)
