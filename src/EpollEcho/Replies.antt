-- ===== src/EpollEcho/Replies.antt =====
-- What each client of the four echo servers should be sent, and what one report makes them write.
pub mod Runs
use linux_c_study.Prelude.{
  ℕ, ◌≡◌, refl, sym, ap, ◌∙◌, ◌⊎◌, inl, inr, some, List, [], ◌∷◌, ◌++◌, append_assoc, append-nil,
  arith, ℕ_discrete, ◌==◌, if◌then◌else◌,
}
use mathlib.Core.Path.{subst}
use mathlib.Core.Logic.{ite}
use linux_c_study.Kernel.{Errno, SysRet, failed, value, Answer, error, got}
use linux_c_study.EpollEcho.{
  Trigger, Server, accept_client, accept_nonblocking, answer_client, read_once, read_all, reply,
  Event,
}

-- The writes to a descriptor, the first one in front.
abbrev pub written : ℕ → List (ℕ × List ℕ) → List (List ℕ)
written c [] = []
written c ((fd, bs) ∷ log) = written c log ++ ite (ℕ_discrete fd c) (bs ∷ []) []

-- The replies to one read, and to all reads up to the first that fails.
abbrev pub once : ℕ → List Answer → List (List ℕ)
once size [] = []
once size (got [] ∷ answers) = []
once size (got (b ∷ bs) ∷ answers) = reply size (got (b ∷ bs)) ∷ []
once size (error e ∷ answers) = reply size (error e) ∷ []

abbrev pub up_to_error : List Answer → List (List ℕ)
up_to_error [] = []
up_to_error (error e ∷ answers) = []
up_to_error (got [] ∷ answers) = up_to_error answers
up_to_error (got (b ∷ bs) ∷ answers) = reply 2 (got (b ∷ bs)) ∷ up_to_error answers

module _ (expected : List Answer → List (List ℕ)) (ftd c : ℕ) where
  -- The replies to what is read from the descriptor c, for the events reported.
  abbrev pub replies : List Event → List (List ℕ)
  replies [] = []
  replies (e ∷ es) =
      (if ftd == e.fd then [] else ite (ℕ_discrete e.fd c) (expected e.answers) []) ++ replies es

  abbrev pub all_replies : List (Errno ⊎ List Event) → List (List ℕ)
  all_replies [] = []
  all_replies (inl e ∷ ws) = all_replies ws
  all_replies (inr es ∷ ws) = replies es ++ all_replies ws

-- From s to s' the server has written `bss` to c, and it still has its listening descriptor.
pub record Writes (c : ℕ) (bss : List (List ℕ)) (s s' : Server) : Type 0 where
  pub listens : s'.ftd ≡ s.ftd
  pub wrote : written c s'.log ≡ written c s.log ++ bss

Writes-nothing : (c : ℕ) {s s' : Server} → s'.ftd ≡ s.ftd → s'.log ≡ s.log → Writes c [] s s'
Writes-nothing c {s} {s'} f l = record {
  listens = f;
  wrote = ap (written c) l ∙ sym (append-nil (written c s.log));
}

pub Writes-refl : (c : ℕ) (s : Server) → Writes c [] s s
Writes-refl c s = Writes-nothing c refl refl

pub Writes-trans :
    (c : ℕ) (xs ys : List (List ℕ)) {s t u : Server}
    → Writes c xs s t
    → Writes c ys t u
    → Writes c (xs ++ ys) s u
Writes-trans c xs ys {s} {t} {u} a b = record {
  listens = b.listens ∙ a.listens;
  wrote = b.wrote ∙ ap (λ zs. zs ++ ys) a.wrote ∙ append_assoc (written c s.log) xs ys;
}

pub accept_client-Writes :
    (c : ℕ) (t : Trigger) (a : SysRet) (s : Server) {s' : Server}
    → accept_client t a s ≡ inr s'
    → Writes c [] s s'
unfolding accept_client
accept_client-Writes c t (failed e) s h = absurd (ground arith)
accept_client-Writes c t (value cfd) s {s'} h = Writes-nothing c (ground arith) (ground arith)

pub accept_nonblocking-Writes :
    (c : ℕ) (a : SysRet) (s : Server) {s' : Server}
    → accept_nonblocking a s ≡ inr s'
    → Writes c [] s s'
unfolding accept_nonblocking
accept_nonblocking-Writes c (failed e) s h = absurd (ground arith)
accept_nonblocking-Writes c (value cfd) s {s'} h = Writes-nothing c (ground arith) (ground arith)

module _ {P : Type 0} where
  either_nil : (d : Dec P) → ite {C = List (List ℕ)} d [] [] ≡ []
  either_nil (yes p) = refl
  either_nil (no n) = refl

  either-append :
      (d : Dec P) (xs ys : List (List ℕ)) → ite d xs [] ++ ite d ys [] ≡ ite d (xs ++ ys) []
  either-append (yes p) xs ys = refl
  either-append (no n) xs ys = refl

answer_client-Writes :
    (c size fd : ℕ) (a : Answer) (s : Server) (answers : List Answer)
    → Writes c (ite (ℕ_discrete fd c) (once size (a ∷ answers)) []) s (answer_client size fd a s)
unfolding answer_client
answer_client-Writes c size fd (got []) s answers =
    subst (λ zs. Writes c zs s (answer_client size fd (got []) s))
      (sym (either_nil (ℕ_discrete fd c))) (Writes-nothing c refl refl)
answer_client-Writes c size fd (got (b ∷ bs)) s answers = record { listens = refl; wrote = refl }
answer_client-Writes c size fd (error e) s answers = record { listens = refl; wrote = refl }

pub read_once-Writes :
    (c size fd : ℕ) (answers : List Answer) (s : Server) {s' : Server}
    → read_once size fd answers s ≡ some s'
    → Writes c (ite (ℕ_discrete fd c) (once size answers) []) s s'
unfolding read_once
read_once-Writes c size fd [] s h = absurd (ground arith)
read_once-Writes c size fd (a ∷ rest) s {s'} h =
    subst (Writes c (ite (ℕ_discrete fd c) (once size (a ∷ rest)) []) s) (ground arith)
      (answer_client-Writes c size fd a s rest)

pub read_all-Writes :
    (c fd : ℕ) (answers : List Answer) (s : Server) {s' : Server}
    → read_all fd answers s ≡ some s'
    → Writes c (ite (ℕ_discrete fd c) (up_to_error answers) []) s s'
unfolding read_all answer_client
read_all-Writes c fd [] s h = absurd (ground arith)
read_all-Writes c fd (error e ∷ rest) s {s'} h =
    subst (λ zs. Writes c zs s s') (sym (either_nil (ℕ_discrete fd c)))
      (subst (Writes c [] s) (ground arith) (Writes-refl c s))
read_all-Writes c fd (got [] ∷ rest) s {s'} h =
    Writes-trans c [] (ite (ℕ_discrete fd c) (up_to_error rest) [])
      {t = answer_client 2 fd (got []) s}
      (Writes-nothing c {s = s} {s' = answer_client 2 fd (got []) s} refl refl)
      (read_all-Writes c fd rest (answer_client 2 fd (got []) s) {s' = s'} h)
read_all-Writes c fd (got (b ∷ bs) ∷ rest) s {s'} h =
    let a = got (b ∷ bs) in
    subst (λ zs. Writes c zs s s')
      (either-append (ℕ_discrete fd c) (reply 2 a ∷ []) (up_to_error rest))
      (Writes-trans c (ite (ℕ_discrete fd c) (reply 2 a ∷ []) [])
        (ite (ℕ_discrete fd c) (up_to_error rest) []) {t = answer_client 2 fd a s}
        (answer_client-Writes c 2 fd a s [])
        (read_all-Writes c fd rest (answer_client 2 fd a s) {s' = s'} h))
