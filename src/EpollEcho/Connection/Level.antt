-- ===== src/EpollEcho/Connection/Level.antt =====
-- The servers that read once for each report, with level-triggered clients: they read everything.
use linux_c_study.Prelude.{
  ℕ, zero, suc, ◌+◌, ◌≤◌, ◌≡◌, refl, sym, ap, ◌∙◌, Bool, true, false, not, ◌||◌, Option, none, some,
  List, [], ◌∷◌, ◌++◌, append_assoc, append-nil, arith, if◌then◌else◌, length, take, drop,
  take-append-drop, length-drop,
}
use linux_c_study.EpollEcho.{level, Server, answer_client, read_once}
use linux_c_study.EpollEcho.Connection.{
  Connection, reported, answer, answers, served, Step, arrives, hangs_up, serves, Reach, here, next,
  fresh, is_empty, put-same,
}

-- Nothing is lost between the client and what is read.
pub Step-sent :
    (size fd : ℕ) {c d : Connection}
    → c.taken ++ c.pending ≡ c.sent
    → Step size fd c d
    → d.taken ++ d.pending ≡ d.sent
Step-sent size fd {c = c} e (arrives b bs o) =
    sym (append_assoc c.taken c.pending (b ∷ bs)) ∙ ap (λ x. x ++ (b ∷ bs)) e
Step-sent size fd e (hangs_up o) = e
Step-sent size fd {c = c} e (serves s r q) =
    rw
      (
        append_assoc c.taken (take size c.pending) (drop size c.pending),
        take-append-drop size c.pending,
      )
      e

pub Reach-sent :
    (size fd : ℕ) {c d : Connection}
    → c.taken ++ c.pending ≡ c.sent
    → Reach size fd c d
    → d.taken ++ d.pending ≡ d.sent
Reach-sent size fd e here = e
Reach-sent size fd e (next r s) = Step-sent size fd (Reach-sent size fd e r) s

-- The server after one report.
abbrev pub serve : ℕ → ℕ → Connection → Connection
serve size fd c = served size (answer_client size fd (answer size c.shut c.pending) c.server) c

-- One report after another, until there is none; at most `fuel` of them.
unfoldable pub settle : ℕ → ℕ → ℕ → Connection → Option Connection
settle size fd zero c = if reported fd c then none else some c
settle size fd (suc fuel) c =
    let rest = settle size fd fuel (serve size fd c) in if reported fd c then rest else some c

-- The reports that a connection has still to come.
abbrev pub due : Connection → ℕ
due c = length c.pending + (if c.shut then 1 else 0)

settle-quiet :
    (size fd fuel : ℕ) (c : Connection) → reported fd c ≡ false → settle size fd fuel c ≡ some c
unfolding settle
settle-quiet size fd zero c q = rw q refl
settle-quiet size fd (suc fuel) c q = rw q refl

-- What `settle` comes to: nothing is left to read.
pub record Settled (size fd fuel : ℕ) (c : Connection) : Type 0 where
  pub last : Connection
  pub settles : settle size fd fuel c ≡ some last
  pub read : last.taken ≡ c.taken ++ c.pending
  pub empty : last.pending ≡ []
  pub quiet : reported fd last ≡ false

reported-level :
    (fd : ℕ) (c : Connection)
    → c.server.watched fd ≡ some level
    → reported fd c ≡ (not (is_empty c.pending) || c.shut)
unfolding reported
reported-level fd c w = rw (w, reported) refl

reported-none : (fd : ℕ) (c : Connection) → c.server.watched fd ≡ none → reported fd c ≡ false
unfolding reported
reported-none fd c w = rw (w, reported) refl

settle-next :
    (size fd fuel : ℕ) (c : Connection)
    → reported fd c ≡ true
    → Settled size fd fuel (serve size fd c)
    → Settled size fd (suc fuel) c
unfolding settle
settle-next size fd fuel c r t = record {
  last = t.last;
  settles = rw r t.settles;
  read =
      t.read
      ∙ append_assoc c.taken (take size c.pending) (drop size c.pending)
      ∙ ap (λ x. c.taken ++ x) (take-append-drop size c.pending);
  empty = t.empty;
  quiet = t.quiet;
}

abbrev connection : Server → List ℕ → List ℕ → List ℕ → Bool → Bool → ℕ → Connection
connection s sent taken bs shut news k = record {
  server = s;
  sent = sent;
  taken = taken;
  pending = bs;
  shut = shut;
  news = news;
  arrivals = k;
}

settle-Settled :
    (size fd fuel : ℕ) (s : Server) (sent taken bs : List ℕ) (shut news : Bool) (k : ℕ)
    → s.watched fd ≡ some level
    → length bs + (if shut then 1 else 0) ≤ fuel
    → Settled (suc size) fd fuel (connection s sent taken bs shut news k)
unfolding answer_client
settle-Settled size fd fuel s sent taken [] false news k w l =
    let q = reported-level fd (connection s sent taken [] false news k) w in
    record {
      last = connection s sent taken [] false news k;
      settles = settle-quiet (suc size) fd fuel _ q;
      read = sym (append-nil taken);
      empty = refl;
      quiet = q;
    }
settle-Settled size fd zero s sent taken [] true news k w l = absurd (omega arith)
settle-Settled size fd (suc fuel) s sent taken [] true news k w l =
    let c = connection s sent taken [] true news k in
    let q : reported fd (serve (suc size) fd c) ≡ false =
      reported-none fd (serve (suc size) fd c) (put-same s.watched fd none) in
    settle-next (suc size) fd fuel c (reported-level fd c w) (record {
      last = serve (suc size) fd c;
      settles = settle-quiet (suc size) fd fuel _ q;
      read = sym (append-nil _);
      empty = refl;
      quiet = q;
    })
settle-Settled size fd zero s sent taken (b ∷ bs) shut news k w l = absurd (omega arith)
settle-Settled size fd (suc fuel) s sent taken (b ∷ bs) shut news k w l =
    let c = connection s sent taken (b ∷ bs) shut news k in
    settle-next (suc size) fd fuel c (reported-level fd c w) (
      settle-Settled size fd fuel _ sent _ (drop size bs) shut false k w
        (omega (arith, length-drop size bs)))

-- A level-triggered server that reads once for each report, as epoll.c and epoll-lt.c do: from every
-- state in which it watches the client, a finite number of reports, at most one for each byte and
-- one for the end of file, leaves nothing to read and no report to come, and then all that the
-- client has sent has been read, in its order.
pub level_reads_all :
    (size fd : ℕ) (s : Server) {c : Connection}
    → Reach (suc size) fd (fresh s) c
    → c.server.watched fd ≡ some level
    → (d : Connection) × (settle (suc size) fd (due c) c ≡ some d)
      × (reported fd d ≡ false)
      × (d.pending ≡ [])
      × (d.taken ≡ c.sent)
level_reads_all size fd s {c} r w =
    let t : Settled (suc size) fd (due c) c =
      settle-Settled size fd (due c) c.server c.sent c.taken c.pending c.shut c.news c.arrivals w
        (omega arith) in
    (t.last, t.settles, t.quiet, t.empty, t.read ∙ Reach-sent (suc size) fd refl r)

-- What `settle` repeats is a step.
pub serve-Step :
    (size fd : ℕ) (c : Connection) → reported fd c ≡ true → Step size fd c (serve size fd c)
unfolding read_once answers
serve-Step size fd c r = serves _ r refl
