-- ===== src/SigSet.antt =====
-- linux07/sigset.c: two signals that are blocked, and let in once in ten rounds of the loop. `j` does
-- not wrap: a round takes a second.
pub mod Handled
mod Tests
use linux_c_study.Prelude.{
  ℕ, zero, suc, ◌+◌, ◌%◌, Bool, true, false, not, ◌&&◌, ◌||◌, List, [], ◌∷◌, ◌++◌, ◌==◌,
  if◌then◌else◌,
}

-- SIGINT and SIGQUIT, the signals of `set`, which have a handler; any other one ends the process.
pub data Signal : Type 0 where
  sigint sigquit : Signal

abbrev pub same : Signal → Signal → Bool
same sigint sigint = true
same sigquit sigquit = true
same _ _ = false

-- The mask and the pending signals of the process, how often signalhandler has run for each signal,
-- `j`, and the lines of bits that have been printed.
pub record Process : Type 0 where
  pub blocked : Signal → Bool
  pub pending : Signal → Bool
  pub handled : Signal → ℕ
  pub j : ℕ
  pub lines : List (List Bool)

-- The kernel sends a signal: it waits when it is blocked, where a second one is the same as one, and
-- else its handler runs.
unfoldable pub arrive : Signal → Process → Process
arrive s p =
    if p.blocked s
    then record p { pending = λ t. same s t || p.pending t }
    else record p { handled = λ t. (if same s t then 1 else 0) + p.handled t }

unfoldable pub arrive_all : List Signal → Process → Process
arrive_all [] p = p
arrive_all (s ∷ ss) p = arrive_all ss (arrive s p)

-- sigprocmask, when it has set the mask: the handlers of the signals that wait and are not blocked run
-- before it returns.
unfoldable pub sigprocmask : (Signal → Bool) → Process → Process
sigprocmask mask p = record p {
  blocked = mask;
  pending = λ s. p.pending s && mask s;
  handled = λ s. (if p.pending s && not (mask s) then 1 else 0) + p.handled s;
}

-- sigismember(&pand,i)
abbrev pub is_member : (Signal → Bool) → ℕ → Bool
is_member pand i = ((i == 2) && pand sigint) || ((i == 3) && pand sigquit)

-- The loop that prints, over `n` numbers from i on.
unfoldable pub bits : (Signal → Bool) → ℕ → ℕ → List Bool
bits pand zero i = []
bits pand (suc n) i = is_member pand i ∷ bits pand n (i + 1)

-- SIG_BLOCK with `set`, which holds both signals.
abbrev pub block_set : (Signal → Bool) → Signal → Bool
block_set mask s = true

-- A round of the loop: the line of bits, `j++`, and the change of the mask.
unfoldable pub round : (Signal → Bool) → Process → Process
round old p =
    let q : Process = record p { j = p.j + 1; lines = p.lines ++ bits p.pending 30 1 ∷ [] } in
    if p.j % 10 == 0 then sigprocmask old q else sigprocmask (block_set q.blocked) q

-- The loop, with the signals that arrive after each round, up to the next change of the mask.
unfoldable pub rounds : (Signal → Bool) → List (List Signal) → Process → Process
rounds old [] p = p
rounds old (arrivals ∷ more) p = rounds old more (arrive_all arrivals (round old p))

-- main up to its loop, with the mask `old` that the process has inherited, and the signals that arrive
-- until the first change of the mask.
unfoldable pub start : (Signal → Bool) → List Signal → Process
start old arrivals = arrive_all arrivals (
    sigprocmask (block_set old)
      (record { blocked = old; pending = λ s. false; handled = λ s. 0; j = 1; lines = [] }))
