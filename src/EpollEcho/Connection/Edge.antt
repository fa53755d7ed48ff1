-- ===== src/EpollEcho/Connection/Edge.antt =====
-- Edge-triggered clients of epollEL-loop.c, which reads until a read fails.
use linux_c_study.Prelude.{
  ℕ, zero, suc, ◌<◌, ◌≡◌, refl, ap, ◌∙◌, true, false, none, some, List, [], ◌∷◌, ◌++◌, arith,
  length, take, drop, take-append-drop, length-drop,
}
use linux_c_study.Kernel.{got}
use linux_c_study.EpollEcho.{Server, answer_client, read_all, reply}
use linux_c_study.EpollEcho.Connection.{answers}

-- The writes of the inner loop of epollEL-loop.c, for the chunks that it reads.
abbrev pub logged : ℕ → List (List ℕ) → List (ℕ × List ℕ) → List (ℕ × List ℕ)
logged fd [] log = log
logged fd (c ∷ cs) log = logged fd cs ((fd, reply 2 (got c)) ∷ log)

abbrev pub joined : List (List ℕ) → List ℕ
joined [] = []
joined (c ∷ cs) = c ++ joined cs

-- epollEL-loop.c, of a client that has not closed: its loop ends, with one read more than there are
-- bytes at most, and has then read them all, and answered each chunk.
pub read_all-some :
    (fd n : ℕ) (bs : List ℕ) (s : Server)
    → length bs < n
    → (cs : List (List ℕ)) × (joined cs ≡ bs)
      × (read_all fd (answers 2 false n bs) s ≡ some (record s { log = logged fd cs s.log }))
unfolding read_all answers answer_client
read_all-some fd zero bs s h = absurd (omega arith)
read_all-some fd (suc n) [] s h = ([], refl, refl)
read_all-some fd (suc n) (b ∷ bs) s h =
    let r =
      read_all-some fd n (drop 1 bs) (answer_client 2 fd (got (take 2 (b ∷ bs))) s)
        (omega (arith, length-drop 1 bs)) in
    (
      take 2 (b ∷ bs) ∷ r.0,
      ap (λ x. b ∷ (take 1 bs ++ x)) r.1 ∙ ap (λ x. b ∷ x) (take-append-drop 1 bs),
      r.2,
    )

-- epollEL-loop.c, of a client that has closed: the loop never ends, however often it reads.
pub read_all-none :
    (fd n : ℕ) (bs : List ℕ) (s : Server) → read_all fd (answers 2 true n bs) s ≡ none
unfolding read_all answers
read_all-none fd zero bs s = refl
read_all-none fd (suc n) [] s = read_all-none fd n [] _
read_all-none fd (suc n) (b ∷ bs) s = read_all-none fd n (drop 1 bs) _
