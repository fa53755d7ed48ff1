-- ===== src/SocketPair/Greeting.antt =====
-- What socketService.c answers, and what socketCon.c prints of it.
use linux_c_study.Prelude.{
  ℕ, zero, suc, ◌-◌, ◌≤◌, ◌<◌, min, ◌≡◌, refl, sym, ap, ◌∙◌, some, List, [], ◌∷◌, ◌++◌, arith,
  length, take, drop, length-drop, take-nil,
}
use linux_c_study.Prelude.Bytes.{codes}
use linux_c_study.Kernel.{Turn, fault, give, got}
use linux_c_study.UpperServer.{read_turn, after}
use linux_c_study.UpperServer.Replies.{Gives}
use linux_c_study.SocketPair.{answer, service, request, received, text}

-- `n` times the same answer.
abbrev pub answers : ℕ → List (List ℕ)
answers zero = []
answers (suc n) = answer ∷ answers n

service-give :
    (k b : ℕ) (bs : List ℕ) (turns : List Turn)
    → service (b ∷ bs) (give (suc k) ∷ turns) ≡ after answer (service (drop (min k 1023) bs) turns)
unfolding service
service-give k b bs turns =
    let z : min (suc k) 1024 ≡ suc (min k 1023) = omega arith in
    rw (z, service) (ap (λ n. after answer (service (drop n (b ∷ bs)) turns)) z)

-- socketService.c: when the reads do not fail, and there are more of them than bytes, the loop ends,
-- and it has sent the same 1204 bytes for each read that brought something: at least once if the
-- client has sent anything, and not more often than the client has sent bytes.
pub service-answers :
    (turns : List Turn) (pending : List ℕ)
    → Gives turns
    → length pending < length turns
    → (n : ℕ) × (service pending turns ≡ some (answers n))
      × (n ≤ length pending)
      × (min 1 (length pending) ≤ n)
unfolding service
service-answers [] pending g l = absurd (omega arith)
service-answers (fault e ∷ turns) pending g l = absurd g
service-answers (give k ∷ turns) [] g l =
    (0, rw (take-nil {A = ℕ} (min k 1024), service) refl, omega arith, omega arith)
service-answers (give zero ∷ turns) (b ∷ bs) g l = absurd (omega (arith, g.0))
service-answers (give (suc k) ∷ turns) (b ∷ bs) g l =
    let m = min k 1023 in
    let (n, rest, most, least) =
      service-answers turns (drop m bs) g.1 (omega (arith, length-drop m bs)) in
    (
      suc n,
      service-give k b bs turns ∙ ap (after answer) rest,
      omega (arith, most, length-drop m bs),
      omega arith,
    )

abbrev pub joined : List (List ℕ) → List ℕ
joined [] = []
joined (xs ∷ xss) = xs ++ joined xss

-- A number that is at least thirteen.
abbrev from_thirteen : ℕ → ℕ
from_thirteen j = suc (suc (suc (suc (suc (suc (suc (suc (suc (suc (suc (suc (suc j))))))))))))

text-received :
    (j : ℕ) (more : List ℕ)
    → text (received (got (take (from_thirteen j) (answer ++ more)))) ≡ codes "connect is ok"
unfolding received
text-received zero more = refl
text-received (suc j) more = refl

-- socketCon.c with socketService.c, whose reads do not fail: however the request arrives in pieces, the
-- service answers and ends, and the client prints `connect is ok` when its one recv gives at least
-- the thirteen bytes of that, though the answer is longer than its buffer.
pub request-received :
    (turns : List Turn) (k : ℕ)
    → Gives turns
    → length request < length turns
    → 13 ≤ k
    → (calls : List (List ℕ)) × (service request turns ≡ some calls)
      × (text (received (read_turn (joined calls) (give k)).0) ≡ codes "connect is ok")
request-received turns k g l h =
    let (n, ends, most, least) = service-answers turns request g l in
    let j = min k 1024 - 13 in
    let m : min k 1024 ≡ from_thirteen j = omega arith in
    let i : suc (n - 1) ≡ n = omega arith in
    (
      answers (suc (n - 1)),
      ends ∙ ap (λ c. some (answers c)) (sym i),
      ap (λ c. text (received (got (take c (answer ++ joined (answers (n - 1))))))) m
          ∙ text-received j (joined (answers (n - 1))),
    )
