-- ===== src/UdpClient/Clients.antt =====
-- UdpClient.c with UdpService.c: each of several clients gets its own lines back.
use linux_c_study.Prelude.{
  ℕ, zero, suc, ◌≤◌, ◌<◌, ◌≡◌, refl, ap, ap₂, ◌∙◌, false, some, List, [], ◌∷◌, ◌++◌, map, arith,
  ℕ_discrete, ◌==◌, length, length-append, take, replicate, length-take, length-replicate,
  length-map,
}
use mathlib.Core.Logic.{ite}
use linux_c_study.Kernel.{Answer, error, got}
use linux_c_study.Prelude.Bytes.{All}
use linux_c_study.Prelude.Int.{pos}
use linux_c_study.SelectServer.{toupper}
use linux_c_study.UpperServer.{Sent, bytes, minus_one, udp_service, reply}
use linux_c_study.UdpClient.{whole_buf, request, Printed, receive, requests, printed, text_of}

-- Of what goes to or comes from the clients, what is of the client c.
abbrev pub of_client {ℓ} : {A : Type ℓ} → ℕ → List (ℕ × A) → List A
of_client c [] = []
of_client c ((client, a) ∷ xs) = ite (ℕ_discrete client c) (a ∷ of_client c xs) (of_client c xs)

-- The datagram of a call of sendto, as recvfrom answers it; a size of -1 makes the call fail.
abbrev pub arrives : List Sent → List Answer
arrives [] = []
arrives (bytes bs ∷ calls) = got bs ∷ arrives calls
arrives (minus_one ∷ calls) = arrives calls

-- udp_service for the datagrams of one client.
abbrev pub answers : List Answer → List Sent
answers [] = []
answers (got [] ∷ rest) = answers rest
answers (got (b ∷ bs) ∷ rest) = reply (got (b ∷ bs)) ∷ answers rest
answers (error e ∷ rest) = reply (error e) ∷ answers rest

-- The service answers each client as if there were no others.
of_client-udp_service :
    (c : ℕ) (received : List (ℕ × Answer))
    → of_client c (udp_service received) ≡ answers (of_client c received)
unfolding udp_service
of_client-udp_service c [] = refl
of_client-udp_service c ((client, got []) ∷ received) =
    ground (arith, of_client-udp_service c received)
of_client-udp_service c ((client, got (b ∷ bs)) ∷ received) =
    ground (arith, of_client-udp_service c received)
of_client-udp_service c ((client, error e) ∷ received) =
    ground (arith, of_client-udp_service c received)

take-map-whole_buf :
    (line : List ℕ) (zeros : List ℕ) (n : ℕ)
    → length line ≤ n
    → take (length line) (map toupper (take n (line ++ zeros))) ≡ map toupper line
take-map-whole_buf [] zeros n h = refl
take-map-whole_buf (b ∷ bs) zeros zero h = absurd (omega arith)
take-map-whole_buf (b ∷ bs) zeros (suc n) h =
    ap (λ xs. toupper b ∷ xs) (take-map-whole_buf bs zeros n (omega arith))

-- What the client prints for a line.
abbrev pub capitals : List ℕ → Printed
capitals line = record { readres = pos (length line); text = some (map toupper line) }

length-whole_buf : (line : List ℕ) → length (whole_buf line) ≡ 1024
length-whole_buf line = omega (
  arith,
  length-take 1024 (line ++ replicate 1024 0),
  length-append line (replicate 1024 0),
  length-replicate {A = ℕ} 1024 0,
)

answers-got :
    (datagram : List ℕ) (rest : List Answer)
    → 1 ≤ length datagram
    → answers (got datagram ∷ rest) ≡ bytes (map toupper datagram) ∷ answers rest
answers-got [] rest h = absurd (omega arith)
answers-got (b ∷ bs) rest h = refl

-- The bytes of a line that is shorter than buf: none is zero.
abbrev pub IsLine : List ℕ → Type 0
IsLine line = (length line < 1024) × All (λ c. 1 ≤ c) line

text_of-whole_buf :
    (line : List ℕ) (n m : ℕ)
    → length line < n
    → All (λ c. 1 ≤ c) line
    → text_of (take n (line ++ (0 ∷ replicate m 0))) ≡ some line
unfolding text_of
text_of-whole_buf line zero m h t = absurd (omega arith)
text_of-whole_buf [] (suc n) m h t = refl
text_of-whole_buf (c ∷ bs) (suc n) m h t =
    let other : (c == 0) ≡ false = ground (arith, t.0) in
    rw (other, text_of-whole_buf bs n m (omega arith) t.1) refl

toupper-nonzero : (line : List ℕ) → All (λ c. 1 ≤ c) line → All (λ c. 1 ≤ c) (map toupper line)
unfolding toupper
toupper-nonzero [] t = tt
toupper-nonzero (c ∷ bs) t = (ground (arith, t.0), toupper-nonzero bs t.1)

text_of-line :
    (line : List ℕ) → IsLine line → text_of (whole_buf (map toupper line)) ≡ some (map toupper line)
text_of-line line h =
    text_of-whole_buf (map toupper line) 1024 1023 (omega (arith, h.0, length-map line toupper))
      (toupper-nonzero line h.1)

receive-line :
    (line : List ℕ)
    → IsLine line
    → receive (got line) (got (map toupper (whole_buf line))) ≡ capitals line
unfolding receive
receive-line line h =
    let part : take (length line) (map toupper (whole_buf line)) ≡ map toupper line =
      take-map-whole_buf line (replicate 1024 0) 1024 (omega (arith, h.0)) in
    rw (part, length-map line toupper, text_of-line line h) refl

printed-answers :
    (lines : List (List ℕ))
    → All IsLine lines
    → printed (map got lines) (arrives (answers (map got (requests (map got lines)))))
      ≡ map capitals lines
unfolding printed requests request
printed-answers [] h = refl
printed-answers (line ∷ lines) h =
    rw
      (
        answers-got (whole_buf line) (map got (requests (map got lines)))
            (omega (arith, length-whole_buf line)),
        printed,
      )
      (ap₂ ◌∷◌ (receive-line line h.0) (printed-answers lines h.1))

-- UdpClient.c with UdpService.c, over datagrams that arrive: however the datagrams of several clients
-- are mixed when they reach the service, a client whose requests are those for its lines, of up to
-- 1023 bytes each and none of them zero, prints each of them in capitals and with its own length, in
-- order, though all the datagrams have 1024 bytes.
pub printed-udp_service :
    (c : ℕ) (lines : List (List ℕ)) (received : List (ℕ × Answer))
    → All IsLine lines
    → of_client c received ≡ map got (requests (map got lines))
    → printed (map got lines) (arrives (of_client c (udp_service received))) ≡ map capitals lines
printed-udp_service c lines received h own =
    ap (λ xs. printed (map got lines) (arrives xs))
      (of_client-udp_service c received ∙ ap answers own)
    ∙ printed-answers lines h
