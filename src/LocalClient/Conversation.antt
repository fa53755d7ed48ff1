-- ===== src/LocalClient/Conversation.antt =====
-- What the client of localService.c reads back.
use linux_c_study.Prelude.{
  ℕ, min, ◌≡◌, refl, sym, ap, ◌∙◌, List, [], ◌∷◌, ◌++◌, map, append_assoc, append-nil, take, drop,
  take-append-drop,
}
use linux_c_study.Kernel.{give, Answer, error, got}
use linux_c_study.SelectServer.{toupper}
use linux_c_study.UpperServer.{Sent, bytes, minus_one}
use linux_c_study.UpperServer.Replies.{sent_bytes, map-append}
use linux_c_study.LocalClient.{
  Pair, ask, read_answer, serve, Step, typed, served, answered, interrupted, Reach, here, next,
  connected, passed,
}

abbrev pub concat : List (List ℕ) → List ℕ
concat [] = []
concat (xs ∷ xss) = xs ++ concat xss

concat-snoc : (xss : List (List ℕ)) (ys : List ℕ) → concat (xss ++ ys ∷ []) ≡ concat xss ++ ys
concat-snoc [] ys = append-nil ys
concat-snoc (xs ∷ xss) ys =
    ap (λ zs. xs ++ zs) (concat-snoc xss ys) ∙ sym (append_assoc xs (concat xss) ys)

sent_bytes-snoc :
    (calls : List Sent) (s : Sent) → sent_bytes (calls ++ s ∷ []) ≡ sent_bytes calls ++ passed s
sent_bytes-snoc [] (bytes bs) = append-nil bs
sent_bytes-snoc [] minus_one = refl
sent_bytes-snoc (bytes bs ∷ calls) s =
    ap (λ zs. bs ++ zs) (sent_bytes-snoc calls s)
    ∙ sym (append_assoc bs (sent_bytes calls) (passed s))
sent_bytes-snoc (minus_one ∷ calls) s = sent_bytes-snoc calls s

-- What has been read back, what comes back and the capitals of what goes out are the capitals of all
-- that the client has written.
abbrev pub Conserved : Pair → Type 0
Conserved s =
    concat s.answers ++ (s.to_client ++ map toupper s.to_service)
    ≡ map toupper (sent_bytes s.written)

ask-Conserved : (a : Answer) (s : Pair) → Conserved s → Conserved (ask a s)
unfolding ask
ask-Conserved (got bs) s h =
    let p = concat s.answers in
    let m = map toupper s.to_service in
    ap (λ xs. p ++ (s.to_client ++ xs)) (map-append toupper s.to_service bs)
    ∙ ap (λ xs. p ++ xs) (sym (append_assoc s.to_client m (map toupper bs)))
    ∙ sym (append_assoc p (s.to_client ++ m) (map toupper bs))
    ∙ ap (λ xs. xs ++ map toupper bs) h
    ∙ sym (map-append toupper (sent_bytes s.written) bs)
    ∙ sym (ap (map toupper) (sent_bytes-snoc s.written (bytes bs)))
ask-Conserved (error e) s h =
    h
    ∙ sym
        (ap (map toupper) (sent_bytes-snoc s.written minus_one ∙ append-nil (sent_bytes s.written)))

serve-Conserved : (k : ℕ) (s : Pair) → Conserved s → Conserved (serve (give k) s)
serve-Conserved k s h =
    let n = min k 1024 in
    let took = map toupper (take n s.to_service) in
    let left = map toupper (drop n s.to_service) in
    ap (λ xs. concat s.answers ++ xs)
      (append_assoc s.to_client took left
        ∙ ap (λ xs. s.to_client ++ xs)
            (sym (map-append toupper (take n s.to_service) (drop n s.to_service))
              ∙ ap (map toupper) (take-append-drop n s.to_service)))
    ∙ h

read_answer-Conserved :
    (bs rest : List ℕ) (s : Pair)
    → bs ++ rest ≡ s.to_client
    → Conserved s
    → Conserved (read_answer (got bs) rest s)
unfolding read_answer
read_answer-Conserved bs rest s e h =
    let m = map toupper s.to_service in
    ap (λ xs. xs ++ (rest ++ m)) (concat-snoc s.answers bs)
    ∙ append_assoc (concat s.answers) bs (rest ++ m)
    ∙ ap (λ xs. concat s.answers ++ xs) (sym (append_assoc bs rest m) ∙ ap (λ xs. xs ++ m) e)
    ∙ h

Step-Conserved : {s t : Pair} → Step s t → Conserved s → Conserved t
unfolding read_answer
Step-Conserved {s} (typed a p) h = ask-Conserved a s h
Step-Conserved {s} (served k g b) h = serve-Conserved k s h
Step-Conserved {s} (answered k g p b) h =
    read_answer-Conserved (take (min k 1024) s.to_client) (drop (min k 1024) s.to_client) s
      (take-append-drop (min k 1024) s.to_client) h
Step-Conserved (interrupted e p) h = h

-- localClient.c with localService.c, whose reads do not fail: in any order of their steps and however
-- the stream is cut into reads, what the client has read from the socket, then the answers on the way to it, then
-- the capitals of what the service has not read, are all that the client has written, in capitals and
-- in order.
pub Reach-upper :
    {s : Pair}
    → Reach connected s
    → concat s.answers ++ (s.to_client ++ map toupper s.to_service)
      ≡ map toupper (sent_bytes s.written)
Reach-upper here = refl
Reach-upper (next r st) = Step-Conserved st (Reach-upper r)
