-- ===== src/ThreadServer/Tests.antt =====
-- The server when it starts, and a conversation.
use linux_c_study.Prelude.{ℕ, ◌≡◌, refl, inr, true, false, some, [], ◌∷◌, ℕ_discrete}
use linux_c_study.Kernel.{value, error, got, eintr}
use linux_c_study.SelectServer.{reply}
use linux_c_study.ThreadServer.{
  accept_client, get_free_ifno, accepts, here, next, size, Ifno, converse, unborn, Server, put,
  init, setup, Reach, get_free_ifno, next, here, accepts,
}
use linux_c_study.Search.{first_from}
use linux_c_study.ThreadServer.Owners.{owned, Reach-owned}
use linux_c_study.ThreadServer.Leak.{Lost, setup-Lost}

-- The array as it is before main.
abbrev zeros : ℕ → Ifno
zeros i = record { cfd = 0; flag = false }

-- Descriptor 3 listens.
abbrev started : Server
started = record {
  ifno = init zeros size 0;
  opened = put (λ fd. false) 3 true;
  threads = λ n. unborn;
}

started-Lost : Lost 4 0 started
unfolding setup ℕ_discrete
started-Lost = setup-Lost zeros (value 3) (value 0) (value 0) 4 {s = started} refl refl

-- A read fails, and the conversation goes on.
conversation :
    converse (got (104 ∷ []) ∷ error eintr ∷ got [] ∷ [])
    ≡ some (reply (got (104 ∷ [])) ∷ reply (error eintr) ∷ [])
unfolding converse
conversation = refl

-- Thread 0 talks to a client on descriptor 4.
abbrev one_client : Server
one_client = accept_client 0 4 0 started

one_client-Reach : Reach true started one_client
unfolding get_free_ifno init first_from ℕ_discrete
one_client-Reach = next here (accepts 0 4 0 refl refl refl (λ e m. refl))

one_client-owned : owned one_client 0 ≡ some 4
unfolding accept_client ℕ_discrete
one_client-owned = refl

one_client-setup : setup zeros (value 3) (value 0) (value 0) ≡ inr started
unfolding setup
one_client-setup = refl

Reach-owned_example : (one_client.opened 4 ≡ true) × (◌≡◌ {A = ℕ} 0 0)
Reach-owned_example =
    Reach-owned zeros (value 3) (value 0) (value 0) {s = started} {t = one_client} 0 0 4
      one_client-setup one_client-Reach one_client-owned one_client-owned
