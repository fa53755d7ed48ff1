-- ===== src/UpperServer/Tests.antt =====
-- The servers that answer in capitals, each with a client.
use linux_c_study.Prelude.{◌≡◌, refl, inl, inr, true, false, some, List, [], ◌∷◌, map, arith}
use linux_c_study.Kernel.{failed, value, fault, give, eintr, got}
use linux_c_study.Prelude.Int.{negsuc}
use linux_c_study.SelectServer.{toupper}
use linux_c_study.UpperServer.{
  Sent, bytes, minus_one, child, local_setup, udp_service, Parent, put, parent_setup,
}
use linux_c_study.UpperServer.Replies.{sent_bytes, child-replies}

child-replies_example :
    (calls : List Sent) × (child (97 ∷ 98 ∷ []) (give 1 ∷ give 5 ∷ give 2 ∷ []) ≡ some calls)
    × (sent_bytes calls ≡ map toupper (97 ∷ 98 ∷ []))
child-replies_example =
    child-replies (give 1 ∷ give 5 ∷ give 2 ∷ []) (97 ∷ 98 ∷ [])
      (omega arith, (omega arith, (omega arith, tt))) (omega arith)

-- An interrupted read makes the child write with a size of -1.
child-interrupted : child [] (fault eintr ∷ give 1 ∷ []) ≡ some (minus_one ∷ [])
unfolding child
child-interrupted = refl

-- Where there is no file service.sock, unlink fails, and the program ends.
local_setup-first_run : local_setup (failed eintr) (value 0) (value 0) (value 5) ≡ inl (negsuc 0)
unfolding local_setup
local_setup-first_run = refl

-- An empty datagram is not answered.
udp_service-empty : udp_service ((1, got []) ∷ (2, got (97 ∷ [])) ∷ []) ≡ (2, bytes (65 ∷ [])) ∷ []
unfolding udp_service toupper
udp_service-empty = refl

-- Descriptor 3 listens.
abbrev listening : Parent
listening = record { opened = put (λ fd. false) 3 true; children = [] }

listening-setup : parent_setup (value 3) (value 0) ≡ inr listening
unfolding parent_setup
listening-setup = refl

abbrev two_children : Parent
two_children = record {
  opened = put (put (put (put listening.opened 4 true) 4 false) 4 true) 4 false;
  children = 4 ∷ 4 ∷ [];
}
