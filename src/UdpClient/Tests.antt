-- ===== src/UdpClient/Tests.antt =====
-- Two clients whose datagrams are mixed.
use linux_c_study.Prelude.{ℕ, ◌≡◌, refl, List, [], ◌∷◌, map, arith, ℕ_discrete}
use linux_c_study.Kernel.{Answer, got}
use linux_c_study.UpperServer.{udp_service}
use linux_c_study.UdpClient.{whole_buf, printed, request, requests}
use linux_c_study.UdpClient.Clients.{of_client, arrives, capitals, printed-udp_service}

abbrev lines : List (List ℕ)
lines = (97 ∷ 98 ∷ []) ∷ [] ∷ []

abbrev mixed : List (ℕ × Answer)
mixed =
    (1, got (whole_buf (97 ∷ 98 ∷ [])))
    ∷ (2, got (whole_buf (99 ∷ [])))
    ∷ (1, got (whole_buf []))
    ∷ []

printed-udp_service_example :
    printed (map got lines) (arrives (of_client 1 (udp_service mixed))) ≡ map capitals lines
unfolding ℕ_discrete requests request
printed-udp_service_example =
    printed-udp_service 1 lines mixed
      ((omega arith, (omega arith, (omega arith, tt))), ((omega arith, tt), tt)) refl
