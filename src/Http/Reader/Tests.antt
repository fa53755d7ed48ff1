-- ===== src/Http/Reader/Tests.antt =====
-- readLine on concrete requests.
use linux_c_study.Prelude.{◌≡◌, refl, some, [], ◌∷◌, arith}
use linux_c_study.Kernel.{give, World}
use linux_c_study.Prelude.Bytes.{codes}
use linux_c_study.Prelude.Int.{pos}
use linux_c_study.Wrap.{Reader, Line}
use linux_c_study.Wrap.Buffer.{IsValid, unread}
use linux_c_study.Http.Reader.{read_line}
use linux_c_study.Http.Reader.Laws.{read_line_lem}

abbrev no_reader : Reader
no_reader = record { read_buf = []; read_ptr = 0; read_cnt = 0 }

abbrev request : World
request = record {
  pending = codes "hi\nx";
  turns = give 2 ∷ give 2 ∷ give 2 ∷ give 2 ∷ give 2 ∷ give 2 ∷ [];
}

abbrev first_line : Line
first_line = record {
  result = pos 2;
  stored = codes "hi\n";
  reader = record { read_buf = codes "\nx"; read_ptr = 1; read_cnt = 1 };
  world = record { pending = []; turns = give 2 ∷ give 2 ∷ give 2 ∷ give 2 ∷ [] };
}

read_line_lem_example :
    (line : Line) × (read_line 1024 no_reader request ≡ some line)
    × (line.result ≡ pos 2)
    × (line.stored ≡ codes "hi\n")
    × IsValid line.reader
    × (unread line.reader line.world ≡ codes "x")
unfolding unread
read_line_lem_example =
    read_line_lem 1024 (codes "hi") (codes "x") no_reader request (omega arith) (ground arith)
      (ground arith) (omega arith) (omega arith) refl
