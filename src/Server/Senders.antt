-- ===== src/Server/Senders.antt =====
-- Whose address a job is run with.
use bttracker.Common.{sym, ◌≡◌, ◌∙◌, some, List, [], ◌∷◌, ◌++◌, append_assoc, append-nil}
use bttracker.Memory.{Bytes}
use bttracker.Server.{Datagram, Task, Server, clone, receive, start_with, start}

-- Rounds of the loop with no start between them.
abbrev pub receive_all : List (Bytes × Datagram) → Server → Server
receive_all [] s = s
receive_all ((buff, d) ∷ more) s = receive_all more (receive buff (some d) s)

abbrev pub last_sender : Bytes → List (Bytes × Datagram) → Bytes
last_sender sender [] = sender
last_sender sender ((buff, d) ∷ more) = last_sender d.sender more

abbrev pub clones : List (Bytes × Datagram) → List Task
clones [] = []
clones ((buff, d) ∷ more) = clone buff d ∷ clones more

receive_all-clones :
    (more : List (Bytes × Datagram)) (s : Server)
    → receive_all more s
      ≡ record { si_other = last_sender s.si_other more; queue = s.queue ++ clones more }
unfolding receive
receive_all-clones [] s = λ i. record { si_other = s.si_other; queue = sym (append-nil s.queue) i }
receive_all-clones ((buff, d) ∷ more) s =
    receive_all-clones more (receive buff (some d) s) ∙ rw append_assoc

-- When datagrams arrive before a worker starts on the first of them, the job has the bytes and the
-- length of the first datagram and the address of the last; the others wait in the order in which
-- they arrived.
pub start_after-receive_all :
    (si_other buff : Bytes) (d : Datagram) (more : List (Bytes × Datagram))
    → start (receive_all ((buff, d) ∷ more) (record { si_other = si_other; queue = [] }))
      ≡ some (
        record {
          buff = (clone buff d).buff;
          buflen = (clone buff d).buflen;
          from_addr = last_sender d.sender more;
        },
        record { si_other = last_sender d.sender more; queue = clones more },
      )
unfolding start start_with receive
start_after-receive_all si_other buff d more = rw (receive_all-clones more _)
