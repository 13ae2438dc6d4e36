-- ===== src/Tcp/Backend/Tests.antt =====
-- Runs of the backend side of a session at concrete inputs.
use intrusion_detection.Base.{
  ◌+◌, ◌≤◌, ◌<◌, ◌≡◌, ◌≢◌, ◌↔◌, refl, List, true, false, [], ◌∷◌, length, some,
}
use intrusion_detection.Tcp.Backend.{
  Backend, SendResult, sent, Sockets, max_backend_buf, forward_to_backend, flush_backend_tx,
  append_backlog, send_direct, buffer_tail,
}
use intrusion_detection.Tcp.Backend.Stream.{
  IsInOrder, Call, forward, flush, run, run-IsInOrder, waiting, forward_to_backend-ok,
}

-- A connection on which nothing waits.
abbrev open_backend : Backend
open_backend = record { fd = some 3; port = 80; tx_buf = []; epollout_armed = false }

abbrev net : SendResult → Sockets
net answer = record { socket = some 4; send = answer }

forward_to_backend-ok_example :
    ((forward_to_backend (net (sent 1)) open_backend (1 ∷ 2 ∷ []) 80).ok ≡ true) ↔ (
      (0 < 2)
      × (0 < 80)
      × (length open_backend.tx_buf + waiting (sent 1) open_backend (1 ∷ 2 ∷ []) ≤ max_backend_buf)
      × (length open_backend.tx_buf ≡ 0 → sent 1 ≢ SendResult.failed))
forward_to_backend-ok_example =
    forward_to_backend-ok (net (sent 1)) open_backend (1 ∷ 2 ∷ []) 3 refl

-- Two forwards, of which the first is taken in part and the second waits, and a flush.
abbrev calls : List Call
calls =
    forward (net (sent 1)) (1 ∷ 2 ∷ 3 ∷ [])
    ∷ forward (net SendResult.again) (4 ∷ [])
    ∷ flush (sent 2)
    ∷ []

run-calls : (run open_backend calls).ok ≡ true
unfolding forward_to_backend append_backlog send_direct buffer_tail flush_backend_tx
run-calls = refl

run-IsInOrder_example : IsInOrder open_backend (1 ∷ 2 ∷ 3 ∷ 4 ∷ []) (run open_backend calls)
run-IsInOrder_example = run-IsInOrder calls open_backend 3 refl run-calls

in_order : (run open_backend calls).wire ≡ 1 ∷ 2 ∷ 3 ∷ []
unfolding forward_to_backend append_backlog send_direct buffer_tail flush_backend_tx
in_order = refl
