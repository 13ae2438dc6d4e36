-- ===== src/Tcp/Backend/Stream.antt =====
-- The backend's buffer: its bound, the window, and the stream of bytes that the backend gets.
use intrusion_detection.Base.{
  ℕ, ◌+◌, ◌≤◌, ◌<◌, ◌≡◌, refl, ◌∙◌, ◌≢◌, ◌⊎◌, ◌↔◌, inl, inr, true, List, [], ◌∷◌, ◌++◌, length,
  drop, take, Option, none, some, if◌then◌else◌, length-append, length-drop, take-drop, append-nil,
  append_assoc, eq-nil, Bool-cases, arith,
}
use intrusion_detection.Tcp.Backend.{
  Backend, max_backend_buf, is_empty, SendResult, sent, Forwarded, Sockets, taken, untaken,
  recv_window, flush_backend_tx, buffer_tail, connect_backend, append_backlog, send_direct,
  forward_to_backend,
}

-- The bound that the code keeps on the pending buffer.
abbrev pub IsBounded : Backend → Type 0
IsBounded b = length b.tx_buf ≤ max_backend_buf

pub length-untaken : (a : SendResult) (xs : List ℕ) → length (untaken a xs) ≤ length xs
length-untaken (sent n) xs = omega (arith, length-drop n xs)
length-untaken SendResult.again xs = omega arith
length-untaken SendResult.failed xs = omega arith

pub flush_backend_tx-IsBounded :
    (a : SendResult) (b : Backend) → IsBounded b → IsBounded (flush_backend_tx a b).backend
unfolding flush_backend_tx
flush_backend_tx-IsBounded a b h = ground (arith, length-untaken a b.tx_buf)

pub buffer_tail-IsBounded :
    (b : Backend) (w bytes : List ℕ) → IsBounded b → IsBounded (buffer_tail b w bytes).backend
unfolding buffer_tail
buffer_tail-IsBounded b w bytes h = ground (arith, length-append b.tx_buf bytes)

connect_backend-IsBounded :
    (o : Option ℕ) (b : Backend) (bytes : List ℕ) (port : ℕ)
    → IsBounded (connect_backend o b bytes port).backend
unfolding connect_backend
connect_backend-IsBounded none b bytes port = omega arith
connect_backend-IsBounded (some fd) b bytes port = buffer_tail-IsBounded _ [] bytes (omega arith)

append_backlog-IsBounded :
    (a : SendResult) (b : Backend) (bytes : List ℕ)
    → IsBounded b
    → IsBounded (append_backlog a b bytes).backend
unfolding append_backlog
append_backlog-IsBounded a b bytes h = ground (
  arith,
  buffer_tail-IsBounded b [] bytes h,
  flush_backend_tx-IsBounded a (buffer_tail b [] bytes).backend,
)

send_direct-IsBounded :
    (a : SendResult) (b : Backend) (bytes : List ℕ)
    → IsBounded b
    → IsBounded (send_direct a b bytes).backend
unfolding send_direct
send_direct-IsBounded SendResult.failed b bytes h = h
send_direct-IsBounded SendResult.again b bytes h = buffer_tail-IsBounded b [] bytes h
send_direct-IsBounded (sent n) b bytes h =
    ground (arith, buffer_tail-IsBounded b (take n bytes) (drop n bytes) h)

-- On a session whose pending buffer holds at most 262144 bytes, `forward_to_backend` leaves at most
-- that many, whatever the kernel answers.
pub forward_to_backend-IsBounded :
    (net : Sockets) (b : Backend) (bytes : List ℕ) (port : ℕ)
    → IsBounded b
    → IsBounded (forward_to_backend net b bytes port).backend
unfolding forward_to_backend
forward_to_backend-IsBounded net b bytes port h = ground (
  arith,
  connect_backend-IsBounded net.socket b bytes port,
  append_backlog-IsBounded net.send b bytes h,
  send_direct-IsBounded net.send b bytes h,
)

taken-untaken : (a : SendResult) (xs : List ℕ) → taken a xs ++ untaken a xs ≡ xs
taken-untaken (sent n) xs = take-drop n xs
taken-untaken SendResult.again xs = refl
taken-untaken SendResult.failed xs = refl

-- What holds of a call that takes data over: the connection stays, and the bytes that were sent and
-- the bytes that wait are, in this order, those that waited and the new ones.
abbrev pub IsInOrder : Backend → List ℕ → Forwarded → Type 0
IsInOrder b bytes f =
    (f.backend.fd ≡ b.fd)
    × (f.backend.port ≡ b.port)
    × (f.wire ++ f.backend.tx_buf ≡ b.tx_buf ++ bytes)

pub flush_backend_tx-IsInOrder :
    (a : SendResult) (b : Backend) → IsInOrder b [] (flush_backend_tx a b)
unfolding flush_backend_tx
flush_backend_tx-IsInOrder a b = ground (arith, taken-untaken a b.tx_buf, append-nil b.tx_buf)

buffer_tail-ok :
    (b : Backend) (w bytes : List ℕ)
    → (buffer_tail b w bytes).ok ≡ true
    → buffer_tail b w bytes
      ≡ record { ok = true; backend = record b { tx_buf = b.tx_buf ++ bytes }; wire = w }
unfolding buffer_tail
buffer_tail-ok b w bytes h = ground arith

append_backlog-IsInOrder :
    (a : SendResult) (b : Backend) (bytes : List ℕ)
    → (append_backlog a b bytes).ok ≡ true
    → IsInOrder b bytes (append_backlog a b bytes)
unfolding append_backlog buffer_tail
append_backlog-IsInOrder a b bytes h = ground (
  arith,
  append-nil (b.tx_buf ++ bytes),
  flush_backend_tx-IsInOrder a (record b { tx_buf = b.tx_buf ++ bytes }),
)

send_direct-IsInOrder :
    (a : SendResult) (b : Backend) (bytes : List ℕ)
    → b.tx_buf ≡ []
    → (send_direct a b bytes).ok ≡ true
    → IsInOrder b bytes (send_direct a b bytes)
unfolding send_direct buffer_tail
send_direct-IsInOrder SendResult.failed b bytes e h = ground arith
send_direct-IsInOrder SendResult.again b bytes e h = ground arith
send_direct-IsInOrder (sent n) b bytes e h = ground (arith, append-nil bytes, take-drop n bytes)

-- When `forward_to_backend` takes bytes over on an open connection to the same port, nothing is lost,
-- repeated or put in another order.
pub forward_to_backend-IsInOrder :
    (net : Sockets) (b : Backend) (bytes : List ℕ) (fd : ℕ)
    → b.fd ≡ some fd
    → (forward_to_backend net b bytes b.port).ok ≡ true
    → IsInOrder b bytes (forward_to_backend net b bytes b.port)
unfolding forward_to_backend
forward_to_backend-IsInOrder net b bytes fd e h = ground (
  arith,
  append_backlog-IsInOrder net.send b bytes,
  eq-nil b.tx_buf,
  send_direct-IsInOrder net.send b bytes,
)

-- The calls that the pipeline makes on one connection.
pub data Call : Type 0 where
  forward : Sockets → List ℕ → Call
  flush : SendResult → Call

abbrev pub accepted : List Call → List ℕ
accepted [] = []
accepted (forward net bytes ∷ calls) = bytes ++ accepted calls
accepted (flush answer ∷ calls) = accepted calls

-- A run of the calls to the end of the list, or to a `false`, where the caller closes the session.
abbrev pub run : Backend → List Call → Forwarded
run b [] = record { ok = true; backend = b; wire = [] }
run b (forward net bytes ∷ calls) =
    let f = forward_to_backend net b bytes b.port in
    let rest = run f.backend calls in if f.ok then record rest { wire = f.wire ++ rest.wire } else f
run b (flush answer ∷ calls) =
    let f = flush_backend_tx answer b in
    let rest = run f.backend calls in record rest { wire = f.wire ++ rest.wire }

IsInOrder-trans :
    (b : Backend) (xs ys : List ℕ) (f g : Forwarded)
    → IsInOrder b xs f
    → IsInOrder f.backend ys g
    → IsInOrder b (xs ++ ys) (record g { wire = f.wire ++ g.wire })
IsInOrder-trans b xs ys f g h k = ground (
  arith,
  append_assoc f.wire g.wire g.backend.tx_buf,
  append_assoc f.wire f.backend.tx_buf ys,
  append_assoc b.tx_buf xs ys,
)

-- Over any sequence of forwards and flushes on one open connection that all succeed, whatever the
-- kernel takes of each `send`, what was sent and what waits are together what waited at first and
-- then the forwarded bytes, in order.
pub run-IsInOrder :
    (calls : List Call) (b : Backend) (fd : ℕ)
    → b.fd ≡ some fd
    → (run b calls).ok ≡ true
    → IsInOrder b (accepted calls) (run b calls)
run-IsInOrder [] b fd e h = ground (arith, append-nil b.tx_buf)
run-IsInOrder (forward net bytes ∷ calls) b fd e h = elim (Bool-cases f.ok) [
  | inr n ↦ absurd (ground arith)
  | inl y ↦
      let here = forward_to_backend-IsInOrder net b bytes fd e y in
      ground (
        arith,
        IsInOrder-trans b bytes (accepted calls) f (run f.backend calls) here,
        run-IsInOrder calls f.backend fd,
      )
]
  where
    f : Forwarded
    f = forward_to_backend net b bytes b.port
run-IsInOrder (flush answer ∷ calls) b fd e h =
    IsInOrder-trans b [] (accepted calls) (flush_backend_tx answer b)
      (run (flush_backend_tx answer b).backend calls) here
      (run-IsInOrder calls (flush_backend_tx answer b).backend fd (here.0 ∙ e) h)
  where
    here : IsInOrder b [] (flush_backend_tx answer b)
    here = flush_backend_tx-IsInOrder answer b

-- How many of the bytes have to wait in the buffer.
abbrev pub waiting : SendResult → Backend → List ℕ → ℕ
waiting answer b bytes = if is_empty b.tx_buf then length (untaken answer bytes) else length bytes

send_direct-ok :
    (a : SendResult) (b : Backend) (bytes : List ℕ)
    → length b.tx_buf ≡ 0
    → ((send_direct a b bytes).ok ≡ true)
      ↔ ((a ≢ SendResult.failed) × (length (untaken a bytes) ≤ max_backend_buf))
unfolding send_direct buffer_tail
send_direct-ok SendResult.failed b bytes e = ground arith
send_direct-ok SendResult.again b bytes e = ground arith
send_direct-ok (sent n) b bytes e = ground (arith, length-drop n bytes)

-- `forward_to_backend` on an open connection to the same port returns `true` exactly where there are
-- bytes, the port is not 0, the bytes that have to wait fit into the room of the buffer, and, where
-- no bytes waited before, the `send` does not fail for good.
pub forward_to_backend-ok :
    (net : Sockets) (b : Backend) (bytes : List ℕ) (fd : ℕ)
    → b.fd ≡ some fd
    → ((forward_to_backend net b bytes b.port).ok ≡ true) ↔ (
        (0 < length bytes)
        × (0 < b.port)
        × (length b.tx_buf + waiting net.send b bytes ≤ max_backend_buf)
        × (length b.tx_buf ≡ 0 → net.send ≢ SendResult.failed))
unfolding forward_to_backend append_backlog buffer_tail
forward_to_backend-ok net b bytes fd e = ground (arith, send_direct-ok net.send b bytes)

-- The window is the room of the buffer, cut to 16 bits: so a client that keeps to it can not overflow
-- the buffer, and it is 0 where the buffer is full.
pub recv_window_room :
    (b : Backend)
    → (recv_window b ≤ 65535)
      × (recv_window b + length b.tx_buf ≤ max_backend_buf ⊎ (max_backend_buf < length b.tx_buf))
      × ((recv_window b ≡ 0) ↔ (max_backend_buf ≤ length b.tx_buf))
unfolding recv_window
recv_window_room b = ground arith
