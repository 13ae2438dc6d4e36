-- ===== src/Tcp/Backend.antt =====
-- The backend side of a session (`transport/tcp_assembler.h`): the pending buffer, its flush, the
-- forwarding of data, and the window that the room in the buffer gives. What the kernel answers to
-- `socket`, `send` and `recv` is an argument.
pub mod Stream
mod Tests
use intrusion_detection.Base.{
  ℕ, ◌+◌, ◌-◌, Bool, true, false, ◌||◌, not, ltb, leb, ◌==◌, ◌!=◌, List, [], ◌++◌, length, drop,
  take, Option, none, some, min, if◌then◌else◌,
}

-- The fields of `TcpStreamSession` about the backend; `fd` is none where the code has -1.
pub record Backend : Type 0 where
  pub fd : Option ℕ
  pub port : ℕ
  pub tx_buf : List ℕ
  pub epollout_armed : Bool

abbrev pub max_backend_buf : ℕ
max_backend_buf = 262144

abbrev pub is_open : Option ℕ → Bool
is_open none = false
is_open (some fd) = true

abbrev pub is_empty {ℓ} : {A : Type ℓ} → List A → Bool
is_empty xs = length xs == 0

-- What `send` answers: so many bytes taken; or -1 with EAGAIN, EWOULDBLOCK or EINPROGRESS; or -1
-- with another error.
pub data SendResult : Type 0 where
  sent : ℕ → SendResult
  again failed : SendResult

-- The bytes that the kernel takes from the data of a `send`.
abbrev pub taken : SendResult → List ℕ → List ℕ
taken (sent n) bytes = take n bytes
taken SendResult.again bytes = []
taken SendResult.failed bytes = []

-- The bytes that are left of the data of a `send`.
abbrev pub untaken : SendResult → List ℕ → List ℕ
untaken (sent n) bytes = drop n bytes
untaken SendResult.again bytes = bytes
untaken SendResult.failed bytes = bytes

-- What a call returns, the fields that it leaves, and the bytes that `send` took in it.
pub record Forwarded : Type 0 where
  pub ok : Bool
  pub backend : Backend
  pub wire : List ℕ

unfoldable pub recv_window : Backend → ℕ
recv_window b =
    let used = length b.tx_buf in
    if leb max_backend_buf used then 0 else min 65535 (max_backend_buf - used)

unfoldable pub flush_backend_tx : SendResult → Backend → Forwarded
flush_backend_tx answer b =
    if not (is_open b.fd) || is_empty b.tx_buf
    then record { ok = true; backend = b; wire = [] }
    else record {
      ok = is_empty (untaken answer b.tx_buf);
      backend = record b { tx_buf = untaken answer b.tx_buf };
      wire = taken answer b.tx_buf;
    }

-- The check of the capacity and the insertion, or `false`, behind a `send` that took `wire`.
unfoldable pub buffer_tail : Backend → List ℕ → List ℕ → Forwarded
buffer_tail b wire bytes =
    if ltb max_backend_buf (length b.tx_buf + length bytes)
    then record { ok = false; backend = b; wire = wire }
    else record { ok = true; backend = record b { tx_buf = b.tx_buf ++ bytes }; wire = wire }

-- The branch that opens a connection.
unfoldable pub connect_backend : Option ℕ → Backend → List ℕ → ℕ → Forwarded
connect_backend none b bytes target_port = record {
  ok = false;
  backend = record b { fd = none; tx_buf = [] };
  wire = [];
}
connect_backend (some fd) b bytes target_port =
    buffer_tail (record b { fd = some fd; tx_buf = []; port = target_port }) [] bytes

-- The branch with a backlog.
unfoldable pub append_backlog : SendResult → Backend → List ℕ → Forwarded
append_backlog answer b bytes =
    let buffered = buffer_tail b [] bytes in
    if buffered.ok
    then record (flush_backend_tx answer buffered.backend) { ok = true }
    else buffered

-- The branch that sends at once.
unfoldable pub send_direct : SendResult → Backend → List ℕ → Forwarded
send_direct SendResult.failed b bytes = record { ok = false; backend = b; wire = [] }
send_direct SendResult.again b bytes = buffer_tail b [] bytes
send_direct (sent n) b bytes =
    if ltb n (length bytes)
    then buffer_tail b (take n bytes) (drop n bytes)
    else record { ok = true; backend = b; wire = bytes }

-- What the kernel answers in one call of `forward_to_backend`.
pub record Sockets : Type 0 where
  pub socket : Option ℕ
  pub send : SendResult

unfoldable pub forward_to_backend : Sockets → Backend → List ℕ → ℕ → Forwarded
forward_to_backend net b bytes target_port =
    if is_empty bytes || target_port == 0
    then record { ok = false; backend = b; wire = [] }
    else if not (is_open b.fd) || b.port != target_port
    then connect_backend net.socket b bytes target_port
    else if not (is_empty b.tx_buf)
    then append_backlog net.send b bytes
    else send_direct net.send b bytes

-- `recv` on the backend's socket: none for -1.
unfoldable pub read_from_backend : Option (List ℕ) → Backend → ℕ → Option (List ℕ)
read_from_backend answer b max_len = if not (is_open b.fd) || max_len == 0 then none else answer
