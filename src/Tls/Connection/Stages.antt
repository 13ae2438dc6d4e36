-- ===== src/Tls/Connection/Stages.antt =====
-- The order in which a TLS connection goes through its states.
use intrusion_detection.Base.{ℕ, ◌≡◌, ◌⊎◌, ◌<◌, refl, true, false, arith}
use intrusion_detection.Tls.Connection.{
  TlsSessionStatus, TlsConnection, is_status, HandshakeResult, ReadResult, plain, step_handshake,
  decrypt,
}
use intrusion_detection.Tls.Connection.States.{
  Event, on_reset, on_init, on_handshake, on_decrypt, step, restarts,
}

-- The order of the states.
abbrev pub stage : TlsSessionStatus → ℕ
stage TlsSessionStatus.idle = 0
stage TlsSessionStatus.handshake = 1
stage TlsSessionStatus.established = 2
stage TlsSessionStatus.error_state = 3
stage TlsSessionStatus.closed = 3

abbrev pub Advances : TlsConnection → TlsConnection → Type 0
Advances c d = (d ≡ c) ⊎ ((stage c.status < stage d.status) × (0 < stage c.status))

stage_handshake :
    (x : TlsSessionStatus) → is_status x TlsSessionStatus.handshake ≡ true → stage x ≡ 1
stage_handshake TlsSessionStatus.idle h = ground arith
stage_handshake TlsSessionStatus.handshake h = refl
stage_handshake TlsSessionStatus.established h = ground arith
stage_handshake TlsSessionStatus.error_state h = ground arith
stage_handshake TlsSessionStatus.closed h = ground arith

stage_established :
    (x : TlsSessionStatus) → is_status x TlsSessionStatus.established ≡ true → stage x ≡ 2
stage_established TlsSessionStatus.idle h = ground arith
stage_established TlsSessionStatus.handshake h = ground arith
stage_established TlsSessionStatus.established h = refl
stage_established TlsSessionStatus.error_state h = ground arith
stage_established TlsSessionStatus.closed h = ground arith

step_handshake-Advances :
    (a : HandshakeResult) (c : TlsConnection) → Advances c (step_handshake a c).1
unfolding step_handshake
step_handshake-Advances HandshakeResult.finished c = ground (arith, stage_handshake c.status)
step_handshake-Advances HandshakeResult.wants c = ground arith
step_handshake-Advances HandshakeResult.broken c = ground (arith, stage_handshake c.status)

decrypt-Advances : (a : ReadResult) (c : TlsConnection) (n : ℕ) → Advances c (decrypt a c n).1
unfolding decrypt
decrypt-Advances (plain bytes) c n = ground arith
decrypt-Advances ReadResult.wants c n = ground arith
decrypt-Advances ReadResult.zero_return c n = ground (arith, stage_established c.status)
decrypt-Advances ReadResult.broken c n = ground (arith, stage_established c.status)

-- A call other than `reset` and `init` leaves the connection as it is or moves it forward from a
-- state that is not IDLE: IDLE is left by `init` only, and ERROR_STATE and CLOSED are final until
-- then.
pub step-Advances : (c : TlsConnection) (e : Event) → restarts e ≡ false → Advances c (step c e)
unfolding step
step-Advances c on_reset h = absurd (ground arith)
step-Advances c (on_init ctx new) h = absurd (ground arith)
step-Advances c (on_handshake a) h = step_handshake-Advances a c
step-Advances c (on_decrypt a n) h = decrypt-Advances a c n
