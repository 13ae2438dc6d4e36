-- ===== src/Tls/Connection/States.antt =====
-- The states of a TLS connection over sequences of calls.
use mathlib.Core.Path.{subst}
use intrusion_detection.Base.{
  ℕ, ◌≡◌, sym, ◌⊎◌, inl, inr, refl, Bool, true, false, List, [], ◌∷◌, some, if◌then◌else◌, arith,
}
use intrusion_detection.Tls.Connection.{
  TlsSessionStatus, TlsConnection, blank_connection, is_set, is_status, HandshakeResult, ReadResult,
  plain, Objects, reset, init, step_handshake, decrypt, encrypt,
}

-- The calls that change a connection.
pub data Event : Type 0 where
  on_reset : Event
  on_init : Bool → Objects → Event
  on_handshake : HandshakeResult → Event
  on_decrypt : ReadResult → ℕ → Event

unfoldable pub step : TlsConnection → Event → TlsConnection
step c on_reset = reset c
step c (on_init ctx new) = (init ctx new c).1
step c (on_handshake answer) = (step_handshake answer c).1
step c (on_decrypt answer max_len) = (decrypt answer c max_len).1

-- The connection after a history, its last call first.
abbrev pub after : List Event → TlsConnection
after [] = blank_connection
after (e ∷ history) = step (after history) e

-- The three handles are set or not set together, and they are set in every state but IDLE.
abbrev pub IsValid : TlsConnection → Type 0
IsValid c =
    (is_set c.in_bio ≡ is_set c.ssl)
    × (is_set c.out_bio ≡ is_set c.ssl)
    × (is_status c.status TlsSessionStatus.idle ≡ (if is_set c.ssl then false else true))

pub reset-IsValid : (c : TlsConnection) → IsValid c → IsValid (reset c)
unfolding reset
reset-IsValid c h = ground arith

pub init-IsValid :
    (ctx : Bool) (new : Objects) (c : TlsConnection) → IsValid c → IsValid (init ctx new c).1
unfolding init reset
init-IsValid ctx new c h = ground (arith, reset-IsValid c h)

pub step_handshake-IsValid :
    (a : HandshakeResult) (c : TlsConnection) → IsValid c → IsValid (step_handshake a c).1
unfolding step_handshake
step_handshake-IsValid HandshakeResult.finished c h = ground arith
step_handshake-IsValid HandshakeResult.wants c h = ground arith
step_handshake-IsValid HandshakeResult.broken c h = ground arith

pub decrypt-IsValid :
    (a : ReadResult) (c : TlsConnection) (n : ℕ) → IsValid c → IsValid (decrypt a c n).1
unfolding decrypt
decrypt-IsValid (plain bytes) c n h = ground arith
decrypt-IsValid ReadResult.wants c n h = ground arith
decrypt-IsValid ReadResult.zero_return c n h = ground arith
decrypt-IsValid ReadResult.broken c n h = ground arith

-- After any calls, with any answers of OpenSSL, the connection object and its two buffers are all
-- set or all unset, and they are unset exactly in the state IDLE.
pub after-IsValid : (history : List Event) → IsValid (after history)
unfolding step
after-IsValid [] = (refl, refl, refl)
after-IsValid (on_reset ∷ es) = reset-IsValid (after es) (after-IsValid es)
after-IsValid (on_init ctx new ∷ es) = init-IsValid ctx new (after es) (after-IsValid es)
after-IsValid (on_handshake a ∷ es) = step_handshake-IsValid a (after es) (after-IsValid es)
after-IsValid (on_decrypt a n ∷ es) = decrypt-IsValid a (after es) n (after-IsValid es)

-- The calls that may leave the handshake: `reset` and `init`.
abbrev pub restarts : Event → Bool
restarts on_reset = true
restarts (on_init ctx new) = true
restarts (on_handshake answer) = false
restarts (on_decrypt answer max_len) = false

-- The histories whose last restart is an `init` that got a context and all its objects.
pub data Started : List Event → Type 0 where
  by_init :
      (ctx : Bool) (new : Objects) (es : List Event)
      → ctx ≡ true
      → is_set new.ssl ≡ true
      → is_set new.in_bio ≡ true
      → is_set new.out_bio ≡ true
      → Started (on_init ctx new ∷ es)
  later : (e : Event) (es : List Event) → restarts e ≡ false → Started es → Started (e ∷ es)

-- The histories where a handshake finished behind such an `init`, and nothing restarted since.
pub data Completed : List Event → Type 0 where
  by_handshake :
      (es : List Event) → Started es → Completed (on_handshake HandshakeResult.finished ∷ es)
  later : (e : Event) (es : List Event) → restarts e ≡ false → Completed es → Completed (e ∷ es)

init-status :
    (ctx : Bool) (new : Objects) (c : TlsConnection)
    → (is_status (init ctx new c).1.status TlsSessionStatus.established ≡ false)
      × ((is_status (init ctx new c).1.status TlsSessionStatus.idle ≡ true)
          ⊎ ((ctx ≡ true)
              × (is_set new.ssl ≡ true)
              × (is_set new.in_bio ≡ true)
              × (is_set new.out_bio ≡ true)))
unfolding init reset
init-status ctx new c = ground arith

abbrev IsRunning : TlsConnection → Type 0
IsRunning c = is_status c.status TlsSessionStatus.idle ≡ false

-- No two states are the same.
is_status-idle :
    (x : TlsSessionStatus)
    → is_status x TlsSessionStatus.handshake ≡ true
      ⊎ (is_status x TlsSessionStatus.established ≡ true)
    → is_status x TlsSessionStatus.idle ≡ false
is_status-idle TlsSessionStatus.idle h = ground arith
is_status-idle TlsSessionStatus.handshake h = refl
is_status-idle TlsSessionStatus.established h = refl
is_status-idle TlsSessionStatus.error_state h = refl
is_status-idle TlsSessionStatus.closed h = refl

step_handshake-IsRunning :
    (a : HandshakeResult) (c : TlsConnection) → IsRunning (step_handshake a c).1 → IsRunning c
unfolding step_handshake
step_handshake-IsRunning HandshakeResult.finished c h = ground (arith, is_status-idle c.status)
step_handshake-IsRunning HandshakeResult.wants c h = ground arith
step_handshake-IsRunning HandshakeResult.broken c h = ground (arith, is_status-idle c.status)

decrypt-IsRunning :
    (a : ReadResult) (c : TlsConnection) (n : ℕ) → IsRunning (decrypt a c n).1 → IsRunning c
unfolding decrypt
decrypt-IsRunning (plain bytes) c n h = ground arith
decrypt-IsRunning ReadResult.wants c n h = ground arith
decrypt-IsRunning ReadResult.zero_return c n h = ground (arith, is_status-idle c.status)
decrypt-IsRunning ReadResult.broken c n h = ground (arith, is_status-idle c.status)

after-Started : (history : List Event) → IsRunning (after history) → Started history
unfolding step reset
after-Started [] h = absurd (ground arith)
after-Started (on_reset ∷ es) h = absurd (ground arith)
after-Started (on_init ctx new ∷ es) h = elim (init-status ctx new (after es)).1 [
  | inl y ↦ absurd (ground arith)
  | inr r ↦ Started.by_init ctx new es r.0 r.1 r.2 r.3
]
after-Started (on_handshake a ∷ es) h =
    Started.later (on_handshake a) es refl
      (after-Started es (step_handshake-IsRunning a (after es) h))
after-Started (on_decrypt a n ∷ es) h =
    Started.later (on_decrypt a n) es refl (after-Started es (decrypt-IsRunning a (after es) n h))

abbrev pub IsEstablished : TlsConnection → Type 0
IsEstablished c = is_status c.status TlsSessionStatus.established ≡ true

step_handshake-IsEstablished :
    (a : HandshakeResult) (c : TlsConnection)
    → IsEstablished (step_handshake a c).1
    → IsEstablished c ⊎ ((a ≡ HandshakeResult.finished) × IsRunning c)
unfolding step_handshake
step_handshake-IsEstablished HandshakeResult.finished c h = ground (arith, is_status-idle c.status)
step_handshake-IsEstablished HandshakeResult.wants c h = ground arith
step_handshake-IsEstablished HandshakeResult.broken c h = ground arith

decrypt-IsEstablished :
    (a : ReadResult) (c : TlsConnection) (n : ℕ) → IsEstablished (decrypt a c n).1 → IsEstablished c
unfolding decrypt
decrypt-IsEstablished (plain bytes) c n h = ground arith
decrypt-IsEstablished ReadResult.wants c n h = ground arith
decrypt-IsEstablished ReadResult.zero_return c n h = ground arith
decrypt-IsEstablished ReadResult.broken c n h = ground arith

-- A connection that is established after any calls got there by an `init` with a context and all its
-- objects and then an `SSL_do_handshake` that finished, with no `reset` or `init` since.
pub after-Completed : (history : List Event) → IsEstablished (after history) → Completed history
unfolding step reset
after-Completed [] h = absurd (ground arith)
after-Completed (on_reset ∷ es) h = absurd (ground arith)
after-Completed (on_init ctx new ∷ es) h = absurd (ground (arith, init-status ctx new (after es)))
after-Completed (on_handshake a ∷ es) h = elim (step_handshake-IsEstablished a (after es) h) [
  | inl e ↦ Completed.later (on_handshake a) es refl (after-Completed es e)
  | inr r ↦
      subst (λ b. Completed (on_handshake b ∷ es)) (sym r.0)
        (Completed.by_handshake es (after-Started es r.1))
]
after-Completed (on_decrypt a n ∷ es) h =
    Completed.later (on_decrypt a n) es refl
      (after-Completed es (decrypt-IsEstablished a (after es) n h))

-- After any history of calls on a new connection, plain bytes come out of `decrypt`, or bytes go to
-- `SSL_write` in `encrypt`, only where an `init` with a context and all its objects was followed by a
-- handshake that finished, and no `reset` or `init` came after either.
pub decrypt-Completed :
    (history : List Event) (a : ReadResult) (max_len : ℕ) (x : ℕ) (bytes : List ℕ)
    → ((decrypt a (after history) max_len).0 ≡ some (x ∷ bytes))
      ⊎ (encrypt (after history) (x ∷ bytes) ≡ some (x ∷ bytes))
    → Completed history
unfolding decrypt encrypt
decrypt-Completed history a max_len x bytes h = after-Completed history (ground arith)
