-- ===== src/Tls/Connection.antt =====
-- `TlsConnection` of src/main/tls/tls_engine.h: the state machine around an OpenSSL connection. The
-- pointers are handles; what OpenSSL answers to each call is an argument.
pub mod States
pub mod Stages
mod Tests
use intrusion_detection.Base.{
  ℕ, Bool, true, false, ◌||◌, ◌&&◌, not, ◌==◌, List, [], length, Option, none, some, if◌then◌else◌,
}

pub data TlsSessionStatus : Type 0 where
  idle handshake established error_state closed : TlsSessionStatus

abbrev pub is_status : TlsSessionStatus → TlsSessionStatus → Bool
is_status TlsSessionStatus.idle TlsSessionStatus.idle = true
is_status TlsSessionStatus.handshake TlsSessionStatus.handshake = true
is_status TlsSessionStatus.established TlsSessionStatus.established = true
is_status TlsSessionStatus.error_state TlsSessionStatus.error_state = true
is_status TlsSessionStatus.closed TlsSessionStatus.closed = true
is_status _ _ = false

pub record TlsConnection : Type 0 where
  pub ssl : Option ℕ
  pub in_bio : Option ℕ
  pub out_bio : Option ℕ
  pub status : TlsSessionStatus

abbrev pub is_set : Option ℕ → Bool
is_set none = false
is_set (some p) = true

abbrev pub blank_connection : TlsConnection
blank_connection = record {
  ssl = none;
  in_bio = none;
  out_bio = none;
  status = TlsSessionStatus.idle;
}

-- What `SSL_do_handshake` comes to: 1; or SSL_ERROR_WANT_READ or SSL_ERROR_WANT_WRITE; or another
-- error.
pub data HandshakeResult : Type 0 where
  finished wants broken : HandshakeResult

-- What `SSL_read` comes to: bytes; or one of the two WANT errors; or SSL_ERROR_ZERO_RETURN; or
-- another error.
pub data ReadResult : Type 0 where
  plain : List ℕ → ReadResult
  wants zero_return broken : ReadResult

-- What `SSL_new` and the two `BIO_new` give to one `init`.
pub record Objects : Type 0 where
  pub ssl : Option ℕ
  pub in_bio : Option ℕ
  pub out_bio : Option ℕ

unfoldable pub reset : TlsConnection → TlsConnection
reset c = if is_set c.ssl then blank_connection else record c { status = TlsSessionStatus.idle }

-- `operator=` from another object: what `this` and `other` are then.
unfoldable pub move_assign : TlsConnection → TlsConnection → TlsConnection × TlsConnection
move_assign c other = (other, blank_connection)

-- The constructor that moves: the new object, and what `other` is then.
unfoldable move_new : TlsConnection → TlsConnection × TlsConnection
move_new other = (other, blank_connection)

-- The handles that `init` sets before it looks at the buffers.
abbrev pub with_objects : TlsConnection → Objects → TlsConnection
with_objects c new = record c { ssl = new.ssl; in_bio = new.in_bio; out_bio = new.out_bio }

unfoldable pub init : Bool → Objects → TlsConnection → Bool × TlsConnection
init ctx new c =
    let clean = reset c in
    let made = with_objects clean new in
    if not ctx
    then (false, clean)
    else if not (is_set new.ssl)
    then (false, record clean { ssl = none })
    else if not (is_set new.in_bio) || not (is_set new.out_bio)
    then (false, reset made)
    else (true, record made { status = TlsSessionStatus.handshake })

-- The bytes that `BIO_write` gets: none where it is not called and 0 is returned.
unfoldable pub feed_network_data : TlsConnection → List ℕ → Option (List ℕ)
feed_network_data c bytes = if not (is_set c.in_bio) || length bytes == 0 then none else some bytes

unfoldable pub step_handshake : HandshakeResult → TlsConnection → Bool × TlsConnection
step_handshake answer c =
    if not (is_set c.ssl) || not (is_status c.status TlsSessionStatus.handshake)
    then (false, c)
    else elim answer [
      | HandshakeResult.finished ↦ (true, record c { status = TlsSessionStatus.established })
      | HandshakeResult.wants ↦ (true, c)
      | HandshakeResult.broken ↦ (false, record c { status = TlsSessionStatus.error_state })
    ]

-- The bytes that `BIO_read` gives, of which there are none where it fails.
unfoldable pub read_pending_tx : List ℕ → TlsConnection → ℕ → List ℕ
read_pending_tx answer c max_len = if not (is_set c.out_bio) || max_len == 0 then [] else answer

-- The plain bytes, none where the code returns -1.
unfoldable pub decrypt : ReadResult → TlsConnection → ℕ → Option (List ℕ) × TlsConnection
decrypt answer c max_len =
    if not (is_set c.ssl) || (not (is_status c.status TlsSessionStatus.established) || max_len == 0)
    then (some [], c)
    else elim answer [
      | plain bytes ↦ (some bytes, c)
      | ReadResult.wants ↦ (some [], c)
      | ReadResult.zero_return ↦ (some [], record c { status = TlsSessionStatus.closed })
      | ReadResult.broken ↦ (none, record c { status = TlsSessionStatus.error_state })
    ]

-- The bytes that `SSL_write` gets: none where it is not called and 0 is returned.
unfoldable pub encrypt : TlsConnection → List ℕ → Option (List ℕ)
encrypt c bytes =
    if not (is_set c.ssl)
      || (not (is_status c.status TlsSessionStatus.established) || length bytes == 0)
    then none
    else some bytes
