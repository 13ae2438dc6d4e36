-- ===== src/Tls/Connection/Tests.antt =====
-- Runs of the TLS connection at concrete inputs.
use intrusion_detection.Base.{◌≡◌, refl, inl, true, List, [], ◌∷◌, some}
use intrusion_detection.Tls.Connection.{
  HandshakeResult, ReadResult, plain, init, reset, step_handshake, decrypt,
}
use intrusion_detection.Tls.Connection.States.{
  Event, on_init, on_handshake, on_decrypt, step, after, Completed, decrypt-Completed,
}
use intrusion_detection.Tls.Connection.Stages.{Advances, step-Advances}

-- An `init` with all objects, and a handshake in two rounds; the last call is first.
abbrev history : List Event
history =
    on_handshake HandshakeResult.finished
    ∷ on_handshake HandshakeResult.wants
    ∷ on_init true (record { ssl = some 1; in_bio = some 2; out_bio = some 3 })
    ∷ []

decrypts : (decrypt (plain (7 ∷ [])) (after history) 16384).0 ≡ some (7 ∷ [])
unfolding decrypt step init reset step_handshake
decrypts = refl

decrypt-Completed_example : Completed history
decrypt-Completed_example = decrypt-Completed history (plain (7 ∷ [])) 16384 7 [] (inl decrypts)

step-Advances_example :
    Advances (after history) (step (after history) (on_decrypt ReadResult.zero_return 16384))
step-Advances_example = step-Advances (after history) (on_decrypt ReadResult.zero_return 16384) refl
