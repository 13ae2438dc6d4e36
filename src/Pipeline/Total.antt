-- ===== src/Pipeline/Total.antt =====
-- `handle_tcp_packet` returns.
use intrusion_detection.Base.{
  ℕ, ◌≡◌, refl, Bool, List, length, Option, none, some, ◌>>=◌, arith, ltb, ◌&&◌, if_both,
}
use intrusion_detection.Tcp.Session.{TcpStreamSession, TcpAssemblyResult}
use intrusion_detection.Tls.Parser.{parse_client_hello}
use intrusion_detection.Tls.Parser.Safety.{parse_client_hello-total}
use intrusion_detection.Pipeline.{World}
use intrusion_detection.Pipeline.Frame.{Env, Frame, Reply, acknowledge, answer_syn}
use intrusion_detection.Pipeline.Hello.{
  Collected, answered, complete, accumulate_hello, check_policy,
}
use intrusion_detection.Pipeline.Relay.{continued}
use intrusion_detection.Pipeline.Packet.{
  unless_answered, serve, finish, inspect, serve_ready, respond,
}

abbrev IsSome {ℓ} : {A : Type ℓ} → Option A → Type ℓ
IsSome {A = A} o = (a : A) × (o ≡ some a)

unless_answered-IsSome :
    (c : Collected) (go : Option TcpStreamSession → List ℕ → Option Reply)
    → ((s : Option TcpStreamSession) (hello : List ℕ) → IsSome (go s hello))
    → IsSome (unless_answered c go)
unless_answered-IsSome (answered r) go h = (r, refl)
unless_answered-IsSome (complete s hello) go h = h s hello

bind-IsSome {ℓ κ} :
    {A : Type ℓ} {B : Type κ} (o : Option A) (f : A → Option B)
    → IsSome o
    → ((a : A) → o ≡ some a → IsSome (f a))
    → IsSome (o >>= f)
bind-IsSome none f h k = absurd (ground arith)
bind-IsSome (some a) f h k = k a refl

inspect-IsSome :
    (env : Env) (f : Frame) (is_closed : Bool) (s : Option TcpStreamSession) (hello : List ℕ)
    (w : World)
    → IsSome (inspect env f is_closed s hello w)
unfolding inspect
inspect-IsSome env f is_closed s hello w =
    bind-IsSome (parse_client_hello hello) _ (parse_client_hello-total hello) (λ info e.
      unless_answered-IsSome (check_policy env f s info hello w) _
        (λ s' bytes. (finish is_closed (serve env f s' bytes w), refl)))

serve_ready-IsSome :
    (env : Env) (f : Frame) (s : Option TcpStreamSession) (r : TcpAssemblyResult) (w : World)
    → IsSome (serve_ready env f s r w)
unfolding serve_ready
serve_ready-IsSome env f s r w =
    if_both IsSome (r.is_ready && ltb 0 (length r.payload)) _
      (some (finish r.is_closed (continued s w)))
      (unless_answered-IsSome (accumulate_hello f s r.payload w) _
        (λ s' hello. inspect-IsSome env f r.is_closed s' hello w))
      (finish r.is_closed (continued s w), refl)

-- What `process_packet` gives is always answered, whatever the data and the answers of the kernel,
-- OpenSSL, the scanner and the registry.
pub respond-total :
    (env : Env) (f : Frame) (s : Option TcpStreamSession) (r : TcpAssemblyResult) (w : World)
    → (a : Reply) × (respond env f s r w ≡ some a)
unfolding respond
respond-total env f none r w = serve_ready-IsSome env f none r w
respond-total env f (some s) r w =
    if_both IsSome r.is_syn (some (answer_syn f s w)) _ (answer_syn f s w, refl)
      (if_both IsSome r.need_ack (some (acknowledge f s w)) (serve_ready env f (some s) r w)
        (acknowledge f s w, refl) (serve_ready-IsSome env f (some s) r w))
