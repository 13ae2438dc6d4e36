-- ===== src/Pipeline/Bounds.antt =====
-- The invariant of the pipeline's fields of a session, and what keeps it.
use intrusion_detection.Base.{
  ℕ, ◌^◌, ◌≤◌, ◌<◌, refl, true, List, ◌++◌, length, Option, none, some, arith, OnSome, if_both,
  length-append,
}
use intrusion_detection.Tcp.Backend.Stream.{IsBounded}
use intrusion_detection.Tcp.Session.{TcpStreamSession, Flow, blank_flow}
use intrusion_detection.Tls.Connection.States.{IsValid, init-IsValid}
use intrusion_detection.Tls.Parser.{TlsParseResult}
use intrusion_detection.Pipeline.{World}
use intrusion_detection.Pipeline.Frame.{
  ServiceConfig, Env, Frame, Fate, kept, closed, absent, Reply, refuse, acknowledge, answer_syn,
  with_flow, with_macs,
}
use intrusion_detection.Pipeline.Hello.{
  Collected, answered, complete, collect, accumulate_hello, max_client_hello, service_of, start_tls,
  open_tls, check_policy,
}

-- At most a record of the largest size waits in `client_hello_buf`, at most 256 KiB wait for the
-- backend, the TLS connection is in order, and `send_nxt` is a 32-bit word.
pub record IsValidFlow (flow : Flow) : Type 0 where
  pub hello : length flow.client_hello_buf ≤ max_client_hello
  pub backend : IsBounded flow.backend
  pub tls : IsValid flow.tls_conn
  pub nxt : flow.send_nxt < 2 ^ 32

pub blank_flow-IsValidFlow : IsValidFlow blank_flow
blank_flow-IsValidFlow = record {
  hello = omega arith;
  backend = omega arith;
  tls = (refl, refl, refl);
  nxt = omega arith;
}

abbrev pub IsValidFate : Fate → Type 0
IsValidFate (kept s) = IsValidFlow s.flow
IsValidFate closed = Unit
IsValidFate absent = Unit

abbrev pub IsValidSession : TcpStreamSession → Type 0
IsValidSession s = IsValidFlow s.flow

-- The same of a part that ends with an answer or goes on.
unfoldable pub IsValidCollected : Collected → Type 0
IsValidCollected (answered r) = IsValidFate r.fate
IsValidCollected (complete s hello) = OnSome IsValidSession s

pub answered-IsValidCollected : (r : Reply) → IsValidFate r.fate → IsValidCollected (answered r)
unfolding IsValidCollected
answered-IsValidCollected r h = h

pub complete-IsValidCollected :
    (s : Option TcpStreamSession) (hello : List ℕ)
    → OnSome IsValidSession s
    → IsValidCollected (complete s hello)
unfolding IsValidCollected
complete-IsValidCollected s hello h = h

pub refuse-IsValidFate : (f : Frame) (w : World) → IsValidFate (refuse f w).fate
unfolding refuse
refuse-IsValidFate f w = tt

pub acknowledge-IsValidFate :
    (f : Frame) (s : TcpStreamSession) (w : World)
    → IsValidSession s
    → IsValidFate (acknowledge f s w).fate
unfolding acknowledge
acknowledge-IsValidFate f s w h = h

pub answer_syn-IsValidFate :
    (f : Frame) (s : TcpStreamSession) (w : World)
    → IsValidSession s
    → IsValidFate (answer_syn f s w).fate
unfolding answer_syn
answer_syn-IsValidFate f s w h = record {
  hello = h.hello;
  backend = h.backend;
  tls = h.tls;
  nxt = omega arith;
}

collect-IsValidCollected :
    (f : Frame) (s : TcpStreamSession) (hello : List ℕ) (w : World)
    → IsValidSession s
    → length hello ≤ max_client_hello
    → IsValidCollected (collect f s hello w)
unfolding collect
collect-IsValidCollected f s hello w h few = ground (
  arith,
  answered-IsValidCollected (refuse f w) (refuse-IsValidFate f w),
  answered-IsValidCollected (acknowledge f grown w) (acknowledge-IsValidFate f grown w valid),
  complete-IsValidCollected (some grown) hello valid,
)
  where
    grown : TcpStreamSession
    grown = with_flow s (record s.flow { client_hello_buf = hello })

    valid : IsValidSession grown
    valid = record { hello = few; backend = h.backend; tls = h.tls; nxt = h.nxt }

pub accumulate_hello-IsValidCollected :
    (f : Frame) (s : Option TcpStreamSession) (payload : List ℕ) (w : World)
    → OnSome IsValidSession s
    → IsValidCollected (accumulate_hello f s payload w)
unfolding accumulate_hello
accumulate_hello-IsValidCollected f none payload w h = complete-IsValidCollected none payload tt
accumulate_hello-IsValidCollected f (some s) payload w h = ground (
  arith,
  answered-IsValidCollected (refuse f w) (refuse-IsValidFate f w),
  complete-IsValidCollected (some s) payload h,
  length-append s.flow.client_hello_buf payload,
  collect-IsValidCollected f s (s.flow.client_hello_buf ++ payload) w h,
)

start_tls-IsValidFlow :
    (env : Env) (svc : Option ServiceConfig) (flow : Flow)
    → IsValidFlow flow
    → IsValidFlow (start_tls env svc flow)
unfolding start_tls
start_tls-IsValidFlow env none flow h = h
start_tls-IsValidFlow env (some svc) flow h =
    if_both IsValidFlow svc.has_ctx _ flow
      (record {
        hello = h.hello;
        backend = h.backend;
        tls = init-IsValid true env.objects flow.tls_conn h.tls;
        nxt = h.nxt;
      })
      h

with_macs-IsValidFlow :
    (f : Frame) (flow : Flow) → IsValidFlow flow → IsValidFlow (with_macs f flow)
with_macs-IsValidFlow f flow h = record {
  hello = h.hello;
  backend = h.backend;
  tls = h.tls;
  nxt = h.nxt;
}

open_tls-IsValidSession :
    (env : Env) (f : Frame) (sni : List ℕ) (s : TcpStreamSession)
    → IsValidSession s
    → IsValidSession (open_tls env f sni s)
unfolding open_tls
open_tls-IsValidSession env f sni s h =
    with_macs-IsValidFlow f (start_tls env svc s.flow) (start_tls-IsValidFlow env svc s.flow h)
  where
    svc : Option ServiceConfig
    svc = service_of env f sni

pub check_policy-IsValidCollected :
    (env : Env) (f : Frame) (s : Option TcpStreamSession) (info : TlsParseResult) (hello : List ℕ)
    (w : World)
    → OnSome IsValidSession s
    → IsValidCollected (check_policy env f s info hello w)
unfolding check_policy
check_policy-IsValidCollected env f none info hello w h = ground (
  arith,
  answered-IsValidCollected (refuse f w) (refuse-IsValidFate f w),
  complete-IsValidCollected none hello tt,
)
check_policy-IsValidCollected env f (some s) info hello w h = ground (
  arith,
  answered-IsValidCollected (refuse f w) (refuse-IsValidFate f w),
  complete-IsValidCollected (some s) hello h,
  complete-IsValidCollected (some (open_tls env f info.sni s)) hello
      (open_tls-IsValidSession env f info.sni s h),
)
