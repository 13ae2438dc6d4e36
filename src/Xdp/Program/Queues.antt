-- ===== src/Xdp/Program/Queues.antt =====
-- The worker queue that the program redirects a frame to.
use intrusion_detection.Base.{
  ℕ, ◌+◌, ◌%◌, ◌<◌, ◌≡◌, refl, true, List, length, get_elem?, Option, none, some, Option-cases,
  arith, inl, inr,
}
use intrusion_detection.Xdp.Program.Safety.{read_le32-some}
use intrusion_detection.Xdp.Program.{
  xdp_drop, Datarec, XdpContext, XdpOutcome, stats_record_count, read_be16, read_le32, is_fragment,
  dynamic_num_queues, route_ipv4, aethon_xdp_prog_main,
}

dynamic_num_queues-pos : (n : Option ℕ) → 0 < dynamic_num_queues n
dynamic_num_queues-pos none = omega arith
dynamic_num_queues-pos (some n) = ground arith

module _ (ctx : XdpContext) (stats : List Datarec) (p : List ℕ) (o : XdpOutcome) (q : ℕ) where
  route_ipv4-target :
      route_ipv4 ctx stats p ≡ some o
      → o.target_queue ≡ some q
      → (q < dynamic_num_queues ctx.num_queues)
        × (o.action ≡ ctx.redirect_map q)
        × (o.stats ≡ stats_record_count stats (ctx.redirect_map q) (length p))
  unfolding route_ipv4
  route_ipv4-target run e = ground (arith, dynamic_num_queues-pos ctx.num_queues)

-- A frame is redirected only to one of the worker queues, with the action that the redirect returns, under
-- which it is counted.
pub aethon_xdp_prog_main-target :
    (ctx : XdpContext) (stats : List Datarec) (p : List ℕ) (o : XdpOutcome)
    → aethon_xdp_prog_main ctx stats p ≡ some o
    → (q : ℕ) → o.target_queue ≡ some q
    → (q < dynamic_num_queues ctx.num_queues)
      × (o.action ≡ ctx.redirect_map q)
      × (o.stats ≡ stats_record_count stats (ctx.redirect_map q) (length p))
unfolding aethon_xdp_prog_main
aethon_xdp_prog_main-target ctx stats p o run q e =
    ground (arith, route_ipv4-target ctx stats p o q, dynamic_num_queues-pos ctx.num_queues)

-- An IPv4 frame that carries a fragment.
abbrev pub IsIpv4Fragment : List ℕ → Type 0
IsIpv4Fragment p =
    (read_be16 p 12 ≡ some 0x0800) × ((f : ℕ) × (read_be16 p 20 ≡ some f) × (is_fragment f ≡ true))

-- The queue of a fragment is computed from its addresses alone.
fragment-queue :
    (ctx : XdpContext) (stats : List Datarec) (p : List ℕ) (o : XdpOutcome) (q : ℕ)
    → IsIpv4Fragment p
    → aethon_xdp_prog_main ctx stats p ≡ some o
    → o.target_queue ≡ some q
    → (s : ℕ) × (d : ℕ) × (read_le32 p 26 ≡ some s)
      × (read_le32 p 30 ≡ some d)
      × (q ≡ (s + d) % dynamic_num_queues ctx.num_queues)
unfolding aethon_xdp_prog_main route_ipv4
fragment-queue ctx stats p o q (ip, (f, ef, fragment)) run e =
    elim (Option-cases (read_le32 p 26)) [
      | inl none_s ↦ ground arith
      | inr (s, es) ↦ elim (Option-cases (read_le32 p 30)) [
        | inl none_d ↦ ground arith
        | inr (d, ed) ↦ (s, d, es, ed, ground (arith, dynamic_num_queues-pos ctx.num_queues))
      ]
    ]

-- The fragments of a datagram meet: two IPv4 fragments with the same source and destination address
-- that are redirected under the same number of queues go to the same queue, whatever queues of the
-- card they came in by and whatever else they hold.
pub fragments_same_queue :
    (ctx ctx' : XdpContext) (stats stats' : List Datarec) (p p' : List ℕ) (o o' : XdpOutcome)
    (q q' : ℕ)
    → ctx.num_queues ≡ ctx'.num_queues
    → IsIpv4Fragment p
    → IsIpv4Fragment p'
    → read_le32 p 26 ≡ read_le32 p' 26
    → read_le32 p 30 ≡ read_le32 p' 30
    → aethon_xdp_prog_main ctx stats p ≡ some o
    → aethon_xdp_prog_main ctx' stats' p' ≡ some o'
    → o.target_queue ≡ some q
    → o'.target_queue ≡ some q'
    → q ≡ q'
fragments_same_queue ctx ctx' stats stats' p p' o o' q q' n fp fp' es ed run run' eq eq' =
    let (s, d, hs, hd, hq) = fragment-queue ctx stats p o q fp run eq in
    let (s', d', hs', hd', hq') = fragment-queue ctx' stats' p' o' q' fp' run' eq' in
    let ss : s ≡ s' = ground arith in let dd : d ≡ d' = ground arith in rw (hq, hq', ss, dd, n) refl

-- No TCP fragment reaches a worker: a frame that is an IPv4 fragment of protocol 6, with its whole
-- header, is dropped, and counted as dropped.
pub tcp_fragment_dropped :
    (ctx : XdpContext) (stats : List Datarec) (p : List ℕ)
    → 33 < length p
    → IsIpv4Fragment p
    → get_elem? p 23 ≡ some 6
    → aethon_xdp_prog_main ctx stats p
      ≡ some (record {
        action = xdp_drop;
        target_queue = none;
        stats = stats_record_count stats xdp_drop (length p);
      })
unfolding aethon_xdp_prog_main route_ipv4
tcp_fragment_dropped ctx stats p long (ip, (f, ef, fragment)) tcp =
    let (s, es) = read_le32-some p 26 (omega arith) in
    let (d, ed) = read_le32-some p 30 (omega arith) in
    rw (ip, ef, tcp, es, ed, fragment) (ground arith)
