-- ===== src/Xdp/Program.antt =====
-- `aethon_xdp_prog_main` and `stats_record_count`, on the bytes between `data` and `data_end`. The
-- limiters are not called: their block is commented out in the source.
pub mod Safety
pub mod Queues
use intrusion_detection.Base.{
  ℕ, zero, suc, ◌+◌, ◌*◌, ◌/◌, ◌%◌, ◌^◌, Bool, true, false, not, ◌&&◌, ◌||◌, ltb, leb, ◌==◌, ◌!=◌,
  List, [], ◌∷◌, length, get_elem?, Option, none, some, ◌>>=◌, if◌then◌else◌,
}

-- The fixed return codes of XDP.
abbrev pub xdp_drop : ℕ
xdp_drop = 1

abbrev pub xdp_pass : ℕ
xdp_pass = 2

pub record Datarec : Type 0 where
  pub rx_packets : ℕ
  pub rx_bytes : ℕ

-- `queue_config_map` at 0, the queue that the packet came in by, and `bpf_redirect_map` on
-- `aethon_xsks_map`, which returns an action for a queue.
pub record XdpContext : Type 0 where
  pub num_queues : Option ℕ
  pub rx_queue_index : ℕ
  pub redirect_map : ℕ → ℕ

-- The action, the queue when the packet is redirected, and the counters.
pub record XdpOutcome : Type 0 where
  pub action : ℕ
  pub target_queue : Option ℕ
  pub stats : List Datarec

abbrev pub count_datarec : ℕ → Datarec → Datarec
count_datarec bytes rec = record {
  rx_packets = (rec.rx_packets + 1) % 2 ^ 64;
  rx_bytes = (rec.rx_bytes + bytes) % 2 ^ 64;
}

-- A key past the end of the array is not found.
abbrev pub stats_record_count : List Datarec → ℕ → ℕ → List Datarec
stats_record_count [] action bytes = []
stats_record_count (rec ∷ stats) zero bytes = count_datarec bytes rec ∷ stats
stats_record_count (rec ∷ stats) (suc action) bytes = rec ∷ stats_record_count stats action bytes

-- Reads of a network word and of a word of the machine.
unfoldable pub read_be16 : List ℕ → ℕ → Option ℕ
read_be16 p i = get_elem? p i >>= (λ a. get_elem? p (i + 1) >>= (λ b. some (a * 256 + b)))

unfoldable pub read_le32 : List ℕ → ℕ → Option ℕ
read_le32 p i = get_elem? p i >>= (λ a. get_elem? p (i + 1) >>= (λ b.
    get_elem? p (i + 2)
    >>= (λ c. get_elem? p (i + 3) >>= (λ d. some (a + 256 * b + 65536 * c + 16777216 * d)))))

abbrev pub is_fragment : ℕ → Bool
is_fragment frag_off = (frag_off % 0x4000 != 0) || (frag_off / 0x2000 % 2 != 0)

abbrev pub dynamic_num_queues : Option ℕ → ℕ
dynamic_num_queues none = 1
dynamic_num_queues (some n) = if ltb 0 n then n else 1

-- The label `out`.
abbrev pub finish : List Datarec → List ℕ → ℕ → Option ℕ → XdpOutcome
finish stats p action queue = record {
  action = action;
  target_queue = queue;
  stats = stats_record_count stats action (length p);
}

abbrev pub redirect : XdpContext → List Datarec → List ℕ → ℕ → XdpOutcome
redirect ctx stats p queue =
    let target = if leb (dynamic_num_queues ctx.num_queues) queue then 0 else queue in
    finish stats p (ctx.redirect_map target) (some target)

-- The attack check and the routing of an IPv4 packet whose header is inside the frame.
unfoldable pub route_ipv4 : XdpContext → List Datarec → List ℕ → Option XdpOutcome
route_ipv4 ctx stats p = read_be16 p 20 >>= (λ frag_off. get_elem? p 23 >>= (λ protocol.
    read_le32 p 26 >>= (λ saddr. read_le32 p 30 >>= (λ daddr.
      if is_fragment frag_off && (protocol == 6)
      then some (finish stats p xdp_drop none)
      else if is_fragment frag_off
      then some (redirect ctx stats p ((saddr + daddr) % dynamic_num_queues ctx.num_queues))
      else some (redirect ctx stats p (ctx.rx_queue_index % dynamic_num_queues ctx.num_queues))))))

-- A return that counts nothing.
abbrev pub dropped : List Datarec → XdpOutcome
dropped stats = record { action = xdp_drop; target_queue = none; stats = stats }

unfoldable pub aethon_xdp_prog_main : XdpContext → List Datarec → List ℕ → Option XdpOutcome
aethon_xdp_prog_main ctx stats p =
    if ltb (length p) 14
    then some (dropped stats)
    else read_be16 p 12 >>= (λ h_proto.
      if h_proto == 0x0800
      then if ltb (length p) 34 then some (dropped stats) else route_ipv4 ctx stats p
      else if h_proto == 0x86DD
      then if ltb (length p) 54
        then some (dropped stats)
        else some (redirect ctx stats p (ctx.rx_queue_index % dynamic_num_queues ctx.num_queues))
      else some (finish stats p xdp_pass none))
