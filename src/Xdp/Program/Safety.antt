-- ===== src/Xdp/Program/Safety.antt =====
-- The reads of `aethon_xdp_prog_main`.
use intrusion_detection.Base.{
  ℕ, ◌+◌, ◌*◌, ◌<◌, ◌≡◌, refl, List, length, get_elem?-some, some, arith,
}
use intrusion_detection.Xdp.Program.{read_le32}

pub read_le32-some : (p : List ℕ) (i : ℕ) → i + 3 < length p → (x : ℕ) × (read_le32 p i ≡ some x)
unfolding read_le32
read_le32-some p i h =
    let (a, ea) = get_elem?-some p i (omega arith) in
    let (b, eb) = get_elem?-some p (i + 1) (omega arith) in
    let (c, ec) = get_elem?-some p (i + 2) (omega arith) in
    let (d, ed) = get_elem?-some p (i + 3) h in
    (a + 256 * b + 65536 * c + 16777216 * d, rw (ea, eb, ec, ed) refl)
