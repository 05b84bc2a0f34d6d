-- ===== src/Adapter/Ports.antt =====
-- src/bitcoin_node_tests/node.py: `_PORTS`, `_worker_block` and `_PortCursor`. A block of ports is its
-- first port and its size.
pub mod Walk
pub mod Draw
pub mod Blocks
use bitcoin_node_tests.Base.Raise.{◌>>=◌}
use bitcoin_node_tests.Base.{
  ℕ, zero, suc, ◌+◌, ◌-◌, ◌*◌, ◌≤◌, ◌<◌, ◌≡◌, ◌≢◌, refl, sym, ap, ◌∙◌, ◌↔◌, ◌⊎◌, inl, inr, Bool,
  true, false, not, ◌&&◌, ◌||◌, Option, none, some, List, [], ◌∷◌, ◌++◌, map, arith, All,
  Bool-cases, if◌then◌else◌, ◌%◌, ◌/◌, length, ltb, ◌==◌, head?,
}
use bitcoin_node_tests.Base.Bytes.{Text}
use bitcoin_node_tests.Base.Exec.{
  Result, err, ok, runtime_error, zero_division, or_raise, index_error,
}

-- a `range` of ports
pub record Ports : Type 0 where
  pub first : ℕ
  pub size : ℕ

-- `_PORTS`
abbrev pub all_ports : Ports
all_ports = record { first = 26000; size = 6768 }

-- `str.isdecimal`, and `int` of a text, which may raise
pub record Numerals : Type 0 where
  pub is_decimal : Text → Bool
  pub int : Text → Result ℕ

-- `worker.removeprefix("gw")`
unfoldable pub without_gw : Text → Text
without_gw (a ∷ b ∷ rest) = if a == 103 && b == 119 then rest else a ∷ b ∷ rest
without_gw t = t

-- `environ.get(key, default)`
abbrev pub or_default : Option Text → Text → Text
or_default none d = d
or_default (some t) d = t

-- `_PORTS[index * size : (index + 1) * size]`, where `size` is the share of a worker
unfoldable pub share_of : ℕ → ℕ → Ports
share_of workers index =
    let size = all_ports.size / workers in
    record { first = all_ports.first + index * size; size = size }

-- the block of a numbered worker: `index % workers` raises for no workers
abbrev pub block_of : ℕ → ℕ → Result Ports
block_of zero worker = err zero_division
block_of (suc n) worker = ok (share_of (suc n) (worker % suc n))

-- `_worker_block`, of the two variables of the environment
unfoldable pub worker_block : Numerals → Option Text → Option Text → Result Ports
unfolding without_gw share_of
worker_block py worker count =
    let name = without_gw (or_default worker []) in
    if py.is_decimal name
    then (py.int (or_default count (49 ∷ [])) >>= λ workers.
        py.int name >>= λ n. block_of workers n)
    else ok all_ports

-- `_PortCursor`
pub record PortCursor : Type 0 where
  pub block : Ports
  pub next : ℕ

-- `(self._next + 1) % len(self._block)`
abbrev pub advance : PortCursor → PortCursor
advance c = record c { next = (c.next + 1) % c.block.size }

module _ {W : Type 0} (bind : ℕ → W → Bool × W) where
  -- The loop of `take` with the rounds left, once it has found the ports. A probe binds the port and
  -- closes it again.
  unfoldable pub walk : ℕ → ℕ → List ℕ → PortCursor → W → List ℕ × PortCursor × W
  walk zero count found c w = (found, c, w)
  walk (suc rounds) count found c w =
      if length found == count
      then (found, c, w)
      else let port = c.block.first + c.next in
        let (free, v) = bind port w in
        walk rounds count (if free then found ++ port ∷ [] else found) (advance c) v

  -- `_PortCursor.take`
  unfoldable pub take_ports : ℕ → PortCursor → W → Result (List ℕ) × PortCursor × W
  unfolding walk
  take_ports count c w =
      let (found, c', v) = walk c.block.size count [] c w in
      (if ltb (length found) count then err runtime_error else ok found, c', v)

  -- `free_ports`, over the cursor of the process
  unfoldable pub free_ports : ℕ → PortCursor → W → Result (List ℕ) × PortCursor × W
  unfolding take_ports
  free_ports count c w = take_ports count c w

  -- `free_port`: `free_ports(1)[0]`
  unfoldable pub free_port : PortCursor → W → Result ℕ × PortCursor × W
  unfolding free_ports
  free_port c w =
      let (ports, c', v) = free_ports 1 c w in
      (ports >>= λ ps. or_raise (head? ps) index_error, c', v)
