-- ===== src/Adapter/Ports/Blocks.antt =====
-- The blocks of ports that `_worker_block` gives to the workers of one run.
use bitcoin_node_tests.Base.{
  ℕ, suc, ◌+◌, ◌*◌, ◌≤◌, ◌<◌, ◌≡◌, refl, ap, true, Option, [], ◌∷◌, arith, ◌/◌,
}
use native.Mathlib.Nat.{mul-le-mul_right, mod-eq_of_lt, div-add-mod'}
use bitcoin_node_tests.Adapter.Ports.{
  Numerals, share_of, worker_block, Ports, all_ports, without_gw, or_default,
}
use bitcoin_node_tests.Adapter.Ports.Draw.{InBlock}
use bitcoin_node_tests.Base.Bytes.{Text}
use bitcoin_node_tests.Base.Exec.{ok}

-- `k` shares fit into the ports where `k` is at most the workers' number
shares-le : (i k s : ℕ) → i < k → i * s + s ≤ k * s
shares-le i k s h =
    let more : (i + 1) * s ≤ k * s = mul-le-mul_right s (omega arith) in omega (arith, more)

share_of-InBlock :
    (workers index p : ℕ)
    → index < workers
    → InBlock (share_of workers index) p
    → InBlock all_ports p
unfolding share_of
share_of-InBlock workers index p h (a, b) = (
  omega (arith, a),
  omega (arith, b, shares-le index workers (6768 / workers) h, div-add-mod' 6768 workers),
)

size_of : (workers i : ℕ) → (share_of workers i).size ≡ 6768 / workers
unfolding share_of
size_of workers i = refl

share_of-disjoint :
    (workers i j p : ℕ) → i < j → InBlock (share_of workers i) p → ¬ InBlock (share_of workers j) p
unfolding share_of
share_of-disjoint workers i j p h (a, b) (c, d) =
    omega (arith, b, c, shares-le i j (6768 / workers) h)

-- A worker of a run, by the two variables of its environment: its number, and how many there are.
pub record IsWorker (py : Numerals) (worker count : Option Text) (workers n : ℕ) : Type 0 where
  pub decimal : py.is_decimal (without_gw (or_default worker [])) ≡ true
  pub number : py.int (without_gw (or_default worker [])) ≡ ok n
  pub total : py.int (or_default count (49 ∷ [])) ≡ ok (suc workers)

worker_block-share_of :
    (py : Numerals) (worker count : Option Text) (workers n : ℕ)
    → IsWorker py worker count workers n
    → n < suc workers
    → worker_block py worker count ≡ ok (share_of (suc workers) n)
unfolding worker_block
worker_block-share_of py worker count workers n w h =
    rw (w.decimal, w.total, w.number) (ap (λ i. ok (share_of (suc workers) i)) (mod-eq_of_lt h))

-- Two workers of one run, numbered below the count of workers, draw from blocks of one size, 6768
-- by the count of workers, that have no port in common, the first all inside _PORTS.
pub worker_block-disjoint :
    (py : Numerals) (worker worker' count : Option Text) (workers n n' : ℕ)
    → IsWorker py worker count workers n
    → IsWorker py worker' count workers n'
    → n < n'
    → n' < suc workers
    → (b : Ports) × (b' : Ports) × (worker_block py worker count ≡ ok b)
      × (worker_block py worker' count ≡ ok b')
      × ((p : ℕ) → InBlock b p → InBlock all_ports p × ¬ InBlock b' p)
      × (b.size ≡ 6768 / suc workers)
      × (b'.size ≡ 6768 / suc workers)
worker_block-disjoint py worker worker' count workers n n' w w' h k =
    let low : n < suc workers = omega arith in
    (
      share_of (suc workers) n,
      share_of (suc workers) n',
      worker_block-share_of py worker count workers n w low,
      worker_block-share_of py worker' count workers n' w' k,
      (λ p a.
          (share_of-InBlock (suc workers) n p low a, share_of-disjoint (suc workers) n n' p h a)),
      size_of (suc workers) n,
      size_of (suc workers) n',
    )
