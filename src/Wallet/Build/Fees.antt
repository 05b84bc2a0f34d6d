-- ===== src/Wallet/Build/Fees.antt =====
-- What the transaction of `create_self_transfer` spends and pays, and its fee.
use mathlib.Core.List.{append-nil}
use bitcoin_node_tests.Base.{
  ℕ, zero, suc, ◌-◌, ◌≡◌, refl, sym, ap, ◌∙◌, inl, inr, List, [], ◌∷◌, map, arith, ◌==◌, length,
  replicate, sum_by, sum_by-append, Bool-cases, ==_iff, ◌<◌, ◌*◌, ◌≤◌, if◌then◌else◌, ◌+◌, ◌++◌,
}
use bitcoin_node_tests.Base.Exec.{ok}
use bitcoin_node_tests.Base.Raise.{ok-injective, >>=-eq-ok}
use bitcoin_node_tests.Chain.{OutPoint, TxIn, TxOut, Tx, Btclib}
use bitcoin_node_tests.Wallet.Cache.{Utxo}
use bitcoin_node_tests.Wallet.Build.{
  sequences, TxOptions, inputs, self_transfer_tx, pad_to_vsize, pad_if_asked, padding, pay_self,
  padding_ops, with_output, fee_at_rate, fee_of, less_fee, spend_one, TransferArgs, pos, set_first,
  positive,
}
use bitcoin_node_tests.Base.Int.{neg, ceil_div_lem, ◌*ℤ◌}

-- the value of a transaction's outputs
abbrev pub output_value : Tx → ℕ
output_value tx = sum_by (λ (o : TxOut). o.value) tx.vout

abbrev pub spent_outpoints : Tx → List OutPoint
spent_outpoints tx = map (λ (i : TxIn). i.prev_out) tx.vin

module _ {H : Type 0} (lib : Btclib H) where
  pad_to_vsize-shape :
      (tx tx' : Tx) (target : ℕ)
      → pad_to_vsize lib tx target ≡ ok tx'
      → (ones : ℕ) × (tx' ≡ with_output lib tx (padding lib ones))
  unfolding pad_to_vsize
  pad_to_vsize-shape tx tx' target h =
      (padding_ops lib (target - lib.tx_vsize (with_output lib tx (padding lib 0))), ground arith)

  -- Padding keeps the inputs and the outputs, and adds outputs that are worth nothing.
  pub pad_if_asked-keeps :
      (tx tx' : Tx) (target : ℕ)
      → pad_if_asked lib tx target ≡ ok tx'
      → (tx'.vin ≡ tx.vin)
        × (output_value tx' ≡ output_value tx)
        × (more : List TxOut) × (tx'.vout ≡ tx.vout ++ more)
  unfolding pad_if_asked
  pad_if_asked-keeps tx tx' zero h =
      rw (← ok-injective h) (refl, refl, [], sym (append-nil tx.vout))
  pad_if_asked-keeps tx tx' (suc n) h =
      let (ones, e) = pad_to_vsize-shape tx tx' (suc n) h in
      rw e (
        refl,
        omega (arith, sum_by-append (λ (o : TxOut). o.value) tx.vout (padding lib ones ∷ [])),
        padding lib ones ∷ [],
        refl,
      )

  spent-inputs :
      (us : List Utxo) (ss : List ℕ)
      → length ss ≡ length us
      → map (λ (i : TxIn). i.prev_out) (inputs lib us ss) ≡ map (λ (u : Utxo). u.outpoint) us
  unfolding inputs
  spent-inputs [] ss h = refl
  spent-inputs (u ∷ us) [] h = cc
  spent-inputs (u ∷ us) (s ∷ ss) h = ap (λ r. u.outpoint ∷ r) (spent-inputs us ss (omega arith))

  -- What `_self_transfer_tx` builds.
  pub self_transfer_tx-shape :
      (us : List Utxo) (amount outputs : ℕ) (o : TxOptions) (tx : Tx)
      → self_transfer_tx lib us amount outputs o ≡ ok tx
      → (spent_outpoints tx ≡ map (λ (u : Utxo). u.outpoint) us)
        × (tx.vout ≡ replicate outputs (pay_self lib amount))
  unfolding self_transfer_tx
  self_transfer_tx-shape us amount outputs o tx h =
      elim (Bool-cases (length (sequences o.sequence (length us)) == length us)) [
        | inl p ↦
            let e = ok-injective (rw p at h) in
            rw (← e) (spent-inputs us (sequences o.sequence (length us)) ((==_iff _ _).0 p), refl)
        | inr p ↦ cc (rw p at h)
      ]

  -- How `create_self_transfer` sets its fee, in satoshis: `fee` where it is not zero, else the least
  -- number that is at least `fee_rate` per 1000 virtual bytes of `size`.
  pub record IsFee (fee fee_rate size paid : ℕ) : Type 0 where
    pub fixed : 0 < fee → paid ≡ fee
    pub at_rate : fee ≡ 0 → (fee_rate * size ≤ paid * 1000) × (paid * 1000 < fee_rate * size + 1000)

  -- the size that `fee_rate` is priced at
  abbrev pub priced_size : ℕ → ℕ → ℕ
  priced_size target_vsize vsize = if target_vsize == 0 then vsize else target_vsize

  neg_mul : (r s : ℕ) → neg (pos r) *ℤ pos s ≡ neg (pos (r * s))
  unfolding neg ◌*ℤ◌
  neg_mul r s = ground arith

  fee_at_rate_lem :
      (r target vsize : ℕ)
      → (c : ℕ) × (fee_at_rate (pos r) target vsize ≡ pos c)
        × (r * priced_size target vsize ≤ c * 1000)
        × (c * 1000 < r * priced_size target vsize + 1000)
  fee_at_rate_lem r target vsize =
      let (c, e, lo, hi) = ceil_div_lem (r * priced_size target vsize) 1000 (omega arith) in
      (c, unfold fee_at_rate in rw neg_mul e, lo, hi)

  fee_of_lem :
      (f r target vsize : ℕ)
      → (paid : ℕ) × (fee_of (pos f) (pos r) target vsize ≡ pos paid)
        × IsFee f r (priced_size target vsize) paid
  unfolding fee_of
  fee_of_lem zero r target vsize =
      let (c, e, lo, hi) = fee_at_rate_lem r target vsize in
      (c, e, record { fixed = λ h. absurd (omega arith); at_rate = λ h. (lo, hi) })
  fee_of_lem (suc f) r target vsize =
      (suc f, refl, record { fixed = λ h. refl; at_rate = λ h. absurd (omega arith) })

  less_fee_lem :
      (value paid left : ℕ)
      → less_fee value (pos paid) ≡ ok left
      → (left + paid ≡ value) × (0 < left)
  unfolding less_fee
  less_fee_lem value paid left h = ground arith

  -- The steps of a `create_self_transfer` that returned.
  record SpendOne (a : TransferArgs) (u : Utxo) (tx : Tx) : Type 0 where
    base : Tx
    value : ℕ
    built : self_transfer_tx lib (u ∷ []) 0 1 a.options ≡ ok base
    priced :
        less_fee u.value (fee_of a.fee a.fee_rate a.target_vsize (lib.tx_vsize base)) ≡ ok value
    padded :
        pad_if_asked lib
          (record base { vout = set_first (pay_self lib value) base.vout })
          a.target_vsize
        ≡ ok tx

  spend_one-steps :
      (a : TransferArgs) (u : Utxo) (tx : Tx) → spend_one lib a u ≡ ok tx → SpendOne a u tx
  unfolding spend_one
  spend_one-steps a u tx h =
      let (base, built, h₁) = >>=-eq-ok (self_transfer_tx lib (u ∷ []) 0 1 a.options) _ h in
      let (value, priced, h₂) =
        >>=-eq-ok (less_fee u.value (fee_of a.fee a.fee_rate a.target_vsize (lib.tx_vsize base))) _
          h₁ in
      record { base = base; value = value; built = built; priced = priced; padded = h₂ }

  -- What the padded transaction spends and pays, given what was built.
  paid_to_self :
      (u : Utxo) (value target : ℕ) (o : TxOptions) (base tx : Tx)
      → self_transfer_tx lib (u ∷ []) 0 1 o ≡ ok base
      → pad_if_asked lib (record base { vout = set_first (pay_self lib value) base.vout }) target
        ≡ ok tx
      → (spent_outpoints tx ≡ u.outpoint ∷ []) × (output_value tx ≡ value)
  paid_to_self u value target o base tx built padded =
      let (spent, outs) = self_transfer_tx-shape (u ∷ []) 0 1 o base built in
      let (ins, paid, more, outs') = pad_if_asked-keeps _ tx target padded in
      (ap (map (λ (i : TxIn). i.prev_out)) ins ∙ spent, paid ∙ rw outs (omega arith))

  -- The transaction that create_self_transfer builds around a coin spends that coin alone; what its
  -- outputs pay, padding included, and the fee make up the coin's value; the outputs are worth
  -- something, and the fee is the one asked for or, where that is 0, the least one that meets the
  -- rate, priced at the target size or, without one, at the size of the transaction before it is
  -- padded. The fee and the rate are not negative.
  pub spend_one-conserves :
      (a : TransferArgs) (u : Utxo) (tx : Tx) (f r : ℕ)
      → a.fee ≡ pos f
      → a.fee_rate ≡ pos r
      → spend_one lib a u ≡ ok tx
      → (base : Tx) × (paid : ℕ) × (self_transfer_tx lib (u ∷ []) 0 1 a.options ≡ ok base)
        × IsFee f r (priced_size a.target_vsize (lib.tx_vsize base)) paid
        × (output_value tx + paid ≡ u.value)
        × (0 < output_value tx)
        × (spent_outpoints tx ≡ u.outpoint ∷ [])
  spend_one-conserves a u tx f r ef er h =
      let s = spend_one-steps a u tx h in
      let (spent, total) =
        paid_to_self u s.value a.target_vsize a.options s.base tx s.built s.padded in
      let (paid, e, is_fee) = fee_of_lem f r a.target_vsize (lib.tx_vsize s.base) in
      let priced : less_fee u.value (pos paid) ≡ ok s.value =
        ap (less_fee u.value)
          (sym e ∙ λ i. fee_of (sym ef i) (sym er i) a.target_vsize (lib.tx_vsize s.base))
        ∙ s.priced in
      let (sum, positive) = less_fee_lem u.value paid s.value priced in
      (
        s.base,
        paid,
        s.built,
        is_fee,
        omega (arith, total, sum),
        omega (arith, total, positive),
        spent,
      )
