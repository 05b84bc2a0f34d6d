-- ===== src/Wallet/Build/Shares.antt =====
-- What the transactions of `create_self_transfer_multi` and `send_to` spend and pay: equal shares, and
-- a payment with its change.
use bitcoin_node_tests.Chain.{Btclib, TxOut, Tx, TxIn}
use bitcoin_node_tests.Base.{
  ℕ, List, sum_by, suc, ◌≡◌, replicate, ◌<◌, arith, ◌*◌, ◌++◌, sum_by-replicate, ◌+◌, ◌↔◌, ◌≤◌, ◌∷◌,
  [], map, sym, ◌∙◌, ap, ◌-◌,
}
use bitcoin_node_tests.Wallet.Build.{
  MultiArgs, pay_to, positive, share, spend_many, pos, self_transfer_tx, inputs, ok, err,
  pad_if_asked, pay_self, value_error, fee_constant,
}
use bitcoin_node_tests.Base.Int.{ℤ, floor_div-sub_bounds, pos-*ℤ}
use bitcoin_node_tests.Wallet.Cache.{Utxo}
use bitcoin_node_tests.Base.Bytes.{Bytes}
use bitcoin_node_tests.Base.Raise.{>>=-eq-ok}
use bitcoin_node_tests.Wallet.Build.Fees.{
  output_value, spent_outpoints, self_transfer_tx-shape, pad_if_asked-keeps,
}
use mathlib.Core.Path.{ap₂}

module _ {H : Type 0} (lib : Btclib H) where
  positive-eq-ok : (z : ℤ) (amount : ℕ) → positive z ≡ ok amount → (z ≡ pos amount) × (0 < amount)
  unfolding positive
  positive-eq-ok z amount h = ground arith

  share_lem :
      (total f n amount : ℕ)
      → share total (pos f) (suc n) ≡ ok amount
      → (0 < amount)
        × (amount * suc n + f * suc n ≤ total)
        × (total < amount * suc n + f * suc n + suc n)
  unfolding share
  share_lem total f n amount h =
      let (e, p) = positive-eq-ok _ amount h in
      let (lo, hi) =
        floor_div-sub_bounds total (f * suc n) (suc n) amount (omega arith) (rw pos-*ℤ at e) in
      (p, lo, hi)

  sum-shares :
      (n amount : ℕ)
      → sum_by (λ (o : TxOut). o.value) (replicate n (pay_self lib amount)) ≡ amount * n
  sum-shares n amount = sum_by-replicate (λ (o : TxOut). o.value) n (pay_self lib amount)

  -- The steps of a `create_self_transfer_multi` that returned.
  record SpendMany (a : MultiArgs) (us : List Utxo) (tx : Tx) : Type 0 where
    amount : ℕ
    base : Tx
    shared : share (sum_by (λ (u : Utxo). u.value) us) a.fee_per_output a.num_outputs ≡ ok amount
    built : self_transfer_tx lib us amount a.num_outputs a.options ≡ ok base
    padded : pad_if_asked lib base a.target_vsize ≡ ok tx

  spend_many-steps :
      (a : MultiArgs) (us : List Utxo) (tx : Tx) → spend_many lib a us ≡ ok tx → SpendMany a us tx
  unfolding spend_many
  spend_many-steps a us tx h =
      let (amount, shared, h₁) =
        >>=-eq-ok (share (sum_by (λ (u : Utxo). u.value) us) a.fee_per_output a.num_outputs) _ h in
      let (base, built, h₂) =
        >>=-eq-ok (self_transfer_tx lib us amount a.num_outputs a.options) _ h₁ in
      record { amount = amount; base = base; shared = shared; built = built; padded = h₂ }

  -- The transaction that create_self_transfer_multi builds around coins spends them all, in order;
  -- its first outputs are num_outputs equal payments to the wallet of at least one satoshi; what
  -- its outputs pay and the fee make up the value of the coins; the fee is fee_per_output for each
  -- output, and less than one satoshi more for each. fee_per_output is not negative and num_outputs
  -- not 0.
  pub spend_many-conserves :
      (a : MultiArgs) (us : List Utxo) (tx : Tx) (f n : ℕ)
      → a.fee_per_output ≡ pos f
      → a.num_outputs ≡ suc n
      → spend_many lib a us ≡ ok tx
      → (amount paid : ℕ) × (more : List TxOut) × (0 < amount)
        × (tx.vout ≡ replicate (suc n) (pay_self lib amount) ++ more)
        × (output_value tx + paid ≡ sum_by (λ (u : Utxo). u.value) us)
        × (f * suc n ≤ paid)
        × (paid < f * suc n + suc n)
        × (spent_outpoints tx ≡ map (λ (u : Utxo). u.outpoint) us)
  spend_many-conserves a us tx f n ef en h =
      let s = spend_many-steps a us tx h in
      let (spent, outs) =
        self_transfer_tx-shape lib us s.amount a.num_outputs a.options s.base s.built in
      let (ins, total, more, vout) = pad_if_asked-keeps lib s.base tx a.target_vsize s.padded in
      let (pos_amount, lo, hi) =
        share_lem (sum_by (λ (u : Utxo). u.value) us) f n s.amount
          (ap₂ (share (sum_by (λ (u : Utxo). u.value) us)) (sym ef) (sym en) ∙ s.shared) in
      let sum : output_value tx ≡ s.amount * suc n =
        total
        ∙ ap (sum_by (λ (o : TxOut). o.value))
            (outs ∙ ap (λ k. replicate k (pay_self lib s.amount)) en)
        ∙ sum-shares (suc n) s.amount in
      (
        s.amount,
        sum_by (λ (u : Utxo). u.value) us - s.amount * suc n,
        more,
        pos_amount,
        vout ∙ ap (λ os. os ++ more) (outs ∙ ap (λ k. replicate k (pay_self lib s.amount)) en),
        omega (arith, sum, lo),
        omega (arith, lo),
        omega (arith, lo, hi),
        ap (map (λ (i : TxIn). i.prev_out)) ins ∙ spent,
      )

  -- The transaction that send_to builds around a coin spends that coin alone, pays the change to
  -- the wallet and then the value to the script, and leaves exactly FEE as the fee; a coin that
  -- does not cover the value and FEE together is refused with ValueError, and only such a coin.
  pub pay_to-conserves :
      (script : Bytes) (value : ℕ) (u : Utxo)
      → ((pay_to lib script value u ≡ err value_error) ↔ (u.value < value + fee_constant))
        × ((tx : Tx)
            → pay_to lib script value u ≡ ok tx
            → (change : ℕ) × (change + value + fee_constant ≡ u.value)
              × (tx.vout
                  ≡ pay_self lib change ∷ record { value = value; script_pub_key = script } ∷ [])
              × (spent_outpoints tx ≡ u.outpoint ∷ []))
  unfolding pay_to self_transfer_tx inputs
  pay_to-conserves script value u = (
    ground arith,
    λ tx h. (u.value - value - fee_constant, ground arith, ground arith, ground arith),
  )
