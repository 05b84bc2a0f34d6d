-- ===== src/Wallet/Cache.antt =====
-- src/bitcoin_node_tests/mini_wallet.py: `Utxo`, the coin cache of `MiniWallet`, and the methods that
-- read and change only the cache.
pub mod Sorting
pub mod Select
pub mod Choice
pub mod Scan
use mathlib.Core.List.{reverse}
use bitcoin_node_tests.Base.{
  ℕ, zero, suc, ◌+◌, ◌≡◌, ◌↔◌, Bool, true, false, not, ◌&&◌, ◌||◌, Option, none, some, List, [],
  ◌∷◌, ◌++◌, arith, ltb, ◌==◌, if◌then◌else◌, any, keep_if, sum_by, get_elem?,
}
use bitcoin_node_tests.Base.Bytes.{Bytes, Text, bytes_eq, to_hex}
use bitcoin_node_tests.Base.Exec.{ok, err, lookup_error, index_error, value_error, Exec}
use bitcoin_node_tests.Base.Int.{ℤ, pos, negsuc, ltb_ℤ, ◌+ℤ◌, ◌-ℤ◌}
use bitcoin_node_tests.Chain.{OutPoint, outpoint_eq, outpoint_eq_iff, TxOut, Tx, Btclib}

pub record Utxo : Type 0 where
  pub outpoint : OutPoint
  pub value : ℕ
  pub height : ℤ
  pub coinbase : Bool

-- `Utxo.confirmed`
unfoldable pub confirmed : Utxo → Bool
confirmed u = ltb_ℤ (pos 0) u.height

pub record MiniWallet : Type 0 where
  pub utxos : List Utxo
  -- the set of the txids that were scanned
  pub scanned : List Bytes
  pub tip : Bytes
  pub height : ℤ
  pub last_time : ℤ

abbrev pub int_eq : ℤ → ℤ → Bool
int_eq (pos a) (pos b) = a == b
int_eq (negsuc a) (negsuc b) = a == b
int_eq _ _ = false

abbrev pub bool_eq : Bool → Bool → Bool
bool_eq true b = b
bool_eq false b = not b

-- `==` on the dataclass `Utxo`
unfoldable pub utxo_eq : Utxo → Utxo → Bool
utxo_eq a b =
    outpoint_eq a.outpoint b.outpoint
    && a.value == b.value
    && int_eq a.height b.height
    && bool_eq a.coinbase b.coinbase

pub utxo_eq_iff : (a b : Utxo) → (utxo_eq a b ≡ true) ↔ (a ≡ b)
unfolding utxo_eq
utxo_eq_iff a b = ground (arith, outpoint_eq_iff a.outpoint b.outpoint)

-- The sort key `(utxo.value, -utxo.height)`, compared as Python compares tuples.
unfoldable pub key_le : Utxo → Utxo → Bool
key_le a b = ltb a.value b.value || a.value == b.value && not (ltb_ℤ a.height b.height)

-- `list.sort`, which is stable: an element goes before its equals that stood behind it.
unfoldable pub insert_by_key : Utxo → List Utxo → List Utxo
insert_by_key u [] = u ∷ []
insert_by_key u (x ∷ xs) = if key_le u x then u ∷ x ∷ xs else x ∷ insert_by_key u xs

unfoldable pub sort_by_key : List Utxo → List Utxo
unfolding insert_by_key
sort_by_key [] = []
sort_by_key (u ∷ us) = insert_by_key u (sort_by_key us)

-- the index in the whole list, of an element behind the head
abbrev behind : Option ℕ → Option ℕ
behind none = none
behind (some i) = some (suc i)

-- `list.index(u)` and `list.pop(index)`; `none` is `ValueError` and `IndexError`
unfoldable pub index_of : Utxo → List Utxo → Option ℕ
index_of u [] = none
index_of u (x ∷ xs) = if utxo_eq x u then some 0 else behind (index_of u xs)

module _ {ℓ} {A : Type ℓ} where
  unfoldable pub pop_at : ℕ → List A → List A
  pop_at i [] = []
  pop_at zero (x ∷ xs) = xs
  pop_at (suc i) (x ∷ xs) = x ∷ pop_at i xs

-- `MiniWallet.get_balance`
unfoldable pub get_balance : MiniWallet → ℕ
get_balance w = sum_by (λ u. u.value) w.utxos

-- The filters of `get_utxo`.
pub record Filters : Type 0 where
  pub txid : Option Text
  pub vout : Option ℕ
  pub confirmed_only : Bool

abbrev pub paid_by : Text → Utxo → Bool
paid_by txid u = bytes_eq (to_hex u.outpoint.tx_id) txid

by_vout : Option ℕ → List Utxo → List Utxo
by_vout (some n) us = keep_if (λ u. u.outpoint.vout == n) us
by_vout none us = us

by_confirmed : Bool → List Utxo → List Utxo
by_confirmed only us = if only then keep_if confirmed us else us

-- `self._utxos.pop(index) if mark_as_spent else self._utxos[index]`, given what stands there
pop_or_read : Bool → ℕ → Option Utxo → Exec MiniWallet Utxo
pop_or_read mark_as_spent i none w = (err index_error, w)
pop_or_read true i (some u) w = (ok u, record w { utxos = pop_at i w.utxos })
pop_or_read false i (some u) w = (ok u, w)

answer_at : Bool → Option ℕ → Exec MiniWallet Utxo
answer_at mark_as_spent none w = (err value_error, w)
answer_at mark_as_spent (some i) w = pop_or_read mark_as_spent i (get_elem? w.utxos i) w

-- the first candidate, taken from the cache
take_first : Bool → List Utxo → Exec MiniWallet Utxo
take_first mark_as_spent [] w = (err lookup_error, w)
take_first mark_as_spent (c ∷ rest) w = answer_at mark_as_spent (index_of c w.utxos) w

-- `o in {tx_in.prev_out for tx_in in tx.vin}`
abbrev pub spends : Tx → OutPoint → Bool
spends tx o = any (λ i. outpoint_eq i.prev_out o) tx.vin

-- `[u for u in self._utxos if u.outpoint not in spent]`
abbrev pub unspent_by : Tx → List Utxo → List Utxo
unspent_by tx us = keep_if (λ u. not (spends tx u.outpoint)) us

module _ {H : Type 0} (lib : Btclib H) where
  -- `MiniWallet._is_mature`, at the wallet's height
  unfoldable pub is_mature : ℤ → Utxo → Bool
  is_mature height u =
      not u.coinbase || not (ltb_ℤ (height +ℤ pos 1 -ℤ u.height) (pos lib.coinbase_maturity))

  by_txid : Option Text → ℤ → List Utxo → List Utxo
  by_txid (some txid) height us = keep_if (paid_by txid) us
  by_txid none height us = keep_if (is_mature height) (reverse us)

  -- The candidates of `get_utxo`, read from the sorted cache.
  unfoldable pub candidates : Filters → ℤ → List Utxo → List Utxo
  unfolding by_txid by_vout by_confirmed
  candidates f height us = by_confirmed f.confirmed_only (by_vout f.vout (by_txid f.txid height us))

  -- `MiniWallet.get_utxo`
  unfoldable pub get_utxo : Filters → Bool → Exec MiniWallet Utxo
  unfolding take_first answer_at pop_or_read
  get_utxo f mark_as_spent w =
      let w' = record w { utxos = sort_by_key w.utxos } in
      take_first mark_as_spent (candidates f w.height w'.utxos) w'

  -- `MiniWallet.get_utxos`
  unfoldable pub get_utxos : Bool → Bool → Bool → MiniWallet → List Utxo × MiniWallet
  get_utxos include_immature mark_as_spent confirmed_only w =
      let found =
        keep_if
          (λ u. (include_immature || is_mature w.height u) && (not confirmed_only || confirmed u))
          w.utxos in
      (found, if mark_as_spent then record w { utxos = [] } else w)

  -- The loop of `new_utxos` over the outputs, the first of which has the number `vout`.
  unfoldable pub new_utxos_from : Bytes → ℕ → List TxOut → List Utxo
  new_utxos_from txid vout [] = []
  new_utxos_from txid vout (out ∷ outs) =
      let rest = new_utxos_from txid (vout + 1) outs in
      if bytes_eq out.script_pub_key lib.anyone_can_spend
      then record {
        outpoint = record { tx_id = txid; vout = vout };
        value = out.value;
        height = pos 0;
        coinbase = false;
      }
        ∷ rest
      else rest

  -- `MiniWallet.new_utxos`
  unfoldable pub new_utxos : Tx → List Utxo
  unfolding new_utxos_from
  new_utxos tx = new_utxos_from (lib.tx_id tx) 0 tx.vout

  -- `MiniWallet._scan_tx`
  unfoldable pub scan_tx : Tx → MiniWallet → List Utxo × MiniWallet
  scan_tx tx w =
      let new = new_utxos tx in
      (new, record w { utxos = unspent_by tx w.utxos ++ new; scanned = lib.tx_id tx ∷ w.scanned })
