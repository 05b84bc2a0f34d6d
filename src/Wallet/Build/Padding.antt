-- ===== src/Wallet/Build/Padding.antt =====
-- How close `_pad_to_vsize` comes to the size that it is asked for.
use bitcoin_node_tests.Base.{
  ℕ, suc, ◌+◌, ◌-◌, ◌≤◌, ◌<◌, ◌≡◌, ◌↔◌, Bool, false, ◌||◌, ◌&&◌, ◌∷◌, arith, ltb, leb, ◌==◌, length,
  replicate, if◌then◌else◌,
}
use bitcoin_node_tests.Base.Bytes.{Bytes}
use bitcoin_node_tests.Base.Exec.{ok, err, value_error}
use bitcoin_node_tests.Chain.{Tx, Btclib, op_return, op_1}
use bitcoin_node_tests.Wallet.Build.{padding, with_output, padding_ops, pad_to_vsize}

module _ {H : Type 0} (lib : Btclib H) where
  -- the length of the compact-size prefix of a number
  abbrev pub prefix : ℕ → ℕ
  prefix n = length (lib.var_int_serialize n)

  -- How btclib serializes a padding script, a compact size, and a transaction's outputs: one byte
  -- for an opcode, 1, 3 or 5 bytes for a compact size below 2 ^ 32, and for an output its script
  -- behind the script's compact size.
  pub record SizeLaws : Type 0 where
    pub script_length :
        (ones : ℕ) → length (lib.script_serialize (op_return ∷ replicate ones op_1)) ≡ suc ones
    pub prefix_1 : (n : ℕ) → n < 0xfd → prefix n ≡ 1
    pub prefix_3 : (n : ℕ) → 0xfd ≤ n → n < 0x10000 → prefix n ≡ 3
    pub prefix_5 : (n : ℕ) → 0x10000 ≤ n → n < 0x100000000 → prefix n ≡ 5
    pub vsize_output :
        (tx : Tx) (v : ℕ) (s t : Bytes)
        → lib.tx_vsize (with_output lib tx (record { value = v; script_pub_key = s }))
            + (prefix (length t) + length t)
          ≡ lib.tx_vsize (with_output lib tx (record { value = v; script_pub_key = t }))
            + (prefix (length s) + length s)

  -- the sizes still owed at which the length prefix grows or stays differently from what
  -- `_pad_to_vsize` takes off
  abbrev pub misses : ℕ → Bool
  misses owed = owed == 252 || owed == 253 || leb 65536 owed && leb owed 65538

  -- what is owed once the placeholder output stands
  abbrev pub owed : Tx → ℕ → ℕ
  owed tx target_vsize = target_vsize - lib.tx_vsize (with_output lib tx (padding lib 0))

  module _ (laws : SizeLaws) where
    prefix_cases :
        (n : ℕ)
        → n < 0x100000000
        → prefix n ≡ (if ltb n 0xfd then 1 else if ltb n 0x10000 then 3 else 5)
    prefix_cases n h = ground (arith, laws.prefix_1 n, laws.prefix_3 n, laws.prefix_5 n)

    -- the size with `ones` opcodes, over the size with the placeholder alone
    vsize_padded :
        (tx : Tx) (ones : ℕ)
        → lib.tx_vsize (with_output lib tx (padding lib ones)) + 2
          ≡ lib.tx_vsize (with_output lib tx (padding lib 0)) + (prefix (suc ones) + suc ones)
    vsize_padded tx ones =
        let law =
          laws.vsize_output tx 0 (padding lib ones).script_pub_key (padding lib 0).script_pub_key in
        let e : length (padding lib ones).script_pub_key ≡ suc ones = laws.script_length ones in
        let z : length (padding lib 0).script_pub_key ≡ 1 = laws.script_length 0 in
        let p : prefix 1 ≡ 1 = laws.prefix_1 1 (omega arith) in omega (arith, rw (e, z, p) at law)

    -- the prefix that the padding script ends up with
    padded_size :
        (d : ℕ)
        → d < 0x100000000
        → prefix (suc (padding_ops lib d)) + suc (padding_ops lib d)
          ≡ (if misses d then (if d == 252 then d + 4 else d) else d + 2)
    unfolding padding_ops
    padded_size d h = ground (arith, prefix_cases d h, prefix_cases (suc (d - (prefix d - 1))))

    -- The size that is reached, over the size that was asked for.
    reached :
        (tx tx' : Tx) (target : ℕ)
        → pad_to_vsize lib tx target ≡ ok tx'
        → owed tx target < 0x100000000
        → lib.tx_vsize tx' + 2
          ≡ target
            + (if misses (owed tx target) then (if owed tx target == 252 then 4 else 0) else 2)
    unfolding pad_to_vsize
    reached tx tx' target e h =
        ground (
          arith,
          vsize_padded tx (padding_ops lib (owed tx target)),
          padded_size (owed tx target) h,
        )

    -- _pad_to_vsize raises ValueError exactly where the size asked for is below that with the empty
    -- placeholder output, and otherwise returns a transaction. That has exactly the size asked for,
    -- except where 252, 253, 65536, 65537 or 65538 bytes are owed past the placeholder: there, and
    -- only there, it has another size. Less than 2 ^ 32 bytes are owed, and btclib serializes
    -- outputs as SizeLaws says.
    pub vsize-pad_to_vsize :
        (tx : Tx) (target : ℕ)
        → owed tx target < 0x100000000
        → ((pad_to_vsize lib tx target ≡ err value_error)
            ↔ (target < lib.tx_vsize (with_output lib tx (padding lib 0))))
          × ((tx' : Tx)
              → pad_to_vsize lib tx target ≡ ok tx'
              → (lib.tx_vsize tx' ≡ target) ↔ (misses (owed tx target) ≡ false))
          × (lib.tx_vsize (with_output lib tx (padding lib 0)) ≤ target
              → (tx' : Tx) × (pad_to_vsize lib tx target ≡ ok tx'))
    unfolding pad_to_vsize
    vsize-pad_to_vsize tx target h = (
      ground arith,
      λ tx' e. ground (arith, reached tx tx' target e h),
      λ fits. (with_output lib tx (padding lib (padding_ops lib (owed tx target))), ground arith),
    )
