-- ===== src/Toid.antt =====
-- core/toid/index.ts: the total order ids of SEP-0035. The arguments of `createTOID` are integers,
-- and the ids are texts.
pub mod RoundTrip
pub mod Order
mod Tests
use Prim.Native.Nat.{bit_and, bit_or}
use colibri.Common.{
  ℕ, ◌+◌, ◌-◌, Bool, false, ◌&&◌, [], ◌∷◌, Text, leb, Result, ok, ◌>>=◌, ◌>>◌, assert, ℤ, in_range,
  pos_part, all_digits, decimal_value, to_decimal, pad_start,
}
use colibri.Common.Bits.{shift_left, shift_right}

pub data ToidError : Type 0 where
  ledger_out_of_range tx_order_out_of_range op_index_out_of_range : ℤ → ToidError
  invalid_toid : Text → ToidError

pub record ToidParts : Type 0 where
  pub ledger_sequence : ℕ
  pub transaction_order : ℕ
  pub operation_index : ℕ

-- `/^\d+$/`
abbrev pub matches_digits : Text → Bool
matches_digits [] = false
matches_digits (c ∷ s) = all_digits (c ∷ s)

abbrev pub max_toid : ℕ
max_toid = 9223372036854775807

unfoldable pub is_toid : Text → Bool
is_toid id = matches_digits id && leb (decimal_value id) max_toid

abbrev pub max_ledger : ℕ
max_ledger = 2147483647

abbrev pub max_tx_order : ℕ
max_tx_order = 1048575

abbrev pub max_op_index : ℕ
max_op_index = 4095

-- The packed number; `|` joins from the left.
pub pack : ℕ → ℕ → ℕ → ℕ
pack ledger tx op0 = bit_or (bit_or (shift_left ledger 32) (shift_left tx 12)) op0

unfoldable pub create_toid : ℤ → ℤ → ℤ → Result ToidError Text
unfolding pack
create_toid ledger_sequence transaction_order operation_index = do
  assert (in_range 0 max_ledger ledger_sequence) (ToidError.ledger_out_of_range ledger_sequence)
  assert (in_range 1 max_tx_order transaction_order)
      (ToidError.tx_order_out_of_range transaction_order)
  assert (in_range 1 max_op_index operation_index) (ToidError.op_index_out_of_range operation_index)
  ok (
      pad_start 19 b'0' (
        to_decimal (
          pack (pos_part ledger_sequence) (pos_part transaction_order)
            (pos_part operation_index - 1))))

unfoldable pub parse_toid : Text → Result ToidError ToidParts
unfolding is_toid
parse_toid toid = do
  assert (is_toid toid) (ToidError.invalid_toid toid)
  let val = decimal_value toid
  ok (record {
    ledger_sequence = shift_right val 32;
    transaction_order = bit_and (shift_right val 12) 0xfffff;
    operation_index = bit_and val 0xfff + 1;
  })
