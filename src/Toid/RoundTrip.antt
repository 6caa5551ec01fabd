-- ===== src/Toid/RoundTrip.antt =====
-- What `createTOID` writes and `parseTOID` reads back, in core/toid/index.ts.
use Prim.Native.Nat.{bit_or}
use colibri.Common.{
  ℕ, ◌+◌, ◌-◌, ◌*◌, ◌/◌, ◌%◌, ◌^◌, ◌≤◌, ◌<◌, ◌≡◌, refl, sym, ap, ◌∙◌, true, inl, inr, Bool-cases,
  ok-injective, Text, [], ◌∷◌, length, ok, ℤ, pos, negsuc, ◌↔◌, arith, all_digits, decimal_value,
  to_decimal, pad_start, decimal_value-to_decimal, decimal_value-pad, all_digits-to_decimal,
  all_digits-pad, length-to_decimal, length-pad, decimal_value_injective, le→leb,
}
use colibri.Common.Bits.{shift_left, or_packs, and_mask}
use colibri.Toid.{
  ToidParts, matches_digits, is_toid, max_toid, max_ledger, max_tx_order, max_op_index, pack,
  create_toid, parse_toid,
}

-- The three components lie in the ranges that SEP-0035 gives them.
pub record InRange (l t o : ℕ) : Type 0 where
  pub ledger : l ≤ max_ledger
  pub tx_lower : 1 ≤ t
  pub tx_upper : t ≤ max_tx_order
  pub op_lower : 1 ≤ o
  pub op_upper : o ≤ max_op_index

pack_sum :
    (l t o : ℕ) → t ≤ max_tx_order → o ≤ max_op_index → pack l t o ≡ l * 2 ^ 32 + t * 2 ^ 12 + o
unfolding pack
pack_sum l t o ht ho =
    let high : bit_or (shift_left l 32) (shift_left t 12) ≡ l * 2 ^ 32 + t * 2 ^ 12 =
      or_packs 32 l (t * 2 ^ 12) (omega arith) in
    let whole : bit_or (shift_left (l * 2 ^ 20 + t) 12) o ≡ (l * 2 ^ 20 + t) * 2 ^ 12 + o =
      or_packs 12 (l * 2 ^ 20 + t) o (omega arith) in
    let joined : bit_or (shift_left l 32) (shift_left t 12) ≡ shift_left (l * 2 ^ 20 + t) 12 =
      omega (arith, high) in
    ap (λ (x : ℕ). bit_or x o) joined ∙ omega (arith, whole)

pub toid_text : ℕ → ℕ → ℕ → Text
toid_text l t o = pad_start 19 b'0' (to_decimal (pack l t (o - 1)))

pub create_toid-eq :
    (l t o : ℕ) → InRange l t o → create_toid (pos l) (pos t) (pos o) ≡ ok (toid_text l t o)
unfolding create_toid toid_text
create_toid-eq l t o h = ground arith

pub packed : (l t o : ℕ) → InRange l t o → pack l t (o - 1) ≡ l * 2 ^ 32 + t * 2 ^ 12 + (o - 1)
packed l t o h = pack_sum l t (o - 1) h.tx_upper (omega arith)

pack_bound : (l t o : ℕ) → InRange l t o → pack l t (o - 1) ≤ max_toid
pack_bound l t o h = omega (arith, packed l t o h)

pub value-toid_text : (l t o : ℕ) → decimal_value (toid_text l t o) ≡ pack l t (o - 1)
unfolding toid_text
value-toid_text l t o =
    decimal_value-pad 19 (to_decimal (pack l t (o - 1)))
    ∙ decimal_value-to_decimal (pack l t (o - 1))

pub all_digits-toid_text : (l t o : ℕ) → all_digits (toid_text l t o) ≡ true
unfolding toid_text
all_digits-toid_text l t o = all_digits-pad 19 _ (all_digits-to_decimal (pack l t (o - 1)))

pub length-toid_text : (l t o : ℕ) → InRange l t o → length (toid_text l t o) ≡ 19
unfolding toid_text
length-toid_text l t o h =
    length-pad 19 b'0' _
      (length-to_decimal 18 (pack l t (o - 1)) (omega (arith, pack_bound l t o h)))

matches_of_length : (s : Text) → 0 < length s → all_digits s ≡ true → matches_digits s ≡ true
matches_of_length [] h d = elim h [ ]
matches_of_length (c ∷ s) h d = d

toid_text-is_toid : (l t o : ℕ) → InRange l t o → is_toid (toid_text l t o) ≡ true
unfolding is_toid
toid_text-is_toid l t o h = rw (
  matches_of_length (toid_text l t o) (omega (arith, length-toid_text l t o h))
      (all_digits-toid_text l t o),
  value-toid_text l t o,
  le→leb (pack l t (o - 1)) max_toid (pack_bound l t o h),
)

abbrev parts_of : ℕ → ToidParts
parts_of v = record {
  ledger_sequence = v / 2 ^ 32;
  transaction_order = v / 2 ^ 12 % 2 ^ 20;
  operation_index = v % 2 ^ 12 + 1;
}

-- `parseTOID` reads the fields of the number by shifts and masks, which are divisions and rests.
parse_toid-eq : (s : Text) → is_toid s ≡ true → parse_toid s ≡ ok (parts_of (decimal_value s))
unfolding parse_toid
parse_toid-eq s h = rw (h, and_mask 20 (decimal_value s / 2 ^ 12), and_mask 12 (decimal_value s))

-- For components in range `createTOID` succeeds; its result has 19 characters and is a valid TOID,
-- and `parseTOID` reads the same components from it.
pub parse_toid-create_toid :
    (l t o : ℕ)
    → InRange l t o
    → (s : Text) × (create_toid (pos l) (pos t) (pos o) ≡ ok s)
      × (length s ≡ 19)
      × (is_toid s ≡ true)
      × (parse_toid s
          ≡ ok (record { ledger_sequence = l; transaction_order = t; operation_index = o }))
parse_toid-create_toid l t o h =
    let value : decimal_value (toid_text l t o) ≡ l * 2 ^ 32 + t * 2 ^ 12 + (o - 1) =
      value-toid_text l t o ∙ packed l t o h in
    (
      toid_text l t o,
      create_toid-eq l t o h,
      length-toid_text l t o h,
      toid_text-is_toid l t o h,
      parse_toid-eq (toid_text l t o) (toid_text-is_toid l t o h) ∙ rw value (ap ok (ground arith)),
    )

pub is_toid-inv :
    (s : Text) → is_toid s ≡ true → (all_digits s ≡ true) × (decimal_value s ≤ max_toid)
unfolding is_toid
is_toid-inv [] h = ground arith
is_toid-inv (c ∷ s) h = (ground arith, ground arith)

parsed_valid : (s : Text) (p : ToidParts) → parse_toid s ≡ ok p → is_toid s ≡ true
unfolding parse_toid
parsed_valid s p h = elim (Bool-cases (is_toid s)) [
  | inl valid ↦ valid
  | inr invalid ↦ ground arith
]

-- The other way: what `parseTOID` reads from a TOID of 19 characters, `createTOID` writes back as the
-- same text, if the transaction order that was read is not 0 and the operation index not 4096; those
-- two are read from some TOIDs, and `createTOID` does not take them.
pub create_toid-parse_toid :
    (s : Text) (p : ToidParts)
    → length s ≡ 19
    → parse_toid s ≡ ok p
    → 1 ≤ p.transaction_order
    → p.operation_index ≤ max_op_index
    → create_toid (pos p.ledger_sequence) (pos p.transaction_order) (pos p.operation_index) ≡ ok s
create_toid-parse_toid s p len h tx op =
    let valid : is_toid s ≡ true = parsed_valid s p h in
    let (all, bound) = is_toid-inv s valid in
    let e : p ≡ parts_of (decimal_value s) = ok-injective (sym h ∙ parse_toid-eq s valid) in
    let range : InRange p.ledger_sequence p.transaction_order p.operation_index = record {
      ledger = rw e (omega arith);
      tx_lower = tx;
      tx_upper = rw e (omega arith);
      op_lower = rw e (omega arith);
      op_upper = op;
    } in
    let value : decimal_value (toid_text p.ledger_sequence p.transaction_order p.operation_index)
        ≡ decimal_value s =
      value-toid_text p.ledger_sequence p.transaction_order p.operation_index
      ∙ packed p.ledger_sequence p.transaction_order p.operation_index range
      ∙ rw e (omega arith) in
    create_toid-eq p.ledger_sequence p.transaction_order p.operation_index range
    ∙ ap ok (
        decimal_value_injective _ s
          (length-toid_text p.ledger_sequence p.transaction_order p.operation_index range ∙ sym len)
          (all_digits-toid_text p.ledger_sequence p.transaction_order p.operation_index) all value)

pub create_toid-InRange :
    (a b c : ℕ) (s : Text) → create_toid (pos a) (pos b) (pos c) ≡ ok s → InRange a b c
unfolding create_toid
create_toid-InRange a b c s h = ground arith

-- `createTOID` succeeds exactly for three integers in range; any other argument is an error.
create_toid-succeeds_iff :
    (l t o : ℤ)
    → ((s : Text) × (create_toid l t o ≡ ok s))
      ↔ ((a : ℕ) × (b : ℕ) × (c : ℕ) × (l ≡ pos a) × (t ≡ pos b) × (o ≡ pos c) × InRange a b c)
create_toid-succeeds_iff l t o = (forth l t o, back)
  where
    forth :
        (l t o : ℤ)
        → ((s : Text) × (create_toid l t o ≡ ok s))
        → (a : ℕ) × (b : ℕ) × (c : ℕ) × (l ≡ pos a) × (t ≡ pos b) × (o ≡ pos c) × InRange a b c
    forth (pos a) (pos b) (pos c) (s, h) =
        (a, b, c, refl, refl, refl, create_toid-InRange a b c s h)
    forth (negsuc a) t o (s, h) = absurd (unfold create_toid in (cc))
    forth (pos a) (negsuc b) o (s, h) = absurd (unfold create_toid in (ground arith))
    forth (pos a) (pos b) (negsuc c) (s, h) = absurd (unfold create_toid in (ground arith))

    back :
        ((a : ℕ) × (b : ℕ) × (c : ℕ) × (l ≡ pos a) × (t ≡ pos b) × (o ≡ pos c) × InRange a b c)
        → (s : Text) × (create_toid l t o ≡ ok s)
    back (a, b, c, ea, eb, ec, h) = rw (ea, eb, ec) (toid_text a b c, create_toid-eq a b c h)
