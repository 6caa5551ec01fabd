-- ===== src/Toid/Order.antt =====
-- The order of TOIDs of core/toid/index.ts: as texts they sort by ledger, then by transaction, then
-- by operation.
use colibri.Common.{
  ℕ, ◌+◌, ◌-◌, ◌*◌, ◌^◌, ◌<◌, ◌≡◌, ◌↔◌, ◌⊎◌, true, Text, ok, ok-injective, sym, ◌∙◌, pos, arith,
  decimal_value_order, text_lt,
}
use colibri.Toid.{create_toid}
use colibri.Toid.RoundTrip.{
  InRange, toid_text, create_toid-eq, packed, value-toid_text, all_digits-toid_text,
  length-toid_text,
}

-- The order of the components.
abbrev pub Before : (l t o l' t' o' : ℕ) → Type 0
Before l t o l' t' o' = (l < l') ⊎ ((l ≡ l') × ((t < t') ⊎ ((t ≡ t') × (o < o'))))

-- Of two TOIDs that `createTOID` returns, the first sorts before the second as a text exactly when
-- its ledger, transaction and operation come first.
pub create_toid_order :
    (l t o l' t' o' : ℕ) (s s' : Text)
    → InRange l t o
    → InRange l' t' o'
    → create_toid (pos l) (pos t) (pos o) ≡ ok s
    → create_toid (pos l') (pos t') (pos o') ≡ ok s'
    → (text_lt s s' ≡ true) ↔ Before l t o l' t' o'
create_toid_order l t o l' t' o' s s' h h' e e' =
    let s-is : toid_text l t o ≡ s = ok-injective (sym (create_toid-eq l t o h) ∙ e) in
    let s'-is : toid_text l' t' o' ≡ s' = ok-injective (sym (create_toid-eq l' t' o' h') ∙ e') in
    let as_numbers =
      decimal_value_order (toid_text l t o) (toid_text l' t' o')
        (length-toid_text l t o h ∙ sym (length-toid_text l' t' o' h')) (all_digits-toid_text l t o)
        (all_digits-toid_text l' t' o') in
    let value = value-toid_text l t o ∙ packed l t o h in
    let value' = value-toid_text l' t' o' ∙ packed l' t' o' h' in
    rw (← s-is, ← s'-is)
      (
        λ less. forth (omega (arith, as_numbers.0 less, value, value')),
        λ before. as_numbers.1 (omega (arith, back before, value, value')),
      )
  where
    forth :
        l * 2 ^ 32 + t * 2 ^ 12 + (o - 1) < l' * 2 ^ 32 + t' * 2 ^ 12 + (o' - 1)
        → Before l t o l' t' o'
    forth less = grind arith

    back :
        Before l t o l' t' o'
        → l * 2 ^ 32 + t * 2 ^ 12 + (o - 1) < l' * 2 ^ 32 + t' * 2 ^ 12 + (o' - 1)
    back before = grind arith
