-- ===== src/ChannelAccounts/Pool/Exclusive.antt =====
-- No two runs share a channel of the pool, and it never lists one twice.
use mathlib.Core.List.{Nodup, Nodup-cons, Mem, mem-cons, mem-cons_self, map-append}
use mathlib.Core.List.Nodup
use mathlib.Core.Logic.Or
use colibri.Common.{
  ◌≡◌, ◌≢◌, inl, inr, Option, some, List, [], ◌∷◌, reverse, Text, text_eq, text_eq_iff, ok, All,
  arith, Bool-cases, map_get, values,
}
use colibri.ChannelAccounts.Pool.{
  ChannelAccount, ChannelAccountsPool, Resolution, get_channels, enqueue, allocate, release,
  register_channels, some_same,
}
use colibri.ChannelAccounts.Pool.Invariant.{
  Inv, enqueue-Inv, register_channels-Inv, allocate-Inv, release-Inv, without-Inv,
}
use colibri.ChannelAccounts.Pool.Ownership.{
  enqueue-perm, allocate-perm, release-perm, addresses, HasDistinctChannels, perm-HasDistinct,
  not-mem-addresses,
}

register_channels-HasDistinct :
    (p : ChannelAccountsPool) (cs : List ChannelAccount)
    → Inv p
    → HasDistinctChannels p
    → HasDistinctChannels (register_channels p cs).0
unfolding register_channels
register_channels-HasDistinct p [] v d = d
register_channels-HasDistinct p (c ∷ cs) v d = elim (Bool-cases (some_same c (get_channels p))) [
  | inl known ↦ rw known (register_channels-HasDistinct p cs v d)
  | inr new ↦ rw new (
      register_channels-HasDistinct (enqueue p c).0 cs (enqueue-Inv p c v) (
        perm-HasDistinct (enqueue-perm p c v)
          (Nodup-cons.1 (not-mem-addresses c (get_channels p) new, d))))
]

-- The invariant of the pool, and that it lists no channel twice.
pub record Owned (p : ChannelAccountsPool) : Type 0 where
  pub inv : Inv p
  pub distinct : HasDistinctChannels p

pub register_channels-Owned :
    (p : ChannelAccountsPool) (cs : List ChannelAccount)
    → Owned p
    → Owned (register_channels p cs).0
register_channels-Owned p cs o = record {
  inv = register_channels-Inv p cs o.inv;
  distinct = register_channels-HasDistinct p cs o.inv o.distinct;
}

pub allocate-Owned :
    (p : ChannelAccountsPool) (k : Text)
    → All (λ w. w ≢ k) p.waiters
    → Owned p
    → Owned (allocate p k).0
allocate-Owned p k h o = record {
  inv = allocate-Inv p k h o.inv;
  distinct = perm-HasDistinct (allocate-perm p k) o.distinct;
}

pub release-Owned :
    (p : ChannelAccountsPool) (k : Text) (q : ChannelAccountsPool) (r : Option Resolution)
    → release p k ≡ ok (q, r)
    → Owned p
    → Owned q
release-Owned p k q r h o = record {
  inv = release-Inv p k q r h o.inv;
  distinct = perm-HasDistinct (release-perm p k q r h (without-Inv p k o.inv)) o.distinct;
}

held-mem :
    (k : Text) (c : ChannelAccount) (m : List (Text × ChannelAccount))
    → map_get k m ≡ some c
    → Mem c.address (addresses (values m))
unfolding map_get
held-mem k c [] h = absurd (cc h)
held-mem k c ((j, d) ∷ m) h = elim (Bool-cases (text_eq j k)) [
  | inl same ↦ let e : d ≡ c = ground arith in rw e mem-cons_self
  | inr other ↦ mem-cons.1 (Or.inr (held-mem k c m (ground arith)))
]

held_unique :
    (j k : Text) (c d : ChannelAccount) (m : List (Text × ChannelAccount))
    → Nodup (addresses (values m))
    → map_get j m ≡ some c
    → map_get k m ≡ some d
    → c.address ≡ d.address
    → j ≡ k
unfolding map_get
held_unique j k c d [] n hj hk e = absurd (cc hj)
held_unique j k c d ((i, b) ∷ m) n hj hk e = elim (Bool-cases (text_eq i j)) [
  | inl ij ↦ elim (Bool-cases (text_eq i k)) [
    | inl ik ↦ ground (arith, text_eq_iff i j, text_eq_iff i k)
    | inr not_k ↦
        let b-is-c : b ≡ c = ground arith in
        let found : Mem d.address (addresses (values m)) = held-mem k d m (ground arith) in
        absurd ((Nodup-cons.0 n).0 (rw (b-is-c, e) found))
  ]
  | inr not_j ↦ elim (Bool-cases (text_eq i k)) [
    | inl ik ↦
        let b-is-d : b ≡ d = ground arith in
        let found : Mem c.address (addresses (values m)) = held-mem j c m (ground arith) in
        absurd ((Nodup-cons.0 n).0 (rw (b-is-d, ← e) found))
    | inr not_k ↦ held_unique j k c d m (Nodup-cons.0 n).1 (ground arith) (ground arith) e
  ]
]

-- Two runs that hold a channel of the same address are one run.
pub exclusive :
    (p : ChannelAccountsPool) (j k : Text) (c d : ChannelAccount)
    → Owned p
    → map_get j p.locked_channels ≡ some c
    → map_get k p.locked_channels ≡ some d
    → c.address ≡ d.address
    → j ≡ k
exclusive p j k c d o = held_unique j k c d p.locked_channels held
  where
    held : Nodup (addresses (values p.locked_channels))
    held =
        Nodup.of_append_right (addresses (reverse p.free_channels))
          (rw (map-append _ _ _) at o.distinct)
