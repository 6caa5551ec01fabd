-- ===== src/ChannelAccounts/Pool/Ownership.antt =====
-- Which channels the pool owns: no call loses one or makes one up, and no two runs share one.
use mathlib.Core.List.{
  Nodup, Mem, mem-cons, not-mem-nil, reverse-cons, append_assoc, Perm, perm_middle,
  perm_append_singleton,
}
use mathlib.Core.List.Perm
use mathlib.Core.Logic.Or
use colibri.Common.{
  ◌≡◌, refl, inl, inr, Option, none, some, List, [], ◌∷◌, ◌++◌, map, reverse, Text, text_eq_iff,
  false, ok, All, arith, Option-cases, map_get, map_set, map_delete, values, values-set_new,
  values-delete,
}
use colibri.ChannelAccounts.Pool.{
  ChannelAccount, ChannelAccountsPool, Resolution, get_channels, hand_over, enqueue, pop_free,
  allocate, release, some_same,
}
use colibri.ChannelAccounts.Pool.Invariant.{Inv, without, release-inv}

-- A channel that becomes free.
free-perm :
    (c : ChannelAccount) (free held : List ChannelAccount)
    → Perm (reverse (c ∷ free) ++ held) (c ∷ (reverse free ++ held))
free-perm c free held = rw (reverse-cons c free, append_assoc) (perm_middle (reverse free) held)

-- A channel that is lent to a run which held none.
lent-perm :
    (c : ChannelAccount) (k : Text) (free : List ChannelAccount) (m : List (Text × ChannelAccount))
    → map_get k m ≡ none
    → Perm (reverse free ++ values (map_set k c m)) (c ∷ (reverse free ++ values m))
lent-perm c k free m h =
    rw (values-set_new k c m h, ← append_assoc) (perm_append_singleton c (reverse free ++ values m))

hand_over-perm :
    (p : ChannelAccountsPool) (c : ChannelAccount) (ws : List Text)
    → All (λ w. map_get w p.locked_channels ≡ none) ws
    → Perm (get_channels (hand_over p c ws).0) (c ∷ get_channels p)
unfolding hand_over
hand_over-perm p c [] h = free-perm c p.free_channels (values p.locked_channels)
hand_over-perm p c (w ∷ ws) h = lent-perm c w p.free_channels p.locked_channels h.0

pub enqueue-perm :
    (p : ChannelAccountsPool) (c : ChannelAccount)
    → Inv p
    → Perm (get_channels (enqueue p c).0) (c ∷ get_channels p)
unfolding enqueue
enqueue-perm p c v = hand_over-perm p c p.waiters v.apart

pop_free-perm :
    (p : ChannelAccountsPool) (k : Text) (fs : List ChannelAccount)
    → p.free_channels ≡ fs
    → map_get k p.locked_channels ≡ none
    → Perm (get_channels (pop_free p k fs).0) (get_channels p)
unfolding pop_free
pop_free-perm p k [] e h = Perm.refl _
pop_free-perm p k (c ∷ fs) e h = rw e (
    Perm.trans (lent-perm c k fs p.locked_channels h)
      (Perm.symm (free-perm c fs (values p.locked_channels))))

pub allocate-perm :
    (p : ChannelAccountsPool) (k : Text) → Perm (get_channels (allocate p k).0) (get_channels p)
unfolding allocate
allocate-perm p k = elim (Option-cases (map_get k p.locked_channels)) [
  | inr (c, held) ↦ rw (held, allocate) (Perm.refl _)
  | inl new ↦ rw (new, allocate) (pop_free-perm p k p.free_channels refl new)
]

without-perm :
    (p : ChannelAccountsPool) (k : Text) (c : ChannelAccount)
    → map_get k p.locked_channels ≡ some c
    → Perm (get_channels p) (c ∷ get_channels (without p k))
unfolding without
without-perm p k c held =
    Perm.trans
      (Perm.append_left (reverse p.free_channels) (values-delete k c p.locked_channels held))
      (perm_middle (reverse p.free_channels) (values (map_delete k p.locked_channels)))

pub release-perm :
    (p : ChannelAccountsPool) (k : Text) (q : ChannelAccountsPool) (r : Option Resolution)
    → release p k ≡ ok (q, r)
    → Inv (without p k)
    → Perm (get_channels q) (get_channels p)
release-perm p k q r h v =
    let (c, held, e) = release-inv p k q r h in
    let moved : Perm (get_channels q) (c ∷ get_channels (without p k)) =
      rw e at (enqueue-perm (without p k) c v) in
    Perm.trans moved (Perm.symm (without-perm p k c held))

abbrev pub addresses : List ChannelAccount → List Text
addresses = map (λ c. c.address)

-- The pool names no channel twice.
abbrev pub HasDistinctChannels : ChannelAccountsPool → Type 0
HasDistinctChannels p = Nodup (addresses (get_channels p))

pub perm-HasDistinct :
    {cs ds : List ChannelAccount} → Perm cs ds → Nodup (addresses ds) → Nodup (addresses cs)
perm-HasDistinct h = Perm.nodup (Perm.symm (Perm.map _ h))

pub not-mem-addresses :
    (c : ChannelAccount) (cs : List ChannelAccount)
    → some_same c cs ≡ false
    → ¬ Mem c.address (addresses cs)
unfolding some_same
not-mem-addresses c [] h m = not-mem-nil m
not-mem-addresses c (d ∷ ds) h m =
    Or.elim (λ x y. absurd x) (mem-cons.0 m) (λ e. ground (arith, text_eq_iff d.address c.address))
      (not-mem-addresses c ds (ground arith))
