-- ===== src/Streamer/Delivery.antt =====
-- The ledgers that rpc-streamer/src/variants/ledger/index.ts brings to the handler from an archive.
pub mod Handover
use colibri.Common.{
  ℕ, zero, suc, ◌+◌, ◌-◌, ◌≤◌, ◌<◌, Bool, true, false, ◌&&◌, Option, none, some, List, [], ◌∷◌,
  ◌++◌, Result, ok, err, ◌≡◌, refl, ◌∙◌, ap, sym, leb, ltb, leb→le, arith, if◌then◌else◌, le→leb,
}
use colibri.Streamer.Effect.{
  State, Effect, pure, continue_with, ◌>>=◌, Options, maybe_checkpoint, attempt, IngestRound, go_on,
  returns, ingest_on, if_going, while_within,
}
use colibri.Streamer.Ledgers.{
  LedgerEntry, LedgersResponse, LedgerSource, archive_ledger_round, ingest_archive_ledgers,
}

-- `n` ledgers from `first` on.
unfoldable pub entries : (ℕ → LedgerEntry) → (first n : ℕ) → List LedgerEntry
entries entry first zero = []
entries entry first (suc n) = entry first ∷ entries entry (first + 1) n

unfoldable pub deliver_all : {W : Type 0} → (W → LedgerEntry → W) → W → List LedgerEntry → W
deliver_all deliver w [] = w
deliver_all deliver w (e ∷ es) = deliver_all deliver (deliver w e) es

pub entries-append :
    (entry : ℕ → LedgerEntry) (first m n : ℕ)
    → entries entry first (m + n) ≡ entries entry first m ++ entries entry (first + m) n
unfolding entries
entries-append entry first zero n =
    let none_first : 0 + n ≡ n = omega arith in
    let same : first ≡ first + 0 = omega arith in
    ap (entries entry first) none_first ∙ ap (λ k. entries entry k n) same
entries-append entry first (suc m) n =
    let one_more : suc m + n ≡ suc (m + n) = omega arith in
    let same : first + 1 + m ≡ first + suc m = omega arith in
    ap (entries entry first) one_more
    ∙ ap (λ es. entry first ∷ es) (entries-append entry (first + 1) m n)
    ∙ ap (λ k. (entry first ∷ entries entry (first + 1) m) ++ entries entry k n) same

pub deliver_all-append :
    {W : Type 0} (deliver : W → LedgerEntry → W) (w : W) (xs ys : List LedgerEntry)
    → deliver_all deliver w (xs ++ ys) ≡ deliver_all deliver (deliver_all deliver w xs) ys
unfolding deliver_all
deliver_all-append deliver w [] ys = refl
deliver_all-append deliver w (x ∷ xs) ys = deliver_all-append deliver (deliver w x) xs ys

pub not_below : (m n : ℕ) → n ≤ m → ltb m n ≡ false
not_below m n h = ground arith

above : (m n : ℕ) → n < m → leb m n ≡ false
above m n h = ground arith

abbrev pub at : {W : Type 0} → W → Bool → State W
at w b = record { world = w; is_running = b }

-- A server that has every ledger, first in the answer to a request for it, a handler that neither
-- throws nor stops the streamer, and waits and checkpoints that change nothing.
pub record Serving {W : Type 0} (entry : ℕ → LedgerEntry) (deliver : W → LedgerEntry → W)
    (latest : ℕ) (s : LedgerSource W) (o : Options W) : Type 0 where
  pub more : ℕ → List LedgerEntry
  pub numbered : (n : ℕ) → (entry n).sequence ≡ n
  pub fetches :
      (n : ℕ) (w : W)
      → s.get_ledgers n (at w true)
        ≡ (at w true, ok (record { ledgers = entry n ∷ more n; latest_ledger = latest }))
  pub delivers :
      (e : LedgerEntry) (w : W) → s.on_ledger e (at w true) ≡ (at (deliver w e) true, ok tt)
  pub waits : (w : W) → s.wait_archival (at w true) ≡ at w true
  pub checkpoints : (n : ℕ) (w : W) → maybe_checkpoint o n (at w true) ≡ (at w true, ok tt)

module _ {W : Type 0} (entry : ℕ → LedgerEntry) (deliver : W → LedgerEntry → W) (latest : ℕ)
    (s : LedgerSource W) (o : Options W) (v : Serving entry deliver latest s o) where
  archive_ledger_round-eq :
      (stop_ledger current : ℕ) (w : W)
      → current ≤ stop_ledger
      → archive_ledger_round s o stop_ledger current (at w true)
        ≡ (at (deliver w (entry current)) true, ok (go_on (current + 1)))
  unfolding archive_ledger_round attempt
  archive_ledger_round-eq stop_ledger current w le =
      let short : ltb stop_ledger (entry current).sequence ≡ false =
        ap (ltb stop_ledger) (v.numbered current) ∙ not_below stop_ledger current le in
      rw
        (
          v.fetches current w,
          short,
          v.delivers (entry current) w,
          v.checkpoints current (deliver w (entry current)),
          v.waits (deliver w (entry current)),
        )
        (ap (λ n. (at (deliver w (entry current)) true, ok (go_on (n + 1)))) (v.numbered current))

  -- From a server that has every ledger, `ingestArchiveLedgers` gives the handler exactly the ledgers
  -- from the first to the stop ledger, each once and in order, and returns the ledger after the stop
  -- ledger; fuel for a round per ledger and one more is enough. The handler neither throws nor stops
  -- the streamer, and waits and checkpoints change nothing.
  pub ingest_archive_ledgers-exact :
      (n fuel first stop_ledger : ℕ) (w : W)
      → first + n ≡ stop_ledger + 1
      → n < fuel
      → ingest_archive_ledgers fuel s first stop_ledger o (at w true)
        ≡ (at (deliver_all deliver w (entries entry first n)) true, ok (stop_ledger + 1))
  unfolding ingest_archive_ledgers while_within entries deliver_all
  ingest_archive_ledgers-exact n zero first stop_ledger w e lt = absurd (omega arith)
  ingest_archive_ledgers-exact zero (suc fuel) first stop_ledger w e lt =
      let past : leb first stop_ledger ≡ false = above first stop_ledger (omega arith) in
      let end : first ≡ stop_ledger + 1 = omega arith in rw past (ap (λ n. (at w true, ok n)) end)
  ingest_archive_ledgers-exact (suc n) (suc fuel) first stop_ledger w e lt =
      let within : leb first stop_ledger ≡ true = le→leb first stop_ledger (omega arith) in
      rw (within, archive_ledger_round-eq stop_ledger first w (omega arith))
        (ingest_archive_ledgers-exact n fuel (first + 1) stop_ledger (deliver w (entry first))
          (omega arith) (omega arith))
