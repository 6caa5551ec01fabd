-- ===== src/Signing/Envelope/Merge.antt =====
-- What `removeConflictingRequirements` of core/processes/envelope-signing-requirements/index.ts
-- makes of a list of requirements.
use colibri.Common.{
  ℕ, max, ◌≡◌, ◌≢◌, Bool, inl, inr, List, [], ◌∷◌, Text, text_eq, text_eq_iff, if◌then◌else◌, All,
  arith, Bool-cases,
}
use colibri.Signing.Threshold.{OperationThreshold, level, SignatureRequirementRaw}
use colibri.Signing.Envelope.{
  SignatureRequirement, merge_requirement, merge_all, public_key_of,
  remove_conflicting_requirements,
}

abbrev pub level_if : Bool → OperationThreshold → ℕ
level_if b t = if b then level t else 0

-- The highest level that a list asks of an account, 0 if it does not name the account.
unfoldable pub level_in : Text → List SignatureRequirement → ℕ
level_in a [] = 0
level_in a (r ∷ rs) = max (level_if (text_eq r.address a) r.threshold_level) (level_in a rs)

-- The same for the requirements of the operations of a transaction of `source`.
unfoldable pub demanded : Text → Text → List SignatureRequirementRaw → ℕ
demanded source a [] = 0
demanded source a (r ∷ rs) =
    max (level_if (text_eq (public_key_of source r.signer) a) r.threshold_level)
      (demanded source a rs)

-- No account is named twice.
abbrev pub Distinct : List SignatureRequirement → Type 0
Distinct [] = Unit {0}
Distinct (r ∷ rs) = All (λ q. q.address ≢ r.address) rs × Distinct rs

level_in-merge :
    (a key : Text) (t : OperationThreshold) (rs : List SignatureRequirement)
    → level_in a (merge_requirement key t rs) ≡ max (level_in a rs) (level_if (text_eq key a) t)
unfolding level_in merge_requirement
level_in-merge a key t [] = omega arith
level_in-merge a key t (r ∷ rs) = elim (Bool-cases (text_eq r.address key)) [
  | inl same ↦ ground (arith, (text_eq_iff r.address key).0 same)
  | inr other ↦ ground (arith, level_in-merge a key t rs)
]

level_in-merge_all :
    (source a : Text) (raw : List SignatureRequirementRaw) (rs : List SignatureRequirement)
    → level_in a (merge_all source raw rs) ≡ max (level_in a rs) (demanded source a raw)
unfolding merge_all demanded
level_in-merge_all source a [] rs = omega arith
level_in-merge_all source a (r ∷ raw) rs = omega (
  arith,
  level_in-merge a (public_key_of source r.signer) r.threshold_level rs,
  level_in-merge_all source a raw
      (merge_requirement (public_key_of source r.signer) r.threshold_level rs),
)

All-merge :
    (key a : Text) (t : OperationThreshold) (rs : List SignatureRequirement)
    → key ≢ a
    → All (λ q. q.address ≢ a) rs
    → All (λ q. q.address ≢ a) (merge_requirement key t rs)
unfolding merge_requirement
All-merge key a t [] h hs = (h, tt)
All-merge key a t (r ∷ rs) h hs = elim (Bool-cases (text_eq r.address key)) [
  | inl same ↦ rw same hs
  | inr other ↦ rw other (hs.0, All-merge key a t rs h hs.1)
]

merge-Distinct :
    (key : Text) (t : OperationThreshold) (rs : List SignatureRequirement)
    → Distinct rs
    → Distinct (merge_requirement key t rs)
unfolding merge_requirement
merge-Distinct key t [] d = (tt, tt)
merge-Distinct key t (r ∷ rs) d = elim (Bool-cases (text_eq r.address key)) [
  | inl same ↦ rw same d
  | inr other ↦ rw other (
    All-merge key r.address t rs (ground (arith, text_eq_iff r.address key)) d.0,
    merge-Distinct key t rs d.1,
  )
]

merge_all-Distinct :
    (source : Text) (raw : List SignatureRequirementRaw) (rs : List SignatureRequirement)
    → Distinct rs
    → Distinct (merge_all source raw rs)
unfolding merge_all
merge_all-Distinct source [] rs d = d
merge_all-Distinct source (r ∷ raw) rs d =
    merge_all-Distinct source raw _
      (merge-Distinct (public_key_of source r.signer) r.threshold_level rs d)

-- The merged list names no account twice, and asks of every account the highest level that the
-- transaction's source or one of the operations asks of it, and of no further account anything.
pub remove_conflicting_requirements-exact :
    (raw : List SignatureRequirementRaw) (source : SignatureRequirement)
    → Distinct (remove_conflicting_requirements raw source)
      × ((a : Text)
          → level_in a (remove_conflicting_requirements raw source)
            ≡ max
                (level_if (text_eq source.address a) source.threshold_level)
                (demanded source.address a raw))
unfolding remove_conflicting_requirements level_in
remove_conflicting_requirements-exact raw source = (
  merge_all-Distinct source.address raw (source ∷ []) (tt, tt),
  λ a. omega (arith, level_in-merge_all source.address a raw (source ∷ [])),
)
