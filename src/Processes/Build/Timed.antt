-- ===== src/Processes/Build/Timed.antt =====
-- core/processes/build-transaction/index.ts sets exactly one time constraint, and does what its list of
-- calls says.
use mathlib.Core.Option
use colibri.Common.{
  sym, ap, ◌∙◌, ℕ, ◌+◌, ◌≡◌, refl, Bool, true, false, not, ◌&&◌, Option, none, some, List, [], ◌∷◌,
  ◌++◌, push_some, map, Result, ok, err, ◌>>=◌, if◌then◌else◌, arith, Bool-cases, inl, inr,
}
use colibri.Processes.Sdk.{
  Account, FeeNumber, not_a_number, not_positive, positive, BuilderCall, set_soroban_data,
  set_min_account_sequence, set_min_account_sequence_age, set_min_account_sequence_ledger_gap,
  set_extra_signers, set_ledgerbounds, set_timebounds, set_timeout, add_memo, add_operation, Sdk,
}
use colibri.Processes.Build.{
  Bounds, TransactionPreconditions, BuildError, BuildInput, truthy_number, truthy_text, or_no_limit,
  is_given, then_call, precondition_calls, check_base_fee, check_operations, checks, source_account,
  after_account, after_checks, build_transaction,
}
use colibri.Processes.Build.Stated.{
  asks_twice, stated_calls, stated_account, has_conflict-eq, builder_calls-eq, source_account-eq,
}
use colibri.Processes.Build.Calls.{
  to_option, has_conflict, made, condition_calls, timeout_calls, is_time_call, time_calls,
  builder_calls, perform, build_from-performs, build_from-conflict,
}

abbrev count : Bool → ℕ
count true = 1
count false = 0

module _ {Op Memo Data : Type 0} where
  time_calls-append :
      (cs ds : List (BuilderCall Op Memo Data))
      → time_calls (cs ++ ds) ≡ time_calls cs + time_calls ds
  time_calls-append [] ds = omega arith
  time_calls-append (c ∷ cs) ds = omega (arith, time_calls-append cs ds)

  abbrev option_time : Option (BuilderCall Op Memo Data) → ℕ
  option_time none = 0
  option_time (some c) = is_time_call c

  time_calls-push_some :
      (c : Option (BuilderCall Op Memo Data)) (cs : List (BuilderCall Op Memo Data))
      → time_calls (push_some c cs) ≡ option_time c + time_calls cs
  time_calls-push_some none cs = omega arith
  time_calls-push_some (some c) cs = refl

  untimed {ℓ} :
      {A : Type ℓ} (f : A → BuilderCall Op Memo Data) (o : Option A)
      → ((a : A) → is_time_call (f a) ≡ 0)
      → option_time (Option.map f o) ≡ 0
  untimed f none h = refl
  untimed f (some a) h = h a

  timed {ℓ} :
      {A : Type ℓ} (f : A → BuilderCall Op Memo Data) (o : Option A)
      → ((a : A) → is_time_call (f a) ≡ 1)
      → option_time (Option.map f o) ≡ count (is_given o)
  timed f none h = refl
  timed f (some a) h = h a

module _ (Op Memo Data : Type 0) where
  time_calls-operations :
      (ops : List Op) → time_calls {Op = Op} {Memo = Memo} {Data = Data} (map add_operation ops) ≡ 0
  time_calls-operations [] = refl
  time_calls-operations (op ∷ ops) = omega (arith, time_calls-operations ops)

  time_calls-seven :
      (c1 c2 c3 c4 c5 c6 c7 : Option (BuilderCall Op Memo Data))
      → time_calls (made (c1 ∷ c2 ∷ c3 ∷ c4 ∷ c5 ∷ c6 ∷ c7 ∷ []))
        ≡ option_time c1
          + option_time c2
          + option_time c3
          + option_time c4
          + option_time c5
          + option_time c6
          + option_time c7
  time_calls-seven c1 c2 c3 c4 c5 c6 c7 = omega (
    arith,
    time_calls-push_some c1 (made (c2 ∷ c3 ∷ c4 ∷ c5 ∷ c6 ∷ c7 ∷ [])),
    time_calls-push_some c2 (made (c3 ∷ c4 ∷ c5 ∷ c6 ∷ c7 ∷ [])),
    time_calls-push_some c3 (made (c4 ∷ c5 ∷ c6 ∷ c7 ∷ [])),
    time_calls-push_some c4 (made (c5 ∷ c6 ∷ c7 ∷ [])),
    time_calls-push_some c5 (made (c6 ∷ c7 ∷ [])),
    time_calls-push_some c6 (made (c7 ∷ [])),
    time_calls-push_some c7 (made []),
  )

  time_calls-conditions :
      (p : TransactionPreconditions)
      → time_calls {Op = Op} {Memo = Memo} {Data = Data} (made (precondition_calls p))
        ≡ count (is_given p.time_bounds) + count (is_given (truthy_number p.timeout_seconds))
  time_calls-conditions p =
      let bounds = λ (c : ℕ → ℕ → BuilderCall Op Memo Data) (b : Bounds).
        c (or_no_limit b.low) (or_no_limit b.high) in
      let c1 : Option (BuilderCall Op Memo Data) =
        Option.map set_min_account_sequence (truthy_text p.min_account_sequence) in
      let c2 : Option (BuilderCall Op Memo Data) =
        Option.map set_min_account_sequence_age (truthy_number p.min_account_sequence_age) in
      let c3 : Option (BuilderCall Op Memo Data) =
        Option.map set_min_account_sequence_ledger_gap
          (truthy_number p.min_account_sequence_ledger_gap) in
      let c4 : Option (BuilderCall Op Memo Data) = Option.map set_extra_signers p.extra_signers in
      let c5 : Option (BuilderCall Op Memo Data) =
        Option.map (bounds set_ledgerbounds) p.ledger_bounds in
      let c6 : Option (BuilderCall Op Memo Data) =
        Option.map (bounds set_timebounds) p.time_bounds in
      let c7 : Option (BuilderCall Op Memo Data) =
        Option.map set_timeout (truthy_number p.timeout_seconds) in
      omega (
        arith,
        time_calls-seven c1 c2 c3 c4 c5 c6 c7,
        untimed {Op = Op} {Memo = Memo} {Data = Data} set_min_account_sequence
            (truthy_text p.min_account_sequence) (λ a. refl),
        untimed {Op = Op} {Memo = Memo} {Data = Data} set_min_account_sequence_age
            (truthy_number p.min_account_sequence_age) (λ a. refl),
        untimed {Op = Op} {Memo = Memo} {Data = Data} set_min_account_sequence_ledger_gap
            (truthy_number p.min_account_sequence_ledger_gap) (λ a. refl),
        untimed {Op = Op} {Memo = Memo} {Data = Data} set_extra_signers p.extra_signers (λ a. refl),
        untimed (bounds set_ledgerbounds) p.ledger_bounds (λ a. refl),
        timed (bounds set_timebounds) p.time_bounds (λ a. refl),
        timed {Op = Op} {Memo = Memo} {Data = Data} set_timeout (truthy_number p.timeout_seconds)
            (λ a. refl),
      )

  timeout-once :
      (p : Option TransactionPreconditions)
      → has_conflict p ≡ false
      → time_calls {Op = Op} {Memo = Memo} {Data = Data} (condition_calls p)
          + time_calls {Op = Op} {Memo = Memo} {Data = Data} (timeout_calls p)
        ≡ 1
  timeout-once none h = refl
  timeout-once (some p) h = ground (arith, time_calls-conditions p)

  builder_calls-timed_once :
      {W : Type 0} (i : BuildInput W Op Memo Data)
      → has_conflict i.preconditions ≡ false
      → time_calls (builder_calls i) ≡ 1
  builder_calls-timed_once i h =
      let data_calls : List (BuilderCall Op Memo Data) =
        push_some (Option.map set_soroban_data i.soroban_data) [] in
      let memo_calls : List (BuilderCall Op Memo Data) =
        push_some (Option.map add_memo i.memo) [] in
      let op_calls : List (BuilderCall Op Memo Data) = map add_operation i.operations in
      let conditions : List (BuilderCall Op Memo Data) = condition_calls i.preconditions in
      let limits : List (BuilderCall Op Memo Data) = timeout_calls i.preconditions in
      omega (
        arith,
        time_calls-append data_calls (conditions ++ (limits ++ (memo_calls ++ op_calls))),
        time_calls-append conditions (limits ++ (memo_calls ++ op_calls)),
        time_calls-append limits (memo_calls ++ op_calls),
        time_calls-append memo_calls op_calls,
        time_calls-push_some
            (Option.map {B = BuilderCall Op Memo Data} set_soroban_data i.soroban_data) [],
        untimed {Op = Op} {Memo = Memo} {Data = Data} set_soroban_data i.soroban_data (λ a. refl),
        time_calls-push_some (Option.map {B = BuilderCall Op Memo Data} add_memo i.memo) [],
        untimed {Op = Op} {Memo = Memo} {Data = Data} add_memo i.memo (λ a. refl),
        time_calls-operations i.operations,
        timeout-once i.preconditions h,
      )

abbrev pub is_positive : FeeNumber → Bool
is_positive positive = true
is_positive _ = false

abbrev pub is_nonempty {ℓ} : {A : Type ℓ} → List A → Bool
is_nonempty [] = false
is_nonempty (x ∷ xs) = true

module _ {W Tx Op Memo Data Builder : Type 0} (sdk : Sdk Tx Op Memo Data Builder) where
  -- The input passes the checks.
  abbrev passes : BuildInput W Op Memo Data → Bool
  passes i =
      is_positive (sdk.fee_number i.base_fee)
      && (is_nonempty i.operations && not (has_conflict i.preconditions))

  -- What is built for an accepted input.
  abbrev built_by_calls : BuildInput W Op Memo Data → W → Option Tx
  built_by_calls i w =
      then_call (to_option (source_account sdk i (truthy_text i.sequence) w).1) (λ account.
        then_call (sdk.new_builder account i.base_fee i.network_passphrase)
          (λ tx. then_call (perform sdk (builder_calls i) tx) sdk.build))

  to_option-bind_account :
      (i : BuildInput W Op Memo Data) (x : W × Result BuildError Account)
      → has_conflict i.preconditions ≡ false
      → to_option (after_account sdk i x).1
        ≡ then_call (to_option x.1) (λ account.
          then_call
            (sdk.new_builder account i.base_fee i.network_passphrase)
            (λ tx. then_call (perform sdk (builder_calls i) tx) sdk.build))
  unfolding after_account
  to_option-bind_account i (w, ok account) h = build_from-performs sdk i account h
  to_option-bind_account i (w, err e) h = refl

  after_account-conflict :
      (i : BuildInput W Op Memo Data) (x : W × Result BuildError Account)
      → has_conflict i.preconditions ≡ true
      → to_option (after_account sdk i x).1 ≡ none
  unfolding after_account
  after_account-conflict i (w, ok account) h = build_from-conflict sdk i account h
  after_account-conflict i (w, err e) h = refl

  built_operations :
      (i : BuildInput W Op Memo Data) (w : W) (n : FeeNumber) (ops : List Op)
      → to_option (after_checks sdk i w (check_base_fee n >>= λ _. check_operations ops)).1 ≡ (
          if is_positive n && (is_nonempty ops && not (has_conflict i.preconditions))
          then built_by_calls i w
          else none)
  unfolding check_base_fee check_operations after_checks
  built_operations i w not_a_number ops = refl
  built_operations i w not_positive ops = refl
  built_operations i w positive [] = refl
  built_operations i w positive (op ∷ ops) = elim (Bool-cases (has_conflict i.preconditions)) [
    | inl conflict ↦ rw conflict (after_account-conflict i _ conflict)
    | inr fine ↦ rw fine (to_option-bind_account i _ fine)
  ]

  built :
      (i : BuildInput W Op Memo Data) (w : W)
      → to_option (build_transaction sdk i w).1 ≡ (if passes i then built_by_calls i w else none)
  unfolding build_transaction checks
  built i w = built_operations i w (sdk.fee_number i.base_fee) i.operations

  -- The fee is a positive number, there are operations, and the time constraints do not exclude each other.
  abbrev pub is_accepted : BuildInput W Op Memo Data → Bool
  is_accepted i =
      is_positive (sdk.fee_number i.base_fee)
      && (is_nonempty i.operations && not (asks_twice i.preconditions))

  -- What the calls that the input asks for give on a builder of the account of the source.
  abbrev pub expected : BuildInput W Op Memo Data → W → Option Tx
  expected i w = then_call (stated_account sdk i w) (λ account.
      then_call (sdk.new_builder account i.base_fee i.network_passphrase)
        (λ tx. then_call (perform sdk (stated_calls i) tx) sdk.build))

  built_by_calls-eq : (i : BuildInput W Op Memo Data) (w : W) → built_by_calls i w ≡ expected i w
  built_by_calls-eq i w =
      ap
        (λ (o : Option Account). then_call o (λ account.
          then_call (sdk.new_builder account i.base_fee i.network_passphrase)
            (λ tx. then_call (perform sdk (builder_calls i) tx) sdk.build)))
        (source_account-eq sdk i w)
      ∙ ap
          (λ (cs : List (BuilderCall Op Memo Data)). then_call (stated_account sdk i w) (λ account.
            then_call (sdk.new_builder account i.base_fee i.network_passphrase)
              (λ tx. then_call (perform sdk cs tx) sdk.build)))
          (builder_calls-eq i)

-- For every input and world: the transaction is the one that the calls that the input asks for give, in
-- order, on a builder of the source's account, with the fee and the passphrase of the input, if the fee
-- is a positive number, there are operations and the time constraints do not exclude each other;
-- otherwise, or where the account or a call fails, there is none. Exactly one of the calls sets a time
-- constraint, if they do not exclude each other.
pub build_transaction-performs :
    {W Tx Op Memo Data Builder : Type 0} (sdk : Sdk Tx Op Memo Data Builder)
    (i : BuildInput W Op Memo Data) (w : W)
    → (to_option (build_transaction sdk i w).1
        ≡ (if is_accepted sdk i then expected sdk i w else none))
      × (asks_twice i.preconditions ≡ false → time_calls (stated_calls i) ≡ 1)
build_transaction-performs {Op} {Memo} {Data} sdk i w =
    let conflict = has_conflict-eq i.preconditions in
    let calls = builder_calls-eq i in
    (
      built sdk i w
          ∙ ap
              (λ (b : Bool).
                if is_positive (sdk.fee_number i.base_fee) && (is_nonempty i.operations && not b)
                then built_by_calls sdk i w
                else none)
              conflict
          ∙ ap (λ (t : Option _). if is_accepted sdk i then t else none)
              (built_by_calls-eq sdk i w),
      λ h. sym (ap time_calls calls) ∙ builder_calls-timed_once Op Memo Data i (conflict ∙ h),
    )
