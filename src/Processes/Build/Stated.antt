-- ===== src/Processes/Build/Stated.antt =====
-- The calls of the builder that an input of core/processes/build-transaction/index.ts asks for, stated
-- apart from the code, and that the calls of the code are these.
use mathlib.Core.Option
use colibri.Common.{
  ℕ, zero, suc, ◌≡◌, refl, ap, ◌∙◌, Bool, true, false, Option, none, some, List, [], ◌∷◌, ◌++◌,
  push_some, map, Text, not, ◌&&◌, if◌then◌else◌,
}
use colibri.Processes.Sdk.{
  Account, BuilderCall, set_soroban_data, set_min_account_sequence, set_min_account_sequence_age,
  set_min_account_sequence_ledger_gap, set_extra_signers, set_ledgerbounds, set_timebounds,
  set_timeout, add_memo, add_operation, Sdk, attempt,
}
use colibri.Processes.Build.{
  Bounds, TransactionPreconditions, BuildError, BuildInput, truthy_number, truthy_text, or_no_limit,
  is_given, load_account, source_account,
}
use colibri.Processes.Build.Calls.{
  to_option, has_conflict, condition_calls, timeout_calls, builder_calls,
}

-- A missing bound is 0.
abbrev pub bound : Option ℕ → ℕ
bound none = 0
bound (some n) = n

-- A time window and a timeout that is not 0 exclude each other.
abbrev pub excludes : Option Bounds → Option ℕ → Bool
excludes (some window) (some (suc n)) = true
excludes _ _ = false

abbrev pub asks_twice : Option TransactionPreconditions → Bool
asks_twice none = false
asks_twice (some p) = excludes p.time_bounds p.timeout_seconds

bound-eq : (o : Option ℕ) → or_no_limit o ≡ bound o
bound-eq none = refl
bound-eq (some n) = refl

to_option-attempted : (e : BuildError) (o : Option Account) → to_option (attempt e o) ≡ o
to_option-attempted e none = refl
to_option-attempted e (some a) = refl

module _ {Op Memo Data : Type 0} where
  -- One call for a value that is given; for a text, if it is not empty, and for a number, if it is not 0.
  abbrev pub given_calls :
      {A : Type 0} → (A → BuilderCall Op Memo Data) → Option A → List (BuilderCall Op Memo Data)
  given_calls f none = []
  given_calls f (some a) = f a ∷ []

  abbrev pub text_calls :
      (Text → BuilderCall Op Memo Data) → Option Text → List (BuilderCall Op Memo Data)
  text_calls f none = []
  text_calls f (some []) = []
  text_calls f (some (c ∷ s)) = f (c ∷ s) ∷ []

  abbrev pub number_calls :
      (ℕ → BuilderCall Op Memo Data) → Option ℕ → List (BuilderCall Op Memo Data)
  number_calls f none = []
  number_calls f (some zero) = []
  number_calls f (some (suc n)) = f (suc n) ∷ []

  abbrev pub bounds_calls :
      (ℕ → ℕ → BuilderCall Op Memo Data) → Option Bounds → List (BuilderCall Op Memo Data)
  bounds_calls f none = []
  bounds_calls f (some b) = f (bound b.low) (bound b.high) ∷ []

  abbrev pub stated_conditions : Option TransactionPreconditions → List (BuilderCall Op Memo Data)
  stated_conditions none = []
  stated_conditions (some p) =
      text_calls set_min_account_sequence p.min_account_sequence
      ++ (number_calls set_min_account_sequence_age p.min_account_sequence_age
          ++ (number_calls set_min_account_sequence_ledger_gap p.min_account_sequence_ledger_gap
              ++ (given_calls set_extra_signers p.extra_signers
                  ++ (bounds_calls set_ledgerbounds p.ledger_bounds
                      ++ (bounds_calls set_timebounds p.time_bounds
                          ++ (number_calls set_timeout p.timeout_seconds ++ []))))))

  -- Without a time window and a timeout that is not 0, a timeout of 0, which is none.
  abbrev pub open_end : Option Bounds → Option ℕ → List (BuilderCall Op Memo Data)
  open_end none none = set_timeout 0 ∷ []
  open_end none (some zero) = set_timeout 0 ∷ []
  open_end none (some (suc n)) = []
  open_end (some window) timeout = []

  abbrev pub stated_timeout : Option TransactionPreconditions → List (BuilderCall Op Memo Data)
  stated_timeout none = set_timeout 0 ∷ []
  stated_timeout (some p) = open_end p.time_bounds p.timeout_seconds

  -- Every call that an input asks for, in order.
  abbrev pub stated_calls :
      {W : Type 0} → BuildInput W Op Memo Data → List (BuilderCall Op Memo Data)
  stated_calls i =
      given_calls set_soroban_data i.soroban_data
      ++ (stated_conditions i.preconditions
          ++ (stated_timeout i.preconditions
              ++ (given_calls add_memo i.memo ++ map add_operation i.operations)))

  made-given :
      {A : Type 0} (f : A → BuilderCall Op Memo Data) (o : Option A)
      (rest : List (BuilderCall Op Memo Data))
      → push_some (Option.map f o) rest ≡ given_calls f o ++ rest
  made-given f none rest = refl
  made-given f (some a) rest = refl

  made-text :
      (f : Text → BuilderCall Op Memo Data) (o : Option Text)
      (rest : List (BuilderCall Op Memo Data))
      → push_some (Option.map f (truthy_text o)) rest ≡ text_calls f o ++ rest
  made-text f none rest = refl
  made-text f (some []) rest = refl
  made-text f (some (c ∷ s)) rest = refl

  made-number :
      (f : ℕ → BuilderCall Op Memo Data) (o : Option ℕ) (rest : List (BuilderCall Op Memo Data))
      → push_some (Option.map f (truthy_number o)) rest ≡ number_calls f o ++ rest
  made-number f none rest = refl
  made-number f (some zero) rest = refl
  made-number f (some (suc n)) rest = refl

  made-bounds :
      (f : ℕ → ℕ → BuilderCall Op Memo Data) (o : Option Bounds)
      (rest : List (BuilderCall Op Memo Data))
      → push_some (Option.map (λ b. f (or_no_limit b.low) (or_no_limit b.high)) o) rest
        ≡ bounds_calls f o ++ rest
  made-bounds f none rest = refl
  made-bounds f (some b) rest =
      ap (λ (n : ℕ). f n (or_no_limit b.high) ∷ rest) (bound-eq b.low)
      ∙ ap (λ (n : ℕ). f (bound b.low) n ∷ rest) (bound-eq b.high)

  conditions-eq :
      (p : Option TransactionPreconditions)
      → condition_calls {Op = Op} {Memo = Memo} {Data = Data} p ≡ stated_conditions p
  conditions-eq none = refl
  conditions-eq (some p) =
      made-text set_min_account_sequence p.min_account_sequence _
      ∙ ap (λ cs. text_calls set_min_account_sequence p.min_account_sequence ++ cs)
          (made-number set_min_account_sequence_age p.min_account_sequence_age _
            ∙ ap (λ cs. number_calls set_min_account_sequence_age p.min_account_sequence_age ++ cs)
                (made-number set_min_account_sequence_ledger_gap p.min_account_sequence_ledger_gap _
                  ∙ ap
                      (λ cs.
                        number_calls set_min_account_sequence_ledger_gap
                          p.min_account_sequence_ledger_gap
                        ++ cs)
                      (made-given set_extra_signers p.extra_signers _
                        ∙ ap (λ cs. given_calls set_extra_signers p.extra_signers ++ cs)
                            (made-bounds set_ledgerbounds p.ledger_bounds _
                              ∙ ap (λ cs. bounds_calls set_ledgerbounds p.ledger_bounds ++ cs)
                                  (made-bounds set_timebounds p.time_bounds _
                                    ∙ ap (λ cs. bounds_calls set_timebounds p.time_bounds ++ cs)
                                        (made-number set_timeout p.timeout_seconds []))))))

  open_end-eq :
      (window : Option Bounds) (timeout : Option ℕ)
      → (if not (is_given window) && not (is_given (truthy_number timeout))
          then set_timeout 0 ∷ []
          else [])
        ≡ open_end window timeout
  open_end-eq none none = refl
  open_end-eq none (some zero) = refl
  open_end-eq none (some (suc n)) = refl
  open_end-eq (some window) timeout = refl

  timeout-eq :
      (p : Option TransactionPreconditions)
      → timeout_calls {Op = Op} {Memo = Memo} {Data = Data} p ≡ stated_timeout p
  timeout-eq none = refl
  timeout-eq (some p) = open_end-eq p.time_bounds p.timeout_seconds

  -- The calls of the code are those that the input asks for.
  pub builder_calls-eq :
      {W : Type 0} (i : BuildInput W Op Memo Data) → builder_calls i ≡ stated_calls i
  builder_calls-eq i =
      ap (λ cs. push_some (Option.map set_soroban_data i.soroban_data) [] ++ cs)
        (ap
            (λ cs.
              cs
              ++ (timeout_calls i.preconditions
                  ++ (push_some (Option.map add_memo i.memo) [] ++ map add_operation i.operations)))
            (conditions-eq i.preconditions)
          ∙ ap (λ cs. stated_conditions i.preconditions ++ cs)
              (ap
                  (λ cs.
                    cs
                    ++ (push_some (Option.map add_memo i.memo) []
                        ++ map add_operation i.operations))
                  (timeout-eq i.preconditions)
                ∙ ap
                    (λ cs. stated_timeout i.preconditions ++ (cs ++ map add_operation i.operations))
                    (memo_eq i.memo)))
      ∙ ap
          (λ cs.
            cs
            ++ (stated_conditions i.preconditions
                ++ (stated_timeout i.preconditions
                    ++ (given_calls add_memo i.memo ++ map add_operation i.operations))))
          (data_eq i.soroban_data)
    where
      memo_eq : (o : Option Memo) → push_some (Option.map add_memo o) [] ≡ given_calls add_memo o
      memo_eq none = refl
      memo_eq (some a) = refl

      data_eq :
          (o : Option Data)
          → push_some (Option.map set_soroban_data o) [] ≡ given_calls set_soroban_data o
      data_eq none = refl
      data_eq (some a) = refl

excludes-eq :
    (window : Option Bounds) (timeout : Option ℕ)
    → (is_given window && is_given (truthy_number timeout)) ≡ excludes window timeout
excludes-eq none timeout = refl
excludes-eq (some window) none = refl
excludes-eq (some window) (some zero) = refl
excludes-eq (some window) (some (suc n)) = refl

pub has_conflict-eq : (p : Option TransactionPreconditions) → has_conflict p ≡ asks_twice p
has_conflict-eq none = refl
has_conflict-eq (some p) = excludes-eq p.time_bounds p.timeout_seconds

module _ {W Tx Op Memo Data Builder : Type 0} (sdk : Sdk Tx Op Memo Data Builder) where
  abbrev pub loaded : Option (Text → W → W × Option Account) → Text → W → Option Account
  loaded none source w = none
  loaded (some get_account) source w = (get_account source w).1

  abbrev pub account_with :
      Option Text → Option (Text → W → W × Option Account) → Text → W → Option Account
  account_with none rpc source w = loaded rpc source w
  account_with (some []) rpc source w = loaded rpc source w
  account_with (some (c ∷ s)) rpc source w = sdk.new_account source (c ∷ s)

  -- The account of the source: with the sequence number of the input, if that is a text that is not
  -- empty, and else as the server gives it, if there is one.
  abbrev pub stated_account : BuildInput W Op Memo Data → W → Option Account
  stated_account i w = account_with i.sequence i.rpc i.source w

  loaded-eq :
      (rpc : Option (Text → W → W × Option Account)) (source : Text) (w : W)
      → to_option (load_account rpc source w).1 ≡ loaded rpc source w
  unfolding load_account
  loaded-eq none source w = refl
  loaded-eq (some get_account) source w = to_option-attempted _ _

  account-eq :
      (i : BuildInput W Op Memo Data) (w : W) (sequence : Option Text)
      → to_option (source_account sdk i (truthy_text sequence) w).1
        ≡ account_with sequence i.rpc i.source w
  unfolding source_account
  account-eq i w none = loaded-eq i.rpc i.source w
  account-eq i w (some []) = loaded-eq i.rpc i.source w
  account-eq i w (some (c ∷ s)) = to_option-attempted _ _

  pub source_account-eq :
      (i : BuildInput W Op Memo Data) (w : W)
      → to_option (source_account sdk i (truthy_text i.sequence) w).1 ≡ stated_account i w
  source_account-eq i w = account-eq i w i.sequence
