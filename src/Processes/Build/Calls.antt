-- ===== src/Processes/Build/Calls.antt =====
-- What core/processes/build-transaction/index.ts makes of the builder, as one list of calls.
use mathlib.Core.Option
use mathlib.Core.Path.{fun_ext}
use colibri.Common.{
  ℕ, ◌+◌, ◌≡◌, refl, sym, ap, ◌∙◌, Bool, true, false, Option, none, some, List, [], ◌∷◌, ◌++◌,
  push_some, map, Result, ok, err, ◌>>=◌, if◌then◌else◌, Option-cases, Bool-cases, inl, inr,
}
use colibri.Processes.Sdk.{
  Account, BuilderCall, set_soroban_data, set_timebounds, set_timeout, add_memo, add_operation, Sdk,
  attempt,
}
use colibri.Processes.Build.{
  TransactionPreconditions, BuildError, failed_to_set_preconditions, could_not_set_soroban_data,
  unexpected_error, could_not_build_transaction, BuildInput, no_limit, conflicts,
  is_timeout_not_defined, then_call, call_each, precondition_calls, call_if, append_preconditions,
  with_preconditions, add_operations, build_from,
}

abbrev pub to_option {ℓ κ} : {E : Type ℓ} {A : Type κ} → Result E A → Option A
to_option (ok a) = some a
to_option (err e) = none

abbrev pub has_conflict : Option TransactionPreconditions → Bool
has_conflict none = false
has_conflict (some p) = conflicts p

module _ {Op Memo Data : Type 0} where
  abbrev pub made : List (Option (BuilderCall Op Memo Data)) → List (BuilderCall Op Memo Data)
  made [] = []
  made (c ∷ cs) = push_some c (made cs)

  -- The calls for the preconditions, in order.
  abbrev pub condition_calls : Option TransactionPreconditions → List (BuilderCall Op Memo Data)
  condition_calls none = []
  condition_calls (some p) = made (precondition_calls p)

  abbrev pub timeout_calls : Option TransactionPreconditions → List (BuilderCall Op Memo Data)
  timeout_calls p = if is_timeout_not_defined p then set_timeout no_limit ∷ [] else []

  abbrev pub is_time_call : BuilderCall Op Memo Data → ℕ
  is_time_call (set_timebounds low high) = 1
  is_time_call (set_timeout seconds) = 1
  is_time_call _ = 0

  abbrev pub time_calls : List (BuilderCall Op Memo Data) → ℕ
  time_calls [] = 0
  time_calls (c ∷ cs) = is_time_call c + time_calls cs

  -- Every call that building makes, in order.
  abbrev pub builder_calls :
      {W : Type 0} → BuildInput W Op Memo Data → List (BuilderCall Op Memo Data)
  builder_calls i =
      push_some (Option.map set_soroban_data i.soroban_data) []
      ++ (condition_calls i.preconditions
          ++ (timeout_calls i.preconditions
              ++ (push_some (Option.map add_memo i.memo) [] ++ map add_operation i.operations)))

module _ {ℓ κ λ'} {E : Type ℓ} {A : Type κ} {B : Type λ'} where
  to_option-bind_attempt :
      (e : E) (o : Option A) (k : A → Result E B)
      → to_option (attempt e o >>= k) ≡ then_call o (λ a. to_option (k a))
  to_option-bind_attempt e none k = refl
  to_option-bind_attempt e (some a) k = refl

  to_option-bind :
      (m : Result E A) (k : A → Result E B)
      → to_option (m >>= k) ≡ then_call (to_option m) (λ a. to_option (k a))
  to_option-bind (ok a) k = refl
  to_option-bind (err e) k = refl

to_option-attempt {ℓ κ} :
    {E : Type ℓ} {A : Type κ} (e : E) (o : Option A) → to_option (attempt e o) ≡ o
to_option-attempt e none = refl
to_option-attempt e (some a) = refl

then_call-some {ℓ} : {A : Type ℓ} (o : Option A) → then_call o (λ a. some a) ≡ o
then_call-some none = refl
then_call-some (some a) = refl

then_call_assoc {ℓ κ λ'} :
    {A : Type ℓ} {B : Type κ} {C : Type λ'} (o : Option A) (f : A → Option B) (g : B → Option C)
    → then_call (then_call o f) g ≡ then_call o (λ a. then_call (f a) g)
then_call_assoc none f g = refl
then_call_assoc (some a) f g = refl

module _ {Tx Op Memo Data Builder : Type 0} (sdk : Sdk Tx Op Memo Data Builder) where
  unfoldable pub perform : List (BuilderCall Op Memo Data) → Builder → Option Builder
  perform [] tx = some tx
  perform (c ∷ cs) tx = then_call (sdk.call c tx) (perform cs)

  perform-append :
      (cs ds : List (BuilderCall Op Memo Data)) (tx : Builder)
      → perform (cs ++ ds) tx ≡ then_call (perform cs tx) (perform ds)
  unfolding perform
  perform-append [] ds tx = refl
  perform-append (c ∷ cs) ds tx = elim (Option-cases (sdk.call c tx)) [
    | inl fails ↦ rw fails
    | inr (tx', calls) ↦ rw calls (perform-append cs ds tx')
  ]

  call_each-eq :
      (cs : List (Option (BuilderCall Op Memo Data))) (tx : Builder)
      → call_each sdk cs tx ≡ perform (made cs) tx
  unfolding call_each perform
  call_each-eq [] tx = refl
  call_each-eq (none ∷ cs) tx = call_each-eq cs tx
  call_each-eq (some c ∷ cs) tx = ap (then_call (sdk.call c tx)) (fun_ext (λ b. call_each-eq cs b))

  last_call :
      (e : BuildError) (c : Option (BuilderCall Op Memo Data)) (tx : Builder)
      → to_option (attempt e (call_if sdk c tx)) ≡ perform (push_some c []) tx
  unfolding perform
  last_call e none tx = refl
  last_call e (some c) tx = to_option-attempt e (sdk.call c tx) ∙ sym (then_call-some _)

  -- A phase of the code, and what follows it.
  phase_calls :
      (m : Builder → Result BuildError Builder) (cs ds : List (BuilderCall Op Memo Data))
      (k : Builder → Result BuildError Tx)
      → ((tx : Builder) → to_option (m tx) ≡ perform cs tx)
      → ((tx : Builder) → to_option (k tx) ≡ then_call (perform ds tx) sdk.build)
      → (tx : Builder) → to_option (m tx >>= k) ≡ then_call (perform (cs ++ ds) tx) sdk.build
  phase_calls m cs ds k hm hk tx =
      to_option-bind (m tx) k
      ∙ rw (hm tx) (
          ap (then_call (perform cs tx)) (fun_ext hk)
          ∙ sym (then_call_assoc (perform cs tx) (perform ds) sdk.build)
          ∙ ap (λ (o : Option Builder). then_call o sdk.build) (sym (perform-append cs ds tx)))

  to_option-add_operations :
      (ops : List Op) (tx : Builder)
      → to_option (add_operations sdk ops tx) ≡ perform (map add_operation ops) tx
  unfolding add_operations perform
  to_option-add_operations [] tx = refl
  to_option-add_operations (op ∷ ops) tx = elim (Option-cases (sdk.call (add_operation op) tx)) [
    | inl fails ↦ rw fails
    | inr (tx', calls) ↦ rw calls (to_option-add_operations ops tx')
  ]

  last_phase :
      (ops : List Op) (tx : Builder)
      → to_option
          (add_operations sdk ops tx >>= λ b. attempt could_not_build_transaction (sdk.build b))
        ≡ then_call (perform (map add_operation ops) tx) sdk.build
  last_phase ops tx =
      to_option-bind (add_operations sdk ops tx) _
      ∙ rw (to_option-add_operations ops tx) (
          ap (then_call (perform (map add_operation ops) tx))
            (fun_ext (λ b. to_option-attempt could_not_build_transaction (sdk.build b))))

  to_option-with_preconditions :
      (p : Option TransactionPreconditions) (tx : Builder)
      → has_conflict p ≡ false
      → to_option (with_preconditions sdk p tx) ≡ perform (condition_calls p) tx
  unfolding with_preconditions append_preconditions perform
  to_option-with_preconditions none tx h = refl
  to_option-with_preconditions (some p) tx h =
      rw h
        (to_option-attempt failed_to_set_preconditions _ ∙ call_each-eq (precondition_calls p) tx)

  with_preconditions-conflict :
      (p : Option TransactionPreconditions) (tx : Builder)
      → has_conflict p ≡ true
      → to_option (with_preconditions sdk p tx) ≡ none
  unfolding with_preconditions
  with_preconditions-conflict none tx h = cc
  with_preconditions-conflict (some p) tx h = rw h

  perform-timeout :
      (p : Option TransactionPreconditions) (tx : Builder)
      → call_if sdk (if is_timeout_not_defined p then some (set_timeout no_limit) else none) tx
        ≡ perform (timeout_calls p) tx
  unfolding perform
  perform-timeout p tx = elim (Bool-cases (is_timeout_not_defined p)) [
    | inl open_ended ↦ rw open_ended (sym (then_call-some _))
    | inr limited ↦ rw limited
  ]

  -- Where the time constraints do not conflict, the calls of the list in order, and `build`.
  pub build_from-performs :
      {W : Type 0} (i : BuildInput W Op Memo Data) (account : Account)
      → has_conflict i.preconditions ≡ false
      → to_option (build_from sdk i account)
        ≡ then_call
            (sdk.new_builder account i.base_fee i.network_passphrase)
            (λ tx. then_call (perform (builder_calls i) tx) sdk.build)
  unfolding build_from
  build_from-performs i account h =
      elim (Option-cases (sdk.new_builder account i.base_fee i.network_passphrase)) [
        | inl fails ↦ rw fails
        | inr (created, builds) ↦ rw builds (
            phase_calls _ (push_some (Option.map set_soroban_data i.soroban_data) []) _ _
              (last_call could_not_set_soroban_data _)
              (phase_calls _ (condition_calls i.preconditions) _ _
                (λ tx. to_option-with_preconditions i.preconditions tx h)
                (phase_calls _ (timeout_calls i.preconditions) _ _
                  (λ tx. to_option-attempt unexpected_error _ ∙ perform-timeout i.preconditions tx)
                  (phase_calls _ (push_some (Option.map add_memo i.memo) []) _ _
                    (last_call unexpected_error _) (last_phase i.operations))))
              created)
      ]

  pub build_from-conflict :
      {W : Type 0} (i : BuildInput W Op Memo Data) (account : Account)
      → has_conflict i.preconditions ≡ true
      → to_option (build_from sdk i account) ≡ none
  unfolding build_from
  build_from-conflict i account h =
      elim (Option-cases (sdk.new_builder account i.base_fee i.network_passphrase)) [
        | inl fails ↦ rw fails
        | inr (created, builds) ↦
            rw builds
              (elim (Option-cases
                (call_if sdk (Option.map set_soroban_data i.soroban_data) created)) [
                  | inl fails ↦ rw fails
                  | inr (loaded, calls) ↦ rw calls (
                      to_option-bind (with_preconditions sdk i.preconditions loaded) _
                      ∙ rw (with_preconditions-conflict i.preconditions loaded h))
                ])
      ]
