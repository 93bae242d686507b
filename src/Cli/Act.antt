-- ===== src/Cli/Act.antt =====
-- Steps of a command: they change the state of the world beyond it, print lines, and end with a
-- value or an error, after which nothing follows.
use ce_pubsub.Prelude.{List, [], ◌∷◌, ◌++◌}
use ce_pubsub.Prelude.Result.{Result, ok, err}
use ce_pubsub.Caps.{map_err}
use ce_pubsub.Client.Remote.{ClientError}
use ce_pubsub.Cli.{CliError, Line, client}

pub record Outcome {ℓ} (S : Type 0) (A : Type ℓ) : Type ℓ where
  pub state : S
  pub lines : List Line
  pub result : Result CliError A

abbrev pub Act {ℓ} : Type 0 → Type ℓ → Type ℓ
Act S A = S → Outcome S A

abbrev pub after {ℓ κ} :
    {S : Type 0} {A : Type ℓ} {B : Type κ} → Outcome S A → (A → Act S B) → Outcome S B
after first next = elim first.result [
  | err why ↦ record { state = first.state; lines = first.lines; result = err why }
  | ok x ↦
      let second = next x first.state in
      record { state = second.state; lines = first.lines ++ second.lines; result = second.result }
]

infixl 5 ◌>>=◌
abbrev pub ◌>>=◌ {ℓ κ} : {S : Type 0} {A : Type ℓ} {B : Type κ} → Act S A → (A → Act S B) → Act S B
act >>= next = λ s. after (act s) next

infixl 5 ◌>>◌
abbrev pub ◌>>◌ {κ} : {S : Type 0} {B : Type κ} → Act S (Unit {0}) → Act S B → Act S B
act >> rest = act >>= (λ done. rest)

abbrev pub give {ℓ} : {S : Type 0} {A : Type ℓ} → Result CliError A → Act S A
give r = λ s. record { state = s; lines = []; result = r }

-- `println!` and `eprintln!`
abbrev pub say : {S : Type 0} → Line → Act S (Unit {0})
say line = λ s. record { state = s; lines = line ∷ []; result = ok tt }

-- A call of the client that ends in `?`.
abbrev pub call {ℓ} : {S : Type 0} {A : Type ℓ} → (S → S × Result ClientError A) → Act S A
call f = λ s. let (s', r) = f s in record { state = s'; lines = []; result = map_err client r }
