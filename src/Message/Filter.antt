-- ===== src/Message/Filter.antt =====
-- src/message.rs, `AttributeFilter::parse`: the scanner of the compact form `key="value"`. Positions
-- in the text are the suffixes that start there.
pub mod RoundTrip
pub mod Fuel
use ce_pubsub.Prelude.{
  ℕ, zero, suc, Bool, ◌||◌, Option, none, some, List, [], ◌∷◌, ◌==◌, if◌then◌else◌, length,
}
use mathlib.Core.Option
use ce_pubsub.Prelude.Order.{Text, codes, same, text_order}
use ce_pubsub.Prelude.Text.{trim}
use ce_pubsub.Prelude.Result.{Result, ok, err, ◌>>=◌, ◌>>◌, refuse_if}
use ce_pubsub.Message.{AttributeFilter}
use ce_pubsub.Caps.{or_fail}

-- `missing_equals` leaves out the position that the source puts into its message.
pub data FilterError : Type 0 where
  missing_equals empty_key : FilterError
  not_quoted unterminated : Text → FilterError

-- `AttributeFilter::any`
abbrev pub any : AttributeFilter
any = record { clauses = [] }

-- `AttributeFilter::is_empty`
unfoldable pub is_empty : AttributeFilter → Bool
is_empty f = length f.clauses == 0

-- `u8::is_ascii_whitespace`
unfoldable pub is_space : ℕ → Bool
is_space b = b == 32 || b == 9 || b == 10 || b == 12 || b == 13

-- `while i < bytes.len() && bytes[i].is_ascii_whitespace() { i += 1 }`
unfoldable pub skip_spaces : Text → Text
skip_spaces [] = []
skip_spaces (b ∷ s) = if is_space b then skip_spaces s else b ∷ s

-- The bytes before the next one of a kind, and those behind it.
unfoldable pub split_at : ℕ → Text → Option (Text × Text)
split_at c [] = none
split_at c (b ∷ s) =
    if b == c then some ([], s) else Option.map (λ p. (b ∷ p.0, p.1)) (split_at c s)

-- `str::strip_prefix`
unfoldable pub strip_prefix : Text → Text → Option Text
strip_prefix [] s = some s
strip_prefix (a ∷ prefix) [] = none
strip_prefix (a ∷ prefix) (b ∷ s) = if a == b then strip_prefix prefix s else none

-- The second `=`, which is optional, and any other one byte that is looked for.
unfoldable pub skip_one : ℕ → Text → Option Text
skip_one c [] = none
skip_one c (b ∷ s) = if b == c then some s else none

unfoldable pub key_of : Text → Text
key_of raw = Option.get_or (strip_prefix (codes "attributes.") (trim raw)) (trim raw)

-- The body of the loop behind the skipped spaces: a clause, and what follows it.
unfoldable pub clause : Text → Result FilterError ((Text × Text) × Text)
clause s = do
  found ← or_fail (split_at b'=' s) missing_equals
  opened ←
      or_fail (skip_one b'"' (skip_spaces (Option.get_or (skip_one b'=' found.1) found.1)))
        (not_quoted (key_of found.0))
  closed ← or_fail (split_at b'"' opened) (unterminated (key_of found.0))
  refuse_if (length (key_of found.0) == 0) empty_key
  ok ((key_of found.0, closed.0), closed.1)

-- The loop. A pass takes up one byte at least, so that the text's length is enough fuel.
unfoldable pub clauses : ℕ → Text → Result FilterError (List (Text × Text))
clauses zero s = ok []
clauses (suc fuel) s = elim (skip_spaces s) [
  | [] ↦ ok []
  | b ∷ rest ↦ clause (b ∷ rest) >>= λ p. clauses fuel p.1 >>= λ more. ok (p.0 ∷ more)
]

-- `AttributeFilter::parse`
unfoldable pub parse : Text → Result FilterError AttributeFilter
parse s =
    if length (trim s) == 0
    then ok any
    else (clauses (length (trim s)) (trim s) >>= λ found. ok (record { clauses = found }))
