-- ===== src/Client/Live.antt =====
-- src/lib.rs: live subscriptions, `subscribe`, `subscribe_filtered` and `Subscription::recv`, and
-- the loop of src/main.rs that shows a live tail. The stream that `ce-coord` opens is given by the
-- messages it will yield before it closes.
use ce_pubsub.Prelude.{
  some_eq, ℕ, zero, suc, ◌-◌, ◌≤◌, ◌<◌, ◌≡◌, refl, inl, inr, Bool, false, ◌||◌, Option, none, some,
  List, [], ◌∷◌, ◌++◌, if◌then◌else◌, leb, leb→le, leb_false→lt, sym, ◌∙◌, Bool-cases, Option-cases,
  ap, arith, length, take, max,
}
use ce_pubsub.Prelude.Order.{Text}
use ce_pubsub.Prelude.Result.{Result, ok, ◌>>=◌}
use ce_pubsub.Message.{Invalid, Message, AttributeFilter, matches, live_topic, validate_topic}
use ce_pubsub.Message.Filter.{any, is_empty}
use ce_pubsub.Caps.{map_err}

pub record Subscription : Type 0 where
  pub stream : List Message
  pub filter : AttributeFilter

pub data SubscribeError : Type 0 where
  bad_topic : Invalid → SubscribeError
  no_stream : Text → SubscribeError

-- `format!("{}@{owner}", live_topic(topic))`
unfoldable pub live_name : Text → Text → Text
live_name topic owner = live_topic topic ++ (b'@' ∷ owner)

-- `PubSub::subscribe`
unfoldable pub subscribe :
    (Text → Result Text (List Message)) → Text → Text → Result SubscribeError Subscription
subscribe open_stream topic owner = do
  named ← map_err bad_topic (validate_topic topic)
  stream ← map_err no_stream (open_stream (live_name topic owner))
  ok (record { stream = stream; filter = any })

-- `PubSub::subscribe_filtered`
unfoldable pub subscribe_filtered :
    (Text → Result Text (List Message))
    → Text
    → Text
    → AttributeFilter
    → Result SubscribeError Subscription
subscribe_filtered open_stream topic owner filter = do
  sub ← subscribe open_stream topic owner
  ok (record sub { filter = filter })

unfoldable pub wanted : AttributeFilter → Message → Bool
wanted f m = is_empty f || matches f m

-- The loop of `recv`: the message, if the stream does not close before, and what is left.
unfoldable pub next_wanted : AttributeFilter → List Message → List Message × Option Message
next_wanted f [] = ([], none)
next_wanted f (m ∷ stream) = if wanted f m then (stream, some m) else next_wanted f stream

-- `Subscription::recv`
unfoldable pub recv : Subscription → Subscription × Option Message
recv sub =
    let (stream, msg) = next_wanted sub.filter sub.stream in (record sub { stream = stream }, msg)

-- `count.is_some_and(|limit| seen >= limit)`
abbrev pub enough : Option ℕ → ℕ → Bool
enough none seen = false
enough (some limit) seen = leb limit seen

-- The messages that the live tail shows. The stream's length is enough fuel, as each pass takes a
-- message off it.
unfoldable pub tail : ℕ → Option ℕ → ℕ → Subscription → List Message
tail zero count seen sub = []
tail (suc fuel) count seen sub =
    let (sub', msg) = recv sub in
    let rest = tail fuel count (suc seen) sub' in
    elim msg [ none ↦ [] | some m ↦ m ∷ (if enough count (suc seen) then [] else rest) ]

-- The messages of a stream that a filter lets through.
unfoldable pub let_through : AttributeFilter → List Message → List Message
let_through f [] = []
let_through f (m ∷ stream) = if wanted f m then m ∷ let_through f stream else let_through f stream

-- A count of zero lets one message through.
abbrev pub limited : Option ℕ → List Message → List Message
limited none msgs = msgs
limited (some limit) msgs = take (max limit 1) msgs

next_wanted-none :
    (f : AttributeFilter) (stream : List Message)
    → (next_wanted f stream).1 ≡ none
    → let_through f stream ≡ []
unfolding next_wanted let_through
next_wanted-none f [] h = refl
next_wanted-none f (m ∷ stream) h = elim (Bool-cases (wanted f m)) [
  | inl yes_ ↦ absurd (ground (arith, rw (yes_, next_wanted) at h))
  | inr no_ ↦ rw no_ (next_wanted-none f stream (rw (no_, next_wanted) at h))
]

next_wanted-some :
    (f : AttributeFilter) (stream : List Message) (m : Message)
    → (next_wanted f stream).1 ≡ some m
    → let rest = (next_wanted f stream).0 in
      (let_through f stream ≡ m ∷ let_through f rest) × (length rest < length stream)
unfolding next_wanted let_through
next_wanted-some f [] m h = absurd (cc)
next_wanted-some f (k ∷ stream) m h = elim (Bool-cases (wanted f k)) [
  | inl yes_ ↦
      let same_ : k ≡ m = some_eq (rw (yes_, next_wanted) at h) in
      rw (yes_, next_wanted) (ap (λ x. x ∷ let_through f stream) same_, omega arith)
  | inr no_ ↦
      let (through, shorter) = next_wanted-some f stream m (rw (no_, next_wanted) at h) in
      rw (no_, next_wanted) (through, omega (arith, shorter))
]

-- How many messages a tail that has shown some shows yet.
abbrev remaining : Option ℕ → ℕ → List Message → List Message
remaining none seen msgs = msgs
remaining (some limit) seen msgs = take (max (limit - seen) 1) msgs

take-[] : (n : ℕ) → ◌≡◌ {A = List Message} (take n []) []
take-[] zero = refl
take-[] (suc n) = refl

remaining-[] : (count : Option ℕ) (seen : ℕ) → remaining count seen [] ≡ []
remaining-[] none seen = refl
remaining-[] (some limit) seen = take-[] (max (limit - seen) 1)

remaining-∷ :
    (count : Option ℕ) (seen : ℕ) (m : Message) (msgs : List Message)
    → remaining count seen (m ∷ msgs)
      ≡ m ∷ (if enough count (suc seen) then [] else remaining count (suc seen) msgs)
remaining-∷ none seen m msgs = refl
remaining-∷ (some limit) seen m msgs = elim (Bool-cases (leb limit (suc seen))) [
  | inl last_ ↦
      let low = leb→le limit (suc seen) last_ in
      let one : max (limit - seen) 1 ≡ suc 0 = omega (arith, low) in rw (one, last_) refl
  | inr more ↦
      let high = leb_false→lt limit (suc seen) more in
      let count : max (limit - seen) 1 ≡ suc (max (limit - suc seen) 1) = omega (arith, high) in
      rw (count, more) refl
]

through-[] :
    (f : AttributeFilter) (stream : List Message) → length stream ≤ 0 → let_through f stream ≡ []
unfolding let_through
through-[] f [] h = refl
through-[] f (m ∷ stream) h = absurd (omega (arith, h))

tail-remaining :
    (fuel : ℕ) (count : Option ℕ) (seen : ℕ) (sub : Subscription)
    → length sub.stream ≤ fuel
    → tail fuel count seen sub ≡ remaining count seen (let_through sub.filter sub.stream)
unfolding tail recv let_through
tail-remaining zero count seen sub h =
    rw (through-[] sub.filter sub.stream h) (sym (remaining-[] count seen))
tail-remaining (suc fuel) count seen sub h =
    elim (Option-cases (next_wanted sub.filter sub.stream).1) [
      | inl closed ↦
          rw (closed, tail, next_wanted-none sub.filter sub.stream closed, remaining-[] count seen)
            refl
      | inr (m, got) ↦
          let rest = (next_wanted sub.filter sub.stream).0 in
          let (through, shorter) = next_wanted-some sub.filter sub.stream m got in
          let below =
            tail-remaining fuel count (suc seen) (record sub { stream = rest })
              (omega (arith, h, shorter)) in
          rw (got, tail, through, remaining-∷ count seen m (let_through sub.filter rest), below)
            refl
    ]

-- With fuel for each message of the stream, the live tail of a subscription shows the messages
-- that the filter lets through, in their order: all of them without a count, and with one as many
-- as it says, but one at least.
pub tail_lem :
    (fuel : ℕ) (count : Option ℕ) (sub : Subscription)
    → length sub.stream ≤ fuel
    → tail fuel count 0 sub ≡ limited count (let_through sub.filter sub.stream)
tail_lem fuel none sub h = tail-remaining fuel none 0 sub h
tail_lem fuel (some limit) sub h =
    let whole : limit - 0 ≡ limit = omega arith in
    tail-remaining fuel (some limit) 0 sub h
    ∙ ap (λ n. take (max n 1) (let_through sub.filter sub.stream)) whole
