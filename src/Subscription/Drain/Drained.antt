-- ===== src/Subscription/Drain/Drained.antt =====
-- How many rounds it takes until nothing is left to deliver.
use ce_pubsub.Prelude.{
  ℕ, zero, suc, ◌-◌, ◌≤◌, ◌<◌, ◌≡◌, refl, ap, ◌∙◌, inl, inr, Bool, true, false, not, ◌==◌, List, [],
  ◌∷◌, arith, length, member, select, range, length-select-le, Bool-cases, Option-cases, All,
  member-select, member-range,
}
use ce_pubsub.Prelude.Words.{u64_mod}
use ce_pubsub.Prelude.Order.{ℕ_order}
use ce_pubsub.Prelude.Map.{lookup}
use ce_pubsub.Message.{Cursor}
use ce_pubsub.Subscription.{SubscriptionState}
use ce_pubsub.Subscription.Plan.{leased_unexpired}
use ce_pubsub.Subscription.Handled.{handled}
use ce_pubsub.Subscription.Run.{Event, run, RoomFor, run-handled}
use ce_pubsub.Subscription.Drain.{round, rounds, IsQuiet, run-append, RoomFor-append}
use ce_pubsub.Subscription.Drain.Round.{round-IsQuiet, round-progress}

-- The cursors from the first to the last that are not handled.
abbrev open_cursors : SubscriptionState → Cursor → Cursor → List Cursor
open_cursors s high floor = select (λ c. not (handled s c)) (range (suc floor) (high - floor))

select_fewer :
    (p q : Cursor → Bool) (cs : List Cursor)
    → ((c : Cursor) → q c ≡ true → p c ≡ true)
    → length (select q cs) ≤ length (select p cs)
select_fewer p q [] sub = omega arith
select_fewer p q (c ∷ cs) sub = ground (arith, sub c, select_fewer p q cs sub)

select_fewer_lt :
    (p q : Cursor → Bool) (cs : List Cursor) (x : Cursor)
    → ((c : Cursor) → q c ≡ true → p c ≡ true)
    → member x cs ≡ true
    → p x ≡ true
    → q x ≡ false
    → length (select q cs) < length (select p cs)
select_fewer_lt p q [] x sub inside hp hq = absurd (cc)
select_fewer_lt p q (c ∷ cs) x sub inside hp hq = elim (Bool-cases (c == x)) [
  | inl e ↦
      let same : c ≡ x = ground arith in
      let fewer = select_fewer p q cs sub in
      let yes : p c ≡ true = rw same hp in
      let no : q c ≡ false = rw same hq in ground (arith, yes, no, fewer)
  | inr e ↦
      let fewer = select_fewer_lt p q cs x sub (ground (arith, inside)) hp hq in
      ground (arith, sub c, fewer)
]

later-IsQuiet : (s : SubscriptionState) (t0 now : ℕ) → t0 ≤ now → IsQuiet s t0 → IsQuiet s now
unfolding leased_unexpired
later-IsQuiet s t0 now le quiet c open_ =
    let before = quiet c open_ in
    elim (Option-cases (lookup c s.leases)) [
      | inl free ↦ rw (free, leased_unexpired) refl
      | inr (l, held) ↦
          rw (held, leased_unexpired) (ground (arith, rw (held, leased_unexpired) at before))
    ]

member-length : (x : Cursor) (cs : List Cursor) → member x cs ≡ true → 0 < length cs
member-length x [] h = absurd (cc)
member-length x (c ∷ cs) h = omega arith

-- What is handled stays so.
run-handled_keeps :
    (s : SubscriptionState) (es : List Event) (c : Cursor)
    → RoomFor s es
    → handled s c ≡ true
    → handled (run s es) c ≡ true
run-handled_keeps s es c room h = run-handled s es c room ∙ ground (arith, h)

open_handled :
    (s : SubscriptionState) (high floor c : Cursor)
    → floor < c
    → c ≤ high
    → length (open_cursors s high floor) ≡ 0
    → handled s c ≡ true
open_handled s high floor c above below none_ = elim (Bool-cases (handled s c)) [
  | inl done ↦ done
  | inr open_ ↦
      let cs = range (suc floor) (high - floor) in
      let there : member c (open_cursors s high floor) ≡ true = ground (
        arith,
        open_,
        member-select c (λ k. not (handled s k)) cs,
        member-range c (suc floor) (high - floor),
      ) in
      absurd (let n = member-length c (open_cursors s high floor) there in omega arith)
]

-- Events that handle an open cursor leave fewer of them.
open_fewer :
    (s : SubscriptionState) (es : List Event) (high floor x : Cursor)
    → RoomFor s es
    → floor < x
    → x ≤ high
    → handled s x ≡ false
    → handled (run s es) x ≡ true
    → length (open_cursors (run s es) high floor) < length (open_cursors s high floor)
open_fewer s es high floor x room above below open_ done =
    let cs = range (suc floor) (high - floor) in
    select_fewer_lt (λ c. not (handled s c)) (λ c. not (handled (run s es) c)) cs x
      (λ c h. ground (arith, run-handled s es c room, h))
      (ground (arith, member-range x (suc floor) (high - floor))) (ground (arith, open_))
      (ground (arith, done))

module _ (high floor : Cursor) (limit t0 : ℕ) (top : suc high < u64_mod)
    (some_limit : 0 < limit) where
  drained_open :
      (s : SubscriptionState) (times : List ℕ)
      → IsQuiet s t0
      → All (λ now. t0 ≤ now) times
      → RoomFor s (rounds s high floor limit times)
      → length (open_cursors s high floor) ≤ length times
      → (c : Cursor) → floor < c
      → c ≤ high
      → handled (run s (rounds s high floor limit times)) c ≡ true
  unfolding run
  drained_open s [] quiet late room few c above below =
      open_handled s high floor c above below (omega arith)
  drained_open s (now ∷ times) quiet late room few c above below =
      let events = round s high floor limit now in
      let s' = run s events in
      let rest = rounds s' high floor limit times in
      let (here, there) = RoomFor-append s events rest room in
      rw (run-append s events rest)
        (elim (round-progress s high floor limit now top here some_limit
          (later-IsQuiet s t0 now late.0 quiet)) [
            | inl all ↦ run-handled_keeps s' rest c there (all c above below)
            | inr (x, above_x, below_x, open_x, done_x) ↦
                let less = open_fewer s events high floor x here above_x below_x open_x done_x in
                drained_open s' times (round-IsQuiet s high floor limit now top here t0 quiet)
                  late.1 there (omega arith) c above below
          ])

length-range : (from n : ℕ) → length (range from n) ≡ n
length-range from zero = refl
length-range from (suc n) = ap suc (length-range (suc from) n)

-- A consumer that round after round asks for messages, with a limit above 0, and acknowledges
-- each that it gets: if no open cursor is under a lease that lives at a time before the first
-- round and no sum wraps, then after as many rounds as there are cursors between the retention
-- floor and the high cursor each of these cursors is handled.
pub drained :
    (s : SubscriptionState) (high floor : Cursor) (limit t0 : ℕ) (times : List ℕ) (c : Cursor)
    → suc high < u64_mod
    → 0 < limit
    → IsQuiet s t0
    → All (λ now. t0 ≤ now) times
    → RoomFor s (rounds s high floor limit times)
    → high - floor ≤ length times
    → floor < c
    → c ≤ high
    → handled (run s (rounds s high floor limit times)) c ≡ true
drained s high floor limit t0 times c top some_limit quiet late room enough above below =
    let fewer = length-select-le (λ k. not (handled s k)) (range (suc floor) (high - floor)) in
    drained_open high floor limit t0 top some_limit s times quiet late room
      (omega (arith, length-range (suc floor) (high - floor))) c above below
