-- ===== src/Cli/AutoAck.antt =====
-- src/main.rs: `lease --auto-ack`.
use ce_pubsub.Prelude.{
  ◌≡◌, refl, ap, ◌∙◌, inl, inr, true, List, [], ◌∷◌, ◌++◌, map, Option-cases, arith,
}
use mathlib.Core.Option
use ce_pubsub.Prelude.Order.{Text}
use ce_pubsub.Prelude.Result.{ok, Result-cases}
use ce_pubsub.Message.{Cursor}
use ce_pubsub.Caps.{Iam}
use ce_pubsub.Protocol.{Wire, LeasedMessage}
use ce_pubsub.Owner.{World}
use ce_pubsub.Cli.{SubscriptionArgs, Line, short, text}
use ce_pubsub.Cli.Run.{System, send_ack, show_leased}

module _ {S : Type 0} (iam : Iam) (wire : Wire) (w : World) (system : System iam S)
    (a : SubscriptionArgs) where
  -- Acknowledgements of cursors in their order, each of which succeeds, from one state to another.
  pub data Acknowledged : List Cursor → S → S → Type 0 where
    nothing : (s : S) → Acknowledged [] s s
    one :
        (c : Cursor) (cursors : List Cursor) (s t : S)
        → (send_ack iam wire w system a c s).result ≡ ok tt
        → Acknowledged cursors (send_ack iam wire w system a c s).state t
        → Acknowledged (c ∷ cursors) s t

  abbrev pub shown : Text → LeasedMessage → Line
  shown publisher lm =
      Line.leased lm.message.cursor lm.delivery_attempt publisher
        (text system.lossy wire lm.message)

  abbrev pub line_of : LeasedMessage → Line
  line_of lm = shown (Option.get_or (short lm.message.publisher) []) lm

  send_ack-lines : (c : Cursor) (s : S) → (send_ack iam wire w system a c s).lines ≡ []
  unfolding send_ack
  send_ack-lines c s = refl

  -- If `lease --auto-ack` gets through the leased messages without an error, it has printed each
  -- of them in order and acknowledged each of their cursors in order, every acknowledgement with
  -- success.
  pub show_leased_lem :
      (leased : List LeasedMessage) (s : S)
      → let out = show_leased iam wire w system a true leased s in
        out.result ≡ ok tt
        → (out.lines ≡ map line_of leased)
          × Acknowledged (map (λ lm. lm.message.cursor) leased) s out.state
  unfolding show_leased
  show_leased_lem [] s h = (refl, nothing s)
  show_leased_lem (lm ∷ leased) s h =
      let sent_ = send_ack iam wire w system a lm.message.cursor s in
      elim (Option-cases (short lm.message.publisher)) [
        | inl panics ↦ absurd (ground (arith, rw (panics, show_leased) at h))
        | inr (publisher, fits) ↦ elim (Result-cases sent_.result) [
          | inl (why, failed) ↦ absurd (ground (arith, rw (fits, failed, show_leased) at h))
          | inr (u, fine) ↦
              let (lines, acks) =
                show_leased_lem leased sent_.state (rw (fits, fine, show_leased) at h) in
              let more = show_leased iam wire w system a true leased sent_.state in
              rw (fits, fine, show_leased)
                (
                  ap (λ ls. shown publisher lm ∷ ls)
                      (ap (λ ls. ls ++ more.lines) (send_ack-lines lm.message.cursor s) ∙ lines),
                  one lm.message.cursor _ s _ fine acks,
                )
        ]
      ]
