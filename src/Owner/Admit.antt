-- ===== src/Owner/Admit.antt =====
-- src/lib.rs, `Topic::apply_ingest`: who may publish on a topic that requires capabilities.
use ce_pubsub.Prelude.{ℕ, ◌≡◌, ◌⊎◌, refl, ap, ◌∙◌, inl, inr, true}
use ce_pubsub.Prelude.Order.{Text, codes}
use ce_pubsub.Prelude.Result.{ok, err, ◌>>=◌, >>=-assoc}
use ce_pubsub.Caps.{Iam, ability_publish, or_fail}
use ce_pubsub.Protocol.{Wire, IngestRequest}
use ce_pubsub.Owner.{
  Owner, World, Refusal, no_capability, authorize, admit_publisher, message_of, append_and_fanout,
  apply_ingest,
}
use ce_pubsub.Owner.Authorize.{Holds, check_grant}

module _ (iam : Iam) (wire : Wire) (w : World) where
  admit_publisher-Holds :
      (o : Owner) (req : IngestRequest) (publisher : Text) (now : ℕ)
      → o.require_cap ≡ true
      → (Holds iam wire w o req.grant publisher (codes "pubsub:publish") now
          × (admit_publisher iam wire w o req publisher now ≡ ok true))
        ⊎ (¬ Holds iam wire w o req.grant publisher (codes "pubsub:publish") now
            × ((why : Refusal) × (admit_publisher iam wire w o req publisher now ≡ err why)))
  unfolding admit_publisher
  admit_publisher-Holds o req publisher now gated =
      let check = or_fail req.grant no_capability >>= λ token.
      authorize iam wire w o publisher ability_publish token now in
      let marks : admit_publisher iam wire w o req publisher now ≡ (check >>= λ u. ok true) =
        rw (admit_publisher, gated)
          (>>=-assoc (or_fail req.grant no_capability)
            (λ token. authorize iam wire w o publisher ability_publish token now) (λ u. ok true)) in
      elim (check_grant iam wire w o req.grant publisher ability_publish now) [
        | inl (holds, good) ↦ inl (holds, marks ∙ ap (λ r. r >>= λ u. ok true) good)
        | inr (lacks, (why, bad)) ↦ inr (lacks, (why, marks ∙ ap (λ r. r >>= λ u. ok true) bad))
      ]

  -- On a topic that requires capabilities, either an ingest request carries a token that permits
  -- its publisher to publish, and then its message, which is marked as authenticated, is appended
  -- if the request is valid, or it carries none, and it is refused and changes nothing. What
  -- permits is as for the control requests.
  pub apply_ingest-gate :
      (o : Owner) (req : IngestRequest) (publisher : Text) (now : ℕ)
      → o.require_cap ≡ true
      → (Holds iam wire w o req.grant publisher (codes "pubsub:publish") now
          × (apply_ingest iam wire w o req publisher now
              ≡ (elim (message_of iam wire w req publisher now true) [
                | err why ↦ (o, err why)
                | ok msg ↦ append_and_fanout iam wire w o msg
              ])))
        ⊎ (¬ Holds iam wire w o req.grant publisher (codes "pubsub:publish") now
            × ((why : Refusal) × (apply_ingest iam wire w o req publisher now ≡ (o, err why))))
  unfolding apply_ingest
  apply_ingest-gate o req publisher now gated =
      elim (admit_publisher-Holds o req publisher now gated) [
        | inl (may, admits) ↦ inl (may, rw (apply_ingest, admits) refl)
        | inr (may_not, (why, refuses)) ↦ inr (may_not, (why, rw (apply_ingest, refuses) refl))
      ]
