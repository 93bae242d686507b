-- ===== src/Network/Lease.antt =====
-- A consumer's lease from end to end.
use ce_pubsub.Prelude.{ℕ, ◌≡◌, ◌⊎◌, some, List, [], map}
use ce_pubsub.Prelude.Order.{Text, text_order}
use ce_pubsub.Prelude.Map.{lookup}
use ce_pubsub.Prelude.Result.{Result}
use ce_pubsub.Log
use ce_pubsub.Subscription.{SubscriptionState}
use ce_pubsub.Subscription.Plan.{scanned}
use ce_pubsub.Subscription.Commit.{lease_once}
use ce_pubsub.Caps.{Iam}
use ce_pubsub.Protocol
use ce_pubsub.Protocol.{Wire, LeasedMessage}
use ce_pubsub.Owner.{Owner, World}
use ce_pubsub.Owner
use ce_pubsub.Owner.Control
use ce_pubsub.Owner.Control.Pull.{stamp_of, carried, asked}
use ce_pubsub.Owner.Serve.{Words}
use ce_pubsub.Client.Remote
use ce_pubsub.Network.{Faithful}

module _ (iam : Iam) (wire : Wire) (w : World) (words : Words) (laws : Faithful wire) (me : Text)
    (now : ℕ) where
  -- The two ways in which a lease is answered with messages.
  abbrev pub Leased : Owner → Owner → Text → ℕ → SubscriptionState → List LeasedMessage → Type 0
  Leased o o' name k s msgs =
      ((msgs ≡ []) × (o' ≡ o))
      ⊎ ((map stamp_of msgs ≡ (scanned s (Log.high_cursor o.log) o.log.floor now k).leased_out)
          × (map carried msgs
              ≡ map (asked o.log) (scanned s (Log.high_cursor o.log) o.log.floor now k).leased_out)
          × (lookup name o'.subs.subs
              ≡ some (lease_once s (Log.high_cursor o.log) o.log.floor now k))
          × (o'.log ≡ o.log))
