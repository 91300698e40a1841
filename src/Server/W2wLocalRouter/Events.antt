-- ===== src/Server/W2wLocalRouter/Events.antt =====
-- What happens to a router of w2w_local_router.py over its lifetime.
use agora_test.Prelude.{ℕ, suc, List, [], ◌∷◌, Bool, Option, Text, Outcome, ok, ◌>>=◌}
use agora_test.Server.ExpertBalancer.{Env, Config, Member, BalancerError}
use agora_test.Server.W2wLocalRouter.{Key, refresh_once, Router, post, resolve, fail, stats}

-- What happens to a router: the feeder refreshes the members, a receipt arrives, and its own methods are called.
pub data Event (F : Type 0) : Type 0 where
  refreshed : Option (List (Member F)) → Event F
  posted : F → Key → Event F
  resolves : F → F → Text → ℕ → F → List Text → Event F
  fails : F → F → Key → Bool → Event F
  asks : F → Event F

module _ {F M X B : Type 0} (env : Env F M X B) (config : Config F) (lease_ttl : F) where
  unfoldable pub handle : Event F → Router F M X B → Outcome BalancerError (Router F M X B)
  handle (refreshed members) r = ok (record r { membership = refresh_once members r.membership })
  handle (posted clock key) r = ok (record r { mailbox = post clock key r.mailbox })
  handle (resolves now clock origin seq size exclude) r =
      resolve env config lease_ttl now clock origin seq size exclude r >>= λ a. ok a.1
  handle (fails now clock key busy) r = ok (fail env config lease_ttl now clock key busy r)
  handle (asks clock) r = ok (stats env config lease_ttl clock r).1

  unfoldable pub handle_all :
      List (Event F) → Router F M X B → Outcome BalancerError (Router F M X B)
  handle_all [] r = ok r
  handle_all (event ∷ events) r = handle event r >>= λ r'. handle_all events r'

  -- how many of the events are calls of `resolve`, and of `fail`
  abbrev pub asked : List (Event F) → ℕ
  asked [] = 0
  asked (resolves now clock origin seq size exclude ∷ events) = suc (asked events)
  asked (refreshed members ∷ events) = asked events
  asked (posted clock key ∷ events) = asked events
  asked (fails now clock key busy ∷ events) = asked events
  asked (asks clock ∷ events) = asked events

  abbrev pub failures : List (Event F) → ℕ
  failures [] = 0
  failures (fails now clock key busy ∷ events) = suc (failures events)
  failures (resolves now clock origin seq size exclude ∷ events) = failures events
  failures (refreshed members ∷ events) = failures events
  failures (posted clock key ∷ events) = failures events
  failures (asks clock ∷ events) = failures events
