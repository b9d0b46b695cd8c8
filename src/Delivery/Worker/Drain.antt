-- ===== src/Delivery/Worker/Drain.antt =====
-- The worker does not go round for ever without a wait: the deliveries that are due run out.

use digital_store.Prelude.{ℕ, ◌+◌, ◌<◌, false, none, List, [], ◌∷◌, ◌≡◌}
use digital_store.Model.{Db, Platform}
use digital_store.Delivery.Worker.{Turn, Wake, Round}
use digital_store.Delivery.Worker.Waiting.{none_locked}

-- The worker is alone in the turn, meets no error and no context that is done, claims at the time `now`, and a job that fails is due again only
-- later.
pub record IsAlone (now : ℕ) (turn : Turn) : Type 0 where
  pub before : (db : Db) → turn.before db ≡ db
  pub meanwhile : (db : Db) → turn.meanwhile db ≡ db
  pub connected : turn.lost ≡ none
  pub alive : turn.done ≡ false
  pub clock : turn.claim_env.now ≡ now
  pub free : turn.locked ≡ none_locked
  pub later : now < turn.report_env.now + turn.service.retry_delay

module _ (plat : Platform) (now : ℕ) where
  -- Every wait of the rounds is ended by the context.
  abbrev pub AllLast : List Round → Type 0
  AllLast [] = Unit {0}
  AllLast (r ∷ rs) = IsAlone now r.turn × (r.wake ≡ Wake.stopped) × AllLast rs
