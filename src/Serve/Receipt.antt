-- ===== src/Serve/Receipt.antt =====
-- The receipts of an engine's tokens in python/maxtoken/daemon/serve_manager.py: `_sealed_receipt`,
-- `_best_effort_receipt`, `_degraded_receipt` and the choice among them. Receipt ids come from `uuid5` of
-- a label, which is the parameter `uuid`. The `detail` texts are left out, and `now` is the wall clock in
-- milliseconds.
pub mod Reading
pub mod Honest
unfoldable pub use maxtoken.Serve.Receipt.Reading.*
use maxtoken.Prelude.{
  ℕ, zero, suc, ◌+◌, List, [], ◌∷◌, Option, none, some, Bool, true, false, ◌==◌, ◌&&◌, ◌||◌, not,
  if◌then◌else◌, find,
}
use maxtoken.Serve.Outbox.{Document}

-- What a receipt id is made from.
pub data Label : Type 0 where
  by_instance : List ℕ → Label
  by_identity : ℕ → Label
  by_crash : ℕ → Label
  by_totals : List ℕ → List ℕ → ℕ → ℕ → Label
  by_totals_of : ℕ → List ℕ → ℕ → ℕ → Label

pub data Reason : Type 0 where
  legacy_engine prepare_stop_failed crashed crashed_during_stop : Reason
  stats_unavailable : Reason → Reason

-- The other fields of a receipt.
pub record Account : Type 0 where
  pub instance_id : Option (List ℕ)
  pub model_id : Option (List ℕ)
  pub prompt_total : Option ℕ
  pub completion_total : Option ℕ
  pub uptime : Option ℕ
  pub drain_complete : Bool
  pub degraded : Bool
  pub best_effort : Bool
  pub reason : Option Reason

abbrev pub Receipt : Type 0
Receipt = Document Account

-- What `prepare_stop(port)` does: the endpoint is missing, the call raises, or it answers with a
-- document that may say that the engine is drained.
pub data Prepared : Type 0 where
  unavailable failed : Prepared
  answered : Snapshot → Bool → Prepared

module _ (uuid : Label → ℕ) where
  unfoldable pub sealed_receipt : ℕ → Snapshot → Bool → Option (List ℕ) → Option Receipt
  sealed_receipt now prepared drained model = do
    t ← snapshot_values prepared model true
    if drained
        then some (record {
          receipt_id = uuid (elim t.instance_id [ none ↦ by_instance [] | some i ↦ by_instance i ]);
          created_at = now;
          rest = record {
            instance_id = t.instance_id;
            model_id = some t.model_id;
            prompt_total = some t.prompt;
            completion_total = some t.completion;
            uptime = some t.uptime;
            drain_complete = true;
            degraded = false;
            best_effort = false;
            reason = none;
          };
        })
        else none

  unfoldable pub degraded_receipt : ℕ → ℕ → Option (List ℕ) → Reason → Receipt
  degraded_receipt now identity model why = record {
    receipt_id = uuid (by_identity identity);
    created_at = now;
    rest = record {
      instance_id = none;
      model_id = model;
      prompt_total = none;
      completion_total = none;
      uptime = none;
      drain_complete = false;
      degraded = true;
      best_effort = true;
      reason = some why;
    };
  }

  unfoldable pub snapshot_receipt : ℕ → ℕ → Reason → Totals → Receipt
  snapshot_receipt now identity why t = record {
    receipt_id = uuid (elim t.instance_id [
      | none ↦ by_totals_of identity t.model_id t.prompt t.completion
      | some i ↦ by_totals i t.model_id t.prompt t.completion
    ]);
    created_at = now;
    rest = record {
      instance_id = t.instance_id;
      model_id = some t.model_id;
      prompt_total = some t.prompt;
      completion_total = some t.completion;
      uptime = some t.uptime;
      drain_complete = false;
      degraded = true;
      best_effort = true;
      reason = some why;
    };
  }

  -- `_best_effort_receipt`; `stats` is what `read_stats(port)` returns, `none` where it is missing, where
  -- there is no port, or where it raises.
  unfoldable pub best_effort_receipt :
      ℕ → ℕ → Option (List ℕ) → Option Snapshot → Reason → Bool → Option Receipt
  best_effort_receipt now identity model stats why force =
      elim (stats >>= (λ s. snapshot_values s model false)) [
        | some t ↦ some (snapshot_receipt now identity why t)
        | none ↦
            if force
            then some (degraded_receipt now identity model (stats_unavailable why))
            else none
      ]

  -- The choice in `_prepare_and_persist_accounting_locked`. Without a port the call is not made, which
  -- counts as one that raises.
  unfoldable pub stop_receipt :
      ℕ → ℕ → Option (List ℕ) → Prepared → Option Snapshot → Bool → Option Receipt
  stop_receipt now identity model unavailable stats force =
      best_effort_receipt now identity model stats legacy_engine force
  stop_receipt now identity model failed stats force =
      if force then best_effort_receipt now identity model stats prepare_stop_failed true else none
  stop_receipt now identity model (answered doc drained) stats force =
      elim (sealed_receipt now doc drained model) [
        | some r ↦ some r
        | none ↦
            if force
            then best_effort_receipt now identity model stats prepare_stop_failed true
            else none
      ]

  -- `_persist_crash_accounting`'s receipt, from the last totals that were observed, if there are any.
  unfoldable pub crash_receipt : ℕ → ℕ → Option (List ℕ) → Option Totals → Bool → Receipt
  crash_receipt now identity model seen was_stopping = record {
    receipt_id = uuid (by_crash identity);
    created_at = now;
    rest = record {
      instance_id = seen >>= (λ t. t.instance_id);
      model_id = elim seen [ none ↦ model | some t ↦ some t.model_id ];
      prompt_total = elim seen [ none ↦ none | some t ↦ some t.prompt ];
      completion_total = elim seen [ none ↦ none | some t ↦ some t.completion ];
      uptime = elim seen [ none ↦ none | some t ↦ some t.uptime ];
      drain_complete = false;
      degraded = true;
      best_effort = true;
      reason = some (if was_stopping then crashed_during_stop else crashed);
    };
  }
