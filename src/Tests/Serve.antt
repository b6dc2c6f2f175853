-- ===== src/Tests/Serve.antt =====
-- A serve that is started, asked for its totals and stopped; and an outbox of two receipts.
use maxtoken.Prelude.{
  ℕ, List, [], ◌∷◌, Option, none, some, true, false, ◌≡◌, ◌+◌, refl, count, keys,
}
use maxtoken.Serve.Outbox.{Document, Directory, persist, pending}
use maxtoken.Serve.Outbox.Order.{InOrder, with_id, pending-InOrder}
use maxtoken.Serve.Receipt.{
  Json, text, number, Key, instance_id, model_id, prompt_tokens, completion_tokens, uptime_s,
  Snapshot, Label, by_instance, by_identity, by_crash, by_totals, by_totals_of, Receipt, answered,
  snapshot_values, sealed_receipt, stop_receipt,
}
use maxtoken.Serve.Receipt.Honest.{IsHonest, stop_receipt-IsHonest}
use maxtoken.Serve.Manager.{
  Child, start_check, check_child, spawned, stop_check, observe_accounting, prepare_accounting,
  persist_receipt, note_durable,
}
use maxtoken.Serve.Threads.{
  World, idle, start_world, stop_world, prepared_world, start_called, spawn_returned, stop_called,
  accounted, signal_sent, Steps, done, then_, boot, polled,
}
use maxtoken.Serve.Threads.Safety.{IsSafe}
use maxtoken.Serve.Threads.Reach.{begun, reached-IsSafe}
use maxtoken.Serve.Threads.Latch.{IsStopped, stays-IsStopped}

abbrev note : ℕ → ℕ → Document ℕ
note id time = record { receipt_id = id; created_at = time; rest = 0 }

abbrev outbox : Directory ℕ
outbox = (7, some (note 7 30)) ∷ (4, some (note 4 20)) ∷ []

pending-InOrder_example :
    (rs : List (Document ℕ)) × (pending outbox ≡ some rs)
    × InOrder rs
    × ((k : ℕ) → with_id k rs ≡ count k (keys outbox))
pending-InOrder_example = pending-InOrder outbox (refl, (refl, tt))

-- An id for each label.
abbrev ids : Label → ℕ
ids (by_instance xs) = 1
ids (by_identity n) = 2 + n
ids (by_crash n) = 1000 + n
ids (by_totals xs ys p c) = 2000 + (p + c)
ids (by_totals_of n ys p c) = 3000 + (p + c)

abbrev values : Key → Option Json
values instance_id = some (text (105 ∷ []))
values model_id = some (text (109 ∷ []))
values prompt_tokens = some (number 12)
values completion_tokens = some (number 34)
values uptime_s = some (number 5)
values _ = none

abbrev answer : Snapshot
answer = record {
  is_object = true;
  reachable = true;
  get = values;
  requests_get = λ k. none;
  model_doc_id = none;
}

abbrev sealed_doc : Receipt
sealed_doc = record {
  receipt_id = 1;
  created_at = 60;
  rest = record {
    instance_id = some (105 ∷ []);
    model_id = some (109 ∷ []);
    prompt_total = some 12;
    completion_total = some 34;
    uptime = some 5;
    drain_complete = true;
    degraded = false;
    best_effort = false;
    reason = none;
  };
}

stop_receipt-IsHonest_example : IsHonest none (answered answer true) false sealed_doc
unfolding stop_receipt sealed_receipt snapshot_values
stop_receipt-IsHonest_example =
    stop_receipt-IsHonest ids 60 11 none (answered answer true) none false sealed_doc refl

abbrev process : Child
process = record { identity = 11; pid = 500; adopted = false }

abbrev model : List ℕ
model = 109 ∷ []

-- A start, the spawn, a stop that asks for the totals, and the signal.
abbrev starting : World
unfolding boot start_check check_child
starting = start_world (begun boot) model 8000 [] (start_check boot false model 8000 [])

abbrev running : World
unfolding starting spawned
running = record starting {
  manager = spawned starting.manager 5 process model 8000 [];
  task = idle;
}

abbrev stopping : World
unfolding running stop_check
stopping = stop_world running false false (stop_check running.manager)

abbrev accounted_for : World
unfolding stopping prepare_accounting
accounted_for = prepared_world stopping process false (
    prepare_accounting ids stopping.manager 60 process (some model) (some 8000)
      (answered answer true) none false true)

abbrev signalled : World
unfolding accounted_for
signalled = record accounted_for { signalled = (11, sealed_doc) ∷ accounted_for.signalled }

a_stop : Steps ids (begun boot) signalled
unfolding boot starting running stopping accounted_for signalled start_check check_child spawned
    stop_check prepare_accounting persist_receipt persist note_durable stop_receipt sealed_receipt
    snapshot_values
a_stop = then_ (start_called (begun boot) false model 8000 [] refl) (
    then_ (spawn_returned starting 5 process model 8000 [] refl) (
      then_ (stop_called running false refl) (
        then_
          (accounted stopping 60 process (some model) (some 8000) false false (answered answer true)
            none true refl)
          (then_ (signal_sent accounted_for process sealed_doc false refl) done))))

reached-IsSafe_example : IsSafe signalled
unfolding boot
reached-IsSafe_example = reached-IsSafe ids boot signalled refl refl a_stop

-- After a stop, a monitor that restarts the serve and a poll.
abbrev latched : World
unfolding boot
latched = begun (record boot { stop_requested = true })

a_restart : Steps ids latched latched
unfolding boot latched start_check check_child observe_accounting
a_restart =
    then_ (start_called latched true model 8000 [] refl) (then_ (polled latched answer) done)

stays-IsStopped_example : IsStopped latched
unfolding boot latched a_restart
stays-IsStopped_example =
    stays-IsStopped ids latched latched a_restart (refl, (refl, tt))
      (record { latched = refl; no_child = refl; no_spawn = refl })
