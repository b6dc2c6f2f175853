-- ===== src/Tests/Barrier.antt =====
-- An engine with a request that ends at time 30, and one that never does.
use maxtoken.Prelude.{ℕ, ◌+◌, List, [], ◌∷◌, none, some, Bool, true, ltb, if◌then◌else◌, ◌≡◌}
use maxtoken.Barrier.{Tracker, serving, Frontend, wait_for_idle}
use maxtoken.Barrier.Wait.{Waited, wait_for_idle-Waited}

abbrev until_30 : ℕ → Tracker
until_30 t = record {
  active = if ltb t 30 then 1 else 0;
  inflight_uids = if ltb t 30 then 4 ∷ [] else [];
  prompt_tokens_total = 12;
  completion_tokens_total = t;
}

abbrev on_time : ℕ → ℕ
on_time t = 0

abbrev aborts : List ℕ → ℕ → Bool × ℕ
aborts uids t = (true, t + 1)

abbrev engine : Frontend
engine = record {
  maintenance = serving;
  sealed_accounting = none;
  instance_id = 105 ∷ [];
  served_model_name = some (109 ∷ []);
  ready_at = some 0;
}

wait_for_idle-Waited_example :
    (idle : Bool) × (t : ℕ) × (wait_for_idle until_30 on_time 50 5 ≡ some (idle, t))
    × Waited until_30 on_time (5 + 50) 5 idle t
wait_for_idle-Waited_example = wait_for_idle-Waited until_30 on_time 50 5
