-- ===== src/Tests/Frontend.antt =====
-- The theorems on the frontend at a request that gets two replies, the second of which is the last.
use maxtoken.Prelude.{
  ℕ, List, [], ◌∷◌, none, some, Bool, true, false, All, ◌≡◌, refl, arith, inl, inr,
}
use maxtoken.Stats.{observe, on_new_user, on_abort}
use maxtoken.Frontend.{
  Frontend, UserReply, Event, arrives, replies, starts, runs, aborts, serving, new_user, boot, run,
  step, receive, receive_all, start, take_acks, resume_waiter, resume, cleanup, abort_user,
}
use maxtoken.Frontend.Linked.{IsLinked, RunLinked}
use maxtoken.Frontend.Waiters.{new_user-IsLinked}
use maxtoken.Frontend.Listener.{run-RunLinked}
use maxtoken.Frontend.Moves.{ReadyAt}
use maxtoken.Frontend.Delivery.{received, Spares, handed_to}
use maxtoken.Frontend.InOrder.{Delivers, run-Delivers}

abbrev ack_of : ℕ → Bool → ℕ → UserReply
ack_of uid finished text = record {
  reply = record {
    uid = uid;
    finished = finished;
    completion_tokens_delta = 1;
    prompt_tokens_delta = 0;
    kv_used_pages = 0;
    kv_total_pages = 0;
    mamba_used_slots = 0;
    mamba_total_slots = 0;
    swa_used_tokens = 0;
    swa_total_tokens = 0;
    gpu_mem_bytes = 0;
  };
  incremental_output = text ∷ [];
}

abbrev serving_one : Frontend
serving_one = record (boot 10) { maintenance_state = serving }

serving_one-IsLinked : IsLinked serving_one
serving_one-IsLinked u = (tt, tt, inr (refl, refl))

-- The second reply comes while the first is handed on; another request is aborted.
abbrev two_replies : List Event
two_replies =
    starts 0
    ∷ replies 5 (ack_of 0 false 65 ∷ ack_of 3 false 90 ∷ [])
    ∷ runs 0
    ∷ runs 0
    ∷ replies 6 (ack_of 0 true 66 ∷ [])
    ∷ aborts 3
    ∷ runs 0
    ∷ runs 0
    ∷ runs 0
    ∷ runs 0
    ∷ []

run-RunLinked_example : RunLinked (run (arrives ∷ two_replies) serving_one)
run-RunLinked_example = run-RunLinked (arrives ∷ two_replies) serving_one serving_one-IsLinked

ready : ReadyAt 0 (received 0 two_replies) (new_user serving_one)
unfolding new_user
ready = (omega arith, (tt, tt, (inl refl, (inr refl, tt))))

spared : All (Spares 0) two_replies
spared = (tt, (tt, (tt, (tt, (tt, (refl, (tt, (tt, (tt, (tt, tt))))))))))

run-Delivers_example :
    Delivers 0 (new_user serving_one) two_replies (run two_replies (new_user serving_one))
run-Delivers_example =
    run-Delivers 0 two_replies (new_user serving_one)
      (new_user-IsLinked serving_one serving_one-IsLinked) spared ready

handed_test :
    elim (run two_replies (new_user serving_one)) [ none ↦ [] | some (w, acks) ↦ handed_to 0 acks ]
    ≡ ack_of 0 false 65 ∷ ack_of 0 true 66 ∷ []
unfolding run step new_user receive_all receive start take_acks resume_waiter resume cleanup observe
    abort_user on_new_user on_abort
handed_test = refl
