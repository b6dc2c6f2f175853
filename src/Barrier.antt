-- ===== src/Barrier.antt =====
-- The barrier before an engine is stopped, python/maxtoken/server/accounting.py. Times are milliseconds of
-- one clock. What the other tasks do meanwhile is given: `stats` is the tracker at each time, `late` is
-- by how much a sleep that ends at a time overran, and `abort_all` is whether the aborts of requests that
-- began at a time all worked, and when they ended.
pub mod Wait
pub mod Sealed
use maxtoken.Prelude.{
  ℕ, zero, suc, ◌+◌, ◌-◌, ◌/◌, min, List, [], ◌∷◌, Option, none, some, Bool, true, false, ◌==◌, ltb,
  leb, if◌then◌else◌,
}

-- The part of `StatsTracker` that the barrier reads.
pub record Tracker : Type 0 where
  pub active : ℕ
  pub inflight_uids : List ℕ
  pub prompt_tokens_total : ℕ
  pub completion_tokens_total : ℕ

pub data Maintenance : Type 0 where
  loading serving stopping failed rebuilding : Maintenance
  other_state : ℕ → Maintenance

pub record Accounting : Type 0 where
  pub instance_id : List ℕ
  pub model_id : Option (List ℕ)
  pub prompt_total : ℕ
  pub completion_total : ℕ
  pub uptime : ℕ

-- The frontend's state, with `_sealed_accounting`. That the drain is complete is said in every sealed
-- document, and left out here.
pub record Frontend : Type 0 where
  pub maintenance : Maintenance
  pub sealed_accounting : Option Accounting
  pub instance_id : List ℕ
  pub served_model_name : Option (List ℕ)
  pub ready_at : Option ℕ

-- `AccountingDrainError`
pub data DrainError : Type 0 where
  rebuild_in_progress abort_failed : DrainError
  cannot_stop_from : Maintenance → DrainError
  unidentified still_active : ℕ → DrainError

pub data Prepared : Type 0 where
  prepared : Accounting → Prepared
  drain_failed : DrainError → Prepared

-- The states from which no stop is prepared.
abbrev pub refusal : Maintenance → Option DrainError
refusal rebuilding = some rebuild_in_progress
refusal (other_state n) = some (cannot_stop_from (other_state n))
refusal _ = none

module _ (stats : ℕ → Tracker) (late : ℕ → ℕ) where
  -- The loop of `_wait_for_idle`, on fuel.
  unfoldable pub wait_loop : ℕ → ℕ → ℕ → Option (Bool × ℕ)
  wait_loop zero deadline now = none
  wait_loop (suc fuel) deadline now =
      let wake = now + min 20 (deadline - now) in
      let rest = wait_loop fuel deadline (wake + late wake) in
      if ltb 0 (stats now).active
      then (if leb deadline now then some (false, now) else rest)
      else some (true, now)

  -- `_wait_for_idle`: whether it became idle, and when it returned. Each turn takes a millisecond at least.
  unfoldable pub wait_for_idle : ℕ → ℕ → Option (Bool × ℕ)
  wait_for_idle timeout now = wait_loop (suc timeout) (now + timeout) now

  -- The snapshot that is sealed.
  abbrev pub sealed_at : Frontend → ℕ → Accounting
  sealed_at s now = record {
    instance_id = s.instance_id;
    model_id = s.served_model_name;
    prompt_total = (stats now).prompt_tokens_total;
    completion_total = (stats now).completion_tokens_total;
    uptime = elim s.ready_at [ none ↦ 0 | some t ↦ (now - t) / 1000 ];
  }

  abbrev pub seal : Frontend → ℕ → Frontend × Prepared
  seal s now = (record s { sealed_accounting = some (sealed_at s now) }, prepared (sealed_at s now))

  module _ (abort_all : List ℕ → ℕ → Bool × ℕ) where
    -- After the aborts.
    unfoldable pub after_abort : Frontend → ℕ → Bool × ℕ → Option (Frontend × Prepared)
    after_abort s abort_timeout (false, now) = some (s, drain_failed abort_failed)
    after_abort s abort_timeout (true, now) = elim (wait_for_idle abort_timeout now) [
      | none ↦ none
      | some (true, t) ↦ some (seal s t)
      | some (false, t) ↦ some (s, drain_failed (still_active (stats t).active))
    ]

    -- From the closed gate on; `none` is a wait that does not end.
    unfoldable pub drain_and_seal : Frontend → ℕ → ℕ → ℕ → Option (Frontend × Prepared)
    unfolding after_abort
    drain_and_seal s drain_timeout abort_timeout now = elim (wait_for_idle drain_timeout now) [
      | none ↦ none
      | some (true, t) ↦ some (seal s t)
      | some (false, t) ↦ elim (stats t).inflight_uids [
        | [] ↦ some (s, drain_failed (unidentified (stats t).active))
        | uid ∷ uids ↦ after_abort s abort_timeout (abort_all (uid ∷ uids) t)
      ]
    ]

    -- By what is sealed, and why the state allows no stop.
    unfoldable pub prepare_under :
        Option Accounting → Option DrainError → Frontend → ℕ → ℕ → ℕ → Option (Frontend × Prepared)
    unfolding drain_and_seal
    prepare_under (some doc) refused s drain_timeout abort_timeout now = some (s, prepared doc)
    prepare_under none (some e) s drain_timeout abort_timeout now = some (s, drain_failed e)
    prepare_under none none s drain_timeout abort_timeout now =
        drain_and_seal (record s { maintenance = stopping }) drain_timeout abort_timeout now

    -- `prepare_stop_accounting`, which holds its lock throughout.
    unfoldable pub prepare_stop_accounting : Frontend → ℕ → ℕ → ℕ → Option (Frontend × Prepared)
    unfolding prepare_under
    prepare_stop_accounting s drain_timeout abort_timeout now =
        prepare_under s.sealed_accounting (refusal s.maintenance) s drain_timeout abort_timeout now

-- What `ipaddress` says of an address.
pub record Address : Type 0 where
  pub is_loopback : Bool
  pub ipv4_mapped_loopback : Bool

-- `host.split("%", 1)[0]`
abbrev pub before_percent : List ℕ → List ℕ
before_percent [] = []
before_percent (c ∷ cs) = if c == 37 then [] else c ∷ before_percent cs

-- `_is_loopback`; `ip_address` is `none` where it raises.
unfoldable pub is_loopback : (List ℕ → Option Address) → Option (List ℕ) → Bool
is_loopback ip_address none = false
is_loopback ip_address (some []) = false
is_loopback ip_address (some (c ∷ cs)) = elim (ip_address (before_percent (c ∷ cs))) [
  | none ↦ false
  | some a ↦ if a.is_loopback then true else a.ipv4_mapped_loopback
]

pub data Response : Type 0 where
  forbidden : Response
  unavailable : DrainError → Response
  sealed : Accounting → Response

abbrev pub respond : Frontend × Prepared → Frontend × Response
respond (s, prepared doc) = (s, sealed doc)
respond (s, drain_failed e) = (s, unavailable e)

-- `PrepareStopBody`, whose defaults stand in for a missing body.
abbrev pub timeouts : Option (ℕ × ℕ) → ℕ × ℕ
timeouts none = (5000, 3000)
timeouts (some body) = body

-- The route `/admin/prepare-stop`. A body gives both timeouts.
unfoldable pub prepare_stop :
    (ℕ → Tracker)
    → (ℕ → ℕ)
    → (List ℕ → ℕ → Bool × ℕ)
    → (List ℕ → Option Address)
    → Frontend
    → Option (List ℕ)
    → Option (ℕ × ℕ)
    → ℕ
    → Option (Frontend × Response)
unfolding is_loopback prepare_stop_accounting
prepare_stop stats late abort_all ip_address s host body now =
    let (drain_timeout, abort_timeout) = timeouts body in
    if is_loopback ip_address host
    then elim (prepare_stop_accounting stats late abort_all s drain_timeout abort_timeout now) [
      | none ↦ none
      | some r ↦ some (respond r)
    ]
    else some (s, forbidden)
