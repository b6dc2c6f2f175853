-- ===== src/Supervisor.antt =====
-- The supervision of the backend's workers, python/maxtoken/server/supervisor.py. The queue and the clock
-- are the caller's: a call of `get` finds a message or finds the queue empty, and then the workers are
-- looked at. Lists of such findings are the inputs, so a loop that has used up its list is still waiting.
-- A text is a list of its characters' codes.
pub mod Readiness
pub mod Liveness
use maxtoken.Prelude.{
  ℕ, zero, suc, ◌+◌, List, [], ◌∷◌, ◌++◌, Option, none, some, Bool, true, false, ◌||◌, not, ltb,
  if◌then◌else◌,
}
use maxtoken.Detokenize.{starts_with}

-- `needle in text`
abbrev pub occurs : List ℕ → List ℕ → Bool
occurs needle [] = starts_with [] needle
occurs needle (c ∷ cs) = starts_with (c ∷ cs) needle || occurs needle cs

pub data Phase : Type 0 where
  expert_banks weights warmup other_phase : Phase

abbrev pub expert_word : List ℕ
expert_word = 101 ∷ 120 ∷ 112 ∷ 101 ∷ 114 ∷ 116 ∷ []

abbrev pub weight_word : List ℕ
weight_word = 119 ∷ 101 ∷ 105 ∷ 103 ∷ 104 ∷ 116 ∷ []

abbrev pub graph_word : List ℕ
graph_word = 103 ∷ 114 ∷ 97 ∷ 112 ∷ 104 ∷ []

abbrev pub warm_word : List ℕ
warm_word = 119 ∷ 97 ∷ 114 ∷ 109 ∷ []

-- `phase_slug`; `lower` is `str.lower`.
unfoldable pub phase_slug : (List ℕ → List ℕ) → List ℕ → Phase
phase_slug lower desc =
    let d = lower desc in
    if occurs expert_word d
    then expert_banks
    else if occurs weight_word d
    then weights
    else if occurs graph_word d || occurs warm_word d
    then warmup
    else other_phase

pub record LoadProgress : Type 0 where
  pub desc : List ℕ
  pub done_bytes : ℕ
  pub total_bytes : ℕ

-- A worker, which may be alive or dead, or fail to say.
pub data Health : Type 0 where
  alive dead unqueryable : Health

pub record Process : Type 0 where
  pub name : List ℕ
  pub health : Health

-- `_first_dead`
unfoldable pub first_dead : List Process → Option Process
first_dead [] = none
first_dead (p ∷ processes) = elim p.health [
  | alive ↦ first_dead processes
  | dead ↦ some p
  | unqueryable ↦ first_dead processes
]

-- What workers put on the queue: a ready ack is any other message.
pub data Message : Type 0 where
  progressed : List ℕ → ℕ → ℕ → Message
  meta : Option ℕ → Message
  failed : Option (List ℕ) → Message
  ready_ack : Message

-- What one call of `get` finds; when there is nothing, the workers at that moment.
pub data Poll : Type 0 where
  got : Message → Poll
  empty : List Process → Poll

-- Why a load failed, or an engine afterwards.
pub data Reason : Type 0 where
  told : List ℕ → Reason
  untold : Reason
  exited_during_load : List ℕ → Reason
  exited : List ℕ → Reason

-- `_as_error`
abbrev pub as_error : Message → Option Reason
as_error (failed none) = some untold
as_error (failed (some reason)) = some (told reason)
as_error _ = none

-- `_drain_pending_error`
unfoldable pub drain_pending_error : ℕ → List Poll → Option Reason
drain_pending_error zero polls = none
drain_pending_error (suc attempts) [] = none
drain_pending_error (suc attempts) (empty _ ∷ polls) = drain_pending_error attempts polls
drain_pending_error (suc attempts) (got m ∷ polls) =
    let rest = drain_pending_error attempts polls in
    elim (as_error m) [ none ↦ rest | some reason ↦ some reason ]

-- `reason or f"..."`: a reason without text gives way as well.
abbrev pub or_exited : Option Reason → Process → Reason
or_exited none p = exited_during_load p.name
or_exited (some (told [])) p = exited_during_load p.name
or_exited (some reason) p = reason

-- How `drain_ready` stands or ends, with the findings that are left.
pub data Drain : Type 0 where
  waiting : Drain
  drained : List Poll → Drain
  died : Reason → Drain

pub record Loading : Type 0 where
  pub progress : LoadProgress
  pub metas : List (Option ℕ)
  pub drain : Drain

abbrev pub updated : LoadProgress → Message → LoadProgress
updated p (progressed desc done total) = record {
  desc = desc;
  done_bytes = done;
  total_bytes = total;
}
updated p _ = p

-- The payloads that `on_meta` gets, where there is one.
abbrev pub forwarded : Bool → List (Option ℕ) → Message → List (Option ℕ)
forwarded true metas (meta payload) = metas ++ payload ∷ []
forwarded _ metas _ = metas

abbrev pub counted : Message → ℕ
counted ready_ack = 1
counted _ = 0

-- `drain_ready`, from `ready` acks on.
unfoldable pub drain_ready : ℕ → Bool → LoadProgress → List (Option ℕ) → ℕ → List Poll → Loading
drain_ready expected on_meta progress metas ready [] =
    if ltb ready expected
    then record { progress = progress; metas = metas; drain = waiting }
    else record { progress = progress; metas = metas; drain = drained [] }
drain_ready expected on_meta progress metas ready (empty processes ∷ polls) =
    let rest = drain_ready expected on_meta progress metas ready polls in
    if ltb ready expected
    then elim (first_dead processes) [
      | none ↦ rest
      | some p ↦ record {
        progress = progress;
        metas = metas;
        drain = died (or_exited (drain_pending_error 5 polls) p);
      }
    ]
    else record { progress = progress; metas = metas; drain = drained (empty processes ∷ polls) }
drain_ready expected on_meta progress metas ready (got m ∷ polls) =
    let rest =
      drain_ready expected on_meta (updated progress m) (forwarded on_meta metas m)
        (ready + counted m) polls in
    if ltb ready expected
    then elim (as_error m) [
      | none ↦ rest
      | some reason ↦ record { progress = progress; metas = metas; drain = died reason }
    ]
    else record { progress = progress; metas = metas; drain = drained (got m ∷ polls) }

-- What the supervisor calls.
pub data Call : Type 0 where
  on_ready : Call
  on_failure : Reason → Call

-- `on_failure`, where there is one and the engine is not shutting down.
abbrev pub failure : Bool → Bool → Reason → List Call
failure has_handler shutting_down reason =
    if shutting_down || not has_handler then [] else on_failure reason ∷ []

-- The loop after readiness over what it sees at each turn: the workers, and whether the engine is
-- shutting down.
unfoldable pub watch : Bool → List (List Process × Bool) → List Call
watch has_handler [] = []
watch has_handler ((processes, shutting_down) ∷ turns) =
    let rest = watch has_handler turns in
    elim (first_dead processes) [
      | none ↦ rest
      | some p ↦ failure has_handler shutting_down (exited p.name)
    ]

-- `run_backend_supervisor`; `shutting_down` is read when the drain fails.
unfoldable pub run_backend_supervisor :
    ℕ → Bool → Bool → LoadProgress → List Poll → Bool → List (List Process × Bool) → List Call
unfolding drain_ready watch
run_backend_supervisor expected on_meta has_handler progress polls shutting_down turns =
    elim (drain_ready expected on_meta progress [] 0 polls).drain [
      | waiting ↦ []
      | died reason ↦ failure has_handler shutting_down reason
      | drained _ ↦ on_ready ∷ watch has_handler turns
    ]
