-- ===== src/Scheduler/Ledger.antt =====
-- What a client may be told about one request, as a fold over the replies of `MlxScheduler` of
-- python/maxtoken/mlx_backend/worker.py: nothing of it before its admission or after its end.
pub mod Turn
pub mod Batch
pub mod Loop
pub mod Rounds
use maxtoken.Prelude.{
  ℕ, ◌+◌, ◌≤◌, List, [], ◌∷◌, ◌++◌, Option, none, some, Bool, true, false, not, ◌==◌, ◌≡◌, refl, ap,
  arith, if◌then◌else◌, inl, inr, Bool-cases, Option-cases, has, keys, count, put, remove, Distinct,
  has-put, has-remove, count-keys-put, count-keys-remove, has-count, eqb_refl, tests, ltb, eqb→eq,
}
use mathlib.Core.Path.{sym}
use mathlib.Core.Option.{some-injective, none-ne-some}
use maxtoken.Scheduler.State.{
  Scheduler, Failure, generation_failed, cannot_start, context_length_exceeded, Reply, token,
  error_reply, admitted, rebuild_result, is_some,
}
use maxtoken.Scheduler.Batch.{fail_all}

-- Whether the failure is one of a request that was admitted.
abbrev pub is_of_open : Failure → Bool
is_of_open generation_failed = true
is_of_open cannot_start = false
is_of_open context_length_exceeded = false

-- What a reply about the request itself makes of it, open or not; none for a reply it must not get.
abbrev pub own : Bool → Reply → Option Bool
own is_open (token v t why matched) = if is_open then some (not (is_some why)) else none
own true (error_reply v f) = if is_of_open f then some false else none
own false (error_reply v f) = if is_of_open f then none else some false
own is_open (admitted v n cached) = if is_open then none else some true
own is_open (rebuild_result id status) = some is_open

abbrev pub about : ℕ → Reply → Bool
about u (token v t why matched) = v == u
about u (error_reply v f) = v == u
about u (admitted v n cached) = v == u
about u (rebuild_result id status) = false

-- Whether the request `u` is open after the replies, or none when one of them must not be sent.
unfoldable pub follow : ℕ → Bool → List Reply → Option Bool
follow u is_open [] = some is_open
follow u is_open (r ∷ replies) = elim (if about u r then own is_open r else some is_open) [
  | none ↦ none
  | some now ↦ follow u now replies
]

pub follow-append :
    (u : ℕ) (a b : Bool) (first later : List Reply)
    → follow u a first ≡ some b
    → follow u a (first ++ later) ≡ follow u b later
unfolding follow
follow-append u a b [] later h = rw (some-injective a b h)
follow-append u a b (r ∷ first) later h =
    elim (Option-cases (if about u r then own a r else some a)) [
      | inl e ↦ absurd (none-ne-some b (rw (e, follow) at h))
      | inr (now, e) ↦ rw (e, follow) (follow-append u now b first later (rw (e, follow) at h))
    ]

-- A reply that is not about the request leaves it as it is.
pub follow-other :
    (u : ℕ) (a : Bool) (r : Reply) (later : List Reply)
    → about u r ≡ false
    → follow u a (r ∷ later) ≡ follow u a later
unfolding follow
follow-other u a r later h = rw (h, follow)

pub follow-own :
    (u : ℕ) (a b : Bool) (r : Reply) (later : List Reply)
    → about u r ≡ true
    → own a r ≡ some b
    → follow u a (r ∷ later) ≡ follow u b later
unfolding follow
follow-own u a b r later h e = rw (h, e, follow)

follow-none_absent :
    {V : Type 0} (u : ℕ) (d : List (ℕ × V))
    → has u d ≡ false
    → follow u false (fail_all (keys d)) ≡ some false
unfolding follow
follow-none_absent u [] h = refl
follow-none_absent u ((v, x) ∷ d) h = elim (Bool-cases (v == u)) [
  | inl e ↦ absurd (ground arith)
  | inr e ↦ rw (e, follow) (follow-none_absent u d (rw e at h))
]

-- The replies are those that a request may get, and leave it open as long as it is active.
abbrev pub Told : {L : Type 0} → ℕ → Bool → Scheduler L → List Reply → Type 0
Told u is_open s replies = (follow u is_open replies ≡ some (has u s.active)) × Distinct s.active

abbrev pub StepTold : {L : Type 0} → ℕ → Bool → Option (Scheduler L × List Reply) → Type 0
StepTold u is_open none = Unit
StepTold u is_open (some (s, replies)) = Told u is_open s replies

-- Requests that fail together were open, and none of them twice.
pub follow-fail_all :
    {V : Type 0} (u : ℕ) (d : List (ℕ × V))
    → count u (keys d) ≤ 1
    → follow u (has u d) (fail_all (keys d)) ≡ some false
unfolding follow
follow-fail_all u [] few = refl
follow-fail_all u ((v, x) ∷ d) few = elim (Bool-cases (v == u)) [
  | inl e ↦ rw (e, follow) (follow-none_absent u d (ground (arith, has-count u d)))
  | inr e ↦ rw (e, follow) (follow-fail_all u d (ground arith))
]

pub has_equal :
    {V : Type 0} (k u : ℕ) (d : List (ℕ × V)) → (k == u) ≡ true → has k d ≡ true → has u d ≡ true
has_equal k u d e h = rw (sym (eqb→eq k u e)) h

pub put-IsDistinct :
    {V : Type 0} (k : ℕ) (v : V) (d : List (ℕ × V)) → Distinct d → Distinct (put k v d)
put-IsDistinct k v d once j = ground (arith, count-keys-put k j v d, has-count k d, once j)

pub remove-IsDistinct : {V : Type 0} (k : ℕ) (d : List (ℕ × V)) → Distinct d → Distinct (remove k d)
remove-IsDistinct k d once j = ground (arith, count-keys-remove k j d, once j)
