-- ===== src/Tests/Rings.antt =====
-- A log ring of three records with a subscriber, and a ring of two requests.
use maxtoken.Prelude.{ℕ, ◌-◌, ◌≡◌, max, List, [], ◌∷◌, take, drop, none, arith}
use maxtoken.Rings.Window.{numbered_from}
use maxtoken.Rings.LogRing.{
  Kind, line, Record, LogRing, IsSubscribers, append_all, since, subscribe, unsubscribe, pushed_to,
  pushes, since-append_all, pushed_to-pushes, subscribe-IsSubscribers,
}
use maxtoken.Rings.RequestRing.{
  RequestRecord, RequestRing, durations, p95_ms, first_seen, add_all, since-add_all,
}

abbrev note : ℕ → Record
note n = record { ts = n; kind = line; text = n ∷ [] }

abbrev notes : List Record
notes = note 1 ∷ note 2 ∷ note 3 ∷ note 4 ∷ []

since-append_all_example :
    maxtoken.Rings.LogRing.since (append_all (maxtoken.Rings.LogRing.create 3) notes) 2
    ≡ (drop (max 2 (4 - 3)) (numbered_from 0 notes), 4)
since-append_all_example = since-append_all 3 2 notes

abbrev watched : LogRing
watched = record { capacity = 3; buf = []; next = 0; subs = 8 ∷ [] }

abbrev request : ℕ → RequestRecord ℕ
request ms = record { duration_ms = ms; ttft_ms = none; rest = 0 }

abbrev requests : List (RequestRecord ℕ)
requests = request 30 ∷ request 10 ∷ request 20 ∷ []

since-add_all_example :
    maxtoken.Rings.RequestRing.since (add_all (maxtoken.Rings.RequestRing.create 2) requests) 0 1
    ≡ (take 1 (numbered_from 1 (drop 1 requests)), 2)
since-add_all_example = since-add_all 2 0 1 requests (omega arith)

abbrev full_ring : RequestRing ℕ
full_ring = record { capacity = 4; buf = numbered_from 0 requests; next = 3 }
