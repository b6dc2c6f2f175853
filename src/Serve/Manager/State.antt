-- ===== src/Serve/Manager/State.antt =====
-- The state of `ServeManager` of python/maxtoken/daemon/serve_manager.py. A child is known by its identity,
-- which the code makes from its pid and start time.
use maxtoken.Prelude.{ℕ, List, [], ◌∷◌, Option, none, some, Bool, true, false, ◌==◌, ◌&&◌}
use maxtoken.Serve.Outbox.{Directory}
use maxtoken.Serve.Receipt.{Totals, Account}

pub record Child : Type 0 where
  pub identity : ℕ
  pub pid : ℕ
  pub adopted : Bool

-- `ExitInfo.source`
pub data Source : Type 0 where
  exited signalled stopped vanished unknown : Source

-- The code is kept without its sign, which the source tells.
pub record ExitInfo : Type 0 where
  pub code : Option ℕ
  pub source : Source

-- `ServeState`, the pidfile's record.
pub record ServeState : Type 0 where
  pub model : List ℕ
  pub port : ℕ
  pub args : List ℕ
  pub identity : ℕ

pub record Manager : Type 0 where
  pub child : Option Child
  pub model : Option (List ℕ)
  pub port : Option ℕ
  pub args : List ℕ
  pub started_at : Option ℕ
  pub last_exit : Option ExitInfo
  pub adopted : Bool
  pub stopping : Bool
  pub starting : Bool
  pub stop_requested : Bool
  pub shutdown_requested : Bool
  pub durable_accounting : List ℕ
  pub last_accounting : List (ℕ × Totals)
  pub outbox : Directory Account
  pub saved : Option ServeState

abbrev pub same_text : List ℕ → List ℕ → Bool
same_text [] [] = true
same_text (x ∷ xs) (y ∷ ys) = x == y && same_text xs ys
same_text _ _ = false

abbrev pub is_text : Option (List ℕ) → List ℕ → Bool
is_text none ys = false
is_text (some xs) ys = same_text xs ys

abbrev pub is_number : Option ℕ → ℕ → Bool
is_number none n = false
is_number (some m) n = m == n

-- `self._child is child`
abbrev pub is_child : Option Child → Child → Bool
is_child none c = false
is_child (some d) c = d.identity == c.identity
