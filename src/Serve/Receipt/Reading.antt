-- ===== src/Serve/Receipt/Reading.antt =====
-- What the manager reads of an engine's documents: `_snapshot_values` of
-- python/maxtoken/daemon/serve_manager.py.
use maxtoken.Prelude.{
  ℕ, zero, suc, List, [], ◌∷◌, Option, none, some, Bool, ◌||◌, not, if◌then◌else◌,
}

-- A value of a JSON document as far as the code looks at it. `other` is what is neither null, a text
-- nor a number that is not negative.
pub data Json : Type 0 where
  null other : Json
  text : List ℕ → Json
  number : ℕ → Json

-- The keys that the code reads, in both spellings.
pub data Key : Type 0 where
  instance_id instance_id' model_id model_id' prompt_tokens prompt_tokens' : Key
  completion_tokens completion_tokens' uptime_s uptime_s' : Key

-- A snapshot of an engine: `get` is `none` for a key that is missing. `reachable` is false where the
-- document says `"reachable": false` or `"running": false`. A nested document that is not an object
-- has no keys.
pub record Snapshot : Type 0 where
  pub is_object : Bool
  pub reachable : Bool
  pub get : Key → Option Json
  pub requests_get : Key → Option Json
  pub model_doc_id : Option Json

-- `get(key, get(other_key))`
abbrev pub either_key : Option Json → Option Json → Json
either_key (some v) _ = v
either_key none (some v) = v
either_key none none = null

-- `v if v is not None else w`
abbrev pub or_json : Json → Json → Json
or_json null w = w
or_json v w = v

-- `model_id or model`: what is null, empty or 0 gives way to the model that the manager knows.
abbrev pub or_model : Json → Option (List ℕ) → Json
or_model null none = null
or_model null (some m) = text m
or_model (text []) none = null
or_model (text []) (some m) = text m
or_model (text (c ∷ cs)) _ = text (c ∷ cs)
or_model (number zero) none = null
or_model (number zero) (some m) = text m
or_model (number (suc n)) _ = number (suc n)
or_model other _ = other

pub record Totals : Type 0 where
  pub instance_id : Option (List ℕ)
  pub model_id : List ℕ
  pub prompt : ℕ
  pub completion : ℕ
  pub uptime : ℕ

abbrev pub valid_instance : Json → Bool → Option (Option (List ℕ))
valid_instance null required = if required then none else some none
valid_instance (text []) required = none
valid_instance (text (c ∷ cs)) required = some (some (c ∷ cs))
valid_instance _ required = none

abbrev pub valid_model : Json → Option (List ℕ)
valid_model (text (c ∷ cs)) = some (c ∷ cs)
valid_model _ = none

abbrev pub valid_number : Json → Option ℕ
valid_number (number n) = some n
valid_number _ = none

infixl 5 ◌>>=◌
abbrev pub ◌>>=◌ {ℓ κ} : {A : Type ℓ} {B : Type κ} → Option A → (A → Option B) → Option B
none >>= f = none
some a >>= f = f a

-- `_snapshot_values`; `none` is an `AccountingPrepareError`.
unfoldable pub snapshot_values : Snapshot → Option (List ℕ) → Bool → Option Totals
snapshot_values snapshot model require_instance =
    let get = snapshot.get in
    let requests = snapshot.requests_get in
    let named =
      or_json (either_key (get model_id) (get model_id')) (either_key snapshot.model_doc_id none) in
    let prompt =
      or_json (either_key (get prompt_tokens) (get prompt_tokens'))
        (either_key (requests prompt_tokens) (requests prompt_tokens')) in
    let completion =
      or_json (either_key (get completion_tokens) (get completion_tokens'))
        (either_key (requests completion_tokens) (requests completion_tokens')) in
    if not snapshot.is_object || not snapshot.reachable then none else do
      i ← valid_instance (either_key (get instance_id) (get instance_id')) require_instance
      m ← valid_model (or_model named model)
      p ← valid_number prompt
      c ← valid_number completion
      u ← valid_number (either_key (get uptime_s) (get uptime_s'))
      some (record { instance_id = i; model_id = m; prompt = p; completion = c; uptime = u })
