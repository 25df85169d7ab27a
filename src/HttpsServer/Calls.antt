-- ===== src/HttpsServer/Calls.antt =====
-- struct call_data and queue_response of httpserver/https_server.cpp: how a request is answered. What the
-- worker threads hand to the loop runs there in order. Each function is one step: that two threads look at
-- `replied` before either sets it, which no mutex prevents, is left out.
pub mod Once
use beldex_storage_server.Prelude.{
  ◌*◌, ℕ, ◌≡◌, Bool, true, false, ◌||◌, Option, none, some, List, [], ◌∷◌, ◌++◌, Bytes, ltb,
  if◌then◌else◌,
}

abbrev pub max_request_body_size : ℕ
max_request_body_size = 10 * (1024 * 1024)

module _ (A : Type 0) where
  -- What is handed to the loop: a reply, which an abort cancels, or the reply of the destructor.
  pub data Deferred : Type 0 where
    queued busy : A → Deferred

  -- `written` is what the http response was given, `destroyed` that the destructor has run.
  pub record Call : Type 0 where
    pub body : Bytes
    pub complete : Bool
    pub aborted : Bool
    pub replied : Bool
    pub destroyed : Bool
    pub deferred : List Deferred
    pub written : List A

module _ {A : Type 0} where
  abbrev pub written_by : Option A → List A
  written_by none = []
  written_by (some a) = a ∷ []

  abbrev pub has_replied : Option A → Bool
  has_replied none = false
  has_replied (some a) = true

  -- handle_request: a Content-Length that is refused is answered and the request goes on; prevalidate
  -- may answer as well.
  unfoldable pub handle_request : Option A → Option A → Call A
  handle_request rejection refusal = record {
    body = [];
    complete = false;
    aborted = false;
    replied = has_replied refusal;
    destroyed = false;
    deferred = [];
    written = written_by rejection ++ written_by refusal;
  }

  unfoldable pub on_data : Bytes → Bool → Call A → Call A
  on_data d done c = record c { body = c.body ++ d; complete = done }

  unfoldable pub on_aborted : Call A → Call A
  on_aborted c = record c { aborted = true }

  unfoldable pub queue_response : A → Call A → Call A
  queue_response res c =
      if c.replied
      then c
      else record c { replied = true; deferred = c.deferred ++ (queued res ∷ []) }

  -- The destructor; `res` is the reply "Server busy, try again later".
  unfoldable pub destroy : A → Call A → Call A
  destroy res c =
      if c.replied || c.aborted
      then record c { destroyed = true }
      else record c { destroyed = true; deferred = c.deferred ++ (busy res ∷ []) }

  unfoldable pub run_deferred : Deferred A → List (Deferred A) → Call A → Call A
  run_deferred (queued res) rest c =
      if c.aborted
      then record c { deferred = rest }
      else record c { deferred = rest; written = c.written ++ (res ∷ []) }
  run_deferred (busy res) rest c = record c { deferred = rest; written = c.written ++ (res ∷ []) }

  -- What may happen to a request. A task that is queued and a function that is deferred hold the data,
  -- so nothing is queued after the destructor and it does not run before the deferred function.
  pub data Step : Call A → Call A → Type 0 where
    received :
        (d : Bytes) (done : Bool) (c : Call A)
        → c.complete ≡ false
        → c.destroyed ≡ false
        → Step c (on_data d done c)
    connection_aborted : (c : Call A) → c.destroyed ≡ false → Step c (on_aborted c)
    answered :
        (res : A) (c : Call A)
        → c.complete ≡ true
        → c.destroyed ≡ false
        → Step c (queue_response res c)
    released :
        (res : A) (c : Call A) → c.destroyed ≡ false → c.deferred ≡ [] → Step c (destroy res c)
    looped :
        (f : Deferred A) (rest : List (Deferred A)) (c : Call A)
        → c.deferred ≡ f ∷ rest
        → Step c (run_deferred f rest c)

  -- The states of a request whose headers were answered in these ways.
  pub data Reachable (rejection refusal : Option A) : Call A → Type 0 where
    begin : Reachable rejection refusal (handle_request rejection refusal)
    then_ :
        (c c' : Call A) → Reachable rejection refusal c → Step c c' → Reachable rejection refusal c'

-- The check of the Content-Length; `parse_int` is util::parse_int for a uint64_t, and the replies are
-- "invalid Content-Length" and "Request body too large".
unfoldable pub reject_length {ℓ} : {A : Type ℓ} → (Bytes → Option ℕ) → A → A → Bytes → Option A
reject_length parse_int invalid too_large [] = none
reject_length parse_int invalid too_large (c ∷ len) = elim (parse_int (c ∷ len)) [
  | none ↦ some invalid
  | some n ↦ if ltb max_request_body_size n then some too_large else none
]
