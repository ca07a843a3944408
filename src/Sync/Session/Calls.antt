-- ===== src/Sync/Session/Calls.antt =====
-- The two calls of crates/editchain-sync/src/session.rs, `tick` and `receive`: how a property of a session goes through their
-- guards, and what holds after any number of them.
use editchain.Prelude.{◌≡◌, Bool, true, false, ◌⊎◌, inl, inr, List, Result, ok, err, stuck}
use editchain.Sync.Action.{Returns, holds}
use editchain.Sync.Action.Rules.{ok-Returns, raise_if-Returns}
use editchain.Sync.Record.{RecordFormat, SyncError}
use editchain.Sync.Message.{Message}
use editchain.Sync.Storage.{Storage}
use editchain.Sync.Session.{Session, Method, session_new}
use editchain.Sync.Session.Receiving.{is_err, guarded, unless_failed, tick, receive}
use editchain.Sync.Session.Failure.{failed_lem, failed-refused}

-- A property that does not see the mark of a failure.
abbrev pub IsBlind {ℓ ν} : {R : Type ℓ} → (Session R → List Message → Type ν) → Type (ℓ ⊔ ν)
IsBlind {R = R} P =
    (s : Session R) (b : Bool) (replies : List Message)
    → P s replies
    → P (record s { failed = b }) replies

module _ {ℓ κ ν} {R : Type ℓ} {E : Type κ} where
  marked-Returns :
      (P : Session R → List Message → Type ν) (x : Session R × Result (SyncError E) (List Message))
      → IsBlind P
      → Returns x P
      → Returns (record x.0 { failed = is_err x.1 }, x.1) P
  marked-Returns P (s, ok a) blind (holds k) = holds (blind s false a k)
  marked-Returns P (s, err e) blind k = holds tt
  marked-Returns P (s, stuck) blind k = holds tt

  -- A call returns what its body returns.
  pub call-Returns :
      (m : Method R E (List Message)) (s : Session R) (P : Session R → List Message → Type ν)
      → IsBlind P
      → Returns (m s) P
      → Returns (unless_failed (guarded m) s) P
  call-Returns m s P blind h =
      ok-Returns _ _ _ (raise_if-Returns _ _ _ _ (λ _. marked-Returns P (m s) blind h))

-- A new session, and a session after a call, whatever the call returned.
pub data Reachable {ℓ κ} {R : Type ℓ} {E : Type κ} (api : Storage R E) (format : RecordFormat)
    : Session R → Type ℓ where
  fresh : (replica : R) → Reachable api format (session_new replica)
  ticked : (s : Session R) → Reachable api format s → Reachable api format (tick api s).0
  received :
      (message : Message) (s : Session R)
      → Reachable api format s
      → Reachable api format (receive api format message s).0

module _ {ℓ κ ν} {R : Type ℓ} {E : Type κ} (api : Storage R E) (format : RecordFormat)
    (P : Session R → Type ν) where
  after_call :
      (x : Session R × Result (SyncError E) (List Message))
      → x.0.failed ≡ is_err x.1
      → Returns x (λ t _. P t)
      → (x.0.failed ≡ true) ⊎ P x.0
  after_call (t, ok a) e (holds k) = inr k
  after_call (t, err _) e k = inl e
  after_call (t, stuck) e k = inl e

  -- What a new session has and the calls keep, a session has that has not failed.
  pub Reachable-rule :
      ((replica : R) → P (session_new replica))
      → ((s : Session R) → P s → Returns (tick api s) (λ t _. P t))
      → ((message : Message) (s : Session R)
          → P s
          → Returns (receive api format message s) (λ t _. P t))
      → (s : Session R) → Reachable api format s
      → (s.failed ≡ true) ⊎ P s
  Reachable-rule new ticks receives s (Reachable.fresh replica) = inr (new replica)
  Reachable-rule new ticks receives s (Reachable.ticked t h) =
      elim (Reachable-rule new ticks receives t h) [
        | inl e ↦ inl (
            coe 1 0 (i. ((failed-refused api format (Message.checked 0) t e).1 i).0.failed ≡ true)
              e)
        | inr k ↦
            after_call (tick api t) (failed_lem api format (Message.checked 0) t).1 (ticks t k)
      ]
  Reachable-rule new ticks receives s (Reachable.received message t h) =
      elim (Reachable-rule new ticks receives t h) [
        | inl e ↦ inl (coe 1 0 (i. ((failed-refused api format message t e).0 i).0.failed ≡ true) e)
        | inr k ↦
            after_call (receive api format message t) (failed_lem api format message t).0
              (receives message t k)
      ]
