-- ===== src/Sync/Session/Reach.antt =====
-- The states that calls of crates/editchain-sync/src/session.rs lead to, and what their replies promise.
use editchain.Prelude.{◌≡◌, true, false, ◌⊎◌, inl, inr, All}
use editchain.Collections.Map.{find}
use editchain.Sync.Action.{Returns, holds}
use editchain.Sync.Action.Rules.{Returns-weaken}
use editchain.Sync.Record.{RecordFormat, contains, lookup}
use editchain.Sync.Message.{Message, Object}
use editchain.Sync.Storage.{Storage, Durability}
use editchain.Sync.Session.{Session, session_new}
use editchain.Sync.Session.Receiving.{receive}
use editchain.Sync.Session.Coverage.{Honest}
use editchain.Sync.Session.Honesty.{IsCovered, receive-IsHonest, tick-IsHonest}
use editchain.Sync.Session.Failure.{failed-refused}
use editchain.Sync.Session.Calls.{Reachable, Reachable-rule}

module _ {ℓ κ} {R : Type ℓ} {E : Type κ} (api : Storage R E) (format : RecordFormat)
    (IsDurable : R → Object → Type 0) (d : Durability api IsDurable) where
  new_session-IsCovered : (replica : R) → IsCovered api format IsDurable d (session_new replica)
  unfolding contains lookup find
  new_session-IsCovered replica = ((λ key c. let f : false ≡ true = c in cc), tt)

  Reachable-IsCovered :
      (s : Session R)
      → Reachable api format s
      → (s.failed ≡ true) ⊎ IsCovered api format IsDurable d s
  Reachable-IsCovered =
      Reachable-rule api format (IsCovered api format IsDurable d) new_session-IsCovered
        (λ s h. Returns-weaken _ (tick-IsHonest api format IsDurable d s h) (λ t replies k. k.0))
        (λ message s h.
          Returns-weaken _ (receive-IsHonest api format IsDurable d message s h)
            (λ t replies k. k.0))

  -- From any state that calls have led a session to, whatever they returned, a call of `receive` that returns replies
  -- acknowledges only objects that are durable in the storage, and confirms a page as checked only when every record of it
  -- is durable, if the storage keeps its promises.
  pub receive-Honest :
      (s : Session R) (message : Message)
      → Reachable api format s
      → Returns (receive api format message s) (λ t replies. All (Honest IsDurable t) replies)
  receive-Honest s message h = elim (Reachable-IsCovered s h) [
    | inl e ↦
        coe 1 0
          (i.
            Returns ((failed-refused api format message s e).0 i)
              (λ t replies. All (Honest IsDurable t) replies))
          (holds tt)
    | inr k ↦
        Returns-weaken _ (receive-IsHonest api format IsDurable d message s k) (λ t replies q. q.1)
  ]
