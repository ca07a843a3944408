-- ===== src/Sync/Session/Failure.antt =====
-- What an error does to a session of crates/editchain-sync/src/session.rs: `failed`, as `tick` and `receive` set and test it.
use editchain.Prelude.{◌≡◌, refl, ◌∙◌, true, false, inl, inr, List, Bool-cases, err}
use editchain.Sync.Action.{resume, raise_if}
use editchain.Sync.Record.{RecordFormat, SyncError}
use editchain.Sync.Message.{Message}
use editchain.Sync.Storage.{Storage}
use editchain.Sync.Session.{Session, Method}
use editchain.Sync.Session.Receiving.{
  is_err, guarded, unless_failed, start_round, tick, process, receive,
}

module _ {ℓ κ} {R : Type ℓ} {E : Type κ} where
  pub unless_failed-failed :
      (m : Method R E (List Message)) (s : Session R)
      → s.failed ≡ true
      → unless_failed m s ≡ (s, err SyncError.invalid)
  unfolding resume raise_if
  unless_failed-failed m s h = rw h refl

  pub unless_failed-open :
      (m : Method R E (List Message)) (s : Session R) → s.failed ≡ false → unless_failed m s ≡ m s
  unfolding resume raise_if
  unless_failed-open m s h = rw h refl

  -- A call leaves the session failed if and only if it returns an error.
  pub unless_failed_lem :
      (m : Method R E (List Message)) (s : Session R)
      → (unless_failed (guarded m) s).0.failed ≡ is_err (unless_failed (guarded m) s).1
  unless_failed_lem m s = elim (Bool-cases s.failed) [
    | inl e ↦ rw (unless_failed-failed (guarded m) s e) e
    | inr e ↦ rw (unless_failed-open (guarded m) s e) refl
  ]

module _ {ℓ κ} {R : Type ℓ} {E : Type κ} (api : Storage R E) (format : RecordFormat) where
  -- `receive` leaves the session failed if and only if it returns an error, and so does `tick`.
  pub failed_lem :
      (message : Message) (s : Session R)
      → ((receive api format message s).0.failed ≡ is_err (receive api format message s).1)
        × ((tick api s).0.failed ≡ is_err (tick api s).1)
  unfolding receive tick
  failed_lem message s =
      (unless_failed_lem (process api format message) s, unless_failed_lem (start_round api) s)

  pub failed-refused :
      (next : Message) (t : Session R)
      → t.failed ≡ true
      → (receive api format next t ≡ (t, err SyncError.invalid))
        × (tick api t ≡ (t, err SyncError.invalid))
  unfolding receive tick
  failed-refused next t f = (
    unless_failed-failed (guarded (process api format next)) t f,
    unless_failed-failed (guarded (start_round api)) t f,
  )

  -- After a call of `receive` that returned an error, every further `receive` and `tick` is refused, and changes nothing.
  pub receive-after_error :
      (message next : Message) (s : Session R)
      → is_err (receive api format message s).1 ≡ true
      → (receive api format next (receive api format message s).0
          ≡ ((receive api format message s).0, err SyncError.invalid))
        × (tick api (receive api format message s).0
            ≡ ((receive api format message s).0, err SyncError.invalid))
  receive-after_error message next s h =
      failed-refused next (receive api format message s).0 ((failed_lem message s).0 ∙ h)
