-- ===== src/Sync/Session/Coverage.antt =====
-- What a session knows of the page that it receives: that every key of it is durable here, or still on its way. For the
-- methods of crates/editchain-sync/src/session.rs.
use editchain.Prelude.{
  ◌≡◌, refl, ◌∙◌, true, false, ◌⊎◌, inl, inr, Option, none, some, List, [], ◌∷◌, ◌++◌, All, ℕ, ok,
  ok_or, ◌>>=◌, u32_try_from,
}
use editchain.Core.Ids.{Bytes}
use editchain.Sync.Record.{RecordKey, Snapshot, contains, lookup, received_blob, SyncError}
use editchain.Sync.Message.{Message, Object, need_at}
use editchain.Sync.Transfer.{Download}
use editchain.Sync.Session.{Session}
use editchain.Sync.Session.Pulling.{lacking, acks}

abbrev pub record_of : RecordKey → Object
record_of key = record { key = key; blob = none }

abbrev pub In : RecordKey → List RecordKey → Type 0
In key [] = ⊥
In key (x ∷ xs) = (key ≡ x) ⊎ In key xs

abbrev pub IsStaged : RecordKey → List (RecordKey × Bytes) → Type 0
IsStaged key [] = ⊥
IsStaged key (item ∷ rest) = (key ≡ item.0) ⊎ IsStaged key rest

-- The record that is being downloaded.
abbrev pub flying : RecordKey → Option Bytes → Option RecordKey
flying key none = some key
flying key (some hash) = none

abbrev pub in_flight : Option Download → Option RecordKey
in_flight none = none
in_flight (some download) = flying download.object.key download.object.blob

pub All-weaken {ℓ} :
    {A : Type 0} {P Q : A → Type ℓ} (xs : List A) → ((x : A) → P x → Q x) → All P xs → All Q xs
All-weaken [] h all = tt
All-weaken (x ∷ xs) h all = (h x all.0, All-weaken xs h all.1)

pub IsStaged-append :
    (key : RecordKey) (staged : List (RecordKey × Bytes)) (item : RecordKey × Bytes)
    → IsStaged key staged ⊎ (key ≡ item.0)
    → IsStaged key (staged ++ (item ∷ []))
IsStaged-append key [] item (inl h) = absurd h
IsStaged-append key [] item (inr h) = inl h
IsStaged-append key (x ∷ rest) item (inl (inl h)) = inl h
IsStaged-append key (x ∷ rest) item (inl (inr h)) = inr (IsStaged-append key rest item (inl h))
IsStaged-append key (x ∷ rest) item (inr h) = inr (IsStaged-append key rest item (inr h))

-- Each key of a page is there, or lacking.
pub lacking-All :
    (local : Snapshot) (keys : List RecordKey)
    → All (λ key. (contains local key ≡ true) ⊎ In key (lacking local keys)) keys
unfolding lacking
lacking-All local [] = tt
lacking-All local (key ∷ rest) =
    (elim (contains local key)
        as (λ t.
          contains local key ≡ t
          → ((contains local key ≡ true)
              ⊎ In key (elim t [ true ↦ lacking local rest | false ↦ key ∷ lacking local rest ]))
            × All
                (λ k.
                  (contains local k ≡ true)
                  ⊎ In k (elim t [ true ↦ lacking local rest | false ↦ key ∷ lacking local rest ]))
                rest) [
                  | true ↦ λ e. (inl e, lacking-All local rest)
                  | false ↦ λ e. (inr (inl refl), All-weaken rest later (lacking-All local rest))
                ])
      refl
  where
    later :
        (k : RecordKey)
        → (contains local k ≡ true) ⊎ In k (lacking local rest)
        → (contains local k ≡ true) ⊎ In k (key ∷ lacking local rest)
    later k (inl h) = inl h
    later k (inr h) = inr (inr h)

module _ {ℓ} {R : Type ℓ} (IsDurable : R → Object → Type 0) where
  -- A key is durable, or to be asked for, or staged, or in flight.
  abbrev pub Covers :
      R → List RecordKey → List (RecordKey × Bytes) → Option RecordKey → RecordKey → Type 0
  Covers r records staged awaited key =
      IsDurable r (record_of key) ⊎ (In key records ⊎ (IsStaged key staged ⊎ (awaited ≡ some key)))

  -- The snapshot that saves downloads holds durable records only.
  abbrev pub Evident : R → Snapshot → Type 0
  Evident r local = (key : RecordKey) → contains local key ≡ true → IsDurable r (record_of key)

  abbrev pub Covered : Option RecordKey → Session R → Type 0
  Covered awaited s =
      Evident s.replica s.local
      × All (Covers s.replica s.pull.records s.pull.staged awaited) s.pull.keys

  abbrev pub Saved : Session R → Type 0
  Saved s = Evident s.replica s.local × All (λ key. IsDurable s.replica (record_of key)) s.pull.keys

  abbrev pub Grows : R → R → Type 0
  Grows r r' = (o : Object) → IsDurable r o → IsDurable r' o

  -- What a message promises to the peer that receives it.
  abbrev pub Honest : Session R → Message → Type 0
  Honest s (Message.ack key blob) = IsDurable s.replica (record { key = key; blob = blob })
  Honest s (Message.checked end) = All (λ key. IsDurable s.replica (record_of key)) s.pull.keys
  Honest s _ = Unit

  -- The state after a method, with the same page.
  abbrev pub Extends : Session R → Session R → Type 0
  Extends s s' = Grows s.replica s'.replica × (s'.pull.keys ≡ s.pull.keys)

  pub Covers-grow :
      (r r' : R) (records : List RecordKey) (staged : List (RecordKey × Bytes))
      (awaited : Option RecordKey)
      → Grows r r'
      → (keys : List RecordKey) → All (Covers r records staged awaited) keys
      → All (Covers r' records staged awaited) keys
  Covers-grow r r' records staged awaited g keys = All-weaken keys step
    where
      step :
          (key : RecordKey)
          → Covers r records staged awaited key
          → Covers r' records staged awaited key
      step key (inl h) = inl (g (record_of key) h)
      step key (inr h) = inr h

  pub Covered-grow :
      (awaited : Option RecordKey) (s : Session R) (r' : R)
      → Grows s.replica r'
      → Covered awaited s
      → Covered awaited (record s { replica = r' })
  Covered-grow awaited s r' g h = (
    λ key c. g (record_of key) (h.0 key c),
    Covers-grow s.replica r' s.pull.records s.pull.staged awaited g s.pull.keys h.1,
  )

  pub Saved-grow :
      (s : Session R) (r' : R) → Grows s.replica r' → Saved s → Saved (record s { replica = r' })
  Saved-grow s r' g h = (
    λ key c. g (record_of key) (h.0 key c),
    All-weaken s.pull.keys (λ key. g (record_of key)) h.1,
  )

  -- With nothing to ask for, nothing staged and nothing in flight, the page is saved.
  pub Covers-IsDurable :
      (r : R) (records : List RecordKey) (staged : List (RecordKey × Bytes)) (keys : List RecordKey)
      → records ≡ []
      → staged ≡ []
      → All (Covers r records staged none) keys
      → All (λ key. IsDurable r (record_of key)) keys
  Covers-IsDurable r records staged keys e f = All-weaken keys step
    where
      step : (key : RecordKey) → Covers r records staged none key → IsDurable r (record_of key)
      step key (inl h) = h
      step key (inr (inl h)) = absurd (coe 0 1 (i. In key (e i)) h)
      step key (inr (inr (inl h))) = absurd (coe 0 1 (i. IsStaged key (f i)) h)
      step key (inr (inr (inr h))) = cc

  pub Saved-Covered : (awaited : Option RecordKey) (s : Session R) → Saved s → Covered awaited s
  Saved-Covered awaited s h = (h.0, All-weaken s.pull.keys (λ key d. inl d) h.1)

  -- Nothing in flight covers what anything in flight would.
  pub Covered-any :
      (awaited : Option RecordKey) (s : Session R) → Covered none s → Covered awaited s
  Covered-any awaited s h = (h.0, All-weaken s.pull.keys step h.1)
    where
      step :
          (key : RecordKey)
          → Covers s.replica s.pull.records s.pull.staged none key
          → Covers s.replica s.pull.records s.pull.staged awaited key
      step key (inl c) = inl c
      step key (inr (inl c)) = inr (inl c)
      step key (inr (inr (inl c))) = inr (inr (inl c))
      step key (inr (inr (inr c))) = cc

  pub Honest-extend :
      (s s' : Session R) (messages : List Message)
      → Extends s s'
      → All (Honest s) messages
      → All (Honest s') messages
  Honest-extend s s' messages g = All-weaken messages step
    where
      step : (message : Message) → Honest s message → Honest s' message
      step (Message.ack key blob) h = g.0 (record { key = key; blob = blob }) h
      step (Message.checked end) h =
          coe 1 0 (i. All (λ key. IsDurable s'.replica (record_of key)) (g.1 i))
            (All-weaken s.pull.keys (λ key. g.0 (record_of key)) h)
      step (Message.hello version encoding space) h = tt
      step (Message.inventory after) h = tt
      step (Message.page offset total records more) h = tt
      step (Message.need key blob offset) h = tt
      step (Message.chunk key blob offset total bytes) h = tt
      step (Message.missing key blob) h = tt

  pub Extends-trans : (s t u : Session R) → Extends s t → Extends t u → Extends s u
  Extends-trans s t u g h = (λ o d. h.0 o (g.0 o d), h.1 ∙ g.1)

  pub acks-Honest :
      (s : Session R) (staged : List (RecordKey × Bytes))
      → All (λ item. IsDurable s.replica (record_of item.0)) staged
      → All (Honest s) (acks staged)
  unfolding acks
  acks-Honest s [] h = tt
  acks-Honest s ((key, bytes) ∷ rest) h = (h.0, acks-Honest s rest h.1)

  pub IsStaged-IsDurable :
      (r : R) (key : RecordKey) (staged : List (RecordKey × Bytes))
      → All (λ item. IsDurable r (record_of item.0)) staged
      → IsStaged key staged
      → IsDurable r (record_of key)
  IsStaged-IsDurable r key (item ∷ rest) all (inl e) =
      coe 1 0 (i. IsDurable r (record_of (e i))) all.0
  IsStaged-IsDurable r key (item ∷ rest) all (inr h) = IsStaged-IsDurable r key rest all.1 h
  IsStaged-IsDurable r key [] all h = absurd h

  -- The snapshot's note on content changes no record.
  pub received-Evident :
      (r : R) (local : Snapshot) (hash : Bytes)
      → Evident r local
      → Evident r (received_blob local hash)
  unfolding contains lookup received_blob
  received-Evident r local hash h = h

  request-Honest {κ} :
      {E : Type κ} (s : Session R) (object : Object) (offset : Option ℕ) (message : Message)
      → ok_or {E = SyncError E} offset SyncError.other
          >>= (λ n. ok (Message.need object.key object.blob n))
        ≡ ok message
      → Honest s message
  request-Honest s object none message e = cc
  request-Honest s object (some n) message e =
      let k : Message.need object.key object.blob n ≡ message = cc in coe 0 1 (i. Honest s (k i)) tt

  -- A request promises nothing.
  pub need_at-Honest {κ} :
      {E : Type κ} (s : Session R) (object : Object) (offset : ℕ) (message : Message)
      → need_at {E = E} object offset ≡ ok message
      → Honest s message
  unfolding need_at
  need_at-Honest s object offset message e = request-Honest s object (u32_try_from offset) message e
