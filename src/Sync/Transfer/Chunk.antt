-- ===== src/Sync/Transfer/Chunk.antt =====
-- One chunk of crates/editchain-sync/src/transfer.rs: what `Source::need` sends at the next offset, and what
-- `Download::append` makes of it.
use editchain.Prelude.{
  ℕ, ◌+◌, ◌≤◌, ◌≡◌, refl, ap, ◌∙◌, true, false, not, ◌&&◌, ◌||◌, some, [], ◌∷◌, ◌++◌, length, take,
  drop, ◌==◌, is_empty, get_from, ok, arith, saturating_add, checked_add, length-take, length-drop,
  u32_try_from-lt, ltb-false, eq_refl,
}
use editchain.Collections.Map.{same, same-eq}
use editchain.Core.Ids.{Bytes}
use editchain.Sync.Action.Rules.{resume-ok, or_raise-some, raise_if-false}
use editchain.Sync.Record.{max_object_bytes}
use editchain.Sync.Message.{Object, ord_object}
use editchain.Sync.Transfer.{
  Download, Source, append, unexpected, differs, send, sent, chunk_of, chunk_bytes,
}

same_refl : (object : Object) → same object object ≡ true
same_refl object = same-eq object object (ord_object.cmp_refl object)

-- The chunk at the front of what is left.
abbrev pub front : Bytes → Bytes
front rest = take chunk_bytes rest

same_place : (object : Object) (next : ℕ) → (not (same object object) || not (next == next)) ≡ false
same_place object next = rw (same_refl object) (ground arith)

pub get_from-le :
    (bytes : Bytes) (next : ℕ) → next ≤ length bytes → get_from bytes next ≡ some (drop next bytes)
get_from-le bytes next h = ground arith

checked_add-le : (a b : ℕ) → a + b ≤ max_object_bytes → checked_add a b ≡ some (a + b)
checked_add-le a b h = ground arith

-- An empty chunk is the end of its object.
not_short :
    (chunk : Bytes) (offset total : ℕ)
    → (length chunk ≡ 0 → offset ≡ total)
    → (is_empty chunk && not (offset + length chunk == total)) ≡ false
not_short [] offset total h = let e : offset ≡ total = h refl in ground arith
not_short (x ∷ chunk) offset total h = refl

-- The next chunk of an object is what `append` expects.
expected :
    (download : Download) (rest : Bytes) (total : ℕ)
    → length download.bytes + length rest ≡ total
    → total ≤ max_object_bytes
    → differs download.total total ≡ false
    → unexpected download download.object
        (length download.bytes)
        total
        (length download.bytes + length (front rest))
        (front rest)
      ≡ false
expected download rest total e h k =
    rw
      (
        same_refl download.object,
        k,
        eq_refl (length download.bytes),
        ltb-false max_object_bytes total h,
        ltb-false total (length download.bytes + length (front rest)) room,
        ltb-false chunk_bytes (length (front rest)) (omega (arith, length-take chunk_bytes rest)),
        not_short (front rest) (length download.bytes) total last_chunk,
      )
      refl
  where
    room : length download.bytes + length (front rest) ≤ total
    room = omega (arith, length-take chunk_bytes rest)

    last_chunk : length (front rest) ≡ 0 → length download.bytes ≡ total
    last_chunk z = omega (arith, length-take chunk_bytes rest)

module _ {ℓ κ} {R : Type ℓ} {E : Type κ} where
  pub send_next :
      (object : Object) (bytes rest : Bytes) (next : ℕ) (t : Source × R)
      → t.0.active ≡ some (record { object = object; bytes = bytes; next = next })
      → drop next bytes ≡ rest
      → next ≤ length bytes
      → length bytes ≤ max_object_bytes
      → send {E = E} object next t ≡ (
        (
          sent
              (record { object = object; bytes = bytes; next = next })
              (next + length (front rest))
              t.0,
          t.1,
        ),
        ok (chunk_of object next (length bytes) (front rest)),
      )
  unfolding send
  send_next object bytes rest next t active e h k =
      resume-ok _ _ _
      ∙ or_raise-some _ _ _ _ _ active
      ∙ raise_if-false _ _ _ _ (same_place object next)
      ∙ or_raise-some _ _ _ _ _ (u32_try_from-lt (length bytes) (omega arith))
      ∙ or_raise-some _ _ _ _ _ (get_from-le bytes next h ∙ ap some e)
      ∙ resume-ok _ _ _
      ∙ or_raise-some _ _ _ _ _ (u32_try_from-lt next (omega arith))
      ∙ ap
          (λ n. (
            (sent (record { object = object; bytes = bytes; next = next }) n t.0, t.1),
            ok (chunk_of object next (length bytes) (front rest)),
          ))
          room
    where
      room : saturating_add next (length (front rest)) ≡ next + length (front rest)
      room = omega (arith, length-take chunk_bytes rest, length-drop next bytes, ap length e)

module _ {κ} {E : Type κ} where
  pub append_next :
      (download : Download) (rest : Bytes) (total : ℕ)
      → length download.bytes + length rest ≡ total
      → total ≤ max_object_bytes
      → differs download.total total ≡ false
      → append {E = E} download.object (length download.bytes) total (front rest) download ≡ (
        record download { bytes = download.bytes ++ front rest; total = some total },
        ok (length download.bytes + length (front rest) == total),
      )
  unfolding append
  append_next download rest total e h k =
      or_raise-some _ _ _ _ _ (checked_add-le (length download.bytes) (length (front rest)) room)
      ∙ resume-ok _ _ _
      ∙ raise_if-false _ _ _ _ (expected download rest total e h k)
      ∙ resume-ok _ _ _
    where
      room : length download.bytes + length (front rest) ≤ max_object_bytes
      room = omega (arith, length-take chunk_bytes rest)
