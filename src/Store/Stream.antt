-- ===== src/Store/Stream.antt =====
-- The events of src/run_farm/store.py, read back from a MemoryBlobStore.
use Prim.Native.String.{compare, ◌++◌ as appended}
use package.text.Mathlib.Text.{starts_with, is_lt}
use text.Mathlib.TextEquality.{starts_with_iff}
use mathlib.Core.List.{append-nil}
use run_farm.Prelude.{
  ◌≡◌, refl, ◌∙◌, ap, sym, inl, inr, Bool-cases, String, true, false, List, [], ◌∷◌, ◌++◌, Dict,
  lookup, insert, has, lookup-insert, ◌==◌, string_eq, beq_refl, any, all, any-sorted, sorted,
  sorted-append, if◌then◌else◌, arith,
}
use run_farm.Json.{Value}
use run_farm.Config.{Config}
use run_farm.Store.{Blob, event_blob, events_prefix, event_key, emit, events, read_blobs}
use run_farm.Store.Memory.{memory_store, list_keys, list_all}

module _ {B : Type 0} where
  list_keys-insert :
      (k p : String) (b : B) (d : Dict String B)
      → list_keys (insert k b d) p ≡ (
          if has k d
          then list_keys d p
          else list_keys d p ++ (if starts_with k p then k ∷ [] else []))
  unfolding list_keys insert has lookup
  list_keys-insert k p b [] = ground arith
  list_keys-insert k p b ((j, c) ∷ d) =
      ground (arith, list_keys-insert k p b d, string_eq.beq_iff j k)

-- A text that is later than all of them is none of them.
later_differs :
    (k : String) (ks : List String)
    → all (λ j. is_lt (compare j k)) ks ≡ true
    → any (λ j. j == k) ks ≡ false
later_differs k [] h = refl
later_differs k (j ∷ ks) h = ground (arith, later_differs k ks)

event_key_starts :
    (base name blob_key : String)
    → starts_with (event_key base name blob_key) (events_prefix base name) ≡ true
unfolding event_key
event_key_starts base name blob_key =
    (starts_with_iff (event_key base name blob_key) (events_prefix base name)).1
      (appended blob_key ".json", refl)

module _ {S : Type 0} where
  read_blobs-other :
      (k : String) (b : Blob S) (d : Dict String (Blob S)) (ks : List String)
      → any (λ j. j == k) ks ≡ false
      → read_blobs (memory_store (Blob S)) (insert k b d) ks
        ≡ read_blobs (memory_store (Blob S)) d ks
  unfolding read_blobs
  read_blobs-other k b d [] h = refl
  read_blobs-other k b d (j ∷ ks) h = ground (
    arith,
    lookup-insert k j b d,
    string_eq.beq_iff j k,
    string_eq.beq_iff k j,
    read_blobs-other k b d ks,
  )

  read_blobs-append :
      (d : Dict String (Blob S)) (xs ys : List String)
      → read_blobs (memory_store (Blob S)) d (xs ++ ys)
        ≡ read_blobs (memory_store (Blob S)) d xs ++ read_blobs (memory_store (Blob S)) d ys
  unfolding read_blobs
  read_blobs-append d [] ys = refl
  read_blobs-append d (j ∷ xs) ys = ground (arith, read_blobs-append d xs ys)

  read_last :
      (k : String) (b : Blob S) (d : Dict String (Blob S))
      → read_blobs (memory_store (Blob S)) (insert k b d) (k ∷ []) ≡ b ∷ []
  unfolding read_blobs
  read_last k b d = ground (arith, lookup-insert k k b d, beq_refl k)

  read_sorted-insert :
      (k p : String) (b : Blob S) (d : Dict String (Blob S))
      → (starts_with k p ≡ true → all (λ j. is_lt (compare j k)) (list_keys d p) ≡ true)
      → read_blobs (memory_store (Blob S)) (insert k b d) (sorted (list_keys (insert k b d) p))
        ≡ read_blobs (memory_store (Blob S)) d (sorted (list_keys d p))
          ++ (if starts_with k p then b ∷ [] else [])
  read_sorted-insert k p b d later = elim (Bool-cases (starts_with k p)) [
    | inl own ↦
        (let fresh = later_differs k (list_keys d p) (later own) in
          let old =
            read_blobs-other k b d (sorted (list_keys d p))
              (any-sorted (λ j. j == k) (list_keys d p) ∙ fresh) in
          let absent : has k d ≡ false = ground (arith, list_all d p k) in
          rw (list_keys-insert k p b d) (
            rw absent (
              rw own (
                rw (sorted-append k (list_keys d p) (later own)) (
                  read_blobs-append (insert k b d) (sorted (list_keys d p)) (k ∷ [])
                  ∙ ap (λ r. r ++ read_blobs (memory_store (Blob S)) (insert k b d) (k ∷ [])) old
                  ∙ ap (λ r. read_blobs (memory_store (Blob S)) d (sorted (list_keys d p)) ++ r)
                      (read_last k b d))))))
    | inr foreign ↦
        (let fresh : any (λ j. j == k) (list_keys d p) ≡ false = ground (arith, list_all d p k) in
          let old =
            read_blobs-other k b d (sorted (list_keys d p))
              (any-sorted (λ j. j == k) (list_keys d p) ∙ fresh) in
          let same : list_keys (insert k b d) p ≡ list_keys d p =
            ground (arith, list_keys-insert k p b d, append-nil (list_keys d p)) in
          rw same (
            rw foreign (
              old
              ∙ sym (append-nil (read_blobs (memory_store (Blob S)) d (sorted (list_keys d p)))))))
  ]

  -- Over a MemoryBlobStore, the events of a run are read, after an event is emitted, as before with the event put
  -- last if its key has the run's prefix, and as before if not. The key of an event always has the prefix of its
  -- own run. The hypothesis: where the key has the prefix that is read, it is later than each key read there; of
  -- streams with another prefix nothing is assumed.
  pub events-emit :
      (base blob_key name : String) (d : Dict String (Blob S)) (c : Config) (v : Value)
      → (starts_with (event_key base c.run_name blob_key) (events_prefix base name) ≡ true
          → all
              (λ j. is_lt (compare j (event_key base c.run_name blob_key)))
              (list_keys d (events_prefix base name))
            ≡ true)
      → (events (memory_store (Blob S)) base (emit (memory_store (Blob S)) base blob_key d c v) name
          ≡ events (memory_store (Blob S)) base d name
            ++ (if starts_with (event_key base c.run_name blob_key) (events_prefix base name)
                then event_blob v ∷ []
                else []))
        × (starts_with (event_key base c.run_name blob_key) (events_prefix base c.run_name) ≡ true)
  unfolding events emit
  events-emit base blob_key name d c v later = (
    read_sorted-insert (event_key base c.run_name blob_key) (events_prefix base name) (event_blob v)
        d later,
    event_key_starts base c.run_name blob_key,
  )
