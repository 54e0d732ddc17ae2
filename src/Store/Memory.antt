-- ===== src/Store/Memory.antt =====
-- src/run_farm/store.py, MemoryBlobStore: a dict.
use package.text.Mathlib.Text.{starts_with}
use run_farm.Prelude.{
  ◌≡◌, refl, ap, inl, inr, Bool-cases, String, Bool, true, ◌&&◌, List, [], ◌∷◌, map, Dict, lookup,
  insert, has, lookup-insert, ◌==◌, string_eq, any, keep_if, arith,
}
use run_farm.Store.{BlobStore, IsBlobStore}

unfoldable pub list_keys : {B : Type 0} → Dict String B → String → List String
list_keys d p = keep_if (λ k. starts_with k p) (map (λ kv. kv.0) d)

abbrev pub memory_store : (B : Type 0) → BlobStore B (Dict String B)
memory_store B = record {
  get = λ d k. lookup k d;
  put = λ d k b. insert k b d;
  exists = λ d k. has k d;
  list = list_keys;
}

any-keep_if :
    (p q : String → Bool) (xs : List String) → any p (keep_if q xs) ≡ any (λ x. p x && q x) xs
any-keep_if p q [] = refl
any-keep_if p q (x ∷ xs) = ground (arith, any-keep_if p q xs)

pub list_all :
    {B : Type 0} (d : Dict String B) (p k : String)
    → any (λ j. j == k) (list_keys d p) ≡ (has k d && starts_with k p)
unfolding list_keys has lookup
list_all [] p k = refl
list_all ((j, b) ∷ d) p k =
    let same =
      λ (h : (j == k) ≡ true). ap (λ (t : String). starts_with t p) ((string_eq.beq_iff j k).0 h) in
    elim (Bool-cases (j == k)) [
      | inl e ↦ ground (arith, same e, list_all d p k)
      | inr ne ↦ ground (arith, list_all d p k)
    ]

-- The dict keeps the contract of a blob store.
pub memory_store-IsBlobStore : (B : Type 0) → IsBlobStore (memory_store B)
unfolding has
memory_store-IsBlobStore B = record {
  get-put = λ d k j b. lookup-insert k j b d;
  exists-get = λ d k. refl;
  list_all = list_all;
}
