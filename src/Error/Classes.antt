-- ===== src/Error/Classes.antt =====
-- How the predicates of src/error.rs divide the errors, and that a category names one kind.
use text.Mathlib.Text.{◌==◌}
use justdbd.Common.{
  ℕ, suc, String, ◌≡◌, refl, sym, ap, ◌∙◌, true, false, ◌||◌, ◌&&◌, List, [], ◌∷◌, arith,
  if◌then◌else◌,
}
use justdbd.Error.{
  StorageError, io, serialization, message_pack, message_pack_decode, compression, decompression,
  checksum_mismatch, invalid_key_size, invalid_value_size, corruption, lock_failed, wal, compaction,
  config, memory, too_many_files, invalid_file_format, key_not_found, read_only, timeout, closed,
  resource_exhausted, invalid_operation, thread_pool, metrics, recovery, unknown, is_retryable,
  is_corrupt, is_client_error, is_server_error, category,
}

-- No error is blamed on both sides, each error is a client's, a server's or a corruption, and only
-- a server error is worth a retry.
pub classes_cover :
    (e : StorageError)
    → ((is_client_error e && is_server_error e) ≡ false)
      × ((is_client_error e || (is_server_error e || is_corrupt e)) ≡ true)
      × (is_retryable e ≡ true → is_server_error e ≡ true)
      × ((is_client_error e && is_corrupt e) ≡ false)
unfolding is_retryable is_corrupt is_client_error is_server_error
classes_cover (io _) = ground arith
classes_cover _ = ground arith

-- The position of the constructor in the declaration of the type.
abbrev pub kind : StorageError → ℕ
kind (io _) = 0
kind (serialization _) = 1
kind (message_pack _) = 2
kind (message_pack_decode _) = 3
kind (compression _) = 4
kind (decompression _) = 5
kind (checksum_mismatch _ _) = 6
kind (invalid_key_size _ _) = 7
kind (invalid_value_size _ _) = 8
kind (corruption _) = 9
kind (lock_failed _) = 10
kind (wal _) = 11
kind (compaction _) = 12
kind (config _) = 13
kind (memory _) = 14
kind (too_many_files _ _) = 15
kind (invalid_file_format _ _) = 16
kind key_not_found = 17
kind read_only = 18
kind (timeout _) = 19
kind closed = 20
kind (resource_exhausted _) = 21
kind (invalid_operation _) = 22
kind (thread_pool _) = 23
kind (metrics _) = 24
kind (recovery _) = 25
kind (unknown _) = 26

names : List String
names =
    "io" ∷ "serialization" ∷ "messagepack" ∷ "messagepack_decode" ∷ "compression" ∷ "decompression"
    ∷ "checksum" ∷ "invalid_key_size" ∷ "invalid_value_size" ∷ "corruption" ∷ "lock_failed" ∷ "wal"
    ∷ "compaction" ∷ "config" ∷ "memory" ∷ "too_many_files" ∷ "invalid_file_format"
    ∷ "key_not_found" ∷ "read_only" ∷ "timeout" ∷ "closed" ∷ "resource_exhausted"
    ∷ "invalid_operation" ∷ "thread_pool" ∷ "metrics" ∷ "recovery" ∷ "unknown" ∷ []

index_of : String → List String → ℕ
index_of s [] = 0
index_of s (n ∷ ns) = if n == s then 0 else suc (index_of s ns)

index-category : (e : StorageError) → index_of (category e) names ≡ kind e
unfolding category names index_of
index-category (io _) = refl
index-category _ = refl

-- Two errors of one category are of one kind.
pub category_injective : (e f : StorageError) → category e ≡ category f → kind e ≡ kind f
category_injective e f h = sym (index-category e) ∙ ap (λ s. index_of s names) h ∙ index-category f
