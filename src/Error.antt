-- ===== src/Error.antt =====
-- src/error.rs: `StorageError`, its constructors, the predicates on it and its category.
--
-- A payload of a type outside the repository (`bincode`, `rmp_serde`) is the text that it prints, an
-- `io::Error` is its kind, and a `Duration` is a number of nanoseconds. The `Display` strings, which
-- `thiserror` generates, are left out.
pub mod Classes
mod Tests
use justdbd.Common.{ℕ, ◌*◌, ◌^◌, String, Bool, true, false}
use justdbd.Common.Outcome.{Outcome}

-- the kinds of `std::io::Error` that the operations of this program can meet
pub data IoError : Type 0 where
  not_found permission_denied already_exists unexpected_eof invalid_input other : IoError

pub data BincodeError : Type 0 where
  encode : String → BincodeError
  decode : String → BincodeError

pub data StorageError : Type 0 where
  io : IoError → StorageError
  serialization : BincodeError → StorageError
  message_pack message_pack_decode : String → StorageError
  compression decompression : String → StorageError
  checksum_mismatch : (expected actual : ℕ) → StorageError
  invalid_key_size invalid_value_size : (size max_size : ℕ) → StorageError
  corruption lock_failed wal compaction config memory : String → StorageError
  too_many_files : (current limit : ℕ) → StorageError
  invalid_file_format : (file_type path : String) → StorageError
  key_not_found read_only : StorageError
  timeout : (duration : ℕ) → StorageError
  closed : StorageError
  resource_exhausted invalid_operation thread_pool metrics recovery unknown : String → StorageError

-- `pub type Result<T>`, with the panics
abbrev pub Result {ℓ} : Type ℓ → Type ℓ
Result A = Outcome StorageError A

pub is_retryable : StorageError → Bool
is_retryable (io _) = true
is_retryable (lock_failed _) = true
is_retryable (timeout _) = true
is_retryable (resource_exhausted _) = true
is_retryable (too_many_files _ _) = true
is_retryable (thread_pool _) = true
is_retryable _ = false

pub is_corrupt : StorageError → Bool
is_corrupt (corruption _) = true
is_corrupt (checksum_mismatch _ _) = true
is_corrupt (invalid_file_format _ _) = true
is_corrupt _ = false

pub is_client_error : StorageError → Bool
is_client_error (invalid_key_size _ _) = true
is_client_error (invalid_value_size _ _) = true
is_client_error key_not_found = true
is_client_error read_only = true
is_client_error closed = true
is_client_error (invalid_operation _) = true
is_client_error (config _) = true
is_client_error _ = false

pub is_server_error : StorageError → Bool
is_server_error (io _) = true
is_server_error (serialization _) = true
is_server_error (message_pack _) = true
is_server_error (message_pack_decode _) = true
is_server_error (compression _) = true
is_server_error (decompression _) = true
is_server_error (corruption _) = true
is_server_error (lock_failed _) = true
is_server_error (wal _) = true
is_server_error (compaction _) = true
is_server_error (memory _) = true
is_server_error (too_many_files _ _) = true
is_server_error (timeout _) = true
is_server_error (resource_exhausted _) = true
is_server_error (thread_pool _) = true
is_server_error (metrics _) = true
is_server_error (recovery _) = true
is_server_error (unknown _) = true
is_server_error _ = false

pub category : StorageError → String
category (io _) = "io"
category (serialization _) = "serialization"
category (message_pack _) = "messagepack"
category (message_pack_decode _) = "messagepack_decode"
category (compression _) = "compression"
category (decompression _) = "decompression"
category (checksum_mismatch _ _) = "checksum"
category (invalid_key_size _ _) = "invalid_key_size"
category (invalid_value_size _ _) = "invalid_value_size"
category (corruption _) = "corruption"
category (lock_failed _) = "lock_failed"
category (wal _) = "wal"
category (compaction _) = "compaction"
category (config _) = "config"
category (timeout _) = "timeout"
category (memory _) = "memory"
category (too_many_files _ _) = "too_many_files"
category (invalid_file_format _ _) = "invalid_file_format"
category key_not_found = "key_not_found"
category read_only = "read_only"
category closed = "closed"
category (resource_exhausted _) = "resource_exhausted"
category (invalid_operation _) = "invalid_operation"
category (thread_pool _) = "thread_pool"
category (metrics _) = "metrics"
category (recovery _) = "recovery"
category (unknown _) = "unknown"

-- `impl From<io::ErrorKind>`
from_io : IoError → StorageError
from_io k = io k

-- `impl From<AcquireError>`; the error itself is dropped
from_acquire : StorageError
from_acquire = lock_failed "failed to acquire lock"

-- `impl From<SendError>` and `impl From<RecvError>`
from_send : StorageError
from_send = thread_pool "failed to send message to thread pool"

from_recv : StorageError
from_recv = thread_pool "failed to receive message from thread pool"

-- the two cases of the channel's error that the source matches on
pub data RecvTimeoutError : Type 0 where
  timed_out disconnected : RecvTimeoutError

from_recv_timeout : RecvTimeoutError → StorageError
from_recv_timeout timed_out = timeout (1 * 10 ^ 9)
from_recv_timeout disconnected = thread_pool "channel disconnected"
