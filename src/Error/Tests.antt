-- ===== src/Error/Tests.antt =====
-- src/error.rs: examples.
use justdbd.Common.{◌^◌, ◌≡◌, refl, true, false, ◌&&◌, ◌||◌}
use justdbd.Error.{
  not_found, io, timeout, is_retryable, is_corrupt, is_client_error, is_server_error, from_io,
  from_acquire, from_send, from_recv, timed_out, disconnected, from_recv_timeout,
}
use justdbd.Error.Classes.{classes_cover}

classes_cover_example :
    ((is_client_error (timeout 5) && is_server_error (timeout 5)) ≡ false)
    × ((is_client_error (timeout 5) || (is_server_error (timeout 5) || is_corrupt (timeout 5)))
        ≡ true)
    × (is_retryable (timeout 5) ≡ true → is_server_error (timeout 5) ≡ true)
    × ((is_client_error (timeout 5) && is_corrupt (timeout 5)) ≡ false)
classes_cover_example = classes_cover (timeout 5)

conversions :
    (from_io not_found ≡ io not_found)
    × (is_retryable from_acquire ≡ true)
    × (is_retryable from_send ≡ true)
    × (is_retryable from_recv ≡ true)
    × (from_recv_timeout timed_out ≡ timeout (10 ^ 9))
    × (is_retryable (from_recv_timeout disconnected) ≡ true)
unfolding from_io from_acquire from_send from_recv from_recv_timeout is_retryable
conversions = (refl, refl, refl, refl, refl, refl)
