-- ===== src/Http/Failure.antt =====
-- `classify_failure` of src/http/http_engine_impl.cpp.
use download_wrapper.Base.{Bool, true, false, ◌&&◌, ◌||◌, if◌then◌else◌}
use download_wrapper.Base.Int.{ℤ, pos, leb_ℤ, eqb_ℤ}
use download_wrapper.Api.{Reason}

-- The values of `CURLcode` that the code names; `other` is any further one.
pub data CurlCode : Type 0 where
  ok http_returned_error couldnt_resolve_host couldnt_resolve_proxy couldnt_connect : CurlCode
  operation_timedout recv_error send_error partial_file got_nothing : CurlCode
  ssl_connect_error peer_failed_verification write_error other : CurlCode

-- The reason, and `*retryable`, for a response that arrived.
unfoldable pub classify_http : ℤ → Reason × Bool
classify_http http_code =
    if leb_ℤ (pos 500) http_code && leb_ℤ http_code (pos 599)
    then (Reason.network, true)
    else if eqb_ℤ http_code (pos 408) || eqb_ℤ http_code (pos 429)
    then (Reason.network, true)
    else if eqb_ℤ http_code (pos 401) || eqb_ℤ http_code (pos 403)
    then (Reason.auth, false)
    else (Reason.general, false)

unfoldable pub classify_failure : CurlCode → ℤ → Reason × Bool
unfolding classify_http
classify_failure CurlCode.ok http_code = classify_http http_code
classify_failure CurlCode.http_returned_error http_code = classify_http http_code
classify_failure CurlCode.couldnt_resolve_host _ = (Reason.network, true)
classify_failure CurlCode.couldnt_resolve_proxy _ = (Reason.network, true)
classify_failure CurlCode.couldnt_connect _ = (Reason.network, true)
classify_failure CurlCode.operation_timedout _ = (Reason.network, true)
classify_failure CurlCode.recv_error _ = (Reason.network, true)
classify_failure CurlCode.send_error _ = (Reason.network, true)
classify_failure CurlCode.partial_file _ = (Reason.network, true)
classify_failure CurlCode.got_nothing _ = (Reason.network, true)
classify_failure CurlCode.ssl_connect_error _ = (Reason.network, true)
classify_failure CurlCode.peer_failed_verification _ = (Reason.network, true)
classify_failure CurlCode.write_error _ = (Reason.general, false)
classify_failure CurlCode.other _ = (Reason.general, false)

abbrev pub is_ok : CurlCode → Bool
is_ok CurlCode.ok = true
is_ok _ = false
