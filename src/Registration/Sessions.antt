-- ===== src/Registration/Sessions.antt =====
-- How long the session of a worker lasts.
use urth.Prelude.{Duration, pos, negsuc, arith, ◌≤ℤ◌, ◌<ℤ◌, is_nonpositive, if◌then◌else◌}
use urth.Registration.{session_ttl_of, default_session_ttl}

-- A session lasts a positive time, at most what the server gives by its configuration or else by
-- default, and at most what the worker asked for, where it asked for a positive time.
pub session_ttl_of-bounded :
    (configured requested : Duration)
    → (pos 0 <ℤ session_ttl_of configured requested)
      × (session_ttl_of configured requested
          ≤ℤ (if is_nonpositive configured then default_session_ttl else configured))
      × (session_ttl_of configured requested
          ≤ℤ (if is_nonpositive requested then session_ttl_of configured requested else requested))
unfolding session_ttl_of
session_ttl_of-bounded (pos c) (pos r) = ground arith
session_ttl_of-bounded (pos c) (negsuc r) = ground arith
session_ttl_of-bounded (negsuc c) (pos r) = ground arith
session_ttl_of-bounded (negsuc c) (negsuc r) = ground arith
