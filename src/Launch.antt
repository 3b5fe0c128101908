-- ===== src/Launch.antt =====
-- `std::async(launch::async, ...)`, with which SinbohaSync, SinbohaBrainSplit and SinbohaNetService
-- (Sinboha/*.cpp) start their threads. Whether the C++ library starts the thread or throws is an
-- argument of the methods that call it.
use sinboha.Prelude.{Bool, true, false}

-- What the three `catch` blocks of a `Start` tell apart.
pub data Launch : Type 0 where
  launched system_error bad_alloc unknown_exception : Launch

-- Whether the thread runs after the call.
abbrev pub has_launched : Launch → Bool
has_launched launched = true
has_launched system_error = false
has_launched bad_alloc = false
has_launched unknown_exception = false
