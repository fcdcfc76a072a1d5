-- ===== src/Common/Url.antt =====
-- The addresses of `net/url`.
use Prim.Native.String.{String}

-- A parsed address, as far as the clients look at it.
pub record Url : Type 0 where
  pub address : String
  pub scheme : String
  pub host : String
