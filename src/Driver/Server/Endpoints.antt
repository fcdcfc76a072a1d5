-- ===== src/Driver/Server/Endpoints.antt =====
-- Which endpoints the server listens on.
use Prim.Native.String as Native
use nobus_csi.Common.{
  String, ◌<>◌, Option, none, some, ◌≡◌, refl, ◌≢◌, arith, eq_iff, true, false, ◌↔◌, Bool,
  if◌then◌else◌,
}
use nobus_csi.Common.Text.{strip_prefix}
use nobus_csi.Common.Text.Laws.{strip_prefix-append, append-strip_prefix}
use nobus_csi.Driver.Server.{
  Start, started, refused, unix_address, address_of, has_prefix, tcp_unsupported,
}

-- An endpoint has one scheme.
not_tcp :
    (endpoint path : String)
    → strip_prefix "unix://" endpoint ≡ some path
    → strip_prefix "tcp://" endpoint ≡ none
unfolding strip_prefix
not_tcp Native.[] path h = refl
not_tcp (Native.◌∷◌ d t) path h = ground arith

address_of_iff :
    (r : Option String) (path : String)
    → (address_of r ≡ started path) ↔ ((r ≡ some path) × (path ≢ ""))
unfolding address_of
address_of_iff none path = (λ h. cc, λ h. cc)
address_of_iff (some address) path = (
  λ h. (ground (arith, eq_iff address ""), ground (arith, eq_iff address "", eq_iff path "")),
  λ h. ground (arith, eq_iff address "", eq_iff path "", h.0, h.1),
)

not_refused :
    (tcp : Bool) (other : Start String) (path : String)
    → (if tcp then refused tcp_unsupported else other) ≡ started path
    → other ≡ started path
not_refused true other path h = cc
not_refused false other path h = h

heard :
    (endpoint path : String)
    → unix_address endpoint ≡ started path
    → (strip_prefix "unix://" endpoint ≡ some path) × (path ≢ "")
unfolding unix_address
heard endpoint path h =
    (address_of_iff (strip_prefix "unix://" endpoint) path).0
      (not_refused (has_prefix (strip_prefix "tcp://" endpoint)) _ path h)

listens :
    (endpoint path : String)
    → strip_prefix "unix://" endpoint ≡ some path
    → path ≢ ""
    → unix_address endpoint ≡ started path
unfolding unix_address has_prefix
listens endpoint path h k =
    rw (not_tcp endpoint path h) ((address_of_iff (strip_prefix "unix://" endpoint) path).1 (h, k))

-- The server listens at a path exactly where the endpoint is "unix://" and the path, which is not
-- empty.
pub unix_address_iff :
    (endpoint path : String)
    → (unix_address endpoint ≡ started path) ↔ ((endpoint ≡ "unix://" <> path) × (path ≢ ""))
unix_address_iff endpoint path = (
  λ h. (
    append-strip_prefix "unix://" endpoint path (heard endpoint path h).0,
    (heard endpoint path h).1,
  ),
  λ (h, k). listens endpoint path (rw h (strip_prefix-append "unix://" path)) k,
)
