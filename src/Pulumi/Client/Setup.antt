-- ===== src/Pulumi/Client/Setup.antt =====
-- `NewClient` of client.go. The HTTP client is the transport's, and durations are in milliseconds.
use nobus_csi.Common.{
  ℕ, ◌<◌, ◌||◌, String, Option, none, some, ◌==◌, eqb, arith, if◌then◌else◌, [], Bool-cases, inl,
  inr,
}
use nobus_csi.Common.Int.{ℤ, pos, negsuc}
use nobus_csi.Common.Text.{or_else, trim_slashes}
use nobus_csi.Common.Url.{Url}
use nobus_csi.Cloud.Errors.{Result, ok, err, wrap}

pub record ClientConfig : Type 0 where
  pub endpoint : String
  pub api_key : String
  pub poll : ℤ

pub record Client : Type 0 where
  pub base : Url
  pub api_key : String
  pub poll : ℕ

abbrev pub default_endpoint : String
default_endpoint = "https://cloud-api.nobus.io"

-- Two seconds, unless a time is given.
poll_or_default : ℤ → ℕ
poll_or_default (pos n) = if eqb n 0 then 2_000 else n
poll_or_default (negsuc n) = 2_000

made_client : ClientConfig → Option Url → Result Client
unfolding poll_or_default
made_client cfg none = err (wrap [])
made_client cfg (some base) =
    if base.scheme == "" || base.host == ""
    then err (wrap [])
    else if cfg.api_key == ""
    then err (wrap [])
    else ok (record { base = base; api_key = cfg.api_key; poll = poll_or_default cfg.poll })

-- `parse` is `url.Parse`.
unfoldable pub new_client : (String → Option Url) → ClientConfig → Result Client
unfolding made_client trim_slashes
new_client parse cfg =
    made_client cfg (parse (or_else (trim_slashes cfg.endpoint) default_endpoint))

poll_or_default-positive : (n : ℤ) → 0 < poll_or_default n
unfolding poll_or_default
poll_or_default-positive (pos n) = ground arith
poll_or_default-positive (negsuc n) = omega arith

-- A client that is made waits between its polls.
abbrev pub Waits : Result Client → Type 0
Waits (ok client) = 0 < client.poll
Waits (err e) = Unit

made_client-Waits : (cfg : ClientConfig) (base : Option Url) → Waits (made_client cfg base)
unfolding made_client
made_client-Waits cfg none = tt
made_client-Waits cfg (some base) = elim (Bool-cases (base.scheme == "" || base.host == "")) [
  | inl no_address ↦ rw no_address tt
  | inr absolute ↦ rw absolute (elim (Bool-cases (cfg.api_key == "")) [
    | inl no_key ↦ rw no_key tt
    | inr keyed ↦ rw keyed (poll_or_default-positive cfg.poll)
  ])
]

-- Whatever the configuration, a client that is made waits some time between its polls.
pub new_client-Waits :
    (parse : String → Option Url) (cfg : ClientConfig) → Waits (new_client parse cfg)
unfolding new_client
new_client-Waits parse cfg =
    made_client-Waits cfg (parse (or_else (trim_slashes cfg.endpoint) default_endpoint))
