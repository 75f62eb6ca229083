-- ===== src/Engine/Transports.antt =====
-- data/vpn_engine/custom_transports/registry.go: the template of a transport that sing-box does not
-- have. What sing-box defines is a parameter.
use fastflow_client.Base.{ℕ, ◌++◌}
use fastflow_client.Base.Calls.{Result, err}
use fastflow_client.Base.Text.{Text, codes}

-- `CustomTransportType`
abbrev pub custom_transport_type : Text
custom_transport_type = codes "custom-fastflow"

-- `CustomOutboundOptions`, over the options of a dialer.
pub record CustomOutboundOptions (DialerOptions : Type 0) : Type 0 where
  pub dialer_options : DialerOptions
  pub server : Text
  pub server_port : ℕ
  pub password : Text
  pub magic : Text

module _ (quote : Text → Text) where
  unfoldable pub err_not_implemented : Text → Text
  err_not_implemented tag =
      codes "custom_transports: outbound "
      ++ (quote tag ++ codes " is a template and not implemented")

  -- `NewCustomOutbound`: of its arguments only the tag is looked at.
  unfoldable pub new_custom_outbound :
      {Context Router Logger DialerOptions Outbound : Type 0}
      → Context
      → Router
      → Logger
      → Text
      → CustomOutboundOptions DialerOptions
      → Result Outbound
  unfolding err_not_implemented
  new_custom_outbound ctx router logger tag options = err (err_not_implemented tag)

-- `registerPlaceholder`, and `init` that calls it: the registry of outbounds stays as it is.
unfoldable pub register_placeholder : {Registry : Type 0} → Registry → Registry
register_placeholder registry = registry

unfoldable pub init : {Registry : Type 0} → Registry → Registry
unfolding register_placeholder
init registry = register_placeholder registry
