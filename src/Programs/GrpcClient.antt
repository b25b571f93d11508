-- ===== src/Programs/GrpcClient.antt =====
-- pkg/grpcclient/client.go: the target of `Dial`.
use go_holons.Common.{Option, none, some, Bool, ◌&&◌, ltb, length, if◌then◌else◌}
use go_holons.Common.Text.{Text, text, has_prefix, trim_prefix}

-- What `Dial` hands to `grpc.NewClient`: the address, and the socket of a dialer of its own.
pub record Target : Type 0 where
  pub address : Text
  pub socket : Option Text

abbrev pub unix_prefix : Text
unix_prefix = text "unix://"

-- `isUnixAddress`: more than the prefix
unfoldable pub is_unix_address : Text → Bool
is_unix_address address = ltb 7 (length address) && has_prefix address unix_prefix

-- `Dial`
unfoldable pub dial : Text → Target
unfolding is_unix_address
dial address =
    if is_unix_address address
    then record {
      address = text "passthrough:///unix";
      socket = some (trim_prefix address unix_prefix);
    }
    else record { address = address; socket = none }
