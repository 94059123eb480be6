-- ===== src/Bridge/Direction.antt =====
-- mpf/mpf_stream_descriptor.go: the directions and the capabilities of a stream.
use go_mrcp.Prelude.{ℕ, ◌==◌, if◌then◌else◌, Option, none, bit_or}
use go_mrcp.Context.{stream_direction_send, stream_direction_receive}
use go_mrcp.Rtp.Media.{StreamCapabilities}

abbrev stream_direction_duplex : ℕ
stream_direction_duplex = bit_or stream_direction_send stream_direction_receive

-- `none` is the nil that is returned.
unfoldable stream_capabilities_create : ℕ → Option StreamCapabilities
stream_capabilities_create directions = none

unfoldable source_stream_capabilities_create : Option StreamCapabilities
unfolding stream_capabilities_create
source_stream_capabilities_create = stream_capabilities_create stream_direction_receive

unfoldable sink_stream_capabilities_create : Option StreamCapabilities
unfolding stream_capabilities_create
sink_stream_capabilities_create = stream_capabilities_create stream_direction_send

unfoldable stream_capabilities_clone : StreamCapabilities → Option StreamCapabilities
stream_capabilities_clone src_capabilities = none

-- The capabilities stay as they are; no error is returned.
unfoldable stream_capabilities_merge : StreamCapabilities → StreamCapabilities → StreamCapabilities
stream_capabilities_merge capabilities src_capabilities = capabilities

unfoldable pub stream_reverse_direction_get : ℕ → ℕ
stream_reverse_direction_get direction =
    if direction == stream_direction_send
    then stream_direction_receive
    else if direction == stream_direction_receive
    then stream_direction_send
    else direction
